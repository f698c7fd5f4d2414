-- ===== src/Plan/Links/Words.antt =====
-- plan.go: the states of the trie by the tokens that lead to them, the last token first.
use casei.Base.{
  ℕ, zero, suc, Option, some, none, List, [], ◌∷◌, arith, length, ◌≡◌, ◌<◌, ◌≤◌, ◌>>=◌, refl, ap,
  take, inl, inr, ◌∙◌, sym, Option-cases, ap₂,
}
use mathlib.Core.Option.{some-injective}
use casei.Plan.Trie.{PlanNode}
use casei.Plan.Trie.Tree.{edge_at, Tree}
use casei.Plan.Trie.Edges.{walk}

unfoldable pub state_of : List PlanNode → List ℕ → Option ℕ
state_of nodes [] = some 0
state_of nodes (token ∷ word) = state_of nodes word >>= λ state. edge_at nodes state token

pub state_of-cons :
    (nodes : List PlanNode) (token : ℕ) (word : List ℕ) (state : ℕ)
    → state_of nodes word ≡ some state
    → state_of nodes (token ∷ word) ≡ edge_at nodes state token
unfolding state_of
state_of-cons nodes token word state e = rw e refl

pub state_of-missing :
    (nodes : List PlanNode) (token : ℕ) (word : List ℕ)
    → state_of nodes word ≡ none
    → state_of nodes (token ∷ word) ≡ none
unfolding state_of
state_of-missing nodes token word e = rw e refl

-- The state before the last token.
pub before_last :
    (nodes : List PlanNode) (token : ℕ) (word : List ℕ) (end : ℕ)
    → state_of nodes (token ∷ word) ≡ some end
    → (state : ℕ) × (state_of nodes word ≡ some state) × (edge_at nodes state token ≡ some end)
before_last nodes token word end e = elim (Option-cases (state_of nodes word)) [
  | inl missing ↦ absurd (let h = state_of-missing nodes token word missing in cc)
  | inr (state, is) ↦ (state, is, sym (state_of-cons nodes token word state is) ∙ e)
]

module _ (nodes : List PlanNode) (tree : Tree nodes) where
  -- A state is no less than the count of the tokens that lead to it.
  pub state_of-depth :
      (word : List ℕ) (state : ℕ)
      → 0 < length nodes
      → state_of nodes word ≡ some state
      → (length word ≤ state) × (state < length nodes)
  unfolding state_of
  state_of-depth [] state root e =
      let z : 0 ≡ state = some-injective _ _ e in (omega arith, omega arith)
  state_of-depth (t ∷ word) state root e =
      let (before, is, edge) = before_last nodes t word state e in
      let (deep, inside) = state_of-depth word before root is in
      let (up, inside') = tree.rising before t state edge in (omega arith, inside')

  -- One word leads to a state.
  pub state_of-injective :
      (word word' : List ℕ) (state : ℕ)
      → state_of nodes word ≡ some state
      → state_of nodes word' ≡ some state
      → word ≡ word'
  unfolding state_of
  state_of-injective [] [] state e e' = refl
  state_of-injective [] (t ∷ word') state e e' =
      let (before, is, edge) = before_last nodes t word' state e' in
      let (up, inside) = tree.rising before t state edge in
      let z : 0 ≡ state = some-injective _ _ e in absurd (omega arith)
  state_of-injective (t ∷ word) [] state e e' =
      let (before, is, edge) = before_last nodes t word state e in
      let (up, inside) = tree.rising before t state edge in
      let z : 0 ≡ state = some-injective _ _ e' in absurd (omega arith)
  state_of-injective (t ∷ word) (t' ∷ word') state e e' =
      let (before, is, edge) = before_last nodes t word state e in
      let (before', is', edge') = before_last nodes t' word' state e' in
      let (same, token) = tree.parent before t before' t' state edge edge' in
      ap₂ (λ x xs. x ∷ xs) token (state_of-injective word word' before' (is ∙ ap some same) is')

  pub state_of-zero : (word : List ℕ) → state_of nodes word ≡ some 0 → word ≡ []
  unfolding state_of
  state_of-zero word e = state_of-injective word [] 0 e refl

-- The tokens of a walk, the last one first.
unfoldable pub rev_onto : List ℕ → List ℕ → List ℕ
rev_onto [] word = word
rev_onto (token ∷ tokens) word = rev_onto tokens (token ∷ word)

pub walk-state_of :
    (nodes : List PlanNode) (tokens word : List ℕ) (state end : ℕ)
    → state_of nodes word ≡ some state
    → walk nodes state tokens ≡ some end
    → state_of nodes (rev_onto tokens word) ≡ some end
unfolding walk rev_onto
walk-state_of nodes [] word state end e w = e ∙ w
walk-state_of nodes (t ∷ tokens) word state end e w = elim (Option-cases (edge_at nodes state t)) [
  | inl missing ↦ absurd (let w' = rw missing at w in cc)
  | inr (next, edge) ↦
      let w' : walk nodes next tokens ≡ some end = rw edge at w in
      walk-state_of nodes tokens (t ∷ word) next end (state_of-cons nodes t word state e ∙ edge) w'
]

module _ {ℓ} {A : Type ℓ} where
  pub take-take : (m n : ℕ) (xs : List A) → m ≤ n → take m (take n xs) ≡ take m xs
  take-take zero n xs h = refl
  take-take (suc m) zero xs h = absurd (omega arith)
  take-take (suc m) (suc n) [] h = refl
  take-take (suc m) (suc n) (x ∷ xs) h = ap (λ ys. x ∷ ys) (take-take m n xs (omega arith))

  pub length-take : (n : ℕ) (xs : List A) → n ≤ length xs → length (take n xs) ≡ n
  length-take zero xs h = refl
  length-take (suc n) [] h = absurd (omega arith)
  length-take (suc n) (x ∷ xs) h = ap suc (length-take n xs (omega arith))

  pub take_all : (xs : List A) → take (length xs) xs ≡ xs
  take_all [] = refl
  take_all (x ∷ xs) = ap (λ ys. x ∷ ys) (take_all xs)

  pub take-nil : (n : ℕ) → take {A = A} n [] ≡ []
  take-nil zero = refl
  take-nil (suc n) = refl
