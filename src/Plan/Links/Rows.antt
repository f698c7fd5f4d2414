-- ===== src/Plan/Links/Rows.antt =====
-- plan.go: one row of the dense transitions of `finish`.
use casei.Base.{
  length-replicate, ℕ, ◌==◌, leb, zero, suc, ◌%◌, ◌^◌, Option, some, none, List, [], ◌∷◌, arith,
  length, get_or, set, ◌≡◌, ◌<◌, ◌≤◌, refl, ap, replicate, take, inl, inr, Bool-cases, ◌≢◌, ◌∙◌,
  sym, Option-cases, length-set, get_or-set_of_lt,
}
use mathlib.Core.Path.{subst}
use casei.Plan.Tokens.{Table, look}
use casei.Plan.Trie.{PlanNode, node_at}
use casei.Plan.Trie.Tree.{edge_at, Tree, Keys}
use casei.Plan.Links.{put_edges, max_dense_transitions}
use casei.Plan.Links.Words.{state_of, state_of-cons, take-take, length-take, take_all}
use casei.Plan.Links.Climb.{Deepest, taken-Deepest, root-Deepest}
use casei.Plan.Links.Advance.{Deepest-lift}

length-put_edges : (edges : Table) (row : List ℕ) → length (put_edges row edges) ≡ length row
unfolding put_edges
length-put_edges [] row = refl
length-put_edges ((k, v) ∷ edges) row =
    length-put_edges edges (set row k (v % 2 ^ 32)) ∙ length-set row k (v % 2 ^ 32)

abbrev entry : Option ℕ → ℕ → ℕ
entry none old = old
entry (some child) old = child % 2 ^ 32

get_or-put_edges :
    (edges : Table) (row : List ℕ) (token : ℕ)
    → Keys edges
    → token < length row
    → get_or (put_edges row edges) token 0 ≡ entry (look edges token) (get_or row token 0)
unfolding put_edges look Keys
get_or-put_edges [] row token keys h = refl
get_or-put_edges ((k, v) ∷ edges) row token keys h =
    let size = length-set row k (v % 2 ^ 32) in
    let at = get_or-set_of_lt row k token (v % 2 ^ 32) 0 h in
    let rest = get_or-put_edges edges (set row k (v % 2 ^ 32)) token keys.1 (omega arith) in
    elim (Bool-cases (k == token)) [
      | inl here ↦
          let q : k ≡ token = ground arith in
          let missing : look edges token ≡ none = subst (λ t. look edges t ≡ none) q keys.0 in
          let rest' = rw missing at rest in rw here (rest' ∙ rw here at at)
      | inr other ↦ rw other (rest ∙ ap (entry (look edges token)) (rw other at at))
    ]

pub get_or_default {ℓ} :
    {A : Type ℓ} (xs : List A) (i : ℕ) (d d' : A) → i < length xs → get_or xs i d ≡ get_or xs i d'
get_or_default [] i d d' h = absurd (omega arith)
get_or_default (x ∷ xs) zero d d' h = refl
get_or_default (x ∷ xs) (suc i) d d' h = get_or_default xs i d d' (omega arith)

pub get_or-replicate {ℓ} : {A : Type ℓ} (n i : ℕ) (a : A) → get_or (replicate n a) i a ≡ a
get_or-replicate zero i a = refl
get_or-replicate (suc n) zero a = refl
get_or-replicate (suc n) (suc i) a = get_or-replicate n i a

module _ (base : List PlanNode) (tree : Tree base) (root : 0 < length base) (stride : ℕ)
    (small : length base ≤ max_dense_transitions) where
  -- The row gives, for each token but 0, the state that follows the one of the word.
  pub record RowRight (word : List ℕ) (row : List ℕ) : Type 0 where
    pub width : length row ≡ stride
    pub right :
        (token : ℕ) → token ≢ 0 → token < stride → Deepest base (token ∷ word) (get_or row token 0)

  -- A row for the tokens without an edge, with the edges put in.
  edges-RowRight :
      (word row : List ℕ) (state : ℕ)
      → state_of base word ≡ some state
      → length row ≡ stride
      → ((token : ℕ)
          → token ≢ 0
          → token < stride
          → edge_at base state token ≡ none
          → Deepest base (token ∷ word) (get_or row token 0))
      → RowRight word (put_edges row (node_at base state).edges)
  unfolding edge_at
  edges-RowRight word row state is width old =
      let edges = (node_at base state).edges in
      record {
        width = length-put_edges edges row ∙ width;
        right = λ token real below.
            let at = get_or-put_edges edges row token (tree.keys state) (omega arith) in
            elim (Option-cases (edge_at base state token)) [
              | inl missing ↦
                  let at' = rw missing at at in
                  subst (Deepest base (token ∷ word)) (sym at') (old token real below missing)
              | inr (child, edge) ↦
                  let (up, inside) = tree.rising state token child edge in
                  let at' : get_or (put_edges row edges) token 0 ≡ child % 2 ^ 32 = rw edge at at in
                  let whole : child % 2 ^ 32 ≡ child = omega arith in
                  subst (Deepest base (token ∷ word)) (sym (at' ∙ whole)) (
                    taken-Deepest base word token (length word) state child
                      (record {
                        inside = omega arith;
                        is = ap (state_of base) (take_all word) ∙ is;
                        most = λ m h le. absurd (omega arith);
                      })
                      edge)
            ];
      }

  pub root-RowRight : RowRight [] (put_edges (replicate stride 0) (node_at base 0).edges)
  unfolding state_of
  root-RowRight =
      edges-RowRight [] (replicate stride 0) 0 refl (length-replicate stride 0)
        (λ token real below missing.
          subst (Deepest base (token ∷ [])) (sym (get_or-replicate stride token 0)) (
            root-Deepest base tree [] token 0
              (record { inside = omega arith; is = refl; most = λ m h le. absurd (omega arith) })
              missing))

  -- Where the whole word has no state, its longest end with one is that of the rest.
  widen-Deepest :
      (text : List ℕ) (n state : ℕ)
      → length text ≡ suc n
      → state_of base text ≡ none
      → Deepest base (take n text) state
      → Deepest base text state
  widen-Deepest text n state size missing d =
      let inside = d.inside in
      let short = length-take n text (omega arith) in
      let again = λ (m : ℕ) (h : m ≤ n). take-take m n text h in
      record {
        units = d.units;
        inside = omega arith;
        is = ap (state_of base) (sym (again d.units (omega arith))) ∙ d.is;
        most = λ m h le. elim (Bool-cases (leb m n)) [
          | inl low ↦
              let le' : m ≤ n = ground arith in
              ap (state_of base) (sym (again m le')) ∙ d.most m h (omega arith)
          | inr high ↦
              let q : length text ≡ m = ground arith in
              ap (state_of base) (ap (λ j. take j text) (sym q) ∙ take_all text) ∙ missing
        ];
      }

  -- The row of a state is that of its failure link with the state's edges put in.
  pub state-RowRight :
      (word row : List ℕ) (state failure n : ℕ)
      → state_of base word ≡ some state
      → length word ≡ suc n
      → (d : Deepest base (take n word) failure) → RowRight (take d.units (take n word)) row
      → RowRight word (put_edges row (node_at base state).edges)
  state-RowRight word row state failure n is size d r =
      edges-RowRight word row state is r.width (λ token real below missing.
        widen-Deepest (token ∷ word) (suc n) (get_or row token 0) (ap suc size)
          (state_of-cons base token word state is ∙ missing)
          (Deepest-lift base (take n word) token failure (get_or row token 0) d
            (r.right token real below)))
