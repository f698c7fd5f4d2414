-- ===== src/Plan/Links/Seen.antt =====
-- plan.go: the states that `finish` has put into its queue, and one step of its inner loop.
use casei.Base.{
  ℕ, Bool, ◌&&◌, ◌||◌, ◌==◌, suc, true, false, some, List, [], ◌∷◌, arith, length, ◌≡◌, ◌<◌, ◌≤◌,
  not, refl, ap, take, ◌≢◌, any, sym, ◌++◌, any-append,
}
use mathlib.Core.Path.{subst}
use casei.Plan.Trie.{PlanNode, node_at}
use casei.Plan.Links.Words.{state_of}
use casei.Plan.Links.Climb.{Deepest}
use casei.Plan.Links.Inherit.{Inherits}

-- Whether the state is in the list.
abbrev pub has : List ℕ → ℕ → Bool
has states k = any (λ y. y == k) states

-- No state stands twice in the list.
abbrev pub apart : List ℕ → Bool
apart [] = true
apart (k ∷ states) = not (has states k) && apart states

-- The failure link of the state of the word, and its output, are the final ones.
pub record Done (base nodes : List PlanNode) (word : List ℕ) (state : ℕ) : Type 0 where
  pub fails :
      (n : ℕ) → length word ≡ suc n → Deepest base (take n word) (node_at nodes state).failure
  pub inherits : Inherits base word (node_at nodes state).output

-- The failure link of each state in the list leads to the root or to a state before it.
abbrev pub Ranked : List PlanNode → List ℕ → List ℕ → Type 0
Ranked nodes before [] = Unit
Ranked nodes before (k ∷ states) =
    (((node_at nodes k).failure == 0 || has before (node_at nodes k).failure) ≡ true)
    × Ranked nodes (before ++ k ∷ []) states

-- The states in the list are done, the others are as in the trie.
pub record Seen (base nodes : List PlanNode) (states : List ℕ) : Type 0 where
  pub same : (k : ℕ) → (node_at nodes k).edges ≡ (node_at base k).edges
  pub size : length nodes ≡ length base
  pub done :
      (word : List ℕ) (k : ℕ)
      → state_of base word ≡ some k
      → has states k ≡ true
      → Done base nodes word k
  pub fresh : (k : ℕ) → has states k ≡ false → (node_at nodes k).output ≡ (node_at base k).output
  pub distinct : apart states ≡ true
  pub ranked : Ranked nodes [] states
  pub inside : (k : ℕ) → has states k ≡ true → (0 < k) × (k < length base)

-- Every state at the depth or less, but for the root, is in the list.
abbrev pub Covered : List PlanNode → List ℕ → ℕ → Type 0
Covered base states depth =
    (word : List ℕ) (k : ℕ)
    → state_of base word ≡ some k
    → k ≢ 0
    → length word ≤ depth
    → has states k ≡ true

pub has-append : (xs ys : List ℕ) (k : ℕ) → has (xs ++ ys) k ≡ (has xs k || has ys k)
has-append xs ys k = any-append (λ y. y == k) xs ys

pub has-snoc : (xs : List ℕ) (c k : ℕ) → has (xs ++ c ∷ []) k ≡ (has xs k || c == k)
has-snoc xs c k = ground (arith, has-append xs (c ∷ []) k)

pub apart-snoc :
    (xs : List ℕ) (c : ℕ) → apart xs ≡ true → has xs c ≡ false → apart (xs ++ c ∷ []) ≡ true
apart-snoc [] c a h = refl
apart-snoc (x ∷ xs) c a h = ground (arith, apart-snoc xs c, has-snoc xs c x)

pub Ranked-congr :
    (nodes nodes' : List PlanNode) (before states : List ℕ)
    → ((k : ℕ) → has states k ≡ true → node_at nodes' k ≡ node_at nodes k)
    → Ranked nodes before states
    → Ranked nodes' before states
Ranked-congr nodes nodes' before [] same r = tt
Ranked-congr nodes nodes' before (k ∷ states) same r =
    let here : (k == k || has states k) ≡ true = ground arith in
    let q = ap (λ n. n.failure) (same k here) in
    (
      subst (λ f. (f == 0 || has before f) ≡ true) (sym q) r.0,
      Ranked-congr nodes nodes' (before ++ k ∷ []) states (λ j h. same j (ground arith)) r.1,
    )

pub snoc-append {ℓ} :
    {A : Type ℓ} (xs : List A) (y : A) (ys : List A) → (xs ++ y ∷ []) ++ ys ≡ xs ++ y ∷ ys
snoc-append [] y ys = refl
snoc-append (x ∷ xs) y ys = ap (λ zs. x ∷ zs) (snoc-append xs y ys)

pub append-nil {ℓ} : {A : Type ℓ} (xs : List A) → xs ++ [] ≡ xs
append-nil [] = refl
append-nil (x ∷ xs) = ap (λ zs. x ∷ zs) (append-nil xs)

pub Ranked-snoc :
    (nodes : List PlanNode) (before states : List ℕ) (c : ℕ)
    → Ranked nodes before states
    → ((node_at nodes c).failure == 0 || has (before ++ states) (node_at nodes c).failure) ≡ true
    → Ranked nodes before (states ++ c ∷ [])
Ranked-snoc nodes before [] c r h = (
  subst (λ xs. ((node_at nodes c).failure == 0 || has xs (node_at nodes c).failure) ≡ true)
      (append-nil before) h,
  tt,
)
Ranked-snoc nodes before (k ∷ states) c r h = (
  r.0,
  Ranked-snoc nodes (before ++ k ∷ []) states c r.1 (
      subst (λ xs. ((node_at nodes c).failure == 0 || has xs (node_at nodes c).failure) ≡ true)
        (sym (snoc-append before k states)) h),
)
