-- ===== src/Plan/Links/Children.antt =====
-- plan.go: the children of a state, in the order of its table of edges.
use casei.Base.{
  ℕ, ◌==◌, true, some, none, List, [], ◌∷◌, arith, ◌≡◌, refl, ap, inl, inr, Bool-cases, ◌≢◌, ◌∙◌,
  sym, All,
}
use mathlib.Core.Path.{subst}
use mathlib.Core.Option.{some-injective}
use casei.Plan.Tokens.{Table, look}
use casei.Plan.Trie.{PlanNode}
use casei.Plan.Trie.Tree.{edge_at, Tree, Keys}
use casei.Plan.Links.{children}
use casei.Plan.Links.Seen.{has, apart}

pub All-map :
    {A : Type 0} (P Q : A → Type 0) (xs : List A) → ((x : A) → P x → Q x) → All P xs → All Q xs
All-map P Q [] f a = tt
All-map P Q (x ∷ xs) f a = (f x a.0, All-map P Q xs f a.1)

-- Each entry of a table without repeated keys is the one that is looked up.
pub Keys-All : (edges : Table) → Keys edges → All (λ e. look edges e.0 ≡ some e.1) edges
unfolding Keys look
Keys-All [] keys = tt
Keys-All ((k, v) ∷ edges) keys =
    let own : (k == k) ≡ true = ground arith in
    (
      rw own refl,
      All-map (λ e. look edges e.0 ≡ some e.1) (λ e. look ((k, v) ∷ edges) e.0 ≡ some e.1) edges
          (λ e at. elim (Bool-cases (k == e.0)) [
            | inl same ↦
                let q : k ≡ e.0 = ground arith in
                let missing = subst (λ t. look edges t ≡ none) q keys.0 in absurd (cc)
            | inr other ↦ rw other at
          ])
          (Keys-All edges keys.1),
    )

pub look-child : (edges : Table) (t c : ℕ) → look edges t ≡ some c → has (children edges) c ≡ true
unfolding look
look-child [] t c e = absurd (cc)
look-child ((k, v) ∷ edges) t c e = elim (Bool-cases (k == t)) [
  | inl here ↦
      let e' : some v ≡ some c = rw here at e in
      let q : v ≡ c = some-injective _ _ e' in ground arith
  | inr other ↦ let e' = rw other at e in ground (arith, look-child edges t c e')
]

-- The token of a child.
pub record ChildOf (base : List PlanNode) (state : ℕ) (edges : Table) (child : ℕ) : Type 0 where
  pub token : ℕ
  pub edge : edge_at base state token ≡ some child
  pub kept : look edges token ≢ none

module _ (base : List PlanNode) (tree : Tree base) (state : ℕ) where
  pub child_of :
      (edges : Table) (c : ℕ)
      → All (λ e. edge_at base state e.0 ≡ some e.1) edges
      → has (children edges) c ≡ true
      → ChildOf base state edges c
  unfolding look
  child_of [] c real h = absurd (cc)
  child_of ((k, v) ∷ edges) c real h = elim (Bool-cases (v == c)) [
    | inl here ↦
        let q : v ≡ c = ground arith in
        let own : (k == k) ≡ true = ground arith in
        record { token = k; edge = real.0 ∙ ap some q; kept = rw own (λ z. absurd (cc)) }
    | inr other ↦
        let rest = child_of edges c real.1 (ground arith) in
        record {
          token = rest.token;
          edge = rest.edge;
          kept = elim (Bool-cases (k == rest.token)) [
            | inl same ↦ rw same (λ z. absurd (cc))
            | inr apart_key ↦ rw apart_key rest.kept
          ];
        }
  ]

  pub children-apart :
      (edges : Table)
      → All (λ e. edge_at base state e.0 ≡ some e.1) edges
      → Keys edges
      → apart (children edges) ≡ true
  unfolding Keys
  children-apart [] real keys = refl
  children-apart ((k, v) ∷ edges) real keys = elim (Bool-cases (has (children edges) v)) [
    | inl twice ↦
        let c = child_of edges v real.1 twice in
        let q = (tree.parent state k state c.token v real.0 c.edge).1 in
        absurd (c.kept (ap (look edges) (sym q) ∙ keys.0))
    | inr once ↦ ground (arith, children-apart edges real.1 keys.1)
  ]
