-- ===== src/Plan/Trie/Tree.antt =====
-- plan.go: the edges of `searchPlan.nodes`, and that they form a tree.
use casei.Base.{
  ℕ, ◌==◌, if◌then◌else◌, false, Option, some, none, List, [], ◌∷◌, arith, length, ◌≡◌, ◌<◌, refl,
  ap, inl, inr, Bool-cases, ◌≢◌, ◌∙◌, sym, ◌++◌,
}
use casei.Plan.Tokens.{Table, look}
use casei.Plan.Trie.{PlanNode, node_at}

unfoldable pub edge_at : List PlanNode → ℕ → ℕ → Option ℕ
edge_at nodes state token = look (node_at nodes state).edges token

-- No key stands twice in a table.
unfoldable pub Keys : Table → Type 0
Keys [] = Unit
Keys ((k, v) ∷ edges) = (look edges k ≡ none) × Keys edges

-- Edges go to later nodes, a node has one edge into it, the token 0 has no edge, and no failure
-- link is set yet.
pub record Tree (nodes : List PlanNode) : Type 0 where
  pub rising : (k t n : ℕ) → edge_at nodes k t ≡ some n → (k < n) × (n < length nodes)
  pub parent :
      (k t k' t' n : ℕ)
      → edge_at nodes k t ≡ some n
      → edge_at nodes k' t' ≡ some n
      → (k ≡ k') × (t ≡ t')
  pub keys : (k : ℕ) → Keys (node_at nodes k).edges
  pub real : (k t n : ℕ) → edge_at nodes k t ≡ some n → t ≢ 0
  pub unlinked : (k : ℕ) → (node_at nodes k).failure ≡ 0

pub look-append :
    (edges : Table) (token next t : ℕ)
    → look edges token ≡ none
    → look (edges ++ (token, next) ∷ []) t ≡ (if token == t then some next else look edges t)
unfolding look
look-append [] token next t h = refl
look-append ((k, v) ∷ edges) token next t h = elim (Bool-cases (k == token)) [
  | inl same ↦ absurd (let h' = rw same at h in cc)
  | inr other ↦
      let h' = rw other at h in
      let rest = look-append edges token next t h' in
      elim (Bool-cases (k == t)) [
        | inl here ↦ let ne : (token == t) ≡ false = ground arith in rw (here, ne) refl
        | inr not_here ↦ rw not_here rest
      ]
]

pub Keys-append :
    (edges : Table) (token next : ℕ)
    → look edges token ≡ none
    → Keys edges
    → Keys (edges ++ (token, next) ∷ [])
unfolding look Keys
Keys-append [] token next h keys = (refl, tt)
Keys-append ((k, v) ∷ edges) token next h keys = elim (Bool-cases (k == token)) [
  | inl same ↦ absurd (let h' = rw same at h in cc)
  | inr other ↦
      let h' = rw other at h in
      let ne : (token == k) ≡ false = ground arith in
      let at = look-append edges token next k h' in
      (at ∙ rw ne keys.0, Keys-append edges token next h' keys.1)
]

-- A trie with the same tables of edges.
pub Tree-congr :
    (nodes nodes' : List PlanNode)
    → length nodes' ≡ length nodes
    → ((k : ℕ) → (node_at nodes' k).edges ≡ (node_at nodes k).edges)
    → ((k : ℕ) → (node_at nodes' k).failure ≡ (node_at nodes k).failure)
    → Tree nodes
    → Tree nodes'
unfolding edge_at
Tree-congr nodes nodes' size same failures tree =
    let back =
      λ (k t n : ℕ) (e : edge_at nodes' k t ≡ some n). ap (λ es. look es t) (sym (same k)) ∙ e in
    record {
      rising = λ k t n e. let (up, inside) = tree.rising k t n (back k t n e) in (up, omega arith);
      parent = λ k t k' t' n e e'. tree.parent k t k' t' n (back k t n e) (back k' t' n e');
      keys = λ k. rw (same k) (tree.keys k);
      real = λ k t n e. tree.real k t n (back k t n e);
      unlinked = λ k. failures k ∙ tree.unlinked k;
    }
