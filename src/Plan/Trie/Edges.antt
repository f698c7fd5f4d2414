-- ===== src/Plan/Trie/Edges.antt =====
-- plan.go: what a step of `newSearchPlan` does to the edges of the trie.
use casei.Base.{
  ℕ, zero, suc, ◌<◌, true, ◌&&◌, Option, some, none, ◌>>=◌, List, [], ◌∷◌, ◌++◌, arith, ◌==◌,
  if◌then◌else◌, length, get_or-set, length-set, length-append, ◌≡◌, refl, ap, ◌∙◌, sym, Bool-cases,
  Option-cases, inl, inr, ◌≢◌, ◌⊎◌, ◌<◌,
}
use mathlib.Core.Option.{some-injective}
use casei.Plan.Tokens.{look}
use casei.Plan.Trie.Tree.{edge_at, Keys, Tree, look-append, Keys-append}
use casei.Plan.Trie.{PlanNode, new_node, node_at, follow}

-- The states that the tokens lead to, one after the other.
unfoldable pub walk : List PlanNode → ℕ → List ℕ → Option ℕ
walk nodes state [] = some state
walk nodes state (token ∷ tokens) = edge_at nodes state token >>= λ next. walk nodes next tokens

node_at-append :
    (nodes : List PlanNode) (k : ℕ) → node_at (nodes ++ new_node ∷ []) k ≡ node_at nodes k
node_at-append [] zero = refl
node_at-append [] (suc k) = refl
node_at-append (n ∷ nodes) zero = refl
node_at-append (n ∷ nodes) (suc k) = node_at-append nodes k

-- The trie after a step: the edge is there, and the edges that were there are.
pub record Followed (nodes : List PlanNode) (state token : ℕ) (nodes' : List PlanNode) (next : ℕ)
    : Type 0 where
  pub edge : edge_at nodes' state token ≡ some next
  pub kept : (k t n : ℕ) → edge_at nodes k t ≡ some n → edge_at nodes' k t ≡ some n
  pub tree : Tree nodes'
  pub inside : next < length nodes'
  pub outputs : (k : ℕ) → (node_at nodes' k).output ≡ (node_at nodes k).output

fresh-node :
    (nodes : List PlanNode) (state token k : ℕ)
    → state < length nodes
    → edge_at nodes state token ≡ none
    → node_at (follow nodes state token).0 k ≡ (
        if state == k
        then record (node_at nodes state) {
          edges = (node_at nodes state).edges ++ (token, length nodes) ∷ [];
        }
        else node_at nodes k)
unfolding edge_at follow
fresh-node nodes state token k h e =
    let longer = length-append nodes (new_node ∷ []) in
    let old = node_at-append nodes k in
    let node = node_at nodes state in
    let grown : PlanNode = record node { edges = node.edges ++ (token, length nodes) ∷ [] } in
    let at = get_or-set (nodes ++ new_node ∷ []) state k grown new_node (omega arith) in
    rw (e, at)
      (elim (Bool-cases (state == k)) [
        | inl same ↦ rw same refl
        | inr other ↦ rw (other, old) refl
      ])

fresh-edge :
    (nodes : List PlanNode) (state token k t : ℕ)
    → state < length nodes
    → edge_at nodes state token ≡ none
    → edge_at (follow nodes state token).0 k t
      ≡ (if state == k && token == t then some (length nodes) else edge_at nodes k t)
unfolding edge_at
fresh-edge nodes state token k t h e =
    let at = fresh-node nodes state token k h e in
    let node = node_at nodes state in
    rw at (elim (Bool-cases (state == k)) [
      | inl same ↦
          let q : state ≡ k = ground arith in
          rw (same, look-append node.edges token (length nodes) t e)
            (ap (λ j. if token == t then some (length nodes) else look (node_at nodes j).edges t) q)
      | inr other ↦ rw other refl
    ])

fresh-rest :
    (nodes : List PlanNode) (state token k : ℕ)
    → state < length nodes
    → edge_at nodes state token ≡ none
    → ((node_at (follow nodes state token).0 k).output ≡ (node_at nodes k).output)
      × ((node_at (follow nodes state token).0 k).failure ≡ (node_at nodes k).failure)
fresh-rest nodes state token k h e =
    let at = fresh-node nodes state token k h e in
    rw at (elim (Bool-cases (state == k)) [
      | inl same ↦
          let q : state ≡ k = ground arith in
          rw same (ap (λ j. (node_at nodes j).output) q, ap (λ j. (node_at nodes j).failure) q)
      | inr other ↦ rw other (refl, refl)
    ])

fresh-Keys :
    (nodes : List PlanNode) (state token k : ℕ)
    → state < length nodes
    → edge_at nodes state token ≡ none
    → ((j : ℕ) → Keys (node_at nodes j).edges)
    → Keys (node_at (follow nodes state token).0 k).edges
unfolding edge_at
fresh-Keys nodes state token k h e keys =
    let at = fresh-node nodes state token k h e in
    rw at (elim (Bool-cases (state == k)) [
      | inl same ↦
          rw same (Keys-append (node_at nodes state).edges token (length nodes) e (keys state))
      | inr other ↦ rw other (keys k)
    ])

fresh-length :
    (nodes : List PlanNode) (state token : ℕ)
    → edge_at nodes state token ≡ none
    → (length (follow nodes state token).0 ≡ suc (length nodes))
      × ((follow nodes state token).1 ≡ length nodes)
unfolding edge_at follow
fresh-length nodes state token e =
    let longer = length-append nodes (new_node ∷ []) in
    rw e (length-set (nodes ++ new_node ∷ []) state _ ∙ omega arith, refl)

known-follow :
    (nodes : List PlanNode) (state token next : ℕ)
    → edge_at nodes state token ≡ some next
    → follow nodes state token ≡ (nodes, next)
unfolding edge_at follow
known-follow nodes state token next e = rw e refl

-- An edge of the trie behind the step is the new one, or one that was there.
fresh_or_old :
    (nodes : List PlanNode) (state token k t n : ℕ)
    → state < length nodes
    → edge_at nodes state token ≡ none
    → edge_at (follow nodes state token).0 k t ≡ some n
    → ((k ≡ state) × (t ≡ token) × (n ≡ length nodes)) ⊎ (edge_at nodes k t ≡ some n)
fresh_or_old nodes state token k t n h missing e =
    let step = fresh-edge nodes state token k t h missing in
    elim (Bool-cases (state == k && token == t)) [
      | inl same ↦
          let step' : edge_at (follow nodes state token).0 k t ≡ some (length nodes) =
            rw same at step in
          inl (ground arith, ground arith, sym (some-injective _ _ (sym step' ∙ e)))
      | inr other ↦
          let step' : edge_at (follow nodes state token).0 k t ≡ edge_at nodes k t =
            rw other at step in
          inr (sym step' ∙ e)
    ]

fresh-Tree :
    (nodes : List PlanNode) (state token : ℕ)
    → Tree nodes
    → state < length nodes
    → token ≢ 0
    → edge_at nodes state token ≡ none
    → Tree (follow nodes state token).0
fresh-Tree nodes state token tree h real missing =
    let (longer, last) = fresh-length nodes state token missing in
    let split = λ (k t n : ℕ). fresh_or_old nodes state token k t n h missing in
    record {
      rising = λ k t n e. elim (split k t n e) [
        | inl (p, q, r) ↦ (omega arith, omega arith)
        | inr old ↦ let (up, inside) = tree.rising k t n old in (up, omega arith)
      ];
      parent = λ k t k' t' n e e'. elim (split k t n e) [
        | inl (p, q, r) ↦ elim (split k' t' n e') [
          | inl (p', q', r') ↦ (p ∙ sym p', q ∙ sym q')
          | inr old ↦ let (up, inside) = tree.rising k' t' n old in absurd (omega arith)
        ]
        | inr old ↦ elim (split k' t' n e') [
          | inl (p', q', r') ↦ let (up, inside) = tree.rising k t n old in absurd (omega arith)
          | inr old' ↦ tree.parent k t k' t' n old old'
        ]
      ];
      keys = λ k. fresh-Keys nodes state token k h missing tree.keys;
      real = λ k t n e. elim (split k t n e) [
        | inl (p, q, r) ↦ λ z. real (sym q ∙ z)
        | inr old ↦ tree.real k t n old
      ];
      unlinked = λ k. (fresh-rest nodes state token k h missing).1 ∙ tree.unlinked k;
    }

-- Following a token from a state of a trie gives the edge, and keeps the edges and the
-- outputs that are there.
pub follow-Followed :
    (nodes : List PlanNode) (state token : ℕ)
    → Tree nodes
    → state < length nodes
    → token ≢ 0
    → Followed nodes state token (follow nodes state token).0 (follow nodes state token).1
follow-Followed nodes state token tree h real = elim (Option-cases (edge_at nodes state token)) [
  | inr (next, known) ↦ rw (known-follow nodes state token next known) (record {
    edge = known;
    kept = λ k t n e. e;
    tree = tree;
    inside = (tree.rising state token next known).1;
    outputs = λ k. refl;
  })
  | inl missing ↦
      let (longer, last) = fresh-length nodes state token missing in
      let now = λ (k t : ℕ). fresh-edge nodes state token k t h missing in
      let added : (state == state && token == token) ≡ true = ground arith in
      record {
        edge = now state token ∙ rw added (ap some (sym last));
        kept = λ k t n e. elim (Bool-cases (state == k && token == t)) [
          | inl same ↦
              let p : k ≡ state = ground arith in
              let q : t ≡ token = ground arith in
              absurd (let e' : edge_at nodes state token ≡ some n = rw (p, q) at e in cc)
          | inr other ↦ let step = now k t in (rw other at step) ∙ e
        ];
        tree = fresh-Tree nodes state token tree h real missing;
        inside = omega arith;
        outputs = λ k. (fresh-rest nodes state token k h missing).0;
      }
]

-- A walk that the trie has keeps its end.
pub walk-kept :
    (nodes nodes' : List PlanNode) (state : ℕ) (tokens : List ℕ) (end : ℕ)
    → ((k t n : ℕ) → edge_at nodes k t ≡ some n → edge_at nodes' k t ≡ some n)
    → walk nodes state tokens ≡ some end
    → walk nodes' state tokens ≡ some end
unfolding walk
walk-kept nodes nodes' state [] end kept w = w
walk-kept nodes nodes' state (t ∷ ts) end kept w = elim (Option-cases (edge_at nodes state t)) [
  | inl missing ↦ absurd (let w' = rw missing at w in cc)
  | inr (next, e) ↦
      let w' : walk nodes next ts ≡ some end = rw e at w in
      rw (kept state t next e) (walk-kept nodes nodes' next ts end kept w')
]

pub walk-nil : (nodes : List PlanNode) (state : ℕ) → walk nodes state [] ≡ some state
unfolding walk
walk-nil nodes state = refl

pub walk-cons :
    (nodes : List PlanNode) (state token next : ℕ) (tokens : List ℕ) (end : Option ℕ)
    → edge_at nodes state token ≡ some next
    → walk nodes next tokens ≡ end
    → walk nodes state (token ∷ tokens) ≡ end
unfolding walk
walk-cons nodes state token next tokens end e w = rw e w
