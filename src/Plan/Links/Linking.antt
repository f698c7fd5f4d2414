-- ===== src/Plan/Links/Linking.antt =====
-- plan.go: one step of the inner loop of `finish`, which links a child.
use casei.Base.{
  ℕ, ◌||◌, ◌==◌, if◌then◌else◌, suc, true, false, some, List, [], ◌∷◌, arith, length, ◌≡◌, ◌<◌, ◌≤◌,
  refl, ap, take, inl, inr, Bool-cases, ◌≢◌, ◌∙◌, sym, ◌++◌, length-set, get_or-set, All,
}
use mathlib.Core.Path.{subst}
use mathlib.Core.Option.{some-injective}
use casei.Plan.Tokens.{Table}
use casei.Plan.Trie.{PlanNode, node_at, new_node}
use casei.Plan.Trie.Outputs.{preferred}
use casei.Plan.Trie.Tree.{edge_at, Tree}
use casei.Plan.Links.{link, linked, link_children, children}
use casei.Plan.Links.Words.{
  state_of, state_of-cons, state_of-missing, state_of-depth, state_of-injective, state_of-zero,
  take-take, length-take,
}
use casei.Plan.Links.Climb.{Deepest, Climbing, Falling, climb_edges-Deepest, climb-eq-climb_edges}
use casei.Plan.Links.Inherit.{Inherits, root-Inherits, preferred-Inherits}
use casei.Plan.Links.Seen.{
  has, apart, Done, Seen, Covered, has-snoc, apart-snoc, Ranked-congr, snoc-append, append-nil,
  Ranked-snoc,
}

-- The node of a state behind the step that links one child.
linked-node :
    (nodes : List PlanNode) (child failure k : ℕ)
    → child < length nodes
    → node_at (linked nodes child failure) k ≡ (
        if child == k
        then record (node_at nodes child) {
          failure = failure;
          output = preferred (node_at nodes failure).output (node_at nodes child).output;
        }
        else node_at nodes k)
unfolding linked
linked-node nodes child failure k h = get_or-set nodes child k _ new_node h

other-node :
    (nodes : List PlanNode) (child failure k : ℕ)
    → child < length nodes
    → (child == k) ≡ false
    → node_at (linked nodes child failure) k ≡ node_at nodes k
other-node nodes child failure k h other =
    let at = linked-node nodes child failure k h in rw other at at

child-node :
    (nodes : List PlanNode) (child failure : ℕ)
    → child < length nodes
    → node_at (linked nodes child failure) child ≡ record (node_at nodes child) {
      failure = failure;
      output = preferred (node_at nodes failure).output (node_at nodes child).output;
    }
child-node nodes child failure h =
    let at = linked-node nodes child failure child h in
    let same : (child == child) ≡ true = ground arith in rw same at at

linked-length :
    (nodes : List PlanNode) (child failure : ℕ) → length (linked nodes child failure) ≡ length nodes
unfolding linked
linked-length nodes child failure = length-set nodes child _

linked-edges :
    (nodes : List PlanNode) (child failure k : ℕ)
    → child < length nodes
    → (node_at (linked nodes child failure) k).edges ≡ (node_at nodes k).edges
linked-edges nodes child failure k h = elim (Bool-cases (child == k)) [
  | inl same ↦
      let q : child ≡ k = ground arith in
      subst (λ j. (node_at (linked nodes child failure) j).edges ≡ (node_at nodes j).edges) q
        (ap (λ n. n.edges) (child-node nodes child failure h))
  | inr other ↦ ap (λ n. n.edges) (other-node nodes child failure k h other)
]

Done-congr :
    (base nodes nodes' : List PlanNode) (word : List ℕ) (k : ℕ)
    → node_at nodes' k ≡ node_at nodes k
    → Done base nodes word k
    → Done base nodes' word k
Done-congr base nodes nodes' word k e d = record {
  fails = λ n size.
      subst (λ f. Deepest base (take n word) f) (sym (ap (λ n. n.failure) e)) (d.fails n size);
  inherits = subst (Inherits base word) (sym (ap (λ n. n.output) e)) d.inherits;
}

module _ (base : List PlanNode) (tree : Tree base) (root : 0 < length base) where
  pub nonzero_word :
      (word : List ℕ) (k n : ℕ) → state_of base word ≡ some k → length word ≡ suc n → k ≢ 0
  nonzero_word word k n is size z =
      let empty = state_of-zero base tree word (is ∙ ap some z) in
      absurd (let l = ap length empty in omega arith)

  pub Seen-Falling :
      (nodes : List PlanNode) (states : List ℕ) (depth : ℕ)
      → Seen base nodes states
      → Covered base states depth
      → Falling base nodes depth
  Seen-Falling nodes states depth seen covered = record {
    same = seen.same;
    falls = λ word k n is size low.
        (seen.done word k is
            (covered word k is (nonzero_word word k n is size) (omega arith))).fails
          n size;
  }

  -- The output of a state that is the root or in the list is the best for its word.
  pub output-Inherits :
      (nodes : List PlanNode) (states word : List ℕ) (k depth : ℕ)
      → Seen base nodes states
      → Covered base states depth
      → state_of base word ≡ some k
      → length word ≤ depth
      → Inherits base word (node_at nodes k).output
  output-Inherits nodes states word k depth seen covered is low = elim (Bool-cases (k == 0)) [
    | inl zero_state ↦
        let z : k ≡ 0 = ground arith in
        let empty = state_of-zero base tree word (is ∙ ap some z) in
        let out : has states 0 ≡ false = elim (Bool-cases (has states 0)) [
          | inl there ↦ let (up, below) = seen.inside 0 there in absurd (omega arith)
          | inr away ↦ away
        ] in
        subst (λ w. Inherits base w (node_at nodes k).output) (sym empty)
          (subst (λ o. Inherits base [] o)
            (sym (ap (λ j. (node_at nodes j).output) z ∙ seen.fresh 0 out)) (root-Inherits base))
    | inr other ↦ (seen.done word k is (covered word k is (ground arith) low)).inherits
  ]

  -- What linking a child works out.
  record Link (nodes : List PlanNode) (word : List ℕ) (token child failure : ℕ) : Type 0 where
    deepest : Deepest base (take (length word) (token ∷ word)) failure
    inherits : Inherits base (take deepest.units (token ∷ word)) (node_at nodes failure).output
    low : deepest.units ≤ length word

  link-Link :
      (nodes : List PlanNode) (states word : List ℕ) (state token child : ℕ)
      → Seen base nodes states
      → Covered base states (length word)
      → state_of base word ≡ some state
      → state ≢ 0
      → edge_at base state token ≡ some child
      → Link nodes word token child (link nodes state token child)
  unfolding link state_of
  link-Link nodes states [] state token child seen covered is real edge =
      absurd (real (sym (some-injective _ _ is)))
  link-Link nodes states (u ∷ w) state token child seen covered is real edge =
      let word = u ∷ w in
      let n = length w in
      let falling = Seen-Falling nodes states (length word) seen covered in
      let d = falling.falls word state n is refl (omega arith) in
      let (deep, below) = state_of-depth base tree word state root is in
      let size = seen.size in
      let bound = d.inside in
      let short = length-take n word (omega arith) in
      let climbing : Climbing base (take n word) token d.units (node_at nodes state).failure =
        record {
          inside = d.inside;
          is = d.is;
          most = λ m h le. state_of-missing base token (take m (take n word)) (d.most m h le);
        } in
      let apart_root : edge_at base 0 token ≢ some child =
        λ e. real (sym (tree.parent 0 token state token child e edge).0) in
      let eq =
        climb-eq-climb_edges base nodes tree (length word) falling (length nodes) (take n word)
          token d.units (node_at nodes state).failure child (omega arith) (omega arith) climbing
          apart_root in
      let d' =
        climb_edges-Deepest base nodes tree (length word) falling (suc (length nodes)) (take n word)
          token d.units (node_at nodes state).failure (omega arith) (omega arith) climbing in
      let d2 : Deepest base (take (length word) (token ∷ word)) (link nodes state token child) =
        subst (Deepest base (token ∷ take n word)) (sym eq) d' in
      let bound2 = d2.inside in
      let short2 = length-take (length word) (token ∷ word) (omega arith) in
      let again = take-take d2.units (length word) (token ∷ word) (omega arith) in
      let short3 = length-take d2.units (token ∷ word) (omega arith) in
      record {
        deepest = d2;
        inherits =
            output-Inherits nodes states (take d2.units (token ∷ word)) _ (length word) seen covered
              (ap (state_of base) (sym again) ∙ d2.is) (omega arith);
        low = omega arith;
      }

  -- The child is done behind the step.
  child-Done :
      (nodes : List PlanNode) (word : List ℕ) (token child failure : ℕ)
      → child < length nodes
      → state_of base (token ∷ word) ≡ some child
      → (node_at nodes child).output ≡ (node_at base child).output
      → Link nodes word token child failure
      → Done base (linked nodes child failure) (token ∷ word) child
  child-Done nodes word token child failure h is own l =
      let here = child-node nodes child failure h in
      let output =
        ap (λ n. n.output) here ∙ ap (λ o. preferred (node_at nodes failure).output o) own in
      record {
        fails = λ n size.
            let q : length word ≡ n = omega arith in
            subst (λ f. Deepest base (take n (token ∷ word)) f) (sym (ap (λ n. n.failure) here))
              (subst (λ j. Deepest base (take j (token ∷ word)) failure) q l.deepest);
        inherits = subst (Inherits base (token ∷ word)) (sym output) (
            preferred-Inherits base (token ∷ word) child failure (length word)
              (node_at nodes failure).output is refl l.deepest l.inherits);
      }

  -- The failure link of the child leads to the root or into the list.
  before_child :
      (nodes : List PlanNode) (states word : List ℕ) (token child failure : ℕ)
      → Covered base states (length word)
      → Link nodes word token child failure
      → (failure == 0 || has states failure) ≡ true
  before_child nodes states word token child failure covered l =
      let d = l.deepest in
      let low = l.low in
      let again = take-take d.units (length word) (token ∷ word) low in
      let short = length-take d.units (token ∷ word) (omega arith) in
      elim (Bool-cases (failure == 0)) [
        | inl zero_state ↦ rw zero_state refl
        | inr other ↦
            let there =
              covered (take d.units (token ∷ word)) failure (ap (state_of base) (sym again) ∙ d.is)
                (ground arith) (omega arith) in
            ground arith
      ]

  other_child :
      (states : List ℕ) (child k : ℕ)
      → has states child ≡ false
      → has states k ≡ true
      → (child == k) ≡ false
  other_child states child k new there = elim (Bool-cases (child == k)) [
    | inl same ↦
        let q : child ≡ k = ground arith in
        let there' = subst (λ j. has states j ≡ true) (sym q) there in absurd (cc)
    | inr other ↦ other
  ]

  pub linked-Seen :
      (nodes : List PlanNode) (states word : List ℕ) (state token child : ℕ)
      → Seen base nodes states
      → Covered base states (length word)
      → state_of base word ≡ some state
      → state ≢ 0
      → edge_at base state token ≡ some child
      → has states child ≡ false
      → Seen base (linked nodes child (link nodes state token child)) (states ++ child ∷ [])
  linked-Seen nodes states word state token child seen covered is real edge new =
      let (up, below) = tree.rising state token child edge in
      let size = seen.size in
      let failure = link nodes state token child in
      let l = link-Link nodes states word state token child seen covered is real edge in
      let is' = state_of-cons base token word state is ∙ edge in
      let done =
        child-Done nodes word token child failure (omega arith) is' (seen.fresh child new) l in
      let nodes' = linked nodes child failure in
      let split = λ (k : ℕ). has-snoc states child k in
      let old = λ (k : ℕ). other-node nodes child failure k (omega arith) in
      record {
        same = λ k. linked-edges nodes child failure k (omega arith) ∙ seen.same k;
        size = linked-length nodes child failure ∙ seen.size;
        done = λ w k at_w there. elim (Bool-cases (child == k)) [
          | inl same ↦
              let q : child ≡ k = ground arith in
              let word_is =
                state_of-injective base tree (token ∷ word) w k (is' ∙ ap some q) at_w in
              subst (λ j. Done base nodes' w j) q
                (subst (λ v. Done base nodes' v child) word_is done)
          | inr other ↦
              let d = seen.done w k at_w (ground (arith, split k)) in
              Done-congr base nodes nodes' w k (old k other) d
        ];
        fresh = λ k away.
            ap (λ n. n.output) (old k (ground (arith, split k)))
            ∙ seen.fresh k (ground (arith, split k));
        distinct = apart-snoc states child seen.distinct new;
        ranked =
            Ranked-snoc nodes' [] states child
              (Ranked-congr nodes nodes' [] states
                (λ k there. old k (other_child states child k new there)) seen.ranked)
              (subst (λ f. (f == 0 || has states f) ≡ true)
                (sym (ap (λ n. n.failure) (child-node nodes child failure (omega arith))))
                (before_child nodes states word token child failure covered l));
        inside = λ k there. elim (Bool-cases (child == k)) [
          | inl same ↦ (ground arith, ground arith)
          | inr other ↦ seen.inside k (ground (arith, split k))
        ];
      }

  -- The children of a state are linked one after the other.
  pub link_children-Seen :
      (edges : Table) (nodes : List PlanNode) (states word : List ℕ) (state : ℕ)
      → Seen base nodes states
      → Covered base states (length word)
      → state_of base word ≡ some state
      → state ≢ 0
      → All (λ e. edge_at base state e.0 ≡ some e.1) edges
      → ((c : ℕ) → has (children edges) c ≡ true → has states c ≡ false)
      → apart (children edges) ≡ true
      → Seen base (link_children nodes state edges) (states ++ children edges)
  unfolding link_children
  link_children-Seen [] nodes states word state seen covered is real real_edges new distinct =
      subst (Seen base nodes) (sym (append-nil states)) seen
  link_children-Seen ((token, child) ∷ edges) nodes states word state seen covered is real
        real_edges new distinct =
      let here : (child == child || has (children edges) child) ≡ true = ground arith in
      let step =
        linked-Seen nodes states word state token child seen covered is real real_edges.0
          (new child here) in
      let split = λ (k : ℕ). has-snoc states child k in
      subst (Seen base (link_children nodes state ((token, child) ∷ edges)))
        (snoc-append states child (children edges))
        (link_children-Seen edges (linked nodes child (link nodes state token child))
          (states ++ child ∷ []) word state step
          (λ w k at ne low. let h = covered w k at ne low in ground (arith, split k)) is real
          real_edges.1
          (λ c there.
            let away = new c (ground arith) in
            elim (Bool-cases (child == c)) [
              | inl same ↦
                  let q : child ≡ c = ground arith in
                  let there' = subst (λ j. has (children edges) j ≡ true) (sym q) there in
                  ground arith
              | inr other ↦ ground (arith, split c)
            ])
          (ground arith))
