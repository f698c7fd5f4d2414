-- ===== src/Plan/Links/Queue.antt =====
-- plan.go: the loop of `finish` over its queue, which visits the states in the order of their
-- depths.
use casei.Base.{
  ℕ, ◌||◌, ◌==◌, suc, true, false, some, List, [], ◌∷◌, arith, length, ◌≡◌, ◌<◌, refl, ap, inl, inr,
  Bool-cases, ◌≢◌, ◌∙◌, sym, ◌++◌, All,
}
use mathlib.Core.Path.{subst}
use mathlib.Core.Option.{some-injective}
use casei.Plan.Tokens.{look}
use casei.Plan.Trie.{PlanNode, node_at}
use casei.Plan.Trie.Tree.{edge_at, Tree, Keys}
use casei.Plan.Links.{link_children, children}
use casei.Plan.Links.Words.{state_of, state_of-cons, before_last, state_of-injective}
use casei.Plan.Links.Seen.{has, apart, Seen, Covered, has-append, has-snoc, snoc-append}
use casei.Plan.Links.Linking.{link_children-Seen}
use casei.Plan.Links.Children.{Keys-All, look-child, child_of, children-apart}

pub record AtDepth (base : List PlanNode) (state depth : ℕ) : Type 0 where
  pub word : List ℕ
  pub is : state_of base word ≡ some state
  pub size : length word ≡ depth

-- An edge into the state from the root or from a state that has been handled.
pub record Parent (base : List PlanNode) (queue : List ℕ) (state : ℕ) : Type 0 where
  pub from : ℕ
  pub token : ℕ
  pub edge : edge_at base from token ≡ some state
  pub handled : (from == 0 || has queue from) ≡ true

-- The states that wait: those at one depth, and behind them those one deeper.
pub record Wave (base nodes : List PlanNode) (queue now later : List ℕ) (depth : ℕ) : Type 0 where
  pub seen : Seen base nodes (queue ++ (now ++ later))
  pub here : (k : ℕ) → has now k ≡ true → AtDepth base k depth
  pub deeper : (k : ℕ) → has later k ≡ true → AtDepth base k (suc depth)
  pub closed :
      (k t c : ℕ)
      → (k == 0 || has queue k) ≡ true
      → edge_at base k t ≡ some c
      → has (queue ++ (now ++ later)) c ≡ true
  pub parents : (c : ℕ) → has (queue ++ (now ++ later)) c ≡ true → Parent base queue c

pub append_assoc {ℓ} : {A : Type ℓ} (xs ys zs : List A) → (xs ++ ys) ++ zs ≡ xs ++ (ys ++ zs)
append_assoc [] ys zs = refl
append_assoc (x ∷ xs) ys zs = ap (λ us. x ∷ us) (append_assoc xs ys zs)

has_three :
    (queue now later : List ℕ) (k : ℕ)
    → has (queue ++ (now ++ later)) k ≡ (has queue k || has now k || has later k)
has_three queue now later k =
    ground (arith, has-append queue (now ++ later) k, has-append now later k)

pop-append :
    (queue now later cs : List ℕ) (x : ℕ)
    → (queue ++ ((x ∷ now) ++ later)) ++ cs ≡ (queue ++ x ∷ []) ++ (now ++ (later ++ cs))
pop-append queue now later cs x =
    append_assoc queue (x ∷ now ++ later) cs
    ∙ ap (λ us. queue ++ x ∷ us) (append_assoc now later cs)
    ∙ sym (snoc-append queue x (now ++ (later ++ cs)))

-- The head of the states that wait is none of those handled.
apart-head : (queue rest : List ℕ) (x : ℕ) → apart (queue ++ x ∷ rest) ≡ true → has queue x ≡ false
apart-head [] rest x a = refl
apart-head (y ∷ queue) rest x a =
    ground (arith, apart-head queue rest x, has-append queue (x ∷ rest) y)

module _ (base : List PlanNode) (tree : Tree base) (root : 0 < length base) where
  -- Every state that is no deeper than those that wait first is in the queue.
  pub Wave-Covered :
      (nodes : List PlanNode) (queue now later : List ℕ) (depth : ℕ)
      → Wave base nodes queue now later depth
      → Covered base (queue ++ (now ++ later)) depth
  unfolding state_of
  Wave-Covered nodes queue now later depth wave [] k is real low =
      absurd (real (sym (some-injective _ _ is)))
  Wave-Covered nodes queue now later depth wave (t ∷ word) k is real low =
      let (p, at, edge) = before_last base t word k is in
      wave.closed p t k
        (elim (Bool-cases (p == 0)) [
          | inl zero_state ↦ rw zero_state refl
          | inr other ↦
              let there =
                Wave-Covered nodes queue now later depth wave word p at (ground arith)
                  (omega arith) in
              let split = has_three queue now later p in
              elim (Bool-cases (has now p)) [
                | inl waits ↦
                    let d = wave.here p waits in
                    let same = ap length (state_of-injective base tree word d.word p at d.is) in
                    let size = d.size in absurd (omega arith)
                | inr not_now ↦ elim (Bool-cases (has later p)) [
                  | inl waits ↦
                      let d = wave.deeper p waits in
                      let same = ap length (state_of-injective base tree word d.word p at d.is) in
                      let size = d.size in absurd (omega arith)
                  | inr not_later ↦ ground arith
                ]
              ]
        ])
        edge

  -- The head of the waiting states, with what its table says.
  record Head (nodes : List PlanNode) (queue now later : List ℕ) (x : ℕ) : Type 0 where
    nonzero : x ≢ 0
    real : All (λ e. edge_at base x e.0 ≡ some e.1) (node_at nodes x).edges
    distinct : apart (children (node_at nodes x).edges) ≡ true
    fresh :
        (c : ℕ)
        → has (children (node_at nodes x).edges) c ≡ true
        → has (queue ++ ((x ∷ now) ++ later)) c ≡ false

  Wave-Head :
      (nodes : List PlanNode) (queue now later : List ℕ) (x depth : ℕ)
      → Wave base nodes queue (x ∷ now) later depth
      → Head nodes queue now later x
  unfolding edge_at
  Wave-Head nodes queue now later x depth wave =
      let edges = (node_at nodes x).edges in
      let same : (node_at base x).edges ≡ edges = sym (wave.seen.same x) in
      let here : has (queue ++ ((x ∷ now) ++ later)) x ≡ true =
        ground (arith, has_three queue (x ∷ now) later x) in
      let (up, below) = wave.seen.inside x here in
      let real : All (λ e. edge_at base x e.0 ≡ some e.1) edges =
        subst (λ es. All (λ e. edge_at base x e.0 ≡ some e.1) es) same
          (Keys-All (node_at base x).edges (tree.keys x)) in
      record {
        nonzero = λ z. omega arith;
        real = real;
        distinct = children-apart base tree x edges real (subst Keys same (tree.keys x));
        fresh = λ c child.
            let e = (child_of base tree x edges c real child) in
            elim (Bool-cases (has (queue ++ ((x ∷ now) ++ later)) c)) [
              | inr away ↦ away
              | inl there ↦
                  let p = wave.parents c there in
                  let q = (tree.parent p.from p.token x e.token c p.edge e.edge).0 in
                  let handled = subst (λ k. (k == 0 || has queue k) ≡ true) q p.handled in
                  let out = apart-head queue (now ++ later) x wave.seen.distinct in
                  absurd (ground arith)
            ];
      }

  -- One round of the loop.
  pub Wave-step :
      (nodes : List PlanNode) (queue now later : List ℕ) (x depth : ℕ)
      → Wave base nodes queue (x ∷ now) later depth
      → Wave base
          (link_children nodes x (node_at nodes x).edges)
          (queue ++ x ∷ [])
          now
          (later ++ children (node_at nodes x).edges)
          depth
  unfolding edge_at
  Wave-step nodes queue now later x depth wave =
      let edges = (node_at nodes x).edges in
      let cs = children edges in
      let head = Wave-Head nodes queue now later x depth wave in
      let d = wave.here x (ground arith) in
      let covered = Wave-Covered nodes queue (x ∷ now) later depth wave in
      let all = pop-append queue now later cs x in
      let nodes' = link_children nodes x edges in
      let same : (node_at base x).edges ≡ edges = sym (wave.seen.same x) in
      let states = queue ++ ((x ∷ now) ++ later) in
      let seen =
        link_children-Seen base tree root edges nodes states d.word x wave.seen
          (subst (Covered base states) (sym d.size) covered) d.is head.nonzero head.real head.fresh
          head.distinct in
      let grown = λ (c : ℕ). ap (λ us. has us c) (sym all) ∙ has-append states cs c in
      record {
        seen = subst (Seen base nodes') all seen;
        here = λ k there. wave.here k (ground arith);
        deeper = λ k there. elim (Bool-cases (has later k)) [
          | inl old ↦ wave.deeper k old
          | inr new ↦
              let child =
                child_of base tree x edges k head.real (ground (arith, has-append later cs k)) in
              record {
                word = child.token ∷ d.word;
                is = state_of-cons base child.token d.word x d.is ∙ child.edge;
                size = ap suc d.size;
              }
        ];
        closed = λ k t c handled edge. elim (Bool-cases (x == k)) [
          | inl this ↦
              let q : k ≡ x = ground arith in
              let e : look edges t ≡ some c =
                ap (λ es. look es t) (sym same) ∙ ap (λ j. edge_at base j t) (sym q) ∙ edge in
              let child = look-child edges t c e in ground (arith, grown c)
          | inr other ↦
              let there = wave.closed k t c (ground (arith, has-snoc queue x k)) edge in
              ground (arith, grown c)
        ];
        parents = λ c there. elim (Bool-cases (has states c)) [
          | inl old ↦
              let p = wave.parents c old in
              let handled = p.handled in
              record {
                from = p.from;
                token = p.token;
                edge = p.edge;
                handled = ground (arith, has-snoc queue x p.from);
              }
          | inr new ↦
              let child = child_of base tree x edges c head.real (ground (arith, grown c)) in
              record {
                from = x;
                token = child.token;
                edge = child.edge;
                handled = ground (arith, has-snoc queue x x);
              }
        ];
      }
