-- ===== src/Plan/Links/Climb.antt =====
-- plan.go: the climb along the failure links, in `finish` and in `advance`.
use casei.Base.{
  ℕ, ◌==◌, zero, suc, some, none, List, ◌∷◌, arith, length, ◌≡◌, ◌<◌, ◌≤◌, ltb, refl, ap, take, inl,
  inr, Bool-cases, ◌≢◌, ◌∙◌, sym, Option-cases,
}
use mathlib.Core.Path.{subst}
use mathlib.Core.Option.{some-injective}
use casei.Plan.Tokens.{look}
use casei.Plan.Trie.{PlanNode, node_at}
use casei.Plan.Trie.Tree.{edge_at, Tree}
use casei.Plan.Links.{climb, climb_edges, link_of, root_link}
use casei.Plan.Links.Words.{
  state_of, state_of-cons, state_of-missing, state_of-zero, take-take, length-take,
}

-- The state is that of the longest end of the text that has one.
pub record Deepest (base : List PlanNode) (text : List ℕ) (state : ℕ) : Type 0 where
  pub units : ℕ
  pub inside : units ≤ length text
  pub is : state_of base (take units text) ≡ some state
  pub most : (m : ℕ) → units < m → m ≤ length text → state_of base (take m text) ≡ none

-- The state is that of an end of the text, and no longer end has a state with the token behind it.
pub record Climbing (base : List PlanNode) (text : List ℕ) (token units state : ℕ) : Type 0 where
  pub inside : units ≤ length text
  pub is : state_of base (take units text) ≡ some state
  pub most : (m : ℕ) → units < m → m ≤ length text → state_of base (token ∷ take m text) ≡ none

-- The nodes have the edges of the trie, and the failure links of the states at the depth `depth`
-- or less lead to the longest proper end of their word that has a state.
pub record Falling (base nodes : List PlanNode) (depth : ℕ) : Type 0 where
  pub same : (k : ℕ) → (node_at nodes k).edges ≡ (node_at base k).edges
  pub falls :
      (word : List ℕ) (state n : ℕ)
      → state_of base word ≡ some state
      → length word ≡ suc n
      → suc n ≤ depth
      → Deepest base (take n word) (node_at nodes state).failure

abbrev Missing : List PlanNode → List ℕ → ℕ → ℕ → Type 0
Missing base text token units =
    (m : ℕ) → units < m → m ≤ length text → state_of base (token ∷ take m text) ≡ none

taken-most :
    (base : List PlanNode) (text : List ℕ) (token units : ℕ)
    → Missing base text token units
    → (m : ℕ) → suc units < m
    → m ≤ length (token ∷ text)
    → state_of base (take m (token ∷ text)) ≡ none
taken-most base text token units most zero h le = absurd (omega arith)
taken-most base text token units most (suc m) h le = most m (omega arith) (omega arith)

-- The state has the edge: its end is the longest.
pub taken-Deepest :
    (base : List PlanNode) (text : List ℕ) (token units state next : ℕ)
    → Climbing base text token units state
    → edge_at base state token ≡ some next
    → Deepest base (token ∷ text) next
taken-Deepest base text token units state next c edge =
    let inside = c.inside in
    record {
      units = suc units;
      inside = omega arith;
      is = state_of-cons base token (take units text) state c.is ∙ edge;
      most = taken-most base text token units c.most;
    }

root-most :
    (base : List PlanNode) (text : List ℕ) (token : ℕ)
    → Missing base text token 0
    → edge_at base 0 token ≡ none
    → (m : ℕ) → 0 < m
    → m ≤ length (token ∷ text)
    → state_of base (take m (token ∷ text)) ≡ none
unfolding state_of
root-most base text token most missing zero h le = absurd (omega arith)
root-most base text token most missing (suc zero) h le = missing
root-most base text token most missing (suc (suc m)) h le = most (suc m) (omega arith) (omega arith)

module _ (base : List PlanNode) (tree : Tree base) where
  root_units :
      (text : List ℕ) (units : ℕ)
      → units ≤ length text
      → state_of base (take units text) ≡ some 0
      → units ≡ 0
  root_units text units inside is =
      sym (length-take units text inside) ∙ ap length (state_of-zero base tree _ is)

  -- The root has no edge: no end has a state.
  pub root-Deepest :
      (text : List ℕ) (token units : ℕ)
      → Climbing base text token units 0
      → edge_at base 0 token ≡ none
      → Deepest base (token ∷ text) 0
  unfolding state_of
  root-Deepest text token units c missing =
      let z = root_units text units c.inside c.is in
      let most : Missing base text token 0 = subst (Missing base text token) z c.most in
      record {
        units = 0;
        inside = omega arith;
        is = refl;
        most = root-most base text token most missing;
      }

  -- The state has no edge: the climb goes on at its failure link.
  record Fallen (text : List ℕ) (token units failure : ℕ) : Type 0 where
    less : ℕ
    shorter : less < units
    climbing : Climbing base text token less failure

  fallen :
      (text : List ℕ) (token n state failure : ℕ)
      → Climbing base text token (suc n) state
      → edge_at base state token ≡ none
      → Deepest base (take n (take (suc n) text)) failure
      → Fallen text token (suc n) failure
  fallen text token n state failure c missing d =
      let inside = c.inside in
      let again = take-take n (suc n) text (omega arith) in
      let d' = subst (λ w. Deepest base w failure) again d in
      let size = length-take n text (omega arith) in
      let bound = d'.inside in
      let short = λ (m : ℕ) (h : m ≤ n). take-take m n text h in
      record {
        less = d'.units;
        shorter = omega arith;
        climbing = record {
          inside = omega arith;
          is = ap (state_of base) (sym (short d'.units (omega arith))) ∙ d'.is;
          most = λ m h le. elim (Bool-cases (ltb n m)) [
            | inr small ↦
                let le' : m ≤ n = ground arith in
                state_of-missing base token (take m text)
                  (ap (state_of base) (sym (short m le')) ∙ d'.most m h (omega arith))
            | inl large ↦ elim (Bool-cases (m == suc n)) [
              | inl here ↦
                  let q : suc n ≡ m = ground arith in
                  subst (λ j. state_of base (token ∷ take j text) ≡ none) q
                    (state_of-cons base token (take (suc n) text) state c.is ∙ missing)
              | inr beyond ↦ c.most m (ground arith) le
            ]
          ];
        };
      }

module _ (base nodes : List PlanNode) (tree : Tree base) (depth : ℕ)
    (f : Falling base nodes depth) where
  edge_same : (k t : ℕ) → look (node_at nodes k).edges t ≡ edge_at base k t
  unfolding edge_at
  edge_same k t = ap (λ es. look es t) (f.same k)

  descend :
      (text : List ℕ) (token units state : ℕ)
      → units ≤ depth
      → state ≢ 0
      → edge_at base state token ≡ none
      → Climbing base text token units state
      → Fallen base tree text token units (node_at nodes state).failure
  unfolding state_of
  descend text token zero state low real missing c = absurd (real (sym (some-injective _ _ c.is)))
  descend text token (suc n) state low real missing c =
      fallen base tree text token n state (node_at nodes state).failure c missing
        (f.falls (take (suc n) text) state n c.is (length-take (suc n) text c.inside) low)

  -- The climb of `advance` reaches the state of the longest end with the token behind it.
  pub climb_edges-Deepest :
      (fuel : ℕ) (text : List ℕ) (token units state : ℕ)
      → units < fuel
      → units ≤ depth
      → Climbing base text token units state
      → Deepest base (token ∷ text) (climb_edges fuel nodes state token)
  unfolding climb_edges
  climb_edges-Deepest zero text token units state h low c = absurd (omega arith)
  climb_edges-Deepest (suc fuel) text token units state h low c =
      elim (Option-cases (edge_at base state token)) [
        | inr (next, edge) ↦
            rw (climb_edges, edge_same state token, edge)
              (taken-Deepest base text token units state next c edge)
        | inl missing ↦
            rw (climb_edges, edge_same state token, missing)
              (elim (Bool-cases (state == 0)) [
                | inl root ↦
                    let z : state ≡ 0 = ground arith in
                    rw root (
                      root-Deepest base tree text token units
                        (subst (Climbing base text token units) z c)
                        (sym (ap (λ k. edge_at base k token) z) ∙ missing))
                | inr other ↦
                    let next = descend text token units state low (ground arith) missing c in
                    let less = next.shorter in
                    rw other (
                      climb_edges-Deepest fuel text token next.less (node_at nodes state).failure
                        (omega arith) (omega arith) next.climbing)
              ])
      ]

  zero_state : (text : List ℕ) (state : ℕ) → state_of base (take 0 text) ≡ some state → state ≡ 0
  unfolding state_of
  zero_state text state is = sym (some-injective _ _ is)

  at_root :
      (fuel token child : ℕ)
      → edge_at base 0 token ≢ some child
      → root_link (look (node_at nodes 0).edges token) child ≡ climb_edges (suc fuel) nodes 0 token
  unfolding climb_edges
  at_root fuel token child apart = elim (Option-cases (edge_at base 0 token)) [
    | inl missing ↦ rw (climb_edges, edge_same 0 token, missing) refl
    | inr (next, edge) ↦
        rw (climb_edges, edge_same 0 token, edge)
          (elim (Bool-cases (next == child)) [
            | inl same ↦ absurd (let q : next ≡ child = ground arith in apart (edge ∙ ap some q))
            | inr other ↦ rw other refl
          ])
  ]

  -- The climb of `finish` and the root's edge behind it are the climb of `advance`.
  pub climb-eq-climb_edges :
      (fuel : ℕ) (text : List ℕ) (token units state child : ℕ)
      → units ≤ fuel
      → units ≤ depth
      → Climbing base text token units state
      → edge_at base 0 token ≢ some child
      → link_of (climb fuel nodes state token) (look (node_at nodes 0).edges token) child
        ≡ climb_edges (suc fuel) nodes state token
  unfolding climb climb_edges
  climb-eq-climb_edges zero text token zero state child h low c apart =
      let z : state ≡ 0 = zero_state text state c.is in rw z (at_root 0 token child apart)
  climb-eq-climb_edges zero text token (suc n) state child h low c apart = absurd (omega arith)
  climb-eq-climb_edges (suc fuel) text token units state child h low c apart =
      elim (Bool-cases (state == 0)) [
        | inl root ↦
            let z : state ≡ 0 = ground arith in
            subst
              (λ k.
                link_of (climb (suc fuel) nodes k token) (look (node_at nodes 0).edges token) child
                ≡ climb_edges (suc (suc fuel)) nodes k token)
              (sym z) (at_root (suc fuel) token child apart)
        | inr other ↦ elim (Option-cases (edge_at base state token)) [
          | inr (next, edge) ↦ rw (climb, climb_edges, other, edge_same state token, edge) refl
          | inl missing ↦
              let next = descend text token units state low (ground arith) missing c in
              let less = next.shorter in
              let rest =
                climb-eq-climb_edges fuel text token next.less (node_at nodes state).failure child
                  (omega arith) (omega arith) next.climbing apart in
              rw (climb, climb_edges, edge_same state token, missing, other) rest
        ]
      ]
