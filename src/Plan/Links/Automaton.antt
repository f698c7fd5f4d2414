-- ===== src/Plan/Links/Automaton.antt =====
-- plan.go: `advance` on the plan behind `finish`.
use casei.Base.{
  ℕ, ◌||◌, ◌==◌, suc, ◌^◌, true, Option, some, none, List, [], ◌∷◌, arith, length, get_or, ◌≡◌, ◌<◌,
  ◌≤◌, ltb, refl, ap, take, inl, inr, Bool-cases, ◌≢◌, ◌∙◌, sym,
}
use mathlib.Core.Path.{subst}
use mathlib.Core.Option.{some-injective}
use casei.Plan.Trie.{PlanNode, node_at}
use casei.Plan.Trie.Tree.{Tree}
use casei.Plan.Links.{Linked, SearchPlan, make_dense, step_by, advance, climb_edges}
use casei.Plan.Links.Words.{state_of, take_all}
use casei.Plan.Links.Climb.{Deepest}
use casei.Plan.Links.Seen.{has}
use casei.Plan.Links.Linking.{output-Inherits}
use casei.Plan.Links.Inherit.{Inherits}
use casei.Plan.Links.Finish.{Finished}
use casei.Plan.Links.Advance.{Deepest-lift, zero-Deepest, climbed-Deepest}
use casei.Plan.Links.Dense.{make_dense-RowsRight, make_dense-small}

module _ (base : List PlanNode) (tree : Tree base) (root : 0 < length base) where
  dense-Deepest :
      (stride : ℕ) (l : Linked) (rows : List (List ℕ)) (text : List ℕ) (token state : ℕ)
      → Finished base l
      → make_dense stride l ≡ some rows
      → Deepest base text state
      → token ≢ 0
      → token < stride
      → Deepest base (token ∷ text) (get_or (get_or rows state []) token 0)
  dense-Deepest stride l rows text token state fin made d real below =
      let size = fin.seen.size in
      let few = make_dense-small stride l rows made in
      let small : length base ≤ 2 ^ 20 = omega arith in
      let word = take d.units text in
      let rs = make_dense-RowsRight base tree root stride small l rows fin made in
      let inside = d.inside in
      let there : (state == 0 || has l.queue state) ≡ true = elim (Bool-cases (state == 0)) [
        | inl zero_state ↦ rw zero_state refl
        | inr other ↦
            let h = fin.covered (length word) word state d.is (ground arith) (omega arith) in
            ground arith
      ] in
      Deepest-lift base text token state _ d
        ((rs.rights word state d.is there).right token real below)

  step_by-Deepest :
      (stride : ℕ) (l : Linked) (dense : Option (List (List ℕ))) (text : List ℕ) (token state : ℕ)
      → Finished base l
      → make_dense stride l ≡ dense
      → Deepest base text state
      → token ≢ 0
      → token < stride
      → Deepest base (token ∷ text) (step_by dense l.nodes state token)
  step_by-Deepest stride l none text token state fin made d real below =
      climbed-Deepest base tree root l text token state fin d
  step_by-Deepest stride l (some rows) text token state fin made d real below =
      dense-Deepest stride l rows text token state fin made d real below

  -- From the state of the longest end of a text that has one, `advance` leads to that of the
  -- text with the token behind it.
  pub advance-Deepest :
      (p : SearchPlan) (l : Linked) (text : List ℕ) (token state : ℕ)
      → p.nodes ≡ l.nodes
      → p.dense ≡ make_dense p.stride l
      → Finished base l
      → Deepest base text state
      → token < p.stride
      → Deepest base (token ∷ text) (advance p state token)
  unfolding advance
  advance-Deepest p l text token state nodes dense fin d below = elim (Bool-cases (token == 0)) [
    | inl missing ↦
        let z : 0 ≡ token = ground arith in
        rw missing (subst (λ t. Deepest base (t ∷ text) 0) z (zero-Deepest base tree root text))
    | inr real ↦ rw real (
        subst (λ ns. Deepest base (token ∷ text) (step_by p.dense ns state token)) (sym nodes)
          (step_by-Deepest p.stride l p.dense text token state fin (sym dense) d (ground arith)
            below))
  ]

  -- The output of the state of a text is the best of those that the trie has for its ends.
  pub Deepest-Inherits :
      (l : Linked) (text : List ℕ) (state : ℕ)
      → Finished base l
      → (d : Deepest base text state)
      → Inherits base (take d.units text) (node_at l.nodes state).output
  Deepest-Inherits l text state fin d =
      let word = take d.units text in
      output-Inherits base tree root l.nodes l.queue word state (length word) fin.seen
        (fin.covered (length word)) d.is (omega arith)

  -- A text has one longest end with a state.
  Deepest-unique :
      (text : List ℕ) (state state' : ℕ)
      → Deepest base text state
      → Deepest base text state'
      → state ≡ state'
  Deepest-unique text state state' d d' =
      let inside = d.inside in
      let inside' = d'.inside in
      let is = d.is in
      let is' = d'.is in
      elim (Bool-cases (ltb d.units d'.units)) [
        | inl less ↦ let missing = d.most d'.units (ground arith) (omega arith) in absurd (cc)
        | inr other ↦ elim (Bool-cases (ltb d'.units d.units)) [
          | inl more ↦ let missing = d'.most d.units (ground arith) (omega arith) in absurd (cc)
          | inr equal ↦
              let q : d.units ≡ d'.units = ground arith in
              some-injective _ _ (sym d.is ∙ ap (λ n. state_of base (take n text)) q ∙ d'.is)
        ]
      ]

  -- If the nodes form a tree as finish takes it, the queue of finish has been worked off and a
  -- dense table is made, then for every state that a word leads to, and every token but 0 below
  -- the stride, the entry of the table is the state that the climb along the failure links
  -- reaches.
  pub dense_entry-eq-climb_edges :
      (stride : ℕ) (l : Linked) (rows : List (List ℕ)) (word : List ℕ) (token state : ℕ)
      → Finished base l
      → make_dense stride l ≡ some rows
      → state_of base word ≡ some state
      → token ≢ 0
      → token < stride
      → get_or (get_or rows state []) token 0
        ≡ climb_edges (suc (length l.nodes)) l.nodes state token
  dense_entry-eq-climb_edges stride l rows word token state fin made is real below =
      let d : Deepest base word state = record {
        units = length word;
        inside = omega arith;
        is = ap (state_of base) (take_all word) ∙ is;
        most = λ m h le. absurd (omega arith);
      } in
      Deepest-unique (token ∷ word) _ _
        (dense-Deepest stride l rows word token state fin made d real below)
        (climbed-Deepest base tree root l word token state fin d)
