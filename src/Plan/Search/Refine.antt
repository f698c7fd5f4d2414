-- ===== src/Plan/Search/Refine.antt =====
-- plan.go: `find` on an exact plan against the patterns themselves.
use casei.Base.{
  ℕ, ◌==◌, suc, ◌+◌, ◌^◌, true, Option, some, none, List, [], ◌∷◌, arith, length, Bytes, ◌≡◌, ◌<◌,
  ◌≤◌, refl, ap, inl, inr, Bool-cases, ◌∙◌, sym, Option-cases, map, AreBytes, All,
}
use mathlib.Core.Path.{subst}
use mathlib.Core.Option.{some-injective}
use casei.Plan.Trie.{PlanNode, node_at}
use casei.Plan.Trie.Patterns.{total}
use casei.Plan.Trie.Sources.{EmptyHeld}
use casei.Plan.Links.{SearchPlan, new_search_plan, link_states, advance}
use casei.Plan.Links.Words.{state_of, state_of-zero, rev_onto, walk-state_of}
use casei.Plan.Links.Climb.{Deepest}
use casei.Plan.Links.Finish.{Finished, link_states-Finished}
use casei.Plan.Links.Automaton.{advance-Deepest, Deepest-Inherits}
use casei.Plan.Search.{empty_match, find_exact_bytes, find_exact}
use casei.Plan.Search.Leftmost.{BestTo, Reporting, BestOfAll, exact_loop-BestOfAll}
use casei.Plan.Search.Reverse.{rev, length-rev, length-map, map-rev}
use casei.Plan.Search.Reports.{Occurs, plan_trie, token_of, stepped, inherits-Reports}

module _ (simple_fold : ℕ → ℕ) (patterns : List Bytes) (bytes : All AreBytes patterns)
    (room : total patterns + 2 < 2 ^ 32) where
  abbrev plan : SearchPlan
  plan = new_search_plan simple_fold patterns true

  abbrev trie_nodes : List PlanNode
  trie_nodes = (plan_trie simple_fold patterns bytes room).nodes

  -- No pattern ends at the root.
  pub bare : (node_at trie_nodes 0).output.pattern ≡ none
  unfolding state_of rev_onto
  bare =
      let st = stepped simple_fold patterns bytes room in
      elim (Option-cases (node_at trie_nodes 0).output.pattern) [
        | inl nothing ↦ nothing
        | inr (p, e) ↦
            let s = st.sourced.sources 0 p e in
            let word =
              walk-state_of trie_nodes (map (token_of simple_fold patterns bytes room) s.pattern) []
                0 0 refl s.path in
            let tok = token_of simple_fold patterns bytes room in
            let z : length (rev_onto (map tok s.pattern) []) ≡ 0 =
              ap length (state_of-zero trie_nodes st.ready.tree _ word) in
            let full = s.full in
            let l : length (rev_onto (map tok s.pattern) []) ≡ length (map tok (rev s.pattern [])) =
              ap length (map-rev tok s.pattern []) in
            let m = length-map tok (rev s.pattern []) in
            let r = length-rev s.pattern [] in absurd (omega arith)
      ]

  pub linked_trie : Finished trie_nodes (link_states trie_nodes)
  linked_trie =
      let st = stepped simple_fold patterns bytes room in
      link_states-Finished trie_nodes st.ready.tree st.ready.root bare

  -- The states of the plan report the best of the patterns that end behind each byte.
  plan-Reporting :
      (rest read : Bytes) (at state : ℕ)
      → at ≡ length read
      → Deepest trie_nodes (map (token_of simple_fold patterns bytes room) read) state
      → Reporting (Occurs patterns (rev read rest)) plan at state rest
  unfolding Reporting rev new_search_plan
  plan-Reporting [] read at state end d = tt
  plan-Reporting (b ∷ rest) read at state end d =
      let tok = token_of simple_fold patterns bytes room in
      let st = stepped simple_fold patterns bytes room in
      let l = link_states trie_nodes in
      let state' = advance plan state (tok b) in
      let d' =
        advance-Deepest trie_nodes st.ready.tree st.ready.root plan l (map tok read) (tok b) state
          refl refl linked_trie d (st.ready.distinct.below b) in
      let i =
        Deepest-Inherits trie_nodes st.ready.tree st.ready.root l (map tok (b ∷ read)) state'
          linked_trie d' in
      (
        inherits-Reports simple_fold patterns bytes room (b ∷ read) rest at state'
            (node_at l.nodes state').output (omega arith) d' i,
        plan-Reporting rest (b ∷ read) (suc at) state' (omega arith) d',
      )

  -- At the start nothing is read.
  start-Deepest : Deepest trie_nodes [] 0
  unfolding state_of
  start-Deepest = record {
    units = 0;
    inside = omega arith;
    is = refl;
    most = λ m h le. absurd (omega arith);
  }

  empties-first :
      (haystack : Bytes) (id start : ℕ)
      → Occurs patterns haystack id start 0
      → Occurs patterns haystack id 0 0
  empties-first haystack id start o = record {
    pattern = o.pattern;
    is = o.is;
    size = o.size;
    inside = omega arith;
    here = o.here;
  }

  -- The best of the empty patterns, which `empty` is.
  empty-Held :
      (haystack : Bytes) (id start : ℕ)
      → Occurs patterns haystack id start 0
      → EmptyHeld plan.empty id
  unfolding new_search_plan
  empty-Held haystack id start o =
      let st = stepped simple_fold patterns bytes room in
      let q : 0 + id ≡ id = omega arith in
      subst (EmptyHeld plan.empty) q (st.has_empty id (o.is ∙ ap some (sym o.here)))

  empty-Occurs :
      (haystack : Bytes) (id : ℕ) → plan.empty ≡ some id → Occurs patterns haystack id 0 0
  unfolding new_search_plan
  empty-Occurs haystack id e =
      let st = stepped simple_fold patterns bytes room in
      record {
        pattern = [];
        is = st.sourced.empties id e;
        size = refl;
        inside = omega arith;
        here = refl;
      }

  empty-BestTo :
      (haystack : Bytes) (empty : Option ℕ)
      → plan.empty ≡ empty
      → BestTo (Occurs patterns haystack) 0 (empty_match empty)
  empty-BestTo haystack none e = λ id start n o. elim (Bool-cases (n == 0)) [
    | inl nil ↦
        let q : n ≡ 0 = ground arith in
        let h = empty-Held haystack id start (subst (Occurs patterns haystack id start) q o) in
        let is = h.is in absurd (cc)
    | inr full ↦ ground arith
  ]
  empty-BestTo haystack (some id) e = (
    (0, empty-Occurs haystack id e),
    λ id' start n o low.
        let q : n ≡ 0 = omega arith in
        let h = empty-Held haystack id' start (subst (Occurs patterns haystack id' start) q o) in
        let same : id ≡ h.lowest = some-injective _ _ (sym e ∙ h.is) in
        let order = h.order in ground arith,
  )

  max-covers :
      (haystack : Bytes) (id start n : ℕ) → Occurs patterns haystack id start n → n ≤ plan.max_units
  unfolding new_search_plan
  max-covers haystack id start n o =
      let st = stepped simple_fold patterns bytes room in
      let h = st.covers id o.pattern o.is in let size = o.size in omega arith

  -- No pattern has a byte: the lowest empty one is the best.
  empty-BestOfAll :
      (haystack : Bytes) (empty : Option ℕ)
      → plan.empty ≡ empty
      → plan.max_units ≡ 0
      → BestOfAll (Occurs patterns haystack) (empty_match empty)
  empty-BestOfAll haystack none e zero_max = λ id start n o.
      let c = max-covers haystack id start n o in
      let b = empty-BestTo haystack none e id 0 0 (
        empties-first haystack id start
          (subst (Occurs patterns haystack id start) (omega arith) o)) in
      absurd (omega arith)
  empty-BestOfAll haystack (some id) e zero_max = (
    (0, empty-Occurs haystack id e),
    λ id' start n o.
        let c = max-covers haystack id' start n o in
        let q : n ≡ 0 = omega arith in
        let h = empty-Held haystack id' start (subst (Occurs patterns haystack id' start) q o) in
        let same : id ≡ h.lowest = some-injective _ _ (sym e ∙ h.is) in
        let order = h.order in ground arith,
  )

  -- For patterns of bytes, which have fewer bytes in all than there are tokens, and on every
  -- text, the search of the exact plan made from the patterns is what its description asks for:
  -- where it reports a match, the pattern with that index stands in the text at that start, and
  -- no occurrence of any pattern starts earlier, nor one of a pattern with a lower index at the
  -- same start; where it reports none, no pattern occurs in the text, the empty one included.
  pub find_exact-Leftmost :
      (haystack : Bytes)
      → BestOfAll
          (Occurs patterns haystack)
          (find_exact (new_search_plan simple_fold patterns true) haystack)
  unfolding find_exact find_exact_bytes rev
  find_exact-Leftmost haystack = elim (Bool-cases (plan.max_units == 0)) [
    | inl no_units ↦ rw no_units (empty-BestOfAll haystack plan.empty refl (ground arith))
    | inr units ↦ rw units (
        exact_loop-BestOfAll (Occurs patterns haystack) (empties-first haystack) plan haystack 0 0
          (empty_match plan.empty) (max-covers haystack)
          (λ id start n o. let h = o.inside in omega arith)
          (plan-Reporting haystack [] 0 0 refl start-Deepest)
          (empty-BestTo haystack plan.empty refl))
  ]
