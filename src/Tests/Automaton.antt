-- ===== src/Tests/Automaton.antt =====
-- The automaton of a concrete exact plan.
use casei.Base.{
  ℕ, suc, ◌≡◌, ◌<◌, ◌+◌, ◌^◌, refl, none, Option, some, true, false, List, [], ◌∷◌, arith, Bytes,
  All, AreBytes, length, get_or,
}
use casei.Utf8.{decode_rune, encode_rune}
use casei.Plan.Tokens.{
  orbit, orbit_from, rune_token, store_orbit, byte_token, pattern_token, unit_bytes,
  max_fold_rune_width, widest, look, store,
}
use casei.Plan.Trie.{
  PlanNode, no_trie, follow, add_unit, add_units, add_pattern, add_patterns, build_trie,
  prefer_output,
}
use casei.Plan.Trie.Tree.{edge_at}
use casei.Plan.Trie.Patterns.{total}
use casei.Plan.Trie.Sources.{AllStepped, Indexed, build_trie-AllStepped}
use casei.Plan.Links.{
  climb, link, linked, link_children, link_all, link_states, put_edges, fill_rows, make_dense,
  new_search_plan, climb_edges,
}
use casei.Plan.Links.Words.{state_of}
use casei.Plan.Links.Finish.{Finished, link_states-Finished}
use casei.Plan.Links.Automaton.{dense_entry-eq-climb_edges}
use casei.Plan.Search.{find_exact}
use casei.Plan.Search.Leftmost.{BestOfAll}
use casei.Plan.Search.Reports.{Occurs, stepped}
use casei.Plan.Search.Refine.{bare, linked_trie, find_exact-Leftmost}

abbrev one_only : ℕ → ℕ
one_only r = r

-- "bc", "abd" and the empty pattern
abbrev three_patterns : List Bytes
three_patterns = (b'b' ∷ b'c' ∷ []) ∷ (b'a' ∷ b'b' ∷ b'd' ∷ []) ∷ [] ∷ []

-- "xabcabd"
abbrev haystack : Bytes
haystack = b'x' ∷ b'a' ∷ b'b' ∷ b'c' ∷ b'a' ∷ b'b' ∷ b'd' ∷ []

are_bytes : All AreBytes three_patterns
are_bytes =
    ((omega arith, (omega arith, tt)), ((omega arith, (omega arith, (omega arith, tt))), (tt, tt)))

few : total three_patterns + 2 < 2 ^ 32
few = omega arith

find_exact-Leftmost_example :
    BestOfAll
      (Occurs three_patterns haystack)
      (find_exact (new_search_plan one_only three_patterns true) haystack)
find_exact-Leftmost_example = find_exact-Leftmost one_only three_patterns are_bytes few haystack

build_trie-AllStepped_example :
    AllStepped
      (Indexed three_patterns)
      one_only
      false
      0
      three_patterns
      no_trie
      (build_trie one_only true three_patterns)
build_trie-AllStepped_example = build_trie-AllStepped one_only three_patterns are_bytes few

abbrev three_nodes : List PlanNode
three_nodes = (build_trie one_only true three_patterns).nodes

link_states-Finished_example : Finished three_nodes (link_states three_nodes)
link_states-Finished_example =
    link_states-Finished three_nodes (stepped one_only three_patterns are_bytes few).ready.tree
      (stepped one_only three_patterns are_bytes few).ready.root
      (bare one_only three_patterns are_bytes few)

abbrev or_no_rows : Option (List (List ℕ)) → List (List ℕ)
or_no_rows none = []
or_no_rows (some rows) = rows

abbrev three_rows : List (List ℕ)
three_rows = or_no_rows (make_dense 5 (link_states three_nodes))

rows_made : make_dense 5 (link_states three_nodes) ≡ some three_rows
unfolding build_trie add_patterns add_pattern add_units add_unit follow look pattern_token
    byte_token rune_token store_orbit store orbit orbit_from decode_rune unit_bytes prefer_output
    link_states link_all link_children linked link climb make_dense fill_rows put_edges
    max_fold_rune_width widest encode_rune
rows_made = refl

-- "ab", the last token first
ab_state : state_of three_nodes (1 ∷ 3 ∷ []) ≡ some 4
unfolding build_trie add_patterns add_pattern add_units add_unit follow look pattern_token
    byte_token rune_token store_orbit store orbit orbit_from decode_rune unit_bytes prefer_output
    max_fold_rune_width widest encode_rune state_of edge_at
ab_state = refl

-- From "ab" the token of "c" leads to the state of "bc".
dense_entry-eq-climb_edges_example :
    get_or (get_or three_rows 4 []) 2 0
    ≡ climb_edges (suc (length (link_states three_nodes).nodes)) (link_states three_nodes).nodes 4 2
dense_entry-eq-climb_edges_example =
    dense_entry-eq-climb_edges three_nodes
      (stepped one_only three_patterns are_bytes few).ready.tree
      (stepped one_only three_patterns are_bytes few).ready.root 5 (link_states three_nodes)
      three_rows (1 ∷ 3 ∷ []) 2 4 (linked_trie one_only three_patterns are_bytes few) rows_made
      ab_state (omega arith) (omega arith)
