-- ===== src/Plan/Links.antt =====
-- plan.go: `finish`, the failure links and the dense transitions; and `advance`.
pub mod Words
pub mod Climb
pub mod Inherit
pub mod Seen
pub mod Linking
pub mod Pigeonhole
pub mod Children
pub mod Queue
pub mod Finish
pub mod Advance
pub mod Rows
pub mod Dense
pub mod Automaton
use casei.Base.{
  ℕ, zero, suc, ◌/◌, ◌%◌, ◌^◌, Bool, ◌||◌, Option, some, none, List, [], ◌∷◌, ◌++◌, ltb, leb, ◌==◌,
  if◌then◌else◌, length, get_or, set, replicate, map, Bytes,
}
use casei.Plan.Tokens.{Table, look, Tokens}
use casei.Plan.Trie.{PlanNode, node_at, prefer_output, build_trie}

-- `for failure != 0 { … }`: the state reached from the first state of the chain with the edge. A
-- chain of failure links is no longer than the count of nodes.
unfoldable pub climb : ℕ → List PlanNode → ℕ → ℕ → Option ℕ
climb zero nodes failure token = none
climb (suc fuel) nodes failure token =
    let node = node_at nodes failure in
    let onward = climb fuel nodes node.failure token in
    if failure == 0
    then none
    else elim (look node.edges token) [ some next ↦ some next | none ↦ onward ]

abbrev pub root_link : Option ℕ → ℕ → ℕ
root_link none child = 0
root_link (some next) child = if next == child then 0 else next

abbrev pub link_of : Option ℕ → Option ℕ → ℕ → ℕ
link_of (some next) root child = next
link_of none root child = root_link root child

-- The failure link of a child.
unfoldable pub link : List PlanNode → ℕ → ℕ → ℕ → ℕ
link nodes state token child =
    link_of (climb (length nodes) nodes (node_at nodes state).failure token)
      (look (node_at nodes 0).edges token) child

-- The child's failure link, and the output that it inherits.
unfoldable pub linked : List PlanNode → ℕ → ℕ → List PlanNode
linked nodes child failure =
    let node = node_at nodes child in
    let inherited = (node_at nodes failure).output in
    set nodes child (record node {
      failure = failure;
      output = if prefer_output inherited node.output then inherited else node.output;
    })

unfoldable pub link_children : List PlanNode → ℕ → Table → List PlanNode
link_children nodes state [] = nodes
link_children nodes state ((token, child) ∷ edges) =
    link_children (linked nodes child (link nodes state token child)) state edges

abbrev pub children : Table → List ℕ
children edges = map (λ e. e.1) edges

-- `for head := 0; head < len(queue); head++`, with the states that are still to be handled, and
-- the queue up to them. Each state enters the queue once, so the count of nodes is fuel enough.
pub record Linked : Type 0 where
  pub nodes : List PlanNode
  pub queue : List ℕ

unfoldable pub link_all : ℕ → List PlanNode → List ℕ → List ℕ → Linked
link_all zero nodes queue todo = record { nodes = nodes; queue = queue }
link_all (suc fuel) nodes queue [] = record { nodes = nodes; queue = queue }
link_all (suc fuel) nodes queue (state ∷ todo) =
    let edges = (node_at nodes state).edges in
    link_all fuel (link_children nodes state edges) (queue ++ state ∷ []) (todo ++ children edges)

unfoldable pub link_states : List PlanNode → Linked
link_states nodes = link_all (length nodes) nodes [] (children (node_at nodes 0).edges)

abbrev pub max_dense_transitions : ℕ
max_dense_transitions = 2 ^ 20

-- row[token] = uint32(child), for each edge.
unfoldable pub put_edges : List ℕ → Table → List ℕ
put_edges row [] = row
put_edges row ((token, child) ∷ edges) = put_edges (set row token (child % 2 ^ 32)) edges

-- The rows are the slices of `dense`, each of `stride` entries.
unfoldable pub fill_rows : ℕ → List PlanNode → List (List ℕ) → List ℕ → List (List ℕ)
fill_rows stride nodes rows [] = rows
fill_rows stride nodes rows (state ∷ queue) =
    let node = node_at nodes state in
    let row = put_edges (get_or rows node.failure (replicate stride 0)) node.edges in
    fill_rows stride nodes (set rows state row) queue

unfoldable pub make_dense : ℕ → Linked → Option (List (List ℕ))
make_dense stride l =
    let empty_row = replicate stride 0 in
    let rows = replicate (length l.nodes) empty_row in
    let root = put_edges empty_row (node_at l.nodes 0).edges in
    if leb stride 1 || ltb (max_dense_transitions / stride) (length l.nodes)
    then none
    else some (fill_rows stride l.nodes (set rows 0 root) l.queue)

-- `searchPlan` without its filters.
pub record SearchPlan : Type 0 where
  pub exact : Bool
  pub tokens : Tokens
  pub nodes : List PlanNode
  pub dense : Option (List (List ℕ))
  pub stride : ℕ
  pub single_tokens : List ℕ
  pub empty : Option ℕ
  pub max_units : ℕ
  pub max_bytes : ℕ
  pub pattern_count : ℕ

unfoldable pub new_search_plan : (ℕ → ℕ) → List Bytes → Bool → SearchPlan
new_search_plan simple_fold patterns exact =
    let t = build_trie simple_fold exact patterns in
    let l = link_states t.nodes in
    record {
      exact = exact;
      tokens = t.tokens;
      nodes = l.nodes;
      dense = make_dense t.tokens.next_token l;
      stride = t.tokens.next_token;
      single_tokens = t.single_tokens;
      empty = t.empty;
      max_units = t.max_units;
      max_bytes = t.max_bytes;
      pattern_count = length patterns;
    }

-- The loop of `advance` without a dense table.
unfoldable pub climb_edges : ℕ → List PlanNode → ℕ → ℕ → ℕ
climb_edges zero nodes state token = 0
climb_edges (suc fuel) nodes state token =
    let node = node_at nodes state in
    let onward = climb_edges fuel nodes node.failure token in
    elim (look node.edges token) [ some next ↦ next | none ↦ if state == 0 then 0 else onward ]

abbrev pub step_by : Option (List (List ℕ)) → List PlanNode → ℕ → ℕ → ℕ
step_by (some rows) nodes state token = get_or (get_or rows state []) token 0
step_by none nodes state token = climb_edges (suc (length nodes)) nodes state token

unfoldable pub advance : SearchPlan → ℕ → ℕ → ℕ
advance p state token = if token == 0 then 0 else step_by p.dense p.nodes state token
