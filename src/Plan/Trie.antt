-- ===== src/Plan/Trie.antt =====
-- plan.go: the trie that `newSearchPlan` builds from the patterns.
pub mod Tree
pub mod Outputs
pub mod Edges
pub mod Units
pub mod Offer
pub mod Patterns
pub mod Sources
use casei.Base.{
  ℕ, zero, suc, ◌+◌, Bool, true, false, ◌&&◌, ◌||◌, Option, some, none, List, [], ◌∷◌, ◌++◌, ltb,
  ◌==◌, if◌then◌else◌, length, get_or, set, drop, Bytes,
}
use casei.Plan.Tokens.{Table, look, Tokens, no_tokens, PatternUnit, pattern_token, unit_bytes}

-- The pattern -1 is `none`.
pub record PlanOutput : Type 0 where
  pub pattern : Option ℕ
  pub units : ℕ

pub record PlanNode : Type 0 where
  pub edges : Table
  pub failure : ℕ
  pub output : PlanOutput

abbrev pub no_output : PlanOutput
no_output = record { pattern = none; units = 0 }

abbrev pub new_node : PlanNode
new_node = record { edges = []; failure = 0; output = no_output }

abbrev pub node_at : List PlanNode → ℕ → PlanNode
node_at nodes state = get_or nodes state new_node

abbrev pub better : Option ℕ → ℕ → Option ℕ → ℕ → Bool
better none units current current_units = false
better (some pattern) units none current_units = true
better (some pattern) units (some current) current_units =
    ltb current_units units || units == current_units && ltb pattern current

unfoldable pub prefer_output : PlanOutput → PlanOutput → Bool
prefer_output candidate current =
    better candidate.pattern candidate.units current.pattern current.units

-- p.nodes[state].edges[token], made where it is missing: the nodes afterwards and the next state.
abbrev pub grow : List PlanNode → ℕ → ℕ → Option ℕ → List PlanNode × ℕ
grow nodes state token (some next) = (nodes, next)
grow nodes state token none =
    let next = length nodes in
    let node = node_at nodes state in
    (
      set (nodes ++ new_node ∷ []) state (record node { edges = node.edges ++ (token, next) ∷ [] }),
      next,
    )

unfoldable pub follow : List PlanNode → ℕ → ℕ → List PlanNode × ℕ
follow nodes state token = grow nodes state token (look (node_at nodes state).edges token)

-- The variables of the loop over one pattern.
pub record Build : Type 0 where
  pub tokens : Tokens
  pub nodes : List PlanNode
  pub single_tokens : List ℕ
  pub state : ℕ
  pub units : ℕ
  pub max_bytes : ℕ

-- The plan while it is built, without its filters.
pub record Trie : Type 0 where
  pub tokens : Tokens
  pub nodes : List PlanNode
  pub single_tokens : List ℕ
  pub empty : Option ℕ
  pub max_units : ℕ
  pub max_bytes : ℕ

abbrev pub first_empty : Option ℕ → ℕ → Option ℕ
first_empty none id = some id
first_empty (some e) id = if ltb id e then some id else some e

module _ (simple_fold : ℕ → ℕ) (exact single : Bool) where
  unfoldable pub add_unit : PatternUnit simple_fold → Bytes → Build → Build
  add_unit unit s b =
      let (nodes, next) = follow b.nodes b.state unit.token in
      record {
        tokens = unit.tokens;
        nodes = nodes;
        single_tokens = if single then b.single_tokens ++ unit.token ∷ [] else b.single_tokens;
        state = next;
        units = b.units + 1;
        max_bytes = b.max_bytes + unit_bytes simple_fold exact s unit.size;
      }

  -- for at := 0; at < len(pattern): the fuel is the length of the text that is left.
  unfoldable pub add_units : ℕ → Bytes → Build → Build
  add_units zero s b = b
  add_units (suc fuel) [] b = b
  add_units (suc fuel) (c ∷ s) b =
      let unit = pattern_token simple_fold exact b.tokens (c ∷ s) in
      add_units fuel (drop unit.size (c ∷ s)) (add_unit unit (c ∷ s) b)

  abbrev start_pattern : Trie → Build
  start_pattern t = record {
    tokens = t.tokens;
    nodes = t.nodes;
    single_tokens = t.single_tokens;
    state = 0;
    units = 0;
    max_bytes = 0;
  }

  abbrev pub end_pattern : ℕ → Trie → Build → Trie
  end_pattern id t b =
      let terminal : PlanOutput = record { pattern = some id; units = b.units } in
      let node = node_at b.nodes b.state in
      record {
        tokens = b.tokens;
        nodes =
            if prefer_output terminal node.output
            then set b.nodes b.state (record node { output = terminal })
            else b.nodes;
        single_tokens = b.single_tokens;
        empty = t.empty;
        max_units = if ltb t.max_units b.units then b.units else t.max_units;
        max_bytes = if ltb t.max_bytes b.max_bytes then b.max_bytes else t.max_bytes;
      }

  unfoldable pub add_pattern : ℕ → Bytes → Trie → Trie
  add_pattern id [] t = record t { empty = first_empty t.empty id }
  add_pattern id (c ∷ s) t = end_pattern id t (add_units (length (c ∷ s)) (c ∷ s) (start_pattern t))

  unfoldable pub add_patterns : ℕ → List Bytes → Trie → Trie
  add_patterns id [] t = t
  add_patterns id (pattern ∷ patterns) t = add_patterns (suc id) patterns (add_pattern id pattern t)

abbrev pub no_trie : Trie
no_trie = record {
  tokens = no_tokens;
  nodes = new_node ∷ [];
  single_tokens = [];
  empty = none;
  max_units = 0;
  max_bytes = 0;
}

unfoldable pub build_trie : (ℕ → ℕ) → Bool → List Bytes → Trie
build_trie simple_fold exact patterns =
    add_patterns simple_fold exact (length patterns == 1) 0 patterns no_trie
