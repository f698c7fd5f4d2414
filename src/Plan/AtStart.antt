-- ===== src/Plan/AtStart.antt =====
-- each_root.go: `matchAtStart`; plan.go: `haystackToken` and `matchesSingleAt`.
pub mod Bounds
use casei.Base.{
  ℕ, zero, suc, ◌+◌, ◌-◌, ◌<◌, ◌≤◌, Bool, true, false, ◌&&◌, ◌||◌, not, Option, some, none, List,
  [], ◌∷◌, arith, ltb, leb, ◌==◌, if◌then◌else◌, length, drop, Bytes, byte_at, get_or,
}
use casei.Utf8.{decode_rune, rune_error, rune_self}
use casei.Plan.Tokens.{look, value_of}
use casei.Plan.Trie.{PlanOutput, PlanNode, node_at}
use casei.Plan.Links.{SearchPlan}
use casei.Plan.Search.{Match}

-- The token and the size of the unit at `at`, on a plan without exact tokens. `raw` is
-- `hasRawByteTokenPlan`. The `ascii` table holds the tokens of the runes below 0x80.
unfoldable pub haystack_token : SearchPlan → Bool → Bytes → ℕ → ℕ × ℕ
haystack_token p raw s at =
    let byte = byte_at s at in
    let (r, size) = decode_rune (drop at s) in
    if ltb byte rune_self
    then (value_of (look p.tokens.runes byte), 1)
    else if r == rune_error && size == 1
    then (if raw then 0 else byte_at p.tokens.byte_tokens byte, 1)
    else (value_of (look p.tokens.runes r), size)

-- best and bestWidth.
pub record Anchored : Type 0 where
  pub pattern : ℕ
  pub width : ℕ

-- `output.pattern < best.Pattern`, where a pattern -1 is none.
abbrev pub lower : ℕ → Option Anchored → Bool
lower pattern none = true
lower pattern (some best) = ltb pattern best.pattern

abbrev pub take_output : PlanOutput → ℕ → ℕ → Option Anchored → Option Anchored
take_output output units width best = elim output.pattern [
  | none ↦ best
  | some pattern ↦
      if output.units == units && lower pattern best
      then some (record { pattern = pattern; width = width })
      else best
]

-- `for units := 1; units <= p.maxUnits && at < len(haystack)`, with `rounds` left.
unfoldable pub anchored_loop :
    SearchPlan → Bool → ℕ → ℕ → Bytes → ℕ → ℕ → ℕ → Option Anchored → Option Anchored
anchored_loop p raw zero units s start at state best = best
anchored_loop p raw (suc rounds) units s start at state best =
    let (token, size) = haystack_token p raw s at in
    let onward = λ (next : ℕ).
      anchored_loop p raw rounds (suc units) s start (at + size) next
        (take_output (node_at p.nodes next).output units (at + size - start) best) in
    if leb (length s) at
    then best
    else if token == 0
    then best
    else elim (look (node_at p.nodes state).edges token) [ none ↦ best | some next ↦ onward next ]

unfoldable pub match_at_start : SearchPlan → Bool → Bytes → ℕ → Option Anchored
match_at_start p raw s start =
    if leb (length s) start then none else anchored_loop p raw p.max_units 1 s start start 0 none

-- `matchesSingleAt` over the tokens of the one pattern.
unfoldable pub matches_single_at : SearchPlan → Bool → List ℕ → Bytes → ℕ → Bool
matches_single_at p raw [] s at = true
matches_single_at p raw (want ∷ tokens) s at =
    let (got, size) = haystack_token p raw s at in
    let rest = matches_single_at p raw tokens s (at + size) in
    if at == length s then false else if not (got == want) then false else rest
