-- ===== src/Plan/Search.antt =====
-- plan.go: `findExactBytes`, and the branches of `findWithWidth` before the folded routes.
pub mod Leftmost
pub mod Reverse
pub mod Reports
pub mod Refine
use casei.Base.{
  ℕ, suc, ◌+◌, ◌-◌, Bool, false, ◌&&◌, ◌||◌, Option, some, none, [], ◌∷◌, ltb, leb, ◌==◌,
  if◌then◌else◌, Bytes, byte_at,
}
use casei.Plan.Trie.{node_at}
use casei.Plan.Links.{SearchPlan, advance}

-- Match{Pattern, Start}; a result with ok = false is `none`.
pub record Match : Type 0 where
  pub pattern : ℕ
  pub start : ℕ

-- `best`, with `bestUnitStart` its start; `none` is the start -1.
abbrev pub Best : Type 0
Best = Option Match

-- Whether the pattern that ends at `at` replaces the best match, and what it is replaced by.
abbrev pub improve : Best → ℕ → ℕ → Best
improve none pattern start = some (record { pattern = pattern; start = start })
improve (some best) pattern start =
    if ltb start best.start || start == best.start && ltb pattern best.pattern
    then some (record { pattern = pattern; start = start })
    else some best

abbrev pub observe : Best → ℕ → Option ℕ → ℕ → Best
observe best at none units = best
observe best at (some pattern) units = improve best pattern (at + 1 - units)

-- `at >= bestUnitStart+p.maxUnits-1`: no later match can start earlier.
abbrev pub settled : Best → ℕ → ℕ → Bool
settled none at max_units = false
settled (some best) at max_units = leb (best.start + max_units) (at + 1)

unfoldable pub exact_loop : SearchPlan → ℕ → ℕ → Best → Bytes → Best
exact_loop p at state best [] = best
exact_loop p at state best (b ∷ s) =
    let state' = advance p state (byte_at p.tokens.byte_tokens b) in
    let output = (node_at p.nodes state').output in
    let best' = observe best at output.pattern output.units in
    let later = exact_loop p (suc at) state' best' s in
    if settled best' at p.max_units then best' else later

abbrev pub empty_match : Option ℕ → Best
empty_match none = none
empty_match (some id) = some (record { pattern = id; start = 0 })

unfoldable pub find_exact_bytes : SearchPlan → Bytes → Option Match
find_exact_bytes p haystack = exact_loop p 0 0 (empty_match p.empty) haystack

-- `find` on an exact plan.
unfoldable pub find_exact : SearchPlan → Bytes → Option Match
find_exact p haystack =
    if p.max_units == 0 then empty_match p.empty else find_exact_bytes p haystack
