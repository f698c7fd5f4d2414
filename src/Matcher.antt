-- ===== src/Matcher.antt =====
-- matcher.go: `Each`, the loop over `findWithWidth`, and `matcherMatchEnd`.
pub mod Each
pub mod Interior
pub mod Probe
use casei.Base.{
  ℕ, zero, suc, ◌+◌, ◌-◌, Bool, true, false, ◌&&◌, not, Option, some, none, ◌>>=◌, List, [], ◌∷◌,
  arith, ltb, ◌==◌, if◌then◌else◌, length, drop, get_or, Bytes,
}
use casei.Utf8.{decode_rune, unit_starts}
use casei.Plan.Search.{Match}

-- `matcherMatchEnd`: the end of `units` decoded units.
unfoldable pub match_end : ℕ → Bytes → ℕ → ℕ
match_end zero s at = at
match_end (suc units) s at = match_end units s (at + (decode_rune (drop at s)).1)

-- What `Each` yields at one match: the match and its width.
pub record Yielded : Type 0 where
  pub match : Match
  pub width : ℕ

-- The plan's `findWithWidth` on a text is `find`, with the width 0 where it has proved none;
-- `patterns` are the matcher's, `exact` is the plan's.
module _ (find : Bytes → Option Yielded) (patterns : List Bytes) (exact : Bool) where
  -- The width of the match, which starts at an offset of the whole text.
  unfoldable pub width_of : Bytes → Match → ℕ → ℕ
  width_of s m width =
      let pattern = get_or patterns m.pattern [] in
      if width == 0
      then if exact
        then length pattern
        else match_end (length (unit_starts pattern)) s m.start - m.start
      else width

  -- The next match of the text from `at` on.
  unfoldable pub next_match : Bytes → ℕ → Option Yielded
  next_match s at = find (drop at s) >>= (λ y.
      let m : Match = record { pattern = y.match.pattern; start = y.match.start + at } in
      some (record { match = m; width = width_of s m y.width }))

  -- The offset after a match, or none where the empty match is at the end of the text.
  unfoldable pub next_at : Bytes → Yielded → Option ℕ
  next_at s y =
      let start = y.match.start in
      if not (y.width == 0)
      then some (start + y.width)
      else if start == length s
      then none
      else if exact
      then some (start + 1)
      else some (start + (decode_rune (drop start s)).1)

  -- The rest of a round, with the loop from the next offset on: the consumer is a function on its
  -- own state, and returns false to stop.
  abbrev pub carry_on : {S : Type 0} → (ℕ → S → S × Bool) → Option ℕ → S → S × Bool
  carry_on rest none state = (state, true)
  carry_on rest (some at) state = rest at state

  abbrev pub go_on : {S : Type 0} → (ℕ → S → S × Bool) → Option ℕ → S × Bool → S × Bool
  go_on rest next (state, more) = if more then carry_on rest next state else (state, false)

  abbrev pub one_round :
      {S : Type 0}
      → (S → Match → ℕ → S × Bool)
      → (ℕ → S → S × Bool)
      → Bytes
      → Option Yielded
      → S
      → S × Bool
  one_round yield rest s none state = (state, true)
  one_round yield rest s (some y) state = go_on rest (next_at s y) (yield state y.match y.width)

  -- `for at <= len(haystack)`. The result is the consumer's state, and what `Each` returns.
  unfoldable pub each_loop :
      {S : Type 0} → (S → Match → ℕ → S × Bool) → ℕ → Bytes → ℕ → S → S × Bool
  each_loop yield zero s at state = (state, true)
  each_loop yield (suc fuel) s at state =
      let round = one_round yield (each_loop yield fuel s) s (next_match s at) state in
      if ltb (length s) at then (state, true) else round

  -- Each round moves `at` on by at least one byte, so this fuel is enough.
  unfoldable pub each : {S : Type 0} → (S → Match → ℕ → S × Bool) → Bytes → S → S × Bool
  each yield s state = each_loop yield (length s + 1) s 0 state
