-- ===== src/Ascii/Only.antt =====
-- plan.go: the route for an ASCII literal on an ASCII text: `makeASCIIOnlyProbe`,
-- `findASCIIOnlyAnchorWithHigh` and `findASCIIOnlyAnchor`.
pub mod First
use casei.Base.{
  ℕ, zero, suc, ◌+◌, ◌-◌, ◌*◌, ◌/◌, ◌%◌, ◌^◌, ◌<◌, ◌≤◌, Bool, true, false, ◌&&◌, ◌||◌, not, Option,
  some, none, List, [], ◌∷◌, arith, bit_or, bit_and, ltb, leb, ◌==◌, if◌then◌else◌, length, map,
  take, drop, any, Bytes, byte_at, scan,
}
use casei.Utf8.{rune_self}
use casei.Ascii.{is_ascii_letter}
use casei.Ascii.Words.{folded, fold_mask, pack_word, ascii_only_pattern_at}
use casei.Filter.Vbmi.{AsciiProbe}
use casei.Filter.Skip.{ascii_only_probe_skip}

-- The fields of the plan for this route. The probe's own projections stay empty.
pub record OnlyPlan : Type 0 where
  pub probe : AsciiProbe
  pub word : ℕ
  pub fold : ℕ
  pub payload : Bytes
  pub long : Bool

abbrev pub is_structured : ℕ → Bool
is_structured value = not (is_ascii_letter value) && not (value == b' ')

-- `probe.fold |= 1 << i` at each position that holds a letter.
abbrev pub fold_bit : ℕ → ℕ → ℕ
fold_bit value i = if is_ascii_letter value then 2 ^ i else 0

abbrev pub second_place : Bytes → ℕ
second_place pattern = if any is_structured pattern then length pattern - 1 else length pattern / 2

unfoldable pub only_probe : Bytes → AsciiProbe
only_probe pattern =
    let first = byte_at pattern 0 in
    let second = byte_at pattern (second_place pattern) in
    let third = byte_at pattern (length pattern - 1) in
    record {
      first = folded first;
      second = folded second;
      third = folded third;
      fold = bit_or (bit_or (fold_bit first 0) (fold_bit second 1)) (fold_bit third 2);
      first_at = 0;
      second_at = second_place pattern;
      third_at = length pattern - 1;
    }

-- The plan of the route, or none where the pattern does not have it. (On a pattern that is not
-- ASCII the source may have set `asciiOnlyLong` before it returns; without `asciiOnly` no search
-- reads it.)
unfoldable pub make_only : Bytes → Option OnlyPlan
make_only pattern =
    let eight = if leb 8 (length pattern) then take 8 pattern else [] in
    if ltb (length pattern) 3 || any (leb rune_self) pattern
    then none
    else some (record {
      probe = only_probe pattern;
      word = pack_word 64 0 0 (map folded eight);
      fold = pack_word 64 0 0 (map fold_mask eight);
      payload = pattern;
      long = any is_structured pattern;
    })

-- (Match{0, Start}, true, -1), (Match{}, false, -1), and (Match{}, false, high).
pub data OnlyResult : Type 0 where
  found_at : ℕ → OnlyResult
  absent : OnlyResult
  high_at : ℕ → OnlyResult

-- The tail that no candidate covers: `for offset, value := range haystack[limit:]`. A unit of
-- `range` that is not ASCII begins at a byte that is not ASCII, so this is the first such byte.
unfoldable pub tail_high : Bytes → ℕ → OnlyResult
tail_high s limit =
    let stop = scan (length s - limit) (λ at. leb rune_self (byte_at s at)) limit in
    if ltb stop (length s) then high_at stop else absent

-- `for at := 0; at < limit`: each round moves `at` on, so `limit` rounds are enough.
unfoldable pub only_loop : ℕ → OnlyPlan → Bytes → ℕ → ℕ → OnlyResult
only_loop zero p s limit at = tail_high s limit
only_loop (suc rounds) p s limit at =
    let (skipped, ascii) = ascii_only_probe_skip s at (limit - at) p.probe in
    let stop = at + skipped in
    let later = only_loop rounds p s limit (suc stop) in
    if leb limit at
    then tail_high s limit
    else if not ascii
    then high_at stop
    else if stop == limit
    then tail_high s limit
    else if ascii_only_pattern_at p.word p.fold s stop p.payload
    then found_at stop
    else later

unfoldable pub find_only_with_high : OnlyPlan → Bytes → OnlyResult
find_only_with_high p s =
    let limit = length s + 1 - length p.payload in
    if ltb (length s + 1) (length p.payload) then absent else only_loop limit p s limit 0

-- The match, and whether the route has handled the text.
unfoldable pub find_only : OnlyPlan → Bytes → Option ℕ × Bool
find_only p s = elim (find_only_with_high p s) [
  | found_at at ↦ (some at, true)
  | absent ↦ (none, true)
  | high_at at ↦ (none, false)
]
