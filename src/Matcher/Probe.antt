-- ===== src/Matcher/Probe.antt =====
-- matcher.go: `eachASCIIProbe`, the route of `Each` for a literal with a probe, and
-- `asciiOnlyMatchWidth`.
pub mod Greedy
use casei.Base.{
  ℕ, Bool, ◌&&◌, ◌||◌, ◌==◌, leb, if◌then◌else◌, zero, suc, ◌+◌, ◌*◌, ◌/◌, ◌-◌, ◌%◌, ◌^◌, true,
  false, Option, some, none, List, [], ◌∷◌, arith, bit_xor, length, get_or, get_elem?, set, Bytes,
  byte_at, ◌≡◌, ◌<◌, ◌≤◌, not, ltb, drop, ◌>>=◌, refl, ap, replicate, take, inl, inr, Bool-cases,
  ◌≢◌, bit_and, any, scan, All, AreBytes, ◌∙◌, sym, Option-cases, ◌++◌, bit_or, u8, map, word_of,
  or_each, bit_or-above, pow_eight, word_of-step, word_of-nil, bit_or-zero_right, or_each-nil,
  or_each-step, bit_or-word_of, byte_at-IsByte, fold_case_lem, ◌⊎◌, flag, scan-IsFirst,
  length-replicate, length-set, get_or-set, any-append, length-append, ap₂, get_or-set_of_lt,
  All-get_elem?, slot_bit, fold_case, ◌↔◌, has_bit, has_bit-and, has_bit-or, has_bit-zero, Bool-ext,
  low_nibble_lem, IsByte, has_bit-slot_bit, any_intro, any→Found, lt_of_get_elem?, has_bit-ne_zero,
  has_bit_of_ne_zero, flip_lem, scan_congr, or_assoc, any_two, All-intro, any_congr, has_bit-pow,
  low_six_lem, IsFirst,
}
use casei.Ascii.Words.{ascii_only_pattern_at}
use casei.Ascii.Only.{OnlyPlan}
use casei.Ascii.Anchor.{AnchorPlan}
use casei.Ascii.Anchor.Find.{anchor_matches_at, starts, candidate_start}
use casei.Filter.Vbmi.{AsciiProbe}
use casei.Filter.Skip.{probe_skip}
use casei.Plan.Search.{Match}
use casei.Matcher.{match_end}

-- The width of a rendering that is ASCII throughout; none where that is not proved.
unfoldable pub only_match_width : AnchorPlan → Bytes → ℕ → Option ℕ
only_match_width p s at = elim p.only [
  | none ↦ none
  | some only ↦
      let width = length p.needle in
      if not p.verify_tokens || ltb (length s) at
      then none
      else if ltb (length s - at) width
          || not (ascii_only_pattern_at only.word only.fold s at p.needle)
      then none
      else some width
]

-- The width of the match at a start, none where there is no match. `max_units` is the plan's.
unfoldable pub probe_width : AnchorPlan → ℕ → (ℕ → Bool) → Bytes → ℕ → Option ℕ
probe_width p max_units tokens_at s start =
    let decoded =
      if anchor_matches_at p tokens_at s start
      then some (match_end max_units s start - start)
      else none in
    if p.verify_tokens
    then elim (only_match_width p s start) [ some width ↦ some width | none ↦ decoded ]
    else if anchor_matches_at p tokens_at s start
    then some (length p.needle)
    else none

-- `m.asciiEachProbe` where it is set.
abbrev pub probe_of : AnchorPlan → Option AsciiProbe → AsciiProbe
probe_of p none = p.probe
probe_of p (some probe) = probe

-- The start and the width of the candidate at `at`; none where the loop passes it over.
unfoldable pub candidate : AnchorPlan → AsciiProbe → ℕ → (ℕ → Bool) → Bytes → ℕ → ℕ → Option (ℕ × ℕ)
candidate p probe max_units tokens_at s next_start at = elim (candidate_start probe s at) [
  | none ↦ none
  | some start ↦
      if ltb start next_start then none else elim (probe_width p max_units tokens_at s start) [
        | none ↦ none
        | some width ↦ some (start, width)
      ]
]

module _ {S : Type 0} (yield : S → Match → ℕ → S × Bool) where
  abbrev pub go_on_probe : (ℕ → S → S × Bool) → ℕ → S × Bool → S × Bool
  go_on_probe rest next (state, more) = if more then rest next state else (state, false)

  -- `rest` is the loop behind a match, `later` behind a candidate that is passed over.
  abbrev pub probe_round : (ℕ → S → S × Bool) → (S → S × Bool) → Option (ℕ × ℕ) → S → S × Bool
  probe_round rest later none state = later state
  probe_round rest later (some (start, width)) state =
      go_on_probe rest (start + width) (yield state (record { pattern = 0; start = start }) width)

  -- `for at := 0; at < limit`, with `rounds` left.
  unfoldable pub each_probe_loop :
      AnchorPlan → AsciiProbe → ℕ → (ℕ → Bool) → Bytes → ℕ → ℕ → ℕ → ℕ → S → S × Bool
  each_probe_loop p probe max_units tokens_at s limit zero at next_start state = (state, true)
  each_probe_loop p probe max_units tokens_at s limit (suc rounds) at next_start state =
      let stop = at + probe_skip s at (limit - at) probe in
      let onward = each_probe_loop p probe max_units tokens_at s limit rounds in
      let round =
        probe_round (λ next. onward next next) (onward (suc stop) next_start)
          (candidate p probe max_units tokens_at s next_start stop) state in
      if leb limit at then (state, true) else if stop == limit then (state, true) else round

  -- A literal's loop moves on in each round, so as many rounds as there are bytes are enough.
  unfoldable pub each_probe : AnchorPlan → Option AsciiProbe → ℕ → (ℕ → Bool) → Bytes → S → S × Bool
  each_probe p each_probe_set max_units tokens_at s state =
      let probe = probe_of p each_probe_set in
      let limit = if p.verify_tokens then length s - probe.third_at else starts p s in
      each_probe_loop p probe max_units tokens_at s limit (length s) 0 0 state
