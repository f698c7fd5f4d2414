-- ===== src/Ascii/Anchor/Find.antt =====
-- plan.go: the searches for one literal by its anchors: `asciiAnchorMatches`, `findASCIIRun`,
-- `findASCIIByteAnchor`, `findASCIIPairAnchor`, `findASCIIAnchor` and the tests that choose between
-- them; zz_ascii_interior.go: `recoverASCIIInteriorStart`.
use casei.Base.{
  ℕ, Bool, ◌&&◌, ◌||◌, ◌==◌, leb, if◌then◌else◌, zero, suc, ◌+◌, ◌*◌, ◌/◌, ◌-◌, ◌^◌, Option, some,
  none, [], ◌∷◌, length, Bytes, byte_at, not, ltb, drop, take, scan, ◌++◌, bit_or, u8,
}
use casei.Utf8.{rune_self, rune_error, decode_last_rune}
use casei.Ascii.{is_ascii_letter, ascii_rarity}
use casei.Ascii.Words.{folded, ascii_pattern_at, ascii_fixed_at, short_literal_at}
use casei.Ascii.Anchor.{ByteAnchor, AnchorPlan, kind_of, count_folded}
use casei.Filter.Vbmi.{AsciiProbe}
use casei.Filter.Skip.{
  find_ascii_run, literal_skip_ascii, ascii_probe_at, probe_skip, ascii_pair_at, ascii_pair_skip,
}

unfoldable pub find_run : AnchorPlan → Bytes → Option ℕ
find_run p s = elim p.run [
  | none ↦ none
  | some run ↦ find_ascii_run s run.kind run.byte (length p.needle)
]

-- `tokens_at` is the plan's `matchesSingleAt` on the text.
unfoldable pub anchor_matches_at : AnchorPlan → (ℕ → Bool) → Bytes → ℕ → Bool
anchor_matches_at p tokens_at s at =
    if p.verify_tokens
    then tokens_at at
    else if not (p.short.valid == 0)
    then leb (at + 4) (length s) && short_literal_at s at p.short
    else leb (at + length p.needle) (length s) && ascii_pattern_at s at p.needle

-- The sixty-four bytes of each block of the sample.
abbrev pub sample_width : ℕ
sample_width = 64

abbrev pub sample_blocks : Bytes → ℕ
sample_blocks s = if leb (256 * 2 ^ 10) (length s) then 16 else 4

-- The bytes that are sampled, from `block` on, with `rounds` blocks left.
unfoldable pub sampled : ℕ → Bytes → ℕ → Bytes
sampled zero s block = []
sampled (suc rounds) s block =
    let start = block * (length s - sample_width) / (sample_blocks s - 1) in
    take sample_width (drop start s) ++ sampled rounds s (suc block)

-- raw[value] and folded[value]: the ASCII bytes of the sample that are the value, with bit five
-- set for the latter.
abbrev pub raw_count : Bytes → ℕ → ℕ
raw_count [] value = 0
raw_count (c ∷ s) value =
    if ltb c rune_self && c == value then suc (raw_count s value) else raw_count s value

abbrev pub low_count : Bytes → ℕ → ℕ
low_count [] value = 0
low_count (c ∷ s) value =
    if ltb c rune_self && bit_or c 0x20 == value then suc (low_count s value) else low_count s value

abbrev pub sample_count : Bytes → ℕ → ℕ
sample_count sample value =
    if is_ascii_letter value then low_count sample (bit_or value 0x20) else raw_count sample value

-- bestAt and bestCount; no offset is -1.
pub record Rarest : Type 0 where
  pub at : Option ℕ
  pub count : ℕ

unfoldable pub rarest : Bytes → Bytes → ℕ → Bytes → Rarest → Rarest
rarest prefix sample i [] best = best
rarest prefix sample i (c ∷ rest) best =
    let count = sample_count sample c in
    rarest prefix sample (suc i) rest (
      if u8 (count_folded prefix (folded c)) == 1 && ltb count best.count
      then record { at = some i; count = count }
      else best)

unfoldable pub choose_byte_anchor : AnchorPlan → Bytes → Option ByteAnchor
choose_byte_anchor p s =
    let prefix = take p.fixed_prefix p.needle in
    let best =
      rarest prefix (sampled (sample_blocks s) s 0) 0 prefix
        (record { at = none; count = sample_width * sample_blocks s + 1 }) in
    if ltb (length s) 4096 || ltb 64 p.fixed_prefix
    then none
    else if not (best.count == 0)
    then none
    else elim best.at [
      | none ↦ none
      | some at ↦
          let value = byte_at p.needle at in
          some (record { at = at; kind = kind_of value; byte = folded value })
    ]

-- `for at := 0; at < len(haystack)`: each round moves `at` on.
unfoldable pub byte_anchor_loop : AnchorPlan → (ℕ → Bool) → ByteAnchor → Bytes → ℕ → ℕ → Option ℕ
byte_anchor_loop p tokens_at a s zero at = none
byte_anchor_loop p tokens_at a s (suc rounds) at =
    let stop = at + literal_skip_ascii s at a.kind a.byte in
    let start = stop - a.at in
    let later = byte_anchor_loop p tokens_at a s rounds (suc stop) in
    let screened =
      not p.verify_tokens
      && leb (start + length p.needle) (length s)
      && not (ascii_probe_at s start p.probe) in
    if leb (length s) at
    then none
    else if stop == length s
    then none
    else if ltb stop a.at
    then later
    else if screened
    then later
    else if anchor_matches_at p tokens_at s start
    then some start
    else later

unfoldable pub find_byte_anchor : AnchorPlan → (ℕ → Bool) → ByteAnchor → Bytes → Option ℕ
find_byte_anchor p tokens_at a s = byte_anchor_loop p tokens_at a s (length s) 0

unfoldable pub pair_promising : AnchorPlan → Bool
pair_promising p = ltb (ascii_rarity p.pair.first) 2 || ltb (ascii_rarity p.pair.second) 2

unfoldable pub pair_displaced : AnchorPlan → Bool
pair_displaced p = not (p.pair_vbmi.valid == 0) && not (p.pair_vbmi.second_at == p.pair.second_at)

-- The count of the starts at which the literal fits.
abbrev pub starts : AnchorPlan → Bytes → ℕ
starts p s = length s + 1 - length p.needle

unfoldable pub pair_sparse : AnchorPlan → Bytes → Bool
pair_sparse p s =
    let limit = if ltb 256 (starts p s) then 256 else starts p s in
    scan limit (λ at. ascii_pair_at s at p.pair) 0 == limit

unfoldable pub pair_anchor_loop : AnchorPlan → Bytes → ℕ → ℕ → ℕ → Option ℕ
pair_anchor_loop p s limit zero at = none
pair_anchor_loop p s limit (suc rounds) at =
    let stop = at + ascii_pair_skip s at (limit - at) p.pair in
    let later = pair_anchor_loop p s limit rounds (suc stop) in
    if leb limit at
    then none
    else if stop == limit
    then none
    else if ascii_pattern_at s stop p.needle
    then some stop
    else later

unfoldable pub find_pair_anchor : AnchorPlan → Bytes → Option ℕ
find_pair_anchor p s =
    if leb (length p.needle) (length s) && ascii_fixed_at p.words p.needle s 0
    then some 0
    else pair_anchor_loop p s (starts p s) (starts p s) 0

-- The start `units` decoded units before the window; none is -1.
unfoldable pub recover_interior_start : Bytes → ℕ → ℕ → Option ℕ
recover_interior_start s start zero = some start
recover_interior_start s zero (suc units) = none
recover_interior_start s (suc before) (suc units) =
    let (r, decoded) = decode_last_rune (take (suc before) s) in
    let wide = recover_interior_start s (suc before - decoded) units in
    let narrow = recover_interior_start s before units in
    if leb rune_self (byte_at s before)
    then if r == rune_error && decoded == 1 then none else wide
    else narrow

-- The start of the candidate at `at`, or none where there is no candidate.
abbrev pub candidate_start : AsciiProbe → Bytes → ℕ → Option ℕ
candidate_start probe s at =
    if probe.first_at == 0
    then some at
    else if not (ascii_probe_at s at probe)
    then none
    else recover_interior_start s (at + probe.first_at) probe.first_at

abbrev pub confirmed : AnchorPlan → (ℕ → Bool) → Bytes → Option ℕ → Option ℕ
confirmed p tokens_at s none = none
confirmed p tokens_at s (some start) =
    if anchor_matches_at p tokens_at s start then some start else none

unfoldable pub anchor_loop : AnchorPlan → (ℕ → Bool) → Bytes → ℕ → ℕ → ℕ → Option ℕ
anchor_loop p tokens_at s limit zero at = none
anchor_loop p tokens_at s limit (suc rounds) at =
    let stop = at + probe_skip s at (limit - at) p.probe in
    let later = anchor_loop p tokens_at s limit rounds (suc stop) in
    if leb limit at
    then none
    else if stop == limit
    then none
    else elim (confirmed p tokens_at s (candidate_start p.probe s stop)) [
      | some start ↦ some start
      | none ↦ later
    ]

unfoldable pub find_anchor : AnchorPlan → (ℕ → Bool) → Bytes → Option ℕ
find_anchor p tokens_at s =
    let limit = if p.verify_tokens then length s - p.probe.third_at else starts p s in
    anchor_loop p tokens_at s limit limit 0
