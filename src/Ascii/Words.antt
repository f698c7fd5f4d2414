-- ===== src/Ascii/Words.antt =====
-- plan.go: literals compared as words: `makeASCIIShortLiteral`, the words of `makeASCIIAnchor` and
-- `makeASCIIOnlyProbe`, and the comparisons that use them (root_other.go: `asciiFixedPrefix8`).
pub mod Range
pub mod Exact
pub mod Prefix
pub mod Fixed
use casei.Base.{
  ℕ, zero, suc, ◌+◌, ◌-◌, ◌*◌, ◌/◌, ◌%◌, ◌^◌, ◌<◌, ◌≤◌, Bool, true, false, ◌&&◌, ◌||◌, not, List,
  [], ◌∷◌, arith, bit_or, bit_and, ltb, leb, ◌==◌, if◌then◌else◌, length, map, take, drop, Bytes,
  byte_at,
}
use casei.Utf8.{unit_starts}
use casei.Ascii.{is_ascii_letter}

-- The value that the code stores for a byte of the pattern, and its fold mask.
abbrev pub folded : ℕ → ℕ
folded value = if is_ascii_letter value then bit_or value 0x20 else value

abbrev pub fold_mask : ℕ → ℕ
fold_mask value = if is_ascii_letter value then 0x20 else 0

-- word |= value << (8 * at), for each value from `at` on, in a word of `width` bits.
unfoldable pub pack_word : ℕ → ℕ → ℕ → List ℕ → ℕ
pack_word width at word [] = word
pack_word width at word (value ∷ values) =
    pack_word width (suc at) (bit_or word (value * 2 ^ (8 * at) % 2 ^ width)) values

-- byte(word >> (8 * i))
abbrev pub byte_of : ℕ → ℕ → ℕ
byte_of word i = word / 2 ^ (8 * i) % 2 ^ 8

-- One position of `asciiPatternAt`.
unfoldable pub letter_at : ℕ → ℕ → Bool
letter_at got want =
    if is_ascii_letter want then bit_or got 0x20 == bit_or want 0x20 else got == want

-- The loop of `asciiFixedAt`, which compares every byte of what is left of the literal.
unfoldable pub literal_at : Bytes → ℕ → Bytes → Bool
literal_at s at [] = true
literal_at s at (want ∷ pattern) = letter_at (byte_at s at) want && literal_at s (suc at) pattern

-- The body of `asciiPatternAt` at each index that `range` gives.
unfoldable pub units_at : Bytes → ℕ → Bytes → List ℕ → Bool
units_at s at pattern [] = true
units_at s at pattern (i ∷ starts) =
    letter_at (byte_at s (at + i)) (byte_at pattern i) && units_at s at pattern starts

-- `for i := range pattern` visits the starts of the units only: the bytes that continue a rune
-- are not compared.
unfoldable pub ascii_pattern_at : Bytes → ℕ → Bytes → Bool
ascii_pattern_at s at pattern = units_at s at pattern (unit_starts pattern)

-- word |= value << (8 * i), for the byte at each index that `range` gives.
unfoldable pub pack_starts : ℕ → (ℕ → ℕ) → Bytes → List ℕ → ℕ → ℕ
pack_starts width value pattern [] word = word
pack_starts width value pattern (i ∷ starts) word =
    pack_starts width value pattern starts
      (bit_or word (value (byte_at pattern i) * 2 ^ (8 * i) % 2 ^ width))

pub record ShortLiteral : Type 0 where
  pub word : ℕ
  pub fold : ℕ
  pub valid : ℕ

unfoldable pub make_short_literal : Bytes → ShortLiteral
make_short_literal pattern =
    if not (length pattern == 4) then record { word = 0; fold = 0; valid = 0 } else record {
      word = pack_starts 32 folded pattern (unit_starts pattern) 0;
      fold = pack_starts 32 fold_mask pattern (unit_starts pattern) 0;
      valid = 1;
    }

unfoldable pub short_literal_at : Bytes → ℕ → ShortLiteral → Bool
short_literal_at s at literal =
    let got =
      bit_or
        (bit_or (bit_or (byte_at s at) (byte_at s (at + 1) * 2 ^ 8)) (byte_at s (at + 2) * 2 ^ 16))
        (byte_at s (at + 3) * 2 ^ 24) in
    bit_or got literal.fold == literal.word

-- `for i := 0; i < 8; i++` from `i`, with `rounds` left; a mask of all ones is no mask.
unfoldable pub prefix_from : ℕ → ℕ → Bytes → ℕ → ℕ → ℕ → ℕ → Bool
prefix_from zero i s at word fold mask = true
prefix_from (suc rounds) i s at word fold mask =
    let differs = not (bit_or (byte_at s (at + i)) (byte_of fold i) == byte_of word i) in
    let rest = prefix_from rounds (suc i) s at word fold mask in
    if not (byte_of mask i == 0) && differs then false else rest

unfoldable pub fixed_prefix8_masked : Bytes → ℕ → ℕ → ℕ → ℕ → Bool
fixed_prefix8_masked s at word fold mask = prefix_from 8 0 s at word fold mask

unfoldable pub fixed_from : ℕ → ℕ → Bytes → ℕ → ℕ → ℕ → Bool
fixed_from zero i s at word fold = true
fixed_from (suc rounds) i s at word fold =
    let differs = not (bit_or (byte_at s (at + i)) (byte_of fold i) == byte_of word i) in
    let rest = fixed_from rounds (suc i) s at word fold in if differs then false else rest

unfoldable pub fixed_prefix8 : Bytes → ℕ → ℕ → ℕ → Bool
fixed_prefix8 s at word fold = fixed_from 8 0 s at word fold

-- The words of the first sixteen bytes of a literal.
pub record LiteralWords : Type 0 where
  pub first_word : ℕ
  pub first_fold : ℕ
  pub tail_word : ℕ
  pub tail_fold : ℕ
  pub tail_mask : ℕ

-- `fixedPrefix == len(pattern) && len(pattern) >= 8`.
unfoldable pub make_words : Bytes → LiteralWords
make_words pattern =
    let first = take 8 pattern in
    let tail = take 8 (drop 8 pattern) in
    record {
      first_word = pack_word 64 0 0 (map folded first);
      first_fold = pack_word 64 0 0 (map fold_mask first);
      tail_word = pack_word 64 0 0 (map folded tail);
      tail_fold = pack_word 64 0 0 (map fold_mask tail);
      tail_mask = pack_word 64 0 0 (map (λ value. 0xff) tail);
    }

unfoldable pub ascii_fixed_at : LiteralWords → Bytes → Bytes → ℕ → Bool
ascii_fixed_at w needle s at =
    let long = leb 8 (length needle) in
    let masked = not (w.tail_mask == 0) && leb (at + 16) (length s) in
    let start = if masked then 16 else if long then 8 else 0 in
    if long && not (fixed_prefix8 s at w.first_word w.first_fold)
    then false
    else if masked && not (fixed_prefix8_masked s (at + 8) w.tail_word w.tail_fold w.tail_mask)
    then false
    else literal_at s (at + start) (drop start needle)

-- `asciiOnlyPatternAt` with the words of its plan.
unfoldable pub ascii_only_pattern_at : ℕ → ℕ → Bytes → ℕ → Bytes → Bool
ascii_only_pattern_at word fold s at needle =
    if leb 8 (length needle) && fixed_prefix8 s at word fold
    then ascii_pattern_at s (at + 8) (drop 8 needle)
    else ascii_pattern_at s at needle
