-- ===== src/Tests/Ascii.antt =====
-- The comparisons and the choices of plan.go that concern ASCII literals, at concrete texts.
use casei.Base.{◌≡◌, refl, true, false, [], ◌∷◌, arith, Bytes, ◌+◌, ◌<◌, length, scan}
use casei.Utf8.{unit_starts, units_from, decode_rune}
use casei.Ascii.{is_ascii_letter}
use casei.Ascii.Words.{
  units_at, ascii_pattern_at, literal_at, make_short_literal, pack_starts, short_literal_at,
  make_words, ascii_only_pattern_at, ascii_fixed_at, letter_at, pack_word, fixed_prefix8,
  fixed_from,
}
use casei.Ascii.Words.Exact.{short_literal_at-eq-ascii_pattern_at}
use casei.Ascii.Words.Fixed.{ascii_fixed_at-eq-literal_at}
use casei.Ascii.Words.Range.{ascii_pattern_at-eq-literal_at}
use casei.Ascii.Words.Prefix.{ascii_only_pattern_at-eq-ascii_pattern_at}
use casei.Ascii.Only.{OnlyPlan, only_probe, make_only, find_only_with_high, only_loop, found_at}
use casei.Ascii.Only.First.{Correct, find_only_with_high-Correct}
use casei.Ascii.Pairs.{choose_pair_anchor}
use casei.Ascii.Pairs.Choice.{AsGood, choose_pair_anchor-AsGood}
use casei.Filter.Skip.{ascii_only_probe_skip, ascii_probe_at}

-- "a quick fox"
abbrev a_text : Bytes
a_text = 97 ∷ 32 ∷ 81 ∷ 117 ∷ 105 ∷ 67 ∷ 107 ∷ 32 ∷ 102 ∷ 111 ∷ 120 ∷ []

-- "quic"
abbrev quic : Bytes
quic = b'q' ∷ b'u' ∷ b'i' ∷ b'c' ∷ []

-- "quick fox"
abbrev quick_fox : Bytes
quick_fox = b'q' ∷ b'u' ∷ b'i' ∷ b'c' ∷ b'k' ∷ b' ' ∷ b'f' ∷ b'o' ∷ b'x' ∷ []

abbrev quick_plan : OnlyPlan
quick_plan = record {
  probe = only_probe quick_fox;
  word = pack_word 64 0 0 (b'q' ∷ b'u' ∷ b'i' ∷ b'c' ∷ b'k' ∷ b' ' ∷ b'f' ∷ b'o' ∷ []);
  fold = pack_word 64 0 0 (0x20 ∷ 0x20 ∷ 0x20 ∷ 0x20 ∷ 0x20 ∷ 0 ∷ 0x20 ∷ 0x20 ∷ []);
  payload = quick_fox;
  long = false;
}

quick_is_found : find_only_with_high quick_plan a_text ≡ found_at 2
unfolding find_only_with_high only_loop ascii_only_probe_skip ascii_probe_at scan only_probe
    is_ascii_letter ascii_only_pattern_at fixed_prefix8 fixed_from pack_word ascii_pattern_at
    units_at unit_starts units_from decode_rune letter_at
quick_is_found = refl

find_only_with_high-Correct_example :
    Correct a_text quick_fox (find_only_with_high quick_plan a_text)
unfolding make_only is_ascii_letter
find_only_with_high-Correct_example =
    find_only_with_high-Correct a_text quick_fox quick_plan (ground arith) (ground arith) refl

short_literal_at-eq-ascii_pattern_at_example :
    short_literal_at a_text 2 (make_short_literal quic) ≡ ascii_pattern_at a_text 2 quic
short_literal_at-eq-ascii_pattern_at_example =
    short_literal_at-eq-ascii_pattern_at a_text 2 quic (ground arith) (ground arith) refl

ascii_only_pattern_at-eq-ascii_pattern_at_example :
    ascii_only_pattern_at
      (make_words quick_fox).first_word
      (make_words quick_fox).first_fold
      a_text
      2
      quick_fox
    ≡ ascii_pattern_at a_text 2 quick_fox
ascii_only_pattern_at-eq-ascii_pattern_at_example =
    ascii_only_pattern_at-eq-ascii_pattern_at a_text 2 quick_fox (ground arith) (ground arith)

choose_pair_anchor-AsGood_example :
    (choose_pair_anchor quick_fox + 1 < length quick_fox)
    × AsGood quick_fox (choose_pair_anchor quick_fox) 3
choose_pair_anchor-AsGood_example = choose_pair_anchor-AsGood quick_fox 3 (omega arith)

ascii_fixed_at-eq-literal_at_example :
    ascii_fixed_at (make_words quick_fox) quick_fox a_text 2 ≡ literal_at a_text 2 quick_fox
ascii_fixed_at-eq-literal_at_example =
    ascii_fixed_at-eq-literal_at a_text 2 quick_fox (ground arith) (ground arith)

ascii_pattern_at-eq-literal_at_example :
    ascii_pattern_at a_text 2 quick_fox ≡ literal_at a_text 2 quick_fox
ascii_pattern_at-eq-literal_at_example =
    ascii_pattern_at-eq-literal_at a_text 2 quick_fox (ground arith)

-- "abc" and the Kelvin sign; "abc", the first byte of the sign and "xx". The comparison over the
-- units of the pattern accepts, as matcher_each_single_test.go asks; the one over its bytes does
-- not.
abbrev abc_kelvin : Bytes
abc_kelvin = b'a' ∷ b'b' ∷ b'c' ∷ 0xe2 ∷ 0x84 ∷ 0xaa ∷ []

abbrev alias_text : Bytes
alias_text = b'a' ∷ b'b' ∷ b'c' ∷ 0xe2 ∷ b'x' ∷ b'x' ∷ []

accepts_alias : ascii_only_pattern_at 0 0 alias_text 0 abc_kelvin ≡ true
unfolding ascii_only_pattern_at ascii_pattern_at units_at unit_starts units_from decode_rune
    letter_at is_ascii_letter
accepts_alias = refl

bytes_differ : literal_at alias_text 0 abc_kelvin ≡ false
unfolding literal_at letter_at is_ascii_letter
bytes_differ = refl

-- "a", e acute and "b": the word has no byte at the index inside the rune.
skips_inner : (make_short_literal (b'a' ∷ 0xc3 ∷ 0xa9 ∷ b'b' ∷ [])).word ≡ 0x6200c361
unfolding make_short_literal pack_starts unit_starts units_from decode_rune is_ascii_letter
skips_inner = refl
