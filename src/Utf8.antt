-- ===== src/Utf8.antt =====
-- What the code uses of Go's unicode/utf8: decoding one rune of a text, encoding a rune, and the
-- order in which `range` visits a string.
pub mod Size
pub mod Last
use casei.Base.{
  ℕ, zero, suc, ◌+◌, ◌-◌, ◌*◌, ◌/◌, ◌%◌, ◌<◌, ◌≤◌, Bool, true, false, ◌&&◌, ◌||◌, not, List, [],
  ◌∷◌, arith, ltb, leb, ◌==◌, if◌then◌else◌, length, get_or, drop, Bytes, byte_at,
}

abbrev pub rune_self : ℕ
rune_self = 0x80

abbrev pub rune_error : ℕ
rune_error = 0xfffd

abbrev pub utf_max : ℕ
utf_max = 4

-- A rune and the count of bytes that it was read from; a malformed byte is (RuneError, 1).
abbrev pub Decoded : Type 0
Decoded = ℕ × ℕ

abbrev malformed : Decoded
malformed = (rune_error, 1)

abbrev continues : ℕ → Bool
continues b = leb 0x80 b && leb b 0xbf

-- The range of the second byte depends on the first: no overlong form, no surrogate, no rune
-- above U+10FFFF.
abbrev second_ok : ℕ → ℕ → Bool
second_ok b0 b1 =
    if b0 == 0xe0
    then leb 0xa0 b1 && leb b1 0xbf
    else if b0 == 0xed
    then leb 0x80 b1 && leb b1 0x9f
    else if b0 == 0xf0
    then leb 0x90 b1 && leb b1 0xbf
    else if b0 == 0xf4
    then leb 0x80 b1 && leb b1 0x8f
    else continues b1

two_bytes : ℕ → Bytes → Decoded
two_bytes b0 [] = malformed
two_bytes b0 (b1 ∷ _) = if continues b1 then (b0 % 0x20 * 0x40 + b1 % 0x40, 2) else malformed

three_bytes : ℕ → Bytes → Decoded
three_bytes b0 (b1 ∷ b2 ∷ _) =
    if second_ok b0 b1 && continues b2
    then (b0 % 0x10 * 0x1000 + b1 % 0x40 * 0x40 + b2 % 0x40, 3)
    else malformed
three_bytes b0 _ = malformed

four_bytes : ℕ → Bytes → Decoded
four_bytes b0 (b1 ∷ b2 ∷ b3 ∷ _) =
    if second_ok b0 b1 && continues b2 && continues b3
    then (b0 % 8 * 0x40000 + b1 % 0x40 * 0x1000 + b2 % 0x40 * 0x40 + b3 % 0x40, 4)
    else malformed
four_bytes b0 _ = malformed

-- `DecodeRuneInString`. On the empty text the size is 0.
unfoldable pub decode_rune : Bytes → Decoded
unfolding two_bytes three_bytes four_bytes
decode_rune [] = (rune_error, 0)
decode_rune (b0 ∷ rest) =
    if ltb b0 rune_self
    then (b0, 1)
    else if leb 0xc2 b0 && leb b0 0xdf
    then two_bytes b0 rest
    else if leb 0xe0 b0 && leb b0 0xef
    then three_bytes b0 rest
    else if leb 0xf0 b0 && leb b0 0xf4
    then four_bytes b0 rest
    else malformed

-- `EncodeRune`: an invalid rune is written as RuneError.
unfoldable pub encode_rune : ℕ → Bytes
encode_rune r =
    if ltb r 0x80
    then r ∷ []
    else if ltb r 0x800
    then (0xc0 + r / 0x40) ∷ (0x80 + r % 0x40) ∷ []
    else if ltb 0x10ffff r || leb 0xd800 r && leb r 0xdfff
    then 0xef ∷ 0xbf ∷ 0xbd ∷ []
    else if ltb r 0x10000
    then (0xe0 + r / 0x1000) ∷ (0x80 + r / 0x40 % 0x40) ∷ (0x80 + r % 0x40) ∷ []
    else (0xf0 + r / 0x40000)
      ∷ (0x80 + r / 0x1000 % 0x40)
      ∷ (0x80 + r / 0x40 % 0x40)
      ∷ (0x80 + r % 0x40)
      ∷ []

-- `for at := range s` from index `at`, with the text that is left: where the units begin.
unfoldable pub units_from : ℕ → ℕ → Bytes → List ℕ
units_from zero at s = []
units_from (suc fuel) at [] = []
units_from (suc fuel) at (b ∷ s) =
    let size = (decode_rune (b ∷ s)).1 in at ∷ units_from fuel (at + size) (drop size (b ∷ s))

unfoldable pub unit_starts : Bytes → List ℕ
unfolding units_from
unit_starts s = units_from (length s) 0 s

abbrev pub starts_rune : ℕ → Bool
starts_rune b = not (leb 0x80 b && leb b 0xbf)

-- The loop of `DecodeLastRuneInString` back over the bytes before index `k`, with `rounds` left.
unfoldable pub rune_back : ℕ → Bytes → ℕ → ℕ
rune_back rounds s zero = zero
rune_back zero s (suc k) = k
rune_back (suc rounds) s (suc k) =
    let before = rune_back rounds s k in if starts_rune (byte_at s k) then k else before

-- `DecodeLastRuneInString`: at most three bytes are looked at before the last.
unfoldable pub decode_last_rune : Bytes → Decoded
decode_last_rune [] = (rune_error, 0)
decode_last_rune (b ∷ s) =
    let text = b ∷ s in
    let last = length s in
    let start = rune_back 3 text last in
    let (r, size) = decode_rune (drop start text) in
    if ltb (byte_at text last) rune_self
    then (byte_at text last, 1)
    else if start + size == length text
    then (r, size)
    else malformed
