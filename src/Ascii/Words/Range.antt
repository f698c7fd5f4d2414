-- ===== src/Ascii/Words/Range.antt =====
-- plan.go: the loops `for i := range pattern` of `asciiPatternAt` and `makeASCIIShortLiteral` on a
-- pattern that is ASCII, where they visit every byte.
use casei.Base.{
  ℕ, zero, suc, ◌+◌, ◌*◌, ◌%◌, ◌^◌, ◌<◌, ◌&&◌, List, [], ◌∷◌, arith, bit_or, length, map, drop,
  Bytes, byte_at, ◌≡◌, refl, ap, ◌∙◌, ltb, true,
}
use casei.Utf8.{decode_rune, rune_self, unit_starts, units_from}
use casei.Ascii.{AreAscii}
use casei.Ascii.Words.{letter_at, literal_at, units_at, ascii_pattern_at, pack_word, pack_starts}

decode-ascii : (b : ℕ) (q : Bytes) → b < 0x80 → (decode_rune (b ∷ q)).1 ≡ 1
unfolding decode_rune
decode-ascii b q h = let low : ltb b rune_self ≡ true = ground arith in rw low refl

-- The first unit is the first byte.
units_from-step :
    (b k : ℕ) (q : Bytes)
    → b < 0x80
    → units_from (suc (length q)) k (b ∷ q) ≡ k ∷ units_from (length q) (suc k) q
unfolding units_from
units_from-step b k q h =
    let one = decode-ascii b q h in let next : k + 1 ≡ suc k = omega arith in rw (one, next) refl

units_from-nil : (k : ℕ) → units_from 0 k [] ≡ []
unfolding units_from
units_from-nil k = refl

units_at-cons :
    (s : Bytes) (at : ℕ) (pattern : Bytes) (i : ℕ) (starts : List ℕ)
    → units_at s at pattern (i ∷ starts)
      ≡ (letter_at (byte_at s (at + i)) (byte_at pattern i) && units_at s at pattern starts)
unfolding units_at
units_at-cons s at pattern i starts = refl

pack_starts-cons :
    (value : ℕ → ℕ) (pattern : Bytes) (i : ℕ) (starts : List ℕ) (word : ℕ)
    → pack_starts 32 value pattern (i ∷ starts) word
      ≡ pack_starts 32 value pattern starts
          (bit_or word (value (byte_at pattern i) * 2 ^ (8 * i) % 2 ^ 32))
unfolding pack_starts
pack_starts-cons value pattern i starts word = refl

-- `q` is what is left of the pattern from index `k` on.
abbrev Rest : Bytes → ℕ → Bytes → Type 0
Rest pattern k q = (j : ℕ) → byte_at pattern (k + j) ≡ byte_at q j

Rest-head : (pattern : Bytes) (k b : ℕ) (q : Bytes) → Rest pattern k (b ∷ q) → byte_at pattern k ≡ b
Rest-head pattern k b q rest = let e : k ≡ k + 0 = omega arith in ap (byte_at pattern) e ∙ rest 0

Rest-tail :
    (pattern : Bytes) (k b : ℕ) (q : Bytes) → Rest pattern k (b ∷ q) → Rest pattern (suc k) q
Rest-tail pattern k b q rest j =
    let e : suc k + j ≡ k + suc j = omega arith in ap (byte_at pattern) e ∙ rest (suc j)

Rest-whole : (pattern : Bytes) → Rest pattern 0 pattern
Rest-whole pattern j = let e : 0 + j ≡ j = omega arith in ap (byte_at pattern) e

units_at-eq-literal_at :
    (s : Bytes) (at : ℕ) (pattern : Bytes) (k : ℕ) (q : Bytes)
    → Rest pattern k q
    → AreAscii q
    → units_at s at pattern (units_from (length q) k q) ≡ literal_at s (at + k) q
unfolding units_at literal_at
units_at-eq-literal_at s at pattern k [] rest ascii = rw (units_from-nil k) refl
units_at-eq-literal_at s at pattern k (b ∷ q) rest ascii =
    let step = units_from-step b k q ascii.0 in
    let head = Rest-head pattern k b q rest in
    let next : suc (at + k) ≡ at + suc k = omega arith in
    let later =
      units_at-eq-literal_at s at pattern (suc k) q (Rest-tail pattern k b q rest) ascii.1 in
    let cons = units_at-cons s at pattern k (units_from (length q) (suc k) q) in
    rw (step, cons, head, next, later) refl

pub pack_starts-eq-pack_word :
    (value : ℕ → ℕ) (pattern : Bytes) (k : ℕ) (q : Bytes) (word : ℕ)
    → Rest pattern k q
    → AreAscii q
    → pack_starts 32 value pattern (units_from (length q) k q) word
      ≡ pack_word 32 k word (map value q)
unfolding pack_starts pack_word
pack_starts-eq-pack_word value pattern k [] word rest ascii = rw (units_from-nil k) refl
pack_starts-eq-pack_word value pattern k (b ∷ q) word rest ascii =
    let step = units_from-step b k q ascii.0 in
    let head = Rest-head pattern k b q rest in
    let cons = pack_starts-cons value pattern k (units_from (length q) (suc k) q) word in
    rw (step, cons, head)
      (pack_starts-eq-pack_word value pattern (suc k) q
        (bit_or word (value b * 2 ^ (8 * k) % 2 ^ 32)) (Rest-tail pattern k b q rest) ascii.1)

pub pack_ascii :
    (value : ℕ → ℕ) (pattern : Bytes)
    → AreAscii pattern
    → pack_starts 32 value pattern (unit_starts pattern) 0 ≡ pack_word 32 0 0 (map value pattern)
unfolding unit_starts
pack_ascii value pattern ascii =
    pack_starts-eq-pack_word value pattern 0 pattern 0 (Rest-whole pattern) ascii

-- For a pattern that is ASCII, on every text, asciiPatternAt, which compares at the starts of
-- the units of the pattern, is the comparison of every byte of the pattern, letters folded.
pub ascii_pattern_at-eq-literal_at :
    (s : Bytes) (at : ℕ) (pattern : Bytes)
    → AreAscii pattern
    → ascii_pattern_at s at pattern ≡ literal_at s at pattern
unfolding ascii_pattern_at unit_starts
ascii_pattern_at-eq-literal_at s at pattern ascii =
    let e : at + 0 ≡ at = omega arith in
    units_at-eq-literal_at s at pattern 0 pattern (Rest-whole pattern) ascii
    ∙ ap (λ k. literal_at s k pattern) e

pub drop-AreAscii : (n : ℕ) (q : Bytes) → AreAscii q → AreAscii (drop n q)
drop-AreAscii zero q ascii = ascii
drop-AreAscii (suc n) [] ascii = tt
drop-AreAscii (suc n) (x ∷ q) ascii = drop-AreAscii n q ascii.1
