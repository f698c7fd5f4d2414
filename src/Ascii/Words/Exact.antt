-- ===== src/Ascii/Words/Exact.antt =====
-- plan.go: `asciiShortLiteralAt` beside `asciiPatternAt`.
use native.Mathlib.Nat.{pow-le-pow_right, mod-eq_of_lt, mul-le-mul_left}
use casei.Base.{
  ℕ, zero, suc, ◌+◌, ◌*◌, ◌%◌, ◌^◌, ◌<◌, ◌≤◌, ◌&&◌, List, [], ◌∷◌, arith, bit_or, ◌==◌, length, map,
  Bytes, byte_at, AreBytes, ◌≡◌, refl, ap, ◌∙◌, word_of, or_each, bit_or-above, pow_eight,
  word_of-step, word_of-nil, bit_or-zero_right, or_each-nil, or_each-step, bit_or-word_of,
  byte_at-IsByte, fold_case_lem, Bool-cases, inl, inr,
}
use casei.Ascii.{is_ascii_letter, AreAscii}
use casei.Ascii.Words.Range.{pack_ascii, ascii_pattern_at-eq-literal_at}
use casei.Ascii.Words.{
  folded, fold_mask, pack_word, letter_at, literal_at, ascii_pattern_at, make_short_literal,
  short_literal_at,
}

pub weight_step : (at : ℕ) → 2 ^ (8 * suc at) ≡ 256 * 2 ^ (8 * at)
weight_step at =
    let e : 8 * suc at ≡ suc (suc (suc (suc (suc (suc (suc (suc (8 * at)))))))) = omega arith in
    ap (λ n. 2 ^ n) e ∙ pow_eight (8 * at)

-- A byte below the width of the word is not cut off.
fits : (m at v : ℕ) → suc at ≤ m → v < 256 → v * 2 ^ (8 * at) % 2 ^ (8 * m) ≡ v * 2 ^ (8 * at)
fits m at v h b =
    let wider : 2 ^ (8 * suc at) ≤ 2 ^ (8 * m) = pow-le-pow_right (omega arith) (omega arith) in
    let e = weight_step at in
    let p : 2 ^ 0 ≤ 2 ^ (8 * at) =
      pow-le-pow_right {n = 2} (omega arith) {i = 0} {j = 8 * at} (omega arith) in
    let below : 2 ^ (8 * at) * suc v ≤ 2 ^ (8 * at) * 256 = mul-le-mul_left (2 ^ (8 * at)) b in
    mod-eq_of_lt (omega arith)

pub pack_word-word_of :
    (m at word : ℕ) (values : List ℕ)
    → at + length values ≤ m
    → word < 2 ^ (8 * at)
    → AreBytes values
    → pack_word (8 * m) at word values ≡ word + 2 ^ (8 * at) * word_of values
unfolding pack_word
pack_word-word_of m at word [] h l b = rw word_of-nil (omega arith)
pack_word-word_of m at word (v ∷ vs) h l b =
    let e = weight_step at in
    let placed = bit_or-above (8 * at) word v l in
    let below : word + 2 ^ (8 * at) * v < 2 ^ (8 * suc at) =
      omega (arith, mul-le-mul_left (2 ^ (8 * at)) b.0) in
    rw (fits m at v (omega arith) b.0, placed)
      (pack_word-word_of m (suc at) (word + 2 ^ (8 * at) * v) vs (omega arith) below b.1
        ∙ rw (word_of-step v vs, e) (omega arith))

short_word :
    (values : List ℕ)
    → length values ≡ 4
    → AreBytes values
    → pack_word 32 0 0 values ≡ word_of values
short_word values h b = pack_word-word_of 4 0 0 values (omega arith) (omega arith) b ∙ omega arith

-- The bytes of the text from an index on.
bytes_from : Bytes → ℕ → ℕ → Bytes
bytes_from s at zero = []
bytes_from s at (suc n) = byte_at s at ∷ bytes_from s (suc at) n

length-bytes_from : (s : Bytes) (at n : ℕ) → length (bytes_from s at n) ≡ n
unfolding bytes_from
length-bytes_from s at zero = refl
length-bytes_from s at (suc n) = ap suc (length-bytes_from s (suc at) n)

bytes_from-AreBytes : (s : Bytes) (at n : ℕ) → AreBytes s → AreBytes (bytes_from s at n)
unfolding bytes_from
bytes_from-AreBytes s at zero b = tt
bytes_from-AreBytes s at (suc n) b = (byte_at-IsByte s at b, bytes_from-AreBytes s (suc at) n b)

pub length-map : (f : ℕ → ℕ) (xs : List ℕ) → length (map f xs) ≡ length xs
length-map f [] = refl
length-map f (x ∷ xs) = ap suc (length-map f xs)

pub map-AreBytes :
    (f : ℕ → ℕ) (xs : List ℕ) → ((x : ℕ) → x < 256 → f x < 256) → AreBytes xs → AreBytes (map f xs)
map-AreBytes f [] h b = tt
map-AreBytes f (x ∷ xs) h b = (h x b.0, map-AreBytes f xs h b.1)

pub folded-IsByte : (v : ℕ) → v < 256 → folded v < 256
unfolding is_ascii_letter
folded-IsByte v b = ground (arith, fold_case_lem v b)

pub fold_mask-IsByte : (v : ℕ) → v < 256 → fold_mask v < 256
unfolding is_ascii_letter
fold_mask-IsByte v b = ground arith

masked-IsByte : (got want : ℕ) → got < 256 → bit_or got (fold_mask want) < 256
unfolding is_ascii_letter
masked-IsByte got want b = ground (arith, fold_case_lem got b, bit_or-zero_right 8 got b)

pub letter_at_lem :
    (got want : ℕ) → got < 256 → letter_at got want ≡ (bit_or got (fold_mask want) == folded want)
unfolding letter_at
letter_at_lem got want g = elim (Bool-cases (is_ascii_letter want)) [
  | inl letter ↦ rw letter refl
  | inr other ↦ rw (other, bit_or-zero_right 8 got g) refl
]

-- Two words are equal if their low bytes are, and the rest is.
word-eq : (x y a b : ℕ) → x < 256 → y < 256 → (x + 256 * a == y + 256 * b) ≡ (x == y && a == b)
word-eq x y a b h k = ground arith

word_test :
    (s : Bytes) (at : ℕ) (pattern : Bytes)
    → AreBytes s
    → AreBytes pattern
    → (word_of (or_each (bytes_from s at (length pattern)) (map fold_mask pattern))
        == word_of (map folded pattern))
      ≡ literal_at s at pattern
unfolding bytes_from literal_at
word_test s at [] b p = rw (or_each-nil [], word_of-nil) refl
word_test s at (want ∷ pattern) b p =
    let got = byte_at-IsByte s at b in
    rw
      (
        or_each-step (byte_at s at) (fold_mask want) (bytes_from s (suc at) (length pattern))
            (map fold_mask pattern),
        word_of-step (bit_or (byte_at s at) (fold_mask want))
            (or_each (bytes_from s (suc at) (length pattern)) (map fold_mask pattern)),
        word_of-step (folded want) (map folded pattern),
        letter_at_lem (byte_at s at) want got,
      )
      (word-eq (bit_or (byte_at s at) (fold_mask want)) (folded want)
          (word_of (or_each (bytes_from s (suc at) (length pattern)) (map fold_mask pattern)))
          (word_of (map folded pattern)) (masked-IsByte (byte_at s at) want got)
          (folded-IsByte want p.0)
        ∙ ap (λ t. (bit_or (byte_at s at) (fold_mask want) == folded want) && t)
            (word_test s (suc at) pattern b p.1))

four_bytes :
    (a b c d : ℕ)
    → a < 256
    → b < 256
    → c < 256
    → d < 256
    → bit_or (bit_or (bit_or a (b * 2 ^ 8)) (c * 2 ^ 16)) (d * 2 ^ 24)
      ≡ word_of (a ∷ b ∷ c ∷ d ∷ [])
four_bytes a b c d h i j k =
    rw
      (
        word_of-step a (b ∷ c ∷ d ∷ []),
        word_of-step b (c ∷ d ∷ []),
        word_of-step c (d ∷ []),
        word_of-step d [],
        word_of-nil,
        bit_or-above 8 a b h,
        bit_or-above 16 (a + 2 ^ 8 * b) c (omega arith),
        bit_or-above 24 (a + 2 ^ 8 * b + 2 ^ 16 * c) d (omega arith),
      )
      (omega arith)

pub AreAscii-AreBytes : (q : Bytes) → AreAscii q → AreBytes q
AreAscii-AreBytes [] ascii = tt
AreAscii-AreBytes (x ∷ q) ascii = let h = ascii.0 in (omega arith, AreAscii-AreBytes q ascii.1)

-- On a text of bytes, for a pattern of four ASCII bytes, the comparison of the 32-bit word of
-- the text with the literal made from the pattern gives what asciiPatternAt gives on the
-- pattern.
pub short_literal_at-eq-ascii_pattern_at :
    (s : Bytes) (at : ℕ) (pattern : Bytes)
    → AreBytes s
    → AreAscii pattern
    → length pattern ≡ 4
    → short_literal_at s at (make_short_literal pattern) ≡ ascii_pattern_at s at pattern
unfolding short_literal_at make_short_literal bytes_from
short_literal_at-eq-ascii_pattern_at s at (w ∷ x ∷ y ∷ z ∷ []) b ascii four =
    let pattern : Bytes = w ∷ x ∷ y ∷ z ∷ [] in
    let p = AreAscii-AreBytes pattern ascii in
    let range = ascii_pattern_at-eq-literal_at s at pattern ascii in
    let one : at + 1 ≡ suc at = omega arith in
    let two : at + 2 ≡ suc (suc at) = omega arith in
    let three : at + 3 ≡ suc (suc (suc at)) = omega arith in
    let got =
      four_bytes (byte_at s at) (byte_at s (suc at)) (byte_at s (suc (suc at)))
        (byte_at s (suc (suc (suc at)))) (byte_at-IsByte s at b) (byte_at-IsByte s (suc at) b)
        (byte_at-IsByte s (suc (suc at)) b) (byte_at-IsByte s (suc (suc (suc at))) b) in
    let word = short_word (map folded pattern) refl (map-AreBytes folded pattern folded-IsByte p) in
    let fold =
      short_word (map fold_mask pattern) refl (map-AreBytes fold_mask pattern fold_mask-IsByte p) in
    let each =
      bit_or-word_of (bytes_from s at 4) (map fold_mask pattern) (bytes_from-AreBytes s at 4 b)
        (map-AreBytes fold_mask pattern fold_mask-IsByte p) refl in
    rw
      (
        pack_ascii folded pattern ascii,
        pack_ascii fold_mask pattern ascii,
        range,
        one,
        two,
        three,
        got,
        word,
        fold,
      )
      (ap (λ v. v == word_of (map folded pattern)) each ∙ word_test s at pattern b p)
short_literal_at-eq-ascii_pattern_at s at [] b p four = absurd (omega arith)
short_literal_at-eq-ascii_pattern_at s at (w ∷ []) b p four = absurd (omega arith)
short_literal_at-eq-ascii_pattern_at s at (w ∷ x ∷ []) b p four = absurd (omega arith)
short_literal_at-eq-ascii_pattern_at s at (w ∷ x ∷ y ∷ []) b p four = absurd (omega arith)
short_literal_at-eq-ascii_pattern_at s at (w ∷ x ∷ y ∷ z ∷ v ∷ rest) b p four = absurd (omega arith)
