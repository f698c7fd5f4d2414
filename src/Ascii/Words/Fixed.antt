-- ===== src/Ascii/Words/Fixed.antt =====
-- plan.go: `asciiFixedAt` beside the comparison of every byte.
use casei.Base.{
  ℕ, zero, suc, ◌+◌, ◌<◌, ◌≤◌, true, ◌&&◌, not, [], ◌∷◌, arith, leb, ◌==◌, length, map, take, drop,
  Bytes, byte_at, AreBytes, ◌≡◌, refl, ◌∙◌, sym, byte_at-IsByte, Bool-cases, inl, inr,
}
use casei.Ascii.Words.{
  folded, fold_mask, pack_word, literal_at, byte_of, fixed_prefix8, fixed_prefix8_masked,
  prefix_from, make_words, ascii_fixed_at,
}
use casei.Ascii.Words.Exact.{letter_at_lem, length-map, map-AreBytes}
use casei.Ascii.Words.Prefix.{
  fixed_prefix8-eq, pattern_split, length-take, take-AreBytes, drop-AreBytes, packed-Holds,
  byte_of-pack_word, byte_at-map, Holds, Holds-tail,
}

-- The mask has a byte of ones at each position of `q` from `i` on, and zeros behind it.
record Masks (mask i : ℕ) (q : Bytes) : Type 0 where
  ones : (j : ℕ) → j < length q → byte_of mask (i + j) ≡ 0xff
  zeros : (j : ℕ) → length q ≤ j → byte_of mask (i + j) ≡ 0

Masks-tail : {mask i want : ℕ} {q : Bytes} → Masks mask i (want ∷ q) → Masks mask (suc i) q
Masks-tail {mask} {i} h = record {
  ones = λ j l. let e : suc i + j ≡ i + suc j = omega arith in rw e (h.ones (suc j) (omega arith));
  zeros =
      λ j l. let e : suc i + j ≡ i + suc j = omega arith in rw e (h.zeros (suc j) (omega arith));
}

Masks-none : {mask i : ℕ} → Masks mask i [] → Masks mask (suc i) []
Masks-none {mask} {i} h = record {
  ones = λ j l. absurd (omega arith);
  zeros =
      λ j l. let e : suc i + j ≡ i + suc j = omega arith in rw e (h.zeros (suc j) (omega arith));
}

prefix_from-none :
    (rounds i : ℕ) (s : Bytes) (at word fold mask : ℕ)
    → Masks mask i []
    → prefix_from rounds i s at word fold mask ≡ true
unfolding prefix_from
prefix_from-none zero i s at word fold mask h = refl
prefix_from-none (suc rounds) i s at word fold mask h =
    let e : i + 0 ≡ i = omega arith in
    let z = h.zeros 0 (omega arith) in
    let z' : byte_of mask i ≡ 0 = rw e at z in
    rw z' (prefix_from-none rounds (suc i) s at word fold mask (Masks-none h))

prefix_from-eq :
    (rounds i : ℕ) (s : Bytes) (at : ℕ) (q : Bytes) (word fold mask : ℕ)
    → AreBytes s
    → length q ≤ rounds
    → Holds word fold i q
    → Masks mask i q
    → prefix_from rounds i s at word fold mask ≡ literal_at s (at + i) q
unfolding prefix_from literal_at
prefix_from-eq rounds i s at [] word fold mask b l h m =
    prefix_from-none rounds i s at word fold mask m
prefix_from-eq zero i s at (want ∷ q) word fold mask b l h m = absurd (omega arith)
prefix_from-eq (suc rounds) i s at (want ∷ q) word fold mask b l h m =
    let here : i + 0 ≡ i = omega arith in
    let v = h.value 0 (omega arith) in
    let value : byte_of word i ≡ folded want = rw here at v in
    let f = h.mask 0 (omega arith) in
    let fold_here : byte_of fold i ≡ fold_mask want = rw here at f in
    let o = m.ones 0 (omega arith) in
    let one : byte_of mask i ≡ 0xff = rw here at o in
    let next : at + suc i ≡ suc (at + i) = omega arith in
    let rest =
      prefix_from-eq rounds (suc i) s at q word fold mask b (omega arith) (Holds-tail h)
        (Masks-tail m) in
    rw one (ground (arith, letter_at_lem (byte_at s (at + i)) want (byte_at-IsByte s (at + i) b)))

byte_at-past : (q : Bytes) (j : ℕ) → length q ≤ j → byte_at q j ≡ 0
byte_at-past [] j h = refl
byte_at-past (x ∷ q) zero h = absurd (omega arith)
byte_at-past (x ∷ q) (suc j) h = byte_at-past q j (omega arith)

packed-Masks :
    (q : Bytes) → AreBytes q → length q ≤ 8 → Masks (pack_word 64 0 0 (map (λ value. 0xff) q)) 0 q
packed-Masks q p h =
    let n = length-map (λ value. 0xff) q in
    let held = λ (j : ℕ).
      byte_of-pack_word (map (λ value. 0xff) q) j (omega arith)
        (map-AreBytes (λ value. 0xff) q (λ x l. omega arith) p) in
    record {
      ones = λ j l.
          let e : 0 + j ≡ j = omega arith in rw e (held j ∙ byte_at-map (λ value. 0xff) q j l);
      zeros = λ j l.
          let e : 0 + j ≡ j = omega arith in
          rw e (held j ∙ byte_at-past (map (λ value. 0xff) q) j (omega arith));
    }

drop-short : (n : ℕ) (q : Bytes) → length q ≤ n → drop n q ≡ []
drop-short zero [] h = refl
drop-short zero (x ∷ q) h = absurd (omega arith)
drop-short (suc n) [] h = refl
drop-short (suc n) (x ∷ q) h = drop-short n q (omega arith)

drop-nil : (n : ℕ) → drop {A = ℕ} n [] ≡ []
drop-nil zero = refl
drop-nil (suc n) = refl

drop-drop : (m n : ℕ) (q : Bytes) → drop n (drop m q) ≡ drop (m + n) q
drop-drop zero n q = let e : 0 + n ≡ n = omega arith in rw e refl
drop-drop (suc m) n [] = drop-nil n ∙ sym (drop-nil (suc m + n))
drop-drop (suc m) n (x ∷ q) =
    let e : suc m + n ≡ suc (m + n) = omega arith in rw e (drop-drop m n q)

length-take_le : (n : ℕ) (q : Bytes) → length (take n q) ≤ n
length-take_le zero q = omega arith
length-take_le (suc n) [] = omega arith
length-take_le (suc n) (x ∷ q) = let h = length-take_le n q in omega arith

masked-eq :
    (s : Bytes) (at : ℕ) (needle : Bytes)
    → AreBytes s
    → AreBytes needle
    → fixed_prefix8_masked s
        (at + 8)
        (make_words needle).tail_word
        (make_words needle).tail_fold
        (make_words needle).tail_mask
      ≡ literal_at s (at + 8) (take 8 (drop 8 needle))
unfolding fixed_prefix8_masked make_words
masked-eq s at needle b p =
    let q = take 8 (drop 8 needle) in
    let bytes = take-AreBytes 8 (drop 8 needle) (drop-AreBytes 8 needle p) in
    let few = length-take_le 8 (drop 8 needle) in
    let e : at + 8 + 0 ≡ at + 8 = omega arith in
    let eq =
      prefix_from-eq 8 0 s (at + 8) q (pack_word 64 0 0 (map folded q))
        (pack_word 64 0 0 (map fold_mask q)) (pack_word 64 0 0 (map (λ value. 0xff) q)) b few
        (packed-Holds q bytes few) (packed-Masks q bytes few) in
    rw e at eq

first-eq :
    (s : Bytes) (at : ℕ) (needle : Bytes)
    → AreBytes s
    → AreBytes needle
    → 8 ≤ length needle
    → fixed_prefix8 s at (make_words needle).first_word (make_words needle).first_fold
      ≡ literal_at s at (take 8 needle)
unfolding make_words
first-eq s at needle b p long =
    fixed_prefix8-eq s at (take 8 needle) b (take-AreBytes 8 needle p) (length-take 8 needle long)

short_unmasked : (needle : Bytes) → length needle ≤ 8 → (make_words needle).tail_mask ≡ 0
unfolding make_words pack_word
short_unmasked needle h = rw (drop-short 8 needle h) refl

-- On a text and a literal of bytes, the comparison by the words of the first sixteen bytes of
-- the literal, and then byte by byte, is the comparison with the whole literal byte by byte,
-- letters folded.
pub ascii_fixed_at-eq-literal_at :
    (s : Bytes) (at : ℕ) (needle : Bytes)
    → AreBytes s
    → AreBytes needle
    → ascii_fixed_at (make_words needle) needle s at ≡ literal_at s at needle
unfolding ascii_fixed_at
ascii_fixed_at-eq-literal_at s at needle b p = elim (Bool-cases (leb 8 (length needle))) [
  | inr short ↦
      let none_masked = short_unmasked needle (ground arith) in
      let e : at + 0 ≡ at = omega arith in rw (short, none_masked, e) refl
  | inl long ↦
      let first = first-eq s at needle b p (ground arith) in
      let split = pattern_split 8 s at needle in
      let split' = pattern_split 8 s (at + 8) (drop 8 needle) in
      let twice = drop-drop 8 8 needle in
      let e : at + 8 + 8 ≡ at + 16 = omega arith in
      let split'' = rw (twice, e) at split' in
      let tail = masked-eq s at needle b p in
      rw long
        (elim (Bool-cases (not ((make_words needle).tail_mask == 0) && leb (at + 16) (length s))) [
          | inl masked ↦ rw masked (ground (arith, first, split, split'', tail))
          | inr bare ↦ rw bare (ground (arith, first, split))
        ])
]
