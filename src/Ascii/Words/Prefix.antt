-- ===== src/Ascii/Words/Prefix.antt =====
-- plan.go: `asciiOnlyPatternAt` beside `asciiPatternAt`.
use native.Mathlib.Nat.{div-div-eq-div-mul, zero-div}
use casei.Base.{
  ℕ, zero, suc, ◌+◌, ◌*◌, ◌/◌, ◌%◌, ◌^◌, ◌<◌, ◌≤◌, ◌&&◌, List, [], ◌∷◌, arith, leb, length, map,
  take, drop, Bytes, byte_at, AreBytes, ◌≡◌, refl, ap, ◌∙◌, sym, word_of, word_of-step, word_of-nil,
  byte_at-IsByte, Bool-cases, inl, inr,
}
use casei.Ascii.{AreAscii}
use casei.Ascii.Words.Range.{ascii_pattern_at-eq-literal_at, drop-AreAscii}
use casei.Ascii.Words.{
  ascii_pattern_at, folded, fold_mask, pack_word, literal_at, byte_of, fixed_from, fixed_prefix8,
  ascii_only_pattern_at, make_words,
}
use casei.Ascii.Words.Exact.{
  pack_word-word_of, letter_at_lem, map-AreBytes, folded-IsByte, fold_mask-IsByte, length-map,
  weight_step, AreAscii-AreBytes,
}

zero-div-pow : (i : ℕ) → 0 / 2 ^ (8 * i) % 2 ^ 8 ≡ 0
zero-div-pow i = ap (λ n. n % 2 ^ 8) (zero-div (2 ^ (8 * i)))

byte_of-word_of :
    (values : List ℕ) (i : ℕ) → AreBytes values → byte_of (word_of values) i ≡ byte_at values i
byte_of-word_of [] i b = rw word_of-nil (zero-div-pow i)
byte_of-word_of (v ∷ vs) zero b = rw (word_of-step v vs) (ground arith)
byte_of-word_of (v ∷ vs) (suc i) b =
    let rest : (v + 256 * word_of vs) / 256 ≡ word_of vs = ground (arith, b.0) in
    rw (word_of-step v vs, weight_step i)
      (ap (λ n. n % 2 ^ 8) (sym (div-div-eq-div-mul (v + 256 * word_of vs) 256 (2 ^ (8 * i))))
        ∙ ap (λ n. n / 2 ^ (8 * i) % 2 ^ 8) rest
        ∙ byte_of-word_of vs i b.1)

pub byte_of-pack_word :
    (values : List ℕ) (i : ℕ)
    → length values ≤ 8
    → AreBytes values
    → byte_of (pack_word 64 0 0 values) i ≡ byte_at values i
byte_of-pack_word values i h b =
    let packed = pack_word-word_of 8 0 0 values (omega arith) (omega arith) b in
    let bare : 0 + 2 ^ (8 * 0) * word_of values ≡ word_of values = omega arith in
    ap (λ w. byte_of w i) (packed ∙ bare) ∙ byte_of-word_of values i b

-- The words hold the values of the bytes of `q` from position `i` on.
pub record Holds (word fold i : ℕ) (q : Bytes) : Type 0 where
  pub value : (j : ℕ) → j < length q → byte_of word (i + j) ≡ folded (byte_at q j)
  pub mask : (j : ℕ) → j < length q → byte_of fold (i + j) ≡ fold_mask (byte_at q j)

pub Holds-tail :
    {word fold i want : ℕ} {q : Bytes} → Holds word fold i (want ∷ q) → Holds word fold (suc i) q
Holds-tail {word} {fold} {i} h = record {
  value =
      λ j l. let e : suc i + j ≡ i + suc j = omega arith in rw e (h.value (suc j) (omega arith));
  mask = λ j l. let e : suc i + j ≡ i + suc j = omega arith in rw e (h.mask (suc j) (omega arith));
}

fixed_from-eq :
    (s : Bytes) (at i : ℕ) (q : Bytes) (word fold : ℕ)
    → AreBytes s
    → Holds word fold i q
    → fixed_from (length q) i s at word fold ≡ literal_at s (at + i) q
unfolding fixed_from literal_at
fixed_from-eq s at i [] word fold b h = refl
fixed_from-eq s at i (want ∷ q) word fold b h =
    let here : i + 0 ≡ i = omega arith in
    let value : byte_of word i ≡ folded want = let v = h.value 0 (omega arith) in rw here at v in
    let mask : byte_of fold i ≡ fold_mask want = let m = h.mask 0 (omega arith) in rw here at m in
    let next : at + suc i ≡ suc (at + i) = omega arith in
    let rest = fixed_from-eq s at (suc i) q word fold b (Holds-tail h) in
    ground (arith, letter_at_lem (byte_at s (at + i)) want (byte_at-IsByte s (at + i) b))

pub byte_at-map :
    (f : ℕ → ℕ) (q : Bytes) (j : ℕ) → j < length q → byte_at (map f q) j ≡ f (byte_at q j)
byte_at-map f [] j l = absurd (omega arith)
byte_at-map f (x ∷ q) zero l = refl
byte_at-map f (x ∷ q) (suc j) l = byte_at-map f q j (omega arith)

byte_of-mapped :
    (f : ℕ → ℕ) (q : Bytes) (j : ℕ)
    → ((x : ℕ) → x < 256 → f x < 256)
    → AreBytes q
    → length q ≤ 8
    → j < length q
    → byte_of (pack_word 64 0 0 (map f q)) (0 + j) ≡ f (byte_at q j)
byte_of-mapped f q j small p h l =
    let e : 0 + j ≡ j = omega arith in
    let n = length-map f q in
    ap (byte_of (pack_word 64 0 0 (map f q))) e
    ∙ byte_of-pack_word (map f q) j (omega arith) (map-AreBytes f q small p)
    ∙ byte_at-map f q j l

pub packed-Holds :
    (q : Bytes)
    → AreBytes q
    → length q ≤ 8
    → Holds (pack_word 64 0 0 (map folded q)) (pack_word 64 0 0 (map fold_mask q)) 0 q
packed-Holds q p h = record {
  value = λ j l. byte_of-mapped folded q j folded-IsByte p h l;
  mask = λ j l. byte_of-mapped fold_mask q j fold_mask-IsByte p h l;
}

-- The first eight bytes of a literal, by their words.
pub fixed_prefix8-eq :
    (s : Bytes) (at : ℕ) (q : Bytes)
    → AreBytes s
    → AreBytes q
    → length q ≡ 8
    → fixed_prefix8 s at (pack_word 64 0 0 (map folded q)) (pack_word 64 0 0 (map fold_mask q))
      ≡ literal_at s at q
unfolding fixed_prefix8
fixed_prefix8-eq s at q b p h =
    let word = pack_word 64 0 0 (map folded q) in
    let fold = pack_word 64 0 0 (map fold_mask q) in
    let at0 : at + 0 ≡ at = omega arith in
    let eq = fixed_from-eq s at 0 q word fold b (packed-Holds q p (omega arith)) in
    rw (h, at0) at eq

pub pattern_split :
    (n : ℕ) (s : Bytes) (at : ℕ) (q : Bytes)
    → literal_at s at q ≡ (literal_at s at (take n q) && literal_at s (at + n) (drop n q))
unfolding literal_at
pattern_split zero s at q = let e : at + 0 ≡ at = omega arith in rw e refl
pattern_split (suc n) s at [] = refl
pattern_split (suc n) s at (want ∷ q) =
    let e : at + suc n ≡ suc at + n = omega arith in
    rw e (ground (arith, pattern_split n s (suc at) q))

pub length-take : (n : ℕ) (q : Bytes) → n ≤ length q → length (take n q) ≡ n
length-take zero q h = refl
length-take (suc n) [] h = absurd (omega arith)
length-take (suc n) (x ∷ q) h = ap suc (length-take n q (omega arith))

pub take-AreBytes : (n : ℕ) (q : Bytes) → AreBytes q → AreBytes (take n q)
take-AreBytes zero q b = tt
take-AreBytes (suc n) [] b = tt
take-AreBytes (suc n) (x ∷ q) b = (b.0, take-AreBytes n q b.1)

pub drop-AreBytes : (n : ℕ) (q : Bytes) → AreBytes q → AreBytes (drop n q)
drop-AreBytes zero q b = b
drop-AreBytes (suc n) [] b = tt
drop-AreBytes (suc n) (x ∷ q) b = drop-AreBytes n q b.1

-- On a text of bytes and a literal that is ASCII, the comparison that starts with the eight-byte
-- words of the literal gives what asciiPatternAt gives on the whole literal.
pub ascii_only_pattern_at-eq-ascii_pattern_at :
    (s : Bytes) (at : ℕ) (needle : Bytes)
    → AreBytes s
    → AreAscii needle
    → ascii_only_pattern_at
        (make_words needle).first_word
        (make_words needle).first_fold
        s
        at
        needle
      ≡ ascii_pattern_at s at needle
unfolding ascii_only_pattern_at make_words
ascii_only_pattern_at-eq-ascii_pattern_at s at needle b ascii =
    let p = AreAscii-AreBytes needle ascii in
    let whole = ascii_pattern_at-eq-literal_at s at needle ascii in
    let behind =
      ascii_pattern_at-eq-literal_at s (at + 8) (drop 8 needle) (drop-AreAscii 8 needle ascii) in
    elim (Bool-cases (leb 8 (length needle))) [
      | inl long ↦
          let n = length-take 8 needle (ground arith) in
          ground (
            arith,
            fixed_prefix8-eq s at (take 8 needle) b (take-AreBytes 8 needle p) n,
            pattern_split 8 s at needle,
            whole,
            behind,
          )
      | inr short ↦ rw short refl
    ]
