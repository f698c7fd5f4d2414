-- ===== src/Ascii/Only/First.antt =====
-- plan.go: the results of `findASCIIOnlyAnchorWithHigh`.
use casei.Base.{
  ℕ, zero, suc, ◌+◌, ◌-◌, ◌<◌, ◌≤◌, true, false, ◌&&◌, ◌||◌, not, some, [], ◌∷◌, arith, bit_or, ltb,
  leb, ◌==◌, if◌then◌else◌, length, map, take, any, Bytes, byte_at, scan, AreBytes, flag, ◌≡◌, refl,
  ap, ◌∙◌, sym, scan-IsFirst, Bool-cases, inl, inr,
}
use mathlib.Core.Option.{some-injective}
use casei.Utf8.{rune_self}
use casei.Ascii.{is_ascii_letter, AreAscii}
use casei.Ascii.Words.Range.{ascii_pattern_at-eq-literal_at}
use casei.Ascii.Words.{
  folded, fold_mask, pack_word, letter_at, literal_at, ascii_only_pattern_at, make_words,
}
use casei.Ascii.Words.Prefix.{ascii_only_pattern_at-eq-ascii_pattern_at}
use casei.Ascii.Only.{
  OnlyPlan, OnlyResult, found_at, absent, high_at, fold_bit, make_only, only_probe, second_place,
  tail_high, only_loop, find_only_with_high,
}
use casei.Filter.Skip.{ascii_only_probe_skip, ascii_probe_at, probe_byte}

-- The pattern occurs at no start in the range [lo, hi) at which it fits into the text.
abbrev pub NoneBetween : Bytes → Bytes → ℕ → ℕ → Type 0
NoneBetween s pattern lo hi =
    (j : ℕ) → lo ≤ j → j < hi → j + length pattern ≤ length s → literal_at s j pattern ≡ false

-- What the result says of the text.
unfoldable pub Correct : Bytes → Bytes → OnlyResult → Type 0
Correct s pattern (found_at at) =
    (at + length pattern ≤ length s) × (literal_at s at pattern ≡ true) × NoneBetween s pattern 0 at
Correct s pattern absent = NoneBetween s pattern 0 (length s)
Correct s pattern (high_at at) =
    (at < length s) × (0x80 ≤ byte_at s at) × NoneBetween s pattern 0 at

pub letter_at_of_pattern :
    (s : Bytes) (at i : ℕ) (pattern : Bytes)
    → i < length pattern
    → literal_at s at pattern ≡ true
    → letter_at (byte_at s (at + i)) (byte_at pattern i) ≡ true
unfolding literal_at
letter_at_of_pattern s at i [] l h = absurd (omega arith)
letter_at_of_pattern s at zero (w ∷ pattern) l h =
    let e : at + 0 ≡ at = omega arith in rw e (ground arith)
letter_at_of_pattern s at (suc i) (w ∷ pattern) l h =
    let e : at + suc i ≡ suc at + i = omega arith in
    rw e (letter_at_of_pattern s (suc at) i pattern (omega arith) (ground arith))

pub probe_byte_of_letter :
    (s : Bytes) (at want : ℕ)
    → letter_at (byte_at s at) want ≡ true
    → probe_byte s at (is_ascii_letter want) (folded want) ≡ true
unfolding letter_at
probe_byte_of_letter s at want h = elim (Bool-cases (is_ascii_letter want)) [
  | inl letter ↦ rw letter (rw letter at h)
  | inr other ↦ rw other (rw other at h)
]

-- The three flags of the mask.
pub flags :
    (a b c : ℕ)
    → (flag (bit_or (bit_or (fold_bit a 0) (fold_bit b 1)) (fold_bit c 2)) 1 ≡ is_ascii_letter a)
      × (flag (bit_or (bit_or (fold_bit a 0) (fold_bit b 1)) (fold_bit c 2)) 2 ≡ is_ascii_letter b)
      × (flag (bit_or (bit_or (fold_bit a 0) (fold_bit b 1)) (fold_bit c 2)) 4 ≡ is_ascii_letter c)
flags a b c = elim (Bool-cases (is_ascii_letter a)) [
  | inl x ↦ elim (Bool-cases (is_ascii_letter b)) [
    | inl y ↦ elim (Bool-cases (is_ascii_letter c)) [
      | inl z ↦ rw (x, y, z) (refl, refl, refl)
      | inr z ↦ rw (x, y, z) (refl, refl, refl)
    ]
    | inr y ↦ elim (Bool-cases (is_ascii_letter c)) [
      | inl z ↦ rw (x, y, z) (refl, refl, refl)
      | inr z ↦ rw (x, y, z) (refl, refl, refl)
    ]
  ]
  | inr x ↦ elim (Bool-cases (is_ascii_letter b)) [
    | inl y ↦ elim (Bool-cases (is_ascii_letter c)) [
      | inl z ↦ rw (x, y, z) (refl, refl, refl)
      | inr z ↦ rw (x, y, z) (refl, refl, refl)
    ]
    | inr y ↦ elim (Bool-cases (is_ascii_letter c)) [
      | inl z ↦ rw (x, y, z) (refl, refl, refl)
      | inr z ↦ rw (x, y, z) (refl, refl, refl)
    ]
  ]
]

only_probe_passes :
    (s : Bytes) (at : ℕ) (pattern : Bytes)
    → 3 ≤ length pattern
    → literal_at s at pattern ≡ true
    → ascii_probe_at s at (only_probe pattern) ≡ true
unfolding ascii_probe_at only_probe
only_probe_passes s at pattern h e =
    let second : second_place pattern < length pattern = ground arith in
    let (a, b, c) =
      flags (byte_at pattern 0) (byte_at pattern (second_place pattern))
        (byte_at pattern (length pattern - 1)) in
    let pass = λ (i : ℕ) (l : i < length pattern).
      probe_byte_of_letter s (at + i) (byte_at pattern i)
        (letter_at_of_pattern s at i pattern l e) in
    rw
      (
        a,
        b,
        c,
        pass 0 (omega arith),
        pass (second_place pattern) second,
        pass (length pattern - 1) (omega arith),
      )
      refl

tail_high-Correct :
    (s pattern : Bytes) (limit : ℕ)
    → limit ≡ length s + 1 - length pattern
    → 3 ≤ length pattern
    → NoneBetween s pattern 0 limit
    → Correct s pattern (tail_high s limit)
unfolding tail_high Correct
tail_high-Correct s pattern limit l three before =
    let f =
      scan-IsFirst (length s - limit) (λ at. leb rune_self (byte_at s at)) limit (length s)
        (omega arith) in
    elim (Bool-cases
      (ltb (scan (length s - limit) (λ at. leb rune_self (byte_at s at)) limit) (length s))) [
        | inl high ↦ rw high (
          ground arith,
          ground (arith, f.stops (ground arith)),
          λ j a b fits. before j a (omega arith) fits,
        )
        | inr low ↦ rw low (λ j a b fits. before j a (omega arith) fits)
      ]

-- The conditions of a plan made from the pattern.
record Made (pattern : Bytes) (p : OnlyPlan) : Type 0 where
  three : 3 ≤ length pattern
  probe : p.probe ≡ only_probe pattern
  payload : p.payload ≡ pattern
  exact :
      (s : Bytes) (at : ℕ)
      → AreBytes s
      → ascii_only_pattern_at p.word p.fold s at pattern ≡ literal_at s at pattern

eight_exact :
    (s : Bytes) (at : ℕ) (pattern : Bytes)
    → AreBytes s
    → AreAscii pattern
    → ascii_only_pattern_at
        (pack_word 64 0 0 (map folded (if leb 8 (length pattern) then take 8 pattern else [])))
        (pack_word 64 0 0 (map fold_mask (if leb 8 (length pattern) then take 8 pattern else [])))
        s
        at
        pattern
      ≡ literal_at s at pattern
unfolding ascii_only_pattern_at make_words
eight_exact s at pattern b p = elim (Bool-cases (leb 8 (length pattern))) [
  | inl long ↦
      let e =
        ascii_only_pattern_at-eq-ascii_pattern_at s at pattern b p
        ∙ ascii_pattern_at-eq-literal_at s at pattern p in
      rw long (rw long at e)
  | inr short ↦ rw short (ascii_pattern_at-eq-literal_at s at pattern p)
]

-- A pattern without a byte from rune_self on.
ascii_of_none : (pattern : Bytes) → any (leb rune_self) pattern ≡ false → AreAscii pattern
ascii_of_none [] e = tt
ascii_of_none (x ∷ pattern) e = (ground arith, ascii_of_none pattern (ground arith))

make_only-Made :
    (pattern : Bytes) (p : OnlyPlan)
    → AreBytes pattern
    → make_only pattern ≡ some p
    → Made pattern p
unfolding make_only
make_only-Made pattern p b e =
    elim (Bool-cases (ltb (length pattern) 3 || any (leb rune_self) pattern)) [
      | inl refused ↦ let e' = rw refused at e in absurd (cc)
      | inr taken ↦
          let e' = rw taken at e in
          let same = some-injective _ _ e' in
          record {
            three = ground arith;
            probe = sym (ap (λ q. q.probe) same);
            payload = sym (ap (λ q. q.payload) same);
            exact = λ s at bytes.
                ap (λ q. ascii_only_pattern_at q.word q.fold s at pattern) (sym same)
                ∙ eight_exact s at pattern bytes (ascii_of_none pattern (ground arith));
          }
    ]

-- One round, which stops at `stop`.
only_round-Correct :
    (p : OnlyPlan) (s pattern : Bytes) (limit at stop : ℕ) (later : OnlyResult)
    → AreBytes s
    → Made pattern p
    → limit + length pattern ≡ length s + 1
    → at ≤ stop
    → stop ≤ limit
    → NoneBetween s pattern 0 stop
    → (NoneBetween s pattern 0 (suc stop) → stop < limit → Correct s pattern later)
    → Correct s pattern (
        if leb limit at
        then tail_high s limit
        else if not (not (ltb (stop - at) (limit - at) && leb 0x80 (byte_at s stop)))
        then high_at stop
        else if stop == limit
        then tail_high s limit
        else if ascii_only_pattern_at p.word p.fold s stop p.payload
        then found_at stop
        else later)
unfolding Correct
only_round-Correct p s pattern limit at stop later b m l lo hi before onward =
    let tail : limit ≤ stop → Correct s pattern (tail_high s limit) = λ e.
      tail_high-Correct s pattern limit (omega arith) m.three
        (λ j x y fits. before j x (omega arith) fits) in
    let three = m.three in
    let exact = m.exact s stop b in
    elim (Bool-cases (leb limit at)) [
      | inl over ↦ rw over (tail (ground arith))
      | inr going ↦
          rw going (elim (Bool-cases (ltb (stop - at) (limit - at) && leb 0x80 (byte_at s stop))) [
            | inl high ↦ rw high (ground arith, ground arith, before)
            | inr low ↦ rw low (elim (Bool-cases (stop == limit)) [
              | inl done ↦ rw done (tail (ground arith))
              | inr more ↦
                  rw (more, m.payload)
                    (elim (Bool-cases (literal_at s stop pattern)) [
                      | inl here ↦ rw (exact, here) (ground arith, here, before)
                      | inr not_here ↦
                          rw (exact, not_here)
                            (onward
                              (λ j x y fits. elim (Bool-cases (j == stop)) [
                                | inl same ↦ let e : j ≡ stop = ground arith in rw e not_here
                                | inr other ↦ before j x (ground arith) fits
                              ])
                              (ground arith))
                    ])
            ])
          ])
    ]

only_loop-Correct :
    (rounds : ℕ) (p : OnlyPlan) (s pattern : Bytes) (limit at : ℕ)
    → AreBytes s
    → Made pattern p
    → limit + length pattern ≡ length s + 1
    → limit ≤ at + rounds
    → at ≤ limit
    → NoneBetween s pattern 0 at
    → Correct s pattern (only_loop rounds p s limit at)
unfolding only_loop ascii_only_probe_skip
only_loop-Correct zero p s pattern limit at b m l fuel below before =
    tail_high-Correct s pattern limit (let three = m.three in omega arith) m.three
      (λ j x y fits. before j x (omega arith) fits)
only_loop-Correct (suc rounds) p s pattern limit at b m l fuel below before =
    let test = λ (k : ℕ). leb 0x80 (byte_at s k) || ascii_probe_at s k p.probe in
    let f = scan-IsFirst (limit - at) test at limit (omega arith) in
    let stop = scan (limit - at) test at in
    let lo = f.above in
    let hi = f.below in
    let e : at + (stop - at) ≡ stop = omega arith in
    let none_skipped : NoneBetween s pattern 0 stop = λ j x y fits. elim (Bool-cases (ltb j at)) [
      | inl earlier ↦ before j x (ground arith) fits
      | inr later ↦ elim (Bool-cases (literal_at s j pattern)) [
        | inl occurs ↦
            let passes = only_probe_passes s j pattern m.three occurs in
            let passed = f.passed j (ground arith) y in
            let passed' = rw m.probe at passed in ground arith
        | inr not_here ↦ not_here
      ]
    ] in
    rw e (
      only_round-Correct p s pattern limit at stop (only_loop rounds p s limit (suc stop)) b m l lo
        hi none_skipped
        (λ rejected more.
          only_loop-Correct rounds p s pattern limit (suc stop) b m l (omega arith) (omega arith)
            rejected))

-- For the plan made from an ASCII literal of three bytes or more, on every text of bytes: a
-- match that the route reports is the first start at which the literal occurs, letters folded;
-- where it reports none the literal occurs nowhere; and where it gives up it has stopped at a
-- byte that is not ASCII, before which the literal does not occur.
pub find_only_with_high-Correct :
    (s pattern : Bytes) (p : OnlyPlan)
    → AreBytes s
    → AreBytes pattern
    → make_only pattern ≡ some p
    → Correct s pattern (find_only_with_high p s)
unfolding find_only_with_high Correct
find_only_with_high-Correct s pattern p b pb e =
    let m = make_only-Made pattern p pb e in
    let n : length p.payload ≡ length pattern = ap length m.payload in
    elim (Bool-cases (ltb (length s + 1) (length p.payload))) [
      | inl short ↦ rw short (λ j x y fits. absurd (ground arith))
      | inr fits ↦ rw fits (
          only_loop-Correct (length s + 1 - length p.payload) p s pattern
            (length s + 1 - length p.payload) 0 b m (ground arith) (omega arith) (omega arith)
            (λ j x y z. absurd (omega arith)))
    ]
