-- ===== src/Ascii/Anchor/First.antt =====
-- plan.go: the results of the searches for an ASCII literal by its anchors.
use casei.Base.{
  ◌∙◌, IsFirst, ℕ, Bool, ◌&&◌, ◌==◌, leb, zero, suc, ◌+◌, ◌/◌, ◌-◌, true, false, Option, some, none,
  arith, length, Bytes, byte_at, ◌≡◌, ◌<◌, ◌≤◌, ltb, refl, inl, inr, Bool-cases, scan, AreBytes,
  bit_or, bit_or-zero_right, byte_at-IsByte, scan-IsFirst,
}
use mathlib.Core.Path.{subst}
use casei.Ascii.{is_ascii_letter, AreAscii}
use casei.Ascii.Words.Range.{ascii_pattern_at-eq-literal_at}
use casei.Ascii.Words.{fold_mask, folded, letter_at, literal_at, make_words, make_short_literal}
use casei.Ascii.Words.Exact.{short_literal_at-eq-ascii_pattern_at}
use casei.Ascii.Only.{OnlyPlan}
use casei.Ascii.Only.First.{NoneBetween, letter_at_of_pattern, probe_byte_of_letter, flags}
use casei.Ascii.Anchor.{
  ByteAnchor, AnchorPlan, ascii_pair_usable, probe_over, pair_over, make_fixed_anchor,
}
use casei.Ascii.Anchor.Find.{anchor_matches_at, byte_anchor_loop, pair_anchor_loop, anchor_loop}
use casei.Filter.Skip.{
  ascii_probe_at, probe_skip, ascii_pair_at, ascii_pair_skip, literal_skip_ascii, under,
}

-- The first start at which the literal occurs, letters folded; none where it occurs nowhere.
unfoldable pub First : Bytes → Bytes → Option ℕ → Type 0
First s pattern none = NoneBetween s pattern 0 (length s)
First s pattern (some at) =
    (at + length pattern ≤ length s) × (literal_at s at pattern ≡ true) × NoneBetween s pattern 0 at

-- Where the literal occurs, its probe passes.
pub probe_over_passes :
    (s : Bytes) (at i j k : ℕ) (pattern : Bytes)
    → i < length pattern
    → j < length pattern
    → k < length pattern
    → literal_at s at pattern ≡ true
    → ascii_probe_at s at (probe_over pattern i j k) ≡ true
unfolding ascii_probe_at probe_over
probe_over_passes s at i j k pattern li lj lk e =
    let (a, b, c) = flags (byte_at pattern i) (byte_at pattern j) (byte_at pattern k) in
    let pass = λ (n : ℕ) (l : n < length pattern).
      probe_byte_of_letter s (at + n) (byte_at pattern n)
        (letter_at_of_pattern s at n pattern l e) in
    rw (a, b, c, pass i li, pass j lj, pass k lk) refl

-- The plan of a literal that is ASCII throughout, no member of an orbit outside.
pub record Whole (pattern : Bytes) (p : AnchorPlan) : Type 0 where
  pub three : 3 ≤ length pattern
  pub bytes : AreBytes pattern
  pub ascii : AreAscii pattern
  pub needle : p.needle ≡ pattern
  pub verify : p.verify_tokens ≡ false
  pub short : p.short ≡ make_short_literal pattern
  pub probe : p.probe ≡ probe_over pattern 0 (length pattern / 2) (length pattern - 1)
  pub words : leb 8 (length pattern) ≡ true → p.words ≡ make_words pattern
  pub pair : ascii_pair_usable p.pair ≡ true → (p.pair ≡ pair_over pattern) × (9 ≤ length pattern)

pub make_fixed_anchor-Whole :
    (only : Option OnlyPlan) (pattern : Bytes)
    → 3 ≤ length pattern
    → AreBytes pattern
    → AreAscii pattern
    → Whole pattern (make_fixed_anchor only pattern (length pattern))
unfolding make_fixed_anchor ascii_pair_usable
make_fixed_anchor-Whole only pattern three bytes ascii =
    let whole : (length pattern == length pattern) ≡ true = ground arith in
    record {
      three = three;
      bytes = bytes;
      ascii = ascii;
      needle = refl;
      verify = rw whole refl;
      short = rw whole refl;
      probe = refl;
      words = λ long. rw (whole, long) refl;
      pair = λ usable. elim (Bool-cases (leb 9 (length pattern) && leb (length pattern) 15)) [
        | inl paired ↦
            let nine : leb 9 (length pattern) ≡ true = ground arith in
            let fifteen : leb (length pattern) 15 ≡ true = ground arith in
            rw (whole, nine, fifteen) (refl, ground arith)
        | inr single ↦ elim (Bool-cases (leb 9 (length pattern))) [
          | inr short ↦ absurd (let u = rw (whole, short) at usable in cc)
          | inl long ↦
              let longer : leb (length pattern) 15 ≡ false = ground arith in
              absurd (let u = rw (whole, long, longer) at usable in cc)
        ]
      ];
    }

pub Whole-matches :
    (p : AnchorPlan) (tokens_at : ℕ → Bool) (s pattern : Bytes) (at : ℕ)
    → Whole pattern p
    → AreBytes s
    → at + length pattern ≤ length s
    → anchor_matches_at p tokens_at s at ≡ literal_at s at pattern
unfolding anchor_matches_at make_short_literal
Whole-matches p tokens_at s pattern at w b fits = elim (Bool-cases (length pattern == 4)) [
  | inl four ↦
      let e =
        short_literal_at-eq-ascii_pattern_at s at pattern b w.ascii (ground arith)
        ∙ ascii_pattern_at-eq-literal_at s at pattern w.ascii in
      let room : leb (at + 4) (length s) ≡ true = ground arith in
      let valid : (p.short.valid == 0) ≡ false = rw (w.short, four) refl in
      rw (w.verify, valid, room, w.short) e
  | inr other ↦
      let room : leb (at + length pattern) (length s) ≡ true = ground arith in
      let valid : (p.short.valid == 0) ≡ true = rw (w.short, other) refl in
      rw (w.verify, valid, w.needle, room) (ascii_pattern_at-eq-literal_at s at pattern w.ascii)
]

-- A literal that does not fit is not confirmed.
short_unmatched :
    (p : AnchorPlan) (tokens_at : ℕ → Bool) (s pattern : Bytes) (at : ℕ)
    → Whole pattern p
    → length s < at + length pattern
    → anchor_matches_at p tokens_at s at ≡ false
unfolding anchor_matches_at make_short_literal
short_unmatched p tokens_at s pattern at w short = elim (Bool-cases (length pattern == 4)) [
  | inl four ↦
      let room : leb (at + 4) (length s) ≡ false = ground arith in
      let valid : (p.short.valid == 0) ≡ false = rw (w.short, four) refl in
      rw (w.verify, valid, room) refl
  | inr other ↦
      let room : leb (at + length pattern) (length s) ≡ false = ground arith in
      let valid : (p.short.valid == 0) ≡ true = rw (w.short, other) refl in
      rw (w.verify, valid, w.needle, room) refl
]

-- Behind a candidate that is not confirmed, and before the next one, the literal does not occur.
pub passed_over :
    (s pattern : Bytes) (at stop hi : ℕ) (test : ℕ → Bool)
    → ((j : ℕ) → literal_at s j pattern ≡ true → test j ≡ true)
    → IsFirst test at hi stop
    → NoneBetween s pattern 0 at
    → NoneBetween s pattern 0 stop
passed_over s pattern at stop hi test needed f before = λ j x y fits. elim (Bool-cases (ltb j at)) [
  | inl earlier ↦ before j x (ground arith) fits
  | inr later ↦ elim (Bool-cases (literal_at s j pattern)) [
    | inl occurs ↦
        let passes = needed j occurs in let passed = f.passed j (ground arith) y in absurd (cc)
    | inr not_here ↦ not_here
  ]
]

pub one_more :
    (s pattern : Bytes) (stop : ℕ)
    → NoneBetween s pattern 0 stop
    → (stop + length pattern ≤ length s → literal_at s stop pattern ≡ false)
    → NoneBetween s pattern 0 (suc stop)
one_more s pattern stop before here = λ j x y fits. elim (Bool-cases (j == stop)) [
  | inl last ↦
      let q : stop ≡ j = ground arith in
      subst (λ k. literal_at s k pattern ≡ false) q (here (omega arith))
  | inr earlier ↦ before j x (ground arith) fits
]

-- Where the starts are used up, the literal occurs nowhere.
at_end :
    (s pattern : Bytes) (limit at : ℕ)
    → 3 ≤ length pattern
    → limit ≡ length s + 1 - length pattern
    → limit ≤ at
    → NoneBetween s pattern 0 at
    → First s pattern none
unfolding First
at_end s pattern limit at three l past before = λ j x y fits. before j x (omega arith) fits

pub anchor_loop-First :
    (rounds : ℕ) (p : AnchorPlan) (tokens_at : ℕ → Bool) (s pattern : Bytes) (limit at : ℕ)
    → Whole pattern p
    → AreBytes s
    → limit ≡ length s + 1 - length pattern
    → limit ≤ at + rounds
    → NoneBetween s pattern 0 at
    → First s pattern (anchor_loop p tokens_at s limit rounds at)
unfolding anchor_loop probe_skip First probe_over
anchor_loop-First zero p tokens_at s pattern limit at w b l fuel before =
    at_end s pattern limit at w.three l (omega arith) before
anchor_loop-First (suc rounds) p tokens_at s pattern limit at w b l fuel before =
    elim (Bool-cases (leb limit at)) [
      | inl past ↦ rw past (at_end s pattern limit at w.three l (ground arith) before)
      | inr inside ↦
          let three = w.three in
          let test = λ (k : ℕ). ascii_probe_at s k p.probe in
          let f = scan-IsFirst (limit - at) test at limit (ground arith) in
          let stop = scan (limit - at) test at in
          let lo = f.above in
          let hi = f.below in
          let e : at + (stop - at) ≡ stop = omega arith in
          let first_zero : (p.probe.first_at == 0) ≡ true = rw w.probe refl in
          let none_skipped =
            passed_over s pattern at stop limit test
              (λ j occurs. rw w.probe (
                probe_over_passes s j 0 (length pattern / 2) (length pattern - 1) pattern
                  (omega arith) (omega arith) (omega arith) occurs))
              f before in
          rw (inside, e)
            (elim (Bool-cases (stop == limit)) [
              | inl ended ↦
                  rw ended (at_end s pattern limit stop w.three l (ground arith) none_skipped)
              | inr candidate ↦
                  let fits : stop + length pattern ≤ length s = ground arith in
                  rw (candidate, first_zero, Whole-matches p tokens_at s pattern stop w b fits)
                    (elim (Bool-cases (literal_at s stop pattern)) [
                      | inl found ↦ rw found (fits, found, none_skipped)
                      | inr rejected ↦
                          rw (rejected, e)
                            (anchor_loop-First rounds p tokens_at s pattern limit (suc stop) w b l
                              (omega arith) (one_more s pattern stop none_skipped (λ z. rejected)))
                    ])
            ])
    ]

letter_pair :
    (got want : ℕ)
    → got < 256
    → letter_at got want ≡ true
    → (bit_or got (fold_mask want) == folded want) ≡ true
unfolding letter_at
letter_pair got want b h = elim (Bool-cases (is_ascii_letter want)) [
  | inl letter ↦ rw letter (rw letter at h)
  | inr other ↦ rw (other, bit_or-zero_right 8 got b) (rw other at h)
]

-- Where the literal occurs, its pair passes.
pair_over_passes :
    (s pattern : Bytes) (at : ℕ)
    → AreBytes s
    → 9 ≤ length pattern
    → literal_at s at pattern ≡ true
    → ascii_pair_at s at (pair_over pattern) ≡ true
unfolding ascii_pair_at pair_over
pair_over_passes s pattern at b nine e =
    let z : at + 0 ≡ at = omega arith in
    let first = letter_at_of_pattern s at 0 pattern (omega arith) e in
    let first' = rw z at first in
    rw
      (
        letter_pair (byte_at s at) (byte_at pattern 0) (byte_at-IsByte s at b) first',
        letter_pair (byte_at s (at + 8)) (byte_at pattern 8) (byte_at-IsByte s (at + 8) b)
            (letter_at_of_pattern s at 8 pattern (omega arith) e),
      )
      refl

pub pair_anchor_loop-First :
    (rounds : ℕ) (p : AnchorPlan) (s pattern : Bytes) (limit at : ℕ)
    → Whole pattern p
    → AreBytes s
    → ascii_pair_usable p.pair ≡ true
    → limit ≡ length s + 1 - length pattern
    → limit ≤ at + rounds
    → NoneBetween s pattern 0 at
    → First s pattern (pair_anchor_loop p s limit rounds at)
unfolding pair_anchor_loop ascii_pair_skip First
pair_anchor_loop-First zero p s pattern limit at w b usable l fuel before =
    at_end s pattern limit at w.three l (omega arith) before
pair_anchor_loop-First (suc rounds) p s pattern limit at w b usable l fuel before =
    elim (Bool-cases (leb limit at)) [
      | inl past ↦ rw past (at_end s pattern limit at w.three l (ground arith) before)
      | inr inside ↦
          let three = w.three in
          let (pair, nine) = w.pair usable in
          let test = λ (k : ℕ). ascii_pair_at s k p.pair in
          let f = scan-IsFirst (limit - at) test at limit (ground arith) in
          let stop = scan (limit - at) test at in
          let lo = f.above in
          let hi = f.below in
          let e : at + (stop - at) ≡ stop = omega arith in
          let none_skipped =
            passed_over s pattern at stop limit test
              (λ j occurs. rw pair (pair_over_passes s pattern j b nine occurs)) f before in
          rw (inside, e)
            (elim (Bool-cases (stop == limit)) [
              | inl ended ↦
                  rw ended (at_end s pattern limit stop w.three l (ground arith) none_skipped)
              | inr candidate ↦
                  let fits : stop + length pattern ≤ length s = ground arith in
                  rw (candidate, w.needle, ascii_pattern_at-eq-literal_at s stop pattern w.ascii)
                    (elim (Bool-cases (literal_at s stop pattern)) [
                      | inl found ↦ rw found (fits, found, none_skipped)
                      | inr rejected ↦ rw rejected (
                          pair_anchor_loop-First rounds p s pattern limit (suc stop) w b usable l
                            (omega arith) (one_more s pattern stop none_skipped (λ z. rejected)))
                    ])
            ])
    ]

-- The byte that is looked for is one that every occurrence has at the offset.
pub record AnchorOf (pattern : Bytes) (a : ByteAnchor) : Type 0 where
  pub inside : a.at < length pattern
  pub needed :
      (c : ℕ) → letter_at c (byte_at pattern a.at) ≡ true → (under a.kind c == a.byte) ≡ true

abbrev Earlier : Bytes → Bytes → ℕ → ℕ → Type 0
Earlier s pattern offset at =
    (j : ℕ) → j + offset < at → j + length pattern ≤ length s → literal_at s j pattern ≡ false

pub probe_needed :
    (p : AnchorPlan) (s pattern : Bytes) (at : ℕ)
    → Whole pattern p
    → literal_at s at pattern ≡ true
    → ascii_probe_at s at p.probe ≡ true
probe_needed p s pattern at w occurs =
    let three = w.three in
    rw w.probe (
      probe_over_passes s at 0 (length pattern / 2) (length pattern - 1) pattern (omega arith)
        (omega arith) (omega arith) occurs)

pub byte_anchor_loop-First :
    (rounds : ℕ) (p : AnchorPlan) (tokens_at : ℕ → Bool) (a : ByteAnchor) (s pattern : Bytes)
    (at : ℕ)
    → Whole pattern p
    → AnchorOf pattern a
    → AreBytes s
    → length s ≤ at + rounds
    → Earlier s pattern a.at at
    → First s pattern (byte_anchor_loop p tokens_at a s rounds at)
unfolding byte_anchor_loop literal_skip_ascii First
byte_anchor_loop-First zero p tokens_at a s pattern at w anchor b fuel before =
    let inside = anchor.inside in λ j x y fits. before j (omega arith) fits
byte_anchor_loop-First (suc rounds) p tokens_at a s pattern at w anchor b fuel before =
    let inside = anchor.inside in
    elim (Bool-cases (leb (length s) at)) [
      | inl past ↦ rw past (λ j x y fits. before j (ground arith) fits)
      | inr going ↦
          let test = λ (k : ℕ). under a.kind (byte_at s k) == a.byte in
          let f = scan-IsFirst (length s - at) test at (length s) (ground arith) in
          let stop = scan (length s - at) test at in
          let lo = f.above in
          let hi = f.below in
          let e : at + (stop - at) ≡ stop = omega arith in
          let skipped : Earlier s pattern a.at stop = λ j x fits.
            elim (Bool-cases (ltb (j + a.at) at)) [
              | inl earlier ↦ before j (ground arith) fits
              | inr later ↦ elim (Bool-cases (literal_at s j pattern)) [
                | inr not_here ↦ not_here
                | inl occurs ↦
                    let passes =
                      anchor.needed (byte_at s (j + a.at))
                        (letter_at_of_pattern s j a.at pattern inside occurs) in
                    let passed = f.passed (j + a.at) (ground arith) x in absurd (cc)
              ]
            ] in
          let next =
            λ (here : (j : ℕ)
                → j + a.at ≡ stop
                → j + length pattern ≤ length s
                → literal_at s j pattern ≡ false).
              byte_anchor_loop-First rounds p tokens_at a s pattern (suc stop) w anchor b
                (omega arith)
                (λ j x fits. elim (Bool-cases (j + a.at == stop)) [
                  | inl last ↦ here j (ground arith) fits
                  | inr earlier ↦ skipped j (ground arith) fits
                ]) in
          let from = stop - a.at in
          rw (going, e)
            (elim (Bool-cases (stop == length s)) [
              | inl ended ↦
                  rw ended (λ j x y fits. let three = w.three in skipped j (ground arith) fits)
              | inr candidate ↦ elim (Bool-cases (ltb stop a.at)) [
                | inl early ↦ rw (candidate, early) (next (λ j q fits. absurd (ground arith)))
                | inr late ↦ elim (Bool-cases (leb (from + length pattern) (length s))) [
                  | inr short ↦
                      rw
                        (
                          candidate,
                          late,
                          short_unmatched p tokens_at s pattern from w (ground arith),
                          w.verify,
                          w.needle,
                          short,
                        )
                        (next (λ j q fits. absurd (ground arith)))
                  | inl fit ↦
                      let fits : from + length pattern ≤ length s = ground arith in
                      let same =
                        λ (j : ℕ) (q : j + a.at ≡ stop). (let r : from ≡ j = omega arith in r) in
                      elim (Bool-cases (ascii_probe_at s from p.probe)) [
                        | inr screened ↦
                            rw (candidate, late, w.verify, w.needle, fit, screened)
                              (next (λ j q z.
                                subst (λ k. literal_at s k pattern ≡ false) (same j q)
                                  (elim (Bool-cases (literal_at s from pattern)) [
                                    | inl occurs ↦
                                        let passes = probe_needed p s pattern from w occurs in
                                        absurd (cc)
                                    | inr not_here ↦ not_here
                                  ])))
                        | inl passes ↦
                            rw
                              (
                                candidate,
                                late,
                                Whole-matches p tokens_at s pattern from w b fits,
                                w.verify,
                                w.needle,
                                fit,
                                passes,
                              )
                              (elim (Bool-cases (literal_at s from pattern)) [
                                | inl found ↦
                                    rw found (fits, found, λ j x y z. skipped j (ground arith) z)
                                | inr rejected ↦ rw rejected (
                                    next (λ j q z.
                                      subst (λ k. literal_at s k pattern ≡ false) (same j q)
                                        rejected))
                              ])
                      ]
                ]
              ]
            ])
    ]
