-- ===== src/Ascii/Anchor/Choice.antt =====
-- plan.go: the bytes that `chooseASCIIByteAnchor` and `makeStaticASCIIByteAnchor` choose.
use casei.Base.{
  u8, fold_case_lem, ℕ, ◌&&◌, ◌||◌, ◌==◌, leb, zero, suc, ◌+◌, ◌*◌, ◌-◌, true, some, none, [], ◌∷◌,
  arith, length, Bytes, byte_at, ◌≡◌, ◌<◌, ◌≤◌, not, ltb, ap, take, inl, inr, Bool-cases, scan,
  AreBytes, sym, Option-cases, u8, byte_at-IsByte, fold_case_lem, scan-IsFirst,
}
use mathlib.Core.Path.{subst}
use mathlib.Core.Option.{some-injective}
use casei.Utf8.{rune_self}
use casei.Ascii.{is_ascii_letter, ascii_rarity}
use casei.Ascii.Words.{folded, letter_at}
use casei.Ascii.Anchor.{ByteAnchor, AnchorPlan, kind_of, count_folded, tally, make_static_anchor}
use casei.Ascii.Anchor.Find.{
  sample_width, sample_blocks, sampled, sample_count, Rarest, rarest, choose_byte_anchor,
}
use casei.Filter.Skip.{under}
use casei.Ascii.Anchor.First.{Whole, AnchorOf}

rarest-below :
    (prefix sample rest : Bytes) (i n at : ℕ) (best : Rarest)
    → i + length rest ≤ n
    → ((k : ℕ) → best.at ≡ some k → k < n)
    → (rarest prefix sample i rest best).at ≡ some at
    → at < n
unfolding rarest
rarest-below prefix sample [] i n at best h old e = old at e
rarest-below prefix sample (c ∷ rest) i n at best h old e =
    rarest-below prefix sample rest (suc i) n at _ (omega arith)
      (λ k.
        elim (Bool-cases
          (u8 (count_folded prefix (folded c)) == 1 && ltb (sample_count sample c) best.count)) [
            | inl better ↦ rw better (λ q. let z : i ≡ k = some-injective _ _ q in omega arith)
            | inr worse ↦ rw worse (old k)
          ])
      e

length-take_le : (n : ℕ) (xs : Bytes) → length (take n xs) ≤ length xs
length-take_le zero xs = omega arith
length-take_le (suc n) [] = omega arith
length-take_le (suc n) (x ∷ xs) = omega (arith, length-take_le n xs)

-- The anchor of a byte of the pattern.
abbrev anchor_at : Bytes → ℕ → ByteAnchor
anchor_at pattern at = record {
  at = at;
  kind = kind_of (byte_at pattern at);
  byte = folded (byte_at pattern at);
}

kind-needed : (v c : ℕ) → letter_at c v ≡ true → (under (kind_of v) c == folded v) ≡ true
unfolding letter_at
kind-needed v c h = elim (Bool-cases (is_ascii_letter v)) [
  | inl letter ↦ rw letter (rw letter at h)
  | inr other ↦ rw other (rw other at h)
]

folded-letter : (v : ℕ) → v < 256 → is_ascii_letter (folded v) ≡ is_ascii_letter v
unfolding is_ascii_letter
folded-letter v b = ground (arith, fold_case_lem v b)

pub choose_byte_anchor-AnchorOf :
    (p : AnchorPlan) (s pattern : Bytes) (a : ByteAnchor)
    → Whole pattern p
    → choose_byte_anchor p s ≡ some a
    → AnchorOf pattern a
unfolding choose_byte_anchor
choose_byte_anchor-AnchorOf p s pattern a w e =
    let prefix = take p.fixed_prefix p.needle in
    let sample = sampled (sample_blocks s) s 0 in
    let start : Rarest = record { at = none; count = sample_width * sample_blocks s + 1 } in
    let best = rarest prefix sample 0 prefix start in
    elim (Bool-cases (ltb (length s) 4096 || ltb 64 p.fixed_prefix)) [
      | inl short ↦ absurd (let e' = rw short at e in cc)
      | inr long ↦ elim (Bool-cases (best.count == 0)) [
        | inr common ↦ absurd (let e' = rw (long, common) at e in cc)
        | inl rare ↦ elim (Option-cases best.at) [
          | inl nowhere ↦ absurd (let e' = rw (long, rare, nowhere) at e in cc)
          | inr (at, found) ↦
              let e' : some (anchor_at p.needle at) ≡ some a = rw (long, rare, found) at e in
              let below =
                rarest-below prefix sample prefix 0 (length prefix) at start (omega arith)
                  (λ k q. absurd (cc)) found in
              let fits = length-take_le p.fixed_prefix p.needle in
              let size = ap length w.needle in
              subst (AnchorOf pattern) (some-injective _ _ e') (
                subst (λ needle. AnchorOf pattern (anchor_at needle at)) (sym w.needle)
                  (record { inside = omega arith; needed = kind-needed (byte_at pattern at) }))
        ]
      ]
    ]

pub make_static_anchor-AnchorOf :
    (pattern : Bytes) (n : ℕ) (a : ByteAnchor)
    → AreBytes pattern
    → make_static_anchor pattern n ≡ some a
    → AnchorOf pattern a
unfolding make_static_anchor
make_static_anchor-AnchorOf pattern n a bytes e =
    let t = tally rune_self 0 pattern (record { values = 0; singleton = 0; repeated = 0 }) in
    let test = λ (i : ℕ). folded (byte_at pattern i) == t.singleton in
    let at = scan (length pattern) test 0 in
    let f = scan-IsFirst (length pattern) test 0 (length pattern) (omega arith) in
    let below = f.below in
    let other =
      not (t.values == 2)
      || not (count_folded pattern t.singleton == 1)
      || not (count_folded pattern t.repeated == n - 1)
      || leb 2 (ascii_rarity t.singleton) in
    elim (Bool-cases (not (n == length pattern) || ltb n 16)) [
      | inl short ↦ absurd (let e' = rw short at e in cc)
      | inr long ↦ elim (Bool-cases other) [
        | inl mixed ↦ absurd (let e' = rw (long, mixed) at e in cc)
        | inr shaped ↦ elim (Bool-cases (at == length pattern)) [
          | inl nowhere ↦ absurd (let e' = rw (long, shaped, nowhere) at e in cc)
          | inr somewhere ↦
              let here : folded (byte_at pattern at) ≡ t.singleton =
                let stops = f.stops (ground arith) in ground arith in
              let single : ByteAnchor = record {
                at = at;
                kind = kind_of t.singleton;
                byte = t.singleton;
              } in
              let e' : some single ≡ some a = rw (long, shaped, somewhere) at e in
              let letter = folded-letter (byte_at pattern at) (byte_at-IsByte pattern at bytes) in
              subst (AnchorOf pattern) (some-injective _ _ e') (
                subst (λ v. AnchorOf pattern (record { at = at; kind = kind_of v; byte = v })) here
                  (record {
                    inside = ground arith;
                    needed = λ c h. rw letter (kind-needed (byte_at pattern at) c h);
                  }))
        ]
      ]
    ]
