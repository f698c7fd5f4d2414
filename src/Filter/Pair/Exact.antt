-- ===== src/Filter/Pair/Exact.antt =====
-- The pair tables against the comparisons they stand for.
use casei.Base.{
  ℕ, ◌-◌, ◌<◌, ◌≤◌, ◌≡◌, ◌≢◌, refl, sym, ap, ◌∙◌, Bool, true, false, ◌||◌, some, none, Option, List,
  [], ◌∷◌, arith, bit_xor, leb, ltb, ◌==◌, if◌then◌else◌, length, any, All, take, flag, fold_case,
  fold_case_lem, flip_lem, Bool-cases, inl, inr, IsByte, All-get_elem?, All-intro, any_intro,
  any→Found, any_congr, ◌⊎◌,
}
use casei.Ascii.{is_ascii_letter}
use casei.Filter.Pair.{
  RootPair, RootFilter, RawPair, raw_eq, PairShuftiFilter, no_group, fill_groups, collect_raw,
  spellings, make_groups, make_pair_shufti_filter, pair_shufti_at, pair_at,
}
use casei.Filter.Pair.Raw.{spelled, folded, mem, collect_pure-Adds, collect_mixed-Adds}
use casei.Filter.Pair.Tables.{IsRaw, groups-eq-has}

abbrev IsFoldable : ℕ → Bool → Type 0
IsFoldable v marked = marked ≡ true → (97 ≤ v) × (v ≤ 122)

-- Bytes, of which only lower-case letters are marked for folding.
pub record IsPair (p : RootPair) : Type 0 where
  pub first_byte : IsByte p.first
  pub second_byte : IsByte p.second
  pub first_letter : IsFoldable p.first (flag p.fold 1)
  pub second_letter : IsFoldable p.second (flag p.fold 2)

mem-spellings :
    (v x : ℕ) (marked : Bool)
    → v < 256
    → x < 256
    → IsFoldable v marked
    → mem x (spellings v marked) ≡ ((if marked then fold_case x else x) == v)
unfolding is_ascii_letter
mem-spellings v x false hv hx h = ground arith
mem-spellings v x true hv hx h =
    let (lo, hi) = h refl in
    let flipped : bit_xor v 0x20 ≡ v - 32 = ground (arith, flip_lem v hv) in
    rw (flipped, fold_case_lem x hx) (ground arith)

spelled-eq-pair_at :
    (a b : ℕ) → IsByte a → IsByte b → (p : RootPair) → IsPair p → spelled a b p ≡ pair_at a b p
unfolding pair_at
spelled-eq-pair_at a b ha hb p h =
    rw
      (
        mem-spellings p.first a (flag p.fold 1) h.first_byte ha h.first_letter,
        mem-spellings p.second b (flag p.fold 2) h.second_byte hb h.second_letter,
      )
      refl

fold_case-lt : (x : ℕ) → x < 256 → fold_case x < 256
fold_case-lt x h = omega (arith, fold_case_lem x h)

fold_case_again : (x : ℕ) → x < 256 → fold_case (fold_case x) ≡ fold_case x
fold_case_again x h =
    omega (arith, fold_case_lem x h, fold_case_lem (fold_case x) (fold_case-lt x h))

spellings-byte :
    (v x : ℕ) (marked : Bool)
    → v < 256
    → IsFoldable v marked
    → mem x (spellings v marked) ≡ true
    → x < 256
unfolding is_ascii_letter
spellings-byte v x false hv h m = ground arith
spellings-byte v x true hv h m = ground (arith, flip_lem v hv, h refl)

raw_eq_self : (p : RawPair) → raw_eq p.0 p.1 p ≡ true
raw_eq_self p = ground arith

pure-IsRaw :
    (pairs : List RootPair) (raw : List RawPair)
    → All IsPair pairs
    → collect_raw false [] pairs ≡ some raw
    → All IsRaw raw
pure-IsRaw pairs raw marked e = All-intro IsRaw raw λ i p found.
    let here = any_intro (raw_eq p.0 p.1) raw i p found (raw_eq_self p) in
    let all = (collect_pure-Adds pairs [] raw e).0 p.0 p.1 in
    let f = any→Found (spelled p.0 p.1) pairs (ground arith) in
    let ok = All-get_elem? IsPair pairs f.pos marked f.found in
    (
      spellings-byte f.entry.first p.0 (flag f.entry.fold 1) ok.first_byte ok.first_letter
          (ground (arith, f.passes)),
      spellings-byte f.entry.second p.1 (flag f.entry.fold 2) ok.second_byte ok.second_letter
          (ground (arith, f.passes)),
    )

mixed-IsRaw :
    (pairs : List RootPair) (raw : List RawPair)
    → All IsPair pairs
    → collect_raw true [] pairs ≡ some raw
    → All IsRaw raw
mixed-IsRaw pairs raw marked e = All-intro IsRaw raw λ i p found.
    let here = any_intro (raw_eq p.0 p.1) raw i p found (raw_eq_self p) in
    let all = (collect_mixed-Adds pairs [] raw e).0 p.0 p.1 in
    let f = any→Found (folded p.0 p.1) pairs (ground arith) in
    let ok = All-get_elem? IsPair pairs f.pos marked f.found in
    ground (
      arith,
      f.passes,
      fold_case-lt f.entry.first ok.first_byte,
      fold_case-lt f.entry.second ok.second_byte,
    )

-- The two shapes of a filter that `makePairShuftiFilter` accepts.
record Pure (f : RootFilter) : Type 0 where
  raw : List RawPair
  no_ones : f.ones ≡ []
  collected : collect_raw false [] f.pairs ≡ some raw
  made :
      make_pair_shufti_filter f
      ≡ record { groups = fill_groups 0 (no_group ∷ no_group ∷ []) raw; ones = []; valid = 1 }

record Mixed (f : RootFilter) : Type 0 where
  raw : List RawPair
  two_ones : length f.ones ≡ 2
  collected : collect_raw true [] f.pairs ≡ some raw
  made :
      make_pair_shufti_filter f
      ≡ record { groups = fill_groups 0 (no_group ∷ no_group ∷ []) raw; ones = f.ones; valid = 1 }

take_two : (xs : List ℕ) → length xs ≡ 2 → take 2 xs ≡ xs
take_two [] h = absurd (omega arith)
take_two (x ∷ []) h = absurd (omega arith)
take_two (x ∷ y ∷ []) h = refl
take_two (x ∷ y ∷ z ∷ xs) h = absurd (omega arith)

none_of_length : (xs : List ℕ) → length xs ≡ 0 → xs ≡ []
none_of_length [] h = refl
none_of_length (x ∷ xs) h = absurd (omega arith)

abbrev shufti_of : Bool → RootFilter → List RawPair → PairShuftiFilter
shufti_of normalize f raw = record {
  groups = fill_groups 0 (no_group ∷ no_group ∷ []) raw;
  ones = if normalize then take 2 f.ones else [];
  valid = 1;
}

abbrev with_ones : List RawPair → List ℕ → PairShuftiFilter
with_ones raw ones = record {
  groups = fill_groups 0 (no_group ∷ no_group ∷ []) raw;
  ones = ones;
  valid = 1;
}

make_groups-valid :
    (normalize : Bool) (f : RootFilter) (o : Option (List RawPair))
    → (make_groups normalize f o).valid ≢ 0
    → (raw : List RawPair) × (o ≡ some raw)
      × (make_groups normalize f o ≡ shufti_of normalize f raw)
unfolding make_groups
make_groups-valid normalize f none ok = absurd (ok refl)
make_groups-valid normalize f (some raw) ok = elim (Bool-cases (leb (length raw) 8)) [
  | inl few ↦ absurd (ok (rw few))
  | inr many ↦ (raw, refl, rw many)
]

shapes : (f : RootFilter) → (make_pair_shufti_filter f).valid ≢ 0 → Pure f ⊎ Mixed f
unfolding make_pair_shufti_filter
shapes f ok =
    elim (Bool-cases (ltb (length f.pairs) 5 || ltb 2 (length f.ones) || length f.ones == 1)) [
      | inl out ↦ absurd (ok (rw out))
      | inr fits ↦ elim (Bool-cases (length f.ones == 2)) [
        | inl two ↦
            let ok' = rw (fits, two) at ok in
            let (raw, e, made) = make_groups-valid true f (collect_raw true [] f.pairs) ok' in
            let n : length f.ones ≡ 2 = ground arith in
            inr (record {
              raw = raw;
              two_ones = n;
              collected = e;
              made = rw fits (rw two (made ∙ ap (with_ones raw) (take_two f.ones n)));
            })
        | inr other ↦
            let ok' = rw (fits, other) at ok in
            let (raw, e, made) = make_groups-valid false f (collect_raw false [] f.pairs) ok' in
            inl (record {
              raw = raw;
              no_ones = none_of_length f.ones (ground arith);
              collected = e;
              made = rw fits (rw other made);
            })
      ]
    ]

-- Under a filter with no one-byte roots the tables are exactly the comparisons.
Pure-exact :
    (a b : ℕ) (f : RootFilter)
    → IsByte a
    → IsByte b
    → All IsPair f.pairs
    → Pure f
    → pair_shufti_at a b (make_pair_shufti_filter f) ≡ any (pair_at a b) f.pairs
unfolding pair_shufti_at
Pure-exact a b f ha hb marked p =
    let adds = collect_pure-Adds f.pairs [] p.raw p.collected in
    rw p.made (
      groups-eq-has a b ha hb p.raw (pure-IsRaw f.pairs p.raw marked p.collected)
        (adds.1 (omega arith))
      ∙ adds.0 a b
      ∙ any_congr (spelled a b) (pair_at a b) IsPair f.pairs (spelled-eq-pair_at a b ha hb) marked)

Mixed-exact :
    (a b : ℕ) (f : RootFilter)
    → IsByte a
    → IsByte b
    → All IsPair f.pairs
    → Mixed f
    → pair_shufti_at a b (make_pair_shufti_filter f)
      ≡ (any (λ one. a == one) f.ones || any (folded (fold_case a) (fold_case b)) f.pairs)
unfolding pair_shufti_at
Mixed-exact a b f ha hb marked p =
    let adds = collect_mixed-Adds f.pairs [] p.raw p.collected in
    let tables =
      groups-eq-has (fold_case a) (fold_case b) (fold_case-lt a ha) (fold_case-lt b hb) p.raw
        (mixed-IsRaw f.pairs p.raw marked p.collected) (adds.1 (omega arith))
      ∙ adds.0 (fold_case a) (fold_case b) in
    rw (p.made, p.two_ones, tables)
      (elim (Bool-cases (any (λ one. a == one) f.ones)) [ inl hit ↦ rw hit | inr miss ↦ rw miss ])

folded_of_pair_at :
    (a b : ℕ)
    → IsByte a
    → IsByte b
    → (p : RootPair) → IsPair p
    → pair_at a b p ≡ true
    → folded (fold_case a) (fold_case b) p ≡ true
unfolding pair_at
folded_of_pair_at a b ha hb p h e = ground (arith, fold_case_again a ha, fold_case_again b hb)

covered :
    (a b : ℕ) (f : RootFilter)
    → IsByte a
    → IsByte b
    → All IsPair f.pairs
    → any (pair_at a b) f.pairs ≡ true
    → any (folded (fold_case a) (fold_case b)) f.pairs ≡ true
covered a b f ha hb marked h =
    let found = any→Found (pair_at a b) f.pairs h in
    any_intro (folded (fold_case a) (fold_case b)) f.pairs found.pos found.entry found.found (
      folded_of_pair_at a b ha hb found.entry
        (All-get_elem? IsPair f.pairs found.pos marked found.found) found.passes)

-- The tables admit every pair of bytes at which the root filter would stop.
pub pair_shufti_at-covers :
    (a b : ℕ) (f : RootFilter)
    → IsByte a
    → IsByte b
    → All IsPair f.pairs
    → (make_pair_shufti_filter f).valid ≢ 0
    → (any (λ one. a == one) f.ones || any (pair_at a b) f.pairs) ≡ true
    → pair_shufti_at a b (make_pair_shufti_filter f) ≡ true
pair_shufti_at-covers a b f ha hb marked ok h = elim (shapes f ok) [
  | inl p ↦ Pure-exact a b f ha hb marked p ∙ rw p.no_ones at h
  | inr m ↦ Mixed-exact a b f ha hb marked m ∙ ground (arith, covered a b f ha hb marked)
]

-- For a root filter with no one-byte root, in which only lower-case letters are marked for
-- folding and for which a table is made, the nibble tables accept two bytes exactly if one of
-- the pairs of the filter does.
pub pair_shufti_at-eq-any :
    (a b : ℕ) (f : RootFilter)
    → IsByte a
    → IsByte b
    → All IsPair f.pairs
    → f.ones ≡ []
    → (make_pair_shufti_filter f).valid ≢ 0
    → pair_shufti_at a b (make_pair_shufti_filter f) ≡ any (pair_at a b) f.pairs
pair_shufti_at-eq-any a b f ha hb marked empty ok = elim (shapes f ok) [
  | inl p ↦ Pure-exact a b f ha hb marked p
  | inr m ↦ absurd (ground (arith, m.two_ones))
]

-- The one-byte roots are those of the root filter.
pub shufti-ones :
    (f : RootFilter)
    → (make_pair_shufti_filter f).valid ≢ 0
    → (make_pair_shufti_filter f).ones ≡ f.ones
shufti-ones f ok = elim (shapes f ok) [ inl p ↦ rw p.made (sym p.no_ones) | inr m ↦ rw m.made refl ]
