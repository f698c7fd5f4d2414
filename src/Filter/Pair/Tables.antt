-- ===== src/Filter/Pair/Tables.antt =====
-- plan.go: the two groups of nibble tables of a pair filter.
use casei.Base.{
  ℕ, suc, ◌/◌, ◌%◌, ◌<◌, ◌≤◌, ◌≡◌, refl, ap, ◌∙◌, Bool, true, ◌&&◌, ◌||◌, not, some, List, [], ◌∷◌,
  arith, ◌==◌, if◌then◌else◌, length, get_elem?, get_or, set, any, All, slot_bit, has_bit,
  has_bit-slot_bit, length-set, get_or-set_of_lt, any_two, Bool-ext, Bool-cases, inl, inr, IsByte,
  All-get_elem?, any_intro, any→Found, lt_of_get_elem?, ◌⊎◌,
}
use casei.Filter.Slots.{add, add_all}
use casei.Filter.Slots.Fill.{
  fill, AllBytes, byte_hit, both_masks, both_masks→Hit, Hit→both_masks, one_hit,
}
use casei.Filter.Pair.{RawPair, raw_eq, PairShuftiGroup, no_group, fill_groups, group_at}

abbrev guard : ℕ → ℕ → Bool
guard g i = i / 8 == g

abbrev bit : ℕ → ℕ
bit i = slot_bit (i % 8)

abbrev left : RawPair → List ℕ
left p = p.0 ∷ []

abbrev right : RawPair → List ℕ
right p = p.1 ∷ []

-- What one round of the loop stores in the group of entry `i`.
abbrev grown : List PairShuftiGroup → ℕ → RawPair → PairShuftiGroup
grown groups i p =
    let group = get_or groups (i / 8) no_group in
    record { first = add group.first p.0 (bit i); second = add group.second p.1 (bit i) }

length-fill_groups :
    (i : ℕ) (groups : List PairShuftiGroup) (raw : List RawPair)
    → length (fill_groups i groups raw) ≡ length groups
unfolding fill_groups
length-fill_groups i groups [] = refl
length-fill_groups i groups (p ∷ raw) =
    length-fill_groups (suc i) (set groups (i / 8) (grown groups i p)) raw
    ∙ length-set groups (i / 8) (grown groups i p)

round_stores :
    (g i : ℕ) (groups : List PairShuftiGroup) (p : RawPair)
    → g < length groups
    → get_or (set groups (i / 8) (grown groups i p)) g no_group ≡ (
        if guard g i
        then record {
          first = add (get_or groups g no_group).first p.0 (bit i);
          second = add (get_or groups g no_group).second p.1 (bit i);
        }
        else get_or groups g no_group)
round_stores g i groups p h = elim (Bool-cases (i / 8 == g)) [
  | inl on ↦
      let same : i / 8 ≡ g = ground arith in
      rw (get_or-set_of_lt groups (i / 8) g (grown groups i p) no_group h, on, same) refl
  | inr off ↦ rw (get_or-set_of_lt groups (i / 8) g (grown groups i p) no_group h, off) refl
]

round_first :
    (g i : ℕ) (groups : List PairShuftiGroup) (p : RawPair)
    → g < length groups
    → (get_or (set groups (i / 8) (grown groups i p)) g no_group).first ≡ (
        if guard g i
        then add (get_or groups g no_group).first p.0 (bit i)
        else (get_or groups g no_group).first)
round_first g i groups p h = ground (arith, round_stores g i groups p h)

round_second :
    (g i : ℕ) (groups : List PairShuftiGroup) (p : RawPair)
    → g < length groups
    → (get_or (set groups (i / 8) (grown groups i p)) g no_group).second ≡ (
        if guard g i
        then add (get_or groups g no_group).second p.1 (bit i)
        else (get_or groups g no_group).second)
round_second g i groups p h = ground (arith, round_stores g i groups p h)

fill_groups-eq-fill :
    (g i : ℕ) (groups : List PairShuftiGroup) (raw : List RawPair)
    → g < length groups
    → ((get_or (fill_groups i groups raw) g no_group).first
        ≡ fill (guard g) bit left i (get_or groups g no_group).first raw)
      × ((get_or (fill_groups i groups raw) g no_group).second
          ≡ fill (guard g) bit right i (get_or groups g no_group).second raw)
unfolding fill_groups fill add_all
fill_groups-eq-fill g i groups [] h = (refl, refl)
fill_groups-eq-fill g i groups (p ∷ raw) h =
    let groups' = set groups (i / 8) (grown groups i p) in
    let rest = fill_groups-eq-fill g (suc i) groups' raw (rw length-set h) in
    (
      rest.0 ∙ ap (λ t. fill (guard g) bit left (suc i) t raw) (round_first g i groups p h),
      rest.1 ∙ ap (λ t. fill (guard g) bit right (suc i) t raw) (round_second g i groups p h),
    )

abbrev pub IsRaw : RawPair → Type 0
IsRaw p = IsByte p.0 × IsByte p.1

AllBytes_left : (g : ℕ) (raw : List RawPair) → All IsRaw raw → AllBytes (guard g) bit left raw
AllBytes_left g [] h = tt
AllBytes_left g (p ∷ raw) h = ((h.0.0, tt), AllBytes_left g raw h.1)

AllBytes_right : (g : ℕ) (raw : List RawPair) → All IsRaw raw → AllBytes (guard g) bit right raw
AllBytes_right g [] h = tt
AllBytes_right g (p ∷ raw) h = ((h.0.1, tt), AllBytes_right g raw h.1)

single :
    (g k i j : ℕ)
    → (guard g i && has_bit k (bit i)) ≡ true
    → (guard g j && has_bit k (bit j)) ≡ true
    → i ≡ j
single g k i j p q = ground (arith, has_bit-slot_bit k (i % 8), has_bit-slot_bit k (j % 8))

module _ (a b : ℕ) (ha : IsByte a) (hb : IsByte b) (raw : List RawPair)
    (bytes : All IsRaw raw) where
  abbrev pub groups_of : List PairShuftiGroup
  groups_of = fill_groups 0 (no_group ∷ no_group ∷ []) raw

  group-masks :
      (g : ℕ)
      → g < 2
      → get_or (no_group ∷ no_group ∷ []) g no_group ≡ no_group
      → group_at a b (get_or groups_of g no_group)
        ≡ not (
            both_masks
              (guard g)
              bit
              left
              right
              (single g)
              raw
              (AllBytes_left g raw bytes)
              (AllBytes_right g raw bytes)
              a
              b
            == 0)
  group-masks g h e =
      let (one, two) = fill_groups-eq-fill g 0 (no_group ∷ no_group ∷ []) raw h in
      rw (one, two, e) refl

  hit_left : (p : RawPair) → IsRaw p → byte_hit (guard 0) bit left a p ≡ (a == p.0)
  hit_left p h = one_hit p.0 a h.0 ha

  hit_right : (p : RawPair) → IsRaw p → byte_hit (guard 0) bit right b p ≡ (b == p.1)
  hit_right p h = one_hit p.1 b h.1 hb

  group→has :
      (g : ℕ)
      → group_at a b (get_or groups_of g no_group) ≡ true
      → g < 2
      → get_or (no_group ∷ no_group ∷ []) g no_group ≡ no_group
      → any (raw_eq a b) raw ≡ true
  group→has g on h e =
      let (k, hit) =
        both_masks→Hit (guard g) bit left right (single g) raw (AllBytes_left g raw bytes)
          (AllBytes_right g raw bytes) a b (ground (arith, group-masks g h e)) in
      let raw_byte = All-get_elem? IsRaw raw hit.pos bytes hit.found in
      any_intro (raw_eq a b) raw hit.pos hit.entry hit.found
        (ground (arith, hit.passes, hit_left hit.entry raw_byte, hit_right hit.entry raw_byte))

  has→group :
      (g n : ℕ) (p : RawPair)
      → get_elem? raw n ≡ some p
      → raw_eq a b p ≡ true
      → n / 8 ≡ g
      → g < 2
      → get_or (no_group ∷ no_group ∷ []) g no_group ≡ no_group
      → group_at a b (get_or groups_of g no_group) ≡ true
  has→group g n p found eq at h e =
      let raw_byte = All-get_elem? IsRaw raw n bytes found in
      let ne =
        Hit→both_masks (guard g) bit left right (single g) raw (AllBytes_left g raw bytes)
          (AllBytes_right g raw bytes) a b (n % 8) n p found
          (ground (arith, has_bit-slot_bit (n % 8) (n % 8))) (ground (arith, hit_left p raw_byte))
          (ground (arith, hit_right p raw_byte)) in
      ground (arith, group-masks g h e, ne)

  -- Some group accepts two bytes exactly if they are one of the raw pairs.
  pub groups-eq-has : length raw ≤ 16 → any (group_at a b) groups_of ≡ any (raw_eq a b) raw
  groups-eq-has few =
      any_two (group_at a b) groups_of no_group
        (length-fill_groups 0 (no_group ∷ no_group ∷ []) raw)
      ∙ Bool-ext _ _ sound complete
    where
      sound :
          (group_at a b (get_or groups_of 0 no_group) || group_at a b (get_or groups_of 1 no_group))
            ≡ true
          → any (raw_eq a b) raw ≡ true
      sound h = elim (Bool-cases (group_at a b (get_or groups_of 0 no_group))) [
        | inl on ↦ group→has 0 on (omega arith) refl
        | inr off ↦ group→has 1 (ground arith) (omega arith) refl
      ]

      complete :
          any (raw_eq a b) raw ≡ true
          → (group_at a b (get_or groups_of 0 no_group)
              || group_at a b (get_or groups_of 1 no_group))
            ≡ true
      complete h =
          let f = any→Found (raw_eq a b) raw h in
          let lt = lt_of_get_elem? raw f.pos f.found in
          let half : (f.pos / 8 ≡ 0) ⊎ (f.pos / 8 ≡ 1) = ground arith in
          elim half [
            | inl low ↦
                let on = has→group 0 f.pos f.entry f.found f.passes low (omega arith) refl in
                ground arith
            | inr high ↦
                let on = has→group 1 f.pos f.entry f.found f.passes high (omega arith) refl in
                ground arith
          ]
