-- ===== src/Ascii/Pairs/Choice.antt =====
-- plan.go: which pair `chooseASCIIPairAnchor` chooses.
use casei.Base.{
  ℕ, zero, suc, ◌+◌, ◌-◌, ◌<◌, ◌≤◌, some, [], ◌∷◌, arith, ◌==◌, if◌then◌else◌, length, Bytes, ◌≡◌,
  refl, Bool-cases, inl, inr, ◌⊎◌,
}
use casei.Ascii.Pairs.{
  BestPair, beats, here, choose_loop, choose_pair_anchor, pair_score, interior_of,
}

-- The pair at `at` is as good as the one at `j`.
abbrev pub AsGood : Bytes → ℕ → ℕ → Type 0
AsGood spelling at j =
    (pair_score spelling at < pair_score spelling j)
    ⊎ ((pair_score spelling at ≡ pair_score spelling j)
        × (interior_of spelling j ≤ interior_of spelling at))

-- The state of the loop after the offsets below `bound`.
record BestBelow (spelling : Bytes) (bound : ℕ) (best : BestPair) : Type 0 where
  below : best.at < bound
  score : best.score ≡ pair_score spelling best.at
  interior : best.interior ≡ interior_of spelling best.at
  good : (j : ℕ) → j < bound → AsGood spelling best.at j

AsGood-refl : (spelling : Bytes) (at : ℕ) → AsGood spelling at at
AsGood-refl spelling at = inr (refl, omega arith)

AsGood-trans :
    (spelling : Bytes) (i j k : ℕ) → AsGood spelling i j → AsGood spelling j k → AsGood spelling i k
AsGood-trans spelling i j k a b = ground arith

step_below :
    (spelling : Bytes) (at : ℕ) (best : BestPair)
    → BestBelow spelling at best
    → (next : BestPair) → next ≡ (if beats spelling at (some best) then here spelling at else best)
    → BestBelow spelling (suc at) next
step_below spelling at best b next e = elim (Bool-cases (beats spelling at (some best))) [
  | inl better ↦
      let e' = rw better at e in
      rw e' (record {
        below = omega arith;
        score = refl;
        interior = refl;
        good = λ j l. elim (Bool-cases (j == at)) [
          | inl same ↦ let q : j ≡ at = ground arith in rw q (AsGood-refl spelling at)
          | inr other ↦
              AsGood-trans spelling at best.at j (ground (arith, b.score, b.interior))
                (b.good j (ground arith))
        ];
      })
  | inr worse ↦
      let e' = rw worse at e in
      let lower = b.below in
      rw e' (record {
        below = omega arith;
        score = b.score;
        interior = b.interior;
        good = λ j l. elim (Bool-cases (j == at)) [
          | inl same ↦ let q : j ≡ at = ground arith in rw q (ground (arith, b.score, b.interior))
          | inr other ↦ b.good j (ground arith)
        ];
      })
]

loop_below :
    (rounds : ℕ) (spelling : Bytes) (at : ℕ) (best : BestPair)
    → BestBelow spelling at best
    → (last : BestPair) × (choose_loop rounds spelling at (some best) ≡ some last)
      × BestBelow spelling (at + rounds) last
unfolding choose_loop
loop_below zero spelling at best b = let e : at + 0 ≡ at = omega arith in (best, refl, rw e b)
loop_below (suc rounds) spelling at best b =
    let e : at + suc rounds ≡ suc at + rounds = omega arith in
    elim (Bool-cases (beats spelling at (some best))) [
      | inl better ↦
          let b' = step_below spelling at best b (here spelling at) (rw better refl) in
          let (last, run, held) = loop_below rounds spelling (suc at) (here spelling at) b' in
          rw (better, e) (last, run, held)
      | inr worse ↦
          let b' = step_below spelling at best b best (rw worse refl) in
          let (last, run, held) = loop_below rounds spelling (suc at) best b' in
          rw (worse, e) (last, run, held)
    ]

-- If a spelling has a pair at an offset `j`, the pair that is chosen lies in the spelling too,
-- and it has a lower rank than the pair at `j`, or the same rank and no smaller a distance from
-- the ends.
pub choose_pair_anchor-AsGood :
    (spelling : Bytes) (j : ℕ)
    → j + 1 < length spelling
    → (choose_pair_anchor spelling + 1 < length spelling)
      × AsGood spelling (choose_pair_anchor spelling) j
unfolding choose_pair_anchor choose_loop
choose_pair_anchor-AsGood (x ∷ y ∷ rest) j h =
    let spelling : Bytes = x ∷ y ∷ rest in
    let first : BestBelow spelling 1 (here spelling 0) = record {
      below = omega arith;
      score = refl;
      interior = refl;
      good = λ j l. let q : j ≡ 0 = omega arith in rw q (AsGood-refl spelling 0);
    } in
    let (last, run, held) = loop_below (length rest) spelling 1 (here spelling 0) first in
    let below = held.below in
    let rounds : suc (suc (length rest)) - 1 ≡ suc (length rest) = omega arith in
    rw (rounds, run) (omega arith, held.good j (omega arith))
choose_pair_anchor-AsGood [] j h = absurd (omega arith)
choose_pair_anchor-AsGood (x ∷ []) j h = absurd (omega arith)
