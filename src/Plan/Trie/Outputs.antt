-- ===== src/Plan/Trie/Outputs.antt =====
-- plan.go: the order of `preferOutput` on the outputs of the states.
use casei.Base.{
  ℕ, if◌then◌else◌, true, false, some, arith, ◌≡◌, ◌<◌, ◌≤◌, refl, inl, inr, Bool-cases,
  Option-cases, ◌⊎◌,
}
use casei.Plan.Trie.{PlanOutput, prefer_output}

-- The output is at least as long as `n`, and of that length it is `id` or a lower pattern.
pub record NoWorse (o : PlanOutput) (id n : ℕ) : Type 0 where
  pub pattern : ℕ
  pub is : o.pattern ≡ some pattern
  pub order : (n < o.units) ⊎ ((n ≡ o.units) × (pattern ≤ id))

pub prefer-NoWorse :
    (new old : PlanOutput) (id n : ℕ)
    → prefer_output new old ≡ true
    → NoWorse old id n
    → NoWorse new id n
unfolding prefer_output
prefer-NoWorse new old id n h w = elim (Option-cases new.pattern) [
  | inl missing ↦ absurd (let h' = rw missing at h in cc)
  | inr (p, is) ↦
      let h' = rw (is, w.is) at h in
      let order = w.order in record { pattern = p; is = is; order = ground arith }
]

-- The output that stays is no worse than the one that is not preferred.
pub other-NoWorse :
    (new old : PlanOutput) (id n : ℕ)
    → prefer_output new old ≡ false
    → NoWorse new id n
    → NoWorse old id n
unfolding prefer_output
other-NoWorse new old id n h w = elim (Option-cases old.pattern) [
  | inl missing ↦ absurd (let h' = rw (w.is, missing) at h in cc)
  | inr (p, is) ↦
      let h' = rw (w.is, is) at h in
      let order = w.order in record { pattern = p; is = is; order = ground arith }
]

pub stay-NoWorse :
    (old : PlanOutput) (id n : ℕ)
    → prefer_output (record { pattern = some id; units = n }) old ≡ false
    → NoWorse old id n
stay-NoWorse old id n h =
    other-NoWorse (record { pattern = some id; units = n }) old id n h
      (record { pattern = id; is = refl; order = inr (refl, omega arith) })

abbrev pub preferred : PlanOutput → PlanOutput → PlanOutput
preferred new old = if prefer_output new old then new else old

-- The preferred output is no worse than either.
pub preferred-NoWorse :
    (new old : PlanOutput) (id n : ℕ)
    → NoWorse new id n ⊎ NoWorse old id n
    → NoWorse (preferred new old) id n
preferred-NoWorse new old id n w = elim (Bool-cases (prefer_output new old)) [
  | inl taken ↦
      rw taken (elim w [ inl mine ↦ mine | inr theirs ↦ prefer-NoWorse new old id n taken theirs ])
  | inr stays ↦
      rw stays (elim w [ inl mine ↦ other-NoWorse new old id n stays mine | inr theirs ↦ theirs ])
]
