-- ===== src/Plan/Search/Leftmost.antt =====
-- plan.go: the loop of `findExactBytes` over the outputs that the states report.
use casei.Base.{
  ℕ, suc, ◌+◌, ◌-◌, ◌<◌, ◌≤◌, true, false, ◌&&◌, ◌||◌, not, Option, some, none, [], ◌∷◌, arith, ltb,
  ◌==◌, length, Bytes, byte_at, ◌≡◌, Bool-cases, inl, inr, ◌⊎◌, ◌≢◌,
}
use casei.Plan.Trie.{node_at}
use casei.Plan.Links.{SearchPlan, advance}
use casei.Plan.Search.{Match, Best, observe, settled, exact_loop}

-- A match comes first: it starts earlier, or at the same place with no greater pattern.
abbrev pub Before : Match → ℕ → ℕ → Type 0
Before m pattern start = (m.start < start) ⊎ ((m.start ≡ start) × (m.pattern ≤ pattern))

-- `Occurs pattern start units`: an occurrence in the text. The best match over a set of them.
module _ (Occurs : ℕ → ℕ → ℕ → Type 0) where
  -- The best of the occurrences that are empty or end at `at` or before.
  abbrev pub BestTo : ℕ → Best → Type 0
  BestTo at none = (pattern start units : ℕ) → Occurs pattern start units → at < start + units
  BestTo at (some m) =
      ((units : ℕ) × Occurs m.pattern m.start units)
      × ((pattern start units : ℕ)
          → Occurs pattern start units
          → start + units ≤ at
          → Before m pattern start)

  -- What the automaton reports behind the byte `at`: the longest pattern that ends there, of equal
  -- ones the lowest.
  pub record Longest (at p units : ℕ) : Type 0 where
    pub occurs : Occurs p (at + 1 - units) units
    pub first :
        (pattern start n : ℕ)
        → Occurs pattern start n
        → 1 ≤ n
        → start + n ≡ at + 1
        → Before (record { pattern = p; start = at + 1 - units }) pattern start

  abbrev pub Reports : ℕ → Option ℕ → ℕ → Type 0
  Reports at none units =
      (pattern start n : ℕ) → Occurs pattern start n → 1 ≤ n → start + n ≢ at + 1
  Reports at (some p) units = Longest at p units

  -- What the states report behind each byte of the text that is left.
  unfoldable pub Reporting : SearchPlan → ℕ → ℕ → Bytes → Type 0
  Reporting p at state [] = Unit
  Reporting p at state (b ∷ s) =
      Reports at (node_at p.nodes (advance p state (byte_at p.tokens.byte_tokens b))).output.pattern
        (node_at p.nodes (advance p state (byte_at p.tokens.byte_tokens b))).output.units
      × Reporting p (suc at) (advance p state (byte_at p.tokens.byte_tokens b)) s

  -- The best of all occurrences, or none where there is none.
  abbrev pub BestOfAll : Best → Type 0
  BestOfAll none = (pattern start units : ℕ) → ¬ Occurs pattern start units
  BestOfAll (some m) =
      ((units : ℕ) × Occurs m.pattern m.start units)
      × ((pattern start units : ℕ) → Occurs pattern start units → Before m pattern start)

  -- An empty pattern occurs everywhere, so at the start too.
  module _ (empties : (pattern start : ℕ) → Occurs pattern start 0 → Occurs pattern 0 0) where
    Before-empty : (m : Match) (pattern start : ℕ) → Before m pattern 0 → Before m pattern start
    Before-empty m pattern start h = ground arith

    -- An occurrence that ends behind `at`, or before.
    observe-none :
        (at units : ℕ) (best : Best) → BestTo at best → Reports at none units → BestTo (at + 1) best
    observe-none at units none b r = λ p st n o. elim (Bool-cases (n == 0)) [
      | inl empty ↦
          let e : n ≡ 0 = ground arith in
          let o' : Occurs p st 0 = rw e at o in
          absurd (let h = b p 0 0 (empties p st o') in omega arith)
      | inr real ↦ let h = b p st n o in let k = r p st n o (ground arith) in ground arith
    ]
    observe-none at units (some m) b r = (
      b.0,
      λ p st n o le. elim (Bool-cases (n == 0)) [
        | inl empty ↦
            let e : n ≡ 0 = ground arith in
            let o' : Occurs p st 0 = rw e at o in
            Before-empty m p st (b.1 p 0 0 (empties p st o') (omega arith))
        | inr real ↦ let k = r p st n o (ground arith) in b.1 p st n o (ground arith)
      ],
    )

    abbrev start_plus : ℕ → ℕ → ℕ
    start_plus st n = st + n

    observe-none-older :
        (at : ℕ) (m : Match)
        → BestTo at (some m)
        → (q st n : ℕ) → Occurs q st n
        → st + n ≤ at + 1
        → (n == 0 || not (start_plus st n == at + 1)) ≡ true
        → Before m q st
    observe-none-older at m b q st n o le older = elim (Bool-cases (n == 0)) [
      | inl empty ↦
          let e : n ≡ 0 = ground arith in
          let o' : Occurs q st 0 = rw e at o in
          Before-empty m q st (b.1 q 0 0 (empties q st o') (omega arith))
      | inr real ↦ b.1 q st n o (ground arith)
    ]

    Before-trans :
        (new m : Match) (q st : ℕ)
        → (ltb new.start m.start || new.start == m.start && ltb new.pattern m.pattern) ≡ true
        → Before m q st
        → Before new q st
    Before-trans new m q st better h = ground arith

    Before-other :
        (new m : Match) (q st : ℕ)
        → (ltb new.start m.start || new.start == m.start && ltb new.pattern m.pattern) ≡ false
        → Before new q st
        → Before m q st
    Before-other new m q st worse h = ground arith

    observe-some :
        (at p units : ℕ) (best : Best)
        → BestTo at best
        → Longest at p units
        → BestTo (at + 1) (observe best at (some p) units)
    observe-some at p units none b r = (
      (units, r.occurs),
      λ q st n o le. elim (Bool-cases (n == 0)) [
        | inl empty ↦
            let e : n ≡ 0 = ground arith in
            let o' : Occurs q st 0 = rw e at o in
            absurd (let h = b q 0 0 (empties q st o') in omega arith)
        | inr real ↦ let h = b q st n o in r.first q st n o (ground arith) (omega arith)
      ],
    )
    observe-some at p units (some m) b r =
        let new : Match = record { pattern = p; start = at + 1 - units } in
        let old = observe-none-older at m b in
        elim (Bool-cases
          (ltb new.start m.start || new.start == m.start && ltb new.pattern m.pattern)) [
            | inl better ↦ rw better (
              (units, r.occurs),
              λ q st n o le. elim (Bool-cases (n == 0 || not (start_plus st n == at + 1))) [
                | inl older ↦ Before-trans new m q st better (old q st n o le (ground arith))
                | inr here ↦ r.first q st n o (ground arith) (ground arith)
              ],
            )
            | inr worse ↦ rw worse (
              b.0,
              λ q st n o le. elim (Bool-cases (n == 0 || not (start_plus st n == at + 1))) [
                | inl older ↦ old q st n o le (ground arith)
                | inr here ↦
                    Before-other new m q st worse (r.first q st n o (ground arith) (ground arith))
              ],
            )
          ]

    observe-BestTo :
        (at : ℕ) (pattern : Option ℕ) (units : ℕ) (best : Best)
        → BestTo at best
        → Reports at pattern units
        → BestTo (at + 1) (observe best at pattern units)
    observe-BestTo at none units best b r = observe-none at units best b r
    observe-BestTo at (some p) units best b r = observe-some at p units best b r

    settled-BestOfAll :
        (at max : ℕ) (best : Best)
        → ((q st n : ℕ) → Occurs q st n → n ≤ max)
        → BestTo (at + 1) best
        → settled best at max ≡ true
        → BestOfAll best
    settled-BestOfAll at max none small b e = absurd (cc)
    settled-BestOfAll at max (some m) small b e =
        (b.0, λ q st n o. let k = small q st n o in let h = b.1 q st n o in ground arith)

    end-BestOfAll :
        (at : ℕ) (best : Best)
        → ((q st n : ℕ) → Occurs q st n → st + n ≤ at)
        → BestTo at best
        → BestOfAll best
    end-BestOfAll at none inside b =
        λ q st n o. let h = b q st n o in let k = inside q st n o in omega arith
    end-BestOfAll at (some m) inside b = (b.0, λ q st n o. b.1 q st n o (inside q st n o))

    pub exact_loop-BestOfAll :
        (p : SearchPlan) (s : Bytes) (at state : ℕ) (best : Best)
        → ((q st n : ℕ) → Occurs q st n → n ≤ p.max_units)
        → ((q st n : ℕ) → Occurs q st n → st + n ≤ at + length s)
        → Reporting p at state s
        → BestTo at best
        → BestOfAll (exact_loop p at state best s)
    unfolding exact_loop Reporting
    exact_loop-BestOfAll p [] at state best small inside r b =
        end-BestOfAll at best (λ q st n o. let h = inside q st n o in omega arith) b
    exact_loop-BestOfAll p (c ∷ s) at state best small inside r b =
        let state' = advance p state (byte_at p.tokens.byte_tokens c) in
        let output = (node_at p.nodes state').output in
        let best' = observe best at output.pattern output.units in
        let b' = observe-BestTo at output.pattern output.units best b r.0 in
        let next : at + 1 ≡ suc at = omega arith in
        elim (Bool-cases (settled best' at p.max_units)) [
          | inl done ↦ rw done (settled-BestOfAll at p.max_units best' small b' done)
          | inr going ↦ rw going (
              exact_loop-BestOfAll p s (suc at) state' best' small
                (λ q st n o. let h = inside q st n o in omega arith) r.1 (rw next at b'))
        ]
