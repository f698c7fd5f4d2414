-- ===== src/Matcher/Probe/Greedy.antt =====
-- matcher.go: the matches of `eachASCIIProbe` on a literal.
use casei.Base.{
  IsFirst, ℕ, Bool, ◌||◌, ◌==◌, leb, if◌then◌else◌, zero, suc, ◌+◌, ◌/◌, ◌-◌, true, false, Option,
  some, none, List, [], ◌∷◌, arith, length, Bytes, byte_at, ◌≡◌, ◌<◌, ◌≤◌, not, ltb, refl, inl, inr,
  Bool-cases, scan, AreBytes, scan-IsFirst, IsFirst,
}
use mathlib.Core.Path.{subst}
use mathlib.Core.Option.{some-injective}
use casei.Ascii.Words.{literal_at}
use casei.Ascii.Only.First.{NoneBetween}
use casei.Ascii.{ascii_rarity}
use casei.Ascii.Words.{folded}
use casei.Filter.Vbmi.{ascii_probe_usable}
use casei.Ascii.Anchor.{
  is_set, ascii_pair_usable, AnchorPlan, make_each_probe, probe_over, make_ascii_anchor,
}
use casei.Ascii.Anchor.Find.{starts}
use casei.Ascii.Anchor.First.{Whole, Whole-matches, probe_over_passes, probe_needed}
use casei.Ascii.Anchor.Routes.{IsLiteral, literal-Whole}
use casei.Filter.Vbmi.{AsciiProbe}
use casei.Filter.Skip.{ascii_probe_at, probe_skip}
use casei.Plan.Search.{Match}
use casei.Matcher.{Yielded}
use casei.Matcher.Each.{run_until}
use casei.Matcher.Probe.{probe_width, probe_of, candidate, go_on_probe, each_probe_loop, each_probe}

-- The occurrences of the literal from an offset on, each one the first behind the end of the one
-- before it.
unfoldable pub Greedy : Bytes → Bytes → ℕ → List Yielded → Type 0
Greedy s pattern from [] =
    (j : ℕ) → from ≤ j → j + length pattern ≤ length s → literal_at s j pattern ≡ false
Greedy s pattern from (y ∷ ys) =
    (y.match.pattern ≡ 0)
    × (y.width ≡ length pattern)
    × (from ≤ y.match.start)
    × (y.match.start + y.width ≤ length s)
    × (literal_at s y.match.start pattern ≡ true)
    × NoneBetween s pattern from y.match.start
    × Greedy s pattern (y.match.start + y.width) ys

-- The loop gives its consumer, whatever it is, the occurrences in turn until it returns false.
pub record Enumerates (s pattern : Bytes) (from : ℕ)
    (run : (S : Type 0) → (S → Match → ℕ → S × Bool) → S → S × Bool) : Type 1 where
  pub matches : List Yielded
  pub runs :
      {S : Type 0} (yield : S → Match → ℕ → S × Bool) (state : S)
      → run S yield state ≡ run_until yield matches state
  pub greedy : Greedy s pattern from matches

go_on-run_until :
    {S : Type 0} (yield : S → Match → ℕ → S × Bool) (rest : ℕ → S → S × Bool) (next : ℕ)
    (ys : List Yielded) (r : S × Bool)
    → ((state : S) → rest next state ≡ run_until yield ys state)
    → go_on_probe yield rest next r ≡ (if r.1 then run_until yield ys r.0 else (r.0, false))
go_on-run_until yield rest next ys (state, true) h = h state
go_on-run_until yield rest next ys (state, false) h = refl

-- The probe passes at every occurrence.
pub record Screens (pattern : Bytes) (probe : AsciiProbe) : Type 0 where
  pub leading : probe.first_at ≡ 0
  pub needed :
      (s : Bytes) (at : ℕ) → literal_at s at pattern ≡ true → ascii_probe_at s at probe ≡ true

module _ (p : AnchorPlan) (probe : AsciiProbe) (max_units : ℕ) (tokens_at : ℕ → Bool)
    (s pattern : Bytes) (w : Whole pattern p) (screens : Screens pattern probe)
    (b : AreBytes s) where
  Whole-candidate :
      (next at : ℕ)
      → next ≤ at
      → at + length pattern ≤ length s
      → candidate p probe max_units tokens_at s next at
        ≡ (if literal_at s at pattern then some (at, length pattern) else none)
  unfolding candidate probe_width
  Whole-candidate next at h fits =
      let leading : (probe.first_at == 0) ≡ true = rw screens.leading refl in
      let late : ltb at next ≡ false = ground arith in
      rw
        (
          candidate,
          leading,
          late,
          probe_width,
          Whole-matches p tokens_at s pattern at w b fits,
          w.verify,
          w.needle,
        )
        (elim (Bool-cases (literal_at s at pattern)) [
          | inl found ↦ rw found refl
          | inr rejected ↦ rw rejected refl
        ])

  abbrev loop : ℕ → ℕ → ℕ → ℕ → (S : Type 0) → (S → Match → ℕ → S × Bool) → S → S × Bool
  loop limit rounds at next S yield state =
      each_probe_loop yield p probe max_units tokens_at s limit rounds at next state

  nothing_left :
      (limit at next : ℕ)
      → limit ≡ length s + 1 - length pattern
      → limit ≤ at
      → NoneBetween s pattern next at
      → Greedy s pattern next []
  unfolding Greedy
  nothing_left limit at next l past before =
      λ j x fits. let three = w.three in before j x (omega arith) fits

  between_next :
      (next at stop : ℕ) {hi : ℕ}
      → NoneBetween s pattern next at
      → IsFirst (λ k. ascii_probe_at s k probe) at hi stop
      → NoneBetween s pattern next stop
  between_next next at stop before f = λ j x y fits. elim (Bool-cases (ltb j at)) [
    | inl earlier ↦ before j x (ground arith) fits
    | inr later ↦ elim (Bool-cases (literal_at s j pattern)) [
      | inl occurs ↦
          let passes = screens.needed s j occurs in
          let passed = f.passed j (ground arith) y in absurd (cc)
      | inr not_here ↦ not_here
    ]
  ]

  next_one :
      (next stop : ℕ)
      → NoneBetween s pattern next stop
      → literal_at s stop pattern ≡ false
      → NoneBetween s pattern next (suc stop)
  next_one next stop before here = λ j x y fits. elim (Bool-cases (j == stop)) [
    | inl last ↦
        let q : stop ≡ j = ground arith in subst (λ k. literal_at s k pattern ≡ false) q here
    | inr earlier ↦ before j x (ground arith) fits
  ]

  each_probe_loop-Enumerates :
      (limit rounds at next : ℕ)
      → limit ≡ length s + 1 - length pattern
      → limit ≤ at + rounds
      → next ≤ at
      → NoneBetween s pattern next at
      → Enumerates s pattern next (loop limit rounds at next)
  unfolding each_probe_loop run_until probe_skip Greedy
  each_probe_loop-Enumerates limit zero at next l fuel order before = record {
    matches = [];
    runs = λ yield state. refl;
    greedy = nothing_left limit at next l (omega arith) before;
  }
  each_probe_loop-Enumerates limit (suc rounds) at next l fuel order before =
      let three = w.three in
      elim (Bool-cases (leb limit at)) [
        | inl past ↦ record {
          matches = [];
          runs = λ yield state. rw past refl;
          greedy = nothing_left limit at next l (ground arith) before;
        }
        | inr inside ↦
            let test = λ (k : ℕ). ascii_probe_at s k probe in
            let f = scan-IsFirst (limit - at) test at limit (ground arith) in
            let stop = scan (limit - at) test at in
            let lo = f.above in
            let hi = f.below in
            let e : at + (stop - at) ≡ stop = omega arith in
            let skipped : NoneBetween s pattern next stop = between_next next at stop before f in
            elim (Bool-cases (stop == limit)) [
              | inl ended ↦ record {
                matches = [];
                runs = λ yield state. rw (inside, e, ended) refl;
                greedy = nothing_left limit stop next l (ground arith) skipped;
              }
              | inr going ↦
                  let fits : stop + length pattern ≤ length s = ground arith in
                  let c = Whole-candidate next stop (omega arith) fits in
                  elim (Bool-cases (literal_at s stop pattern)) [
                    | inr rejected ↦
                        let rest =
                          each_probe_loop-Enumerates limit rounds (suc stop) next l (omega arith)
                            (omega arith) (next_one next stop skipped rejected) in
                        let c' = rw rejected at c in
                        record {
                          matches = rest.matches;
                          runs = λ yield state. rw (inside, e, going, c') (rest.runs yield state);
                          greedy = rest.greedy;
                        }
                    | inl found ↦
                        let after = stop + length pattern in
                        let rest =
                          each_probe_loop-Enumerates limit rounds after after l (omega arith)
                            (omega arith) (λ j x y z. absurd (omega arith)) in
                        let c' = rw found at c in
                        record {
                          matches =
                              record {
                                match = record { pattern = 0; start = stop };
                                width = length pattern;
                              }
                              ∷ rest.matches;
                          runs = λ yield state.
                              rw (inside, e, going, c')
                                (go_on-run_until yield (λ k. loop limit rounds k k _ yield) after
                                  rest.matches
                                  (yield state (record { pattern = 0; start = stop })
                                    (length pattern))
                                  (rest.runs yield));
                          greedy = (refl, refl, omega arith, fits, found, skipped, rest.greedy);
                        }
                  ]
            ]
      ]

probe_over-Screens :
    (pattern : Bytes) (j k : ℕ)
    → 1 ≤ length pattern
    → j < length pattern
    → k < length pattern
    → Screens pattern (probe_over pattern 0 j k)
unfolding probe_over
probe_over-Screens pattern j k one lj lk = record {
  leading = refl;
  needed = λ s at occurs. probe_over_passes s at 0 j k pattern (omega arith) lj lk occurs;
}

make_each_probe-Screens :
    (p : AnchorPlan) (pattern : Bytes) (count : ℕ) (opaque_continuation : Bool) (probe : AsciiProbe)
    → make_each_probe p count opaque_continuation pattern ≡ some probe
    → Screens pattern probe
unfolding make_each_probe
make_each_probe-Screens p pattern count opaque_continuation probe e =
    let refused =
      not (count == 1)
      || ltb (length pattern) 4
      || not (ascii_probe_usable p.probe)
      || p.verify_tokens
      || opaque_continuation
      || is_set p.run
      || ascii_pair_usable p.pair
      || is_set p.static
      || p.byte_anchor in
    elim (Bool-cases refused) [
      | inl no_probe ↦ absurd (let e' = rw no_probe at e in cc)
      | inr open_probe ↦
          let four : ltb (length pattern) 4 ≡ false = ground arith in
          elim (Bool-cases (
            leb (ascii_rarity (folded (byte_at pattern (length pattern / 2))))
              (ascii_rarity (folded (byte_at pattern 1))))) [
                | inl common ↦ absurd (let e' = rw (open_probe, common) at e in cc)
                | inr rarer_one ↦
                    let e' : some (probe_over pattern 0 1 3) ≡ some probe =
                      rw (open_probe, rarer_one) at e in
                    subst (Screens pattern) (some-injective _ _ e')
                      (probe_over-Screens pattern 1 3 (ground arith) (ground arith) (ground arith))
              ]
    ]

probe_of-Screens :
    (p : AnchorPlan) (pattern : Bytes) (opaque_continuation : Bool) (set : Option AsciiProbe)
    → Whole pattern p
    → make_each_probe p 1 opaque_continuation pattern ≡ set
    → Screens pattern (probe_of p set)
unfolding probe_over
probe_of-Screens p pattern opaque_continuation none w e = record {
  leading = rw w.probe refl;
  needed = λ s at occurs. probe_needed p s pattern at w occurs;
}
probe_of-Screens p pattern opaque_continuation (some probe) w e =
    make_each_probe-Screens p pattern 1 opaque_continuation probe e

-- For a literal of three bytes or more, whose letters have no spelling outside ASCII by the fold
-- orbits and which is not one byte repeated, on every text of bytes: the probe route of Each,
-- with the probe of Each where the matcher has one, gives its consumer, whatever that is, the
-- occurrences of the literal one after the other until it returns false, each the first that
-- starts at or behind the end of the one before it, letters folded, with the length of the
-- literal as its width, and behind the last of them the literal does not occur.
pub each_probe-Greedy :
    (simple_fold : ℕ → ℕ) (pattern : Bytes) (max_units : ℕ) (opaque_continuation : Bool)
    (tokens_at : ℕ → Bool) (s : Bytes)
    → IsLiteral simple_fold pattern
    → AreBytes s
    → Enumerates s pattern 0 (λ S yield state.
      each_probe yield
        (make_ascii_anchor simple_fold pattern)
        (make_each_probe (make_ascii_anchor simple_fold pattern) 1 opaque_continuation pattern)
        max_units
        tokens_at
        s
        state)
unfolding each_probe
each_probe-Greedy simple_fold pattern max_units opaque_continuation tokens_at s literal b =
    let p = make_ascii_anchor simple_fold pattern in
    let set = make_each_probe p 1 opaque_continuation pattern in
    let w = literal-Whole simple_fold pattern literal in
    let three = w.three in
    let limit : (if p.verify_tokens then length s - (probe_of p set).third_at else starts p s)
        ≡ length s + 1 - length pattern =
      rw (w.verify, w.needle) refl in
    let run =
      each_probe_loop-Enumerates p (probe_of p set) max_units tokens_at s pattern w
        (probe_of-Screens p pattern opaque_continuation set w refl) b
        (if p.verify_tokens then length s - (probe_of p set).third_at else starts p s) (length s) 0
        0 limit (omega arith) (omega arith) (λ j x y z. absurd (omega arith)) in
    record { matches = run.matches; runs = run.runs; greedy = run.greedy }
