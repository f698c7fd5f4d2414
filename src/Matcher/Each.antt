-- ===== src/Matcher/Each.antt =====
-- matcher.go: the order of the matches in `Each`, and the fuel of its loop.
use casei.Base.{
  ℕ, zero, suc, ◌+◌, ◌-◌, ◌<◌, ◌≤◌, Bool, true, false, Option, some, none, List, [], ◌∷◌, arith,
  ltb, ◌==◌, if◌then◌else◌, length, drop, Bytes, ◌≡◌, refl, ap, ◌∙◌, sym, Bool-cases, Option-cases,
  inl, inr,
}
use mathlib.Core.Option.{some-injective}
use casei.Utf8.{decode_rune}
use casei.Utf8.Size.{decode-size}
use casei.Plan.Search.{Match}
use casei.Matcher.{Yielded, next_match, next_at, go_on, one_round, each_loop, each}

-- A consumer is given the matches of the list in turn, until it returns false.
unfoldable pub run_until : {S : Type 0} → (S → Match → ℕ → S × Bool) → List Yielded → S → S × Bool
run_until yield [] state = (state, true)
run_until yield (y ∷ ys) state =
    let (state', more) = yield state y.match y.width in
    if more then run_until yield ys state' else (state', false)

-- Each match begins at `from` or later, and at or after the end of the one before it; after an
-- empty one it begins later than that.
abbrev pub Ordered : ℕ → List Yielded → Type 0
Ordered from [] = Unit
Ordered from (y ∷ ys) =
    (from ≤ y.match.start)
    × Ordered (if y.width == 0 then suc y.match.start else y.match.start + y.width) ys

module _ (find : Bytes → Option Yielded) (patterns : List Bytes) (exact : Bool) where
  abbrev after : (ℕ → List Yielded) → Option ℕ → List Yielded
  after rest none = []
  after rest (some at) = rest at

  abbrev listed : (ℕ → List Yielded) → Bytes → Option Yielded → List Yielded
  listed rest s none = []
  listed rest s (some y) = y ∷ after rest (next_at find patterns exact s y)

  -- The matches that the loop comes to, without a consumer.
  unfoldable pub matches_from : ℕ → Bytes → ℕ → List Yielded
  matches_from zero s at = []
  matches_from (suc fuel) s at =
      let ys = listed (matches_from fuel s) s (next_match find patterns exact s at) in
      if ltb (length s) at then [] else ys

  round-run_until :
      {S : Type 0} (yield : S → Match → ℕ → S × Bool) (rest : ℕ → S → S × Bool)
      (list : ℕ → List Yielded) (s : Bytes) (next : Option ℕ) (r : S × Bool)
      → ((at : ℕ) (state : S) → rest at state ≡ run_until yield (list at) state)
      → go_on find patterns exact rest next r
        ≡ (if r.1 then run_until yield (after list next) r.0 else (r.0, false))
  unfolding run_until
  round-run_until yield rest list s none (state, true) h = refl
  round-run_until yield rest list s (some at) (state, true) h = h at state
  round-run_until yield rest list s none (state, false) h = refl
  round-run_until yield rest list s (some at) (state, false) h = refl

  one_round-run_until :
      {S : Type 0} (yield : S → Match → ℕ → S × Bool) (rest : ℕ → S → S × Bool)
      (list : ℕ → List Yielded) (s : Bytes) (o : Option Yielded) (state : S)
      → ((at : ℕ) (state' : S) → rest at state' ≡ run_until yield (list at) state')
      → one_round find patterns exact yield rest s o state ≡ run_until yield (listed list s o) state
  unfolding run_until
  one_round-run_until yield rest list s none state h = refl
  one_round-run_until yield rest list s (some y) state h =
      round-run_until yield rest list s (next_at find patterns exact s y)
        (yield state y.match y.width) h

  -- What `Each` does with any consumer is to give it the list of the matches in turn, until it
  -- returns false.
  pub each_loop-run_until :
      {S : Type 0} (yield : S → Match → ℕ → S × Bool) (fuel : ℕ) (s : Bytes) (at : ℕ) (state : S)
      → each_loop find patterns exact yield fuel s at state
        ≡ run_until yield (matches_from fuel s at) state
  unfolding each_loop matches_from run_until
  each_loop-run_until yield zero s at state = refl
  each_loop-run_until yield (suc fuel) s at state = elim (Bool-cases (ltb (length s) at)) [
    | inl over ↦ rw over refl
    | inr going ↦ rw going (
        one_round-run_until yield (each_loop find patterns exact yield fuel s) (matches_from fuel s)
          s (next_match find patterns exact s at) state
          (λ at' state'. each_loop-run_until yield fuel s at' state'))
  ]

  length-drop : (n : ℕ) (t : Bytes) → length (drop n t) ≡ length t - n
  length-drop zero t = omega arith
  length-drop (suc n) [] = omega arith
  length-drop (suc n) (x ∷ t) = omega (arith, length-drop n t)

  drop-size : (s : Bytes) (at : ℕ) → at < length s → 1 ≤ (decode_rune (drop at s)).1
  drop-size [] at h = absurd (omega arith)
  drop-size (x ∷ s) zero h = (decode-size x s).0
  drop-size (x ∷ s) (suc at) h = drop-size s at (omega arith)

  Ordered-weaken : (from at : ℕ) (ys : List Yielded) → from ≤ at → Ordered at ys → Ordered from ys
  Ordered-weaken from at [] h o = tt
  Ordered-weaken from at (y ∷ ys) h o = let lo = o.0 in (omega arith, o.1)

  -- The plan's result lies inside the text that it is given.
  module _ (inside : (t : Bytes) (y : Yielded) → find t ≡ some y → y.match.start ≤ length t) where
    next_match-from :
        (s : Bytes) (at : ℕ) (y : Yielded)
        → at ≤ length s
        → next_match find patterns exact s at ≡ some y
        → (at ≤ y.match.start) × (y.match.start ≤ length s)
    unfolding next_match
    next_match-from s at y h e = elim (Option-cases (find (drop at s))) [
      | inl missing ↦ let e' = rw missing at e in absurd (cc)
      | inr (z, found) ↦
          let e' = rw found at e in
          let within = inside (drop at s) z found in
          let l = length-drop at s in
          let start : z.match.start + at ≡ y.match.start =
            ap (λ q. q.match.start) (some-injective _ _ e') in
          (omega arith, omega arith)
    ]

    next_at-after :
        (s : Bytes) (y : Yielded) (at : ℕ)
        → y.match.start ≤ length s
        → next_at find patterns exact s y ≡ some at
        → (if y.width == 0 then suc y.match.start else y.match.start + y.width) ≤ at
    unfolding next_at
    next_at-after s y at h e = ground (arith, drop-size s y.match.start)

    listed-Ordered :
        (rest : ℕ → List Yielded) (s : Bytes) (at : ℕ) (o : Option Yielded)
        → at ≤ length s
        → next_match find patterns exact s at ≡ o
        → ((from at' : ℕ) → from ≤ at' → Ordered from (rest at'))
        → Ordered at (listed rest s o)
    listed-Ordered rest s at none h e onward = tt
    listed-Ordered rest s at (some y) h e onward =
        let (lo, hi) = next_match-from s at y h e in
        (
          lo,
          elim (Option-cases (next_at find patterns exact s y)) [
            | inl stops ↦ rw stops tt
            | inr (at', goes) ↦ rw goes (onward _ at' (next_at-after s y at' hi goes))
          ],
        )

    -- The matches that `Each` comes to are in order and none overlaps the next, provided that the
    -- plan reports matches inside the text that it is given.
    pub matches_from-Ordered :
        (fuel : ℕ) (s : Bytes) (from at : ℕ) → from ≤ at → Ordered from (matches_from fuel s at)
    unfolding matches_from
    matches_from-Ordered zero s from at h = tt
    matches_from-Ordered (suc fuel) s from at h = elim (Bool-cases (ltb (length s) at)) [
      | inl over ↦ rw over tt
      | inr going ↦ rw going (
          Ordered-weaken from at
            (listed (matches_from fuel s) s (next_match find patterns exact s at)) h
            (listed-Ordered (matches_from fuel s) s at (next_match find patterns exact s at)
              (ground arith) refl (λ f a l. matches_from-Ordered fuel s f a l)))
    ]

    listed-same :
        (rest rest' : ℕ → List Yielded) (s : Bytes) (at : ℕ) (o : Option Yielded)
        → at ≤ length s
        → next_match find patterns exact s at ≡ o
        → ((at' : ℕ) → at < at' → rest at' ≡ rest' at')
        → listed rest s o ≡ listed rest' s o
    listed-same rest rest' s at none h e same = refl
    listed-same rest rest' s at (some y) h e same =
        let (lo, hi) = next_match-from s at y h e in
        elim (Option-cases (next_at find patterns exact s y)) [
          | inl stops ↦ rw stops refl
          | inr (at', goes) ↦
              rw goes (ap (λ ys. y ∷ ys) (same at' (ground (arith, next_at-after s y at' hi goes))))
        ]

    -- The fuel of the loop is enough: provided that the plan reports matches inside the text that
    -- it is given, any two amounts of fuel that are at least the bytes left and one more give the
    -- same matches.
    pub matches_from-enough :
        (fuel fuel' : ℕ) (s : Bytes) (at : ℕ)
        → length s + 1 ≤ at + fuel
        → length s + 1 ≤ at + fuel'
        → matches_from fuel s at ≡ matches_from fuel' s at
    unfolding matches_from
    matches_from-enough zero zero s at h k = refl
    matches_from-enough zero (suc fuel') s at h k =
        let over : ltb (length s) at ≡ true = ground arith in rw over refl
    matches_from-enough (suc fuel) zero s at h k =
        let over : ltb (length s) at ≡ true = ground arith in rw over refl
    matches_from-enough (suc fuel) (suc fuel') s at h k = elim (Bool-cases (ltb (length s) at)) [
      | inl over ↦ rw over refl
      | inr going ↦ rw going (
          listed-same (matches_from fuel s) (matches_from fuel' s) s at
            (next_match find patterns exact s at) (ground arith) refl
            (λ at' l. matches_from-enough fuel fuel' s at' (omega arith) (omega arith)))
    ]

    -- Provided that the plan reports matches inside the text that it is given, `Each` gives its
    -- consumer, one after the other until it returns false, the matches that the loop comes to,
    -- and these are in order: none begins before the end of the one before it, and after an
    -- empty match the next begins later.
    pub each-in_order :
        {S : Type 0} (yield : S → Match → ℕ → S × Bool) (s : Bytes) (state : S)
        → (each find patterns exact yield s state
            ≡ run_until yield (matches_from (length s + 1) s 0) state)
          × Ordered 0 (matches_from (length s + 1) s 0)
    unfolding each
    each-in_order yield s state = (
      each_loop-run_until yield (length s + 1) s 0 state,
      matches_from-Ordered (length s + 1) s 0 0 (omega arith),
    )

    -- The loop of `Each` ends: provided that the plan reports matches inside the text that it is
    -- given, any amount of fuel that is at least the count of bytes left and one more gives the
    -- same result.
    pub each_loop-enough :
        {S : Type 0} (yield : S → Match → ℕ → S × Bool) (fuel fuel' : ℕ) (s : Bytes) (at : ℕ)
        (state : S)
        → length s + 1 ≤ at + fuel
        → length s + 1 ≤ at + fuel'
        → each_loop find patterns exact yield fuel s at state
          ≡ each_loop find patterns exact yield fuel' s at state
    each_loop-enough yield fuel fuel' s at state h k =
        each_loop-run_until yield fuel s at state
        ∙ ap (λ ys. run_until yield ys state) (matches_from-enough fuel fuel' s at h k)
        ∙ sym (each_loop-run_until yield fuel' s at state)
