-- ===== src/Plan/RootFilter/Required.antt =====
-- The pairs that `addRequiredNext` adds accept every spelling of a root before one of the next unit.
use mathlib.Core.Path.{subst}
use casei.Base.{
  ℕ, Bool, ◌==◌, if◌then◌else◌, true, false, List, [], ◌∷◌, arith, length, Bytes, byte_at, ◌≡◌, ◌<◌,
  ltb, refl, inl, inr, Bool-cases, sym, ◌∙◌, ◌++◌, All, flag, fold_case,
}
use casei.Filter.Pair.{RootFilter, add_fold_pair, add_pair, pair_at}
use casei.Plan.RootFilter.{
  when_added, PairForm, second_pair, add_seconds, first_pairs, add_firsts, fold_bits,
}
use casei.Plan.RootFilter.Covers.{
  Accepts, Grows, Gives, Gives-bind, Gives-map, Has, added_pair, first_prefix-Has,
}

-- The byte, folded where the form is, is the first of the form.
abbrev pub fits : PairForm → ℕ → Bool
fits form x = (if form.fold then fold_case x else x) == byte_at form.bytes 0

abbrev pub SecondHas : RootFilter → PairForm → PairForm → Type 0
SecondHas f first second =
    (x y : ℕ) (v : Bytes) → fits first x ≡ true → fits second y ≡ true → Accepts f (x ∷ y ∷ v)

fold_bits-first : (a b : Bool) → flag (fold_bits a b) 1 ≡ a
fold_bits-first true true = refl
fold_bits-first true false = refl
fold_bits-first false true = refl
fold_bits-first false false = refl

fold_bits-second : (a b : Bool) → flag (fold_bits a b) 2 ≡ b
fold_bits-second true true = refl
fold_bits-second true false = refl
fold_bits-second false true = refl
fold_bits-second false false = refl

fits-pair_at :
    (first second : PairForm) (x y : ℕ)
    → fits first x ≡ true
    → fits second y ≡ true
    → pair_at x y (record {
      first = byte_at first.bytes 0;
      second = byte_at second.bytes 0;
      fold = fold_bits first.fold second.fold;
    })
      ≡ true
unfolding pair_at
fits-pair_at first second x y left right =
    rw
      (fold_bits-first first.fold second.fold, fold_bits-second first.fold second.fold, left, right)
      refl

second_pair-Has :
    (first second : PairForm) (f : RootFilter)
    → Gives (λ f'. Grows f f' × SecondHas f' first second) (second_pair first second f)
second_pair-Has first second f = elim (Bool-cases (length second.bytes == 0)) [
  | inl empty ↦ rw empty (omega arith)
  | inr full ↦
      let a = byte_at first.bytes 0 in
      let b = byte_at second.bytes 0 in
      let k = fold_bits first.fold second.fold in
      rw full (
        Gives-map
          (λ f'.
            Grows f f'
            × ((x y : ℕ) (v : Bytes)
                → pair_at x y (record { first = a; second = b; fold = k }) ≡ true
                → Accepts f' (x ∷ y ∷ v)))
          (λ f'. Grows f f' × SecondHas f' first second) (when_added (add_fold_pair f a b k))
          (added_pair f a b k)
          (λ f' h. (h.0, (λ x y v l r. h.1 x y v (fits-pair_at first second x y l r)))))
]

add_seconds-Has :
    (first : PairForm) (seconds : List PairForm) (f : RootFilter)
    → Gives (λ f'. Grows f f' × All (SecondHas f' first) seconds) (add_seconds first seconds f)
unfolding add_seconds
add_seconds-Has first [] f = ((λ u h. h), tt)
add_seconds-Has first (second ∷ seconds) f =
    Gives-bind (λ f'. Grows f f' × SecondHas f' first second)
      (λ f'. Grows f f' × All (SecondHas f' first) (second ∷ seconds)) (second_pair first second f)
      (λ f'. add_seconds first seconds f') (second_pair-Has first second f)
      (λ f' h.
        Gives-map (λ f''. Grows f' f'' × All (SecondHas f'' first) seconds)
          (λ f''. Grows f f'' × All (SecondHas f'' first) (second ∷ seconds))
          (add_seconds first seconds f') (add_seconds-Has first seconds f')
          (λ f'' r.
            ((λ u e. r.0 u (h.0 u e)), ((λ x y v a b. r.0 (x ∷ y ∷ v) (h.1 x y v a b)), r.1))))

abbrev pub FirstHas : RootFilter → List PairForm → PairForm → Type 0
FirstHas f seconds first =
    (ltb 1 (length first.bytes) ≡ true → Has f first.bytes)
    × (ltb 1 (length first.bytes) ≡ false → All (SecondHas f first) seconds)

second-Grows :
    (f f' : RootFilter) (first : PairForm) (seconds : List PairForm)
    → Grows f f'
    → All (SecondHas f first) seconds
    → All (SecondHas f' first) seconds
second-Grows f f' first [] grows all = tt
second-Grows f f' first (second ∷ seconds) grows all = (
  (λ x y v a b. grows (x ∷ y ∷ v) (all.0 x y v a b)),
  second-Grows f f' first seconds grows all.1,
)

long_pair :
    (f : RootFilter) (bytes : Bytes)
    → 1 < length bytes
    → Gives
        (λ f'. Grows f f' × Has f' bytes)
        (when_added (add_pair f (byte_at bytes 0) (byte_at bytes 1)))
long_pair f [] long = absurd (omega arith)
long_pair f (c ∷ []) long = absurd (omega arith)
long_pair f (c ∷ d ∷ bytes) long = first_prefix-Has f (c ∷ d ∷ bytes) (omega arith)

true-false : ¬ true ≡ false
true-false e = cc

first_pairs-long :
    (first : PairForm) (seconds : List PairForm) (f : RootFilter)
    → ltb 1 (length first.bytes) ≡ true
    → when_added (add_pair f (byte_at first.bytes 0) (byte_at first.bytes 1))
      ≡ first_pairs first seconds f
first_pairs-long first seconds f long = rw long refl

first_pairs-short :
    (first : PairForm) (seconds : List PairForm) (f : RootFilter)
    → ltb 1 (length first.bytes) ≡ false
    → add_seconds first seconds f ≡ first_pairs first seconds f
first_pairs-short first seconds f short = rw short refl

first_pairs-Has :
    (first : PairForm) (seconds : List PairForm) (f : RootFilter)
    → Gives (λ f'. Grows f f' × FirstHas f' seconds first) (first_pairs first seconds f)
first_pairs-Has first seconds f = elim (Bool-cases (ltb 1 (length first.bytes))) [
  | inl long ↦
      subst (Gives (λ f'. Grows f f' × FirstHas f' seconds first))
        (first_pairs-long first seconds f long)
        (Gives-map (λ f'. Grows f f' × Has f' first.bytes)
          (λ f'. Grows f f' × FirstHas f' seconds first)
          (when_added (add_pair f (byte_at first.bytes 0) (byte_at first.bytes 1)))
          (long_pair f first.bytes (ground arith))
          (λ f' h. (h.0, ((λ e. h.1), (λ e. absurd (true-false (sym long ∙ e)))))))
  | inr short ↦
      subst (Gives (λ f'. Grows f f' × FirstHas f' seconds first))
        (first_pairs-short first seconds f short)
        (Gives-map (λ f'. Grows f f' × All (SecondHas f' first) seconds)
          (λ f'. Grows f f' × FirstHas f' seconds first) (add_seconds first seconds f)
          (add_seconds-Has first seconds f)
          (λ f' h. (h.0, ((λ e. absurd (true-false (sym e ∙ short))), (λ e. h.1)))))
]

pub add_firsts-Has :
    (firsts seconds : List PairForm) (f : RootFilter)
    → Gives (λ f'. Grows f f' × All (FirstHas f' seconds) firsts) (add_firsts firsts seconds f)
unfolding add_firsts
add_firsts-Has [] seconds f = ((λ u h. h), tt)
add_firsts-Has (first ∷ firsts) seconds f =
    Gives-bind (λ f'. Grows f f' × FirstHas f' seconds first)
      (λ f'. Grows f f' × All (FirstHas f' seconds) (first ∷ firsts)) (first_pairs first seconds f)
      (λ f'. add_firsts firsts seconds f') (first_pairs-Has first seconds f)
      (λ f' h.
        Gives-map (λ f''. Grows f' f'' × All (FirstHas f'' seconds) firsts)
          (λ f''. Grows f f'' × All (FirstHas f'' seconds) (first ∷ firsts))
          (add_firsts firsts seconds f') (add_firsts-Has firsts seconds f')
          (λ f'' r. (
            (λ u e. r.0 u (h.0 u e)),
            (
              (
                (λ e v. r.0 (first.bytes ++ v) (h.1.0 e v)),
                (λ e. second-Grows f' f'' first seconds r.0 (h.1.1 e)),
              ),
              r.1,
            ),
          )))
