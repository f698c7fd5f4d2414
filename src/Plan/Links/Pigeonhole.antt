-- ===== src/Plan/Links/Pigeonhole.antt =====
-- plan.go: how many states the queue of `finish` can hold.
use casei.Base.{
  ℕ, ◌==◌, if◌then◌else◌, zero, suc, true, false, List, [], ◌∷◌, arith, length, ◌≡◌, ◌<◌, ◌≤◌, refl,
  inl, inr, Bool-cases,
}
use casei.Plan.Links.Seen.{has, apart}

remove : ℕ → List ℕ → List ℕ
remove x [] = []
remove x (y ∷ ys) = if y == x then ys else y ∷ remove x ys

length-remove : (x : ℕ) (ys : List ℕ) → length ys ≤ suc (length (remove x ys))
unfolding remove
length-remove x [] = omega arith
length-remove x (y ∷ ys) = elim (Bool-cases (y == x)) [
  | inl here ↦ rw here (omega arith)
  | inr other ↦ rw other (omega (arith, length-remove x ys))
]

has-remove : (x : ℕ) (ys : List ℕ) (k : ℕ) → has (remove x ys) k ≡ true → has ys k ≡ true
unfolding remove
has-remove x [] k h = h
has-remove x (y ∷ ys) k h = elim (Bool-cases (y == x)) [
  | inl here ↦ let h' = rw here at h in ground arith
  | inr other ↦ let h' = rw other at h in ground (arith, has-remove x ys k)
]

has-remove_self : (x : ℕ) (ys : List ℕ) → apart ys ≡ true → has (remove x ys) x ≡ false
unfolding remove
has-remove_self x [] a = refl
has-remove_self x (y ∷ ys) a = elim (Bool-cases (y == x)) [
  | inl here ↦ rw here (ground arith)
  | inr other ↦ rw other (ground (arith, has-remove_self x ys))
]

apart-remove : (x : ℕ) (ys : List ℕ) → apart ys ≡ true → apart (remove x ys) ≡ true
unfolding remove
apart-remove x [] a = refl
apart-remove x (y ∷ ys) a = elim (Bool-cases (y == x)) [
  | inl here ↦ rw here (ground arith)
  | inr other ↦ rw other (ground (arith, apart-remove x ys, has-remove x ys y))
]

-- A list of different numbers below a bound is no longer than the bound.
pub pigeonhole :
    (n : ℕ) (xs : List ℕ) → apart xs ≡ true → ((k : ℕ) → has xs k ≡ true → k < n) → length xs ≤ n
pigeonhole zero [] a below = omega arith
pigeonhole zero (x ∷ xs) a below = let h = below x (ground arith) in absurd (omega arith)
pigeonhole (suc n) xs a below =
    let rest = pigeonhole n (remove n xs) (apart-remove n xs a) (λ k h.
      let le = below k (has-remove n xs k h) in
      elim (Bool-cases (k == n)) [
        | inl last ↦
            let q : k ≡ n = ground arith in
            let gone = has-remove_self n xs a in absurd (let h' = rw q at h in cc)
        | inr other ↦ ground arith
      ]) in
    omega (arith, length-remove n xs)
