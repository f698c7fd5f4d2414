-- ===== src/Plan/Search/Reverse.antt =====
-- plan.go: where a pattern ends in a text that has been read, the last byte first.
use casei.Base.{
  ℕ, zero, suc, ◌+◌, List, [], ◌∷◌, arith, length, ◌≡◌, ◌≤◌, drop, refl, ap, take, ◌∙◌, sym, ◌++◌,
  map, All,
}
use casei.Plan.Links.Words.{rev_onto, length-take}

module _ {ℓ} {A : Type ℓ} where
  -- The list, reversed onto another.
  unfoldable pub rev : List A → List A → List A
  rev [] ys = ys
  rev (x ∷ xs) ys = rev xs (x ∷ ys)

  rev-append : (xs ys zs : List A) → rev xs ys ++ zs ≡ rev xs (ys ++ zs)
  unfolding rev
  rev-append [] ys zs = refl
  rev-append (x ∷ xs) ys zs = rev-append xs (x ∷ ys) zs

  rev-rev : (xs ys zs : List A) → rev (rev xs ys) zs ≡ rev ys (xs ++ zs)
  unfolding rev
  rev-rev [] ys zs = refl
  rev-rev (x ∷ xs) ys zs = rev-rev xs (x ∷ ys) zs

  all-nil : (xs : List A) → xs ++ [] ≡ xs
  all-nil [] = refl
  all-nil (x ∷ xs) = ap (λ ys. x ∷ ys) (all-nil xs)

  pub rev_twice : (xs : List A) → rev (rev xs []) [] ≡ xs
  unfolding rev
  rev_twice xs = rev-rev xs [] [] ∙ all-nil xs

  pub length-rev : (xs ys : List A) → length (rev xs ys) ≡ length xs + length ys
  unfolding rev
  length-rev [] ys = omega arith
  length-rev (x ∷ xs) ys = omega (arith, length-rev xs (x ∷ ys))

  rev-split : (n : ℕ) (xs ys : List A) → rev xs ys ≡ rev (drop n xs) (rev (take n xs) ys)
  unfolding rev
  rev-split zero xs ys = refl
  rev-split (suc n) [] ys = refl
  rev-split (suc n) (x ∷ xs) ys = rev-split n xs (x ∷ ys)

  drop-suc : (n : ℕ) (xs : List A) (y : A) (ys : List A) → drop n xs ≡ y ∷ ys → drop (suc n) xs ≡ ys
  drop-suc zero [] y ys e = absurd (cc)
  drop-suc zero (x ∷ xs) y ys e = ap (λ zs. drop 1 zs) e
  drop-suc (suc n) [] y ys e = absurd (cc)
  drop-suc (suc n) (x ∷ xs) y ys e = drop-suc n xs y ys e

  drop-rev : (xs ys : List A) → drop (length xs) (rev xs ys) ≡ ys
  unfolding rev
  drop-rev [] ys = refl
  drop-rev (x ∷ xs) ys = drop-suc (length xs) (rev xs (x ∷ ys)) x ys (drop-rev xs (x ∷ ys))

  take-append : (xs ys : List A) → take (length xs) (xs ++ ys) ≡ xs
  take-append [] ys = refl
  take-append (x ∷ xs) ys = ap (λ zs. x ∷ zs) (take-append xs ys)

  take-rev : (xs ys : List A) → take (length xs) (rev xs ys) ≡ rev xs []
  take-rev xs ys =
      let size = length-rev xs [] in
      let size' : length xs ≡ length (rev xs []) = omega arith in
      ap (λ n. take n (rev xs ys)) size'
      ∙ ap (λ zs. take (length (rev xs [])) zs) (sym (rev-append xs [] ys))
      ∙ take-append (rev xs []) ys

  length-drop : (n : ℕ) (xs : List A) → n ≤ length xs → length (drop n xs) + n ≡ length xs
  length-drop zero xs h = omega arith
  length-drop (suc n) [] h = absurd (omega arith)
  length-drop (suc n) (x ∷ xs) h = omega (arith, length-drop n xs)

  -- The bytes before a place in the text are the first of those read, reversed.
  pub take-drop-rev :
      (n start : ℕ) (read rest : List A)
      → start + n ≡ length read
      → take n (drop start (rev read rest)) ≡ rev (take n read) []
  take-drop-rev n start read rest h =
      let short = length-take n read (omega arith) in
      let before = length-drop n read (omega arith) in
      let start' : start ≡ length (drop n read) = omega arith in
      ap (λ xs. take n (drop start xs)) (rev-split n read rest)
      ∙ ap (λ k. take n (drop k (rev (drop n read) (rev (take n read) rest)))) start'
      ∙ ap (λ xs. take n xs) (drop-rev (drop n read) (rev (take n read) rest))
      ∙ ap (λ k. take k (rev (take n read) rest)) (sym short)
      ∙ take-rev (take n read) rest

  pub All-rev {κ} : (P : A → Type κ) (xs ys : List A) → All P xs → All P ys → All P (rev xs ys)
  unfolding rev
  All-rev P [] ys a b = b
  All-rev P (x ∷ xs) ys a b = All-rev P xs (x ∷ ys) a.1 (a.0, b)

module _ {ℓ κ} {A : Type ℓ} {B : Type κ} (f : A → B) where
  pub map-take : (n : ℕ) (xs : List A) → map f (take n xs) ≡ take n (map f xs)
  map-take zero xs = refl
  map-take (suc n) [] = refl
  map-take (suc n) (x ∷ xs) = ap (λ ys. f x ∷ ys) (map-take n xs)

  pub length-map : (xs : List A) → length (map f xs) ≡ length xs
  length-map [] = refl
  length-map (x ∷ xs) = ap suc (length-map xs)

pub map-rev : (f : ℕ → ℕ) (xs ys : List ℕ) → rev_onto (map f xs) (map f ys) ≡ map f (rev xs ys)
unfolding rev rev_onto
map-rev f [] ys = refl
map-rev f (x ∷ xs) ys = map-rev f xs (x ∷ ys)
