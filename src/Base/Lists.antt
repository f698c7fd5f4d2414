-- ===== src/Base/Lists.antt =====
-- Lists measured and indexed by native numbers, under the library's names.
use Prim.Native.Nat.{ℕ, zero, suc, ◌+◌, ◌%◌, ◌^◌, ◌<◌}
use mathlib.Core.Path.{◌≡◌, refl, ap, subst}
use mathlib.Core.Bool.{Bool, true, false, ◌||◌}
use mathlib.Core.List.{List, [], ◌∷◌, ◌++◌}
use mathlib.Core.Option.{Option, none, some, some-injective}
use native.Mathlib.Omega.{arith}
use mathlib.Core.Logic.{inl, inr}
use casei.Base.Compare.{◌==◌, if◌then◌else◌, Bool-cases}

infixl 5 ◌>>=◌
abbrev pub ◌>>=◌ {ℓ κ} : {A : Type ℓ} {B : Type κ} → Option A → (A → Option B) → Option B
none >>= f = none
some a >>= f = f a

-- A text or a buffer: its bytes.
abbrev pub Bytes : Type 0
Bytes = List ℕ

module _ {ℓ} {A : Type ℓ} where
  abbrev pub length : List A → ℕ
  length [] = 0
  length (x ∷ xs) = suc (length xs)

  abbrev pub get_elem? : List A → ℕ → Option A
  get_elem? [] i = none
  get_elem? (x ∷ xs) zero = some x
  get_elem? (x ∷ xs) (suc i) = get_elem? xs i

  abbrev pub get_or : List A → ℕ → A → A
  get_or [] i d = d
  get_or (x ∷ xs) zero d = x
  get_or (x ∷ xs) (suc i) d = get_or xs i d

  abbrev pub set : List A → ℕ → A → List A
  set [] i v = []
  set (x ∷ xs) zero v = v ∷ xs
  set (x ∷ xs) (suc i) v = x ∷ set xs i v

  abbrev pub drop : ℕ → List A → List A
  drop zero xs = xs
  drop (suc n) [] = []
  drop (suc n) (x ∷ xs) = drop n xs

  abbrev pub take : ℕ → List A → List A
  take zero xs = []
  take (suc n) [] = []
  take (suc n) (x ∷ xs) = x ∷ take n xs

  abbrev pub replicate : ℕ → A → List A
  replicate zero a = []
  replicate (suc n) a = a ∷ replicate n a

  abbrev pub any : (A → Bool) → List A → Bool
  any p [] = false
  any p (x ∷ xs) = p x || any p xs

  abbrev pub All {κ} : (A → Type κ) → List A → Type κ
  All P [] = Unit
  All P (x ∷ xs) = P x × All P xs

  pub length-append : (xs ys : List A) → length (xs ++ ys) ≡ length xs + length ys
  length-append [] ys = omega arith
  length-append (x ∷ xs) ys = omega (arith, length-append xs ys)

  pub length-replicate : (n : ℕ) (a : A) → length (replicate n a) ≡ n
  length-replicate zero a = refl
  length-replicate (suc n) a = ap suc (length-replicate n a)

  pub any-append : (p : A → Bool) (xs ys : List A) → any p (xs ++ ys) ≡ (any p xs || any p ys)
  any-append p [] ys = refl
  any-append p (x ∷ xs) ys = ground (arith, any-append p xs ys)

  pub any_congr :
      (p q : A → Bool) (P : A → Type 0) (xs : List A)
      → ((x : A) → P x → p x ≡ q x)
      → All P xs
      → any p xs ≡ any q xs
  any_congr p q P [] h a = refl
  any_congr p q P (x ∷ xs) h a = ground (arith, h x a.0, any_congr p q P xs h a.1)

module _ {ℓ} {A : Type ℓ} where
  pub All-get_elem? {κ} :
      (P : A → Type κ) (xs : List A) (i : ℕ) {a : A} → All P xs → get_elem? xs i ≡ some a → P a
  All-get_elem? P [] i h e = absurd (cc)
  All-get_elem? P (x ∷ xs) zero h e = subst P (some-injective _ _ e) h.0
  All-get_elem? P (x ∷ xs) (suc i) h e = All-get_elem? P xs i h.1 e

  pub lt_of_get_elem? : (xs : List A) (i : ℕ) {a : A} → get_elem? xs i ≡ some a → i < length xs
  lt_of_get_elem? [] i e = absurd (cc)
  lt_of_get_elem? (x ∷ xs) zero e = omega arith
  lt_of_get_elem? (x ∷ xs) (suc i) e = omega (arith, lt_of_get_elem? xs i e)

  pub All-intro {κ} :
      (P : A → Type κ) (xs : List A) → ((i : ℕ) (a : A) → get_elem? xs i ≡ some a → P a) → All P xs
  All-intro P [] h = tt
  All-intro P (x ∷ xs) h = (h 0 x refl, All-intro P xs (λ i a e. h (suc i) a e))

  pub any_intro :
      (p : A → Bool) (xs : List A) (i : ℕ) (a : A)
      → get_elem? xs i ≡ some a
      → p a ≡ true
      → any p xs ≡ true
  any_intro p [] i a e h = absurd (cc)
  any_intro p (x ∷ xs) zero a e h = ground arith
  any_intro p (x ∷ xs) (suc i) a e h = ground (arith, any_intro p xs i a e h)

  -- An entry that passes the test.
  pub record Found (p : A → Bool) (xs : List A) : Type ℓ where
    pub pos : ℕ
    pub entry : A
    pub found : get_elem? xs pos ≡ some entry
    pub passes : p entry ≡ true

  pub any→Found : (p : A → Bool) (xs : List A) → any p xs ≡ true → Found p xs
  any→Found p [] h = absurd (cc)
  any→Found p (x ∷ xs) h = elim (Bool-cases (p x)) [
    | inl here ↦ record { pos = 0; entry = x; found = refl; passes = here }
    | inr not_here ↦
        let later = any→Found p xs (ground arith) in
        record {
          pos = suc later.pos;
          entry = later.entry;
          found = later.found;
          passes = later.passes;
        }
  ]

module _ {ℓ} {A : Type ℓ} where
  pub length-set : (xs : List A) (i : ℕ) (v : A) → length (set xs i v) ≡ length xs
  length-set [] i v = refl
  length-set (x ∷ xs) zero v = refl
  length-set (x ∷ xs) (suc i) v = ap suc (length-set xs i v)

  pub get_or-set :
      (xs : List A) (i j : ℕ) (v d : A)
      → i < length xs
      → get_or (set xs i v) j d ≡ (if i == j then v else get_or xs j d)
  get_or-set [] i j v d h = absurd (omega arith)
  get_or-set (x ∷ xs) zero zero v d h = refl
  get_or-set (x ∷ xs) zero (suc j) v d h = ground arith
  get_or-set (x ∷ xs) (suc i) zero v d h = ground arith
  get_or-set (x ∷ xs) (suc i) (suc j) v d h = ground (arith, get_or-set xs i j v d)

  pub any_two :
      (p : A → Bool) (xs : List A) (d : A)
      → length xs ≡ 2
      → any p xs ≡ (p (get_or xs 0 d) || p (get_or xs 1 d))
  any_two p [] d h = absurd (omega arith)
  any_two p (x ∷ []) d h = absurd (omega arith)
  any_two p (x ∷ y ∷ []) d h = ground arith
  any_two p (x ∷ y ∷ z ∷ xs) d h = absurd (omega arith)

  pub get_or-set_of_lt :
      (xs : List A) (i j : ℕ) (v d : A)
      → j < length xs
      → get_or (set xs i v) j d ≡ (if i == j then v else get_or xs j d)
  get_or-set_of_lt [] i j v d h = absurd (omega arith)
  get_or-set_of_lt (x ∷ xs) zero zero v d h = refl
  get_or-set_of_lt (x ∷ xs) zero (suc j) v d h = ground arith
  get_or-set_of_lt (x ∷ xs) (suc i) zero v d h = ground arith
  get_or-set_of_lt (x ∷ xs) (suc i) (suc j) v d h = ground (arith, get_or-set_of_lt xs i j v d)

-- The byte at an index. The code reads it only where a test has bounded the index.
abbrev pub byte_at : Bytes → ℕ → ℕ
byte_at s i = get_or s i 0

-- uint8(n)
abbrev pub u8 : ℕ → ℕ
u8 n = n % 2 ^ 8

abbrev pub IsByte : ℕ → Type 0
IsByte b = b < 256

abbrev pub AreBytes : Bytes → Type 0
AreBytes = All IsByte

pub byte_at-IsByte : (s : Bytes) (i : ℕ) → AreBytes s → IsByte (byte_at s i)
byte_at-IsByte [] i h = omega arith
byte_at-IsByte (x ∷ s) zero h = h.0
byte_at-IsByte (x ∷ s) (suc i) h = byte_at-IsByte s i h.1
