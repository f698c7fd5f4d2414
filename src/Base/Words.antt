-- ===== src/Base/Words.antt =====
-- `|` of words, byte by byte.
use Prim.Native.Nat.{
  ℕ, zero, suc, ◌+◌, ◌*◌, ◌/◌, ◌%◌, ◌^◌, ◌≤◌, ◌<◌, max, bit_or, digits, bit_or-bitwise,
}
use native.Mathlib.Nat.{pow-suc}
use mathlib.Core.Path.{◌≡◌, refl, sym, ◌∙◌, ap, ap₂}
use mathlib.Core.List.{List, [], ◌∷◌}
use casei.Base.Lists.{All, IsByte, length}
use native.Mathlib.Omega.{arith}

digits_irrelevant :
    (n m a b : ℕ) → a ≤ n → a ≤ m → digits (λ y. y) max n a b ≡ digits (λ y. y) max m a b
digits_irrelevant zero zero a b h k = refl
digits_irrelevant zero (suc m) zero b h k = refl
digits_irrelevant zero (suc m) (suc a) b h k = absurd (omega arith)
digits_irrelevant (suc n) zero zero b h k = refl
digits_irrelevant (suc n) zero (suc a) b h k = absurd (omega arith)
digits_irrelevant (suc n) (suc m) zero b h k = refl
digits_irrelevant (suc n) (suc m) (suc a) b h k =
    rw (digits_irrelevant n m (suc a / 2) (b / 2) (omega arith) (omega arith)) refl

pub bit_or-step : (a b : ℕ) → bit_or a b ≡ bit_or (a / 2) (b / 2) * 2 + max (a % 2) (b % 2)
bit_or-step zero b = rw (bit_or-bitwise zero b, bit_or-bitwise (zero / 2) (b / 2)) (omega arith)
bit_or-step (suc a) b =
    rw (bit_or-bitwise (suc a) b, bit_or-bitwise (suc a / 2) (b / 2))
      (rw (digits_irrelevant a (suc a / 2) (suc a / 2) (b / 2) (omega arith) (omega arith)) refl)

pub bit_or-zero_left : (b : ℕ) → bit_or 0 b ≡ b
bit_or-zero_left b = bit_or-bitwise 0 b

-- The halves of a word whose low part is `a`.
bit_or-low :
    (a b c d x y z : ℕ)
    → bit_or (a / 2 + b) (c / 2 + d) ≡ bit_or (a / 2) (c / 2) + z
    → x ≡ 2 * b
    → y ≡ 2 * d
    → bit_or (a + x) (c + y) ≡ bit_or a c + 2 * z
bit_or-low a b c d x y z h p q =
    let left : (a + x) / 2 ≡ a / 2 + b = omega arith in
    let right : (c + y) / 2 ≡ c / 2 + d = omega arith in
    let lowest : max ((a + x) % 2) ((c + y) % 2) ≡ max (a % 2) (c % 2) = omega arith in
    rw (bit_or-step (a + x) (c + y), bit_or-step a c, left, right, lowest, h) (omega arith)

double : (k b : ℕ) → 2 ^ suc k * b ≡ 2 * (2 ^ k * b)
double k b = rw (pow-suc 2 k) (omega arith)

pub bit_or-split :
    (k a b c d : ℕ)
    → a < 2 ^ k
    → c < 2 ^ k
    → bit_or (a + 2 ^ k * b) (c + 2 ^ k * d) ≡ bit_or a c + 2 ^ k * bit_or b d
bit_or-split zero zero b zero d h l =
    let left : 0 + 1 * b ≡ b = omega arith in
    let right : 0 + 1 * d ≡ d = omega arith in rw (left, right) (omega arith)
bit_or-split zero zero b (suc c) d h l = absurd (omega arith)
bit_or-split zero (suc a) b c d h l = absurd (omega arith)
bit_or-split (suc k) a b c d h l =
    let p = pow-suc 2 k in
    rw (double k (bit_or b d)) (
      bit_or-low a (2 ^ k * b) c (2 ^ k * d) (2 ^ suc k * b) (2 ^ suc k * d) (2 ^ k * bit_or b d)
        (bit_or-split k (a / 2) b (c / 2) d (omega arith) (omega arith)) (double k b) (double k d))

pub bit_or-zero_right : (k a : ℕ) → a < 2 ^ k → bit_or a 0 ≡ a
bit_or-zero_right zero zero h = refl
bit_or-zero_right zero (suc a) h = absurd (omega arith)
bit_or-zero_right (suc k) a h =
    let p = pow-suc 2 k in
    let half = bit_or-zero_right k (a / 2) (omega arith) in rw (bit_or-step a 0, half) (omega arith)

-- A value put above a word.
pub bit_or-above : (k a v : ℕ) → a < 2 ^ k → bit_or a (v * 2 ^ k) ≡ a + 2 ^ k * v
bit_or-above k a v h =
    let left : a + 2 ^ k * 0 ≡ a = omega arith in
    let right : 0 + 2 ^ k * v ≡ v * 2 ^ k = omega arith in
    let positive : 0 < 2 ^ k = omega arith in
    let split = bit_or-split k a 0 0 v h positive in
    ap₂ bit_or (sym left) (sym right)
    ∙ split
    ∙ ap₂ (λ x y. x + 2 ^ k * y) (bit_or-zero_right k a h) (bit_or-zero_left v)

-- The word whose bytes, the lowest first, are the values.
pub word_of : List ℕ → ℕ
word_of [] = 0
word_of (value ∷ values) = value + 256 * word_of values

pub word_of-nil : word_of [] ≡ 0
unfolding word_of
word_of-nil = refl

pub word_of-step : (v : ℕ) (vs : List ℕ) → word_of (v ∷ vs) ≡ v + 256 * word_of vs
unfolding word_of
word_of-step v vs = refl

-- `|` of two words of as many bytes.
pub or_each : List ℕ → List ℕ → List ℕ
or_each [] ys = []
or_each (x ∷ xs) [] = []
or_each (x ∷ xs) (y ∷ ys) = bit_or x y ∷ or_each xs ys

pub or_each-nil : (ys : List ℕ) → or_each [] ys ≡ []
unfolding or_each
or_each-nil ys = refl

pub or_each-step :
    (x y : ℕ) (xs ys : List ℕ) → or_each (x ∷ xs) (y ∷ ys) ≡ bit_or x y ∷ or_each xs ys
unfolding or_each
or_each-step x y xs ys = refl

pub bit_or-word_of :
    (xs ys : List ℕ)
    → All IsByte xs
    → All IsByte ys
    → length xs ≡ length ys
    → bit_or (word_of xs) (word_of ys) ≡ word_of (or_each xs ys)
unfolding word_of or_each
bit_or-word_of [] [] a b h = refl
bit_or-word_of [] (y ∷ ys) a b h = absurd (omega arith)
bit_or-word_of (x ∷ xs) [] a b h = absurd (omega arith)
bit_or-word_of (x ∷ xs) (y ∷ ys) a b h =
    bit_or-split 8 x (word_of xs) y (word_of ys) a.0 b.0
    ∙ ap (λ w. bit_or x y + 256 * w) (bit_or-word_of xs ys a.1 b.1 (omega arith))
