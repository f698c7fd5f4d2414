-- ===== src/Base/Bits.antt =====
-- Binary digits of `&` and `|` at variables, and tables over all bytes.
use Prim.Native.Nat.{
  ℕ, zero, suc, ◌+◌, ◌-◌, ◌*◌, ◌/◌, ◌%◌, ◌^◌, ◌≤◌, ◌<◌, min, max, bit_and, bit_or, bit_xor, digits,
  bit_and-bitwise, bit_or-bitwise,
}
use native.Mathlib.Nat.{le_refl, pow-suc}
use mathlib.Core.Path.{◌≡◌, refl}
use mathlib.Core.Logic.{◌≢◌, inl, inr}
use mathlib.Core.Bool.{Bool, true, false, not, ◌&&◌, ◌||◌}
use native.Mathlib.Omega.{arith}
use casei.Base.Compare.{◌==◌, ltb, ==_iff, if◌then◌else◌, Bool-cases}

-- The digit of weight 2 ^ k.
pub has_bit : ℕ → ℕ → Bool
has_bit zero m = m % 2 == 1
has_bit (suc k) m = has_bit k (m / 2)

pub has_bit-zero : (k : ℕ) → has_bit k 0 ≡ false
unfolding has_bit
has_bit-zero zero = refl
has_bit-zero (suc k) = has_bit-zero k

lowest_and : (x a b : ℕ) → ((x * 2 + min (a % 2) (b % 2)) % 2 == 1) ≡ (a % 2 == 1 && b % 2 == 1)
lowest_and x a b = ground arith

lowest_or : (x a b : ℕ) → ((x * 2 + max (a % 2) (b % 2)) % 2 == 1) ≡ (a % 2 == 1 || b % 2 == 1)
lowest_or x a b = ground arith

higher_and : (x a b : ℕ) → (x * 2 + min (a % 2) (b % 2)) / 2 ≡ x
higher_and x a b = omega arith

higher_or : (x a b : ℕ) → (x * 2 + max (a % 2) (b % 2)) / 2 ≡ x
higher_or x a b = omega arith

digits-and :
    (k n a b : ℕ) → a ≤ n → has_bit k (digits (λ y. 0) min n a b) ≡ (has_bit k a && has_bit k b)
unfolding has_bit
digits-and k zero zero b h = rw has_bit-zero
digits-and k (suc n) zero b h = rw has_bit-zero
digits-and k zero (suc a) b h = absurd (omega arith)
digits-and zero (suc n) (suc a) b h = lowest_and _ (suc a) b
digits-and (suc k) (suc n) (suc a) b h =
    rw (higher_and _ (suc a) b) (digits-and k n (suc a / 2) (b / 2) (omega arith))

digits-or :
    (k n a b : ℕ) → a ≤ n → has_bit k (digits (λ y. y) max n a b) ≡ (has_bit k a || has_bit k b)
unfolding has_bit
digits-or k zero zero b h = rw has_bit-zero
digits-or k (suc n) zero b h = rw has_bit-zero
digits-or k zero (suc a) b h = absurd (omega arith)
digits-or zero (suc n) (suc a) b h = lowest_or _ (suc a) b
digits-or (suc k) (suc n) (suc a) b h =
    rw (higher_or _ (suc a) b) (digits-or k n (suc a / 2) (b / 2) (omega arith))

pub has_bit-and : (k a b : ℕ) → has_bit k (bit_and a b) ≡ (has_bit k a && has_bit k b)
has_bit-and k a b = rw (bit_and-bitwise a b) (digits-and k a a b (le_refl a))

pub has_bit-or : (k a b : ℕ) → has_bit k (bit_or a b) ≡ (has_bit k a || has_bit k b)
has_bit-or k a b = rw (bit_or-bitwise a b) (digits-or k a a b (le_refl a))

-- `1 << i` has the one digit `i`.
pub has_bit-pow : (k i : ℕ) → has_bit k (2 ^ i) ≡ (i == k)
unfolding has_bit
has_bit-pow zero zero = refl
has_bit-pow zero (suc i) = ground (arith, pow-suc 2 i)
has_bit-pow (suc k) zero = ground (arith, has_bit-zero k)
has_bit-pow (suc k) (suc i) =
    let half : 2 ^ suc i / 2 ≡ 2 ^ i = omega (arith, pow-suc 2 i) in
    rw half (ground (arith, has_bit-pow k i))

-- A number is not 0 exactly if it has a digit.
pub has_bit-ne_zero : (k m : ℕ) → has_bit k m ≡ true → m ≢ 0
has_bit-ne_zero k m h e = cc (has_bit-zero k)

has_bit_of_le : (n m : ℕ) → m ≤ n → m ≢ 0 → (k : ℕ) × (has_bit k m ≡ true)
unfolding has_bit
has_bit_of_le zero m le ne = absurd (omega arith)
has_bit_of_le (suc n) m le ne = elim (Bool-cases (m % 2 == 1)) [
  | inl odd ↦ (0, odd)
  | inr even ↦ let (k, h) = has_bit_of_le n (m / 2) (omega arith) (ground arith) in (suc k, h)
]

pub has_bit_of_ne_zero : (m : ℕ) → m ≢ 0 → (k : ℕ) × (has_bit k m ≡ true)
has_bit_of_ne_zero m ne = has_bit_of_le m m (le_refl m) ne

-- The test holds of each of the first `count` numbers.
pub holds_to : (ℕ → Bool) → ℕ → Bool
holds_to test zero = true
holds_to test (suc count) = holds_to test count && test count

pub holds_to-apply :
    (test : ℕ → Bool) (count v : ℕ) → v < count → holds_to test count ≡ true → test v ≡ true
unfolding holds_to
holds_to-apply test zero v below every = absurd (omega arith)
holds_to-apply test (suc count) v below every = ground (arith, holds_to-apply test count v)

-- `x | 0x20` on a byte.
abbrev pub fold_case : ℕ → ℕ
fold_case x = bit_or x 0x20

fold_case_table : holds_to (λ x. bit_or x 0x20 == x + (1 - x / 32 % 2) * 32) 256 ≡ true
unfolding holds_to
fold_case_table = refl

pub fold_case_lem : (x : ℕ) → x < 256 → bit_or x 0x20 ≡ x + (1 - x / 32 % 2) * 32
fold_case_lem x h = (==_iff _ _).0 (holds_to-apply _ 256 x h fold_case_table)

low_nibble_table : holds_to (λ x. bit_and x 0x0f == x % 16) 256 ≡ true
unfolding holds_to
low_nibble_table = refl

pub low_nibble_lem : (x : ℕ) → x < 256 → bit_and x 0x0f ≡ x % 16
low_nibble_lem x h = (==_iff _ _).0 (holds_to-apply _ 256 x h low_nibble_table)

flip_table :
    holds_to (λ x. bit_xor x 0x20 == (if x / 32 % 2 == 1 then x - 32 else x + 32)) 256 ≡ true
unfolding holds_to
flip_table = refl

pub flip_lem : (x : ℕ) → x < 256 → bit_xor x 0x20 ≡ (if x / 32 % 2 == 1 then x - 32 else x + 32)
flip_lem x h = (==_iff _ _).0 (holds_to-apply _ 256 x h flip_table)

-- byte(1 << i)
abbrev pub slot_bit : ℕ → ℕ
slot_bit i = 2 ^ i % 2 ^ 8

pub pow_eight : (j : ℕ) → 2 ^ suc (suc (suc (suc (suc (suc (suc (suc j))))))) ≡ 256 * 2 ^ j
pow_eight j = omega (
  arith,
  pow-suc 2 j,
  pow-suc 2 (suc j),
  pow-suc 2 (suc (suc j)),
  pow-suc 2 (suc (suc (suc j))),
  pow-suc 2 (suc (suc (suc (suc j)))),
  pow-suc 2 (suc (suc (suc (suc (suc j))))),
  pow-suc 2 (suc (suc (suc (suc (suc (suc j)))))),
  pow-suc 2 (suc (suc (suc (suc (suc (suc (suc j))))))),
)

-- Past the eighth slot the byte holds no bit.
pub has_bit-slot_bit : (k i : ℕ) → has_bit k (slot_bit i) ≡ (i == k && ltb i 8)
has_bit-slot_bit k zero = ground (arith, has_bit-pow k 0)
has_bit-slot_bit k (suc zero) = ground (arith, has_bit-pow k 1)
has_bit-slot_bit k (suc (suc zero)) = ground (arith, has_bit-pow k 2)
has_bit-slot_bit k (suc (suc (suc zero))) = ground (arith, has_bit-pow k 3)
has_bit-slot_bit k (suc (suc (suc (suc zero)))) = ground (arith, has_bit-pow k 4)
has_bit-slot_bit k (suc (suc (suc (suc (suc zero))))) = ground (arith, has_bit-pow k 5)
has_bit-slot_bit k (suc (suc (suc (suc (suc (suc zero)))))) = ground (arith, has_bit-pow k 6)
has_bit-slot_bit k (suc (suc (suc (suc (suc (suc (suc zero))))))) = ground (arith, has_bit-pow k 7)
has_bit-slot_bit k (suc (suc (suc (suc (suc (suc (suc (suc j)))))))) =
    let gone : 256 * 2 ^ j % 2 ^ 8 ≡ 0 = omega arith in
    rw (pow_eight j, gone) (ground (arith, has_bit-zero k))

-- mask & value != 0
abbrev pub flag : ℕ → ℕ → Bool
flag value mask = not (bit_and value mask == 0)

low_six_table : holds_to (λ x. bit_and x 0x3f == x % 64) 256 ≡ true
unfolding holds_to
low_six_table = refl

pub low_six_lem : (x : ℕ) → x < 256 → bit_and x 0x3f ≡ x % 64
low_six_lem x h = (==_iff _ _).0 (holds_to-apply _ 256 x h low_six_table)
