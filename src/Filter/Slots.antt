-- ===== src/Filter/Slots.antt =====
-- Nibble tables of slot bits (plan.go, the tables of the Shufti filters): a byte is admitted to
-- slot k when the tables of both its nibbles hold bit k.
pub mod Fill
use casei.Base.{
  ℕ, zero, suc, ◌+◌, ◌*◌, ◌/◌, ◌%◌, ◌^◌, ◌<◌, ◌≡◌, refl, ◌↔◌, Bool, true, false, ◌&&◌, ◌||◌, Option,
  some, none, List, [], ◌∷◌, arith, bit_and, bit_or, ◌==◌, if◌then◌else◌, length, get_elem?, get_or,
  set, replicate, any, AreBytes, Bytes, byte_at, has_bit, has_bit-and, has_bit-or, has_bit-zero,
  length-set, get_or-set, Bool-ext, low_nibble_lem, Bool-cases, inl, inr,
}

-- table[index] |= bit
unfoldable pub mark : Bytes → ℕ → ℕ → Bytes
mark table index bit = set table index (bit_or (byte_at table index) bit)

pub record Nibbles : Type 0 where
  pub lo : Bytes
  pub hi : Bytes

abbrev pub no_nibbles : Nibbles
no_nibbles = record { lo = replicate 16 0; hi = replicate 16 0 }

-- lo[value&0x0f] |= bit; hi[value>>4] |= bit
unfoldable pub add : Nibbles → ℕ → ℕ → Nibbles
unfolding mark
add t value bit = record {
  lo = mark t.lo (bit_and value 0x0f) bit;
  hi = mark t.hi (value / 2 ^ 4) bit;
}

-- lo[value&0x0f] & hi[value>>4]
unfoldable pub admits : Nibbles → ℕ → ℕ
admits t value = bit_and (byte_at t.lo (bit_and value 0x0f)) (byte_at t.hi (value / 2 ^ 4))

unfoldable pub add_all : Nibbles → List ℕ → ℕ → Nibbles
add_all t [] bit = t
add_all t (v ∷ vs) bit = add_all (add t v bit) vs bit

pub record IsTable (t : Nibbles) : Type 0 where
  lo_16 : length t.lo ≡ 16
  hi_16 : length t.hi ≡ 16

pub no_nibbles-IsTable : IsTable no_nibbles
no_nibbles-IsTable = record { lo_16 = refl; hi_16 = refl }

pub add-IsTable : {t : Nibbles} (v bit : ℕ) → IsTable t → IsTable (add t v bit)
unfolding add
add-IsTable {t} v bit h = record {
  lo_16 = omega (
    arith,
    h.lo_16,
    length-set t.lo (bit_and v 0x0f) (bit_or (byte_at t.lo (bit_and v 0x0f)) bit),
  );
  hi_16 =
      omega (arith, h.hi_16, length-set t.hi (v / 2 ^ 4) (bit_or (byte_at t.hi (v / 2 ^ 4)) bit));
}

pub has_bit-mark :
    (k : ℕ) (t : Bytes) (i j bit : ℕ)
    → i < length t
    → has_bit k (byte_at (mark t i bit) j) ≡ (has_bit k (byte_at t j) || (has_bit k bit && i == j))
unfolding mark
has_bit-mark k t i j bit h =
    ground (arith, get_or-set t i j (bit_or (byte_at t i) bit) 0, has_bit-or k (byte_at t i) bit)

abbrev pub low_hit : ℕ → List ℕ → Bool
low_hit y vs = any (λ v. bit_and v 0x0f == y) vs

abbrev pub high_hit : ℕ → List ℕ → Bool
high_hit y vs = any (λ v. v / 2 ^ 4 == y) vs

pub add_all-lo :
    (k y bit : ℕ) (t : Nibbles) (vs : List ℕ)
    → IsTable t
    → AreBytes vs
    → has_bit k (byte_at (add_all t vs bit).lo y)
      ≡ (has_bit k (byte_at t.lo y) || (has_bit k bit && low_hit y vs))
unfolding add_all add
add_all-lo k y bit t [] h b = ground arith
add_all-lo k y bit t (v ∷ vs) h b = ground (
  arith,
  add_all-lo k y bit (add t v bit) vs (add-IsTable v bit h) b.1,
  has_bit-mark k t.lo (bit_and v 0x0f) y bit,
  low_nibble_lem v,
  h.lo_16,
)

pub add_all-hi :
    (k y bit : ℕ) (t : Nibbles) (vs : List ℕ)
    → IsTable t
    → AreBytes vs
    → has_bit k (byte_at (add_all t vs bit).hi y)
      ≡ (has_bit k (byte_at t.hi y) || (has_bit k bit && high_hit y vs))
unfolding add_all add
add_all-hi k y bit t [] h b = ground arith
add_all-hi k y bit t (v ∷ vs) h b = ground (
  arith,
  add_all-hi k y bit (add t v bit) vs (add-IsTable v bit h) b.1,
  has_bit-mark k t.hi (v / 2 ^ 4) y bit,
  h.hi_16,
)
