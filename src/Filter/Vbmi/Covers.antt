-- ===== src/Filter/Vbmi/Covers.antt =====
-- plan.go: the six-bit tables beside the exact comparison.
use casei.Base.{
  ℕ, suc, ◌+◌, ◌≡◌, ◌≢◌, refl, true, ◌&&◌, ◌||◌, arith, bit_and, bit_or, ◌==◌, length, Bytes,
  byte_at, IsByte, has_bit, has_bit-and, has_bit-pow, has_bit-ne_zero, low_six_lem, length-set,
  Bool-cases, inl, inr,
}
use casei.Filter.Slots.{mark, has_bit-mark}
use casei.Filter.Vbmi.{
  no_table, add_pair_pair_slot, PairPairFilter, make_pair_pair_vbmi, pair_pair_at,
}

-- table[b & 0x3f], as VPERMB looks it up.
abbrev pub look_up : Bytes → ℕ → ℕ
look_up table b = byte_at table (bit_and b 0x3f)

length-mark : (t : Bytes) (i bit : ℕ) → length (mark t i bit) ≡ length t
unfolding mark
length-mark t i bit = length-set t i (bit_or (byte_at t i) bit)

-- Marking a byte sets the bits of its slot, and clears none.
marked :
    (k bit : ℕ) (t : Bytes) (v x : ℕ)
    → IsByte v
    → length t ≡ 64
    → has_bit k (look_up (mark t (bit_and v 0x3f) bit) x)
      ≡ (has_bit k (look_up t x) || (has_bit k bit && bit_and v 0x3f == bit_and x 0x3f))
marked k bit t v x hv n =
    has_bit-mark k t (bit_and v 0x3f) (bit_and x 0x3f) bit (omega (arith, low_six_lem v hv))

two_slots : Bytes → ℕ → ℕ → Bytes
two_slots t v w = add_pair_pair_slot (add_pair_pair_slot t v 1) w 2

two_slots-first :
    (v w : ℕ) → IsByte v → IsByte w → has_bit 0 (look_up (two_slots no_table v w) v) ≡ true
unfolding two_slots add_pair_pair_slot
two_slots-first v w hv hw = ground (
  arith,
  marked 0 2 (mark no_table (bit_and v 0x3f) 1) w v hw (length-mark no_table (bit_and v 0x3f) 1),
  marked 0 1 no_table v v hv refl,
  has_bit-pow 0 0,
)

two_slots-second :
    (v w : ℕ) → IsByte v → IsByte w → has_bit 1 (look_up (two_slots no_table v w) w) ≡ true
unfolding two_slots add_pair_pair_slot
two_slots-second v w hv hw = ground (
  arith,
  marked 1 2 (mark no_table (bit_and v 0x3f) 1) w w hw (length-mark no_table (bit_and v 0x3f) 1),
  has_bit-pow 1 1,
)

pair_meets : (k a b : ℕ) → has_bit k a ≡ true → has_bit k b ≡ true → bit_and a b ≢ 0
pair_meets k a b ha hb = has_bit-ne_zero k (bit_and a b) (ground (arith, has_bit-and k a b))

-- The tables of two pairs meet at the bytes of either pair.
pairs_meet :
    (v0 w0 v1 w1 a b : ℕ)
    → IsByte v0
    → IsByte w0
    → IsByte v1
    → IsByte w1
    → (a == v0 && b == w0 || a == v1 && b == w1) ≡ true
    → bit_and (look_up (two_slots no_table v0 v1) a) (look_up (two_slots no_table w0 w1) b) ≢ 0
pairs_meet v0 w0 v1 w1 a b hv0 hw0 hv1 hw1 h = elim (Bool-cases (a == v0 && b == w0)) [
  | inl zeroth ↦
      let ea : a ≡ v0 = ground arith in
      let eb : b ≡ w0 = ground arith in
      rw (ea, eb)
        (pair_meets 0 (look_up (two_slots no_table v0 v1) v0)
          (look_up (two_slots no_table w0 w1) w0) (two_slots-first v0 v1 hv0 hv1)
          (two_slots-first w0 w1 hw0 hw1))
  | inr first ↦
      let ea : a ≡ v1 = ground arith in
      let eb : b ≡ w1 = ground arith in
      rw (ea, eb)
        (pair_meets 1 (look_up (two_slots no_table v0 v1) v1)
          (look_up (two_slots no_table w0 w1) w1) (two_slots-second v0 v1 hv0 hv1)
          (two_slots-second w0 w1 hw0 hw1))
]

pub record ArePairBytes (f : PairPairFilter) : Type 0 where
  pub b0 : IsByte f.first0
  pub b1 : IsByte f.second0
  pub b2 : IsByte f.first1
  pub b3 : IsByte f.second1
  pub b4 : IsByte f.confirm_first0
  pub b5 : IsByte f.confirm_second0
  pub b6 : IsByte f.confirm_first1
  pub b7 : IsByte f.confirm_second1

-- Where pairPairAt accepts, the look-ups of the primary pair meet in a slot, and so do those of
-- the pair at the offset: the tables made from a filter of bytes screen out no accepted index.
pub pair_pair_vbmi_covers :
    (s : Bytes) (at : ℕ) (f : PairPairFilter)
    → ArePairBytes f
    → pair_pair_at s at f ≡ true
    → (bit_and
          (look_up (make_pair_pair_vbmi f).vbmi.first (byte_at s at))
          (look_up (make_pair_pair_vbmi f).vbmi.second (byte_at s (suc at)))
        ≢ 0)
      × (bit_and
            (look_up (make_pair_pair_vbmi f).vbmi.confirm_first (byte_at s (at + f.offset)))
            (look_up (make_pair_pair_vbmi f).vbmi.confirm_second (byte_at s (suc (at + f.offset))))
          ≢ 0)
unfolding make_pair_pair_vbmi pair_pair_at two_slots
pair_pair_vbmi_covers s at f h e = (
  pairs_meet f.first0 f.second0 f.first1 f.second1 (byte_at s at) (byte_at s (suc at)) h.b0 h.b1
      h.b2 h.b3 (ground arith),
  pairs_meet f.confirm_first0 f.confirm_second0 f.confirm_first1 f.confirm_second1
      (byte_at s (at + f.offset)) (byte_at s (suc (at + f.offset))) h.b4 h.b5 h.b6 h.b7
      (ground arith),
)
