-- ===== src/Utf8/Size.antt =====
-- The size of a decoded unit.
use casei.Base.{ℕ, ◌≤◌, [], ◌∷◌, arith, length, Bytes}
use casei.Utf8.{decode_rune}

pub decode-size :
    (b : ℕ) (s : Bytes) → (1 ≤ (decode_rune (b ∷ s)).1) × ((decode_rune (b ∷ s)).1 ≤ length (b ∷ s))
unfolding decode_rune
decode-size b [] = ground arith
decode-size b (c ∷ []) = ground arith
decode-size b (c ∷ d ∷ []) = ground arith
decode-size b (c ∷ d ∷ e ∷ s) = ground arith
