-- ===== src/Unicode/Match/Bounds.antt =====
-- unicode_confirm.go: the width that `matchWidthAt` gives.
use casei.Base.{
  ℕ, zero, suc, ◌+◌, ◌≤◌, some, arith, length, Bytes, byte_at, ◌≡◌, inl, inr, Option-cases,
}
use casei.Unicode.Confirm.{part_size, n_at, is_valid}
use casei.Unicode.Match.{match_form, match_parts, match_width_at}

match_form-bounds :
    (rounds : ℕ) (c s : Bytes) (at form_at width : ℕ)
    → match_form rounds c s at form_at ≡ some width
    → at ≤ length s
    → (at + width ≤ length s) × (1 ≤ width)
unfolding match_form
match_form-bounds zero c s at form_at width e h = absurd (cc)
match_form-bounds (suc rounds) c s at form_at width e h =
    ground (arith, match_form-bounds rounds c s at (form_at + 3) width)

match_parts-bounds :
    (rounds : ℕ) (c s : Bytes) (at part_at stop : ℕ)
    → match_parts rounds c s at part_at ≡ some stop
    → at ≤ length s
    → (stop ≤ length s) × (at + rounds ≤ stop)
unfolding match_parts
match_parts-bounds zero c s at part_at stop e h = ground arith
match_parts-bounds (suc rounds) c s at part_at stop e h =
    elim (Option-cases (match_form (byte_at c (part_at + 9)) c s at part_at)) [
      | inl no_form ↦ absurd (let e' = rw no_form at e in cc)
      | inr (width, form) ↦
          let b = match_form-bounds (byte_at c (part_at + 9)) c s at part_at width form h in
          let e' : match_parts rounds c s (at + width) (part_at + part_size) ≡ some stop =
            rw form at e in
          let onward =
            match_parts-bounds rounds c s (at + width) (part_at + part_size) stop e' b.0 in
          (onward.0, omega arith)
    ]

-- At a start inside the text, the width that a packed confirmation gives is at least one byte
-- and does not pass the end of the text, whatever bytes the packed forms hold.
pub match_width_at-bounds :
    (c s : Bytes) (start width : ℕ)
    → start ≤ length s
    → match_width_at c s start ≡ some width
    → (1 ≤ width) × (start + width ≤ length s)
unfolding match_width_at is_valid
match_width_at-bounds c s start width h e =
    elim (Option-cases (match_parts (byte_at c n_at) c s start 0)) [
      | inl no_parts ↦ let e' = rw no_parts at e in ground arith
      | inr (stop, parts) ↦
          let e' = rw parts at e in
          ground (arith, match_parts-bounds (byte_at c n_at) c s start 0 stop)
    ]
