-- ===== src/Unicode/Match.antt =====
-- unicode_confirm.go: `matchesPartAt` and `matchWidthAt`.
pub mod Bounds
use casei.Base.{
  ℕ, zero, suc, ◌+◌, ◌-◌, ◌*◌, ◌/◌, ◌%◌, ◌^◌, ◌<◌, ◌≤◌, Bool, true, false, ◌&&◌, ◌||◌, not, Option,
  some, none, ◌>>=◌, List, [], ◌∷◌, ◌++◌, arith, ltb, leb, ◌==◌, if◌then◌else◌, length, Bytes,
  byte_at,
}
use casei.Unicode.Confirm.{
  max_parts, part_size, skipped_parts, skipped_start, max_length_at, anchor_at_at, n_at, valid_at,
  packed_size, min_at, variable_size, variable_flag, is_variable, max_length, min_length, anchor_of,
  skipped_n, is_valid, copy_to, part_values, pad_to_six, packed_part, Packing, place, pack_unit,
  opaque_at, pack_units, skip_list, bad_confirm_at,
}

-- uint16(lo) | uint16(hi)<<8: the two bytes do not overlap.
abbrev pub word16 : ℕ → ℕ → ℕ
word16 lo hi = lo + 256 * hi

unfoldable pub matches_part_at : Bytes → Bytes → ℕ → ℕ → Bool
matches_part_at c s at part_at =
    let source = at + byte_at c (part_at + 6) in
    let hi = if byte_at c (part_at + 7) == 2 then byte_at s (source + 1) else 0 in
    let value = word16 (byte_at s source) hi in
    let form = λ (i : ℕ). word16 (byte_at c (part_at + 2 * i)) (byte_at c (part_at + 2 * i + 1)) in
    value == form 0
    || leb 2 (byte_at c (part_at + 8)) && value == form 1
    || leb 3 (byte_at c (part_at + 8)) && value == form 2

-- The width that the first byte of a form gives.
abbrev pub form_width : ℕ → ℕ
form_width first = if leb 0xe0 first then 3 else if leb 0xc0 first then 2 else 1

unfoldable pub equal_at : Bytes → ℕ → Bytes → ℕ → ℕ → Bool
equal_at s at c form_at zero = true
equal_at s at c form_at (suc width) =
    byte_at s at == byte_at c form_at && equal_at s (suc at) c (suc form_at) width

-- The loop over the forms of a part with `rounds` left: the width of the form that matches.
unfoldable pub match_form : ℕ → Bytes → Bytes → ℕ → ℕ → Option ℕ
match_form zero c s at form_at = none
match_form (suc rounds) c s at form_at =
    let width = form_width (byte_at c form_at) in
    let later = match_form rounds c s at (form_at + 3) in
    if ltb (length s - at) width
    then later
    else if equal_at s at c form_at width
    then some width
    else later

-- The loop over the parts of the variable layout with `rounds` left: where it ends.
unfoldable pub match_parts : ℕ → Bytes → Bytes → ℕ → ℕ → Option ℕ
match_parts zero c s at part_at = some at
match_parts (suc rounds) c s at part_at =
    match_form (byte_at c (part_at + 9)) c s at part_at
    >>= (λ width. match_parts rounds c s (at + width) (part_at + part_size))

-- The loop over the parts of the fixed layout.
unfoldable pub match_fixed : ℕ → Bytes → Bytes → ℕ → ℕ → Bool
match_fixed zero c s at part_at = true
match_fixed (suc rounds) c s at part_at =
    matches_part_at c s at part_at && match_fixed rounds c s at (part_at + part_size)

-- `matchWidthAt` at an offset that is not past the end of the text.
unfoldable pub match_width_at : Bytes → Bytes → ℕ → Option ℕ
match_width_at c s start =
    let stop = match_parts (byte_at c n_at) c s start 0 in
    if not (is_valid c) || ltb (length s - start) (min_length c)
    then none
    else if is_variable c
    then stop >>= (λ at. some (at - start))
    else if ltb (length s - start) (max_length c)
    then none
    else if match_fixed (byte_at c n_at) c s start 0
        && match_fixed (skipped_n c) c s start skipped_start
    then some (max_length c)
    else none
