-- ===== src/Unicode/Pack.antt =====
-- unicode_confirm.go: `makeUnicodePairConfirm` and `makeUnicodePairVariableConfirm`. The empty
-- string, which stands for no confirmation, is none.
use casei.Base.{
  ℕ, suc, ◌+◌, ◌*◌, Bool, ◌||◌, not, Option, some, none, ◌>>=◌, List, [], ◌∷◌, ltb, ◌==◌,
  if◌then◌else◌, length, any, set, drop, replicate, Bytes, bit_or, u8,
}
use casei.Utf8.{unit_starts, utf_max}
use casei.Unicode.Forms.{UnitForms, pattern_raw_forms}
use casei.Unicode.Confirm.{
  max_parts, part_size, max_length_at, anchor_at_at, n_at, valid_at, packed_size, min_at,
  variable_size, variable_flag, copy_to, Packing, opaque_at, pack_units, skip_list, bad_confirm_at,
}

module _ (simple_fold : ℕ → ℕ) (pattern : Bytes) (anchor_at : ℕ) where
  -- The last checks, and the trailing bytes.
  unfoldable pub finish_packing : ℕ → Packing → Option Bytes
  finish_packing skip_n p =
      let c = set p.packed max_length_at (u8 p.at) in
      let c' = set (set c anchor_at_at (u8 anchor_at)) n_at (u8 p.parts) in
      if not (p.at == length pattern) || p.parts + p.skipped == 0 || not (p.skipped == skip_n)
      then none
      else some (set c' valid_at (bit_or 1 (u8 (p.skipped * 2))))

  -- `confirm_at` is the optional last argument.
  unfoldable pub make_confirm : Option ℕ → Option Bytes
  make_confirm confirm_at =
      let skipped_at = skip_list anchor_at confirm_at in
      let packing : Packing = record {
        packed = replicate packed_size 0;
        at = 0;
        parts = 0;
        skipped = 0;
      } in
      let packed =
        pack_units skipped_at (λ at. opaque_at (drop at pattern))
          (pattern_raw_forms simple_fold pattern) packing in
      if ltb 255 anchor_at || ltb 255 (length pattern) || bad_confirm_at anchor_at confirm_at
      then none
      else packed >>= finish_packing (length skipped_at)

-- The part of one unit: its forms from the slot on, and the widths seen so far.
pub record Widths : Type 0 where
  pub packed : Bytes
  pub least : ℕ
  pub greatest : ℕ

unfoldable pub pack_forms : ℕ → ℕ → List Bytes → Widths → Option Widths
pack_forms part_at slot [] w = some w
pack_forms part_at slot (form ∷ forms) w =
    let n = length form in
    let more = pack_forms part_at (suc slot) forms (record {
      packed = copy_to w.packed (part_at + slot * 3) form;
      least = if ltb n w.least then n else w.least;
      greatest = if ltb w.greatest n then n else w.greatest;
    }) in
    if n == 0 || ltb 3 n then none else more

-- The parts from `part` on; `least` and `greatest` are minLength and maxLength.
unfoldable pub pack_variable : ℕ → List UnitForms → Widths → Option Widths
pack_variable part [] w = some w
pack_variable part (unit ∷ units) w =
    let part_at = part * part_size in
    let n = length unit.forms in
    let packed =
      pack_forms part_at 0 unit.forms
        (record { packed = w.packed; least = utf_max + 1; greatest = 0 }) in
    if n == 0 || ltb 3 n
    then none
    else packed >>= (λ u. pack_variable (suc part) units (record {
      packed = set u.packed (part_at + 9) (u8 n);
      least = w.least + u.least;
      greatest = w.greatest + u.greatest;
    }))

unfoldable pub finish_variable : ℕ → ℕ → Widths → Option Bytes
finish_variable anchor_at n w =
    let c = set w.packed max_length_at (u8 w.greatest) in
    let c' = set (set c anchor_at_at (u8 anchor_at)) n_at (u8 n) in
    if w.least == w.greatest || ltb 255 w.greatest
    then none
    else some (set (set c' valid_at (bit_or 1 variable_flag)) min_at (u8 w.least))

-- `utf8.ValidString`: no unit is a malformed byte.
unfoldable pub valid_string : Bytes → Bool
valid_string s = not (any (λ at. opaque_at (drop at s)) (unit_starts s))

unfoldable pub make_variable_confirm : (ℕ → ℕ) → Bytes → ℕ → Option Bytes
make_variable_confirm simple_fold pattern anchor_at =
    let forms = pattern_raw_forms simple_fold pattern in
    let n = length forms in
    let empty : Widths = record { packed = replicate variable_size 0; least = 0; greatest = 0 } in
    if ltb 255 anchor_at || not (valid_string pattern)
    then none
    else if n == 0 || ltb max_parts n
    then none
    else pack_variable 0 forms empty >>= finish_variable anchor_at n
