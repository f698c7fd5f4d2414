-- ===== src/Unicode/Confirm.antt =====
-- unicode_confirm.go: the packed raw forms of one literal, as the bytes that the code packs.
use casei.Base.{
  ℕ, suc, ◌+◌, ◌-◌, ◌*◌, ◌/◌, Bool, true, false, ◌&&◌, ◌||◌, not, Option, some, none, ◌>>=◌, List,
  [], ◌∷◌, ◌++◌, ltb, leb, ◌==◌, if◌then◌else◌, length, any, set, replicate, Bytes, byte_at,
  bit_and, u8,
}
use casei.Utf8.{decode_rune, rune_error}
use casei.Unicode.Forms.{UnitForms}

abbrev pub max_parts : ℕ
max_parts = 20

abbrev pub part_size : ℕ
part_size = 10

abbrev pub skipped_parts : ℕ
skipped_parts = 2

abbrev pub skipped_start : ℕ
skipped_start = (max_parts - skipped_parts) * part_size

abbrev pub max_length_at : ℕ
max_length_at = max_parts * part_size

abbrev pub anchor_at_at : ℕ
anchor_at_at = max_length_at + 1

abbrev pub n_at : ℕ
n_at = max_length_at + 2

abbrev pub valid_at : ℕ
valid_at = max_length_at + 3

abbrev pub packed_size : ℕ
packed_size = max_length_at + 4

abbrev pub min_at : ℕ
min_at = packed_size

abbrev pub variable_size : ℕ
variable_size = packed_size + 1

abbrev pub variable_flag : ℕ
variable_flag = 2

unfoldable pub is_variable : Bytes → Bool
is_variable c = ltb valid_at (length c) && not (bit_and (byte_at c valid_at) variable_flag == 0)

abbrev pub max_length : Bytes → ℕ
max_length c = byte_at c max_length_at

unfoldable pub min_length : Bytes → ℕ
min_length c = if is_variable c && length c == variable_size then byte_at c min_at else max_length c

abbrev pub anchor_of : Bytes → ℕ
anchor_of c = byte_at c anchor_at_at

abbrev pub skipped_n : Bytes → ℕ
skipped_n c = byte_at c valid_at / 2

unfoldable pub is_valid : Bytes → Bool
is_valid c =
    let parts = byte_at c n_at in
    if (not (length c == packed_size) && not (length c == variable_size))
      || bit_and (byte_at c valid_at) 1 == 0
      || max_length c == 0
      || leb (max_length c) (anchor_of c)
    then false
    else if is_variable c
    then length c == variable_size
      && ltb 0 parts
      && leb parts max_parts
      && ltb 0 (byte_at c min_at)
      && leb (byte_at c min_at) (max_length c)
    else if not (length c == packed_size)
    then false
    else (skipped_n c == 0 || skipped_n c == skipped_parts)
      && leb (parts + skipped_n c) max_parts
      && (not (parts == 0) || not (skipped_n c == 0))

-- copy(packed[at:], bytes)
unfoldable pub copy_to : Bytes → ℕ → Bytes → Bytes
copy_to packed at [] = packed
copy_to packed at (b ∷ bytes) = copy_to (set packed at b) (suc at) bytes

-- packedPart: the values of the forms, two bytes each, with the offset, the width and the count.
unfoldable pub part_values : ℕ → List Bytes → Bytes → Option Bytes
part_values width [] part = some part
part_values width (form ∷ forms) part =
    let more =
      part_values width forms
        (part ++ byte_at form 0 ∷ (if width == 2 then byte_at form 1 else 0) ∷ []) in
    if not (length form == width) then none else more

abbrev pub pad_to_six : Bytes → Bytes
pad_to_six values = copy_to (replicate 6 0) 0 values

unfoldable pub packed_part : ℕ → ℕ → List Bytes → Option Bytes
packed_part at width unit =
    part_values width unit []
    >>= (λ values. some (pad_to_six values ++ u8 at ∷ u8 width ∷ u8 (length unit) ∷ 0 ∷ []))

-- The variables of the loop over the forms.
pub record Packing : Type 0 where
  pub packed : Bytes
  pub at : ℕ
  pub parts : ℕ
  pub skipped : ℕ

-- `unit[0]`.
abbrev first_form : List Bytes → Bytes
first_form [] = []
first_form (form ∷ forms) = form

abbrev pub place : ℕ → Bool → Packing → ℕ → Bytes → Option Packing
place skip_n true p size part =
    if p.skipped == skip_n
    then none
    else some (record p {
      packed = copy_to p.packed (skipped_start + p.skipped * part_size) part;
      skipped = p.skipped + 1;
      at = p.at + size;
    })
place skip_n false p size part =
    if p.parts == max_parts - skip_n
    then none
    else some (record p {
      packed = copy_to p.packed (p.parts * part_size) part;
      parts = p.parts + 1;
      at = p.at + size;
    })

-- `skipped_at` holds the offsets to be skipped; `size` is the unit's width in the pattern, and
-- `opaque` whether the unit is a malformed byte.
unfoldable pub pack_unit : List ℕ → Bool → UnitForms → Packing → Option Packing
pack_unit skipped_at opaque unit p =
    let width = length (first_form unit.forms) in
    if opaque || length unit.forms == 0 || ltb 3 (length unit.forms)
    then none
    else if ltb width 1 || ltb 2 width || not (width == unit.width)
    then none
    else packed_part p.at width unit.forms
      >>= (λ part. place (length skipped_at) (any (λ o. p.at == o) skipped_at) p unit.width part)

-- Whether the rune at the offset is a malformed byte.
abbrev pub opaque_at : Bytes → Bool
opaque_at s = (decode_rune s).0 == rune_error && (decode_rune s).1 == 1

unfoldable pub pack_units : List ℕ → (ℕ → Bool) → List UnitForms → Packing → Option Packing
pack_units skipped_at opaque [] p = some p
pack_units skipped_at opaque (unit ∷ units) p =
    pack_unit skipped_at (opaque p.at) unit p >>= (λ p'. pack_units skipped_at opaque units p')

abbrev pub skip_list : ℕ → Option ℕ → List ℕ
skip_list anchor none = []
skip_list anchor (some confirm) = anchor ∷ confirm ∷ []

abbrev pub bad_confirm_at : ℕ → Option ℕ → Bool
bad_confirm_at anchor none = false
bad_confirm_at anchor (some confirm) = ltb 255 confirm || confirm == anchor
