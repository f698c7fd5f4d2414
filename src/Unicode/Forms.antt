-- ===== src/Unicode/Forms.antt =====
-- plan.go: `patternRawForms`, `tripleFromForms` and `asciiFoldSpelling`. The fold orbits are those
-- of `unicode.SimpleFold`, which is the parameter `simple_fold`.
use casei.Base.{
  ℕ, zero, suc, Bool, true, false, ◌&&◌, Option, some, none, ◌>>=◌, List, [], ◌∷◌, ◌++◌, ltb, ◌==◌,
  if◌then◌else◌, length, any, take, drop, Bytes, byte_at, bit_or,
}
use casei.Utf8.{decode_rune, encode_rune, rune_error, rune_self}
use casei.Plan.Tokens.{orbit}
use casei.Filter.Triple.{TripleFilter, triple_add, empty_shufti}

-- Equal strings.
unfoldable pub same_bytes : Bytes → Bytes → Bool
same_bytes [] [] = true
same_bytes [] (y ∷ ys) = false
same_bytes (x ∷ xs) [] = false
same_bytes (x ∷ xs) (y ∷ ys) = x == y && same_bytes xs ys

-- The spellings of a unit, and its width in the pattern.
pub record UnitForms : Type 0 where
  pub forms : List Bytes
  pub width : ℕ

unfoldable pub add_form : List Bytes → Bytes → List Bytes
add_form unit form = if any (λ prior. same_bytes prior form) unit then unit else unit ++ form ∷ []

unfoldable pub add_forms : List Bytes → List ℕ → List Bytes
add_forms unit [] = unit
add_forms unit (member ∷ members) = add_forms (add_form unit (encode_rune member)) members

-- `-1` and the loop over the members: the first that is ASCII, with bit five set.
unfoldable pub ascii_member : List ℕ → Option ℕ
ascii_member [] = none
ascii_member (member ∷ members) =
    if ltb member rune_self then some (bit_or member 0x20) else ascii_member members

module _ (simple_fold : ℕ → ℕ) where
  -- `for at < len(pattern)`; the fuel is the length of the text that is left.
  unfoldable pub raw_forms_from : ℕ → Bytes → List UnitForms
  raw_forms_from zero s = []
  raw_forms_from (suc fuel) [] = []
  raw_forms_from (suc fuel) (c ∷ s) =
      let (r, size) = decode_rune (c ∷ s) in
      if r == rune_error && size == 1
      then record { forms = (c ∷ []) ∷ []; width = 1 } ∷ raw_forms_from fuel s
      else record { forms = add_forms [] (orbit simple_fold r); width = size }
        ∷ raw_forms_from fuel (drop size (c ∷ s))

  unfoldable pub pattern_raw_forms : Bytes → List UnitForms
  pattern_raw_forms pattern = raw_forms_from (length pattern) pattern

  -- A unit without an ASCII member makes the whole spelling none.
  unfoldable pub spelling_from : ℕ → Bytes → Option Bytes
  spelling_from zero s = some []
  spelling_from (suc fuel) [] = some []
  spelling_from (suc fuel) (c ∷ s) =
      let (r, size) = decode_rune (c ∷ s) in
      let rest = spelling_from fuel (drop size (c ∷ s)) in
      if r == rune_error && size == 1
      then none
      else ascii_member (orbit simple_fold r)
        >>= (λ value. rest >>= (λ values. some (value ∷ values)))

  unfoldable pub ascii_fold_spelling : Bytes → Option Bytes
  ascii_fold_spelling pattern = spelling_from (length pattern) pattern

-- `add` and its early return.
abbrev added : TripleFilter × Bool → Option TripleFilter
added (f, ok) = if ok then some f else none

-- `expand`: the prefix is filled to three bytes by each form of a unit in turn, and `onward` goes on
-- to the next unit. The result is none where the source returns false: the filter is full, or a unit is missing.
unfoldable pub expand_unit :
    (Bytes → TripleFilter → Option TripleFilter)
    → List Bytes
    → Bytes
    → TripleFilter
    → Option TripleFilter
expand_unit onward [] prefix f = some f
expand_unit onward (form ∷ forms) prefix f =
    let bytes = take 3 (prefix ++ form) in
    let full = added (triple_add f (byte_at bytes 0) (byte_at bytes 1) (byte_at bytes 2) 0) in
    (if length bytes == 3 then full else onward bytes f)
    >>= (λ f'. expand_unit onward forms prefix f')

unfoldable pub expand : List UnitForms → Bytes → TripleFilter → Option TripleFilter
expand [] prefix f = none
expand (unit ∷ units) prefix f = expand_unit (expand units) unit.forms prefix f

unfoldable pub triple_from_forms : List UnitForms → ℕ → Option TripleFilter
triple_from_forms forms start =
    expand (drop start forms) [] (record { values = []; shufti = empty_shufti })
