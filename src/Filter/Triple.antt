-- ===== src/Filter/Triple.antt =====
-- plan.go: `tripleFilter` and `tripleShuftiFilter`; root_other.go: the loops that skip by them.
pub mod Exact
use casei.Base.{
  ℕ, zero, suc, ◌-◌, ◌<◌, ◌≤◌, Bool, true, false, ◌&&◌, ◌||◌, not, List, [], ◌∷◌, ◌++◌, arith,
  bit_and, bit_or, bit_xor, ltb, ◌==◌, if◌then◌else◌, length, any, Bytes, byte_at, slot_bit, flag,
  fold_case, scan,
}
use casei.Filter.Slots.{Nibbles, no_nibbles, add, admits}

pub record RootTriple : Type 0 where
  pub first : ℕ
  pub second : ℕ
  pub third : ℕ
  pub fold : ℕ

pub record TripleShuftiFilter : Type 0 where
  pub first : Nibbles
  pub second : Nibbles
  pub third : Nibbles
  pub valid : ℕ

abbrev pub empty_shufti : TripleShuftiFilter
empty_shufti = record { first = no_nibbles; second = no_nibbles; third = no_nibbles; valid = 0 }

-- `values` is the used prefix of the array: `n` is its length, and its capacity is 16.
pub record TripleFilter : Type 0 where
  pub values : List RootTriple
  pub shufti : TripleShuftiFilter

abbrev pub triple_capacity : ℕ
triple_capacity = 16

abbrev pub triple_shufti_slots : ℕ
triple_shufti_slots = 8

unfoldable pub triple_eq : RootTriple → RootTriple → Bool
triple_eq a b = a.first == b.first && a.second == b.second && a.third == b.third && a.fold == b.fold

-- `add`: the filter afterwards, and whether the triple is in it.
unfoldable pub triple_add : TripleFilter → ℕ → ℕ → ℕ → ℕ → TripleFilter × Bool
triple_add f first second third fold =
    let triple : RootTriple = record {
      first = first;
      second = second;
      third = third;
      fold = fold;
    } in
    if any (λ t. triple_eq t triple) f.values
    then (f, true)
    else if length f.values == triple_capacity
    then (f, false)
    else (record f { values = f.values ++ triple ∷ [] }, true)

-- The bytes of one position: the value, and its other case where the position is folded.
unfoldable pub add_case : Nibbles → ℕ → Bool → ℕ → Nibbles
add_case t value folded bit =
    let t' = add t value bit in if folded then add t' (bit_xor value 0x20) bit else t'

unfoldable pub fill_triples : ℕ → TripleShuftiFilter → List RootTriple → TripleShuftiFilter
fill_triples i out [] = out
fill_triples i out (triple ∷ rest) =
    fill_triples (suc i)
      (record out {
        first = add_case out.first triple.first (flag triple.fold 1) (slot_bit i);
        second = add_case out.second triple.second (flag triple.fold 2) (slot_bit i);
        third = add_case out.third triple.third (flag triple.fold 4) (slot_bit i);
      })
      rest

unfoldable pub make_triple_shufti_filter : TripleFilter → TripleShuftiFilter
make_triple_shufti_filter filter =
    let n = length filter.values in
    if ltb n 4 || ltb triple_shufti_slots n
    then empty_shufti
    else record (fill_triples 0 empty_shufti filter.values) { valid = 1 }

unfoldable pub triple_shufti_at : ℕ → ℕ → ℕ → TripleShuftiFilter → Bool
triple_shufti_at first second third filter =
    let matches = admits filter.first first in
    let matches' = bit_and matches (admits filter.second second) in
    let matches'' = bit_and matches' (admits filter.third third) in not (matches'' == 0)

unfoldable pub triple_shufti_skip_scalar : Bytes → ℕ → TripleShuftiFilter → ℕ
triple_shufti_skip_scalar s start filter =
    let test = λ (at : ℕ).
      triple_shufti_at (byte_at s at) (byte_at s (suc at)) (byte_at s (suc (suc at))) filter in
    scan (length s - 2 - start) test start - start

-- The comparison in the body of `tripleSkipScalar`.
unfoldable pub triple_at : ℕ → ℕ → ℕ → RootTriple → Bool
triple_at a b c triple =
    let first = if flag triple.fold 1 then fold_case a else a in
    let second = if flag triple.fold 2 then fold_case b else b in
    let third = if flag triple.fold 4 then fold_case c else c in
    first == triple.first && second == triple.second && third == triple.third

unfoldable pub triple_skip_scalar : Bytes → ℕ → TripleFilter → ℕ
triple_skip_scalar s start filter =
    let test = λ (at : ℕ).
      any (triple_at (byte_at s at) (byte_at s (suc at)) (byte_at s (suc (suc at))))
        filter.values in
    scan (length s - 2 - start) test start - start
