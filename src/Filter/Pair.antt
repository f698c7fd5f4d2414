-- ===== src/Filter/Pair.antt =====
-- plan.go: `rootFilter` and `pairShuftiFilter`; root_other.go: the loops that skip by them.
pub mod Raw
pub mod Tables
pub mod Exact
pub mod Sound
use casei.Base.{
  ℕ, zero, suc, ◌+◌, ◌-◌, ◌/◌, ◌%◌, ◌<◌, ◌≤◌, Bool, true, false, ◌&&◌, ◌||◌, not, Option, some,
  none, ◌>>=◌, List, [], ◌∷◌, ◌++◌, arith, bit_and, bit_or, bit_xor, ltb, leb, ◌==◌, if◌then◌else◌,
  length, any, get_or, set, take, Bytes, byte_at, slot_bit, flag, fold_case, scan,
}
use casei.Ascii.{is_ascii_letter}
use casei.Filter.Slots.{Nibbles, no_nibbles, add, admits}

-- `fold` has the flags rootPairFoldFirst = 1 and rootPairFoldSecond = 2.
pub record RootPair : Type 0 where
  pub first : ℕ
  pub second : ℕ
  pub fold : ℕ

pub record PairShuftiGroup : Type 0 where
  pub first : Nibbles
  pub second : Nibbles

-- `ones` is the used prefix of the array of the same name.
pub record PairShuftiFilter : Type 0 where
  pub groups : List PairShuftiGroup
  pub ones : List ℕ
  pub valid : ℕ

abbrev pub no_group : PairShuftiGroup
no_group = record { first = no_nibbles; second = no_nibbles }

abbrev pub no_shufti : PairShuftiFilter
no_shufti = record { groups = no_group ∷ no_group ∷ []; ones = []; valid = 0 }

-- `ones` and `pairs` are the used prefixes: their lengths are `oneN` and `pairN`.
pub record RootFilter : Type 0 where
  pub ones : List ℕ
  pub pairs : List RootPair
  pub shufti : PairShuftiFilter

abbrev pub root_capacity : ℕ
root_capacity = 16

unfoldable pub add_one : RootFilter → ℕ → RootFilter × Bool
add_one f value =
    if any (λ one. one == value) f.ones
    then (f, true)
    else if length f.ones == root_capacity
    then (f, false)
    else (record f { ones = f.ones ++ value ∷ [] }, true)

unfoldable pub pair_eq : RootPair → RootPair → Bool
pair_eq a b = a.first == b.first && a.second == b.second && a.fold == b.fold

unfoldable pub add_fold_pair : RootFilter → ℕ → ℕ → ℕ → RootFilter × Bool
add_fold_pair f first second fold =
    let pair : RootPair = record { first = first; second = second; fold = fold } in
    if any (λ p. pair_eq p pair) f.pairs
    then (f, true)
    else if length f.pairs == root_capacity
    then (f, false)
    else (record f { pairs = f.pairs ++ pair ∷ [] }, true)

unfoldable pub add_pair : RootFilter → ℕ → ℕ → RootFilter × Bool
add_pair f first second = add_fold_pair f first second 0

unfoldable pub make_pair_second : RootFilter → Bool
make_pair_second filter =
    if not (length filter.ones == 0) || not (length filter.pairs == 2)
    then false
    else not (any (λ pair. not (pair.fold == 0)) filter.pairs)

-- The two groups of eight slots hold sixteen raw pairs.
abbrev pub RawPair : Type 0
RawPair = ℕ × ℕ

abbrev pub raw_eq : ℕ → ℕ → RawPair → Bool
raw_eq first second pair = pair.0 == first && pair.1 == second

-- The closure `addRaw`; `none` is its result false.
unfoldable pub add_raw : List RawPair → ℕ → ℕ → Option (List RawPair)
add_raw raw first second =
    if any (raw_eq first second) raw
    then some raw
    else if length raw == 16
    then none
    else some (raw ++ (first, second) ∷ [])

unfoldable pub add_rights : List RawPair → ℕ → List ℕ → Option (List RawPair)
add_rights raw left [] = some raw
add_rights raw left (right ∷ rights) =
    add_raw raw left right >>= λ raw'. add_rights raw' left rights

unfoldable pub add_lefts : List RawPair → List ℕ → List ℕ → Option (List RawPair)
add_lefts raw [] rights = some raw
add_lefts raw (left ∷ lefts) rights =
    add_rights raw left rights >>= λ raw'. add_lefts raw' lefts rights

-- first[:firstN], and second[:secondN].
abbrev pub spellings : ℕ → Bool → List ℕ
spellings value folded =
    if folded && is_ascii_letter value then value ∷ bit_xor value 0x20 ∷ [] else value ∷ []

unfoldable pub collect_raw : Bool → List RawPair → List RootPair → Option (List RawPair)
collect_raw normalize raw [] = some raw
collect_raw true raw (pair ∷ pairs) =
    add_raw raw (fold_case pair.first) (fold_case pair.second) >>= λ raw'.
    collect_raw true raw' pairs
collect_raw false raw (pair ∷ pairs) =
    add_lefts raw (spellings pair.first (flag pair.fold 1))
      (spellings pair.second (flag pair.fold 2))
    >>= λ raw'. collect_raw false raw' pairs

unfoldable pub fill_groups : ℕ → List PairShuftiGroup → List RawPair → List PairShuftiGroup
fill_groups i groups [] = groups
fill_groups i groups (pair ∷ raw) =
    let group = get_or groups (i / 8) no_group in
    let bit = slot_bit (i % 8) in
    fill_groups (suc i)
      (set groups (i / 8)
        (record { first = add group.first pair.0 bit; second = add group.second pair.1 bit }))
      raw

unfoldable pub make_groups : Bool → RootFilter → Option (List RawPair) → PairShuftiFilter
make_groups normalize filter none = no_shufti
make_groups normalize filter (some raw) = if leb (length raw) 8 then no_shufti else record {
  groups = fill_groups 0 (no_group ∷ no_group ∷ []) raw;
  ones = if normalize then take 2 filter.ones else [];
  valid = 1;
}

unfoldable pub make_pair_shufti_filter : RootFilter → PairShuftiFilter
make_pair_shufti_filter filter =
    let one_n = length filter.ones in
    let normalize = one_n == 2 in
    if ltb (length filter.pairs) 5 || ltb 2 one_n || one_n == 1
    then no_shufti
    else make_groups normalize filter (collect_raw normalize [] filter.pairs)

abbrev pub group_at : ℕ → ℕ → PairShuftiGroup → Bool
group_at first second group =
    not (bit_and (admits group.first first) (admits group.second second) == 0)

unfoldable pub pair_shufti_at : ℕ → ℕ → PairShuftiFilter → Bool
pair_shufti_at first second filter =
    if any (λ one. first == one) filter.ones
    then true
    else if not (length filter.ones == 0)
    then any (group_at (fold_case first) (fold_case second)) filter.groups
    else any (group_at first second) filter.groups

unfoldable pub pair_shufti_skip_scalar : Bytes → ℕ → PairShuftiFilter → ℕ
pair_shufti_skip_scalar s start filter =
    let stop =
      scan (length s - 1 - start) (λ at. pair_shufti_at (byte_at s at) (byte_at s (suc at)) filter)
        start in
    if ltb (suc stop) (length s)
    then stop - start
    else if ltb stop (length s) && any (λ one. byte_at s stop == one) filter.ones
    then stop - start
    else length s - start

-- The comparison of a pair in the body of `filterSkipGeneralBytes`.
unfoldable pub pair_at : ℕ → ℕ → RootPair → Bool
pair_at b next pair =
    let left = if flag pair.fold 1 then fold_case b else b in
    let right = if flag pair.fold 2 then fold_case next else next in
    left == pair.first && right == pair.second

-- The body of `filterSkipGeneralBytes` at one byte: whether it returns there.
unfoldable pub root_at : Bytes → RootFilter → ℕ → Bool
root_at s filter at =
    any (λ one. byte_at s at == one) filter.ones
    || ltb (suc at) (length s) && any (pair_at (byte_at s at) (byte_at s (suc at))) filter.pairs

unfoldable pub filter_skip_general : Bytes → ℕ → RootFilter → ℕ
filter_skip_general s start filter = scan (length s - start) (root_at s filter) start - start

unfoldable pub filter_skip : Bytes → ℕ → RootFilter → ℕ
filter_skip s at filter =
    if not (filter.shufti.valid == 0)
    then pair_shufti_skip_scalar s at filter.shufti
    else filter_skip_general s at filter
