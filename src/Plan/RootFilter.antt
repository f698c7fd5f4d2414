-- ===== src/Plan/RootFilter.antt =====
-- plan.go: `makeRootFilter`, which screens the root of a fold plan by its first bytes.
pub mod Covers
pub mod Required
pub mod Forms
pub mod Spellings
pub mod Complete
use casei.Base.{
  ℕ, Bool, ◌&&◌, ◌||◌, ◌==◌, leb, if◌then◌else◌, zero, suc, ◌+◌, ◌*◌, ◌/◌, ◌-◌, ◌%◌, ◌^◌, true,
  false, Option, some, none, List, [], ◌∷◌, arith, bit_xor, length, get_or, get_elem?, set, Bytes,
  byte_at, ◌≡◌, ◌<◌, ◌≤◌, not, ltb, drop, ◌>>=◌, refl, scan, inl, AreBytes, ap, replicate, take,
  inr, Bool-cases, ◌≢◌, bit_and, any, sym, ◌∙◌, ◌++◌, All, Option-cases, bit_or, u8, map, word_of,
  or_each, bit_or-above, pow_eight, word_of-step, word_of-nil, bit_or-zero_right, or_each-nil,
  or_each-step, bit_or-word_of, byte_at-IsByte, fold_case_lem, ◌⊎◌, flag, scan-IsFirst,
  length-replicate, length-set, get_or-set, any-append, length-append, ap₂, get_or-set_of_lt,
  All-get_elem?, slot_bit, fold_case, ◌↔◌, has_bit, has_bit-and, has_bit-or, has_bit-zero, Bool-ext,
  low_nibble_lem, IsByte, has_bit-slot_bit, any_intro, any→Found, lt_of_get_elem?, has_bit-ne_zero,
  has_bit_of_ne_zero, flip_lem, scan_congr, or_assoc, any_two, All-intro, any_congr, has_bit-pow,
  low_six_lem, IsFirst,
}
use casei.Utf8.{encode_rune, rune_self}
use casei.Ascii.{is_ascii_letter}
use casei.Filter.Pair.{RootFilter, no_shufti, add_one, add_pair, add_fold_pair}
use casei.Plan.Tokens.{Table, look, Tokens}
use casei.Plan.Trie.{PlanNode, PlanOutput, node_at}
use casei.Plan.Roots.{is_root_token, state_of}
use casei.Unicode.Forms.{same_bytes}

abbrev pub no_roots : RootFilter
no_roots = record { ones = []; pairs = []; shufti = no_shufti }

unfoldable pub root_usable : RootFilter → Bool
root_usable f = not (length f.ones == 0) || not (length f.pairs == 0)

-- forms[token] = append(forms[token], form)
abbrev pub append_form : List (List Bytes) → ℕ → Bytes → List (List Bytes)
append_form forms token form = set forms token (get_or forms token [] ++ form ∷ [])

-- The order in which a Go map gives its runes is open: here it is the order of insertion.
unfoldable pub rune_forms : Table → List (List Bytes) → List (List Bytes)
rune_forms [] forms = forms
rune_forms ((r, token) ∷ runes) forms = rune_forms runes (append_form forms token (encode_rune r))

unfoldable pub byte_forms : List ℕ → ℕ → List (List Bytes) → List (List Bytes)
byte_forms [] value forms = forms
byte_forms (token ∷ tokens) value forms =
    byte_forms tokens (suc value)
      (if token == 0 then forms else append_form forms token (value ∷ []))

-- A continuation byte that is a root token of its own.
unfoldable pub has_opaque_root : (ℕ → Bool) → List ℕ → ℕ → Bool
has_opaque_root is_root [] value = false
has_opaque_root is_root (token ∷ tokens) value =
    let rest = has_opaque_root is_root tokens (suc value) in
    if is_root token && leb 0x80 value && ltb value 0xc0 then true else rest

-- What an addition gives; `none` is its result false.
abbrev pub when_added : RootFilter × Bool → Option RootFilter
when_added (f, ok) = if ok then some f else none

abbrev pub first_prefix : RootFilter → Bytes → Option RootFilter
first_prefix f (c ∷ []) = when_added (add_one f c)
first_prefix f form = when_added (add_pair f (byte_at form 0) (byte_at form 1))

pub record PairForm : Type 0 where
  pub bytes : Bytes
  pub fold : Bool

-- `out` and `folded`, which has an entry for every ASCII byte.
pub record Compact : Type 0 where
  pub out : List PairForm
  pub folded : List Bool

abbrev pub lone_letter : Bytes → Option ℕ
lone_letter (c ∷ []) = if is_ascii_letter c then some (fold_case c) else none
lone_letter _ = none

abbrev pub is_prior : Bytes → PairForm → Bool
is_prior form prior = not prior.fold && same_bytes prior.bytes form

abbrev pub compact_with : Option ℕ → Bytes → Compact → Compact
compact_with (some lower) form c = if get_or c.folded lower false then c else record {
  out = c.out ++ record { bytes = lower ∷ []; fold = true } ∷ [];
  folded = set c.folded lower true;
}
compact_with none form c =
    if any (is_prior form) c.out
    then c
    else record c { out = c.out ++ record { bytes = form; fold = false } ∷ [] }

abbrev pub compact_form : Bytes → Compact → Compact
compact_form form c = compact_with (lone_letter form) form c

unfoldable pub compact_loop : List Bytes → Compact → Compact
compact_loop [] c = c
compact_loop (form ∷ forms) c = compact_loop forms (compact_form form c)

unfoldable pub compact_pair_forms : List Bytes → List PairForm
compact_pair_forms forms =
    (compact_loop forms (record { out = []; folded = replicate 128 false })).out

abbrev pub fold_bits : Bool → Bool → ℕ
fold_bits first second = bit_or (if first then 1 else 0) (if second then 2 else 0)

-- The inner loop: a form of one byte before the first byte of each second form.
abbrev pub second_pair : PairForm → PairForm → RootFilter → Option RootFilter
second_pair first second f =
    if length second.bytes == 0
    then none
    else when_added (
        add_fold_pair f (byte_at first.bytes 0) (byte_at second.bytes 0)
          (fold_bits first.fold second.fold))

unfoldable pub add_seconds : PairForm → List PairForm → RootFilter → Option RootFilter
add_seconds first [] f = some f
add_seconds first (second ∷ seconds) f =
    second_pair first second f >>= λ f'. add_seconds first seconds f'

abbrev pub first_pairs : PairForm → List PairForm → RootFilter → Option RootFilter
first_pairs first seconds f =
    if ltb 1 (length first.bytes)
    then when_added (add_pair f (byte_at first.bytes 0) (byte_at first.bytes 1))
    else add_seconds first seconds f

unfoldable pub add_firsts : List PairForm → List PairForm → RootFilter → Option RootFilter
add_firsts [] seconds f = some f
add_firsts (first ∷ firsts) seconds f =
    first_pairs first seconds f >>= λ f'. add_firsts firsts seconds f'

-- `none` leaves the filter as it was.
unfoldable pub add_required_next : RootFilter → List Bytes → List Bytes → Option RootFilter
add_required_next f first second =
    add_firsts (compact_pair_forms first) (compact_pair_forms second) f

unfoldable pub add_prefixes : List Bytes → RootFilter → Option RootFilter
add_prefixes [] f = some f
add_prefixes (form ∷ forms) f = first_prefix f form >>= λ f'. add_prefixes forms f'

-- The one token that must come next, if no pattern ends at the child.
abbrev pub next_of : Option ℕ → Table → Option ℕ
next_of none ((next, child) ∷ []) = some next
next_of _ _ = none

abbrev pub required : List PlanNode → ℕ → Option ℕ
required nodes token =
    let child = node_at nodes (state_of (look (node_at nodes 0).edges token)) in
    next_of child.output.pattern child.edges

abbrev pub or_prefixes : Option RootFilter → List Bytes → RootFilter → Option RootFilter
or_prefixes (some f') forms f = some f'
or_prefixes none forms f = add_prefixes forms f

abbrev pub attempt : Option ℕ → List (List Bytes) → List Bytes → RootFilter → Option RootFilter
attempt none forms root_forms f = none
attempt (some next) forms root_forms f = add_required_next f root_forms (get_or forms next [])

-- The body of the loop over the tokens; `none` is the early return of an empty filter.
unfoldable pub root_step :
    List PlanNode → List ℕ → List (List Bytes) → ℕ → RootFilter → Option RootFilter
root_step nodes exclude forms token f =
    let root_forms = get_or forms token [] in
    if not (is_root_token (node_at nodes 0).edges token)
      || not (byte_at exclude token == 0)
      || length root_forms == 0
    then some f
    else or_prefixes (attempt (required nodes token) forms root_forms f) root_forms f

-- `count` tokens from `token` on.
unfoldable pub root_loop :
    List PlanNode → List ℕ → List (List Bytes) → ℕ → ℕ → RootFilter → Option RootFilter
root_loop nodes exclude forms zero token f = some f
root_loop nodes exclude forms (suc count) token f = root_step nodes exclude forms token f >>= λ f'.
    root_loop nodes exclude forms count (suc token) f'

abbrev pub or_no_roots : Option RootFilter → RootFilter
or_no_roots none = no_roots
or_no_roots (some f) = f

unfoldable pub make_forms : Tokens → ℕ → List (List Bytes)
make_forms t stride = byte_forms t.byte_tokens 0 (rune_forms t.runes (replicate stride []))

unfoldable pub make_root_filter : Tokens → List PlanNode → ℕ → List ℕ → RootFilter
make_root_filter t nodes stride exclude =
    if has_opaque_root (is_root_token (node_at nodes 0).edges) t.byte_tokens 0
    then no_roots
    else or_no_roots (root_loop nodes exclude (make_forms t stride) (stride - 1) 1 no_roots)
