-- ===== src/Plan/Roots.antt =====
-- plan.go: the bytes at which a fold plan leaves its root, which `finishFoldFilters` marks and
-- classifies, and `asciiTokenKind`.
pub mod Kind
pub mod Marked
use casei.Base.{
  ℕ, Bool, ◌&&◌, ◌||◌, ◌==◌, leb, if◌then◌else◌, zero, suc, ◌+◌, ◌*◌, ◌/◌, ◌-◌, ◌%◌, ◌^◌, true,
  false, Option, some, none, List, [], ◌∷◌, arith, bit_xor, length, get_or, get_elem?, set, Bytes,
  byte_at, ◌≡◌, ◌<◌, ◌≤◌, not, ltb, drop, ◌>>=◌, refl, scan, inl, AreBytes, ap, replicate, take,
  inr, Bool-cases, ◌≢◌, bit_and, any, All, ◌∙◌, sym, Option-cases, ◌++◌, bit_or, u8, map, word_of,
  or_each, bit_or-above, pow_eight, word_of-step, word_of-nil, bit_or-zero_right, or_each-nil,
  or_each-step, bit_or-word_of, byte_at-IsByte, fold_case_lem, ◌⊎◌, flag, scan-IsFirst,
  length-replicate, length-set, get_or-set, any-append, length-append, ap₂, get_or-set_of_lt,
  All-get_elem?, slot_bit, fold_case, ◌↔◌, has_bit, has_bit-and, has_bit-or, has_bit-zero, Bool-ext,
  low_nibble_lem, IsByte, has_bit-slot_bit, any_intro, any→Found, lt_of_get_elem?, has_bit-ne_zero,
  has_bit_of_ne_zero, flip_lem, scan_congr, or_assoc, any_two, All-intro, any_congr, has_bit-pow,
  low_six_lem, IsFirst,
}
use casei.Utf8.{rune_self}
use casei.Ascii.{is_ascii_letter}
use casei.Filter.Skip.{RootKind}
use casei.Filter.Skip.RootKind.{generic, exact, ascii_fold}
use casei.Plan.Tokens.{Table, look, Tokens}
use casei.Plan.Trie.{PlanNode, PlanOutput, node_at}

-- values[:count], of which two are kept.
pub record Values : Type 0 where
  pub kept : List ℕ
  pub count : ℕ

abbrev pub no_values : Values
no_values = record { kept = []; count = 0 }

abbrev pub keep : ℕ → Values → Values
keep byte v = record {
  kept = if ltb v.count 2 then v.kept ++ byte ∷ [] else v.kept;
  count = suc v.count;
}

-- The loop over p.ascii, whose index is the byte.
unfoldable pub collect_bytes : (ℕ → Bool) → List ℕ → ℕ → Values → Values
collect_bytes accepts [] byte v = v
collect_bytes accepts (token ∷ tokens) byte v =
    collect_bytes accepts tokens (suc byte) (if accepts token then keep byte v else v)

abbrev pub value_at : Values → ℕ → ℕ
value_at v i = get_or v.kept i 0

-- One byte, or the two cases of one letter; the needle is 0 for the rest.
unfoldable pub classify : Values → RootKind × ℕ
classify v =
    if v.count == 1
    then (exact, value_at v 0)
    else if v.count == 2
        && fold_case (value_at v 0) == fold_case (value_at v 1)
        && is_ascii_letter (value_at v 0)
        && is_ascii_letter (value_at v 1)
    then (ascii_fold, fold_case (value_at v 0))
    else (generic, 0)

unfoldable pub ascii_token_kind : List ℕ → ℕ → RootKind × ℕ
ascii_token_kind ascii token = classify (collect_bytes (λ t. t == token) ascii 0 no_values)

-- The keys of a map are distinct, so that their order does not matter.
unfoldable pub fill_ascii : Table → List ℕ → List ℕ
fill_ascii [] ascii = ascii
fill_ascii ((r, token) ∷ runes) ascii =
    fill_ascii runes (if ltb r rune_self then set ascii r token else ascii)

abbrev pub has_edge : Option ℕ → Bool
has_edge none = false
has_edge (some child) = true

abbrev pub is_root_token : Table → ℕ → Bool
is_root_token edges token = not (token == 0) && has_edge (look edges token)

unfoldable pub mark_roots : (ℕ → Bool) → List ℕ → ℕ → List ℕ → List ℕ
mark_roots accepts [] byte row = row
mark_roots accepts (token ∷ tokens) byte row =
    mark_roots accepts tokens (suc byte) (if accepts token then set row byte 1 else row)

-- rootByte behind its first loop.
abbrev pub non_ascii_row : List ℕ
non_ascii_row = replicate 128 0 ++ replicate 128 1

-- Of the bytes that are given, one that continues a rune has a token of its own.
unfoldable pub opaque_from : List ℕ → ℕ → Bool
opaque_from [] byte = false
opaque_from (token ∷ tokens) byte =
    let rest = opaque_from tokens (suc byte) in
    if leb rune_self byte && ltb byte 0xc0 && not (token == 0) then true else rest

pub record RootScreen : Type 0 where
  pub ascii : List ℕ
  pub root_byte : List ℕ
  pub opaque_continuation : Bool
  pub root : RootKind × ℕ
  pub pair : RootKind × ℕ

abbrev pub follows : Option ℕ → Table → List ℕ → RootKind × ℕ
follows none ((token, child) ∷ []) ascii = ascii_token_kind ascii token
follows _ _ ascii = (generic, 0)

abbrev pub state_of : Option ℕ → ℕ
state_of none = 0
state_of (some child) = child

unfoldable pub pair_of : RootKind → List PlanNode → List ℕ → ℕ → RootKind × ℕ
pair_of generic nodes ascii first = (generic, 0)
pair_of _ nodes ascii first =
    let state = state_of (look (node_at nodes 0).edges (byte_at ascii first)) in
    let node = node_at nodes state in follows node.output.pattern node.edges ascii

unfoldable pub finish_roots : Tokens → List PlanNode → RootScreen
finish_roots t nodes =
    let ascii = fill_ascii t.runes (replicate 128 0) in
    let is_root = is_root_token (node_at nodes 0).edges in
    let values = collect_bytes is_root ascii 0 no_values in
    let root = classify values in
    record {
      ascii = ascii;
      root_byte = mark_roots is_root ascii 0 non_ascii_row;
      opaque_continuation = opaque_from t.byte_tokens 0;
      root = root;
      pair = pair_of (root.0) nodes ascii (value_at values 0);
    }
