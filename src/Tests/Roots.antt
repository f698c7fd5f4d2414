-- ===== src/Tests/Roots.antt =====
-- The root screen of the fold plan for "kb".
use casei.Base.{
  true, get_elem?, get_or, ℕ, ◌≡◌, ◌==◌, ◌||◌, leb, if◌then◌else◌, refl, ap, sym, ◌∙◌, some, List,
  [], ◌∷◌, ◌++◌, arith, replicate, byte_at,
}
use casei.Utf8.{rune_self}
use casei.Ascii.{is_ascii_letter}
use casei.Filter.Skip.{RootKind}
use casei.Filter.Skip.RootKind.{generic, exact, ascii_fold}
use casei.Plan.Tokens.{Tokens, look}
use casei.Plan.Trie.{PlanNode, no_output}
use casei.Plan.Roots.{
  finish_roots, classify, collect_bytes, fill_ascii, pair_of, ascii_token_kind, is_root_token,
}
use casei.Plan.RootFilter.{
  required, make_root_filter, make_forms, root_usable, rune_forms, byte_forms, has_opaque_root,
  root_loop, root_step, add_required_next, compact_pair_forms, compact_loop, add_firsts,
  add_seconds, add_prefixes,
}
use casei.Plan.RootFilter.Complete.{is_screened, ComesNext, make_root_filter-Accepts}
use casei.Filter.Pair.{root_at, add_one, add_pair, add_fold_pair, pair_eq}
use casei.Unicode.Forms.{same_bytes}
use casei.Utf8.{encode_rune}
use casei.Plan.Roots.Kind.{agrees, ascii_token_kind-agrees}
use casei.Plan.Roots.Marked.{root_edges, finish_roots-agrees, finish_roots-Marked}

-- Token 1 is k, K and the Kelvin sign; token 2 is b and B.
abbrev two_letters : Tokens
two_letters = record {
  byte_tokens = replicate 256 0;
  runes = (b'k', 1) ∷ (b'K', 1) ∷ (0x212a, 1) ∷ (b'b', 2) ∷ (b'B', 2) ∷ [];
  next_token = 3;
}

abbrev chain : List PlanNode
chain =
    record { edges = (1, 1) ∷ []; failure = 0; output = no_output }
    ∷ record { edges = (2, 2) ∷ []; failure = 0; output = no_output }
    ∷ record { edges = []; failure = 0; output = record { pattern = some 0; units = 2 } }
    ∷ []

finds_root : (finish_roots two_letters chain).root ≡ (ascii_fold, b'k')
unfolding finish_roots classify collect_bytes fill_ascii is_ascii_letter look
finds_root = refl

finds_pair : (finish_roots two_letters chain).pair ≡ (ascii_fold, b'b')
unfolding finish_roots classify collect_bytes fill_ascii is_ascii_letter look pair_of
    ascii_token_kind
finds_pair = refl

known : ¬ (finish_roots two_letters chain).root.0 ≡ generic
known e =
    let kind : ascii_fold ≡ generic = sym (ap (λ (r : RootKind × ℕ). r.0) finds_root) ∙ e in cc

finish_roots-agrees_example :
    agrees (finish_roots two_letters chain).root b'K'
    ≡ is_root_token (root_edges chain) (byte_at (finish_roots two_letters chain).ascii b'K')
finish_roots-agrees_example = finish_roots-agrees two_letters chain b'K' (omega arith) known

finish_roots-Marked_example : byte_at (finish_roots two_letters chain).root_byte b'b' ≡ (
    if leb rune_self b'b'
      || is_root_token (root_edges chain) (byte_at (finish_roots two_letters chain).ascii b'b')
    then 1
    else 0)
finish_roots-Marked_example = finish_roots-Marked two_letters chain b'b' (omega arith)

abbrev few_letters : List ℕ
few_letters = replicate 98 0 ++ 7 ∷ 0 ∷ 7 ∷ 9 ∷ []

finds_letter : ascii_token_kind few_letters 9 ≡ (exact, b'e')
unfolding ascii_token_kind classify collect_bytes
finds_letter = refl

exact_known : ¬ (ascii_token_kind few_letters 9).0 ≡ generic
exact_known e =
    let kind : exact ≡ generic = sym (ap (λ (r : RootKind × ℕ). r.0) finds_letter) ∙ e in cc

ascii_token_kind-agrees_example :
    agrees (ascii_token_kind few_letters 9) b'e' ≡ (byte_at few_letters b'e' == 9)
ascii_token_kind-agrees_example =
    ascii_token_kind-agrees few_letters 9 b'e' (omega arith) (omega arith) (omega arith) exact_known

-- "kb", the Kelvin sign before "b" as its first two bytes.
is_usable : root_usable (make_root_filter two_letters chain 3 []) ≡ true
unfolding make_root_filter make_forms root_usable rune_forms byte_forms has_opaque_root root_loop
    root_step add_required_next compact_pair_forms compact_loop add_firsts add_seconds add_prefixes
    add_one add_pair add_fold_pair pair_eq same_bytes encode_rune is_ascii_letter look
is_usable = refl

has_kelvin : get_elem? (get_or (make_forms two_letters 3) 1 []) 2 ≡ some (0xe2 ∷ 0x84 ∷ 0xaa ∷ [])
unfolding make_forms rune_forms byte_forms encode_rune
has_kelvin = refl

has_big_b : get_elem? (get_or (make_forms two_letters 3) 2 []) 1 ≡ some (b'B' ∷ [])
unfolding make_forms rune_forms byte_forms encode_rune
has_big_b = refl

is_root : is_screened chain [] 1 ≡ true
unfolding look
is_root = refl

makes_b_follow : required chain 1 ≡ some 2
unfolding look
makes_b_follow = refl

b_follows : ComesNext (required chain 1) (make_forms two_letters 3) (b'B' ∷ [])
b_follows = rw makes_b_follow (omega arith, (1, has_big_b))

make_root_filter-Accepts_example :
    root_at
      ((0xe2 ∷ 0x84 ∷ 0xaa ∷ []) ++ ((b'B' ∷ []) ++ b'x' ∷ []))
      (make_root_filter two_letters chain 3 [])
      0
    ≡ true
make_root_filter-Accepts_example =
    make_root_filter-Accepts two_letters chain 3 [] 1 2 (0xe2 ∷ 0x84 ∷ 0xaa ∷ []) (b'B' ∷ [])
      (b'x' ∷ []) (omega arith) (omega arith) is_root is_usable has_kelvin (omega arith) b_follows
