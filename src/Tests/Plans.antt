-- ===== src/Tests/Plans.antt =====
-- Plans built from concrete patterns, and the packed confirmation of one.
use casei.Base.{
  ℕ, ◌≡◌, refl, Option, some, none, true, false, List, [], ◌∷◌, ◌==◌, if◌then◌else◌, arith, Bytes,
  ◌+◌, ◌≤◌, length,
}
use casei.Utf8.{decode_rune, encode_rune, unit_starts}
use casei.Plan.Tokens.{
  orbit, orbit_from, rune_token, store_orbit, byte_token, pattern_token, unit_bytes,
  max_fold_rune_width, widest, look, store,
}
use casei.Plan.Trie.{
  follow, add_unit, add_units, add_pattern, add_patterns, build_trie, prefer_output,
}
use casei.Plan.Trie.Patterns.{Held, build_trie-Held}
use casei.Plan.Links.{
  climb, link, linked, link_children, link_all, link_states, put_edges, fill_rows, make_dense,
  new_search_plan, climb_edges, advance,
}
use casei.Plan.Search.{exact_loop, find_exact_bytes, find_exact}
use casei.Plan.AtStart.{haystack_token, anchored_loop, match_at_start}
use casei.Plan.AtStart.Bounds.{match_at_start-bounds}
use casei.Unicode.Forms.{same_bytes, add_form, add_forms, raw_forms_from, pattern_raw_forms}
use casei.Unicode.Confirm.{is_valid, is_variable, min_length, copy_to}
use casei.Unicode.Pack.{
  pack_forms, pack_variable, finish_variable, valid_string, make_variable_confirm,
}
use casei.Unicode.Match.{equal_at, match_form, match_parts, match_width_at}
use casei.Unicode.Match.Bounds.{match_width_at-bounds}

-- The orbit of "k": "K", "k" and U+212A.
abbrev fold_k : ℕ → ℕ
fold_k r = if r == 75 then 107 else if r == 107 then 0x212a else if r == 0x212a then 75 else r

-- "ab" and "b"
abbrev two_patterns : List Bytes
two_patterns = (b'b' ∷ []) ∷ (b'a' ∷ b'b' ∷ []) ∷ []

-- "cab"
abbrev cab : Bytes
cab = b'c' ∷ b'a' ∷ b'b' ∷ []

finds_leftmost :
    find_exact (new_search_plan fold_k two_patterns true) cab
    ≡ some (record { pattern = 1; start = 1 })
unfolding new_search_plan build_trie add_patterns add_pattern add_units add_unit follow look
    pattern_token byte_token rune_token store_orbit store orbit orbit_from decode_rune unit_bytes
    prefer_output link_states link_all link_children linked link climb make_dense fill_rows
    put_edges advance climb_edges exact_loop find_exact_bytes find_exact max_fold_rune_width widest
    encode_rune
finds_leftmost = refl

-- "K" and U+212A
abbrev kelvin_text : Bytes
kelvin_text = b'K' ∷ 0xe2 ∷ 0x84 ∷ 0xaa ∷ []

abbrev kk : Bytes
kk = b'k' ∷ b'k' ∷ []

kelvin_match :
    match_at_start (new_search_plan fold_k (kk ∷ []) false) false kelvin_text 0
    ≡ some (record { pattern = 0; width = 4 })
unfolding new_search_plan build_trie add_patterns add_pattern add_units add_unit follow look
    pattern_token byte_token rune_token store_orbit store orbit orbit_from decode_rune unit_bytes
    prefer_output link_states link_all link_children linked link climb make_dense fill_rows
    put_edges max_fold_rune_width widest encode_rune haystack_token anchored_loop match_at_start
kelvin_match = refl

match_at_start-bounds_example : (1 ≤ 4) × (0 + 4 ≤ length kelvin_text)
match_at_start-bounds_example =
    match_at_start-bounds (new_search_plan fold_k (kk ∷ []) false) false kelvin_text 0
      (record { pattern = 0; width = 4 }) kelvin_match

abbrev or_empty : Option Bytes → Bytes
or_empty none = []
or_empty (some bytes) = bytes

abbrev kk_confirm : Bytes
kk_confirm = or_empty (make_variable_confirm fold_k kk 0)

kelvin_width : match_width_at kk_confirm kelvin_text 0 ≡ some 4
unfolding make_variable_confirm pattern_raw_forms raw_forms_from add_forms add_form same_bytes orbit
    orbit_from decode_rune encode_rune pack_variable pack_forms finish_variable valid_string
    unit_starts copy_to is_valid is_variable min_length match_width_at match_parts match_form
    equal_at
kelvin_width = refl

match_width_at-bounds_example : (1 ≤ 4) × (0 + 4 ≤ length kelvin_text)
match_width_at-bounds_example =
    match_width_at-bounds kk_confirm kelvin_text 0 4 (omega arith) kelvin_width

-- The patterns are in the trie that is built from them.
build_trie-Held_example : Held (build_trie fold_k true two_patterns) 1 (b'a' ∷ b'b' ∷ [])
build_trie-Held_example =
    build_trie-Held fold_k two_patterns 1 (b'a' ∷ b'b' ∷ []) (ground arith) (omega arith) refl
      (omega arith)
