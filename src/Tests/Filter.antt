-- ===== src/Tests/Filter.antt =====
-- The byte filters of plan.go and root_other.go at concrete tables and texts.
use casei.Base.{◌≡◌, ◌≢◌, ◌==◌, refl, bit_and, byte_at, false, [], ◌∷◌, arith, any, Bytes, scan}
use casei.Ascii.{is_ascii_letter}
use casei.Filter.Slots.{add, admits}
use casei.Filter.Triple.{
  TripleFilter, empty_shufti, add_case, fill_triples, make_triple_shufti_filter, triple_shufti_at,
  triple_shufti_skip_scalar, triple_skip_scalar,
}
use casei.Filter.Arrange.{
  arrange, mixed_loop, arrange_mixed, arrange_ascii_utf8, arrange_shared_prefix, arrange-any,
}
use casei.Filter.Triple.Exact.{triple_shufti_skip-eq-triple_skip}
use casei.Filter.Pair.{
  RootFilter, no_shufti, add_raw, add_rights, add_lefts, collect_raw, fill_groups, make_groups,
  make_pair_shufti_filter, pair_shufti_at, pair_shufti_skip_scalar, pair_at, root_at, filter_skip,
}
use casei.Filter.Pair.Exact.{pair_shufti_at-eq-any}
use casei.Filter.Pair.Sound.{filter_skip_sound}
use casei.Filter.Anchor.{
  PairAnchors, no_filter, make_pair_anchor_filter, fill_anchors, anchor_filter_at,
  anchor_skip_scalar, anchor_matches,
}
use casei.Filter.Anchor.Exact.{matches, anchor_filter_at-eq-any, anchor_skip_sound}
use casei.Filter.Vbmi.{
  PairPairFilter, no_pair_pair_vbmi, make_pair_pair_vbmi, pair_pair_at, add_ascii_128_slot,
  add_half,
}
use casei.Filter.Vbmi.Covers.{look_up, pair_pair_vbmi_covers}

-- "the", "and", "foo" folded, and the raw bytes of "K" (U+212A).
abbrev four_triples : TripleFilter
four_triples = record {
  values =
      record { first = b't'; second = b'h'; third = b'e'; fold = 7 }
      ∷ record { first = b'a'; second = b'n'; third = b'd'; fold = 7 }
      ∷ record { first = b'f'; second = b'o'; third = b'o'; fold = 7 }
      ∷ record { first = 0xe2; second = 0x84; third = 0xaa; fold = 0 }
      ∷ [];
  shufti = empty_shufti;
}

-- "x[FOo"
abbrev some_text : Bytes
some_text = 120 ∷ 91 ∷ 70 ∷ 79 ∷ 111 ∷ []

finds_foo : triple_shufti_skip_scalar some_text 0 (make_triple_shufti_filter four_triples) ≡ 2
unfolding triple_shufti_skip_scalar make_triple_shufti_filter fill_triples add_case add
    triple_shufti_at admits scan
finds_foo = refl

triple_shufti_skip-eq-triple_skip_example :
    triple_shufti_skip_scalar some_text 0 (make_triple_shufti_filter four_triples)
    ≡ triple_skip_scalar some_text 0 four_triples
triple_shufti_skip-eq-triple_skip_example =
    triple_shufti_skip-eq-triple_skip some_text 0 four_triples (omega arith) (omega arith)
      (omega arith) (ground arith)

-- Five folded pairs make seventeen raw ones or more; three folded and two raw make fourteen.
abbrev pairs_only : RootFilter
pairs_only = record {
  ones = [];
  pairs =
      record { first = b't'; second = b'h'; fold = 3 }
      ∷ record { first = b'a'; second = b'n'; fold = 3 }
      ∷ record { first = b'f'; second = b'o'; fold = 3 }
      ∷ record { first = 0xc3; second = 0x9f; fold = 0 }
      ∷ record { first = 0xe2; second = 0x84; fold = 0 }
      ∷ [];
  shufti = no_shufti;
}

abbrev screened : RootFilter
screened = record pairs_only { shufti = make_pair_shufti_filter pairs_only }

finds_pair : filter_skip some_text 0 screened ≡ 2
unfolding filter_skip pair_shufti_skip_scalar make_pair_shufti_filter collect_raw add_lefts
    add_rights add_raw make_groups fill_groups add admits pair_shufti_at scan is_ascii_letter
finds_pair = refl

pair_shufti_at-eq-any_example :
    pair_shufti_at b'F' b'O' (make_pair_shufti_filter pairs_only)
    ≡ any (pair_at b'F' b'O') pairs_only.pairs
unfolding make_pair_shufti_filter collect_raw add_lefts add_rights add_raw make_groups
    is_ascii_letter
pair_shufti_at-eq-any_example =
    pair_shufti_at-eq-any b'F' b'O' pairs_only (omega arith) (omega arith) (ground arith) refl
      (λ e. cc)

filter_skip_sound_example : root_at some_text screened 1 ≡ false
unfolding filter_skip pair_shufti_skip_scalar make_pair_shufti_filter collect_raw add_lefts
    add_rights add_raw make_groups fill_groups add admits pair_shufti_at scan is_ascii_letter
filter_skip_sound_example =
    filter_skip_sound some_text 0 1 screened (omega arith) (ground arith) refl (omega arith)
      (omega arith) (omega arith)

-- The pairs "qu" and "x ".
abbrev two_anchors : PairAnchors
two_anchors = record {
  anchors =
      record { first = b'q'; second = b'u'; at = 0; pattern = 0 }
      ∷ record { first = b'x'; second = 0x20; at = 2; pattern = 1 }
      ∷ [];
  max_at = 2;
  filter = no_filter;
}

-- "aaQU"
abbrev quote : Bytes
quote = 97 ∷ 97 ∷ 81 ∷ 85 ∷ []

stops_at_quote : anchor_skip_scalar quote 0 (make_pair_anchor_filter two_anchors) ≡ 2
unfolding anchor_skip_scalar make_pair_anchor_filter fill_anchors add admits anchor_filter_at scan
    add_ascii_128_slot add_half
stops_at_quote = refl

anchor_skip_sound_example : any (anchor_matches quote 1) two_anchors.anchors ≡ false
anchor_skip_sound_example =
    anchor_skip_sound quote 0 1 two_anchors (ground arith) (ground arith) (omega arith)
      (omega arith) (omega arith) (rw stops_at_quote (omega arith))

anchor_filter_at-eq-any_example :
    anchor_filter_at b'Q' b'U' (make_pair_anchor_filter two_anchors)
    ≡ any (matches b'Q' b'U') two_anchors.anchors
anchor_filter_at-eq-any_example =
    anchor_filter_at-eq-any b'Q' b'U' two_anchors (omega arith) (omega arith) (ground arith)
      (omega arith)

-- Two raw pairs, confirmed two bytes later: the lower-case and the upper-case letter U+00E9.
abbrev e_acute : PairPairFilter
e_acute = record {
  first0 = 0xc3;
  second0 = 0xa9;
  first1 = 0xc3;
  second1 = 0x89;
  confirm_first0 = 0xc3;
  confirm_second0 = 0xa9;
  confirm_first1 = 0xc3;
  confirm_second1 = 0x89;
  offset = 2;
  valid = 1;
  vbmi = no_pair_pair_vbmi;
}

abbrev two_accents : Bytes
two_accents = 0xc3 ∷ 0x89 ∷ 0xc3 ∷ 0xa9 ∷ []

pair_pair_vbmi_covers_example :
    (bit_and
        (look_up (make_pair_pair_vbmi e_acute).vbmi.first (byte_at two_accents 0))
        (look_up (make_pair_pair_vbmi e_acute).vbmi.second (byte_at two_accents 1))
      ≢ 0)
    × (bit_and
          (look_up (make_pair_pair_vbmi e_acute).vbmi.confirm_first (byte_at two_accents 2))
          (look_up (make_pair_pair_vbmi e_acute).vbmi.confirm_second (byte_at two_accents 3))
        ≢ 0)
unfolding pair_pair_at
pair_pair_vbmi_covers_example =
    pair_pair_vbmi_covers two_accents 0 e_acute
      (record {
        b0 = omega arith;
        b1 = omega arith;
        b2 = omega arith;
        b3 = omega arith;
        b4 = omega arith;
        b5 = omega arith;
        b6 = omega arith;
        b7 = omega arith;
      })
      refl

abbrev mixed_triples : TripleFilter
mixed_triples = record {
  values =
      record { first = b't'; second = b'h'; third = b'e'; fold = 7 }
      ∷ record { first = 0xc5; second = 0xbf; third = b'x'; fold = 4 }
      ∷ record { first = b'a'; second = b'n'; third = b'd'; fold = 7 }
      ∷ [];
  shufti = empty_shufti;
}

raw_goes_last : arrange mixed_triples.values ≡ (
    record { first = b't'; second = b'h'; third = b'e'; fold = 7 }
    ∷ record { first = b'a'; second = b'n'; third = b'd'; fold = 7 }
    ∷ record { first = 0xc5; second = 0xbf; third = b'x'; fold = 4 }
    ∷ [])
unfolding arrange arrange_mixed mixed_loop arrange_ascii_utf8 arrange_shared_prefix
raw_goes_last = refl

arrange-any_example :
    any (λ t. t.fold == 4) (arrange mixed_triples.values)
    ≡ any (λ t. t.fold == 4) mixed_triples.values
arrange-any_example = arrange-any (λ t. t.fold == 4) mixed_triples.values
