-- ===== src/Filter/Anchor.antt =====
-- plan.go: `asciiPairAnchors`, one adjacent ASCII pair for each literal of a set.
pub mod Exact
use casei.Base.{
  ℕ, zero, suc, ◌+◌, ◌-◌, ◌<◌, ◌≤◌, Bool, true, false, ◌&&◌, ◌||◌, not, Option, some, none, List,
  [], ◌∷◌, ◌++◌, arith, bit_and, ltb, leb, ◌==◌, if◌then◌else◌, length, any, Bytes, byte_at,
  slot_bit, fold_case, scan, u8,
}
use casei.Filter.Slots.{Nibbles, no_nibbles, add, admits}
use casei.Filter.Vbmi.{Halves, no_halves, add_ascii_128_slot}

pub record PairAnchor : Type 0 where
  pub first : ℕ
  pub second : ℕ
  pub at : ℕ
  pub pattern : ℕ

pub record PairVbmiAnchor : Type 0 where
  pub first : Halves
  pub second : Halves
  pub valid : ℕ

pub record PairAnchorFilter : Type 0 where
  pub first : Nibbles
  pub second : Nibbles
  pub valid : ℕ
  pub vbmi : PairVbmiAnchor

abbrev pub no_filter : PairAnchorFilter
no_filter = record {
  first = no_nibbles;
  second = no_nibbles;
  valid = 0;
  vbmi = record { first = no_halves; second = no_halves; valid = 0 };
}

-- `anchors` is the used prefix of the array: its length is `n`, and at most 8.
pub record PairAnchors : Type 0 where
  pub anchors : List PairAnchor
  pub max_at : ℕ
  pub filter : PairAnchorFilter

unfoldable pub anchors_usable : PairAnchors → Bool
anchors_usable a = not (length a.anchors == 0) && not (a.filter.valid == 0)

unfoldable pub fill_anchors : ℕ → PairAnchorFilter → List PairAnchor → PairAnchorFilter
fill_anchors i out [] = out
fill_anchors i out (anchor ∷ rest) =
    let bit = slot_bit i in
    fill_anchors (suc i)
      (record out {
        first = add out.first anchor.first bit;
        second = add out.second anchor.second bit;
        vbmi = record {
          first = add_ascii_128_slot out.vbmi.first anchor.first 0x20 bit;
          second = add_ascii_128_slot out.vbmi.second anchor.second 0x20 bit;
          valid = out.vbmi.valid;
        };
      })
      rest

unfoldable pub make_pair_anchor_filter : PairAnchors → PairAnchorFilter
make_pair_anchor_filter a =
    let out = fill_anchors 0 no_filter a.anchors in
    if not (length a.anchors == 0)
    then record out {
      valid = 1;
      vbmi = record { first = out.vbmi.first; second = out.vbmi.second; valid = 1 };
    }
    else out

unfoldable pub anchor_filter_at : ℕ → ℕ → PairAnchorFilter → Bool
anchor_filter_at first second filter =
    let matches = admits filter.first (fold_case first) in
    let matches' = bit_and matches (admits filter.second (fold_case second)) in not (matches' == 0)

unfoldable pub anchor_skip_scalar : Bytes → ℕ → PairAnchorFilter → ℕ
anchor_skip_scalar s start filter =
    let stop =
      scan (length s - 1 - start)
        (λ at. anchor_filter_at (byte_at s at) (byte_at s (suc at)) filter) start in
    if ltb (suc stop) (length s) then stop - start else length s - start

unfoldable pub anchor_matches : Bytes → ℕ → PairAnchor → Bool
anchor_matches s at anchor =
    fold_case (byte_at s at) == anchor.first && fold_case (byte_at s (suc at)) == anchor.second

-- The loop of `makeASCIIPairAnchors` over the patterns' spellings; the spelling is none where the
-- pattern is empty or has no ASCII spelling. `none` is the early return, which leaves no anchors.
unfoldable pub collect_anchors :
    (Bytes → ℕ) → ℕ → PairAnchors → List (Option Bytes) → Option PairAnchors
collect_anchors choose id anchors [] = some anchors
collect_anchors choose id anchors (none ∷ rest) = collect_anchors choose (suc id) anchors rest
collect_anchors choose id anchors (some spelling ∷ rest) =
    let at = choose spelling in
    let anchor : PairAnchor = record {
      first = byte_at spelling at;
      second = byte_at spelling (suc at);
      at = u8 at;
      pattern = id;
    } in
    let more =
      collect_anchors choose (suc id)
        (record anchors {
          anchors = anchors.anchors ++ anchor ∷ [];
          max_at = if ltb anchors.max_at anchor.at then anchor.at else anchors.max_at;
        })
        rest in
    if ltb (length spelling) 2 || length anchors.anchors == 8
    then none
    else if ltb 255 at
    then none
    else more
