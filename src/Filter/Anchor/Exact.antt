-- ===== src/Filter/Anchor/Exact.antt =====
-- plan.go: the anchor tables beside `asciiPairAnchorMatches`.
use casei.Base.{
  ℕ, suc, ◌+◌, ◌-◌, ◌<◌, ◌≤◌, ◌≡◌, ◌≢◌, refl, ◌∙◌, Bool, true, false, ◌&&◌, List, [], ◌∷◌, arith,
  bit_and, ◌==◌, length, any, All, Bytes, AreBytes, byte_at, byte_at-IsByte, IsByte, slot_bit,
  has_bit, has_bit-slot_bit, fold_case, fold_case_lem, scan, scan-IsFirst, Bool-ext, Bool-cases,
  inl, inr, All-get_elem?, any_intro, any→Found, lt_of_get_elem?,
}
use casei.Filter.Slots.{admits, add_all}
use casei.Filter.Slots.Fill.{
  fill, AllBytes, byte_hit, both_masks, both_masks→Hit, Hit→both_masks, one_hit,
}
use casei.Filter.Anchor.{
  PairAnchor, PairAnchors, PairAnchorFilter, no_filter, fill_anchors, make_pair_anchor_filter,
  anchor_filter_at, anchor_matches, anchor_skip_scalar,
}

abbrev always : ℕ → Bool
always i = true

abbrev left : PairAnchor → List ℕ
left a = a.first ∷ []

abbrev right : PairAnchor → List ℕ
right a = a.second ∷ []

fill_anchors-eq-fill :
    (i : ℕ) (out : PairAnchorFilter) (es : List PairAnchor)
    → ((fill_anchors i out es).first ≡ fill always slot_bit left i out.first es)
      × ((fill_anchors i out es).second ≡ fill always slot_bit right i out.second es)
unfolding fill_anchors fill add_all
fill_anchors-eq-fill i out [] = (refl, refl)
fill_anchors-eq-fill i out (e ∷ es) = fill_anchors-eq-fill (suc i) _ es

abbrev pub IsAnchor : PairAnchor → Type 0
IsAnchor a = IsByte a.first × IsByte a.second

AllBytes_left : (es : List PairAnchor) → All IsAnchor es → AllBytes always slot_bit left es
AllBytes_left [] h = tt
AllBytes_left (e ∷ es) h = ((h.0.0, tt), AllBytes_left es h.1)

AllBytes_right : (es : List PairAnchor) → All IsAnchor es → AllBytes always slot_bit right es
AllBytes_right [] h = tt
AllBytes_right (e ∷ es) h = ((h.0.1, tt), AllBytes_right es h.1)

single :
    (k i j : ℕ)
    → (always i && has_bit k (slot_bit i)) ≡ true
    → (always j && has_bit k (slot_bit j)) ≡ true
    → i ≡ j
single k i j p q = ground (arith, has_bit-slot_bit k i, has_bit-slot_bit k j)

abbrev pub matches : ℕ → ℕ → PairAnchor → Bool
matches a b e = fold_case a == e.first && fold_case b == e.second

fold_case-lt : (x : ℕ) → x < 256 → fold_case x < 256
fold_case-lt x h = omega (arith, fold_case_lem x h)

module _ (x y : ℕ) (hx : IsByte x) (hy : IsByte y) (es : List PairAnchor)
    (ok : All IsAnchor es) where
  abbrev made : PairAnchorFilter
  made = fill_anchors 0 no_filter es

  masks :
      bit_and (admits made.first x) (admits made.second y)
      ≡ both_masks always slot_bit left right single es
          (AllBytes_left es ok)
          (AllBytes_right es ok)
          x
          y
  masks = let (one, two) = fill_anchors-eq-fill 0 no_filter es in rw (one, two) refl

  hit_left : (e : PairAnchor) → IsAnchor e → byte_hit always slot_bit left x e ≡ (x == e.first)
  hit_left e h = one_hit e.first x h.0 hx

  hit_right : (e : PairAnchor) → IsAnchor e → byte_hit always slot_bit right y e ≡ (y == e.second)
  hit_right e h = one_hit e.second y h.1 hy

  abbrev both_eq : PairAnchor → Bool
  both_eq e = x == e.first && y == e.second

  masks→any : bit_and (admits made.first x) (admits made.second y) ≢ 0 → any both_eq es ≡ true
  masks→any ne =
      let (k, hit) =
        both_masks→Hit always slot_bit left right single es (AllBytes_left es ok)
          (AllBytes_right es ok) x y (λ z. ne (masks ∙ z)) in
      let e = All-get_elem? IsAnchor es hit.pos ok hit.found in
      any_intro both_eq es hit.pos hit.entry hit.found
        (ground (arith, hit.passes, hit_left hit.entry e, hit_right hit.entry e))

  any→masks :
      length es ≤ 8
      → any both_eq es ≡ true
      → bit_and (admits made.first x) (admits made.second y) ≢ 0
  any→masks few h z =
      let f = any→Found both_eq es h in
      let e = All-get_elem? IsAnchor es f.pos ok f.found in
      let lt = lt_of_get_elem? es f.pos f.found in
      let ne =
        Hit→both_masks always slot_bit left right single es (AllBytes_left es ok)
          (AllBytes_right es ok) x y f.pos f.pos f.entry f.found
          (ground (arith, has_bit-slot_bit f.pos f.pos))
          (ground (arith, f.passes, hit_left f.entry e))
          (ground (arith, f.passes, hit_right f.entry e)) in
      absurd (ground (arith, masks))

-- For at most eight anchors of bytes the tables admit two bytes exactly if these, with bit five
-- set, are the two bytes of one of the anchors.
pub anchor_filter_at-eq-any :
    (a b : ℕ) (anchors : PairAnchors)
    → IsByte a
    → IsByte b
    → All IsAnchor anchors.anchors
    → length anchors.anchors ≤ 8
    → anchor_filter_at a b (make_pair_anchor_filter anchors) ≡ any (matches a b) anchors.anchors
unfolding anchor_filter_at make_pair_anchor_filter
anchor_filter_at-eq-any a b anchors ha hb ok few =
    let es = anchors.anchors in
    let hx = fold_case-lt a ha in
    let hy = fold_case-lt b hb in
    let sound = masks→any (fold_case a) (fold_case b) hx hy es ok in
    let complete = any→masks (fold_case a) (fold_case b) hx hy es ok few in
    elim (Bool-cases (length es == 0)) [
      | inl empty ↦ rw empty (Bool-ext _ _ (λ h. sound (ground arith)) (λ h. ground arith))
      | inr some_left ↦ rw some_left (Bool-ext _ _ (λ h. sound (ground arith)) (λ h. ground arith))
    ]

-- For at most eight anchors of bytes, on a text of bytes, no index from the start of the loop to
-- where it stops, at which the text holds two more bytes, matches one of the anchors.
pub anchor_skip_sound :
    (s : Bytes) (start j : ℕ) (anchors : PairAnchors)
    → AreBytes s
    → All IsAnchor anchors.anchors
    → length anchors.anchors ≤ 8
    → start ≤ j
    → suc j < length s
    → j < start + anchor_skip_scalar s start (make_pair_anchor_filter anchors)
    → any (anchor_matches s j) anchors.anchors ≡ false
unfolding anchor_skip_scalar anchor_matches
anchor_skip_sound s start j anchors bytes ok few lo inside hi =
    let f = make_pair_anchor_filter anchors in
    let test = λ (at : ℕ). anchor_filter_at (byte_at s at) (byte_at s (suc at)) f in
    let first =
      scan-IsFirst (length s - 1 - start) test start (start + (length s - 1 - start)) refl in
    let exact =
      anchor_filter_at-eq-any (byte_at s j) (byte_at s (suc j)) anchors (byte_at-IsByte s j bytes)
        (byte_at-IsByte s (suc j) bytes) ok few in
    let before : j < scan (length s - 1 - start) test start =
      ground (arith, first.above, first.below) in
    ground (arith, exact, first.passed j lo before)
