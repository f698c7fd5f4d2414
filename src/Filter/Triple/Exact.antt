-- ===== src/Filter/Triple/Exact.antt =====
-- plan.go: the Shufti tables of a triple filter beside its comparisons.
use casei.Base.{
  ℕ, suc, ◌-◌, ◌/◌, ◌^◌, ◌<◌, ◌≤◌, ◌≡◌, refl, ap, ◌∙◌, Bool, true, false, ◌&&◌, ◌||◌, List, [], ◌∷◌,
  arith, bit_and, bit_xor, ltb, ◌==◌, if◌then◌else◌, length, any, All, Bytes, AreBytes,
  byte_at-IsByte, lt_of_get_elem?, byte_at, slot_bit, flag, fold_case, has_bit, has_bit-and,
  has_bit-ne_zero, has_bit_of_ne_zero, has_bit-slot_bit, fold_case_lem, flip_lem, scan_congr,
  Bool-ext, All-get_elem?, any_intro, any→Found, IsByte,
}
use casei.Filter.Slots.{Nibbles, no_nibbles, admits, add_all}
use casei.Filter.Slots.Fill.{
  fill, AllBytes, Hit-both, fill-admits→Hit, Hit→fill-admits, one_hit, two_hit,
}
use casei.Filter.Triple.{
  RootTriple, TripleFilter, TripleShuftiFilter, empty_shufti, add_case, fill_triples,
  make_triple_shufti_filter, triple_shufti_at, triple_at, triple_shufti_skip_scalar,
  triple_skip_scalar,
}

abbrev cases : ℕ → Bool → List ℕ
cases v true = v ∷ bit_xor v 0x20 ∷ []
cases v false = v ∷ []

add_case-eq-add_all :
    (t : Nibbles) (v : ℕ) (folded : Bool) (bit : ℕ)
    → add_case t v folded bit ≡ add_all t (cases v folded) bit
unfolding add_case add_all
add_case-eq-add_all t v true bit = refl
add_case-eq-add_all t v false bit = refl

abbrev always : ℕ → Bool
always i = true

abbrev first_of_triple : RootTriple → List ℕ
first_of_triple t = cases t.first (flag t.fold 1)

abbrev second_of_triple : RootTriple → List ℕ
second_of_triple t = cases t.second (flag t.fold 2)

abbrev third_of_triple : RootTriple → List ℕ
third_of_triple t = cases t.third (flag t.fold 4)

fill_triples-eq-fill :
    (i : ℕ) (out : TripleShuftiFilter) (es : List RootTriple)
    → ((fill_triples i out es).first ≡ fill always slot_bit first_of_triple i out.first es)
      × ((fill_triples i out es).second ≡ fill always slot_bit second_of_triple i out.second es)
      × ((fill_triples i out es).third ≡ fill always slot_bit third_of_triple i out.third es)
unfolding fill_triples fill
fill_triples-eq-fill i out [] = (refl, refl, refl)
fill_triples-eq-fill i out (e ∷ es) =
    rw
      (
        ← add_case-eq-add_all out.first e.first (flag e.fold 1) (slot_bit i),
        ← add_case-eq-add_all out.second e.second (flag e.fold 2) (slot_bit i),
        ← add_case-eq-add_all out.third e.third (flag e.fold 4) (slot_bit i),
      )
      (fill_triples-eq-fill (suc i) _ es)

abbrev IsFoldable : ℕ → Bool → Type 0
IsFoldable v folded = folded ≡ true → (97 ≤ v) × (v ≤ 122)

-- Bytes, of which only lower-case letters are marked for folding.
pub record IsTriple (t : RootTriple) : Type 0 where
  pub first_byte : IsByte t.first
  pub second_byte : IsByte t.second
  pub third_byte : IsByte t.third
  pub first_letter : IsFoldable t.first (flag t.fold 1)
  pub second_letter : IsFoldable t.second (flag t.fold 2)
  pub third_letter : IsFoldable t.third (flag t.fold 4)

abbrev hits : ℕ → List ℕ → Bool
hits x vs = any (λ v. bit_and v 0x0f == bit_and x 0x0f) vs && any (λ v. v / 2 ^ 4 == x / 2 ^ 4) vs

case_hit :
    (v x : ℕ) (folded : Bool)
    → v < 256
    → x < 256
    → IsFoldable v folded
    → hits x (cases v folded) ≡ ((if folded then fold_case x else x) == v)
case_hit v x false hv hx h = one_hit v x hv hx
case_hit v x true hv hx h =
    let (lo, hi) = h refl in
    let flipped : bit_xor v 0x20 ≡ v - 32 = ground (arith, flip_lem v hv) in
    let tail : (x == v || x == bit_xor v 0x20) ≡ (fold_case x == v) =
      rw (flipped, fold_case_lem x hx) (ground arith) in
    two_hit v (bit_xor v 0x20) x hv (rw flipped (omega arith)) hx (rw flipped (omega arith)) ∙ tail

cases_bytes : (v : ℕ) (folded : Bool) → v < 256 → IsFoldable v folded → AreBytes (cases v folded)
cases_bytes v false hv h = (hv, tt)
cases_bytes v true hv h = let (lo, hi) = h refl in (hv, (ground (arith, flip_lem v hv), tt))

AllBytes_first :
    (es : List RootTriple) → All IsTriple es → AllBytes always slot_bit first_of_triple es
AllBytes_first [] h = tt
AllBytes_first (e ∷ es) h =
    (cases_bytes e.first (flag e.fold 1) h.0.first_byte h.0.first_letter, AllBytes_first es h.1)

AllBytes_second :
    (es : List RootTriple) → All IsTriple es → AllBytes always slot_bit second_of_triple es
AllBytes_second [] h = tt
AllBytes_second (e ∷ es) h =
    (cases_bytes e.second (flag e.fold 2) h.0.second_byte h.0.second_letter, AllBytes_second es h.1)

AllBytes_third :
    (es : List RootTriple) → All IsTriple es → AllBytes always slot_bit third_of_triple es
AllBytes_third [] h = tt
AllBytes_third (e ∷ es) h =
    (cases_bytes e.third (flag e.fold 4) h.0.third_byte h.0.third_letter, AllBytes_third es h.1)

abbrev active : ℕ → ℕ → Bool
active k i = always i && has_bit k (slot_bit i)

active_single : (k i j : ℕ) → active k i ≡ true → active k j ≡ true → i ≡ j
active_single k i j p q = ground (arith, has_bit-slot_bit k i, has_bit-slot_bit k j)

active_self : (k : ℕ) → k < 8 → active k k ≡ true
active_self k h = ground (arith, has_bit-slot_bit k k)

-- The three tests of the tables on one entry are its comparison.
triple_hits :
    (a b c : ℕ) (e : RootTriple)
    → IsByte a
    → IsByte b
    → IsByte c
    → IsTriple e
    → (hits a (first_of_triple e) && hits b (second_of_triple e) && hits c (third_of_triple e))
      ≡ triple_at a b c e
unfolding triple_at
triple_hits a b c e ha hb hc h =
    rw
      (
        case_hit e.first a (flag e.fold 1) h.first_byte ha h.first_letter,
        case_hit e.second b (flag e.fold 2) h.second_byte hb h.second_letter,
        case_hit e.third c (flag e.fold 4) h.third_byte hc h.third_letter,
      )
      refl

module _ (a b c : ℕ) (ha : IsByte a) (hb : IsByte b) (hc : IsByte c) (es : List RootTriple)
    (marked : All IsTriple es) where
  abbrev tables : TripleShuftiFilter
  tables = fill_triples 0 empty_shufti es

  has_bit-tables :
      (k : ℕ)
      → has_bit k (
          bit_and
            (bit_and (admits tables.first a) (admits tables.second b))
            (admits tables.third c))
        ≡ (has_bit k (admits (fill always slot_bit first_of_triple 0 no_nibbles es) a)
            && has_bit k (admits (fill always slot_bit second_of_triple 0 no_nibbles es) b)
            && has_bit k (admits (fill always slot_bit third_of_triple 0 no_nibbles es) c))
  has_bit-tables k =
      let (one, two, three) = fill_triples-eq-fill 0 empty_shufti es in
      rw (has_bit-and, has_bit-and, one, two, three) refl

  tables→any : triple_shufti_at a b c tables ≡ true → any (triple_at a b c) es ≡ true
  unfolding triple_shufti_at
  tables→any h =
      let (k, bit) =
        has_bit_of_ne_zero
          (bit_and (bit_and (admits tables.first a) (admits tables.second b))
            (admits tables.third c))
          (ground arith) in
      let one =
        fill-admits→Hit always slot_bit first_of_triple k (active_single k) a es
          (AllBytes_first es marked) (ground (arith, has_bit-tables k)) in
      let two =
        fill-admits→Hit always slot_bit second_of_triple k (active_single k) b es
          (AllBytes_second es marked) (ground (arith, has_bit-tables k)) in
      let three =
        fill-admits→Hit always slot_bit third_of_triple k (active_single k) c es
          (AllBytes_third es marked) (ground (arith, has_bit-tables k)) in
      let both =
        Hit-both (active k) (λ e. hits a (first_of_triple e)) (λ e. hits b (second_of_triple e)) es
          (active_single k) one two in
      let hit =
        Hit-both (active k) (λ e. hits a (first_of_triple e) && hits b (second_of_triple e))
          (λ e. hits c (third_of_triple e)) es (active_single k) both three in
      any_intro (triple_at a b c) es hit.pos hit.entry hit.found (
        ground (
          arith,
          hit.passes,
          triple_hits a b c hit.entry ha hb hc (All-get_elem? IsTriple es hit.pos marked hit.found),
        ))

  any→tables :
      length es ≤ 8 → any (triple_at a b c) es ≡ true → triple_shufti_at a b c tables ≡ true
  unfolding triple_shufti_at
  any→tables few h =
      let found = any→Found (triple_at a b c) es h in
      let k = found.pos in
      let e = found.entry in
      let on = active_self k (omega (arith, lt_of_get_elem? es k found.found)) in
      let passes = triple_hits a b c e ha hb hc (All-get_elem? IsTriple es k marked found.found) in
      let one =
        Hit→fill-admits always slot_bit first_of_triple k a k e es (AllBytes_first es marked)
          found.found on (ground (arith, passes, found.passes)) in
      let two =
        Hit→fill-admits always slot_bit second_of_triple k b k e es (AllBytes_second es marked)
          found.found on (ground (arith, passes, found.passes)) in
      let three =
        Hit→fill-admits always slot_bit third_of_triple k c k e es (AllBytes_third es marked)
          found.found on (ground (arith, passes, found.passes)) in
      let nonzero =
        has_bit-ne_zero k
          (bit_and (bit_and (admits tables.first a) (admits tables.second b))
            (admits tables.third c))
          (ground (arith, has_bit-tables k, one, two, three)) in
      ground arith

-- For four to eight triples of which only lower-case letters are folded, the six nibble tables
-- accept three bytes exactly if one of the triples does.
pub triple_shufti_at-eq-any :
    (a b c : ℕ) (f : TripleFilter)
    → IsByte a
    → IsByte b
    → IsByte c
    → 4 ≤ length f.values
    → length f.values ≤ 8
    → All IsTriple f.values
    → triple_shufti_at a b c (make_triple_shufti_filter f) ≡ any (triple_at a b c) f.values
unfolding make_triple_shufti_filter triple_shufti_at
triple_shufti_at-eq-any a b c f ha hb hc many few marked =
    let fits : (ltb (length f.values) 4 || ltb 8 (length f.values)) ≡ false = ground arith in
    rw fits (
      Bool-ext _ _ (tables→any a b c ha hb hc f.values marked)
        (any→tables a b c ha hb hc f.values marked few))

-- On every text of bytes, for a filter of four to eight triples in which only lower-case letters
-- are marked for folding, the Shufti loop made from the filter skips exactly as far as the loop
-- that compares every triple.
pub triple_shufti_skip-eq-triple_skip :
    (s : Bytes) (at : ℕ) (f : TripleFilter)
    → AreBytes s
    → 4 ≤ length f.values
    → length f.values ≤ 8
    → All IsTriple f.values
    → triple_shufti_skip_scalar s at (make_triple_shufti_filter f) ≡ triple_skip_scalar s at f
unfolding triple_shufti_skip_scalar triple_skip_scalar
triple_shufti_skip-eq-triple_skip s at f bytes many few marked =
    ap (λ (stop : ℕ). stop - at)
      (scan_congr _ _ _ at λ j p q.
        triple_shufti_at-eq-any (byte_at s j) (byte_at s (suc j)) (byte_at s (suc (suc j))) f
          (byte_at-IsByte s j bytes) (byte_at-IsByte s (suc j) bytes)
          (byte_at-IsByte s (suc (suc j)) bytes) many few marked)
