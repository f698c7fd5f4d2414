-- ===== src/Filter/Arrange.antt =====
-- plan.go: `arrangeTripleMixed`, `arrangeTripleASCIIUTF8` and `arrangeTripleSharedPrefix`.
use casei.Base.{
  ℕ, Bool, ◌&&◌, ◌||◌, ◌==◌, leb, if◌then◌else◌, suc, true, false, Option, some, none, List, [],
  ◌∷◌, arith, length, get_or, set, ◌≡◌, not, ltb, refl, inl, inr, Bool-cases, any, ◌∙◌, sym, ◌++◌,
  ◌⊎◌,
}
use casei.Utf8.{rune_self}
use casei.Filter.Triple.{RootTriple}

abbrev pub no_triple : RootTriple
no_triple = record { first = 0; second = 0; third = 0; fold = 0 }

abbrev pub is_folded_triple : RootTriple → Bool
is_folded_triple t = t.fold == 7

-- ascii[:asciiN] and raw.
pub record MixedSort : Type 0 where
  pub ascii : List RootTriple
  pub raw : RootTriple

unfoldable pub mixed_loop : List RootTriple → MixedSort → Option MixedSort
mixed_loop [] m = some m
mixed_loop (t ∷ ts) m =
    let as_ascii = mixed_loop ts (record m { ascii = m.ascii ++ t ∷ [] }) in
    let as_raw = mixed_loop ts (record m { raw = t }) in
    if is_folded_triple t && ltb (length m.ascii) 2
    then as_ascii
    else if t.fold == 4 && leb rune_self t.first
    then as_raw
    else none

abbrev pub mixed_values : Option MixedSort → List RootTriple → List RootTriple
mixed_values none values = values
mixed_values (some m) values =
    if not (length m.ascii == 2) || m.raw.first == 0 then values else m.ascii ++ m.raw ∷ []

unfoldable pub arrange_mixed : List RootTriple → List RootTriple
arrange_mixed values =
    if length values == 3
    then mixed_values (mixed_loop values (record { ascii = []; raw = no_triple })) values
    else values

abbrev pub is_raw_triple : RootTriple → Bool
is_raw_triple t = not (t.fold == 7) && t.fold == 0 && leb rune_self t.first

-- The last index that passes the test; none is -1.
unfoldable pub last_index : (RootTriple → Bool) → List RootTriple → ℕ → Option ℕ → Option ℕ
last_index test [] i last = last
last_index test (t ∷ ts) i last = last_index test ts (suc i) (if test t then some i else last)

abbrev pub swap : List RootTriple → ℕ → ℕ → List RootTriple
swap values i j = set (set values i (get_or values j no_triple)) j (get_or values i no_triple)

abbrev pub order_two : Option ℕ → Option ℕ → List RootTriple → List RootTriple
order_two none raw values = values
order_two (some ascii) none values = values
order_two (some ascii) (some raw) values =
    let values' = if ascii == 0 then values else swap values 0 ascii in
    let raw' = if not (ascii == 0) && raw == 0 then ascii else raw in
    if raw' == 1 then values' else swap values' 1 raw'

unfoldable pub arrange_ascii_utf8 : List RootTriple → List RootTriple
arrange_ascii_utf8 values =
    if length values == 2
    then order_two (last_index is_folded_triple values 0 none)
        (last_index is_raw_triple values 0 none) values
    else values

-- A folded triple and one with the same first two bytes and a third that is not ASCII.
unfoldable pub shares_prefix : RootTriple → RootTriple → Bool
shares_prefix left right =
    left.fold == 7
    && right.fold == 3
    && leb rune_self right.third
    && left.first == right.first
    && left.second == right.second

unfoldable pub arrange_shared_prefix : List RootTriple → List RootTriple
arrange_shared_prefix values =
    let first = get_or values 0 no_triple in
    let second = get_or values 1 no_triple in
    if not (length values == 2)
    then values
    else if shares_prefix first second
    then values
    else if shares_prefix second first
    then swap values 0 1
    else values

-- The three in turn, as `finishFoldFilters` calls them.
unfoldable pub arrange : List RootTriple → List RootTriple
arrange values = arrange_shared_prefix (arrange_ascii_utf8 (arrange_mixed values))

mixed_loop-step :
    (t : RootTriple) (ts : List RootTriple) (m : MixedSort)
    → (mixed_loop (t ∷ ts) m ≡ mixed_loop ts (record m { ascii = m.ascii ++ t ∷ [] }))
      ⊎ (mixed_loop (t ∷ ts) m ≡ mixed_loop ts (record m { raw = t }))
      ⊎ (mixed_loop (t ∷ ts) m ≡ none)
unfolding mixed_loop
mixed_loop-step t ts m = elim (Bool-cases (is_folded_triple t && ltb (length m.ascii) 2)) [
  | inl folded ↦ inl (rw folded refl)
  | inr other ↦ elim (Bool-cases (t.fold == 4 && leb rune_self t.first)) [
    | inl raw ↦ inr (inl (rw (other, raw) refl))
    | inr neither ↦ inr (inr (rw (other, neither) refl))
  ]
]

module _ (p : RootTriple → Bool) where
  rotate : (x y z : Bool) → (x || (y || (z || false))) ≡ (y || (z || (x || false)))
  rotate true true z = refl
  rotate true false true = refl
  rotate true false false = refl
  rotate false y true = refl
  rotate false y false = refl

  swap_tail : (x y z : Bool) → (x || (z || (y || false))) ≡ (x || (y || (z || false)))
  swap_tail true y z = refl
  swap_tail false true true = refl
  swap_tail false true false = refl
  swap_tail false false z = refl

  mixed_values-any :
      (m : MixedSort) (values : List RootTriple)
      → any p (m.ascii ++ m.raw ∷ []) ≡ any p values
      → any p (mixed_values (some m) values) ≡ any p values
  mixed_values-any m values same =
      elim (Bool-cases (not (length m.ascii == 2) || m.raw.first == 0)) [
        | inl bad ↦ rw bad refl
        | inr good ↦ rw good same
      ]

  flip_two : (x y : Bool) → (x || (y || false)) ≡ (y || (x || false))
  flip_two true true = refl
  flip_two true false = refl
  flip_two false true = refl
  flip_two false false = refl

  mixed_pick :
      (values : List RootTriple) (t : RootTriple) (ts : List RootTriple) (m : MixedSort)
      → any p (mixed_values (mixed_loop ts (record m { ascii = m.ascii ++ t ∷ [] })) values)
        ≡ any p values
      → any p (mixed_values (mixed_loop ts (record m { raw = t })) values) ≡ any p values
      → any p (mixed_values (mixed_loop (t ∷ ts) m) values) ≡ any p values
  mixed_pick values t ts m as_ascii as_raw = elim (mixed_loop-step t ts m) [
    | inl ascii ↦ rw ascii as_ascii
    | inr (inl raw) ↦ rw raw as_raw
    | inr (inr stop) ↦ rw stop refl
  ]

  arrange_mixed-any : (values : List RootTriple) → any p (arrange_mixed values) ≡ any p values
  unfolding arrange_mixed mixed_loop
  arrange_mixed-any [] = refl
  arrange_mixed-any (a ∷ []) = refl
  arrange_mixed-any (a ∷ b ∷ []) = refl
  arrange_mixed-any (a ∷ b ∷ c ∷ d ∷ ts) =
      let off : (length (a ∷ b ∷ c ∷ d ∷ ts) == 3) ≡ false = ground arith in rw off refl
  arrange_mixed-any (a ∷ b ∷ c ∷ []) =
      let v = a ∷ b ∷ c ∷ [] in
      mixed_pick v a (b ∷ c ∷ []) (record { ascii = []; raw = no_triple })
        (mixed_pick v b (c ∷ []) (record { ascii = a ∷ []; raw = no_triple })
          (mixed_pick v c [] (record { ascii = a ∷ b ∷ []; raw = no_triple }) refl
            (mixed_values-any (record { ascii = a ∷ b ∷ []; raw = c }) v refl))
          (mixed_pick v c [] (record { ascii = a ∷ []; raw = b })
            (mixed_values-any (record { ascii = a ∷ c ∷ []; raw = b }) v
              (swap_tail (p a) (p b) (p c)))
            refl))
        (mixed_pick v b (c ∷ []) (record { ascii = []; raw = a })
          (mixed_pick v c [] (record { ascii = b ∷ []; raw = a })
            (mixed_values-any (record { ascii = b ∷ c ∷ []; raw = a }) v
              (sym (rotate (p a) (p b) (p c))))
            refl)
          (mixed_pick v c [] (record { ascii = []; raw = b }) refl refl))

  arrange_ascii_utf8-any :
      (values : List RootTriple) → any p (arrange_ascii_utf8 values) ≡ any p values
  unfolding arrange_ascii_utf8 last_index
  arrange_ascii_utf8-any [] = refl
  arrange_ascii_utf8-any (a ∷ []) = refl
  arrange_ascii_utf8-any (a ∷ b ∷ c ∷ ts) =
      let off : (length (a ∷ b ∷ c ∷ ts) == 2) ≡ false = ground arith in rw off refl
  arrange_ascii_utf8-any (a ∷ b ∷ []) = ground arith

  arrange_shared_prefix-any :
      (values : List RootTriple) → any p (arrange_shared_prefix values) ≡ any p values
  unfolding arrange_shared_prefix
  arrange_shared_prefix-any [] = refl
  arrange_shared_prefix-any (a ∷ []) = refl
  arrange_shared_prefix-any (a ∷ b ∷ c ∷ ts) =
      let off : (length (a ∷ b ∷ c ∷ ts) == 2) ≡ false = ground arith in rw off refl
  arrange_shared_prefix-any (a ∷ b ∷ []) = elim (Bool-cases (shares_prefix a b)) [
    | inl first ↦ rw first refl
    | inr other ↦ elim (Bool-cases (shares_prefix b a)) [
      | inl second ↦ rw (other, second) (flip_two (p b) (p a))
      | inr neither ↦ rw (other, neither) refl
    ]
  ]

  -- Whatever test is applied to triples, some triple of the filter passes it after the three
  -- arrangements of finishFoldFilters exactly if one did before them: they neither lose nor add
  -- a triple.
  pub arrange-any : (values : List RootTriple) → any p (arrange values) ≡ any p values
  unfolding arrange
  arrange-any values =
      arrange_shared_prefix-any (arrange_ascii_utf8 (arrange_mixed values))
      ∙ arrange_ascii_utf8-any (arrange_mixed values)
      ∙ arrange_mixed-any values
