-- ===== src/Filter/Slots/Fill.antt =====
-- A nibble table filled by a loop over entries: which entries admit a byte.
use casei.Base.{
  ℕ, zero, suc, ◌+◌, ◌/◌, ◌%◌, ◌^◌, ◌<◌, ◌≡◌, refl, ap, Bool, true, false, ◌&&◌, ◌||◌, some, List,
  [], ◌∷◌, arith, bit_and, ◌==◌, if◌then◌else◌, get_elem?, replicate, AreBytes, byte_at, has_bit,
  has_bit_of_ne_zero, has_bit-ne_zero, ◌≢◌, has_bit-and, has_bit-zero, low_nibble_lem, Bool-cases,
  inl, inr,
}
use casei.Filter.Slots.{
  Nibbles, no_nibbles, add, admits, add_all, IsTable, no_nibbles-IsTable, add-IsTable, low_hit,
  high_hit, add_all-lo, add_all-hi,
}

add_all-IsTable : (vs : List ℕ) (t : Nibbles) (bit : ℕ) → IsTable t → IsTable (add_all t vs bit)
unfolding add_all
add_all-IsTable [] t bit h = h
add_all-IsTable (v ∷ vs) t bit h = add_all-IsTable vs (add t v bit) bit (add-IsTable v bit h)

has_bit-replicate : (k n y : ℕ) → has_bit k (byte_at (replicate n 0) y) ≡ false
has_bit-replicate k zero y = has_bit-zero k
has_bit-replicate k (suc n) zero = has_bit-zero k
has_bit-replicate k (suc n) (suc y) = has_bit-replicate k n y

-- A byte alone, and a letter with its other case, are told by their two nibbles.
pub one_hit :
    (v x : ℕ)
    → v < 256
    → x < 256
    → (low_hit (bit_and x 0x0f) (v ∷ []) && high_hit (x / 2 ^ 4) (v ∷ [])) ≡ (x == v)
one_hit v x hv hx = ground (arith, low_nibble_lem v hv, low_nibble_lem x hx)

pub two_hit :
    (v w x : ℕ)
    → v < 256
    → w < 256
    → x < 256
    → v % 16 ≡ w % 16
    → (low_hit (bit_and x 0x0f) (v ∷ w ∷ []) && high_hit (x / 2 ^ 4) (v ∷ w ∷ []))
      ≡ (x == v || x == w)
two_hit v w x hv hw hx e =
    ground (arith, low_nibble_lem v hv, low_nibble_lem w hw, low_nibble_lem x hx)

module _ {E : Type 0} where
  -- An entry of `es`, numbered from `i`, passes `f`.
  pub record Hit (f : ℕ → E → Bool) (i : ℕ) (es : List E) : Type 0 where
    pub pos : ℕ
    pub entry : E
    pub found : get_elem? es pos ≡ some entry
    pub passes : f (i + pos) entry ≡ true

  pub picked : (ℕ → E → Bool) → ℕ → List E → Bool
  picked f i [] = false
  picked f i (e ∷ es) = f i e || picked f (suc i) es

  Hit-here : (f : ℕ → E → Bool) (i : ℕ) (e : E) (es : List E) → f i e ≡ true → Hit f i (e ∷ es)
  Hit-here f i e es h =
      let same : i + 0 ≡ i = omega arith in
      record { pos = 0; entry = e; found = refl; passes = rw same h }

  Hit-later : {f : ℕ → E → Bool} {i : ℕ} (e : E) {es : List E} → Hit f (suc i) es → Hit f i (e ∷ es)
  Hit-later {f} {i} e h =
      let same : i + suc h.pos ≡ suc i + h.pos = omega arith in
      record { pos = suc h.pos; entry = h.entry; found = h.found; passes = rw same h.passes }

  pub picked→Hit : (f : ℕ → E → Bool) (i : ℕ) (es : List E) → picked f i es ≡ true → Hit f i es
  unfolding picked
  picked→Hit f i [] h = absurd (cc)
  picked→Hit f i (e ∷ es) h = elim (Bool-cases (f i e)) [
    | inl p ↦ Hit-here f i e es p
    | inr q ↦ Hit-later e (picked→Hit f (suc i) es (ground arith))
  ]

  pub Hit→picked :
      (f : ℕ → E → Bool) (i n : ℕ) (e : E) (es : List E)
      → get_elem? es n ≡ some e
      → f (i + n) e ≡ true
      → picked f i es ≡ true
  unfolding picked
  Hit→picked f i n e [] h p = absurd (cc)
  Hit→picked f i zero e (x ∷ es) h p =
      let same : i + 0 ≡ i = omega arith in let p' : f i e ≡ true = rw same at p in ground arith
  Hit→picked f i (suc n) e (x ∷ es) h p =
      let same : i + suc n ≡ suc i + n = omega arith in
      let p' : f (suc i + n) e ≡ true = rw same at p in
      ground (arith, Hit→picked f (suc i) n e es h p')

  -- Two tables that hold a digit for one entry only speak of the same entry.
  pub Hit-both :
      (active : ℕ → Bool) (f g : E → Bool) (es : List E)
      → ((i j : ℕ) → active i ≡ true → active j ≡ true → i ≡ j)
      → Hit (λ j e. active j && f e) 0 es
      → Hit (λ j e. active j && g e) 0 es
      → Hit (λ j e. active j && (f e && g e)) 0 es
  Hit-both active f g es single a b =
      let same : 0 + a.pos ≡ 0 + b.pos =
        single (0 + a.pos) (0 + b.pos) (ground (arith, a.passes)) (ground (arith, b.passes)) in
      let pos : a.pos ≡ b.pos = omega arith in
      let e : a.entry ≡ b.entry = cc (a.found, b.found, ap (get_elem? es) pos) in
      let ge : g a.entry ≡ true = rw e (ground (arith, b.passes)) in
      record {
        pos = a.pos;
        entry = a.entry;
        found = a.found;
        passes = ground (arith, a.passes, ge);
      }

module _ {E : Type 0} (guard : ℕ → Bool) (bit : ℕ → ℕ) (vals : E → List ℕ) where
  -- The body of the loop marks the bytes of entry `i`, if the table is the one of that entry.
  unfoldable pub fill : ℕ → Nibbles → List E → Nibbles
  fill i t [] = t
  fill i t (e ∷ es) = fill (suc i) (if guard i then add_all t (vals e) (bit i) else t) es

  abbrev pub AllBytes : List E → Type 0
  AllBytes [] = Unit
  AllBytes (e ∷ es) = AreBytes (vals e) × AllBytes es

  fill-lo :
      (k y i : ℕ) (t : Nibbles) (es : List E)
      → IsTable t
      → AllBytes es
      → has_bit k (byte_at (fill i t es).lo y) ≡ (
          has_bit k (byte_at t.lo y)
          || picked (λ j e. (guard j && has_bit k (bit j)) && low_hit y (vals e)) i es)
  unfolding fill picked
  fill-lo k y i t [] h b = ground arith
  fill-lo k y i t (e ∷ es) h b = elim (Bool-cases (guard i)) [
    | inl on ↦ ground (
      arith,
      fill-lo k y (suc i) (add_all t (vals e) (bit i)) es (add_all-IsTable (vals e) t (bit i) h)
          b.1,
      add_all-lo k y (bit i) t (vals e) h b.0,
    )
    | inr off ↦ ground (arith, fill-lo k y (suc i) t es h b.1)
  ]

  fill-hi :
      (k y i : ℕ) (t : Nibbles) (es : List E)
      → IsTable t
      → AllBytes es
      → has_bit k (byte_at (fill i t es).hi y) ≡ (
          has_bit k (byte_at t.hi y)
          || picked (λ j e. (guard j && has_bit k (bit j)) && high_hit y (vals e)) i es)
  unfolding fill picked
  fill-hi k y i t [] h b = ground arith
  fill-hi k y i t (e ∷ es) h b = elim (Bool-cases (guard i)) [
    | inl on ↦ ground (
      arith,
      fill-hi k y (suc i) (add_all t (vals e) (bit i)) es (add_all-IsTable (vals e) t (bit i) h)
          b.1,
      add_all-hi k y (bit i) t (vals e) h b.0,
    )
    | inr off ↦ ground (arith, fill-hi k y (suc i) t es h b.1)
  ]

  abbrev pub byte_hit : ℕ → E → Bool
  byte_hit x e = low_hit (bit_and x 0x0f) (vals e) && high_hit (x / 2 ^ 4) (vals e)

  fill-admits :
      (k x : ℕ) (es : List E)
      → AllBytes es
      → has_bit k (admits (fill 0 no_nibbles es) x) ≡ (
          picked (λ j e. (guard j && has_bit k (bit j)) && low_hit (bit_and x 0x0f) (vals e)) 0 es
          && picked (λ j e. (guard j && has_bit k (bit j)) && high_hit (x / 2 ^ 4) (vals e)) 0 es)
  unfolding admits
  fill-admits k x es b = ground (
    arith,
    has_bit-and k (byte_at (fill 0 no_nibbles es).lo (bit_and x 0x0f))
        (byte_at (fill 0 no_nibbles es).hi (x / 2 ^ 4)),
    fill-lo k (bit_and x 0x0f) 0 no_nibbles es no_nibbles-IsTable b,
    fill-hi k (x / 2 ^ 4) 0 no_nibbles es no_nibbles-IsTable b,
    has_bit-replicate k 16 (bit_and x 0x0f),
    has_bit-replicate k 16 (x / 2 ^ 4),
  )

  module _ (k : ℕ)
      (single : (i j : ℕ)
        → (guard i && has_bit k (bit i)) ≡ true
        → (guard j && has_bit k (bit j)) ≡ true
        → i ≡ j) where
    -- Bit k of a look-up is set exactly if the entry of that bit has the byte.
    pub fill-admits→Hit :
        (x : ℕ) (es : List E)
        → AllBytes es
        → has_bit k (admits (fill 0 no_nibbles es) x) ≡ true
        → Hit (λ j e. (guard j && has_bit k (bit j)) && byte_hit x e) 0 es
    fill-admits→Hit x es b h =
        let both = fill-admits k x es b in
        Hit-both (λ j. guard j && has_bit k (bit j)) (λ e. low_hit (bit_and x 0x0f) (vals e))
          (λ e. high_hit (x / 2 ^ 4) (vals e)) es single (picked→Hit _ 0 es (ground arith))
          (picked→Hit _ 0 es (ground arith))

  pub Hit→fill-admits :
      (k x n : ℕ) (e : E) (es : List E)
      → AllBytes es
      → get_elem? es n ≡ some e
      → (guard n && has_bit k (bit n)) ≡ true
      → byte_hit x e ≡ true
      → has_bit k (admits (fill 0 no_nibbles es) x) ≡ true
  Hit→fill-admits k x n e es b found on hit = ground (
    arith,
    fill-admits k x es b,
    Hit→picked (λ j e. (guard j && has_bit k (bit j)) && low_hit (bit_and x 0x0f) (vals e)) 0 n e es
        found (let same : 0 + n ≡ n = omega arith in rw same (ground arith)),
    Hit→picked (λ j e. (guard j && has_bit k (bit j)) && high_hit (x / 2 ^ 4) (vals e)) 0 n e es
        found (let same : 0 + n ≡ n = omega arith in rw same (ground arith)),
  )

-- Two tables filled together: some bit passes both look-ups exactly if one entry has both bytes.
module _ {E : Type 0} (guard : ℕ → Bool) (bit : ℕ → ℕ) (left right : E → List ℕ)
    (single : (k i j : ℕ)
      → (guard i && has_bit k (bit i)) ≡ true
      → (guard j && has_bit k (bit j)) ≡ true
      → i ≡ j)
    (es : List E) (left_bytes : AllBytes guard bit left es)
    (right_bytes : AllBytes guard bit right es) where
  abbrev pub both_masks : ℕ → ℕ → ℕ
  both_masks a b =
      bit_and (admits (fill guard bit left 0 no_nibbles es) a)
        (admits (fill guard bit right 0 no_nibbles es) b)

  pub both_masks→Hit :
      (a b : ℕ)
      → both_masks a b ≢ 0
      → (k : ℕ) × Hit
          (λ j e.
            (guard j && has_bit k (bit j))
            && (byte_hit guard bit left a e && byte_hit guard bit right b e))
          0
          es
  both_masks→Hit a b ne =
      let (k, on) = has_bit_of_ne_zero (both_masks a b) ne in
      let split =
        has_bit-and k (admits (fill guard bit left 0 no_nibbles es) a)
          (admits (fill guard bit right 0 no_nibbles es) b) in
      (
        k,
        Hit-both (λ j. guard j && has_bit k (bit j)) (byte_hit guard bit left a)
            (byte_hit guard bit right b) es (single k)
            (fill-admits→Hit guard bit left k (single k) a es left_bytes (ground arith))
            (fill-admits→Hit guard bit right k (single k) b es right_bytes (ground arith)),
      )

  pub Hit→both_masks :
      (a b k n : ℕ) (e : E)
      → get_elem? es n ≡ some e
      → (guard n && has_bit k (bit n)) ≡ true
      → byte_hit guard bit left a e ≡ true
      → byte_hit guard bit right b e ≡ true
      → both_masks a b ≢ 0
  Hit→both_masks a b k n e found on l r = has_bit-ne_zero k (both_masks a b) (
      ground (
        arith,
        has_bit-and k (admits (fill guard bit left 0 no_nibbles es) a)
            (admits (fill guard bit right 0 no_nibbles es) b),
        Hit→fill-admits guard bit left k a n e es left_bytes found on l,
        Hit→fill-admits guard bit right k b n e es right_bytes found on r,
      ))
