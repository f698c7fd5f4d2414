-- ===== src/Plan/RootFilter/Forms.antt =====
-- The forms that `compactPairForms` keeps stand for all the forms of a unit.
use casei.Base.{
  ℕ, Bool, ◌&&◌, ◌||◌, ◌==◌, zero, suc, true, false, Option, some, none, List, [], ◌∷◌, arith,
  length, get_or, set, Bytes, byte_at, ◌≡◌, refl, inl, ap, replicate, inr, Bool-cases, any, sym,
  ◌∙◌, ◌++◌, All, ◌⊎◌, any-append, ap₂, fold_case,
}
use casei.Ascii.{is_ascii_letter}
use casei.Unicode.Forms.{same_bytes}
use casei.Plan.RootFilter.{
  PairForm, Compact, lone_letter, is_prior, compact_with, compact_form, compact_loop,
  compact_pair_forms,
}

-- A folded form stands for its letter in both cases, and a raw one for itself.
abbrev pub is_folded_byte : ℕ → PairForm → Bool
is_folded_byte lower pair = pair.fold && length pair.bytes == 1 && byte_at pair.bytes 0 == lower

abbrev pub stands : Bytes → PairForm → Bool
stands form pair =
    pair.fold && length form == 1 && is_folded_byte (fold_case (byte_at form 0)) pair
    || is_prior form pair

same_bytes_refl : (s : Bytes) → same_bytes s s ≡ true
unfolding same_bytes
same_bytes_refl [] = refl
same_bytes_refl (c ∷ s) = let rest = same_bytes_refl s in ground arith

pub same_bytes→eq : (s t : Bytes) → same_bytes s t ≡ true → s ≡ t
unfolding same_bytes
same_bytes→eq [] [] e = refl
same_bytes→eq [] (d ∷ t) e = absurd (cc)
same_bytes→eq (c ∷ s) [] e = absurd (cc)
same_bytes→eq (c ∷ s) (d ∷ t) e =
    let first : c ≡ d = ground arith in
    let later : same_bytes s t ≡ true = ground arith in
    ap₂ (λ x xs. x ∷ xs) first (same_bytes→eq s t later)

any-keeps :
    (p : PairForm → Bool) (xs ys : List PairForm) → any p xs ≡ true → any p (xs ++ ys) ≡ true
any-keeps p xs ys e = any-append p xs ys ∙ (rw e refl)

any-adds :
    (p : PairForm → Bool) (xs : List PairForm) (x : PairForm)
    → p x ≡ true
    → any p (xs ++ x ∷ []) ≡ true
any-adds p [] x e = rw e refl
any-adds p (y ∷ ys) x e = let rest = any-adds p ys x e in ground arith

any-weaker :
    (p q : PairForm → Bool) (xs : List PairForm)
    → ((x : PairForm) → p x ≡ true → q x ≡ true)
    → any p xs ≡ true
    → any q xs ≡ true
any-weaker p q [] step e = cc
any-weaker p q (x ∷ xs) step e = elim (Bool-cases (p x)) [
  | inl here ↦ rw (step x here) refl
  | inr off ↦
      let later : any p xs ≡ true = ground arith in
      let rest = any-weaker p q xs step later in ground arith
]

-- Every entry of `folded` has its form.
Backed : Compact → Type 0
Backed c =
    (lower : ℕ) → get_or c.folded lower false ≡ true → any (is_folded_byte lower) c.out ≡ true

compact_with-keeps :
    (lone : Option ℕ) (form : Bytes) (c : Compact) (p : PairForm → Bool)
    → any p c.out ≡ true
    → any p (compact_with lone form c).out ≡ true
compact_with-keeps (some lower) form c p e = elim (Bool-cases (get_or c.folded lower false)) [
  | inl seen ↦ rw seen e
  | inr new ↦ rw new (any-keeps p c.out (record { bytes = lower ∷ []; fold = true } ∷ []) e)
]
compact_with-keeps none form c p e = elim (Bool-cases (any (is_prior form) c.out)) [
  | inl seen ↦ rw seen e
  | inr new ↦ rw new (any-keeps p c.out (record { bytes = form; fold = false } ∷ []) e)
]

set-true :
    (xs : List Bool) (i j : ℕ)
    → get_or (set xs i true) j false ≡ true
    → (i ≡ j) ⊎ (get_or xs j false ≡ true)
set-true [] i j e = inr e
set-true (x ∷ xs) zero zero e = inl refl
set-true (x ∷ xs) zero (suc j) e = inr e
set-true (x ∷ xs) (suc i) zero e = inr e
set-true (x ∷ xs) (suc i) (suc j) e = elim (set-true xs i j e) [
  | inl same ↦ inl (ap suc same)
  | inr before ↦ inr before
]

compact_with-Backed :
    (lone : Option ℕ) (form : Bytes) (c : Compact) → Backed c → Backed (compact_with lone form c)
unfolding Backed
compact_with-Backed (some lower) form c backed = elim (Bool-cases (get_or c.folded lower false)) [
  | inl seen ↦ rw seen backed
  | inr new ↦
      let mine : PairForm = record { bytes = lower ∷ []; fold = true } in
      rw new (λ other at. elim (set-true c.folded lower other at) [
        | inl same ↦ any-adds (is_folded_byte other) c.out mine (ground arith)
        | inr before ↦ any-keeps (is_folded_byte other) c.out (mine ∷ []) (backed other before)
      ])
]
compact_with-Backed none form c backed = elim (Bool-cases (any (is_prior form) c.out)) [
  | inl seen ↦ rw seen backed
  | inr new ↦ rw new (λ other at.
      any-keeps (is_folded_byte other) c.out (record { bytes = form; fold = false } ∷ [])
        (backed other at))
]

-- The form that a lone letter adds, or finds.
compact_with-Lone :
    (lower : ℕ) (form : Bytes) (c : Compact)
    → Backed c
    → any (is_folded_byte lower) (compact_with (some lower) form c).out ≡ true
unfolding Backed
compact_with-Lone lower form c backed = elim (Bool-cases (get_or c.folded lower false)) [
  | inl seen ↦ rw seen (backed lower seen)
  | inr new ↦ rw new (
      any-adds (is_folded_byte lower) c.out (record { bytes = lower ∷ []; fold = true })
        (ground arith))
]

compact_with-Raw :
    (form : Bytes) (c : Compact) → any (is_prior form) (compact_with none form c).out ≡ true
compact_with-Raw form c = elim (Bool-cases (any (is_prior form) c.out)) [
  | inl seen ↦ rw seen seen
  | inr new ↦ rw new (
      any-adds (is_prior form) c.out (record { bytes = form; fold = false }) (same_bytes_refl form))
]

or-right : (a b : Bool) → b ≡ true → (a || b) ≡ true
or-right true b e = refl
or-right false b e = e

raw-Stands : (form : Bytes) (c : Compact) → any (stands form) (compact_with none form c).out ≡ true
raw-Stands form c =
    any-weaker (is_prior form) (stands form) (compact_with none form c).out
      (λ pair e.
        or-right (pair.fold && length form == 1 && is_folded_byte (fold_case (byte_at form 0)) pair)
          (is_prior form pair) e)
      (compact_with-Raw form c)

folded-stands :
    (d : ℕ) (pair : PairForm)
    → is_folded_byte (fold_case d) pair ≡ true
    → stands (d ∷ []) pair ≡ true
folded-stands d pair e =
    let fold : pair.fold ≡ true = ground arith in
    let one : (length (d ∷ []) == 1) ≡ true = refl in rw (e, fold) refl

compact_form-Stands :
    (form : Bytes) (c : Compact) → Backed c → any (stands form) (compact_form form c).out ≡ true
compact_form-Stands [] c backed = raw-Stands [] c
compact_form-Stands (d ∷ []) c backed = elim (Bool-cases (is_ascii_letter d)) [
  | inl letter ↦ rw letter (
      any-weaker (is_folded_byte (fold_case d)) (stands (d ∷ []))
        (compact_with (some (fold_case d)) (d ∷ []) c).out (folded-stands d)
        (compact_with-Lone (fold_case d) (d ∷ []) c backed))
  | inr other ↦ rw other (raw-Stands (d ∷ []) c)
]
compact_form-Stands (d ∷ e ∷ form) c backed = raw-Stands (d ∷ e ∷ form) c

compact_loop-keeps :
    (forms : List Bytes) (c : Compact) (p : PairForm → Bool)
    → any p c.out ≡ true
    → any p (compact_loop forms c).out ≡ true
unfolding compact_loop
compact_loop-keeps [] c p e = e
compact_loop-keeps (form ∷ forms) c p e =
    compact_loop-keeps forms (compact_form form c) p
      (compact_with-keeps (lone_letter form) form c p e)

compact_loop-Stands :
    (forms : List Bytes) (c : Compact)
    → Backed c
    → All (λ form. any (stands form) (compact_loop forms c).out ≡ true) forms
unfolding compact_loop
compact_loop-Stands [] c backed = tt
compact_loop-Stands (form ∷ forms) c backed =
    let c' = compact_form form c in
    (
      compact_loop-keeps forms c' (stands form) (compact_form-Stands form c backed),
      compact_loop-Stands forms c' (compact_with-Backed (lone_letter form) form c backed),
    )

nothing_folded : (n lower : ℕ) → get_or (replicate n false) lower false ≡ false
nothing_folded zero lower = refl
nothing_folded (suc n) zero = refl
nothing_folded (suc n) (suc lower) = nothing_folded n lower

true-false : ¬ true ≡ false
true-false e = cc

-- Each form of a unit has one that stands for it.
pub compact_pair_forms-Stands :
    (forms : List Bytes) → All (λ form. any (stands form) (compact_pair_forms forms) ≡ true) forms
unfolding compact_pair_forms Backed
compact_pair_forms-Stands forms =
    compact_loop-Stands forms (record { out = []; folded = replicate 128 false })
      (λ lower at. absurd (true-false (sym at ∙ nothing_folded 128 lower)))
