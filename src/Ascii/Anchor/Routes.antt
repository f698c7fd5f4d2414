-- ===== src/Ascii/Anchor/Routes.antt =====
-- plan.go: the results of the searches for an ASCII literal by its anchors, on the plan of
-- `makeASCIIAnchor`.
use casei.Base.{
  [], ◌∷◌, ℕ, Bool, ◌&&◌, ◌==◌, leb, if◌then◌else◌, ◌+◌, ◌-◌, true, false, some, arith, length,
  Bytes, ◌≡◌, ◌≤◌, ltb, refl, inl, inr, Bool-cases, AreBytes, sym, ◌⊎◌,
}
use mathlib.Core.Path.{subst}
use casei.Ascii.Words.{literal_at, ascii_fixed_at}
use casei.Ascii.Words.Fixed.{ascii_fixed_at-eq-literal_at}
use casei.Utf8.{rune_self}
use casei.Ascii.{AreAscii}
use casei.Plan.Tokens.{orbit_rounds}
use casei.Ascii.Only.{make_only}
use casei.Ascii.Anchor.{
  ByteAnchor, AnchorPlan, ascii_pair_usable, make_static_anchor, is_same, make_fixed_anchor,
  fixed_prefix_of, is_fixed_from, make_ascii_anchor,
}
use casei.Ascii.Anchor.Find.{
  choose_byte_anchor, find_byte_anchor, starts, find_pair_anchor, anchor_loop, find_anchor,
}
use casei.Ascii.Anchor.First.{
  First, Whole, make_fixed_anchor-Whole, anchor_loop-First, pair_anchor_loop-First, AnchorOf,
  byte_anchor_loop-First,
}
use casei.Ascii.Anchor.Choice.{choose_byte_anchor-AnchorOf, make_static_anchor-AnchorOf}

Whole-find_anchor :
    (p : AnchorPlan) (tokens_at : ℕ → Bool) (s pattern : Bytes)
    → Whole pattern p
    → AreBytes s
    → First s pattern (find_anchor p tokens_at s)
unfolding find_anchor
Whole-find_anchor p tokens_at s pattern w b =
    let limit : starts p s ≡ length s + 1 - length pattern = rw w.needle refl in
    let bound : (if p.verify_tokens then length s - p.probe.third_at else starts p s) ≡ starts p s =
      rw w.verify refl in
    subst (λ n. First s pattern (anchor_loop p tokens_at s n n 0)) (sym bound)
      (anchor_loop-First (starts p s) p tokens_at s pattern (starts p s) 0 w b limit (omega arith)
        (λ j x y fits. absurd (omega arith)))

Whole-find_pair_anchor :
    (p : AnchorPlan) (s pattern : Bytes)
    → Whole pattern p
    → ascii_pair_usable p.pair ≡ true
    → AreBytes s
    → First s pattern (find_pair_anchor p s)
unfolding find_pair_anchor First
Whole-find_pair_anchor p s pattern w usable b =
    let (pair, nine) = w.pair usable in
    let eight : leb 8 (length pattern) ≡ true = ground arith in
    let same = ascii_fixed_at-eq-literal_at s 0 pattern b w.bytes in
    let limit : starts p s ≡ length s + 1 - length pattern = rw w.needle refl in
    let loop =
      pair_anchor_loop-First (starts p s) p s pattern (starts p s) 0 w b usable limit (omega arith)
        (λ j x y fits. absurd (omega arith)) in
    elim (Bool-cases (leb (length pattern) (length s) && literal_at s 0 pattern)) [
      | inl first ↦
          let test : (leb (length p.needle) (length s) && ascii_fixed_at p.words p.needle s 0)
              ≡ true =
            rw (w.words eight, w.needle, same) first in
          rw test (ground arith, ground arith, λ j x y fits. absurd (omega arith))
      | inr later ↦
          let test : (leb (length p.needle) (length s) && ascii_fixed_at p.words p.needle s 0)
              ≡ false =
            rw (w.words eight, w.needle, same) later in
          rw test loop
    ]

Whole-find_byte_anchor :
    (p : AnchorPlan) (tokens_at : ℕ → Bool) (a : ByteAnchor) (s pattern : Bytes) (n : ℕ)
    → Whole pattern p
    → AreBytes s
    → (make_static_anchor pattern n ≡ some a) ⊎ (choose_byte_anchor p s ≡ some a)
    → First s pattern (find_byte_anchor p tokens_at a s)
unfolding find_byte_anchor
Whole-find_byte_anchor p tokens_at a s pattern n w b chosen =
    let anchor : AnchorOf pattern a = elim chosen [
      | inl fixed ↦ make_static_anchor-AnchorOf pattern n a w.bytes fixed
      | inr sampled_one ↦ choose_byte_anchor-AnchorOf p s pattern a w sampled_one
    ] in
    byte_anchor_loop-First (length s) p tokens_at a s pattern 0 w anchor b (omega arith)
      (λ j x fits. absurd (omega arith))

-- A literal of three bytes or more, whose letters have no spelling outside ASCII, and which is
-- not one byte repeated.
pub record IsLiteral (simple_fold : ℕ → ℕ) (pattern : Bytes) : Type 0 where
  pub bytes : AreBytes pattern
  pub three : 3 ≤ length pattern
  pub fixed : fixed_prefix_of simple_fold pattern ≡ length pattern
  pub mixed : is_same pattern ≡ false

fixed_prefix_of-AreAscii :
    (simple_fold : ℕ → ℕ) (pattern : Bytes)
    → fixed_prefix_of simple_fold pattern ≡ length pattern
    → AreAscii pattern
unfolding fixed_prefix_of
fixed_prefix_of-AreAscii simple_fold [] e = tt
fixed_prefix_of-AreAscii simple_fold (c ∷ pattern) e =
    elim (Bool-cases (ltb c rune_self && is_fixed_from simple_fold orbit_rounds c c)) [
      | inl fixed ↦
          let e' = rw fixed at e in
          (ground arith, fixed_prefix_of-AreAscii simple_fold pattern (omega arith))
      | inr other ↦ absurd (let e' = rw other at e in omega arith)
    ]

module _ (simple_fold : ℕ → ℕ) (pattern : Bytes) (literal : IsLiteral simple_fold pattern) where
  literal-fixed :
      make_ascii_anchor simple_fold pattern
      ≡ make_fixed_anchor (make_only pattern) pattern (length pattern)
  unfolding make_ascii_anchor
  literal-fixed =
      let three = literal.three in
      let long : ltb (length pattern) 3 ≡ false = ground arith in
      rw (literal.fixed, long, literal.mixed)
        (let whole : (length pattern == length pattern) ≡ true = ground arith in rw whole refl)

  pub literal-Whole : Whole pattern (make_ascii_anchor simple_fold pattern)
  literal-Whole = subst (Whole pattern) (sym literal-fixed) (
      make_fixed_anchor-Whole (make_only pattern) pattern literal.three literal.bytes
        (fixed_prefix_of-AreAscii simple_fold pattern literal.fixed))

  -- For a literal of three bytes or more, whose letters have no spelling outside ASCII by the
  -- fold orbits and which is not one byte repeated, on every text of bytes: the start that
  -- findASCIIAnchor reports is the first at which the literal occurs, letters folded, and where
  -- it reports none the literal occurs nowhere.
  pub find_anchor-First :
      (tokens_at : ℕ → Bool) (s : Bytes)
      → AreBytes s
      → First s pattern (find_anchor (make_ascii_anchor simple_fold pattern) tokens_at s)
  find_anchor-First tokens_at s b =
      Whole-find_anchor (make_ascii_anchor simple_fold pattern) tokens_at s pattern literal-Whole b

  -- For such a literal whose plan has a pair, on every text of bytes: the start that
  -- findASCIIPairAnchor reports is the first at which the literal occurs, letters folded, and
  -- where it reports none the literal occurs nowhere.
  pub find_pair_anchor-First :
      (s : Bytes)
      → AreBytes s
      → ascii_pair_usable (make_ascii_anchor simple_fold pattern).pair ≡ true
      → First s pattern (find_pair_anchor (make_ascii_anchor simple_fold pattern) s)
  find_pair_anchor-First s b usable =
      Whole-find_pair_anchor (make_ascii_anchor simple_fold pattern) s pattern literal-Whole usable
        b

  -- For such a literal and a single byte that makeStaticASCIIByteAnchor or chooseASCIIByteAnchor
  -- has chosen for it, on every text of bytes: the start that findASCIIByteAnchor reports is the
  -- first at which the literal occurs, letters folded, and where it reports none the literal
  -- occurs nowhere.
  pub find_byte_anchor-First :
      (tokens_at : ℕ → Bool) (a : ByteAnchor) (s : Bytes)
      → AreBytes s
      → (make_static_anchor pattern (length pattern) ≡ some a)
        ⊎ (choose_byte_anchor (make_ascii_anchor simple_fold pattern) s ≡ some a)
      → First s pattern (find_byte_anchor (make_ascii_anchor simple_fold pattern) tokens_at a s)
  find_byte_anchor-First tokens_at a s b chosen =
      Whole-find_byte_anchor (make_ascii_anchor simple_fold pattern) tokens_at a s pattern
        (length pattern) literal-Whole b chosen
