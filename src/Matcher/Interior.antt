-- ===== src/Matcher/Interior.antt =====
-- zz_ascii_interior.go: `recoverASCIIInteriorStart` beside `matcherMatchEnd` of matcher.go.
use casei.Base.{
  ℕ, ◌&&◌, ◌==◌, leb, zero, suc, ◌+◌, ◌-◌, true, false, some, [], ◌∷◌, arith, length, Bytes,
  byte_at, ◌≡◌, ◌<◌, ◌≤◌, ltb, drop, refl, ap, take, inl, inr, Bool-cases, ◌∙◌, sym,
}
use mathlib.Core.Option.{some-injective}
use casei.Utf8.{rune_self, rune_error, decode_rune, decode_last_rune}
use casei.Utf8.Last.{decode_last_rune-forward}
use casei.Ascii.Anchor.Find.{recover_interior_start}
use casei.Matcher.{match_end}

match_end-snoc :
    (units : ℕ) (s : Bytes) (at : ℕ)
    → match_end (suc units) s at
      ≡ match_end units s at + (decode_rune (drop (match_end units s at) s)).1
unfolding match_end
match_end-snoc zero s at = refl
match_end-snoc (suc units) s at = match_end-snoc units s (at + (decode_rune (drop at s)).1)

narrow-size :
    (s : Bytes) (at : ℕ)
    → at < length s
    → leb rune_self (byte_at s at) ≡ false
    → (decode_rune (drop at s)).1 ≡ 1
unfolding decode_rune
narrow-size [] at h e = absurd (omega arith)
narrow-size (b ∷ s) zero h e = let low : ltb b rune_self ≡ true = ground arith in rw low refl
narrow-size (b ∷ s) (suc at) h e = narrow-size s at (omega arith) e

-- Where recoverASCIIInteriorStart finds a start that lies some decoded units before an index
-- inside the text, decoding as many units forward from that start, as matcherMatchEnd does, ends
-- at that index, whatever bytes the text holds.
pub match_end-recover_interior_start :
    (s : Bytes) (window units start : ℕ)
    → window ≤ length s
    → recover_interior_start s window units ≡ some start
    → match_end units s start ≡ window
unfolding recover_interior_start match_end
match_end-recover_interior_start s window zero start h e = sym (some-injective _ _ e)
match_end-recover_interior_start s zero (suc units) start h e = absurd (cc)
match_end-recover_interior_start s (suc before) (suc units) start h e =
    let text = take (suc before) s in
    let n = (decode_last_rune text).1 in
    let bad = (decode_last_rune text).0 == rune_error && n == 1 in
    elim (Bool-cases (leb rune_self (byte_at s before))) [
      | inr narrow ↦
          let e' = rw narrow at e in
          let rest = match_end-recover_interior_start s before units start (omega arith) e' in
          let size = narrow-size s before (omega arith) narrow in
          match_end-snoc units s start ∙ ap (λ k. k + (decode_rune (drop k s)).1) rest ∙ omega arith
      | inl wide ↦ elim (Bool-cases bad) [
        | inl malformed_unit ↦ absurd (let e' = rw (wide, malformed_unit) at e in cc)
        | inr ok ↦
            let e' = rw (wide, ok) at e in
            let (low, size) = decode_last_rune-forward s before (omega arith) wide ok in
            let rest =
              match_end-recover_interior_start s (suc before - n) units start (omega arith) e' in
            match_end-snoc units s start
            ∙ ap (λ k. k + (decode_rune (drop k s)).1) rest
            ∙ omega arith
      ]
    ]
