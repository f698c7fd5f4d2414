-- ===== src/Filter/Pair/Sound.antt =====
-- root_other.go: what `filterSkipBytes` skips.
use casei.Base.{
  ℕ, suc, ◌+◌, ◌-◌, ◌<◌, ◌≤◌, ◌≡◌, ◌≢◌, refl, ap, Bool, false, ◌&&◌, arith, ltb, ◌==◌,
  if◌then◌else◌, length, any, All, Bytes, AreBytes, byte_at, byte_at-IsByte, scan, scan-IsFirst,
  Bool-cases, inl, inr,
}
use casei.Filter.Pair.{
  RootFilter, PairShuftiFilter, make_pair_shufti_filter, pair_shufti_at, root_at,
  pair_shufti_skip_scalar, filter_skip_general, filter_skip,
}
use casei.Filter.Pair.Exact.{IsPair, pair_shufti_at-covers, shufti-ones}

general_sound :
    (s : Bytes) (start j : ℕ) (f : RootFilter)
    → start ≤ j
    → j < start + filter_skip_general s start f
    → root_at s f j ≡ false
unfolding filter_skip_general
general_sound s start j f lo hi =
    let first =
      scan-IsFirst (length s - start) (root_at s f) start (start + (length s - start)) refl in
    first.passed j lo (omega (arith, first.above))

-- What is skipped past the index where the loop stopped is the last byte, which the tail rejected.
after_stop :
    (n start stop j : ℕ) (tail : Bool)
    → start ≤ stop
    → stop ≤ j
    → j < n
    → j
      < start
        + (if ltb (suc stop) n then stop - start else if tail then stop - start else n - start)
    → (j ≡ stop) × (suc j ≡ n) × (tail ≡ false)
after_stop n start stop j tail above past inside skipped = ground arith

module _ (s : Bytes) (bytes : AreBytes s) (f : RootFilter) (marked : All IsPair f.pairs)
    (ok : (make_pair_shufti_filter f).valid ≢ 0) where
  -- Where the tables reject, so do the comparisons.
  rejects :
      (j : ℕ)
      → pair_shufti_at (byte_at s j) (byte_at s (suc j)) (make_pair_shufti_filter f) ≡ false
      → root_at s f j ≡ false
  unfolding root_at
  rejects j h =
      let covers =
        pair_shufti_at-covers (byte_at s j) (byte_at s (suc j)) f (byte_at-IsByte s j bytes)
          (byte_at-IsByte s (suc j) bytes) marked ok in
      ground (arith, covers)

  -- At the last byte only a one-byte root can begin.
  last_rejects :
      (j : ℕ)
      → suc j ≡ length s
      → any (λ one. byte_at s j == one) f.ones ≡ false
      → root_at s f j ≡ false
  unfolding root_at
  last_rejects j e h = ground arith

  shufti_sound :
      (start j : ℕ)
      → start ≤ j
      → j < start + pair_shufti_skip_scalar s start (make_pair_shufti_filter f)
      → j < length s
      → root_at s f j ≡ false
  unfolding pair_shufti_skip_scalar
  shufti_sound start j lo hi inside =
      let test = λ (at : ℕ).
        pair_shufti_at (byte_at s at) (byte_at s (suc at)) (make_pair_shufti_filter f) in
      let first =
        scan-IsFirst (length s - 1 - start) test start (start + (length s - 1 - start)) refl in
      elim (Bool-cases (ltb j (scan (length s - 1 - start) test start))) [
        | inl before ↦ rejects j (first.passed j lo (ground arith))
        | inr after ↦
            let stop = scan (length s - 1 - start) test start in
            let ones = (make_pair_shufti_filter f).ones in
            let (at_stop, last, tail) =
              after_stop (length s) start stop j
                (ltb stop (length s) && any (λ one. byte_at s stop == one) ones) first.above
                (ground arith) inside hi in
            let missed : any (λ one. byte_at s j == one) ones ≡ false = rw at_stop (ground arith) in
            last_rejects j last (rw (shufti-ones f ok) at missed)
      ]

-- For a root filter of byte pairs in which only lower-case letters are marked for folding and
-- whose Shufti table is the one made from it, no byte of the text that filterSkipBytes skips, by
-- the tables or by the comparisons, is one at which a root of the filter begins.
pub filter_skip_sound :
    (s : Bytes) (start j : ℕ) (f : RootFilter)
    → AreBytes s
    → All IsPair f.pairs
    → f.shufti ≡ make_pair_shufti_filter f
    → start ≤ j
    → j < start + filter_skip s start f
    → j < length s
    → root_at s f j ≡ false
unfolding filter_skip
filter_skip_sound s start j f bytes marked table lo hi inside =
    elim (Bool-cases (f.shufti.valid == 0)) [
      | inl off ↦ general_sound s start j f lo (ground arith)
      | inr on ↦
          let ok : (make_pair_shufti_filter f).valid ≢ 0 =
            λ z. ground (arith, ap (λ (t : PairShuftiFilter). t.valid) table) in
          shufti_sound s bytes f marked ok start j lo (rw (← table) (ground arith)) inside
    ]
