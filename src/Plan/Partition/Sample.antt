-- ===== src/Plan/Partition/Sample.antt =====
-- plan.go: `sparseSample` beside a scan of every byte.
use casei.Base.{
  ℕ, zero, suc, ◌+◌, ◌-◌, ◌<◌, ◌≤◌, Bool, true, false, ◌||◌, [], ◌∷◌, arith, leb, ◌==◌,
  if◌then◌else◌, length, take, Bytes, byte_at, scan, ◌≡◌, refl, ap, scan-IsFirst, Bool-cases, inl,
  inr,
}
use casei.Utf8.{rune_self}
use casei.Filter.Skip.{exact, root_skip_ascii}
use casei.Plan.Partition.{sample_loop, sparse_sample, partition_max_high}

-- Byte by byte: no byte is 0, and fewer than sixteen are not ASCII.
pub count_bytes : ℕ → Bytes → ℕ → ℕ → Bool
count_bytes zero text at high = true
count_bytes (suc n) text at high =
    if byte_at text at == 0
    then false
    else if leb rune_self (byte_at text at)
    then if leb partition_max_high (suc high) then false else count_bytes n text (suc at) (suc high)
    else count_bytes n text (suc at) high

-- Plain bytes change nothing.
count_plain :
    (k n : ℕ) (text : Bytes) (at high : ℕ)
    → ((j : ℕ) → at ≤ j → j < at + k → (leb 0x80 (byte_at text j) || byte_at text j == 0) ≡ false)
    → count_bytes (k + n) text at high ≡ count_bytes n text (at + k) high
unfolding count_bytes
count_plain zero n text at high h =
    let e : at + 0 ≡ at = omega arith in let z : 0 + n ≡ n = omega arith in rw (e, z) refl
count_plain (suc k) n text at high h =
    let e : at + suc k ≡ suc at + k = omega arith in
    let z : suc k + n ≡ suc (k + n) = omega arith in
    let here = h at (omega arith) (omega arith) in
    let rest = count_plain k n text (suc at) high (λ j a b. h j (omega arith) (omega arith)) in
    rw (e, z) (ground arith)

sample_loop-count_bytes :
    (rounds : ℕ) (text : Bytes) (end at high : ℕ)
    → length text ≡ end
    → end ≤ at + rounds
    → sample_loop rounds text end at high ≡ count_bytes (end - at) text at high
unfolding sample_loop root_skip_ascii count_bytes
sample_loop-count_bytes zero text end at high l fuel =
    let e : end - at ≡ 0 = omega arith in rw e refl
sample_loop-count_bytes (suc rounds) text end at high l fuel =
    let test = λ (j : ℕ). leb 0x80 (byte_at text j) || byte_at text j == 0 in
    elim (Bool-cases (leb end at)) [
      | inl over ↦ let e : end - at ≡ 0 = ground arith in rw (over, e) refl
      | inr more ↦
          let f = scan-IsFirst (length text - at) test at (length text) (ground arith) in
          let stop = scan (length text - at) test at in
          let lo = f.above in
          let hi = f.below in
          let back : at + (stop - at) ≡ stop = omega arith in
          let plain =
            count_plain (stop - at) (end - stop) text at high
              (λ j a b. f.passed j a (omega arith)) in
          let rounds_left : (stop - at) + (end - stop) ≡ end - at = omega arith in
          let plain' = rw (rounds_left, back) at plain in
          let skip : at + root_skip_ascii text at exact 0 ≡ stop = back in
          rw (skip, more, plain')
            (elim (Bool-cases (leb end stop)) [
              | inl past ↦ let e : end - stop ≡ 0 = ground arith in rw (past, e) refl
              | inr within ↦
                  let e : end - stop ≡ suc (end - suc stop) = ground arith in
                  let stopped = f.stops (ground arith) in
                  let rest =
                    sample_loop-count_bytes rounds text end (suc stop) (suc high) l (omega arith) in
                  rw e (ground arith)
            ])
    ]

length-take : (n : ℕ) (s : Bytes) → n ≤ length s → length (take n s) ≡ n
length-take zero s h = refl
length-take (suc n) [] h = absurd (omega arith)
length-take (suc n) (x ∷ s) h = ap suc (length-take n s (omega arith))

-- On a range inside the text, the sample that skips from one exceptional byte to the next
-- accepts exactly if a scan of every byte does, which rejects at the first zero byte and at the
-- sixteenth byte that is not ASCII.
pub sparse_sample-count_bytes :
    (s : Bytes) (start end : ℕ)
    → start ≤ end
    → end ≤ length s
    → sparse_sample s start end ≡ count_bytes (end - start) (take end s) start 0
unfolding sparse_sample
sparse_sample-count_bytes s start end h k =
    sample_loop-count_bytes (end - start) (take end s) end start 0 (length-take end s k)
      (omega arith)
