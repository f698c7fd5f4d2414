-- ===== src/Plan/Partition.antt =====
-- plan.go: the tests that admit a text to the partitioned search.
pub mod Sample
use casei.Base.{
  ℕ, zero, suc, ◌+◌, ◌-◌, ◌*◌, ◌/◌, ◌<◌, ◌≤◌, Bool, true, false, ◌&&◌, ◌||◌, not, List, [], ◌∷◌,
  arith, ltb, leb, ◌==◌, if◌then◌else◌, length, take, Bytes, byte_at, scan,
}
use casei.Utf8.{rune_self}
use casei.Filter.Skip.{exact, root_skip_ascii}

abbrev pub partition_sample_bytes : ℕ
partition_sample_bytes = 1024

abbrev pub partition_max_high : ℕ
partition_max_high = 16

abbrev pub triple_min_bytes : ℕ
triple_min_bytes = 64

unfoldable pub window_worthwhile : ℕ → ℕ → Bool
window_worthwhile len max_bytes =
    leb (2 * partition_sample_bytes) len && ltb 0 max_bytes && leb max_bytes (len / 8)

unfoldable pub early_boundary : Bytes → Bool
early_boundary s =
    let end = if ltb partition_sample_bytes (length s) then partition_sample_bytes else length s in
    ltb (root_skip_ascii (take end s) 0 exact 0) end

unfoldable pub tail_boundary : Bytes → Bool
tail_boundary s =
    let start = length s - triple_min_bytes in
    let stop =
      scan (length s - start) (λ at. leb rune_self (byte_at s at) || byte_at s at == 0) start in
    if ltb (length s) triple_min_bytes then true else ltb stop (length s)

-- `sparseSample`: `text` is haystack[:end]. Each round moves `at` on, so end - start rounds are
-- enough.
unfoldable pub sample_loop : ℕ → Bytes → ℕ → ℕ → ℕ → Bool
sample_loop zero text end at high = true
sample_loop (suc rounds) text end at high =
    let stop = at + root_skip_ascii text at exact 0 in
    let rest = sample_loop rounds text end (suc stop) (suc high) in
    if leb end at
    then true
    else if leb end stop
    then true
    else if byte_at text stop == 0
    then false
    else if leb partition_max_high (suc high)
    then false
    else rest

unfoldable pub sparse_sample : Bytes → ℕ → ℕ → Bool
sparse_sample s start end = sample_loop (end - start) (take end s) end start 0

-- The later samples, which are disjoint from the first and inside the text.
unfoldable pub later_samples : Bytes → ℕ → List ℕ → Bool
later_samples s end [] = true
later_samples s end (start ∷ starts) =
    let rest = later_samples s end starts in
    if ltb start end
    then rest
    else if not (sparse_sample s start (start + partition_sample_bytes))
    then false
    else rest

unfoldable pub sparse_enough : Bytes → ℕ → Bool
sparse_enough s first_exceptional =
    let sampled = first_exceptional + partition_sample_bytes in
    let end = if ltb (length s) sampled then length s else sampled in
    if not (sparse_sample s first_exceptional end)
    then false
    else if leb (length s - first_exceptional) partition_sample_bytes
    then true
    else later_samples s end
        (length s / 4 ∷ length s / 2 ∷ (length s - partition_sample_bytes) ∷ [])
