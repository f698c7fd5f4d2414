-- ===== src/Filter/Skip.antt =====
-- root_other.go: the portable loops that skip to the next candidate.
use casei.Base.{
  ℕ, zero, suc, ◌+◌, ◌-◌, Bool, true, false, ◌&&◌, ◌||◌, not, Option, some, none, List, [], ◌∷◌,
  bit_or, ltb, leb, ◌==◌, if◌then◌else◌, length, get_or, Bytes, byte_at, flag, fold_case, scan,
}
use casei.Utf8.{unit_starts}
use casei.Filter.Pair.{RootFilter, RootPair}
use casei.Filter.Vbmi.{AsciiProbe, AsciiPairProbe, PairPairFilter, pair_pair_at}

-- rootGeneric, rootExact and rootASCIIFold.
pub data RootKind : Type 0 where
  generic exact ascii_fold : RootKind

abbrev pub is_fold : RootKind → Bool
is_fold ascii_fold = true
is_fold _ = false

abbrev pub under : RootKind → ℕ → ℕ
under kind value = if is_fold kind then fold_case value else value

unfoldable pub root_skip_ascii : Bytes → ℕ → RootKind → ℕ → ℕ
root_skip_ascii s start kind needle =
    scan (length s - start) (λ at. leb 0x80 (byte_at s at) || under kind (byte_at s at) == needle)
      start
    - start

unfoldable pub literal_skip_ascii : Bytes → ℕ → RootKind → ℕ → ℕ
literal_skip_ascii s start kind needle =
    scan (length s - start) (λ at. under kind (byte_at s at) == needle) start - start

unfoldable pub literal_skip_exact_ascii : Bytes → ℕ → ℕ → ℕ
literal_skip_exact_ascii s at needle = literal_skip_ascii s at exact needle

-- One position of `asciiProbeAt`.
abbrev pub probe_byte : Bytes → ℕ → Bool → ℕ → Bool
probe_byte s at folded value = (if folded then fold_case (byte_at s at) else byte_at s at) == value

unfoldable pub ascii_probe_at : Bytes → ℕ → AsciiProbe → Bool
ascii_probe_at s at p =
    probe_byte s (at + p.first_at) (flag p.fold 1) p.first
    && probe_byte s (at + p.second_at) (flag p.fold 2) p.second
    && probe_byte s (at + p.third_at) (flag p.fold 4) p.third

unfoldable pub probe_skip : Bytes → ℕ → ℕ → AsciiProbe → ℕ
probe_skip s start candidates p = scan candidates (λ at. ascii_probe_at s at p) start - start

-- The skip, and whether it stopped before a byte that is not ASCII.
unfoldable pub ascii_only_probe_skip : Bytes → ℕ → ℕ → AsciiProbe → ℕ × Bool
ascii_only_probe_skip s start candidates p =
    let stop = scan candidates (λ at. leb 0x80 (byte_at s at) || ascii_probe_at s at p) start in
    (stop - start, not (ltb (stop - start) candidates && leb 0x80 (byte_at s stop)))

unfoldable pub ascii_pair_at : Bytes → ℕ → AsciiPairProbe → Bool
ascii_pair_at s at p =
    bit_or (byte_at s at) p.first_fold == p.first
    && bit_or (byte_at s (at + p.second_at)) p.second_fold == p.second

unfoldable pub ascii_pair_skip : Bytes → ℕ → ℕ → AsciiPairProbe → ℕ
ascii_pair_skip s start candidates p = scan candidates (λ at. ascii_pair_at s at p) start - start

unfoldable pub pair_pair_skip : Bytes → ℕ → PairPairFilter → ℕ
pair_pair_skip s start f =
    scan (length s - (f.offset + 1) - start) (λ at. pair_pair_at s at f) start - start

-- `confirm` is `matchWidthAt` at the start of the candidate. The result is the skip and the width.
unfoldable pub pair_pair_confirm : ℕ → Bytes → ℕ → PairPairFilter → (ℕ → Option ℕ) → ℕ → ℕ → ℕ × ℕ
pair_pair_confirm zero s at f confirm start candidates = (candidates, 0)
pair_pair_confirm (suc rounds) s at f confirm start candidates =
    let later = pair_pair_confirm rounds s (suc at) f confirm start candidates in
    if pair_pair_at s at f
    then elim (confirm at) [ some width ↦ (at - start, width) | none ↦ later ]
    else later

abbrev no_pair : RootPair
no_pair = record { first = 0; second = 0; fold = 0 }

unfoldable pub pair_second_skip : Bytes → ℕ → RootFilter → ℕ
pair_second_skip s start filter =
    let second = λ (k : ℕ). (get_or filter.pairs k no_pair).second in
    let stop =
      scan (length s - suc start) (λ at. byte_at s at == second 0 || byte_at s at == second 1)
        (suc start) in
    if leb (length s) (start + 1)
    then length s - start
    else if ltb stop (length s)
    then stop - start - 1
    else length s - start

unfoldable pub pair_skip_ascii : Bytes → ℕ → RootKind → ℕ → RootKind → ℕ → ℕ
pair_skip_ascii s start first_kind first second_kind second =
    scan (length s - 1 - start)
      (λ at.
        (leb 0x80 (byte_at s at) || leb 0x80 (byte_at s (suc at)))
        || under first_kind (byte_at s at) == first
          && under second_kind (byte_at s (suc at)) == second)
      start
    - start

-- `run` and `start` of `findASCIIRunBytes`, with the units that are left; `none` is -1.
unfoldable pub run_loop : Bytes → RootKind → ℕ → ℕ → ℕ → ℕ → List ℕ → Option ℕ
run_loop s kind needle need run start [] = none
run_loop s kind needle need run start (at ∷ rest) =
    let start' = if run == 0 then at else start in
    let longer = run_loop s kind needle need (run + 1) start' rest in
    let broken = run_loop s kind needle need 0 start rest in
    if under kind (byte_at s at) == needle
    then if leb need (run + 1) then some start' else longer
    else broken

unfoldable pub find_ascii_run : Bytes → RootKind → ℕ → ℕ → Option ℕ
find_ascii_run s kind needle need = run_loop s kind needle need 0 0 (unit_starts s)
