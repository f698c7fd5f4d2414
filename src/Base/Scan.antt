-- ===== src/Base/Scan.antt =====
-- The loop `for at < limit { if test(at) { break }; at++ }`: where it stops.
use Prim.Native.Nat.{ℕ, zero, suc, ◌+◌, ◌≤◌, ◌<◌}
use mathlib.Core.Path.{◌≡◌, refl}
use mathlib.Core.Bool.{Bool, true, false}
use mathlib.Core.Logic.{inl, inr}
use native.Mathlib.Omega.{arith}
use casei.Base.Compare.{if◌then◌else◌, Bool-cases}

-- The loop with `rounds` left, at `at`: the index at which it stops.
unfoldable pub scan : ℕ → (ℕ → Bool) → ℕ → ℕ
scan zero test at = at
scan (suc rounds) test at = let later = scan rounds test (suc at) in if test at then at else later

-- `stop` is the first index of [lo, hi) that passes the test, and `hi` if none does.
pub record IsFirst (test : ℕ → Bool) (lo hi stop : ℕ) : Type 0 where
  pub above : lo ≤ stop
  pub below : stop ≤ hi
  pub passed : (j : ℕ) → lo ≤ j → j < stop → test j ≡ false
  pub stops : stop < hi → test stop ≡ true

IsFirst-next :
    {test : ℕ → Bool} {lo hi stop : ℕ}
    → test lo ≡ false
    → IsFirst test (suc lo) hi stop
    → IsFirst test lo hi stop
IsFirst-next {lo} no_stop f = record {
  above = omega arith;
  below = f.below;
  passed = λ j p q. ground (arith, f.passed j);
  stops = f.stops;
}

pub scan-IsFirst :
    (rounds : ℕ) (test : ℕ → Bool) (lo hi : ℕ)
    → lo + rounds ≡ hi
    → IsFirst test lo hi (scan rounds test lo)
unfolding scan
scan-IsFirst zero test lo hi e = record {
  above = omega arith;
  below = omega arith;
  passed = λ j p q. absurd (omega arith);
  stops = λ h. absurd (omega arith);
}
scan-IsFirst (suc rounds) test lo hi e = elim (Bool-cases (test lo)) [
  | inl stop ↦ rw stop (record {
    above = omega arith;
    below = omega arith;
    passed = λ j p q. absurd (omega arith);
    stops = λ h. stop;
  })
  | inr go ↦ rw go (IsFirst-next go (scan-IsFirst rounds test (suc lo) hi (omega arith)))
]

-- Two tests that agree on the range stop at the same index.
pub scan_congr :
    (rounds : ℕ) (p q : ℕ → Bool) (lo : ℕ)
    → ((j : ℕ) → lo ≤ j → j < lo + rounds → p j ≡ q j)
    → scan rounds p lo ≡ scan rounds q lo
unfolding scan
scan_congr zero p q lo h = refl
scan_congr (suc rounds) p q lo h = ground (
  arith,
  h lo (omega arith) (omega arith),
  scan_congr rounds p q (suc lo) (λ j a b. h j (omega arith) (omega arith)),
)
