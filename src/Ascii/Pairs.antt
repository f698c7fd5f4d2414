-- ===== src/Ascii/Pairs.antt =====
-- plan.go: the choice of an interior pair: `asciiPairRarity` and `chooseASCIIPairAnchor`.
pub mod Choice
use casei.Base.{
  ℕ, zero, suc, ◌+◌, ◌-◌, ◌*◌, ◌<◌, ◌≤◌, Bool, true, false, ◌&&◌, ◌||◌, not, Option, some, none,
  List, [], ◌∷◌, arith, ltb, ◌==◌, if◌then◌else◌, length, any, Bytes, byte_at,
}
use casei.Ascii.{ascii_rarity}

-- The digraphs of the switch.
abbrev pub common_pairs : List (ℕ × ℕ)
common_pairs =
    (b't', b'h')
    ∷ (b'h', b'e')
    ∷ (b'i', b'n')
    ∷ (b'e', b'r')
    ∷ (b'a', b'n')
    ∷ (b'r', b'e')
    ∷ (b'o', b'n')
    ∷ (b'a', b't')
    ∷ (b'e', b'n')
    ∷ (b'n', b'd')
    ∷ (b't', b'i')
    ∷ (b'e', b's')
    ∷ (b'o', b'r')
    ∷ (b't', b'e')
    ∷ (b'o', b'f')
    ∷ (b'e', b'd')
    ∷ (b'i', b's')
    ∷ (b'i', b't')
    ∷ (b'a', b'l')
    ∷ (b'a', b'r')
    ∷ (b's', b't')
    ∷ (b't', b'o')
    ∷ (b'n', b't')
    ∷ (b'n', b'g')
    ∷ (b's', b'e')
    ∷ (b'h', b'a')
    ∷ (b'a', b's')
    ∷ (b'o', b'u')
    ∷ (b'i', b'o')
    ∷ (b'l', b'e')
    ∷ (b'v', b'e')
    ∷ (b'c', b'o')
    ∷ (b'm', b'e')
    ∷ (b'd', b'e')
    ∷ (b'h', b'i')
    ∷ (b'r', b'i')
    ∷ (b'r', b'o')
    ∷ (b'i', b'c')
    ∷ (b'n', b'e')
    ∷ (b'e', b'a')
    ∷ (b'l', b'i')
    ∷ (b'c', b'h')
    ∷ (b'l', b'l')
    ∷ (b'b', b'e')
    ∷ (b'm', b'a')
    ∷ (b's', b'i')
    ∷ (b'o', b'm')
    ∷ (b'u', b'r')
    ∷ (b'w', b'a')
    ∷ (b'd', b'o')
    ∷ (b'k', b'e')
    ∷ []

unfoldable pub ascii_pair_rarity : ℕ → ℕ → ℕ
ascii_pair_rarity first second =
    let score = ascii_rarity first + ascii_rarity second in
    if any (λ p. p.0 == first && p.1 == second) common_pairs then score + 4 else score

abbrev pub min_of : ℕ → ℕ → ℕ
min_of a b = if ltb b a then b else a

-- `interior` at an offset.
unfoldable pub interior_of : Bytes → ℕ → ℕ
interior_of spelling at = min_of at (length spelling - 2 - at)

abbrev pub pair_score : Bytes → ℕ → ℕ
pair_score spelling at = ascii_pair_rarity (byte_at spelling at) (byte_at spelling (suc at))

-- bestAt, bestScore and bestInterior; before the first round the score is the greatest int.
pub record BestPair : Type 0 where
  pub at : ℕ
  pub score : ℕ
  pub interior : ℕ

abbrev pub beats : Bytes → ℕ → Option BestPair → Bool
beats spelling at none = true
beats spelling at (some best) =
    ltb (pair_score spelling at) best.score
    || pair_score spelling at == best.score && ltb best.interior (interior_of spelling at)

abbrev pub here : Bytes → ℕ → BestPair
here spelling at = record {
  at = at;
  score = pair_score spelling at;
  interior = interior_of spelling at;
}

-- The loop over `at` with `rounds` left; none is the state before the first round.
unfoldable pub choose_loop : ℕ → Bytes → ℕ → Option BestPair → Option BestPair
choose_loop zero spelling at best = best
choose_loop (suc rounds) spelling at best =
    choose_loop rounds spelling (suc at)
      (if beats spelling at best then some (here spelling at) else best)

abbrev pub best_at : Option BestPair → ℕ
best_at none = 0
best_at (some best) = best.at

unfoldable pub choose_pair_anchor : Bytes → ℕ
choose_pair_anchor spelling = best_at (choose_loop (length spelling - 1) spelling 0 none)
