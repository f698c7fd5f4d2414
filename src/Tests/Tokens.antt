-- ===== src/Tests/Tokens.antt =====
-- The tokens of bytes and of runes, at concrete tables.
use casei.Base.{ℕ, ◌≡◌, refl, true, ◌||◌, arith, ◌==◌, if◌then◌else◌}
use casei.Plan.Tokens.{no_tokens, byte_token, orbit, orbit_from, look, rune_token}
use casei.Plan.Tokens.Distinct.{Extends, no_tokens-Distinct, byte_token-Extends}
use casei.Plan.Tokens.Orbits.{in_orbit, Whole, Named, rune_token-Named}

byte_token-Extends_example :
    Extends no_tokens 97 (byte_token no_tokens 97).0 (byte_token no_tokens 97).1
byte_token-Extends_example =
    byte_token-Extends no_tokens 97 no_tokens-Distinct (omega arith) (omega arith)

-- The orbit of "k" without U+212A: two members.
abbrev swap_k : ℕ → ℕ
swap_k r = if r == 75 then 107 else if r == 107 then 75 else r

orbit_swap : (r m : ℕ) → in_orbit swap_k r m ≡ (r == m || swap_k r == m)
unfolding orbit orbit_from
orbit_swap r m = ground arith

swap_classes : (q m p : ℕ) → in_orbit swap_k q m ≡ true → in_orbit swap_k p m ≡ in_orbit swap_k p q
swap_classes q m p e =
    let e' = rw (orbit_swap q m) at e in rw (orbit_swap p m, orbit_swap p q) (ground arith)

no_tokens-Whole : Whole swap_k no_tokens
unfolding look
no_tokens-Whole = record { same = λ r m e. refl; below = λ r. omega arith }

rune_token-Named_example :
    Named swap_k no_tokens 75 (rune_token swap_k no_tokens 75).0 (rune_token swap_k no_tokens 75).1
rune_token-Named_example =
    rune_token-Named swap_k no_tokens 75 swap_classes no_tokens-Whole (omega arith) (omega arith)
