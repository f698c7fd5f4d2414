-- ===== src/Ascii.antt =====
-- plan.go: tests of ASCII bytes and their rarity ranks.
pub mod Words
pub mod Only
pub mod Pairs
pub mod Anchor
use casei.Base.{◌<◌, All, Bytes, ℕ, Bool, ◌&&◌, ◌||◌, ◌==◌, leb, if◌then◌else◌}

unfoldable pub is_ascii_letter : ℕ → Bool
is_ascii_letter b = leb b'A' b && leb b b'Z' || leb b'a' b && leb b b'z'

-- A text of ASCII alone.
abbrev pub AreAscii : Bytes → Type 0
AreAscii = All (λ b. b < 0x80)

unfoldable pub ascii_rarity : ℕ → ℕ
ascii_rarity value =
    if value == b'q' || value == b'x' || value == b'z' || value == b'j'
    then 0
    else if value == b'b'
        || value == b'f'
        || value == b'k'
        || value == b'v'
        || value == b'w'
        || value == b'y'
    then 1
    else 2
