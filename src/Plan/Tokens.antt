-- ===== src/Plan/Tokens.antt =====
-- plan.go: `patternToken`, `runeToken` and `maxFoldRuneWidth`. The fold orbits are those of
-- `unicode.SimpleFold`, a table of the Go library, which is the parameter `simple_fold`.
pub mod Distinct
pub mod Orbits
use casei.Base.{
  ℕ, zero, suc, ◌+◌, ◌%◌, ◌^◌, Bool, ◌&&◌, ◌||◌, not, Option, some, none, List, [], ◌∷◌, ltb, leb,
  ◌==◌, if◌then◌else◌, length, set, Bytes, byte_at, replicate,
}
use casei.Utf8.{decode_rune, rune_error, encode_rune}

abbrev pub u32 : ℕ → ℕ
u32 n = n % 2 ^ 32

-- A Go map, in the order of its insertions. A missing key reads as 0.
abbrev pub Table : Type 0
Table = List (ℕ × ℕ)

unfoldable pub look : Table → ℕ → Option ℕ
look [] key = none
look ((k, v) ∷ table) key = if k == key then some v else look table key

abbrev pub value_of : Option ℕ → ℕ
value_of none = 0
value_of (some v) = v

unfoldable pub store : Table → ℕ → ℕ → Table
store [] key value = (key, value) ∷ []
store ((k, v) ∷ table) key value =
    if k == key then (k, value) ∷ table else (k, v) ∷ store table key value

-- The part of the plan that maps units to tokens, and `nextToken`.
pub record Tokens : Type 0 where
  pub byte_tokens : List ℕ
  pub runes : Table
  pub next_token : ℕ

abbrev pub no_tokens : Tokens
no_tokens = record { byte_tokens = replicate 256 0; runes = []; next_token = 1 }

-- `token = *nextToken; *nextToken++`, kept for a byte.
unfoldable pub byte_token : Tokens → ℕ → ℕ × Tokens
byte_token t value =
    let token = byte_at t.byte_tokens value in
    if token == 0
    then (
      t.next_token,
      record t {
        byte_tokens = set t.byte_tokens value t.next_token;
        next_token = u32 (t.next_token + 1);
      },
    )
    else (token, t)

-- The loops over an orbit run until it comes back to `r`. An orbit has four members at most
-- (k, s and the Greek letters have three), so `orbit_rounds` are enough.
abbrev pub orbit_rounds : ℕ
orbit_rounds = 8

module _ (simple_fold : ℕ → ℕ) where
  unfoldable pub orbit_from : ℕ → ℕ → ℕ → List ℕ
  orbit_from zero r member = []
  orbit_from (suc rounds) r member =
      let rest = orbit_from rounds r (simple_fold member) in
      if simple_fold member == r then member ∷ [] else member ∷ rest

  -- The members of the orbit of `r`, from `r` on.
  unfoldable pub orbit : ℕ → List ℕ
  orbit r = orbit_from orbit_rounds r r

  unfoldable pub store_orbit : Table → ℕ → List ℕ → Table
  store_orbit runes token [] = runes
  store_orbit runes token (member ∷ members) = store_orbit (store runes member token) token members

  unfoldable pub rune_token : Tokens → ℕ → ℕ × Tokens
  rune_token t r =
      let token = value_of (look t.runes r) in
      if token == 0
      then (
        t.next_token,
        record t {
          runes = store_orbit t.runes t.next_token (orbit r);
          next_token = u32 (t.next_token + 1);
        },
      )
      else (token, t)

  -- The widest UTF-8 form in the orbit; `utf8.RuneLen` is the length of the encoding, and of an
  -- invalid rune it is -1, which is never the widest.
  unfoldable pub widest : ℕ → List ℕ → ℕ
  widest width [] = width
  widest width (member ∷ members) =
      let n = length (encode_rune member) in
      let valid = not (ltb 0x10ffff member || leb 0xd800 member && leb member 0xdfff) in
      widest (if valid && ltb width n then n else width) members

  unfoldable pub max_fold_rune_width : ℕ → ℕ
  max_fold_rune_width r = widest 1 (orbit r)

  -- What one unit of a pattern gives: its token, its size and the tables afterwards.
  pub record PatternUnit : Type 0 where
    pub token : ℕ
    pub size : ℕ
    pub tokens : Tokens

  unfoldable pub pattern_token : Bool → Tokens → Bytes → PatternUnit
  pattern_token exact t s =
      let byte = byte_token t (byte_at s 0) in
      let (r, size) = decode_rune s in
      let rune = rune_token t r in
      if exact
      then record { token = byte.0; size = 1; tokens = byte.1 }
      else if r == rune_error && size == 1
      then record { token = byte.0; size = size; tokens = byte.1 }
      else record { token = rune.0; size = size; tokens = rune.1 }

  -- `unitBytes`: what the unit adds to `maxBytes`.
  unfoldable pub unit_bytes : Bool → Bytes → ℕ → ℕ
  unit_bytes exact s size =
      let (r, n) = decode_rune s in
      if exact then size else if r == rune_error && n == 1 then size else max_fold_rune_width r
