-- ===== src/Tests/Anchors.antt =====
-- The anchors of concrete literals, and the searches by them.
use casei.Base.{
  scan, ℕ, ◌≡◌, inl, refl, some, true, false, [], ◌∷◌, ◌&&◌, leb, if◌then◌else◌, arith, Bytes,
  AreBytes, ◌+◌, ◌-◌, Bool,
}
use casei.Utf8.{decode_rune, decode_last_rune, rune_back}
use casei.Ascii.{is_ascii_letter, ascii_rarity}
use casei.Ascii.Anchor.{
  ByteAnchor, make_ascii_anchor, make_fixed_anchor, make_static_anchor, make_each_probe,
  fixed_prefix_of, is_fixed_from, pair_over, ascii_pair_usable, tally, tally_value, count_folded,
}
use casei.Filter.Skip.RootKind.{ascii_fold}
use casei.Ascii.Anchor.Find.{
  find_anchor, find_pair_anchor, find_byte_anchor, recover_interior_start,
}
use casei.Ascii.Anchor.First.{First}
use casei.Ascii.Anchor.Routes.{
  IsLiteral, find_anchor-First, find_pair_anchor-First, find_byte_anchor-First,
}
use casei.Matcher.{match_end}
use casei.Matcher.Interior.{match_end-recover_interior_start}
use casei.Matcher.Probe.{each_probe}
use casei.Matcher.Probe.Greedy.{Enumerates, each_probe-Greedy}

-- The orbits of the ASCII letters, but for the members outside ASCII.
abbrev swap_case : ℕ → ℕ
swap_case r =
    if leb b'a' r && leb r b'z' then r - 32 else if leb b'A' r && leb r b'Z' then r + 32 else r

-- "cab"
abbrev cab : Bytes
cab = b'c' ∷ b'a' ∷ b'b' ∷ []

-- "acaCABx"
abbrev text : Bytes
text = b'a' ∷ b'c' ∷ b'a' ∷ b'C' ∷ b'A' ∷ b'B' ∷ b'x' ∷ []

text_bytes : AreBytes text
text_bytes = (
  omega arith,
  (omega arith, (omega arith, (omega arith, (omega arith, (omega arith, (omega arith, tt)))))),
)

cab-IsLiteral : IsLiteral swap_case cab
unfolding fixed_prefix_of is_fixed_from is_ascii_letter
cab-IsLiteral = record {
  bytes = (omega arith, (omega arith, (omega arith, tt)));
  three = omega arith;
  fixed = refl;
  mixed = refl;
}

abbrev never : ℕ → Bool
never at = false

find_anchor-First_example :
    First text cab (find_anchor (make_ascii_anchor swap_case cab) never text)
find_anchor-First_example = find_anchor-First swap_case cab cab-IsLiteral never text text_bytes

each_probe-Greedy_example : Enumerates text cab 0 (λ S yield state.
    each_probe yield
      (make_ascii_anchor swap_case cab)
      (make_each_probe (make_ascii_anchor swap_case cab) 1 false cab)
      3
      never
      text
      state)
each_probe-Greedy_example =
    each_probe-Greedy swap_case cab 3 false never text cab-IsLiteral text_bytes

-- "card ended"
abbrev card_ended : Bytes
card_ended = b'c' ∷ b'a' ∷ b'r' ∷ b'd' ∷ b' ' ∷ b'e' ∷ b'n' ∷ b'd' ∷ b'e' ∷ b'd' ∷ []

card-IsLiteral : IsLiteral swap_case card_ended
unfolding fixed_prefix_of is_fixed_from is_ascii_letter
card-IsLiteral = record { bytes = search (arith); three = omega arith; fixed = refl; mixed = refl }

card_pair : ascii_pair_usable (make_ascii_anchor swap_case card_ended).pair ≡ true
unfolding make_ascii_anchor make_fixed_anchor ascii_pair_usable fixed_prefix_of is_fixed_from
    pair_over is_ascii_letter
card_pair = refl

find_pair_anchor-First_example :
    First text card_ended (find_pair_anchor (make_ascii_anchor swap_case card_ended) text)
find_pair_anchor-First_example =
    find_pair_anchor-First swap_case card_ended card-IsLiteral text text_bytes card_pair

-- fifteen times "a" and "x"
abbrev many_a : Bytes
many_a =
    b'a' ∷ b'a' ∷ b'a' ∷ b'a' ∷ b'a' ∷ b'a' ∷ b'a' ∷ b'a' ∷ b'a' ∷ b'a' ∷ b'a' ∷ b'a' ∷ b'a' ∷ b'a'
    ∷ b'a' ∷ b'x' ∷ []

many_bytes : AreBytes many_a
many_bytes = search (arith)

abbrev x_anchor : ByteAnchor
x_anchor = record { at = 15; kind = ascii_fold; byte = b'x' }

x_chosen : make_static_anchor many_a 16 ≡ some x_anchor
unfolding make_static_anchor tally tally_value count_folded is_ascii_letter ascii_rarity scan
x_chosen = refl

many-IsLiteral : IsLiteral swap_case many_a
unfolding fixed_prefix_of is_fixed_from is_ascii_letter
many-IsLiteral = record { bytes = many_bytes; three = omega arith; fixed = refl; mixed = refl }

find_byte_anchor-First_example :
    First text many_a (find_byte_anchor (make_ascii_anchor swap_case many_a) never x_anchor text)
find_byte_anchor-First_example =
    find_byte_anchor-First swap_case many_a many-IsLiteral never x_anchor text text_bytes
      (inl x_chosen)

-- the Kelvin sign and "ab"
abbrev kelvin_ab : Bytes
kelvin_ab = 0xe2 ∷ 0x84 ∷ 0xaa ∷ b'a' ∷ b'b' ∷ []

kelvin_start : recover_interior_start kelvin_ab 4 2 ≡ some 0
unfolding recover_interior_start decode_last_rune rune_back decode_rune
kelvin_start = refl

match_end-recover_interior_start_example : match_end 2 kelvin_ab 0 ≡ 4
match_end-recover_interior_start_example =
    match_end-recover_interior_start kelvin_ab 4 2 0 (omega arith) kelvin_start
