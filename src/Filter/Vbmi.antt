-- ===== src/Filter/Vbmi.antt =====
-- plan.go: the byte tables of the VBMI probes. A table of 64 entries is indexed by the low six bits
-- of a byte; the 128-entry form splits the bytes by bit six.
pub mod Covers
use casei.Base.{
  ℕ, zero, suc, ◌+◌, ◌-◌, ◌<◌, ◌≤◌, Bool, true, false, ◌&&◌, ◌||◌, not, List, [], ◌∷◌, arith,
  bit_and, bit_or, bit_xor, ltb, leb, ◌==◌, if◌then◌else◌, length, replicate, Bytes, byte_at, flag,
  u8,
}
use casei.Ascii.{is_ascii_letter, ascii_rarity}
use casei.Filter.Slots.{mark}

abbrev pub no_table : Bytes
no_table = replicate 64 0

unfoldable pub add_ascii_slot : Bytes → ℕ → ℕ → ℕ → Bytes
add_ascii_slot table value fold slot =
    let table' = mark table (bit_and value 0x3f) slot in
    if not (fold == 0) then mark table' (bit_and (bit_xor value fold) 0x3f) slot else table'

unfoldable pub add_pair_pair_slot : Bytes → ℕ → ℕ → Bytes
add_pair_pair_slot table value slot = mark table (bit_and value 0x3f) slot

pub record Halves : Type 0 where
  pub lo : Bytes
  pub hi : Bytes

abbrev pub no_halves : Halves
no_halves = record { lo = no_table; hi = no_table }

-- The closure `add` of `addASCIIVBMI128Slot`.
unfoldable pub add_half : Halves → ℕ → ℕ → Halves
add_half t value slot =
    if bit_and value 0x40 == 0
    then record t { lo = mark t.lo (bit_and value 0x3f) slot }
    else record t { hi = mark t.hi (bit_and value 0x3f) slot }

unfoldable pub add_ascii_128_slot : Halves → ℕ → ℕ → ℕ → Halves
add_ascii_128_slot t value fold slot =
    let t' = add_half t value slot in
    if not (fold == 0) then add_half t' (bit_xor value fold) slot else t'

pub record PairPairVbmi : Type 0 where
  pub first : Bytes
  pub second : Bytes
  pub confirm_first : Bytes
  pub confirm_second : Bytes
  pub offset : ℕ
  pub valid : ℕ

abbrev pub no_pair_pair_vbmi : PairPairVbmi
no_pair_pair_vbmi = record {
  first = no_table;
  second = no_table;
  confirm_first = no_table;
  confirm_second = no_table;
  offset = 0;
  valid = 0;
}

pub record PairPairFilter : Type 0 where
  pub first0 : ℕ
  pub second0 : ℕ
  pub first1 : ℕ
  pub second1 : ℕ
  pub confirm_first0 : ℕ
  pub confirm_second0 : ℕ
  pub confirm_first1 : ℕ
  pub confirm_second1 : ℕ
  pub offset : ℕ
  pub valid : ℕ
  pub vbmi : PairPairVbmi

unfoldable pub make_pair_pair_vbmi : PairPairFilter → PairPairFilter
make_pair_pair_vbmi f = record f {
  vbmi = record {
    first = add_pair_pair_slot (add_pair_pair_slot no_table f.first0 1) f.first1 2;
    second = add_pair_pair_slot (add_pair_pair_slot no_table f.second0 1) f.second1 2;
    confirm_first =
        add_pair_pair_slot (add_pair_pair_slot no_table f.confirm_first0 1) f.confirm_first1 2;
    confirm_second =
        add_pair_pair_slot (add_pair_pair_slot no_table f.confirm_second0 1) f.confirm_second1 2;
    offset = f.offset;
    valid = 1;
  };
}

unfoldable pub pair_pair_at : Bytes → ℕ → PairPairFilter → Bool
pair_pair_at s at f =
    let first = byte_at s at in
    let second = byte_at s (suc at) in
    let confirm_first = byte_at s (at + f.offset) in
    let confirm_second = byte_at s (suc (at + f.offset)) in
    if leb (length s) (at + f.offset + 1)
    then false
    else if (not (first == f.first0) || not (second == f.second0))
        && (not (first == f.first1) || not (second == f.second1))
    then false
    else confirm_first == f.confirm_first0 && confirm_second == f.confirm_second0
      || confirm_first == f.confirm_first1 && confirm_second == f.confirm_second1

pub record AsciiVbmiProbe : Type 0 where
  pub first_at : ℕ
  pub second_at : ℕ
  pub third_at : ℕ
  pub first : Bytes
  pub second : Bytes
  pub third : Bytes
  pub valid : ℕ

-- `asciiProbe` without its projections.
pub record AsciiProbe : Type 0 where
  pub first : ℕ
  pub second : ℕ
  pub third : ℕ
  pub fold : ℕ
  pub first_at : ℕ
  pub second_at : ℕ
  pub third_at : ℕ

unfoldable pub ascii_probe_usable : AsciiProbe → Bool
ascii_probe_usable p = not (p.third_at == 0) || not (p.second_at == 0) || not (p.first_at == 0)

abbrev fold_of : AsciiProbe → ℕ → ℕ
fold_of p mask = if flag p.fold mask then 0x20 else 0

unfoldable pub make_ascii_vbmi_probe : AsciiProbe → AsciiVbmiProbe
make_ascii_vbmi_probe p =
    let letters = is_ascii_letter p.first && is_ascii_letter p.second && is_ascii_letter p.third in
    record {
      first_at = p.first_at;
      second_at = p.second_at;
      third_at = p.third_at;
      first = if letters then add_ascii_slot no_table p.first (fold_of p 1) 1 else no_table;
      second = if letters then add_ascii_slot no_table p.second (fold_of p 2) 1 else no_table;
      third = if letters then add_ascii_slot no_table p.third (fold_of p 4) 1 else no_table;
      valid = if letters then 1 else 0;
    }

pub record AsciiPairVbmi : Type 0 where
  pub first : Bytes
  pub second : Bytes
  pub second_at : ℕ
  pub valid : ℕ

-- `asciiPairProbe` without its projection.
pub record AsciiPairProbe : Type 0 where
  pub first : ℕ
  pub second : ℕ
  pub first_fold : ℕ
  pub second_fold : ℕ
  pub second_at : ℕ

-- The rarer later letter: its offset, its folded value, its fold mask and its rank.
pub record Choice : Type 0 where
  pub at : ℕ
  pub value : ℕ
  pub fold : ℕ
  pub rank : ℕ

-- The loop over `at` with `rounds` left. At rank 0 it breaks.
unfoldable pub rarer : ℕ → Bytes → ℕ → Choice → Choice
rarer zero pattern at best = best
rarer (suc rounds) pattern at best =
    let value = bit_or (byte_at pattern at) 0x20 in
    let rank = ascii_rarity value in
    let found : Choice = record { at = u8 at; value = value; fold = 0x20; rank = rank } in
    let onward = rarer rounds pattern (suc at) best in
    let better = rarer rounds pattern (suc at) found in
    if not (is_ascii_letter (byte_at pattern at))
    then onward
    else if leb best.rank rank
    then onward
    else if rank == 0
    then found
    else better

unfoldable pub make_ascii_pair_vbmi : AsciiPairProbe → Bytes → AsciiPairVbmi
make_ascii_pair_vbmi p pattern =
    let fixed : Choice = record {
      at = u8 p.second_at;
      value = p.second;
      fold = p.second_fold;
      rank = 2;
    } in
    let second =
      if ascii_rarity p.first == 2 && ascii_rarity p.second == 2
      then rarer (length pattern - (p.second_at + 1)) pattern (suc p.second_at) fixed
      else fixed in
    if not (is_ascii_letter p.first) || not (is_ascii_letter p.second)
    then record { first = no_table; second = no_table; second_at = u8 p.second_at; valid = 0 }
    else record {
      first = add_ascii_slot no_table p.first p.first_fold 1;
      second = add_ascii_slot no_table second.value second.fold 1;
      second_at = second.at;
      valid = 1;
    }
