-- ===== src/Ascii/Anchor.antt =====
-- plan.go: the plan of one pattern with a prefix of ASCII: `makeASCIIAnchor`,
-- `makeStaticASCIIByteAnchor` and `makeASCIIEachProbe`; zz_ascii_interior.go:
-- `makeASCIIInteriorAnchor`.
pub mod Find
pub mod First
pub mod Choice
pub mod Routes
use casei.Base.{
  ℕ, Bool, ◌&&◌, ◌||◌, ◌==◌, leb, if◌then◌else◌, zero, suc, ◌+◌, ◌*◌, ◌/◌, ◌-◌, ◌%◌, ◌^◌, true,
  false, Option, some, none, List, [], ◌∷◌, arith, bit_xor, length, get_or, get_elem?, set, Bytes,
  byte_at, ◌≡◌, ◌<◌, ◌≤◌, not, ltb, drop, ◌>>=◌, refl, ap, replicate, take, inl, inr, Bool-cases,
  ◌≢◌, bit_and, any, scan, All, AreBytes, ◌∙◌, sym, Option-cases, ◌++◌, bit_or, u8, map, word_of,
  or_each, bit_or-above, pow_eight, word_of-step, word_of-nil, bit_or-zero_right, or_each-nil,
  or_each-step, bit_or-word_of, byte_at-IsByte, fold_case_lem, ◌⊎◌, flag, scan-IsFirst,
  length-replicate, length-set, get_or-set, any-append, length-append, ap₂, get_or-set_of_lt,
  All-get_elem?, slot_bit, fold_case, ◌↔◌, has_bit, has_bit-and, has_bit-or, has_bit-zero, Bool-ext,
  low_nibble_lem, IsByte, has_bit-slot_bit, any_intro, any→Found, lt_of_get_elem?, has_bit-ne_zero,
  has_bit_of_ne_zero, flip_lem, scan_congr, or_assoc, any_two, All-intro, any_congr, has_bit-pow,
  low_six_lem,
}
use casei.Utf8.{rune_self}
use casei.Ascii.{is_ascii_letter, ascii_rarity}
use casei.Ascii.Words.{
  folded, fold_mask, LiteralWords, make_words, ShortLiteral, make_short_literal,
}
use casei.Ascii.Only.{OnlyPlan, make_only, fold_bit}
use casei.Filter.Vbmi.{
  AsciiProbe, AsciiPairProbe, AsciiVbmiProbe, AsciiPairVbmi, ascii_probe_usable,
  make_ascii_vbmi_probe, make_ascii_pair_vbmi,
}
use casei.Filter.Skip.{RootKind}
use casei.Filter.Skip.RootKind.{generic, exact, ascii_fold}
use casei.Plan.Tokens.{orbit_rounds, max_fold_rune_width}

-- A byte to look for by itself: its offset in the pattern, and how it is compared.
pub record ByteAnchor : Type 0 where
  pub at : ℕ
  pub kind : RootKind
  pub byte : ℕ

-- The fields that `makeASCIIAnchor` sets. A flag with the fields that go with it is an option:
-- `asciiRun` and `asciiStaticAnchor`. A probe at offsets 0 is not usable.
pub record AnchorPlan : Type 0 where
  pub only : Option OnlyPlan
  pub needle : Bytes
  pub verify_tokens : Bool
  pub fixed_prefix : ℕ
  pub run : Option ByteAnchor
  pub static : Option ByteAnchor
  pub byte_anchor : Bool
  pub words : LiteralWords
  pub probe : AsciiProbe
  pub vbmi : AsciiVbmiProbe
  pub short : ShortLiteral
  pub pair : AsciiPairProbe
  pub pair_vbmi : AsciiPairVbmi

abbrev pub no_probe : AsciiProbe
no_probe = record {
  first = 0;
  second = 0;
  third = 0;
  fold = 0;
  first_at = 0;
  second_at = 0;
  third_at = 0;
}

abbrev pub no_pair_probe : AsciiPairProbe
no_pair_probe = record { first = 0; second = 0; first_fold = 0; second_fold = 0; second_at = 0 }

abbrev pub no_words : LiteralWords
no_words = record { first_word = 0; first_fold = 0; tail_word = 0; tail_fold = 0; tail_mask = 0 }

unfoldable pub ascii_pair_usable : AsciiPairProbe → Bool
ascii_pair_usable p = not (p.second_at == 0)

abbrev pub empty_anchor_plan : Option OnlyPlan → AnchorPlan
empty_anchor_plan only = record {
  only = only;
  needle = [];
  verify_tokens = false;
  fixed_prefix = 0;
  run = none;
  static = none;
  byte_anchor = false;
  words = no_words;
  probe = no_probe;
  vbmi = record {
    first_at = 0;
    second_at = 0;
    third_at = 0;
    first = replicate 64 0;
    second = replicate 64 0;
    third = replicate 64 0;
    valid = 0;
  };
  short = record { word = 0; fold = 0; valid = 0 };
  pair = no_pair_probe;
  pair_vbmi = record { first = replicate 64 0; second = replicate 64 0; second_at = 0; valid = 0 };
}

-- The probe of the pattern at three offsets.
unfoldable pub probe_over : Bytes → ℕ → ℕ → ℕ → AsciiProbe
probe_over pattern first second third = record {
  first = folded (byte_at pattern first);
  second = folded (byte_at pattern second);
  third = folded (byte_at pattern third);
  fold =
      bit_or (bit_or (fold_bit (byte_at pattern first) 0) (fold_bit (byte_at pattern second) 1))
        (fold_bit (byte_at pattern third) 2);
  first_at = first;
  second_at = second;
  third_at = third;
}

-- rootASCIIFold for a letter, rootExact for another byte.
abbrev pub kind_of : ℕ → RootKind
kind_of value = if is_ascii_letter value then ascii_fold else exact

-- How many bytes of the text have the folded value.
unfoldable pub count_folded : Bytes → ℕ → ℕ
count_folded [] value = 0
count_folded (c ∷ s) value =
    let rest = count_folded s value in if folded c == value then suc rest else rest

-- values, singleton and repeated of `makeStaticASCIIByteAnchor`.
pub record Tally : Type 0 where
  pub values : ℕ
  pub singleton : ℕ
  pub repeated : ℕ

unfoldable pub tally_value : ℕ → ℕ → ℕ → Tally → Tally
tally_value n value count t =
    if count == 0
    then t
    else if count == 1
    then record { values = suc t.values; singleton = value; repeated = t.repeated }
    else if count == n - 1
    then record { values = suc t.values; singleton = t.singleton; repeated = value }
    else record t { values = suc t.values }

-- `for value, count := range counts` from `value`, with `rounds` left.
unfoldable pub tally : ℕ → ℕ → Bytes → Tally → Tally
tally zero value pattern t = t
tally (suc rounds) value pattern t =
    tally rounds (suc value) pattern
      (tally_value (length pattern) value (count_folded pattern value) t)

unfoldable pub make_static_anchor : Bytes → ℕ → Option ByteAnchor
make_static_anchor pattern fixed_prefix =
    let t = tally rune_self 0 pattern (record { values = 0; singleton = 0; repeated = 0 }) in
    let at = scan (length pattern) (λ i. folded (byte_at pattern i) == t.singleton) 0 in
    if not (fixed_prefix == length pattern) || ltb fixed_prefix 16
    then none
    else if not (t.values == 2)
        || not (count_folded pattern t.singleton == 1)
        || not (count_folded pattern t.repeated == fixed_prefix - 1)
        || leb 2 (ascii_rarity t.singleton)
    then none
    else if at == length pattern
    then none
    else some (record { at = at; kind = kind_of t.singleton; byte = t.singleton })

-- A rank-zero byte that stands once in the prefix; the counts are bytes.
unfoldable pub has_byte_anchor : Bytes → Bool
has_byte_anchor prefix =
    any (λ c. u8 (count_folded prefix (folded c)) == 1 && ascii_rarity (folded c) == 0) prefix

-- `same`: all bytes of the pattern have one folded value.
abbrev pub is_same : Bytes → Bool
is_same [] = true
is_same (c ∷ s) = not (any (λ d. not (folded d == folded c)) s)

-- The two-position probe of a literal of nine to fifteen bytes.
unfoldable pub pair_over : Bytes → AsciiPairProbe
pair_over pattern = record {
  first = folded (byte_at pattern 0);
  second = folded (byte_at pattern 8);
  first_fold = fold_mask (byte_at pattern 0);
  second_fold = fold_mask (byte_at pattern 8);
  second_at = 8;
}

-- `makeASCIIAnchor` behind the prefix and the run.
unfoldable pub make_fixed_anchor : Option OnlyPlan → Bytes → ℕ → AnchorPlan
make_fixed_anchor only pattern fixed_prefix =
    let whole = fixed_prefix == length pattern in
    let probe = probe_over pattern 0 (fixed_prefix / 2) (fixed_prefix - 1) in
    let paired = whole && leb 9 fixed_prefix && leb fixed_prefix 15 in
    let pair = if paired then pair_over pattern else no_pair_probe in
    record (empty_anchor_plan only) {
      needle = pattern;
      verify_tokens = not whole;
      fixed_prefix = fixed_prefix;
      static = make_static_anchor pattern fixed_prefix;
      byte_anchor = has_byte_anchor (take fixed_prefix pattern);
      words = if whole && leb 8 (length pattern) then make_words pattern else no_words;
      probe = probe;
      vbmi = make_ascii_vbmi_probe probe;
      short =
          if whole then make_short_literal pattern else record { word = 0; fold = 0; valid = 0 };
      pair = pair;
      pair_vbmi =
          if paired then make_ascii_pair_vbmi pair pattern else (empty_anchor_plan only).pair_vbmi;
    }

-- bestStart and bestEnd of `makeASCIIInteriorAnchor`.
pub record Window : Type 0 where
  pub start : ℕ
  pub stop : ℕ

module _ (simple_fold : ℕ → ℕ) where
  -- Whether the orbit of `r` stays in ASCII, from `member` on.
  unfoldable pub is_fixed_from : ℕ → ℕ → ℕ → Bool
  is_fixed_from zero r member = true
  is_fixed_from (suc rounds) r member =
      let rest = is_fixed_from rounds r (simple_fold member) in
      if leb rune_self member then false else if simple_fold member == r then true else rest

  unfoldable pub fixed_prefix_of : Bytes → ℕ
  fixed_prefix_of [] = 0
  fixed_prefix_of (c ∷ s) =
      let rest = fixed_prefix_of s in
      if ltb c rune_self && is_fixed_from orbit_rounds c c then suc rest else 0

  abbrev pub is_narrow : Bytes → ℕ → Bool
  is_narrow pattern at = max_fold_rune_width simple_fold (byte_at pattern at) == 1

  -- `for at < len(pattern)`: each round moves `at` on.
  unfoldable pub window_loop : ℕ → Bytes → ℕ → Window → Window
  window_loop zero pattern at best = best
  window_loop (suc rounds) pattern at best =
      let stop = scan (length pattern - at) (λ i. not (is_narrow pattern i)) at in
      let wider = ltb (best.stop - best.start) (stop - at) in
      let onward = window_loop rounds pattern (suc at) best in
      let behind =
        window_loop rounds pattern stop
          (if wider then record { start = at; stop = stop } else best) in
      if leb (length pattern) at then best else if is_narrow pattern at then behind else onward

  unfoldable pub make_interior_anchor : Option OnlyPlan → Bytes → AnchorPlan
  make_interior_anchor none pattern = empty_anchor_plan none
  make_interior_anchor (some only) pattern =
      let best = window_loop (length pattern) pattern 0 (record { start = 0; stop = 0 }) in
      let probe =
        probe_over pattern best.start (best.start + (best.stop - best.start) / 2) (best.stop - 1) in
      if ltb 64 (length pattern) || not (best.start == 1) || ltb (best.stop - best.start) 3
      then empty_anchor_plan (some only)
      else record (empty_anchor_plan (some only)) {
        probe = probe;
        vbmi = make_ascii_vbmi_probe probe;
        needle = pattern;
        verify_tokens = true;
      }

  unfoldable pub make_ascii_anchor : Bytes → AnchorPlan
  make_ascii_anchor pattern =
      let only = make_only pattern in
      let fixed_prefix = fixed_prefix_of pattern in
      let first = folded (byte_at pattern 0) in
      if ltb (length pattern) 3
      then empty_anchor_plan only
      else if ltb fixed_prefix 3
      then make_interior_anchor only pattern
      else if fixed_prefix == length pattern && is_same pattern
      then record (empty_anchor_plan only) {
        run = some (record { at = 0; kind = kind_of first; byte = first });
        needle = pattern;
      }
      else make_fixed_anchor only pattern fixed_prefix

abbrev pub is_set : Option ByteAnchor → Bool
is_set none = false
is_set (some anchor) = true

-- The probe that `Each` takes in place of the plan's, where it has one.
unfoldable pub make_each_probe : AnchorPlan → ℕ → Bool → Bytes → Option AsciiProbe
make_each_probe p pattern_count opaque_continuation pattern =
    let second = folded (byte_at pattern 1) in
    let middle = folded (byte_at pattern (length pattern / 2)) in
    if not (pattern_count == 1)
      || ltb (length pattern) 4
      || not (ascii_probe_usable p.probe)
      || p.verify_tokens
      || opaque_continuation
      || is_set p.run
      || ascii_pair_usable p.pair
      || is_set p.static
      || p.byte_anchor
    then none
    else if leb (ascii_rarity middle) (ascii_rarity second)
    then none
    else some (probe_over pattern 0 1 3)
