-- ===== src/Tests/Search.antt =====
-- The shared cache, the enumeration and the replay of candidates, at concrete calls and texts.
use casei.Base.{
  ℕ, ◌≡◌, refl, ap, ◌==◌, Bool, true, false, Option, some, none, List, [], ◌∷◌, arith, Bytes, ◌+◌,
  ◌≤◌, suc, length, replicate, take, if◌then◌else◌, inl, inr, Bool-cases, ltb,
}
use mathlib.Core.Option.{some-injective}
use casei.Cache.{
  System, load_recent, load_slot, store_slot, store_recent, begins, acts, act, act_at, begin_call,
  cache_index, cache_slots,
}
use casei.Cache.Sound.{Reaches, starts, steps, Reaches-returned}
use casei.Unicode.Forms.{same_bytes}
use casei.Plan.Search.{Match}
use casei.Matcher.{Yielded, next_match, width_of, next_at, each, each_loop}
use casei.Matcher.Each.{run_until, Ordered, matches_from, each-in_order, each_loop-enough}
use casei.Plan.Partition.{sparse_sample}
use casei.Plan.Partition.Sample.{count_bytes, sparse_sample-count_bytes}

-- "k"; the plan of a needle is its length.
abbrev needle : Bytes
needle = b'k' ∷ []

abbrev no_calls : System ℕ length
no_calls = record {
  shared = record { recent = none; slots = replicate cache_slots none };
  calls = [];
}

-- One call with a cold cache: its actions in turn, while a second call has begun.
abbrev begun : System ℕ length
begun = begin_call ℕ length (begin_call ℕ length no_calls needle) needle

abbrev looked : System ℕ length
looked = act_at ℕ length begun 1 (load_recent needle)

abbrev missed : System ℕ length
missed = act_at ℕ length looked 1 (load_slot needle)

abbrev filled : System ℕ length
filled =
    act_at ℕ length missed 1 (store_slot needle (record { needle = needle; plan = length needle }))

-- The second call finds the plan in the slot, before the first has stored it as the recent one.
abbrev looked_too : System ℕ length
looked_too = act_at ℕ length filled 0 (load_recent needle)

abbrev found_too : System ℕ length
found_too = act_at ℕ length looked_too 0 (load_slot needle)

abbrev second_done : System ℕ length
second_done =
    act_at ℕ length found_too 0
      (store_recent needle (record { needle = needle; plan = length needle }))

second_done-Reaches : Reaches ℕ length second_done
unfolding begin_call act_at act cache_index same_bytes
second_done-Reaches =
    steps
      (steps
        (steps
          (steps
            (steps
              (steps (steps (steps starts (begins needle)) (begins needle))
                (acts 1 (load_recent needle) refl))
              (acts 1 (load_slot needle) refl))
            (acts 1 (store_slot needle (record { needle = needle; plan = length needle })) refl))
          (acts 0 (load_recent needle) refl))
        (acts 0 (load_slot needle) refl))
      (acts 0 (store_recent needle (record { needle = needle; plan = length needle })) refl)

Reaches-returned_example : 1 ≡ length needle
unfolding begin_call act_at act cache_index same_bytes
Reaches-returned_example = Reaches-returned ℕ length 0 needle 1 second_done-Reaches refl

-- An exact matcher for "b": its plan finds the first b, and leaves the width to `Each`.
abbrev later : Option Yielded → Option Yielded
later none = none
later (some y) =
    some (record { match = record { pattern = 0; start = y.match.start + 1 }; width = 0 })

find_b : Bytes → Option Yielded
find_b [] = none
find_b (c ∷ s) =
    let rest = later (find_b s) in
    if c == b'b'
    then some (record { match = record { pattern = 0; start = 0 }; width = 0 })
    else rest

later-inside :
    (n : ℕ) (o : Option Yielded) (y : Yielded)
    → ((z : Yielded) → o ≡ some z → z.match.start ≤ n)
    → later o ≡ some y
    → y.match.start ≤ suc n
later-inside n none y h e = absurd (cc)
later-inside n (some z) y h e =
    let start : z.match.start + 1 ≡ y.match.start =
      ap (λ q. q.match.start) (some-injective _ _ e) in
    omega (arith, h z refl)

find_b-inside : (t : Bytes) (y : Yielded) → find_b t ≡ some y → y.match.start ≤ length t
unfolding find_b
find_b-inside [] y e = absurd (cc)
find_b-inside (c ∷ s) y e = elim (Bool-cases (c == b'b')) [
  | inl here ↦
      let e' = rw here at e in
      let start : 0 ≡ y.match.start = ap (λ q. q.match.start) (some-injective _ _ e') in omega arith
  | inr not_here ↦ later-inside (length s) (find_b s) y (find_b-inside s) (rw not_here at e)
]

-- A consumer that counts the matches and stops after two.
abbrev count_two : ℕ → Match → ℕ → ℕ × Bool
count_two n m width = (suc n, ltb n 1)

-- "abbab"
abbrev abbab : Bytes
abbab = b'a' ∷ b'b' ∷ b'b' ∷ b'a' ∷ b'b' ∷ []

abbrev b_patterns : List Bytes
b_patterns = (b'b' ∷ []) ∷ []

two_counted : each find_b b_patterns true count_two abbab 0 ≡ (2, false)
unfolding each each_loop next_match width_of next_at find_b
two_counted = refl

each-in_order_example :
    (each find_b b_patterns true count_two abbab 0
      ≡ run_until count_two (matches_from find_b b_patterns true 6 abbab 0) 0)
    × Ordered 0 (matches_from find_b b_patterns true 6 abbab 0)
each-in_order_example = each-in_order find_b b_patterns true find_b-inside count_two abbab 0

each_loop-enough_example :
    each_loop find_b b_patterns true count_two 6 abbab 0 0
    ≡ each_loop find_b b_patterns true count_two 9 abbab 0 0
each_loop-enough_example =
    each_loop-enough find_b b_patterns true find_b-inside count_two 6 9 abbab 0 0 (omega arith)
      (omega arith)

-- "ab", a zero byte, "c"
abbrev zero_inside : Bytes
zero_inside = 97 ∷ 98 ∷ 0 ∷ 99 ∷ []

sparse_sample-count_bytes_example :
    sparse_sample zero_inside 1 4 ≡ count_bytes 3 (take 4 zero_inside) 1 0
sparse_sample-count_bytes_example =
    sparse_sample-count_bytes zero_inside 1 4 (omega arith) (omega arith)
