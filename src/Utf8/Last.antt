-- ===== src/Utf8/Last.antt =====
-- What `DecodeLastRuneInString` reads is what decoding forward from there reads.
use casei.Base.{
  ℕ, ◌&&◌, ◌==◌, leb, zero, suc, ◌+◌, ◌-◌, true, false, [], ◌∷◌, arith, length, Bytes, byte_at, ◌≡◌,
  ◌<◌, ◌≤◌, ltb, drop, refl, ap, take, inl, inr, Bool-cases, ◌∙◌, sym,
}
use casei.Utf8.{rune_self, rune_error, decode_rune, decode_last_rune, rune_back, starts_rune}

-- A unit that is not malformed and takes up the whole of a prefix is read from the whole text.
decode-take :
    (n : ℕ) (s : Bytes)
    → (decode_rune (take n s)).1 ≡ n
    → ((decode_rune (take n s)).0 == rune_error && n == 1) ≡ false
    → 1 ≤ n
    → (decode_rune s).1 ≡ n
unfolding decode_rune
decode-take zero s e ok h = absurd (omega arith)
decode-take (suc n) [] e ok h = absurd (omega arith)
decode-take (suc zero) (a ∷ s) e ok h = ground arith
decode-take (suc (suc n)) (a ∷ []) e ok h = ground arith
decode-take (suc (suc zero)) (a ∷ b ∷ s) e ok h = ground arith
decode-take (suc (suc (suc n))) (a ∷ b ∷ []) e ok h = ground arith
decode-take (suc (suc (suc zero))) (a ∷ b ∷ c ∷ s) e ok h = ground arith
decode-take (suc (suc (suc (suc n)))) (a ∷ b ∷ c ∷ []) e ok h = ground arith
decode-take (suc (suc (suc (suc n)))) (a ∷ b ∷ c ∷ d ∷ s) e ok h = ground arith

take-nil : (n : ℕ) → take {A = ℕ} n [] ≡ []
take-nil zero = refl
take-nil (suc n) = refl

drop-take : (start n : ℕ) (s : Bytes) → drop start (take (start + n) s) ≡ take n (drop start s)
drop-take zero n s = ap (λ k. take k s) (omega arith)
drop-take (suc start) n [] =
    let q : suc start + n ≡ suc (start + n) = omega arith in
    ap (λ k. drop (suc start) (take {A = ℕ} k [])) q ∙ sym (take-nil n)
drop-take (suc start) n (x ∷ s) =
    let q : suc start + n ≡ suc (start + n) = omega arith in
    ap (λ k. drop (suc start) (take k (x ∷ s))) q ∙ drop-take start n s

-- Where the last unit of a text begins.
record LastUnit (text : Bytes) (r size : ℕ) : Type 0 where
  start : ℕ
  real : 1 ≤ size
  whole : start + size ≡ length text
  read : decode_rune (drop start text) ≡ (r, size)

rune_back-le : (rounds : ℕ) (s : Bytes) (k : ℕ) → rune_back rounds s k ≤ k
unfolding rune_back
rune_back-le zero s zero = omega arith
rune_back-le (suc rounds) s zero = omega arith
rune_back-le zero s (suc k) = omega arith
rune_back-le (suc rounds) s (suc k) =
    let h = rune_back-le rounds s k in
    elim (Bool-cases (starts_rune (byte_at s k))) [
      | inl here ↦ rw here (omega arith)
      | inr before ↦ rw before (omega arith)
    ]

last_unit :
    (text : Bytes)
    → 1 ≤ length text
    → leb rune_self (byte_at text (length text - 1)) ≡ true
    → ((decode_last_rune text).0 == rune_error && (decode_last_rune text).1 == 1) ≡ false
    → LastUnit text (decode_last_rune text).0 (decode_last_rune text).1
unfolding decode_last_rune
last_unit [] full wide ok = absurd (omega arith)
last_unit (b ∷ s) full wide ok =
    let text : Bytes = b ∷ s in
    let start = rune_back 3 text (length s) in
    let q : suc (length s) - 1 ≡ length s = omega arith in
    let wide' : leb rune_self (byte_at text (length s)) ≡ true = rw q at wide in
    let not_narrow : ltb (byte_at text (length s)) rune_self ≡ false = ground arith in
    elim (Bool-cases (start + (decode_rune (drop start text)).1 == suc (length s))) [
      | inl whole ↦
          rw (not_narrow, whole)
            (record {
              start = start;
              real = let low = rune_back-le 3 text (length s) in ground arith;
              whole = ground arith;
              read = refl;
            })
      | inr cut ↦ absurd (let ok' = rw (not_narrow, cut) at ok in cc)
    ]

length-take : (n : ℕ) (s : Bytes) → n ≤ length s → length (take n s) ≡ n
length-take zero s h = refl
length-take (suc n) [] h = absurd (omega arith)
length-take (suc n) (x ∷ s) h = ap suc (length-take n s (omega arith))

byte_at-take : (n i : ℕ) (s : Bytes) → i < n → byte_at (take n s) i ≡ byte_at s i
byte_at-take zero i s h = absurd (omega arith)
byte_at-take (suc n) i [] h = refl
byte_at-take (suc n) zero (x ∷ s) h = refl
byte_at-take (suc n) (suc i) (x ∷ s) h = byte_at-take n i s (omega arith)

-- The unit before `end` that is read backwards is the unit that is read forwards from its start.
pub decode_last_rune-forward :
    (s : Bytes) (before : ℕ)
    → before < length s
    → leb rune_self (byte_at s before) ≡ true
    → ((decode_last_rune (take (suc before) s)).0 == rune_error
        && (decode_last_rune (take (suc before) s)).1 == 1)
      ≡ false
    → ((decode_last_rune (take (suc before) s)).1 ≤ suc before)
      × ((decode_rune (drop (suc before - (decode_last_rune (take (suc before) s)).1) s)).1
          ≡ (decode_last_rune (take (suc before) s)).1)
decode_last_rune-forward s before h wide ok =
    let text = take (suc before) s in
    let size = length-take (suc before) s (omega arith) in
    let last : length text - 1 ≡ before = omega arith in
    let byte = byte_at-take (suc before) before s (omega arith) in
    let (r, n) = decode_last_rune text in
    let u = last_unit text (omega arith) (rw (last, byte) wide) ok in
    let whole = u.whole in
    let real = u.real in
    let start : u.start ≡ suc before - n = omega arith in
    let sum : suc before ≡ u.start + n = omega arith in
    let read : decode_rune (take n (drop u.start s)) ≡ (r, n) =
      ap decode_rune (sym (drop-take u.start n s) ∙ ap (λ k. drop u.start (take k s)) (sym sum))
      ∙ u.read in
    let units =
      decode-take n (drop u.start s) (ap (λ d. d.1) read)
        (ap (λ d. d.0 == rune_error && n == 1) read ∙ ok) real in
    (omega arith, ap (λ k. (decode_rune (drop k s)).1) (sym start) ∙ units)
