-- ===== src/Plan/Roots/Kind.antt =====
-- The root kind and the marked bytes against the bytes that leave the root.
use casei.Base.{
  ℕ, Bool, ◌&&◌, ◌||◌, ◌==◌, if◌then◌else◌, zero, suc, ◌+◌, true, false, List, [], ◌∷◌, arith,
  length, byte_at, ◌≡◌, ◌<◌, ◌≤◌, ltb, refl, inl, inr, Bool-cases, ◌≢◌, any, All, ◌∙◌, sym, ◌++◌,
  fold_case_lem, fold_case,
}
use casei.Ascii.{is_ascii_letter}
use casei.Filter.Skip.{RootKind, under}
use casei.Filter.Skip.RootKind.{generic}
use mathlib.Core.Path.{subst}
use casei.Plan.Links.Queue.{append_assoc}
use casei.Plan.Links.Seen.{append-nil}
use casei.Plan.Roots.{Values, no_values, keep, collect_bytes, value_at, classify, ascii_token_kind}

-- The two values of a letter have one folded value, and nothing else has it.
folds_to :
    (x y b : ℕ)
    → x < y
    → y < 256
    → b < 256
    → fold_case x ≡ fold_case y
    → (fold_case b == fold_case x) ≡ (x == b || (y == b || false))
folds_to x y b apart small_y small_b same =
    let fx = fold_case_lem x (omega arith) in
    let fy = fold_case_lem y small_y in let fb = fold_case_lem b small_b in ground arith

abbrev Rising : List ℕ → Type 0
Rising [] = 0 ≤ 0
Rising (x ∷ xs) = All (λ y. (x < y) × (y < 256)) xs × Rising xs

module _ (accepts : ℕ → Bool) where
  -- The bytes that are accepted, from `byte` on.
  unfoldable pub accepted : List ℕ → ℕ → List ℕ
  accepted [] byte = []
  accepted (token ∷ tokens) byte =
      let rest = accepted tokens (suc byte) in if accepts token then byte ∷ rest else rest

  module _ (token : ℕ) (tokens : List ℕ) (byte : ℕ) where
    accepted-hit :
        accepts token ≡ true → accepted (token ∷ tokens) byte ≡ byte ∷ accepted tokens (suc byte)
    unfolding accepted
    accepted-hit hit = rw hit refl

    accepted-miss :
        accepts token ≡ false → accepted (token ∷ tokens) byte ≡ accepted tokens (suc byte)
    unfolding accepted
    accepted-miss miss = rw miss refl

    collect_bytes-hit :
        (v : Values)
        → accepts token ≡ true
        → collect_bytes accepts (token ∷ tokens) byte v
          ≡ collect_bytes accepts tokens (suc byte) (keep byte v)
    unfolding collect_bytes
    collect_bytes-hit v hit = rw hit refl

    collect_bytes-miss :
        (v : Values)
        → accepts token ≡ false
        → collect_bytes accepts (token ∷ tokens) byte v ≡ collect_bytes accepts tokens (suc byte) v
    unfolding collect_bytes
    collect_bytes-miss v miss = rw miss refl

  collect_bytes-count :
      (tokens : List ℕ) (byte : ℕ) (v : Values)
      → (collect_bytes accepts tokens byte v).count ≡ v.count + length (accepted tokens byte)
  unfolding collect_bytes accepted
  collect_bytes-count [] byte v = omega arith
  collect_bytes-count (token ∷ tokens) byte v = elim (Bool-cases (accepts token)) [
    | inl hit ↦
        let next = collect_bytes-count tokens (suc byte) (keep byte v) in
        rw (collect_bytes-hit token tokens byte v hit, accepted-hit token tokens byte hit, next)
          (omega arith)
    | inr miss ↦
        rw (collect_bytes-miss token tokens byte v miss, accepted-miss token tokens byte miss)
          (collect_bytes-count tokens (suc byte) v)
  ]

  collect_bytes-kept :
      (tokens : List ℕ) (byte : ℕ) (v : Values)
      → v.count + length (accepted tokens byte) ≤ 2
      → (collect_bytes accepts tokens byte v).kept ≡ v.kept ++ accepted tokens byte
  unfolding collect_bytes accepted
  collect_bytes-kept [] byte v small = sym (append-nil v.kept)
  collect_bytes-kept (token ∷ tokens) byte v small = elim (Bool-cases (accepts token)) [
    | inl hit ↦
        let more = accepted-hit token tokens byte hit in
        let longer : length (accepted (token ∷ tokens) byte)
            ≡ suc (length (accepted tokens (suc byte))) =
          rw more refl in
        let room : ltb v.count 2 ≡ true = ground arith in
        let next = collect_bytes-kept tokens (suc byte) (keep byte v) (omega arith) in
        rw (collect_bytes-hit token tokens byte v hit, more, next, room)
          (append_assoc v.kept (byte ∷ []) (accepted tokens (suc byte)))
    | inr miss ↦
        let same = accepted-miss token tokens byte miss in
        let small' : v.count + length (accepted tokens (suc byte)) ≤ 2 =
          subst (λ xs. v.count + length xs ≤ 2) same small in
        rw (collect_bytes-miss token tokens byte v miss, same)
          (collect_bytes-kept tokens (suc byte) v small')
  ]

  accepted-before :
      (tokens : List ℕ) (byte b : ℕ) → b < byte → any (λ v. v == b) (accepted tokens byte) ≡ false
  unfolding accepted
  accepted-before [] byte b h = refl
  accepted-before (token ∷ tokens) byte b h =
      let rest = accepted-before tokens (suc byte) b (omega arith) in
      elim (Bool-cases (accepts token)) [
        | inl hit ↦ rw (accepted-hit token tokens byte hit) (ground arith)
        | inr miss ↦ rw (accepted-miss token tokens byte miss) rest
      ]

  accepted-any :
      accepts 0 ≡ false
      → (tokens : List ℕ) (byte b : ℕ)
      → any (λ v. v == (byte + b)) (accepted tokens byte) ≡ accepts (byte_at tokens b)
  unfolding accepted
  accepted-any none_0 [] byte b = sym none_0
  accepted-any none_0 (token ∷ tokens) byte zero =
      let rest = accepted-before tokens (suc byte) (byte + 0) (omega arith) in
      elim (Bool-cases (accepts token)) [
        | inl hit ↦ rw (accepted-hit token tokens byte hit) (ground arith)
        | inr miss ↦ rw (accepted-miss token tokens byte miss) (rest ∙ sym miss)
      ]
  accepted-any none_0 (token ∷ tokens) byte (suc b) =
      let rest = accepted-any none_0 tokens (suc byte) b in
      let rest' : any (λ v. v == (byte + suc b)) (accepted tokens (suc byte))
          ≡ accepts (byte_at tokens b) =
        subst (λ k. any (λ v. v == k) (accepted tokens (suc byte)) ≡ accepts (byte_at tokens b))
          (omega arith) rest in
      elim (Bool-cases (accepts token)) [
        | inl hit ↦ rw (accepted-hit token tokens byte hit) (ground arith)
        | inr miss ↦ rw (accepted-miss token tokens byte miss) rest'
      ]

  accepted-above :
      (tokens : List ℕ) (low byte : ℕ)
      → low < byte
      → byte + length tokens ≤ 256
      → All (λ y. (low < y) × (y < 256)) (accepted tokens byte)
  unfolding accepted
  accepted-above [] low byte h small = search (arith)
  accepted-above (token ∷ tokens) low byte h small =
      let rest = accepted-above tokens low (suc byte) (omega arith) (omega arith) in
      elim (Bool-cases (accepts token)) [
        | inl hit ↦ rw (accepted-hit token tokens byte hit) ((h, omega arith), rest)
        | inr miss ↦ rw (accepted-miss token tokens byte miss) rest
      ]

  accepted-Rising :
      (tokens : List ℕ) (byte : ℕ) → byte + length tokens ≤ 256 → Rising (accepted tokens byte)
  unfolding accepted
  accepted-Rising [] byte small = omega arith
  accepted-Rising (token ∷ tokens) byte small =
      let rest = accepted-Rising tokens (suc byte) (omega arith) in
      let above = accepted-above tokens byte (suc byte) (omega arith) (omega arith) in
      elim (Bool-cases (accepts token)) [
        | inl hit ↦ rw (accepted-hit token tokens byte hit) (above, rest)
        | inr miss ↦ rw (accepted-miss token tokens byte miss) rest
      ]

-- What the kind and the needle say of a byte.
abbrev pub agrees : RootKind × ℕ → ℕ → Bool
agrees (kind, needle) b = under kind b == needle

abbrev is_two_cases : Values → Bool
is_two_cases v =
    fold_case (value_at v 0) == fold_case (value_at v 1)
    && is_ascii_letter (value_at v 0)
    && is_ascii_letter (value_at v 1)

classify-agrees :
    (v : Values) (xs : List ℕ) (b : ℕ)
    → b < 256
    → v.count ≡ length xs
    → (length xs ≤ 2 → v.kept ≡ xs)
    → Rising xs
    → ¬ (classify v).0 ≡ generic
    → agrees (classify v) b ≡ any (λ u. u == b) xs
unfolding classify
classify-agrees v [] b small counted kept rising known = absurd (known (rw counted refl))
classify-agrees v (x ∷ []) b small counted kept rising known =
    let kept' = kept (omega arith) in rw (counted, kept') (ground arith)
classify-agrees v (x ∷ y ∷ []) b small counted kept rising known =
    let kept' = kept (omega arith) in
    elim (Bool-cases (fold_case x == fold_case y && is_ascii_letter x && is_ascii_letter y)) [
      | inl same ↦
          rw (counted, kept', same) (folds_to x y b rising.0.0.0 rising.0.0.1 small (ground arith))
      | inr other ↦ absurd (known (rw (counted, kept', other) refl))
    ]
classify-agrees v (x ∷ y ∷ z ∷ xs) b small counted kept rising known =
    let many : (v.count == 1) ≡ false = ground arith in
    let many' : (v.count == 2) ≡ false = ground arith in absurd (known (rw (many, many') refl))

-- The kind of the bytes whose tokens are accepted.
pub collected-agrees :
    (accepts : ℕ → Bool) (ascii : List ℕ) (b : ℕ)
    → accepts 0 ≡ false
    → length ascii ≤ 128
    → b < 256
    → ¬ (classify (collect_bytes accepts ascii 0 no_values)).0 ≡ generic
    → agrees (classify (collect_bytes accepts ascii 0 no_values)) b ≡ accepts (byte_at ascii b)
collected-agrees accepts ascii b none_0 short small known =
    let found = accepted accepts ascii 0 in
    let counted = collect_bytes-count accepts ascii 0 no_values in
    classify-agrees (collect_bytes accepts ascii 0 no_values) found b small (omega arith)
      (λ few. collect_bytes-kept accepts ascii 0 no_values (omega arith))
      (accepted-Rising accepts ascii 0 (omega arith)) known
    ∙ subst (λ k. any (λ u. u == k) found ≡ accepts (byte_at ascii b)) (omega arith)
        (accepted-any accepts none_0 ascii 0 b)

-- For a token other than 0, where asciiTokenKind gives a kind that is not the generic one, a
-- byte, folded if the kind says so, is the needle exactly if its entry in the ASCII table is the
-- token.
pub ascii_token_kind-agrees :
    (ascii : List ℕ) (token b : ℕ)
    → length ascii ≤ 128
    → b < 256
    → token ≢ 0
    → ¬ (ascii_token_kind ascii token).0 ≡ generic
    → agrees (ascii_token_kind ascii token) b ≡ (byte_at ascii b == token)
unfolding ascii_token_kind
ascii_token_kind-agrees ascii token b short small known =
    collected-agrees (λ t. t == token) ascii b (ground arith) short small
