-- ===== src/Filter/Pair/Raw.antt =====
-- plan.go: the raw pairs that `makePairShuftiFilter` collects.
use casei.Base.{
  ℕ, ◌≤◌, ◌≡◌, Bool, true, false, ◌&&◌, ◌||◌, some, List, [], ◌∷◌, ◌++◌, arith, ◌==◌, length, any,
  flag, fold_case, or_assoc, any-append, length-append, Bool-cases, inl, inr, Option-cases,
}
use casei.Filter.Pair.{
  RootPair, RawPair, raw_eq, add_raw, add_rights, add_lefts, spellings, collect_raw,
}

abbrev pub has : ℕ → ℕ → List RawPair → Bool
has a b raw = any (raw_eq a b) raw

has-append_one :
    (a b l r : ℕ) (raw : List RawPair)
    → has a b (raw ++ (l, r) ∷ []) ≡ (has a b raw || l == a && r == b)
has-append_one a b l r raw = ground (arith, any-append (raw_eq a b) raw ((l, r) ∷ []))

-- A pair that is already there adds nothing.
has_again :
    (a b l r : ℕ) (raw : List RawPair)
    → has l r raw ≡ true
    → has a b raw ≡ (has a b raw || l == a && r == b)
has_again a b l r raw h = elim (Bool-cases (l == a && r == b)) [
  | inl same ↦
      let la : l ≡ a = ground arith in
      let rb : r ≡ b = ground arith in
      let h' : has a b raw ≡ true = rw (la, rb) at h in ground arith
  | inr other ↦ ground arith
]

-- What a step of the collection does: `new` says which pairs it brings in.
abbrev pub Adds : (ℕ → ℕ → Bool) → List RawPair → List RawPair → Type 0
Adds new raw raw' =
    ((a b : ℕ) → has a b raw' ≡ (has a b raw || new a b)) × (length raw ≤ 16 → length raw' ≤ 16)

add_raw-Adds :
    (l r : ℕ) (raw raw' : List RawPair)
    → add_raw raw l r ≡ some raw'
    → Adds (λ a b. l == a && r == b) raw raw'
unfolding add_raw
add_raw-Adds l r raw raw' e = elim (Bool-cases (has l r raw)) [
  | inl old ↦
      let same : raw ≡ raw' = ground arith in
      (λ a b. rw (← same) (has_again a b l r raw old), λ h. rw (← same) h)
  | inr new ↦
      let grown : raw ++ (l, r) ∷ [] ≡ raw' = ground arith in
      (
        λ a b. rw (← grown) (has-append_one a b l r raw),
        λ h. rw (← grown) (ground (arith, length-append raw ((l, r) ∷ []))),
      )
]

abbrev pub mem : ℕ → List ℕ → Bool
mem a xs = any (λ x. x == a) xs

add_rights-Adds :
    (l : ℕ) (rs : List ℕ) (raw raw' : List RawPair)
    → add_rights raw l rs ≡ some raw'
    → Adds (λ a b. l == a && mem b rs) raw raw'
unfolding add_rights
add_rights-Adds l [] raw raw' e =
    let same : raw ≡ raw' = ground arith in (λ a b. rw (← same) (ground arith), λ h. rw (← same) h)
add_rights-Adds l (r ∷ rs) raw raw' e = elim (Option-cases (add_raw raw l r)) [
  | inl stop ↦ absurd (ground arith)
  | inr (mid, go) ↦
      let one = add_raw-Adds l r raw mid go in
      let more = add_rights-Adds l rs mid raw' (ground arith) in
      (λ a b. ground (arith, one.0 a b, more.0 a b), λ h. more.1 (one.1 h))
]

add_lefts-Adds :
    (ls rs : List ℕ) (raw raw' : List RawPair)
    → add_lefts raw ls rs ≡ some raw'
    → Adds (λ a b. mem a ls && mem b rs) raw raw'
unfolding add_lefts
add_lefts-Adds [] rs raw raw' e =
    let same : raw ≡ raw' = ground arith in (λ a b. rw (← same) (ground arith), λ h. rw (← same) h)
add_lefts-Adds (l ∷ ls) rs raw raw' e = elim (Option-cases (add_rights raw l rs)) [
  | inl stop ↦ absurd (ground arith)
  | inr (mid, go) ↦
      let one = add_rights-Adds l rs raw mid go in
      let more = add_lefts-Adds ls rs mid raw' (ground arith) in
      (λ a b. ground (arith, one.0 a b, more.0 a b), λ h. more.1 (one.1 h))
]

abbrev pub spelled : ℕ → ℕ → RootPair → Bool
spelled a b p =
    mem a (spellings p.first (flag p.fold 1)) && mem b (spellings p.second (flag p.fold 2))

abbrev pub folded : ℕ → ℕ → RootPair → Bool
folded a b p = fold_case p.first == a && fold_case p.second == b

pub collect_pure-Adds :
    (pairs : List RootPair) (raw raw' : List RawPair)
    → collect_raw false raw pairs ≡ some raw'
    → Adds (λ a b. any (spelled a b) pairs) raw raw'
unfolding collect_raw
collect_pure-Adds [] raw raw' e =
    let same : raw ≡ raw' = ground arith in (λ a b. rw (← same) (ground arith), λ h. rw (← same) h)
collect_pure-Adds (p ∷ pairs) raw raw' e =
    elim (Option-cases
      (add_lefts raw (spellings p.first (flag p.fold 1)) (spellings p.second (flag p.fold 2)))) [
        | inl stop ↦ absurd (cc)
        | inr (mid, go) ↦
            let one =
              add_lefts-Adds (spellings p.first (flag p.fold 1))
                (spellings p.second (flag p.fold 2)) raw mid go in
            let more = collect_pure-Adds pairs mid raw' (rw go at e) in
            (
              λ a b.
                  rw (more.0 a b, one.0 a b)
                    (or_assoc (has a b raw) (spelled a b p) (any (spelled a b) pairs)),
              λ h. more.1 (one.1 h),
            )
      ]

pub collect_mixed-Adds :
    (pairs : List RootPair) (raw raw' : List RawPair)
    → collect_raw true raw pairs ≡ some raw'
    → Adds (λ a b. any (folded a b) pairs) raw raw'
unfolding collect_raw
collect_mixed-Adds [] raw raw' e =
    let same : raw ≡ raw' = ground arith in (λ a b. rw (← same) (ground arith), λ h. rw (← same) h)
collect_mixed-Adds (p ∷ pairs) raw raw' e =
    elim (Option-cases (add_raw raw (fold_case p.first) (fold_case p.second))) [
      | inl stop ↦ absurd (ground arith)
      | inr (mid, go) ↦
          let one = add_raw-Adds (fold_case p.first) (fold_case p.second) raw mid go in
          let more = collect_mixed-Adds pairs mid raw' (ground arith) in
          (λ a b. ground (arith, one.0 a b, more.0 a b), λ h. more.1 (one.1 h))
    ]
