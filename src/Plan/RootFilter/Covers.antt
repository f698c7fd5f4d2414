-- ===== src/Plan/RootFilter/Covers.antt =====
-- The root filter accepts the first bytes of every spelling of a root.
use casei.Base.{
  ℕ, Bool, ◌==◌, true, Option, some, none, List, [], ◌∷◌, arith, length, Bytes, byte_at, ◌≡◌, ◌<◌,
  ◌≤◌, ltb, ◌>>=◌, refl, inl, inr, Bool-cases, any, ◌++◌, All,
}
use casei.Filter.Pair.{
  RootFilter, RootPair, add_one, add_pair, add_fold_pair, pair_at, pair_eq, root_at, root_capacity,
}
use casei.Plan.RootFilter.{when_added, first_prefix, add_prefixes}

abbrev pub Accepts : RootFilter → Bytes → Type 0
Accepts f u = root_at u f 0 ≡ true

abbrev pub Grows : RootFilter → RootFilter → Type 0
Grows f f' = (u : Bytes) → Accepts f u → Accepts f' u

any-last {ℓ} :
    {A : Type ℓ} (p : A → Bool) (xs : List A) (x : A) → p x ≡ true → any p (xs ++ x ∷ []) ≡ true
any-last p [] x e = rw e refl
any-last p (y ∷ ys) x e = let rest = any-last p ys x e in ground arith

any-more {ℓ} :
    {A : Type ℓ} (p : A → Bool) (xs : List A) (x : A)
    → any p xs ≡ true
    → any p (xs ++ x ∷ []) ≡ true
any-more p [] x e = cc
any-more p (y ∷ ys) x e = elim (Bool-cases (p y)) [
  | inl here ↦ rw here refl
  | inr off ↦ let later : any p ys ≡ true = ground arith in rw off (any-more p ys x later)
]

-- A test that the equal entry of a list passes.
any-same {ℓ} :
    {A : Type ℓ} (same p : A → Bool) (xs : List A)
    → ((x : A) → same x ≡ true → p x ≡ true)
    → any same xs ≡ true
    → any p xs ≡ true
any-same same p [] step e = cc
any-same same p (x ∷ xs) step e = elim (Bool-cases (same x)) [
  | inl here ↦ rw (step x here) refl
  | inr off ↦
      let later : any same xs ≡ true = ground arith in
      let rest = any-same same p xs step later in ground arith
]

-- What holds of the filter, where there is one.
abbrev pub Gives : (RootFilter → Type 0) → Option RootFilter → Type 0
Gives P none = 0 ≤ 0
Gives P (some f) = P f

pub Gives-bind :
    (P Q : RootFilter → Type 0) (m : Option RootFilter) (next : RootFilter → Option RootFilter)
    → Gives P m
    → ((f : RootFilter) → P f → Gives Q (next f))
    → Gives Q (m >>= next)
Gives-bind P Q none next h step = omega arith
Gives-bind P Q (some f) next h step = step f h

pub Gives-map :
    (P Q : RootFilter → Type 0) (m : Option RootFilter)
    → Gives P m
    → ((f : RootFilter) → P f → Q f)
    → Gives Q m
Gives-map P Q none h step = omega arith
Gives-map P Q (some f) h step = step f h

Grows-ones : (f : RootFilter) (c : ℕ) → Grows f (record f { ones = f.ones ++ c ∷ [] })
unfolding root_at
Grows-ones f c u h = elim (Bool-cases (any (λ one. byte_at u 0 == one) f.ones)) [
  | inl here ↦ rw (any-more (λ one. byte_at u 0 == one) f.ones c here) refl
  | inr off ↦ ground arith
]

accept_pair :
    (f : RootFilter) (u : Bytes)
    → ltb 1 (length u) ≡ true
    → any (pair_at (byte_at u 0) (byte_at u 1)) f.pairs ≡ true
    → Accepts f u
unfolding root_at
accept_pair f u long here = elim (Bool-cases (any (λ one. byte_at u 0 == one) f.ones)) [
  | inl one ↦ rw one refl
  | inr off ↦ rw (off, long, here) refl
]

pair_eq-pair_at :
    (p q : RootPair) (x y : ℕ) → pair_eq q p ≡ true → pair_at x y p ≡ true → pair_at x y q ≡ true
unfolding pair_eq pair_at
pair_eq-pair_at p q x y same at =
    let first : q.first ≡ p.first = ground arith in
    let second : q.second ≡ p.second = ground arith in
    let fold : q.fold ≡ p.fold = ground arith in rw (first, second, fold) at

Grows-pairs : (f : RootFilter) (p : RootPair) → Grows f (record f { pairs = f.pairs ++ p ∷ [] })
unfolding root_at
Grows-pairs f p u h = elim (Bool-cases (any (λ one. byte_at u 0 == one) f.ones)) [
  | inl one ↦ rw one refl
  | inr off ↦
      let long : ltb 1 (length u) ≡ true = ground arith in
      let here : any (pair_at (byte_at u 0) (byte_at u 1)) f.pairs ≡ true = ground arith in
      let more = any-more (pair_at (byte_at u 0) (byte_at u 1)) f.pairs p here in
      rw (off, long, more) refl
]

added_one :
    (f : RootFilter) (c : ℕ)
    → Gives (λ f'. Grows f f' × ((v : Bytes) → Accepts f' (c ∷ v))) (when_added (add_one f c))
unfolding add_one root_at
added_one f c = elim (Bool-cases (any (λ one. one == c) f.ones)) [
  | inl there ↦
      let same = any-same (λ one. one == c) (λ one. c == one) f.ones (λ x e. ground arith) there in
      rw there ((λ u h. h), (λ v. rw same refl))
  | inr new ↦ elim (Bool-cases (length f.ones == root_capacity)) [
    | inl full ↦ rw (new, full) (omega arith)
    | inr room ↦
        let last = any-last (λ one. c == one) f.ones c (ground arith) in
        rw (new, room) (Grows-ones f c, (λ v. rw last refl))
  ]
]

pub added_pair :
    (f : RootFilter) (a b k : ℕ)
    → Gives
        (λ f'.
          Grows f f'
          × ((x y : ℕ) (v : Bytes)
              → pair_at x y (record { first = a; second = b; fold = k }) ≡ true
              → Accepts f' (x ∷ y ∷ v)))
        (when_added (add_fold_pair f a b k))
unfolding add_fold_pair root_at
added_pair f a b k =
    let p : RootPair = record { first = a; second = b; fold = k } in
    elim (Bool-cases (any (λ q. pair_eq q p) f.pairs)) [
      | inl there ↦ rw there (
        (λ u h. h),
        (λ x y v h. accept_pair f (x ∷ y ∷ v) (ground arith) (
            any-same (λ q. pair_eq q p) (pair_at x y) f.pairs (λ q e. pair_eq-pair_at p q x y e h)
              there)),
      )
      | inr new ↦ elim (Bool-cases (length f.pairs == root_capacity)) [
        | inl full ↦ rw (new, full) (omega arith)
        | inr room ↦
            rw (new, room)
              (
                Grows-pairs f p,
                (λ x y v h.
                    accept_pair (record f { pairs = f.pairs ++ p ∷ [] }) (x ∷ y ∷ v) (ground arith)
                      (any-last (pair_at x y) f.pairs p h)),
              )
      ]
    ]

-- What a form promises of a filter that has it.
abbrev pub Has : RootFilter → Bytes → Type 0
Has f form = (v : Bytes) → Accepts f (form ++ v)

pub raw_pair : (c d : ℕ) → pair_at c d (record { first = c; second = d; fold = 0 }) ≡ true
unfolding pair_at
raw_pair c d = ground arith

pub first_prefix-Has :
    (f : RootFilter) (form : Bytes)
    → 0 < length form
    → Gives (λ f'. Grows f f' × Has f' form) (first_prefix f form)
unfolding add_pair add_fold_pair
first_prefix-Has f [] some_byte = absurd (omega arith)
first_prefix-Has f (c ∷ []) some_byte = added_one f c
first_prefix-Has f (c ∷ d ∷ form) some_byte =
    Gives-map
      (λ f'.
        Grows f f'
        × ((x y : ℕ) (v : Bytes)
            → pair_at x y (record { first = c; second = d; fold = 0 }) ≡ true
            → Accepts f' (x ∷ y ∷ v)))
      (λ f'. Grows f f' × Has f' (c ∷ d ∷ form)) (when_added (add_pair f c d)) (added_pair f c d 0)
      (λ f' h. (h.0, (λ v. h.1 c d (form ++ v) (raw_pair c d))))

-- A Go string of a form is not empty; the test of it is a premise.
abbrev pub Starts : RootFilter → Bytes → Type 0
Starts f form = 0 < length form → Has f form

first_prefix-Starts :
    (f : RootFilter) (form : Bytes)
    → Gives (λ f'. Grows f f' × Starts f' form) (first_prefix f form)
unfolding add_pair
first_prefix-Starts f [] =
    Gives-map
      (λ f'.
        Grows f f'
        × ((x y : ℕ) (v : Bytes)
            → pair_at x y (record { first = 0; second = 0; fold = 0 }) ≡ true
            → Accepts f' (x ∷ y ∷ v)))
      (λ f'. Grows f f' × Starts f' []) (when_added (add_fold_pair f 0 0 0)) (added_pair f 0 0 0)
      (λ f' h. (h.0, (λ some_byte. absurd (omega arith))))
first_prefix-Starts f (c ∷ form) =
    Gives-map (λ f'. Grows f f' × Has f' (c ∷ form)) (λ f'. Grows f f' × Starts f' (c ∷ form))
      (first_prefix f (c ∷ form)) (first_prefix-Has f (c ∷ form) (omega arith))
      (λ f' h. (h.0, (λ some_byte. h.1)))

pub add_prefixes-Starts :
    (forms : List Bytes) (f : RootFilter)
    → Gives (λ f'. Grows f f' × All (Starts f') forms) (add_prefixes forms f)
unfolding add_prefixes
add_prefixes-Starts [] f = ((λ u h. h), tt)
add_prefixes-Starts (form ∷ forms) f =
    Gives-bind (λ f'. Grows f f' × Starts f' form)
      (λ f'. Grows f f' × All (Starts f') (form ∷ forms)) (first_prefix f form)
      (λ f'. add_prefixes forms f') (first_prefix-Starts f form)
      (λ f' h.
        Gives-map (λ f''. Grows f' f'' × All (Starts f'') forms)
          (λ f''. Grows f f'' × All (Starts f'') (form ∷ forms)) (add_prefixes forms f')
          (add_prefixes-Starts forms f')
          (λ f'' r. ((λ u e. r.0 u (h.0 u e)), ((λ n v. r.0 (form ++ v) (h.1 n v)), r.1))))
