-- ===== src/Plan/RootFilter/Spellings.antt =====
-- The root filter accepts every spelling of a root, and of the unit that must follow it.
use mathlib.Core.Path.{subst}
use casei.Base.{
  ℕ, Bool, true, false, Option, some, none, List, [], ◌∷◌, arith, length, get_or, Bytes, byte_at,
  ◌≡◌, ◌<◌, ltb, refl, inl, inr, Bool-cases, any, sym, ◌++◌, All, Option-cases, All-intro,
}
use casei.Filter.Pair.{RootFilter}
use casei.Plan.Links.Queue.{append_assoc}
use casei.Plan.Trie.{PlanNode}
use casei.Plan.RootFilter.{
  PairForm, is_prior, compact_pair_forms, add_firsts, add_required_next, add_prefixes, required,
  attempt, or_prefixes,
}
use casei.Plan.RootFilter.Covers.{
  Accepts, Grows, Gives, Gives-map, Has, Starts, add_prefixes-Starts,
}
use casei.Plan.RootFilter.Required.{fits, SecondHas, FirstHas, add_firsts-Has}
use casei.Plan.RootFilter.Forms.{stands, same_bytes→eq, compact_pair_forms-Stands}

pick :
    {A : Type 0} (P : A → Type 0) (p : A → Bool) (Q : Type 0) (xs : List A)
    → All P xs
    → any p xs ≡ true
    → ((x : A) → P x → p x ≡ true → Q)
    → Q
pick P p Q [] all e step = absurd (cc)
pick P p Q (x ∷ xs) all e step = elim (Bool-cases (p x)) [
  | inl here ↦ step x all.0 here
  | inr off ↦ let later : any p xs ≡ true = ground arith in pick P p Q xs all.1 later step
]

pub All-map :
    {A : Type 0} (P Q : A → Type 0) (xs : List A) → All P xs → ((x : A) → P x → Q x) → All Q xs
All-map P Q [] all step = tt
All-map P Q (x ∷ xs) all step = (step x all.0, All-map P Q xs all.1 step)

stands-fits :
    (form : Bytes) (pair : PairForm) → stands form pair ≡ true → fits pair (byte_at form 0) ≡ true
stands-fits form pair e = elim (Bool-cases (is_prior form pair)) [
  | inl prior ↦
      let raw : pair.fold ≡ false = ground arith in
      let same = same_bytes→eq pair.bytes form (ground arith) in rw (raw, same) (ground arith)
  | inr off ↦ let fold : pair.fold ≡ true = ground arith in rw fold (ground arith)
]

stands-one :
    (c : ℕ) (pair : PairForm) → stands (c ∷ []) pair ≡ true → ltb 1 (length pair.bytes) ≡ false
stands-one c pair e = elim (Bool-cases (is_prior (c ∷ []) pair)) [
  | inl prior ↦ let same = same_bytes→eq pair.bytes (c ∷ []) (ground arith) in rw same refl
  | inr off ↦ ground arith
]

stands-more :
    (c d : ℕ) (form : Bytes) (pair : PairForm)
    → stands (c ∷ d ∷ form) pair ≡ true
    → pair.bytes ≡ c ∷ d ∷ form
stands-more c d form pair e = elim (Bool-cases (is_prior (c ∷ d ∷ form) pair)) [
  | inl prior ↦ same_bytes→eq pair.bytes (c ∷ d ∷ form) (ground arith)
  | inr off ↦ absurd (ground arith)
]

-- A form of the root before a form of the next unit.
abbrev pub Spells : RootFilter → Bytes → Bytes → Type 0
Spells f a b = 0 < length a → 0 < length b → Has f (a ++ b)

spelled :
    (f : RootFilter) (seconds : List PairForm) (first : PairForm) (a b : Bytes)
    → FirstHas f seconds first
    → any (stands b) seconds ≡ true
    → stands a first ≡ true
    → Spells f a b
spelled f seconds first [] b has later e some_a some_b v = absurd (omega arith)
spelled f seconds first (c ∷ []) [] has later e some_a some_b v = absurd (omega arith)
spelled f seconds first (c ∷ []) (d ∷ b) has later e some_a some_b v =
    pick (SecondHas f first) (stands (d ∷ b)) (Accepts f (c ∷ d ∷ (b ++ v))) seconds
      (has.1 (stands-one c first e)) later
      (λ pair holds s.
        holds c d (b ++ v) (stands-fits (c ∷ []) first e) (stands-fits (d ∷ b) pair s))
spelled f seconds first (c ∷ c' ∷ a) b has later e some_a some_b v =
    let same = stands-more c c' a first e in
    let long : ltb 1 (length first.bytes) ≡ true = rw same (ground arith) in
    let all = subst (Has f) same (has.0 long) in
    subst (Accepts f) (sym (append_assoc (c ∷ c' ∷ a) b v)) (all (b ++ v))

add_required_next-Spells :
    (f : RootFilter) (first second : List Bytes)
    → Gives
        (λ f'. Grows f f' × All (λ a. All (Spells f' a) second) first)
        (add_required_next f first second)
unfolding add_required_next
add_required_next-Spells f first second =
    let firsts = compact_pair_forms first in
    let seconds = compact_pair_forms second in
    Gives-map (λ f'. Grows f f' × All (FirstHas f' seconds) firsts)
      (λ f'. Grows f f' × All (λ a. All (Spells f' a) second) first) (add_firsts firsts seconds f)
      (add_firsts-Has firsts seconds f)
      (λ f' h. (
        h.0,
        All-map (λ a. any (stands a) firsts ≡ true) (λ a. All (Spells f' a) second) first
            (compact_pair_forms-Stands first)
            (λ a found.
              All-map (λ b. any (stands b) seconds ≡ true) (Spells f' a) second
                (compact_pair_forms-Stands second)
                (λ b later.
                  pick (FirstHas f' seconds) (stands a) (Spells f' a b) firsts h.1 found
                    (λ first has e. spelled f' seconds first a b has later e))),
      ))

-- What the filter accepts for one form of a root: the form, with one of the unit that must follow.
abbrev pub Follows : Option ℕ → List (List Bytes) → RootFilter → Bytes → Type 0
Follows none forms f a = Starts f a
Follows (some next) forms f a = All (Spells f a) (get_or forms next [])

abbrev pub CoversRoot : List PlanNode → List (List Bytes) → RootFilter → ℕ → Type 0
CoversRoot nodes forms f token =
    All (Follows (required nodes token) forms f) (get_or forms token [])

Starts-Follows :
    (next : Option ℕ) (forms : List (List Bytes)) (f : RootFilter) (a : Bytes)
    → Starts f a
    → Follows next forms f a
Starts-Follows none forms f a starts = starts
Starts-Follows (some next) forms f a starts =
    All-intro (Spells f a) (get_or forms next []) (λ i b e some_a some_b v.
      subst (Accepts f) (sym (append_assoc a b v)) (starts some_a (b ++ v)))

fallback :
    (next : Option ℕ) (forms : List (List Bytes)) (root_forms : List Bytes) (f : RootFilter)
    → Gives (λ f'. Grows f f' × All (Follows next forms f') root_forms) (add_prefixes root_forms f)
fallback next forms root_forms f =
    Gives-map (λ f'. Grows f f' × All (Starts f') root_forms)
      (λ f'. Grows f f' × All (Follows next forms f') root_forms) (add_prefixes root_forms f)
      (add_prefixes-Starts root_forms f)
      (λ f' h. (
        h.0,
        All-map (Starts f') (Follows next forms f') root_forms h.1
            (λ a starts. Starts-Follows next forms f' a starts),
      ))

pub attempted :
    (next : Option ℕ) (forms : List (List Bytes)) (root_forms : List Bytes) (f : RootFilter)
    → Gives
        (λ f'. Grows f f' × All (Follows next forms f') root_forms)
        (or_prefixes (attempt next forms root_forms f) root_forms f)
attempted none forms root_forms f = fallback none forms root_forms f
attempted (some next) forms root_forms f =
    elim (Option-cases (add_required_next f root_forms (get_or forms next []))) [
      | inl failed ↦ rw failed (fallback (some next) forms root_forms f)
      | inr (f', e) ↦
          let all =
            subst
              (Gives
                (λ f'. Grows f f' × All (λ a. All (Spells f' a) (get_or forms next [])) root_forms))
              e (add_required_next-Spells f root_forms (get_or forms next [])) in
          rw e all
    ]
