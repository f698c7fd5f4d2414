-- ===== src/Plan/RootFilter/Complete.antt =====
-- The loop of `makeRootFilter` over the tokens, and the filter that it returns.
use mathlib.Core.Path.{subst}
use casei.Base.{
  ℕ, Bool, ◌&&◌, ◌||◌, ◌==◌, zero, suc, ◌+◌, ◌-◌, true, Option, some, none, List, [], ◌∷◌, arith,
  length, get_or, get_elem?, Bytes, byte_at, ◌≡◌, ◌<◌, ◌≤◌, not, inl, inr, Bool-cases, ◌++◌, All,
  All-get_elem?,
}
use casei.Filter.Pair.{RootFilter, root_at}
use casei.Plan.Links.Queue.{append_assoc}
use casei.Plan.Tokens.{Tokens}
use casei.Plan.Trie.{PlanNode, node_at}
use casei.Plan.Roots.{is_root_token}
use casei.Plan.RootFilter.{
  required, attempt, or_prefixes, root_step, root_loop, make_forms, make_root_filter,
  has_opaque_root, or_no_roots, root_usable, no_roots,
}
use casei.Plan.RootFilter.Covers.{Accepts, Grows, Gives, Gives-bind, Gives-map}
use casei.Plan.RootFilter.Spellings.{Spells, Follows, CoversRoot, All-map, attempted}

-- The token begins a pattern, and is not left to another filter.
abbrev pub is_screened : List PlanNode → List ℕ → ℕ → Bool
is_screened nodes exclude token =
    is_root_token (node_at nodes 0).edges token && byte_at exclude token == 0

Follows-Grows :
    (next : Option ℕ) (forms : List (List Bytes)) (f f' : RootFilter) (a : Bytes)
    → Grows f f'
    → Follows next forms f a
    → Follows next forms f' a
Follows-Grows none forms f f' a grows starts = λ some_a v. grows (a ++ v) (starts some_a v)
Follows-Grows (some next) forms f f' a grows all =
    All-map (Spells f a) (Spells f' a) (get_or forms next []) all
      (λ b spells some_a some_b v. grows ((a ++ b) ++ v) (spells some_a some_b v))

no_forms : (P : Bytes → Type 0) (xs : List Bytes) → length xs ≡ 0 → All P xs
no_forms P [] e = tt
no_forms P (x ∷ xs) e = absurd (omega (arith, e))

chosen :
    (C : RootFilter → Type 0) (m : Option RootFilter)
    → Gives C m
    → root_usable (or_no_roots m) ≡ true
    → C (or_no_roots m)
unfolding root_usable
chosen C none gives usable = absurd (cc)
chosen C (some f) gives usable = gives

module _ (nodes : List PlanNode) (exclude : List ℕ) (forms : List (List Bytes)) where
  Screens : RootFilter → ℕ → Type 0
  Screens f token = is_screened nodes exclude token ≡ true → CoversRoot nodes forms f token

  root_step-Screens :
      (token : ℕ) (f : RootFilter)
      → Gives (λ f'. Grows f f' × Screens f' token) (root_step nodes exclude forms token f)
  unfolding root_step Screens
  root_step-Screens token f =
      let root_forms = get_or forms token [] in
      let skip =
        not (is_root_token (node_at nodes 0).edges token)
        || not (byte_at exclude token == 0)
        || length root_forms == 0 in
      elim (Bool-cases skip) [
        | inl skipped ↦ rw skipped (
          (λ u h. h),
          (λ screened.
              let empty : length root_forms ≡ 0 = ground arith in
              no_forms (Follows (required nodes token) forms f) root_forms empty),
        )
        | inr goes ↦ rw goes (
            Gives-map (λ f'. Grows f f' × All (Follows (required nodes token) forms f') root_forms)
              (λ f'. Grows f f' × Screens f' token)
              (or_prefixes (attempt (required nodes token) forms root_forms f) root_forms f)
              (attempted (required nodes token) forms root_forms f)
              (λ f' h. (h.0, (λ screened. h.1))))
      ]

  root_loop-Screens :
      (count token : ℕ) (f : RootFilter)
      → Gives
          (λ f'. Grows f f' × ((k : ℕ) → token ≤ k → k < token + count → Screens f' k))
          (root_loop nodes exclude forms count token f)
  unfolding root_loop Screens
  root_loop-Screens zero token f = ((λ u h. h), (λ k low high. absurd (omega arith)))
  root_loop-Screens (suc count) token f =
      Gives-bind (λ f'. Grows f f' × Screens f' token)
        (λ f'. Grows f f' × ((k : ℕ) → token ≤ k → k < token + suc count → Screens f' k))
        (root_step nodes exclude forms token f)
        (λ f'. root_loop nodes exclude forms count (suc token) f') (root_step-Screens token f)
        (λ f' h.
          Gives-map
            (λ f''.
              Grows f' f'' × ((k : ℕ) → suc token ≤ k → k < suc token + count → Screens f'' k))
            (λ f''. Grows f f'' × ((k : ℕ) → token ≤ k → k < token + suc count → Screens f'' k))
            (root_loop nodes exclude forms count (suc token) f')
            (root_loop-Screens count (suc token) f')
            (λ f'' r. (
              (λ u e. r.0 u (h.0 u e)),
              (λ k low high screened. elim (Bool-cases (token == k)) [
                | inl here ↦
                    let same : token ≡ k = ground arith in
                    subst (Screens f'') same
                      (λ screened'.
                        All-map (Follows (required nodes token) forms f')
                          (Follows (required nodes token) forms f'') (get_or forms token [])
                          (h.1 screened')
                          (λ a. Follows-Grows (required nodes token) forms f' f'' a r.0))
                      screened
                | inr off ↦ r.1 k (ground arith) (omega arith) screened
              ]),
            )))

make_root_filter-CoversRoot :
    (t : Tokens) (nodes : List PlanNode) (stride : ℕ) (exclude : List ℕ) (k : ℕ)
    → 0 < k
    → k < stride
    → is_screened nodes exclude k ≡ true
    → root_usable (make_root_filter t nodes stride exclude) ≡ true
    → CoversRoot nodes (make_forms t stride) (make_root_filter t nodes stride exclude) k
unfolding make_root_filter Screens
make_root_filter-CoversRoot t nodes stride exclude k low high screened =
    elim (Bool-cases (has_opaque_root (is_root_token (node_at nodes 0).edges) t.byte_tokens 0)) [
      | inl opaque ↦
          rw opaque (chosen (λ f. CoversRoot nodes (make_forms t stride) f k) none (omega arith))
      | inr plain ↦ rw plain (
          chosen (λ f. CoversRoot nodes (make_forms t stride) f k)
            (root_loop nodes exclude (make_forms t stride) (stride - 1) 1 no_roots)
            (Gives-map
              (λ f'.
                Grows no_roots f'
                × ((j : ℕ)
                    → 1 ≤ j
                    → j < 1 + (stride - 1)
                    → is_screened nodes exclude j ≡ true
                    → CoversRoot nodes (make_forms t stride) f' j))
              (λ f. CoversRoot nodes (make_forms t stride) f k)
              (root_loop nodes exclude (make_forms t stride) (stride - 1) 1 no_roots)
              (root_loop-Screens nodes exclude (make_forms t stride) (stride - 1) 1 no_roots)
              (λ f' h. h.1 k (omega arith) (omega arith) screened)))
    ]

-- The spelling is of the unit that must follow a root, if there is one.
abbrev pub ComesNext : Option ℕ → List (List Bytes) → Bytes → Type 0
ComesNext none forms b = 0 ≤ 0
ComesNext (some next) forms b =
    (0 < length b) × ((i : ℕ) × (get_elem? (get_or forms next []) i ≡ some b))

Accepts-next :
    (next : Option ℕ) (forms : List (List Bytes)) (f : RootFilter) (a b v : Bytes)
    → Follows next forms f a
    → 0 < length a
    → ComesNext next forms b
    → Accepts f (a ++ (b ++ v))
Accepts-next none forms f a b v starts some_a next = starts some_a (b ++ v)
Accepts-next (some n) forms f a b v all some_a (some_b, (i, at)) =
    subst (Accepts f) (append_assoc a b v)
      (All-get_elem? (Spells f a) (get_or forms n []) i all at some_a some_b v)

-- If makeRootFilter returns a filter that is usable, then for every token that begins a pattern
-- and is not excluded, the filter accepts the first byte of a text that begins with a spelling
-- of the token and, if the plan can only go on by one token there, with a spelling of that token
-- behind it; a spelling has one byte or more.
pub make_root_filter-Accepts :
    (t : Tokens) (nodes : List PlanNode) (stride : ℕ) (exclude : List ℕ) (k i : ℕ) (a b v : Bytes)
    → 0 < k
    → k < stride
    → is_screened nodes exclude k ≡ true
    → root_usable (make_root_filter t nodes stride exclude) ≡ true
    → get_elem? (get_or (make_forms t stride) k []) i ≡ some a
    → 0 < length a
    → ComesNext (required nodes k) (make_forms t stride) b
    → root_at (a ++ (b ++ v)) (make_root_filter t nodes stride exclude) 0 ≡ true
make_root_filter-Accepts t nodes stride exclude k i a b v low high screened usable at some_a next =
    let forms = make_forms t stride in
    let f = make_root_filter t nodes stride exclude in
    let covers = make_root_filter-CoversRoot t nodes stride exclude k low high screened usable in
    Accepts-next (required nodes k) forms f a b v
      (All-get_elem? (Follows (required nodes k) forms f) (get_or forms k []) i covers at) some_a
      next
