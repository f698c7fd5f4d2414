-- ===== src/Plan/Tokens/Orbits.antt =====
-- plan.go: the tokens of the fold orbits, `runeToken`.
use casei.Base.{
  ℕ, ◌+◌, ◌^◌, ◌<◌, ◌≤◌, Bool, true, some, List, [], ◌∷◌, arith, ◌==◌, if◌then◌else◌, any, ◌≡◌, ◌≢◌,
  refl, Bool-cases, inl, inr,
}
use casei.Plan.Tokens.{Table, Tokens, look, store, value_of, orbit, store_orbit, rune_token}

pub look-store :
    (table : Table) (key value k : ℕ)
    → look (store table key value) k ≡ (if key == k then some value else look table k)
unfolding look store
look-store [] key value k = refl
look-store ((k', v) ∷ table) key value k =
    let rest = look-store table key value k in
    elim (Bool-cases (k' == key)) [
      | inl same ↦ rw same (ground arith)
      | inr other ↦ rw other (ground arith)
    ]

module _ (simple_fold : ℕ → ℕ) where
  store_orbit-look :
      (runes : Table) (token : ℕ) (members : List ℕ) (k : ℕ)
      → look (store_orbit simple_fold runes token members) k
        ≡ (if any (λ m. m == k) members then some token else look runes k)
  unfolding store_orbit
  store_orbit-look runes token [] k = refl
  store_orbit-look runes token (m ∷ members) k =
      let rest = store_orbit-look (store runes m token) token members k in
      let here = look-store runes m token k in
      elim (Bool-cases (m == k)) [ inl same ↦ ground arith | inr other ↦ ground arith ]

  abbrev pub in_orbit : ℕ → ℕ → Bool
  in_orbit r m = any (λ k. k == m) (orbit simple_fold r)

  abbrev pub token_of : Tokens → ℕ → ℕ
  token_of t r = value_of (look t.runes r)

  -- The members of an orbit have one token, which is less than the next one.
  pub record Whole (t : Tokens) : Type 0 where
    pub same : (r m : ℕ) → in_orbit r m ≡ true → token_of t m ≡ token_of t r
    pub below : (r : ℕ) → token_of t r < t.next_token

  -- The table after a rune has got its token, and the token.
  pub record Named (t : Tokens) (r token : ℕ) (t' : Tokens) : Type 0 where
    pub whole : Whole t'
    pub named : (m : ℕ) → in_orbit r m ≡ true → token_of t' m ≡ token
    pub kept : (m : ℕ) → token_of t m ≢ 0 → token_of t' m ≡ token_of t m
    pub real : token ≢ 0

  -- If the fold orbits are classes (a member of an orbit is in the same orbits as the rune that
  -- it is reached from), the members of each orbit have one token, every token is below
  -- nextToken, which is at least 1, and tokens are left, then runeToken gives a rune a token
  -- that is not 0 and that every member of its orbit has afterwards, keeps the tokens that are
  -- there, and leaves the members of each orbit with one token and every token below nextToken.
  pub rune_token-Named :
      (t : Tokens) (r : ℕ)
      → ((q m p : ℕ) → in_orbit q m ≡ true → in_orbit p m ≡ in_orbit p q)
      → Whole t
      → 1 ≤ t.next_token
      → t.next_token + 1 < 2 ^ 32
      → Named t r (rune_token simple_fold t r).0 (rune_token simple_fold t r).1
  unfolding rune_token
  rune_token-Named t r classes w positive room =
      let now = λ (k : ℕ). store_orbit-look t.runes t.next_token (orbit simple_fold r) k in
      elim (Bool-cases (value_of (look t.runes r) == 0)) [
        | inl fresh ↦ rw fresh (record {
          whole = record {
            same = λ q m e. ground (arith, now q, now m, classes q m r e, w.same q m e);
            below = λ q. ground (arith, now q, w.below q);
          };
          named = λ m e. ground (arith, now m);
          kept = λ m ne. ground (arith, now m, w.same r m);
          real = λ z. ground arith;
        })
        | inr known ↦ rw known (record {
          whole = w;
          named = λ m e. w.same r m e;
          kept = λ m ne. refl;
          real = λ z. ground arith;
        })
      ]
