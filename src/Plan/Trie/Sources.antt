-- ===== src/Plan/Trie/Sources.antt =====
-- plan.go: where the outputs of an exact trie come from, and the fields `empty` and `maxUnits`.
use casei.Base.{
  ℕ, Bool, ◌==◌, zero, suc, ◌+◌, ◌^◌, true, Option, some, none, List, [], ◌∷◌, arith, length,
  get_elem?, Bytes, ◌≡◌, ◌<◌, ◌≤◌, ltb, refl, ap, inl, inr, Bool-cases, ◌≢◌, ◌∙◌, sym, map,
  AreBytes, All,
}
use mathlib.Core.Path.{subst}
use mathlib.Core.Option.{some-injective}
use casei.Plan.Trie.{
  node_at, Trie, add_units, start_pattern, end_pattern, add_pattern, add_patterns, first_empty,
  no_trie, build_trie,
}
use casei.Plan.Trie.Tree.{edge_at}
use casei.Plan.Tokens.{look}
use casei.Plan.Trie.Edges.{walk, walk-kept}
use casei.Plan.Trie.Units.{add_units-Added}
use casei.Plan.Trie.Offer.{offer-Offered}
use casei.Plan.Trie.Patterns.{
  TrieReady, trie_token, map-kept, All-kept, total, add_pattern-Grown, no_trie-TrieReady,
}

-- The pattern is empty, and `empty` is that one or a lower one.
pub record EmptyHeld (empty : Option ℕ) (id : ℕ) : Type 0 where
  pub lowest : ℕ
  pub is : empty ≡ some lowest
  pub order : lowest ≤ id

module _ (Given : ℕ → Bytes → Type 0) where
  -- The output of a state names a given pattern, whose tokens lead to the state.
  pub record Source (t : Trie) (k p units : ℕ) : Type 0 where
    pub pattern : Bytes
    pub given : Given p pattern
    pub path : walk t.nodes 0 (map (trie_token t) pattern) ≡ some k
    pub counted : units ≡ length pattern
    pub full : 1 ≤ length pattern
    pub named : All (λ c. trie_token t c ≢ 0) pattern

  pub record Sourced (t : Trie) : Type 0 where
    pub sources :
        (k p : ℕ)
        → (node_at t.nodes k).output.pattern ≡ some p
        → Source t k p (node_at t.nodes k).output.units
    pub empties : (e : ℕ) → t.empty ≡ some e → Given e []

  -- What a pattern leaves behind.
  pub record Stepped (id : ℕ) (pattern : Bytes) (t t' : Trie) : Type 0 where
    pub sourced : Sourced t'
    pub wider : t.max_units ≤ t'.max_units
    pub covers : length pattern ≤ t'.max_units
    pub keeps_empty : (i : ℕ) → EmptyHeld t.empty i → EmptyHeld t'.empty i
    pub has_empty : pattern ≡ [] → EmptyHeld t'.empty id

  first_empty-Held :
      (empty : Option ℕ) (id i : ℕ) → EmptyHeld empty i → EmptyHeld (first_empty empty id) i
  first_empty-Held none id i h = absurd (let e = h.is in cc)
  first_empty-Held (some e) id i h =
      let same : e ≡ h.lowest = some-injective _ _ h.is in
      let order = h.order in
      elim (Bool-cases (ltb id e)) [
        | inl lower ↦ rw lower (record { lowest = id; is = refl; order = ground arith })
        | inr other ↦ rw other (record { lowest = e; is = refl; order = omega arith })
      ]

  first_empty-has : (empty : Option ℕ) (id : ℕ) → EmptyHeld (first_empty empty id) id
  first_empty-has none id = record { lowest = id; is = refl; order = omega arith }
  first_empty-has (some e) id = elim (Bool-cases (ltb id e)) [
    | inl lower ↦ rw lower (record { lowest = id; is = refl; order = omega arith })
    | inr other ↦ rw other (record { lowest = e; is = refl; order = ground arith })
  ]

  first_empty-Given :
      (empty : Option ℕ) (id e : ℕ)
      → ((d : ℕ) → empty ≡ some d → Given d [])
      → Given id []
      → first_empty empty id ≡ some e
      → Given e []
  first_empty-Given none id e old new h = subst (λ d. Given d []) (some-injective _ _ h) new
  first_empty-Given (some d) id e old new h = elim (Bool-cases (ltb id d)) [
    | inl lower ↦
        let h' : some id ≡ some e = rw lower at h in
        subst (λ x. Given x []) (some-injective _ _ h') new
    | inr other ↦ let h' : some d ≡ some e = rw other at h in old e h'
  ]

  -- A source stays one when edges and tokens are added.
  Source-kept :
      (t t' : Trie) (k p units : ℕ)
      → ((c : ℕ) → trie_token t c ≢ 0 → trie_token t' c ≡ trie_token t c)
      → ((k x n : ℕ) → edge_at t.nodes k x ≡ some n → edge_at t'.nodes k x ≡ some n)
      → Source t k p units
      → Source t' k p units
  Source-kept t t' k p units tokens edges s = record {
    pattern = s.pattern;
    given = s.given;
    path =
        ap (walk t'.nodes 0) (map-kept t t' s.pattern tokens s.named)
        ∙ walk-kept t.nodes t'.nodes 0 (map (trie_token t) s.pattern) k edges s.path;
    counted = s.counted;
    full = s.full;
    named = All-kept t t' s.pattern tokens s.named;
  }

  module _ (simple_fold : ℕ → ℕ) (single : Bool) where
    pub add_pattern-Stepped :
        (id : ℕ) (pattern : Bytes) (t : Trie)
        → AreBytes pattern
        → t.tokens.next_token + length pattern + 1 < 2 ^ 32
        → TrieReady t
        → Sourced t
        → Given id pattern
        → Stepped id pattern t (add_pattern simple_fold true single id pattern t)
    unfolding add_pattern edge_at
    add_pattern-Stepped id [] t bytes room r src new = record {
      sourced = record {
        sources = λ k p e.
            let s = src.sources k p e in
            record {
              pattern = s.pattern;
              given = s.given;
              path = s.path;
              counted = s.counted;
              full = s.full;
              named = s.named;
            };
        empties = λ e h. first_empty-Given t.empty id e src.empties new h;
      };
      wider = omega arith;
      covers = omega arith;
      keeps_empty = λ i h. first_empty-Held t.empty id i h;
      has_empty = λ z. first_empty-has t.empty id;
    }
    add_pattern-Stepped id (c ∷ s) t bytes room r src new =
        let start = start_pattern simple_fold true single t in
        let b = add_units simple_fold true single (length (c ∷ s)) (c ∷ s) start in
        let a =
          add_units-Added simple_fold single (length (c ∷ s)) (c ∷ s) start (omega arith) bytes room
            (record { distinct = r.distinct; tree = r.tree; inside = r.root }) in
        let o = offer-Offered b.nodes b.state id b.units a.ready.inside in
        let t' = end_pattern simple_fold true single id t b in
        let same = λ (k x : ℕ). ap (λ es. look es x) (o.edges k) in
        let edges = λ (k x n : ℕ) (e : edge_at t.nodes k x ≡ some n). same k x ∙ a.edges k x n e in
        let units : b.units ≡ length (c ∷ s) = a.units ∙ omega arith in
        let mine : Source t' b.state id b.units = record {
          pattern = c ∷ s;
          given = new;
          path =
              walk-kept b.nodes t'.nodes 0 (map (trie_token t') (c ∷ s)) b.state
                (λ k x n e. same k x ∙ e) a.path;
          counted = units;
          full = omega arith;
          named = a.named;
        } in
        record {
          sourced = record {
            sources = λ k p e. elim (o.taken_from k) [
              | inl stays ↦
                  let same_output = stays ∙ a.outputs k in
                  let old = src.sources k p (sym (ap (λ out. out.pattern) same_output) ∙ e) in
                  subst (λ out. Source t' k p out.units) (sym same_output)
                    (Source-kept t t' k p (node_at t.nodes k).output.units a.tokens edges old)
              | inr (here, taken) ↦
                  let named : id ≡ p =
                    some-injective _ _ (sym (ap (λ out. out.pattern) taken) ∙ e) in
                  subst (λ out. Source t' k p out.units) (sym taken)
                    (subst (λ j. Source t' j p b.units) (sym here)
                      (subst (λ q. Source t' b.state q b.units) named mine))
            ];
            empties = src.empties;
          };
          wider = ground arith;
          covers = ground arith;
          keeps_empty = λ i h. h;
          has_empty = λ z. absurd (cc);
        }

    -- What the patterns leave behind, one after the other.
    pub record AllStepped (first : ℕ) (patterns : List Bytes) (t t' : Trie) : Type 0 where
      pub sourced : Sourced t'
      pub ready : TrieReady t'
      pub wider : t.max_units ≤ t'.max_units
      pub covers :
          (i : ℕ) (pattern : Bytes)
          → get_elem? patterns i ≡ some pattern
          → length pattern ≤ t'.max_units
      pub keeps_empty : (i : ℕ) → EmptyHeld t.empty i → EmptyHeld t'.empty i
      pub has_empty : (i : ℕ) → get_elem? patterns i ≡ some [] → EmptyHeld t'.empty (first + i)

    shift : (first i : ℕ) → suc first + i ≡ first + suc i
    shift first i = omega arith

    cons-covers :
        (p : Bytes) (ps : List Bytes) {n : ℕ}
        → ((i : ℕ) (pattern : Bytes) → get_elem? ps i ≡ some pattern → length pattern ≤ n)
        → length p ≤ n
        → (i : ℕ) (pattern : Bytes) → get_elem? (p ∷ ps) i ≡ some pattern
        → length pattern ≤ n
    cons-covers p ps rest here zero pattern e = rw (some-injective _ _ e) at here
    cons-covers p ps rest here (suc i) pattern e = rest i pattern e

    cons-has_empty :
        (first : ℕ) (p : Bytes) (ps : List Bytes) (empty : Option ℕ)
        → (p ≡ [] → EmptyHeld empty first)
        → ((i : ℕ) → get_elem? ps i ≡ some [] → EmptyHeld empty (suc first + i))
        → (i : ℕ) → get_elem? (p ∷ ps) i ≡ some []
        → EmptyHeld empty (first + i)
    cons-has_empty first p ps empty here rest zero e =
        let id : first + 0 ≡ first = omega arith in rw id (here (some-injective _ _ e))
    cons-has_empty first p ps empty here rest (suc i) e =
        subst (λ j. EmptyHeld empty j) (shift first i) (rest i e)

    pub add_patterns-AllStepped :
        (first : ℕ) (patterns : List Bytes) (t : Trie)
        → All AreBytes patterns
        → t.tokens.next_token + total patterns + 1 < 2 ^ 32
        → TrieReady t
        → Sourced t
        → ((i : ℕ) (pattern : Bytes)
            → get_elem? patterns i ≡ some pattern
            → Given (first + i) pattern)
        → AllStepped first patterns t (add_patterns simple_fold true single first patterns t)
    unfolding add_patterns
    add_patterns-AllStepped first [] t bytes room r src given = record {
      sourced = src;
      ready = r;
      wider = omega arith;
      covers = λ i pattern e. absurd (cc);
      keeps_empty = λ i h. h;
      has_empty = λ i e. absurd (cc);
    }
    add_patterns-AllStepped first (p ∷ ps) t bytes room r src given =
        let id : first + 0 ≡ first = omega arith in
        let (g, new) = add_pattern-Grown simple_fold single first p t bytes.0 (omega arith) r in
        let mine = subst (λ j. Given j p) id (given 0 p refl) in
        let s = add_pattern-Stepped first p t bytes.0 (omega arith) r src mine in
        let grows = g.grows in
        let t1 = add_pattern simple_fold true single first p t in
        let rest =
          add_patterns-AllStepped (suc first) ps t1 bytes.1 (omega arith) g.ready s.sourced
            (λ i q e. subst (λ j. Given j q) (sym (shift first i)) (given (suc i) q e)) in
        record {
          sourced = rest.sourced;
          ready = rest.ready;
          wider = let w = s.wider in let w' = rest.wider in omega arith;
          covers = cons-covers p ps rest.covers (omega (arith, s.covers, rest.wider));
          keeps_empty = λ i h. rest.keeps_empty i (s.keeps_empty i h);
          has_empty =
              cons-has_empty first p ps _ (λ e. rest.keeps_empty first (s.has_empty e))
                rest.has_empty;
        }

no_trie-output : (k : ℕ) → (node_at no_trie.nodes k).output.pattern ≡ none
no_trie-output zero = refl
no_trie-output (suc k) = refl

-- The pattern with the index.
abbrev pub Indexed : List Bytes → ℕ → Bytes → Type 0
Indexed patterns id pattern = get_elem? patterns id ≡ some pattern

-- For patterns of bytes, which have fewer bytes in all than there are tokens, the trie of the
-- exact plan is a tree with distinct tokens; every output names one of the patterns, has its
-- length as the count of units and stands at the state that its tokens lead to; maxUnits is at
-- least the length of each pattern; and empty is an empty pattern, the lowest one where there
-- are any.
pub build_trie-AllStepped :
    (simple_fold : ℕ → ℕ) (patterns : List Bytes)
    → All AreBytes patterns
    → total patterns + 2 < 2 ^ 32
    → AllStepped
        (Indexed patterns)
        simple_fold
        (length patterns == 1)
        0
        patterns
        no_trie
        (build_trie simple_fold true patterns)
unfolding build_trie
build_trie-AllStepped simple_fold patterns bytes room =
    add_patterns-AllStepped (Indexed patterns) simple_fold (length patterns == 1) 0 patterns no_trie
      bytes (omega arith) no_trie-TrieReady
      (record {
        sources = λ k p e. let no_output_here = no_trie-output k in absurd (cc);
        empties = λ e h. absurd (cc);
      })
      (λ i q e. subst (λ j. get_elem? patterns j ≡ some q) (omega arith) e)
