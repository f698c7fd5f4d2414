-- ===== src/Plan/Trie/Patterns.antt =====
-- plan.go: the patterns of an exact plan in the trie of `newSearchPlan`.
use casei.Base.{
  ℕ, zero, suc, ◌+◌, ◌^◌, ◌<◌, ◌≤◌, Bool, true, some, none, List, [], ◌∷◌, arith, ◌==◌, map, length,
  get_elem?, Bytes, byte_at, All, AreBytes, ◌≡◌, ◌≢◌, refl, ap, ap₂, ◌∙◌, sym,
}
use mathlib.Core.Path.{subst}
use mathlib.Core.Option.{some-injective}
use casei.Plan.Tokens.{look}
use casei.Plan.Tokens.Distinct.{Distinct, no_tokens-Distinct}
use casei.Plan.Trie.{
  node_at, Trie, add_units, start_pattern, end_pattern, add_pattern, add_patterns, no_trie,
  build_trie,
}
use casei.Plan.Trie.Outputs.{NoWorse}
use casei.Plan.Trie.Tree.{edge_at, Keys, Tree, Tree-congr}
use casei.Plan.Trie.Edges.{walk, walk-kept}
use casei.Plan.Trie.Units.{add_units-Added}
use casei.Plan.Trie.Offer.{offer-Offered}

pub record TrieReady (t : Trie) : Type 0 where
  pub distinct : Distinct t.tokens
  pub tree : Tree t.nodes
  pub root : 0 < length t.nodes

-- The token of a byte in the plan.
abbrev pub trie_token : Trie → ℕ → ℕ
trie_token t c = byte_at t.tokens.byte_tokens c

-- The pattern's tokens lead from the root to a state with its output, or a better one.
pub record Held (t : Trie) (id : ℕ) (pattern : Bytes) : Type 0 where
  pub state : ℕ
  pub path : walk t.nodes 0 (map (trie_token t) pattern) ≡ some state
  pub output : NoWorse (node_at t.nodes state).output id (length pattern)
  pub named : All (λ c. trie_token t c ≢ 0) pattern

-- What a pattern, or several, add to the plan.
pub record Grown (t t' : Trie) (bytes : ℕ) : Type 0 where
  pub ready : TrieReady t'
  pub grows : t'.tokens.next_token ≤ t.tokens.next_token + bytes
  pub held : (id : ℕ) (pattern : Bytes) → Held t id pattern → Held t' id pattern

pub map-kept :
    (t t' : Trie) (pattern : Bytes)
    → ((c : ℕ) → trie_token t c ≢ 0 → trie_token t' c ≡ trie_token t c)
    → All (λ c. trie_token t c ≢ 0) pattern
    → map (trie_token t') pattern ≡ map (trie_token t) pattern
map-kept t t' [] kept named = refl
map-kept t t' (c ∷ s) kept named =
    ap₂ (λ x xs. x ∷ xs) (kept c named.0) (map-kept t t' s kept named.1)

pub All-kept :
    (t t' : Trie) (pattern : Bytes)
    → ((c : ℕ) → trie_token t c ≢ 0 → trie_token t' c ≡ trie_token t c)
    → All (λ c. trie_token t c ≢ 0) pattern
    → All (λ c. trie_token t' c ≢ 0) pattern
All-kept t t' [] kept named = tt
All-kept t t' (c ∷ s) kept named =
    (λ z. named.0 (sym (kept c named.0) ∙ z), All-kept t t' s kept named.1)

Held-kept :
    (t t' : Trie) (id : ℕ) (pattern : Bytes)
    → ((c : ℕ) → trie_token t c ≢ 0 → trie_token t' c ≡ trie_token t c)
    → ((k x n : ℕ) → edge_at t.nodes k x ≡ some n → edge_at t'.nodes k x ≡ some n)
    → ((k i n : ℕ)
        → NoWorse (node_at t.nodes k).output i n
        → NoWorse (node_at t'.nodes k).output i n)
    → Held t id pattern
    → Held t' id pattern
Held-kept t t' id pattern tokens edges outputs h = record {
  state = h.state;
  path =
      ap (walk t'.nodes 0) (map-kept t t' pattern tokens h.named)
      ∙ walk-kept t.nodes t'.nodes 0 (map (trie_token t) pattern) h.state edges h.path;
  output = outputs h.state id (length pattern) h.output;
  named = All-kept t t' pattern tokens h.named;
}

-- The count of the bytes of the patterns.
abbrev pub total : List Bytes → ℕ
total [] = 0
total (pattern ∷ patterns) = length pattern + total patterns

module _ (simple_fold : ℕ → ℕ) (single : Bool) where
  pub add_pattern-Grown :
      (id : ℕ) (pattern : Bytes) (t : Trie)
      → AreBytes pattern
      → t.tokens.next_token + length pattern + 1 < 2 ^ 32
      → TrieReady t
      → Grown t (add_pattern simple_fold true single id pattern t) (length pattern)
        × (1 ≤ length pattern → Held (add_pattern simple_fold true single id pattern t) id pattern)
  unfolding add_pattern edge_at
  add_pattern-Grown id [] t bytes room r = (
    record {
      ready = record { distinct = r.distinct; tree = r.tree; root = r.root };
      grows = omega arith;
      held = λ i q h. record { state = h.state; path = h.path; output = h.output; named = h.named };
    },
    λ z. absurd (omega arith),
  )
  add_pattern-Grown id (c ∷ s) t bytes room r =
      let start = start_pattern simple_fold true single t in
      let b = add_units simple_fold true single (length (c ∷ s)) (c ∷ s) start in
      let a =
        add_units-Added simple_fold single (length (c ∷ s)) (c ∷ s) start (omega arith) bytes room
          (record { distinct = r.distinct; tree = r.tree; inside = r.root }) in
      let o = offer-Offered b.nodes b.state id b.units a.ready.inside in
      let t' = end_pattern simple_fold true single id t b in
      let same = λ (k x : ℕ). ap (λ es. look es x) (o.edges k) in
      let edges = λ (k x n : ℕ) (e : edge_at t.nodes k x ≡ some n). same k x ∙ a.edges k x n e in
      let outputs = λ (k i n : ℕ) (w : NoWorse (node_at t.nodes k).output i n).
        o.better_or_same k i n (subst (λ out. NoWorse out i n) (sym (a.outputs k)) w) in
      let size = o.size in
      let inside = a.ready.inside in
      let units : b.units ≡ length (c ∷ s) = a.units ∙ omega arith in
      (
        record {
          ready = record {
            distinct = a.ready.distinct;
            tree = Tree-congr b.nodes t'.nodes o.size o.edges o.failures a.ready.tree;
            root = omega arith;
          };
          grows = a.grows;
          held = λ i q h. Held-kept t t' i q a.tokens edges outputs h;
        },
        λ z. record {
          state = b.state;
          path =
              walk-kept b.nodes t'.nodes 0 (map (trie_token t') (c ∷ s)) b.state
                (λ k x n e. same k x ∙ e) a.path;
          output = subst (λ n. NoWorse (node_at t'.nodes b.state).output id n) units o.has;
          named = a.named;
        },
      )

  add_patterns-kept :
      (first : ℕ) (patterns : List Bytes) (t : Trie) (id : ℕ) (pattern : Bytes)
      → All AreBytes patterns
      → t.tokens.next_token + total patterns + 1 < 2 ^ 32
      → TrieReady t
      → Held t id pattern
      → Held (add_patterns simple_fold true single first patterns t) id pattern
  unfolding add_patterns
  add_patterns-kept first [] t id pattern bytes room r h = h
  add_patterns-kept first (p ∷ ps) t id pattern bytes room r h =
      let (g, new) = add_pattern-Grown first p t bytes.0 (omega arith) r in
      let grows = g.grows in
      add_patterns-kept (suc first) ps (add_pattern simple_fold true single first p t) id pattern
        bytes.1 (omega arith) g.ready (g.held id pattern h)

  add_patterns-Held :
      (first : ℕ) (patterns : List Bytes) (t : Trie) (i : ℕ) (pattern : Bytes)
      → All AreBytes patterns
      → t.tokens.next_token + total patterns + 1 < 2 ^ 32
      → TrieReady t
      → get_elem? patterns i ≡ some pattern
      → 1 ≤ length pattern
      → Held (add_patterns simple_fold true single first patterns t) (first + i) pattern
  unfolding add_patterns
  add_patterns-Held first [] t i pattern bytes room r e full = absurd (cc)
  add_patterns-Held first (p ∷ ps) t zero pattern bytes room r e full =
      let (g, new) = add_pattern-Grown first p t bytes.0 (omega arith) r in
      let grows = g.grows in
      let same : p ≡ pattern = some-injective _ _ e in
      let id : first + 0 ≡ first = omega arith in
      let full' : 1 ≤ length p = rw same full in
      rw (id, sym same)
        (add_patterns-kept (suc first) ps (add_pattern simple_fold true single first p t) first p
          bytes.1 (omega arith) g.ready (new full'))
  add_patterns-Held first (p ∷ ps) t (suc i) pattern bytes room r e full =
      let (g, new) = add_pattern-Grown first p t bytes.0 (omega arith) r in
      let grows = g.grows in
      let id : first + suc i ≡ suc first + i = omega arith in
      rw id (
        add_patterns-Held (suc first) ps (add_pattern simple_fold true single first p t) i pattern
          bytes.1 (omega arith) g.ready e full)

no_trie-edge_at : (k t : ℕ) → edge_at no_trie.nodes k t ≡ none
unfolding edge_at look
no_trie-edge_at zero t = refl
no_trie-edge_at (suc k) t = refl

no_trie-Keys : (k : ℕ) → Keys (node_at no_trie.nodes k).edges
unfolding Keys
no_trie-Keys zero = tt
no_trie-Keys (suc k) = tt

no_trie-failure : (k : ℕ) → (node_at no_trie.nodes k).failure ≡ 0
no_trie-failure zero = refl
no_trie-failure (suc k) = refl

pub no_trie-TrieReady : TrieReady no_trie
no_trie-TrieReady =
    let no_edge = λ (k t n : ℕ) (e : edge_at no_trie.nodes k t ≡ some n). no_trie-edge_at k t in
    record {
      distinct = no_tokens-Distinct;
      tree = record {
        rising = λ k t n e. let none_here = no_edge k t n e in absurd (cc);
        parent = λ k t k' t' n e e'. let none_here = no_edge k t n e in absurd (cc);
        keys = no_trie-Keys;
        real = λ k t n e. let none_here = no_edge k t n e in absurd (cc);
        unlinked = no_trie-failure;
      };
      root = omega arith;
    }

-- In the trie of an exact plan for patterns of bytes, which have fewer bytes in all than there
-- are tokens, the tokens of every pattern that is not empty lead from the root to a state, and
-- the output of that state is a longer pattern, or one as long whose index is that of the
-- pattern or a lower one; no byte of the pattern has the token 0.
pub build_trie-Held :
    (simple_fold : ℕ → ℕ) (patterns : List Bytes) (id : ℕ) (pattern : Bytes)
    → All AreBytes patterns
    → total patterns + 2 < 2 ^ 32
    → get_elem? patterns id ≡ some pattern
    → 1 ≤ length pattern
    → Held (build_trie simple_fold true patterns) id pattern
unfolding build_trie
build_trie-Held simple_fold patterns id pattern bytes room e full =
    let e0 : 0 + id ≡ id = omega arith in
    let held =
      add_patterns-Held simple_fold (length patterns == 1) 0 patterns no_trie id pattern bytes
        (omega arith) no_trie-TrieReady e full in
    rw e0 at held
