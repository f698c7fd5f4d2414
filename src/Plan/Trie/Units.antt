-- ===== src/Plan/Trie/Units.antt =====
-- plan.go: the units of one exact pattern in `newSearchPlan`.
use casei.Base.{
  ℕ, zero, suc, ◌+◌, ◌^◌, ◌<◌, ◌≤◌, Bool, true, some, [], ◌∷◌, arith, map, length, Bytes, byte_at,
  All, AreBytes, ◌≡◌, ◌≢◌, refl, ap, ◌∙◌, sym,
}
use casei.Plan.Tokens.{byte_token, pattern_token}
use casei.Plan.Tokens.Distinct.{Distinct, byte_token-Extends}
use casei.Plan.Trie.{node_at, Build, add_unit, add_units}
use casei.Plan.Trie.Tree.{edge_at, Tree}
use casei.Plan.Trie.Edges.{walk, walk-nil, walk-cons, follow-Followed}

pub record Ready (b : Build) : Type 0 where
  pub distinct : Distinct b.tokens
  pub tree : Tree b.nodes
  pub inside : b.state < length b.nodes

-- The token of a byte; 0 where it has none.
abbrev pub token_in : Build → ℕ → ℕ
token_in b c = byte_at b.tokens.byte_tokens c

-- What the units of the pattern add to the plan.
pub record Added (pattern : Bytes) (b b' : Build) : Type 0 where
  pub ready : Ready b'
  pub edges : (k t n : ℕ) → edge_at b.nodes k t ≡ some n → edge_at b'.nodes k t ≡ some n
  pub outputs : (k : ℕ) → (node_at b'.nodes k).output ≡ (node_at b.nodes k).output
  pub tokens : (c : ℕ) → token_in b c ≢ 0 → token_in b' c ≡ token_in b c
  pub path : walk b'.nodes b.state (map (token_in b') pattern) ≡ some b'.state
  pub named : All (λ c. token_in b' c ≢ 0) pattern
  pub units : b'.units ≡ b.units + length pattern
  pub grows : b'.tokens.next_token ≤ b.tokens.next_token + length pattern

module _ (simple_fold : ℕ → ℕ) (single : Bool) where
  -- On an exact plan with tokens left, the units of a pattern of bytes lead from the state to the
  -- state where the pattern ends; the edges, the outputs and the tokens that were there stay.
  pub add_units-Added :
      (fuel : ℕ) (pattern : Bytes) (b : Build)
      → length pattern ≤ fuel
      → AreBytes pattern
      → b.tokens.next_token + length pattern + 1 < 2 ^ 32
      → Ready b
      → Added pattern b (add_units simple_fold true single fuel pattern b)
  unfolding add_units add_unit pattern_token
  add_units-Added zero [] b h bytes room r = record {
    ready = r;
    edges = λ k t n e. e;
    outputs = λ k. refl;
    tokens = λ c ne. refl;
    path = walk-nil b.nodes b.state;
    named = tt;
    units = omega arith;
    grows = omega arith;
  }
  add_units-Added zero (c ∷ s) b h bytes room r = absurd (omega arith)
  add_units-Added (suc fuel) [] b h bytes room r = record {
    ready = r;
    edges = λ k t n e. e;
    outputs = λ k. refl;
    tokens = λ c ne. refl;
    path = walk-nil b.nodes b.state;
    named = tt;
    units = omega arith;
    grows = omega arith;
  }
  add_units-Added (suc fuel) (c ∷ s) b h bytes room r =
      let x = byte_token-Extends b.tokens c r.distinct bytes.0 (omega arith) in
      let f = follow-Followed b.nodes b.state (byte_token b.tokens c).0 r.tree r.inside x.real in
      let b1 =
        add_unit simple_fold true single (pattern_token simple_fold true b.tokens (c ∷ s)) (c ∷ s)
          b in
      let grows = x.grows in
      let rest =
        add_units-Added fuel s b1 (omega arith) bytes.1 (omega arith)
          (record { distinct = x.distinct; tree = f.tree; inside = f.inside }) in
      let last = add_units simple_fold true single fuel s b1 in
      let named : token_in last c ≡ (byte_token b.tokens c).0 =
        rest.tokens c (λ z. x.real (sym x.given ∙ z)) ∙ x.given in
      let first : edge_at last.nodes b.state (token_in last c) ≡ some b1.state =
        ap (edge_at last.nodes b.state) named
        ∙ rest.edges b.state (byte_token b.tokens c).0 b1.state f.edge in
      record {
        ready = rest.ready;
        edges = λ k t n e. rest.edges k t n (f.kept k t n e);
        outputs = λ k. rest.outputs k ∙ f.outputs k;
        tokens = λ d ne. let same = x.kept d ne in rest.tokens d (λ z. ne (sym same ∙ z)) ∙ same;
        path =
            walk-cons last.nodes b.state (token_in last c) b1.state (map (token_in last) s)
              (some last.state) first rest.path;
        named = (λ z. x.real (sym named ∙ z), rest.named);
        units = rest.units ∙ omega arith;
        grows = let more = rest.grows in omega arith;
      }
