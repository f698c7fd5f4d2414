-- ===== src/Plan/Search/Reports.antt =====
-- plan.go: what the states of an exact plan report of the patterns that end behind a byte.
use casei.Base.{
  ℕ, ◌==◌, leb, ◌+◌, ◌-◌, ◌^◌, true, some, List, [], ◌∷◌, arith, length, get_or, get_elem?, Bytes,
  ◌≡◌, ◌<◌, ◌≤◌, drop, refl, ap, take, inl, inr, Bool-cases, ◌≢◌, ◌∙◌, sym, Option-cases, map,
  AreBytes, All, ap₂,
}
use mathlib.Core.Path.{subst}
use mathlib.Core.Option.{some-injective}
use casei.Plan.Trie.{PlanOutput, Trie, node_at, no_trie, build_trie}
use casei.Plan.Trie.Outputs.{NoWorse}
use casei.Plan.Trie.Patterns.{trie_token, total, build_trie-Held}
use casei.Plan.Trie.Sources.{AllStepped, Indexed, build_trie-AllStepped}
use casei.Plan.Tokens.Distinct.{Distinct}
use casei.Plan.Links.Words.{
  state_of, state_of-injective, rev_onto, walk-state_of, take-take, length-take,
}
use casei.Plan.Links.Climb.{Deepest}
use casei.Plan.Links.Inherit.{Inherits}
use casei.Plan.Search.Leftmost.{Reports}
use casei.Plan.Search.Reverse.{
  rev, rev_twice, length-rev, take-drop-rev, All-rev, map-take, length-map, map-rev,
}

-- The pattern with the index stands in the text at `start`, and has `units` bytes.
pub record Occurs (patterns : List Bytes) (haystack : Bytes) (id start units : ℕ) : Type 0 where
  pub pattern : Bytes
  pub is : get_elem? patterns id ≡ some pattern
  pub size : length pattern ≡ units
  pub inside : start + units ≤ length haystack
  pub here : take units (drop start haystack) ≡ pattern

-- Bytes with the same tokens, all but 0, are the same.
tokens-injective :
    (t : Trie) (xs ys : Bytes)
    → Distinct t.tokens
    → All (λ c. trie_token t c ≢ 0) xs
    → map (trie_token t) xs ≡ map (trie_token t) ys
    → xs ≡ ys
tokens-injective t [] [] d named e = refl
tokens-injective t [] (y ∷ ys) d named e = absurd (let l = ap length e in omega arith)
tokens-injective t (x ∷ xs) [] d named e = absurd (let l = ap length e in omega arith)
tokens-injective t (x ∷ xs) (y ∷ ys) d named e =
    let first : trie_token t x ≡ trie_token t y = ap (λ us. get_or us 0 0) e in
    ap₂ (λ z zs. z ∷ zs) (d.own x y named.0 first)
      (tokens-injective t xs ys d named.1 (ap (λ us. drop 1 us) e))

module _ (simple_fold : ℕ → ℕ) (patterns : List Bytes) (bytes : All AreBytes patterns)
    (room : total patterns + 2 < 2 ^ 32) where
  abbrev pub plan_trie : Trie
  plan_trie = build_trie simple_fold true patterns

  abbrev pub token_of : ℕ → ℕ
  token_of = trie_token plan_trie

  pub stepped :
      AllStepped (Indexed patterns) simple_fold (length patterns == 1) 0 patterns no_trie plan_trie
  stepped = build_trie-AllStepped simple_fold patterns bytes room

  -- The tokens of a pattern, in a text that is read up to its end.
  pattern-word :
      (pattern read : Bytes) (n : ℕ)
      → rev (take n read) [] ≡ pattern
      → rev_onto (map token_of pattern) [] ≡ take n (map token_of read)
  pattern-word pattern read n e =
      map-rev token_of pattern []
      ∙ ap (λ xs. map token_of (rev xs [])) (sym e)
      ∙ ap (map token_of) (rev_twice (take n read))
      ∙ map-take token_of n read

  -- The end of the text is a pattern: its state has that output or a better one.
  record Ending (read : Bytes) (id n : ℕ) : Type 0 where
    state : ℕ
    is : state_of plan_trie.nodes (take n (map token_of read)) ≡ some state
    output : NoWorse (node_at plan_trie.nodes state).output id n

  Occurs-Ending :
      (read rest : Bytes) (id start n : ℕ)
      → Occurs patterns (rev read rest) id start n
      → 1 ≤ n
      → start + n ≡ length read
      → Ending read id n
  unfolding state_of
  Occurs-Ending read rest id start n o full end =
      let size = o.size in
      let held = build_trie-Held simple_fold patterns id o.pattern bytes room o.is (omega arith) in
      let at : rev (take n read) [] ≡ o.pattern =
        sym (take-drop-rev n start read rest end) ∙ o.here in
      record {
        state = held.state;
        is =
            ap (state_of plan_trie.nodes) (sym (pattern-word o.pattern read n at))
            ∙ walk-state_of plan_trie.nodes (map token_of o.pattern) [] 0 held.state refl held.path;
        output = subst (NoWorse (node_at plan_trie.nodes held.state).output id) size held.output;
      }

  -- The other way round: an output of the trie for an end of the text occurs there.
  record Reported (read rest : Bytes) (p units n : ℕ) : Type 0 where
    occurs : Occurs patterns (rev read rest) p (length read - n) n
    counted : units ≡ n

  output-Reported :
      (read rest : Bytes) (n k p : ℕ)
      → n ≤ length read
      → state_of plan_trie.nodes (take n (map token_of read)) ≡ some k
      → (node_at plan_trie.nodes k).output.pattern ≡ some p
      → Reported read rest p (node_at plan_trie.nodes k).output.units n
  unfolding state_of
  output-Reported read rest n k p inside is e =
      let s = stepped.sourced.sources k p e in
      let q = s.pattern in
      let word = walk-state_of plan_trie.nodes (map token_of q) [] 0 k refl s.path in
      let same : map token_of (rev q []) ≡ map token_of (take n read) =
        sym (map-rev token_of q [])
        ∙ state_of-injective plan_trie.nodes stepped.ready.tree _ _ k word is
        ∙ sym (map-take token_of n read) in
      let reversed : rev q [] ≡ take n read =
        tokens-injective plan_trie (rev q []) (take n read) stepped.ready.distinct
          (All-rev (λ c. token_of c ≢ 0) q [] s.named tt) same in
      let size = ap length reversed in
      let long = length-rev q [] in
      let short = length-take n read inside in
      let whole = length-rev read rest in
      let counted = s.counted in
      record {
        occurs = record {
          pattern = q;
          is = s.given;
          size = omega arith;
          inside = omega arith;
          here =
              take-drop-rev n (length read - n) read rest (omega arith)
              ∙ ap (λ xs. rev xs []) (sym reversed)
              ∙ rev_twice q;
        };
        counted = omega arith;
      }

  module _ (read rest : Bytes) (at state : ℕ) (o : PlanOutput) (end : at + 1 ≡ length read)
      (d : Deepest plan_trie.nodes (map token_of read) state)
      (i : Inherits plan_trie.nodes (take d.units (map token_of read)) o) where
    -- The output is no worse than any pattern that ends here.
    ending-NoWorse :
        (id start n : ℕ)
        → Occurs patterns (rev read rest) id start n
        → 1 ≤ n
        → start + n ≡ at + 1
        → NoWorse o id n
    ending-NoWorse id start n occurs full here =
        let e = Occurs-Ending read rest id start n occurs full (here ∙ end) in
        let inside = d.inside in
        let size = length-map token_of read in
        let short = length-take d.units (map token_of read) inside in
        elim (Bool-cases (leb n d.units)) [
          | inr beyond ↦
              let missing = d.most n (ground arith) (omega arith) in let found = e.is in absurd (cc)
          | inl within ↦
              let low : n ≤ d.units = ground arith in
              let w = e.output in
              let b =
                i.best n e.state w.pattern (omega arith)
                  (ap (state_of plan_trie.nodes) (take-take n d.units (map token_of read) low)
                    ∙ e.is)
                  w.is in
              let first = w.order in
              let second = b.order in
              record { pattern = b.pattern; is = b.is; order = ground arith }
        ]

    -- The output occurs here.
    own-Reported :
        (p : ℕ)
        → o.pattern ≡ some p
        → Occurs patterns (rev read rest) p (at + 1 - o.units) o.units × (o.units ≤ at + 1)
    own-Reported p e =
        let f = i.from p e in
        let inside = d.inside in
        let inside' = f.inside in
        let size = length-map token_of read in
        let short = length-take d.units (map token_of read) inside in
        let r =
          output-Reported read rest f.units f.state p (omega arith)
            (ap (state_of plan_trie.nodes)
                (sym (take-take f.units d.units (map token_of read) (omega arith)))
              ∙ f.is)
            (sym (ap (λ out. out.pattern) f.same) ∙ e) in
        let units : f.units ≡ o.units = sym (ap (λ out. out.units) f.same ∙ r.counted) in
        (
          subst (λ j. Occurs patterns (rev read rest) p (j - o.units) o.units) (sym end)
              (subst (λ n. Occurs patterns (rev read rest) p (length read - n) n) units r.occurs),
          omega arith,
        )

    -- The best of the outputs for the ends of the text is what the search wants behind it.
    pub inherits-Reports : Reports (Occurs patterns (rev read rest)) at o.pattern o.units
    inherits-Reports = elim (Option-cases o.pattern) [
      | inl nothing ↦
          subst (λ x. Reports (Occurs patterns (rev read rest)) at x o.units) (sym nothing)
            (λ id start n occurs full here.
              let w = ending-NoWorse id start n occurs full here in let is = w.is in absurd (cc))
      | inr (p, e) ↦
          subst (λ x. Reports (Occurs patterns (rev read rest)) at x o.units) (sym e)
            (record {
              occurs = (own-Reported p e).0;
              first = λ id start n occurs full here.
                  let w = ending-NoWorse id start n occurs full here in
                  let same : w.pattern ≡ p = some-injective _ _ (sym w.is ∙ e) in
                  let order = w.order in let inside = (own-Reported p e).1 in ground arith;
            })
    ]
