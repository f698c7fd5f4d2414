-- ===== src/Plan/Links/Inherit.antt =====
-- plan.go: the outputs that the states of the plan inherit from their failure links in `finish`.
use casei.Base.{
  ℕ, ◌==◌, leb, suc, some, List, [], arith, length, ◌≡◌, ◌≤◌, refl, ap, take, inl, inr, Bool-cases,
  ◌∙◌, sym,
}
use mathlib.Core.Path.{subst}
use mathlib.Core.Option.{some-injective}
use casei.Plan.Trie.{PlanNode, PlanOutput, node_at, prefer_output}
use casei.Plan.Trie.Outputs.{NoWorse, preferred, preferred-NoWorse}
use casei.Plan.Links.Words.{state_of, take-take, length-take, take_all, take-nil}
use casei.Plan.Links.Climb.{Deepest}

-- The output is that which the trie has for an end of the word.
pub record From (base : List PlanNode) (word : List ℕ) (o : PlanOutput) : Type 0 where
  pub units : ℕ
  pub state : ℕ
  pub inside : units ≤ length word
  pub is : state_of base (take units word) ≡ some state
  pub same : o ≡ (node_at base state).output

-- The best of the outputs that the trie has for the ends of the word.
pub record Inherits (base : List PlanNode) (word : List ℕ) (o : PlanOutput) : Type 0 where
  pub best :
      (n k p : ℕ)
      → n ≤ length word
      → state_of base (take n word) ≡ some k
      → (node_at base k).output.pattern ≡ some p
      → NoWorse o p (node_at base k).output.units
  pub from : (p : ℕ) → o.pattern ≡ some p → From base word o

own-NoWorse : (o : PlanOutput) (p : ℕ) → o.pattern ≡ some p → NoWorse o p o.units
own-NoWorse o p e = record { pattern = p; is = e; order = inr (refl, omega arith) }

-- What a state has of its own is the best for its word where no proper end has an output.
pub root-Inherits : (base : List PlanNode) → Inherits base [] (node_at base 0).output
unfolding state_of
root-Inherits base = record {
  best = λ n k p h is e.
      let z : 0 ≡ k = some-injective _ _ (sym (ap (state_of base) (take-nil n)) ∙ is) in
      subst (λ j. NoWorse (node_at base 0).output p (node_at base j).output.units) z
        (own-NoWorse (node_at base 0).output p (ap (λ j. (node_at base j).output.pattern) z ∙ e));
  from = λ p e. record { units = 0; state = 0; inside = omega arith; is = refl; same = refl };
}

module _ (base : List PlanNode) where
  -- The state of a word takes the better of its own output and that of its failure link.
  pub preferred-Inherits :
      (word : List ℕ) (state failure n : ℕ) (inherited : PlanOutput)
      → state_of base word ≡ some state
      → length word ≡ suc n
      → (d : Deepest base (take n word) failure) → Inherits base (take d.units word) inherited
      → Inherits base word (preferred inherited (node_at base state).output)
  preferred-Inherits word state failure n inherited is size d i =
      let own = (node_at base state).output in
      let bound = d.inside in
      let size' = length-take n word (omega arith) in
      let low : d.units ≤ n = omega arith in
      let short = length-take d.units word (omega arith) in
      record {
        best = λ m k p h at e. elim (Bool-cases (m == suc n)) [
          | inl whole ↦
              let q : m ≡ length word = ground arith in
              let all : take m word ≡ word = ap (λ j. take j word) q ∙ take_all word in
              let same : state ≡ k =
                some-injective _ _ (sym is ∙ sym (ap (state_of base) all) ∙ at) in
              preferred-NoWorse inherited own p (node_at base k).output.units (
                inr (
                  subst (λ j. NoWorse own p (node_at base j).output.units) same
                    (own-NoWorse own p (ap (λ j. (node_at base j).output.pattern) same ∙ e))))
          | inr part ↦ elim (Bool-cases (leb m d.units)) [
            | inl below ↦
                let le : m ≤ d.units = ground arith in
                preferred-NoWorse inherited own p (node_at base k).output.units (
                  inl (
                    i.best m k p (omega arith)
                      (ap (state_of base) (take-take m d.units word le) ∙ at) e))
            | inr above ↦
                let le : m ≤ n = ground arith in
                let missing = d.most m (ground arith) (omega arith) in
                let here = ap (state_of base) (take-take m n word le) in absurd (cc)
          ]
        ];
        from = λ p e. elim (Bool-cases (prefer_output inherited own)) [
          | inl taken ↦
              let e' = rw taken at e in
              let f = i.from p e' in
              let inside = f.inside in
              rw taken (record {
                units = f.units;
                state = f.state;
                inside = omega arith;
                is = ap (state_of base) (sym (take-take f.units d.units word (omega arith))) ∙ f.is;
                same = f.same;
              })
          | inr stays ↦ rw stays (record {
            units = length word;
            state = state;
            inside = omega arith;
            is = ap (state_of base) (take_all word) ∙ is;
            same = refl;
          })
        ];
      }
