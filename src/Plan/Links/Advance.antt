-- ===== src/Plan/Links/Advance.antt =====
-- plan.go: `advance` without a dense table, and the token 0.
use casei.Base.{
  ℕ, leb, zero, suc, none, List, ◌∷◌, arith, length, ◌≡◌, ◌<◌, ◌≤◌, refl, ap, take, inl, inr,
  Bool-cases, ◌∙◌, sym, Option-cases,
}
use casei.Plan.Trie.{PlanNode}
use casei.Plan.Trie.Tree.{Tree}
use casei.Plan.Links.{Linked, climb_edges}
use casei.Plan.Links.Words.{
  state_of, state_of-missing, before_last, state_of-depth, take-take, length-take,
}
use casei.Plan.Links.Climb.{Deepest, Climbing, climb_edges-Deepest}
use casei.Plan.Links.Linking.{Seen-Falling}
use casei.Plan.Links.Finish.{Finished}

-- The climb for the token that comes behind a text begins at the text's own state.
pub Deepest-Climbing :
    (base : List PlanNode) (text : List ℕ) (token state : ℕ) (d : Deepest base text state)
    → Climbing base text token d.units state
Deepest-Climbing base text token state d = record {
  inside = d.inside;
  is = d.is;
  most = λ m h le. state_of-missing base token (take m text) (d.most m h le);
}

-- The state that the longest end of the text has answers for the whole of it.
pub Deepest-lift :
    (base : List PlanNode) (text : List ℕ) (token state next : ℕ) (d : Deepest base text state)
    → Deepest base (token ∷ take d.units text) next
    → Deepest base (token ∷ text) next
Deepest-lift base text token state next d d' =
    let inside = d.inside in
    let inside' = d'.inside in
    let short = length-take d.units text (omega arith) in
    let again = λ (m : ℕ) (h : m ≤ suc d.units). take-take m (suc d.units) (token ∷ text) h in
    record {
      units = d'.units;
      inside = omega arith;
      is = ap (state_of base) (sym (again d'.units (omega arith))) ∙ d'.is;
      most = λ m h le. elim (Bool-cases (leb m (suc d.units))) [
        | inl low ↦
            let le' : m ≤ suc d.units = ground arith in
            ap (state_of base) (sym (again m le')) ∙ d'.most m h (omega arith)
        | inr high ↦ longer-missing base text token d.units d.most m (ground arith) le
      ];
    }
  where
    longer-missing :
        (base : List PlanNode) (text : List ℕ) (token units : ℕ)
        → ((m : ℕ) → units < m → m ≤ length text → state_of base (take m text) ≡ none)
        → (m : ℕ) → suc units < m
        → m ≤ length (token ∷ text)
        → state_of base (take m (token ∷ text)) ≡ none
    longer-missing base text token units most zero h le = absurd (omega arith)
    longer-missing base text token units most (suc m) h le =
        state_of-missing base token (take m text) (most m (omega arith) (omega arith))

module _ (base : List PlanNode) (tree : Tree base) (root : 0 < length base) where
  -- No edge has the token 0.
  pub zero-Deepest : (text : List ℕ) → Deepest base (0 ∷ text) 0
  unfolding state_of
  zero-Deepest text = record {
    units = 0;
    inside = omega arith;
    is = refl;
    most = λ m h le. zero-missing text m h;
  }
    where
      zero-missing : (text : List ℕ) (m : ℕ) → 0 < m → state_of base (take m (0 ∷ text)) ≡ none
      zero-missing text zero h = absurd (omega arith)
      zero-missing text (suc m) h = elim (Option-cases (state_of base (0 ∷ take m text))) [
        | inl missing ↦ missing
        | inr (end, is) ↦
            let (k, at, edge) = before_last base 0 (take m text) end is in
            absurd (tree.real k 0 end edge refl)
      ]

  pub climbed-Deepest :
      (l : Linked) (text : List ℕ) (token state : ℕ)
      → Finished base l
      → Deepest base text state
      → Deepest base (token ∷ text) (climb_edges (suc (length l.nodes)) l.nodes state token)
  climbed-Deepest l text token state fin d =
      let inside = d.inside in
      let size = fin.seen.size in
      let (deep, below) = state_of-depth base tree (take d.units text) state root d.is in
      let short = length-take d.units text (omega arith) in
      climb_edges-Deepest base l.nodes tree (length text)
        (Seen-Falling base tree root l.nodes l.queue (length text) fin.seen
          (fin.covered (length text)))
        (suc (length l.nodes)) text token d.units state (omega arith) (omega arith)
        (Deepest-Climbing base text token state d)
