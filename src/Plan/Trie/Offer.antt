-- ===== src/Plan/Trie/Offer.antt =====
-- plan.go: the output of one pattern, offered to the last of its states.
use casei.Base.{
  ℕ, ◌<◌, true, some, List, arith, ◌==◌, if◌then◌else◌, length, set, get_or-set, length-set, ◌≡◌,
  ◌⊎◌, inl, inr, refl, ap, Bool-cases,
}
use casei.Plan.Trie.{PlanNode, PlanOutput, new_node, node_at, prefer_output}
use casei.Plan.Trie.Outputs.{NoWorse, prefer-NoWorse, stay-NoWorse}

-- Putting an output in a node changes no edge and no failure link.
set-edges :
    (nodes : List PlanNode) (st : ℕ) (o : PlanOutput) (k : ℕ)
    → st < length nodes
    → ((node_at (set nodes st (record (node_at nodes st) { output = o })) k).edges
        ≡ (node_at nodes k).edges)
      × ((node_at (set nodes st (record (node_at nodes st) { output = o })) k).failure
          ≡ (node_at nodes k).failure)
set-edges nodes st o k h =
    let at = get_or-set nodes st k (record (node_at nodes st) { output = o }) new_node h in
    rw at (elim (Bool-cases (st == k)) [
      | inl same ↦
          let q : st ≡ k = ground arith in
          rw same (ap (λ j. (node_at nodes j).edges) q, ap (λ j. (node_at nodes j).failure) q)
      | inr other ↦ rw other (refl, refl)
    ])

set-output :
    (nodes : List PlanNode) (st : ℕ) (o : PlanOutput) (k : ℕ)
    → st < length nodes
    → (node_at (set nodes st (record (node_at nodes st) { output = o })) k).output
      ≡ (if st == k then o else (node_at nodes k).output)
set-output nodes st o k h =
    let at = get_or-set nodes st k (record (node_at nodes st) { output = o }) new_node h in
    rw at (elim (Bool-cases (st == k)) [ inl same ↦ rw same refl | inr other ↦ rw other refl ])

-- The nodes after the output of one pattern has been offered to its last state.
pub record Offered (nodes : List PlanNode) (st id n : ℕ) (nodes' : List PlanNode) : Type 0 where
  pub edges : (k : ℕ) → (node_at nodes' k).edges ≡ (node_at nodes k).edges
  pub failures : (k : ℕ) → (node_at nodes' k).failure ≡ (node_at nodes k).failure
  pub taken_from :
      (k : ℕ)
      → ((node_at nodes' k).output ≡ (node_at nodes k).output)
        ⊎ ((k ≡ st) × ((node_at nodes' k).output ≡ record { pattern = some id; units = n }))
  pub size : length nodes' ≡ length nodes
  pub better_or_same :
      (k id' n' : ℕ)
      → NoWorse (node_at nodes k).output id' n'
      → NoWorse (node_at nodes' k).output id' n'
  pub has : NoWorse (node_at nodes' st).output id n

pub offer-Offered :
    (nodes : List PlanNode) (st id n : ℕ)
    → st < length nodes
    → Offered nodes st id n (
        if prefer_output (record { pattern = some id; units = n }) (node_at nodes st).output
        then set nodes st
            (record (node_at nodes st) { output = record { pattern = some id; units = n } })
        else nodes)
offer-Offered nodes st id n h =
    let terminal : PlanOutput = record { pattern = some id; units = n } in
    let mine : NoWorse terminal id n = record {
      pattern = id;
      is = refl;
      order = inr (refl, omega arith);
    } in
    elim (Bool-cases (prefer_output terminal (node_at nodes st).output)) [
      | inr stays ↦ rw stays (record {
        edges = λ k. refl;
        failures = λ k. refl;
        taken_from = λ k. inl refl;
        size = refl;
        better_or_same = λ k i m w. w;
        has = stay-NoWorse (node_at nodes st).output id n stays;
      })
      | inl taken ↦ rw taken (record {
        edges = λ k. (set-edges nodes st terminal k h).0;
        failures = λ k. (set-edges nodes st terminal k h).1;
        taken_from = λ k. rw (set-output nodes st terminal k h) (elim (Bool-cases (st == k)) [
          | inl same ↦ rw same (inr (ground arith, refl))
          | inr other ↦ rw other (inl refl)
        ]);
        size = length-set nodes st _;
        better_or_same = λ k i m w.
            rw (set-output nodes st terminal k h) (elim (Bool-cases (st == k)) [
              | inl same ↦
                  let q : k ≡ st = ground arith in
                  let w' = rw q at w in
                  rw same (prefer-NoWorse terminal (node_at nodes st).output i m taken w')
              | inr other ↦ rw other w
            ]);
        has =
            let same : (st == st) ≡ true = ground arith in
            rw (set-output nodes st terminal st h, same) mine;
      })
    ]
