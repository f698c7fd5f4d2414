-- ===== src/Plan/Links/Dense.antt =====
-- plan.go: the dense transitions of `finish`.
use casei.Base.{
  length-replicate, ℕ, ◌||◌, ◌==◌, leb, ◌/◌, true, some, List, [], ◌∷◌, arith, length, get_or, set,
  ◌≡◌, ◌<◌, ◌≤◌, ltb, refl, ap, replicate, take, inl, inr, Bool-cases, ◌∙◌, sym, ◌++◌, length-set,
  get_or-set,
}
use mathlib.Core.Path.{subst}
use mathlib.Core.Option.{some-injective}
use native.Mathlib.Nat.{div-le_self}
use casei.Plan.Trie.{PlanNode, node_at}
use casei.Plan.Trie.Tree.{Tree}
use casei.Plan.Links.{Linked, put_edges, fill_rows, make_dense, max_dense_transitions}
use casei.Plan.Links.Words.{state_of, state_of-depth, state_of-zero}
use casei.Plan.Links.Seen.{has, Ranked, Seen, has-snoc, snoc-append, append-nil}
use casei.Plan.Links.Finish.{Finished}
use casei.Plan.Links.Rows.{get_or_default, RowRight, root-RowRight, state-RowRight}

module _ (base : List PlanNode) (tree : Tree base) (root : 0 < length base) (stride : ℕ)
    (small : length base ≤ max_dense_transitions) where
  pub record RowsRight (rows : List (List ℕ)) (handled : List ℕ) : Type 0 where
    pub count : length rows ≡ length base
    pub rights :
        (word : List ℕ) (k : ℕ)
        → state_of base word ≡ some k
        → (k == 0 || has handled k) ≡ true
        → RowRight base tree root stride small word (get_or rows k [])

  -- The row that is made for a state of the queue.
  next-RowRight :
      (nodes : List PlanNode) (states handled : List ℕ) (rows : List (List ℕ)) (state : ℕ)
      (word : List ℕ)
      → Seen base nodes states
      → has states state ≡ true
      → ((node_at nodes state).failure == 0 || has handled (node_at nodes state).failure) ≡ true
      → RowsRight rows handled
      → state_of base word ≡ some state
      → RowRight base tree root stride small word (
          put_edges
            (get_or rows (node_at nodes state).failure (replicate stride 0))
            (node_at nodes state).edges)
  unfolding state_of
  next-RowRight nodes states handled rows state [] seen there before rs is =
      let (up, below) = seen.inside state there in
      let z : 0 ≡ state = some-injective _ _ is in absurd (omega arith)
  next-RowRight nodes states handled rows state (t ∷ w) seen there before rs is =
      let failure = (node_at nodes state).failure in
      let d = (seen.done (t ∷ w) state is there).fails (length w) refl in
      let again = take d.units (take (length w) (t ∷ w)) in
      let (deep, below) = state_of-depth base tree again failure root d.is in
      let count = rs.count in
      let default = get_or_default rows failure [] (replicate stride 0) (omega arith) in
      subst
        (λ es.
          RowRight base tree root stride small (t ∷ w)
            (put_edges (get_or rows failure (replicate stride 0)) es))
        (sym (seen.same state))
        (state-RowRight base tree root stride small (t ∷ w)
          (get_or rows failure (replicate stride 0)) state failure (length w) is refl d
          (subst (RowRight base tree root stride small again) default
            (rs.rights again failure d.is before)))

  fill_rows-RowsRight :
      (nodes : List PlanNode) (states handled queue : List ℕ) (rows : List (List ℕ))
      → Seen base nodes states
      → ((k : ℕ) → has queue k ≡ true → has states k ≡ true)
      → Ranked nodes handled queue
      → RowsRight rows handled
      → RowsRight (fill_rows stride nodes rows queue) (handled ++ queue)
  unfolding fill_rows
  fill_rows-RowsRight nodes states handled [] rows seen inside ranked rs =
      subst (RowsRight rows) (sym (append-nil handled)) rs
  fill_rows-RowsRight nodes states handled (state ∷ queue) rows seen inside ranked rs =
      let row =
        put_edges (get_or rows (node_at nodes state).failure (replicate stride 0))
          (node_at nodes state).edges in
      let here : has states state ≡ true = inside state (ground arith) in
      let (up, below) = seen.inside state here in
      let count = rs.count in
      let at = λ (k : ℕ). get_or-set rows state k row [] (omega arith) in
      subst (RowsRight (fill_rows stride nodes (set rows state row) queue))
        (snoc-append handled state queue)
        (fill_rows-RowsRight nodes states (handled ++ state ∷ []) queue (set rows state row) seen
          (λ k h. inside k (ground arith)) ranked.1
          (record {
            count = length-set rows state row ∙ rs.count;
            rights = λ word k is h. elim (Bool-cases (state == k)) [
              | inl this ↦
                  let q : state ≡ k = ground arith in
                  let at' : get_or (set rows state row) k [] ≡ row = let a = at k in rw this at a in
                  subst (RowRight base tree root stride small word) (sym at') (
                    next-RowRight nodes states handled rows state word seen here ranked.0 rs
                      (is ∙ ap some (sym q)))
              | inr other ↦
                  let at' : get_or (set rows state row) k [] ≡ get_or rows k [] =
                    let a = at k in rw other at a in
                  subst (RowRight base tree root stride small word) (sym at')
                    (rs.rights word k is (ground (arith, has-snoc handled state k)))
            ];
          }))

  -- The rows of all states.
  pub make_dense-RowsRight :
      (l : Linked) (rows : List (List ℕ))
      → Finished base l
      → make_dense stride l ≡ some rows
      → RowsRight rows l.queue
  unfolding make_dense
  make_dense-RowsRight l rows fin e =
      elim (Bool-cases (leb stride 1 || ltb (max_dense_transitions / stride) (length l.nodes))) [
        | inl none_made ↦ absurd (let e' = rw none_made at e in cc)
        | inr made ↦
            let empty_rows : List (List ℕ) = replicate (length l.nodes) (replicate stride 0) in
            let root_row = put_edges (replicate stride 0) (node_at l.nodes 0).edges in
            let size : length empty_rows ≡ length l.nodes = length-replicate (length l.nodes) _ in
            let size' = fin.seen.size in
            let e' : some (fill_rows stride l.nodes (set empty_rows 0 root_row) l.queue)
                ≡ some rows =
              rw made at e in
            let at = get_or-set empty_rows 0 0 root_row [] (omega arith) in
            subst (λ rs. RowsRight rs l.queue) (some-injective _ _ e')
              (fill_rows-RowsRight l.nodes l.queue [] l.queue (set empty_rows 0 root_row) fin.seen
                (λ k h. h) fin.seen.ranked
                (record {
                  count = length-set empty_rows 0 root_row ∙ size ∙ size';
                  rights = λ word k is h.
                      let z : 0 ≡ k = ground arith in
                      let empty = state_of-zero base tree word (is ∙ ap some (sym z)) in
                      subst
                        (λ w.
                          RowRight base tree root stride small w
                            (get_or (set empty_rows 0 root_row) k []))
                        (sym empty)
                        (subst
                          (λ j.
                            RowRight base tree root stride small []
                              (get_or (set empty_rows 0 root_row) j []))
                          z
                          (subst (RowRight base tree root stride small []) (sym at) (
                            subst
                              (λ es.
                                RowRight base tree root stride small []
                                  (put_edges (replicate stride 0) es))
                              (sym (fin.seen.same 0))
                              (root-RowRight base tree root stride small))));
                }))
      ]

-- Dense rows are made for few nodes only.
pub make_dense-small :
    (stride : ℕ) (l : Linked) (rows : List (List ℕ))
    → make_dense stride l ≡ some rows
    → length l.nodes ≤ max_dense_transitions
unfolding make_dense
make_dense-small stride l rows e =
    elim (Bool-cases (leb stride 1 || ltb (max_dense_transitions / stride) (length l.nodes))) [
      | inl none_made ↦ absurd (let e' = rw none_made at e in cc)
      | inr made ↦
          let low = div-le_self max_dense_transitions stride in
          let room : length l.nodes ≤ max_dense_transitions / stride = ground arith in omega arith
    ]
