-- ===== src/Plan/Links/Finish.antt =====
-- plan.go: the failure links and the outputs behind the queue of `finish`.
use casei.Base.{
  ℕ, zero, suc, ◌+◌, true, false, some, none, List, [], ◌∷◌, arith, length, ◌≡◌, ◌<◌, ◌≤◌, refl, ap,
  take, inl, inr, Bool-cases, ◌∙◌, sym, ◌++◌, length-append,
}
use mathlib.Core.Path.{subst}
use casei.Plan.Trie.{PlanNode, PlanOutput, node_at, prefer_output}
use casei.Plan.Trie.Outputs.{preferred}
use casei.Plan.Trie.Tree.{edge_at, Tree}
use casei.Plan.Links.{Linked, link_children, children, link_all, link_states}
use casei.Plan.Links.Words.{state_of, state_of-injective}
use casei.Plan.Links.Climb.{Deepest}
use casei.Plan.Links.Inherit.{Inherits, root-Inherits, preferred-Inherits}
use casei.Plan.Links.Seen.{has, Done, Ranked, Seen, Covered, append-nil}
use casei.Plan.Links.Pigeonhole.{pigeonhole}
use casei.Plan.Links.Children.{Keys-All, look-child, child_of, children-apart}
use casei.Plan.Links.Queue.{Wave, append_assoc, Wave-Covered, Wave-step}

-- Every state but the root is in the queue, and all of the queue is done.
pub record Finished (base : List PlanNode) (l : Linked) : Type 0 where
  pub seen : Seen base l.nodes l.queue
  pub covered : (depth : ℕ) → Covered base l.queue depth

module _ (base : List PlanNode) (tree : Tree base) (root : 0 < length base) where
  -- The queue has room: the root is not in it.
  queue-short :
      (nodes : List PlanNode) (states : List ℕ)
      → Seen base nodes states
      → length states < length base
  queue-short nodes states seen =
      let away : has states 0 ≡ false = elim (Bool-cases (has states 0)) [
        | inl there ↦ let (up, below) = seen.inside 0 there in absurd (omega arith)
        | inr out ↦ out
      ] in
      let all = pigeonhole (length base) (0 ∷ states) (ground (arith, seen.distinct)) (λ k h.
        elim (Bool-cases (has states k)) [
          | inl there ↦ (seen.inside k there).1
          | inr out ↦ ground arith
        ]) in
      omega arith

  -- The states at one depth are used up: the next ones are those one deeper.
  next-Wave :
      (nodes : List PlanNode) (queue later : List ℕ) (depth : ℕ)
      → Wave base nodes queue [] later depth
      → Wave base nodes queue later [] (suc depth)
  next-Wave nodes queue later depth wave =
      let q : later ≡ later ++ [] = sym (append-nil later) in
      record {
        seen = subst (λ us. Seen base nodes (queue ++ us)) q wave.seen;
        here = wave.deeper;
        deeper = λ k there. absurd (cc);
        closed = λ k t c handled edge.
            subst (λ us. has (queue ++ us) c ≡ true) q (wave.closed k t c handled edge);
        parents =
            λ c there. wave.parents c (subst (λ us. has (queue ++ us) c ≡ true) (sym q) there);
      }

  -- Nothing waits.
  last-Finished :
      (nodes : List PlanNode) (queue : List ℕ) (depth : ℕ)
      → Wave base nodes queue [] [] depth
      → Finished base (record { nodes = nodes; queue = queue })
  last-Finished nodes queue depth wave =
      let q = append-nil queue in
      record {
        seen = subst (Seen base nodes) q wave.seen;
        covered = λ deep.
            subst (λ us. Covered base us deep) q
              (Wave-Covered base tree root nodes queue [] [] deep (record {
                seen = wave.seen;
                here = λ k there. absurd (cc);
                deeper = λ k there. absurd (cc);
                closed = wave.closed;
                parents = wave.parents;
              }));
      }

  -- With a round for each node the loop runs until nothing waits.
  link_all-Finished :
      (fuel : ℕ) (nodes : List PlanNode) (queue now later : List ℕ) (depth : ℕ)
      → Wave base nodes queue now later depth
      → length base ≤ fuel + length queue
      → Finished base (link_all fuel nodes queue (now ++ later))
  unfolding link_all
  link_all-Finished zero nodes queue now later depth wave room =
      let short = queue-short nodes (queue ++ (now ++ later)) wave.seen in
      let all = length-append queue (now ++ later) in absurd (omega arith)
  link_all-Finished (suc fuel) nodes queue [] [] depth wave room =
      last-Finished nodes queue depth wave
  link_all-Finished (suc fuel) nodes queue [] (x ∷ later) depth wave room =
      let longer = length-append queue (x ∷ []) in
      link_all-Finished fuel (link_children nodes x (node_at nodes x).edges) (queue ++ x ∷ []) later
        (children (node_at nodes x).edges) (suc depth)
        (Wave-step base tree root nodes queue later [] x (suc depth)
          (next-Wave nodes queue (x ∷ later) depth wave))
        (omega arith)
  link_all-Finished (suc fuel) nodes queue (x ∷ now) later depth wave room =
      let longer = length-append queue (x ∷ []) in
      let edges = (node_at nodes x).edges in
      subst (λ us. Finished base (link_all fuel (link_children nodes x edges) (queue ++ x ∷ []) us))
        (sym (append_assoc now later (children edges)))
        (link_all-Finished fuel (link_children nodes x edges) (queue ++ x ∷ []) now
          (later ++ children edges) depth
          (Wave-step base tree root nodes queue now later x depth wave) (omega arith))

  unlinked-Ranked : (before states : List ℕ) → Ranked base before states
  unlinked-Ranked before [] = tt
  unlinked-Ranked before (k ∷ states) =
      let z = tree.unlinked k in (rw z refl, unlinked-Ranked (before ++ k ∷ []) states)

  module _ (bare : (node_at base 0).output.pattern ≡ none) where
    bare-preferred : (o : PlanOutput) → preferred (node_at base 0).output o ≡ o
    unfolding prefer_output
    bare-preferred o = rw bare refl

    -- A child of the root is done from the start.
    first-Done :
        (token child : ℕ) → edge_at base 0 token ≡ some child → Done base base (token ∷ []) child
    unfolding state_of
    first-Done token child edge =
        let z = tree.unlinked child in
        let nothing : Deepest base [] 0 = record {
          units = 0;
          inside = omega arith;
          is = refl;
          most = λ m h le. absurd (omega arith);
        } in
        record {
          fails = λ n size.
              let q : 0 ≡ n = omega arith in
              subst (λ f. Deepest base (take n (token ∷ [])) f) (sym z)
                (subst (λ j. Deepest base (take j (token ∷ [])) 0) q nothing);
          inherits =
              subst (Inherits base (token ∷ [])) (bare-preferred (node_at base child).output) (
                preferred-Inherits base (token ∷ []) child 0 0 (node_at base 0).output edge refl
                  nothing (root-Inherits base));
        }

    first-Wave : Wave base base [] (children (node_at base 0).edges) [] 1
    unfolding state_of edge_at
    first-Wave =
        let edges = (node_at base 0).edges in
        let real = Keys-All edges (tree.keys 0) in
        let cs = children edges in
        let q : cs ≡ cs ++ [] = sym (append-nil cs) in
        let child = λ (k : ℕ) (there : has cs k ≡ true). child_of base tree 0 edges k real there in
        record {
          seen = subst (Seen base base) q (record {
            same = λ k. refl;
            size = refl;
            done = λ word k is there.
                let c = child k there in
                subst (λ w. Done base base w k)
                  (state_of-injective base tree (c.token ∷ []) word k c.edge is)
                  (first-Done c.token k c.edge);
            fresh = λ k away. refl;
            distinct = children-apart base tree 0 edges real (tree.keys 0);
            ranked = unlinked-Ranked [] cs;
            inside = λ k there. let c = child k there in tree.rising 0 c.token k c.edge;
          });
          here = λ k there.
              let c = child k there in record { word = c.token ∷ []; is = c.edge; size = refl };
          deeper = λ k there. absurd (cc);
          closed = λ k t c handled edge.
              let z : k ≡ 0 = ground arith in
              subst (λ us. has us c ≡ true) q
                (look-child edges t c (ap (λ j. edge_at base j t) (sym z) ∙ edge));
          parents = λ c there.
              let k = child c (subst (λ us. has us c ≡ true) (sym q) there) in
              record { from = 0; token = k.token; edge = k.edge; handled = refl };
        }

    -- If the nodes form a tree in which every edge goes to a later node, no node has two edges
    -- into it, no table has a key twice, no edge is on the token 0 and no failure link is set,
    -- and if the root has no output, then behind the loop of finish every state but the root is
    -- in the queue, none of them twice; the failure link of each leads to the state of the
    -- longest proper end of its word that has a state, which is the root or stands before it in
    -- the queue; and its output is the best of the outputs that the trie has for the ends of its
    -- word. The count of nodes is rounds enough for that.
    pub link_states-Finished : Finished base (link_states base)
    unfolding link_states
    link_states-Finished =
        subst (λ us. Finished base (link_all (length base) base [] us))
          (append-nil (children (node_at base 0).edges))
          (link_all-Finished (length base) base [] (children (node_at base 0).edges) [] 1 first-Wave
            (omega arith))
