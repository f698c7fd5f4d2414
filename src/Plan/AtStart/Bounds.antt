-- ===== src/Plan/AtStart/Bounds.antt =====
-- each_root.go: the width of a match of `matchAtStart`.
use casei.Base.{
  ℕ, zero, suc, ◌+◌, ◌-◌, ◌<◌, ◌≤◌, Bool, ◌&&◌, Option, some, none, [], ◌∷◌, arith, leb, ◌==◌,
  length, drop, Bytes, ◌≡◌, Bool-cases, Option-cases, inl, inr,
}
use casei.Utf8.{decode_rune}
use casei.Utf8.Size.{decode-size}
use casei.Plan.Tokens.{look}
use casei.Plan.Trie.{PlanOutput, node_at}
use casei.Plan.Links.{SearchPlan}
use casei.Plan.AtStart.{haystack_token, Anchored, take_output, lower, anchored_loop, match_at_start}

decode_at-size :
    (s : Bytes) (at : ℕ)
    → at < length s
    → (1 ≤ (decode_rune (drop at s)).1) × (at + (decode_rune (drop at s)).1 ≤ length s)
decode_at-size [] at h = absurd (omega arith)
decode_at-size (x ∷ s) zero h = let (a, b) = decode-size x s in (a, omega arith)
decode_at-size (x ∷ s) (suc at) h =
    let (a, b) = decode_at-size s at (omega arith) in (a, omega arith)

pub haystack_token-size :
    (p : SearchPlan) (raw : Bool) (s : Bytes) (at : ℕ)
    → at < length s
    → (1 ≤ (haystack_token p raw s at).1) × (at + (haystack_token p raw s at).1 ≤ length s)
unfolding haystack_token
haystack_token-size p raw s at h = ground (arith, decode_at-size s at h)

-- The width that is kept lies inside the text.
Inside : Bytes → ℕ → Option Anchored → Type 0
Inside s start none = Unit
Inside s start (some a) = (1 ≤ a.width) × (start + a.width ≤ length s)

take_output-Inside :
    (s : Bytes) (start units width : ℕ) (output : PlanOutput) (best : Option Anchored)
    → 1 ≤ width
    → start + width ≤ length s
    → Inside s start best
    → Inside s start (take_output output units width best)
unfolding Inside
take_output-Inside s start units width output best lo hi b = elim (Option-cases output.pattern) [
  | inl missing ↦ rw missing b
  | inr (pattern, has) ↦ rw has (elim (Bool-cases (output.units == units && lower pattern best)) [
    | inl taken ↦ rw taken (lo, hi)
    | inr kept ↦ rw kept b
  ])
]

anchored_loop-Inside :
    (p : SearchPlan) (raw : Bool) (rounds units : ℕ) (s : Bytes) (start at state : ℕ)
    (best : Option Anchored)
    → start ≤ at
    → Inside s start best
    → Inside s start (anchored_loop p raw rounds units s start at state best)
unfolding anchored_loop
anchored_loop-Inside p raw zero units s start at state best h b = b
anchored_loop-Inside p raw (suc rounds) units s start at state best h b =
    elim (Bool-cases (leb (length s) at)) [
      | inl over ↦ rw over b
      | inr more ↦ rw more (elim (Bool-cases ((haystack_token p raw s at).0 == 0)) [
        | inl no_token ↦ rw no_token b
        | inr token ↦
            rw token
              (elim (Option-cases
                (look (node_at p.nodes state).edges (haystack_token p raw s at).0)) [
                  | inl no_edge ↦ rw no_edge b
                  | inr (next, edge) ↦
                      let (one, within) = haystack_token-size p raw s at (ground arith) in
                      let size = (haystack_token p raw s at).1 in
                      rw edge (
                        anchored_loop-Inside p raw rounds (suc units) s start (at + size) next
                          (take_output (node_at p.nodes next).output units (at + size - start) best)
                          (omega arith)
                          (take_output-Inside s start units (at + size - start)
                            (node_at p.nodes next).output best (omega arith) (omega arith) b))
                ])
      ])
    ]

-- A match that is replayed at a start has a width of one byte or more, and does not pass the end
-- of the text, whatever the tables of the plan hold.
pub match_at_start-bounds :
    (p : SearchPlan) (raw : Bool) (s : Bytes) (start : ℕ) (a : Anchored)
    → match_at_start p raw s start ≡ some a
    → (1 ≤ a.width) × (start + a.width ≤ length s)
unfolding match_at_start Inside
match_at_start-bounds p raw s start a e = elim (Bool-cases (leb (length s) start)) [
  | inl over ↦ let e' = rw over at e in absurd (cc)
  | inr more ↦
      let e' = rw more at e in
      let held = anchored_loop-Inside p raw p.max_units 1 s start start 0 none (omega arith) tt in
      rw e' at held
]
