-- ===== src/Plan/Roots/Marked.antt =====
-- The bytes that `finishFoldFilters` marks.
use mathlib.Core.Path.{subst}
use casei.Base.{
  ℕ, Bool, ◌||◌, ◌==◌, leb, if◌then◌else◌, zero, suc, ◌+◌, ◌-◌, true, false, List, [], ◌∷◌, arith,
  length, set, byte_at, ◌≡◌, ◌<◌, ltb, refl, inl, ap, replicate, inr, Bool-cases, ◌≢◌, ◌∙◌, ◌++◌,
  length-replicate, length-set, get_or-set_of_lt,
}
use casei.Utf8.{rune_self}
use casei.Plan.Tokens.{Table, Tokens}
use casei.Plan.Trie.{PlanNode, node_at}
use casei.Plan.Roots.{is_root_token, mark_roots, non_ascii_row, fill_ascii, finish_roots}
use casei.Filter.Skip.RootKind.{generic}
use casei.Plan.Roots.Kind.{agrees, collected-agrees}

length-fill_ascii :
    (runes : Table) (ascii : List ℕ) → length (fill_ascii runes ascii) ≡ length ascii
unfolding fill_ascii
length-fill_ascii [] ascii = refl
length-fill_ascii ((r, token) ∷ runes) ascii = elim (Bool-cases (ltb r rune_self)) [
  | inl low ↦ rw (low, length-fill_ascii runes (set ascii r token)) (length-set ascii r token)
  | inr high ↦ rw (high) (length-fill_ascii runes ascii)
]

set-other :
    (row : List ℕ) (i j v : ℕ) → j < length row → i ≢ j → byte_at (set row i v) j ≡ byte_at row j
set-other row i j v room apart =
    let off : (i == j) ≡ false = ground arith in rw (get_or-set_of_lt row i j v 0 room, off) refl

set-here : (row : List ℕ) (i j v : ℕ) → j < length row → i ≡ j → byte_at (set row i v) j ≡ v
set-here row i j v room same =
    let on : (i == j) ≡ true = ground arith in rw (get_or-set_of_lt row i j v 0 room, on) refl

module _ (accepts : ℕ → Bool) where
  module _ (token : ℕ) (tokens : List ℕ) (byte : ℕ) (row : List ℕ) where
    mark_roots-hit :
        accepts token ≡ true
        → mark_roots accepts (token ∷ tokens) byte row
          ≡ mark_roots accepts tokens (suc byte) (set row byte 1)
    unfolding mark_roots
    mark_roots-hit hit = rw hit refl

    mark_roots-miss :
        accepts token ≡ false
        → mark_roots accepts (token ∷ tokens) byte row ≡ mark_roots accepts tokens (suc byte) row
    unfolding mark_roots
    mark_roots-miss miss = rw miss refl

  mark_roots-before :
      (tokens : List ℕ) (byte j : ℕ) (row : List ℕ)
      → j < byte
      → j < length row
      → byte_at (mark_roots accepts tokens byte row) j ≡ byte_at row j
  unfolding mark_roots
  mark_roots-before [] byte j row before room = refl
  mark_roots-before (token ∷ tokens) byte j row before room = elim (Bool-cases (accepts token)) [
    | inl hit ↦
        let next =
          mark_roots-before tokens (suc byte) j (set row byte 1) (omega arith)
            (rw (length-set row byte 1) room) in
        rw (mark_roots-hit token tokens byte row hit, next)
          (set-other row byte j 1 room (omega arith))
    | inr miss ↦
        rw (mark_roots-miss token tokens byte row miss)
          (mark_roots-before tokens (suc byte) j row (omega arith) room)
  ]

  mark_roots-at :
      accepts 0 ≡ false
      → (tokens : List ℕ) (byte b : ℕ) (row : List ℕ) → byte + b < length row
      → byte_at (mark_roots accepts tokens byte row) (byte + b)
        ≡ (if accepts (byte_at tokens b) then 1 else byte_at row (byte + b))
  unfolding mark_roots
  mark_roots-at none_0 [] byte b row room = rw none_0 refl
  mark_roots-at none_0 (token ∷ tokens) byte zero row room = elim (Bool-cases (accepts token)) [
    | inl hit ↦
        let next =
          mark_roots-before tokens (suc byte) (byte + 0) (set row byte 1) (omega arith)
            (rw (length-set row byte 1) room) in
        rw (mark_roots-hit token tokens byte row hit, next, hit)
          (set-here row byte (byte + 0) 1 room (omega arith))
    | inr miss ↦
        rw (mark_roots-miss token tokens byte row miss, miss)
          (mark_roots-before tokens (suc byte) (byte + 0) row (omega arith) room)
  ]
  mark_roots-at none_0 (token ∷ tokens) byte (suc b) row room = elim (Bool-cases (accepts token)) [
    | inl hit ↦
        let next =
          mark_roots-at none_0 tokens (suc byte) b (set row byte 1)
            (rw (length-set row byte 1) (omega arith)) in
        let shift : suc byte + b ≡ byte + suc b = omega arith in
        let same = set-other row byte (byte + suc b) 1 room (omega arith) in
        let moved =
          subst
            (λ k.
              byte_at (mark_roots accepts tokens (suc byte) (set row byte 1)) k
              ≡ (if accepts (byte_at tokens b) then 1 else byte_at (set row byte 1) k))
            shift next in
        rw (mark_roots-hit token tokens byte row hit, moved, same) refl
    | inr miss ↦
        let shift : suc byte + b ≡ byte + suc b = omega arith in
        let next = mark_roots-at none_0 tokens (suc byte) b row (omega arith) in
        let moved =
          subst
            (λ k.
              byte_at (mark_roots accepts tokens (suc byte) row) k
              ≡ (if accepts (byte_at tokens b) then 1 else byte_at row k))
            shift next in
        rw (mark_roots-miss token tokens byte row miss, moved) refl
  ]

byte_at-replicate : (n v b : ℕ) → b < n → byte_at (replicate n v) b ≡ v
byte_at-replicate zero v b h = absurd (omega arith)
byte_at-replicate (suc n) v zero h = refl
byte_at-replicate (suc n) v (suc b) h = byte_at-replicate n v b (omega arith)

byte_at-append_low : (n v b : ℕ) (xs : List ℕ) → b < n → byte_at (replicate n v ++ xs) b ≡ v
byte_at-append_low zero v b xs h = absurd (omega arith)
byte_at-append_low (suc n) v zero xs h = refl
byte_at-append_low (suc n) v (suc b) xs h = byte_at-append_low n v b xs (omega arith)

byte_at-append_high :
    (n v b j : ℕ) (xs : List ℕ) → j ≡ n + b → byte_at (replicate n v ++ xs) j ≡ byte_at xs b
byte_at-append_high zero v b j xs e = ap (byte_at xs) (omega arith)
byte_at-append_high (suc n) v b zero xs e = absurd (omega arith)
byte_at-append_high (suc n) v b (suc j) xs e = byte_at-append_high n v b j xs (omega arith)

abbrev mark : Bool → ℕ → ℕ
mark y n = if y then 1 else n

either : (x y : Bool) → mark y (mark x 0) ≡ mark (x || y) 0
either true true = refl
either true false = refl
either false y = refl

non_ascii : (b : ℕ) → b < 256 → byte_at non_ascii_row b ≡ (if leb rune_self b then 1 else 0)
non_ascii b small = elim (Bool-cases (leb rune_self b)) [
  | inl high ↦
      let there : b ≡ 128 + (b - 128) = ground arith in
      rw high (
        byte_at-append_high 128 0 (b - 128) b (replicate 128 1) there
        ∙ byte_at-replicate 128 1 (b - 128) (omega arith))
  | inr low ↦ rw low (byte_at-append_low 128 0 b (replicate 128 1) (ground arith))
]

abbrev pub root_edges : List PlanNode → Table
root_edges nodes = (node_at nodes 0).edges

-- Where finishFoldFilters finds a root kind that is not the generic one, the kind and the needle
-- say of every byte whether it leaves the root: the byte, folded if the kind says so, is the
-- needle exactly if it has an ASCII token on which the root has an edge.
pub finish_roots-agrees :
    (t : Tokens) (nodes : List PlanNode) (b : ℕ)
    → b < 256
    → ¬ (finish_roots t nodes).root.0 ≡ generic
    → agrees (finish_roots t nodes).root b
      ≡ is_root_token (root_edges nodes) (byte_at (finish_roots t nodes).ascii b)
unfolding finish_roots
finish_roots-agrees t nodes b small known =
    let long = length-fill_ascii t.runes (replicate 128 0) in
    let ascii = fill_ascii t.runes (replicate 128 0) in
    collected-agrees (is_root_token (root_edges nodes)) ascii b refl
      (omega (arith, long, length-replicate {A = ℕ} 128 0)) small known

-- Behind the loops of finishFoldFilters the entry of rootByte is 1 for every byte that is not
-- ASCII and for every ASCII byte on whose token the root has an edge, and it is 0 for the other
-- bytes.
pub finish_roots-Marked :
    (t : Tokens) (nodes : List PlanNode) (b : ℕ)
    → b < 256
    → byte_at (finish_roots t nodes).root_byte b ≡ (
        if leb rune_self b
          || is_root_token (root_edges nodes) (byte_at (finish_roots t nodes).ascii b)
        then 1
        else 0)
unfolding finish_roots
finish_roots-Marked t nodes b small =
    let ascii = fill_ascii t.runes (replicate 128 0) in
    let marked =
      mark_roots-at (is_root_token (root_edges nodes)) refl ascii 0 b non_ascii_row (omega arith) in
    let start = non_ascii b small in
    let shift : 0 + b ≡ b = omega arith in
    let marked' =
      subst
        (λ k. byte_at (mark_roots (is_root_token (root_edges nodes)) ascii 0 non_ascii_row) k ≡ (
          if is_root_token (root_edges nodes) (byte_at ascii b)
          then 1
          else byte_at non_ascii_row k))
        shift marked in
    rw (marked', start)
      (either (leb rune_self b) (is_root_token (root_edges nodes) (byte_at ascii b)))
