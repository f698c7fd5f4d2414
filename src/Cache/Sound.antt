-- ===== src/Cache/Sound.antt =====
-- plan.go: the interleaved calls of `cachedSinglePlan`.
use casei.Base.{
  ℕ, zero, suc, true, Option, some, none, List, [], ◌∷◌, arith, get_or, get_elem?, set, replicate,
  Bytes, All, All-get_elem?, ◌≡◌, refl, sym, ap, ap₂, ◌∙◌, Bool-cases, inl, inr,
}
use casei.Unicode.Forms.{same_bytes}
use casei.Cache.{
  CacheEntry, Shared, Call, load_recent, load_slot, store_slot, store_recent, returned, hit,
  after_recent, after_slot, act, System, act_at, begin_call, Step, begins, acts, cache_slots,
  cache_index,
}

same_bytes-eq : (xs ys : Bytes) → same_bytes xs ys ≡ true → xs ≡ ys
unfolding same_bytes
same_bytes-eq [] [] h = refl
same_bytes-eq [] (y ∷ ys) h = absurd (cc)
same_bytes-eq (x ∷ xs) [] h = absurd (cc)
same_bytes-eq (x ∷ xs) (y ∷ ys) h =
    let here : x ≡ y = ground arith in
    ap₂ (λ a rest. a ∷ rest) here (same_bytes-eq xs ys (ground arith))

module _ (P : Type 0) (compile : Bytes → P) where
  -- The entry's plan is the one compiled from its needle.
  abbrev Honest : Option (CacheEntry P compile) → Type 0
  Honest none = Unit
  Honest (some entry) = entry.plan ≡ compile entry.needle

  -- What each stage of a call holds.
  abbrev Right : Call P compile → Type 0
  Right (load_recent needle) = Unit
  Right (load_slot needle) = Unit
  Right (store_slot needle entry) = (entry.needle ≡ needle) × (entry.plan ≡ compile needle)
  Right (store_recent needle entry) = (entry.needle ≡ needle) × (entry.plan ≡ compile needle)
  Right (returned needle plan) = plan ≡ compile needle

  record Sane (s : Shared P compile) : Type 0 where
    recent : Honest s.recent
    slots : All Honest s.slots

  -- A start with an empty cache, and the steps from it.
  abbrev fresh : System P compile
  fresh = record {
    shared = record { recent = none; slots = replicate cache_slots none };
    calls = [];
  }

  pub data Reaches : System P compile → Type 0 where
    starts : Reaches fresh
    steps : {s t : System P compile} → Reaches s → Step P compile s t → Reaches t

  All-set {ℓ} :
      {A : Type ℓ} (Q : A → Type 0) (xs : List A) (i : ℕ) (v : A)
      → All Q xs
      → Q v
      → All Q (set xs i v)
  All-set Q [] i v h q = tt
  All-set Q (x ∷ xs) zero v h q = (q, h.1)
  All-set Q (x ∷ xs) (suc i) v h q = (h.0, All-set Q xs i v h.1 q)

  get_or-Honest :
      (xs : List (Option (CacheEntry P compile))) (i : ℕ)
      → All Honest xs
      → Honest (get_or xs i none)
  get_or-Honest [] i h = tt
  get_or-Honest (x ∷ xs) zero h = h.0
  get_or-Honest (x ∷ xs) (suc i) h = get_or-Honest xs i h.1

  -- A hit is an entry for the needle.
  abbrev For : Bytes → Option (CacheEntry P compile) → Type 0
  For needle none = Unit
  For needle (some entry) = (entry.needle ≡ needle) × (entry.plan ≡ compile needle)

  hit-For :
      (needle : Bytes) (slot : Option (CacheEntry P compile))
      → Honest slot
      → For needle (hit P compile needle slot)
  hit-For needle none h = tt
  hit-For needle (some entry) h = elim (Bool-cases (same_bytes entry.needle needle)) [
    | inl same ↦ let e = same_bytes-eq entry.needle needle same in rw same (e, h ∙ ap compile e)
    | inr other ↦ rw other tt
  ]

  after_recent-Right :
      (needle : Bytes) (o : Option (CacheEntry P compile))
      → For needle o
      → Right (after_recent P compile needle o)
  after_recent-Right needle none h = tt
  after_recent-Right needle (some entry) h = h.1

  after_slot-Right :
      (needle : Bytes) (o : Option (CacheEntry P compile))
      → For needle o
      → Right (after_slot P compile needle o)
  after_slot-Right needle none h = (refl, refl)
  after_slot-Right needle (some entry) h = h

  act-Sane :
      (s : Shared P compile) (call : Call P compile)
      → Sane s
      → Right call
      → Sane (act P compile s call).0 × Right (act P compile s call).1
  unfolding act
  act-Sane s (load_recent needle) g r = (
    g,
    after_recent-Right needle (hit P compile needle s.recent) (hit-For needle s.recent g.recent),
  )
  act-Sane s (load_slot needle) g r =
      let slot = get_or s.slots (cache_index needle) none in
      (
        g,
        after_slot-Right needle (hit P compile needle slot)
            (hit-For needle slot (get_or-Honest s.slots (cache_index needle) g.slots)),
      )
  act-Sane s (store_slot needle entry) g r = (
    record {
      recent = g.recent;
      slots =
          All-set Honest s.slots (cache_index needle) (some entry) g.slots
            (r.1 ∙ ap compile (sym r.0));
    },
    r,
  )
  act-Sane s (store_recent needle entry) g r =
      (record { recent = r.1 ∙ ap compile (sym r.0); slots = g.slots }, r.1)
  act-Sane s (returned needle plan) g r = (g, r)

  record Invariant (s : System P compile) : Type 0 where
    shared : Sane s.shared
    calls : All Right s.calls

  Step-Invariant : {s t : System P compile} → Step P compile s t → Invariant s → Invariant t
  unfolding act_at begin_call
  Step-Invariant (begins needle) v = record { shared = v.shared; calls = (tt, v.calls) }
  Step-Invariant (acts {s} i call at) v =
      let (sane, right) =
        act-Sane s.shared call v.shared (All-get_elem? Right s.calls i v.calls at) in
      record {
        shared = sane;
        calls = All-set Right s.calls i (act P compile s.shared call).1 v.calls right;
      }

  replicate-Honest : (n : ℕ) → All Honest (replicate n none)
  replicate-Honest zero = tt
  replicate-Honest (suc n) = (tt, replicate-Honest n)

  Reaches-Invariant : {s : System P compile} → Reaches s → Invariant s
  Reaches-Invariant starts = record {
    shared = record { recent = tt; slots = replicate-Honest cache_slots };
    calls = tt;
  }
  Reaches-Invariant (steps path step) = Step-Invariant step (Reaches-Invariant path)

  -- In every state that calls can reach from an empty cache, in whatever order their loads and
  -- stores are interleaved, a call that has returned has the plan compiled from its own needle.
  pub Reaches-returned :
      {s : System P compile} (i : ℕ) (needle : Bytes) (plan : P)
      → Reaches s
      → get_elem? s.calls i ≡ some (returned needle plan)
      → plan ≡ compile needle
  Reaches-returned {s} i needle plan path at =
      All-get_elem? Right s.calls i (Reaches-Invariant path).calls at
