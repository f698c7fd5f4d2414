-- ===== src/Cache.antt =====
-- plan.go: `cachedSinglePlan`, the cache of one-pattern plans that all callers share. Each atomic
-- load or store is one action, so callers interleave action by action.
pub mod Sound
use casei.Base.{
  ℕ, zero, suc, ◌+◌, ◌*◌, ◌/◌, ◌-◌, ◌%◌, ◌^◌, Bool, true, false, Option, some, none, List, [], ◌∷◌,
  arith, bit_xor, ◌==◌, if◌then◌else◌, length, get_or, get_elem?, set, Bytes, byte_at, ◌≡◌,
}
use casei.Unicode.Forms.{same_bytes}

abbrev pub cache_slots : ℕ
cache_slots = 64

abbrev uint : ℕ → ℕ
uint n = n % 2 ^ 64

unfoldable pub cache_index : Bytes → ℕ
cache_index needle =
    let h = uint (length needle * 0x9e3779b1) in
    let h' = bit_xor h (uint (byte_at needle 0 * 0x85ebca6b)) in
    let h'' = bit_xor h' (uint (byte_at needle (length needle / 2) * 0xc2b2ae35)) in
    let h''' = bit_xor h'' (uint (byte_at needle (length needle - 1) * 0x27d4eb2f)) in
    (if length needle == 0 then h else h''') % cache_slots

-- `P` stands for `*searchPlan`, and `compile` for `newSearchPlan([]string{needle}, false)`.
module _ (P : Type 0) (compile : Bytes → P) where
  pub record CacheEntry : Type 0 where
    pub needle : Bytes
    pub plan : P

  -- The variables that the callers share; a nil pointer is none.
  pub record Shared : Type 0 where
    pub recent : Option CacheEntry
    pub slots : List (Option CacheEntry)

  -- Where a call for a needle stands: the action that is next, or its result.
  pub data Call : Type 0 where
    load_recent : Bytes → Call
    load_slot : Bytes → Call
    store_slot : Bytes → CacheEntry → Call
    store_recent : Bytes → CacheEntry → Call
    returned : Bytes → P → Call

  abbrev pub hit : Bytes → Option CacheEntry → Option CacheEntry
  hit needle none = none
  hit needle (some entry) = if same_bytes entry.needle needle then some entry else none

  abbrev pub after_recent : Bytes → Option CacheEntry → Call
  after_recent needle none = load_slot needle
  after_recent needle (some entry) = returned needle entry.plan

  abbrev pub after_slot : Bytes → Option CacheEntry → Call
  after_slot needle none = store_slot needle (record { needle = needle; plan = compile needle })
  after_slot needle (some entry) = store_recent needle entry

  -- One action of a call.
  unfoldable pub act : Shared → Call → Shared × Call
  act s (load_recent needle) = (s, after_recent needle (hit needle s.recent))
  act s (load_slot needle) =
      (s, after_slot needle (hit needle (get_or s.slots (cache_index needle) none)))
  act s (store_slot needle entry) = (
    record s { slots = set s.slots (cache_index needle) (some entry) },
    store_recent needle entry,
  )
  act s (store_recent needle entry) = (record s { recent = some entry }, returned needle entry.plan)
  act s (returned needle plan) = (s, returned needle plan)

  -- The shared variables and every call that has begun.
  pub record System : Type 0 where
    pub shared : Shared
    pub calls : List Call

  unfoldable pub act_at : System → ℕ → Call → System
  act_at s i call =
      let (shared, call') = act s.shared call in
      record { shared = shared; calls = set s.calls i call' }

  unfoldable pub begin_call : System → Bytes → System
  begin_call s needle = record s { calls = load_recent needle ∷ s.calls }

  -- What can happen: a call begins, or one of the calls acts.
  pub data Step : System → System → Type 0 where
    begins : {s : System} (needle : Bytes) → Step s (begin_call s needle)
    acts :
        {s : System} (i : ℕ) (call : Call)
        → get_elem? s.calls i ≡ some call
        → Step s (act_at s i call)
