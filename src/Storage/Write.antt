-- ===== src/Storage/Write.antt =====
-- src/storage.rs: the end that `set` and `push` share. A write is kept within the memory limit, or it
-- is taken back.
use aerugo_cache.Storage.Evict.Restore.{get-restore_entry, restore_entry-IsMap}
use mathlib.Core.Path.{subst}
use aerugo_cache.HashMap.Laws.{get-insert, insert-IsMap}
use aerugo_cache.Storage.Evict.Outcome.{EvictOutcome, Survives, evict_until_within_limit-Outcome}
use aerugo_cache.Prelude.Clock.{Clock}
use aerugo_cache.Storage.Evict.{
  Evicted, enforce_memory_limit, over_limit, evict_until_within_limit, is_candidate,
}
use aerugo_cache.Storage.Config.{
  StoreConfig, out_of_memory, all_keys_random, EvictionPolicy, no_eviction, StoreError,
}
use aerugo_cache.Storage.Entry.{
  Entries, Entry, estimated_memory_bytes, entry_estimated_memory_bytes,
}
use aerugo_cache.Storage.Store.{
  MemoryStore, settle, record_evicted, with_entries, record_rejected_write, finish_write,
}
use aerugo_cache.Prelude.{
  refl, [], none, some, inl, inr, true, false, arith, ok, err, ℕ, Bytes, ◌≡◌, ◌<◌, ◌≤◌, length, ◌+◌,
  Option-cases, Bool-cases, leb, leb→le, Result, bytes_eq, ◌⊎◌, Option, sym, bytes_eq_refl, ◌∙◌, ap,
}
use aerugo_cache.HashMap.{IsMap, get, insert}

-- A size within a limit, if there is one.
abbrev pub Fits : Option ℕ → ℕ → Type 0
Fits none n = Unit
Fits (some m) n = n ≤ m

-- The entries are within the configured limit.
abbrev pub WithinLimit : MemoryStore → Type 0
WithinLimit store = Fits store.config.max_memory_bytes (estimated_memory_bytes store.entries)

-- The limit is set, and the entry alone exceeds it.
abbrev pub ExceedsLimit : StoreConfig → Bytes → Entry → Type 0
ExceedsLimit config key e =
    (m : ℕ) × (config.max_memory_bytes ≡ some m) × (m < entry_estimated_memory_bytes key e)

-- What `enforce_memory_limit` leaves of the entries `before`, for a write of `e` under `key`.
abbrev pub EnforceOutcome : Entries → StoreConfig → Bytes → Entry → Evicted → Type 0
EnforceOutcome before config key e (ok evicted, left) =
    Fits config.max_memory_bytes (estimated_memory_bytes left)
    × Survives before left (some key)
    × (length evicted + length left ≡ length before)
    × IsMap left
EnforceOutcome before config key e (err x, left) =
    (x ≡ out_of_memory)
    × ((j : Bytes) → get j left ≡ get j before)
    × IsMap left
    × ((config.eviction_policy ≡ no_eviction) ⊎ ExceedsLimit config key e)

over_limit-Outcome :
    (entries : Entries) (config : StoreConfig) (key : Bytes) (e : Entry) (m : ℕ)
    → IsMap entries
    → config.max_memory_bytes ≡ some m
    → get key entries ≡ some e
    → (r : Evicted) → EvictOutcome entries (some key) m r
    → EnforceOutcome entries config key e r
over_limit-Outcome entries config key e m h limit found (ok evicted, left) o =
    (rw limit o.0, o.1, o.2, o.3)
over_limit-Outcome entries config key e m h limit found (err x, left) o =
    (o.0, o.1, o.2, (let (k, y, same, at_k, big) = o.3 in inr (m, limit, ground arith)))

module _ (entries : Entries) (config : StoreConfig) (p : Option Bytes) (clock : Clock) where
  enforce-unlimited :
      config.max_memory_bytes ≡ none
      → enforce_memory_limit entries config p clock ≡ (ok [], entries)
  unfolding enforce_memory_limit
  enforce-unlimited unlimited = rw unlimited

  enforce-fits :
      (m : ℕ)
      → config.max_memory_bytes ≡ some m
      → leb (estimated_memory_bytes entries) m ≡ true
      → enforce_memory_limit entries config p clock ≡ (ok [], entries)
  unfolding enforce_memory_limit
  enforce-fits m limit fits = rw (limit, fits)

  enforce-over :
      (m : ℕ)
      → config.max_memory_bytes ≡ some m
      → leb (estimated_memory_bytes entries) m ≡ false
      → enforce_memory_limit entries config p clock
        ≡ over_limit config.eviction_policy entries m p clock
  unfolding enforce_memory_limit
  enforce-over m limit over = rw (limit, over)

module _ (entries : Entries) (config : StoreConfig) (key : Bytes) (e : Entry) (clock : Clock)
    (h : IsMap entries) (found : get key entries ≡ some e) where
  by_policy :
      (m : ℕ)
      → config.max_memory_bytes ≡ some m
      → (policy : EvictionPolicy) → config.eviction_policy ≡ policy
      → EnforceOutcome entries config key e (over_limit policy entries m (some key) clock)
  by_policy m limit no_eviction is_policy = (refl, (λ j. refl), h, inl is_policy)
  by_policy m limit all_keys_random is_policy =
      over_limit-Outcome entries config key e m h limit found
        (evict_until_within_limit entries m (some key) clock)
        (evict_until_within_limit-Outcome entries m (some key) clock h)

  -- Whatever the policy: the limit holds, or the write is refused with every lookup as before.
  pub enforce_memory_limit-Outcome :
      EnforceOutcome entries config key e (enforce_memory_limit entries config (some key) clock)
  enforce_memory_limit-Outcome = elim (Option-cases config.max_memory_bytes) [
    | inl unlimited ↦
        subst P (sym (enforce-unlimited entries config (some key) clock unlimited))
          (rw unlimited tt, (λ j. inl refl), omega arith, h)
    | inr (m, limit) ↦ elim (Bool-cases (leb (estimated_memory_bytes entries) m)) [
      | inl fits ↦
          let small = leb→le _ _ fits in
          subst P (sym (enforce-fits entries config (some key) clock m limit fits))
            (rw limit small, (λ j. inl refl), omega arith, h)
      | inr over ↦
          subst P (sym (enforce-over entries config (some key) clock m limit over))
            (by_policy m limit config.eviction_policy refl)
    ]
  ]
    where
      P : Evicted → Type 0
      P = EnforceOutcome entries config key e

entries-record_evicted :
    (n : ℕ) (store : MemoryStore) → (record_evicted n store).entries ≡ store.entries
unfolding record_evicted
entries-record_evicted n store = ground arith

pub config-record_evicted :
    (n : ℕ) (store : MemoryStore) → (record_evicted n store).config ≡ store.config
unfolding record_evicted
config-record_evicted n store = ground arith

-- A write of `e` under `key` over the entries `live`, which the lazy expiry of `key` left.
-- Kept: within the limit, `e` in place, and of the other rows only evicted ones missing.
-- Taken back: out of memory, every lookup as in `live`, one more rejected write, and under random
-- eviction the row alone exceeds the limit.
abbrev pub WriteOutcome :
    {A : Type 0}
    → A
    → MemoryStore
    → Entries
    → Bytes
    → Entry
    → Result StoreError A × MemoryStore
    → Type 0
WriteOutcome a before live key e (ok r, after) =
    (r ≡ a)
    × WithinLimit after
    × (get key after.entries ≡ some e)
    × ((j : Bytes)
        → (bytes_eq key j ≡ true)
          ⊎ ((get j after.entries ≡ get j live) ⊎ (get j after.entries ≡ none)))
    × IsMap after.entries
    × ((n : ℕ) × (n + length after.entries ≡ length (insert key e live))
        × (after ≡ record_evicted n (with_entries before after.entries)))
WriteOutcome a before live key e (err x, after) =
    (x ≡ out_of_memory)
    × ((j : Bytes) → get j after.entries ≡ get j live)
    × IsMap after.entries
    × (after ≡ record_rejected_write (with_entries before after.entries))
    × ((before.config.eviction_policy ≡ no_eviction) ⊎ ExceedsLimit before.config key e)

settle-Outcome :
    {A : Type 0} (a : A) (before : MemoryStore) (live : Entries) (key : Bytes) (e : Entry)
    (r : Evicted)
    → EnforceOutcome (insert key e live) before.config key e r
    → WriteOutcome a before live key e (settle a before key (get key live) r)
unfolding is_candidate record_rejected_write
settle-Outcome a before live key e (ok evicted, left) o =
    let kept = entries-record_evicted (length evicted) (with_entries before left) in
    let same = config-record_evicted (length evicted) (with_entries before left) in
    let at_key = o.1 key in
    (
      refl,
      rw (kept, same) o.0,
      rw kept (ground (arith, get-insert key key e live, bytes_eq_refl key)),
      (λ j. rw kept (let at_j = o.1 j in ground (arith, get-insert key j e live))),
      rw kept o.3,
      (
        length evicted,
        rw kept o.2,
        ap (λ x. record_evicted (length evicted) (with_entries before x)) (sym kept),
      ),
    )
settle-Outcome a before live key e (err x, left) o = (
  o.0,
  (λ j. get-restore_entry live left key j (λ other. o.1 j ∙ rw (get-insert, other))),
  restore_entry-IsMap left key (get key live) o.2,
  refl,
  o.3,
)

-- The write that `set` and `push` end with.
pub finish_write-Outcome :
    {A : Type 0} (a : A) (before : MemoryStore) (live : Entries) (key : Bytes) (e : Entry)
    (clock : Clock)
    → IsMap live
    → WriteOutcome a before live key e
        (finish_write a before key (get key live) (insert key e live) clock)
unfolding finish_write
finish_write-Outcome a before live key e clock h =
    settle-Outcome a before live key e
      (enforce_memory_limit (insert key e live) before.config (some key) clock)
      (enforce_memory_limit-Outcome (insert key e live) before.config key e clock
        (insert-IsMap key e live h) (rw (get-insert, bytes_eq_refl)))
