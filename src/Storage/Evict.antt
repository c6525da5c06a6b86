-- ===== src/Storage/Evict.antt =====
-- src/storage.rs: lazy removal of expired entries, rollback, and the memory limit.
pub mod Pick
pub mod Restore
pub mod Loop
pub mod Outcome
use aerugo_cache.Prelude.{
  ℕ, zero, suc, ◌%◌, Bool, true, not, Option, none, some, List, [], ◌∷◌, ◌++◌, Bytes, bytes_eq,
  Result, ok, err, leb, ◌==◌, if◌then◌else◌, length, get_elem?, filter_by,
}
use aerugo_cache.Prelude.Clock.{Time, Clock, later, subsec_nanos}
use aerugo_cache.HashMap.{get, insert, remove, keys}
use aerugo_cache.Storage.Config.{
  EvictionPolicy, no_eviction, all_keys_random, StoreConfig, StoreError, out_of_memory,
}
use aerugo_cache.Storage.Entry.{Entry, Entries, is_expired, estimated_memory_bytes}

unfoldable pub remove_if_expired : Entries → Bytes → Time → Entries
remove_if_expired entries key now = elim (get key entries) [
  | none ↦ entries
  | some e ↦ if is_expired e now then remove key entries else entries
]

unfoldable pub restore_entry : Entries → Bytes → Option Entry → Entries
restore_entry entries key (some e) = insert key e entries
restore_entry entries key none = remove key entries

-- `protected_key != Some(key)`
unfoldable pub is_candidate : Option Bytes → Bytes → Bool
is_candidate none key = true
is_candidate (some protected) key = not (bytes_eq protected key)

-- The reading of the clock chooses among the candidates.
unfoldable pub pick_eviction_key : Entries → Option Bytes → Time → Option Bytes
pick_eviction_key entries protected_key now =
    let candidates = filter_by (is_candidate protected_key) (keys entries) in
    if length candidates == 0
    then none
    else get_elem? candidates (subsec_nanos now % length candidates)

unfoldable pub restore_evicted : Entries → List (Bytes × Entry) → Entries
restore_evicted entries [] = entries
restore_evicted entries ((key, e) ∷ evicted) = restore_evicted (insert key e entries) evicted

-- The result of a routine that changes the entries in place: what it returns, and the entries.
abbrev pub Evicted : Type 0
Evicted = Result StoreError (List (Bytes × Entry)) × Entries

-- The `if let Some(entry) = entries.remove(&key)` of the loop: the evicted rows after it.
abbrev pub push_evicted : Bytes → Option Entry → List (Bytes × Entry) → List (Bytes × Entry)
push_evicted key none evicted = evicted
push_evicted key (some e) evicted = evicted ++ (key, e) ∷ []

-- The `while` loop, on fuel. Each round removes an entry, so one more round than there are entries
-- is enough: `evict_loop-fuel` and `evict_loop_lem` of the module Evict.Loop.
unfoldable pub evict_loop : ℕ → Entries → ℕ → Option Bytes → Clock → List (Bytes × Entry) → Evicted
evict_loop zero entries max_memory_bytes protected_key clock evicted = (ok evicted, entries)
evict_loop (suc fuel) entries max_memory_bytes protected_key clock evicted =
    let round : Evicted = elim (pick_eviction_key entries protected_key (clock 0)) [
      | none ↦ (err out_of_memory, restore_evicted entries evicted)
      | some key ↦
          evict_loop fuel (remove key entries) max_memory_bytes protected_key (later 1 clock)
            (push_evicted key (get key entries) evicted)
    ] in
    if leb (estimated_memory_bytes entries) max_memory_bytes then (ok evicted, entries) else round

unfoldable pub evict_until_within_limit : Entries → ℕ → Option Bytes → Clock → Evicted
evict_until_within_limit entries max_memory_bytes protected_key clock =
    evict_loop (suc (length entries)) entries max_memory_bytes protected_key clock []

abbrev pub over_limit : EvictionPolicy → Entries → ℕ → Option Bytes → Clock → Evicted
over_limit no_eviction entries max_memory_bytes protected_key clock = (err out_of_memory, entries)
over_limit all_keys_random entries max_memory_bytes protected_key clock =
    evict_until_within_limit entries max_memory_bytes protected_key clock

unfoldable pub enforce_memory_limit : Entries → StoreConfig → Option Bytes → Clock → Evicted
enforce_memory_limit entries config protected_key clock = elim config.max_memory_bytes [
  | none ↦ (ok [], entries)
  | some max_memory_bytes ↦
      if leb (estimated_memory_bytes entries) max_memory_bytes
      then (ok [], entries)
      else over_limit config.eviction_policy entries max_memory_bytes protected_key clock
]
