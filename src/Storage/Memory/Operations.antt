-- ===== src/Storage/Memory/Operations.antt =====
-- src/storage.rs: an operation that stores nothing new takes no memory, and leaves the configuration.
use aerugo_cache.Storage.Memory.{
  memory_size, memory_size-retain, memory_size-remove, found_size, row_size, memory_size-insert,
}
use aerugo_cache.Storage.Entry.{Entries, Entry}
use aerugo_cache.Prelude.Clock.{Clock, Time}
use aerugo_cache.Storage.Reports.{stats, inspect_keys}
use aerugo_cache.Storage.Evict.{remove_if_expired}
use aerugo_cache.HashMap.{get, insert, remove}
use aerugo_cache.Storage.Store.{
  del, exists, expire_at, persist, ttl, cleanup_expired, exists_keys, record_expired, get_string,
  MemoryStore, del_keys, retain_live, with_entries, set_deadline, clear_deadline,
}
use aerugo_cache.Prelude.{
  none, some, refl, [], ◌∷◌, inl, inr, arith, zero, suc, Bytes, ℕ, List, ◌≡◌, Option, Bool-cases,
  ◌==◌, leb, ◌≤◌, is_some,
}

-- What an operation without growth does.
pub record Trims (before after : MemoryStore) : Type 0 where
  pub config : after.config ≡ before.config
  pub smaller : memory_size after.entries ≤ memory_size before.entries

pub trims :
    (store : MemoryStore) (entries : Entries)
    → memory_size entries ≤ memory_size store.entries
    → Trims store (with_entries store entries)
trims store entries h = record { config = refl; smaller = h }

pub memory_size-remove_if_expired :
    (entries : Entries) (key : Bytes) (now : Time)
    → memory_size (remove_if_expired entries key now) ≤ memory_size entries
unfolding remove_if_expired
memory_size-remove_if_expired entries key now = ground (arith, memory_size-remove key entries)

pub get_string-Trims :
    (clock : Clock) (key : Bytes) (store : MemoryStore) → Trims store (get_string clock key store).1
unfolding get_string
get_string-Trims clock key store =
    trims store _ (memory_size-remove_if_expired store.entries key (clock 0))

pub ttl-Trims :
    (clock : Clock) (key : Bytes) (store : MemoryStore) → Trims store (ttl clock key store).1
unfolding ttl
ttl-Trims clock key store =
    trims store _ (memory_size-remove_if_expired store.entries key (clock 0))

memory_size-del_keys :
    (now : Time) (ks : List Bytes) (entries : Entries)
    → memory_size (del_keys now ks entries).1 ≤ memory_size entries
unfolding del_keys
memory_size-del_keys now [] entries = omega arith
memory_size-del_keys now (key ∷ ks) entries =
    let live = remove_if_expired entries key now in
    omega (
      arith,
      memory_size-del_keys now ks (remove key live),
      memory_size-remove key live,
      memory_size-remove_if_expired entries key now,
    )

pub del-Trims :
    (clock : Clock) (ks : List Bytes) (store : MemoryStore) → Trims store (del clock ks store).1
unfolding del
del-Trims clock ks store = trims store _ (memory_size-del_keys (clock 0) ks store.entries)

memory_size-exists_keys :
    (now : Time) (ks : List Bytes) (entries : Entries)
    → memory_size (exists_keys now ks entries).1 ≤ memory_size entries
unfolding exists_keys
memory_size-exists_keys now [] entries = omega arith
memory_size-exists_keys now (key ∷ ks) entries = omega (
  arith,
  memory_size-exists_keys now ks (remove_if_expired entries key now),
  memory_size-remove_if_expired entries key now,
)

pub exists-Trims :
    (clock : Clock) (ks : List Bytes) (store : MemoryStore) → Trims store (exists clock ks store).1
unfolding exists
exists-Trims clock ks store = trims store _ (memory_size-exists_keys (clock 0) ks store.entries)

-- An entry with another deadline takes the same memory.
memory_size-redated :
    (key : Bytes) (e : Entry) (expires_at : Option Time) (entries : Entries)
    → get key entries ≡ some e
    → memory_size (insert key (record e { expires_at = expires_at }) entries) ≤ memory_size entries
memory_size-redated key e expires_at entries found =
    let size : found_size key (get key entries) ≡ row_size (key, e) = rw found in
    omega (arith, memory_size-insert key (record e { expires_at = expires_at }) entries)

memory_size-set_deadline :
    (key : Bytes) (deadline : Time) (entries : Entries) (o : Option Entry)
    → get key entries ≡ o
    → memory_size (set_deadline key deadline entries o).1 ≤ memory_size entries
memory_size-set_deadline key deadline entries none found = omega arith
memory_size-set_deadline key deadline entries (some e) found =
    memory_size-redated key e (some deadline) entries found

pub expire_at-Trims :
    (key : Bytes) (deadline now : Time) (store : MemoryStore)
    → Trims store (expire_at key deadline now store).1
unfolding expire_at
expire_at-Trims key deadline now store =
    let live = remove_if_expired store.entries key now in
    let less = memory_size-remove_if_expired store.entries key now in
    elim (Bool-cases (leb deadline now)) [
      | inl past ↦ rw past (trims store _ (omega (arith, memory_size-remove key live)))
      | inr future ↦ rw future (
          trims store _
            (omega (arith, memory_size-set_deadline key deadline live (get key live) refl)))
    ]

memory_size-clear_deadline :
    (key : Bytes) (entries : Entries) (o : Option Entry)
    → get key entries ≡ o
    → memory_size (clear_deadline key entries o).1 ≤ memory_size entries
memory_size-clear_deadline key entries none found = omega arith
memory_size-clear_deadline key entries (some e) found = elim (Bool-cases (is_some e.expires_at)) [
  | inl timed ↦ rw timed (memory_size-redated key e none entries found)
  | inr untimed ↦ rw untimed (omega arith)
]

pub persist-Trims :
    (clock : Clock) (key : Bytes) (store : MemoryStore) → Trims store (persist clock key store).1
unfolding persist
persist-Trims clock key store =
    let live = remove_if_expired store.entries key (clock 0) in
    trims store _ (
      omega (
        arith,
        memory_size-clear_deadline key live (get key live) refl,
        memory_size-remove_if_expired store.entries key (clock 0),
      ))

record_expired-Trims :
    (n : ℕ) (before store : MemoryStore)
    → Trims before store
    → Trims before (record_expired n store)
unfolding record_expired
record_expired-Trims n before store t = elim (Bool-cases (n == 0)) [
  | inl nothing ↦ rw nothing t
  | inr something ↦ rw something (record { config = t.config; smaller = t.smaller })
]

retained :
    (now : Time) (store : MemoryStore)
    → Trims store (with_entries store (retain_live now store.entries))
unfolding retain_live
retained now store = trims store _ (memory_size-retain _ store.entries)

pub stats-Trims : (clock : Clock) (store : MemoryStore) → Trims store (stats clock store).1
unfolding stats
stats-Trims clock store = record_expired-Trims _ store _ (retained (clock 0) store)

pub inspect_keys-Trims :
    (clock : Clock) (limit : ℕ) (store : MemoryStore)
    → Trims store (inspect_keys clock limit store).1
unfolding inspect_keys
inspect_keys-Trims clock zero store = record { config = refl; smaller = omega arith }
inspect_keys-Trims clock (suc n) store = record_expired-Trims _ store _ (retained (clock 0) store)

pub cleanup_expired-Trims :
    (clock : Clock) (store : MemoryStore) → Trims store (cleanup_expired clock store).1
unfolding cleanup_expired
cleanup_expired-Trims clock store = record_expired-Trims _ store _ (retained (clock 0) store)
