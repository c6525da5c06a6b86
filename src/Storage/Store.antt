-- ===== src/Storage/Store.antt =====
-- src/storage.rs: `MemoryStore` and its operations on strings and keys. An operation takes the
-- readings of the clock during the call, and returns the store behind its result. It holds the write
-- lock of the entries throughout, so it is one step on them.
use aerugo_cache.Prelude.{
  ℕ, suc, ◌-◌, Bool, true, false, not, Option, none, some, List, [], ◌∷◌, Bytes, Result, ok, err,
  leb, ◌==◌, is_some, if◌then◌else◌, length,
}
use mathlib.Core.Option.{get_or}
use aerugo_cache.Prelude.Words.{wrapping_add}
use aerugo_cache.Prelude.Clock.{Time, Clock, later, as_secs, checked_add, duration_since}
use aerugo_cache.HashMap.{get, insert, remove, retain}
use aerugo_cache.Storage.Config.{
  StoreConfig, StoreError, wrong_type, default_config, Ttl, missing, no_expiration, seconds,
}
use aerugo_cache.Storage.Entry.{string, list, Entry, Entries, is_expired}
use aerugo_cache.Storage.Evict.{remove_if_expired, restore_entry, Evicted, enforce_memory_limit}

pub record StoreCounters : Type 0 where
  pub expired_keys_cleaned : ℕ
  pub evicted_keys : ℕ
  pub rejected_writes : ℕ

pub record MemoryStore : Type 0 where
  pub entries : Entries
  pub config : StoreConfig
  pub counters : StoreCounters

unfoldable pub with_config : StoreConfig → MemoryStore
with_config config = record {
  entries = [];
  config = config;
  counters = record { expired_keys_cleaned = 0; evicted_keys = 0; rejected_writes = 0 };
}

unfoldable pub new : MemoryStore
new = with_config default_config

abbrev pub with_entries : MemoryStore → Entries → MemoryStore
with_entries store entries = record store { entries = entries }

unfoldable pub record_expired : ℕ → MemoryStore → MemoryStore
record_expired count store = if count == 0 then store else record store {
  counters = record (store.counters) {
    expired_keys_cleaned = wrapping_add store.counters.expired_keys_cleaned count;
  };
}

unfoldable pub record_evicted : ℕ → MemoryStore → MemoryStore
record_evicted count store = if count == 0 then store else record store {
  counters = record (store.counters) {
    evicted_keys = wrapping_add store.counters.evicted_keys count;
  };
}

unfoldable pub record_rejected_write : MemoryStore → MemoryStore
record_rejected_write store = record store {
  counters = record (store.counters) {
    rejected_writes = wrapping_add store.counters.rejected_writes 1;
  };
}

-- The end of `set` and of `push`: a write that does not fit the memory limit is taken back.
abbrev pub settle :
    {A : Type 0}
    → A
    → MemoryStore
    → Bytes
    → Option Entry
    → Evicted
    → Result StoreError A × MemoryStore
settle a store key old (ok evicted, entries) =
    (ok a, record_evicted (length evicted) (with_entries store entries))
settle a store key old (err e, entries) =
    (err e, record_rejected_write (with_entries store (restore_entry entries key old)))

unfoldable pub finish_write :
    {A : Type 0}
    → A
    → MemoryStore
    → Bytes
    → Option Entry
    → Entries
    → Clock
    → Result StoreError A × MemoryStore
finish_write a store key old entries clock =
    settle a store key old (enforce_memory_limit entries store.config (some key) clock)

unfoldable pub set : Clock → Bytes → Bytes → MemoryStore → Result StoreError Unit × MemoryStore
set clock key value store =
    let entries = remove_if_expired store.entries key (clock 0) in
    finish_write tt store key (get key entries)
      (insert key (record { value = string value; expires_at = none }) entries) (later 1 clock)

abbrev pub read_string : Option Entry → Result StoreError (Option Bytes)
read_string none = ok none
read_string (some e) = elim e.value [ string value ↦ ok (some value) | list _ ↦ err wrong_type ]

unfoldable pub get_string :
    Clock → Bytes → MemoryStore → Result StoreError (Option Bytes) × MemoryStore
get_string clock key store =
    let entries = remove_if_expired store.entries key (clock 0) in
    (read_string (get key entries), with_entries store entries)

abbrev pub count_if : Bool → ℕ → ℕ
count_if true n = suc n
count_if false n = n

-- The `filter(…).count()` of `del`, over the keys from left to right.
unfoldable pub del_keys : Time → List Bytes → Entries → ℕ × Entries
del_keys now [] entries = (0, entries)
del_keys now (key ∷ ks) entries =
    let live = remove_if_expired entries key now in
    let (n, rest) = del_keys now ks (remove key live) in (count_if (is_some (get key live)) n, rest)

unfoldable pub del : Clock → List Bytes → MemoryStore → ℕ × MemoryStore
del clock ks store =
    let (n, entries) = del_keys (clock 0) ks store.entries in (n, with_entries store entries)

unfoldable pub exists_keys : Time → List Bytes → Entries → ℕ × Entries
exists_keys now [] entries = (0, entries)
exists_keys now (key ∷ ks) entries =
    let live = remove_if_expired entries key now in
    let (n, rest) = exists_keys now ks live in (count_if (is_some (get key live)) n, rest)

unfoldable pub exists : Clock → List Bytes → MemoryStore → ℕ × MemoryStore
exists clock ks store =
    let (n, entries) = exists_keys (clock 0) ks store.entries in (n, with_entries store entries)

abbrev pub set_deadline : Bytes → Time → Entries → Option Entry → Bool × Entries
set_deadline key deadline entries none = (false, entries)
set_deadline key deadline entries (some e) =
    (true, insert key (record e { expires_at = some deadline }) entries)

unfoldable pub expire_at : Bytes → Time → Time → MemoryStore → Bool × MemoryStore
expire_at key deadline now store =
    let live = remove_if_expired store.entries key now in
    let (done, entries) : Bool × Entries =
      if leb deadline now
      then (is_some (get key live), remove key live)
      else set_deadline key deadline live (get key live) in
    (done, with_entries store entries)

unfoldable pub expire : Clock → Bytes → ℕ → MemoryStore → Bool × MemoryStore
expire clock key secs store =
    expire_at key (get_or (checked_add (clock 0) secs) (clock 0)) (clock 1) store

-- `unwrap_or` has read the clock before it is known whether the reading is needed.
unfoldable pub expire_at_unix : Clock → Bytes → ℕ → MemoryStore → Bool × MemoryStore
expire_at_unix clock key unix_seconds store =
    expire_at key (get_or (checked_add 0 unix_seconds) (clock 0)) (clock 1) store

abbrev pub seconds_or_zero : Option ℕ → ℕ
seconds_or_zero none = 0
seconds_or_zero (some d) = as_secs d

abbrev pub ttl_of : Time → Option Entry → Ttl
ttl_of now none = missing
ttl_of now (some e) = elim e.expires_at [
  | none ↦ no_expiration
  | some deadline ↦ seconds (seconds_or_zero (duration_since deadline now))
]

unfoldable pub ttl : Clock → Bytes → MemoryStore → Ttl × MemoryStore
ttl clock key store =
    let entries = remove_if_expired store.entries key (clock 0) in
    (ttl_of (clock 0) (get key entries), with_entries store entries)

abbrev pub clear_deadline : Bytes → Entries → Option Entry → Bool × Entries
clear_deadline key entries none = (false, entries)
clear_deadline key entries (some e) =
    if is_some e.expires_at
    then (true, insert key (record e { expires_at = none }) entries)
    else (false, entries)

unfoldable pub persist : Clock → Bytes → MemoryStore → Bool × MemoryStore
persist clock key store =
    let live = remove_if_expired store.entries key (clock 0) in
    let (done, entries) = clear_deadline key live (get key live) in
    (done, with_entries store entries)

-- `entries.retain(|_, entry| !entry.is_expired(now))`
unfoldable pub retain_live : Time → Entries → Entries
retain_live now entries = retain (λ e. not (is_expired e now)) entries

unfoldable pub cleanup_expired : Clock → MemoryStore → ℕ × MemoryStore
cleanup_expired clock store =
    let entries = retain_live (clock 0) store.entries in
    let removed = length store.entries - length entries in
    (removed, record_expired removed (with_entries store entries))
