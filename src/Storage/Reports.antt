-- ===== src/Storage/Reports.antt =====
-- src/storage.rs: the statistics of the key space, and the inspection of its keys.
pub mod Totals
pub mod Sorted
use aerugo_cache.Prelude.{
  ℕ, zero, suc, ◌-◌, Bool, true, false, ◌||◌, ◌&&◌, Option, List, [], ◌∷◌, map, Bytes, ltb, ◌==◌,
  is_some, if◌then◌else◌, length, take,
}
use aerugo_cache.Prelude.Int.{ℤ}
use aerugo_cache.Prelude.Words.{wrapping_add}
use aerugo_cache.Prelude.Clock.{Time, Clock}
use aerugo_cache.Storage.Config.{EvictionPolicy, StoreConfig}
use aerugo_cache.Storage.Entry.{
  string, list, Entry, Entries, type_name, payload_bytes, list_items, entry_estimated_memory_bytes,
  entry_ttl_seconds,
}
use aerugo_cache.Storage.Store.{
  MemoryStore, StoreCounters, with_entries, record_expired, retain_live,
}

pub record StoreStats : Type 0 where
  pub total_keys : ℕ
  pub string_keys : ℕ
  pub list_keys : ℕ
  pub expiring_keys : ℕ
  pub key_bytes : ℕ
  pub payload_bytes : ℕ
  pub estimated_memory_bytes : ℕ
  pub list_items : ℕ
  pub max_memory_bytes : Option ℕ
  pub eviction_policy : EvictionPolicy
  pub expired_keys_cleaned : ℕ
  pub evicted_keys : ℕ
  pub rejected_writes : ℕ

abbrev pub no_entries : ℕ → StoreConfig → StoreStats
no_entries total config = record {
  total_keys = total;
  string_keys = 0;
  list_keys = 0;
  expiring_keys = 0;
  key_bytes = 0;
  payload_bytes = 0;
  estimated_memory_bytes = 0;
  list_items = 0;
  max_memory_bytes = config.max_memory_bytes;
  eviction_policy = config.eviction_policy;
  expired_keys_cleaned = 0;
  evicted_keys = 0;
  rejected_writes = 0;
}

abbrev pub increment_if : Bool → ℕ → ℕ
increment_if true n = wrapping_add n 1
increment_if false n = n

abbrev pub is_string : Entry → Bool
is_string e = elim e.value [ string _ ↦ true | list _ ↦ false ]

abbrev pub is_list : Entry → Bool
is_list e = elim e.value [ string _ ↦ false | list _ ↦ true ]

-- One round of the loop of `build_stats`.
unfoldable pub add_entry : Bytes → Entry → StoreStats → StoreStats
add_entry key e stats = record stats {
  key_bytes = wrapping_add stats.key_bytes (length key);
  payload_bytes = wrapping_add stats.payload_bytes (payload_bytes e.value);
  estimated_memory_bytes =
      wrapping_add stats.estimated_memory_bytes (entry_estimated_memory_bytes key e);
  list_items = wrapping_add stats.list_items (list_items e.value);
  expiring_keys = increment_if (is_some e.expires_at) stats.expiring_keys;
  string_keys = increment_if (is_string e) stats.string_keys;
  list_keys = increment_if (is_list e) stats.list_keys;
}

unfoldable pub add_entries : Entries → StoreStats → StoreStats
add_entries [] stats = stats
add_entries ((key, e) ∷ entries) stats = add_entries entries (add_entry key e stats)

unfoldable pub build_stats : Entries → StoreConfig → StoreStats
build_stats entries config = add_entries entries (no_entries (length entries) config)

abbrev pub with_counters : StoreStats → StoreCounters → StoreStats
with_counters stats counters = record stats {
  expired_keys_cleaned = counters.expired_keys_cleaned;
  evicted_keys = counters.evicted_keys;
  rejected_writes = counters.rejected_writes;
}

-- The counters are read after the expired entries have been recorded.
unfoldable pub stats : Clock → MemoryStore → StoreStats × MemoryStore
stats clock store =
    let entries = retain_live (clock 0) store.entries in
    let expired = length store.entries - length entries in
    let after = record_expired expired (with_entries store entries) in
    (with_counters (build_stats entries store.config) after.counters, after)

pub record KeyInspection : Type 0 where
  pub key : Bytes
  pub value_type : Bytes
  pub ttl_seconds : ℤ
  pub payload_bytes : ℕ
  pub estimated_memory_bytes : ℕ
  pub list_items : ℕ

unfoldable pub inspect : Time → Bytes × Entry → KeyInspection
inspect now (key, e) = record {
  key = key;
  value_type = type_name e.value;
  ttl_seconds = entry_ttl_seconds e now;
  payload_bytes = payload_bytes e.value;
  estimated_memory_bytes = entry_estimated_memory_bytes key e;
  list_items = list_items e.value;
}

-- `str::cmp` compares the bytes in lexicographic order.
unfoldable pub bytes_lt : Bytes → Bytes → Bool
bytes_lt [] [] = false
bytes_lt [] (b ∷ bs) = true
bytes_lt (a ∷ as_) [] = false
bytes_lt (a ∷ as_) (b ∷ bs) = ltb a b || a == b && bytes_lt as_ bs

unfoldable pub insert_sorted : KeyInspection → List KeyInspection → List KeyInspection
insert_sorted row [] = row ∷ []
insert_sorted row (x ∷ xs) =
    if bytes_lt x.key row.key then x ∷ insert_sorted row xs else row ∷ x ∷ xs

-- `sort_by` on the keys, which is stable.
unfoldable pub sort_by_key : List KeyInspection → List KeyInspection
sort_by_key [] = []
sort_by_key (x ∷ xs) = insert_sorted x (sort_by_key xs)

unfoldable pub inspect_keys : Clock → ℕ → MemoryStore → List KeyInspection × MemoryStore
inspect_keys clock zero store = ([], store)
inspect_keys clock (suc n) store =
    let entries = retain_live (clock 0) store.entries in
    let expired = length store.entries - length entries in
    (
      take (suc n) (sort_by_key (map (inspect (clock 0)) entries)),
      record_expired expired (with_entries store entries),
    )
