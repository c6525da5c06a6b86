-- ===== src/Tests/Samples.antt =====
-- src/storage.rs: a small store, and what shows in it.
use aerugo_cache.HashMap.{get, IsMap}
use aerugo_cache.Prelude.Ascii.{codes}
use aerugo_cache.Prelude.Clock.{Clock, nanos_per_sec}
use aerugo_cache.Storage.Store.{MemoryStore}
use aerugo_cache.Storage.View.{view, live}
use aerugo_cache.Storage.Entry.{string, list, Entries, is_expired, Entry}
use aerugo_cache.Storage.Config.{no_eviction, all_keys_random, EvictionPolicy}
use aerugo_cache.Prelude.{refl, [], ◌∷◌, none, some, ◌≡◌, ℕ, Option, Bytes, ◌*◌, ◌+◌, bytes_eq}

abbrev pub seconds_after_epoch : ℕ → Clock
seconds_after_epoch n i = n * nanos_per_sec + i

abbrev pub key_a : Bytes
key_a = codes "a"

abbrev pub key_l : Bytes
key_l = codes "l"

-- 66 bytes with the string, 115 with the list.
abbrev pub row_a : Bytes × Entry
row_a = (key_a, record { value = string (codes "1"); expires_at = none })

abbrev pub row_l : Bytes × Entry
row_l = (
  key_l,
  record { value = list (codes "x" ∷ codes "y" ∷ []); expires_at = some (9 * nanos_per_sec) },
)

abbrev pub two_rows : Entries
two_rows = row_a ∷ row_l ∷ []

abbrev pub store_of : Option ℕ → EvictionPolicy → MemoryStore
store_of limit policy = record {
  entries = two_rows;
  config = record { max_memory_bytes = limit; eviction_policy = policy };
  counters = record { expired_keys_cleaned = 0; evicted_keys = 0; rejected_writes = 0 };
}

-- A store with no limit, one that has to evict, and one that has to refuse.
abbrev pub roomy : MemoryStore
roomy = store_of none no_eviction

abbrev pub evicting : MemoryStore
evicting = store_of (some 190) all_keys_random

abbrev pub full : MemoryStore
full = store_of (some 190) no_eviction

pub two_rows-IsMap : IsMap two_rows
unfolding get bytes_eq
two_rows-IsMap = (refl, (refl, tt))

pub list_shows : view (1 * nanos_per_sec) two_rows key_l ≡ some row_l.1
unfolding view live is_expired get bytes_eq
list_shows = refl

pub string_shows : view (1 * nanos_per_sec) two_rows key_a ≡ some row_a.1
unfolding view live is_expired get bytes_eq
string_shows = refl
