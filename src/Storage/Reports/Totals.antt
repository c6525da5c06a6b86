-- ===== src/Storage/Reports/Totals.antt =====
-- src/storage.rs, `build_stats` and `stats`: the figures of INFO against the rows.
use aerugo_cache.HashMap.{retain}
use aerugo_cache.Storage.Store.{MemoryStore, retain_live, record_expired, with_entries}
use aerugo_cache.Storage.Config.{StoreConfig}
use aerugo_cache.Prelude.Words.{wrapping_add, sum_from}
use aerugo_cache.Storage.Entry.{Entries, estimated_memory_bytes, Entry, row_memory_bytes}
use aerugo_cache.Prelude.Clock.{Clock, Time}
use aerugo_cache.Storage.Reports.{
  stats, add_entry, build_stats, add_entries, StoreStats, no_entries,
}
use aerugo_cache.Prelude.{refl, [], ◌∷◌, arith, Bytes, ◌≡◌, ◌+◌, length, ◌<◌, map, ◌^◌, ◌-◌, ℕ, ◌≤◌}

add_entries-memory :
    (entries : Entries) (s : StoreStats)
    → (add_entries entries s).estimated_memory_bytes
      ≡ sum_from s.estimated_memory_bytes (map row_memory_bytes entries)
unfolding add_entries add_entry sum_from
add_entries-memory [] s = refl
add_entries-memory ((key, e) ∷ entries) s = add_entries-memory entries (add_entry key e s)

add_entries-total :
    (entries : Entries) (s : StoreStats) → (add_entries entries s).total_keys ≡ s.total_keys
unfolding add_entries add_entry
add_entries-total [] s = refl
add_entries-total ((key, e) ∷ entries) s = add_entries-total entries (add_entry key e s)

add_entry-kinds :
    (key : Bytes) (e : Entry) (s : StoreStats)
    → s.string_keys + s.list_keys + 1 < 2 ^ 64
    → (add_entry key e s).string_keys + (add_entry key e s).list_keys
      ≡ s.string_keys + s.list_keys + 1
unfolding add_entry wrapping_add
add_entry-kinds key e s less = ground arith

add_entries-kinds :
    (entries : Entries) (s : StoreStats)
    → s.string_keys + s.list_keys + length entries < 2 ^ 64
    → (add_entries entries s).string_keys + (add_entries entries s).list_keys
      ≡ s.string_keys + s.list_keys + length entries
unfolding add_entries
add_entries-kinds [] s less = omega arith
add_entries-kinds ((key, e) ∷ entries) s less =
    let one = add_entry-kinds key e s (omega arith) in
    let rest = add_entries-kinds entries (add_entry key e s) (omega arith) in omega arith

build_stats-kinds :
    (entries : Entries) (config : StoreConfig)
    → length entries < 2 ^ 64
    → (build_stats entries config).string_keys + (build_stats entries config).list_keys
      ≡ length entries
unfolding build_stats
build_stats-kinds entries config less =
    let counted = add_entries-kinds entries (no_entries (length entries) config) (omega arith) in
    omega arith

build_stats-memory :
    (entries : Entries) (config : StoreConfig)
    → (build_stats entries config).estimated_memory_bytes ≡ estimated_memory_bytes entries
unfolding build_stats estimated_memory_bytes
build_stats-memory entries config = add_entries-memory entries (no_entries (length entries) config)

build_stats-total :
    (entries : Entries) (config : StoreConfig)
    → (build_stats entries config).total_keys ≡ length entries
unfolding build_stats
build_stats-total entries config = add_entries-total entries (no_entries (length entries) config)

length-retain_live :
    (now : Time) (entries : Entries) → length (retain_live now entries) ≤ length entries
unfolding retain_live retain
length-retain_live now [] = omega arith
length-retain_live now ((key, e) ∷ entries) = ground (arith, length-retain_live now entries)

entries-record_expired :
    (n : ℕ) (store : MemoryStore) → (record_expired n store).entries ≡ store.entries
unfolding record_expired
entries-record_expired n store = ground arith

-- INFO reports the rows that show: their number, which is the number of strings and of lists
-- together, and the memory that the limit is held against, where there are fewer than 2 ^ 64 rows.
-- The rows that do not show are removed.
pub stats_lem :
    (clock : Clock) (store : MemoryStore)
    → length store.entries < 2 ^ 64
    → let shown = retain_live (clock 0) store.entries in
      ((stats clock store).0.total_keys ≡ length shown)
      × ((stats clock store).0.string_keys + (stats clock store).0.list_keys ≡ length shown)
      × ((stats clock store).0.estimated_memory_bytes ≡ estimated_memory_bytes shown)
      × ((stats clock store).1.entries ≡ shown)
unfolding stats
stats_lem clock store less =
    let shown = retain_live (clock 0) store.entries in
    (
      build_stats-total shown store.config,
      build_stats-kinds shown store.config
          (omega (arith, length-retain_live (clock 0) store.entries)),
      build_stats-memory shown store.config,
      entries-record_expired (length store.entries - length shown) (with_entries store shown),
    )
