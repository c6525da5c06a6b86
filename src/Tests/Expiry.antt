-- ===== src/Tests/Expiry.antt =====
-- src/storage.rs: deadlines, keys and reports on a small store.
use aerugo_cache.Tests.Samples.{two_rows, key_l, key_a, seconds_after_epoch, roomy, row_a}
use aerugo_cache.Storage.Reports.Sorted.{InOrder, inspect_keys_lem}
use aerugo_cache.Storage.Reports.Totals.{stats_lem}
use aerugo_cache.Storage.Reports.{stats, KeyInspection, inspect, inspect_keys}
use mathlib.Core.List.{Perm}
use aerugo_cache.Storage.Keys.{shows, exists_lem, distinct, contains, del_lem}
use aerugo_cache.Storage.Expiry.{
  has_deadline, without_deadline, with_deadline, persist_lem, expire_at_lem, ttl-expire,
  expire-overflow,
}
use aerugo_cache.HashMap.{get}
use aerugo_cache.Prelude.Clock.{as_secs, nanos_per_sec}
use aerugo_cache.Storage.Store.{ttl, expire_at, persist, del, exists, retain_live, expire}
use aerugo_cache.Storage.View.{view, live}
use aerugo_cache.Storage.Entry.{is_expired, estimated_memory_bytes}
use aerugo_cache.Storage.Config.{missing, seconds}
use aerugo_cache.Prelude.{
  refl, [], ◌∷◌, none, some, arith, ◌≡◌, Bytes, if◌then◌else◌, ◌*◌, leb, ◌+◌, filter_by, bytes_eq,
  is_some, length, ◌-◌, ◌^◌, List, map, take,
}

-- Deadlines

expire_at_lem_example :
    ((expire_at key_a (5 * nanos_per_sec) (1 * nanos_per_sec) roomy).0
      ≡ is_some (view (1 * nanos_per_sec) two_rows key_a))
    × ((j : Bytes)
        → get j (expire_at key_a (5 * nanos_per_sec) (1 * nanos_per_sec) roomy).1.entries ≡ (
            if bytes_eq key_a j
            then if leb (5 * nanos_per_sec) (1 * nanos_per_sec)
              then none
              else with_deadline (5 * nanos_per_sec) (view (1 * nanos_per_sec) two_rows key_a)
            else get j two_rows))
expire_at_lem_example = expire_at_lem key_a (5 * nanos_per_sec) (1 * nanos_per_sec) roomy

string_shows_later : view (1 * nanos_per_sec + 1) two_rows key_a ≡ some row_a.1
unfolding view live is_expired get bytes_eq
string_shows_later = refl

ttl-expire_example :
    (ttl (seconds_after_epoch 4) key_a (expire (seconds_after_epoch 1) key_a 10 roomy).1).0 ≡ (
      if leb (1 * nanos_per_sec + 10 * nanos_per_sec) (4 * nanos_per_sec)
      then missing
      else seconds (as_secs (1 * nanos_per_sec + 10 * nanos_per_sec - 4 * nanos_per_sec)))
unfolding as_secs
ttl-expire_example =
    ttl-expire (seconds_after_epoch 1) (seconds_after_epoch 4) key_a 10 row_a.1 roomy
      string_shows_later (omega arith) (omega arith)

expire-overflow_example :
    ((expire (seconds_after_epoch 1) key_a (2 ^ 63) roomy).0
      ≡ is_some (view (1 * nanos_per_sec + 1) two_rows key_a))
    × (get key_a (expire (seconds_after_epoch 1) key_a (2 ^ 63) roomy).1.entries ≡ none)
unfolding as_secs
expire-overflow_example =
    expire-overflow (seconds_after_epoch 1) key_a (2 ^ 63) roomy (omega arith) (omega arith)

persist_lem_example :
    ((persist (seconds_after_epoch 1) key_l roomy).0
      ≡ has_deadline (view (1 * nanos_per_sec) two_rows key_l))
    × ((j : Bytes)
        → get j (persist (seconds_after_epoch 1) key_l roomy).1.entries ≡ (
            if bytes_eq key_l j
            then without_deadline (view (1 * nanos_per_sec) two_rows key_l)
            else get j two_rows))
persist_lem_example = persist_lem (seconds_after_epoch 1) key_l roomy

-- Keys

del_lem_example :
    ((del (seconds_after_epoch 1) (key_a ∷ key_a ∷ []) roomy).0
      ≡ length (filter_by (shows (1 * nanos_per_sec) two_rows) (distinct (key_a ∷ key_a ∷ []))))
    × ((j : Bytes)
        → get j (del (seconds_after_epoch 1) (key_a ∷ key_a ∷ []) roomy).1.entries
          ≡ (if contains (key_a ∷ key_a ∷ []) j then none else get j two_rows))
del_lem_example = del_lem (seconds_after_epoch 1) (key_a ∷ key_a ∷ []) roomy

exists_lem_example :
    ((exists (seconds_after_epoch 1) (key_a ∷ key_l ∷ []) roomy).0
      ≡ length (filter_by (shows (1 * nanos_per_sec) two_rows) (key_a ∷ key_l ∷ [])))
    × ((j : Bytes)
        → view
            (1 * nanos_per_sec)
            (exists (seconds_after_epoch 1) (key_a ∷ key_l ∷ []) roomy).1.entries
            j
          ≡ view (1 * nanos_per_sec) two_rows j)
exists_lem_example = exists_lem (seconds_after_epoch 1) (key_a ∷ key_l ∷ []) roomy

-- Reports

stats_lem_example :
    let shown = retain_live (9 * nanos_per_sec) two_rows in
    ((stats (seconds_after_epoch 9) roomy).0.total_keys ≡ length shown)
    × ((stats (seconds_after_epoch 9) roomy).0.string_keys
          + (stats (seconds_after_epoch 9) roomy).0.list_keys
        ≡ length shown)
    × ((stats (seconds_after_epoch 9) roomy).0.estimated_memory_bytes
        ≡ estimated_memory_bytes shown)
    × ((stats (seconds_after_epoch 9) roomy).1.entries ≡ shown)
stats_lem_example = stats_lem (seconds_after_epoch 9) roomy (omega arith)

inspect_keys_lem_example :
    (sorted : List KeyInspection) × Perm sorted
      (map (inspect (1 * nanos_per_sec)) (retain_live (1 * nanos_per_sec) two_rows))
    × InOrder sorted
    × ((inspect_keys (seconds_after_epoch 1) 1 roomy).0 ≡ take 1 sorted)
inspect_keys_lem_example = inspect_keys_lem (seconds_after_epoch 1) 1 roomy
