-- ===== src/Tests/Strings.antt =====
-- src/storage.rs: SET, GET and the memory limit on a small store.
use aerugo_cache.Tests.Samples.{
  seconds_after_epoch, two_rows, evicting, two_rows-IsMap, full, key_l, key_a, row_a, roomy, row_l,
}
use aerugo_cache.HashMap.{keys, get, remove, insert}
use aerugo_cache.Storage.Strings.{string_entry, set-Outcome, get_string-set_self}
use aerugo_cache.Prelude.Words.{sum_from, wrapping_add}
use aerugo_cache.Prelude.Ascii.{codes}
use aerugo_cache.Prelude.Clock.{nanos_per_sec, subsec_nanos}
use aerugo_cache.Storage.Evict.{
  evict_until_within_limit, evict_loop, remove_if_expired, pick_eviction_key, is_candidate,
  enforce_memory_limit,
}
use aerugo_cache.Storage.Evict.Outcome.{EvictOutcome, evict_until_within_limit-Outcome}
use aerugo_cache.Storage.Write.{WriteOutcome}
use aerugo_cache.Storage.Store.{get_string, set, finish_write}
use aerugo_cache.Storage.Entry.{
  is_expired, estimated_memory_bytes, entry_estimated_memory_bytes, value_memory_bytes, item_bytes,
}
use aerugo_cache.Storage.Config.{out_of_memory}
use aerugo_cache.Prelude.{refl, [], ◌∷◌, some, ok, err, ◌≡◌, ◌*◌, ap, filter_by, bytes_eq}

-- SET

set-Outcome_example :
    WriteOutcome tt evicting
      (remove_if_expired two_rows (codes "b") (1 * nanos_per_sec))
      (codes "b")
      (string_entry (codes "2"))
      (set (seconds_after_epoch 1) (codes "b") (codes "2") evicting)
set-Outcome_example =
    set-Outcome (seconds_after_epoch 1) (codes "b") (codes "2") evicting two_rows-IsMap

set_stored : (set (seconds_after_epoch 1) key_a (codes "2") roomy).0 ≡ ok tt
unfolding set remove_if_expired is_expired get insert bytes_eq finish_write enforce_memory_limit
set_stored = refl

get_string-set_self_example :
    (get_string
      (seconds_after_epoch 5)
      key_a
      (set (seconds_after_epoch 1) key_a (codes "2") roomy).1).0
    ≡ ok (some (codes "2"))
get_string-set_self_example =
    get_string-set_self (seconds_after_epoch 1) (seconds_after_epoch 5) key_a (codes "2") roomy
      (set (seconds_after_epoch 1) key_a (codes "2") roomy).1 two_rows-IsMap
      (ap (λ r. (r, (set (seconds_after_epoch 1) key_a (codes "2") roomy).1)) set_stored)

set_rejected : (set (seconds_after_epoch 1) (codes "b") (codes "2") full).0 ≡ err out_of_memory
unfolding set remove_if_expired is_expired get insert bytes_eq finish_write enforce_memory_limit
    estimated_memory_bytes sum_from entry_estimated_memory_bytes value_memory_bytes item_bytes
    wrapping_add
set_rejected = refl

-- The memory limit

evict_until_within_limit-Outcome_example :
    EvictOutcome two_rows
      (some key_l)
      120
      (evict_until_within_limit two_rows 120 (some key_l) (seconds_after_epoch 1))
evict_until_within_limit-Outcome_example =
    evict_until_within_limit-Outcome two_rows 120 (some key_l) (seconds_after_epoch 1)
      two_rows-IsMap

evicts_the_string :
    evict_until_within_limit two_rows 120 (some key_l) (seconds_after_epoch 1)
    ≡ (ok (row_a ∷ []), row_l ∷ [])
unfolding evict_until_within_limit evict_loop estimated_memory_bytes sum_from
    entry_estimated_memory_bytes value_memory_bytes item_bytes wrapping_add pick_eviction_key
    filter_by keys is_candidate bytes_eq get remove subsec_nanos
evicts_the_string = refl
