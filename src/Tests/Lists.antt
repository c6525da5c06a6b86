-- ===== src/Tests/Lists.antt =====
-- src/storage.rs: lists on a small store.
use aerugo_cache.Tests.Samples.{
  evicting, seconds_after_epoch, key_l, two_rows, roomy, two_rows-IsMap, list_shows,
}
use aerugo_cache.Storage.Lists.Range.{select_from, between, lrange_lem}
use aerugo_cache.HashMap.{get, insert}
use aerugo_cache.Prelude.Words.{as_i64, as_usize}
use aerugo_cache.Prelude.Ascii.{codes}
use aerugo_cache.Storage.Lists.Deque.{
  pushed_entry, push-Outcome, rest_entry, pop-push, pop_lem, IsTaken,
}
use aerugo_cache.Prelude.Clock.{nanos_per_sec}
use aerugo_cache.Storage.Evict.{remove_if_expired, enforce_memory_limit}
use aerugo_cache.Storage.Write.{WriteOutcome}
use aerugo_cache.Storage.Store.{finish_write}
use aerugo_cache.Storage.View.{view}
use aerugo_cache.Prelude.Int.{pos, negsuc, ◌+ℤ◌, ◌-ℤ◌}
use aerugo_cache.Storage.Lists.{
  PushSide, PopSide, push_values, push, pop, entry_or_list, lrange, normalize_range, clamp_range,
}
use aerugo_cache.Storage.Entry.{is_expired}
use aerugo_cache.Prelude.{
  refl, [], ◌∷◌, some, false, arith, ok, ◌≡◌, ℕ, Bytes, if◌then◌else◌, ◌*◌, ap, bytes_eq, Option,
  List,
}

-- Lists

push-Outcome_example :
    WriteOutcome 3 evicting
      (remove_if_expired two_rows key_l (1 * nanos_per_sec))
      key_l
      (pushed_entry PushSide.left
        (codes "z" ∷ [])
        (codes "x" ∷ codes "y" ∷ [])
        (some (9 * nanos_per_sec)))
      (push (seconds_after_epoch 1) key_l (codes "z" ∷ []) PushSide.left evicting)
push-Outcome_example =
    push-Outcome (seconds_after_epoch 1) key_l (codes "z" ∷ []) PushSide.left evicting
      (codes "x" ∷ codes "y" ∷ []) (some (9 * nanos_per_sec)) two_rows-IsMap
      (ap entry_or_list list_shows)

pop_lem_example :
    (taken : Option Bytes) × (rest : List Bytes) × IsTaken PopSide.right
      (codes "x" ∷ codes "y" ∷ [])
      taken
      rest
    × ((pop (seconds_after_epoch 1) key_l PopSide.right roomy).0 ≡ ok taken)
    × ((j : Bytes)
        → get j (pop (seconds_after_epoch 1) key_l PopSide.right roomy).1.entries ≡ (
            if bytes_eq key_l j
            then rest_entry rest (some (9 * nanos_per_sec))
            else get j two_rows))
pop_lem_example =
    pop_lem (seconds_after_epoch 1) key_l PopSide.right roomy (codes "x" ∷ codes "y" ∷ [])
      (some (9 * nanos_per_sec)) list_shows

push_stored : (push (seconds_after_epoch 1) key_l (codes "z" ∷ []) PushSide.right roomy).0 ≡ ok 3
unfolding push remove_if_expired is_expired get insert bytes_eq finish_write enforce_memory_limit
    push_values
push_stored = refl

still_fresh :
    is_expired
      (pushed_entry PushSide.right
        (codes "z" ∷ [])
        (codes "x" ∷ codes "y" ∷ [])
        (some (9 * nanos_per_sec)))
      (2 * nanos_per_sec)
    ≡ false
unfolding is_expired
still_fresh = refl

pop-push_example :
    let after = (push (seconds_after_epoch 1) key_l (codes "z" ∷ []) PushSide.right roomy).1 in
    (◌≡◌ {A = ℕ} 3 3)
    × ((pop (seconds_after_epoch 2) key_l PopSide.right after).0 ≡ ok (some (codes "z")))
    × (get key_l (pop (seconds_after_epoch 2) key_l PopSide.right after).1.entries
        ≡ rest_entry (codes "x" ∷ codes "y" ∷ []) (some (9 * nanos_per_sec)))
pop-push_example =
    pop-push (seconds_after_epoch 1) (seconds_after_epoch 2) key_l (codes "z") PushSide.right roomy
      (push (seconds_after_epoch 1) key_l (codes "z" ∷ []) PushSide.right roomy).1 3
      (codes "x" ∷ codes "y" ∷ []) (some (9 * nanos_per_sec)) two_rows-IsMap
      (ap entry_or_list list_shows)
      (ap (λ r. (r, (push (seconds_after_epoch 1) key_l (codes "z" ∷ []) PushSide.right roomy).1))
        push_stored)
      still_fresh

lrange_lem_example :
    ((lrange (seconds_after_epoch 1) key_l (negsuc 0) (pos 7) roomy).0
      ≡ ok (select_from 0 (between 2 (negsuc 0) (pos 7)) (codes "x" ∷ codes "y" ∷ [])))
    × ((j : Bytes)
        → view
            (1 * nanos_per_sec)
            (lrange (seconds_after_epoch 1) key_l (negsuc 0) (pos 7) roomy).1.entries
            j
          ≡ view (1 * nanos_per_sec) two_rows j)
lrange_lem_example =
    lrange_lem (seconds_after_epoch 1) key_l (negsuc 0) (pos 7) roomy (codes "x" ∷ codes "y" ∷ [])
      (some (9 * nanos_per_sec)) (omega arith) list_shows

last_element :
    (lrange (seconds_after_epoch 1) key_l (negsuc 0) (pos 7) roomy).0 ≡ ok (codes "y" ∷ [])
unfolding lrange remove_if_expired is_expired get bytes_eq normalize_range as_i64 clamp_range ◌+ℤ◌
    ◌-ℤ◌ as_usize
last_element = refl
