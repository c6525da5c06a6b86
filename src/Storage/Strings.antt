-- ===== src/Storage/Strings.antt =====
-- src/storage.rs: what SET writes and GET reads back.
use aerugo_cache.Prelude.Words.{wrapping_add}
use aerugo_cache.Storage.Evict.{remove_if_expired}
use aerugo_cache.Storage.Write.{WriteOutcome, finish_write-Outcome}
use aerugo_cache.Storage.View.{
  view, live, get-remove_if_expired_self, view-remove_if_expired, remove_if_expired-IsMap,
}
use aerugo_cache.Storage.Entry.{Entry, Entries, string, is_expired}
use aerugo_cache.Storage.Config.{StoreError, out_of_memory}
use aerugo_cache.Prelude.Clock.{Clock, later}
use aerugo_cache.Storage.Store.{get_string, MemoryStore, set, record_rejected_write, read_string}
use aerugo_cache.Prelude.{none, some, arith, ok, err, Bytes, ◌≡◌, Result, ap, ◌∙◌}
use aerugo_cache.HashMap.{IsMap, get}

-- The entry that `set` writes: a string with no deadline.
abbrev pub string_entry : Bytes → Entry
string_entry value = record { value = string value; expires_at = none }

-- SET, on entries with unique keys, ends in one of two ways. It stores the string with no deadline,
-- within the memory limit, and takes away only evicted rows. Or it is refused as out of memory,
-- with every lookup as the lazy expiry of the key left it, and only if there is no eviction or the
-- new row alone exceeds the limit. Keys stay unique.
pub set-Outcome :
    (clock : Clock) (key value : Bytes) (store : MemoryStore)
    → IsMap store.entries
    → WriteOutcome tt store
        (remove_if_expired store.entries key (clock 0))
        key
        (string_entry value)
        (set clock key value store)
unfolding set
set-Outcome clock key value store h =
    finish_write-Outcome tt store (remove_if_expired store.entries key (clock 0)) key
      (string_entry value) (later 1 clock) (remove_if_expired-IsMap store.entries key (clock 0) h)

WriteOutcome-ok :
    (before after : MemoryStore) (live : Entries) (key : Bytes) (e : Entry)
    (r : Result StoreError Unit × MemoryStore)
    → WriteOutcome tt before live key e r
    → r ≡ (ok tt, after)
    → get key after.entries ≡ some e
WriteOutcome-ok before after live key e (ok u, store) o same = ground arith
WriteOutcome-ok before after live key e (err x, store) o same = cc

-- GET after a SET that was accepted, on entries with unique keys, returns the value, at whatever
-- time.
pub get_string-set_self :
    (c d : Clock) (key value : Bytes) (store after : MemoryStore)
    → IsMap store.entries
    → set c key value store ≡ (ok tt, after)
    → (get_string d key after).0 ≡ ok (some value)
unfolding get_string view live is_expired
get_string-set_self c d key value store after h done =
    let stored =
      WriteOutcome-ok store after (remove_if_expired store.entries key (c 0)) key
        (string_entry value) (set c key value store) (set-Outcome c key value store h) done in
    rw (get-remove_if_expired_self after.entries key (d 0), stored)

-- A GET replies by what shows under its key, and changes nothing that shows.
pub get_string_lem :
    (clock : Clock) (key : Bytes) (store : MemoryStore)
    → ((get_string clock key store).0 ≡ read_string (view (clock 0) store.entries key))
      × ((j : Bytes)
          → view (clock 0) (get_string clock key store).1.entries j
            ≡ view (clock 0) store.entries j)
unfolding get_string
get_string_lem clock key store = (
  ap read_string (get-remove_if_expired_self store.entries key (clock 0)),
  (λ j. view-remove_if_expired store.entries key j (clock 0)),
)

WriteOutcome-err :
    (before after : MemoryStore) (live : Entries) (key : Bytes) (e : Entry) (x : StoreError)
    (r : Result StoreError Unit × MemoryStore)
    → WriteOutcome tt before live key e r
    → r ≡ (err x, after)
    → (x ≡ out_of_memory)
      × ((j : Bytes) → get j after.entries ≡ get j live)
      × (after.counters.rejected_writes ≡ wrapping_add before.counters.rejected_writes 1)
unfolding record_rejected_write
WriteOutcome-err before after live key e x (ok u, store) o same = cc
WriteOutcome-err before after live key e x (err y, store) o same =
    (ground arith, λ j. (let at_j = o.1 j in ground arith), ground arith)

-- A SET that is refused, on entries with unique keys, changes nothing that shows, under its own key
-- or another, is refused as out of memory, and is counted.
pub set-refused :
    (clock : Clock) (key value : Bytes) (store after : MemoryStore) (x : StoreError)
    → IsMap store.entries
    → set clock key value store ≡ (err x, after)
    → (x ≡ out_of_memory)
      × ((j : Bytes) → view (clock 0) after.entries j ≡ view (clock 0) store.entries j)
      × (after.counters.rejected_writes ≡ wrapping_add store.counters.rejected_writes 1)
set-refused clock key value store after x h refused =
    let left = remove_if_expired store.entries key (clock 0) in
    let (oom, same, counted) =
      WriteOutcome-err store after left key (string_entry value) x (set clock key value store)
        (set-Outcome clock key value store h) refused in
    (
      oom,
      (λ j.
          unfold view in
          ap (live (clock 0)) (same j) ∙ view-remove_if_expired store.entries key j (clock 0)),
      counted,
    )
