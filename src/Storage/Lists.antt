-- ===== src/Storage/Lists.antt =====
-- src/storage.rs: the operations of `MemoryStore` on lists, and the ranges of LRANGE.
pub mod Deque
pub mod Range
use aerugo_cache.Prelude.{
  ℕ, ◌+◌, ◌-◌, ◌||◌, Option, none, some, List, [], ◌∷◌, ◌++◌, Bytes, Result, ok, err, ◌==◌,
  if◌then◌else◌, length, take, drop,
}
use aerugo_cache.Prelude.Int.{ℤ, pos, ◌+ℤ◌, ◌-ℤ◌, ltb_ℤ, leb_ℤ}
use aerugo_cache.Prelude.Words.{as_i64, as_usize}
use aerugo_cache.Prelude.Clock.{Time, Clock, later}
use aerugo_cache.HashMap.{get, insert, remove}
use aerugo_cache.Storage.Config.{StoreError, wrong_type}
use aerugo_cache.Storage.Entry.{Value, string, list, Entry, Entries}
use aerugo_cache.Storage.Evict.{remove_if_expired}
use aerugo_cache.Storage.Store.{MemoryStore, with_entries, finish_write}

pub data PushSide : Type 0 where
  left right : PushSide

pub data PopSide : Type 0 where
  left right : PopSide

-- `push_front` or `push_back`, for each value in turn.
unfoldable pub push_values : PushSide → List Bytes → List Bytes → List Bytes
push_values side [] l = l
push_values PushSide.left (value ∷ values) l = push_values PushSide.left values (value ∷ l)
push_values PushSide.right (value ∷ values) l = push_values PushSide.right values (l ++ value ∷ [])

-- `entry(key).or_insert_with(…)`
abbrev pub entry_or_list : Option Entry → Entry
entry_or_list none = record { value = list []; expires_at = none }
entry_or_list (some e) = e

abbrev pub push_into :
    Clock
    → Bytes
    → List Bytes
    → PushSide
    → MemoryStore
    → Entries
    → Option Time
    → Value
    → Result StoreError ℕ × MemoryStore
push_into clock key values side store entries expires_at (string _) =
    (err wrong_type, with_entries store entries)
push_into clock key values side store entries expires_at (list l) =
    let pushed = push_values side values l in
    finish_write (length pushed) store key (get key entries)
      (insert key (record { value = list pushed; expires_at = expires_at }) entries) (later 1 clock)

unfoldable pub push :
    Clock → Bytes → List Bytes → PushSide → MemoryStore → Result StoreError ℕ × MemoryStore
push clock key values side store =
    let entries = remove_if_expired store.entries key (clock 0) in
    let e = entry_or_list (get key entries) in
    push_into clock key values side store entries e.expires_at e.value

unfoldable pub lpush : Clock → Bytes → List Bytes → MemoryStore → Result StoreError ℕ × MemoryStore
lpush clock key values store = push clock key values PushSide.left store

unfoldable pub rpush : Clock → Bytes → List Bytes → MemoryStore → Result StoreError ℕ × MemoryStore
rpush clock key values store = push clock key values PushSide.right store

unfoldable pub pop_back : List Bytes → Option Bytes × List Bytes
pop_back [] = (none, [])
pop_back (x ∷ []) = (some x, [])
pop_back (x ∷ y ∷ xs) = let (last, rest) = pop_back (y ∷ xs) in (last, x ∷ rest)

unfoldable pub pop_value : PopSide → List Bytes → Option Bytes × List Bytes
pop_value PopSide.left [] = (none, [])
pop_value PopSide.left (x ∷ xs) = (some x, xs)
pop_value PopSide.right l = pop_back l

-- A list that has become empty is removed with its key.
abbrev pub put_rest : Bytes → Option Time → List Bytes → Entries → Entries
put_rest key expires_at [] entries = remove key entries
put_rest key expires_at (x ∷ xs) entries =
    insert key (record { value = list (x ∷ xs); expires_at = expires_at }) entries

abbrev pub pop_from :
    Bytes → PopSide → Entries → Option Entry → Result StoreError (Option Bytes) × Entries
pop_from key side entries none = (ok none, entries)
pop_from key side entries (some e) = elim e.value [
  | string _ ↦ (err wrong_type, entries)
  | list l ↦
      let (value, rest) = pop_value side l in (ok value, put_rest key e.expires_at rest entries)
]

unfoldable pub pop :
    Clock → Bytes → PopSide → MemoryStore → Result StoreError (Option Bytes) × MemoryStore
pop clock key side store =
    let live = remove_if_expired store.entries key (clock 0) in
    let (r, entries) = pop_from key side live (get key live) in (r, with_entries store entries)

unfoldable pub lpop : Clock → Bytes → MemoryStore → Result StoreError (Option Bytes) × MemoryStore
lpop clock key store = pop clock key PopSide.left store

unfoldable pub rpop : Clock → Bytes → MemoryStore → Result StoreError (Option Bytes) × MemoryStore
rpop clock key store = pop clock key PopSide.right store

-- An index from the end. A length is at most `isize::MAX`, so the sum does not overflow.
abbrev pub from_end : ℤ → ℤ → ℤ
from_end len i = if ltb_ℤ i (pos 0) then len +ℤ i else i

-- The rest of `normalize_range`, from the first clamp on.
unfoldable pub clamp_range : ℤ → ℤ → ℤ → Option (ℕ × ℕ)
clamp_range len from to =
    let start = if ltb_ℤ from (pos 0) then pos 0 else from in
    let stop = if leb_ℤ len to then len -ℤ pos 1 else to in
    if ltb_ℤ to (pos 0) || leb_ℤ len start
    then none
    else if leb_ℤ start stop
    then some (as_usize start, as_usize stop)
    else none

unfoldable pub normalize_range : ℕ → ℤ → ℤ → Option (ℕ × ℕ)
normalize_range length_of_list start stop =
    let len = as_i64 length_of_list in
    if length_of_list == 0 then none else clamp_range len (from_end len start) (from_end len stop)

abbrev pub slice : List Bytes → Option (ℕ × ℕ) → List Bytes
slice l none = []
slice l (some (start, stop)) = take (stop - start + 1) (drop start l)

abbrev pub range_of : ℤ → ℤ → Option Entry → Result StoreError (List Bytes)
range_of start stop none = ok []
range_of start stop (some e) = elim e.value [
  | string _ ↦ err wrong_type
  | list l ↦ ok (slice l (normalize_range (length l) start stop))
]

unfoldable pub lrange :
    Clock → Bytes → ℤ → ℤ → MemoryStore → Result StoreError (List Bytes) × MemoryStore
lrange clock key start stop store =
    let entries = remove_if_expired store.entries key (clock 0) in
    (range_of start stop (get key entries), with_entries store entries)
