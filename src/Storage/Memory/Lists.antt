-- ===== src/Storage/Memory/Lists.antt =====
-- src/storage.rs: the memory of lists, pushed to and popped from.
use aerugo_cache.Prelude.Int.{ℤ}
use aerugo_cache.Storage.Evict.{remove_if_expired}
use aerugo_cache.Storage.Memory.Operations.{Trims, trims, memory_size-remove_if_expired}
use aerugo_cache.Storage.Store.{MemoryStore}
use aerugo_cache.Storage.Memory.{
  value_size, item_size, memory_size, memory_size-remove, found_size, row_size, memory_size-insert,
}
use aerugo_cache.Prelude.Clock.{Clock, Time}
use aerugo_cache.Prelude.Words.{exact_sum}
use aerugo_cache.Storage.Lists.{
  pop_back, pop, pop_value, push_values, PopSide, PushSide, pop_from, put_rest, lrange,
}
use aerugo_cache.HashMap.{get}
use aerugo_cache.Storage.Entry.{string, list, Entries, Value, Entry}
use aerugo_cache.Prelude.{
  none, some, refl, [], ◌∷◌, arith, Bytes, List, ℕ, map, Option, ◌≤◌, ◌++◌, ◌≡◌, ◌+◌,
}

exact_sum-append :
    (l : List Bytes) (v : Bytes)
    → exact_sum (map item_size (l ++ v ∷ [])) ≡ exact_sum (map item_size l) + item_size v
unfolding exact_sum
exact_sum-append [] v = omega arith
exact_sum-append (x ∷ l) v = omega (arith, exact_sum-append l v)

-- What the values of a push add.
unfoldable pub values_size : List Bytes → ℕ
values_size values = exact_sum (map item_size values)

pub value_size-push_values :
    (side : PushSide) (values l : List Bytes)
    → value_size (list (push_values side values l)) ≡ value_size (list l) + values_size values
unfolding push_values value_size values_size exact_sum
value_size-push_values side [] l = omega arith
value_size-push_values PushSide.left (v ∷ values) l =
    omega (arith, value_size-push_values PushSide.left values (v ∷ l))
value_size-push_values PushSide.right (v ∷ values) l =
    omega (arith, value_size-push_values PushSide.right values (l ++ v ∷ []), exact_sum-append l v)

pop_back-size : (l : List Bytes) → value_size (list (pop_back l).1) ≤ value_size (list l)
unfolding pop_back value_size exact_sum
pop_back-size [] = omega arith
pop_back-size (x ∷ []) = omega arith
pop_back-size (x ∷ y ∷ l) = omega (arith, pop_back-size (y ∷ l))

value_size-pop_value :
    (side : PopSide) (l : List Bytes) → value_size (list (pop_value side l).1) ≤ value_size (list l)
unfolding pop_value
value_size-pop_value PopSide.left [] = omega arith
value_size-pop_value PopSide.left (x ∷ l) = unfold value_size exact_sum in omega arith
value_size-pop_value PopSide.right l = pop_back-size l

memory_size-put_rest :
    (key : Bytes) (expires_at : Option Time) (rest l : List Bytes) (entries : Entries)
    → get key entries ≡ some (record { value = list l; expires_at = expires_at })
    → value_size (list rest) ≤ value_size (list l)
    → memory_size (put_rest key expires_at rest entries) ≤ memory_size entries
memory_size-put_rest key expires_at [] l entries found less =
    omega (arith, memory_size-remove key entries)
memory_size-put_rest key expires_at (x ∷ rest) l entries found less =
    let old : found_size key (get key entries)
        ≡ row_size (key, record { value = list l; expires_at = expires_at }) =
      rw found in
    omega (
      arith,
      memory_size-insert key (record { value = list (x ∷ rest); expires_at = expires_at }) entries,
    )

memory_size-pop_entry :
    (key : Bytes) (side : PopSide) (entries : Entries) (expires_at : Option Time) (v : Value)
    → get key entries ≡ some (record { value = v; expires_at = expires_at })
    → memory_size
        (pop_from key side entries (some (record { value = v; expires_at = expires_at }))).1
      ≤ memory_size entries
memory_size-pop_entry key side entries expires_at (string _) found = omega arith
memory_size-pop_entry key side entries expires_at (list l) found =
    memory_size-put_rest key expires_at (pop_value side l).1 l entries found
      (value_size-pop_value side l)

memory_size-pop_from :
    (key : Bytes) (side : PopSide) (entries : Entries) (o : Option Entry)
    → get key entries ≡ o
    → memory_size (pop_from key side entries o).1 ≤ memory_size entries
memory_size-pop_from key side entries none found = omega arith
memory_size-pop_from key side entries (some e) found =
    memory_size-pop_entry key side entries e.expires_at e.value found

pub pop-Trims :
    (clock : Clock) (key : Bytes) (side : PopSide) (store : MemoryStore)
    → Trims store (pop clock key side store).1
unfolding pop
pop-Trims clock key side store =
    let live = remove_if_expired store.entries key (clock 0) in
    trims store _ (
      omega (
        arith,
        memory_size-pop_from key side live (get key live) refl,
        memory_size-remove_if_expired store.entries key (clock 0),
      ))

pub lrange-Trims :
    (clock : Clock) (key : Bytes) (start stop : ℤ) (store : MemoryStore)
    → Trims store (lrange clock key start stop store).1
unfolding lrange
lrange-Trims clock key start stop store =
    trims store _ (memory_size-remove_if_expired store.entries key (clock 0))
