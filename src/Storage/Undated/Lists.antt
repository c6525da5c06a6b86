-- ===== src/Storage/Undated/Lists.antt =====
-- src/storage.rs: the operations on lists on a store without limit and deadlines.
use aerugo_cache.Storage.Undated.Operations.{Plainly, given}
use aerugo_cache.Storage.Undated.{
  Plain, Timeless, with_entries-Plain, Undated, get-Timeless, finish_write-Plain,
  remove_if_expired-Undated, insert-Undated, remove-Undated,
}
use aerugo_cache.Prelude.Clock.{Time, Clock, later}
use aerugo_cache.Storage.Store.{MemoryStore, with_entries}
use aerugo_cache.HashMap.{get, insert}
use aerugo_cache.Storage.Entry.{string, list, Entries, Entry, Value}
use aerugo_cache.Storage.Lists.{
  PushSide, PopSide, push, pop, entry_or_list, pop_from, push_into, pop_value, put_rest,
  push_values,
}
use aerugo_cache.Storage.Config.{wrong_type, StoreError}
use aerugo_cache.Prelude.{
  refl, [], ◌∷◌, none, some, ok, err, Bytes, Option, List, ◌≡◌, Result, length, ℕ, ◌∙◌, sym, ap,
}

entry_or_list-Timeless : (o : Option Entry) → Timeless o → (entry_or_list o).expires_at ≡ none
entry_or_list-Timeless none h = refl
entry_or_list-Timeless (some e) h = h

put_rest-Undated :
    (key : Bytes) (expires_at : Option Time) (rest : List Bytes) (entries : Entries)
    → expires_at ≡ none
    → Undated entries
    → Undated (put_rest key expires_at rest entries)
put_rest-Undated key expires_at [] entries h u = remove-Undated key entries u
put_rest-Undated key expires_at (x ∷ xs) entries h u = insert-Undated key _ entries h u

pop_entry-Undated :
    (key : Bytes) (side : PopSide) (entries : Entries) (expires_at : Option Time) (v : Value)
    → expires_at ≡ none
    → Undated entries
    → Undated (pop_from key side entries (some (record { value = v; expires_at = expires_at }))).1
pop_entry-Undated key side entries expires_at (string _) h u = u
pop_entry-Undated key side entries expires_at (list l) h u =
    put_rest-Undated key expires_at (pop_value side l).1 entries h u

pop_from-Undated :
    (key : Bytes) (side : PopSide) (entries : Entries) (o : Option Entry)
    → Timeless o
    → Undated entries
    → Undated (pop_from key side entries o).1
pop_from-Undated key side entries none h u = u
pop_from-Undated key side entries (some e) h u =
    pop_entry-Undated key side entries e.expires_at e.value h u

-- What `push` returns and leaves.
pushed_plainly :
    Bytes
    → List Bytes
    → PushSide
    → MemoryStore
    → Option Time
    → Value
    → Result StoreError ℕ × MemoryStore
pushed_plainly key values side store expires_at (string _) = (err wrong_type, store)
pushed_plainly key values side store expires_at (list l) = (
  ok (length (push_values side values l)),
  with_entries store (
      insert key (record { value = list (push_values side values l); expires_at = expires_at })
        store.entries),
)

module _ (store : MemoryStore) (p : Plain store) where
  push_into-given :
      (clock : Clock) (key : Bytes) (values : List Bytes) (side : PushSide)
      (expires_at : Option Time) (v : Value)
      → push_into clock key values side store store.entries expires_at v
        ≡ pushed_plainly key values side store expires_at v
  unfolding pushed_plainly
  push_into-given clock key values side expires_at (string _) = refl
  push_into-given clock key values side expires_at (list l) =
      finish_write-Plain (length (push_values side values l)) store key (get key store.entries) _
        (later 1 clock) p

  pushed_plainly-Plain :
      (key : Bytes) (values : List Bytes) (side : PushSide) (expires_at : Option Time) (v : Value)
      → expires_at ≡ none
      → Plain (pushed_plainly key values side store expires_at v).1
  unfolding pushed_plainly
  pushed_plainly-Plain key values side expires_at (string _) h = p
  pushed_plainly-Plain key values side expires_at (list l) h =
      with_entries-Plain store _ p (insert-Undated key _ store.entries h p.undated)

  push-given :
      (key : Bytes) (values : List Bytes) (side : PushSide) (clock : Clock)
      → push clock key values side store
        ≡ pushed_plainly key values side store
            (entry_or_list (get key store.entries)).expires_at
            (entry_or_list (get key store.entries)).value
  unfolding push
  push-given key values side clock =
      rw (remove_if_expired-Undated store.entries key (clock 0) p.undated) (
        push_into-given clock key values side (entry_or_list (get key store.entries)).expires_at
          (entry_or_list (get key store.entries)).value)

  pub push-Plainly :
      (key : Bytes) (values : List Bytes) (side : PushSide)
      → Plainly (λ c. push c key values side store)
  push-Plainly key values side = given _ _ (push-given key values side) (
      pushed_plainly-Plain key values side _ _
        (entry_or_list-Timeless (get key store.entries) (get-Timeless key store.entries p.undated)))

  pop-given :
      (key : Bytes) (side : PopSide) (clock : Clock)
      → pop clock key side store ≡ (
        (pop_from key side store.entries (get key store.entries)).0,
        with_entries store (pop_from key side store.entries (get key store.entries)).1,
      )
  unfolding pop
  pop-given key side clock = rw (remove_if_expired-Undated store.entries key (clock 0) p.undated)

  pub pop-Plainly : (key : Bytes) (side : PopSide) → Plainly (λ c. pop c key side store)
  pop-Plainly key side = given _ _ (pop-given key side) (
      with_entries-Plain store _ p (
        pop_from-Undated key side store.entries (get key store.entries)
          (get-Timeless key store.entries p.undated) p.undated))

  pushed_plainly-failed :
      (key : Bytes) (values : List Bytes) (side : PushSide) (expires_at : Option Time) (v : Value)
      (e : StoreError) (after : MemoryStore)
      → pushed_plainly key values side store expires_at v ≡ (err e, after)
      → after ≡ store
  unfolding pushed_plainly
  pushed_plainly-failed key values side expires_at (string _) e after h = sym (ap (λ r. r.1) h)
  pushed_plainly-failed key values side expires_at (list l) e after h = cc

  pub push-failed :
      (key : Bytes) (values : List Bytes) (side : PushSide) (clock : Clock) (e : StoreError)
      (after : MemoryStore)
      → push clock key values side store ≡ (err e, after)
      → after ≡ store
  push-failed key values side clock e after h =
      pushed_plainly-failed key values side _ _ e after (sym (push-given key values side clock) ∙ h)

  pop_entry-failed :
      (key : Bytes) (side : PopSide) (expires_at : Option Time) (v : Value) (e : StoreError)
      → (pop_from key side store.entries (some (record { value = v; expires_at = expires_at }))).0
        ≡ err e
      → (pop_from key side store.entries (some (record { value = v; expires_at = expires_at }))).1
        ≡ store.entries
  pop_entry-failed key side expires_at (string _) e h = refl
  pop_entry-failed key side expires_at (list l) e h = cc

  pop_from-failed :
      (key : Bytes) (side : PopSide) (o : Option Entry) (e : StoreError)
      → (pop_from key side store.entries o).0 ≡ err e
      → (pop_from key side store.entries o).1 ≡ store.entries
  pop_from-failed key side none e h = cc
  pop_from-failed key side (some x) e h = pop_entry-failed key side x.expires_at x.value e h

  pub pop-failed :
      (key : Bytes) (side : PopSide) (clock : Clock) (e : StoreError) (after : MemoryStore)
      → pop clock key side store ≡ (err e, after)
      → after ≡ store
  pop-failed key side clock e after h =
      let given_up = sym (pop-given key side clock) ∙ h in
      sym (ap (λ r. r.1) given_up)
      ∙ ap (with_entries store)
          (pop_from-failed key side (get key store.entries) e (ap (λ r. r.0) given_up))
