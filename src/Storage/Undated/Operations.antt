-- ===== src/Storage/Undated/Operations.antt =====
-- src/storage.rs: what the operations do on a store without limit and deadlines: the clock has no
-- influence, a command that only reads or is refused changes nothing, and no deadline comes about.
use aerugo_cache.Prelude.Int.{ℤ}
use aerugo_cache.Storage.Reports.{
  stats, inspect, inspect_keys, with_counters, build_stats, sort_by_key,
}
use aerugo_cache.Storage.Lists.{lrange, range_of}
use aerugo_cache.Storage.Entry.{Entries, Entry, entry_ttl_seconds}
use aerugo_cache.Storage.Evict.{remove_if_expired}
use aerugo_cache.Storage.Strings.{string_entry}
use mathlib.Core.Path.{subst}
use aerugo_cache.Storage.Undated.{
  Plain, with_entries-Plain, insert-Undated, finish_write-Plain, remove_if_expired-Undated, Undated,
  remove-Undated, get-Timeless, Timeless, retain_live-Undated,
}
use aerugo_cache.Prelude.Clock.{Clock, Time, later}
use aerugo_cache.Storage.Store.{
  set, del, exists, ttl, persist, MemoryStore, del_keys, get_string, read_string, with_entries,
  ttl_of, exists_keys, record_expired, clear_deadline,
}
use aerugo_cache.HashMap.{get, insert, remove}
use aerugo_cache.Prelude.{
  refl, zero, suc, [], ◌∷◌, none, some, false, arith, ok, ◌≡◌, ◌∙◌, Bytes, sym, List, Option, ℕ,
  ◌-◌, map, take, length,
}

-- The result of an operation: independent of the clock, on a plain store again.
pub record Plainly {A : Type 0} (op : Clock → A × MemoryStore) : Type 0 where
  pub same : (c d : Clock) → op c ≡ op d
  pub plain : (c : Clock) → Plain (op c).1

-- An operation that is given by its result at any clock.
pub given :
    {A : Type 0} (op : Clock → A × MemoryStore) (r : A × MemoryStore)
    → ((c : Clock) → op c ≡ r)
    → Plain r.1
    → Plainly op
given op r h p = record {
  same = λ c d. h c ∙ sym (h d);
  plain = λ c. subst (λ x. Plain x.1) (sym (h c)) p;
}

module _ (store : MemoryStore) (p : Plain store) where
  left : (key : Bytes) (now : Time) → remove_if_expired store.entries key now ≡ store.entries
  left key now = remove_if_expired-Undated store.entries key now p.undated

  pub set-given :
      (key value : Bytes) (clock : Clock)
      → set clock key value store
        ≡ (ok tt, with_entries store (insert key (string_entry value) store.entries))
  unfolding set
  set-given key value clock =
      rw (left key (clock 0))
        (finish_write-Plain tt store key (get key store.entries) _ (later 1 clock) p)

  pub set-Plainly : (key value : Bytes) → Plainly (λ c. set c key value store)
  set-Plainly key value =
      given _ _ (set-given key value)
        (with_entries-Plain store _ p (insert-Undated key _ store.entries refl p.undated))

  pub get_string-given :
      (key : Bytes) (clock : Clock)
      → get_string clock key store ≡ (read_string (get key store.entries), store)
  unfolding get_string
  get_string-given key clock = rw (left key (clock 0))

  del_keys-given :
      (now : Time) (ks : List Bytes) (entries : Entries)
      → Undated entries
      → del_keys now ks entries ≡ del_keys 0 ks entries
  unfolding del_keys
  del_keys-given now [] entries u = refl
  del_keys-given now (key ∷ ks) entries u = rw (
    remove_if_expired-Undated entries key now u,
    remove_if_expired-Undated entries key 0 u,
    del_keys-given now ks (remove key entries) (remove-Undated key entries u),
  )

  del_keys-Undated :
      (ks : List Bytes) (entries : Entries) → Undated entries → Undated (del_keys 0 ks entries).1
  unfolding del_keys
  del_keys-Undated [] entries u = u
  del_keys-Undated (key ∷ ks) entries u =
      rw (remove_if_expired-Undated entries key 0 u)
        (del_keys-Undated ks (remove key entries) (remove-Undated key entries u))

  pub del-Plainly : (ks : List Bytes) → Plainly (λ c. del c ks store)
  unfolding del
  del-Plainly ks =
      given _ (let (n, entries) = del_keys 0 ks store.entries in (n, with_entries store entries))
        (λ c. rw (del_keys-given (c 0) ks store.entries p.undated))
        (with_entries-Plain store _ p (del_keys-Undated ks store.entries p.undated))

  exists_keys-given :
      (now : Time) (ks : List Bytes)
      → exists_keys now ks store.entries ≡ ((exists_keys 0 ks store.entries).0, store.entries)
  unfolding exists_keys
  exists_keys-given now [] = refl
  exists_keys-given now (key ∷ ks) = rw (left key now, left key 0, exists_keys-given now ks)

  pub exists-given :
      (ks : List Bytes) (clock : Clock)
      → exists clock ks store ≡ ((exists_keys 0 ks store.entries).0, store)
  unfolding exists
  exists-given ks clock = rw (exists_keys-given (clock 0) ks)

  ttl_of-Timeless : (now : Time) (o : Option Entry) → Timeless o → ttl_of now o ≡ ttl_of 0 o
  ttl_of-Timeless now none h = refl
  ttl_of-Timeless now (some e) h = rw h

  pub ttl-given :
      (key : Bytes) (clock : Clock)
      → ttl clock key store ≡ (ttl_of 0 (get key store.entries), store)
  unfolding ttl
  ttl-given key clock = rw (
    left key (clock 0),
    ttl_of-Timeless (clock 0) (get key store.entries) (get-Timeless key store.entries p.undated),
  )

  clear_deadline-given :
      (key : Bytes) (o : Option Entry)
      → Timeless o
      → clear_deadline key store.entries o ≡ (false, store.entries)
  clear_deadline-given key none h = refl
  clear_deadline-given key (some e) h = rw h

  pub persist-given : (key : Bytes) (clock : Clock) → persist clock key store ≡ (false, store)
  unfolding persist
  persist-given key clock = rw (
    left key (clock 0),
    clear_deadline-given key (get key store.entries) (get-Timeless key store.entries p.undated),
  )

  pub lrange-given :
      (key : Bytes) (start stop : ℤ) (clock : Clock)
      → lrange clock key start stop store ≡ (range_of start stop (get key store.entries), store)
  unfolding lrange
  lrange-given key start stop clock = rw (left key (clock 0))

  no_rows_expired : (n : ℕ) → record_expired (n - n) store ≡ store
  unfolding record_expired
  no_rows_expired n = let none_left : n - n ≡ 0 = omega arith in rw none_left

  pub stats-given :
      (clock : Clock)
      → stats clock store
        ≡ (with_counters (build_stats store.entries store.config) store.counters, store)
  unfolding stats
  stats-given clock = rw (
    retain_live-Undated (clock 0) store.entries p.undated,
    no_rows_expired (length store.entries),
  )

  entry_ttl_seconds-Timeless :
      (e : Entry) (now : Time)
      → e.expires_at ≡ none
      → entry_ttl_seconds e now ≡ entry_ttl_seconds e 0
  unfolding entry_ttl_seconds
  entry_ttl_seconds-Timeless e now h = rw h

  inspect-Timeless :
      (now : Time) (entries : Entries)
      → Undated entries
      → map (inspect now) entries ≡ map (inspect 0) entries
  unfolding inspect
  inspect-Timeless now [] u = refl
  inspect-Timeless now ((key, e) ∷ entries) u =
      rw (entry_ttl_seconds-Timeless e now u.0, inspect-Timeless now entries u.1)

  pub inspect_keys-given :
      (limit : ℕ) (clock : Clock)
      → inspect_keys clock limit store
        ≡ (take limit (sort_by_key (map (inspect 0) store.entries)), store)
  unfolding inspect_keys
  inspect_keys-given zero clock = refl
  inspect_keys-given (suc n) clock = rw (
    retain_live-Undated (clock 0) store.entries p.undated,
    inspect-Timeless (clock 0) store.entries p.undated,
    no_rows_expired (length store.entries),
  )
