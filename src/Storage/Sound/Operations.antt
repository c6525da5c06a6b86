-- ===== src/Storage/Sound/Operations.antt =====
-- src/storage.rs: each operation on strings and keys keeps the entries sound, and each report.
use aerugo_cache.Storage.Evict.{remove_if_expired}
use aerugo_cache.Storage.Sound.{
  Sound, remove-Sound, finish_write-Sound, remove_if_expired-Sound, NotEmpty, retain_live-Sound,
  insert-Sound,
}
use aerugo_cache.Prelude.Clock.{Clock, Time, later}
use aerugo_cache.Storage.Reports.{stats, inspect_keys}
use aerugo_cache.Storage.Entry.{Entries, Entry}
use aerugo_cache.Storage.Store.{
  set, del, exists, expire_at, ttl, persist, del_keys, record_expired, exists_keys, get_string,
  MemoryStore, with_entries, set_deadline, clear_deadline, cleanup_expired,
}
use aerugo_cache.Prelude.{
  zero, suc, [], ◌∷◌, none, some, inl, inr, Bytes, List, Option, ℕ, Bool-cases, leb, ◌==◌, is_some,
}

pub set-Sound :
    (clock : Clock) (key value : Bytes) (store : MemoryStore)
    → Sound store.entries
    → Sound (set clock key value store).1.entries
unfolding set
set-Sound clock key value store s =
    finish_write-Sound tt store (remove_if_expired store.entries key (clock 0)) key _
      (later 1 clock) tt (remove_if_expired-Sound store.entries key (clock 0) s)

pub get_string-Sound :
    (clock : Clock) (key : Bytes) (store : MemoryStore)
    → Sound store.entries
    → Sound (get_string clock key store).1.entries
unfolding get_string
get_string-Sound clock key store s = remove_if_expired-Sound store.entries key (clock 0) s

pub ttl-Sound :
    (clock : Clock) (key : Bytes) (store : MemoryStore)
    → Sound store.entries
    → Sound (ttl clock key store).1.entries
unfolding ttl
ttl-Sound clock key store s = remove_if_expired-Sound store.entries key (clock 0) s

del_keys-Sound :
    (now : Time) (ks : List Bytes) (entries : Entries)
    → Sound entries
    → Sound (del_keys now ks entries).1
unfolding del_keys
del_keys-Sound now [] entries s = s
del_keys-Sound now (key ∷ ks) entries s = del_keys-Sound now ks _ (
    remove-Sound key (remove_if_expired entries key now)
      (remove_if_expired-Sound entries key now s))

pub del-Sound :
    (clock : Clock) (ks : List Bytes) (store : MemoryStore)
    → Sound store.entries
    → Sound (del clock ks store).1.entries
unfolding del
del-Sound clock ks store s = del_keys-Sound (clock 0) ks store.entries s

exists_keys-Sound :
    (now : Time) (ks : List Bytes) (entries : Entries)
    → Sound entries
    → Sound (exists_keys now ks entries).1
unfolding exists_keys
exists_keys-Sound now [] entries s = s
exists_keys-Sound now (key ∷ ks) entries s =
    exists_keys-Sound now ks _ (remove_if_expired-Sound entries key now s)

pub exists-Sound :
    (clock : Clock) (ks : List Bytes) (store : MemoryStore)
    → Sound store.entries
    → Sound (exists clock ks store).1.entries
unfolding exists
exists-Sound clock ks store s = exists_keys-Sound (clock 0) ks store.entries s

set_deadline-Sound :
    (key : Bytes) (deadline : Time) (entries : Entries) (o : Option Entry)
    → NotEmpty o
    → Sound entries
    → Sound (set_deadline key deadline entries o).1
set_deadline-Sound key deadline entries none h s = s
set_deadline-Sound key deadline entries (some e) h s = insert-Sound key _ entries h s

pub expire_at-Sound :
    (key : Bytes) (deadline now : Time) (store : MemoryStore)
    → Sound store.entries
    → Sound (expire_at key deadline now store).1.entries
unfolding expire_at
expire_at-Sound key deadline now store s =
    let left = remove_if_expired-Sound store.entries key now s in
    elim (Bool-cases (leb deadline now)) [
      | inl past ↦ rw past (remove-Sound key _ left)
      | inr future ↦ rw future (set_deadline-Sound key deadline _ _ (left.full key) left)
    ]

clear_deadline-Sound :
    (key : Bytes) (entries : Entries) (o : Option Entry)
    → NotEmpty o
    → Sound entries
    → Sound (clear_deadline key entries o).1
clear_deadline-Sound key entries none h s = s
clear_deadline-Sound key entries (some e) h s = elim (Bool-cases (is_some e.expires_at)) [
  | inl timed ↦ rw timed (insert-Sound key _ entries h s)
  | inr untimed ↦ rw untimed s
]

pub persist-Sound :
    (clock : Clock) (key : Bytes) (store : MemoryStore)
    → Sound store.entries
    → Sound (persist clock key store).1.entries
unfolding persist
persist-Sound clock key store s =
    let left = remove_if_expired-Sound store.entries key (clock 0) s in
    clear_deadline-Sound key _ _ (left.full key) left

record_expired-Sound :
    (n : ℕ) (store : MemoryStore) → Sound store.entries → Sound (record_expired n store).entries
unfolding record_expired
record_expired-Sound n store s = elim (Bool-cases (n == 0)) [
  | inl nothing ↦ rw nothing s
  | inr something ↦ rw something s
]

pub stats-Sound :
    (clock : Clock) (store : MemoryStore)
    → Sound store.entries
    → Sound (stats clock store).1.entries
unfolding stats
stats-Sound clock store s =
    record_expired-Sound _ (with_entries store _) (retain_live-Sound (clock 0) store.entries s)

pub inspect_keys-Sound :
    (clock : Clock) (limit : ℕ) (store : MemoryStore)
    → Sound store.entries
    → Sound (inspect_keys clock limit store).1.entries
unfolding inspect_keys
inspect_keys-Sound clock zero store s = s
inspect_keys-Sound clock (suc n) store s =
    record_expired-Sound _ (with_entries store _) (retain_live-Sound (clock 0) store.entries s)

pub cleanup_expired-Sound :
    (clock : Clock) (store : MemoryStore)
    → Sound store.entries
    → Sound (cleanup_expired clock store).1.entries
unfolding cleanup_expired
cleanup_expired-Sound clock store s =
    record_expired-Sound _ (with_entries store _) (retain_live-Sound (clock 0) store.entries s)
