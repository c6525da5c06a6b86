-- ===== src/Storage/Expiry.antt =====
-- src/storage.rs: deadlines. What EXPIRE, EXPIREAT, PERSIST and TTL do, on every branch.
use aerugo_cache.Storage.Config.{missing, seconds}
use aerugo_cache.Storage.Evict.{remove_if_expired}
use aerugo_cache.HashMap.Laws.{get-insert, get-remove}
use aerugo_cache.Storage.View.{
  view, get-remove_if_expired_self, get-remove_if_expired, live, view-remove_if_expired,
}
use aerugo_cache.Storage.Entry.{Entry, Entries, is_expired}
use aerugo_cache.Prelude.Clock.{Time, checked_add, Clock, duration_since, as_secs, nanos_per_sec}
use aerugo_cache.Storage.Store.{
  expire_at, MemoryStore, set_deadline, clear_deadline, expire, ttl, persist, ttl_of,
}
use aerugo_cache.Prelude.{
  refl, none, some, inl, inr, false, arith, Option, Bytes, ◌≡◌, is_some, if◌then◌else◌, bytes_eq,
  leb, ap, bytes_eq_iff, Bool-cases, ◌∙◌, Bool, ◌≤◌, ℕ, ◌+◌, ◌<◌, ◌-◌, bytes_eq_refl, ◌^◌, ◌*◌,
  lt→ltb, le→ltb, le→leb,
}
use aerugo_cache.HashMap.{get}

abbrev pub with_deadline : Time → Option Entry → Option Entry
with_deadline deadline none = none
with_deadline deadline (some e) = some (record e { expires_at = some deadline })

get-set_deadline :
    (key j : Bytes) (deadline : Time) (entries : Entries) (o : Option Entry)
    → get key entries ≡ o
    → get j (set_deadline key deadline entries o).1
      ≡ (if bytes_eq key j then with_deadline deadline o else get j entries)
get-set_deadline key j deadline entries none h = ground (arith, bytes_eq_iff key j)
get-set_deadline key j deadline entries (some e) h =
    get-insert key j (record e { expires_at = some deadline }) entries

reply-set_deadline :
    (key : Bytes) (deadline : Time) (entries : Entries) (o : Option Entry)
    → (set_deadline key deadline entries o).0 ≡ is_some o
reply-set_deadline key deadline entries none = refl
reply-set_deadline key deadline entries (some e) = refl

-- `expire_at` replies whether the key shows. It deletes the key if the deadline has passed, gives it
-- the deadline if not, and leaves every other row.
pub expire_at_lem :
    (key : Bytes) (deadline now : Time) (store : MemoryStore)
    → ((expire_at key deadline now store).0 ≡ is_some (view now store.entries key))
      × ((j : Bytes)
          → get j (expire_at key deadline now store).1.entries ≡ (
              if bytes_eq key j
              then if leb deadline now
                then none
                else with_deadline deadline (view now store.entries key)
              else get j store.entries))
unfolding expire_at
expire_at_lem key deadline now store = elim (Bool-cases (leb deadline now)) [
  | inl past ↦ (
    rw past (ap is_some shown),
    (λ j. rw (past, get-remove) (ground (arith, get-remove_if_expired store.entries key j now))),
  )
  | inr future ↦ (
    rw future (reply-set_deadline key deadline left (get key left) ∙ ap is_some shown),
    (λ j.
        rw (future, get-set_deadline key j deadline left (get key left) refl)
          (ground (arith, get-remove_if_expired store.entries key j now, shown))),
  )
]
  where
    left : Entries
    left = remove_if_expired store.entries key now

    shown : get key left ≡ view now store.entries key
    shown = get-remove_if_expired_self store.entries key now

-- TTL replies by what shows under its key, and changes nothing that shows.
pub ttl_lem :
    (clock : Clock) (key : Bytes) (store : MemoryStore)
    → ((ttl clock key store).0 ≡ ttl_of (clock 0) (view (clock 0) store.entries key))
      × ((j : Bytes)
          → view (clock 0) (ttl clock key store).1.entries j ≡ view (clock 0) store.entries j)
unfolding ttl
ttl_lem clock key store = (
  ap (ttl_of (clock 0)) (get-remove_if_expired_self store.entries key (clock 0)),
  (λ j. view-remove_if_expired store.entries key j (clock 0)),
)

ttl_of-with_deadline :
    (deadline now : Time) (e : Entry)
    → ttl_of now (live now (some (record e { expires_at = some deadline })))
      ≡ (if leb deadline now then missing else seconds (as_secs (deadline - now)))
unfolding live is_expired duration_since
ttl_of-with_deadline deadline now e = ground arith

ttl-expire_at :
    (key : Bytes) (deadline now : Time) (d : Clock) (e : Entry) (store : MemoryStore)
    → view now store.entries key ≡ some e
    → now ≤ d 0
    → (ttl d key (expire_at key deadline now store).1).0
      ≡ (if leb deadline (d 0) then missing else seconds (as_secs (deadline - d 0)))
unfolding view live
ttl-expire_at key deadline now d e store shown later_on =
    let after = (expire_at_lem key deadline now store).1 key in
    (ttl_lem d key (expire_at key deadline now store).1).0
    ∙ rw (after, bytes_eq_refl)
        (elim (Bool-cases (leb deadline now)) [
          | inl past ↦ rw past (ground arith)
          | inr future ↦ rw (future, shown) (ttl_of-with_deadline deadline (d 0) e)
        ])

-- A key that shows and is given `secs` seconds is reported by TTL with the whole seconds that are
-- left of them, and as missing from the deadline on, if the clock does not run backwards and the
-- deadline is a time that the platform can hold.
pub ttl-expire :
    (c d : Clock) (key : Bytes) (secs : ℕ) (e : Entry) (store : MemoryStore)
    → view (c 1) store.entries key ≡ some e
    → c 1 ≤ d 0
    → as_secs (c 0) + secs < 2 ^ 63
    → let deadline = c 0 + secs * nanos_per_sec in
      (ttl d key (expire c key secs store).1).0
      ≡ (if leb deadline (d 0) then missing else seconds (as_secs (deadline - d 0)))
unfolding expire checked_add
ttl-expire c d key secs e store shown later_on fits =
    rw (lt→ltb _ _ fits)
      (ttl-expire_at key (c 0 + secs * nanos_per_sec) (c 1) d e store shown later_on)

-- EXPIRE with more seconds than a time can hold deletes the key, if the clock does not run backwards:
-- the deadline falls back to the present. It replies whether the key showed.
pub expire-overflow :
    (clock : Clock) (key : Bytes) (secs : ℕ) (store : MemoryStore)
    → 2 ^ 63 ≤ as_secs (clock 0) + secs
    → clock 0 ≤ clock 1
    → ((expire clock key secs store).0 ≡ is_some (view (clock 1) store.entries key))
      × (get key (expire clock key secs store).1.entries ≡ none)
unfolding expire checked_add
expire-overflow clock key secs store huge ordered =
    let (reply, rows) = expire_at_lem key (clock 0) (clock 1) store in
    rw (le→ltb _ _ huge) (reply, rows key ∙ rw (bytes_eq_refl, le→leb _ _ ordered))

abbrev pub without_deadline : Option Entry → Option Entry
without_deadline none = none
without_deadline (some e) = some (record e { expires_at = none })

abbrev pub has_deadline : Option Entry → Bool
has_deadline none = false
has_deadline (some e) = is_some e.expires_at

no_deadline :
    (e : Entry) → is_some e.expires_at ≡ false → some (record e { expires_at = none }) ≡ some e
no_deadline e h = ground arith

clear_deadline_lem :
    (key : Bytes) (entries : Entries) (o : Option Entry)
    → get key entries ≡ o
    → ((clear_deadline key entries o).0 ≡ has_deadline o)
      × ((j : Bytes)
          → get j (clear_deadline key entries o).1
            ≡ (if bytes_eq key j then without_deadline o else get j entries))
clear_deadline_lem key entries none h = (refl, λ j. ground (arith, bytes_eq_iff key j))
clear_deadline_lem key entries (some e) h = elim (Bool-cases (is_some e.expires_at)) [
  | inl set_ ↦ rw set_ (refl, λ j. get-insert key j (record e { expires_at = none }) entries)
  | inr unset ↦ rw unset (refl, λ j. ground (arith, bytes_eq_iff key j, no_deadline e unset))
]

-- PERSIST replies whether the key shows with a deadline, takes the deadline from it, and leaves every
-- other row.
pub persist_lem :
    (clock : Clock) (key : Bytes) (store : MemoryStore)
    → let shown = view (clock 0) store.entries key in
      ((persist clock key store).0 ≡ has_deadline shown)
      × ((j : Bytes)
          → get j (persist clock key store).1.entries
            ≡ (if bytes_eq key j then without_deadline shown else get j store.entries))
unfolding persist
persist_lem clock key store =
    let left = remove_if_expired store.entries key (clock 0) in
    let shown = get-remove_if_expired_self store.entries key (clock 0) in
    let (reply, rows) = clear_deadline_lem key left (get key left) refl in
    (
      reply ∙ ap has_deadline shown,
      (λ j. rows j ∙ ground (arith, get-remove_if_expired store.entries key j (clock 0), shown)),
    )
