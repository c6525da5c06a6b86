-- ===== src/Storage/Keys.antt =====
-- src/storage.rs: DEL, EXISTS and the background sweep.
use aerugo_cache.HashMap.Laws.{get-remove}
use mathlib.Core.Path.{fun_ext}
use aerugo_cache.Storage.Evict.{remove_if_expired}
use aerugo_cache.Storage.Entry.{Entries}
use aerugo_cache.Storage.View.{
  view, live, view-remove_if_expired, get-remove_if_expired_self, get-remove_if_expired,
}
use aerugo_cache.Prelude.Clock.{Time, Clock}
use aerugo_cache.Storage.Store.{del, del_keys, exists_keys, exists, MemoryStore}
use aerugo_cache.Prelude.{
  refl, [], ◌∷◌, none, false, arith, List, Bytes, Bool, filter_by, bytes_eq, ◌≡◌, not, is_some,
  if◌then◌else◌, ◌||◌, length, ◌&&◌, ◌∙◌, ap, filter_by-filter_by, filter_by_congr, sym,
}
use aerugo_cache.HashMap.{get, remove}

pub contains : List Bytes → Bytes → Bool
contains [] j = false
contains (k ∷ ks) j = bytes_eq k j || contains ks j

abbrev other_than : Bytes → Bytes → Bool
other_than k j = not (bytes_eq k j)

-- The keys without repetitions.
pub distinct : List Bytes → List Bytes
distinct [] = []
distinct (k ∷ ks) = k ∷ filter_by (other_than k) (distinct ks)

-- The key shows at the time.
abbrev pub shows : Time → Entries → Bytes → Bool
shows now entries j = is_some (view now entries j)

shows-remove :
    (now : Time) (entries : Entries) (k j : Bytes)
    → shows now (remove k (remove_if_expired entries k now)) j
      ≡ (not (bytes_eq k j) && shows now entries j)
unfolding view live
shows-remove now entries k j = rw (get-remove, get-remove_if_expired) (ground arith)

del_keys-count :
    (now : Time) (ks : List Bytes) (entries : Entries)
    → (del_keys now ks entries).0 ≡ length (filter_by (shows now entries) (distinct ks))
unfolding del_keys distinct filter_by
del_keys-count now [] entries = refl
del_keys-count now (k ∷ ks) entries =
    let shown = get-remove_if_expired_self entries k now in
    let left = remove k (remove_if_expired entries k now) in
    let counted : (del_keys now ks left).0
        ≡ length (filter_by (shows now entries) (filter_by (other_than k) (distinct ks))) =
      del_keys-count now ks left
      ∙ ap length (
          filter_by_congr (shows now left) (λ j. other_than k j && shows now entries j)
            (distinct ks) (shows-remove now entries k)
          ∙ sym (filter_by-filter_by (shows now entries) (other_than k) (distinct ks))) in
    ground (arith, counted, shown)

del_keys-rows :
    (now : Time) (ks : List Bytes) (entries : Entries) (j : Bytes)
    → get j (del_keys now ks entries).1 ≡ (if contains ks j then none else get j entries)
unfolding del_keys contains
del_keys-rows now [] entries j = refl
del_keys-rows now (k ∷ ks) entries j =
    rw
      (
        del_keys-rows now ks (remove k (remove_if_expired entries k now)) j,
        get-remove,
        get-remove_if_expired,
      )
      (ground arith)

-- DEL replies how many different keys of its arguments show, removes those keys and leaves every
-- other row.
pub del_lem :
    (clock : Clock) (ks : List Bytes) (store : MemoryStore)
    → ((del clock ks store).0 ≡ length (filter_by (shows (clock 0) store.entries) (distinct ks)))
      × ((j : Bytes)
          → get j (del clock ks store).1.entries
            ≡ (if contains ks j then none else get j store.entries))
unfolding del
del_lem clock ks store =
    (del_keys-count (clock 0) ks store.entries, del_keys-rows (clock 0) ks store.entries)

shows-remove_if_expired :
    (now : Time) (entries : Entries) (k : Bytes)
    → shows now (remove_if_expired entries k now) ≡ shows now entries
shows-remove_if_expired now entries k =
    fun_ext λ j. ap is_some (view-remove_if_expired entries k j now)

exists_keys-count :
    (now : Time) (ks : List Bytes) (entries : Entries)
    → (exists_keys now ks entries).0 ≡ length (filter_by (shows now entries) ks)
unfolding exists_keys filter_by
exists_keys-count now [] entries = refl
exists_keys-count now (k ∷ ks) entries =
    let left = remove_if_expired entries k now in
    rw
      (
        get-remove_if_expired_self entries k now,
        exists_keys-count now ks left,
        shows-remove_if_expired now entries k,
      )
      (ground arith)

exists_keys-rows :
    (now : Time) (ks : List Bytes) (entries : Entries) (j : Bytes)
    → view now (exists_keys now ks entries).1 j ≡ view now entries j
unfolding exists_keys
exists_keys-rows now [] entries j = refl
exists_keys-rows now (k ∷ ks) entries j =
    exists_keys-rows now ks (remove_if_expired entries k now) j
    ∙ view-remove_if_expired entries k j now

-- EXISTS replies how many of its arguments show, a repeated one each time, and changes nothing that
-- shows.
pub exists_lem :
    (clock : Clock) (ks : List Bytes) (store : MemoryStore)
    → ((exists clock ks store).0 ≡ length (filter_by (shows (clock 0) store.entries) ks))
      × ((j : Bytes)
          → view (clock 0) (exists clock ks store).1.entries j ≡ view (clock 0) store.entries j)
unfolding exists
exists_lem clock ks store =
    (exists_keys-count (clock 0) ks store.entries, exists_keys-rows (clock 0) ks store.entries)
