-- ===== src/Storage/Evict/Restore.antt =====
-- src/storage.rs: what `restore_evicted` and `restore_entry` put back.
use aerugo_cache.HashMap.Laws.{remove-IsMap, insert-IsMap, get-insert, get-remove}
use aerugo_cache.Prelude.{
  List, Bytes, bytes_eq, Option, ◌++◌, ◌≡◌, some, ◌∷◌, false, [], true, Option-cases, none, inl,
  Bool-cases, arith, sym, bytes_eq_iff, inr, ◌∙◌, refl,
}
use aerugo_cache.Storage.Entry.{Entries, Entry}
use aerugo_cache.Storage.Evict.{restore_evicted, restore_entry}
use aerugo_cache.HashMap.{IsMap, get, remove, insert}

pub get-restore_evicted_congr :
    (a b : Entries) (evicted : List (Bytes × Entry)) (j : Bytes)
    → get j a ≡ get j b
    → get j (restore_evicted a evicted) ≡ get j (restore_evicted b evicted)
unfolding restore_evicted
get-restore_evicted_congr a b [] j h = h
get-restore_evicted_congr a b ((k, e) ∷ evicted) j h =
    get-restore_evicted_congr (insert k e a) (insert k e b) evicted j
      (simp get-insert (ground arith))

pub restore_evicted-append :
    (a : Entries) (evicted : List (Bytes × Entry)) (k : Bytes) (e : Entry)
    → restore_evicted a (evicted ++ (k, e) ∷ []) ≡ insert k e (restore_evicted a evicted)
unfolding restore_evicted
restore_evicted-append a [] k e = refl
restore_evicted-append a ((i, x) ∷ evicted) k e = restore_evicted-append (insert i x a) evicted k e

pub restore_evicted-IsMap :
    (a : Entries) (evicted : List (Bytes × Entry)) → IsMap a → IsMap (restore_evicted a evicted)
unfolding restore_evicted
restore_evicted-IsMap a [] h = h
restore_evicted-IsMap a ((k, e) ∷ evicted) h =
    restore_evicted-IsMap (insert k e a) evicted (insert-IsMap k e a h)

-- Evicting one more row and restoring it with the others gives every lookup back.
pub restore_evicted-step :
    (entries : Entries) (evicted : List (Bytes × Entry)) (key : Bytes) (e : Entry) (j : Bytes)
    {o : Option Entry}
    → get key entries ≡ some e
    → (bytes_eq key j ≡ true → o ≡ some e)
    → get j (restore_evicted entries evicted) ≡ o
    → get j (restore_evicted (remove key entries) (evicted ++ (key, e) ∷ [])) ≡ o
restore_evicted-step entries evicted key e j found here h =
    rw (restore_evicted-append, get-insert)
      (elim (Bool-cases (bytes_eq key j)) [
        | inl same ↦ rw same (sym (here same))
        | inr other ↦ rw other (
            get-restore_evicted_congr (remove key entries) entries evicted j
              (rw get-remove (rw other refl))
            ∙ h)
      ])

-- After the rollback of a write to `key` each lookup is what it was before the write.
pub get-restore_entry :
    (entries changed : Entries) (key j : Bytes)
    → (bytes_eq key j ≡ false → get j changed ≡ get j entries)
    → get j (restore_entry changed key (get key entries)) ≡ get j entries
unfolding restore_entry
get-restore_entry entries changed key j h = elim (Option-cases (get key entries)) [
  | inl absent ↦ rw (absent, restore_entry, get-remove) (ground (arith, bytes_eq_iff key j))
  | inr (e, found) ↦ rw (found, restore_entry, get-insert) (ground (arith, bytes_eq_iff key j))
]

pub restore_entry-IsMap :
    (entries : Entries) (key : Bytes) (old : Option Entry)
    → IsMap entries
    → IsMap (restore_entry entries key old)
unfolding restore_entry
restore_entry-IsMap entries key none h = remove-IsMap key entries h
restore_entry-IsMap entries key (some e) h = insert-IsMap key e entries h
