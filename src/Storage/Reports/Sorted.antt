-- ===== src/Storage/Reports/Sorted.antt =====
-- src/storage.rs, `inspect_keys`: the rows that AERUGO.INSPECT replies.
use aerugo_cache.Storage.Store.{MemoryStore, retain_live}
use aerugo_cache.Prelude.Clock.{Clock}
use mathlib.Core.List.{Perm}
use mathlib.Core.List.Perm
use aerugo_cache.Storage.Reports.{
  bytes_lt, sort_by_key, insert_sorted, KeyInspection, inspect_keys, inspect,
}
use aerugo_cache.Prelude.{
  refl, zero, suc, [], ◌∷◌, inl, inr, true, false, arith, ℕ, List, Bytes, take, Bool-cases, ◌≡◌,
  map,
}

bytes_lt-asym : (a b : Bytes) → bytes_lt a b ≡ true → bytes_lt b a ≡ false
unfolding bytes_lt
bytes_lt-asym [] [] h = refl
bytes_lt-asym [] (b ∷ bs) h = refl
bytes_lt-asym (a ∷ as_) [] h = cc
bytes_lt-asym (a ∷ as_) (b ∷ bs) h = ground (arith, bytes_lt-asym as_ bs)

-- No row of the list stands behind a row of a greater key.
abbrev pub InOrder : List KeyInspection → Type 0
InOrder [] = Unit
InOrder (x ∷ []) = Unit
InOrder (x ∷ y ∷ xs) = (bytes_lt y.key x.key ≡ false) × InOrder (y ∷ xs)

insert_sorted-InOrder :
    (row : KeyInspection) (xs : List KeyInspection) → InOrder xs → InOrder (insert_sorted row xs)
unfolding insert_sorted
insert_sorted-InOrder row [] h = tt
insert_sorted-InOrder row (x ∷ []) h = elim (Bool-cases (bytes_lt x.key row.key)) [
  | inl less ↦ rw less (bytes_lt-asym x.key row.key less, tt)
  | inr not_less ↦ rw not_less (not_less, tt)
]
insert_sorted-InOrder row (x ∷ y ∷ xs) h = elim (Bool-cases (bytes_lt x.key row.key)) [
  | inl less ↦
      let rest = insert_sorted-InOrder row (y ∷ xs) h.1 in
      elim (Bool-cases (bytes_lt y.key row.key)) [
        | inl further ↦ rw (less, further) (h.0, rw further at rest)
        | inr here ↦ rw (less, here) (bytes_lt-asym x.key row.key less, rw here at rest)
      ]
  | inr not_less ↦ rw not_less (not_less, h)
]

sort_by_key-InOrder : (xs : List KeyInspection) → InOrder (sort_by_key xs)
unfolding sort_by_key
sort_by_key-InOrder [] = tt
sort_by_key-InOrder (x ∷ xs) = insert_sorted-InOrder x (sort_by_key xs) (sort_by_key-InOrder xs)

insert_sorted-Perm :
    (row : KeyInspection) (xs : List KeyInspection) → Perm (insert_sorted row xs) (row ∷ xs)
unfolding insert_sorted
insert_sorted-Perm row [] = Perm.refl (row ∷ [])
insert_sorted-Perm row (x ∷ xs) = elim (Bool-cases (bytes_lt x.key row.key)) [
  | inl less ↦ rw less (Perm.trans (Perm.cons x (insert_sorted-Perm row xs)) (Perm.swap row x xs))
  | inr not_less ↦ rw not_less (Perm.refl (row ∷ x ∷ xs))
]

sort_by_key-Perm : (xs : List KeyInspection) → Perm (sort_by_key xs) xs
unfolding sort_by_key
sort_by_key-Perm [] = Perm.refl []
sort_by_key-Perm (x ∷ xs) =
    Perm.trans (insert_sorted-Perm x (sort_by_key xs)) (Perm.cons x (sort_by_key-Perm xs))

-- AERUGO.INSPECT replies the first rows, up to the limit, of an arrangement of all the rows that show
-- in the order of their keys.
pub inspect_keys_lem :
    (clock : Clock) (limit : ℕ) (store : MemoryStore)
    → (sorted : List KeyInspection) × Perm sorted
        (map (inspect (clock 0)) (retain_live (clock 0) store.entries))
      × InOrder sorted
      × ((inspect_keys clock limit store).0 ≡ take limit sorted)
unfolding inspect_keys
inspect_keys_lem clock limit store =
    let rows = map (inspect (clock 0)) (retain_live (clock 0) store.entries) in
    (sort_by_key rows, sort_by_key-Perm rows, sort_by_key-InOrder rows, taken limit)
  where
    taken :
        (n : ℕ)
        → (inspect_keys clock n store).0
          ≡ take n (sort_by_key (map (inspect (clock 0)) (retain_live (clock 0) store.entries)))
    taken zero = refl
    taken (suc n) = refl
