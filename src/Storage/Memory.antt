-- ===== src/Storage/Memory.antt =====
-- src/storage.rs: the memory that the entries take, without the wrap-around of the estimate.
pub mod Operations
pub mod Lists
pub mod Limit
use mathlib.Core.Path.{subst}
use aerugo_cache.HashMap.Laws.{get-remove}
use aerugo_cache.Prelude.Words.{exact_sum, sum_from, wrapping_add, sum_from_lt}
use aerugo_cache.HashMap.{get, insert, remove, retain, IsMap}
use aerugo_cache.Storage.Entry.{
  string, list, Value, Entries, value_memory_bytes, entry_estimated_memory_bytes,
  estimated_memory_bytes, Entry, row_memory_bytes, entry_overhead_bytes, item_bytes,
  list_item_overhead_bytes,
}
use aerugo_cache.Prelude.{
  none, some, refl, [], ◌∷◌, inl, inr, arith, Bytes, ℕ, Option, ◌+◌, ◌<◌, ◌%◌, ◌≡◌, length, ◌^◌,
  Bool, ◌≤◌, map, Bool-cases, List, bytes_eq, bytes_eq_iff, bytes_eq_refl, ◌⊎◌, sym, false,
}

unfoldable pub item_size : Bytes → ℕ
item_size v = length v + list_item_overhead_bytes

unfoldable pub value_size : Value → ℕ
value_size (string v) = length v
value_size (list l) = exact_sum (map item_size l)

abbrev pub row_size : Bytes × Entry → ℕ
row_size (key, e) = entry_overhead_bytes + length key + value_size e.value

unfoldable pub memory_size : Entries → ℕ
memory_size entries = exact_sum (map row_size entries)

sum_from-mod :
    (acc : ℕ) (xs : List Bytes)
    → sum_from acc (map item_bytes xs) % 2 ^ 64 ≡ (acc + exact_sum (map item_size xs)) % 2 ^ 64
unfolding sum_from exact_sum wrapping_add item_bytes item_size
sum_from-mod acc [] = omega arith
sum_from-mod acc (x ∷ xs) =
    omega (arith, sum_from-mod ((acc + (length x + 24) % 2 ^ 64) % 2 ^ 64) xs)

value_memory-mod : (v : Value) → value_memory_bytes v % 2 ^ 64 ≡ value_size v % 2 ^ 64
unfolding value_memory_bytes value_size
value_memory-mod (string v) = refl
value_memory-mod (list l) = omega (arith, sum_from-mod 0 l)

row_memory-mod : (row : Bytes × Entry) → row_memory_bytes row ≡ row_size row % 2 ^ 64
unfolding entry_estimated_memory_bytes wrapping_add
row_memory-mod (key, e) = omega (arith, value_memory-mod e.value)

rows-mod :
    (acc : ℕ) (entries : Entries)
    → sum_from acc (map row_memory_bytes entries) % 2 ^ 64
      ≡ (acc + exact_sum (map row_size entries)) % 2 ^ 64
unfolding sum_from exact_sum wrapping_add
rows-mod acc [] = omega arith
rows-mod acc (row ∷ entries) =
    omega (arith, row_memory-mod row, rows-mod ((acc + row_memory_bytes row) % 2 ^ 64) entries)

-- The estimate is exact where the memory fits a `usize`.
pub estimated_memory_bytes-exact :
    (entries : Entries)
    → memory_size entries < 2 ^ 64
    → estimated_memory_bytes entries ≡ memory_size entries
unfolding estimated_memory_bytes memory_size
estimated_memory_bytes-exact entries small =
    omega (arith, rows-mod 0 entries, sum_from_lt 0 (map row_memory_bytes entries))

-- The size of what a lookup finds.
abbrev pub found_size : Bytes → Option Entry → ℕ
found_size key none = 0
found_size key (some e) = row_size (key, e)

pub memory_size-insert :
    (key : Bytes) (e : Entry) (entries : Entries)
    → memory_size (insert key e entries) + found_size key (get key entries)
      ≡ memory_size entries + row_size (key, e)
unfolding memory_size exact_sum insert get
memory_size-insert key e [] = omega arith
memory_size-insert key e ((j, x) ∷ entries) = elim (Bool-cases (bytes_eq j key)) [
  | inl same ↦ rw ((bytes_eq_iff j key).0 same, bytes_eq_refl key) (omega arith)
  | inr other ↦ rw other (omega (arith, memory_size-insert key e entries))
]

pub memory_size-remove :
    (key : Bytes) (entries : Entries)
    → memory_size (remove key entries) + found_size key (get key entries) ≤ memory_size entries
unfolding memory_size exact_sum remove get
memory_size-remove key [] = omega arith
memory_size-remove key ((j, x) ∷ entries) = elim (Bool-cases (bytes_eq j key)) [
  | inl same ↦
      rw ((bytes_eq_iff j key).0 same, bytes_eq_refl key)
        (omega (arith, memory_size-remove key entries))
  | inr other ↦ rw other (omega (arith, memory_size-remove key entries))
]

pub memory_size-retain :
    (p : Entry → Bool) (entries : Entries) → memory_size (retain p entries) ≤ memory_size entries
unfolding memory_size exact_sum retain
memory_size-retain p [] = omega arith
memory_size-retain p ((j, x) ∷ entries) = ground (arith, memory_size-retain p entries)

memory_size-cons :
    (row : Bytes × Entry) (entries : Entries)
    → memory_size (row ∷ entries) ≡ row_size row + memory_size entries
unfolding memory_size exact_sum
memory_size-cons row entries = refl

-- A map whose rows are rows of another is no larger.
pub memory_size-rows :
    (left before : Entries)
    → IsMap left
    → ((j : Bytes) → (get j left ≡ get j before) ⊎ (get j left ≡ none))
    → memory_size left ≤ memory_size before
memory_size-rows [] before h rows = unfold memory_size exact_sum in omega arith
memory_size-rows ((key, e) ∷ left) before h rows =
    let here : get key ((key, e) ∷ left) ≡ some e = unfold get in rw (bytes_eq_refl key) in
    let there : get key before ≡ some e = let at_key = rows key in ground arith in
    let others = memory_size-rows left (remove key before) h.1 rest_rows in
    let taken = memory_size-remove key before in
    let found : found_size key (get key before) ≡ row_size (key, e) = rw there in
    omega (arith, memory_size-cons (key, e) left)
  where
    skipped : (j : Bytes) → bytes_eq key j ≡ false → get j ((key, e) ∷ left) ≡ get j left
    skipped j other = unfold get in rw other

    rest_rows : (j : Bytes) → (get j left ≡ get j (remove key before)) ⊎ (get j left ≡ none)
    rest_rows j = elim (Bool-cases (bytes_eq key j)) [
      | inl same ↦ inr (rw (sym ((bytes_eq_iff key j).0 same)) h.0)
      | inr other ↦
          rw (get-remove key j before, other)
            (subst (λ o. (o ≡ get j before) ⊎ (o ≡ none)) (skipped j other) (rows j))
    ]
