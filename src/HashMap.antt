-- ===== src/HashMap.antt =====
-- `std::collections::HashMap` keyed by strings, as the storage engine uses it. The order of the
-- list stands for the iteration order, which the library leaves open: the theorems are about every
-- list.
pub mod Laws
use aerugo_cache.Prelude.{
  ℕ, ◌≡◌, Bool, Option, none, some, List, [], ◌∷◌, Bytes, bytes_eq, if◌then◌else◌,
}

abbrev pub HashMap {ℓ} : Type ℓ → Type ℓ
HashMap V = List (Bytes × V)

module _ {ℓ} {V : Type ℓ} where
  unfoldable pub get : Bytes → HashMap V → Option V
  get k [] = none
  get k ((j, v) ∷ m) = if bytes_eq j k then some v else get k m

  -- The old value that `insert` and `remove` return is `get` before the call.
  unfoldable pub insert : Bytes → V → HashMap V → HashMap V
  insert k v [] = (k, v) ∷ []
  insert k v ((j, w) ∷ m) = if bytes_eq j k then (k, v) ∷ m else (j, w) ∷ insert k v m

  unfoldable pub remove : Bytes → HashMap V → HashMap V
  remove k [] = []
  remove k ((j, w) ∷ m) = let rest = remove k m in if bytes_eq j k then rest else (j, w) ∷ rest

  -- `retain` with a test of the value.
  unfoldable pub retain : (V → Bool) → HashMap V → HashMap V
  retain p [] = []
  retain p ((j, w) ∷ m) = let rest = retain p m in if p w then (j, w) ∷ rest else rest

  unfoldable pub keys : HashMap V → List Bytes
  keys [] = []
  keys ((j, w) ∷ m) = j ∷ keys m

  -- `collect` of pairs: a later pair replaces an earlier one with its key.
  unfoldable pub extend : HashMap V → List (Bytes × V) → HashMap V
  extend m [] = m
  extend m ((k, v) ∷ pairs) = extend (insert k v m) pairs

  abbrev pub collect : List (Bytes × V) → HashMap V
  collect pairs = extend [] pairs

  -- A key stands in a map once.
  abbrev pub IsMap : HashMap V → Type ℓ
  IsMap [] = Unit
  IsMap ((j, w) ∷ m) = (get j m ≡ none) × IsMap m
