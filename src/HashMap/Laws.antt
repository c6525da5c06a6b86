-- ===== src/HashMap/Laws.antt =====
-- The laws of the map: lookups after each operation, and that a key stays unique.
use aerugo_cache.Prelude.{
  ◌+◌, ◌≤◌, ◌<◌, ◌≡◌, refl, ◌≢◌, Bool, Option, none, some, [], ◌∷◌, arith, Bytes, bytes_eq,
  bytes_eq_iff, if◌then◌else◌, length, is_some, All, true, bytes_eq_refl, false, All-imp, ◌⊎◌, inl,
  inr,
}
use aerugo_cache.HashMap.{HashMap, get, insert, remove, retain, keys, IsMap}

module _ {ℓ} {V : Type ℓ} where
  pub get-insert :
      (k j : Bytes) (v : V) (m : HashMap V)
      → get j (insert k v m) ≡ (if bytes_eq k j then some v else get j m)
  unfolding get insert
  get-insert k j v [] = refl
  get-insert k j v ((i, w) ∷ m) =
      ground (arith, bytes_eq_iff k j, bytes_eq_iff i k, bytes_eq_iff i j, get-insert k j v m)

  pub get-remove :
      (k j : Bytes) (m : HashMap V) → get j (remove k m) ≡ (if bytes_eq k j then none else get j m)
  unfolding get remove
  get-remove k j [] = ground arith
  get-remove k j ((i, w) ∷ m) =
      ground (arith, bytes_eq_iff k j, bytes_eq_iff i k, bytes_eq_iff i j, get-remove k j m)

  -- The value that a lookup finds after `retain`.
  abbrev pub kept : (V → Bool) → Option V → Option V
  kept p none = none
  kept p (some v) = if p v then some v else none

  get-retain-none :
      (p : V → Bool) (j : Bytes) (m : HashMap V) → get j m ≡ none → get j (retain p m) ≡ none
  unfolding get retain
  get-retain-none p j [] h = refl
  get-retain-none p j ((i, w) ∷ m) h = ground (arith, get-retain-none p j m)

  pub get-retain :
      (p : V → Bool) (j : Bytes) (m : HashMap V) → IsMap m → get j (retain p m) ≡ kept p (get j m)
  unfolding get retain
  get-retain p j [] h = refl
  get-retain p j ((i, w) ∷ m) h =
      ground (arith, bytes_eq_iff i j, get-retain p j m, get-retain-none p j m)

  pub insert-IsMap : (k : Bytes) (v : V) (m : HashMap V) → IsMap m → IsMap (insert k v m)
  unfolding get insert
  insert-IsMap k v [] h = (refl, tt)
  insert-IsMap k v ((i, w) ∷ m) h =
      ground (arith, bytes_eq_iff i k, bytes_eq_iff k i, get-insert k i v m, insert-IsMap k v m)

  pub remove-IsMap : (k : Bytes) (m : HashMap V) → IsMap m → IsMap (remove k m)
  unfolding get remove
  remove-IsMap k [] h = tt
  remove-IsMap k ((i, w) ∷ m) h =
      ground (arith, bytes_eq_iff i k, bytes_eq_iff k i, get-remove k i m, remove-IsMap k m)

  pub retain-IsMap : (p : V → Bool) (m : HashMap V) → IsMap m → IsMap (retain p m)
  unfolding retain
  retain-IsMap p [] h = tt
  retain-IsMap p ((i, w) ∷ m) h = ground (arith, retain-IsMap p m, get-retain-none p i m)

  pub length-remove-le : (k : Bytes) (m : HashMap V) → length (remove k m) ≤ length m
  unfolding remove
  length-remove-le k [] = omega arith
  length-remove-le k ((i, w) ∷ m) = ground (arith, length-remove-le k m)

  pub length-remove-lt :
      (k : Bytes) (m : HashMap V) → get k m ≢ none → length (remove k m) < length m
  unfolding get remove
  length-remove-lt k [] h = absurd (h refl)
  length-remove-lt k ((i, w) ∷ m) h = ground (arith, length-remove-le k m, length-remove-lt k m)

  pub remove_absent : (k : Bytes) (m : HashMap V) → get k m ≡ none → remove k m ≡ m
  unfolding get remove
  remove_absent k [] h = refl
  remove_absent k ((i, w) ∷ m) h = ground (arith, remove_absent k m)

  pub length-remove_present :
      (k : Bytes) (m : HashMap V) → IsMap m → get k m ≢ none → length (remove k m) + 1 ≡ length m
  unfolding get remove
  length-remove_present k [] h p = absurd (p refl)
  length-remove_present k ((i, w) ∷ m) h p =
      ground (arith, bytes_eq_iff i k, remove_absent k m, length-remove_present k m)

module _ {ℓ} {V : Type ℓ} where
  abbrev pub Present : HashMap V → Bytes → Type 0
  Present m k = is_some (get k m) ≡ true

  pub Present-keys : (m : HashMap V) → All (Present m) (keys m)
  unfolding get keys
  Present-keys [] = tt
  Present-keys ((j, w) ∷ m) = (
    ground (arith, bytes_eq_refl j),
    All-imp (Present m) (Present ((j, w) ∷ m)) (keys m) (λ k h. ground arith) (Present-keys m),
  )

  -- A map whose keys are all `p` holds nothing but `p`.
  pub only_key :
      (p : Bytes) (m : HashMap V)
      → IsMap m
      → All (λ k. bytes_eq p k ≡ true) (keys m)
      → (m ≡ []) ⊎ ((v : V) × (m ≡ (p, v) ∷ []) × (get p m ≡ some v))
  unfolding get keys
  only_key p [] h a = inl refl
  only_key p ((j, v) ∷ []) h a =
      inr (v, ground (arith, bytes_eq_iff p j), ground (arith, bytes_eq_iff p j, bytes_eq_refl p))
  only_key p ((j, v) ∷ (i, w) ∷ m) h a =
      absurd (ground (arith, bytes_eq_iff p j, bytes_eq_iff p i, bytes_eq_iff i j))

pub IsMap-no_keys {ℓ} :
    {V : Type ℓ} (m : HashMap V) → All (λ k. ◌≡◌ {A = Bool} true false) (keys m) → m ≡ []
unfolding keys
IsMap-no_keys [] h = refl
IsMap-no_keys ((j, v) ∷ m) h = cc
