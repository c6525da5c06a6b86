-- ===== src/Storage/Evict/Pick.antt =====
-- src/storage.rs, `pick_eviction_key`: what it picks, and when there is nothing to pick.
use aerugo_cache.Prelude.Clock.{Time, subsec_nanos}
use aerugo_cache.Storage.Entry.{Entries}
use aerugo_cache.Prelude.{
  ℕ, ◌<◌, Option, ◌%◌, Bytes, arith, ◌≡◌, none, some, All, true, List, false, filter_by,
  All-get_elem?, length, ◌==◌, ◌⊎◌, All-filter_by, inl, ==_iff, inr, get_elem?-lt, filter_by-eq-nil,
  Bool-cases,
}
use aerugo_cache.HashMap.{keys}
use aerugo_cache.HashMap.Laws.{Present, Present-keys}
use aerugo_cache.Storage.Evict.{is_candidate, pick_eviction_key}

candidate_index : (n m : ℕ) → 0 < m → n % m < m
candidate_index n m h = grind arith

-- A key that is picked stands in the map and is not protected.
pub pick_eviction_key-some :
    (entries : Entries) (protected_key : Option Bytes) (now : Time) (key : Bytes)
    → pick_eviction_key entries protected_key now ≡ some key
    → Present entries key × (is_candidate protected_key key ≡ true)
unfolding pick_eviction_key
pick_eviction_key-some entries protected_key now key h =
    All-get_elem? (λ k. Present entries k × (is_candidate protected_key k ≡ true)) candidates
      (subsec_nanos now % length candidates) key
      (All-filter_by (Present entries) (is_candidate protected_key) (keys entries)
        (Present-keys entries))
      (ground arith)
  where
    candidates : List Bytes
    candidates = filter_by (is_candidate protected_key) (keys entries)

-- Nothing is picked only where every key is protected.
pub pick_eviction_key-none :
    (entries : Entries) (protected_key : Option Bytes) (now : Time)
    → pick_eviction_key entries protected_key now ≡ none
    → All (λ k. is_candidate protected_key k ≡ false) (keys entries)
unfolding pick_eviction_key
pick_eviction_key-none entries protected_key now h =
    filter_by-eq-nil (is_candidate protected_key) (keys entries) (empty (Bool-cases (n == 0)))
  where
    candidates : List Bytes
    candidates = filter_by (is_candidate protected_key) (keys entries)

    n : ℕ
    n = length candidates

    empty : ((n == 0) ≡ true) ⊎ ((n == 0) ≡ false) → n ≡ 0
    empty (inl e) = (==_iff n 0).0 e
    empty (inr e) =
        let (x, found) =
          get_elem?-lt candidates (subsec_nanos now % n) (candidate_index _ n (ground arith)) in
        ground arith
