-- ===== src/Storage/Evict/Outcome.antt =====
-- src/storage.rs: what the eviction loop and `enforce_memory_limit` leave in the entries.
use aerugo_cache.Storage.Evict.Loop.{shrinks}
use aerugo_cache.Storage.Evict.Pick.{pick_eviction_key-none, pick_eviction_key-some}
use aerugo_cache.Storage.Evict.Restore.{restore_evicted-step, restore_evicted-IsMap}
use aerugo_cache.Prelude.Clock.{Clock, later}
use aerugo_cache.Storage.Config.{out_of_memory}
use aerugo_cache.HashMap.Laws.{
  IsMap-no_keys, only_key, remove-IsMap, get-remove, length-remove_present,
}
use aerugo_cache.Prelude.Words.{sum_from, wrapping_add}
use aerugo_cache.Storage.Evict.{
  is_candidate, Evicted, evict_loop, restore_evicted, evict_until_within_limit, pick_eviction_key,
}
use aerugo_cache.Storage.Entry.{
  Entries, estimated_memory_bytes, entry_estimated_memory_bytes, Entry,
}
use aerugo_cache.Prelude.{
  refl, zero, suc, [], ◌∷◌, none, some, inl, inr, true, false, arith, ok, err, Option, Bytes, ◌≡◌,
  ◌⊎◌, ℕ, All, ◌<◌, ◌≤◌, length, ap, ◌+◌, All-imp, List, ◌++◌, bytes_eq, bytes_eq_iff, Bool-cases,
  length-append, leb, leb→le, Option-cases, leb→lt,
}
use aerugo_cache.HashMap.{IsMap, get, remove, keys}

-- Every row of `left` is a row of `before`, and only keys that are not protected are missing.
abbrev pub Survives : Entries → Entries → Option Bytes → Type 0
Survives before left p =
    (j : Bytes) → (get j left ≡ get j before) ⊎ ((get j left ≡ none) × (is_candidate p j ≡ true))

-- The protected row alone exceeds the limit.
abbrev pub TooBig : Entries → Option Bytes → ℕ → Type 0
TooBig before p m =
    (key : Bytes) × (e : Entry) × (p ≡ some key)
    × (get key before ≡ some e)
    × (m < entry_estimated_memory_bytes key e)

-- Success: within the limit, and what is missing was evicted. Failure: every lookup as before.
abbrev pub EvictOutcome : Entries → Option Bytes → ℕ → Evicted → Type 0
EvictOutcome before p m (ok evicted, left) =
    (estimated_memory_bytes left ≤ m)
    × Survives before left p
    × (length evicted + length left ≡ length before)
    × IsMap left
EvictOutcome before p m (err e, left) =
    (e ≡ out_of_memory) × ((j : Bytes) → get j left ≡ get j before) × IsMap left × TooBig before p m

single_row :
    (key : Bytes) (e : Entry)
    → estimated_memory_bytes ((key, e) ∷ []) ≡ entry_estimated_memory_bytes key e
unfolding estimated_memory_bytes entry_estimated_memory_bytes wrapping_add sum_from
single_row key e = omega arith

no_rows : estimated_memory_bytes [] ≡ 0
unfolding estimated_memory_bytes sum_from
no_rows = refl

-- Where nothing can be picked and the limit is exceeded, the protected row is too big.
nothing_to_pick :
    (entries : Entries) (p : Option Bytes) (m : ℕ)
    → IsMap entries
    → All (λ k. is_candidate p k ≡ false) (keys entries)
    → m < estimated_memory_bytes entries
    → TooBig entries p m
unfolding is_candidate
nothing_to_pick entries none m h a big =
    let gone = IsMap-no_keys entries a in
    absurd (omega (arith, no_rows, ap estimated_memory_bytes gone))
nothing_to_pick entries (some key) m h a big =
    elim (only_key key entries h (All-imp _ _ (keys entries) (λ k e. ground arith) a)) [
      | inl gone ↦ absurd (omega (arith, no_rows, ap estimated_memory_bytes gone))
      | inr (e, single, found) ↦
          (key, e, refl, found, omega (arith, single_row key e, ap estimated_memory_bytes single))
    ]

-- What holds at the head of the loop, with the rows `evicted` so far.
record LoopInvariant (before : Entries) (p : Option Bytes) (entries : Entries)
    (evicted : List (Bytes × Entry)) : Type 0 where
  unique : IsMap entries
  survives : Survives before entries p
  restores : (j : Bytes) → get j (restore_evicted entries evicted) ≡ get j before
  counted : length evicted + length entries ≡ length before

LoopInvariant-step :
    (before : Entries) (p : Option Bytes) (entries : Entries) (evicted : List (Bytes × Entry))
    (key : Bytes) (e : Entry)
    → LoopInvariant before p entries evicted
    → get key entries ≡ some e
    → is_candidate p key ≡ true
    → LoopInvariant before p (remove key entries) (evicted ++ (key, e) ∷ [])
LoopInvariant-step before p entries evicted key e inv found free = record {
  unique = remove-IsMap key entries inv.unique;
  survives = λ j. elim (Bool-cases (bytes_eq key j)) [
    | inl same ↦ inr (rw (get-remove, same), rw (← (bytes_eq_iff key j).0 same) free)
    | inr other ↦ rw (get-remove, other) (inv.survives j)
  ];
  restores = λ j. restore_evicted-step entries evicted key e j found (here j) (inv.restores j);
  counted = omega (
    arith,
    length-append evicted ((key, e) ∷ []),
    length-remove_present key entries inv.unique (λ absent. cc),
    inv.counted,
  );
}
  where
    here : (j : Bytes) → bytes_eq key j ≡ true → get j before ≡ some e
    here j same =
        let at_key = inv.survives key in let eq = (bytes_eq_iff key j).0 same in ground arith

TooBig-before :
    (before : Entries) (p : Option Bytes) (m : ℕ) (entries : Entries)
    (evicted : List (Bytes × Entry))
    → LoopInvariant before p entries evicted
    → TooBig entries p m
    → TooBig before p m
TooBig-before before p m entries evicted inv (key, e, protected, found, big) =
    let at_key = inv.survives key in (key, e, protected, ground arith, big)

module _ (before : Entries) (m : ℕ) (p : Option Bytes) where
  -- From the invariant the loop ends in one of the two outcomes.
  evict_loop-Outcome :
      (fuel : ℕ) (entries : Entries) (clock : Clock) (evicted : List (Bytes × Entry))
      → length entries < fuel
      → LoopInvariant before p entries evicted
      → EvictOutcome before p m (evict_loop fuel entries m p clock evicted)
  unfolding evict_loop
  evict_loop-Outcome zero entries clock evicted less inv = absurd (omega arith)
  evict_loop-Outcome (suc fuel) entries clock evicted less inv =
      elim (Bool-cases (leb (estimated_memory_bytes entries) m)) [
        | inl fits ↦ rw fits (leb→le _ _ fits, inv.survives, inv.counted, inv.unique)
        | inr over ↦ rw over (elim (Option-cases (pick_eviction_key entries p (clock 0))) [
          | inl e ↦ rw e (
            refl,
            inv.restores,
            restore_evicted-IsMap entries evicted inv.unique,
            TooBig-before before p m entries evicted inv (
                nothing_to_pick entries p m inv.unique
                  (pick_eviction_key-none entries p (clock 0) e) (leb→lt _ _ over)),
          )
          | inr (key, e) ↦
              let (present, free) = pick_eviction_key-some entries p (clock 0) key e in
              elim (Option-cases (get key entries)) [
                | inl absent ↦ absurd (ground arith)
                | inr (x, found) ↦
                    rw (e, found)
                      (evict_loop-Outcome fuel (remove key entries) (later 1 clock)
                        (evicted ++ (key, x) ∷ [])
                        (let shorter = shrinks entries p (clock 0) key e in omega arith)
                        (LoopInvariant-step before p entries evicted key x inv found free))
              ]
        ])
      ]

LoopInvariant-start :
    (entries : Entries) (p : Option Bytes) → IsMap entries → LoopInvariant entries p entries []
unfolding restore_evicted
LoopInvariant-start entries p h = record {
  unique = h;
  survives = λ j. inl refl;
  restores = λ j. refl;
  counted = omega arith;
}

-- On entries with unique keys the eviction loop either brings them within the limit and takes
-- nothing away but keys that are not protected, or fails with every lookup as before, and then the
-- protected row alone exceeds the limit.
pub evict_until_within_limit-Outcome :
    (entries : Entries) (m : ℕ) (p : Option Bytes) (clock : Clock)
    → IsMap entries
    → EvictOutcome entries p m (evict_until_within_limit entries m p clock)
unfolding evict_until_within_limit
evict_until_within_limit-Outcome entries m p clock h =
    evict_loop-Outcome entries m p (suc (length entries)) entries clock [] (omega arith)
      (LoopInvariant-start entries p h)
