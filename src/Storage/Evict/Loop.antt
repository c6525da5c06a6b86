-- ===== src/Storage/Evict/Loop.antt =====
-- src/storage.rs, `evict_until_within_limit`: the loop ends, and what it leaves.
use aerugo_cache.Storage.Config.{out_of_memory}
use aerugo_cache.Storage.Evict.Pick.{pick_eviction_key-some}
use aerugo_cache.HashMap.Laws.{length-remove-lt}
use aerugo_cache.Prelude.Clock.{Time, Clock, later}
use aerugo_cache.Prelude.{
  ℕ, Option, Bytes, List, ◌≡◌, some, length, ◌<◌, arith, suc, Option-cases, inl, inr, zero,
  if◌then◌else◌, err, leb, ok, none,
}
use aerugo_cache.Storage.Entry.{Entries, Entry, estimated_memory_bytes}
use aerugo_cache.Storage.Evict.{
  evict_loop, pick_eviction_key, push_evicted, Evicted, restore_evicted,
}
use aerugo_cache.HashMap.{get, remove}

pub shrinks :
    (entries : Entries) (protected_key : Option Bytes) (now : Time) (key : Bytes)
    → pick_eviction_key entries protected_key now ≡ some key
    → length (remove key entries) < length entries
shrinks entries protected_key now key h = length-remove-lt key entries (λ absent.
    let present = (pick_eviction_key-some entries protected_key now key h).0 in ground arith)

-- More fuel than there are entries never changes what the loop does.
pub evict_loop-fuel :
    (f g : ℕ) (entries : Entries) (max_memory_bytes : ℕ) (protected_key : Option Bytes)
    (clock : Clock) (evicted : List (Bytes × Entry))
    → length entries < f
    → length entries < g
    → evict_loop f entries max_memory_bytes protected_key clock evicted
      ≡ evict_loop g entries max_memory_bytes protected_key clock evicted
unfolding evict_loop
evict_loop-fuel zero g entries m p clock evicted hf hg = absurd (omega arith)
evict_loop-fuel (suc f) zero entries m p clock evicted hf hg = absurd (omega arith)
evict_loop-fuel (suc f) (suc g) entries m p clock evicted hf hg =
    elim (Option-cases (pick_eviction_key entries p (clock 0))) [
      | inl e ↦ rw e
      | inr (key, e) ↦
          let less = shrinks entries p (clock 0) key e in
          rw (
            e,
            evict_loop-fuel f g (remove key entries) m p (later 1 clock)
                (push_evicted key (get key entries) evicted) (omega arith) (omega arith),
          )
    ]

-- One round of the source's `while`, with the fuel that the rest of the loop needs.
abbrev pub evict_round :
    Entries → ℕ → Option Bytes → Clock → List (Bytes × Entry) → Option Bytes → Evicted
evict_round entries m p clock evicted none = (err out_of_memory, restore_evicted entries evicted)
evict_round entries m p clock evicted (some key) =
    let left = remove key entries in
    evict_loop (suc (length left)) left m p (later 1 clock)
      (push_evicted key (get key entries) evicted)

-- On the fuel that it is given the loop is the source's `while`: it tests the limit, picks a key,
-- and goes on without that key, on the fuel that is given there.
pub evict_loop_lem :
    (entries : Entries) (m : ℕ) (p : Option Bytes) (clock : Clock) (evicted : List (Bytes × Entry))
    → evict_loop (suc (length entries)) entries m p clock evicted ≡ (
        if leb (estimated_memory_bytes entries) m
        then (ok evicted, entries)
        else evict_round entries m p clock evicted (pick_eviction_key entries p (clock 0)))
unfolding evict_loop
evict_loop_lem entries m p clock evicted =
    elim (Option-cases (pick_eviction_key entries p (clock 0))) [
      | inl e ↦ rw e
      | inr (key, e) ↦
          let less = shrinks entries p (clock 0) key e in
          rw (
            e,
            evict_loop-fuel (length entries) (suc (length (remove key entries)))
                (remove key entries) m p (later 1 clock)
                (push_evicted key (get key entries) evicted) (omega arith) (omega arith),
          )
    ]
