-- ===== src/Storage/Memory/Limit.antt =====
-- src/storage.rs: the memory limit, kept by every write.
use aerugo_cache.Prelude.Words.{exact_sum}
use aerugo_cache.Storage.Memory.Lists.{values_size, value_size-push_values}
use aerugo_cache.Storage.Lists.{PushSide, push, push_values, push_into, entry_or_list}
use aerugo_cache.HashMap.Laws.{get-insert}
use mathlib.Core.Path.{subst}
use aerugo_cache.Storage.View.{remove_if_expired-IsMap}
use aerugo_cache.Storage.Write.{finish_write-Outcome, WriteOutcome, config-record_evicted, Fits}
use aerugo_cache.Storage.Config.{StoreError}
use aerugo_cache.Storage.Evict.{remove_if_expired}
use aerugo_cache.Storage.Memory.{
  memory_size, memory_size-insert, value_size, memory_size-rows, estimated_memory_bytes-exact,
  found_size,
}
use aerugo_cache.Storage.Memory.Operations.{Trims, memory_size-remove_if_expired}
use aerugo_cache.Prelude.Clock.{Clock, later, Time}
use aerugo_cache.Storage.Store.{set, MemoryStore, finish_write, with_entries, record_rejected_write}
use aerugo_cache.HashMap.{get, insert, IsMap}
use aerugo_cache.Storage.Entry.{string, list, Entries, Entry, estimated_memory_bytes, Value}
use aerugo_cache.Prelude.{
  none, some, refl, inl, inr, arith, ok, err, ℕ, Bytes, ◌≡◌, ◌+◌, ◌≤◌, length, ◌<◌, ◌^◌, Result,
  true, ◌⊎◌, Bool-cases, ◌∙◌, sym, ap, bytes_eq_iff, bytes_eq, List, Option,
}

-- The memory of the entries, exactly, is within the limit `m`.
pub record Bounded (m : ℕ) (store : MemoryStore) : Type 0 where
  pub limit : store.config.max_memory_bytes ≡ some m
  pub within : memory_size store.entries ≤ m

pub Trims-Bounded :
    (m : ℕ) (before after : MemoryStore) → Trims before after → Bounded m before → Bounded m after
Trims-Bounded m before after t b = record {
  limit = rw t.config b.limit;
  within = omega (arith, t.smaller, b.within);
}

module _ {A : Type 0} (a : A) (m : ℕ) (before : MemoryStore) (live : Entries) (key : Bytes)
    (e : Entry) (limit : before.config.max_memory_bytes ≡ some m) (small : memory_size live ≤ m)
    (grown : memory_size (insert key e live) < 2 ^ 64) where
  WriteOutcome-Bounded :
      (r : Result StoreError A × MemoryStore) → WriteOutcome a before live key e r → Bounded m r.1
  unfolding record_rejected_write
  WriteOutcome-Bounded (ok x, after) (same, fits, here, rows, unique, (n, counted, is)) =
      let config : after.config ≡ before.config =
        ap (λ store. store.config) is
        ∙ config-record_evicted n (with_entries before after.entries) in
      let no_larger =
        memory_size-rows after.entries (insert key e live) unique (written rows here) in
      let exact = estimated_memory_bytes-exact after.entries (omega (arith, grown)) in
      let known : after.config.max_memory_bytes ≡ some m = rw config limit in
      let at_most : estimated_memory_bytes after.entries ≤ m =
        subst (λ o. Fits o (estimated_memory_bytes after.entries)) known fits in
      record { limit = known; within = omega arith }
    where
      written :
          ((j : Bytes)
            → (bytes_eq key j ≡ true)
              ⊎ ((get j after.entries ≡ get j live) ⊎ (get j after.entries ≡ none)))
          → get key after.entries ≡ some e
          → (j : Bytes)
          → (get j after.entries ≡ get j (insert key e live)) ⊎ (get j after.entries ≡ none)
      written rows here j =
          let at_j = rows j in
          let put = get-insert key j e live in
          elim (Bool-cases (bytes_eq key j)) [
            | inl same ↦ inl (rw (put, same, sym ((bytes_eq_iff key j).0 same)) here)
            | inr other ↦
                rw (put, other) (elim at_j [ inl same ↦ absurd (ground arith) | inr left ↦ left ])
          ]
  WriteOutcome-Bounded (err x, after) (is_out, rows, unique, is, why) =
      let config : after.config ≡ before.config = ap (λ store. store.config) is in
      let no_larger = memory_size-rows after.entries live unique (λ j. inl (rows j)) in
      record { limit = rw config limit; within = omega arith }

  pub finish_write-Bounded :
      (clock : Clock)
      → IsMap live
      → Bounded m (finish_write a before key (get key live) (insert key e live) clock).1
  finish_write-Bounded clock h =
      WriteOutcome-Bounded _ (finish_write-Outcome a before live key e clock h)

pub set-Bounded :
    (m : ℕ) (clock : Clock) (key value : Bytes) (store : MemoryStore)
    → IsMap store.entries
    → Bounded m store
    → m + (64 + length key + length value) < 2 ^ 64
    → Bounded m (set clock key value store).1
unfolding set
set-Bounded m clock key value store h b small =
    let live = remove_if_expired store.entries key (clock 0) in
    let less = memory_size-remove_if_expired store.entries key (clock 0) in
    let e : Entry = record { value = string value; expires_at = none } in
    let grown = memory_size-insert key e live in
    let size : value_size (string value) ≡ length value = unfold value_size in refl in
    finish_write-Bounded tt m store live key e b.limit (omega (arith, b.within))
      (omega (arith, b.within)) (later 1 clock)
      (remove_if_expired-IsMap store.entries key (clock 0) h)

pushed_size :
    (key : Bytes) (values : List Bytes) (side : PushSide) (entries : Entries)
    (expires_at : Option Time) (l : List Bytes)
    → value_size (list l) + (64 + length key) ≤ 64 + length key + found_size key (get key entries)
    → memory_size (
        insert key
          (record { value = list (push_values side values l); expires_at = expires_at })
          entries)
      ≤ memory_size entries + (64 + length key + values_size values)
pushed_size key values side entries expires_at l old =
    let pushed : Entry = record {
      value = list (push_values side values l);
      expires_at = expires_at;
    } in
    omega (arith, memory_size-insert key pushed entries, value_size-push_values side values l)

module _ (m : ℕ) (clock : Clock) (key : Bytes) (values : List Bytes) (side : PushSide)
    (store : MemoryStore) (entries : Entries) (h : IsMap entries) (b : Bounded m store)
    (within : memory_size entries ≤ m)
    (small : m + (64 + length key + values_size values) < 2 ^ 64) where
  push_into-Bounded :
      (expires_at : Option Time) (v : Value)
      → value_size v ≤ found_size key (get key entries)
      → Bounded m (push_into clock key values side store entries expires_at v).1
  push_into-Bounded expires_at (string _) old = record { limit = b.limit; within = within }
  push_into-Bounded expires_at (list l) old =
      finish_write-Bounded (length (push_values side values l)) m store entries key _ b.limit within
        (let size = pushed_size key values side entries expires_at l (omega (arith, old)) in
          omega (arith, within, small))
        (later 1 clock) h

  entry_or_list-size : (o : Option Entry) → value_size (entry_or_list o).value ≤ found_size key o
  unfolding value_size exact_sum
  entry_or_list-size none = omega arith
  entry_or_list-size (some e) = omega arith

pub push-Bounded :
    (m : ℕ) (clock : Clock) (key : Bytes) (values : List Bytes) (side : PushSide)
    (store : MemoryStore)
    → IsMap store.entries
    → Bounded m store
    → m + (64 + length key + values_size values) < 2 ^ 64
    → Bounded m (push clock key values side store).1
unfolding push
push-Bounded m clock key values side store h b small =
    let live = remove_if_expired store.entries key (clock 0) in
    let less = memory_size-remove_if_expired store.entries key (clock 0) in
    let within : memory_size live ≤ m = omega (arith, b.within) in
    let unique = remove_if_expired-IsMap store.entries key (clock 0) h in
    push_into-Bounded m clock key values side store live unique b within small _ _
      (entry_or_list-size m clock key values side store live unique b within small (get key live))
