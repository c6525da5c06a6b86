-- ===== src/Storage/Undated.antt =====
-- src/storage.rs: entries without deadlines, on which the clock has no influence.
pub mod Operations
pub mod Lists
use aerugo_cache.Prelude.Clock.{Time, Clock}
use aerugo_cache.Storage.Entry.{is_expired, Entries, Entry}
use aerugo_cache.Storage.Store.{
  MemoryStore, retain_live, finish_write, with_entries, record_evicted,
}
use aerugo_cache.Storage.Evict.{remove_if_expired, enforce_memory_limit}
use aerugo_cache.HashMap.{get, insert, remove, retain}
use aerugo_cache.Prelude.{
  refl, zero, suc, [], ◌∷◌, none, some, inl, inr, true, false, arith, ok, err, Bytes, Option, Bool,
  bytes_eq, Bool-cases, ◌≡◌, if◌then◌else◌,
}

abbrev pub Timeless : Option Entry → Type 0
Timeless none = Unit
Timeless (some e) = e.expires_at ≡ none

abbrev pub Undated : Entries → Type 0
Undated [] = Unit
Undated ((key, e) ∷ entries) = (e.expires_at ≡ none) × Undated entries

Timeless-if :
    (b : Bool) (x y : Option Entry) → Timeless x → Timeless y → Timeless (if b then x else y)
Timeless-if true x y hx hy = hx
Timeless-if false x y hx hy = hy

pub get-Timeless : (key : Bytes) (entries : Entries) → Undated entries → Timeless (get key entries)
unfolding get
get-Timeless key [] u = tt
get-Timeless key ((j, e) ∷ entries) u =
    Timeless-if (bytes_eq j key) (some e) _ u.0 (get-Timeless key entries u.1)

pub insert-Undated :
    (key : Bytes) (e : Entry) (entries : Entries)
    → e.expires_at ≡ none
    → Undated entries
    → Undated (insert key e entries)
unfolding insert
insert-Undated key e [] h u = (h, tt)
insert-Undated key e ((j, x) ∷ entries) h u = elim (Bool-cases (bytes_eq j key)) [
  | inl same ↦ rw same (h, u.1)
  | inr other ↦ rw other (u.0, insert-Undated key e entries h u.1)
]

pub remove-Undated :
    (key : Bytes) (entries : Entries) → Undated entries → Undated (remove key entries)
unfolding remove
remove-Undated key [] u = tt
remove-Undated key ((j, x) ∷ entries) u = elim (Bool-cases (bytes_eq j key)) [
  | inl same ↦ rw same (remove-Undated key entries u.1)
  | inr other ↦ rw other (u.0, remove-Undated key entries u.1)
]

is_expired-Undated : (e : Entry) (now : Time) → e.expires_at ≡ none → is_expired e now ≡ false
unfolding is_expired
is_expired-Undated e now h = rw h

keeps :
    (o : Option Entry) (key : Bytes) (entries : Entries) (now : Time)
    → get key entries ≡ o
    → Timeless o
    → remove_if_expired entries key now ≡ entries
unfolding remove_if_expired
keeps none key entries now e h = ground arith
keeps (some x) key entries now e h = ground (arith, is_expired-Undated x now h)

pub remove_if_expired-Undated :
    (entries : Entries) (key : Bytes) (now : Time)
    → Undated entries
    → remove_if_expired entries key now ≡ entries
remove_if_expired-Undated entries key now u =
    keeps (get key entries) key entries now refl (get-Timeless key entries u)

pub retain_live-Undated :
    (now : Time) (entries : Entries) → Undated entries → retain_live now entries ≡ entries
unfolding retain_live retain
retain_live-Undated now [] u = refl
retain_live-Undated now ((key, e) ∷ entries) u =
    rw (is_expired-Undated e now u.0, retain_live-Undated now entries u.1)

-- No memory limit and no deadlines.
pub record Plain (store : MemoryStore) : Type 0 where
  pub unlimited : store.config.max_memory_bytes ≡ none
  pub undated : Undated store.entries

pub finish_write-Plain :
    {A : Type 0} (a : A) (store : MemoryStore) (key : Bytes) (old : Option Entry)
    (entries : Entries) (clock : Clock)
    → Plain store
    → finish_write a store key old entries clock ≡ (ok a, with_entries store entries)
unfolding finish_write enforce_memory_limit record_evicted
finish_write-Plain a store key old entries clock p = rw p.unlimited

pub with_entries-Plain :
    (store : MemoryStore) (entries : Entries)
    → Plain store
    → Undated entries
    → Plain (with_entries store entries)
with_entries-Plain store entries p u = record { unlimited = p.unlimited; undated = u }
