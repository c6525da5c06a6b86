-- ===== src/Storage/Sound.antt =====
-- src/storage.rs: what every operation keeps true of the entries.
pub mod Operations
pub mod Lists
use mathlib.Core.Path.{subst}
use aerugo_cache.Storage.Write.{WriteOutcome, finish_write-Outcome}
use aerugo_cache.Storage.Config.{StoreError}
use aerugo_cache.HashMap.Laws.{remove-IsMap, retain-IsMap, get-remove, insert-IsMap, get-insert}
use aerugo_cache.Storage.Evict.{remove_if_expired}
use aerugo_cache.Prelude.Clock.{Time, Clock}
use aerugo_cache.HashMap.{IsMap, remove, insert, get}
use aerugo_cache.Storage.View.{
  live, view, remove_if_expired-IsMap, get-remove_if_expired, get-retain_live,
}
use aerugo_cache.Storage.Store.{MemoryStore, retain_live, finish_write}
use aerugo_cache.Storage.Entry.{string, list, Entries, Value, Entry, is_expired}
use aerugo_cache.Prelude.{
  refl, zero, suc, [], ◌∷◌, none, some, inl, inr, true, false, arith, ok, err, Bool, Option, Bytes,
  Result, Bool-cases, if◌then◌else◌, bytes_eq, not, bytes_eq_iff, sym,
}

abbrev pub NotEmptyList : Value → Type 0
NotEmptyList (string v) = Unit
NotEmptyList (list []) = ⊥
NotEmptyList (list (x ∷ xs)) = Unit

abbrev pub NotEmpty : Option Entry → Type 0
NotEmpty none = Unit
NotEmpty (some e) = NotEmptyList e.value

-- A key stands once, and no key holds an empty list.
pub record Sound (entries : Entries) : Type 0 where
  pub unique : IsMap entries
  pub full : (j : Bytes) → NotEmpty (get j entries)

NotEmpty-live : (now : Time) (o : Option Entry) → NotEmpty o → NotEmpty (live now o)
unfolding live
NotEmpty-live now none h = tt
NotEmpty-live now (some e) h = elim (Bool-cases (is_expired e now)) [
  | inl expired ↦ rw expired tt
  | inr fresh ↦ rw fresh h
]

NotEmpty-if :
    (b : Bool) (x y : Option Entry) → NotEmpty x → NotEmpty y → NotEmpty (if b then x else y)
NotEmpty-if true x y hx hy = hx
NotEmpty-if false x y hx hy = hy

pub remove-Sound : (key : Bytes) (entries : Entries) → Sound entries → Sound (remove key entries)
remove-Sound key entries s = record {
  unique = remove-IsMap key entries s.unique;
  full = λ j. rw (get-remove key j entries) (NotEmpty-if (bytes_eq key j) _ _ tt (s.full j));
}

pub insert-Sound :
    (key : Bytes) (e : Entry) (entries : Entries)
    → NotEmptyList e.value
    → Sound entries
    → Sound (insert key e entries)
insert-Sound key e entries h s = record {
  unique = insert-IsMap key e entries s.unique;
  full = λ j. rw (get-insert key j e entries) (NotEmpty-if (bytes_eq key j) _ _ h (s.full j));
}

pub remove_if_expired-Sound :
    (entries : Entries) (key : Bytes) (now : Time)
    → Sound entries
    → Sound (remove_if_expired entries key now)
unfolding view
remove_if_expired-Sound entries key now s = record {
  unique = remove_if_expired-IsMap entries key now s.unique;
  full = λ j.
      rw (get-remove_if_expired entries key j now) (
        NotEmpty-if (bytes_eq key j) _ _ (NotEmpty-live now (get j entries) (s.full j)) (s.full j));
}

pub retain_live-Sound :
    (now : Time) (entries : Entries) → Sound entries → Sound (retain_live now entries)
unfolding view
retain_live-Sound now entries s = record {
  unique = unfold retain_live in retain-IsMap (λ e. not (is_expired e now)) entries s.unique;
  full = λ j.
      rw (get-retain_live now entries j s.unique) (NotEmpty-live now (get j entries) (s.full j));
}

WriteOutcome-Sound :
    {A : Type 0} (a : A) (before : MemoryStore) (live_rows : Entries) (key : Bytes) (e : Entry)
    (r : Result StoreError A × MemoryStore)
    → WriteOutcome a before live_rows key e r
    → NotEmptyList e.value
    → Sound live_rows
    → Sound r.1.entries
WriteOutcome-Sound a before live_rows key e (ok x, after) o h s = record {
  unique = o.4;
  full = λ j. elim (o.3 j) [
    | inl same ↦
        subst (λ k. NotEmpty (get k after.entries)) ((bytes_eq_iff key j).0 same)
          (subst NotEmpty (sym o.2) h)
    | inr (inl kept) ↦ subst NotEmpty (sym kept) (s.full j)
    | inr (inr gone) ↦ subst NotEmpty (sym gone) tt
  ];
}
WriteOutcome-Sound a before live_rows key e (err x, after) o h s = record {
  unique = o.2;
  full = λ j. subst NotEmpty (sym (o.1 j)) (s.full j);
}

pub finish_write-Sound :
    {A : Type 0} (a : A) (before : MemoryStore) (live_rows : Entries) (key : Bytes) (e : Entry)
    (clock : Clock)
    → NotEmptyList e.value
    → Sound live_rows
    → Sound (finish_write a before key (get key live_rows) (insert key e live_rows) clock).1.entries
finish_write-Sound a before live_rows key e clock h s =
    WriteOutcome-Sound a before live_rows key e _
      (finish_write-Outcome a before live_rows key e clock s.unique) h s
