-- ===== src/Dashboard/StatsRoundTrip.antt =====
-- src/tui.rs and src/command.rs: the statistics that the server prints are read back.
use aerugo_cache.Protocol.Frame.{bulk}
use aerugo_cache.Text.Decimal
use aerugo_cache.HashMap.{HashMap, collect, extend, get, insert}
use aerugo_cache.Dashboard.Stats.{
  stats_of, parse_stat_optional_usize, parse_stat_u64, parse_stat_usize, parse_stat_string,
  key_values, parse_stats,
}
use aerugo_cache.Prelude.Ascii.{codes}
use aerugo_cache.Storage.Config.{as_str, EvictionPolicy, no_eviction, all_keys_random}
use aerugo_cache.Text.Decimal.{
  show_nat, show_nat-IsDigit, u64_max, IsDigit, parse_unsigned-show_nat,
}
use aerugo_cache.Dashboard.{DashboardStats}
use aerugo_cache.Text.Lines.{
  are_plain, is_plain, unlines, is_plain-digits, split_once, from_utf8-unlines, lines-unlines,
}
use aerugo_cache.Command.Execute.{format_stats, max_memory_text}
use aerugo_cache.Storage.Reports.{StoreStats}
use aerugo_cache.Prelude.{
  Option, ℕ, List, ◌≡◌, append_assoc, true, Bytes, ◌∷◌, ◌++◌, [], refl, none, some, ◌≤◌, bytes_eq,
  ok, All, false, arith, ap, ◌∙◌,
}

-- The lines of `format_stats`.
stat_lines : StoreStats → List Bytes
stat_lines s =
    codes "# Keyspace"
    ∷ (codes "total_keys:" ++ show_nat s.total_keys)
    ∷ (codes "string_keys:" ++ show_nat s.string_keys)
    ∷ (codes "list_keys:" ++ show_nat s.list_keys)
    ∷ (codes "expiring_keys:" ++ show_nat s.expiring_keys)
    ∷ (codes "list_items:" ++ show_nat s.list_items)
    ∷ []
    ∷ codes "# Memory"
    ∷ (codes "key_bytes:" ++ show_nat s.key_bytes)
    ∷ (codes "payload_bytes:" ++ show_nat s.payload_bytes)
    ∷ (codes "estimated_memory_bytes:" ++ show_nat s.estimated_memory_bytes)
    ∷ (codes "max_memory_bytes:" ++ max_memory_text s.max_memory_bytes)
    ∷ (codes "eviction_policy:" ++ as_str s.eviction_policy)
    ∷ []
    ∷ codes "# Counters"
    ∷ (codes "expired_keys_cleaned:" ++ show_nat s.expired_keys_cleaned)
    ∷ (codes "evicted_keys:" ++ show_nat s.evicted_keys)
    ∷ (codes "rejected_writes:" ++ show_nat s.rejected_writes)
    ∷ []

format_stats-unlines : (s : StoreStats) → format_stats s ≡ unlines (stat_lines s)
unfolding format_stats stat_lines unlines
format_stats-unlines s = simp append_assoc

is_plain-show_nat : (n : ℕ) → is_plain (show_nat n) ≡ true
is_plain-show_nat n = is_plain-digits (show_nat n) (show_nat-IsDigit n)

is_plain-max_memory : (o : Option ℕ) → is_plain (max_memory_text o) ≡ true
is_plain-max_memory none = unfold is_plain in refl
is_plain-max_memory (some n) = is_plain-show_nat n

is_plain-as_str : (policy : EvictionPolicy) → is_plain (as_str policy) ≡ true
unfolding is_plain as_str
is_plain-as_str no_eviction = refl
is_plain-as_str all_keys_random = refl

are_plain-stat_lines : (s : StoreStats) → are_plain (stat_lines s) ≡ true
unfolding are_plain is_plain stat_lines
are_plain-stat_lines s = rw (
  is_plain-show_nat s.total_keys,
  is_plain-show_nat s.string_keys,
  is_plain-show_nat s.list_keys,
  is_plain-show_nat s.expiring_keys,
  is_plain-show_nat s.list_items,
  is_plain-show_nat s.key_bytes,
  is_plain-show_nat s.payload_bytes,
  is_plain-show_nat s.estimated_memory_bytes,
  is_plain-max_memory s.max_memory_bytes,
  is_plain-as_str s.eviction_policy,
  is_plain-show_nat s.expired_keys_cleaned,
  is_plain-show_nat s.evicted_keys,
  is_plain-show_nat s.rejected_writes,
)

-- The statistics that the dashboard shows.
unfoldable pub shown_stats : StoreStats → DashboardStats
shown_stats s = record {
  total_keys = s.total_keys;
  string_keys = s.string_keys;
  list_keys = s.list_keys;
  expiring_keys = s.expiring_keys;
  list_items = s.list_items;
  key_bytes = s.key_bytes;
  payload_bytes = s.payload_bytes;
  estimated_memory_bytes = s.estimated_memory_bytes;
  max_memory_bytes = s.max_memory_bytes;
  eviction_policy = as_str s.eviction_policy;
  expired_keys_cleaned = s.expired_keys_cleaned;
  evicted_keys = s.evicted_keys;
  rejected_writes = s.rejected_writes;
}

-- A limit, where there is one, fits a `usize`.
abbrev LimitFits : Option ℕ → Type 0
LimitFits none = Unit
LimitFits (some n) = n ≤ u64_max

-- The figures are words.
abbrev pub HasWords : StoreStats → Type 0
HasWords s =
    (s.total_keys ≤ u64_max)
    × (s.string_keys ≤ u64_max)
    × (s.list_keys ≤ u64_max)
    × (s.expiring_keys ≤ u64_max)
    × (s.list_items ≤ u64_max)
    × (s.key_bytes ≤ u64_max)
    × (s.payload_bytes ≤ u64_max)
    × (s.estimated_memory_bytes ≤ u64_max)
    × LimitFits s.max_memory_bytes
    × (s.expired_keys_cleaned ≤ u64_max)
    × (s.evicted_keys ≤ u64_max)
    × (s.rejected_writes ≤ u64_max)

digits-ne-none : (s : Bytes) → All IsDigit s → bytes_eq s (codes "none") ≡ false
unfolding bytes_eq
digits-ne-none [] h = refl
digits-ne-none (c ∷ s) h = ground arith

stat_fields : StoreStats → HashMap Bytes
unfolding stat_lines
stat_fields s = collect (key_values (stat_lines s))

module _ (s : StoreStats) where
  abbrev Field : Bytes → Bytes → Type 0
  Field name value = parse_stat_string (stat_fields s) name ≡ ok value

  Field-usize :
      (name : Bytes) (n : ℕ)
      → Field name (show_nat n)
      → n ≤ u64_max
      → parse_stat_usize (stat_fields s) name ≡ ok n
  unfolding parse_stat_usize Decimal.parse_usize
  Field-usize name n h fits = rw (h, parse_unsigned-show_nat u64_max n fits)

  Field-u64 :
      (name : Bytes) (n : ℕ)
      → Field name (show_nat n)
      → n ≤ u64_max
      → parse_stat_u64 (stat_fields s) name ≡ ok n
  unfolding parse_stat_u64 Decimal.parse_u64
  Field-u64 name n h fits = rw (h, parse_unsigned-show_nat u64_max n fits)

  Field-limit :
      (name : Bytes) (o : Option ℕ)
      → Field name (max_memory_text o)
      → LimitFits o
      → parse_stat_optional_usize (stat_fields s) name ≡ ok o
  unfolding parse_stat_optional_usize Decimal.parse_usize
  Field-limit name none h fits = unfold bytes_eq in rw h
  Field-limit name (some n) h fits =
      rw (
        h,
        parse_unsigned-show_nat u64_max n fits,
        digits-ne-none (show_nat n) (show_nat-IsDigit n),
      )

  stats_of-fields : HasWords s → stats_of (stat_fields s) ≡ ok (shown_stats s)
  unfolding stats_of shown_stats parse_stat_string stat_fields stat_lines split_once extend insert
      get bytes_eq
  stats_of-fields h = rw (
    Field-usize (codes "total_keys") s.total_keys refl h.0,
    Field-usize (codes "string_keys") s.string_keys refl h.1,
    Field-usize (codes "list_keys") s.list_keys refl h.2,
    Field-usize (codes "expiring_keys") s.expiring_keys refl h.3,
    Field-usize (codes "list_items") s.list_items refl h.4,
    Field-usize (codes "key_bytes") s.key_bytes refl h.5,
    Field-usize (codes "payload_bytes") s.payload_bytes refl h.6,
    Field-usize (codes "estimated_memory_bytes") s.estimated_memory_bytes refl h.7,
    Field-limit (codes "max_memory_bytes") s.max_memory_bytes refl h.8,
    Field-u64 (codes "expired_keys_cleaned") s.expired_keys_cleaned refl h.9,
    Field-u64 (codes "evicted_keys") s.evicted_keys refl h.10,
    Field-u64 (codes "rejected_writes") s.rejected_writes refl h.11,
  )

-- The statistics that INFO prints are read back, if their figures fit in 64 bits.
pub parse_stats-format_stats :
    (s : StoreStats) → HasWords s → parse_stats (bulk (format_stats s)) ≡ ok (shown_stats s)
unfolding parse_stats stat_fields
parse_stats-format_stats s h =
    let plain = are_plain-stat_lines s in
    rw (format_stats-unlines s, from_utf8-unlines (stat_lines s) plain)
      (ap (λ ls. stats_of (collect (key_values ls))) (lines-unlines (stat_lines s) plain)
        ∙ stats_of-fields s h)
