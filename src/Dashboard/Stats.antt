-- ===== src/Dashboard/Stats.antt =====
-- src/tui.rs: `parse_stats` and the fields that it reads.
use aerugo_cache.Text.Decimal
use aerugo_cache.Text.Utf8.{from_utf8}
use aerugo_cache.Text.Lines.{split_once, lines}
use aerugo_cache.Prelude.Ascii.{codes}
use aerugo_cache.Dashboard.{DashboardError, DashboardStats, invalid_stats}
use aerugo_cache.Protocol.Frame.{Frame, bulk}
use aerugo_cache.HashMap.{HashMap, get, collect}
use aerugo_cache.Prelude.{
  Bytes, List, Result, Option, ℕ, ◌∷◌, ◌++◌, err, some, ok, none, [], ◌>>=◌, if◌then◌else◌,
  bytes_eq,
}

abbrev pub Parsed : Type 0 → Type 0
Parsed A = Result DashboardError A

abbrev pub or_invalid : {A : Type 0} → Bytes → Option A → Parsed A
or_invalid message none = err (invalid_stats message)
or_invalid message (some a) = ok a

-- `filter_map` of `split_once(':')`.
abbrev pub key_values : List Bytes → List (Bytes × Bytes)
key_values [] = []
key_values (line ∷ more) = elim (split_once b':' line) [
  | none ↦ key_values more
  | some field ↦ field ∷ key_values more
]

unfoldable pub parse_stat_string : HashMap Bytes → Bytes → Parsed Bytes
parse_stat_string fields key = or_invalid (codes "missing field " ++ key) (get key fields)

unfoldable pub parse_stat_usize : HashMap Bytes → Bytes → Parsed ℕ
parse_stat_usize fields key = do
  value ← parse_stat_string fields key
  or_invalid (codes "invalid usize field " ++ key) (Decimal.parse_usize value)

unfoldable pub parse_stat_optional_usize : HashMap Bytes → Bytes → Parsed (Option ℕ)
parse_stat_optional_usize fields key = do
  value ← parse_stat_string fields key
  let parsed =
        or_invalid (codes "invalid optional usize field " ++ key) (Decimal.parse_usize value) in
      if bytes_eq value (codes "none") then ok none else do number ← parsed; ok (some number)

unfoldable pub parse_stat_u64 : HashMap Bytes → Bytes → Parsed ℕ
parse_stat_u64 fields key = do
  value ← parse_stat_string fields key
  or_invalid (codes "invalid u64 field " ++ key) (Decimal.parse_u64 value)

-- The fields are read in the order of the source, so the first that fails is reported.
unfoldable pub stats_of : HashMap Bytes → Parsed DashboardStats
stats_of fields = do
  total_keys ← parse_stat_usize fields (codes "total_keys")
  string_keys ← parse_stat_usize fields (codes "string_keys")
  list_keys ← parse_stat_usize fields (codes "list_keys")
  expiring_keys ← parse_stat_usize fields (codes "expiring_keys")
  list_items ← parse_stat_usize fields (codes "list_items")
  key_bytes ← parse_stat_usize fields (codes "key_bytes")
  payload_bytes ← parse_stat_usize fields (codes "payload_bytes")
  estimated_memory_bytes ← parse_stat_usize fields (codes "estimated_memory_bytes")
  max_memory_bytes ← parse_stat_optional_usize fields (codes "max_memory_bytes")
  eviction_policy ← parse_stat_string fields (codes "eviction_policy")
  expired_keys_cleaned ← parse_stat_u64 fields (codes "expired_keys_cleaned")
  evicted_keys ← parse_stat_u64 fields (codes "evicted_keys")
  rejected_writes ← parse_stat_u64 fields (codes "rejected_writes")
  ok (record {
    total_keys = total_keys;
    string_keys = string_keys;
    list_keys = list_keys;
    expiring_keys = expiring_keys;
    list_items = list_items;
    key_bytes = key_bytes;
    payload_bytes = payload_bytes;
    estimated_memory_bytes = estimated_memory_bytes;
    max_memory_bytes = max_memory_bytes;
    eviction_policy = eviction_policy;
    expired_keys_cleaned = expired_keys_cleaned;
    evicted_keys = evicted_keys;
    rejected_writes = rejected_writes;
  })

unfoldable pub parse_stats : Frame → Parsed DashboardStats
parse_stats (bulk value) = do
  text ← or_invalid (codes "stats payload is not UTF-8") (from_utf8 value)
  stats_of (collect (key_values (lines text)))
parse_stats _ = err (invalid_stats (codes "expected bulk stats payload"))
