-- ===== src/Storage/Entry.antt =====
-- src/storage.rs: entries, their expiry, and the estimate of the memory that they use.
use aerugo_cache.Prelude.{ℕ, Bool, false, Option, none, some, List, map, Bytes, leb, length}
use Prim.Native.Nat.{min}
use aerugo_cache.Prelude.Int.{ℤ, pos, negsuc}
use aerugo_cache.Prelude.Words.{i64_max, wrapping_add, sum_from}
use aerugo_cache.Prelude.Ascii.{codes}
use aerugo_cache.Prelude.Clock.{Time, as_secs, duration_since}
use aerugo_cache.HashMap.{HashMap}

abbrev pub entry_overhead_bytes : ℕ
entry_overhead_bytes = 64

abbrev pub list_item_overhead_bytes : ℕ
list_item_overhead_bytes = 24

pub data Value : Type 0 where
  string : Bytes → Value
  list : List Bytes → Value

pub record Entry : Type 0 where
  pub value : Value
  pub expires_at : Option Time

abbrev pub Entries : Type 0
Entries = HashMap Entry

unfoldable pub is_expired : Entry → Time → Bool
is_expired e now = elim e.expires_at [ none ↦ false | some expires_at ↦ leb expires_at now ]

unfoldable pub type_name : Value → Bytes
type_name (string _) = codes "string"
type_name (list _) = codes "list"

unfoldable pub payload_bytes : Value → ℕ
payload_bytes (string v) = length v
payload_bytes (list l) = sum_from 0 (map length l)

unfoldable pub item_bytes : Bytes → ℕ
item_bytes v = wrapping_add (length v) list_item_overhead_bytes

-- `Value::estimated_memory_bytes`
unfoldable pub value_memory_bytes : Value → ℕ
value_memory_bytes (string v) = length v
value_memory_bytes (list l) = sum_from 0 (map item_bytes l)

unfoldable pub list_items : Value → ℕ
list_items (string _) = 0
list_items (list l) = length l

unfoldable pub entry_estimated_memory_bytes : Bytes → Entry → ℕ
entry_estimated_memory_bytes key e =
    wrapping_add (wrapping_add entry_overhead_bytes (length key)) (value_memory_bytes e.value)

abbrev pub row_memory_bytes : Bytes × Entry → ℕ
row_memory_bytes (key, e) = entry_estimated_memory_bytes key e

unfoldable pub estimated_memory_bytes : Entries → ℕ
estimated_memory_bytes entries = sum_from 0 (map row_memory_bytes entries)

abbrev seconds_left : Option ℕ → ℤ
seconds_left none = pos 0
seconds_left (some d) = pos (min (as_secs d) i64_max)

unfoldable pub entry_ttl_seconds : Entry → Time → ℤ
entry_ttl_seconds e now = elim e.expires_at [
  | none ↦ negsuc 0
  | some expires_at ↦ seconds_left (duration_since expires_at now)
]
