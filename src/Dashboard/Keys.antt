-- ===== src/Dashboard/Keys.antt =====
-- src/tui.rs: `parse_keys` and the columns that it reads.
use aerugo_cache.Text.Decimal.{show_nat}
use aerugo_cache.Prelude.Ascii.{codes}
use aerugo_cache.Text.Utf8.{from_utf8}
use aerugo_cache.Dashboard.{DashboardError, KeyRow, invalid_inspect}
use aerugo_cache.Protocol.Frame.{Frame, bulk, integer, array, items}
use aerugo_cache.Prelude.Int.{ℤ, pos, negsuc}
use aerugo_cache.Prelude.{
  Bytes, List, Result, ℕ, err, ok, ◌>>=◌, ◌∷◌, ◌++◌, [], length, none, some, Option,
}

abbrev pub Parsed : Type 0 → Type 0
Parsed A = Result DashboardError A

abbrev pub invalid : {A : Type 0} → Bytes → Parsed A
invalid message = err (invalid_inspect message)

abbrev pub or_invalid : {A : Type 0} → Bytes → Option A → Parsed A
or_invalid message none = invalid message
or_invalid message (some a) = ok a

unfoldable pub frame_to_string : Frame → Parsed Bytes
frame_to_string (bulk value) = or_invalid (codes "column is not UTF-8") (from_utf8 value)
frame_to_string _ = invalid (codes "expected bulk string column")

unfoldable pub frame_to_i64 : Frame → Parsed ℤ
frame_to_i64 (integer value) = ok value
frame_to_i64 _ = invalid (codes "expected integer column")

-- `usize::try_from` of an `i64`.
abbrev pub usize_of : ℤ → Parsed ℕ
usize_of (pos n) = ok n
usize_of (negsuc n) = invalid (codes "negative size column")

unfoldable pub frame_to_usize : Frame → Parsed ℕ
frame_to_usize frame = frame_to_i64 frame >>= usize_of

-- The columns of `columns.try_into()`, an array of six.
unfoldable pub row_of : Frame → Frame → Frame → Frame → Frame → Frame → Parsed KeyRow
row_of key value_type ttl_seconds payload_bytes estimated_memory_bytes list_items = do
  key ← frame_to_string key
  value_type ← frame_to_string value_type
  ttl_seconds ← frame_to_i64 ttl_seconds
  payload_bytes ← frame_to_usize payload_bytes
  estimated_memory_bytes ← frame_to_usize estimated_memory_bytes
  list_items ← frame_to_usize list_items
  ok (record {
    key = key;
    value_type = value_type;
    ttl_seconds = ttl_seconds;
    payload_bytes = payload_bytes;
    estimated_memory_bytes = estimated_memory_bytes;
    list_items = list_items;
  })

abbrev pub six_columns : List Frame → Parsed KeyRow
six_columns (a ∷ b ∷ c ∷ d ∷ e ∷ f ∷ []) = row_of a b c d e f
six_columns columns = invalid (codes "expected 6 key columns, got " ++ show_nat (length columns))

unfoldable pub parse_key_row : Frame → Parsed KeyRow
parse_key_row (array columns) = six_columns (items columns)
parse_key_row _ = invalid (codes "expected key row array")

-- `collect` into a `Result`: the first error ends it.
unfoldable pub parse_key_rows : List Frame → Parsed (List KeyRow)
parse_key_rows [] = ok []
parse_key_rows (row ∷ more) = do
  first ← parse_key_row row
  others ← parse_key_rows more
  ok (first ∷ others)

unfoldable pub parse_keys : Frame → Parsed (List KeyRow)
parse_keys (array rows) = parse_key_rows (items rows)
parse_keys _ = invalid (codes "expected array inspect payload")
