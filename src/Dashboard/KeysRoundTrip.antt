-- ===== src/Dashboard/KeysRoundTrip.antt =====
-- src/tui.rs and src/command.rs: the rows of AERUGO.INSPECT are read back.
use aerugo_cache.Prelude.Words.{i64_max}
use Prim.Native.Nat.{min}
use aerugo_cache.Protocol.Frame.{items, frames, array, items-frames, bulk}
use aerugo_cache.Prelude.{List, All, ◌≡◌, map, true, ok, ◌∷◌, [], refl, Bytes}
use aerugo_cache.Command.Execute.{inspection_to_frame, integer_frame}
use aerugo_cache.Dashboard.{KeyRow}
use aerugo_cache.Text.Utf8.{is_utf8, from_utf8_lem}
use aerugo_cache.Storage.Reports.{KeyInspection}
use aerugo_cache.Dashboard.Keys.{
  parse_key_rows, parse_key_row, parse_keys, row_of, frame_to_string, frame_to_i64, frame_to_usize,
}

-- The row that the dashboard shows. Sizes travel as an `i64`, clamped to its largest value.
unfoldable pub shown_row : KeyInspection → KeyRow
shown_row row = record {
  key = row.key;
  value_type = row.value_type;
  ttl_seconds = row.ttl_seconds;
  payload_bytes = min row.payload_bytes i64_max;
  estimated_memory_bytes = min row.estimated_memory_bytes i64_max;
  list_items = min row.list_items i64_max;
}

-- The columns of text are UTF-8.
abbrev pub HasText : KeyInspection → Type 0
HasText row = (is_utf8 row.key ≡ true) × (is_utf8 row.value_type ≡ true)

frame_to_string_text : (text : Bytes) → is_utf8 text ≡ true → frame_to_string (bulk text) ≡ ok text
unfolding frame_to_string
frame_to_string_text text h = rw (from_utf8_lem text h)

parse_key_row-inspection :
    (row : KeyInspection)
    → HasText row
    → parse_key_row (inspection_to_frame row) ≡ ok (shown_row row)
unfolding parse_key_row inspection_to_frame items frames row_of frame_to_i64 frame_to_usize
    integer_frame shown_row
parse_key_row-inspection row h =
    rw (frame_to_string_text row.key h.0, frame_to_string_text row.value_type h.1)

parse_key_rows-inspection :
    (rows : List KeyInspection)
    → All HasText rows
    → parse_key_rows (map inspection_to_frame rows) ≡ ok (map shown_row rows)
unfolding parse_key_rows
parse_key_rows-inspection [] h = refl
parse_key_rows-inspection (row ∷ rows) h =
    rw (parse_key_row-inspection row h.0, parse_key_rows-inspection rows h.1)

-- The rows that AERUGO.INSPECT replies are read back in their order, if their keys are text.
pub parse_keys-inspection :
    (rows : List KeyInspection)
    → All HasText rows
    → parse_keys (array (frames (map inspection_to_frame rows))) ≡ ok (map shown_row rows)
unfolding parse_keys
parse_keys-inspection rows h =
    rw (items-frames (map inspection_to_frame rows)) (parse_key_rows-inspection rows h)
