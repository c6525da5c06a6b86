-- ===== src/Dashboard/Render.antt =====
-- src/tui.rs: the texts that the dashboard shows. Their layout and style are the library's.
use aerugo_cache.Dashboard.Gauge.{render_memory}
use aerugo_cache.Dashboard.Format.{format_ttl, format_bytes}
use aerugo_cache.Text.Decimal.{show_nat}
use aerugo_cache.Dashboard.{KeyRow, DashboardStats, DashboardSnapshot}
use aerugo_cache.Prelude.Ascii.{codes}
use aerugo_cache.Prelude.{none, some, [], ◌∷◌, Option, List, Bytes, map, ℕ}

abbrev Cells : Type 0
Cells = List Bytes

unfoldable pub keyspace_rows : DashboardStats → List Cells
keyspace_rows stats =
    (codes "total keys" ∷ show_nat stats.total_keys ∷ [])
    ∷ (codes "strings" ∷ show_nat stats.string_keys ∷ [])
    ∷ (codes "lists" ∷ show_nat stats.list_keys ∷ [])
    ∷ (codes "expiring" ∷ show_nat stats.expiring_keys ∷ [])
    ∷ (codes "list items" ∷ show_nat stats.list_items ∷ [])
    ∷ (codes "eviction" ∷ stats.eviction_policy ∷ [])
    ∷ []

unfoldable pub counter_rows : DashboardStats → List Cells
counter_rows stats =
    (codes "key bytes" ∷ format_bytes stats.key_bytes ∷ [])
    ∷ (codes "payload bytes" ∷ format_bytes stats.payload_bytes ∷ [])
    ∷ (codes "expired" ∷ show_nat stats.expired_keys_cleaned ∷ [])
    ∷ (codes "evicted" ∷ show_nat stats.evicted_keys ∷ [])
    ∷ (codes "rejected" ∷ show_nat stats.rejected_writes ∷ [])
    ∷ []

unfoldable pub key_cells : KeyRow → Cells
key_cells row =
    row.key
    ∷ row.value_type
    ∷ format_ttl row.ttl_seconds
    ∷ format_bytes row.payload_bytes
    ∷ format_bytes row.estimated_memory_bytes
    ∷ show_nat row.list_items
    ∷ []

abbrev no_keys : Cells
no_keys = codes "empty" ∷ codes "-" ∷ codes "-" ∷ codes "-" ∷ codes "-" ∷ codes "-" ∷ []

unfoldable pub key_rows : List KeyRow → List Cells
key_rows [] = no_keys ∷ []
key_rows (row ∷ rows) = map key_cells (row ∷ rows)

-- A paragraph, the percentage and the label of a gauge, or the rows of a table.
pub data Panel : Type 0 where
  gauge : ℕ → Bytes → Panel
  paragraph : Bytes → Panel
  table : List Cells → Panel

unfoldable pub render_keys : Option DashboardSnapshot → Panel
render_keys none = paragraph (codes "No key data yet")
render_keys (some snapshot) = table (key_rows snapshot.keys)

unfoldable pub render_stats : Option DashboardSnapshot → List Panel
render_stats none = paragraph (codes "Waiting for server data") ∷ []
render_stats (some snapshot) =
    let (percent, label) = render_memory snapshot.stats in
    gauge percent label
    ∷ table (keyspace_rows snapshot.stats)
    ∷ table (counter_rows snapshot.stats)
    ∷ []

-- The spans of the line.
unfoldable pub render_footer : Option Bytes → List Bytes
render_footer none = codes "r" ∷ codes " refresh  " ∷ codes "q" ∷ codes " quit" ∷ []
render_footer (some error) =
    codes "error: "
    ∷ error
    ∷ codes "  "
    ∷ codes "r"
    ∷ codes " retry  "
    ∷ codes "q"
    ∷ codes " quit"
    ∷ []
