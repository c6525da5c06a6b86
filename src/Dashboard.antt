-- ===== src/Dashboard.antt =====
-- src/tui.rs: the terminal dashboard. Here its data; the modules below read the server's replies and
-- run the loop.
-- What the terminal shows is laid out by a library.
pub mod Stats
pub mod Keys
pub mod Fetch
pub mod Format
pub mod Render
pub mod Gauge
pub mod Serves
pub mod App
pub mod Loop
pub mod Shown
pub mod StatsRoundTrip
pub mod KeysRoundTrip
use aerugo_cache.Client.{ClientError}
use aerugo_cache.Prelude.Int.{ℤ}
use aerugo_cache.Prelude.{Bytes, ℕ, List, Option}

-- An address is the platform's: a parameter. The interval is in nanoseconds.
pub record DashboardConfig (Addr : Type 0) : Type 0 where
  pub addr : Addr
  pub refresh_interval : ℕ
  pub key_limit : ℕ

pub data DashboardError : Type 0 where
  -- The text of the `io::Error`.
  io : Bytes → DashboardError
  client : ClientError → DashboardError
  invalid_stats : Bytes → DashboardError
  invalid_inspect : Bytes → DashboardError

pub record DashboardStats : Type 0 where
  pub total_keys : ℕ
  pub string_keys : ℕ
  pub list_keys : ℕ
  pub expiring_keys : ℕ
  pub list_items : ℕ
  pub key_bytes : ℕ
  pub payload_bytes : ℕ
  pub estimated_memory_bytes : ℕ
  pub max_memory_bytes : Option ℕ
  pub eviction_policy : Bytes
  pub expired_keys_cleaned : ℕ
  pub evicted_keys : ℕ
  pub rejected_writes : ℕ

pub record KeyRow : Type 0 where
  pub key : Bytes
  pub value_type : Bytes
  pub ttl_seconds : ℤ
  pub payload_bytes : ℕ
  pub estimated_memory_bytes : ℕ
  pub list_items : ℕ

pub record DashboardSnapshot : Type 0 where
  pub stats : DashboardStats
  pub keys : List KeyRow
