-- ===== src/Cli.antt =====
-- src/main.rs: the command line. The arguments are parsed by a library; here is what the program does
-- with them.
pub mod Sizes
use aerugo_cache.Dashboard.{DashboardConfig}
use aerugo_cache.Server.{ServerConfig}
use Prim.Native.Nat.{max}
use aerugo_cache.Text.Decimal.{is_digit, u64_max}
use aerugo_cache.Text.Trim.{trim}
use aerugo_cache.Prelude.Ascii.{codes, to_ascii_lowercase}
use aerugo_cache.Storage.Config.{StoreConfig, EvictionPolicy}
use aerugo_cache.Text.Decimal
use aerugo_cache.Prelude.{
  none, some, [], ◌∷◌, ok, err, ◌>>=◌, Bytes, ℕ, Option, if◌then◌else◌, Result, leb, bytes_eq, ◌*◌,
  ◌||◌, ◌++◌,
}

-- `split_at` the first character that is no digit.
unfoldable pub split_digits : Bytes → Bytes × Bytes
split_digits [] = ([], [])
split_digits (c ∷ cs) =
    let (number, unit) = split_digits cs in if is_digit c then (c ∷ number, unit) else ([], c ∷ cs)

abbrev pub too_large : Bytes
too_large = codes "memory size is too large"

unfoldable pub multiplier : Bytes → Result Bytes ℕ
multiplier unit =
    if bytes_eq unit [] || bytes_eq unit (codes "b")
    then ok 1
    else if bytes_eq unit (codes "k") || (bytes_eq unit (codes "kb") || bytes_eq unit (codes "kib"))
    then ok 1024
    else if bytes_eq unit (codes "m") || (bytes_eq unit (codes "mb") || bytes_eq unit (codes "mib"))
    then ok (1024 * 1024)
    else if bytes_eq unit (codes "g") || (bytes_eq unit (codes "gb") || bytes_eq unit (codes "gib"))
    then ok (1024 * 1024 * 1024)
    else err (codes "unsupported memory unit '" ++ (unit ++ codes "', expected b, kb, mb, or gb"))

abbrev pub or_too_large : Option ℕ → Result Bytes ℕ
or_too_large none = err too_large
or_too_large (some n) = ok n

-- `usize::checked_mul`
unfoldable pub checked_mul : ℕ → ℕ → Option ℕ
checked_mul a b = if leb (a * b) u64_max then some (a * b) else none

-- The number and the unit.
unfoldable pub size_of : Bytes → Bytes → Result Bytes ℕ
size_of [] unit = err (codes "memory size must start with a number")
size_of (c ∷ cs) unit = do
  number ← or_too_large (Decimal.parse_usize (c ∷ cs))
  factor ← multiplier (to_ascii_lowercase (trim unit))
  or_too_large (checked_mul number factor)

unfoldable pub parse_byte_size : Bytes → Result Bytes ℕ
parse_byte_size value = let (number, unit) = split_digits (trim value) in size_of number unit

-- The arguments, their defaults filled in by the library.
pub record TuiArgs : Type 0 where
  pub refresh_ms : ℕ
  pub limit : ℕ

-- `Cli`. An address and a path are the platform's: parameters.
pub record Cli (Addr File : Type 0) : Type 0 where
  pub command : Option TuiArgs
  pub addr : Addr
  pub append_only : Option File
  pub max_memory : Option ℕ
  pub eviction_policy : EvictionPolicy

-- What the program starts.
pub data Started (Addr File : Type 0) : Type 0 where
  dashboard : DashboardConfig Addr → Started Addr File
  server : ServerConfig Addr File → Started Addr File

-- `Duration::from_millis`, in nanoseconds.
abbrev pub from_millis : ℕ → ℕ
from_millis ms = ms * 1_000_000

unfoldable pub tui_config : {Addr : Type 0} → Addr → TuiArgs → DashboardConfig Addr
tui_config addr args = record {
  addr = addr;
  refresh_interval = from_millis (max args.refresh_ms 250);
  key_limit = args.limit;
}

unfoldable pub server_config : {Addr File : Type 0} → Cli Addr File → ServerConfig Addr File
server_config cli = record {
  addr = cli.addr;
  append_only = cli.append_only;
  store_config = record {
    max_memory_bytes = cli.max_memory;
    eviction_policy = cli.eviction_policy;
  };
}

abbrev started_by : {Addr File : Type 0} → Cli Addr File → Option TuiArgs → Started Addr File
started_by cli (some args) = dashboard (tui_config cli.addr args)
started_by cli none = server (server_config cli)

-- `main`.
unfoldable pub started : {Addr File : Type 0} → Cli Addr File → Started Addr File
started cli = started_by cli cli.command
