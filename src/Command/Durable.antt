-- ===== src/Command/Durable.antt =====
-- src/command.rs: the form in which a command is written to the append-only file.
use aerugo_cache.Text.Decimal.{show_nat}
use aerugo_cache.Prelude.Clock.{Clock, Time, as_secs, checked_add, subsec_nanos}
use aerugo_cache.Prelude.Ascii.{codes}
use aerugo_cache.Protocol.Frame.{array, bulk, frames, Frame}
use aerugo_cache.Command.Types.{
  ping, echo, set, get, del, exists, expire, expire_at, ttl, persist, lpush, rpush, lpop, rpop,
  lrange, db_size, info, aerugo_stats, aerugo_inspect, Command,
}
use Prim.Native.String.{String}
use mathlib.Core.Option.{get_or}
use aerugo_cache.Prelude.{[], ◌∷◌, none, some, Bytes, List, ℕ, map, Option, ◌+◌, if◌then◌else◌, ltb}

unfoldable pub bulk_text : String → Frame
bulk_text text = bulk (codes text)

unfoldable pub unix_seconds_ceil : Time → ℕ
unix_seconds_ceil time = as_secs time + (if ltb 0 (subsec_nanos time) then 1 else 0)

-- `unwrap_or` has read the clock a second time before it is known whether the reading is needed.
unfoldable pub expiration_deadline : Clock → ℕ → ℕ
expiration_deadline clock secs = unix_seconds_ceil (get_or (checked_add (clock 0) secs) (clock 1))

abbrev pub command_frame : String → List Bytes → Frame
command_frame name args = array (frames (bulk_text name ∷ map bulk args))

unfoldable pub list_aof_frame : String → Bytes → List Bytes → Frame
list_aof_frame name key values = command_frame name (key ∷ values)

unfoldable pub to_aof_frame : Clock → Command → Option Frame
to_aof_frame clock (set key value) = some (command_frame "SET" (key ∷ value ∷ []))
to_aof_frame clock (del ks) = some (command_frame "DEL" ks)
to_aof_frame clock (expire key secs) =
    some (command_frame "EXPIREAT" (key ∷ show_nat (expiration_deadline clock secs) ∷ []))
to_aof_frame clock (expire_at key unix_seconds) =
    some (command_frame "EXPIREAT" (key ∷ show_nat unix_seconds ∷ []))
to_aof_frame clock (persist key) = some (command_frame "PERSIST" (key ∷ []))
to_aof_frame clock (lpush key values) = some (list_aof_frame "LPUSH" key values)
to_aof_frame clock (rpush key values) = some (list_aof_frame "RPUSH" key values)
to_aof_frame clock (lpop key) = some (command_frame "LPOP" (key ∷ []))
to_aof_frame clock (rpop key) = some (command_frame "RPOP" (key ∷ []))
to_aof_frame clock (ping message) = none
to_aof_frame clock (echo message) = none
to_aof_frame clock (get key) = none
to_aof_frame clock (exists ks) = none
to_aof_frame clock (ttl key) = none
to_aof_frame clock (lrange key start stop) = none
to_aof_frame clock db_size = none
to_aof_frame clock info = none
to_aof_frame clock aerugo_stats = none
to_aof_frame clock (aerugo_inspect limit) = none
