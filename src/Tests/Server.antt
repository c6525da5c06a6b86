-- ===== src/Tests/Server.antt =====
-- src/command.rs, src/persistence/aof.rs and src/server.rs: the theorems on small inputs.
use aerugo_cache.Command.Valid.Dispatch.{from_frame-IsCommand}
use aerugo_cache.Server.Persist.{respond-store}
use aerugo_cache.Protocol.RoundTrip.{AllReadable}
use aerugo_cache.Server.Total.{handle_connection_total}
use aerugo_cache.Aof.Total.{replay_total}
use aerugo_cache.Aof.Replay.{log, run, kept, replay-log}
use aerugo_cache.Storage.Store.{new}
use aerugo_cache.Protocol.Encoder.{write_items, crlf}
use aerugo_cache.Aof.{replay, Disk}
use aerugo_cache.Server.Log
use aerugo_cache.Server.Log.{ServesFirst, handle_connection-Serves}
use aerugo_cache.Server.{reading, Server, handle_connection, respond}
use aerugo_cache.Protocol.Parser.{out_of_fuel}
use aerugo_cache.Text.Utf8.{from_utf8, is_utf8}
use aerugo_cache.Text.Decimal.{show_nat}
use aerugo_cache.Prelude.Ascii.{codes, to_ascii_uppercase, to_upper}
use aerugo_cache.Command.Durable.{
  to_aof_frame, command_frame, bulk_text, expiration_deadline, list_aof_frame, unix_seconds_ceil,
}
use aerugo_cache.Command.Valid.{IsCommand}
use aerugo_cache.Protocol.Frame.{Frame, frames, count}
use aerugo_cache.Prelude.Clock.{Clock, as_secs, nanos_per_sec, checked_add, subsec_nanos}
use aerugo_cache.Command.Parse.{
  bytes_to_string, parse_u64, from_frame, into_bulk_args, dispatch, two_args,
}
use aerugo_cache.Command.Types.{expire, set, rpush, get, Command}
use aerugo_cache.Text.Decimal
use aerugo_cache.Prelude.{
  refl, [], ◌∷◌, some, true, false, arith, ok, err, ℕ, ◌*◌, ◌<◌, ◌^◌, ◌≡◌, bytes_eq, Bytes, List,
  All, ◌++◌, ◌≢◌,
}

abbrev frame_size : ℕ
frame_size = 32

abbrev at_noon : Clock
at_noon i = 43_200 * nanos_per_sec

abbrev every_noon : ℕ → Clock
every_noon n = at_noon

at_noon_early : (i : ℕ) → as_secs (at_noon i) < 2 ^ 63
unfolding as_secs
at_noon_early i = omega arith

-- Commands

abbrev expire_frame : Frame
expire_frame = command_frame "expire" (codes "key" ∷ codes "10" ∷ [])

expire_parsed : from_frame expire_frame ≡ ok (expire (codes "key") 10)
unfolding from_frame bulk_text frames into_bulk_args bytes_to_string from_utf8 is_utf8 dispatch
    to_ascii_uppercase to_upper bytes_eq two_args parse_u64 Decimal.parse_u64 Decimal.parse_unsigned
expire_parsed = refl

from_frame-IsCommand_example : IsCommand (expire (codes "key") 10)
from_frame-IsCommand_example =
    from_frame-IsCommand expire_frame (expire (codes "key") 10) expire_parsed

-- The append-only file

abbrev commands : List Command
commands =
    set (codes "k") (codes "v")
    ∷ get (codes "k")
    ∷ expire (codes "k") 10
    ∷ rpush (codes "l") (codes "x" ∷ [])
    ∷ []

commands-IsCommand : All IsCommand commands
unfolding is_utf8
commands-IsCommand = (refl, (refl, ((refl, omega arith), ((refl, (λ e. cc)), tt))))

log-readable : AllReadable frame_size (log every_noon commands)
unfolding to_aof_frame frames count list_aof_frame bulk_text expiration_deadline unix_seconds_ceil
    checked_add as_secs subsec_nanos show_nat
log-readable = (
  (omega arith, omega arith, (omega arith, (omega arith, (omega arith, tt)))),
  (
    (omega arith, omega arith, (omega arith, (omega arith, (omega arith, tt)))),
    ((omega arith, omega arith, (omega arith, (omega arith, (omega arith, tt)))), tt),
  ),
)

replay-log_example :
    replay frame_size every_noon (some (write_items (log every_noon commands))) new ≡ (
      ok (run every_noon (kept every_noon commands) (new, 0)).1,
      (run every_noon (kept every_noon commands) (new, 0)).0,
    )
replay-log_example =
    replay-log frame_size every_noon every_noon commands new (λ n. at_noon_early) commands-IsCommand
      log-readable

replay_total_example : (replay frame_size every_noon (some (codes "*2")) new).0 ≢ err out_of_fuel
replay_total_example = replay_total frame_size every_noon (some (codes "*2")) new

-- Connections

abbrev appends : Disk
appends file bytes = (true, file ++ bytes)

abbrev fresh : Server
fresh = record { store = new; aof = some [] }

abbrev requests : Bytes
requests = codes "SET k v" ++ (crlf ++ (codes "NOPE" ++ (crlf ++ (codes "LPUSH k x" ++ crlf))))

handle_connection_total_example :
    (handle_connection appends frame_size 100 every_noon (λ n. true) requests fresh).0
    ≢ err (reading out_of_fuel)
handle_connection_total_example =
    handle_connection_total appends frame_size 100 every_noon (λ n. true) requests fresh
      (omega arith)

handle_connection-Serves_example :
    ServesFirst
      (Log.requests frame_size 100 requests)
      (λ n. true)
      fresh
      (handle_connection appends frame_size 100 every_noon (λ n. true) requests fresh).2
handle_connection-Serves_example =
    handle_connection-Serves appends (λ file bytes. refl) frame_size 100 every_noon (λ n. true)
      requests fresh

abbrev refuses : Disk
refuses file bytes = (false, file)

abbrev set_frame : Frame
set_frame = command_frame "SET" (codes "k" ∷ codes "v" ∷ [])

respond-store_example :
    (respond refuses at_noon set_frame fresh).1.store
    ≡ (respond appends at_noon set_frame fresh).1.store
respond-store_example = respond-store refuses appends at_noon set_frame fresh
