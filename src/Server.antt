-- ===== src/Server.antt =====
-- src/server.rs: what a connection does with the store and with the append-only file.
pub mod Total
pub mod Answers
pub mod Log
pub mod Start
pub mod Restart
pub mod Persist
pub mod Interleaving
pub mod Recovered
pub mod Limits
use aerugo_cache.Storage.Config.{StoreConfig}
use aerugo_cache.Protocol.Encoder.{write_frame}
use aerugo_cache.Command.Durable.{to_aof_frame}
use aerugo_cache.Command.Types.{Command, error_frame}
use aerugo_cache.Command.Execute.{Executed, execute}
use aerugo_cache.Prelude.Ascii.{codes}
use aerugo_cache.Command.Parse.{Parsed, from_frame}
use aerugo_cache.Prelude.Clock.{Clock, later}
use aerugo_cache.Aof.{Disk, append}
use aerugo_cache.Storage.Store.{MemoryStore}
use aerugo_cache.Protocol.Frame.{error, Frame}
use aerugo_cache.Protocol.Parser.{out_of_fuel, ReadError, read_frame, Read}
use aerugo_cache.Prelude.{
  refl, zero, suc, [], ◌∷◌, none, some, inl, inr, true, false, arith, ok, err, Bytes, Bool, Option,
  ℕ, Result, ◌++◌, ◌*◌, length,
}

-- An address and a path are the platform's: parameters.
pub record ServerConfig (Addr File : Type 0) : Type 0 where
  pub addr : Addr
  pub append_only : Option File
  pub store_config : StoreConfig

-- The state that the connections share.
pub record Server : Type 0 where
  pub store : MemoryStore
  pub aof : Option Bytes

unfoldable pub append_command : Disk → Option Bytes → Option Frame → Bool × Option Bytes
append_command disk none frame = (true, none)
append_command disk (some file) none = (true, some file)
append_command disk (some file) (some frame) =
    let (done, after) = append disk frame file in (done, some after)

abbrev pub persisted : Frame → MemoryStore → Bool × Option Bytes → Frame × Server
persisted reply store (true, aof) = (reply, record { store = store; aof = aof })
persisted reply store (false, aof) =
    (error (codes "ERR failed to persist command"), record { store = store; aof = aof })

abbrev pub executed : Disk → Option Bytes → Option Frame → Executed → Frame × Server
executed disk aof frame (ok reply, store) = persisted reply store (append_command disk aof frame)
executed disk aof frame (err e, store) = (error_frame e, record { store = store; aof = aof })

abbrev pub parsed : Disk → Clock → Server → Parsed Command → Frame × Server
parsed disk clock server (ok command) =
    executed disk server.aof (to_aof_frame clock command)
      (execute (later 2 clock) command server.store)
parsed disk clock server (err e) = (error_frame e, server)

-- One round of `handle_connection`: the reply to a frame, and the state behind it. `to_aof_frame`
-- reads the clock twice before `execute` does.
unfoldable pub respond : Disk → Clock → Frame → Server → Frame × Server
respond disk clock frame server = parsed disk clock server (from_frame frame)

pub data ConnectionError : Type 0 where
  reading : ReadError → ConnectionError
  writing : ConnectionError

-- How a connection ends, the replies that it wrote, and the state behind it.
abbrev pub Handled : Type 0
Handled = Result ConnectionError Unit × Bytes × Server

abbrev pub next_request : Read (Option Frame) → Server → (Frame → Bytes → Handled) → Handled
next_request (err e) server go_on = (err (reading e), [], server)
next_request (ok (none, rest)) server go_on = (ok tt, [], server)
next_request (ok (some frame, rest)) server go_on = go_on frame rest

abbrev pub send : Bool → Bytes → Server → Handled → Handled
send false reply server others = (err writing, [], server)
send true reply server (result, sent, after) = (result, reply ++ sent, after)

-- The loop of `handle_connection` on the bytes that the peer still sends. `accepts n` tells whether
-- the socket takes the n-th reply. A round costs a unit of fuel: `handle_connection_total` of the
-- module Server.Total shows that the number of bytes is enough.
unfoldable pub handle_connection :
    Disk → ℕ → ℕ → (ℕ → Clock) → (ℕ → Bool) → Bytes → Server → Handled
handle_connection disk frame_size zero clocks accepts input server =
    (err (reading out_of_fuel), [], server)
handle_connection disk frame_size (suc fuel) clocks accepts input server =
    next_request (read_frame frame_size (suc (2 * length input)) input) server λ frame rest.
      let (reply, after) = respond disk (clocks 0) frame server in
      send (accepts 0) (write_frame reply) after (
        handle_connection disk frame_size fuel (λ n. clocks (suc n)) (λ n. accepts (suc n)) rest
          after)
