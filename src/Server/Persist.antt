-- ===== src/Server/Persist.antt =====
-- src/server.rs: the store behind a request, whether or not the append-only file took its command.
use aerugo_cache.Command.Durable.{to_aof_frame}
use aerugo_cache.Command.Types.{Command}
use aerugo_cache.Command.Parse.{Parsed, from_frame}
use aerugo_cache.Command.Execute.{Executed, execute}
use aerugo_cache.Storage.Store.{MemoryStore}
use aerugo_cache.Prelude.Clock.{Clock, later}
use aerugo_cache.Protocol.Frame.{Frame}
use aerugo_cache.Server.{respond, Server, persisted, executed, parsed, append_command}
use aerugo_cache.Aof.{Disk}
use aerugo_cache.Prelude.{refl, true, false, ok, err, Option, Bytes, Bool, ◌≡◌}

persisted-store :
    (reply : Frame) (store : MemoryStore) (p q : Bool × Option Bytes)
    → (persisted reply store p).1.store ≡ (persisted reply store q).1.store
persisted-store reply store (true, a) (true, b) = refl
persisted-store reply store (true, a) (false, b) = refl
persisted-store reply store (false, a) (true, b) = refl
persisted-store reply store (false, a) (false, b) = refl

executed-store :
    (disk other : Disk) (aof : Option Bytes) (frame : Option Frame) (r : Executed)
    → (executed disk aof frame r).1.store ≡ (executed other aof frame r).1.store
executed-store disk other aof frame (ok reply, store) =
    persisted-store reply store (append_command disk aof frame) (append_command other aof frame)
executed-store disk other aof frame (err e, store) = refl

parsed-store :
    (disk other : Disk) (clock : Clock) (server : Server) (r : Parsed Command)
    → (parsed disk clock server r).1.store ≡ (parsed other clock server r).1.store
parsed-store disk other clock server (ok command) =
    executed-store disk other server.aof (to_aof_frame clock command)
      (execute (later 2 clock) command server.store)
parsed-store disk other clock server (err e) = refl

-- The store behind a request does not depend on the file system: a command whose append failed, and
-- which is answered with an error, leaves the store as if the append had succeeded.
pub respond-store :
    (disk other : Disk) (clock : Clock) (frame : Frame) (server : Server)
    → (respond disk clock frame server).1.store ≡ (respond other clock frame server).1.store
unfolding respond
respond-store disk other clock frame server =
    parsed-store disk other clock server (from_frame frame)
