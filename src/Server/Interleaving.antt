-- ===== src/Server/Interleaving.antt =====
-- src/server.rs: connections that run at the same time, and the cleanup task. `execute` and `append`
-- take locks of their own, so steps of other connections may come between the two.
use aerugo_cache.Storage.Sound.Operations.{cleanup_expired-Sound}
use aerugo_cache.Command.Sound.{execute-Sound}
use mathlib.Core.Path.{subst}
use aerugo_cache.Storage.Sound.{Sound}
use aerugo_cache.Command.Durable.{to_aof_frame}
use aerugo_cache.Command.Execute.{execute}
use aerugo_cache.Command.Valid.{IsCommand}
use aerugo_cache.Command.Types.{Command, CommandError}
use aerugo_cache.Prelude.Clock.{Clock}
use aerugo_cache.Storage.Store.{MemoryStore, cleanup_expired}
use aerugo_cache.Protocol.Frame.{Frame}
use aerugo_cache.Aof.{Disk}
use aerugo_cache.Server.{Server, append_command}
use aerugo_cache.Prelude.{[], ◌∷◌, none, some, ok, err, Option, Bytes, List, ◌≡◌, ◌++◌}

-- The store, the append-only file, and the frames of commands that were executed and are still to be
-- appended.
pub record Shared : Type 0 where
  pub store : MemoryStore
  pub aof : Option Bytes
  pub pending : List Frame

abbrev pub frame_list : Option Frame → List Frame
frame_list none = []
frame_list (some frame) = frame ∷ []

-- The states that connections and the cleanup task reach on a file system, which may take the bytes
-- of a frame, a part of them or none.
pub data Reaches (disk : Disk) (start : Server) : Shared → Type 0 where
  starts : Reaches disk start (record { store = start.store; aof = start.aof; pending = [] })
  refuses :
      (s : Shared) (clock : Clock) (command : Command) (e : CommandError) (store : MemoryStore)
      → Reaches disk start s
      → IsCommand command
      → execute clock command s.store ≡ (err e, store)
      → Reaches disk start (record { store = store; aof = s.aof; pending = s.pending })
  executes :
      (s : Shared) (written clock : Clock) (command : Command) (reply : Frame) (store : MemoryStore)
      → Reaches disk start s
      → IsCommand command
      → execute clock command s.store ≡ (ok reply, store)
      → Reaches disk start (record {
        store = store;
        aof = s.aof;
        pending = s.pending ++ frame_list (to_aof_frame written command);
      })
  appends :
      (store : MemoryStore) (aof : Option Bytes) (before : List Frame) (frame : Frame)
      (after : List Frame)
      → Reaches disk start (record { store = store; aof = aof; pending = before ++ frame ∷ after })
      → Reaches disk start (record {
        store = store;
        aof = (append_command disk aof (some frame)).1;
        pending = before ++ after;
      })
  cleans :
      (s : Shared) (clock : Clock)
      → Reaches disk start s
      → Reaches disk start
          (record { store = (cleanup_expired clock s.store).1; aof = s.aof; pending = s.pending })

-- In every state that interleaved connections and the cleanup task reach, on whatever file system,
-- a key stands once and no key holds an empty list, if that was so at the start.
pub Reaches-Sound :
    (disk : Disk) (start : Server) (s : Shared)
    → Sound start.store.entries
    → Reaches disk start s
    → Sound s.store.entries
Reaches-Sound disk start s sound starts = sound
Reaches-Sound disk start s sound (refuses t clock command e store r valid failed) =
    subst (λ x. Sound x.1.entries) failed
      (execute-Sound clock command t.store valid (Reaches-Sound disk start t sound r))
Reaches-Sound disk start s sound (executes t written clock command reply store r valid done) =
    subst (λ x. Sound x.1.entries) done
      (execute-Sound clock command t.store valid (Reaches-Sound disk start t sound r))
Reaches-Sound disk start s sound (appends store aof before frame after r) =
    Reaches-Sound disk start
      (record { store = store; aof = aof; pending = before ++ frame ∷ after }) sound r
Reaches-Sound disk start s sound (cleans t clock r) =
    cleanup_expired-Sound clock t.store (Reaches-Sound disk start t sound r)
