-- ===== src/Server/Log.antt =====
-- src/server.rs: a connection as a sequence of steps on the shared state, and what it leaves in the
-- append-only file.
use mathlib.Core.Path.{subst}
use aerugo_cache.Command.Durable.{to_aof_frame}
use aerugo_cache.Storage.Store.{MemoryStore}
use aerugo_cache.Server.Total.{handle_connection-suc}
use aerugo_cache.Protocol.Encoder.{write_frame}
use aerugo_cache.Command.Execute.{Executed, execute}
use aerugo_cache.Command.Parse.{Parsed, from_frame}
use aerugo_cache.Command.Types.{Command, CommandError}
use aerugo_cache.Protocol.Frame.{Frame}
use aerugo_cache.Prelude.Clock.{Clock, later}
use aerugo_cache.Protocol.Parser.{Read, read_frame}
use aerugo_cache.Aof.{Disk, append}
use aerugo_cache.Server.{
  Server, respond, append_command, handle_connection, Handled, send, next_request, parsed, executed,
  persisted,
}
use aerugo_cache.Prelude.{
  refl, zero, suc, [], ◌∷◌, List, ap, inl, inr, ◌⊎◌, none, some, true, false, ok, err, Option, ℕ,
  Bytes, Bool, ◌≡◌, ◌++◌, ◌*◌, length,
}

-- A file system that takes all the bytes behind the file.
abbrev pub Reliable : Disk → Type 0
Reliable disk = (file bytes : Bytes) → disk file bytes ≡ (true, file ++ bytes)

-- The file behind a command that succeeded.
abbrev pub grown : Option Bytes → Option Frame → Option Bytes
grown none frame = none
grown (some file) none = some file
grown (some file) (some frame) = some (file ++ write_frame frame)

-- The frames that a peer sends, up to the end of the stream or to the first error.
abbrev frames_of : Read (Option Frame) → (Bytes → List Frame) → List Frame
frames_of (err e) more = []
frames_of (ok (none, rest)) more = []
frames_of (ok (some frame, rest)) more = frame ∷ more rest

abbrev pub requests : ℕ → ℕ → Bytes → List Frame
requests size zero input = []
requests size (suc fuel) input =
    frames_of (read_frame size (suc (2 * length input)) input) (requests size fuel)

-- The steps that frames take one after the other, each of them one: a frame is no command, and
-- nothing changes; or its command is refused; or its command succeeds and is appended.
pub data Serves : List Frame → Server → Server → Type 0 where
  done : (s : Server) → Serves [] s s
  unparsed :
      (frame : Frame) (e : CommandError) (others : List Frame) (s t : Server)
      → from_frame frame ≡ err e
      → Serves others s t
      → Serves (frame ∷ others) s t
  refused :
      (frame : Frame) (clock : Clock) (command : Command) (e : CommandError) (store : MemoryStore)
      (others : List Frame) (s t : Server)
      → from_frame frame ≡ ok command
      → execute clock command s.store ≡ (err e, store)
      → Serves others (record { store = store; aof = s.aof }) t
      → Serves (frame ∷ others) s t
  succeeded :
      (frame : Frame) (written clock : Clock) (command : Command) (reply : Frame)
      (store : MemoryStore) (others : List Frame) (s t : Server)
      → from_frame frame ≡ ok command
      → execute clock command s.store ≡ (ok reply, store)
      → Serves others (record { store = store; aof = grown s.aof (to_aof_frame written command) }) t
      → Serves (frame ∷ others) s t

-- The first of the frames are served, and all of them unless the socket does not take a reply.
abbrev pub ServesFirst : List Frame → (ℕ → Bool) → Server → Server → Type 0
ServesFirst all accepts s t =
    (xs : List Frame) × (ys : List Frame) × (all ≡ xs ++ ys)
    × Serves xs s t
    × ((ys ≡ []) ⊎ ((n : ℕ) × (accepts n ≡ false)))

module _ (disk : Disk) (reliable : Reliable disk) where
  pub append_command-grown :
      (aof : Option Bytes) (frame : Option Frame)
      → append_command disk aof frame ≡ (true, grown aof frame)
  unfolding append_command append
  append_command-grown none frame = refl
  append_command-grown (some file) none = refl
  append_command-grown (some file) (some frame) = rw (reliable file (write_frame frame))

  executed-Serves :
      (frame : Frame) (written clock : Clock) (command : Command) (others : List Frame)
      (s t : Server) (r : Executed)
      → from_frame frame ≡ ok command
      → execute clock command s.store ≡ r
      → Serves others (executed disk s.aof (to_aof_frame written command) r).1 t
      → Serves (frame ∷ others) s t
  executed-Serves frame written clock command others s t (ok reply, store) is_command e more =
      succeeded frame written clock command reply store others s t is_command e (
        subst (λ p. Serves others (persisted reply store p).1 t)
          (append_command-grown s.aof (to_aof_frame written command)) more)
  executed-Serves frame written clock command others s t (err e, store) is_command h more =
      refused frame clock command e store others s t is_command h more

  parsed-Serves :
      (clock : Clock) (frame : Frame) (others : List Frame) (s t : Server) (r : Parsed Command)
      → from_frame frame ≡ r
      → Serves others (parsed disk clock s r).1 t
      → Serves (frame ∷ others) s t
  parsed-Serves clock frame others s t (ok command) e more =
      executed-Serves frame clock (later 2 clock) command others s t _ e refl more
  parsed-Serves clock frame others s t (err x) e more = unparsed frame x others s t e more

  respond-Serves :
      (clock : Clock) (frame : Frame) (others : List Frame) (s t : Server)
      → Serves others (respond disk clock frame s).1 t
      → Serves (frame ∷ others) s t
  unfolding respond
  respond-Serves clock frame others s t more =
      parsed-Serves clock frame others s t (from_frame frame) refl more

  next_request-Serves :
      (r : Read (Option Frame)) (accepts : ℕ → Bool) (s : Server) (more : Bytes → List Frame)
      (go_on : Frame → Bytes → Handled)
      → ((frame : Frame) (rest : Bytes)
          → ServesFirst (frame ∷ more rest) accepts s (go_on frame rest).2)
      → ServesFirst (frames_of r more) accepts s (next_request r s go_on).2
  next_request-Serves (err e) accepts s more go_on k = ([], [], refl, done s, inl refl)
  next_request-Serves (ok (none, rest)) accepts s more go_on k = ([], [], refl, done s, inl refl)
  next_request-Serves (ok (some frame, rest)) accepts s more go_on k = k frame rest

  send-Serves :
      (clock : Clock) (frame : Frame) (more : List Frame) (accepts : ℕ → Bool) (s : Server)
      (reply : Bytes) (accepted : Bool) (others : Handled)
      → accepts 0 ≡ accepted
      → ServesFirst more (λ n. accepts (suc n)) (respond disk clock frame s).1 others.2
      → ServesFirst
          (frame ∷ more)
          accepts
          s
          (send accepted reply (respond disk clock frame s).1 others).2
  send-Serves clock frame more accepts s reply false others e h =
      (frame ∷ [], more, refl, respond-Serves clock frame [] s _ (done _), inr (0, e))
  send-Serves clock frame more accepts s reply true (result, sent, after) e
        (xs, ys, all, serves, rest) =
      (
        frame ∷ xs,
        ys,
        ap (λ l. frame ∷ l) all,
        respond-Serves clock frame xs s after serves,
        elim rest [ inl none_left ↦ inl none_left | inr (n, refuses) ↦ inr (suc n, refuses) ],
      )

  -- On a file system that takes all the bytes, and whatever a peer sends, a connection serves the
  -- frames that it reads one after the other, in the order in which they came, each by one step:
  -- it is no command, and nothing changes; or its command is refused; or its command succeeds,
  -- with its effect on the store, and is appended. These are all the frames before the end of the
  -- stream or the first error in it, or the first of them where the socket does not take a reply.
  pub handle_connection-Serves :
      (size fuel : ℕ) (clocks : ℕ → Clock) (accepts : ℕ → Bool) (input : Bytes) (s : Server)
      → ServesFirst
          (requests size fuel input)
          accepts
          s
          (handle_connection disk size fuel clocks accepts input s).2
  handle_connection-Serves size zero clocks accepts input s =
      unfold handle_connection in ([], [], refl, done s, inl refl)
  handle_connection-Serves size (suc fuel) clocks accepts input s =
      rw (handle_connection-suc disk size fuel clocks accepts input s) (
        next_request-Serves (read_frame size (suc (2 * length input)) input) accepts s
          (requests size fuel) _
          λ frame rest.
            send-Serves (clocks 0) frame (requests size fuel rest) accepts s _ (accepts 0) _ refl (
              handle_connection-Serves size fuel (λ n. clocks (suc n)) (λ n. accepts (suc n)) rest
                (respond disk (clocks 0) frame s).1))
