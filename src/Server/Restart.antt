-- ===== src/Server/Restart.antt =====
-- src/server.rs: a server that is stopped and started again on its append-only file.
use aerugo_cache.Server.Start.{start, opened}
use aerugo_cache.Storage.Undated.{Plain}
use aerugo_cache.Protocol.RoundTrip.{AllReadable}
use aerugo_cache.Command.Valid.Dispatch.{from_frame-IsCommand}
use aerugo_cache.Storage.Config.{StoreConfig}
use aerugo_cache.Command.Valid.{IsCommand}
use mathlib.Core.Path.{subst}
use aerugo_cache.Protocol.Streams.{write_items-cons, write_items-nil}
use aerugo_cache.Server.Answers.{respond_all, accepts_all, handle_connection-write_items}
use aerugo_cache.Server.Log.{Reliable, append_command-grown}
use aerugo_cache.Protocol.Encoder.{write_items, write_frame}
use aerugo_cache.Aof.{count_if_ok, Disk}
use aerugo_cache.Server.{Server, executed, respond, handle_connection}
use aerugo_cache.Command.Execute.{Executed, execute}
use aerugo_cache.Aof.Recovery.{succeeding, keep_ok, succeeding-IsCommand, replay-restores}
use aerugo_cache.Command.Lasting.{IsLasting}
use aerugo_cache.Storage.Store.{MemoryStore, with_config}
use aerugo_cache.Command.Parse.{from_frame}
use aerugo_cache.Prelude.Clock.{Clock, later, as_secs}
use aerugo_cache.Command.Durable.{to_aof_frame}
use aerugo_cache.Aof.Replay.{run, log, logged, replay-log}
use aerugo_cache.Command.Types.{expire, Command}
use aerugo_cache.Protocol.Frame.{nil, cons, Frames, Frame}
use aerugo_cache.Prelude.{
  refl, suc, [], ◌∷◌, none, some, ok, err, arith, true, ℕ, List, ◌≡◌, Bytes, ◌++◌, Option, ◌∙◌, ap,
  All, sym, append_assoc, append-nil, length, ◌<◌, ◌^◌,
}

-- The frames of a peer are parsed into the commands.
abbrev pub AreRequests : Frames → List Command → Type 0
AreRequests nil [] = Unit
AreRequests (cons frame xs) (command ∷ commands) =
    (from_frame frame ≡ ok command) × AreRequests xs commands
AreRequests _ _ = ⊥

abbrev pub epoch : ℕ → Clock
epoch n i = 0

-- The clocks under which a connection executes what it parsed.
abbrev pub executing : (ℕ → Clock) → ℕ → Clock
executing clocks n = later 2 (clocks n)

to_aof_frame-IsLasting :
    (clock : Clock) (command : Command)
    → IsLasting command
    → to_aof_frame clock command ≡ to_aof_frame (epoch 0) command
unfolding to_aof_frame
to_aof_frame-IsLasting clock (expire key secs) h = elim h [ ]
to_aof_frame-IsLasting clock _ h = refl

-- The commands of a run, as the file keeps them.
abbrev pub file_frames : (ℕ → Clock) → List Command → MemoryStore → Frames
file_frames clocks commands store = log epoch (succeeding (executing clocks) commands store)

-- The state behind the requests: the store of the run, and the file with its frames.
abbrev pub behind : (ℕ → Clock) → List Command → MemoryStore → Bytes → Server
behind clocks commands store file = record {
  store = (run (executing clocks) commands (store, 0)).0;
  aof = some (file ++ write_items (file_frames clocks commands store));
}

counted-store :
    (go_on : MemoryStore × ℕ → MemoryStore × ℕ) (r : Executed) (n m : ℕ)
    → ((store : MemoryStore) (i j : ℕ) → (go_on (store, i)).0 ≡ (go_on (store, j)).0)
    → (go_on (count_if_ok n r)).0 ≡ (go_on (count_if_ok m r)).0
counted-store go_on (ok reply, after) n m h = h after (suc n) (suc m)
counted-store go_on (err e, after) n m h = h after n m

run-store :
    (clocks : ℕ → Clock) (commands : List Command) (store : MemoryStore) (n m : ℕ)
    → (run clocks commands (store, n)).0 ≡ (run clocks commands (store, m)).0
run-store clocks [] store n m = refl
run-store clocks (command ∷ commands) store n m =
    counted-store (run (λ i. clocks (suc i)) commands) (execute (clocks 0) command store) n m
      (run-store (λ i. clocks (suc i)) commands)

server_eq :
    (store after : MemoryStore) (file more : Bytes)
    → store ≡ after
    → file ≡ more
    → ◌≡◌ {A = Server}
        (record { store = store; aof = some file })
        (record { store = after; aof = some more })
server_eq store after file more p q =
    ap (λ s. record { store = s; aof = some file }) p
    ∙ ap (λ f. record { store = after; aof = some f }) q

module _ (disk : Disk) (reliable : Reliable disk) where
  -- One request, by the outcome of its command and by its frame in the file.
  executed-behind :
      (clocks : ℕ → Clock) (xs : Frames) (command : Command) (commands : List Command)
      (file : Bytes) (r : Executed) (o : Option Frame)
      → ((store : MemoryStore) (more : Bytes)
          → (respond_all disk
              (λ n. clocks (suc n))
              xs
              (record { store = store; aof = some more })).1
            ≡ behind (λ n. clocks (suc n)) commands store more)
      → to_aof_frame (epoch 0) command ≡ o
      → (respond_all disk (λ n. clocks (suc n)) xs (executed disk (some file) o r).1).1 ≡ record {
        store = (run (executing (λ n. clocks (suc n))) commands (count_if_ok 0 r)).0;
        aof = some (
            file
            ++ write_items (
                log epoch (
                  keep_ok r.0 command
                    (succeeding (executing (λ n. clocks (suc n))) commands r.1))));
      }
  executed-behind clocks xs command commands file (err e, after) o h same = h after file
  executed-behind clocks xs command commands file (ok reply, after) none h same =
      let rest = file_frames (λ n. clocks (suc n)) commands after in
      rw (append_command-grown disk reliable (some file) none) (
        h after file
        ∙ server_eq _ _ _ _ (run-store (executing (λ n. clocks (suc n))) commands after 0 1)
            (ap (λ o. file ++ write_items (logged o rest)) (sym same)))
  executed-behind clocks xs command commands file (ok reply, after) (some frame) h same =
      let rest = file_frames (λ n. clocks (suc n)) commands after in
      rw (append_command-grown disk reliable (some file) (some frame)) (
        h after (file ++ write_frame frame)
        ∙ server_eq _ _ _ _ (run-store (executing (λ n. clocks (suc n))) commands after 0 1) (
            append_assoc file (write_frame frame) (write_items rest)
            ∙ ap (λ bytes. file ++ bytes) (sym (write_items-cons frame rest))
            ∙ ap (λ o. file ++ write_items (logged o rest)) (sym same)))

  respond_all-behind :
      (clocks : ℕ → Clock) (xs : Frames) (commands : List Command) (store : MemoryStore)
      (file : Bytes)
      → AreRequests xs commands
      → All IsLasting commands
      → (respond_all disk clocks xs (record { store = store; aof = some file })).1
        ≡ behind clocks commands store file
  unfolding respond
  respond_all-behind clocks nil [] store file h l =
      server_eq _ _ _ _ refl (sym (ap (λ more. file ++ more) write_items-nil ∙ append-nil file))
  respond_all-behind clocks nil (command ∷ commands) store file h l = absurd h
  respond_all-behind clocks (cons frame xs) [] store file h l = absurd h
  respond_all-behind clocks (cons frame xs) (command ∷ commands) store file h l =
      rw (h.0, to_aof_frame-IsLasting (clocks 0) command l.0)
        (executed-behind clocks xs command commands file
          (execute (later 2 (clocks 0)) command store) (to_aof_frame (epoch 0) command)
          (λ next more. respond_all-behind (λ n. clocks (suc n)) xs commands next more h.1 l.1)
          refl)

AreRequests-IsCommand :
    (xs : Frames) (commands : List Command) → AreRequests xs commands → All IsCommand commands
AreRequests-IsCommand nil [] h = tt
AreRequests-IsCommand nil (command ∷ commands) h = absurd h
AreRequests-IsCommand (cons frame xs) [] h = absurd h
AreRequests-IsCommand (cons frame xs) (command ∷ commands) h =
    (from_frame-IsCommand frame command h.0, AreRequests-IsCommand xs commands h.1)

epoch_early : (n i : ℕ) → as_secs (epoch n i) < 2 ^ 63
unfolding as_secs
epoch_early n i = omega arith

with_config-Plain :
    (config : StoreConfig) → config.max_memory_bytes ≡ none → Plain (with_config config)
unfolding with_config
with_config-Plain config unlimited = record { unlimited = unlimited; undated = tt }

module _ (size : ℕ) (other clocks : ℕ → Clock) (xs : Frames) (commands : List Command)
    (config : StoreConfig) (unlimited : config.max_memory_bytes ≡ none)
    (requests : AreRequests xs commands) (lasting : All IsLasting commands)
    (stored : AllReadable size (file_frames clocks commands (with_config config))) where
  abbrev file : Bytes
  file = write_items (file_frames clocks commands (with_config config))

  restarted :
      start size other config (some (some file, true))
      ≡ ok (behind clocks commands (with_config config) [])
  unfolding start
  restarted =
      let valid = AreRequests-IsCommand xs commands requests in
      let early = epoch_early in
      let replayed =
        replay-log size epoch other (succeeding (executing clocks) commands (with_config config))
          (with_config config) early
          (succeeding-IsCommand (executing clocks) commands (with_config config) valid) stored in
      let restores =
        replay-restores size epoch other (executing clocks) commands (with_config config)
          (with_config-Plain config unlimited) lasting valid early stored in
      ap (opened true (some file)) replayed
      ∙ ap ok (server_eq _ _ _ _ (sym (ap (λ r. r.1) replayed) ∙ restores) refl)

  -- A server without a memory limit, on an empty file that takes all the bytes, serves a peer that sends
  -- commands without deadlines. Started again on the file that it leaves, at whatever time, it is in
  -- the state in which it was stopped. The requests and the frames of the file are small enough to
  -- be read.
  pub handle_connection-start :
      (disk : Disk) (fuel : ℕ)
      → Reliable disk
      → AllReadable size xs
      → length (write_items xs) < fuel
      → let stopped =
          (handle_connection disk size fuel clocks accepts_all
            (write_items xs)
            (record { store = with_config config; aof = some [] })).2 in
        start size other config (some (stopped.aof, true)) ≡ ok stopped
  handle_connection-start disk fuel reliable readable less =
      let served =
        ap (λ handled. handled.2)
          (handle_connection-write_items disk size fuel clocks xs
            (record { store = with_config config; aof = some [] }) readable less)
        ∙ respond_all-behind disk reliable clocks xs commands (with_config config) [] requests
            lasting in
      subst (λ t. start size other config (some (t.aof, true)) ≡ ok t) (sym served) restarted
