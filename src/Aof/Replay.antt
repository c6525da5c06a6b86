-- ===== src/Aof/Replay.antt =====
-- src/persistence/aof.rs: what is replayed from a file that `append` wrote.
use aerugo_cache.Protocol.Streams.{read_frame-nil, read_frame-cons, shorter_rest}
use aerugo_cache.Command.Valid.{IsCommand}
use aerugo_cache.Aof.Total.{replay_loop-suc}
use aerugo_cache.Command.RoundTrip.{durable, from_frame-to_aof_frame}
use aerugo_cache.Command.Execute.{execute}
use aerugo_cache.Command.Parse.{from_frame}
use aerugo_cache.Protocol.RoundTrip.{AllReadable}
use aerugo_cache.Command.Durable.{to_aof_frame}
use aerugo_cache.Storage.Store.{MemoryStore}
use aerugo_cache.Command.Types.{Command}
use aerugo_cache.Prelude.Clock.{Clock, as_secs}
use aerugo_cache.Protocol.Encoder.{write_items}
use aerugo_cache.Aof.{replay_frame, replay, count_if_ok, replay_loop}
use aerugo_cache.Protocol.Frame.{nil, cons, Frames, Frame}
use aerugo_cache.Prelude.{
  refl, zero, suc, [], ◌∷◌, none, some, arith, ok, ℕ, Option, ◌≡◌, List, length, ◌<◌, ◌^◌, All, sym,
  ap, ◌∙◌,
}

-- The frames of a file one after the other, each under the clock of its round.
abbrev pub replay_frames : (ℕ → Clock) → Frames → MemoryStore × ℕ → MemoryStore × ℕ
replay_frames clocks nil state = state
replay_frames clocks (cons frame xs) state =
    replay_frames (λ n. clocks (suc n)) xs (replay_frame (clocks 0) frame state)

replay_loop-write_items :
    (size fuel : ℕ) (clocks : ℕ → Clock) (xs : Frames) (state : MemoryStore × ℕ)
    → AllReadable size xs
    → length (write_items xs) < fuel
    → replay_loop size fuel clocks (write_items xs) state
      ≡ (ok (replay_frames clocks xs state).1, (replay_frames clocks xs state).0)
replay_loop-write_items size zero clocks xs state h less = absurd (omega arith)
replay_loop-write_items size (suc fuel) clocks nil state h less =
    rw (replay_loop-suc size fuel clocks (write_items nil) state, read_frame-nil size)
replay_loop-write_items size (suc fuel) clocks (cons frame xs) state h less =
    rw
      (
        replay_loop-suc size fuel clocks (write_items (cons frame xs)) state,
        read_frame-cons size frame xs h.0,
      )
      (replay_loop-write_items size fuel (λ n. clocks (suc n)) xs _ h.1
        (shorter_rest frame xs fuel less))

-- The frames that a file was written from are replayed in their order, each as `replay_frame` does,
-- to the end of the file.
pub replay-write_items :
    (size : ℕ) (clocks : ℕ → Clock) (xs : Frames) (store : MemoryStore)
    → AllReadable size xs
    → replay size clocks (some (write_items xs)) store
      ≡ (ok (replay_frames clocks xs (store, 0)).1, (replay_frames clocks xs (store, 0)).0)
unfolding replay
replay-write_items size clocks xs store h =
    replay_loop-write_items size _ clocks xs (store, 0) h (omega arith)

abbrev pub logged : Option Frame → Frames → Frames
logged none xs = xs
logged (some frame) xs = cons frame xs

abbrev pub keep_if : Option Frame → Command → List Command → List Command
keep_if none command commands = commands
keep_if (some frame) command commands = command ∷ commands

-- The frames that the commands of a list leave in the file, each command under a clock of its own.
abbrev pub log : (ℕ → Clock) → List Command → Frames
log clocks [] = nil
log clocks (command ∷ commands) =
    let rest = log (λ n. clocks (suc n)) commands in logged (to_aof_frame (clocks 0) command) rest

-- The commands of a list that the file keeps, in the form in which it keeps them.
abbrev pub kept : (ℕ → Clock) → List Command → List Command
kept clocks [] = []
kept clocks (command ∷ commands) =
    let rest = kept (λ n. clocks (suc n)) commands in
    keep_if (to_aof_frame (clocks 0) command) (durable (clocks 0) command) rest

-- Commands executed one after the other, and the number of those that succeed.
abbrev pub run : (ℕ → Clock) → List Command → MemoryStore × ℕ → MemoryStore × ℕ
run clocks [] state = state
run clocks (command ∷ commands) state =
    run (λ n. clocks (suc n)) commands (count_if_ok state.1 (execute (clocks 0) command state.0))

pub replay_frame-ok :
    (clock : Clock) (frame : Frame) (command : Command) (state : MemoryStore × ℕ)
    → from_frame frame ≡ ok command
    → replay_frame clock frame state ≡ count_if_ok state.1 (execute clock command state.0)
unfolding replay_frame
replay_frame-ok clock frame command state h = rw h

replay_frames-log :
    (written clocks : ℕ → Clock) (commands : List Command) (state : MemoryStore × ℕ)
    → ((n i : ℕ) → as_secs (written n i) < 2 ^ 63)
    → All IsCommand commands
    → replay_frames clocks (log written commands) state ≡ run clocks (kept written commands) state
replay_frames-log written clocks [] state early valid = refl
replay_frames-log written clocks (command ∷ commands) state early valid =
    go (to_aof_frame (written 0) command) refl
      (λ others. replay_frames-log (λ n. written (suc n)) others commands)
  where
    go :
        (o : Option Frame)
        → to_aof_frame (written 0) command ≡ o
        → ((others : ℕ → Clock) (s : MemoryStore × ℕ)
            → ((n i : ℕ) → as_secs (written (suc n) i) < 2 ^ 63)
            → All IsCommand commands
            → replay_frames others (log (λ n. written (suc n)) commands) s
              ≡ run others (kept (λ n. written (suc n)) commands) s)
        → replay_frames clocks (logged o (log (λ n. written (suc n)) commands)) state
          ≡ run clocks
              (keep_if o (durable (written 0) command) (kept (λ n. written (suc n)) commands))
              state
    go none e ih = ih clocks state (λ n. early (suc n)) valid.1
    go (some frame) e ih =
        ap (replay_frames (λ n. clocks (suc n)) (log (λ n. written (suc n)) commands)) (
          replay_frame-ok (clocks 0) frame (durable (written 0) command) state
            (from_frame-to_aof_frame (written 0) command frame (early 0) valid.0 e))
        ∙ ih (λ n. clocks (suc n)) _ (λ n. early (suc n)) valid.1

-- A file that keeps a run of valid commands is replayed by executing them again in their order,
-- without those that only read and with EXPIRE as EXPIREAT, where the frames are small enough to be
-- read back and the clock stays below 2 ^ 63 seconds.
pub replay-log :
    (size : ℕ) (written clocks : ℕ → Clock) (commands : List Command) (store : MemoryStore)
    → ((n i : ℕ) → as_secs (written n i) < 2 ^ 63)
    → All IsCommand commands
    → AllReadable size (log written commands)
    → replay size clocks (some (write_items (log written commands))) store ≡ (
      ok (run clocks (kept written commands) (store, 0)).1,
      (run clocks (kept written commands) (store, 0)).0,
    )
replay-log size written clocks commands store early valid readable =
    rw (sym (replay_frames-log written clocks commands (store, 0) early valid))
      (replay-write_items size clocks (log written commands) store readable)
