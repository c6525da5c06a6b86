-- ===== src/Aof.antt =====
-- src/persistence/aof.rs: the append-only file.
pub mod Total
pub mod Replay
pub mod Torn
pub mod Recovery
use aerugo_cache.Command.Types.{Command}
use aerugo_cache.Protocol.Encoder.{write_frame}
use aerugo_cache.Command.Parse.{Parsed, from_frame}
use aerugo_cache.Command.Execute.{Executed, execute}
use aerugo_cache.Storage.Store.{MemoryStore}
use aerugo_cache.Prelude.Clock.{Clock}
use aerugo_cache.Protocol.Frame.{Frame}
use aerugo_cache.Protocol.Parser.{out_of_fuel, ReadError, read_frame, Read}
use aerugo_cache.Prelude.{
  refl, zero, suc, [], ◌∷◌, none, some, inl, inr, true, false, arith, ok, err, Bytes, ℕ, Bool,
  Option, Result, length, ◌*◌,
}

-- A file system that is asked to put bytes behind a file and to flush them: whether it reports
-- success, and what the file holds then.
abbrev pub Disk : Type 0
Disk = Bytes → Bytes → Bool × Bytes

unfoldable pub append : Disk → Frame → Bytes → Bool × Bytes
append disk frame file = disk file (write_frame frame)

abbrev pub count_if_ok : ℕ → Executed → MemoryStore × ℕ
count_if_ok replayed (ok reply, store) = (store, suc replayed)
count_if_ok replayed (err e, store) = (store, replayed)

abbrev replay_parsed : Clock → MemoryStore × ℕ → Parsed Command → MemoryStore × ℕ
replay_parsed clock (store, replayed) (ok command) =
    count_if_ok replayed (execute clock command store)
replay_parsed clock state (err e) = state

-- The body of the loop of `replay`: the store and the number of commands that were executed.
unfoldable pub replay_frame : Clock → Frame → MemoryStore × ℕ → MemoryStore × ℕ
replay_frame clock frame state = replay_parsed clock state (from_frame frame)

abbrev pub Replayed : Type 0
Replayed = Result ReadError ℕ × MemoryStore

abbrev pub next_round :
    Read (Option Frame) → MemoryStore × ℕ → (Frame → Bytes → Replayed) → Replayed
next_round (err e) (store, replayed) go_on = (err e, store)
next_round (ok (none, rest)) (store, replayed) go_on = (ok replayed, store)
next_round (ok (some frame, rest)) state go_on = go_on frame rest

-- The loop of `replay` on what is left of the file; `clocks n` is the clock of its n-th round. A round
-- costs a unit of fuel: `replay_total` of the module Aof.Total shows that the length of the file is
-- enough.
unfoldable pub replay_loop : ℕ → ℕ → (ℕ → Clock) → Bytes → MemoryStore × ℕ → Replayed
replay_loop frame_size zero clocks input state = (err out_of_fuel, state.0)
replay_loop frame_size (suc fuel) clocks input state =
    next_round (read_frame frame_size (suc (2 * length input)) input) state λ frame rest.
      replay_loop frame_size fuel (λ n. clocks (suc n)) rest (replay_frame (clocks 0) frame state)

-- `replay`, on the file that the path names, if there is one.
unfoldable pub replay : ℕ → (ℕ → Clock) → Option Bytes → MemoryStore → Replayed
replay frame_size clocks none store = (ok 0, store)
replay frame_size clocks (some file) store =
    replay_loop frame_size (suc (length file)) clocks file (store, 0)
