-- ===== src/Aof/Total.antt =====
-- src/persistence/aof.rs: the loop of `replay` ends on every file.
use aerugo_cache.Protocol.Total.{Ensures, Consumes, read_frame_total}
use aerugo_cache.Protocol.Frame.{Frame}
use aerugo_cache.Storage.Store.{MemoryStore}
use aerugo_cache.Prelude.Clock.{Clock}
use aerugo_cache.Aof.{replay, replay_loop, replay_frame, next_round, Replayed}
use aerugo_cache.Protocol.Parser.{out_of_fuel, read_frame, Read}
use aerugo_cache.Prelude.{
  refl, zero, suc, none, some, arith, ok, err, ℕ, Option, Bytes, ◌≢◌, length, ◌*◌, ◌<◌, ◌≡◌,
}

pub replay_loop-suc :
    (size fuel : ℕ) (clocks : ℕ → Clock) (input : Bytes) (state : MemoryStore × ℕ)
    → replay_loop size (suc fuel) clocks input state
      ≡ next_round (read_frame size (suc (2 * length input)) input) state λ frame rest.
        replay_loop size fuel (λ n. clocks (suc n)) rest (replay_frame (clocks 0) frame state)
unfolding replay_loop
replay_loop-suc size fuel clocks input state = refl

Ends : Replayed → Type 0
Ends result = result.0 ≢ err out_of_fuel

next_round-Ends :
    (n : ℕ) (r : Read (Option Frame)) (state : MemoryStore × ℕ) (go_on : Frame → Bytes → Replayed)
    → Ensures (Consumes n) r
    → ((frame : Frame) (rest : Bytes) → length rest < n → Ends (go_on frame rest))
    → Ends (next_round r state go_on)
unfolding Ends
next_round-Ends n (err e) state go_on h k = λ same. h cc
next_round-Ends n (ok (none, rest)) state go_on h k = λ same. cc
next_round-Ends n (ok (some frame, rest)) state go_on h k = k frame rest h

replay_loop-Ends :
    (size fuel : ℕ) (clocks : ℕ → Clock) (input : Bytes) (state : MemoryStore × ℕ)
    → length input < fuel
    → Ends (replay_loop size fuel clocks input state)
replay_loop-Ends size zero clocks input state less = absurd (omega arith)
replay_loop-Ends size (suc fuel) clocks input state less =
    rw (replay_loop-suc size fuel clocks input state) (
      next_round-Ends (length input) (read_frame size (suc (2 * length input)) input) state _
        (read_frame_total size (suc (2 * length input)) input (omega arith))
        λ frame rest shorter. replay_loop-Ends size fuel (λ n. clocks (suc n)) rest _ (omega arith))

-- `replay` ends on every file, damaged or not: with a count of commands, or with the error of a frame
-- that cannot be read.
pub replay_total :
    (size : ℕ) (clocks : ℕ → Clock) (file : Option Bytes) (store : MemoryStore)
    → (replay size clocks file store).0 ≢ err out_of_fuel
unfolding replay Ends
replay_total size clocks none store = λ e. cc
replay_total size clocks (some file) store =
    replay_loop-Ends size (suc (length file)) clocks file (store, 0) (omega arith)
