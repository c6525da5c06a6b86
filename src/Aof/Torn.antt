-- ===== src/Aof/Torn.antt =====
-- src/persistence/aof.rs: a file whose last frame broke off.
use aerugo_cache.Protocol.Torn.{IsTorn}
use aerugo_cache.Protocol.Torn.Requests.{bulks, read_frame-torn}
use aerugo_cache.Aof.Total.{replay_loop-suc}
use aerugo_cache.Protocol.Streams.{write_items-nil, write_items-cons}
use aerugo_cache.Aof.Replay.{replay_frames}
use aerugo_cache.Protocol.Parser.{ReadError}
use aerugo_cache.Protocol.Encoder.{write_frame, write_items}
use aerugo_cache.Protocol.RoundTrip.{AllReadable, IsReadable, frame_pos, read_frame-write_frame}
use aerugo_cache.Storage.Store.{MemoryStore}
use aerugo_cache.Prelude.Clock.{Clock}
use aerugo_cache.Aof.{replay, replay_loop, replay_frame}
use aerugo_cache.Protocol.Frame.{nil, cons, array, Frames}
use aerugo_cache.Prelude.{
  zero, suc, [], some, err, arith, ℕ, List, Bytes, ◌≢◌, length, ◌++◌, ◌≡◌, ◌<◌, ◌*◌, length-append,
  append_assoc, ap,
}

replay_loop-torn :
    (size fuel : ℕ) (clocks : ℕ → Clock) (xs : Frames) (args : List Bytes) (p : Bytes)
    (state : MemoryStore × ℕ)
    → AllReadable size xs
    → IsReadable size (array (bulks args))
    → args ≢ []
    → p ≢ []
    → IsTorn p (write_frame (array (bulks args)))
    → length (write_items xs ++ p) < fuel
    → (e : ReadError) × (replay_loop size fuel clocks (write_items xs ++ p) state
        ≡ (err e, (replay_frames clocks xs state).0))
replay_loop-torn size zero clocks xs args p state h readable some_arg some_byte t less =
    absurd (omega arith)
replay_loop-torn size (suc fuel) clocks nil args p state h readable some_arg some_byte t less =
    let (e, fails) =
      read_frame-torn size (suc (2 * length p)) args p readable some_arg some_byte t
        (omega arith) in
    (e, rw (write_items-nil, replay_loop-suc size fuel clocks p state, fails))
replay_loop-torn size (suc fuel) clocks (cons frame xs) args p state h readable some_arg some_byte t
      less =
    let after = replay_frame (clocks 0) frame state in
    let input = write_items xs ++ p in
    let total = length-append (write_frame frame) input in
    let whole : write_items (cons frame xs) ++ p ≡ write_frame frame ++ input =
      rw (write_items-cons frame xs) (append_assoc (write_frame frame) (write_items xs) p) in
    let shorter : length input < fuel =
      let same = ap length whole in omega (arith, frame_pos frame) in
    let (e, rest) =
      replay_loop-torn size fuel (λ n. clocks (suc n)) xs args p after h.1 readable some_arg
        some_byte t shorter in
    (
      e,
      rw
          (
            whole,
            replay_loop-suc size fuel clocks (write_frame frame ++ input) state,
            read_frame-write_frame size frame (suc (2 * length (write_frame frame ++ input))) input
                h.0 (omega arith),
          )
          rest,
    )

-- A file of whole frames that ends in a part of the frame of a command, as a crash during an append
-- leaves it: replay executes the whole frames, and ends with an error.
pub replay-torn :
    (size : ℕ) (clocks : ℕ → Clock) (xs : Frames) (args : List Bytes) (p : Bytes)
    (store : MemoryStore)
    → AllReadable size xs
    → IsReadable size (array (bulks args))
    → args ≢ []
    → p ≢ []
    → IsTorn p (write_frame (array (bulks args)))
    → (e : ReadError) × (replay size clocks (some (write_items xs ++ p)) store
        ≡ (err e, (replay_frames clocks xs (store, 0)).0))
unfolding replay
replay-torn size clocks xs args p store h readable some_arg some_byte t =
    replay_loop-torn size _ clocks xs args p (store, 0) h readable some_arg some_byte t
      (omega arith)
