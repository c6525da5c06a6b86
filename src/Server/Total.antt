-- ===== src/Server/Total.antt =====
-- src/server.rs: a connection ends on everything that a peer sends.
use aerugo_cache.Protocol.Encoder.{write_frame}
use aerugo_cache.Protocol.Total.{Ensures, Consumes, read_frame_total}
use aerugo_cache.Protocol.Frame.{Frame}
use aerugo_cache.Prelude.Clock.{Clock}
use aerugo_cache.Aof.{Disk}
use aerugo_cache.Server.{handle_connection, Handled, reading, Server, send, next_request, respond}
use aerugo_cache.Protocol.Parser.{out_of_fuel, Read, read_frame}
use aerugo_cache.Prelude.{
  refl, zero, suc, none, some, true, false, arith, ok, err, Bool, ℕ, ◌≢◌, Bytes, Option, ◌≡◌,
  length, ◌<◌, ◌*◌,
}

pub handle_connection-suc :
    (disk : Disk) (size fuel : ℕ) (clocks : ℕ → Clock) (accepts : ℕ → Bool) (input : Bytes)
    (server : Server)
    → handle_connection disk size (suc fuel) clocks accepts input server
      ≡ next_request (read_frame size (suc (2 * length input)) input) server λ frame rest.
        let (reply, after) = respond disk (clocks 0) frame server in
        send
          (accepts 0)
          (write_frame reply)
          after
          (handle_connection disk size fuel (λ n. clocks (suc n)) (λ n. accepts (suc n)) rest after)
unfolding handle_connection
handle_connection-suc disk size fuel clocks accepts input server = refl

Ends : Handled → Type 0
Ends result = result.0 ≢ err (reading out_of_fuel)

next_request-Ends :
    (n : ℕ) (r : Read (Option Frame)) (server : Server) (go_on : Frame → Bytes → Handled)
    → Ensures (Consumes n) r
    → ((frame : Frame) (rest : Bytes) → length rest < n → Ends (go_on frame rest))
    → Ends (next_request r server go_on)
unfolding Ends
next_request-Ends n (err e) server go_on h k = λ same. h cc
next_request-Ends n (ok (none, rest)) server go_on h k = λ same. cc
next_request-Ends n (ok (some frame, rest)) server go_on h k = k frame rest h

send-Ends :
    (accepts : Bool) (reply : Bytes) (server : Server) (others : Handled)
    → Ends others
    → Ends (send accepts reply server others)
unfolding Ends
send-Ends false reply server others h = λ same. cc
send-Ends true reply server (result, sent, after) h = h

handle_connection-Ends :
    (disk : Disk) (size fuel : ℕ) (clocks : ℕ → Clock) (accepts : ℕ → Bool) (input : Bytes)
    (server : Server)
    → length input < fuel
    → Ends (handle_connection disk size fuel clocks accepts input server)
handle_connection-Ends disk size zero clocks accepts input server less = absurd (omega arith)
handle_connection-Ends disk size (suc fuel) clocks accepts input server less =
    rw (handle_connection-suc disk size fuel clocks accepts input server) (
      next_request-Ends (length input) (read_frame size (suc (2 * length input)) input) server _
        (read_frame_total size (suc (2 * length input)) input (omega arith))
        λ frame rest shorter. send-Ends (accepts 0) _ _ _ (
          handle_connection-Ends disk size fuel (λ n. clocks (suc n)) (λ n. accepts (suc n)) rest _
            (omega arith)))

-- On fuel above the number of bytes that the peer sends a connection ends as the program does, after
-- the last frame or with the error of a read or a write.
pub handle_connection_total :
    (disk : Disk) (size fuel : ℕ) (clocks : ℕ → Clock) (accepts : ℕ → Bool) (input : Bytes)
    (server : Server)
    → length input < fuel
    → (handle_connection disk size fuel clocks accepts input server).0 ≢ err (reading out_of_fuel)
unfolding Ends
handle_connection_total disk size fuel clocks accepts input server less =
    handle_connection-Ends disk size fuel clocks accepts input server less
