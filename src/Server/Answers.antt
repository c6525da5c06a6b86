-- ===== src/Server/Answers.antt =====
-- src/server.rs: what a connection answers to a peer that sends whole frames.
use aerugo_cache.Protocol.Streams.{
  write_items-nil, shorter_rest, read_frame-cons, write_items-cons, read_frame-nil,
}
use aerugo_cache.Server.Total.{handle_connection-suc}
use aerugo_cache.Protocol.Encoder.{write_items}
use aerugo_cache.Protocol.RoundTrip.{AllReadable}
use aerugo_cache.Server.{Server, respond, handle_connection}
use aerugo_cache.Protocol.Frame.{Frames, cons, nil}
use aerugo_cache.Prelude.Clock.{Clock}
use aerugo_cache.Aof.{Disk}
use aerugo_cache.Prelude.{ℕ, Bool, true, length, suc, ◌<◌, ◌≡◌, ok, arith, ap, sym, zero}

-- The replies to the frames of a peer, one for each, in their order, and the state behind the last.
abbrev pub respond_all : Disk → (ℕ → Clock) → Frames → Server → Frames × Server
respond_all disk clocks nil server = (nil, server)
respond_all disk clocks (cons frame xs) server =
    let (reply, after) = respond disk (clocks 0) frame server in
    let (replies, last) = respond_all disk (λ n. clocks (suc n)) xs after in
    (cons reply replies, last)

-- A peer that reads all that it is sent.
abbrev pub accepts_all : ℕ → Bool
accepts_all n = true

-- A peer sends whole frames that the decoder can read back (no errors, text in UTF-8 and in one
-- line, integers of an `i64`, sizes that can be allocated) and reads on. It gets a reply to each
-- of them, in their order, and the connection then ends without an error, on fuel above the number
-- of bytes that it sent.
pub handle_connection-write_items :
    (disk : Disk) (size fuel : ℕ) (clocks : ℕ → Clock) (xs : Frames) (server : Server)
    → AllReadable size xs
    → length (write_items xs) < fuel
    → handle_connection disk size fuel clocks accepts_all (write_items xs) server ≡ (
      ok tt,
      write_items (respond_all disk clocks xs server).0,
      (respond_all disk clocks xs server).1,
    )
handle_connection-write_items disk size zero clocks xs server h less = absurd (omega arith)
handle_connection-write_items disk size (suc fuel) clocks nil server h less =
    rw
      (
        handle_connection-suc disk size fuel clocks accepts_all (write_items nil) server,
        read_frame-nil size,
      )
      (ap (λ sent. (ok tt, sent, server)) (sym write_items-nil))
handle_connection-write_items disk size (suc fuel) clocks (cons frame xs) server h less =
    let after = (respond disk (clocks 0) frame server).1 in
    let others =
      handle_connection-write_items disk size fuel (λ n. clocks (suc n)) xs after h.1
        (shorter_rest frame xs fuel less) in
    let replies = (respond_all disk (λ n. clocks (suc n)) xs after).0 in
    rw
      (
        handle_connection-suc disk size fuel clocks accepts_all (write_items (cons frame xs))
            server,
        read_frame-cons size frame xs h.0,
        others,
      )
      (ap (λ sent. (ok tt, sent, (respond_all disk clocks (cons frame xs) server).1))
        (sym (write_items-cons (respond disk (clocks 0) frame server).0 replies)))
