-- ===== src/Client.antt =====
-- src/client.rs: the client of the protocol.
pub mod Replies
use aerugo_cache.Protocol.Encoder.{write_frame}
use aerugo_cache.Protocol.Errors.{empty_request, read_frame-error_text}
use aerugo_cache.Protocol.Parser.{ReadError, read_frame, Read}
use aerugo_cache.Protocol.Frame.{error, array, bulk, frames, Frame}
use aerugo_cache.Prelude.{
  refl, none, some, ok, err, ℕ, Option, List, Bytes, Result, map, ◌≡◌, true, false, [], ◌>>=◌, suc,
  ◌++◌, Bool, ◌*◌, length,
}

-- What a socket reports: the connection was refused, a write failed, or a read.
pub data IoError : Type 0 where
  connecting writing : IoError
  reading : ReadError → IoError

pub data ClientError : Type 0 where
  io : IoError → ClientError
  connection_closed : ClientError
  server : Bytes → ClientError

-- The `Frame::Array` of the arguments.
unfoldable pub request : List Bytes → Frame
request args = array (frames (map bulk args))

abbrev pub of_read : Read (Option Frame) → Result ClientError (Frame × Bytes)
of_read (err e) = err (io (reading e))
of_read (ok (none, rest)) = err connection_closed
of_read (ok (some (error text), rest)) = err (server text)
of_read (ok (some frame, rest)) = ok (frame, rest)

-- What `command` does with the bytes that come back, once its request is written.
unfoldable pub receive : ℕ → ℕ → Bytes → Result ClientError (Frame × Bytes)
receive frame_size fuel input = of_read (read_frame frame_size fuel input)

-- The connection: the bytes written to it, and the bytes that the server still sends.
pub record RespClient : Type 0 where
  pub sent : Bytes
  pub incoming : Bytes

-- `reachable` tells whether the connection is accepted.
unfoldable pub connect : Bool → Bytes → Result ClientError RespClient
connect true incoming = ok (record { sent = []; incoming = incoming })
connect false incoming = err (io connecting)

-- `accepted` tells whether the socket takes the request. A reply is at most all the bytes that come.
unfoldable pub command :
    ℕ → Bool → List Bytes → RespClient → Result ClientError (Frame × RespClient)
command frame_size false args client = err (io writing)
command frame_size true args client = do
  (frame, rest) ← receive frame_size (suc (2 * length client.incoming)) client.incoming
  ok (frame, record { sent = client.sent ++ write_frame (request args); incoming = rest })

of_read-server :
    (r : Read (Option Frame)) (text : Bytes)
    → ((value rest : Bytes) → r ≡ ok (some (error value), rest) → value ≡ empty_request)
    → of_read r ≡ err (server text)
    → text ≡ empty_request
of_read-server (err e) text k h = cc
of_read-server (ok (none, rest)) text k h = cc
of_read-server (ok (some (error value), rest)) text k h = let e = k value rest refl in cc
of_read-server (ok (some frame, rest)) text k h = cc

-- The client reports no error of the server but the one of an empty line: any other error that the
-- server sends comes back as a reply.
pub receive-server :
    (size fuel : ℕ) (input text : Bytes)
    → receive size fuel input ≡ err (server text)
    → text ≡ empty_request
unfolding receive
receive-server size fuel input text h =
    of_read-server (read_frame size fuel input) text
      (λ value rest. read_frame-error_text size fuel input value rest) h
