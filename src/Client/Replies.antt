-- ===== src/Client/Replies.antt =====
-- src/client.rs: a reply that the server wrote is the one that the client returns.
use aerugo_cache.Protocol.Streams.{read_frame-cons}
use aerugo_cache.Protocol.Encoder.{write_items, write_frame}
use aerugo_cache.Protocol.RoundTrip.{IsReadable}
use aerugo_cache.Client.{command, receive, request, of_read}
use aerugo_cache.Protocol.Frame.{simple, error, integer, bulk, null, array, cons, Frame, Frames}
use aerugo_cache.Prelude.{ok, some, true, refl, ◌++◌, ℕ, Bytes, List, ◌≡◌}

of_read-readable :
    (size : ℕ) (frame : Frame) (rest : Bytes)
    → IsReadable size frame
    → of_read (ok (some frame, rest)) ≡ ok (frame, rest)
of_read-readable size (simple value) rest h = refl
of_read-readable size (error value) rest h = absurd h
of_read-readable size (integer value) rest h = refl
of_read-readable size (bulk value) rest h = refl
of_read-readable size null rest h = refl
of_read-readable size (array xs) rest h = refl

-- The request is sent, and the reply in front of the stream returned.
pub command-reply :
    (size : ℕ) (args : List Bytes) (sent : Bytes) (frame : Frame) (xs : Frames)
    → IsReadable size frame
    → command size true args (record { sent = sent; incoming = write_items (cons frame xs) })
      ≡ ok (frame, record { sent = sent ++ write_frame (request args); incoming = write_items xs })
unfolding command receive
command-reply size args sent frame xs h =
    rw (read_frame-cons size frame xs h, of_read-readable size frame (write_items xs) h)
