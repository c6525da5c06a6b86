-- ===== src/Protocol/Streams.antt =====
-- src/protocol: a stream of frames that the encoder wrote, one after the other.
use aerugo_cache.Protocol.RoundTrip.{IsReadable, frame_pos, read_frame-write_frame}
use aerugo_cache.Protocol.Parser.{read_frame, read_line}
use aerugo_cache.Protocol.Encoder.{write_frame, write_items}
use aerugo_cache.Prelude.{
  ℕ, length, suc, ◌<◌, ◌≡◌, ◌++◌, ◌*◌, ◌+◌, arith, [], length-append, ok, none, some, ap, ◌∙◌, refl,
}
use aerugo_cache.Protocol.Frame.{Frame, Frames, nil, cons}

pub write_items-cons :
    (frame : Frame) (xs : Frames)
    → write_items (cons frame xs) ≡ write_frame frame ++ write_items xs
unfolding write_frame
write_items-cons frame xs = refl

pub write_items-nil : write_items nil ≡ []
unfolding write_frame
write_items-nil = refl

pub length-write_items-cons :
    (frame : Frame) (xs : Frames)
    → length (write_items (cons frame xs)) ≡ length (write_frame frame) + length (write_items xs)
length-write_items-cons frame xs =
    rw (write_items-cons frame xs, length-append (write_frame frame) (write_items xs))

-- The end of a stream.
pub read_frame-nil :
    (size : ℕ)
    → read_frame size (suc (2 * length (write_items nil))) (write_items nil) ≡ ok (none, [])
unfolding write_frame read_frame read_line
read_frame-nil size = refl

-- The first frame of a stream.
pub read_frame-cons :
    (size : ℕ) (frame : Frame) (xs : Frames)
    → IsReadable size frame
    → read_frame size (suc (2 * length (write_items (cons frame xs)))) (write_items (cons frame xs))
      ≡ ok (some frame, write_items xs)
read_frame-cons size frame xs h =
    let total = length-write_items-cons frame xs in
    ap (read_frame size (suc (2 * length (write_items (cons frame xs)))))
      (write_items-cons frame xs)
    ∙ read_frame-write_frame size frame _ (write_items xs) h (omega arith)

pub shorter_rest :
    (frame : Frame) (xs : Frames) (fuel : ℕ)
    → length (write_items (cons frame xs)) < suc fuel
    → length (write_items xs) < fuel
shorter_rest frame xs fuel h = omega (arith, frame_pos frame, length-write_items-cons frame xs)
