-- ===== src/Tests/Protocol.antt =====
-- src/protocol and src/client.rs: the theorems on small frames, and runs of the decoder.
use aerugo_cache.Protocol.RoundTrip.{IsReadable, read_frame-write_frame}
use aerugo_cache.Text.Utf8.{is_utf8, from_utf8}
use aerugo_cache.Text.Decimal.{show_i64, show_nat}
use aerugo_cache.Protocol.Encoder.{write_frame, crlf}
use aerugo_cache.Protocol.Errors.{empty_request, read_frame-error}
use aerugo_cache.Protocol.Lines.{NoLf}
use aerugo_cache.Protocol.Total.{Ensures, Consumes, read_frame_total}
use aerugo_cache.Protocol.Words.{Spaced}
use aerugo_cache.Prelude.Ascii.{codes, is_ascii_whitespace}
use aerugo_cache.Text.Decimal
use aerugo_cache.Client.{server, receive, receive-server}
use aerugo_cache.Prelude.Int.{negsuc}
use aerugo_cache.Protocol.Parser.{
  unexpected_eof, panicked, parse_usize, parse_i64, bytes_to_string, read_frame,
  parse_inline_command, read_line, split, trim_crlf, strip_suffix, match_line, read_array,
}
use aerugo_cache.Protocol.Frame.{array, frames, bulk, integer, null, simple, error, Frame, count}
use aerugo_cache.Prelude.{
  refl, [], ◌∷◌, some, arith, ok, err, ℕ, List, Bytes, map, ◌≡◌, ◌++◌, filter_by, bytes_eq,
}

abbrev frame_size : ℕ
frame_size = 32

abbrev request_frame : Frame
request_frame =
    array (frames (bulk (codes "GET") ∷ integer (negsuc 41) ∷ null ∷ simple (codes "OK") ∷ []))

request_frame-IsReadable : IsReadable frame_size request_frame
unfolding frames count is_utf8
request_frame-IsReadable = (
  omega arith,
  omega arith,
  (omega arith, (omega arith, (tt, ((refl, (omega arith, (omega arith, tt))), tt)))),
)

read_frame-write_frame_example :
    read_frame frame_size 200 (write_frame request_frame ++ codes "tail")
    ≡ ok (some request_frame, codes "tail")
unfolding write_frame frames count show_i64 show_nat
read_frame-write_frame_example =
    read_frame-write_frame frame_size request_frame 200 (codes "tail") request_frame-IsReadable
      (omega arith)

read_frame_total_example :
    Ensures (Consumes 6) (read_frame frame_size 13 (b'*' ∷ b'9' ∷ 13 ∷ 10 ∷ b':' ∷ b'x' ∷ []))
read_frame_total_example =
    read_frame_total frame_size 13 (b'*' ∷ b'9' ∷ 13 ∷ 10 ∷ b':' ∷ b'x' ∷ []) (omega arith)

-- A frame that ends too early.
read_truncated :
    read_frame frame_size 13 (b'*' ∷ b'2' ∷ 13 ∷ 10 ∷ b':' ∷ b'1' ∷ 13 ∷ 10 ∷ [])
    ≡ err unexpected_eof
unfolding read_frame read_line trim_crlf strip_suffix bytes_eq match_line read_array parse_usize
    bytes_to_string from_utf8 is_utf8 Decimal.parse_usize Decimal.parse_unsigned parse_i64
    Decimal.parse_i64
read_truncated = refl

-- An allocation that the program does not survive.
read_huge : read_frame frame_size 40 (codes "*1152921504606846976" ++ crlf) ≡ err panicked
unfolding read_frame read_line trim_crlf strip_suffix bytes_eq match_line read_array parse_usize
    bytes_to_string from_utf8 is_utf8 Decimal.parse_usize Decimal.parse_unsigned
read_huge = refl

one_line : NoLf (codes "ERR no")
one_line =
    (omega arith, (omega arith, (omega arith, (omega arith, (omega arith, (omega arith, tt))))))

read_frame-error_example :
    (words : List Bytes) × Spaced (codes "-ERR no") words
    × (read_frame frame_size 1 (write_frame (error (codes "ERR no")) ++ codes "tail")
        ≡ ok (some (array (frames (map bulk words))), codes "tail"))
read_frame-error_example = read_frame-error frame_size 0 (codes "ERR no") (codes "tail") one_line

error_words :
    parse_inline_command (codes "-ERR no")
    ≡ array (frames (bulk (codes "-ERR") ∷ bulk (codes "no") ∷ []))
unfolding parse_inline_command split is_ascii_whitespace filter_by frames
error_words = refl

empty_line_reply : receive frame_size 1 crlf ≡ err (server empty_request)
unfolding receive read_frame read_line trim_crlf strip_suffix bytes_eq match_line
empty_line_reply = refl

receive-server_example : empty_request ≡ empty_request
receive-server_example = receive-server frame_size 1 crlf empty_request empty_line_reply
