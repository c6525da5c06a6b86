-- ===== src/Protocol/Encoder.antt =====
-- src/protocol/encoder.rs: the bytes that `write_frame` writes. That the writer accepts them is left to
-- its callers.
use aerugo_cache.Text.Decimal.{show_i64, show_nat}
use aerugo_cache.Protocol.Frame.{
  Frame, simple, error, integer, bulk, array, count, Frames, cons, null, nil,
}
use aerugo_cache.Prelude.{[], ◌∷◌, Bytes, ◌++◌, length}

abbrev pub crlf : Bytes
crlf = 13 ∷ 10 ∷ []

unfoldable mutual
  pub write_frame : Frame → Bytes
  write_frame (simple value) = b'+' ∷ (value ++ crlf)
  write_frame (error value) = b'-' ∷ (value ++ crlf)
  write_frame (integer value) = b':' ∷ (show_i64 value ++ crlf)
  write_frame (bulk value) = b'$' ∷ (show_nat (length value) ++ (crlf ++ (value ++ crlf)))
  write_frame null = b'$' ∷ b'-' ∷ b'1' ∷ crlf
  write_frame (array xs) = b'*' ∷ (show_nat (count xs) ++ (crlf ++ write_items xs))

  pub write_items : Frames → Bytes
  write_items nil = []
  write_items (cons x xs) = write_frame x ++ write_items xs
