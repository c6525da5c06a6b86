-- ===== src/Protocol/RoundTrip.antt =====
-- src/protocol: what the encoder writes the decoder reads back.
use aerugo_cache.Protocol.Encoder.{crlf, write_frame, write_items}
use aerugo_cache.Prelude.Words.{i64_max}
use aerugo_cache.Text.Decimal.{InI64, show_i64, u64_max, show_nat, show_nat-IsDigit}
use aerugo_cache.Prelude.Int.{ℤ, pos}
use aerugo_cache.Text.Utf8.{is_utf8, from_utf8_lem, from_utf8}
use aerugo_cache.Protocol.Frame.{
  Frame, simple, Frames, count, error, null, integer, bulk, array, cons, nil,
}
use aerugo_cache.Protocol.Parser.{
  parse_i64, Read, read_buffer, match_line, read_array, read_bulk, bytes_to_string, read_frame,
  read_items,
}
use aerugo_cache.Protocol.Lines.{
  parse_i64-show_i64, parse_usize-show_nat, NoLf, read_frame-line, show_i64-NoLf, NoLf-digits,
}
use aerugo_cache.Text.Decimal
use aerugo_cache.Prelude.{
  refl, zero, suc, [], ◌∷◌, some, true, arith, ok, ℕ, Bytes, ◌≡◌, length, ◌+◌, ◌≤◌, ◌++◌, ◌*◌,
  length-append, sym, append_assoc, take-append, drop-append, bytes_eq_refl, ◌<◌, ◌∙◌,
}

-- A frame that a peer can read back: no error, simple text in one line, integers of the type, and
-- sizes that can be allocated.
abbrev mutual
  pub IsReadable : ℕ → Frame → Type 0
  IsReadable size (simple value) = (is_utf8 value ≡ true) × NoLf value
  IsReadable size (error value) = ⊥
  IsReadable size (integer value) = InI64 value
  IsReadable size (bulk value) = length value + 2 ≤ i64_max
  IsReadable size null = Unit
  IsReadable size (array xs) =
      (count xs ≤ u64_max) × (count xs * size ≤ i64_max) × AllReadable size xs

  pub AllReadable : ℕ → Frames → Type 0
  AllReadable size nil = Unit
  AllReadable size (cons x xs) = IsReadable size x × AllReadable size xs

module _ (size : ℕ) (read : ℕ → Bytes → Read Frames) where
  match-simple :
      (value rest : Bytes)
      → is_utf8 value ≡ true
      → match_line size read (b'+' ∷ value) rest ≡ ok (some (simple value), rest)
  unfolding match_line bytes_to_string
  match-simple value rest h = rw (from_utf8_lem value h)

  match-integer :
      (value : ℤ) (rest : Bytes)
      → InI64 value
      → match_line size read (b':' ∷ show_i64 value) rest ≡ ok (some (integer value), rest)
  unfolding match_line
  match-integer value rest h = rw (parse_i64-show_i64 value h)

  match-null :
      (rest : Bytes) → match_line size read (b'$' ∷ b'-' ∷ b'1' ∷ []) rest ≡ ok (some null, rest)
  unfolding match_line read_bulk parse_i64 bytes_to_string from_utf8 Decimal.parse_i64
  match-null rest = refl

  read_buffer-append :
      (value rest : Bytes)
      → length value + 2 ≤ i64_max
      → read_buffer (length value) (value ++ (crlf ++ rest)) ≡ ok (bulk value, rest)
  unfolding read_buffer
  read_buffer-append value rest h =
      let n : length value + 2 ≡ length (value ++ crlf) =
        omega (arith, length-append {0} value crlf) in
      rw
        (
          sym (append_assoc value crlf rest),
          n,
          take-append,
          drop-append,
          take-append,
          drop-append,
          bytes_eq_refl,
        )
        (ground (arith, length-append (value ++ crlf) rest))

  match-bulk :
      (value rest : Bytes)
      → length value + 2 ≤ i64_max
      → match_line size read (b'$' ∷ show_nat (length value)) (value ++ (crlf ++ rest))
        ≡ ok (some (bulk value), rest)
  unfolding match_line read_bulk
  match-bulk value rest h =
      let len : parse_i64 (show_nat (length value)) ≡ ok (pos (length value)) =
        unfold show_i64 in parse_i64-show_i64 (pos (length value)) (omega arith) in
      rw (len, read_buffer-append value rest h)

  match-array :
      (xs : Frames) (rest left : Bytes)
      → count xs ≤ u64_max
      → count xs * size ≤ i64_max
      → read (count xs) rest ≡ ok (xs, left)
      → match_line size read (b'*' ∷ show_nat (count xs)) rest ≡ ok (some (array xs), left)
  unfolding match_line read_array
  match-array xs rest left h fits e = rw (parse_usize-show_nat (count xs) h, e) (ground arith)

pub frame_pos : (x : Frame) → 0 < length (write_frame x)
unfolding write_frame
frame_pos null = omega arith
frame_pos _ = omega arith

-- One line: a first byte, the rest of the line, its terminator.
line_assoc :
    (c : ℕ) (tail more rest : Bytes)
    → (c ∷ (tail ++ (crlf ++ more))) ++ rest ≡ c ∷ (tail ++ (crlf ++ (more ++ rest)))
line_assoc c tail more rest = simp append_assoc

pub bare_line_assoc :
    (c : ℕ) (tail rest : Bytes) → (c ∷ (tail ++ crlf)) ++ rest ≡ c ∷ (tail ++ (crlf ++ rest))
bare_line_assoc c tail rest = simp append_assoc

read_items-nil : (size f : ℕ) (rest : Bytes) → read_items size (suc f) zero rest ≡ ok (nil, rest)
unfolding read_frame
read_items-nil size f rest = refl

read_items-cons :
    (size f : ℕ) (x : Frame) (xs : Frames) (input middle rest : Bytes)
    → read_frame size f input ≡ ok (some x, middle)
    → read_items size f (count xs) middle ≡ ok (xs, rest)
    → read_items size (suc f) (suc (count xs)) input ≡ ok (cons x xs, rest)
unfolding read_frame
read_items-cons size f x xs input middle rest first others = rw (first, others)

mutual
  unfolding write_frame count

  read_frame-write :
      (size : ℕ) (x : Frame) (f : ℕ) (rest : Bytes)
      → IsReadable size x
      → 2 * length (write_frame x) < f
      → read_frame size f (write_frame x ++ rest) ≡ ok (some x, rest)
  read_frame-write size x zero rest h less = absurd (omega arith)
  read_frame-write size (simple value) (suc f) rest h less = rw (bare_line_assoc b'+' value rest) (
      read_frame-line size f b'+' value rest (omega arith) h.1
      ∙ match-simple size (λ n left. read_items size f n left) value rest h.0)
  read_frame-write size (error value) (suc f) rest h less = absurd h
  read_frame-write size (integer value) (suc f) rest h less =
      rw (bare_line_assoc b':' (show_i64 value) rest) (
        read_frame-line size f b':' (show_i64 value) rest (omega arith) (show_i64-NoLf value)
        ∙ match-integer size (λ n left. read_items size f n left) value rest h)
  read_frame-write size (bulk value) (suc f) rest h less =
      let n = show_nat (length value) in
      rw (line_assoc b'$' n (value ++ crlf) rest, append_assoc value crlf rest)
        (read_frame-line size f b'$' n (value ++ (crlf ++ rest)) (omega arith)
            (NoLf-digits n (show_nat-IsDigit (length value)))
          ∙ match-bulk size (λ n left. read_items size f n left) value rest h)
  read_frame-write size null (suc f) rest h less =
      read_frame-line size f b'$' (b'-' ∷ b'1' ∷ []) rest (omega arith)
        (omega arith, (omega arith, tt))
      ∙ match-null size (λ n left. read_items size f n left) rest
  read_frame-write size (array xs) (suc f) rest h less =
      let n = show_nat (count xs) in
      let shorter = length-append n (crlf ++ write_items xs) in
      rw (line_assoc b'*' n (write_items xs) rest) (
        read_frame-line size f b'*' n (write_items xs ++ rest) (omega arith)
          (NoLf-digits n (show_nat-IsDigit (count xs)))
        ∙ match-array size (λ n left. read_items size f n left) xs (write_items xs ++ rest) rest h.0
            h.1 (read_items-write size xs f rest h.2 (omega arith)))

  read_items-write :
      (size : ℕ) (xs : Frames) (f : ℕ) (rest : Bytes)
      → AllReadable size xs
      → suc (2 * length (write_items xs)) < f
      → read_items size f (count xs) (write_items xs ++ rest) ≡ ok (xs, rest)
  read_items-write size xs zero rest h less = absurd (omega arith)
  read_items-write size nil (suc f) rest h less = read_items-nil size f rest
  read_items-write size (cons x xs) (suc f) rest h less =
      let total = length-append (write_frame x) (write_items xs) in
      let first =
        read_frame-write size x f (write_items xs ++ rest) h.0 (omega (arith, frame_pos x)) in
      let others = read_items-write size xs f rest h.1 (omega (arith, frame_pos x)) in
      rw (append_assoc (write_frame x) (write_items xs) rest)
        (read_items-cons size f x xs _ (write_items xs ++ rest) rest first others)

-- A frame that the encoder wrote is read back whole, and the decoder stops right behind it.
pub read_frame-write_frame :
    (size : ℕ) (x : Frame) (f : ℕ) (rest : Bytes)
    → IsReadable size x
    → 2 * length (write_frame x) < f
    → read_frame size f (write_frame x ++ rest) ≡ ok (some x, rest)
read_frame-write_frame = read_frame-write
