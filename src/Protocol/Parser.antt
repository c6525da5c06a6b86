-- ===== src/Protocol/Parser.antt =====
-- src/protocol/parser.rs: the decoder. A reader is the bytes that are still to come, up to the end of
-- the stream.
use aerugo_cache.Prelude.Words.{i64_max}
use aerugo_cache.Text.Utf8.{from_utf8}
use aerugo_cache.Prelude.Int.{ℤ, pos, negsuc}
use aerugo_cache.Protocol.Encoder.{crlf}
use aerugo_cache.Prelude.Ascii.{codes, is_ascii_whitespace}
use aerugo_cache.Protocol.Frame.{
  Frame, array, Frames, error, frames, simple, nil, integer, null, bulk, cons,
}
use aerugo_cache.Text.Decimal
use mathlib.Core.Option.{get_or}
use aerugo_cache.Prelude.{
  zero, suc, [], ◌∷◌, none, some, true, false, ok, err, ◌>>=◌, Bytes, Option, ℕ, Result,
  if◌then◌else◌, length, Bool, List, ◌==◌, ltb, ◌-◌, map, bytes_eq, ◌+◌, drop, ◌*◌, take, filter_by,
  not,
}

-- `panicked` is the panic of an allocation above `isize::MAX` bytes; `out_of_fuel` is no outcome of
-- the program.
pub data ReadError : Type 0 where
  invalid_data : Bytes → ReadError
  unexpected_eof panicked out_of_fuel : ReadError

abbrev pub Read : Type 0 → Type 0
Read A = Result ReadError (A × Bytes)

-- `read_until(b'\n')`: a line with its line feed, or what is left of the stream.
unfoldable pub read_line : Bytes → Bytes × Bytes
read_line [] = ([], [])
read_line (b ∷ bs) =
    let (line, rest) = read_line bs in if b == 10 then (b ∷ [], bs) else (b ∷ line, rest)

-- `slice::strip_suffix`
unfoldable pub strip_suffix : Bytes → Bytes → Option Bytes
strip_suffix suffix line =
    let n = length line - length suffix in
    if bytes_eq (drop n line) suffix then some (take n line) else none

abbrev or_else : Option Bytes → Option Bytes → Option Bytes
or_else none o = o
or_else (some a) o = some a

unfoldable pub trim_crlf : Bytes → Bytes
trim_crlf line = get_or (or_else (strip_suffix crlf line) (strip_suffix (10 ∷ []) line)) line

abbrev pub or_invalid : {A : Type 0} → Bytes → Option A → Result ReadError A
or_invalid message none = err (invalid_data message)
or_invalid message (some a) = ok a

unfoldable pub bytes_to_string : Bytes → Result ReadError Bytes
bytes_to_string bytes = or_invalid (codes "invalid UTF-8") (from_utf8 bytes)

unfoldable pub parse_usize : Bytes → Result ReadError ℕ
parse_usize bytes = do
  value ← bytes_to_string bytes
  or_invalid (codes "invalid integer") (Decimal.parse_usize value)

unfoldable pub parse_i64 : Bytes → Result ReadError ℤ
parse_i64 bytes = do
  value ← bytes_to_string bytes
  or_invalid (codes "invalid integer") (Decimal.parse_i64 value)

-- `vec![0; len + 2]`, `read_exact`, the terminator and `truncate`.
unfoldable pub read_buffer : ℕ → Bytes → Read Frame
read_buffer len rest =
    if ltb i64_max (len + 2)
    then err panicked
    else if ltb (length rest) (len + 2)
    then err unexpected_eof
    else if bytes_eq (drop len (take (len + 2) rest)) crlf
    then ok (bulk (take len (take (len + 2) rest)), drop (len + 2) rest)
    else err (invalid_data (codes "bulk string missing CRLF terminator"))

abbrev pub read_bulk_of : Bytes → ℤ → Read Frame
read_bulk_of rest (pos len) = read_buffer len rest
read_bulk_of rest (negsuc zero) = ok (null, rest)
read_bulk_of rest (negsuc (suc n)) = err (invalid_data (codes "negative bulk length"))

unfoldable pub read_bulk : Bytes → Bytes → Read Frame
read_bulk len_bytes rest = do len ← parse_i64 len_bytes; read_bulk_of rest len

-- `slice::split`: the pieces between the bytes that pass the test.
abbrev pub cons_head : ℕ → List Bytes → List Bytes
cons_head b [] = (b ∷ []) ∷ []
cons_head b (w ∷ ws) = (b ∷ w) ∷ ws

unfoldable pub split : (ℕ → Bool) → Bytes → List Bytes
split p [] = [] ∷ []
split p (b ∷ bs) = let rest = split p bs in if p b then [] ∷ rest else cons_head b rest

abbrev pub is_empty : Bytes → Bool
is_empty [] = true
is_empty (b ∷ bs) = false

unfoldable pub parse_inline_command : Bytes → Frame
parse_inline_command line =
    array
      (frames (map bulk (filter_by (λ arg. not (is_empty arg)) (split is_ascii_whitespace line))))

-- `read_array`, with the loop that reads the items. `Vec::with_capacity` panics where the items do
-- not fit in `isize::MAX` bytes; the size of a frame in memory is the compiler's choice.
unfoldable pub read_array : ℕ → (ℕ → Bytes → Read Frames) → Bytes → Bytes → Read Frame
read_array frame_size read_items len_bytes rest = do
  len ← parse_usize len_bytes
  if ltb i64_max (len * frame_size)
      then err panicked
      else do (xs, left) ← read_items len rest; ok (array xs, left)

abbrev pub some_frame : Frame × Bytes → Read (Option Frame)
some_frame (frame, rest) = ok (some frame, rest)

-- What `read_frame` does with a trimmed line.
unfoldable pub match_line : ℕ → (ℕ → Bytes → Read Frames) → Bytes → Bytes → Read (Option Frame)
match_line frame_size read_items [] rest = ok (some (error (codes "ERR empty request")), rest)
match_line frame_size read_items (c ∷ tail) rest =
    if c == b'*'
    then (read_array frame_size read_items tail rest >>= some_frame)
    else if c == b'$'
    then (read_bulk tail rest >>= some_frame)
    else if c == b'+'
    then (do value ← bytes_to_string tail; ok (some (simple value), rest))
    else if c == b':'
    then (do value ← parse_i64 tail; ok (some (integer value), rest))
    else ok (some (parse_inline_command (c ∷ tail)), rest)

abbrev pub next_item : {A : Type 0} → Option Frame → (Frame → Read A) → Read A
next_item none k = err unexpected_eof
next_item (some frame) k = k frame

-- Each call of `read_frame`, and each round of the loop of `read_array`, costs a unit of fuel.
-- `read_frame_total` of the module Protocol.Total shows that twice the length of the stream is enough.
unfoldable mutual
  pub read_frame : ℕ → ℕ → Bytes → Read (Option Frame)
  read_frame frame_size zero input = err out_of_fuel
  read_frame frame_size (suc fuel) input =
      let (line, rest) = read_line input in
      let frame =
        match_line frame_size (λ n left. read_items frame_size fuel n left) (trim_crlf line) rest in
      if length line == 0 then ok (none, rest) else frame

  pub read_items : ℕ → ℕ → ℕ → Bytes → Read Frames
  read_items frame_size zero n input = err out_of_fuel
  read_items frame_size (suc fuel) zero input = ok (nil, input)
  read_items frame_size (suc fuel) (suc n) input = do
    (o, rest) ← read_frame frame_size fuel input
    next_item o λ frame. do (xs, left) ← read_items frame_size fuel n rest; ok (cons frame xs, left)
