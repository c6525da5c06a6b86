-- ===== src/Protocol/Lines.antt =====
-- src/protocol/parser.rs: how a line that the encoder ended is read back.
use aerugo_cache.Text.Utf8.{from_utf8_lem, is_utf8-ascii}
use aerugo_cache.Protocol.Encoder.{crlf}
use aerugo_cache.Prelude.Int.{ℤ, pos, negsuc}
use aerugo_cache.Text.Decimal.{
  show_i64, IsDigit, InI64, u64_max, show_nat, show_nat-IsDigit, parse_unsigned-show_nat,
}
use aerugo_cache.Protocol.Parser.{
  parse_usize, parse_i64, bytes_to_string, strip_suffix, read_frame, read_line, trim_crlf,
  match_line, read_items,
}
use aerugo_cache.Text.Decimal
use aerugo_cache.Prelude.{
  refl, suc, [], ◌∷◌, some, arith, ok, Bytes, ◌++◌, ℕ, All, ◌≤◌, ◌≢◌, ◌≡◌, ◌<◌, length, All-imp,
  ◌-◌, length-append, ◌+◌, drop-append, take-append, bytes_eq_refl,
}

-- No line feed.
abbrev pub NoLf : Bytes → Type 0
NoLf = All (λ c. c ≢ 10)

pub read_line-crlf :
    (line rest : Bytes) → NoLf line → read_line (line ++ (crlf ++ rest)) ≡ (line ++ crlf, rest)
unfolding read_line
read_line-crlf [] rest h = refl
read_line-crlf (c ∷ line) rest h =
    let not_lf = h.0 in rw (read_line-crlf line rest h.1) (ground arith)

strip_suffix-append : (line suffix : Bytes) → strip_suffix suffix (line ++ suffix) ≡ some line
unfolding strip_suffix
strip_suffix-append line suffix =
    let n : length (line ++ suffix) - length suffix ≡ length line =
      omega (arith, length-append {0} line suffix) in
    rw (n, drop-append, take-append, bytes_eq_refl)

pub trim_crlf-crlf : (line : Bytes) → trim_crlf (line ++ crlf) ≡ line
unfolding trim_crlf
trim_crlf-crlf line = rw (strip_suffix-append line crlf)

-- A line that ends as the encoder ends it goes to `match_line` without its terminator.
pub read_frame-line :
    (frame_size fuel : ℕ) (c : ℕ) (tail rest : Bytes)
    → c ≢ 10
    → NoLf tail
    → read_frame frame_size (suc fuel) (c ∷ (tail ++ (crlf ++ rest)))
      ≡ match_line frame_size (λ n left. read_items frame_size fuel n left) (c ∷ tail) rest
unfolding read_frame
read_frame-line frame_size fuel c tail rest hc h =
    rw (read_line-crlf (c ∷ tail) rest (hc, h), trim_crlf-crlf (c ∷ tail)) (ground arith)

pub NoLf-digits : (s : Bytes) → All IsDigit s → NoLf s
NoLf-digits s h = All-imp IsDigit (λ c. c ≢ 10) s (λ c d. omega arith) h

ascii-digits : (s : Bytes) → All IsDigit s → All (λ b. b < 0x80) s
ascii-digits s h = All-imp IsDigit (λ b. b < 0x80) s (λ c d. omega arith) h

pub parse_usize-show_nat : (n : ℕ) → n ≤ u64_max → parse_usize (show_nat n) ≡ ok n
unfolding parse_usize bytes_to_string Decimal.parse_usize
parse_usize-show_nat n h = rw (
  from_utf8_lem (show_nat n) (is_utf8-ascii (show_nat n) (ascii-digits _ (show_nat-IsDigit n))),
  parse_unsigned-show_nat u64_max n h,
)

show_i64-ascii : (z : ℤ) → All (λ b. b < 0x80) (show_i64 z)
unfolding show_i64
show_i64-ascii (pos n) = ascii-digits (show_nat n) (show_nat-IsDigit n)
show_i64-ascii (negsuc n) =
    (omega arith, ascii-digits (show_nat (n + 1)) (show_nat-IsDigit (n + 1)))

pub show_i64-NoLf : (z : ℤ) → NoLf (show_i64 z)
unfolding show_i64
show_i64-NoLf (pos n) = NoLf-digits (show_nat n) (show_nat-IsDigit n)
show_i64-NoLf (negsuc n) = (omega arith, NoLf-digits (show_nat (n + 1)) (show_nat-IsDigit (n + 1)))

pub parse_i64-show_i64 : (z : ℤ) → InI64 z → parse_i64 (show_i64 z) ≡ ok z
unfolding parse_i64 bytes_to_string
parse_i64-show_i64 z h = rw (
  from_utf8_lem (show_i64 z) (is_utf8-ascii (show_i64 z) (show_i64-ascii z)),
  Decimal.parse_i64-show_i64 z h,
)
