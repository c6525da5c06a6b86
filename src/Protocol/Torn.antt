-- ===== src/Protocol/Torn.antt =====
-- src/protocol/parser.rs: a request that breaks off is not taken for a frame.
pub mod Lines
pub mod Requests
use aerugo_cache.Protocol.Streams.{write_items-nil, write_items-cons}
use aerugo_cache.Protocol.RoundTrip.{AllReadable, IsReadable, read_frame-write_frame, frame_pos}
use mathlib.Core.Path.{subst}
use aerugo_cache.Prelude.Ascii.{codes}
use aerugo_cache.Text.Utf8.{from_utf8, is_utf8}
use aerugo_cache.Text.Decimal.{
  IsDigit, parse_unsigned, u64_max, show_nat, show_i64, show_nat-IsDigit, show_nat-ne-nil,
}
use aerugo_cache.Text.Leading.{IsLeading, parse_i64-pos, parse_unsigned-pos, show_nat-IsLeading}
use aerugo_cache.Text.Decimal
use aerugo_cache.Prelude.Int.{pos, ℤ}
use aerugo_cache.Prelude.Words.{i64_max}
use aerugo_cache.Protocol.Frame.{cons, Frames, Frame, array, bulk, nil, frames, count}
use aerugo_cache.Protocol.Encoder.{crlf, write_frame, write_items}
use aerugo_cache.Protocol.Lines.{
  NoLf, parse_i64-show_i64, parse_usize-show_nat, NoLf-digits, read_frame-line,
}
use aerugo_cache.Protocol.Parser.{
  read_line, ReadError, out_of_fuel, unexpected_eof, next_item, read_items, read_frame, trim_crlf,
  match_line, strip_suffix, panicked, invalid_data, Read, read_buffer, read_bulk, some_frame,
  parse_i64, parse_usize, or_invalid, read_array, read_bulk_of, bytes_to_string,
}
use aerugo_cache.Prelude.{
  refl, zero, suc, [], ◌∷◌, none, some, ok, err, inl, inr, arith, ◌>>=◌, Result, ℕ, Bytes, ◌++◌,
  ◌≢◌, ◌≡◌, ◌⊎◌, bytes_eq, drop, false, length, ◌-◌, true, ◌<◌, ◌+◌, Bool-cases, ltb, Option, All,
  if◌then◌else◌, ◌*◌, ◌≤◌, length-append, All-append, ap, List, map,
}

-- `p` is a part of `s`, from its start, but not all of it.
abbrev pub IsTorn : Bytes → Bytes → Type 0
IsTorn p s = (q : Bytes) × (q ≢ []) × (p ++ q ≡ s)

abbrev pub IsPrefix : Bytes → Bytes → Type 0
IsPrefix p s = (q : Bytes) × (p ++ q ≡ s)

abbrev pub Fails : {A : Type 0} → Result ReadError A → Type 0
Fails r = (e : ReadError) × (r ≡ err e)

pub Fails-bind :
    {A B : Type 0} (r : Result ReadError A) (f : A → Result ReadError B)
    → ((a : A) → r ≡ ok a → Fails (f a))
    → Fails (r >>= f)
Fails-bind (ok a) f h = h a refl
Fails-bind (err e) f h = (e, refl)

pub bind-Fails :
    {A B : Type 0} (r : Result ReadError A) (f : A → Result ReadError B) → Fails r → Fails (r >>= f)
bind-Fails (ok a) f (e, h) = absurd cc
bind-Fails (err e) f h = (e, refl)

pub IsTorn-tail : (c d : ℕ) (p s : Bytes) → IsTorn (c ∷ p) (d ∷ s) → (c ≡ d) × IsTorn p s
IsTorn-tail c d p s (q, some_left, e) = (cc, (q, some_left, cc))

-- Where a stream of two parts breaks off.
pub IsTorn-append :
    (a b p : Bytes)
    → IsTorn p (a ++ b)
    → IsTorn p a ⊎ ((rest : Bytes) × (p ≡ a ++ rest) × IsTorn rest b)
IsTorn-append [] b p t = inr (p, refl, t)
IsTorn-append (c ∷ a) b [] t = inl (c ∷ a, (λ e. cc), refl)
IsTorn-append (c ∷ a) b (d ∷ p) t =
    let (same, tail) = IsTorn-tail d c p (a ++ b) t in
    elim (IsTorn-append a b p tail) [
      | inl (q, some_left, e) ↦ inl (q, some_left, cc)
      | inr (rest, e, left) ↦ inr (rest, cc, left)
    ]

-- A line that breaks off, or ends.
pub IsTorn-line :
    (line more p : Bytes)
    → IsTorn p (line ++ (crlf ++ more))
    → IsPrefix p (line ++ 13 ∷ [])
      ⊎ ((rest : Bytes) × (p ≡ line ++ (crlf ++ rest)) × IsTorn rest more)
IsTorn-line [] more [] t = inl (13 ∷ [], refl)
IsTorn-line [] more (c ∷ []) (q, some_left, e) = inl ([], cc)
IsTorn-line [] more (c ∷ d ∷ p) (q, some_left, e) = inr (p, cc, (q, some_left, cc))
IsTorn-line (c ∷ line) more [] t = inl (c ∷ (line ++ 13 ∷ []), refl)
IsTorn-line (c ∷ line) more (d ∷ p) t =
    let (same, tail) = IsTorn-tail d c p (line ++ (crlf ++ more)) t in
    elim (IsTorn-line line more p tail) [
      | inl (q, e) ↦ inl (q, cc)
      | inr (rest, e, left) ↦ inr (rest, cc, left)
    ]

pub IsPrefix-NoLf : (p line : Bytes) → NoLf line → IsPrefix p line → NoLf p
IsPrefix-NoLf [] line h pre = tt
IsPrefix-NoLf (c ∷ p) [] h (q, e) = absurd (cc)
IsPrefix-NoLf (c ∷ p) (d ∷ line) h (q, e) =
    let same : c ≡ d = cc in (rw same h.0, IsPrefix-NoLf p line h.1 (q, cc))

-- The last line of a stream that has no end.
pub read_line-NoLf : (p : Bytes) → NoLf p → read_line p ≡ (p, [])
unfolding read_line
read_line-NoLf [] h = refl
read_line-NoLf (c ∷ p) h = let not_lf = h.0 in rw (read_line-NoLf p h.1) (ground arith)

pub NoLf-drop : (n : ℕ) (p : Bytes) → NoLf p → NoLf (drop n p)
NoLf-drop zero p h = h
NoLf-drop (suc n) [] h = tt
NoLf-drop (suc n) (c ∷ p) h = NoLf-drop n p h.1

pub crlf-ne : (p : Bytes) → NoLf p → bytes_eq p crlf ≡ false
unfolding bytes_eq
crlf-ne [] h = refl
crlf-ne (c ∷ []) h = ground arith
crlf-ne (c ∷ d ∷ p) h = let not_lf = h.1.0 in ground arith

pub lf-ne : (p : Bytes) → NoLf p → bytes_eq p (10 ∷ []) ≡ false
unfolding bytes_eq
lf-ne [] h = refl
lf-ne (c ∷ p) h = let not_lf = h.0 in ground arith

pub trim_crlf-NoLf : (p : Bytes) → NoLf p → trim_crlf p ≡ p
unfolding trim_crlf strip_suffix
trim_crlf-NoLf p h =
    rw
      (
        crlf-ne (drop (length p - 2) p) (NoLf-drop (length p - 2) p h),
        lf-ne (drop (length p - 1) p) (NoLf-drop (length p - 1) p h),
      )
      refl

-- A stream that ends within a line goes to `match_line` as it is.
pub read_frame-NoLf :
    (size fuel c : ℕ) (tail : Bytes)
    → NoLf (c ∷ tail)
    → read_frame size (suc fuel) (c ∷ tail)
      ≡ match_line size (λ n left. read_items size fuel n left) (c ∷ tail) []
unfolding read_frame
read_frame-NoLf size fuel c tail h =
    rw (read_line-NoLf (c ∷ tail) h, trim_crlf-NoLf (c ∷ tail) h) (ground arith)

pub read_frame-end : (size fuel : ℕ) → read_frame size (suc fuel) [] ≡ ok (none, [])
unfolding read_frame read_line
read_frame-end size fuel = refl

pub read_items-suc :
    (size fuel n : ℕ) (input : Bytes)
    → read_items size (suc fuel) (suc n) input ≡ (do
      (o, rest) ← read_frame size fuel input
      next_item o λ frame. do (xs, left) ← read_items size fuel n rest; ok (cons frame xs, left))
unfolding read_frame
read_items-suc size fuel n input = refl

-- Where an item is missing.
pub read_items-end : (size fuel n : ℕ) → Fails (read_items size fuel (suc n) [])
read_items-end size zero n = (out_of_fuel, unfold read_frame in refl)
read_items-end size (suc zero) n =
    (out_of_fuel, rw (read_items-suc size zero n []) (unfold read_frame in refl))
read_items-end size (suc (suc fuel)) n =
    (unexpected_eof, rw (read_items-suc size (suc fuel) n [], read_frame-end size fuel))
