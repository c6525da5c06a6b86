-- ===== src/Protocol/Torn/Requests.antt =====
-- src/protocol/parser.rs: a frame of a request that breaks off.
use aerugo_cache.Protocol.Torn.Lines.{
  read_array-line, array_of, read_buffer-short, array_of-Fails, read_bulk-line,
}
use aerugo_cache.Protocol.Torn.{
  IsTorn, IsPrefix, Fails, bind-Fails, IsTorn-tail, read_items-end, IsTorn-line, read_items-suc,
  IsPrefix-NoLf, IsTorn-append, read_frame-NoLf,
}
use aerugo_cache.Protocol.Streams.{write_items-nil, write_items-cons}
use aerugo_cache.Protocol.RoundTrip.{AllReadable, IsReadable, read_frame-write_frame, frame_pos}
use mathlib.Core.Path.{subst}
use aerugo_cache.Text.Decimal.{
  IsDigit, u64_max, show_nat, show_i64, show_nat-IsDigit, show_nat-ne-nil,
}
use aerugo_cache.Text.Leading.{show_nat-IsLeading}
use aerugo_cache.Prelude.Int.{pos}
use aerugo_cache.Prelude.Words.{i64_max}
use aerugo_cache.Protocol.Frame.{Frames, array, bulk, nil, frames, count}
use aerugo_cache.Protocol.Encoder.{crlf, write_frame, write_items}
use aerugo_cache.Protocol.Lines.{
  NoLf, parse_i64-show_i64, parse_usize-show_nat, NoLf-digits, read_frame-line,
}
use aerugo_cache.Protocol.Parser.{
  read_items, read_frame, match_line, Read, read_buffer, read_bulk, some_frame, parse_i64,
  read_array,
}
use aerugo_cache.Prelude.{
  refl, zero, suc, [], ◌∷◌, ok, inl, inr, arith, ℕ, Bytes, ◌++◌, ◌≢◌, ◌≡◌, length, ◌<◌, ◌+◌, All,
  ◌*◌, ◌≤◌, length-append, All-append, ap, List, map,
}

module _ (size : ℕ) (read : ℕ → Bytes → Read Frames) where
  match-bulk_line :
      (p : Bytes) → Fails (read_bulk p []) → Fails (match_line size read (b'$' ∷ p) [])
  unfolding match_line
  match-bulk_line p h = bind-Fails (read_bulk p []) some_frame h

  match-array_line :
      (p : Bytes) → Fails (read_array size read p []) → Fails (match_line size read (b'*' ∷ p) [])
  unfolding match_line
  match-array_line p h = bind-Fails (read_array size read p []) some_frame h

  -- The line of a bulk string, and what there is of its bytes.
  match-bulk_short :
      (value rest : Bytes)
      → length value + 2 ≤ i64_max
      → length rest < length value + 2
      → Fails (match_line size read (b'$' ∷ show_nat (length value)) rest)
  unfolding match_line read_bulk
  match-bulk_short value rest fits short =
      let len : parse_i64 (show_nat (length value)) ≡ ok (pos (length value)) =
        unfold show_i64 in parse_i64-show_i64 (pos (length value)) (omega arith) in
      rw len (
        bind-Fails (read_buffer (length value) rest) some_frame
          (read_buffer-short (length value) rest short))

  match-array_short :
      (n : ℕ) (rest : Bytes)
      → n ≤ u64_max
      → Fails (read n rest)
      → Fails (match_line size read (b'*' ∷ show_nat n) rest)
  unfolding match_line read_array
  match-array_short n rest fits h =
      rw (parse_usize-show_nat n fits)
        (bind-Fails (array_of size read n rest) some_frame (array_of-Fails size read n rest h))

length-IsTorn : (p s : Bytes) → IsTorn p s → length p < length s
length-IsTorn p s ([], some_left, e) = absurd (some_left refl)
length-IsTorn p s (c ∷ q, some_left, e) =
    let total = length-append p (c ∷ q) in let same = ap length e in omega arith

IsDigit-NoLf : (digits : Bytes) → All IsDigit digits → NoLf (digits ++ 13 ∷ [])
IsDigit-NoLf digits h =
    All-append (λ c. c ≢ 10) digits (13 ∷ []) (NoLf-digits digits h) (omega arith, tt)

-- A bulk string that breaks off.
read_frame-torn_bulk :
    (size fuel : ℕ) (value p : Bytes)
    → length value + 2 ≤ i64_max
    → p ≢ []
    → IsTorn p (write_frame (bulk value))
    → Fails (read_frame size (suc fuel) p)
unfolding write_frame
read_frame-torn_bulk size fuel value [] fits some_byte t = absurd (some_byte refl)
read_frame-torn_bulk size fuel value (c ∷ p) fits some_byte t =
    let digits = show_nat (length value) in
    let decimal = show_nat-IsDigit (length value) in
    let (same, tail) = IsTorn-tail c b'$' p (digits ++ (crlf ++ (value ++ crlf))) t in
    rw same (elim (IsTorn-line digits (value ++ crlf) p tail) [
      | inl pre ↦
          let line = IsPrefix-NoLf p (digits ++ 13 ∷ []) (IsDigit-NoLf digits decimal) pre in
          rw (read_frame-NoLf size fuel b'$' p (omega arith, line)) (
            match-bulk_line size _ p
              (read_bulk-line digits p decimal (show_nat-ne-nil (length value)) pre))
      | inr (rest, e, left) ↦
          let short = length-IsTorn rest (value ++ crlf) left in
          rw
            (
              e,
              read_frame-line size fuel b'$' digits rest (omega arith) (NoLf-digits digits decimal),
            )
            (match-bulk_short size _ value rest fits (omega (arith, length-append {0} value crlf)))
    ])

-- The frames of the arguments of a command.
abbrev pub bulks : List Bytes → Frames
bulks args = frames (map bulk args)

read_items-torn :
    (size fuel : ℕ) (args : List Bytes) (p : Bytes)
    → AllReadable size (bulks args)
    → suc (2 * length p) < fuel
    → IsTorn p (write_items (bulks args))
    → Fails (read_items size fuel (count (bulks args)) p)
unfolding frames count
read_items-torn size zero args p h less t = absurd (omega arith)
read_items-torn size (suc fuel) [] p h less t = absurd (
    let short = length-IsTorn p (write_items nil) t in
    let none_left = ap length write_items-nil in omega arith)
read_items-torn size (suc fuel) (v ∷ args) [] h less t = read_items-end size (suc fuel) _
read_items-torn size (suc zero) (v ∷ args) (c ∷ p) h less t = absurd (omega arith)
read_items-torn size (suc (suc fuel)) (v ∷ args) (c ∷ p) h less t =
    rw (read_items-suc size (suc fuel) (count (bulks args)) (c ∷ p))
      (elim (IsTorn-append (write_frame (bulk v)) (write_items (bulks args)) (c ∷ p) parts) [
        | inl first ↦
            bind-Fails (read_frame size (suc fuel) (c ∷ p)) _
              (read_frame-torn_bulk size fuel v (c ∷ p) h.0 (λ e. cc) first)
        | inr (rest, e, left) ↦
            let total = length-append (write_frame (bulk v)) rest in
            let same = ap length e in
            rw (e, read_frame-write_frame size (bulk v) (suc fuel) rest h.0 (omega arith))
              (bind-Fails (read_items size (suc fuel) (count (bulks args)) rest) _ (
                read_items-torn size (suc fuel) args rest h.1 (omega (arith, frame_pos (bulk v)))
                  left))
      ])
  where
    parts : IsTorn (c ∷ p) (write_frame (bulk v) ++ write_items (bulks args))
    parts = subst (IsTorn (c ∷ p)) (write_items-cons (bulk v) (bulks args)) t

write_frame-array :
    (xs : Frames)
    → write_frame (array xs) ≡ b'*' ∷ (show_nat (count xs) ++ (crlf ++ write_items xs))
unfolding write_frame
write_frame-array xs = refl

array_line :
    (size fuel n : ℕ) (p : Bytes)
    → 0 < n
    → IsPrefix p (show_nat n ++ 13 ∷ [])
    → Fails (read_array size (λ m left. read_items size fuel m left) p [])
array_line size fuel n p some_item pre =
    let (d, digits, e, leading) = show_nat-IsLeading n some_item in
    read_array-line size _ d digits p (read_items-end size fuel) leading
      (subst (λ s. IsPrefix p (s ++ 13 ∷ [])) e pre)

-- A request of one argument at least that breaks off, but not before its first byte, is an error,
-- whatever the fuel is above twice its length.
pub read_frame-torn :
    (size fuel : ℕ) (args : List Bytes) (p : Bytes)
    → IsReadable size (array (bulks args))
    → args ≢ []
    → p ≢ []
    → IsTorn p (write_frame (array (bulks args)))
    → 2 * length p < fuel
    → Fails (read_frame size fuel p)
read_frame-torn size zero args p h some_arg some_byte t less = absurd (omega arith)
read_frame-torn size (suc fuel) args [] h some_arg some_byte t less = absurd (some_byte refl)
read_frame-torn size (suc fuel) [] (c ∷ p) h some_arg some_byte t less = absurd (some_arg refl)
read_frame-torn size (suc fuel) (v ∷ args) (c ∷ p) h some_arg some_byte t less =
    let n = count (bulks (v ∷ args)) in
    let digits = show_nat n in
    let decimal = show_nat-IsDigit n in
    let items = write_items (bulks (v ∷ args)) in
    let whole : IsTorn (c ∷ p) (b'*' ∷ (digits ++ (crlf ++ items))) =
      subst (IsTorn (c ∷ p)) (write_frame-array (bulks (v ∷ args))) t in
    let (same, tail) = IsTorn-tail c b'*' p (digits ++ (crlf ++ items)) whole in
    rw same (elim (IsTorn-line digits items p tail) [
      | inl pre ↦
          let line = IsPrefix-NoLf p (digits ++ 13 ∷ []) (IsDigit-NoLf digits decimal) pre in
          rw (read_frame-NoLf size fuel b'*' p (omega arith, line)) (
            match-array_line size _ p
              (array_line size fuel n p (unfold frames count in omega arith) pre))
      | inr (rest, e, left) ↦
          let total = length-append digits (crlf ++ rest) in
          let shorter = ap length e in
          rw
            (
              e,
              read_frame-line size fuel b'*' digits rest (omega arith) (NoLf-digits digits decimal),
            )
            (match-array_short size _ n rest h.0
              (read_items-torn size fuel (v ∷ args) rest h.2 (omega arith) left))
    ])
