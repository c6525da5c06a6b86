-- ===== src/Protocol/Torn/Lines.antt =====
-- src/protocol/parser.rs: a line of a request that breaks off.
use aerugo_cache.Protocol.Torn.{IsPrefix, Fails, bind-Fails, Fails-bind}
use aerugo_cache.Prelude.Ascii.{codes}
use aerugo_cache.Text.Utf8.{from_utf8, is_utf8}
use aerugo_cache.Text.Decimal.{
  IsDigit, parse_unsigned, u64_max, show_nat, show_i64, show_nat-IsDigit, show_nat-ne-nil,
}
use aerugo_cache.Text.Leading.{IsLeading, parse_i64-pos, parse_unsigned-pos}
use aerugo_cache.Text.Decimal
use aerugo_cache.Prelude.Int.{pos, ℤ}
use aerugo_cache.Prelude.Words.{i64_max}
use aerugo_cache.Protocol.Frame.{Frames, Frame, array, count}
use aerugo_cache.Protocol.Parser.{
  unexpected_eof, panicked, Read, read_buffer, read_bulk, parse_i64, parse_usize, or_invalid,
  read_array, read_bulk_of, bytes_to_string,
}
use aerugo_cache.Prelude.{
  refl, zero, suc, [], ◌∷◌, none, some, ok, err, inl, inr, arith, ◌>>=◌, ℕ, Bytes, ◌++◌, ◌≢◌, ◌≡◌,
  length, true, ◌<◌, ◌+◌, Bool-cases, ltb, Option, All, if◌then◌else◌, ◌*◌,
}

pub or_invalid-ok :
    {A : Type 0} (message : Bytes) (o : Option A) (a : A) → or_invalid message o ≡ ok a → o ≡ some a
or_invalid-ok message none a h = absurd cc
or_invalid-ok message (some b) a h = cc

pub parse_usize-ok : (s : Bytes) (n : ℕ) → parse_usize s ≡ ok n → Decimal.parse_usize s ≡ some n
unfolding parse_usize bytes_to_string from_utf8
parse_usize-ok s n h = elim (Bool-cases (is_utf8 s)) [
  | inl text ↦ or_invalid-ok (codes "invalid integer") (Decimal.parse_usize s) n (rw text at h)
  | inr bad ↦ absurd (let e = rw bad at h in cc)
]

pub parse_i64-ok : (s : Bytes) (z : ℤ) → parse_i64 s ≡ ok z → Decimal.parse_i64 s ≡ some z
unfolding parse_i64 bytes_to_string from_utf8
parse_i64-ok s z h = elim (Bool-cases (is_utf8 s)) [
  | inl text ↦ or_invalid-ok (codes "invalid integer") (Decimal.parse_i64 s) z (rw text at h)
  | inr bad ↦ absurd (let e = rw bad at h in cc)
]

-- A bulk string that is not all there.
pub read_buffer-short : (n : ℕ) (rest : Bytes) → length rest < n + 2 → Fails (read_buffer n rest)
unfolding read_buffer
read_buffer-short n rest short = elim (Bool-cases (ltb i64_max (n + 2))) [
  | inl huge ↦ rw huge (panicked, refl)
  | inr small ↦
      let missing : ltb (length rest) (n + 2) ≡ true = ground arith in
      rw (small, missing) (unexpected_eof, refl)
]

pub read_bulk_of-end : (n : ℕ) (z : ℤ) → z ≡ pos n → Fails (read_bulk_of [] z)
read_bulk_of-end n z e = rw e (read_buffer-short n [] (omega arith))

-- The line of a bulk string that breaks off.
pub read_bulk-line :
    (digits p : Bytes)
    → All IsDigit digits
    → digits ≢ []
    → IsPrefix p (digits ++ 13 ∷ [])
    → Fails (read_bulk p [])
unfolding read_bulk
read_bulk-line [] p h some_digit pre = absurd (some_digit refl)
read_bulk-line (d ∷ digits) [] h some_digit pre =
    Fails-bind (parse_i64 []) _
      λ z e. absurd (let e' = parse_i64-ok [] z e in unfold Decimal.parse_i64 in cc)
read_bulk-line (d ∷ digits) (c ∷ p) h some_digit (q, e) = Fails-bind (parse_i64 (c ∷ p)) _ λ z read.
    let same : c ≡ d = cc in
    let (n, is) = parse_i64-pos c p z (rw same h.0) (parse_i64-ok (c ∷ p) z read) in
    read_bulk_of-end n z is

abbrev pub array_of : ℕ → (ℕ → Bytes → Read Frames) → ℕ → Bytes → Read Frame
array_of size read n rest =
    if ltb i64_max (n * size)
    then err panicked
    else do (xs, left) ← read n rest; ok (array xs, left)

pub array_of-Fails :
    (size : ℕ) (read : ℕ → Bytes → Read Frames) (n : ℕ) (rest : Bytes)
    → Fails (read n rest)
    → Fails (array_of size read n rest)
array_of-Fails size read n rest h = elim (Bool-cases (ltb i64_max (n * size))) [
  | inl huge ↦ rw huge (panicked, refl)
  | inr fits ↦ rw fits (bind-Fails (read n rest) _ h)
]

-- The line of an array of one item at least that breaks off.
pub read_array-line :
    (size : ℕ) (read : ℕ → Bytes → Read Frames) (d : ℕ) (digits p : Bytes)
    → ((n : ℕ) → Fails (read (suc n) []))
    → IsLeading d
    → IsPrefix p (d ∷ digits ++ 13 ∷ [])
    → Fails (read_array size read p [])
unfolding read_array
read_array-line size read d digits [] missing h pre = Fails-bind (parse_usize []) _ λ n e.
    absurd
      (let e' = parse_usize-ok [] n e in unfold Decimal.parse_usize Decimal.parse_unsigned in cc)
read_array-line size read d digits (c ∷ p) missing h (q, e) =
    Fails-bind (parse_usize (c ∷ p)) _ λ n count.
      let same : c ≡ d = cc in
      let positive = parse_unsigned-pos u64_max c p n (rw same h) (parsed n count) in
      items n positive
  where
    parsed : (n : ℕ) → parse_usize (c ∷ p) ≡ ok n → parse_unsigned u64_max (c ∷ p) ≡ some n
    parsed n count = unfold Decimal.parse_usize in parse_usize-ok (c ∷ p) n count

    items : (n : ℕ) → 0 < n → Fails (array_of size read n [])
    items zero positive = absurd (omega arith)
    items (suc n) positive = array_of-Fails size read (suc n) [] (missing n)
