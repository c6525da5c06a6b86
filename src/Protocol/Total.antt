-- ===== src/Protocol/Total.antt =====
-- src/protocol/parser.rs: the decoder ends on every stream, well formed or not.
use aerugo_cache.Protocol.Encoder.{crlf}
use aerugo_cache.Prelude.Words.{i64_max}
use aerugo_cache.Text.Utf8.{from_utf8}
use aerugo_cache.Protocol.Frame.{Frames, Frame, cons}
use aerugo_cache.Prelude.Int.{ℤ, pos, negsuc}
use aerugo_cache.Prelude.Ascii.{codes}
use aerugo_cache.Protocol.Parser.{
  parse_usize, parse_i64, read_bulk, read_line, read_buffer, bytes_to_string, Read, ReadError,
  or_invalid, read_bulk_of, match_line, some_frame, out_of_fuel, read_array, read_frame, read_items,
  trim_crlf, next_item,
}
use aerugo_cache.Text.Decimal
use native.Mathlib.Nat.{le_refl}
use aerugo_cache.Prelude.{
  refl, zero, suc, [], ◌∷◌, none, some, inl, inr, false, arith, ok, err, Result, Bytes, ℕ, length,
  Option, Bool-cases, ◌≢◌, ◌≤◌, ◌+◌, ◌>>=◌, ltb, ◌<◌, ◌≡◌, ◌==◌, bytes_eq, ◌*◌, drop, take,
  length-drop,
}

-- The read did not run out of fuel, and what it returns satisfies `P`.
abbrev pub Ensures : {A : Type 0} → (A → Type 0) → Result ReadError A → Type 0
Ensures P (ok a) = P a
Ensures P (err e) = e ≢ out_of_fuel

Ensures-bind :
    {A B : Type 0} (P : A → Type 0) (Q : B → Type 0) (r : Result ReadError A)
    (f : A → Result ReadError B)
    → Ensures P r
    → ((a : A) → P a → Ensures Q (f a))
    → Ensures Q (r >>= f)
Ensures-bind P Q (ok a) f h k = k a h
Ensures-bind P Q (err e) f h k = h

or_invalid-Ensures :
    {A : Type 0} (message : Bytes) (o : Option A) → Ensures (λ a. Unit {0}) (or_invalid message o)
or_invalid-Ensures message none = λ e. cc
or_invalid-Ensures message (some a) = tt

bytes_to_string-Ensures : (bytes : Bytes) → Ensures (λ a. Unit {0}) (bytes_to_string bytes)
unfolding bytes_to_string
bytes_to_string-Ensures bytes = or_invalid-Ensures (codes "invalid UTF-8") (from_utf8 bytes)

parse_usize-Ensures : (bytes : Bytes) → Ensures (λ a. Unit {0}) (parse_usize bytes)
unfolding parse_usize
parse_usize-Ensures bytes =
    Ensures-bind _ _ (bytes_to_string bytes) _ (bytes_to_string-Ensures bytes)
      λ value _. or_invalid-Ensures (codes "invalid integer") (Decimal.parse_usize value)

parse_i64-Ensures : (bytes : Bytes) → Ensures (λ a. Unit {0}) (parse_i64 bytes)
unfolding parse_i64
parse_i64-Ensures bytes =
    Ensures-bind _ _ (bytes_to_string bytes) _ (bytes_to_string-Ensures bytes)
      λ value _. or_invalid-Ensures (codes "invalid integer") (Decimal.parse_i64 value)

-- What is left of the stream is no longer than `n`.
abbrev Shorter : {A : Type 0} → ℕ → A × Bytes → Type 0
Shorter n (a, left) = length left ≤ n

read_buffer-Ensures :
    (len : ℕ) (rest : Bytes) → Ensures (Shorter (length rest)) (read_buffer len rest)
unfolding read_buffer
read_buffer-Ensures len rest = elim (Bool-cases (ltb i64_max (len + 2))) [
  | inl huge ↦ rw huge (λ e. cc)
  | inr small ↦ elim (Bool-cases (ltb (length rest) (len + 2))) [
    | inl short ↦ rw (small, short) (λ e. cc)
    | inr enough ↦ elim (Bool-cases (bytes_eq (drop len (take (len + 2) rest)) crlf)) [
      | inl ends ↦ rw (small, enough, ends) (omega (arith, length-drop {0} (len + 2) rest))
      | inr wrong ↦ rw (small, enough, wrong) (λ e. cc)
    ]
  ]
]

read_bulk_of-Ensures :
    (rest : Bytes) (len : ℤ) → Ensures (Shorter (length rest)) (read_bulk_of rest len)
read_bulk_of-Ensures rest (pos len) = read_buffer-Ensures len rest
read_bulk_of-Ensures rest (negsuc zero) = omega arith
read_bulk_of-Ensures rest (negsuc (suc n)) = λ e. cc

read_bulk-Ensures :
    (len_bytes rest : Bytes) → Ensures (Shorter (length rest)) (read_bulk len_bytes rest)
unfolding read_bulk
read_bulk-Ensures len_bytes rest =
    Ensures-bind _ _ (parse_i64 len_bytes) _ (parse_i64-Ensures len_bytes)
      λ len _. read_bulk_of-Ensures rest len

module _ (size : ℕ) (read : ℕ → Bytes → Read Frames) (rest : Bytes)
    (reads : (n : ℕ) → Ensures (Shorter (length rest)) (read n rest)) where
  read_array-Ensures :
      (len_bytes : Bytes) → Ensures (Shorter (length rest)) (read_array size read len_bytes rest)
  unfolding read_array
  read_array-Ensures len_bytes =
      Ensures-bind _ _ (parse_usize len_bytes) _ (parse_usize-Ensures len_bytes) λ len _.
        elim (Bool-cases (ltb i64_max (len * size))) [
          | inl huge ↦ rw huge (λ e. cc)
          | inr fits ↦
              rw fits
                (Ensures-bind (Shorter (length rest)) _ (read len rest) _ (reads len) λ a h. h)
        ]

  some_frame-Ensures :
      (r : Read Frame)
      → Ensures (Shorter (length rest)) r
      → Ensures (Shorter (length rest)) (r >>= some_frame)
  some_frame-Ensures r h = Ensures-bind _ _ r some_frame h λ a h'. h'

  match_line-Ensures :
      (line : Bytes) → Ensures (Shorter (length rest)) (match_line size read line rest)
  unfolding match_line
  match_line-Ensures [] = omega arith
  match_line-Ensures (c ∷ tail) = elim (Bool-cases (c == b'*')) [
    | inl e ↦ rw e (some_frame-Ensures (read_array size read tail rest) (read_array-Ensures tail))
    | inr no_array ↦ elim (Bool-cases (c == b'$')) [
      | inl e ↦
          rw (no_array, e) (some_frame-Ensures (read_bulk tail rest) (read_bulk-Ensures tail rest))
      | inr no_bulk ↦ elim (Bool-cases (c == b'+')) [
        | inl e ↦
            rw (no_array, no_bulk, e)
              (Ensures-bind _ _ (bytes_to_string tail) _ (bytes_to_string-Ensures tail)
                λ a _. le_refl (length rest))
        | inr no_simple ↦ elim (Bool-cases (c == b':')) [
          | inl e ↦
              rw (no_array, no_bulk, no_simple, e)
                (Ensures-bind _ _ (parse_i64 tail) _ (parse_i64-Ensures tail)
                  λ a _. le_refl (length rest))
          | inr no_integer ↦ rw (no_array, no_bulk, no_simple, no_integer) (le_refl (length rest))
        ]
      ]
    ]
  ]

length-read_line :
    (input : Bytes) → length (read_line input).0 + length (read_line input).1 ≡ length input
unfolding read_line
length-read_line [] = refl
length-read_line (b ∷ bs) = ground (arith, length-read_line bs)

-- A read of a frame that is there takes a byte at least.
abbrev pub Consumes : ℕ → Option Frame × Bytes → Type 0
Consumes n (none, left) = length left ≤ n
Consumes n (some frame, left) = length left < n

Consumes-line :
    (n m : ℕ) (r : Read (Option Frame)) → m < n → Ensures (Shorter m) r → Ensures (Consumes n) r
Consumes-line n m (ok (none, left)) less h = omega arith
Consumes-line n m (ok (some frame, left)) less h = omega arith
Consumes-line n m (err e) less h = h

first_line : (b : ℕ) (bs : Bytes) → 0 < length (read_line (b ∷ bs)).0
unfolding read_line
first_line b bs = ground arith

rest_bound :
    (f b : ℕ) (bs : Bytes)
    → 2 * length (b ∷ bs) < suc f
    → suc (2 * length (read_line (b ∷ bs)).1) < f
rest_bound f b bs h = omega (arith, first_line b bs, length-read_line (b ∷ bs))

some_read :
    (size fuel : ℕ) (b : ℕ) (bs : Bytes)
    → ((n : ℕ)
        → Ensures
            (Shorter (length (read_line (b ∷ bs)).1))
            (read_items size fuel n (read_line (b ∷ bs)).1))
    → Ensures (Consumes (length (b ∷ bs))) (read_frame size (suc fuel) (b ∷ bs))
unfolding read_frame
some_read size fuel b bs reads =
    let line = (read_line (b ∷ bs)).0 in
    let rest = (read_line (b ∷ bs)).1 in
    let there : (length line == 0) ≡ false = ground (arith, first_line b bs) in
    rw there (
      Consumes-line (length (b ∷ bs)) (length rest) _
        (omega (arith, first_line b bs, length-read_line (b ∷ bs)))
        (match_line-Ensures size (λ n left. read_items size fuel n left) rest reads
          (trim_crlf line)))

no_read : (size fuel : ℕ) → Ensures (Consumes 0) (read_frame size (suc fuel) [])
unfolding read_frame read_line
no_read size fuel = omega arith

no_items :
    (size fuel : ℕ) (input : Bytes)
    → Ensures (Shorter (length input)) (read_items size (suc fuel) zero input)
unfolding read_frame
no_items size fuel input = le_refl (length input)

some_items :
    (size fuel n : ℕ) (input : Bytes)
    → Ensures (Consumes (length input)) (read_frame size fuel input)
    → ((left : Bytes)
        → length left < length input
        → Ensures (Shorter (length left)) (read_items size fuel n left))
    → Ensures (Shorter (length input)) (read_items size (suc fuel) (suc n) input)
unfolding read_frame
some_items size fuel n input first others =
    Ensures-bind (Consumes (length input)) (Shorter (length input)) (read_frame size fuel input) _
      first go
  where
    go :
        (a : Option Frame × Bytes)
        → Consumes (length input) a
        → Ensures (Shorter (length input)) (
            next_item a.0
              λ frame. do (xs, left) ← read_items size fuel n a.1; ok (cons frame xs, left))
    go (none, left) h = λ e. cc
    go (some frame, left) h =
        Ensures-bind (Shorter (length left)) (Shorter (length input)) (read_items size fuel n left)
          _ (others left h) λ a less. omega arith

mutual
  read_frame-Ensures :
      (size f : ℕ) (input : Bytes)
      → 2 * length input < f
      → Ensures (Consumes (length input)) (read_frame size f input)
  read_frame-Ensures size zero input less = absurd (omega arith)
  read_frame-Ensures size (suc f) [] less = no_read size f
  read_frame-Ensures size (suc f) (b ∷ bs) less =
      some_read size f b bs
        λ n. read_items-Ensures size f n (read_line (b ∷ bs)).1 (rest_bound f b bs less)

  read_items-Ensures :
      (size f n : ℕ) (input : Bytes)
      → suc (2 * length input) < f
      → Ensures (Shorter (length input)) (read_items size f n input)
  read_items-Ensures size zero n input less = absurd (omega arith)
  read_items-Ensures size (suc f) zero input less = no_items size f input
  read_items-Ensures size (suc f) (suc n) input less =
      some_items size f n input (read_frame-Ensures size f input (omega arith))
        λ left shorter. read_items-Ensures size f n left (omega arith)

-- On fuel above twice the length of the stream the decoder never runs out: it returns, and what is
-- left of the stream is shorter where it returns a frame.
pub read_frame_total :
    (size f : ℕ) (input : Bytes)
    → 2 * length input < f
    → Ensures (Consumes (length input)) (read_frame size f input)
read_frame_total = read_frame-Ensures
