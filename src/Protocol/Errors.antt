-- ===== src/Protocol/Errors.antt =====
-- src/protocol: what the decoder makes of the errors that the encoder writes.
use aerugo_cache.Prelude.Words.{i64_max}
use aerugo_cache.Prelude.Ascii.{codes}
use aerugo_cache.Protocol.Words.{Spaced, parse_inline_command-Spaced}
use aerugo_cache.Prelude.Int.{ℤ, pos, negsuc}
use mathlib.Core.Path.{subst}
use aerugo_cache.Protocol.RoundTrip.{bare_line_assoc}
use aerugo_cache.Prelude.{
  refl, zero, suc, [], ◌∷◌, none, some, inl, inr, arith, ok, err, ℕ, Bytes, ◌++◌, ◌≡◌, ◌∙◌, Option,
  Result, Bool-cases, ◌>>=◌, ltb, length, ◌==◌, ◌+◌, bytes_eq, List, map, ap, drop, take, ◌*◌,
  if◌then◌else◌,
}
use aerugo_cache.Protocol.Encoder.{write_frame, crlf}
use aerugo_cache.Protocol.Frame.{Frame, error, Frames, frames, array, bulk}
use aerugo_cache.Protocol.Parser.{
  read_frame, read_items, match_line, parse_inline_command, Read, read_bulk, read_buffer,
  read_array, ReadError, some_frame, read_bulk_of, read_line, trim_crlf, bytes_to_string, parse_i64,
  parse_usize,
}
use aerugo_cache.Protocol.Lines.{NoLf, read_frame-line}

match-error :
    (size : ℕ) (read : ℕ → Bytes → Read Frames) (value rest : Bytes)
    → match_line size read (b'-' ∷ value) rest
      ≡ ok (some (parse_inline_command (b'-' ∷ value)), rest)
unfolding match_line
match-error size read value rest = refl

-- An error in one line that the encoder wrote is read back as the array of the words of its line,
-- from the sign of the error on: those between blanks, none of them empty.
pub read_frame-error :
    (size fuel : ℕ) (value rest : Bytes)
    → NoLf value
    → (words : List Bytes) × Spaced (b'-' ∷ value) words
      × (read_frame size (suc fuel) (write_frame (error value) ++ rest)
          ≡ ok (some (array (frames (map bulk words))), rest))
unfolding write_frame
read_frame-error size fuel value rest h =
    let (words, spaced, e) = parse_inline_command-Spaced (b'-' ∷ value) in
    (
      words,
      spaced,
      rw (bare_line_assoc b'-' value rest) (
          read_frame-line size fuel b'-' value rest (omega arith) h
          ∙ match-error size (λ n left. read_items size fuel n left) value rest
          ∙ ap (λ frame. ok (some frame, rest)) e),
    )

-- What a read returns, if it returns a value, satisfies `P`.
abbrev Reads : {A : Type 0} → (A → Type 0) → Result ReadError A → Type 0
Reads P (ok a) = P a
Reads P (err e) = Unit

Reads-bind :
    {A B : Type 0} (P : A → Type 0) (Q : B → Type 0) (r : Result ReadError A)
    (f : A → Result ReadError B)
    → Reads P r
    → ((a : A) → P a → Reads Q (f a))
    → Reads Q (r >>= f)
Reads-bind P Q (ok a) f h k = k a h
Reads-bind P Q (err e) f h k = tt

Reads-any : {A : Type 0} (r : Result ReadError A) → Reads (λ a. Unit {0}) r
Reads-any (ok a) = tt
Reads-any (err e) = tt

abbrev pub empty_request : Bytes
empty_request = codes "ERR empty request"

IsReply : Frame × Bytes → Type 0
IsReply (error value, rest) = value ≡ empty_request
IsReply (frame, rest) = Unit

IsReplyMaybe : Option Frame × Bytes → Type 0
IsReplyMaybe (none, rest) = Unit
IsReplyMaybe (some frame, rest) = IsReply (frame, rest)

some_frame-Reads : (r : Read Frame) → Reads IsReply r → Reads IsReplyMaybe (r >>= some_frame)
unfolding IsReplyMaybe
some_frame-Reads r h = Reads-bind IsReply IsReplyMaybe r some_frame h λ a h'. h'

read_buffer-Reads : (len : ℕ) (rest : Bytes) → Reads IsReply (read_buffer len rest)
unfolding read_buffer IsReply
read_buffer-Reads len rest = elim (Bool-cases (ltb i64_max (len + 2))) [
  | inl huge ↦ rw huge tt
  | inr small ↦ elim (Bool-cases (ltb (length rest) (len + 2))) [
    | inl short ↦ rw (small, short) tt
    | inr enough ↦ elim (Bool-cases (bytes_eq (drop len (take (len + 2) rest)) crlf)) [
      | inl ends ↦ rw (small, enough, ends) tt
      | inr wrong ↦ rw (small, enough, wrong) tt
    ]
  ]
]

read_bulk_of-Reads : (rest : Bytes) (len : ℤ) → Reads IsReply (read_bulk_of rest len)
unfolding IsReply
read_bulk_of-Reads rest (pos len) = read_buffer-Reads len rest
read_bulk_of-Reads rest (negsuc zero) = tt
read_bulk_of-Reads rest (negsuc (suc n)) = tt

read_bulk-Reads : (len_bytes rest : Bytes) → Reads IsReply (read_bulk len_bytes rest)
unfolding read_bulk
read_bulk-Reads len_bytes rest =
    Reads-bind _ IsReply (parse_i64 len_bytes) _ (Reads-any (parse_i64 len_bytes))
      λ len _. read_bulk_of-Reads rest len

module _ (size : ℕ) (read : ℕ → Bytes → Read Frames) (rest : Bytes) where
  read_array-Reads : (len_bytes : Bytes) → Reads IsReply (read_array size read len_bytes rest)
  unfolding read_array IsReply
  read_array-Reads len_bytes =
      Reads-bind _ IsReply (parse_usize len_bytes) _ (Reads-any (parse_usize len_bytes)) λ len _.
        elim (Bool-cases (ltb i64_max (len * size))) [
          | inl huge ↦ rw huge tt
          | inr fits ↦
              rw fits (Reads-bind _ IsReply (read len rest) _ (Reads-any (read len rest)) λ a h. tt)
        ]

  match_line-Reads : (line : Bytes) → Reads IsReplyMaybe (match_line size read line rest)
  unfolding match_line IsReplyMaybe IsReply parse_inline_command
  match_line-Reads [] = refl
  match_line-Reads (c ∷ tail) = elim (Bool-cases (c == b'*')) [
    | inl e ↦ rw e (some_frame-Reads (read_array size read tail rest) (read_array-Reads tail))
    | inr no_array ↦ elim (Bool-cases (c == b'$')) [
      | inl e ↦
          rw (no_array, e) (some_frame-Reads (read_bulk tail rest) (read_bulk-Reads tail rest))
      | inr no_bulk ↦ elim (Bool-cases (c == b'+')) [
        | inl e ↦
            rw (no_array, no_bulk, e)
              (Reads-bind _ IsReplyMaybe (bytes_to_string tail) _ (Reads-any (bytes_to_string tail))
                λ a _. tt)
        | inr no_simple ↦ elim (Bool-cases (c == b':')) [
          | inl e ↦
              rw (no_array, no_bulk, no_simple, e)
                (Reads-bind _ IsReplyMaybe (parse_i64 tail) _ (Reads-any (parse_i64 tail))
                  λ a _. tt)
          | inr no_integer ↦ rw (no_array, no_bulk, no_simple, no_integer) tt
        ]
      ]
    ]
  ]

read_frame-suc :
    (size fuel : ℕ) (input : Bytes)
    → read_frame size (suc fuel) input ≡ (
        if length (read_line input).0 == 0
        then ok (none, (read_line input).1)
        else match_line size
            (λ n left. read_items size fuel n left)
            (trim_crlf (read_line input).0)
            (read_line input).1)
unfolding read_frame
read_frame-suc size fuel input = refl

no_fuel-Reads : (size : ℕ) (input : Bytes) → Reads IsReplyMaybe (read_frame size zero input)
unfolding read_frame
no_fuel-Reads size input = tt

read_frame-Reads : (size fuel : ℕ) (input : Bytes) → Reads IsReplyMaybe (read_frame size fuel input)
unfolding IsReplyMaybe
read_frame-Reads size zero input = no_fuel-Reads size input
read_frame-Reads size (suc fuel) input = elim (Bool-cases (length (read_line input).0 == 0)) [
  | inl end ↦ rw (read_frame-suc size fuel input, end) tt
  | inr more ↦
      rw (read_frame-suc size fuel input, more)
        (match_line-Reads size (λ n left. read_items size fuel n left) (read_line input).1
          (trim_crlf (read_line input).0))
]

-- The only error that the decoder returns is the one of an empty line.
pub read_frame-error_text :
    (size fuel : ℕ) (input value rest : Bytes)
    → read_frame size fuel input ≡ ok (some (error value), rest)
    → value ≡ empty_request
unfolding IsReplyMaybe IsReply
read_frame-error_text size fuel input value rest h =
    subst (Reads IsReplyMaybe) h (read_frame-Reads size fuel input)
