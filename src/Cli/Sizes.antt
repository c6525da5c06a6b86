-- ===== src/Cli/Sizes.antt =====
-- src/main.rs, `parse_byte_size`: which sizes the command line takes.
use aerugo_cache.Text.Float.{unit_pos}
use aerugo_cache.Text.Decimal
use native.Mathlib.Nat.{mul-le-mul_left}
use aerugo_cache.Prelude.Ascii.{codes, to_ascii_lowercase}
use aerugo_cache.Text.Decimal.{
  IsDigit, is_digit, show_nat, at_most, u64_max, show_nat-IsDigit, show_nat-ne-nil,
  parse_unsigned-print,
}
use aerugo_cache.Text.Trim.{IsSolid, trim, trim-solid}
use aerugo_cache.Cli.{
  split_digits, multiplier, size_of, parse_byte_size, checked_mul, or_too_large, too_large,
}
use aerugo_cache.Prelude.{
  some, zero, suc, [], ◌∷◌, arith, true, refl, inl, inr, ok, err, ℕ, Bytes, List, All, ◌≤◌,
  bytes_eq, ◌≡◌, ◌^◌, ◌++◌, ◌⊎◌, All-imp, All-append, ◌>>=◌, ◌*◌, Result, if◌then◌else◌, ◌≢◌, leb,
}

abbrev pub IsLetter : ℕ → Type 0
IsLetter c = (b'A' ≤ c) × (c ≤ b'z')

split_digits-letters : (unit : Bytes) → All IsLetter unit → split_digits unit ≡ ([], unit)
unfolding split_digits
split_digits-letters [] h = refl
split_digits-letters (c ∷ unit) h = ground arith

split_digits-append :
    (digits unit : Bytes)
    → All IsDigit digits
    → All IsLetter unit
    → split_digits (digits ++ unit) ≡ (digits, unit)
unfolding split_digits
split_digits-append [] unit d h = split_digits-letters unit h
split_digits-append (c ∷ digits) unit d h =
    let is_one : is_digit c ≡ true = ground arith in
    rw (split_digits-append digits unit d.1 h, is_one)

IsSolid-digits : (s : Bytes) → All IsDigit s → All IsSolid s
IsSolid-digits s h = All-imp IsDigit IsSolid s (λ c d. (omega arith, omega arith)) h

IsSolid-letters : (s : Bytes) → All IsLetter s → All IsSolid s
IsSolid-letters s h = All-imp IsLetter IsSolid s (λ c d. (omega arith, omega arith)) h

trim-size :
    (digits unit : Bytes)
    → All IsDigit digits
    → All IsLetter unit
    → trim (digits ++ unit) ≡ digits ++ unit
trim-size digits unit d h =
    trim-solid (digits ++ unit)
      (All-append IsSolid digits unit (IsSolid-digits digits d) (IsSolid-letters unit h))

-- The units in lower case: bytes, and the powers of 1024.
abbrev pub spellings : ℕ → List Bytes
spellings zero = [] ∷ codes "b" ∷ []
spellings (suc zero) = codes "k" ∷ codes "kb" ∷ codes "kib" ∷ []
spellings (suc (suc zero)) = codes "m" ∷ codes "mb" ∷ codes "mib" ∷ []
spellings (suc (suc (suc zero))) = codes "g" ∷ codes "gb" ∷ codes "gib" ∷ []
spellings _ = []

abbrev pub IsOneOf : Bytes → List Bytes → Type 0
IsOneOf s [] = ⊥
IsOneOf s (x ∷ xs) = (s ≡ x) ⊎ IsOneOf s xs

multiplier-spelling :
    (unit : Bytes) (k : ℕ) → IsOneOf unit (spellings k) → multiplier unit ≡ ok (1024 ^ k)
unfolding multiplier bytes_eq
multiplier-spelling unit zero (inl e) = rw e
multiplier-spelling unit zero (inr (inl e)) = rw e
multiplier-spelling unit (suc zero) (inl e) = rw e
multiplier-spelling unit (suc zero) (inr (inl e)) = rw e
multiplier-spelling unit (suc zero) (inr (inr (inl e))) = rw e
multiplier-spelling unit (suc (suc zero)) (inl e) = rw e
multiplier-spelling unit (suc (suc zero)) (inr (inl e)) = rw e
multiplier-spelling unit (suc (suc zero)) (inr (inr (inl e))) = rw e
multiplier-spelling unit (suc (suc (suc zero))) (inl e) = rw e
multiplier-spelling unit (suc (suc (suc zero))) (inr (inl e)) = rw e
multiplier-spelling unit (suc (suc (suc zero))) (inr (inr (inl e))) = rw e
multiplier-spelling unit zero (inr (inr none_left)) = absurd none_left
multiplier-spelling unit (suc zero) (inr (inr (inr none_left))) = absurd none_left
multiplier-spelling unit (suc (suc zero)) (inr (inr (inr none_left))) = absurd none_left
multiplier-spelling unit (suc (suc (suc zero))) (inr (inr (inr none_left))) = absurd none_left
multiplier-spelling unit (suc (suc (suc (suc k)))) none_left = absurd none_left

-- The exact size, if it is a `usize`.
abbrev pub exact_size : ℕ → Result Bytes ℕ
exact_size n = if leb n u64_max then ok n else err too_large

size_of-digits :
    (digits unit : Bytes)
    → digits ≢ []
    → size_of digits unit ≡ (do
      number ← or_too_large (Decimal.parse_usize digits)
      factor ← multiplier (to_ascii_lowercase (trim unit))
      or_too_large (checked_mul number factor))
unfolding size_of
size_of-digits [] unit h = absurd (h refl)
size_of-digits (c ∷ cs) unit h = refl

exact-product :
    (n k : ℕ)
    → (do
      number ← or_too_large (at_most u64_max (some n))
      or_too_large (checked_mul number (1024 ^ k)))
      ≡ exact_size (n * 1024 ^ k)
unfolding checked_mul
exact-product n k =
    let grows : n * 1 ≤ n * 1024 ^ k = mul-le-mul_left n (unit_pos k) in ground arith

-- A size is a number and a unit in either case of letters: it is the number of bytes, exactly, or
-- refused as too large where that is no `usize`.
pub parse_byte_size-show_nat :
    (n k : ℕ) (unit : Bytes)
    → All IsLetter unit
    → IsOneOf (to_ascii_lowercase unit) (spellings k)
    → parse_byte_size (show_nat n ++ unit) ≡ exact_size (n * 1024 ^ k)
unfolding parse_byte_size Decimal.parse_usize
parse_byte_size-show_nat n k unit letters spelled =
    rw
      (
        trim-size (show_nat n) unit (show_nat-IsDigit n) letters,
        split_digits-append (show_nat n) unit (show_nat-IsDigit n) letters,
        size_of-digits (show_nat n) unit (show_nat-ne-nil n),
        parse_unsigned-print u64_max n,
        trim-solid unit (IsSolid-letters unit letters),
        multiplier-spelling (to_ascii_lowercase unit) k spelled,
      )
      (exact-product n k)
