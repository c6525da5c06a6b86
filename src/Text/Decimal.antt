-- ===== src/Text/Decimal.antt =====
-- Decimal numbers: `to_string` and `format!`, and `str::parse` of `u64`, `usize` and `i64`.
use aerugo_cache.Prelude.Words.{i64_max}
use aerugo_cache.Prelude.Int.{ℤ, pos, negsuc}
use aerugo_cache.Prelude.{
  refl, zero, suc, [], ◌∷◌, none, some, inl, inr, arith, Bytes, ℕ, Option, List, ◌*◌, Bool, All,
  if◌then◌else◌, ◌≢◌, ◌/◌, ◌≡◌, ◌<◌, ◌≤◌, ◌^◌, ltb, ◌+◌, leb, ◌==◌, ◌++◌, ap, Bool-cases, ◌-◌, ◌&&◌,
  ◌%◌, length, ◌∙◌, length-append,
}

-- The fuel bounds the number of digits: a number has at most as many digits as its value and one.
unfoldable pub digits_fuel : ℕ → ℕ → Bytes
digits_fuel zero n = []
digits_fuel (suc f) n =
    let front = digits_fuel f (n / 10) in
    if ltb n 10 then (b'0' + n) ∷ [] else front ++ (b'0' + n % 10) ∷ []

unfoldable pub show_nat : ℕ → Bytes
unfolding digits_fuel
show_nat n = digits_fuel (suc n) n

unfoldable pub show_i64 : ℤ → Bytes
unfolding show_nat
show_i64 (pos n) = show_nat n
show_i64 (negsuc n) = b'-' ∷ show_nat (n + 1)

abbrev pub is_digit : ℕ → Bool
is_digit c = leb b'0' c && leb c b'9'

unfoldable pub digits_value : ℕ → Bytes → Option ℕ
digits_value acc [] = some acc
digits_value acc (c ∷ cs) =
    let rest = digits_value (acc * 10 + (c - b'0')) cs in if is_digit c then rest else none

-- One digit at least.
unfoldable pub parse_digits : Bytes → Option ℕ
unfolding digits_value
parse_digits [] = none
parse_digits (c ∷ cs) = digits_value 0 (c ∷ cs)

abbrev pub at_most : ℕ → Option ℕ → Option ℕ
at_most max none = none
at_most max (some n) = if leb n max then some n else none

-- A leading `+` is accepted. The bound is the type's largest value.
unfoldable pub parse_unsigned : ℕ → Bytes → Option ℕ
unfolding parse_digits digits_value
parse_unsigned max [] = none
parse_unsigned max (c ∷ cs) =
    at_most max (if c == b'+' then parse_digits cs else parse_digits (c ∷ cs))

abbrev pub u64_max : ℕ
u64_max = 2 ^ 64 - 1

unfoldable pub parse_u64 : Bytes → Option ℕ
unfolding parse_unsigned
parse_u64 = parse_unsigned u64_max

unfoldable pub parse_usize : Bytes → Option ℕ
unfolding parse_unsigned
parse_usize = parse_unsigned u64_max

abbrev pub negated : ℕ → ℤ
negated zero = pos 0
negated (suc n) = negsuc n

abbrev pub as_pos : Option ℕ → Option ℤ
as_pos none = none
as_pos (some n) = some (pos n)

abbrev pub as_neg : Option ℕ → Option ℤ
as_neg none = none
as_neg (some n) = some (negated n)

unfoldable pub parse_i64 : Bytes → Option ℤ
unfolding parse_unsigned
parse_i64 [] = none
parse_i64 (c ∷ cs) =
    if c == b'-'
    then as_neg (at_most (2 ^ 63) (parse_digits cs))
    else as_pos (parse_unsigned i64_max (c ∷ cs))

digits_value-append :
    (acc : ℕ) (xs : Bytes) (d n : ℕ)
    → digits_value acc xs ≡ some n
    → d < 10
    → digits_value acc (xs ++ (b'0' + d) ∷ []) ≡ some (n * 10 + d)
unfolding digits_value
digits_value-append acc [] d n h less = ground arith
digits_value-append acc (c ∷ cs) d n h less =
    ground (arith, digits_value-append (acc * 10 + (c - b'0')) cs d n)

digits_value-digits : (f n : ℕ) → n < f → digits_value 0 (digits_fuel f n) ≡ some n
unfolding digits_fuel digits_value
digits_value-digits zero n h = absurd (omega arith)
digits_value-digits (suc f) n h = elim (Bool-cases (ltb n 10)) [
  | inl short ↦ rw short (ground arith)
  | inr long ↦
      let front = digits_value-digits f (n / 10) (ground arith) in
      rw long (
        digits_value-append 0 (digits_fuel f (n / 10)) (n % 10) (n / 10) front (omega arith)
        ∙ ap some (omega arith))
]

abbrev pub IsDigit : ℕ → Type 0
IsDigit c = (b'0' ≤ c) × (c ≤ b'9')

All-append_one {ℓ} :
    {A : Type 0} (P : A → Type ℓ) (xs : List A) (x : A) → All P xs → P x → All P (xs ++ x ∷ [])
All-append_one P [] x h p = (p, tt)
All-append_one P (y ∷ xs) x h p = (h.0, All-append_one P xs x h.1 p)

digits-IsDigit : (f n : ℕ) → All IsDigit (digits_fuel f n)
unfolding digits_fuel
digits-IsDigit zero n = tt
digits-IsDigit (suc f) n = elim (Bool-cases (ltb n 10)) [
  | inl short ↦ rw short (ground arith)
  | inr long ↦ rw long (
      All-append_one IsDigit (digits_fuel f (n / 10)) (b'0' + n % 10) (digits-IsDigit f (n / 10))
        (omega arith, omega arith))
]

pub show_nat-IsDigit : (n : ℕ) → All IsDigit (show_nat n)
unfolding show_nat
show_nat-IsDigit n = digits-IsDigit (suc n) n

parse_unsigned-digits :
    (max : ℕ) (s : Bytes) (n : ℕ)
    → digits_value 0 s ≡ some n
    → All IsDigit s
    → s ≢ []
    → parse_unsigned max s ≡ at_most max (some n)
unfolding parse_unsigned
parse_unsigned-digits max [] n h d nonempty = absurd (nonempty refl)
parse_unsigned-digits max (c ∷ cs) n h d nonempty = ground arith

pub show_nat-ne-nil : (n : ℕ) → show_nat n ≢ []
unfolding show_nat digits_fuel
show_nat-ne-nil n h =
    ground (arith, ap length h, length-append (digits_fuel n (n / 10)) ((b'0' + n % 10) ∷ []))

-- The decimal print of a number is read back if it fits the type, and refused if not.
pub parse_unsigned-print : (max n : ℕ) → parse_unsigned max (show_nat n) ≡ at_most max (some n)
unfolding show_nat
parse_unsigned-print max n =
    parse_unsigned-digits max (show_nat n) n (digits_value-digits (suc n) n (omega arith))
      (show_nat-IsDigit n) (show_nat-ne-nil n)

-- A number that fits the type is read back from its decimal print.
pub parse_unsigned-show_nat : (max n : ℕ) → n ≤ max → parse_unsigned max (show_nat n) ≡ some n
parse_unsigned-show_nat max n fits = rw (parse_unsigned-print max n) (ground arith)

-- The range of `i64`.
abbrev pub InI64 : ℤ → Type 0
InI64 (pos n) = n ≤ i64_max
InI64 (negsuc n) = n ≤ i64_max

parse_digits-show_nat : (n : ℕ) → parse_digits (show_nat n) ≡ some n
unfolding show_nat parse_digits
parse_digits-show_nat n =
    non_empty (show_nat n) (show_nat-ne-nil n) ∙ digits_value-digits (suc n) n (omega arith)
  where
    non_empty : (s : Bytes) → s ≢ [] → parse_digits s ≡ digits_value 0 s
    non_empty [] h = absurd (h refl)
    non_empty (c ∷ cs) h = refl

parse_i64-nonneg :
    (s : Bytes) (n : ℕ)
    → All IsDigit s
    → parse_unsigned i64_max s ≡ some n
    → parse_i64 s ≡ some (pos n)
unfolding parse_i64
parse_i64-nonneg [] n d h = unfold parse_unsigned in cc
parse_i64-nonneg (c ∷ cs) n d h = ground arith

-- An `i64` is read back from its decimal print.
pub parse_i64-show_i64 : (z : ℤ) → InI64 z → parse_i64 (show_i64 z) ≡ some z
unfolding show_i64
parse_i64-show_i64 (pos n) fits =
    parse_i64-nonneg (show_nat n) n (show_nat-IsDigit n) (parse_unsigned-show_nat i64_max n fits)
parse_i64-show_i64 (negsuc n) fits =
    unfold parse_i64 in rw (parse_digits-show_nat (n + 1)) (ground arith)
