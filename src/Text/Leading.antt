-- ===== src/Text/Leading.antt =====
-- Decimal numbers: what the first digit says of a number.
use aerugo_cache.Prelude.Words.{i64_max}
use aerugo_cache.Text.Decimal.{
  digits_value, digits_fuel, show_nat, parse_unsigned, parse_digits, IsDigit, as_pos,
}
use aerugo_cache.Prelude.Int.{pos, ℤ}
use aerugo_cache.Prelude.{
  refl, zero, suc, [], ◌∷◌, none, some, inl, inr, arith, ℕ, ◌≤◌, Bytes, ◌<◌, ◌≡◌, ◌-◌, Bool-cases,
  ◌*◌, ◌+◌, ltb, Option, ◌/◌, ◌==◌, ◌++◌, false, ◌%◌,
}
use aerugo_cache.Text.Decimal

-- A digit that is not zero.
abbrev pub IsLeading : ℕ → Type 0
IsLeading c = (b'1' ≤ c) × (c ≤ b'9')

digits_fuel-IsLeading :
    (f n : ℕ) → n < f → 0 < n → (d : ℕ) × (ds : Bytes) × (digits_fuel f n ≡ d ∷ ds) × IsLeading d
unfolding digits_fuel
digits_fuel-IsLeading zero n h some_digit = absurd (omega arith)
digits_fuel-IsLeading (suc f) n h some_digit = elim (Bool-cases (ltb n 10)) [
  | inl short ↦ rw short (b'0' + n, [], refl, (ground arith, ground arith))
  | inr long ↦
      let (d, ds, e, leading) = digits_fuel-IsLeading f (n / 10) (ground arith) (ground arith) in
      rw (long, e) (d, ds ++ (b'0' + n % 10) ∷ [], refl, leading)
]

-- The print of a number above zero does not start with a zero.
pub show_nat-IsLeading :
    (n : ℕ) → 0 < n → (d : ℕ) × (ds : Bytes) × (show_nat n ≡ d ∷ ds) × IsLeading d
unfolding show_nat
show_nat-IsLeading n some_digit = digits_fuel-IsLeading (suc n) n (omega arith) some_digit

digits_value-pos : (acc : ℕ) (s : Bytes) (n : ℕ) → 0 < acc → digits_value acc s ≡ some n → 0 < n
unfolding digits_value
digits_value-pos acc [] n h e = ground arith
digits_value-pos acc (c ∷ s) n h e = ground (arith, digits_value-pos (acc * 10 + (c - b'0')) s n)

pub parse_unsigned-pos :
    (max d : ℕ) (s : Bytes) (n : ℕ) → IsLeading d → parse_unsigned max (d ∷ s) ≡ some n → 0 < n
unfolding parse_unsigned parse_digits digits_value
parse_unsigned-pos max d s n h e = ground (arith, digits_value-pos (d - b'0') s n)

pub parse_i64-pos :
    (d : ℕ) (s : Bytes) (z : ℤ)
    → IsDigit d
    → Decimal.parse_i64 (d ∷ s) ≡ some z
    → (n : ℕ) × (z ≡ pos n)
unfolding Decimal.parse_i64
parse_i64-pos d s z h e =
    let no_sign : (d == b'-') ≡ false = ground arith in
    go (parse_unsigned i64_max (d ∷ s)) (rw no_sign at e)
  where
    go : (o : Option ℕ) → as_pos o ≡ some z → (n : ℕ) × (z ≡ pos n)
    go none e = absurd cc
    go (some n) e = (n, cc)
