-- ===== src/Text/Float.antt =====
-- `f64` as far as sizes need it: `as f64` of a `usize`, and the print of a value that is a number over a
-- power of two, with one digit behind the point. Both round to the nearest, ties to the even one.
use native.Mathlib.Nat.{div-add-mod', mod-lt, add-mul, pow-le-pow_right}
use aerugo_cache.Text.Decimal.{show_nat}
use aerugo_cache.Prelude.{
  zero, suc, ◌∷◌, ◌/◌, ℕ, Bytes, ◌%◌, ◌<◌, ◌+◌, ◌^◌, if◌then◌else◌, ◌≡◌, ◌*◌, ltb, ◌≤◌, ◌++◌, inl,
  inr, arith, Bool-cases, true, ◌==◌,
}

unfoldable pub round_div : ℕ → ℕ → ℕ
round_div a d =
    let q = a / d in
    let r = a % d in if ltb (2 * r) d then q else if ltb d (2 * r) then q + 1 else q + q % 2

-- The number of bits that do not fit into the 53 of the mantissa, no more than the fuel.
unfoldable pub excess : ℕ → ℕ → ℕ → ℕ
excess zero e n = e
excess (suc more) e n = let rest = excess more (e + 1) n in if ltb n (2 ^ (53 + e)) then e else rest

-- A size below 2 ^ 64 as an `f64`, which is a whole number.
unfoldable pub as_f64 : ℕ → ℕ
as_f64 n = let unit = 2 ^ excess 11 0 n in round_div n unit * unit

-- The unit of a value that is no whole number: every quotient of two sizes above zero, and its
-- hundredfold, has its 53 bits above it.
abbrev pub tiny : ℕ
tiny = 2 ^ 117

-- The `f64` next to `n / d`, as a number of tiny units.
unfoldable pub f64_ratio : ℕ → ℕ → ℕ
f64_ratio n d = let unit = 2 ^ excess 140 0 (n * tiny / d) in round_div (n * tiny) (d * unit) * unit

-- `f64::round` of a number of tiny units: a half goes away from zero.
unfoldable pub f64_round : ℕ → ℕ
f64_round v = (2 * v + tiny) / (2 * tiny)

-- `{:.1}` of the number `n / d`.
unfoldable pub show_tenths : ℕ → ℕ → Bytes
show_tenths n d =
    let tenths = round_div (10 * n) d in show_nat (tenths / 10) ++ (b'.' ∷ show_nat (tenths % 10))

suc_mul : (q d : ℕ) → (q + 1) * d ≡ q * d + d
suc_mul q d = omega (arith, add-mul q 1 d)

-- The rounded quotient is at most half a unit away.
pub round_div-near :
    (a d : ℕ)
    → 0 < d
    → (2 * (round_div a d * d) ≤ 2 * a + d) × (2 * a ≤ 2 * (round_div a d * d) + d)
unfolding round_div
round_div-near a d h =
    let whole = div-add-mod' a d in
    let rest = mod-lt a h in
    let up = suc_mul (a / d) d in
    elim (Bool-cases (ltb (2 * (a % d)) d)) [
      | inl below ↦ rw below (ground arith)
      | inr not_below ↦ elim (Bool-cases (ltb d (2 * (a % d)))) [
        | inl above ↦ rw (not_below, above) (ground arith)
        | inr tie ↦
            rw (not_below, tie)
              (elim (Bool-cases (a / d % 2 == 0)) [
                | inl even ↦ let none_up : a / d % 2 ≡ 0 = ground arith in rw none_up (ground arith)
                | inr odd ↦ let one_up : a / d % 2 ≡ 1 = ground arith in rw one_up (ground arith)
              ])
      ]
    ]

pub as_f64_small : (n : ℕ) → n < 2 ^ 53 → as_f64 n ≡ n
unfolding as_f64 excess round_div
as_f64_small n h = let fits : ltb n (2 ^ 53) ≡ true = ground arith in rw fits (ground arith)

-- A unit of bytes is one byte at least.
pub unit_pos : (unit : ℕ) → 0 < 1024 ^ unit
unit_pos unit =
    let base : 0 < 1024 = omega arith in
    let least : 0 ≤ unit = omega arith in
    let grows : 1024 ^ 0 ≤ 1024 ^ unit = pow-le-pow_right base least in omega arith
