-- ===== src/Dashboard/Format.antt =====
-- src/tui.rs: `format_ttl` and `format_bytes`.
use aerugo_cache.Text.Decimal.{show_i64, show_nat}
use aerugo_cache.Prelude.Ascii.{codes}
use aerugo_cache.Text.Float.{as_f64, show_tenths, round_div-near, round_div, as_f64_small, unit_pos}
use aerugo_cache.Prelude.Int.{ℤ, negsuc}
use aerugo_cache.Prelude.{
  zero, suc, ◌∷◌, ℕ, ◌+◌, Bytes, if◌then◌else◌, ◌==◌, leb, ◌/◌, ◌++◌, ◌^◌, inl, inr, arith,
  Bool-cases, ◌≤◌, ◌<◌, ◌%◌, ◌*◌, ◌≡◌, refl,
}

unfoldable pub format_ttl : ℤ → Bytes
format_ttl (negsuc zero) = codes "persistent"
format_ttl (negsuc (suc zero)) = codes "missing"
format_ttl seconds = show_i64 seconds ++ codes "s"

unfoldable pub unit_name : ℕ → Bytes
unit_name unit =
    if unit == 0
    then codes "B"
    else if unit == 1
    then codes "KiB"
    else if unit == 2
    then codes "MiB"
    else codes "GiB"

-- The loop: `value` is `whole / 1024 ^ unit`, and the units that are left are its fuel.
unfoldable pub unit_from : ℕ → ℕ → ℕ → ℕ
unit_from zero unit whole = unit
unit_from (suc left) unit whole =
    let rest = unit_from left (unit + 1) whole in
    if leb 1024 (whole / 1024 ^ unit) then rest else unit

unfoldable pub unit_of : ℕ → ℕ
unit_of bytes = unit_from 3 0 (as_f64 bytes)

unfoldable pub format_bytes : ℕ → Bytes
format_bytes bytes =
    let unit = unit_of bytes in
    if unit == 0
    then show_nat bytes ++ (b' ' ∷ unit_name unit)
    else show_tenths (as_f64 bytes) (1024 ^ unit) ++ (b' ' ∷ unit_name unit)

-- `unit` is the unit of `whole` bytes: the largest of the four in which they are one at least.
abbrev pub IsUnit : ℕ → ℕ → Type 0
IsUnit whole unit =
    (unit ≤ 3) × (unit < 3 → whole < 1024 ^ (unit + 1)) × (0 < unit → 1024 ^ unit ≤ whole)

unit_from-IsUnit : (whole : ℕ) → IsUnit whole (unit_from 3 0 whole)
unfolding unit_from
unit_from-IsUnit whole = elim (Bool-cases (leb 1024 (whole / 1024 ^ 0))) [
  | inr few ↦ rw few (omega arith, (λ h. ground arith), λ h. absurd (omega arith))
  | inl kib ↦ elim (Bool-cases (leb 1024 (whole / 1024 ^ 1))) [
    | inr few ↦ rw (kib, few) (omega arith, (λ h. ground arith), λ h. ground arith)
    | inl mib ↦ elim (Bool-cases (leb 1024 (whole / 1024 ^ 2))) [
      | inr few ↦ rw (kib, mib, few) (omega arith, (λ h. ground arith), λ h. ground arith)
      | inl gib ↦ rw (kib, mib, gib) (omega arith, (λ h. absurd (omega arith)), λ h. ground arith)
    ]
  ]
]

-- The units that a size is shown in.
abbrev pub unit_text : ℕ → Bytes
unit_text zero = codes "B"
unit_text (suc zero) = codes "KiB"
unit_text (suc (suc zero)) = codes "MiB"
unit_text (suc (suc (suc unit))) = codes "GiB"

unit_name-text : (unit : ℕ) → unit_name unit ≡ unit_text unit
unfolding unit_name
unit_name-text zero = refl
unit_name-text (suc zero) = refl
unit_name-text (suc (suc zero)) = refl
unit_name-text (suc (suc (suc unit))) = ground arith

-- A size as it is shown: with its unit, and with the number of tenths of it unless these are bytes.
abbrev pub shown_size : ℕ → ℕ → ℕ → Bytes
shown_size bytes unit tenths =
    if unit == 0
    then show_nat bytes ++ (b' ' ∷ unit_text unit)
    else (show_nat (tenths / 10) ++ (b'.' ∷ show_nat (tenths % 10))) ++ (b' ' ∷ unit_text unit)

-- A size below 2 ^ 53 bytes is shown in bytes, or in the largest of KiB, MiB and GiB in which it
-- is one at least, with one digit behind the point and at most half a tenth away.
pub format_bytes-near :
    (bytes : ℕ)
    → bytes < 2 ^ 53
    → (unit : ℕ) × (tenths : ℕ) × IsUnit bytes unit
      × (2 * (tenths * 1024 ^ unit) ≤ 2 * (10 * bytes) + 1024 ^ unit)
      × (2 * (10 * bytes) ≤ 2 * (tenths * 1024 ^ unit) + 1024 ^ unit)
      × (format_bytes bytes ≡ shown_size bytes unit tenths)
unfolding format_bytes unit_of show_tenths
format_bytes-near bytes h =
    let unit = unit_from 3 0 bytes in
    let near = round_div-near (10 * bytes) (1024 ^ unit) (unit_pos unit) in
    (
      unit,
      round_div (10 * bytes) (1024 ^ unit),
      unit_from-IsUnit bytes,
      near.0,
      near.1,
      rw (as_f64_small bytes h, unit_name-text unit) refl,
    )
