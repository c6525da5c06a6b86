-- ===== src/Prelude/Words.antt =====
-- Machine words: `usize` and `u64` have 64 bits, and sums wrap around as in a release build.
use Prim.Native.Nat.{ℕ, ◌+◌, ◌-◌, ◌%◌, ◌^◌, ◌≤◌, ◌<◌}
use mathlib.Core.Path.{◌≡◌}
use mathlib.Core.List.{List, [], ◌∷◌}
use native.Mathlib.Omega.{arith}
use aerugo_cache.Prelude.Tests.{ltb, if◌then◌else◌}
use aerugo_cache.Prelude.Int.{ℤ, pos, negsuc}

abbrev pub i64_max : ℕ
i64_max = 2 ^ 63 - 1

unfoldable pub wrapping_add : ℕ → ℕ → ℕ
wrapping_add a b = (a + b) % 2 ^ 64

-- `Iterator::sum` over `usize`.
unfoldable pub sum_from : ℕ → List ℕ → ℕ
sum_from acc [] = acc
sum_from acc (x ∷ xs) = sum_from (wrapping_add acc x) xs

-- The sum without the wrap-around.
unfoldable pub exact_sum : List ℕ → ℕ
exact_sum [] = 0
exact_sum (x ∷ xs) = x + exact_sum xs

-- `as i64` of a `usize` or a `u64`.
unfoldable pub as_i64 : ℕ → ℤ
as_i64 n = let m = n % 2 ^ 64 in if ltb m (2 ^ 63) then pos m else negsuc (2 ^ 64 - 1 - m)

-- `as usize` of an `i64`.
unfoldable pub as_usize : ℤ → ℕ
as_usize (pos n) = n % 2 ^ 64
as_usize (negsuc n) = 2 ^ 64 - 1 - n % 2 ^ 64

pub as_i64_small : (n : ℕ) → n ≤ i64_max → as_i64 n ≡ pos n
unfolding as_i64
as_i64_small n h = ground arith

pub as_usize_small : (n : ℕ) → n ≤ i64_max → as_usize (pos n) ≡ n
unfolding as_usize
as_usize_small n h = omega arith

pub wrapping_add_small : (a b : ℕ) → a + b < 2 ^ 64 → wrapping_add a b ≡ a + b
unfolding wrapping_add
wrapping_add_small a b h = omega arith

pub sum_from_mod :
    (acc : ℕ) (xs : List ℕ) → sum_from acc xs % 2 ^ 64 ≡ (acc + exact_sum xs) % 2 ^ 64
unfolding sum_from exact_sum wrapping_add
sum_from_mod acc [] = omega arith
sum_from_mod acc (x ∷ xs) = omega (arith, sum_from_mod ((acc + x) % 2 ^ 64) xs)

pub sum_from_lt : (acc : ℕ) (xs : List ℕ) → acc < 2 ^ 64 → sum_from acc xs < 2 ^ 64
unfolding sum_from wrapping_add
sum_from_lt acc [] h = h
sum_from_lt acc (x ∷ xs) h = sum_from_lt ((acc + x) % 2 ^ 64) xs (omega arith)

-- The wrapping sum is the exact one where that fits.
pub sum_from-exact_sum : (xs : List ℕ) → sum_from 0 xs ≡ exact_sum xs % 2 ^ 64
sum_from-exact_sum xs = omega (arith, sum_from_mod 0 xs, sum_from_lt 0 xs)
