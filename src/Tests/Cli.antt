-- ===== src/Tests/Cli.antt =====
-- src/main.rs: sizes on the command line.
use aerugo_cache.Text.Trim.{trim}
use aerugo_cache.Cli.Sizes.{IsLetter, IsOneOf, spellings, exact_size, parse_byte_size-show_nat}
use aerugo_cache.Text.Decimal.{show_nat}
use aerugo_cache.Prelude.Ascii.{to_ascii_lowercase, to_lower, codes}
use aerugo_cache.Storage.Config.{no_eviction}
use aerugo_cache.Cli.{
  dashboard, started, Cli, tui_config, parse_byte_size, split_digits, size_of, multiplier,
  checked_mul, too_large,
}
use aerugo_cache.Text.Decimal
use aerugo_cache.Prelude.{
  none, some, inl, inr, refl, ok, err, arith, All, ℕ, ◌≡◌, ◌++◌, ◌*◌, ◌^◌, bytes_eq,
}

megabytes_IsLetter : All IsLetter (codes "MB")
megabytes_IsLetter = ((omega arith, omega arith), ((omega arith, omega arith), tt))

megabytes_spelled : IsOneOf (to_ascii_lowercase (codes "MB")) (spellings 2)
unfolding to_ascii_lowercase to_lower
megabytes_spelled = inr (inl refl)

parse_byte_size-show_nat_example :
    parse_byte_size (show_nat 512 ++ codes "MB") ≡ exact_size (512 * 1024 ^ 2)
parse_byte_size-show_nat_example =
    parse_byte_size-show_nat 512 2 (codes "MB") megabytes_IsLetter megabytes_spelled

-- White space around the number and around the unit.
spaced : parse_byte_size (codes " 64 kb ") ≡ ok 65536
unfolding parse_byte_size split_digits trim size_of multiplier checked_mul to_ascii_lowercase
    to_lower bytes_eq Decimal.parse_usize Decimal.parse_unsigned
spaced = refl

wrapped : parse_byte_size (codes "18446744073709551615k") ≡ err too_large
unfolding parse_byte_size split_digits trim size_of multiplier checked_mul to_ascii_lowercase
    to_lower bytes_eq Decimal.parse_usize Decimal.parse_unsigned
wrapped = refl

abbrev local : Cli ℕ ℕ
local = record {
  command = some (record { refresh_ms = 10; limit = 5 });
  addr = 7;
  append_only = none;
  max_memory = none;
  eviction_policy = no_eviction;
}

-- The dashboard is not refreshed more often than four times a second.
refresh_bound :
    started local ≡ dashboard (record { addr = 7; refresh_interval = 250_000_000; key_limit = 5 })
unfolding started tui_config
refresh_bound = refl
