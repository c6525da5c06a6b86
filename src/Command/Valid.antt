-- ===== src/Command/Valid.antt =====
-- src/command.rs: what a parsed command satisfies.
pub mod Numbers
pub mod Dispatch
use Prim.Native.String.{String}
use mathlib.Core.Path.{subst}
use aerugo_cache.Protocol.Frame.{array, bulk, Frame, Frames, nil, cons}
use aerugo_cache.Prelude.Words.{i64_max}
use aerugo_cache.Prelude.Ascii.{to_ascii_uppercase, codes}
use aerugo_cache.Prelude.Int.{ℤ, pos, negsuc}
use aerugo_cache.Text.Utf8.{from_utf8, is_utf8}
use aerugo_cache.Text.Decimal.{parse_unsigned, at_most, u64_max, InI64, as_pos, as_neg}
use aerugo_cache.Text.Decimal
use aerugo_cache.Command.Parse.{
  bytes_to_string, parse_u64, parse_i64, parse_usize, into_keys, keyed, inspect_args, some_args,
  parse_push_command, dispatch, or_error, Parsed, no_args, from_args, ping_args, three_args,
  one_arg, two_args, into_bulk_args, from_frame,
}
use aerugo_cache.Command.Types.{
  ping, echo, set, get, del, exists, expire, expire_at, ttl, persist, lpush, rpush, lpop, rpop,
  lrange, db_size, info, aerugo_stats, aerugo_inspect, Command, CommandError,
}
use aerugo_cache.Prelude.{
  refl, zero, suc, [], ◌∷◌, none, some, inl, inr, true, false, arith, ok, err, ◌>>=◌, List, Bool,
  Bytes, ℕ, Result, ◌≢◌, Bool-cases, All, ◌≡◌, Option, ◌≤◌, if◌then◌else◌, ◌==◌, ◌^◌, bytes_eq,
}

abbrev pub IsText : Bytes → Type 0
IsText s = is_utf8 s ≡ true

-- Keys are text, counts are in the range of their type, and the variadic commands have an argument.
abbrev pub IsCommand : Command → Type 0
IsCommand (ping message) = Unit
IsCommand (echo message) = Unit
IsCommand (set key value) = IsText key
IsCommand (get key) = IsText key
IsCommand (del ks) = (ks ≢ []) × All IsText ks
IsCommand (exists ks) = (ks ≢ []) × All IsText ks
IsCommand (expire key secs) = IsText key × (secs ≤ u64_max)
IsCommand (expire_at key unix_seconds) = IsText key × (unix_seconds ≤ u64_max)
IsCommand (ttl key) = IsText key
IsCommand (persist key) = IsText key
IsCommand (lpush key values) = IsText key × (values ≢ [])
IsCommand (rpush key values) = IsText key × (values ≢ [])
IsCommand (lpop key) = IsText key
IsCommand (rpop key) = IsText key
IsCommand (lrange key start stop) = IsText key × InI64 start × InI64 stop
IsCommand db_size = Unit
IsCommand info = Unit
IsCommand aerugo_stats = Unit
IsCommand (aerugo_inspect limit) = limit ≤ u64_max

-- What a parse returns, if it returns a value, satisfies `P`.
abbrev pub Parses : {A : Type 0} → (A → Type 0) → Result CommandError A → Type 0
Parses P (ok a) = P a
Parses P (err e) = Unit

pub Parses-bind :
    {A B : Type 0} (P : A → Type 0) (Q : B → Type 0) (r : Result CommandError A)
    (f : A → Result CommandError B)
    → Parses P r
    → ((a : A) → P a → Parses Q (f a))
    → Parses Q (r >>= f)
Parses-bind P Q (ok a) f h k = k a h
Parses-bind P Q (err e) f h k = tt

pub Parses-if :
    {A : Type 0} (P : A → Type 0) (b : Bool) (x y : Result CommandError A)
    → Parses P x
    → Parses P y
    → Parses P (if b then x else y)
Parses-if P true x y hx hy = hx
Parses-if P false x y hx hy = hy
