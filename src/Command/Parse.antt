-- ===== src/Command/Parse.antt =====
-- src/command.rs: `Command::from_frame` and its helpers.
use aerugo_cache.Text.Utf8.{from_utf8}
use aerugo_cache.Prelude.Int.{ℤ}
use aerugo_cache.Prelude.Ascii.{codes, to_ascii_uppercase}
use aerugo_cache.Protocol.Frame.{array, bulk, Frame, Frames, nil, cons}
use aerugo_cache.Command.Types.{
  ping, echo, set, get, del, exists, expire, expire_at, ttl, persist, lpush, rpush, lpop, rpop,
  lrange, db_size, info, aerugo_stats, aerugo_inspect, empty, expected_array, expected_bulk,
  invalid_utf8, invalid_integer, wrong_arity, unknown, CommandError, Command,
}
use aerugo_cache.Text.Decimal
use aerugo_cache.Prelude.{
  [], ◌∷◌, none, some, ok, err, Result, ℕ, Bytes, List, if◌then◌else◌, Option, bytes_eq, ◌>>=◌,
}

abbrev pub Parsed : Type 0 → Type 0
Parsed A = Result CommandError A

abbrev pub default_inspect_limit : ℕ
default_inspect_limit = 128

abbrev pub or_error : {A : Type 0} → CommandError → Option A → Parsed A
or_error e none = err e
or_error e (some a) = ok a

unfoldable pub into_bulk_args : Frames → Parsed (List Bytes)
into_bulk_args nil = ok []
into_bulk_args (cons (bulk value) xs) = do args ← into_bulk_args xs; ok (value ∷ args)
into_bulk_args (cons x xs) = err expected_bulk

unfoldable pub bytes_to_string : Bytes → Parsed Bytes
bytes_to_string bytes = or_error invalid_utf8 (from_utf8 bytes)

unfoldable pub into_keys : List Bytes → Parsed (List Bytes)
into_keys [] = ok []
into_keys (arg ∷ args) = do key ← bytes_to_string arg; ks ← into_keys args; ok (key ∷ ks)

unfoldable pub parse_u64 : Bytes → Parsed ℕ
parse_u64 bytes = do text ← bytes_to_string bytes; or_error invalid_integer (Decimal.parse_u64 text)

unfoldable pub parse_i64 : Bytes → Parsed ℤ
parse_i64 bytes = do text ← bytes_to_string bytes; or_error invalid_integer (Decimal.parse_i64 text)

unfoldable pub parse_usize : Bytes → Parsed ℕ
parse_usize bytes = do
  text ← bytes_to_string bytes
  or_error invalid_integer (Decimal.parse_usize text)

unfoldable pub parse_push_command :
    Bytes → List Bytes → (Bytes → List Bytes → Command) → Parsed Command
parse_push_command name [] build = err (wrong_arity name)
parse_push_command name (arg ∷ []) build = err (wrong_arity name)
parse_push_command name (arg ∷ value ∷ values) build = do
  key ← bytes_to_string arg
  ok (build key (value ∷ values))

-- The `match args.len()` of the commands with a fixed number of arguments.
unfoldable pub no_args : Bytes → Command → List Bytes → Parsed Command
no_args name command [] = ok command
no_args name command (a ∷ args) = err (wrong_arity name)

unfoldable pub one_arg : Bytes → (Bytes → Parsed Command) → List Bytes → Parsed Command
one_arg name build (a ∷ []) = build a
one_arg name build args = err (wrong_arity name)

unfoldable pub two_args : Bytes → (Bytes → Bytes → Parsed Command) → List Bytes → Parsed Command
two_args name build (a ∷ b ∷ []) = build a b
two_args name build args = err (wrong_arity name)

unfoldable pub three_args :
    Bytes → (Bytes → Bytes → Bytes → Parsed Command) → List Bytes → Parsed Command
three_args name build (a ∷ b ∷ c ∷ []) = build a b c
three_args name build args = err (wrong_arity name)

unfoldable pub some_args : Bytes → (List Bytes → Parsed Command) → List Bytes → Parsed Command
some_args name build [] = err (wrong_arity name)
some_args name build (a ∷ args) = build (a ∷ args)

unfoldable pub keyed : (Bytes → Command) → Bytes → Parsed Command
keyed build arg = do key ← bytes_to_string arg; ok (build key)

unfoldable pub ping_args : List Bytes → Parsed Command
ping_args [] = ok (ping none)
ping_args (a ∷ []) = ok (ping (some a))
ping_args args = err (wrong_arity (codes "PING"))

unfoldable pub inspect_args : List Bytes → Parsed Command
inspect_args [] = ok (aerugo_inspect default_inspect_limit)
inspect_args (a ∷ []) = do limit ← parse_usize a; ok (aerugo_inspect limit)
inspect_args args = err (wrong_arity (codes "AERUGO.INSPECT"))

-- The `match command_name.as_str()`.
unfoldable pub dispatch : Bytes → List Bytes → Parsed Command
dispatch name args =
    if bytes_eq name (codes "PING")
    then ping_args args
    else if bytes_eq name (codes "ECHO")
    then one_arg (codes "ECHO") (λ a. ok (echo a)) args
    else if bytes_eq name (codes "SET")
    then two_args (codes "SET") (λ a b. do key ← bytes_to_string a; ok (set key b)) args
    else if bytes_eq name (codes "GET")
    then one_arg (codes "GET") (keyed get) args
    else if bytes_eq name (codes "DEL")
    then some_args (codes "DEL") (λ l. do ks ← into_keys l; ok (del ks)) args
    else if bytes_eq name (codes "EXISTS")
    then some_args (codes "EXISTS") (λ l. do ks ← into_keys l; ok (exists ks)) args
    else if bytes_eq name (codes "EXPIRE")
    then two_args (codes "EXPIRE")
        (λ a b. do key ← bytes_to_string a; n ← parse_u64 b; ok (expire key n)) args
    else if bytes_eq name (codes "EXPIREAT")
    then two_args (codes "EXPIREAT")
        (λ a b. do key ← bytes_to_string a; n ← parse_u64 b; ok (expire_at key n)) args
    else if bytes_eq name (codes "TTL")
    then one_arg (codes "TTL") (keyed ttl) args
    else if bytes_eq name (codes "PERSIST")
    then one_arg (codes "PERSIST") (keyed persist) args
    else if bytes_eq name (codes "LPUSH")
    then parse_push_command (codes "LPUSH") args lpush
    else if bytes_eq name (codes "RPUSH")
    then parse_push_command (codes "RPUSH") args rpush
    else if bytes_eq name (codes "LPOP")
    then one_arg (codes "LPOP") (keyed lpop) args
    else if bytes_eq name (codes "RPOP")
    then one_arg (codes "RPOP") (keyed rpop) args
    else if bytes_eq name (codes "LRANGE")
    then three_args (codes "LRANGE")
        (λ a b c. do
          key ← bytes_to_string a
          start ← parse_i64 b
          stop ← parse_i64 c
          ok (lrange key start stop))
        args
    else if bytes_eq name (codes "DBSIZE")
    then no_args (codes "DBSIZE") db_size args
    else if bytes_eq name (codes "INFO")
    then no_args (codes "INFO") info args
    else if bytes_eq name (codes "AERUGO.STATS")
    then no_args (codes "AERUGO.STATS") aerugo_stats args
    else if bytes_eq name (codes "AERUGO.INSPECT")
    then inspect_args args
    else err (unknown name)

abbrev pub from_args : List Bytes → Parsed Command
from_args [] = err empty
from_args (first ∷ args) = do name ← bytes_to_string first; dispatch (to_ascii_uppercase name) args

unfoldable pub from_frame : Frame → Parsed Command
from_frame (array xs) = do args ← into_bulk_args xs; from_args args
from_frame frame = err expected_array
