-- ===== src/Command/Valid/Dispatch.antt =====
-- src/command.rs, `Command::from_frame`: every command that is returned is valid.
use aerugo_cache.Command.Valid.Numbers.{
  parse_usize-Parses, bytes_to_string-Parses, into_keys_some, parse_u64-Parses, parse_i64-Parses,
}
use aerugo_cache.Command.Valid.{Parses, IsCommand, IsText, Parses-bind}
use Prim.Native.String.{String}
use mathlib.Core.Path.{subst}
use aerugo_cache.Protocol.Frame.{array, bulk, Frame, Frames, nil, cons}
use aerugo_cache.Prelude.Ascii.{to_ascii_uppercase, codes}
use aerugo_cache.Text.Decimal.{u64_max, InI64}
use aerugo_cache.Command.Parse.{
  bytes_to_string, parse_u64, parse_i64, parse_usize, into_keys, keyed, inspect_args, some_args,
  parse_push_command, dispatch, Parsed, no_args, from_args, ping_args, three_args, one_arg,
  two_args, into_bulk_args, from_frame,
}
use aerugo_cache.Command.Types.{
  get, del, exists, expire, expire_at, ttl, persist, lpush, rpush, lpop, rpop, lrange, db_size,
  info, aerugo_stats, Command,
}
use aerugo_cache.Prelude.{
  [], ◌∷◌, true, false, arith, ok, ◌>>=◌, List, Bool, Bytes, ℕ, ◌≢◌, All, ◌≡◌, ◌≤◌, if◌then◌else◌,
  bytes_eq,
}

-- A parse of a command that returns none but commands that satisfy `IsCommand`.
record Safe (r : Parsed Command) : Type 0 where
  at : Parses IsCommand r

Safe-if : (b : Bool) {x y : Parsed Command} → Safe x → Safe y → Safe (if b then x else y)
Safe-if true hx hy = hx
Safe-if false hx hy = hy

no_args-Parses :
    (name : Bytes) (command : Command) (args : List Bytes)
    → IsCommand command
    → Safe (no_args name command args)
unfolding no_args
no_args-Parses name command [] h = record { at = h }
no_args-Parses name command (a ∷ args) h = record { at = tt }

one_arg-Parses :
    (name : Bytes) (build : Bytes → Parsed Command) (args : List Bytes)
    → ((a : Bytes) → Parses IsCommand (build a))
    → Safe (one_arg name build args)
unfolding one_arg
one_arg-Parses name build [] h = record { at = tt }
one_arg-Parses name build (a ∷ []) h = record { at = h a }
one_arg-Parses name build (a ∷ b ∷ args) h = record { at = tt }

two_args-Parses :
    (name : Bytes) (build : Bytes → Bytes → Parsed Command) (args : List Bytes)
    → ((a b : Bytes) → Parses IsCommand (build a b))
    → Safe (two_args name build args)
unfolding two_args
two_args-Parses name build [] h = record { at = tt }
two_args-Parses name build (a ∷ []) h = record { at = tt }
two_args-Parses name build (a ∷ b ∷ []) h = record { at = h a b }
two_args-Parses name build (a ∷ b ∷ c ∷ args) h = record { at = tt }

three_args-Parses :
    (name : Bytes) (build : Bytes → Bytes → Bytes → Parsed Command) (args : List Bytes)
    → ((a b c : Bytes) → Parses IsCommand (build a b c))
    → Safe (three_args name build args)
unfolding three_args
three_args-Parses name build [] h = record { at = tt }
three_args-Parses name build (a ∷ []) h = record { at = tt }
three_args-Parses name build (a ∷ b ∷ []) h = record { at = tt }
three_args-Parses name build (a ∷ b ∷ c ∷ []) h = record { at = h a b c }
three_args-Parses name build (a ∷ b ∷ c ∷ d ∷ args) h = record { at = tt }

keyed-Parses :
    (build : Bytes → Command) (arg : Bytes)
    → ((key : Bytes) → IsText key → IsCommand (build key))
    → Parses IsCommand (keyed build arg)
unfolding keyed
keyed-Parses build arg h =
    Parses-bind IsText IsCommand (bytes_to_string arg) _ (bytes_to_string-Parses arg) h

some_keys-Parses :
    (name : Bytes) (build : List Bytes → Command) (args : List Bytes)
    → ((ks : List Bytes) → (ks ≢ []) × All IsText ks → IsCommand (build ks))
    → Safe (some_args name (λ l. do ks ← into_keys l; ok (build ks)) args)
unfolding some_args
some_keys-Parses name build [] h = record { at = tt }
some_keys-Parses name build (a ∷ args) h = record {
  at = Parses-bind _ IsCommand (into_keys (a ∷ args)) _ (into_keys_some a args) h;
}

push-Parses :
    (name : Bytes) (args : List Bytes) (build : Bytes → List Bytes → Command)
    → ((key : Bytes) (values : List Bytes)
        → IsText key × (values ≢ [])
        → IsCommand (build key values))
    → Safe (parse_push_command name args build)
unfolding parse_push_command
push-Parses name [] build h = record { at = tt }
push-Parses name (a ∷ []) build h = record { at = tt }
push-Parses name (a ∷ v ∷ values) build h = record {
  at =
      Parses-bind IsText IsCommand (bytes_to_string a) _ (bytes_to_string-Parses a)
        λ key text. h key (v ∷ values) (text, (λ e. cc));
}

keyed_u64-Parses :
    (build : Bytes → ℕ → Command) (a b : Bytes)
    → ((key : Bytes) (n : ℕ) → IsText key × (n ≤ u64_max) → IsCommand (build key n))
    → Parses IsCommand (do key ← bytes_to_string a; n ← parse_u64 b; ok (build key n))
keyed_u64-Parses build a b h =
    Parses-bind IsText IsCommand (bytes_to_string a) _ (bytes_to_string-Parses a) λ key text.
      Parses-bind _ IsCommand (parse_u64 b) _ (parse_u64-Parses b) λ n fits. h key n (text, fits)

lrange-Parses :
    (a b c : Bytes)
    → Parses IsCommand (do
      key ← bytes_to_string a
      start ← parse_i64 b
      stop ← parse_i64 c
      ok (lrange key start stop))
lrange-Parses a b c =
    Parses-bind IsText IsCommand (bytes_to_string a) _ (bytes_to_string-Parses a) λ key text.
      Parses-bind InI64 IsCommand (parse_i64 b) _ (parse_i64-Parses b) λ start low.
        Parses-bind InI64 IsCommand (parse_i64 c) _ (parse_i64-Parses c)
          λ stop high. (text, low, high)

ping-Parses : (args : List Bytes) → Safe (ping_args args)
unfolding ping_args
ping-Parses [] = record { at = tt }
ping-Parses (a ∷ []) = record { at = tt }
ping-Parses (a ∷ b ∷ args) = record { at = tt }

inspect-Parses : (args : List Bytes) → Safe (inspect_args args)
unfolding inspect_args
inspect-Parses [] = record { at = omega arith }
inspect-Parses (a ∷ []) = record {
  at = Parses-bind _ IsCommand (parse_usize a) _ (parse_usize-Parses a) λ n h. h;
}
inspect-Parses (a ∷ b ∷ args) = record { at = tt }

dispatch-Safe : (name : Bytes) (args : List Bytes) → Safe (dispatch name args)
unfolding dispatch
dispatch-Safe name args = Safe-if (is "PING") (ping-Parses args) (
    Safe-if (is "ECHO") (one_arg-Parses _ _ args (λ a. tt)) (
      Safe-if (is "SET")
        (two_args-Parses _ _ args λ a b.
          Parses-bind IsText IsCommand (bytes_to_string a) _ (bytes_to_string-Parses a) λ key h. h)
        (Safe-if (is "GET") (one_arg-Parses _ _ args λ a. keyed-Parses get a (λ k h. h)) (
          Safe-if (is "DEL") (some_keys-Parses _ del args (λ k h. h)) (
            Safe-if (is "EXISTS") (some_keys-Parses _ exists args (λ k h. h)) (
              Safe-if (is "EXPIRE")
                (two_args-Parses _ _ args λ a b. keyed_u64-Parses expire a b (λ k n h. h))
                (Safe-if (is "EXPIREAT")
                  (two_args-Parses _ _ args λ a b. keyed_u64-Parses expire_at a b (λ k n h. h))
                  (Safe-if (is "TTL") (one_arg-Parses _ _ args λ a. keyed-Parses ttl a (λ k h. h)) (
                    Safe-if (is "PERSIST")
                      (one_arg-Parses _ _ args λ a. keyed-Parses persist a (λ k h. h))
                      (Safe-if (is "LPUSH") (push-Parses _ args lpush (λ k v h. h)) (
                        Safe-if (is "RPUSH") (push-Parses _ args rpush (λ k v h. h)) (
                          Safe-if (is "LPOP")
                            (one_arg-Parses _ _ args λ a. keyed-Parses lpop a (λ k h. h))
                            (Safe-if (is "RPOP")
                              (one_arg-Parses _ _ args λ a. keyed-Parses rpop a (λ k h. h))
                              (Safe-if (is "LRANGE") (three_args-Parses _ _ args lrange-Parses) (
                                Safe-if (is "DBSIZE") (no_args-Parses _ db_size args tt) (
                                  Safe-if (is "INFO") (no_args-Parses _ info args tt) (
                                    Safe-if (is "AERUGO.STATS")
                                      (no_args-Parses _ aerugo_stats args tt)
                                      (Safe-if (is "AERUGO.INSPECT") (inspect-Parses args)
                                        (record { at = tt })))))))))))))))))))
  where
    is : String → Bool
    is text = bytes_eq name (codes text)

from_args-Parses : (args : List Bytes) → Parses IsCommand (from_args args)
from_args-Parses [] = tt
from_args-Parses (a ∷ args) =
    Parses-bind IsText IsCommand (bytes_to_string a) _ (bytes_to_string-Parses a)
      λ name _. (dispatch-Safe (to_ascii_uppercase name) args).at

into_bulk_args-Parses : (xs : Frames) → Parses (λ args. Unit {0}) (into_bulk_args xs)
unfolding into_bulk_args
into_bulk_args-Parses nil = tt
into_bulk_args-Parses (cons (bulk value) xs) =
    Parses-bind _ _ (into_bulk_args xs) _ (into_bulk_args-Parses xs) λ args h. tt
into_bulk_args-Parses (cons x xs) = tt

from_frame-Parses : (frame : Frame) → Parses IsCommand (from_frame frame)
unfolding from_frame
from_frame-Parses (array xs) =
    Parses-bind _ IsCommand (into_bulk_args xs) _ (into_bulk_args-Parses xs)
      λ args _. from_args-Parses args
from_frame-Parses _ = tt

-- A command that a frame is parsed into has keys that are text, counts in the range of their type,
-- and at least one argument where it is variadic.
pub from_frame-IsCommand :
    (frame : Frame) (command : Command) → from_frame frame ≡ ok command → IsCommand command
from_frame-IsCommand frame command h = subst (Parses IsCommand) h (from_frame-Parses frame)
