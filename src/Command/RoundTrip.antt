-- ===== src/Command/RoundTrip.antt =====
-- src/command.rs: the durable form of a command is parsed back into the command.
use mathlib.Core.Path.{subst}
use aerugo_cache.Text.Utf8.{is_utf8-ascii, from_utf8_lem, is_utf8}
use aerugo_cache.Prelude.Ascii.{codes, to_ascii_uppercase, to_upper}
use aerugo_cache.Text.Decimal.{
  show_nat, u64_max, parse_unsigned-show_nat, IsDigit, show_nat-IsDigit,
}
use aerugo_cache.Command.Valid.{IsText, IsCommand}
use aerugo_cache.Protocol.Frame.{frames, bulk, Frame}
use aerugo_cache.Prelude.Clock.{Clock, checked_add, as_secs, subsec_nanos}
use aerugo_cache.Command.Durable.{
  expiration_deadline, unix_seconds_ceil, bulk_text, command_frame, to_aof_frame, list_aof_frame,
}
use Prim.Native.String.{String}
use aerugo_cache.Text.Decimal
use aerugo_cache.Command.Parse.{
  bytes_to_string, parse_u64, into_keys, from_frame, into_bulk_args, dispatch, some_args,
  parse_push_command, one_arg, two_args, keyed,
}
use aerugo_cache.Command.Types.{
  ping, echo, set, get, del, exists, expire, expire_at, ttl, persist, lpush, rpush, lpop, rpop,
  lrange, db_size, info, aerugo_stats, aerugo_inspect, Command,
}
use aerugo_cache.Prelude.{
  refl, [], ◌∷◌, none, some, arith, ok, ℕ, List, Bytes, ◌≤◌, All, map, ◌≡◌, All-imp, ◌<◌, ◌^◌,
  Option, ◌≢◌, bytes_eq, ◌∙◌, ◌>>=◌,
}

into_bulk_args-frames : (args : List Bytes) → into_bulk_args (frames (map bulk args)) ≡ ok args
unfolding into_bulk_args frames
into_bulk_args-frames [] = refl
into_bulk_args-frames (a ∷ args) = rw (into_bulk_args-frames args)

pub bytes_to_string_text : (s : Bytes) → IsText s → bytes_to_string s ≡ ok s
unfolding bytes_to_string
bytes_to_string_text s h = rw (from_utf8_lem s h)

into_keys_text : (ks : List Bytes) → All IsText ks → into_keys ks ≡ ok ks
unfolding into_keys
into_keys_text [] h = refl
into_keys_text (k ∷ ks) h = rw (bytes_to_string_text k h.0, into_keys_text ks h.1)

pub show_nat-IsText : (n : ℕ) → IsText (show_nat n)
show_nat-IsText n =
    is_utf8-ascii (show_nat n)
      (All-imp IsDigit (λ b. b < 0x80) (show_nat n) (λ c d. omega arith) (show_nat-IsDigit n))

parse_u64-show_nat : (n : ℕ) → n ≤ u64_max → parse_u64 (show_nat n) ≡ ok n
unfolding parse_u64 Decimal.parse_u64
parse_u64-show_nat n h =
    rw (bytes_to_string_text (show_nat n) (show_nat-IsText n), parse_unsigned-show_nat u64_max n h)

-- A command frame whose name is text is dispatched on the name in upper case.
pub from_frame-command_frame :
    (name : String) (args : List Bytes)
    → IsText (codes name)
    → from_frame (command_frame name args) ≡ dispatch (to_ascii_uppercase (codes name)) args
unfolding from_frame bulk_text
from_frame-command_frame name args h =
    rw (into_bulk_args-frames (codes name ∷ args), bytes_to_string_text (codes name) h)

-- Replaying a command sets an absolute deadline where the command counted from the present.
abbrev pub durable : Clock → Command → Command
durable clock (expire key secs) = expire_at key (expiration_deadline clock secs)
durable clock command = command

expiration_deadline-le :
    (clock : Clock) (secs : ℕ)
    → ((i : ℕ) → as_secs (clock i) < 2 ^ 63)
    → expiration_deadline clock secs ≤ u64_max
unfolding expiration_deadline unix_seconds_ceil checked_add as_secs subsec_nanos
expiration_deadline-le clock secs h = ground (arith, h 0, h 1)

-- The parse of a key and of a count that the frame of a command holds.
keyed_u64 :
    (build : Bytes → ℕ → Command) (key : Bytes) (n : ℕ)
    → IsText key
    → n ≤ u64_max
    → (do k ← bytes_to_string key; m ← parse_u64 (show_nat n); ok (build k m)) ≡ ok (build key n)
keyed_u64 build key n text fits = rw (bytes_to_string_text key text, parse_u64-show_nat n fits)

parse_push-text :
    (name key : Bytes) (values : List Bytes) (build : Bytes → List Bytes → Command)
    → IsText key
    → values ≢ []
    → parse_push_command name (key ∷ values) build ≡ ok (build key values)
unfolding parse_push_command
parse_push-text name key [] build text some_value = elim (some_value refl) [ ]
parse_push-text name key (v ∷ values) build text some_value = rw (bytes_to_string_text key text)

some_args-text :
    (name : Bytes) (ks : List Bytes)
    → ks ≢ []
    → All IsText ks
    → some_args name (λ l. do k ← into_keys l; ok (del k)) ks ≡ ok (del ks)
unfolding some_args
some_args-text name [] some_key text = elim (some_key refl) [ ]
some_args-text name (k ∷ ks) some_key text = rw (into_keys_text (k ∷ ks) text)

Replays : Clock → Command → Option Frame → Type 0
Replays clock command none = Unit
Replays clock command (some frame) = from_frame frame ≡ ok (durable clock command)

to_aof_frame-Replays :
    (clock : Clock) (command : Command)
    → ((i : ℕ) → as_secs (clock i) < 2 ^ 63)
    → IsCommand command
    → Replays clock command (to_aof_frame clock command)
unfolding to_aof_frame Replays dispatch to_ascii_uppercase to_upper bytes_eq one_arg two_args keyed
    list_aof_frame is_utf8
to_aof_frame-Replays clock (set key value) early h =
    from_frame-command_frame "SET" (key ∷ value ∷ []) refl ∙ rw (bytes_to_string_text key h)
to_aof_frame-Replays clock (del ks) early h =
    from_frame-command_frame "DEL" ks refl ∙ some_args-text _ ks h.0 h.1
to_aof_frame-Replays clock (expire key secs) early h =
    from_frame-command_frame "EXPIREAT" (key ∷ show_nat (expiration_deadline clock secs) ∷ []) refl
    ∙ keyed_u64 expire_at key _ h.0 (expiration_deadline-le clock secs early)
to_aof_frame-Replays clock (expire_at key unix_seconds) early h =
    from_frame-command_frame "EXPIREAT" (key ∷ show_nat unix_seconds ∷ []) refl
    ∙ keyed_u64 expire_at key unix_seconds h.0 h.1
to_aof_frame-Replays clock (persist key) early h =
    from_frame-command_frame "PERSIST" (key ∷ []) refl ∙ rw (bytes_to_string_text key h)
to_aof_frame-Replays clock (lpush key values) early h =
    from_frame-command_frame "LPUSH" (key ∷ values) refl
    ∙ parse_push-text _ key values lpush h.0 h.1
to_aof_frame-Replays clock (rpush key values) early h =
    from_frame-command_frame "RPUSH" (key ∷ values) refl
    ∙ parse_push-text _ key values rpush h.0 h.1
to_aof_frame-Replays clock (lpop key) early h =
    from_frame-command_frame "LPOP" (key ∷ []) refl ∙ rw (bytes_to_string_text key h)
to_aof_frame-Replays clock (rpop key) early h =
    from_frame-command_frame "RPOP" (key ∷ []) refl ∙ rw (bytes_to_string_text key h)
to_aof_frame-Replays clock (ping m) early h = tt
to_aof_frame-Replays clock (echo m) early h = tt
to_aof_frame-Replays clock (get k) early h = tt
to_aof_frame-Replays clock (exists ks) early h = tt
to_aof_frame-Replays clock (ttl k) early h = tt
to_aof_frame-Replays clock (lrange k a b) early h = tt
to_aof_frame-Replays clock db_size early h = tt
to_aof_frame-Replays clock info early h = tt
to_aof_frame-Replays clock aerugo_stats early h = tt
to_aof_frame-Replays clock (aerugo_inspect n) early h = tt

pub from_frame-to_aof_frame :
    (clock : Clock) (command : Command) (frame : Frame)
    → ((i : ℕ) → as_secs (clock i) < 2 ^ 63)
    → IsCommand command
    → to_aof_frame clock command ≡ some frame
    → from_frame frame ≡ ok (durable clock command)
unfolding Replays
from_frame-to_aof_frame clock command frame early valid written =
    subst (Replays clock command) written (to_aof_frame-Replays clock command early valid)
