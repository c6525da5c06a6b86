-- ===== src/Command/Types.antt =====
-- src/command.rs: commands and command errors.
use aerugo_cache.Prelude.Int.{ℤ}
use aerugo_cache.Prelude.Ascii.{codes}
use aerugo_cache.Protocol.Frame.{Frame, error}
use aerugo_cache.Storage.Config.{StoreError}
use aerugo_cache.Prelude.{Bytes, Option, List, ◌++◌, ℕ}

pub data CommandError : Type 0 where
  empty expected_array expected_bulk invalid_utf8 invalid_integer : CommandError
  wrong_arity : Bytes → CommandError
  unknown : Bytes → CommandError
  wrong_type out_of_memory : CommandError

pub data Command : Type 0 where
  ping : Option Bytes → Command
  echo : Bytes → Command
  set : Bytes → Bytes → Command
  get : Bytes → Command
  del : List Bytes → Command
  exists : List Bytes → Command
  expire : Bytes → ℕ → Command
  expire_at : Bytes → ℕ → Command
  ttl : Bytes → Command
  persist : Bytes → Command
  lpush : Bytes → List Bytes → Command
  rpush : Bytes → List Bytes → Command
  lpop : Bytes → Command
  rpop : Bytes → Command
  lrange : Bytes → ℤ → ℤ → Command
  db_size info aerugo_stats : Command
  aerugo_inspect : ℕ → Command

-- The `#[error(…)]` texts.
unfoldable pub to_string : CommandError → Bytes
to_string empty = codes "empty command"
to_string expected_array = codes "expected RESP array command"
to_string expected_bulk = codes "expected bulk string argument"
to_string invalid_utf8 = codes "invalid UTF-8 in command or key"
to_string invalid_integer = codes "value is not an integer or is out of range"
to_string (wrong_arity name) = codes "wrong number of arguments for '" ++ (name ++ codes "'")
to_string (unknown name) = codes "unknown command '" ++ (name ++ codes "'")
to_string wrong_type = codes "WRONGTYPE Operation against a key holding the wrong kind of value"
to_string out_of_memory = codes "OOM command not allowed when memory limit would be exceeded"

unfoldable pub error_frame : CommandError → Frame
error_frame wrong_type = error (to_string wrong_type)
error_frame out_of_memory = error (to_string out_of_memory)
error_frame other = error (codes "ERR " ++ to_string other)

-- `From<StoreError>`
unfoldable pub from_store_error : StoreError → CommandError
from_store_error StoreError.wrong_type = wrong_type
from_store_error StoreError.out_of_memory = out_of_memory
