-- ===== src/Storage/Config.antt =====
-- src/storage.rs: the configuration, the errors and the reply of TTL.
use aerugo_cache.Prelude.{ℕ, ◌++◌, Option, none, Bytes, bytes_eq, Result, ok, err, if◌then◌else◌}
use Prim.Native.Nat.{min}
use aerugo_cache.Prelude.Int.{ℤ, pos, negsuc}
use aerugo_cache.Prelude.Words.{i64_max}
use aerugo_cache.Prelude.Ascii.{codes, to_ascii_lowercase}

pub data EvictionPolicy : Type 0 where
  no_eviction all_keys_random : EvictionPolicy

unfoldable pub as_str : EvictionPolicy → Bytes
as_str no_eviction = codes "noeviction"
as_str all_keys_random = codes "allkeys-random"

unfoldable pub from_str : Bytes → Result Bytes EvictionPolicy
from_str value =
    let other = to_ascii_lowercase value in
    if bytes_eq other (codes "noeviction")
    then ok no_eviction
    else if bytes_eq other (codes "allkeys-random")
    then ok all_keys_random
    else err (
        codes "unsupported eviction policy '"
        ++ (other ++ codes "', expected noeviction or allkeys-random"))

pub record StoreConfig : Type 0 where
  pub max_memory_bytes : Option ℕ
  pub eviction_policy : EvictionPolicy

-- `StoreConfig::default`
abbrev pub default_config : StoreConfig
default_config = record { max_memory_bytes = none; eviction_policy = no_eviction }

pub data StoreError : Type 0 where
  wrong_type out_of_memory : StoreError

pub data Ttl : Type 0 where
  missing no_expiration : Ttl
  seconds : ℕ → Ttl

unfoldable pub as_redis_integer : Ttl → ℤ
as_redis_integer missing = negsuc 1
as_redis_integer no_expiration = negsuc 0
as_redis_integer (seconds s) = pos (min s i64_max)
