-- ===== src/Command/Execute.antt =====
-- src/command.rs: `Command::execute` and the frames of its replies.
use aerugo_cache.Protocol.Encoder.{crlf}
use Prim.Native.Nat.{min}
use aerugo_cache.Prelude.Words.{as_i64, i64_max}
use aerugo_cache.Text.Decimal.{show_nat}
use aerugo_cache.Prelude.Ascii.{codes}
use aerugo_cache.Prelude.Int.{pos}
use aerugo_cache.Storage.Config.{StoreError, as_redis_integer, as_str}
use aerugo_cache.Prelude.Clock.{Clock}
use aerugo_cache.Storage.Store.{MemoryStore}
use aerugo_cache.Storage.Reports.{KeyInspection, StoreStats}
use aerugo_cache.Protocol.Frame.{array, bulk, frames, Frame, simple, integer, null}
use aerugo_cache.Command.Types.{
  ping, echo, set, get, del, exists, expire, expire_at, ttl, persist, lpush, rpush, lpop, rpop,
  lrange, db_size, info, aerugo_stats, aerugo_inspect, CommandError, Command, from_store_error,
}
use Prim.Native.String.{String}
use aerugo_cache.Storage.Store
use aerugo_cache.Storage.Lists
use aerugo_cache.Storage.Reports
use aerugo_cache.Prelude.{
  [], ◌∷◌, none, some, ok, err, Result, ℕ, Bool, Bytes, Option, if◌then◌else◌, ◌++◌, map,
}

unfoldable pub integer_frame : ℕ → Frame
integer_frame value = integer (pos (min value i64_max))

abbrev pub field_line : String → Bytes → Bytes
field_line name value = codes name ++ (value ++ crlf)

abbrev pub max_memory_text : Option ℕ → Bytes
max_memory_text none = codes "none"
max_memory_text (some bytes) = show_nat bytes

unfoldable pub format_stats : StoreStats → Bytes
format_stats s =
    codes "# Keyspace"
    ++ (crlf
        ++ (field_line "total_keys:" (show_nat s.total_keys)
            ++ (field_line "string_keys:" (show_nat s.string_keys)
                ++ (field_line "list_keys:" (show_nat s.list_keys)
                    ++ (field_line "expiring_keys:" (show_nat s.expiring_keys)
                        ++ (field_line "list_items:" (show_nat s.list_items)
                            ++ (crlf
                                ++ (codes "# Memory"
                                    ++ (crlf
                                        ++ (field_line "key_bytes:" (show_nat s.key_bytes)
                                            ++ (field_line "payload_bytes:"
                                                  (show_nat s.payload_bytes)
                                                ++ (field_line "estimated_memory_bytes:"
                                                      (show_nat s.estimated_memory_bytes)
                                                    ++ (field_line "max_memory_bytes:"
                                                          (max_memory_text s.max_memory_bytes)
                                                        ++ (field_line "eviction_policy:"
                                                            (as_str s.eviction_policy)
                                                            ++ (crlf
                                                            ++ (codes "# Counters"
                                                            ++ (crlf
                                                            ++ (field_line "expired_keys_cleaned:"
                                                            (show_nat s.expired_keys_cleaned)
                                                            ++ (field_line "evicted_keys:"
                                                            (show_nat s.evicted_keys)
                                                            ++ field_line "rejected_writes:" (
                                                            show_nat
                                                            s.rejected_writes))))))))))))))))))))

unfoldable pub inspection_to_frame : KeyInspection → Frame
inspection_to_frame row = array (
    frames (
      bulk row.key
      ∷ bulk row.value_type
      ∷ integer row.ttl_seconds
      ∷ integer_frame row.payload_bytes
      ∷ integer_frame row.estimated_memory_bytes
      ∷ integer_frame row.list_items
      ∷ []))

-- The reply of a command, and the store behind it.
abbrev pub Executed : Type 0
Executed = Result CommandError Frame × MemoryStore

-- `store.…().await?` and the frame of what it returns.
abbrev pub answer : {A : Type 0} → (A → Frame) → Result StoreError A × MemoryStore → Executed
answer reply (ok a, store) = (ok (reply a), store)
answer reply (err e, store) = (err (from_store_error e), store)

abbrev pub always : {A : Type 0} → (A → Frame) → A × MemoryStore → Executed
always reply (a, store) = (ok (reply a), store)

abbrev bulk_or_null : Option Bytes → Frame
bulk_or_null none = null
bulk_or_null (some value) = bulk value

abbrev pub one_or_zero : Bool → Frame
one_or_zero done = integer (if done then pos 1 else pos 0)

unfoldable pub execute : Clock → Command → MemoryStore → Executed
execute clock (ping none) store = (ok (simple (codes "PONG")), store)
execute clock (ping (some value)) store = (ok (bulk value), store)
execute clock (echo value) store = (ok (bulk value), store)
execute clock (set key value) store =
    answer (λ _. simple (codes "OK")) (Store.set clock key value store)
execute clock (get key) store = answer bulk_or_null (Store.get_string clock key store)
execute clock (del ks) store = always (λ n. integer (as_i64 n)) (Store.del clock ks store)
execute clock (exists ks) store = always (λ n. integer (as_i64 n)) (Store.exists clock ks store)
execute clock (expire key secs) store = always one_or_zero (Store.expire clock key secs store)
execute clock (expire_at key unix_seconds) store =
    always one_or_zero (Store.expire_at_unix clock key unix_seconds store)
execute clock (ttl key) store =
    always (λ t. integer (as_redis_integer t)) (Store.ttl clock key store)
execute clock (persist key) store = always one_or_zero (Store.persist clock key store)
execute clock (lpush key values) store =
    answer (λ n. integer (as_i64 n)) (Lists.lpush clock key values store)
execute clock (rpush key values) store =
    answer (λ n. integer (as_i64 n)) (Lists.rpush clock key values store)
execute clock (lpop key) store = answer bulk_or_null (Lists.lpop clock key store)
execute clock (rpop key) store = answer bulk_or_null (Lists.rpop clock key store)
execute clock (lrange key start stop) store =
    answer (λ l. array (frames (map bulk l))) (Lists.lrange clock key start stop store)
execute clock db_size store =
    always (λ s. integer (as_i64 s.total_keys)) (Reports.stats clock store)
execute clock info store = always (λ s. bulk (format_stats s)) (Reports.stats clock store)
execute clock aerugo_stats store = always (λ s. bulk (format_stats s)) (Reports.stats clock store)
execute clock (aerugo_inspect limit) store =
    always (λ rows. array (frames (map inspection_to_frame rows)))
      (Reports.inspect_keys clock limit store)
