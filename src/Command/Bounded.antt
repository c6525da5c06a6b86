-- ===== src/Command/Bounded.antt =====
-- src/command.rs: no command brings the memory of the entries above the limit.
use aerugo_cache.Storage.Memory.Operations.{
  get_string-Trims, del-Trims, exists-Trims, expire_at-Trims, ttl-Trims, persist-Trims, stats-Trims,
  inspect_keys-Trims,
}
use aerugo_cache.Storage.Memory.Limit.{Bounded, set-Bounded, Trims-Bounded, push-Bounded}
use aerugo_cache.Storage.Config.{StoreError}
use aerugo_cache.Storage.Memory.Lists.{values_size, pop-Trims, lrange-Trims}
use aerugo_cache.HashMap.{IsMap}
use aerugo_cache.Storage.Store.{MemoryStore}
use aerugo_cache.Prelude.Clock.{Clock}
use aerugo_cache.Protocol.Frame.{Frame}
use aerugo_cache.Command.Execute.{execute, answer}
use aerugo_cache.Command.Types.{
  ping, echo, set, get, del, exists, expire, expire_at, ttl, persist, lpush, rpush, lpop, rpop,
  lrange, db_size, info, aerugo_stats, aerugo_inspect, Command,
}
use aerugo_cache.Storage.Store
use aerugo_cache.Storage.Lists
use aerugo_cache.Storage.Lists.{PushSide, PopSide}
use aerugo_cache.Prelude.{none, some, ok, err, ℕ, ◌+◌, Result, length, ◌<◌, ◌^◌}

-- The memory that a command can add.
abbrev pub growth : Command → ℕ
growth (set key value) = 64 + length key + length value
growth (lpush key values) = 64 + length key + values_size values
growth (rpush key values) = 64 + length key + values_size values
growth command = 0

answer-Bounded :
    {A : Type 0} (m : ℕ) (reply : A → Frame) (r : Result StoreError A × MemoryStore)
    → Bounded m r.1
    → Bounded m (answer reply r).1
answer-Bounded m reply (ok a, store) b = b
answer-Bounded m reply (err e, store) b = b

-- A command, whether it succeeds or is refused, keeps the memory of the entries, counted exactly, within
-- the limit, where a key stands once and the limit and what the command brings are together below
-- 2 ^ 64 bytes.
pub execute-Bounded :
    (m : ℕ) (clock : Clock) (command : Command) (store : MemoryStore)
    → IsMap store.entries
    → m + growth command < 2 ^ 64
    → Bounded m store
    → Bounded m (execute clock command store).1
unfolding execute Store.expire Store.expire_at_unix Lists.lpush Lists.rpush Lists.lpop Lists.rpop
execute-Bounded m clock (ping none) store h small b = b
execute-Bounded m clock (ping (some value)) store h small b = b
execute-Bounded m clock (echo value) store h small b = b
execute-Bounded m clock (set key value) store h small b =
    answer-Bounded m _ (Store.set clock key value store)
      (set-Bounded m clock key value store h b small)
execute-Bounded m clock (get key) store h small b =
    answer-Bounded m _ (Store.get_string clock key store)
      (Trims-Bounded m store _ (get_string-Trims clock key store) b)
execute-Bounded m clock (del ks) store h small b =
    Trims-Bounded m store _ (del-Trims clock ks store) b
execute-Bounded m clock (exists ks) store h small b =
    Trims-Bounded m store _ (exists-Trims clock ks store) b
execute-Bounded m clock (expire key secs) store h small b =
    Trims-Bounded m store _ (expire_at-Trims key _ (clock 1) store) b
execute-Bounded m clock (expire_at key unix_seconds) store h small b =
    Trims-Bounded m store _ (expire_at-Trims key _ (clock 1) store) b
execute-Bounded m clock (ttl key) store h small b =
    Trims-Bounded m store _ (ttl-Trims clock key store) b
execute-Bounded m clock (persist key) store h small b =
    Trims-Bounded m store _ (persist-Trims clock key store) b
execute-Bounded m clock (lpush key values) store h small b =
    answer-Bounded m _ (Lists.lpush clock key values store)
      (push-Bounded m clock key values PushSide.left store h b small)
execute-Bounded m clock (rpush key values) store h small b =
    answer-Bounded m _ (Lists.rpush clock key values store)
      (push-Bounded m clock key values PushSide.right store h b small)
execute-Bounded m clock (lpop key) store h small b =
    answer-Bounded m _ (Lists.lpop clock key store)
      (Trims-Bounded m store _ (pop-Trims clock key PopSide.left store) b)
execute-Bounded m clock (rpop key) store h small b =
    answer-Bounded m _ (Lists.rpop clock key store)
      (Trims-Bounded m store _ (pop-Trims clock key PopSide.right store) b)
execute-Bounded m clock (lrange key start stop) store h small b =
    answer-Bounded m _ (Lists.lrange clock key start stop store)
      (Trims-Bounded m store _ (lrange-Trims clock key start stop store) b)
execute-Bounded m clock db_size store h small b =
    Trims-Bounded m store _ (stats-Trims clock store) b
execute-Bounded m clock info store h small b = Trims-Bounded m store _ (stats-Trims clock store) b
execute-Bounded m clock aerugo_stats store h small b =
    Trims-Bounded m store _ (stats-Trims clock store) b
execute-Bounded m clock (aerugo_inspect limit) store h small b =
    Trims-Bounded m store _ (inspect_keys-Trims clock limit store) b
