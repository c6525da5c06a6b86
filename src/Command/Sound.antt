-- ===== src/Command/Sound.antt =====
-- src/command.rs: executing a command keeps the entries sound.
use aerugo_cache.Storage.Sound.Lists.{push-Sound, pop-Sound, lrange-Sound}
use aerugo_cache.Storage.Sound.Operations.{
  set-Sound, get_string-Sound, del-Sound, exists-Sound, expire_at-Sound, ttl-Sound, persist-Sound,
  stats-Sound, inspect_keys-Sound,
}
use aerugo_cache.Command.Valid.{IsCommand}
use aerugo_cache.Storage.Sound.{Sound}
use aerugo_cache.Storage.Config.{StoreError}
use aerugo_cache.Storage.Store.{MemoryStore}
use aerugo_cache.Prelude.Clock.{Clock}
use aerugo_cache.Command.Execute.{execute, answer}
use aerugo_cache.Protocol.Frame.{Frame}
use aerugo_cache.Storage.Lists.{PushSide, PopSide}
use aerugo_cache.Storage.Store
use aerugo_cache.Storage.Lists
use aerugo_cache.Command.Types.{
  ping, echo, set, get, del, exists, expire, expire_at, ttl, persist, lpush, rpush, lpop, rpop,
  lrange, db_size, info, aerugo_stats, aerugo_inspect, Command,
}
use aerugo_cache.Prelude.{none, some, ok, err, Result}

answer-Sound :
    {A : Type 0} (reply : A → Frame) (r : Result StoreError A × MemoryStore)
    → Sound r.1.entries
    → Sound (answer reply r).1.entries
answer-Sound reply (ok a, store) s = s
answer-Sound reply (err e, store) s = s

-- A valid command keeps it true that a key stands once and that no key holds an empty list, whether
-- it succeeds or is refused.
pub execute-Sound :
    (clock : Clock) (command : Command) (store : MemoryStore)
    → IsCommand command
    → Sound store.entries
    → Sound (execute clock command store).1.entries
unfolding execute Store.expire Store.expire_at_unix Lists.lpush Lists.rpush Lists.lpop Lists.rpop
execute-Sound clock (ping none) store h s = s
execute-Sound clock (ping (some value)) store h s = s
execute-Sound clock (echo value) store h s = s
execute-Sound clock (set key value) store h s =
    answer-Sound _ (Store.set clock key value store) (set-Sound clock key value store s)
execute-Sound clock (get key) store h s =
    answer-Sound _ (Store.get_string clock key store) (get_string-Sound clock key store s)
execute-Sound clock (del ks) store h s = del-Sound clock ks store s
execute-Sound clock (exists ks) store h s = exists-Sound clock ks store s
execute-Sound clock (expire key secs) store h s = expire_at-Sound key _ (clock 1) store s
execute-Sound clock (expire_at key unix_seconds) store h s = expire_at-Sound key _ (clock 1) store s
execute-Sound clock (ttl key) store h s = ttl-Sound clock key store s
execute-Sound clock (persist key) store h s = persist-Sound clock key store s
execute-Sound clock (lpush key values) store h s =
    answer-Sound _ (Lists.lpush clock key values store)
      (push-Sound clock key values PushSide.left store h.1 s)
execute-Sound clock (rpush key values) store h s =
    answer-Sound _ (Lists.rpush clock key values store)
      (push-Sound clock key values PushSide.right store h.1 s)
execute-Sound clock (lpop key) store h s =
    answer-Sound _ (Lists.lpop clock key store) (pop-Sound clock key PopSide.left store s)
execute-Sound clock (rpop key) store h s =
    answer-Sound _ (Lists.rpop clock key store) (pop-Sound clock key PopSide.right store s)
execute-Sound clock (lrange key start stop) store h s =
    answer-Sound _ (Lists.lrange clock key start stop store)
      (lrange-Sound clock key start stop store s)
execute-Sound clock db_size store h s = stats-Sound clock store s
execute-Sound clock info store h s = stats-Sound clock store s
execute-Sound clock aerugo_stats store h s = stats-Sound clock store s
execute-Sound clock (aerugo_inspect limit) store h s = inspect_keys-Sound clock limit store s
