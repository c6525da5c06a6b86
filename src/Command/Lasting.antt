-- ===== src/Command/Lasting.antt =====
-- src/command.rs: commands that set no deadline, on a store without limit and deadlines.
use aerugo_cache.Prelude.Words.{as_i64}
use aerugo_cache.Storage.Undated.Lists.{push-Plainly, pop-Plainly, push-failed, pop-failed}
use mathlib.Core.Path.{subst}
use aerugo_cache.Prelude.Ascii.{codes}
use aerugo_cache.Command.Durable.{to_aof_frame}
use aerugo_cache.Command.Execute.{
  execute, answer, always, one_or_zero, format_stats, inspection_to_frame,
}
use aerugo_cache.Storage.Config.{StoreError, as_redis_integer}
use aerugo_cache.Storage.Undated.Operations.{
  Plainly, given, set-Plainly, get_string-given, del-Plainly, exists-given, ttl-given,
  persist-given, lrange-given, stats-given, inspect_keys-given, set-given,
}
use aerugo_cache.Storage.Undated.{Plain}
use aerugo_cache.Prelude.Clock.{Clock}
use aerugo_cache.Storage.Store.{MemoryStore}
use aerugo_cache.Protocol.Frame.{simple, bulk, Frame, integer, array, frames}
use aerugo_cache.Storage.Lists.{PushSide, PopSide}
use aerugo_cache.Command.Types.{
  ping, echo, set, get, del, exists, expire, expire_at, ttl, persist, lpush, rpush, lpop, rpop,
  lrange, db_size, info, aerugo_stats, aerugo_inspect, Command, CommandError,
}
use aerugo_cache.Storage.Store
use aerugo_cache.Storage.Lists
use aerugo_cache.Storage.Reports
use aerugo_cache.Prelude.{refl, none, some, ok, err, Result, ap, ◌≡◌, ◌∙◌, sym, map, Bytes}

abbrev pub IsLasting : Command → Type 0
IsLasting (expire key secs) = ⊥
IsLasting (expire_at key unix_seconds) = ⊥
IsLasting _ = Unit

answer-store :
    {A : Type 0} (reply : A → Frame) (r : Result StoreError A × MemoryStore)
    → (answer reply r).1 ≡ r.1
answer-store reply (ok a, store) = refl
answer-store reply (err e, store) = refl

answer-Plainly :
    {A : Type 0} (reply : A → Frame) (op : Clock → Result StoreError A × MemoryStore)
    → Plainly op
    → Plainly (λ c. answer reply (op c))
answer-Plainly reply op h = record {
  same = λ c d. ap (answer reply) (h.same c d);
  plain = λ c. subst Plain (sym (answer-store reply (op c))) (h.plain c);
}

always-Plainly :
    {A : Type 0} (reply : A → Frame) (op : Clock → A × MemoryStore)
    → Plainly op
    → Plainly (λ c. always reply (op c))
always-Plainly reply op h = record {
  same = λ c d. ap (always reply) (h.same c d);
  plain = λ c. h.plain c;
}

module _ (store : MemoryStore) (p : Plain store) where
  still : {A : Type 0} (a : A) → Plainly (λ c. (a, store))
  still a = given _ (a, store) (λ c. refl) p

  pub execute-Plainly :
      (command : Command) → IsLasting command → Plainly (λ c. execute c command store)
  unfolding execute Lists.lpush Lists.rpush Lists.lpop Lists.rpop
  execute-Plainly (ping none) h = still (ok (simple (codes "PONG")))
  execute-Plainly (ping (some value)) h = still (ok (bulk value))
  execute-Plainly (echo value) h = still (ok (bulk value))
  execute-Plainly (set key value) h =
      answer-Plainly _ (λ c. Store.set c key value store) (set-Plainly store p key value)
  execute-Plainly (get key) h =
      answer-Plainly _ (λ c. Store.get_string c key store)
        (given _ _ (get_string-given store p key) p)
  execute-Plainly (del ks) h =
      always-Plainly (λ n. integer (as_i64 n)) (λ c. Store.del c ks store) (del-Plainly store p ks)
  execute-Plainly (exists ks) h =
      always-Plainly (λ n. integer (as_i64 n)) (λ c. Store.exists c ks store)
        (given _ _ (exists-given store p ks) p)
  execute-Plainly (expire key secs) h = elim h [ ]
  execute-Plainly (expire_at key unix_seconds) h = elim h [ ]
  execute-Plainly (ttl key) h =
      always-Plainly (λ t. integer (as_redis_integer t)) (λ c. Store.ttl c key store)
        (given _ _ (ttl-given store p key) p)
  execute-Plainly (persist key) h =
      always-Plainly one_or_zero (λ c. Store.persist c key store)
        (given _ _ (persist-given store p key) p)
  execute-Plainly (lpush key values) h =
      answer-Plainly _ (λ c. Lists.push c key values PushSide.left store)
        (push-Plainly store p key values PushSide.left)
  execute-Plainly (rpush key values) h =
      answer-Plainly _ (λ c. Lists.push c key values PushSide.right store)
        (push-Plainly store p key values PushSide.right)
  execute-Plainly (lpop key) h =
      answer-Plainly _ (λ c. Lists.pop c key PopSide.left store)
        (pop-Plainly store p key PopSide.left)
  execute-Plainly (rpop key) h =
      answer-Plainly _ (λ c. Lists.pop c key PopSide.right store)
        (pop-Plainly store p key PopSide.right)
  execute-Plainly (lrange key start stop) h =
      answer-Plainly _ (λ c. Lists.lrange c key start stop store)
        (given _ _ (lrange-given store p key start stop) p)
  execute-Plainly db_size h =
      always-Plainly (λ s. integer (as_i64 s.total_keys)) (λ c. Reports.stats c store)
        (given _ _ (stats-given store p) p)
  execute-Plainly info h =
      always-Plainly (λ s. bulk (format_stats s)) (λ c. Reports.stats c store)
        (given _ _ (stats-given store p) p)
  execute-Plainly aerugo_stats h =
      always-Plainly (λ s. bulk (format_stats s)) (λ c. Reports.stats c store)
        (given _ _ (stats-given store p) p)
  execute-Plainly (aerugo_inspect limit) h =
      always-Plainly (λ rows. array (frames (map inspection_to_frame rows)))
        (λ c. Reports.inspect_keys c limit store) (given _ _ (inspect_keys-given store p limit) p)

  -- A command that is not written to the file leaves the store as it is.
  pub execute-reads :
      (clock written : Clock) (command : Command)
      → to_aof_frame written command ≡ none
      → (execute clock command store).1 ≡ store
  unfolding execute to_aof_frame
  execute-reads clock written (ping none) h = refl
  execute-reads clock written (ping (some value)) h = refl
  execute-reads clock written (echo value) h = refl
  execute-reads clock written (get key) h =
      answer-store _ (Store.get_string clock key store)
      ∙ ap (λ r. r.1) (get_string-given store p key clock)
  execute-reads clock written (exists ks) h = ap (λ r. r.1) (exists-given store p ks clock)
  execute-reads clock written (ttl key) h = ap (λ r. r.1) (ttl-given store p key clock)
  execute-reads clock written (lrange key start stop) h =
      answer-store _ (Lists.lrange clock key start stop store)
      ∙ ap (λ r. r.1) (lrange-given store p key start stop clock)
  execute-reads clock written db_size h = ap (λ r. r.1) (stats-given store p clock)
  execute-reads clock written info h = ap (λ r. r.1) (stats-given store p clock)
  execute-reads clock written aerugo_stats h = ap (λ r. r.1) (stats-given store p clock)
  execute-reads clock written (aerugo_inspect limit) h =
      ap (λ r. r.1) (inspect_keys-given store p limit clock)
  execute-reads clock written (set key value) h = cc
  execute-reads clock written (del ks) h = cc
  execute-reads clock written (expire key secs) h = cc
  execute-reads clock written (expire_at key unix_seconds) h = cc
  execute-reads clock written (persist key) h = cc
  execute-reads clock written (lpush key values) h = cc
  execute-reads clock written (rpush key values) h = cc
  execute-reads clock written (lpop key) h = cc
  execute-reads clock written (rpop key) h = cc

answer-failed :
    {A : Type 0} (reply : A → Frame) (r : Result StoreError A × MemoryStore) (e : CommandError)
    (after : MemoryStore)
    → answer reply r ≡ (err e, after)
    → (x : StoreError) × (r ≡ (err x, after))
answer-failed reply (ok a, store) e after h = cc
answer-failed reply (err x, store) e after h = (x, ap (λ r. (err x, r.1)) h)

module _ (store : MemoryStore) (p : Plain store) where
  set-succeeds :
      (clock : Clock) (key value : Bytes) (x : StoreError) (after : MemoryStore)
      → Store.set clock key value store ≡ (err x, after)
      → after ≡ store
  set-succeeds clock key value x after h =
      let done = sym (set-given store p key value clock) ∙ h in cc

  -- A command that is refused leaves the store as it is.
  pub execute-failed :
      (clock : Clock) (command : Command) (e : CommandError) (after : MemoryStore)
      → IsLasting command
      → execute clock command store ≡ (err e, after)
      → after ≡ store
  unfolding execute Lists.lpush Lists.rpush Lists.lpop Lists.rpop
  execute-failed clock (set key value) e after l h =
      let (x, failed) = answer-failed _ (Store.set clock key value store) e after h in
      set-succeeds clock key value x after failed
  execute-failed clock (lpush key values) e after l h =
      let (x, failed) =
        answer-failed _ (Lists.push clock key values PushSide.left store) e after h in
      push-failed store p key values PushSide.left clock x after failed
  execute-failed clock (rpush key values) e after l h =
      let (x, failed) =
        answer-failed _ (Lists.push clock key values PushSide.right store) e after h in
      push-failed store p key values PushSide.right clock x after failed
  execute-failed clock (lpop key) e after l h =
      let (x, failed) = answer-failed _ (Lists.pop clock key PopSide.left store) e after h in
      pop-failed store p key PopSide.left clock x after failed
  execute-failed clock (rpop key) e after l h =
      let (x, failed) = answer-failed _ (Lists.pop clock key PopSide.right store) e after h in
      pop-failed store p key PopSide.right clock x after failed
  execute-failed clock (del ks) e after l h = cc
  execute-failed clock (persist key) e after l h = cc
  execute-failed clock (expire key secs) e after l h = elim l [ ]
  execute-failed clock (expire_at key unix_seconds) e after l h = elim l [ ]
  execute-failed clock (ping none) e after l h = cc
  execute-failed clock (ping (some value)) e after l h = cc
  execute-failed clock (echo value) e after l h = cc
  execute-failed clock (exists ks) e after l h = cc
  execute-failed clock (ttl key) e after l h = cc
  execute-failed clock db_size e after l h = cc
  execute-failed clock info e after l h = cc
  execute-failed clock aerugo_stats e after l h = cc
  execute-failed clock (aerugo_inspect limit) e after l h = cc
  execute-failed clock (get key) e after l h =
      let (x, failed) = answer-failed _ (Store.get_string clock key store) e after h in
      sym (ap (λ r. r.1) failed) ∙ ap (λ r. r.1) (get_string-given store p key clock)
  execute-failed clock (lrange key start stop) e after l h =
      let (x, failed) = answer-failed _ (Lists.lrange clock key start stop store) e after h in
      sym (ap (λ r. r.1) failed) ∙ ap (λ r. r.1) (lrange-given store p key start stop clock)
