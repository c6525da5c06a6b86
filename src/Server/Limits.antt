-- ===== src/Server/Limits.antt =====
-- src/server.rs: the memory limit, however the connections interleave.
use aerugo_cache.Storage.Memory.Operations.{cleanup_expired-Trims}
use aerugo_cache.Command.Bounded.{execute-Bounded, growth}
use aerugo_cache.Storage.Memory.Limit.{Bounded, Trims-Bounded}
use aerugo_cache.Storage.Sound.{Sound}
use aerugo_cache.Aof.{Disk}
use aerugo_cache.Server.{Server}
use mathlib.Core.Path.{subst}
use aerugo_cache.Server.Interleaving.{
  starts, refuses, executes, appends, cleans, Shared, Reaches, Reaches-Sound,
}
use aerugo_cache.Prelude.{◌∷◌, ℕ, ◌+◌, ◌<◌, ◌^◌, ◌++◌}

-- The limit and what each command brings are together below 2 ^ 64 bytes.
abbrev pub IsAffordable :
    (m : ℕ) (disk : Disk) (start : Server) (s : Shared) → Reaches disk start s → Type 0
IsAffordable m disk start s starts = Unit
IsAffordable m disk start s (refuses t clock command e store r valid failed) =
    (m + growth command < 2 ^ 64) × IsAffordable m disk start t r
IsAffordable m disk start s (executes t written clock command reply store r valid done) =
    (m + growth command < 2 ^ 64) × IsAffordable m disk start t r
IsAffordable m disk start s (appends store aof before frame after r) =
    IsAffordable m disk start
      (record { store = store; aof = aof; pending = before ++ frame ∷ after }) r
IsAffordable m disk start s (cleans t clock r) = IsAffordable m disk start t r

-- In every state that interleaved connections and the cleanup task reach, on whatever file system,
-- the memory of the entries, counted exactly, is within the limit, if that was so at the start and
-- no key stood twice or held an empty list, and if the limit and what each command brings are
-- together below 2 ^ 64 bytes.
pub Reaches-Bounded :
    (m : ℕ) (disk : Disk) (start : Server) (s : Shared)
    → Sound start.store.entries
    → Bounded m start.store
    → (r : Reaches disk start s) → IsAffordable m disk start s r
    → Bounded m s.store
Reaches-Bounded m disk start s sound b starts small = b
Reaches-Bounded m disk start s sound b (refuses t clock command e store r valid failed) small =
    subst (λ x. Bounded m x.1) failed
      (execute-Bounded m clock command t.store (Reaches-Sound disk start t sound r).unique small.0
        (Reaches-Bounded m disk start t sound b r small.1))
Reaches-Bounded m disk start s sound b (executes t written clock command reply store r valid done)
      small =
    subst (λ x. Bounded m x.1) done
      (execute-Bounded m clock command t.store (Reaches-Sound disk start t sound r).unique small.0
        (Reaches-Bounded m disk start t sound b r small.1))
Reaches-Bounded m disk start s sound b (appends store aof before frame after r) small =
    Reaches-Bounded m disk start
      (record { store = store; aof = aof; pending = before ++ frame ∷ after }) sound b r small
Reaches-Bounded m disk start s sound b (cleans t clock r) small =
    Trims-Bounded m t.store _ (cleanup_expired-Trims clock t.store)
      (Reaches-Bounded m disk start t sound b r small)
