-- ===== src/Aof/Recovery.antt =====
-- src/persistence/aof.rs: the store that replay restores, where the clock plays no part.
use aerugo_cache.Protocol.Encoder.{write_items}
use aerugo_cache.Aof.{count_if_ok, replay}
use aerugo_cache.Protocol.RoundTrip.{AllReadable}
use aerugo_cache.Command.Durable.{to_aof_frame}
use aerugo_cache.Storage.Undated.{Plain}
use aerugo_cache.Command.Valid.{IsCommand}
use aerugo_cache.Command.RoundTrip.{durable}
use aerugo_cache.Command.Execute.{Executed, execute}
use aerugo_cache.Protocol.Frame.{Frame}
use aerugo_cache.Storage.Store.{MemoryStore}
use aerugo_cache.Command.Lasting.{IsLasting, execute-Plainly, execute-failed, execute-reads}
use aerugo_cache.Prelude.Clock.{Clock, as_secs}
use aerugo_cache.Command.Types.{expire, expire_at, Command, CommandError}
use aerugo_cache.Aof.Replay.{kept, run, log, replay-log, keep_if}
use aerugo_cache.Prelude.{
  refl, suc, [], ◌∷◌, none, some, ok, err, Result, ℕ, List, All, ◌≡◌, Option, ap, sym, ◌<◌, ◌^◌,
  ◌∙◌,
}

abbrev pub keep_ok : Result CommandError Frame → Command → List Command → List Command
keep_ok (ok reply) command commands = command ∷ commands
keep_ok (err e) command commands = commands

-- The commands of a run that succeed: those whose frames a connection appends.
abbrev pub succeeding : (ℕ → Clock) → List Command → MemoryStore → List Command
succeeding clocks [] store = []
succeeding clocks (command ∷ commands) store =
    let (reply, after) = execute (clocks 0) command store in
    let rest = succeeding (λ n. clocks (suc n)) commands after in keep_ok reply command rest

keep_ok-IsCommand :
    (r : Result CommandError Frame) (command : Command) (commands : List Command)
    → IsCommand command
    → All IsCommand commands
    → All IsCommand (keep_ok r command commands)
keep_ok-IsCommand (ok reply) command commands h hs = (h, hs)
keep_ok-IsCommand (err e) command commands h hs = hs

pub succeeding-IsCommand :
    (clocks : ℕ → Clock) (commands : List Command) (store : MemoryStore)
    → All IsCommand commands
    → All IsCommand (succeeding clocks commands store)
succeeding-IsCommand clocks [] store h = tt
succeeding-IsCommand clocks (command ∷ commands) store h =
    keep_ok-IsCommand (execute (clocks 0) command store).0 command _ h.0
      (succeeding-IsCommand (λ n. clocks (suc n)) commands (execute (clocks 0) command store).1 h.1)

durable-lasting :
    (clock : Clock) (command : Command) → IsLasting command → durable clock command ≡ command
durable-lasting clock (expire key secs) h = elim h [ ]
durable-lasting clock (expire_at key unix_seconds) h = elim h [ ]
durable-lasting clock _ h = refl

-- The store after a run, and after a run of the commands of it that succeed and are kept.
Restores : (written other clocks : ℕ → Clock) → List Command → List Command → MemoryStore → Type 0
Restores written other clocks kept_commands commands store =
    (n m : ℕ)
    → (run other (kept written kept_commands) (store, n)).0 ≡ (run clocks commands (store, m)).0

Restores-cons :
    (written other clocks : ℕ → Clock) (command : Command) (commands rest : List Command)
    (store : MemoryStore) (r : Executed) (o : Option Frame)
    → Plain store
    → IsLasting command
    → execute (clocks 0) command store ≡ r
    → to_aof_frame (written 0) command ≡ o
    → ((w v : ℕ → Clock) → Restores w v (λ n. clocks (suc n)) rest commands r.1)
    → Restores written other clocks (keep_ok r.0 command rest) (command ∷ commands) store
unfolding Restores
Restores-cons written other clocks command commands rest store (err x, after) o p l e w ih n m =
    ap (λ s. (run other (kept written rest) (s, n)).0)
      (sym (execute-failed store p (clocks 0) command x after l e))
    ∙ (ih written other n m
        ∙ ap (λ z. (run (λ i. clocks (suc i)) commands (count_if_ok m z)).0) (sym e))
Restores-cons written other clocks command commands rest store (ok reply, after) none p l e w ih n
      m =
    let others = kept (λ i. written (suc i)) rest in
    let same = sym (execute-reads store p (clocks 0) (written 0) command w) ∙ ap (λ z. z.1) e in
    ap (λ o. (run other (keep_if o (durable (written 0) command) others) (store, n)).0) w
    ∙ (ap (λ s. (run other others (s, n)).0) same
        ∙ (ih (λ i. written (suc i)) other n (suc m)
            ∙ ap (λ z. (run (λ i. clocks (suc i)) commands (count_if_ok m z)).0) (sym e)))
Restores-cons written other clocks command commands rest store (ok reply, after) (some frame) p l e
      w ih n m =
    let others = kept (λ i. written (suc i)) rest in
    let again =
      ap (λ c. execute (other 0) c store) (durable-lasting (written 0) command l)
      ∙ ((execute-Plainly store p command l).same (other 0) (clocks 0) ∙ e) in
    ap (λ o. (run other (keep_if o (durable (written 0) command) others) (store, n)).0) w
    ∙ (ap (λ z. (run (λ i. other (suc i)) others (count_if_ok n z)).0) again
        ∙ (ih (λ i. written (suc i)) (λ i. other (suc i)) (suc n) (suc m)
            ∙ ap (λ z. (run (λ i. clocks (suc i)) commands (count_if_ok m z)).0) (sym e)))

succeeding-Restores :
    (written other clocks : ℕ → Clock) (commands : List Command) (store : MemoryStore)
    → Plain store
    → All IsLasting commands
    → Restores written other clocks (succeeding clocks commands store) commands store
succeeding-Restores written other clocks [] store p l = unfold Restores in λ n m. refl
succeeding-Restores written other clocks (command ∷ commands) store p l =
    Restores-cons written other clocks command commands _ store (execute (clocks 0) command store)
      (to_aof_frame (written 0) command) p l.0 refl refl
      λ w v.
        succeeding-Restores w v (λ n. clocks (suc n)) commands (execute (clocks 0) command store).1
          ((execute-Plainly store p command l.0).plain (clocks 0)) l.1

-- From the same store without a memory limit and without deadlines, and for valid commands that set
-- none, replay restores the store that the commands left, whenever it takes place: the file keeps
-- the commands that succeeded, in their order. The frames are small enough to be read back, and the
-- clock of the writes stays below 2 ^ 63 seconds.
pub replay-restores :
    (size : ℕ) (written other clocks : ℕ → Clock) (commands : List Command) (store : MemoryStore)
    → Plain store
    → All IsLasting commands
    → All IsCommand commands
    → ((n i : ℕ) → as_secs (written n i) < 2 ^ 63)
    → AllReadable size (log written (succeeding clocks commands store))
    → (replay size other
        (some (write_items (log written (succeeding clocks commands store))))
        store).1
      ≡ (run clocks commands (store, 0)).0
unfolding Restores
replay-restores size written other clocks commands store p lasting valid early readable =
    ap (λ r. r.1)
      (replay-log size written other (succeeding clocks commands store) store early
        (succeeding-IsCommand clocks commands store valid) readable)
    ∙ succeeding-Restores written other clocks commands store p lasting 0 0
