-- ===== src/Server/Recovered.antt =====
-- src/server.rs and src/persistence/aof.rs: what is replayed from the file that interleaved
-- connections leave.
pub mod Frames
use aerugo_cache.Server.Recovered.Frames.{
  kept_command, Parses, kept_command-Parses, Parses-append, Parses-pick, Parses-AllReadable,
  replay_frames-Parses,
}
use aerugo_cache.Protocol.Streams.{write_items-nil}
use aerugo_cache.Server.Log.{Reliable, append_command-grown, grown}
use aerugo_cache.Server.{Server, append_command}
use aerugo_cache.Server.Interleaving.{
  starts, refuses, executes, appends, cleans, Shared, Reaches, frame_list,
}
use aerugo_cache.Aof.{Disk, replay, replay_frame}
use aerugo_cache.Aof.Replay.{replay_frames, run, replay-write_items, replay_frame-ok}
use aerugo_cache.Command.RoundTrip.{durable, from_frame-to_aof_frame}
use aerugo_cache.Command.Durable.{to_aof_frame}
use aerugo_cache.Command.Parse.{from_frame}
use aerugo_cache.Command.Valid.{IsCommand}
use aerugo_cache.Command.Types.{
  ping, echo, set, get, del, exists, expire, expire_at, ttl, persist, lpush, rpush, lpop, rpop,
  lrange, db_size, info, aerugo_stats, aerugo_inspect, Command, CommandError,
}
use aerugo_cache.Protocol.Encoder.{write_frame, write_items}
use aerugo_cache.Protocol.Frame.{Frame, frames}
use aerugo_cache.Protocol.RoundTrip.{IsReadable, AllReadable}
use aerugo_cache.Storage.Store.{MemoryStore}
use aerugo_cache.Prelude.Clock.{Clock, as_secs}
use aerugo_cache.Prelude.{
  refl, suc, [], ◌∷◌, none, some, ok, arith, ℕ, Bytes, List, Option, ◌≡◌, ◌++◌, ◌<◌, ◌^◌, ◌∙◌, sym,
  ap, append-nil, append_assoc,
}
use mathlib.Core.Path.{subst}
use mathlib.Core.List.{Perm, perm_middle}
use mathlib.Core.List.Perm

-- The commands that succeeded on the way to a state, as the file keeps them.
abbrev pub kept_in :
    (disk : Disk) (start : Server) (s : Shared) → Reaches disk start s → List Command
kept_in disk start s starts = []
kept_in disk start s (refuses t clock command e store r valid failed) = kept_in disk start t r
kept_in disk start s (executes t written clock command reply store r valid done) =
    kept_in disk start t r ++ kept_command written command
kept_in disk start s (appends store aof before frame after r) =
    kept_in disk start (record { store = store; aof = aof; pending = before ++ frame ∷ after }) r
kept_in disk start s (cleans t clock r) = kept_in disk start t r

-- The frames that are written on the way to a state are small enough to be read back, under a clock
-- below 2 ^ 63 seconds.
abbrev pub IsReplayable :
    (size : ℕ) (disk : Disk) (start : Server) (s : Shared) → Reaches disk start s → Type 0
IsReplayable size disk start s starts = Unit
IsReplayable size disk start s (refuses t clock command e store r valid failed) =
    IsReplayable size disk start t r
IsReplayable size disk start s (executes t written clock command reply store r valid done) =
    ((i : ℕ) → as_secs (written i) < 2 ^ 63)
    × AllReadable size (frames (frame_list (to_aof_frame written command)))
    × IsReplayable size disk start t r
IsReplayable size disk start s (appends store aof before frame after r) =
    IsReplayable size disk start
      (record { store = store; aof = aof; pending = before ++ frame ∷ after }) r
IsReplayable size disk start s (cleans t clock r) = IsReplayable size disk start t r

-- A file from which exactly these commands are executed again, in this order.
abbrev pub Restores : ℕ → Option Bytes → List Command → Type 0
Restores size aof commands =
    (clocks : ℕ → Clock) (store : MemoryStore)
    → replay size clocks aof store
      ≡ (ok (run clocks commands (store, 0)).1, (run clocks commands (store, 0)).0)

-- The file holds the frames of some of the commands, and those of the others are pending.
abbrev Logged : ℕ → Option Bytes → List Frame → List Command → Type 0
Logged size aof pending commands =
    (xs : List Frame) × (order : List Command) × (rest : List Command) × (aof
      ≡ some (write_items (frames xs)))
    × Parses size xs order
    × Parses size pending rest
    × Perm (order ++ rest) commands

write_items-snoc :
    (xs : List Frame) (frame : Frame)
    → write_items (frames (xs ++ frame ∷ [])) ≡ write_items (frames xs) ++ write_frame frame
unfolding write_frame frames
write_items-snoc [] frame = append-nil (write_frame frame)
write_items-snoc (x ∷ xs) frame =
    rw (write_items-snoc xs frame)
      (sym (append_assoc (write_frame x) (write_items (frames xs)) (write_frame frame)))

module _ (size : ℕ) where
  executed-Logged :
      (aof : Option Bytes) (pending more : List Frame) (commands kept : List Command)
      → Logged size aof pending commands
      → Parses size more kept
      → Logged size aof (pending ++ more) (commands ++ kept)
  executed-Logged aof pending more commands kept (xs, order, rest, e, old, left, perm) h = (
    xs,
    order,
    rest ++ kept,
    e,
    old,
    Parses-append size pending more rest kept left h,
    subst (λ l. Perm l (commands ++ kept)) (append_assoc order rest kept)
        (Perm.append_right kept perm),
  )

  appended-Logged :
      (aof : Option Bytes) (before : List Frame) (frame : Frame) (after : List Frame)
      (commands : List Command)
      → Logged size aof (before ++ frame ∷ after) commands
      → Logged size (grown aof (some frame)) (before ++ after) commands
  appended-Logged aof before frame after commands (xs, order, rest, e, old, left, perm) =
      let (cs, c, ds, all, one, others) = Parses-pick size before frame after rest left in
      (
        xs ++ frame ∷ [],
        order ++ c ∷ [],
        cs ++ ds,
        ap (λ file. grown file (some frame)) e ∙ ap some (sym (write_items-snoc xs frame)),
        Parses-append size xs (frame ∷ []) order (c ∷ []) old one,
        others,
        subst (λ l. Perm l commands) (sym (append_assoc order (c ∷ []) (cs ++ ds)))
            (Perm.trans (Perm.append_left order (Perm.symm (perm_middle cs ds)))
              (subst (λ l. Perm (order ++ l) commands) all perm)),
      )

  Logged-Restores :
      (xs : List Frame) (order : List Command)
      → Parses size xs order
      → Restores size (some (write_items (frames xs))) order
  Logged-Restores xs order h clocks store =
      replay-write_items size clocks (frames xs) store (Parses-AllReadable size xs order h)
      ∙ ap (λ state. (ok state.1, state.0)) (replay_frames-Parses size clocks xs order (store, 0) h)

module _ (size : ℕ) (disk : Disk) (reliable : Reliable disk) (store : MemoryStore) where
  abbrev opened : Server
  opened = record { store = store; aof = some [] }

  Reaches-Logged :
      (s : Shared) (r : Reaches disk opened s)
      → IsReplayable size disk opened s r
      → Logged size s.aof s.pending (kept_in disk opened s r)
  Reaches-Logged s starts h =
      unfold frames in ([], [], [], ap some (sym write_items-nil), tt, tt, Perm.refl [])
  Reaches-Logged s (refuses t clock command e after r valid failed) h = Reaches-Logged t r h
  Reaches-Logged s (executes t written clock command reply after r valid done) (early, small, h) =
      executed-Logged size t.aof t.pending (frame_list (to_aof_frame written command))
        (kept_in disk opened t r) (kept_command written command) (Reaches-Logged t r h)
        (kept_command-Parses size written command early valid small)
  Reaches-Logged s (appends after aof before frame others r) h =
      let state : Shared = record {
        store = after;
        aof = aof;
        pending = before ++ frame ∷ others;
      } in
      let commands = kept_in disk opened state r in
      subst (λ p. Logged size p.1 (before ++ others) commands)
        (sym (append_command-grown disk reliable aof (some frame)))
        (appended-Logged size aof before frame others commands (Reaches-Logged state r h))
  Reaches-Logged s (cleans t clock r) h = Reaches-Logged t r h

  -- However connections and the cleanup task interleave, on a file that is empty at the start and
  -- takes all the bytes: replay of the file executes again, each once and in some order, exactly
  -- the commands that succeeded, without those that only read and with EXPIRE as EXPIREAT, and
  -- without the commands of the frames that are still to be appended. The frames are small enough
  -- to be read back, and the clock of the writes stays below 2 ^ 63 seconds.
  pub Reaches-log :
      (s : Shared) (r : Reaches disk opened s)
      → IsReplayable size disk opened s r
      → (order : List Command) × (rest : List Command) × Perm
          (order ++ rest)
          (kept_in disk opened s r)
        × Parses size s.pending rest
        × Restores size s.aof order
  Reaches-log s r h =
      let (xs, order, rest, e, old, left, perm) = Reaches-Logged s r h in
      (
        order,
        rest,
        perm,
        left,
        subst (λ file. Restores size file order) (sym e) (Logged-Restores size xs order old),
      )
