-- ===== src/Server/Recovered/Frames.antt =====
-- src/command.rs and src/persistence/aof.rs: the frames of the file, and the commands that they are
-- parsed to.
use aerugo_cache.Server.Interleaving.{frame_list}
use aerugo_cache.Aof.Replay.{replay_frames, run, replay_frame-ok}
use aerugo_cache.Command.RoundTrip.{durable, from_frame-to_aof_frame}
use aerugo_cache.Command.Durable.{to_aof_frame}
use aerugo_cache.Command.Parse.{from_frame}
use aerugo_cache.Command.Valid.{IsCommand}
use aerugo_cache.Command.Types.{
  ping, echo, set, get, del, exists, expire, expire_at, ttl, persist, lpush, rpush, lpop, rpop,
  lrange, db_size, info, aerugo_stats, aerugo_inspect, Command,
}
use aerugo_cache.Protocol.Frame.{Frame, frames}
use aerugo_cache.Protocol.RoundTrip.{IsReadable, AllReadable}
use aerugo_cache.Storage.Store.{MemoryStore}
use aerugo_cache.Prelude.Clock.{Clock, as_secs}
use aerugo_cache.Prelude.{refl, suc, [], ◌∷◌, ok, ℕ, List, ◌≡◌, ◌++◌, ◌<◌, ◌^◌, ◌∙◌, ap}

-- What the file keeps of a command that succeeded: the command itself, EXPIRE with its deadline, and
-- nothing of a command that only reads.
abbrev pub kept_command : Clock → Command → List Command
kept_command clock (ping m) = []
kept_command clock (echo m) = []
kept_command clock (set key value) = set key value ∷ []
kept_command clock (get key) = []
kept_command clock (del ks) = del ks ∷ []
kept_command clock (exists ks) = []
kept_command clock (expire key secs) = durable clock (expire key secs) ∷ []
kept_command clock (expire_at key deadline) = expire_at key deadline ∷ []
kept_command clock (ttl key) = []
kept_command clock (persist key) = persist key ∷ []
kept_command clock (lpush key values) = lpush key values ∷ []
kept_command clock (rpush key values) = rpush key values ∷ []
kept_command clock (lpop key) = lpop key ∷ []
kept_command clock (rpop key) = rpop key ∷ []
kept_command clock (lrange key a b) = []
kept_command clock db_size = []
kept_command clock info = []
kept_command clock aerugo_stats = []
kept_command clock (aerugo_inspect n) = []

-- Frames that can be read back, and the commands that they are parsed to.
abbrev pub Parses : ℕ → List Frame → List Command → Type 0
Parses size [] [] = Unit
Parses size [] (command ∷ commands) = ⊥
Parses size (frame ∷ xs) [] = ⊥
Parses size (frame ∷ xs) (command ∷ commands) =
    (from_frame frame ≡ ok command) × IsReadable size frame × Parses size xs commands

pub kept_command-Parses :
    (size : ℕ) (clock : Clock) (command : Command)
    → ((i : ℕ) → as_secs (clock i) < 2 ^ 63)
    → IsCommand command
    → AllReadable size (frames (frame_list (to_aof_frame clock command)))
    → Parses size (frame_list (to_aof_frame clock command)) (kept_command clock command)
unfolding to_aof_frame frames
kept_command-Parses size clock (ping m) early h small = tt
kept_command-Parses size clock (echo m) early h small = tt
kept_command-Parses size clock (set key value) early h small =
    (from_frame-to_aof_frame clock (set key value) _ early h refl, small.0, tt)
kept_command-Parses size clock (get key) early h small = tt
kept_command-Parses size clock (del ks) early h small =
    (from_frame-to_aof_frame clock (del ks) _ early h refl, small.0, tt)
kept_command-Parses size clock (exists ks) early h small = tt
kept_command-Parses size clock (expire key secs) early h small =
    (from_frame-to_aof_frame clock (expire key secs) _ early h refl, small.0, tt)
kept_command-Parses size clock (expire_at key deadline) early h small =
    (from_frame-to_aof_frame clock (expire_at key deadline) _ early h refl, small.0, tt)
kept_command-Parses size clock (ttl key) early h small = tt
kept_command-Parses size clock (persist key) early h small =
    (from_frame-to_aof_frame clock (persist key) _ early h refl, small.0, tt)
kept_command-Parses size clock (lpush key values) early h small =
    (from_frame-to_aof_frame clock (lpush key values) _ early h refl, small.0, tt)
kept_command-Parses size clock (rpush key values) early h small =
    (from_frame-to_aof_frame clock (rpush key values) _ early h refl, small.0, tt)
kept_command-Parses size clock (lpop key) early h small =
    (from_frame-to_aof_frame clock (lpop key) _ early h refl, small.0, tt)
kept_command-Parses size clock (rpop key) early h small =
    (from_frame-to_aof_frame clock (rpop key) _ early h refl, small.0, tt)
kept_command-Parses size clock (lrange key a b) early h small = tt
kept_command-Parses size clock db_size early h small = tt
kept_command-Parses size clock info early h small = tt
kept_command-Parses size clock aerugo_stats early h small = tt
kept_command-Parses size clock (aerugo_inspect n) early h small = tt

module _ (size : ℕ) where
  pub Parses-append :
      (xs ys : List Frame) (cs ds : List Command)
      → Parses size xs cs
      → Parses size ys ds
      → Parses size (xs ++ ys) (cs ++ ds)
  Parses-append [] ys [] ds h h' = h'
  Parses-append [] ys (c ∷ cs) ds h h' = absurd h
  Parses-append (x ∷ xs) ys [] ds h h' = absurd h
  Parses-append (x ∷ xs) ys (c ∷ cs) ds (e, small, h) h' =
      (e, small, Parses-append xs ys cs ds h h')

  -- The commands of frames in the midst of which one is picked.
  pub Parses-pick :
      (before : List Frame) (frame : Frame) (after : List Frame) (commands : List Command)
      → Parses size (before ++ frame ∷ after) commands
      → (cs : List Command) × (c : Command) × (ds : List Command) × (commands ≡ cs ++ c ∷ ds)
        × Parses size (frame ∷ []) (c ∷ [])
        × Parses size (before ++ after) (cs ++ ds)
  Parses-pick [] frame after [] h = absurd h
  Parses-pick [] frame after (c ∷ ds) (e, small, h) = ([], c, ds, refl, (e, small, tt), h)
  Parses-pick (x ∷ before) frame after [] h = absurd h
  Parses-pick (x ∷ before) frame after (k ∷ commands) (e, small, h) =
      let (cs, c, ds, all, one, others) = Parses-pick before frame after commands h in
      (k ∷ cs, c, ds, ap (λ l. k ∷ l) all, one, (e, small, others))

  pub Parses-AllReadable :
      (xs : List Frame) (cs : List Command) → Parses size xs cs → AllReadable size (frames xs)
  unfolding frames
  Parses-AllReadable [] cs h = tt
  Parses-AllReadable (x ∷ xs) [] h = absurd h
  Parses-AllReadable (x ∷ xs) (c ∷ cs) (e, small, h) = (small, Parses-AllReadable xs cs h)

  pub replay_frames-Parses :
      (clocks : ℕ → Clock) (xs : List Frame) (cs : List Command) (state : MemoryStore × ℕ)
      → Parses size xs cs
      → replay_frames clocks (frames xs) state ≡ run clocks cs state
  unfolding frames
  replay_frames-Parses clocks [] [] state h = refl
  replay_frames-Parses clocks [] (c ∷ cs) state h = absurd h
  replay_frames-Parses clocks (x ∷ xs) [] state h = absurd h
  replay_frames-Parses clocks (x ∷ xs) (c ∷ cs) state (e, small, h) =
      ap (replay_frames (λ n. clocks (suc n)) (frames xs)) (replay_frame-ok (clocks 0) x c state e)
      ∙ replay_frames-Parses (λ n. clocks (suc n)) xs cs _ h
