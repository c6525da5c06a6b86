-- ===== src/Tests/Interleaving.antt =====
-- src/server.rs and src/persistence/aof.rs: two connections that write the same key, and recovery.
use aerugo_cache.Command.Parse.{from_frame, into_bulk_args, dispatch, two_args}
use aerugo_cache.Text.Decimal.{show_nat}
use aerugo_cache.Protocol.Parser.{
  read_frame, read_line, trim_crlf, strip_suffix, match_line, read_array, read_bulk, read_buffer,
}
use aerugo_cache.Aof.{replay, replay_loop, replay_frame}
use aerugo_cache.Protocol.Parser
use aerugo_cache.Command.Parse
use aerugo_cache.Text.Decimal
use aerugo_cache.Storage.Entry.{is_expired}
use aerugo_cache.Storage.Evict.{remove_if_expired, enforce_memory_limit}
use aerugo_cache.Protocol.Encoder.{write_frame}
use aerugo_cache.Prelude.Ascii.{codes, to_ascii_uppercase, to_upper}
use aerugo_cache.Command.Sound.{execute-Sound}
use aerugo_cache.Command.Valid.{IsCommand}
use aerugo_cache.Command.Execute.{execute}
use aerugo_cache.Text.Utf8.{is_utf8, from_utf8}
use aerugo_cache.Storage.Sound.{Sound}
use aerugo_cache.Command.Durable.{to_aof_frame, command_frame, bulk_text}
use aerugo_cache.Storage.Store.{new, MemoryStore, with_config, finish_write, record_evicted}
use aerugo_cache.Prelude.Clock.{Clock, nanos_per_sec, as_secs}
use aerugo_cache.Server.Recovered.{Reaches-log, kept_in, Restores, IsReplayable}
use aerugo_cache.Server.Recovered.Frames.{Parses}
use aerugo_cache.Server.{Server, append_command}
use aerugo_cache.Aof.{Disk}
use aerugo_cache.Protocol.RoundTrip.{AllReadable}
use aerugo_cache.Server.Interleaving.{
  starts, executes, appends, Reaches, Reaches-Sound, Shared, frame_list,
}
use aerugo_cache.HashMap.{get, insert}
use aerugo_cache.Protocol.Frame.{simple, Frame, frames, count}
use aerugo_cache.Command.Types.{set, Command}
use aerugo_cache.Storage.Store
use mathlib.Core.List.{Perm}
use aerugo_cache.Prelude.{
  refl, arith, true, length, [], ◌∷◌, some, ok, Bytes, List, ◌*◌, ◌++◌, ap, ◌≡◌, bytes_eq,
}

abbrev now : Clock
now i = 7 * nanos_per_sec

abbrev key : Bytes
key = codes "k"

abbrev set_of : Bytes → Command
set_of value = set key value

abbrev frame_of : Bytes → Frame
frame_of value = command_frame "SET" (key ∷ value ∷ [])

abbrev first : MemoryStore
first = (execute now (set_of (codes "1")) new).1

abbrev second : MemoryStore
second = (execute now (set_of (codes "2")) first).1

empty-Sound : Sound new.entries
unfolding new with_config get
empty-Sound = record { unique = tt; full = λ j. tt }

key-IsCommand : IsCommand (set_of (codes "1"))
unfolding is_utf8
key-IsCommand = refl

key-IsCommand_second : IsCommand (set_of (codes "2"))
unfolding is_utf8
key-IsCommand_second = refl

first_done : (execute now (set_of (codes "1")) new).0 ≡ ok (simple (codes "OK"))
unfolding execute Store.set new with_config remove_if_expired get insert finish_write
    enforce_memory_limit
first_done = refl

second_done : (execute now (set_of (codes "2")) first).0 ≡ ok (simple (codes "OK"))
unfolding execute Store.set new with_config remove_if_expired get insert finish_write
    enforce_memory_limit bytes_eq is_expired record_evicted
second_done = refl

abbrev takes_all : Disk
takes_all file bytes = (true, file ++ bytes)

abbrev empty_file : Server
empty_file = record { store = new; aof = some [] }

-- Both commands have been executed, and neither is in the file.
both_executed : Reaches takes_all empty_file (record {
  store = second;
  aof = some [];
  pending = frame_of (codes "1") ∷ frame_of (codes "2") ∷ [];
})
unfolding to_aof_frame
both_executed =
    executes (record { store = first; aof = some []; pending = frame_of (codes "1") ∷ [] }) now now
      (set_of (codes "2")) (simple (codes "OK")) second
      (executes (record { store = new; aof = some []; pending = [] }) now now (set_of (codes "1"))
        (simple (codes "OK")) first starts key-IsCommand (ap (λ r. (r, first)) first_done))
      key-IsCommand_second (ap (λ r. (r, second)) second_done)

-- The second connection appends first.
abbrev last_state : Shared
last_state = record {
  store = second;
  aof =
      (append_command takes_all (append_command takes_all (some []) (some (frame_of (codes "2")))).1
        (some (frame_of (codes "1")))).1;
  pending = [];
}

reordered : Reaches takes_all empty_file last_state
reordered =
    appends second (append_command takes_all (some []) (some (frame_of (codes "2")))).1 []
      (frame_of (codes "1")) []
      (appends second (some []) (frame_of (codes "1") ∷ []) (frame_of (codes "2")) [] both_executed)

set_frame-AllReadable :
    (value : Bytes)
    → length value ≡ 1
    → AllReadable 32 (frames (frame_list (to_aof_frame now (set_of value))))
unfolding to_aof_frame frames count bulk_text
set_frame-AllReadable value h =
    ((omega arith, omega arith, (omega arith, (omega arith, (omega arith, tt)))), tt)

reordered-IsReplayable : IsReplayable 32 takes_all empty_file last_state reordered
unfolding reordered both_executed as_secs
reordered-IsReplayable = (
  (λ i. omega arith),
  set_frame-AllReadable (codes "2") refl,
  ((λ i. omega arith), set_frame-AllReadable (codes "1") refl, tt),
)

Reaches-log_example :
    (order : List Command) × (rest : List Command) × Perm
      (order ++ rest)
      (kept_in takes_all empty_file last_state reordered)
    × Parses 32 [] rest
    × Restores 32 last_state.aof order
Reaches-log_example =
    Reaches-log 32 takes_all (λ file bytes. refl) new last_state reordered reordered-IsReplayable

Reaches-Sound_example : Sound second.entries
Reaches-Sound_example = Reaches-Sound takes_all empty_file last_state empty-Sound reordered

execute-Sound_example : Sound first.entries
execute-Sound_example = execute-Sound now (set_of (codes "1")) new key-IsCommand empty-Sound

-- The store holds the value of the second command, and the file restores that of the first.
store_is_newer : (Store.get_string now key second).0 ≡ ok (some (codes "2"))
unfolding execute Store.set new with_config remove_if_expired get insert finish_write
    enforce_memory_limit bytes_eq is_expired record_evicted Store.get_string
store_is_newer = refl

file_is_older :
    (Store.get_string now key
      (replay 32
        (λ n. now)
        (some (([] ++ write_frame (frame_of (codes "2"))) ++ write_frame (frame_of (codes "1"))))
        new).1).0
    ≡ ok (some (codes "1"))
unfolding replay replay_loop replay_frame read_frame read_line trim_crlf strip_suffix bytes_eq
    match_line read_array read_bulk read_buffer Parser.parse_usize Parser.parse_i64
    Parser.bytes_to_string from_utf8 is_utf8 Decimal.parse_usize Decimal.parse_unsigned
    Decimal.parse_i64 write_frame show_nat frames bulk_text from_frame into_bulk_args
    Parse.bytes_to_string dispatch to_ascii_uppercase to_upper two_args execute Store.set new
    with_config remove_if_expired get insert finish_write enforce_memory_limit is_expired
    record_evicted Store.get_string count
file_is_older = refl
