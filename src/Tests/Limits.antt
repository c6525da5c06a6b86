-- ===== src/Tests/Limits.antt =====
-- src/storage.rs and src/server.rs: the memory limit, and a file that broke off.
use aerugo_cache.Prelude.Clock.{subsec_nanos}
use aerugo_cache.Storage.Entry.{
  is_expired, estimated_memory_bytes, entry_estimated_memory_bytes, value_memory_bytes, item_bytes,
}
use aerugo_cache.Command.Durable.{to_aof_frame}
use aerugo_cache.Storage.Sound.{Sound, insert-Sound}
use aerugo_cache.Command.Valid.{IsCommand}
use aerugo_cache.Server.Limits.{Reaches-Bounded}
use aerugo_cache.Storage.Store.{MemoryStore, finish_write, record_evicted}
use aerugo_cache.Storage.Evict.{
  remove_if_expired, enforce_memory_limit, evict_until_within_limit, evict_loop, pick_eviction_key,
  is_candidate,
}
use aerugo_cache.Text.Utf8.{is_utf8}
use aerugo_cache.Storage.Store
use aerugo_cache.Aof.{Disk}
use aerugo_cache.Server.{Server}
use aerugo_cache.HashMap.{get, insert, keys, remove}
use aerugo_cache.Server.Interleaving.{starts, executes, Reaches, frame_list}
use aerugo_cache.Command.Bounded.{execute-Bounded}
use aerugo_cache.Protocol.Torn.{IsTorn}
use aerugo_cache.Storage.Config.{default_config}
use aerugo_cache.Text.Decimal.{show_nat}
use aerugo_cache.Protocol.RoundTrip.{IsReadable, AllReadable}
use aerugo_cache.Protocol.Torn.Requests.{bulks}
use aerugo_cache.Prelude.Ascii.{codes}
use aerugo_cache.Command.Execute.{execute}
use aerugo_cache.Prelude.Words.{exact_sum, sum_from, wrapping_add}
use aerugo_cache.Tests.Samples.{
  seconds_after_epoch, evicting, two_rows-IsMap, two_rows, key_l, row_l, row_a, key_a,
}
use aerugo_cache.Storage.Memory.{memory_size, value_size, item_size}
use aerugo_cache.Protocol.Parser.{ReadError}
use aerugo_cache.Storage.Memory.Limit.{Bounded}
use aerugo_cache.Protocol.Encoder.{write_frame, write_items, crlf}
use aerugo_cache.Server.Start.{start, unreadable, start-torn}
use aerugo_cache.Command.Types.{set}
use aerugo_cache.Protocol.Frame.{nil, cons, array, frames, Frames, count, simple}
use aerugo_cache.Prelude.{
  refl, [], ◌∷◌, some, err, arith, true, List, Bytes, ◌++◌, ◌≡◌, bytes_eq, ap, ok, filter_by, false,
}

-- The two rows of the sample take 181 bytes.
evicting-Bounded : Bounded 190 evicting
unfolding memory_size exact_sum value_size item_size
evicting-Bounded = record { limit = refl; within = omega arith }

abbrev long_value : Bytes
long_value = codes "0123456789"

execute-Bounded_example :
    Bounded 190 (execute (seconds_after_epoch 1) (set (codes "b") long_value) evicting).1
execute-Bounded_example =
    execute-Bounded 190 (seconds_after_epoch 1) (set (codes "b") long_value) evicting two_rows-IsMap
      (omega arith) evicting-Bounded

-- Torn files

abbrev set_args : List Bytes
set_args = codes "SET" ∷ codes "k" ∷ codes "v" ∷ []

abbrev whole : Frames
whole = cons (array (bulks (codes "DEL" ∷ codes "k" ∷ []))) nil

whole-AllReadable : AllReadable 32 whole
unfolding frames count
whole-AllReadable = ((omega arith, omega arith, (omega arith, (omega arith, tt))), tt)

set-IsReadable : IsReadable 32 (array (bulks set_args))
unfolding frames count
set-IsReadable = (omega arith, omega arith, (omega arith, (omega arith, (omega arith, tt))))

-- The request breaks off behind its first argument.
abbrev part : Bytes
part = codes "*3" ++ (crlf ++ (codes "$3" ++ (crlf ++ (codes "SET" ++ crlf))))

abbrev missing_part : Bytes
missing_part =
    codes "$1" ++ (crlf ++ (codes "k" ++ (crlf ++ (codes "$1" ++ (crlf ++ (codes "v" ++ crlf))))))

part-IsTorn : IsTorn part (write_frame (array (bulks set_args)))
unfolding write_frame frames count show_nat
part-IsTorn = (missing_part, (λ e. cc), refl)

start-torn_example :
    (e : ReadError) × (start 32
        (λ n. seconds_after_epoch 1)
        default_config
        (some (some (write_items whole ++ part), true))
      ≡ err (unreadable e))
start-torn_example =
    start-torn 32 (λ n. seconds_after_epoch 1) default_config true whole set_args part
      whole-AllReadable set-IsReadable (λ e. cc) (λ e. cc) part-IsTorn

-- Interleaved connections

two_rows-Sound : Sound two_rows
unfolding insert bytes_eq get
two_rows-Sound =
    insert-Sound key_l row_l.1 (row_a ∷ []) tt
      (insert-Sound key_a row_a.1 [] tt (record { unique = tt; full = λ j. tt }))

abbrev after_set : MemoryStore
after_set = (execute (seconds_after_epoch 1) (set (codes "b") long_value) evicting).1

set_done :
    (execute (seconds_after_epoch 1) (set (codes "b") long_value) evicting).0
    ≡ ok (simple (codes "OK"))
unfolding execute Store.set remove_if_expired get insert finish_write enforce_memory_limit bytes_eq
    is_expired record_evicted estimated_memory_bytes evict_until_within_limit evict_loop
    pick_eviction_key sum_from wrapping_add entry_estimated_memory_bytes value_memory_bytes
    item_bytes filter_by keys is_candidate subsec_nanos remove
set_done = refl

set-IsCommand : IsCommand (set (codes "b") long_value)
unfolding is_utf8
set-IsCommand = refl

-- A file system that takes nothing.
abbrev fails : Disk
fails file bytes = (false, file)

abbrev evicting_server : Server
evicting_server = record { store = evicting; aof = some [] }

set_reached : Reaches fails evicting_server (record {
  store = after_set;
  aof = some [];
  pending = [] ++ frame_list (to_aof_frame (seconds_after_epoch 1) (set (codes "b") long_value));
})
set_reached =
    executes (record { store = evicting; aof = some []; pending = [] }) (seconds_after_epoch 1)
      (seconds_after_epoch 1) (set (codes "b") long_value) (simple (codes "OK")) after_set starts
      set-IsCommand (ap (λ reply. (reply, after_set)) set_done)

Reaches-Bounded_example : Bounded 190 after_set
unfolding set_reached
Reaches-Bounded_example =
    Reaches-Bounded 190 fails evicting_server
      (record {
        store = after_set;
        aof = some [];
        pending =
            [] ++ frame_list (to_aof_frame (seconds_after_epoch 1) (set (codes "b") long_value));
      })
      two_rows-Sound evicting-Bounded set_reached (omega arith, tt)
