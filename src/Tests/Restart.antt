-- ===== src/Tests/Restart.antt =====
-- src/server.rs: a server that is stopped and started again.
use aerugo_cache.Aof.Recovery.{succeeding}
use aerugo_cache.Storage.Entry.{is_expired}
use aerugo_cache.Storage.Config.{default_config}
use aerugo_cache.Server.Restart.{epoch, handle_connection-start, executing, AreRequests}
use aerugo_cache.Server.Start.{start}
use aerugo_cache.Aof.Replay.{log}
use aerugo_cache.Text.Decimal.{show_nat}
use aerugo_cache.Server.Answers.{accepts_all}
use aerugo_cache.Storage.Evict.{remove_if_expired, enforce_memory_limit}
use aerugo_cache.Protocol.RoundTrip.{AllReadable}
use aerugo_cache.Text.Utf8.{from_utf8, is_utf8}
use aerugo_cache.Tests.Samples.{seconds_after_epoch}
use aerugo_cache.Storage.Store.{with_config, finish_write, record_evicted}
use aerugo_cache.Prelude.Ascii.{codes, to_ascii_uppercase, to_upper}
use aerugo_cache.Protocol.Torn.Requests.{bulks}
use aerugo_cache.Prelude.Clock.{Clock}
use aerugo_cache.Server.{Server, handle_connection}
use aerugo_cache.Command.Execute.{execute}
use aerugo_cache.Protocol.Encoder.{write_frame, write_items}
use aerugo_cache.Command.Durable.{to_aof_frame, bulk_text}
use aerugo_cache.Aof.{Disk}
use mathlib.Core.Path.{subst}
use aerugo_cache.HashMap.{insert}
use aerugo_cache.Command.Parse.{
  bytes_to_string, from_frame, into_bulk_args, dispatch, one_arg, two_args, keyed,
}
use aerugo_cache.Command.Types.{set, get, Command}
use aerugo_cache.Protocol.Frame.{nil, cons, array, frames, Frames, Frame, count}
use aerugo_cache.Prelude.{
  refl, [], ◌∷◌, some, ok, arith, true, ℕ, List, Bytes, ◌++◌, ◌≡◌, bytes_eq, sym,
}
use aerugo_cache.Storage.Store
use aerugo_cache.HashMap

abbrev set_request : Bytes → Frame
set_request value = array (bulks (codes "SET" ∷ codes "k" ∷ value ∷ []))

abbrev get_request : Frame
get_request = array (bulks (codes "get" ∷ codes "k" ∷ []))

abbrev three_requests : Frames
three_requests =
    cons (set_request (codes "1")) (cons get_request (cons (set_request (codes "2")) nil))

abbrev three_commands : List Command
three_commands = set (codes "k") (codes "1") ∷ get (codes "k") ∷ set (codes "k") (codes "2") ∷ []

abbrev noon : ℕ → Clock
noon n = seconds_after_epoch 43200

requests-AreRequests : AreRequests three_requests three_commands
unfolding from_frame frames into_bulk_args bytes_to_string from_utf8 is_utf8 dispatch
    to_ascii_uppercase to_upper bytes_eq one_arg two_args keyed
requests-AreRequests = (refl, (refl, (refl, tt)))

three_requests-AllReadable : AllReadable 32 three_requests
unfolding frames count
three_requests-AllReadable = (
  (omega arith, omega arith, (omega arith, (omega arith, (omega arith, tt)))),
  (
    (omega arith, omega arith, (omega arith, (omega arith, tt))),
    ((omega arith, omega arith, (omega arith, (omega arith, (omega arith, tt)))), tt),
  ),
)

all_succeed :
    succeeding (executing noon) three_commands (with_config default_config) ≡ three_commands
unfolding execute Store.set Store.get_string with_config remove_if_expired HashMap.get insert
    finish_write enforce_memory_limit bytes_eq is_expired record_evicted
all_succeed = refl

commands-AllReadable : AllReadable 32 (log epoch three_commands)
unfolding to_aof_frame frames count bulk_text
commands-AllReadable = (
  (omega arith, omega arith, (omega arith, (omega arith, (omega arith, tt)))),
  ((omega arith, omega arith, (omega arith, (omega arith, (omega arith, tt)))), tt),
)

abbrev appending : Disk
appending file bytes = (true, file ++ bytes)

abbrev stopped : Server
stopped =
    (handle_connection appending 32 200 noon accepts_all (write_items three_requests)
      (record { store = with_config default_config; aof = some [] })).2

handle_connection-start_example :
    start 32 noon default_config (some (stopped.aof, true)) ≡ ok stopped
unfolding write_frame frames count show_nat
handle_connection-start_example =
    handle_connection-start 32 noon noon three_requests three_commands default_config refl
      requests-AreRequests (tt, (tt, (tt, tt)))
      (subst (λ l. AllReadable 32 (log epoch l)) (sym all_succeed) commands-AllReadable) appending
      200 (λ file bytes. refl) three_requests-AllReadable (omega arith)
