-- ===== src/Dashboard/Serves.antt =====
-- src/tui.rs and src/server.rs: what the dashboard fetches from a server.
use aerugo_cache.Dashboard.KeysRoundTrip.{HasText, shown_row, parse_keys-inspection}
use aerugo_cache.Dashboard.StatsRoundTrip.{HasWords, shown_stats, parse_stats-format_stats}
use aerugo_cache.Protocol.Streams.{write_items-cons, write_items-nil}
use aerugo_cache.Client.Replies.{command-reply}
use aerugo_cache.Protocol.Encoder.{write_items, write_frame}
use aerugo_cache.Protocol.RoundTrip.{IsReadable, AllReadable}
use aerugo_cache.Server.Answers.{respond_all, accepts_all, handle_connection-write_items}
use aerugo_cache.Protocol.Frame.{bulk, array, frames, Frames, cons, Frame, nil}
use aerugo_cache.Text.Utf8.{is_utf8}
use aerugo_cache.Storage.Store.{MemoryStore}
use aerugo_cache.Storage.Reports.{StoreStats, KeyInspection, inspect_keys, stats}
use aerugo_cache.Command.Execute.{execute, format_stats, inspection_to_frame}
use aerugo_cache.Text.Decimal.{u64_max, show_nat, parse_unsigned-show_nat}
use aerugo_cache.Command.Durable.{to_aof_frame, bulk_text}
use aerugo_cache.Aof.{Disk}
use aerugo_cache.Prelude.Clock.{Clock, later}
use aerugo_cache.Server.{append_command, respond, Server, handle_connection}
use aerugo_cache.Prelude.Ascii.{to_ascii_uppercase, to_upper}
use aerugo_cache.Text.Decimal
use aerugo_cache.Command.Parse
use aerugo_cache.Command.Parse.{from_frame, no_args, dispatch}
use aerugo_cache.Command.RoundTrip.{show_nat-IsText, bytes_to_string_text, from_frame-command_frame}
use aerugo_cache.Command.Types.{aerugo_stats, aerugo_inspect}
use aerugo_cache.Client.{request, connect, RespClient}
use aerugo_cache.Dashboard.Fetch.{
  stats_request, inspect_request, fetch_snapshot, fetch_replies, Peer,
}
use aerugo_cache.Prelude.{
  ok, [], ◌∷◌, none, some, true, refl, ◌∙◌, ℕ, ◌≤◌, Option, bytes_eq, List, Bytes, ◌≡◌, map, ◌++◌,
  length, ap, ◌<◌, All, append-nil, sym,
}

append_command-none :
    (disk : Disk) (aof : Option Bytes) → append_command disk aof none ≡ (true, aof)
unfolding append_command
append_command-none disk none = refl
append_command-none disk (some file) = refl

from_frame-stats : from_frame (request stats_request) ≡ ok aerugo_stats
unfolding request dispatch to_ascii_uppercase to_upper bytes_eq no_args is_utf8 bulk_text
from_frame-stats = from_frame-command_frame "AERUGO.STATS" [] refl

parse_usize-show_nat : (n : ℕ) → n ≤ u64_max → Parse.parse_usize (show_nat n) ≡ ok n
unfolding Parse.parse_usize Decimal.parse_usize
parse_usize-show_nat n h =
    rw (bytes_to_string_text (show_nat n) (show_nat-IsText n), parse_unsigned-show_nat u64_max n h)

from_frame-inspect :
    (limit : ℕ)
    → limit ≤ u64_max
    → from_frame (request (inspect_request limit)) ≡ ok (aerugo_inspect limit)
unfolding request dispatch to_ascii_uppercase to_upper bytes_eq Parse.inspect_args is_utf8 bulk_text
from_frame-inspect limit h =
    from_frame-command_frame "AERUGO.INSPECT" (show_nat limit ∷ []) refl
    ∙ rw (parse_usize-show_nat limit h)

abbrev stats_at : Clock → Server → StoreStats × MemoryStore
stats_at clock server = stats (later 2 clock) server.store

abbrev rows_at : Clock → ℕ → Server → List KeyInspection × MemoryStore
rows_at clock limit server = inspect_keys (later 2 clock) limit server.store

respond-stats :
    (disk : Disk) (clock : Clock) (server : Server)
    → respond disk clock (request stats_request) server ≡ (
      bulk (format_stats (stats_at clock server).0),
      record { store = (stats_at clock server).1; aof = server.aof },
    )
unfolding respond to_aof_frame execute
respond-stats disk clock server = rw (from_frame-stats, append_command-none disk server.aof)

respond-inspect :
    (disk : Disk) (clock : Clock) (limit : ℕ) (server : Server)
    → limit ≤ u64_max
    → respond disk clock (request (inspect_request limit)) server ≡ (
      array (frames (map inspection_to_frame (rows_at clock limit server).0)),
      record { store = (rows_at clock limit server).1; aof = server.aof },
    )
unfolding respond to_aof_frame execute
respond-inspect disk clock limit server h =
    rw (from_frame-inspect limit h, append_command-none disk server.aof)

-- What the dashboard asks for.
abbrev pub requests : ℕ → Frames
requests limit = cons (request stats_request) (cons (request (inspect_request limit)) nil)

fetch_replies-answers :
    (size limit : ℕ) (first second : Frame)
    → IsReadable size first
    → IsReadable size second
    → fetch_replies size limit (record {
      reachable = true;
      takes = accepts_all;
      answers = write_items (cons first (cons second nil));
    })
      ≡ ok (
        first,
        second,
        record { sent = write_items (requests limit); incoming = write_items nil },
      )
unfolding fetch_replies connect
fetch_replies-answers size limit first second h k =
    rw
      (
        command-reply size stats_request [] first (cons second nil) h,
        command-reply size (inspect_request limit) (write_frame (request stats_request)) second nil
            k,
      )
      (ap (λ sent. ok (first, second, record { sent = sent; incoming = write_items nil }))
        (sym sent_requests))
  where
    sent_requests :
        write_items (requests limit)
        ≡ write_frame (request stats_request) ++ write_frame (request (inspect_request limit))
    sent_requests =
        write_items-cons (request stats_request) (cons (request (inspect_request limit)) nil)
        ∙ ap (λ rest. write_frame (request stats_request) ++ rest)
            (write_items-cons (request (inspect_request limit)) nil
              ∙ ap (λ rest. write_frame (request (inspect_request limit)) ++ rest) write_items-nil
              ∙ append-nil (write_frame (request (inspect_request limit))))

module _ (disk : Disk) (size limit : ℕ) (clocks : ℕ → Clock) (server : Server) where
  abbrev pub server_stats : StoreStats
  server_stats = (stats_at (clocks 0) server).0

  abbrev behind : Server
  behind = record { store = (stats_at (clocks 0) server).1; aof = server.aof }

  abbrev pub server_rows : List KeyInspection
  server_rows = (rows_at (clocks 1) limit behind).0

  replies_frames :
      limit ≤ u64_max
      → (respond_all disk clocks (requests limit) server).0
        ≡ cons
            (bulk (format_stats server_stats))
            (cons (array (frames (map inspection_to_frame server_rows))) nil)
  replies_frames h =
      rw (respond-stats disk (clocks 0) server, respond-inspect disk (clocks 1) limit behind h)

  -- The server, as a peer that sends what a connection answers to the requests of the dashboard.
  abbrev pub server_peer : ℕ → Peer
  server_peer fuel = record {
    reachable = true;
    takes = accepts_all;
    answers =
        (handle_connection disk size fuel clocks accepts_all (write_items (requests limit))
          server).1;
  }

  answers-requests :
      (fuel : ℕ)
      → limit ≤ u64_max
      → AllReadable size (requests limit)
      → length (write_items (requests limit)) < fuel
      → (server_peer fuel).answers
        ≡ write_items (
            cons
              (bulk (format_stats server_stats))
              (cons (array (frames (map inspection_to_frame server_rows))) nil))
  answers-requests fuel h readable less =
      ap (λ handled. handled.1)
        (handle_connection-write_items disk size fuel clocks (requests limit) server readable less)
      ∙ ap write_items (replies_frames h)

  -- The dashboard, connected to a server that takes its requests, sends the two requests that the server
  -- answers, and shows the statistics of the server's store and its first rows, up to the limit. The
  -- figures fit in 64 bits, the keys are text, and the requests and replies are small enough to be
  -- read.
  pub fetch_snapshot-handle_connection :
      (fuel : ℕ)
      → limit ≤ u64_max
      → AllReadable size (requests limit)
      → length (write_items (requests limit)) < fuel
      → HasWords server_stats
      → All HasText server_rows
      → IsReadable size (bulk (format_stats server_stats))
      → IsReadable size (array (frames (map inspection_to_frame server_rows)))
      → ((connection : RespClient) × (fetch_replies size limit (server_peer fuel)
            ≡ ok (
              bulk (format_stats server_stats),
              array (frames (map inspection_to_frame server_rows)),
              connection,
            ))
          × (connection.sent ≡ write_items (requests limit)))
        × (fetch_snapshot size limit (server_peer fuel)
            ≡ ok (record { stats = shown_stats server_stats; keys = map shown_row server_rows }))
  unfolding fetch_snapshot
  fetch_snapshot-handle_connection fuel h readable less words text first second =
      let stats = bulk (format_stats server_stats) in
      let keys = array (frames (map inspection_to_frame server_rows)) in
      let connection : RespClient = record {
        sent = write_items (requests limit);
        incoming = write_items nil;
      } in
      let replies : fetch_replies size limit (server_peer fuel) ≡ ok (stats, keys, connection) =
        ap
          (λ answers.
            fetch_replies size limit
              (record { reachable = true; takes = accepts_all; answers = answers }))
          (answers-requests fuel h readable less)
        ∙ fetch_replies-answers size limit stats keys first second in
      (
        (connection, replies, refl),
        rw replies (
            rw (
              parse_stats-format_stats server_stats words,
              parse_keys-inspection server_rows text,
            )),
      )
