-- ===== src/Tests/Dashboard.antt =====
-- src/tui.rs: the dashboard against a small server.
use aerugo_cache.Dashboard.Gauge.{gauge_of, percent_of, limit_label}
use aerugo_cache.Prelude.Ascii.{codes}
use aerugo_cache.Text.Float.{show_tenths, round_div, as_f64, excess, f64_ratio, f64_round}
use aerugo_cache.Dashboard.Fetch.{fetch_replies, fetch_snapshot}
use aerugo_cache.Server.Answers.{accepts_all, respond_all, handle_connection-write_items}
use aerugo_cache.Dashboard.Loop.{run_loop-quit}
use aerugo_cache.Dashboard.Shown.{OnLooped, IsFrom, IsInformed, run_loop-Shown}
use aerugo_cache.Protocol.Encoder.{write_frame, write_items}
use aerugo_cache.Dashboard.Format.{
  format_bytes, IsUnit, unit_of, unit_from, unit_name, shown_size, format_bytes-near,
}
use aerugo_cache.Dashboard.App.{
  other_event, key, char, running, ended, run_loop, Fetched, Round, run_rounds, play_round,
  default_app, refresh_if_due, is_due, refresh_snapshot, error_text, client_error_text,
}
use aerugo_cache.Dashboard.{client}
use aerugo_cache.Dashboard.KeysRoundTrip.{HasText, shown_row}
use aerugo_cache.Text.Utf8.{is_utf8}
use aerugo_cache.Dashboard.Serves.{
  requests, server_stats, server_rows, server_peer, fetch_snapshot-handle_connection,
}
use aerugo_cache.Storage.Entry.{
  is_expired, type_name, list_items, payload_bytes, entry_ttl_seconds, entry_estimated_memory_bytes,
  value_memory_bytes, item_bytes,
}
use aerugo_cache.Protocol.RoundTrip.{AllReadable, IsReadable}
use aerugo_cache.Prelude.Words.{wrapping_add, sum_from}
use aerugo_cache.HashMap.{retain}
use aerugo_cache.Storage.Store.{retain_live, record_expired}
use aerugo_cache.Text.Decimal.{show_nat}
use aerugo_cache.Prelude.Clock.{Clock, duration_since}
use aerugo_cache.Tests.Samples.{roomy, seconds_after_epoch}
use aerugo_cache.Command.Execute.{format_stats, inspection_to_frame, integer_frame}
use aerugo_cache.Dashboard.Stats.{parse_stats}
use aerugo_cache.Client.{request, connection_closed, IoError, RespClient}
use aerugo_cache.Dashboard.StatsRoundTrip.{HasWords, shown_stats, parse_stats-format_stats}
use aerugo_cache.Server.{Server, handle_connection}
use aerugo_cache.Aof.{Disk}
use aerugo_cache.Storage.Reports.{
  StoreStats, stats, inspect_keys, build_stats, add_entries, inspect, add_entry, sort_by_key,
  insert_sorted, bytes_lt,
}
use aerugo_cache.Protocol.Frame.{bulk, frames, count, array, Frames}
use aerugo_cache.Storage.Config.{all_keys_random, as_str}
use aerugo_cache.Prelude.{
  none, some, true, refl, ok, arith, ℕ, ◌++◌, ◌≡◌, All, err, false, [], ◌∷◌, ◌*◌, Bytes, ◌^◌, ◌≤◌,
  ◌+◌, map, inl,
}

abbrev figures : StoreStats
figures = record {
  total_keys = 3;
  string_keys = 2;
  list_keys = 1;
  expiring_keys = 1;
  key_bytes = 12;
  payload_bytes = 2048;
  estimated_memory_bytes = 4096;
  list_items = 7;
  max_memory_bytes = some 1048576;
  eviction_policy = all_keys_random;
  expired_keys_cleaned = 0;
  evicted_keys = 10;
  rejected_writes = 4;
}

figures-HasWords : HasWords figures
figures-HasWords = (
  omega arith,
  omega arith,
  omega arith,
  omega arith,
  omega arith,
  omega arith,
  omega arith,
  omega arith,
  omega arith,
  omega arith,
  omega arith,
  omega arith,
)

parse_stats-format_stats_example :
    parse_stats (bulk (format_stats figures)) ≡ ok (shown_stats figures)
parse_stats-format_stats_example = parse_stats-format_stats figures figures-HasWords

abbrev keeps_bytes : Disk
keeps_bytes file bytes = (true, file ++ bytes)

abbrev small_server : Server
small_server = record { store = roomy; aof = none }

abbrev one_o_clock : ℕ → Clock
one_o_clock n = seconds_after_epoch 1

requests-AllReadable : AllReadable 56 (requests 2)
unfolding request frames count show_nat
requests-AllReadable = (
  (omega arith, omega arith, (omega arith, tt)),
  ((omega arith, omega arith, (omega arith, (omega arith, tt))), tt),
)

stats_words : HasWords (server_stats keeps_bytes 56 2 one_o_clock small_server)
unfolding stats build_stats add_entries add_entry wrapping_add retain_live retain is_expired
    record_expired
stats_words = (
  omega arith,
  omega arith,
  omega arith,
  omega arith,
  omega arith,
  omega arith,
  omega arith,
  omega arith,
  tt,
  omega arith,
  omega arith,
  omega arith,
)

rows_text : All HasText (server_rows keeps_bytes 56 2 one_o_clock small_server)
unfolding stats inspect_keys inspect retain_live retain is_expired record_expired sort_by_key
    insert_sorted bytes_lt is_utf8 type_name
rows_text = ((refl, refl), ((refl, refl), tt))

stats-IsReadable :
    IsReadable 56 (bulk (format_stats (server_stats keeps_bytes 56 2 one_o_clock small_server)))
unfolding stats build_stats add_entries add_entry wrapping_add retain_live retain is_expired
    record_expired format_stats show_nat as_str list_items payload_bytes sum_from
    entry_estimated_memory_bytes value_memory_bytes item_bytes
stats-IsReadable = omega arith

rows-IsReadable : IsReadable 56 (
    array
      (frames (map inspection_to_frame (server_rows keeps_bytes 56 2 one_o_clock small_server))))
unfolding stats inspect_keys inspect retain_live retain is_expired record_expired sort_by_key
    insert_sorted bytes_lt type_name frames count inspection_to_frame integer_frame
    entry_ttl_seconds payload_bytes entry_estimated_memory_bytes list_items duration_since
rows-IsReadable = (
  omega arith,
  omega arith,
  (
    (
      omega arith,
      omega arith,
      (omega arith, (omega arith, (omega arith, (omega arith, (omega arith, (omega arith, tt)))))),
    ),
    (
      (
        omega arith,
        omega arith,
        (
          omega arith,
          (omega arith, (omega arith, (omega arith, (omega arith, (omega arith, tt))))),
        ),
      ),
      tt,
    ),
  ),
)

-- Two keys are shown.
fetch_snapshot-handle_connection_example :
    ((connection : RespClient) × (fetch_replies 56 2
          (server_peer keeps_bytes 56 2 one_o_clock small_server 100)
        ≡ ok (
          bulk (format_stats (server_stats keeps_bytes 56 2 one_o_clock small_server)),
          array (
              frames
                (map inspection_to_frame (server_rows keeps_bytes 56 2 one_o_clock small_server))),
          connection,
        ))
      × (connection.sent ≡ write_items (requests 2)))
    × (fetch_snapshot 56 2 (server_peer keeps_bytes 56 2 one_o_clock small_server 100)
        ≡ ok (record {
          stats = shown_stats (server_stats keeps_bytes 56 2 one_o_clock small_server);
          keys = map shown_row (server_rows keeps_bytes 56 2 one_o_clock small_server);
        }))
unfolding request frames count show_nat write_frame
fetch_snapshot-handle_connection_example =
    fetch_snapshot-handle_connection keeps_bytes 56 2 one_o_clock small_server 100 (omega arith)
      requests-AllReadable (omega arith) stats_words rows_text stats-IsReadable rows-IsReadable

abbrev requests_sent : Frames
requests_sent = requests 2

handle_connection-write_items_example :
    handle_connection keeps_bytes 56 100 one_o_clock accepts_all
      (write_items requests_sent)
      small_server
    ≡ (
      ok tt,
      write_items (respond_all keeps_bytes one_o_clock requests_sent small_server).0,
      (respond_all keeps_bytes one_o_clock requests_sent small_server).1,
    )
unfolding request frames count show_nat write_frame
handle_connection-write_items_example =
    handle_connection-write_items keeps_bytes 56 100 one_o_clock requests_sent small_server
      requests-AllReadable (omega arith)

format_bytes-near_example :
    (unit : ℕ) × (tenths : ℕ) × IsUnit 1536 unit
    × (2 * (tenths * 1024 ^ unit) ≤ 2 * (10 * 1536) + 1024 ^ unit)
    × (2 * (10 * 1536) ≤ 2 * (tenths * 1024 ^ unit) + 1024 ^ unit)
    × (format_bytes 1536 ≡ shown_size 1536 unit tenths)
format_bytes-near_example = format_bytes-near 1536 (omega arith)

one_and_a_half : format_bytes 1536 ≡ codes "1.5 KiB"
unfolding format_bytes unit_of unit_from unit_name show_tenths round_div as_f64 excess show_nat
one_and_a_half = refl

-- The loop

abbrev no_snapshot : Fetched
no_snapshot = err (client connection_closed)

abbrev quiet : Round
quiet = record {
  tested_at = 0;
  refreshed_at = 1;
  fetched = no_snapshot;
  drawn = ok tt;
  polled = ok false;
  read = ok other_event;
  retried_at = 2;
  retried = no_snapshot;
}

abbrev pressed : ℕ → Round
pressed c = record quiet { polled = ok true; read = ok (key (char c)) }

abbrev no_text : IoError → Bytes
no_text e = []

run_loop-quit_example :
    run_loop no_text 1000 (quiet ∷ pressed b'r' ∷ [] ++ pressed b'q' ∷ quiet ∷ []) ≡ ended (ok tt)
run_loop-quit_example =
    run_loop-quit no_text 1000 (quiet ∷ pressed b'r' ∷ []) (quiet ∷ []) (pressed b'q')
      (
        (refl, (false, refl), (other_event, refl)),
        ((refl, (true, refl), (key (char b'r'), refl)), tt),
      )
      (refl, (true, refl), (key (char b'q'), refl)) (refl, inl refl)

run_loop-Shown_example :
    OnLooped
      (quiet ∷ pressed b'r' ∷ [])
      (λ app. IsFrom (quiet ∷ pressed b'r' ∷ []) default_app app × IsInformed app)
      (run_loop no_text 1000 (quiet ∷ pressed b'r' ∷ []))
run_loop-Shown_example = run_loop-Shown no_text 1000 (quiet ∷ pressed b'r' ∷ [])

shows_error :
    run_loop no_text 1000 (quiet ∷ [])
    ≡ running (record {
      snapshot = none;
      last_refresh = some 1;
      error = some (codes "server closed the connection");
    })
unfolding run_loop run_rounds play_round refresh_if_due is_due refresh_snapshot error_text
    client_error_text
shows_error = refl

three_quarters : gauge_of 1536 (some 2048) ≡ (75, codes "1.5 KiB / 2.0 KiB (75.0%)")
unfolding gauge_of percent_of limit_label format_bytes unit_of unit_from unit_name show_tenths
    round_div as_f64 excess show_nat f64_ratio f64_round
three_quarters = refl

one_third : gauge_of 1 (some 3) ≡ (33, codes "1 B / 3 B (33.3%)")
unfolding gauge_of percent_of limit_label format_bytes unit_of unit_from unit_name show_tenths
    round_div as_f64 excess show_nat f64_ratio f64_round
one_third = refl

over_limit_clamped : (gauge_of 4096 (some 1024)).0 ≡ 100
unfolding gauge_of percent_of round_div as_f64 excess f64_ratio f64_round
over_limit_clamped = refl
