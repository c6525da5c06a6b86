-- ===== src/Dashboard/Fetch.antt =====
-- src/tui.rs: `fetch_snapshot`, one connection and two commands.
use aerugo_cache.Dashboard.Keys.{parse_keys}
use aerugo_cache.Text.Decimal.{show_nat}
use aerugo_cache.Dashboard.Stats.{parse_stats}
use aerugo_cache.Prelude.Ascii.{codes}
use aerugo_cache.Client.{ClientError, connect, command, RespClient}
use aerugo_cache.Protocol.Frame.{Frame}
use aerugo_cache.Dashboard.{client, DashboardError, DashboardSnapshot}
use aerugo_cache.Prelude.{◌>>=◌, ok, err, [], ◌∷◌, List, Bool, Result, ℕ, Bytes}

-- The server as the dashboard meets it: whether it takes the connection and each of the requests, and
-- all that it sends.
pub record Peer : Type 0 where
  pub reachable : Bool
  pub takes : ℕ → Bool
  pub answers : Bytes

-- `?` on a result of the client.
abbrev pub of_client : {A : Type 0} → Result ClientError A → Result DashboardError A
of_client (ok a) = ok a
of_client (err e) = err (client e)

abbrev pub stats_request : List Bytes
stats_request = codes "AERUGO.STATS" ∷ []

abbrev pub inspect_request : ℕ → List Bytes
inspect_request key_limit = codes "AERUGO.INSPECT" ∷ show_nat key_limit ∷ []

-- Both replies are read before either is parsed.
abbrev pub snapshot_of : Frame → Frame → Result DashboardError DashboardSnapshot
snapshot_of stats keys = do
  stats ← parse_stats stats
  keys ← parse_keys keys
  ok (record { stats = stats; keys = keys })

-- The replies to the two commands, and the connection behind them.
unfoldable pub fetch_replies : ℕ → ℕ → Peer → Result DashboardError (Frame × Frame × RespClient)
fetch_replies frame_size key_limit peer = do
  connection ← of_client (connect peer.reachable peer.answers)
  (stats, connection) ← of_client (command frame_size (peer.takes 0) stats_request connection)
  (keys, connection) ←
      of_client (command frame_size (peer.takes 1) (inspect_request key_limit) connection)
  ok (stats, keys, connection)

unfoldable pub fetch_snapshot : ℕ → ℕ → Peer → Result DashboardError DashboardSnapshot
fetch_snapshot frame_size key_limit peer = do
  (stats, keys, connection) ← fetch_replies frame_size key_limit peer
  snapshot_of stats keys
