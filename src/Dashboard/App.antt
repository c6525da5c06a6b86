-- ===== src/Dashboard/App.antt =====
-- src/tui.rs: `refresh_snapshot` and `run_loop`. What the server and the terminal do in a round of the
-- loop is data of the round.
use aerugo_cache.Prelude.Ascii.{codes}
use aerugo_cache.Dashboard.{
  client, invalid_stats, invalid_inspect, DashboardError, DashboardSnapshot,
}
use aerugo_cache.Client
use aerugo_cache.Dashboard
use aerugo_cache.Client.{connection_closed, server, IoError, ClientError}
use aerugo_cache.Prelude.{
  ok, err, [], ◌∷◌, none, some, true, false, Option, Bool, Result, ℕ, leb, ◌==◌, Bytes, List, ◌-◌,
  if◌then◌else◌, ◌++◌,
}

abbrev pub Fetched : Type 0
Fetched = Result DashboardError DashboardSnapshot

-- `Instant` counts nanoseconds.
pub record DashboardApp : Type 0 where
  pub snapshot : Option DashboardSnapshot
  pub last_refresh : Option ℕ
  pub error : Option Bytes

-- `DashboardApp::default`
abbrev pub default_app : DashboardApp
default_app = record { snapshot = none; last_refresh = none; error = none }

-- `Display` of the errors. The texts of the sockets' errors are the platform's: a parameter.
unfoldable pub client_error_text : (IoError → Bytes) → ClientError → Bytes
client_error_text io_text (Client.io e) = io_text e
client_error_text io_text connection_closed = codes "server closed the connection"
client_error_text io_text (server text) = codes "server error: " ++ text

unfoldable pub error_text : (IoError → Bytes) → DashboardError → Bytes
error_text io_text (Dashboard.io text) = text
error_text io_text (client e) = client_error_text io_text e
error_text io_text (invalid_stats text) = codes "invalid stats response: " ++ text
error_text io_text (invalid_inspect text) = codes "invalid inspect response: " ++ text

unfoldable pub refresh_snapshot : (IoError → Bytes) → ℕ → Fetched → DashboardApp → DashboardApp
refresh_snapshot io_text now (ok snapshot) app = record {
  snapshot = some snapshot;
  last_refresh = some now;
  error = none;
}
refresh_snapshot io_text now (err e) app = record app {
  last_refresh = some now;
  error = some (error_text io_text e);
}

pub data KeyCode : Type 0 where
  char : ℕ → KeyCode
  esc other_key : KeyCode

pub data Event : Type 0 where
  key : KeyCode → Event
  other_event : Event

-- A round: the instant of the test, and of a refresh with what it fetches; what the terminal says to
-- the drawing; what `poll` says, and `read` if there is an event; and, for the key `r`, the instant
-- of another refresh with what it fetches.
pub record Round : Type 0 where
  pub tested_at : ℕ
  pub refreshed_at : ℕ
  pub fetched : Fetched
  pub drawn : Result Bytes Unit
  pub polled : Result Bytes Bool
  pub read : Result Bytes Event
  pub retried_at : ℕ
  pub retried : Fetched

-- How a round goes on.
pub data Next : Type 0 where
  continues : DashboardApp → Next
  quits : Next
  fails : DashboardError → Next

-- `elapsed` is no less than zero.
unfoldable pub is_due : ℕ → ℕ → Option ℕ → Bool
is_due interval now none = true
is_due interval now (some last) = leb interval (now - last)

unfoldable pub refresh_if_due : (IoError → Bytes) → ℕ → Round → DashboardApp → DashboardApp
refresh_if_due io_text interval round app =
    if is_due interval round.tested_at app.last_refresh
    then refresh_snapshot io_text round.refreshed_at round.fetched app
    else app

unfoldable pub is_quit_key : KeyCode → Bool
is_quit_key (char c) = c == b'q'
is_quit_key esc = true
is_quit_key other_key = false

unfoldable pub is_retry_key : KeyCode → Bool
is_retry_key (char c) = c == b'r'
is_retry_key esc = false
is_retry_key other_key = false

unfoldable pub handle_event : (IoError → Bytes) → Round → DashboardApp → Event → Next
handle_event io_text round app (key code) =
    if is_quit_key code
    then quits
    else if is_retry_key code
    then continues (refresh_snapshot io_text round.retried_at round.retried app)
    else continues app
handle_event io_text round app other_event = continues app

abbrev pub on_read : (DashboardApp → Event → Next) → Result Bytes Event → DashboardApp → Next
on_read handle (err text) app = fails (Dashboard.io text)
on_read handle (ok event) app = handle app event

abbrev pub on_poll : (DashboardApp → Next) → Result Bytes Bool → DashboardApp → Next
on_poll read (err text) app = fails (Dashboard.io text)
on_poll read (ok false) app = continues app
on_poll read (ok true) app = read app

abbrev pub on_draw : (DashboardApp → Next) → Result Bytes Unit → DashboardApp → Next
on_draw poll (err text) app = fails (Dashboard.io text)
on_draw poll (ok _) app = poll app

unfoldable pub play_round : (IoError → Bytes) → ℕ → Round → DashboardApp → Next
play_round io_text interval round app =
    on_draw (on_poll (on_read (handle_event io_text round) round.read) round.polled) round.drawn
      (refresh_if_due io_text interval round app)

-- The loop on the rounds that there are. It is `running` when these are over.
pub data Looped : Type 0 where
  running : DashboardApp → Looped
  ended : Result DashboardError Unit → Looped

abbrev pub go_on : Next → (DashboardApp → Looped) → Looped
go_on (continues app) k = k app
go_on quits k = ended (ok tt)
go_on (fails e) k = ended (err e)

unfoldable pub run_rounds : (IoError → Bytes) → ℕ → List Round → DashboardApp → Looped
run_rounds io_text interval [] app = running app
run_rounds io_text interval (round ∷ rounds) app =
    go_on (play_round io_text interval round app) (run_rounds io_text interval rounds)

unfoldable pub run_loop : (IoError → Bytes) → ℕ → List Round → Looped
run_loop io_text interval rounds = run_rounds io_text interval rounds default_app

abbrev pub restored : Result Bytes Unit → Result DashboardError Unit
restored (ok _) = ok tt
restored (err text) = err (Dashboard.io text)

-- `run`, behind `setup_terminal`: the loop's error comes before the one of `restore_terminal`.
abbrev pub finish : Result DashboardError Unit → Result Bytes Unit → Result DashboardError Unit
finish (err e) restore = err e
finish (ok _) restore = restored restore

unfoldable pub run :
    Result Bytes Unit → Result DashboardError Unit → Result Bytes Unit → Result DashboardError Unit
run (err text) looped restore = err (Dashboard.io text)
run (ok _) looped restore = finish looped restore
