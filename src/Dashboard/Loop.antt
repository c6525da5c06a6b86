-- ===== src/Dashboard/Loop.antt =====
-- src/tui.rs: how the loop of the dashboard ends, and what it shows until then.
use aerugo_cache.Dashboard.{DashboardError}
use aerugo_cache.Client.{IoError}
use aerugo_cache.Dashboard.App.{
  continues, quits, fails, ended, key, char, esc, other_event, Next, Round, KeyCode, other_key,
  play_round, run_loop, is_quit_key, handle_event, run_rounds, Event, DashboardApp, Looped, go_on,
  default_app, is_retry_key, refresh_if_due, on_draw, on_poll, on_read,
}
use aerugo_cache.Prelude.{
  ok, [], ◌∷◌, true, false, inl, inr, refl, ◌≡◌, Bytes, Bool, ℕ, List, ◌≢◌, All, Bool-cases, ◌++◌,
  ap, Result, ◌⊎◌, arith,
}

-- The terminal does what it is asked in a round.
abbrev pub Works : Round → Type 0
Works round =
    (round.drawn ≡ ok tt)
    × ((b : Bool) × (round.polled ≡ ok b))
    × ((event : Event) × (round.read ≡ ok event))

-- `q` or Esc is pressed in a round.
abbrev pub IsQuit : Round → Type 0
IsQuit round =
    (round.polled ≡ ok true) × ((round.read ≡ ok (key (char b'q'))) ⊎ (round.read ≡ ok (key esc)))

-- The keys that quit.
pub is_quit_key-cases :
    (code : KeyCode) → is_quit_key code ≡ true → (code ≡ char b'q') ⊎ (code ≡ esc)
unfolding is_quit_key
is_quit_key-cases (char c) h = inl (ap char (ground arith))
is_quit_key-cases esc h = inr refl
is_quit_key-cases other_key h = cc

terminal_works :
    (handle : DashboardApp → Event → Next) (drawn : Result Bytes Unit) (polled : Result Bytes Bool)
    (read : Result Bytes Event) (app : DashboardApp) (e : DashboardError)
    → ((next : DashboardApp) (event : Event) → handle next event ≢ fails e)
    → drawn ≡ ok tt
    → (b : Bool) × (polled ≡ ok b)
    → (event : Event) × (read ≡ ok event)
    → on_draw (on_poll (on_read handle read) polled) drawn app ≢ fails e
terminal_works handle drawn polled read app e h d (false, p) (event, r) = rw (d, p) (λ f. cc)
terminal_works handle drawn polled read app e h d (true, p) (event, r) = rw (d, p, r) (h app event)

module _ (io_text : IoError → Bytes) (interval : ℕ) where
  play_round-quit :
      (round : Round) (app : DashboardApp)
      → Works round
      → IsQuit round
      → play_round io_text interval round app ≡ quits
  unfolding play_round handle_event is_quit_key
  play_round-quit round app w (polled, inl read) = rw (w.0, polled, read)
  play_round-quit round app w (polled, inr read) = rw (w.0, polled, read)

  handle_event-ne-fails :
      (round : Round) (app : DashboardApp) (event : Event) (e : DashboardError)
      → handle_event io_text round app event ≢ fails e
  unfolding handle_event
  handle_event-ne-fails round app (key code) e = elim (Bool-cases (is_quit_key code)) [
    | inl quit ↦ rw quit (λ h. cc)
    | inr stay ↦ elim (Bool-cases (is_retry_key code)) [
      | inl retry ↦ rw (stay, retry) (λ h. cc)
      | inr other ↦ rw (stay, other) (λ h. cc)
    ]
  ]
  handle_event-ne-fails round app other_event e = λ h. cc

  play_round-Works :
      (round : Round) (app : DashboardApp) (e : DashboardError)
      → Works round
      → play_round io_text interval round app ≢ fails e
  unfolding play_round
  play_round-Works round app e (drawn, polled, read) =
      terminal_works (handle_event io_text round) round.drawn round.polled round.read
        (refresh_if_due io_text interval round app) e
        (λ next event. handle_event-ne-fails round next event e) drawn polled read

  go_on-quits :
      (n : Next) (k : DashboardApp → Looped)
      → ((e : DashboardError) → n ≢ fails e)
      → ((app : DashboardApp) → k app ≡ ended (ok tt))
      → go_on n k ≡ ended (ok tt)
  go_on-quits (continues app) k h q = q app
  go_on-quits quits k h q = refl
  go_on-quits (fails e) k h q = absurd (h e refl)

  run_rounds-quit :
      (before after : List Round) (round : Round) (app : DashboardApp)
      → All Works before
      → Works round
      → IsQuit round
      → run_rounds io_text interval (before ++ round ∷ after) app ≡ ended (ok tt)
  unfolding run_rounds
  run_rounds-quit [] after round app h w q = rw (play_round-quit round app w q)
  run_rounds-quit (first ∷ before) after round app h w q =
      go_on-quits (play_round io_text interval first app) _ (λ e. play_round-Works first app e h.0)
        (λ next. run_rounds-quit before after round next h.1 w q)

  -- The loop ends, without an error, by the round in which `q` or Esc is pressed, whatever the server
  -- does, if the terminal works until then.
  pub run_loop-quit :
      (before after : List Round) (round : Round)
      → All Works before
      → Works round
      → IsQuit round
      → run_loop io_text interval (before ++ round ∷ after) ≡ ended (ok tt)
  unfolding run_loop
  run_loop-quit before after round = run_rounds-quit before after round default_app
