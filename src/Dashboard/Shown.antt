-- ===== src/Dashboard/Shown.antt =====
-- src/tui.rs: what the dashboard shows while its loop runs, and with which error it can end.
use aerugo_cache.Client.{IoError}
use aerugo_cache.Dashboard.{DashboardSnapshot, DashboardError}
use aerugo_cache.Dashboard
use aerugo_cache.Dashboard.Loop.{IsQuit, is_quit_key-cases}
use aerugo_cache.Dashboard.App.{
  continues, quits, fails, ended, running, key, other_event, DashboardApp, Round, Next, Looped,
  handle_event, refresh_if_due, Event, refresh_snapshot, play_round, Fetched, is_due, is_quit_key,
  on_draw, is_retry_key, on_poll, on_read, go_on, run_loop, run_rounds, default_app,
}
use aerugo_cache.Prelude.{
  ok, err, [], ◌∷◌, some, true, false, inl, inr, refl, List, ◌≡◌, is_some, Bytes, ◌||◌, ℕ, ◌⊎◌,
  Result, ◌∙◌, Bool-cases, Bool, ap,
}

-- The snapshot was fetched in one of the rounds.
abbrev pub IsFetchedIn : DashboardSnapshot → List Round → Type 0
IsFetchedIn snapshot [] = ⊥
IsFetchedIn snapshot (round ∷ rounds) =
    ((round.fetched ≡ ok snapshot) ⊎ (round.retried ≡ ok snapshot)) ⊎ IsFetchedIn snapshot rounds

-- The snapshot is the old one, or was fetched in one of the rounds.
abbrev pub IsFrom : List Round → DashboardApp → DashboardApp → Type 0
IsFrom rounds app after =
    (after.snapshot ≡ app.snapshot)
    ⊎ ((snapshot : DashboardSnapshot) × (after.snapshot ≡ some snapshot)
        × IsFetchedIn snapshot rounds)

-- A snapshot or an error is there once there was a refresh.
abbrev pub IsInformed : DashboardApp → Type 0
IsInformed app = is_some app.last_refresh ≡ is_some app.snapshot || is_some app.error

-- The terminal reported the error in one of the rounds: to the drawing, to `poll` or to `read`.
abbrev pub IsReportedIn : Bytes → List Round → Type 0
IsReportedIn text [] = ⊥
IsReportedIn text (round ∷ rounds) =
    ((round.drawn ≡ err text) ⊎ ((round.polled ≡ err text) ⊎ (round.read ≡ err text)))
    ⊎ IsReportedIn text rounds

-- An error of the terminal.
abbrev pub IsTerminal : List Round → DashboardError → Type 0
IsTerminal rounds e = (text : Bytes) × (e ≡ Dashboard.io text) × IsReportedIn text rounds

-- `q` or Esc was pressed in one of the rounds.
abbrev pub IsQuitIn : List Round → Type 0
IsQuitIn [] = ⊥
IsQuitIn (round ∷ rounds) = IsQuit round ⊎ IsQuitIn rounds

abbrev pub OnLooped : List Round → (DashboardApp → Type 0) → Looped → Type 0
OnLooped rounds P (running app) = P app
OnLooped rounds P (ended (ok _)) = IsQuitIn rounds
OnLooped rounds P (ended (err e)) = IsTerminal rounds e

abbrev OnNext : Round → (DashboardApp → Type 0) → Next → Type 0
OnNext round P (continues app) = P app
OnNext round P quits = IsQuit round
OnNext round P (fails e) = IsTerminal (round ∷ []) e

-- What a run of rounds does to the state.
abbrev Shows : List Round → DashboardApp → DashboardApp → Type 0
Shows rounds app after = IsFrom rounds app after × (IsInformed app → IsInformed after)

module _ (io_text : IoError → Bytes) where
  refresh-IsInformed :
      (now : ℕ) (fetched : Fetched) (app : DashboardApp)
      → IsInformed (refresh_snapshot io_text now fetched app)
  unfolding refresh_snapshot
  refresh-IsInformed now (ok snapshot) app = refl
  refresh-IsInformed now (err e) app = or_true (is_some app.snapshot)
    where
      or_true : (b : Bool) → true ≡ b || true
      or_true true = refl
      or_true false = refl

  -- A refresh that fails keeps the snapshot.
  refresh-snapshot :
      (now : ℕ) (fetched : Fetched) (app : DashboardApp)
      → ((refresh_snapshot io_text now fetched app).snapshot ≡ app.snapshot)
        ⊎ ((snapshot : DashboardSnapshot) × ((refresh_snapshot io_text now fetched app).snapshot
              ≡ some snapshot)
            × (fetched ≡ ok snapshot))
  unfolding refresh_snapshot
  refresh-snapshot now (ok snapshot) app = inr (snapshot, refl, refl)
  refresh-snapshot now (err e) app = inl refl

  fetched-Shows :
      (now : ℕ) (round : Round) (app : DashboardApp)
      → Shows (round ∷ []) app (refresh_snapshot io_text now round.fetched app)
  fetched-Shows now round app = (
    elim (refresh-snapshot now round.fetched app) [
      | inl same ↦ inl same
      | inr (snapshot, shown, e) ↦ inr (snapshot, shown, inl (inl e))
    ],
    λ _. refresh-IsInformed now round.fetched app,
  )

  retried-Shows :
      (now : ℕ) (round : Round) (app after : DashboardApp)
      → Shows (round ∷ []) app after
      → Shows (round ∷ []) app (refresh_snapshot io_text now round.retried after)
  retried-Shows now round app after (from_, informed) = (
    elim (refresh-snapshot now round.retried after) [
      | inl same ↦ elim from_ [
        | inl old ↦ inl (same ∙ old)
        | inr (snapshot, shown, e) ↦ inr (snapshot, same ∙ shown, e)
      ]
      | inr (snapshot, shown, e) ↦ inr (snapshot, shown, inl (inr e))
    ],
    λ _. refresh-IsInformed now round.retried after,
  )

  due-Shows :
      (interval : ℕ) (round : Round) (app : DashboardApp)
      → Shows (round ∷ []) app (refresh_if_due io_text interval round app)
  unfolding refresh_if_due
  due-Shows interval round app =
      elim (Bool-cases (is_due interval round.tested_at app.last_refresh)) [
        | inl due ↦ rw due (fetched-Shows round.refreshed_at round app)
        | inr early ↦ rw early (inl refl, λ h. h)
      ]

  handle_event-Shows :
      (round : Round) (app after : DashboardApp) (event : Event)
      → Shows (round ∷ []) app after
      → round.polled ≡ ok true
      → round.read ≡ ok event
      → OnNext round (Shows (round ∷ []) app) (handle_event io_text round after event)
  unfolding handle_event
  handle_event-Shows round app after (key code) h polled read =
      elim (Bool-cases (is_quit_key code)) [
        | inl quit ↦ rw quit (
          polled,
          elim (is_quit_key-cases code quit) [
            | inl e ↦ inl (read ∙ ap (λ c. ok (key c)) e)
            | inr e ↦ inr (read ∙ ap (λ c. ok (key c)) e)
          ],
        )
        | inr stay ↦ elim (Bool-cases (is_retry_key code)) [
          | inl retry ↦ rw (stay, retry) (retried-Shows round.retried_at round app after h)
          | inr other ↦ rw (stay, other) h
        ]
      ]
  handle_event-Shows round app after other_event h polled read = h

  terminal-Shows :
      (round : Round) (P : DashboardApp → Type 0) (handle : DashboardApp → Event → Next)
      (drawn : Result Bytes Unit) (polled : Result Bytes Bool) (read : Result Bytes Event)
      (app : DashboardApp)
      → P app
      → ((event : Event)
          → round.polled ≡ ok true
          → round.read ≡ ok event
          → OnNext round P (handle app event))
      → round.drawn ≡ drawn
      → round.polled ≡ polled
      → round.read ≡ read
      → OnNext round P (on_draw (on_poll (on_read handle read) polled) drawn app)
  terminal-Shows round P handle (err text) polled read app p h d q r = (text, refl, inl (inl d))
  terminal-Shows round P handle (ok _) (err text) read app p h d q r =
      (text, refl, inl (inr (inl q)))
  terminal-Shows round P handle (ok _) (ok false) read app p h d q r = p
  terminal-Shows round P handle (ok _) (ok true) (err text) app p h d q r =
      (text, refl, inl (inr (inr r)))
  terminal-Shows round P handle (ok _) (ok true) (ok event) app p h d q r = h event q r

  play_round-Shows :
      (interval : ℕ) (round : Round) (app : DashboardApp)
      → OnNext round (Shows (round ∷ []) app) (play_round io_text interval round app)
  unfolding play_round
  play_round-Shows interval round app =
      let moved = due-Shows interval round app in
      terminal-Shows round (Shows (round ∷ []) app) (handle_event io_text round) round.drawn
        round.polled round.read _ moved (λ event. handle_event-Shows round app _ event moved) refl
        refl refl

IsFrom-trans :
    (round : Round) (rounds : List Round) (app middle after : DashboardApp)
    → IsFrom (round ∷ []) app middle
    → IsFrom rounds middle after
    → IsFrom (round ∷ rounds) app after
IsFrom-trans round rounds app middle after (inl same) (inl old) = inl (old ∙ same)
IsFrom-trans round rounds app middle after (inr (s, shown, inl e)) (inl old) =
    inr (s, old ∙ shown, inl e)
IsFrom-trans round rounds app middle after (inr (s, shown, inr none_left)) (inl old) =
    absurd none_left
IsFrom-trans round rounds app middle after _ (inr (s, shown, e)) = inr (s, shown, inr e)

module _ (io_text : IoError → Bytes) (interval : ℕ) where
  Shows-trans :
      (round : Round) (rounds : List Round) (app middle : DashboardApp) (looped : Looped)
      → Shows (round ∷ []) app middle
      → OnLooped rounds (Shows rounds middle) looped
      → OnLooped (round ∷ rounds) (Shows (round ∷ rounds) app) looped
  Shows-trans round rounds app middle (running after) (first, informs) (others, keeps) =
      (IsFrom-trans round rounds app middle after first others, λ h. keeps (informs h))
  Shows-trans round rounds app middle (ended (ok _)) first others = inr others
  Shows-trans round rounds app middle (ended (err e)) first (text, e_text, reported) =
      (text, e_text, inr reported)

  go_on-Shows :
      (round : Round) (rounds : List Round) (app : DashboardApp) (n : Next)
      (k : DashboardApp → Looped)
      → OnNext round (Shows (round ∷ []) app) n
      → ((middle : DashboardApp) → OnLooped rounds (Shows rounds middle) (k middle))
      → OnLooped (round ∷ rounds) (Shows (round ∷ rounds) app) (go_on n k)
  go_on-Shows round rounds app (continues middle) k moves h =
      Shows-trans round rounds app middle (k middle) moves (h middle)
  go_on-Shows round rounds app quits k moves h = inl moves
  go_on-Shows round rounds app (fails e) k (text, e_text, inl reported) h =
      (text, e_text, inl reported)
  go_on-Shows round rounds app (fails e) k (text, e_text, inr none_left) h = absurd none_left

  run_rounds-Shows :
      (rounds : List Round) (app : DashboardApp)
      → OnLooped rounds (Shows rounds app) (run_rounds io_text interval rounds app)
  unfolding run_rounds
  run_rounds-Shows [] app = (inl refl, λ h. h)
  run_rounds-Shows (round ∷ rounds) app =
      go_on-Shows round rounds app (play_round io_text interval round app) _
        (play_round-Shows io_text interval round app) (run_rounds-Shows rounds)

  OnLooped-imp :
      (rounds : List Round) (P Q : DashboardApp → Type 0) (looped : Looped)
      → ((app : DashboardApp) → P app → Q app)
      → OnLooped rounds P looped
      → OnLooped rounds Q looped
  OnLooped-imp rounds P Q (running app) f h = f app h
  OnLooped-imp rounds P Q (ended (ok _)) f h = h
  OnLooped-imp rounds P Q (ended (err e)) f h = h

  -- While the loop runs, the dashboard shows no snapshot or one that it fetched, in one of the
  -- rounds, and an error or a snapshot from the first refresh on. It ends without an error only
  -- where `q` or Esc was pressed in one of the rounds, and with an error only where the terminal
  -- reported this error in one of them, whatever the server does.
  pub run_loop-Shown :
      (rounds : List Round)
      → OnLooped rounds
          (λ app. IsFrom rounds default_app app × IsInformed app)
          (run_loop io_text interval rounds)
  unfolding run_loop
  run_loop-Shown rounds =
      OnLooped-imp rounds _ _ (run_rounds io_text interval rounds default_app)
        (λ app (from_, informed). (from_, informed refl)) (run_rounds-Shows rounds default_app)
