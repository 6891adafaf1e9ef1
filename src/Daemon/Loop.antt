-- ===== src/Daemon/Loop.antt =====
-- The timers of the daemon, and one turn of its loop (src/daemon/controller.rs, src/daemon/mod.rs).
use peekback.Base.{
  Bool, List, Option, [], any, err, false, if◌then◌else◌, leb, nat_eq, none, not, ok, option_eq,
  some, str_eq, true, ℕ, ◌&&◌, ◌++◌, ◌+◌, ◌∷◌,
}
use peekback.Base.Int.{int_eq}
use peekback.Base.Paths.{path_eq}
use peekback.Daemon.{
  App, DaemonMessage, Now, Output, Run, UserEvent, after, done, listing_request_eq,
  session_identity_eq, theme_eq, view_context_eq,
}
use peekback.Daemon.Actions.{next, refresh, reload}
use peekback.Daemon.Events.{event, get_or_insert}

abbrev pub due : Option ℕ → ℕ → Bool
due none now = false
due (some at) now = leb at now

abbrev pub earliest : Option ℕ → ℕ → ℕ
earliest none n = n
earliest (some m) n = if leb m n then m else n

-- A run, and another from where it stopped if it succeeded.
abbrev pub and_then : Run → (App → Run) → Run
and_then run next = elim run.result [ err e ↦ run | ok _ ↦ after run.outputs (next run.app) ]

unfoldable pub poll : Now → App → App
poll now app =
    if leb app.next_poll now.instant
    then record app {
      refresh_at = get_or_insert app.refresh_at now.instant;
      next_poll = now.instant + 5000;
    }
    else app

unfoldable pub reload_due : Now → App → Run
unfolding reload
reload_due now app =
    if due app.reload_at now.instant
    then reload now (record app { reload_at = none })
    else done app []

unfoldable pub refresh_due : Now → App → Run
unfolding refresh
refresh_due now app =
    if not app.refresh_pending && due app.refresh_at now.instant
    then refresh now (record app { refresh_at = none })
    else done app []

-- `App::tick`; the instant that it returns is `wake` of the state it leaves.
unfoldable pub tick : Now → App → Run
unfolding poll reload_due refresh_due
tick now app = and_then (reload_due now (poll now app)) (refresh_due now)

abbrev pub wake : App → ℕ
wake app =
    earliest app.reload_at
      (earliest (if app.refresh_pending then none else app.refresh_at) app.next_poll)

-- What the toolkit is told at the end of a turn of its loop.
pub data ControlFlow : Type 0 where
  exit : ControlFlow
  wait_until : ℕ → ControlFlow

-- The error of a run is shown to the user.
abbrev pub toasting : Run → List Output
toasting run = elim run.result [
  | ok _ ↦ run.outputs
  | err e ↦ run.outputs ++ Output.push (DaemonMessage.toast e) ∷ []
]

abbrev pub is_exit : Output → Bool
is_exit Output.exit = true
is_exit o = false

abbrev pub next_turn : Now → Run → ControlFlow
next_turn now run = elim run.result [
  | ok _ ↦ ControlFlow.wait_until (wake run.app)
  | err e ↦ ControlFlow.wait_until (now.instant + 1000)
]

-- One turn of the loop of `run`, at one instant: an event, and the timers unless the program ends.
unfoldable pub turn : Now → App → UserEvent → App × List Output × ControlFlow
unfolding event tick
turn now app e =
    let run = event now app e in
    if any is_exit run.outputs
    then (run.app, toasting run, ControlFlow.exit)
    else (let ticked = tick now run.app in
        (ticked.app, toasting run ++ toasting ticked, next_turn now ticked))
