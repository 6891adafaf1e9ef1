-- ===== src/Daemon/Ticking.antt =====
-- At most one send is under way: the timers (src/daemon/controller.rs).
use peekback.Base.{
  Bool-cases, Option-cases, Result-cases, ap, arith, inl, inr, leb, nat_eq, none, not, option_eq,
  refl, str_eq, ◌&&◌, ◌==◌, ◌≡◌,
}
use peekback.Base.Int.{int_eq}
use peekback.Base.Paths.{path_eq}
use peekback.Daemon.{
  App, Now, Run, listing_request_eq, session_identity_eq, theme_eq, view_context_eq,
}
use peekback.Daemon.Actions.{refresh, reload}
use peekback.Daemon.Loop.{and_then, due, poll, refresh_due, reload_due, tick}
use peekback.Daemon.Sending.{Moves, as_ℕ, sends-append, sends-submit_job}

sends-reload : (now : Now) (app : App) → Moves app (reload now app)
unfolding reload
sends-reload now app = elim (Option-cases app.current) [
  | inl e ↦ rw (e, reload) (omega arith)
  | inr (c, e) ↦ elim (Option-cases c.path) [
    | inl k ↦ rw (e, k, reload) (omega arith)
    | inr (path, k) ↦ elim (Bool-cases (c.context.generation == app.generation)) [
      | inl g ↦ rw (e, k, g, reload) (sends-submit_job now.workers_free app _ _ refl refl)
      | inr g ↦ rw (e, k, g, reload) (omega arith)
    ]
  ]
]

sends-reload_due : (now : Now) (app : App) → Moves app (reload_due now app)
unfolding reload_due
sends-reload_due now app = elim (Bool-cases (due app.reload_at now.instant)) [
  | inl e ↦ rw (e, reload_due) (sends-reload now (record app { reload_at = none }))
  | inr e ↦ rw (e, reload_due) (omega arith)
]

sends-refresh : (now : Now) (app : App) → Moves app (refresh now app)
unfolding refresh
sends-refresh now app = elim (Bool-cases app.refresh_pending) [
  | inl e ↦ rw (e, refresh) (omega arith)
  | inr e ↦ rw (e, refresh) (sends-submit_job now.workers_free app _ _ refl refl)
]

sends-refresh_due : (now : Now) (app : App) → Moves app (refresh_due now app)
unfolding refresh_due
sends-refresh_due now app =
    elim (Bool-cases (not app.refresh_pending && due app.refresh_at now.instant)) [
      | inl e ↦ rw (e, refresh_due) (sends-refresh now (record app { refresh_at = none }))
      | inr e ↦ rw (e, refresh_due) (omega arith)
    ]

sends-and_then :
    (app : App) (run : Run) (f : App → Run)
    → Moves app run
    → Moves run.app (f run.app)
    → Moves app (and_then run f)
sends-and_then app run f h k = elim (Result-cases run.result) [
  | inl (u, e) ↦ rw e (omega (arith, h, k, sends-append run.outputs (f run.app).outputs))
  | inr (er, e) ↦ rw e h
]

poll-sending : (now : Now) (app : App) → (poll now app).sending ≡ app.sending
unfolding poll
poll-sending now app = elim (Bool-cases (leb app.next_poll now.instant)) [
  | inl e ↦ rw (e, poll) refl
  | inr e ↦ rw (e, poll) refl
]

pub tick-Moves : (now : Now) (app : App) → Moves app (tick now app)
unfolding tick
tick-Moves now app = omega (
  arith,
  ap as_ℕ (poll-sending now app),
  sends-and_then (poll now app) (reload_due now (poll now app)) (refresh_due now)
      (sends-reload_due now (poll now app))
      (sends-refresh_due now (reload_due now (poll now app)).app),
)
