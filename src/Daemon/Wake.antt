-- ===== src/Daemon/Wake.antt =====
-- The loop of the daemon waits for instants to come (src/daemon/controller.rs, src/daemon/mod.rs).
use peekback.Base.{
  Bool, Bool-cases, Option, Option-cases, Result-cases, any, arith, false, if◌then◌else◌, inl, inr,
  leb, nat_eq, none, ok, option_eq, refl, some, str_eq, subst, sym, true, ℕ, ◌<◌, ◌==◌, ◌≡◌,
}
use peekback.Base.Int.{int_eq}
use peekback.Base.Paths.{path_eq}
use peekback.Daemon.{
  App, Job, Now, Run, UserEvent, listing_request_eq, session_identity_eq, submit_job, theme_eq,
  view_context_eq,
}
use peekback.Daemon.Actions.{refresh, reload}
use peekback.Daemon.Events.{event}
use peekback.Daemon.Loop.{
  ControlFlow, and_then, due, earliest, is_exit, next_turn, poll, refresh_due, reload_due, tick,
  turn, wake,
}

-- A timer that has not run out.
abbrev IsLater : ℕ → Option ℕ → Type 0
IsLater now none = Unit
IsLater now (some at) = now < at

due-IsLater : (at : Option ℕ) (now : ℕ) → due at now ≡ false → IsLater now at
due-IsLater none now h = tt
due-IsLater (some at) now h = ground arith

earliest-later : (now : ℕ) (at : Option ℕ) (n : ℕ) → IsLater now at → now < n → now < earliest at n
earliest-later now none n h k = k
earliest-later now (some m) n h k = ground arith

poll-later : (now : Now) (app : App) → now.instant < (poll now app).next_poll
unfolding poll
poll-later now app = elim (Bool-cases (leb app.next_poll now.instant)) [
  | inl e ↦ rw (e, poll) (omega arith)
  | inr e ↦ rw (e, poll) (ground arith)
]

-- A reload leaves the timers as they are.
abbrev KeepsTimers : App → App → Type 0
KeepsTimers app app' = (app'.reload_at ≡ app.reload_at) × (app'.next_poll ≡ app.next_poll)

submit_job-timers :
    (free : Bool) (app : App) (job : Job) → KeepsTimers app (submit_job free app job app).app
submit_job-timers true app job = (refl, refl)
submit_job-timers false app job = (refl, refl)

reload-timers : (now : Now) (app : App) → KeepsTimers app (reload now app).app
unfolding reload
reload-timers now app = elim (Option-cases app.current) [
  | inl e ↦ rw (e, reload) (refl, refl)
  | inr (c, e) ↦ elim (Option-cases c.path) [
    | inl k ↦ rw (e, k, reload) (refl, refl)
    | inr (path, k) ↦ elim (Bool-cases (c.context.generation == app.generation)) [
      | inl g ↦ rw (e, k, g, reload) (submit_job-timers now.workers_free app _)
      | inr g ↦ rw (e, k, g, reload) (refl, refl)
    ]
  ]
]

-- What the first half of a tick leaves.
reload_due-IsLater :
    (now : Now) (app : App)
    → now.instant < app.next_poll
    → IsLater now.instant (reload_due now app).app.reload_at
      × (now.instant < (reload_due now app).app.next_poll)
unfolding reload_due
reload_due-IsLater now app h = elim (Bool-cases (due app.reload_at now.instant)) [
  | inl e ↦
      let (same, polls) = reload-timers now (record app { reload_at = none }) in
      rw (e, reload_due)
        (subst (IsLater now.instant) (sym same) tt, subst (λ n. now.instant < n) (sym polls) h)
  | inr e ↦ rw (e, reload_due) (due-IsLater app.reload_at now.instant e, h)
]

-- The timers that the loop waits for.
abbrev AllLater : ℕ → App → Type 0
AllLater now app =
    IsLater now app.reload_at
    × IsLater now (if app.refresh_pending then none else app.refresh_at)
    × (now < app.next_poll)

refresh_due-AllLater :
    (now : Now) (app : App)
    → IsLater now.instant app.reload_at
    → now.instant < app.next_poll
    → AllLater now.instant (refresh_due now app).app
unfolding refresh_due refresh
refresh_due-AllLater now app h k = elim (Bool-cases app.refresh_pending) [
  | inl e ↦ rw (e, refresh_due) (h, tt, k)
  | inr e ↦ elim (Bool-cases (due app.refresh_at now.instant)) [
    | inr d ↦ rw (e, d, refresh_due) (h, due-IsLater app.refresh_at now.instant d, k)
    | inl d ↦ elim (Bool-cases now.workers_free) [
      | inl w ↦ rw (e, d, w, refresh_due, refresh) (h, tt, k)
      | inr w ↦ rw (e, d, w, refresh_due, refresh) (h, rw e tt, k)
    ]
  ]
]

AllLater-wake : (now : ℕ) (app : App) → AllLater now app → now < wake app
AllLater-wake now app (r, f, p) =
    earliest-later now app.reload_at _ r (earliest-later now _ app.next_poll f p)

and_then-app :
    (run : Run) (f : App → Run) → run.result ≡ ok tt → (and_then run f).app ≡ (f run.app).app
and_then-app run f h = rw h refl

and_then-eq-ok : (run : Run) (f : App → Run) → (and_then run f).result ≡ ok tt → run.result ≡ ok tt
and_then-eq-ok run f h = elim (Result-cases run.result) [
  | inl (u, e) ↦ e
  | inr (er, e) ↦ absurd (ground arith)
]

-- A tick that succeeds returns an instant that is still to come, so the loop does not spin.
pub tick-wakes :
    (now : Now) (app : App) → (tick now app).result ≡ ok tt → now.instant < wake (tick now app).app
unfolding tick
tick-wakes now app h =
    let first = reload_due now (poll now app) in
    let (r, p) = reload_due-IsLater now (poll now app) (poll-later now app) in
    subst (λ a. now.instant < wake a)
      (sym (and_then-app first (refresh_due now) (and_then-eq-ok first (refresh_due now) h)))
      (AllLater-wake now.instant (refresh_due now first.app).app
        (refresh_due-AllLater now first.app r p))

next_turn-later :
    (now : Now) (app : App) (at : ℕ)
    → next_turn now (tick now app) ≡ ControlFlow.wait_until at
    → now.instant < at
next_turn-later now app at h = elim (Result-cases (tick now app).result) [
  | inl (u, e) ↦ ground (arith, tick-wakes now app e)
  | inr (er, e) ↦ ground arith
]

-- A turn of the loop either ends the program or waits for an instant that is still to come, so the
-- loop does not spin, whatever the event was and whether it or the timers failed.
pub turn-waits :
    (now : Now) (app : App) (e : UserEvent) (at : ℕ)
    → (turn now app e).2 ≡ ControlFlow.wait_until at
    → now.instant < at
unfolding turn
turn-waits now app e at h = elim (Bool-cases (any is_exit (event now app e).outputs)) [
  | inl k ↦ absurd (ground arith)
  | inr k ↦ next_turn-later now (event now app e).app at (ground arith)
]
