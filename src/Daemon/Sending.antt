-- ===== src/Daemon/Sending.antt =====
-- At most one send is under way: the messages of the page (src/daemon/controller.rs).
-- How many sends outputs start.
use peekback.Base.{
  Bool, Bool-cases, List, Option, Option-cases, Result-cases, Str, [], any, arith, err, false,
  if◌then◌else◌, inl, inr, nat_eq, none, option_eq, refl, some, str_eq, true, ℕ, ◌&&◌, ◌++◌, ◌+◌,
  ◌==◌, ◌∷◌, ◌≡◌,
}
use peekback.Base.Int.{int_eq}
use peekback.Base.Paths.{FilePath, path_eq}
use peekback.Daemon.{
  App, Current, FileListing, Job, Now, Output, PageMessage, Presentation, Reply, Run, Target,
  ViewContext, listing_request_eq, session_identity_eq, submit_job, theme_eq, view_context_eq,
}
use peekback.Daemon.Actions.{
  accepts, list, open_listed, page, render, rendering, report_failure, send_result, session_id,
  set_slot, show, shows, slot, submit_send, switch,
}

abbrev pub sends_job : Job → ℕ
sends_job (Job.send context id session text purpose) = 1
sends_job (Job.open_view generation target path reply) = 0
sends_job (Job.refresh context) = 0
sends_job (Job.reload generation revision path) = 0
sends_job (Job.list context id scratchpad session) = 0
sends_job (Job.copy text) = 0

abbrev pub sends_output : Output → ℕ
sends_output (Output.submit job) = sends_job job
sends_output o = 0

abbrev pub sends : List Output → ℕ
sends [] = 0
sends (o ∷ os) = sends_output o + sends os

abbrev pub as_ℕ : Bool → ℕ
as_ℕ true = 1
as_ℕ false = 0

-- A run moves the flag as it starts sends.
abbrev pub Moves : App → Run → Type 0
Moves app run = as_ℕ run.app.sending ≡ as_ℕ app.sending + sends run.outputs

pub sends-append : (xs ys : List Output) → sends (xs ++ ys) ≡ sends xs + sends ys
sends-append [] ys = omega arith
sends-append (x ∷ xs) ys = omega (arith, sends-append xs ys)

pub sends-submit_job :
    (free : Bool) (app : App) (job : Job) (app' : App)
    → sends_job job ≡ 0
    → app'.sending ≡ app.sending
    → Moves app (submit_job free app job app')
sends-submit_job true app job app' h k = rw k (omega (arith, h))
sends-submit_job false app job app' h k = omega arith

pub sends-show :
    (now : Now) (app : App) (target : Target) (path : Option FilePath) (p : Presentation)
    (reply : Option Reply)
    → Moves app (show now app target path p reply)
unfolding show
sends-show now app target path p reply = sends-submit_job now.workers_free app _ _ refl refl

sends-rendering : (c : Current) → sends (rendering c) ≡ 0
sends-rendering c = elim (Bool-cases c.missing) [ inl e ↦ rw e refl | inr e ↦ rw e refl ]

pub sends-render : (app : App) → sends (render app) ≡ 0
unfolding render
sends-render app = elim (Bool-cases app.page_ready) [
  | inr e ↦ rw (e, render) refl
  | inl e ↦ elim (Option-cases app.current) [
    | inl k ↦ rw (e, k, render) refl
    | inr (c, k) ↦ rw (e, k, render) (sends-rendering c)
  ]
]

pub slot-sending :
    (app : App) (s : Bool) (l : FileListing) → (set_slot app s l).sending ≡ app.sending
slot-sending app true l = refl
slot-sending app false l = refl

sends-list :
    (now : Now) (app : App) (c : ViewContext) (id : ℕ) (s : Bool) → Moves app (list now app c id s)
unfolding list
sends-list now app c id s = elim (Bool-cases (accepts app c)) [
  | inr e ↦ rw (e, list) (omega arith)
  | inl e ↦ rw (e, list) (sends-submit_job now.workers_free app _ _ refl (slot-sending app s _))
]

sends-open_listed :
    (now : Now) (app : App) (c : ViewContext) (id : ℕ) (path : FilePath) (s : Bool)
    → Moves app (open_listed now app c id path s)
unfolding open_listed
sends-open_listed now app c id path s =
    elim (Bool-cases (
      accepts app c
      && ((slot app s).request == some (c, id)
          && any (λ d. d.path == path) (slot app s).listing.documents))) [
            | inr e ↦ rw (e, open_listed) (omega arith)
            | inl e ↦ rw (e, open_listed) (sends-show now app _ _ _ none)
          ]

starts :
    (free : Bool) (app : App) (job : Job)
    → app.sending ≡ false
    → sends_job job ≡ 1
    → as_ℕ (submit_job free app job (record app { sending = true })).app.sending
      ≡ 0 + sends (submit_job free app job (record app { sending = true })).outputs
starts true app job h k = omega (arith, k)
starts false app job h k = rw h (omega arith)

sends-send :
    (now : Now) (app : App) (c : ViewContext) (id : ℕ) (text : Str) (purpose : Option Str)
    → Moves app (submit_send now app c id text purpose)
unfolding submit_send
sends-send now app c id text purpose = elim (Bool-cases (accepts app c)) [
  | inr e ↦ rw (e, submit_send) (omega arith)
  | inl e ↦ elim (Bool-cases app.sending) [
    | inl k ↦ rw (e, k, submit_send) (omega arith)
    | inr k ↦ elim (Option-cases (session_id app)) [
      | inl m ↦ rw (e, k, m, submit_send) (ground arith)
      | inr (i, m) ↦ rw (e, k, m, submit_send) (starts now.delivery_free app _ k refl)
    ]
  ]
]

sends-report_failure :
    (id : ℕ) (purpose : Option Str) (app : App) (run : Run)
    → Moves app run
    → Moves app (report_failure id purpose run)
unfolding report_failure
sends-report_failure id purpose app run h = elim (Result-cases run.result) [
  | inl (u, e) ↦ rw (e, report_failure) h
  | inr (er, e) ↦
      rw (e, report_failure)
        (omega (arith, h, sends-append run.outputs (send_result id purpose (err er) ∷ [])))
]

sends-switch :
    (now : Now) (app : App) (c : ViewContext) (id : Option Str) (path : Option FilePath)
    → Moves app (switch now app c id path)
unfolding switch
sends-switch now app c id path = elim (Bool-cases (shows app c)) [
  | inr e ↦ rw (e, switch) (omega arith)
  | inl e ↦
      elim (Bool-cases (elim path [
        | none ↦ true
        | some p ↦
            id == session_id app
            && elim app.current [ none ↦ false | some c ↦ any (λ d. d.path == p) c.documents ]
      ])) [
        | inr k ↦ rw (e, k, switch) (omega arith)
        | inl k ↦ rw (e, k, switch) (sends-show now app _ _ _ none)
      ]
]

sends-external : (b : Bool) (url : Str) → sends (if b then Output.open_url url ∷ [] else []) ≡ 0
sends-external true url = refl
sends-external false url = refl

pub sends-page : (now : Now) (app : App) (m : PageMessage) → Moves app (page now app m)
unfolding page
sends-page now app PageMessage.ready =
    omega (arith, sends-render (record app { page_ready = true }))
sends-page now app (PageMessage.list_scratchpad c id) = sends-list now app c id true
sends-page now app (PageMessage.list_bookmarks c id) = sends-list now app c id false
sends-page now app (PageMessage.open_scratchpad c id path) =
    sends-open_listed now app c id path true
sends-page now app (PageMessage.open_bookmark c id path) = sends-open_listed now app c id path false
sends-page now app (PageMessage.switch c id path) = sends-switch now app c id path
sends-page now app (PageMessage.send c id text purpose) =
    sends-report_failure id purpose app (submit_send now app c id text purpose)
      (sends-send now app c id text purpose)
sends-page now app (PageMessage.copy text) = sends-submit_job now.delivery_free app _ _ refl refl
sends-page now app PageMessage.hide = omega arith
sends-page now app (PageMessage.open_external url) = omega (arith, sends-external _ url)
