-- ===== src/Daemon/Replies.antt =====
-- Clients of the daemon are answered (src/daemon/controller.rs).
use peekback.Base.{
  Bool, Bool-cases, List, Option, Option-cases, Result-cases, Str, [], any, arith, false,
  if◌then◌else◌, inl, inr, nat_eq, none, option_eq, refl, some, str_eq, true, ℕ, ◌&&◌, ◌++◌, ◌+◌,
  ◌==◌, ◌∙◌, ◌∷◌, ◌≡◌,
}
use peekback.Base.Int.{int_eq}
use peekback.Base.Paths.{FilePath, path_eq}
use peekback.Daemon.{
  App, Current, Job, Now, Output, PageMessage, Presentation, Reply, Run, Target, UserEvent,
  ViewContext, after, listing_request_eq, session_identity_eq, submit_job, theme_eq,
  view_context_eq,
}
use peekback.Daemon.Actions.{
  accepts, list, open_listed, page, render, rendering, report_failure, session_id, show, shows,
  slot, submit_send, switch,
}

abbrev pub answering_reply : ℕ → Option Reply → ℕ
answering_reply n none = 0
answering_reply n (some r) = if r.0 == n then 1 else 0

abbrev pub answering_job : ℕ → Job → ℕ
answering_job n (Job.open_view generation target path reply) = answering_reply n reply
answering_job n (Job.refresh context) = 0
answering_job n (Job.reload generation revision path) = 0
answering_job n (Job.list context id scratchpad session) = 0
answering_job n (Job.send context id session text purpose) = 0
answering_job n (Job.copy text) = 0

abbrev pub answering : ℕ → Output → ℕ
answering n (Output.reply m response) = if m == n then 1 else 0
answering n (Output.submit job) = answering_job n job
answering n o = 0

-- How often outputs answer a channel, where a queued open has the answer ahead of it.
abbrev pub answers : ℕ → List Output → ℕ
answers n [] = 0
answers n (o ∷ os) = answering n o + answers n os

-- What an event owes to a channel.
abbrev pub owed : ℕ → UserEvent → ℕ
owed n (UserEvent.request request channel deadline) = if channel == n then 1 else 0
owed n (UserEvent.opened generation result reply) = answering_reply n reply
owed n e = 0

module _ (n : ℕ) where
  pub answers-append : (xs ys : List Output) → answers n (xs ++ ys) ≡ answers n xs + answers n ys
  answers-append [] ys = omega arith
  answers-append (x ∷ xs) ys = omega (arith, answers-append xs ys)

  pub answers-after :
      (xs : List Output) (run : Run)
      → answers n (after xs run).outputs ≡ answers n xs + answers n run.outputs
  answers-after xs run = answers-append xs run.outputs

  pub answers-submit_job :
      (free : Bool) (app : App) (job : Job) (app' : App)
      → answering_job n job ≡ 0
      → answers n (submit_job free app job app').outputs ≡ 0
  answers-submit_job true app job app' h = omega (arith, h)
  answers-submit_job false app job app' h = refl

  pub answers-show_none :
      (now : Now) (app : App) (target : Target) (path : Option FilePath) (p : Presentation)
      → answers n (show now app target path p none).outputs ≡ 0
  unfolding show
  answers-show_none now app target path p = answers-submit_job now.workers_free app _ _ refl

  answers-rendering : (c : Current) → answers n (rendering c) ≡ 0
  answers-rendering c = elim (Bool-cases c.missing) [ inl e ↦ rw e refl | inr e ↦ rw e refl ]

  pub answers-render : (app : App) → answers n (render app) ≡ 0
  unfolding render
  answers-render app = elim (Bool-cases app.page_ready) [
    | inr e ↦ rw (e, render) refl
    | inl e ↦ elim (Option-cases app.current) [
      | inl k ↦ rw (e, k, render) refl
      | inr (c, k) ↦ rw (e, k, render) (answers-rendering c)
    ]
  ]

  answers-list :
      (now : Now) (app : App) (c : ViewContext) (id : ℕ) (s : Bool)
      → answers n (list now app c id s).outputs ≡ 0
  unfolding list
  answers-list now app c id s = elim (Bool-cases (accepts app c)) [
    | inr e ↦ rw (e, list) refl
    | inl e ↦ rw (e, list) (answers-submit_job now.workers_free app _ _ refl)
  ]

  answers-open_listed :
      (now : Now) (app : App) (c : ViewContext) (id : ℕ) (path : FilePath) (s : Bool)
      → answers n (open_listed now app c id path s).outputs ≡ 0
  unfolding open_listed
  answers-open_listed now app c id path s =
      elim (Bool-cases (
        accepts app c
        && ((slot app s).request == some (c, id)
            && any (λ d. d.path == path) (slot app s).listing.documents))) [
              | inr e ↦ rw (e, open_listed) refl
              | inl e ↦ rw (e, open_listed) (answers-show_none now app _ _ _)
            ]

  answers-send :
      (now : Now) (app : App) (c : ViewContext) (id : ℕ) (text : Str) (purpose : Option Str)
      → answers n (submit_send now app c id text purpose).outputs ≡ 0
  unfolding submit_send
  answers-send now app c id text purpose = elim (Bool-cases (accepts app c)) [
    | inr e ↦ rw (e, submit_send) refl
    | inl e ↦ elim (Bool-cases app.sending) [
      | inl k ↦ rw (e, k, submit_send) refl
      | inr k ↦ elim (Option-cases (session_id app)) [
        | inl m ↦ rw (e, k, m, submit_send) refl
        | inr (i, m) ↦ rw (e, k, m, submit_send) (answers-submit_job now.delivery_free app _ _ refl)
      ]
    ]
  ]

  answers-report_failure :
      (id : ℕ) (purpose : Option Str) (run : Run)
      → answers n (report_failure id purpose run).outputs ≡ answers n run.outputs
  unfolding report_failure
  answers-report_failure id purpose run = elim (Result-cases run.result) [
    | inl (u, e) ↦ rw (e, report_failure) refl
    | inr (er, e) ↦ rw (e, report_failure) (answers-append run.outputs _ ∙ omega arith)
  ]

  answers-switch :
      (now : Now) (app : App) (c : ViewContext) (id : Option Str) (path : Option FilePath)
      → answers n (switch now app c id path).outputs ≡ 0
  unfolding switch
  answers-switch now app c id path = elim (Bool-cases (shows app c)) [
    | inr e ↦ rw (e, switch) refl
    | inl e ↦
        elim (Bool-cases (elim path [
          | none ↦ true
          | some p ↦
              id == session_id app
              && elim app.current [ none ↦ false | some c ↦ any (λ d. d.path == p) c.documents ]
        ])) [
          | inr k ↦ rw (e, k, switch) refl
          | inl k ↦ rw (e, k, switch) (answers-show_none now app _ _ _)
        ]
  ]

  answers-external :
      (b : Bool) (url : Str) → answers n (if b then Output.open_url url ∷ [] else []) ≡ 0
  answers-external true url = refl
  answers-external false url = refl

  pub answers-page :
      (now : Now) (app : App) (m : PageMessage) → answers n (page now app m).outputs ≡ 0
  unfolding page
  answers-page now app PageMessage.ready =
      omega (arith, answers-render (record app { page_ready = true }))
  answers-page now app (PageMessage.list_scratchpad c id) = answers-list now app c id true
  answers-page now app (PageMessage.list_bookmarks c id) = answers-list now app c id false
  answers-page now app (PageMessage.open_scratchpad c id path) =
      answers-open_listed now app c id path true
  answers-page now app (PageMessage.open_bookmark c id path) =
      answers-open_listed now app c id path false
  answers-page now app (PageMessage.switch c id path) = answers-switch now app c id path
  answers-page now app (PageMessage.send c id text purpose) =
      answers-report_failure id purpose (submit_send now app c id text purpose)
      ∙ answers-send now app c id text purpose
  answers-page now app (PageMessage.copy text) = answers-submit_job now.delivery_free app _ _ refl
  answers-page now app PageMessage.hide = refl
  answers-page now app (PageMessage.open_external url) = answers-external _ url
