-- ===== src/Daemon/Actions.antt =====
-- The methods of `App` (src/daemon/controller.rs). The counters of 64 bits wrap around.
use peekback.Base.{
  Bool, Error, List, Option, Result, Str, [], any, codes, err, false, if◌then◌else◌, nat_eq, none,
  not, ok, option_eq, some, str_eq, true, ℕ, ◌%◌, ◌&&◌, ◌++◌, ◌+◌, ◌==◌, ◌^◌, ◌||◌, ◌∷◌,
}
use peekback.Base.Int.{int_eq}
use peekback.Base.Paths.{FilePath, path_eq}
use peekback.Daemon.{
  App, Current, DaemonMessage, FileListing, Job, Now, Output, PageMessage, Presentation, Reply, Run,
  Target, ViewContext, accepts_action, done, fail, listing_request_eq, no_file_listing, no_listing,
  session_identity_eq, submit_job, theme_eq, view_context_eq,
}
use peekback.Harness.{harness_eq, name}
use peekback.Send.{Report, backend_eq}
use peekback.Session.{Session, turn_eq}

unfoldable pub next : ℕ → ℕ
next n = (n + 1) % 2 ^ 64

-- `App::hide`, when the window is closed.
unfoldable pub hide : App → Run
hide app = done (record app { presentation = Presentation.keep }) (Output.hide ∷ [])

unfoldable pub accepts : App → ViewContext → Bool
accepts app context = elim app.current [
  | none ↦ context.generation == 0 && context.session == none
  | some c ↦ accepts_action c.context app.generation context
]

unfoldable pub shows : App → ViewContext → Bool
shows app context = elim app.current [
  | none ↦ context.generation == 0 && context.session == none
  | some c ↦ c.context == context
]

unfoldable pub current_session : App → Option Session
current_session app = elim app.current [ none ↦ none | some c ↦ c.session ]

-- `App::session_id`.
unfoldable pub session_id : App → Option Str
unfolding current_session
session_id app = elim (current_session app) [ none ↦ none | some s ↦ some s.session_id ]

unfoldable pub first_bundle : List Session → Option Str
first_bundle [] = none
first_bundle (s ∷ ss) = elim s.terminal.bundle_id [ none ↦ first_bundle ss | some b ↦ some b ]

-- `App::place`, as the bundle beside whose window the view is placed.
unfoldable pub place : App → Output
unfolding current_session first_bundle
place app = Output.place (elim (current_session app) [
  | none ↦ first_bundle app.sessions
  | some s ↦ elim s.terminal.bundle_id [ none ↦ first_bundle app.sessions | some b ↦ some b ]
])

unfoldable pub show : Now → App → Target → Option FilePath → Presentation → Option Reply → Run
unfolding next
show now app target path presentation reply =
    let generation = next app.generation in
    submit_job now.workers_free app (Job.open_view generation target path reply) (record app {
      generation = generation;
      presentation = presentation;
      scratchpad = no_file_listing;
      bookmarks = no_file_listing;
    })

abbrev pub rendering : Current → List Output
rendering c =
    Output.push (
      DaemonMessage.render c.context c.path c.file_identity c.source c.session c.documents
        (elim c.awaiting [ none ↦ none | some a ↦ some (name a.harness) ]))
    ∷ (if c.missing then Output.push DaemonMessage.banner ∷ [] else [])

unfoldable pub render : App → List Output
unfolding name
render app = elim app.page_ready [
  | false ↦ []
  | true ↦ elim app.current [ none ↦ [] | some c ↦ rendering c ]
]

unfoldable pub refresh : Now → App → Run
refresh now app = elim app.refresh_pending [
  | true ↦ done app []
  | false ↦
      submit_job now.workers_free app
        (Job.refresh (elim app.current [ none ↦ none | some c ↦ some c.context ]))
        (record app { refresh_pending = true })
]

unfoldable pub reload : Now → App → Run
reload now app = elim app.current [
  | none ↦ done app []
  | some c ↦ elim c.path [
    | none ↦ done app []
    | some path ↦
        if not (c.context.generation == app.generation)
        then done app []
        else submit_job now.workers_free app (Job.reload app.generation app.reload_revision path)
            app
  ]
]

abbrev pub slot : App → Bool → FileListing
slot app scratchpad = if scratchpad then app.scratchpad else app.bookmarks

abbrev pub set_slot : App → Bool → FileListing → App
set_slot app true listing = record app { scratchpad = listing }
set_slot app false listing = record app { bookmarks = listing }

unfoldable pub list : Now → App → ViewContext → ℕ → Bool → Run
unfolding accepts current_session
list now app context request_id scratchpad =
    if not (accepts app context)
    then fail app Error.viewer_changed
    else submit_job now.workers_free app
        (Job.list context request_id scratchpad (current_session app))
        (set_slot app scratchpad
          (record { request = some (context, request_id); listing = no_listing }))

unfoldable pub open_listed : Now → App → ViewContext → ℕ → FilePath → Bool → Run
unfolding accepts show session_id
open_listed now app context request_id path scratchpad =
    if accepts app context
      && ((slot app scratchpad).request == some (context, request_id)
          && any (λ d. d.path == path) (slot app scratchpad).listing.documents)
    then show now app (Target.session_if_live (session_id app)) (some path) Presentation.keep none
    else fail app Error.stale_listing

-- `App::send`.
unfoldable pub submit_send : Now → App → ViewContext → ℕ → Str → Option Str → Run
unfolding accepts session_id
submit_send now app context request_id text purpose =
    if not (accepts app context)
    then fail app Error.viewer_changed
    else if app.sending
    then fail app Error.send_in_progress
    else elim (session_id app) [
      | none ↦ fail app Error.no_session
      | some id ↦
          submit_job now.delivery_free app (Job.send context request_id id text purpose)
            (record app { sending = true })
    ]

-- `App::sent`.
abbrev pub send_result : ℕ → Option Str → Result Report → Output
send_result request_id purpose result =
    Output.push (DaemonMessage.send_result request_id purpose result)

-- A failed send is told to the page, and is no error of the event.
unfoldable pub report_failure : ℕ → Option Str → Run → Run
report_failure request_id purpose run = elim run.result [
  | ok _ ↦ run
  | err e ↦ done run.app (run.outputs ++ send_result request_id purpose (err e) ∷ [])
]

unfoldable pub switch : Now → App → ViewContext → Option Str → Option FilePath → Run
unfolding shows show session_id
switch now app context id path =
    if not (shows app context)
    then fail app Error.viewer_changed
    else if elim path [
      | none ↦ true
      | some p ↦
          id == session_id app
          && elim app.current [ none ↦ false | some c ↦ any (λ d. d.path == p) c.documents ]
    ]
    then show now app (Target.session id) path Presentation.keep none
    else fail app Error.unlisted_file

unfoldable pub starts_with : Str → Str → Bool
starts_with [] text = true
starts_with (c ∷ cs) [] = false
starts_with (c ∷ cs) (d ∷ text) = c == d && starts_with cs text

unfoldable pub page : Now → App → PageMessage → Run
unfolding render list open_listed switch submit_send report_failure starts_with
page now app PageMessage.ready =
    done (record app { page_ready = true })
      (Output.push (DaemonMessage.theme app.theme) ∷ render (record app { page_ready = true }))
page now app (PageMessage.list_scratchpad context id) = list now app context id true
page now app (PageMessage.list_bookmarks context id) = list now app context id false
page now app (PageMessage.open_scratchpad context id path) =
    open_listed now app context id path true
page now app (PageMessage.open_bookmark context id path) = open_listed now app context id path false
page now app (PageMessage.switch context id path) = switch now app context id path
page now app (PageMessage.send context id text purpose) =
    report_failure id purpose (submit_send now app context id text purpose)
page now app (PageMessage.copy text) = submit_job now.delivery_free app (Job.copy text) app
page now app PageMessage.hide =
    done (record app { presentation = Presentation.keep }) (Output.hide_and_return_focus ∷ [])
page now app (PageMessage.open_external url) = done app (
    if starts_with (codes "http://") url || starts_with (codes "https://") url
    then Output.open_url url ∷ []
    else [])
