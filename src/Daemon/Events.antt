-- ===== src/Daemon/Events.antt =====
-- How the daemon handles an event (src/daemon/controller.rs).
use peekback.Base.{
  Bool, Error, List, Option, Result, Str, [], err, false, find, if◌then◌else◌, leb, nat_eq, none,
  not, ok, option_eq, some, str_eq, true, ℕ, ◌++◌, ◌+◌, ◌==◌, ◌||◌, ◌∷◌,
}
use peekback.Base.Int.{int_eq}
use peekback.Base.Paths.{FilePath, path_eq}
use peekback.Daemon.{
  App, Awaiting, Current, DaemonMessage, Document, Listing, Loaded, Now, Output, Presentation,
  Reply, Request, Response, Run, Target, Theme, UserEvent, ViewContext, accepts_action, after,
  appearance, done, listing_request_eq, session_identity_eq, started_in, theme_eq, view_context_eq,
}
use peekback.Daemon.Actions.{
  accepts, next, page, place, render, send_result, session_id, set_slot, show, slot,
}
use peekback.Session.{Session, turn_eq}

pub data AfterRefresh : Type 0 where
  ignore retry : AfterRefresh
  start : Str → AfterRefresh
  update : Option FilePath → AfterRefresh

abbrev pub first_path : List Document → Option FilePath
first_path [] = none
first_path (d ∷ ds) = some d.path

unfoldable pub started : Option Awaiting → List Session → Option Session
unfolding started_in
started none sessions = none
started (some a) sessions = find (started_in a) sessions

-- The decision on a view that the refresh was computed for.
abbrev pub refreshed_view : Current → Option Session → List Document → AfterRefresh
refreshed_view doc (some s) documents = AfterRefresh.start s.session_id
refreshed_view doc none documents =
    AfterRefresh.update (elim doc.path [ none ↦ first_path documents | some p ↦ none ])

unfoldable pub after_refresh :
    Option Current → ℕ → Option ViewContext → List Session → List Document → AfterRefresh
unfolding started
after_refresh none generation none sessions documents = AfterRefresh.ignore
after_refresh none generation (some context) sessions documents = AfterRefresh.retry
after_refresh (some doc) generation none sessions documents =
    if not (doc.context.generation == generation) then AfterRefresh.ignore else AfterRefresh.retry
after_refresh (some doc) generation (some context) sessions documents =
    if accepts_action doc.context generation context
    then refreshed_view doc (started doc.awaiting sessions) documents
    else if not (doc.context.generation == generation)
    then AfterRefresh.ignore
    else AfterRefresh.retry

abbrev pub present : Presentation → List Output
present Presentation.keep = []
present Presentation.bring_forward = Output.bring_forward ∷ []
present Presentation.focus = Output.focus ∷ []

-- The watcher follows the document that is shown.
abbrev pub watching : Now → Option FilePath → List Output
watching now none = Output.clear_watch ∷ []
watching now (some path) = Output.watch path ∷ elim (now.watch path) [
  | ok _ ↦ []
  | err e ↦ Output.push (DaemonMessage.no_live_reload e) ∷ []
]

abbrev pub theming : App → Option Theme → List Output
theming app theme =
    if theme == app.theme
    then []
    else Output.set_appearance (elim theme [ none ↦ none | some t ↦ appearance t ])
      ∷ Output.push (DaemonMessage.theme theme)
      ∷ []

-- The view that has been loaded comes on screen.
unfoldable pub install : Now → App → Loaded → Run
unfolding render place
install now app loaded =
    let app' = record app { current = some loaded.current; theme = loaded.theme } in
    done (record app' { refresh_at = some now.instant })
      (watching now loaded.current.path
        ++ (theming app loaded.theme ++ (render app' ++ (place app' ∷ present app'.presentation))))

-- The view that stays is the newest one again.
abbrev pub set_generation : ℕ → Current → Current
set_generation generation c = record c {
  context = record { generation = generation; session = c.context.session };
}

abbrev pub map_current : (Current → Current) → App → App
map_current f app = record app { current = elim app.current [ none ↦ none | some c ↦ some (f c) ] }

abbrev pub is_focus : Presentation → Bool
is_focus Presentation.focus = true
is_focus Presentation.bring_forward = false
is_focus Presentation.keep = false

unfoldable pub keep_view : App → ℕ → Option Reply → Error → Run
unfolding render place
keep_view app generation reply e =
    let app' = map_current (set_generation generation) app in
    record {
      app = app';
      outputs = render app' ++ elim reply [
        | some r ↦ []
        | none ↦ if is_focus app.presentation then place app' ∷ Output.focus ∷ [] else []
      ];
      result = err e;
    }

unfoldable pub landing : Now → App → ℕ → Result Loaded → Option Reply → Run
unfolding install keep_view
landing now app generation result reply =
    if elim reply [ none ↦ false | some r ↦ leb r.1 now.instant ]
    then keep_view app generation reply Error.timed_out
    else elim result [
      | err e ↦ keep_view app generation reply e
      | ok loaded ↦ install now app loaded
    ]

abbrev pub response_of : Result (Unit {0}) → Response
response_of (ok _) = Response.okay
response_of (err e) = Response.error e

-- A client that waits hears the result of its open.
abbrev pub answer : Option Reply → Run → Run
answer none run = run
answer (some r) run = record run {
  outputs = run.outputs ++ Output.reply r.0 (response_of run.result) ∷ [];
}

unfoldable pub opened : Now → App → ℕ → Result Loaded → Option Reply → Run
unfolding landing
opened now app generation result reply =
    if not (generation == app.generation)
    then done app (elim reply [
      | none ↦ []
      | some r ↦ Output.reply r.0 (Response.error Error.superseded) ∷ []
    ])
    else answer reply (landing now app generation result reply)

-- A client whose open is not queued hears it at once.
abbrev pub answer_error : ℕ → Run → Run
answer_error channel run = elim run.result [
  | ok _ ↦ run
  | err e ↦ done run.app (run.outputs ++ Output.reply channel (Response.error e) ∷ [])
]

unfoldable pub serve : Now → App → Request → ℕ → ℕ → Run
unfolding show session_id
serve now app (Request.show id path focus) channel deadline = answer_error channel (
    show now app (Target.session id) path
      (if focus then Presentation.focus else Presentation.bring_forward) (some (channel, deadline)))
serve now app Request.status channel deadline = done app (
    Output.reply channel
      (Response.status (elim app.current [ none ↦ none | some c ↦ c.path ]) (session_id app))
    ∷ [])
serve now app Request.hide channel deadline =
    done (record app { presentation = Presentation.keep })
      (Output.hide_and_return_focus ∷ Output.reply channel Response.okay ∷ [])
serve now app Request.quit channel deadline =
    done app (Output.exit ∷ Output.reply channel Response.okay ∷ [])

unfoldable pub requested : Now → App → Request → ℕ → ℕ → Run
unfolding serve
requested now app request channel deadline =
    if leb deadline now.instant
    then done app (Output.reply channel (Response.error Error.timed_out) ∷ [])
    else serve now app request channel deadline

unfoldable pub hotkey : Now → App → Run
unfolding place show
hotkey now app =
    if now.is_focused
    then done (record app { presentation = Presentation.keep }) (Output.hide_and_return_focus ∷ [])
    else if now.is_visible
    then done app (place app ∷ Output.focus ∷ [])
    else show now app Target.focused none Presentation.focus none

-- A reload that found other text makes another view of it.
abbrev pub with_text : App → Current → Str → Option FilePath → App
with_text app doc source file_identity = record app {
  current = some (record (set_generation (next app.generation) doc) {
    source = source;
    file_identity = file_identity;
    missing = false;
  });
  generation = next app.generation;
}

-- An editor may have replaced the file.
abbrev pub rewatch : Option FilePath → List Output
rewatch none = []
rewatch (some path) = Output.watch path ∷ []

unfoldable pub reloaded_text : App → Current → Str → Option FilePath → Run
unfolding next render
reloaded_text app doc source file_identity =
    if not (source == doc.source) || (doc.missing || not (file_identity == doc.file_identity))
    then done (with_text app doc source file_identity)
        (rewatch doc.path ++ render (with_text app doc source file_identity))
    else done app []

unfoldable pub reloaded : App → ℕ → ℕ → Result Str → Bool → Option FilePath → Run
unfolding reloaded_text
reloaded app generation revision result missing file_identity =
    if not (generation == app.generation) || not (revision == app.reload_revision)
    then done app []
    else elim app.current [
      | none ↦ done app []
      | some doc ↦ elim result [
        | ok source ↦ reloaded_text app doc source file_identity
        | err e ↦
            if missing
            then done (record app { current = some (record doc { missing = true }) })
                (Output.push DaemonMessage.banner ∷ [])
            else done app (Output.push (DaemonMessage.cannot_reload e) ∷ [])
      ]
    ]

abbrev pub get_or_insert : Option ℕ → ℕ → Option ℕ
get_or_insert none n = some n
get_or_insert (some m) n = some m

-- The documents of the view on screen, told to the page.
unfoldable pub update_documents : App → Current → List Document → List Output
update_documents app doc documents = elim doc.session [
  | none ↦ []
  | some s ↦
      if app.page_ready
      then Output.push (DaemonMessage.documents doc.context s.session_id documents) ∷ []
      else []
]

-- A view without a document opens the first.
abbrev pub open_first : Now → App → Option FilePath → Run
open_first now app none = done app []
open_first now app (some path) =
    show now app (Target.session_if_live (session_id app)) (some path) Presentation.keep none

unfoldable pub update_view : Now → App → List Document → Option FilePath → Run
unfolding update_documents show session_id
update_view now app documents first = elim app.current [
  | none ↦ done app []
  | some doc ↦
      after (update_documents app doc documents) (
        open_first now (record app { current = some (record doc { documents = documents }) }) first)
]

abbrev pub decide : Now → App → List Document → AfterRefresh → Run
decide now app documents AfterRefresh.ignore = done app []
decide now app documents AfterRefresh.retry = done (record app { refresh_at = some now.instant }) []
decide now app documents (AfterRefresh.start id) =
    show now app (Target.session (some id)) none Presentation.keep none
decide now app documents (AfterRefresh.update first) = update_view now app documents first

unfoldable pub refreshed : Now → App → Option ViewContext → List Session → List Document → Run
unfolding after_refresh show update_view
refreshed now app context sessions documents =
    let app' = record app { refresh_pending = false; sessions = sessions } in
    decide now app' documents (after_refresh app.current app.generation context sessions documents)

unfoldable pub listed : App → ViewContext → ℕ → Bool → Listing → Bool → Run
unfolding accepts
listed app context request_id scratchpad listing available =
    if not (accepts app context)
    then done app []
    else if not ((slot app scratchpad).request == some (context, request_id))
    then done app []
    else done
        (set_slot app scratchpad
          (record { request = (slot app scratchpad).request; listing = listing }))
        (Output.push (
            if scratchpad
            then DaemonMessage.scratchpad context request_id available listing
            else DaemonMessage.bookmarks context request_id listing)
          ∷ [])

-- `App::event`.
unfoldable pub event : Now → App → UserEvent → Run
unfolding page opened requested hotkey next reloaded refreshed listed
event now app (UserEvent.page message) = page now app message
event now app (UserEvent.opened generation result reply) = opened now app generation result reply
event now app (UserEvent.request request channel deadline) =
    requested now app request channel deadline
event now app UserEvent.hotkey = hotkey now app
event now app UserEvent.doc_changed =
    done
      (record app {
        reload_revision = next app.reload_revision;
        reload_at = some (now.instant + 100);
      })
      []
event now app (UserEvent.reloaded generation revision result missing file_identity) =
    reloaded app generation revision result missing file_identity
event now app UserEvent.registry_changed =
    done (record app { refresh_at = get_or_insert app.refresh_at (now.instant + 100) }) []
event now app (UserEvent.refreshed context sessions documents) =
    refreshed now app context sessions documents
event now app (UserEvent.listed context id scratchpad listing available) =
    listed app context id scratchpad listing available
event now app (UserEvent.sent id purpose result) =
    done (record app { sending = false }) (send_result id purpose result ∷ [])
event now app (UserEvent.copied result) = record { app = app; outputs = []; result = result }
