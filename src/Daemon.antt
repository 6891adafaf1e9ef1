-- ===== src/Daemon.antt =====
-- The state and the messages of the viewer's daemon (src/daemon/controller.rs, src/daemon/state.rs,
-- src/daemon/messages.rs, src/protocol.rs). Instants are milliseconds, and the window, the watcher,
-- the page and the worker threads are told what to do by a list of outputs.
pub mod Jobs
pub mod Actions
pub mod Events
pub mod Loop
pub mod Wake
pub mod Replies
pub mod Answers
pub mod Served
pub mod Stale
pub mod Landing
pub mod Sending
pub mod Started
pub mod Ticking
pub mod Underway
use peekback.Activity.{SessionKey, key_eq, operation_eq, outcome_eq, source_eq}
use peekback.Base.{
  Bool, Eq, Error, List, Option, Result, Str, [], codes, contains, err, false, if◌then◌else◌,
  nat_eq, none, ok, option_eq, some, str_eq, true, ℕ, ℕ_discrete, ◌&&◌, ◌++◌, ◌==◌, ◌∷◌,
}
use peekback.Base.Int.{int_eq, ℤ}
use peekback.Base.Paths.{FilePath, path_eq}
use peekback.Harness.{Harness, harness_eq, key, label, name}
use peekback.Mux.{Pane, mux_eq, pane_eq}
use peekback.Process.{ProcessId, process_eq}
use peekback.Send.{Report, backend_eq}
use peekback.Session.{Session, activity_key, turn_eq}

pub record SessionIdentity : Type 0 where
  pub key : SessionKey
  pub incarnation : Str
  pub process : Option ProcessId
  pub started_at : ℤ

unfoldable pub SessionIdentity_discrete : Discrete SessionIdentity
unfolding ℕ_discrete
SessionIdentity_discrete = hlevel ℕ_discrete

instance abbrev pub session_identity_eq : Eq SessionIdentity
session_identity_eq = record { dec = SessionIdentity_discrete }

unfoldable pub identity_of : Session → SessionIdentity
unfolding activity_key
identity_of s = record {
  key = activity_key s;
  incarnation = s.incarnation;
  process = s.terminal.agent;
  started_at = s.started_at;
}

pub record ViewContext : Type 0 where
  pub generation : ℕ
  pub session : Option SessionIdentity

unfoldable pub ViewContext_discrete : Discrete ViewContext
unfolding ℕ_discrete
ViewContext_discrete = hlevel ℕ_discrete

instance abbrev pub view_context_eq : Eq ViewContext
view_context_eq = record { dec = ViewContext_discrete }

unfoldable pub listing_request_discrete : Discrete (ViewContext × ℕ)
unfolding ℕ_discrete
listing_request_discrete = hlevel ℕ_discrete

instance abbrev pub listing_request_eq : Eq (ViewContext × ℕ)
listing_request_eq = record { dec = listing_request_discrete }

-- `ViewContext::accepts`.
abbrev pub accepts_action : ViewContext → ℕ → ViewContext → Bool
accepts_action c generation action = c.generation == generation && c == action

unfoldable pub owns : ViewContext → Session → Bool
unfolding identity_of
owns c s = c.session == some (identity_of s)

-- A document of src/discovery.rs.
pub record Document : Type 0 where
  pub path : FilePath
  pub touched_at : ℤ
  pub label : Str
  pub scanned : Bool
  pub shared : Bool

-- A listing of src/bookmarks.rs.
pub record Listing : Type 0 where
  pub documents : List Document
  pub found : ℕ
  pub warnings : List Str

-- A theme of src/theme.rs; its font size is given by the bits of the float.
pub record Theme : Type 0 where
  pub name : Str
  pub font_family : Option Str
  pub font_size : Option ℕ

unfoldable pub Theme_discrete : Discrete Theme
unfolding ℕ_discrete
Theme_discrete = hlevel ℕ_discrete

instance abbrev pub theme_eq : Eq Theme
theme_eq = record { dec = Theme_discrete }

pub data Appearance : Type 0 where
  light dark : Appearance

-- `Theme::appearance`: the entry of `THEMES`.
abbrev pub appearance : Theme → Option Appearance
appearance t =
    if t.name == codes "light"
    then some Appearance.light
    else if t.name == codes "dark"
    then some Appearance.dark
    else none

pub record Awaiting : Type 0 where
  pub harness : Harness
  pub pane : Pane

unfoldable pub started_in : Awaiting → Session → Bool
started_in a s = s.harness == a.harness && contains s.terminal.panes a.pane

pub record Current : Type 0 where
  pub context : ViewContext
  pub session : Option Session
  pub awaiting : Option Awaiting
  pub documents : List Document
  pub path : Option FilePath
  pub file_identity : Option FilePath
  pub source : Str
  pub missing : Bool

pub record Loaded : Type 0 where
  pub current : Current
  pub theme : Option Theme

pub record FileListing : Type 0 where
  pub request : Option (ViewContext × ℕ)
  pub listing : Listing

abbrev pub no_listing : Listing
no_listing = record { documents = []; found = 0; warnings = [] }

abbrev pub no_file_listing : FileListing
no_file_listing = record { request = none; listing = no_listing }

pub data Target : Type 0 where
  session : Option Str → Target
  focused : Target
  session_if_live : Option Str → Target

pub data Presentation : Type 0 where
  keep bring_forward focus : Presentation

-- `App`, without the handles through which it acts.
pub record App : Type 0 where
  pub current : Option Current
  pub generation : ℕ
  pub reload_revision : ℕ
  pub reload_at : Option ℕ
  pub refresh_at : Option ℕ
  pub refresh_pending : Bool
  pub next_poll : ℕ
  pub page_ready : Bool
  pub theme : Option Theme
  pub sessions : List Session
  pub scratchpad : FileListing
  pub bookmarks : FileListing
  pub sending : Bool
  pub presentation : Presentation

-- `App::new` at the instant `now`.
unfoldable pub new_app : ℕ → App
new_app now = record {
  current = none;
  generation = 0;
  reload_revision = 0;
  reload_at = none;
  refresh_at = some now;
  refresh_pending = false;
  next_poll = now;
  page_ready = false;
  theme = none;
  sessions = [];
  scratchpad = no_file_listing;
  bookmarks = no_file_listing;
  sending = false;
  presentation = Presentation.keep;
}

-- The protocol of the socket.
pub data Request : Type 0 where
  show : Option Str → Option FilePath → Bool → Request
  status hide quit : Request

-- An error carries its cause in place of its text.
pub data Response : Type 0 where
  okay : Response
  status : Option FilePath → Option Str → Response
  error : Error → Response

-- A channel on which a client waits, by a number, and the instant until which it does.
abbrev pub Reply : Type 0
Reply = ℕ × ℕ

pub data PageMessage : Type 0 where
  ready : PageMessage
  list_scratchpad : ViewContext → ℕ → PageMessage
  open_scratchpad : ViewContext → ℕ → FilePath → PageMessage
  list_bookmarks : ViewContext → ℕ → PageMessage
  open_bookmark : ViewContext → ℕ → FilePath → PageMessage
  switch : ViewContext → Option Str → Option FilePath → PageMessage
  send : ViewContext → ℕ → Str → Option Str → PageMessage
  copy : Str → PageMessage
  hide : PageMessage
  open_external : Str → PageMessage

pub data DaemonMessage : Type 0 where
  render :
      ViewContext
      → Option FilePath
      → Option FilePath
      → Str
      → Option Session
      → List Document
      → Option Str
      → DaemonMessage
  documents : ViewContext → Str → List Document → DaemonMessage
  scratchpad : ViewContext → ℕ → Bool → Listing → DaemonMessage
  bookmarks : ViewContext → ℕ → Listing → DaemonMessage
  banner : DaemonMessage
  toast no_live_reload cannot_reload : Error → DaemonMessage
  theme : Option Theme → DaemonMessage
  send_result : ℕ → Option Str → Result Report → DaemonMessage

-- What the worker threads are given to do.
pub data Job : Type 0 where
  open_view : ℕ → Target → Option FilePath → Option Reply → Job
  refresh : Option ViewContext → Job
  reload : ℕ → ℕ → FilePath → Job
  list : ViewContext → ℕ → Bool → Option Session → Job
  send : ViewContext → ℕ → Str → Str → Option Str → Job
  copy : Str → Job

pub data UserEvent : Type 0 where
  request : Request → ℕ → ℕ → UserEvent
  doc_changed registry_changed hotkey : UserEvent
  page : PageMessage → UserEvent
  opened : ℕ → Result Loaded → Option Reply → UserEvent
  reloaded : ℕ → ℕ → Result Str → Bool → Option FilePath → UserEvent
  refreshed : Option ViewContext → List Session → List Document → UserEvent
  listed : ViewContext → ℕ → Bool → Listing → Bool → UserEvent
  sent : ℕ → Option Str → Result Report → UserEvent
  copied : Result (Unit {0}) → UserEvent

pub data Output : Type 0 where
  push : DaemonMessage → Output
  submit : Job → Output
  watch : FilePath → Output
  clear_watch : Output
  place : Option Str → Output
  set_appearance : Option Appearance → Output
  bring_forward focus hide hide_and_return_focus : Output
  reply : ℕ → Response → Output
  open_url : Str → Output
  exit : Output

-- What the daemon finds when it handles an event: the time, whether the queues of the two pools
-- have room, what the window says of itself, and whether a file can be watched.
pub record Now : Type 0 where
  pub instant : ℕ
  pub workers_free : Bool
  pub delivery_free : Bool
  pub is_focused : Bool
  pub is_visible : Bool
  pub watch : FilePath → Result (Unit {0})

-- What handling an event does: the state after it, the outputs in their order, and the result.
pub record Run : Type 0 where
  pub app : App
  pub outputs : List Output
  pub result : Result (Unit {0})

abbrev pub done : App → List Output → Run
done app outputs = record { app = app; outputs = outputs; result = ok tt }

abbrev pub fail : App → Error → Run
fail app e = record { app = app; outputs = []; result = err e }

-- Outputs in front of a run.
abbrev pub after : List Output → Run → Run
after outputs run = record { app = run.app; outputs = outputs ++ run.outputs; result = run.result }

-- `Workers::submit`: a job is refused where its queue is full.
abbrev pub busy : Error
busy = Error.io (codes "Viewer is busy; try again")

abbrev pub submit_job : Bool → App → Job → App → Run
submit_job true app job app' = done app' (Output.submit job ∷ [])
submit_job false app job app' = fail app busy
