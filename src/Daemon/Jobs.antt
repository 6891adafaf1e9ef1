-- ===== src/Daemon/Jobs.antt =====
-- What the workers do for the daemon (src/daemon/controller.rs). The registry, the files and the
-- focused pane are those that a job finds.
use peekback.Base.{
  Bool, Error, List, Option, Result, Str, [], err, false, find, if◌then◌else◌, nat_eq, none, not,
  ok, option_eq, some, str_eq, true, ℕ, ◌>>=◌, ◌||◌, ◌∷◌,
}
use peekback.Base.Int.{int_eq}
use peekback.Base.Paths.{FilePath, path_eq}
use peekback.Daemon.{
  Awaiting, Current, Document, Listing, Reply, Target, Theme, UserEvent, ViewContext, identity_of,
  listing_request_eq, no_listing, owns, session_identity_eq, theme_eq, view_context_eq,
}
use peekback.Resolve.{Focus, server_eq}
use peekback.Send.{Effect, Report, backend_eq, send}
use peekback.Session.{Os, Session, agent_alive, scratchpad_dir, turn_eq}

pub record Surroundings : Type 0 where
  pub find : Str → Option Session
  pub load_all : List Session
  pub focused : Focus
  pub documents : Session → List Document
  pub canonicalize : FilePath → Result FilePath
  pub source : FilePath → Result Str
  pub exists : FilePath → Bool
  pub theme : Theme
  pub folder : FilePath → Listing
  pub bookmarks : Option FilePath → Listing
  pub os : Os

abbrev pub registered : Surroundings → Option Str → Result (Option Session)
registered world none = ok none
registered world (some id) = elim (world.find id) [
  | none ↦ err Error.not_registered
  | some s ↦ ok (some s)
]

-- The document that a view shows, if any.
abbrev pub chosen_path : Option FilePath → Bool → List Document → Result (Option FilePath)
chosen_path (some path) subject documents = ok (some path)
chosen_path none false documents = err Error.nothing_to_show
chosen_path none true [] = ok none
chosen_path none true (d ∷ ds) = ok (some d.path)

abbrev pub transposed : Option FilePath → (FilePath → Result FilePath) → Result (Option FilePath)
transposed none f = ok none
transposed (some path) f = f path >>= λ p. ok (some p)

abbrev pub text_of : Surroundings → Option FilePath → Result Str
text_of world none = ok []
text_of world (some path) = world.source path

abbrev pub is_some {ℓ} : {A : Type ℓ} → Option A → Bool
is_some none = false
is_some (some a) = true

-- `open`.
unfoldable pub open_view :
    Surroundings → ℕ → Option Str → Option FilePath → Option Awaiting → Result Current
unfolding identity_of
open_view world generation id path awaiting = do
  found ← registered world id
  let documents : List Document = elim found [ none ↦ [] | some s ↦ world.documents s ]
  path ← chosen_path path (is_some found || is_some awaiting) documents
  file_identity ← transposed path world.canonicalize
  source ← text_of world path
  ok (record {
    context = record {
      generation = generation;
      session = elim found [ none ↦ none | some s ↦ some (identity_of s) ];
    };
    session = found;
    awaiting = awaiting;
    documents = documents;
    path = path;
    file_identity = file_identity;
    source = source;
    missing = false;
  })

-- Which session a view opens for.
abbrev pub subject : Surroundings → Target → Option Str × Option Awaiting
subject world (Target.session id) = (id, none)
subject world (Target.session_if_live none) = (none, none)
subject world (Target.session_if_live (some id)) =
    (if is_some (world.find id) then some id else none, none)
subject world Target.focused = elim world.focused [
  | Focus.session s ↦ (some s.session_id, none)
  | Focus.unstarted harness pane ↦ (none, some (record { harness = harness; pane = pane }))
  | Focus.nothing ↦ (none, none)
]

-- The job of `App::show`, at the moment that it runs.
unfoldable pub run_open : Surroundings → ℕ → Target → Option FilePath → Option Reply → UserEvent
unfolding open_view
run_open world generation target path reply =
    let (id, awaiting) = subject world target in
    UserEvent.opened generation
      (open_view world generation id path awaiting >>= λ current.
        ok (record { current = current; theme = some world.theme }))
      reply

-- The job of `App::refresh`.
unfoldable pub run_refresh : Surroundings → Option ViewContext → UserEvent
unfolding owns
run_refresh world context = UserEvent.refreshed context world.load_all (elim context [
  | none ↦ []
  | some c ↦ elim (find (owns c) world.load_all) [ none ↦ [] | some s ↦ world.documents s ]
])

abbrev pub result_option : Result FilePath → Option FilePath
result_option (ok p) = some p
result_option (err e) = none

-- The job of `App::reload`.
abbrev pub run_reload : Surroundings → ℕ → ℕ → FilePath → UserEvent
run_reload world generation revision path =
    UserEvent.reloaded generation revision (world.source path) (not (world.exists path))
      (result_option (world.canonicalize path))

-- The scratchpad that a listing looks into: that of a live session.
unfoldable pub listed_dir : Surroundings → Option Session → Option FilePath
unfolding agent_alive scratchpad_dir
listed_dir world none = none
listed_dir world (some s) = if agent_alive world.os s then scratchpad_dir world.os s else none

-- The job of `App::list`.
unfoldable pub run_list : Surroundings → ViewContext → ℕ → Bool → Option Session → UserEvent
unfolding listed_dir
run_list world context id true viewed = elim (listed_dir world viewed) [
  | none ↦ UserEvent.listed context id true no_listing false
  | some dir ↦ UserEvent.listed context id true (world.folder dir) true
]
run_list world context id false viewed =
    UserEvent.listed context id false
      (world.bookmarks (elim viewed [ none ↦ none | some s ↦ some s.cwd ])) true

-- The job of `App::send`: the session must be the one that the view shows.
unfoldable pub run_send :
    Surroundings
    → (Session → Str → List Effect × Result Report)
    → ViewContext
    → ℕ
    → Str
    → Str
    → Option Str
    → List Effect × UserEvent
unfolding owns
run_send world send context request_id id text purpose = elim (world.find id) [
  | none ↦ ([], UserEvent.sent request_id purpose (err Error.session_ended))
  | some target ↦
      if not (owns context target)
      then ([], UserEvent.sent request_id purpose (err Error.session_restarted))
      else let (effects, result) = send target text in
        (effects, UserEvent.sent request_id purpose result)
]
