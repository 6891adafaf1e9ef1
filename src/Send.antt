-- ===== src/Send.antt =====
-- src/send.rs: where text for a session goes, and its delivery. What the surroundings answer at
-- each moment is an argument, and every call that hands text over is recorded as an effect, also
-- when it then fails.
pub mod Text
pub mod Selection
pub mod Safety
use peekback.Base.{
  Bool, Eq, Error, List, Option, Result, Str, Str_discrete, [], codes, err, false, find,
  if◌then◌else◌, keep, leb, ltb, nat_eq, none, not, ok, option_discrete, option_eq, some, str_eq,
  true, ℕ, ℕ_discrete, ◌&&◌, ◌==◌, ◌>>=◌, ◌>>◌, ◌||◌, ◌∷◌,
}
use peekback.Base.Int.{int_eq}
use peekback.Base.Paths.{path_eq}
use peekback.Harness.{harness_eq, name}
use peekback.Mux.{Inspection, Mux, Pane, matches_tty, mux_eq, mux_name, pane_eq, parse_mux}
use peekback.Process.{foreground_tty, process_eq}
use peekback.Session.{Os, Session, agent_alive, turn_eq}

pub data Backend : Type 0 where
  mux : Mux → Backend
  keystroke clipboard : Backend

unfoldable pub Backend_discrete : Discrete Backend
Backend_discrete = hlevel

instance abbrev pub backend_eq : Eq Backend
backend_eq = record { dec = Backend_discrete }

unfoldable pub backend_name : Backend → Str
unfolding mux_name
backend_name (Backend.mux m) = mux_name m
backend_name Backend.keystroke = codes "keystroke"
backend_name Backend.clipboard = codes "clipboard"

-- `Backend::parse`: `auto` means no pin.
unfoldable pub parse_backend : Str → Result (Option Backend)
unfolding parse_mux
parse_backend name =
    if name == codes "auto"
    then ok none
    else if name == codes "keystroke"
    then ok (some Backend.keystroke)
    else if name == codes "clipboard"
    then ok (some Backend.clipboard)
    else if name == codes "wezterm" || name == codes "kitty"
    then err Error.removed_backend
    else elim (parse_mux name) [
      | none ↦ err Error.unknown_backend
      | some m ↦ ok (some (Backend.mux m))
    ]

pub data Destination : Type 0 where
  pane : Pane → ℕ → Destination
  keystroke clipboard : Destination

unfoldable pub destination_backend : Destination → Backend
destination_backend (Destination.pane p tty) = Backend.mux p.mux
destination_backend Destination.keystroke = Backend.keystroke
destination_backend Destination.clipboard = Backend.clipboard

-- `pinned.is_none_or(|backend| backend == Backend::Mux(pane.mux))`.
abbrev pub allows : Option Backend → Pane → Bool
allows none p = true
allows (some backend) p = backend == Backend.mux p.mux

abbrev pub is_candidate : Option Backend → Option ℕ → (Pane → Inspection) → Pane → Bool
is_candidate pinned none inspect p = false
is_candidate pinned (some tty) inspect p = allows pinned p && matches_tty (inspect p) (some tty)

-- The end of `select`, where no pane was verified.
unfoldable pub without_pane : Option Backend → Result Destination
without_pane none = ok Destination.clipboard
without_pane (some backend) = err Error.unverified_pane

unfoldable pub select_pane :
    Session → Option Backend → Option ℕ → (Pane → Inspection) → Result Destination
unfolding without_pane
select_pane session pinned none inspect = without_pane pinned
select_pane session pinned (some tty) inspect =
    elim (find (is_candidate pinned (some tty) inspect) session.terminal.panes) [
      | some p ↦ ok (Destination.pane p tty)
      | none ↦ without_pane pinned
    ]

unfoldable pub select :
    Session → Option Backend → Option ℕ → (Pane → Inspection) → Result Destination
unfolding select_pane
select session (some Backend.clipboard) agent_tty inspect = ok Destination.clipboard
select session (some Backend.keystroke) agent_tty inspect = ok Destination.keystroke
select session (some (Backend.mux m)) agent_tty inspect =
    select_pane session (some (Backend.mux m)) agent_tty inspect
select session none agent_tty inspect = select_pane session none agent_tty inspect

-- What the program can observe at one moment.
pub record Moment : Type 0 where
  pub os : Os
  pub inspect : Pane → Inspection

-- The terminal whose foreground the session's agent is in.
unfoldable pub agent_tty : Moment → Session → Option ℕ
unfolding foreground_tty
agent_tty now s = elim s.terminal.agent [
  | none ↦ none
  | some agent ↦ foreground_tty now.os.info agent
]

unfoldable pub resolve : Moment → Session → Option Backend → Result Destination
unfolding select agent_tty
resolve now session pinned = select session pinned (agent_tty now session) now.inspect

unfoldable pub probe : Moment → Session → Option Backend → Result Backend
unfolding resolve destination_backend
probe now session pinned = do
  destination ← resolve now session pinned
  ok (destination_backend destination)

is_control : ℕ → Bool
is_control c = ltb c 32 || leb 127 c && leb c 159

unfoldable pub is_text : ℕ → Bool
unfolding is_control
is_text c = c == b'\n' || c == b'\t' || not (is_control c)

-- `replace("\r\n", "\n")`: with the character in front held back.
unfoldable pub unix_newlines : Str → Str
unix_newlines [] = []
unix_newlines (c ∷ []) = c ∷ []
unix_newlines (c ∷ d ∷ cs) =
    let rest = unix_newlines (d ∷ cs) in if c == 13 && d == b'\n' then rest else c ∷ rest

-- `trim_end_matches('\n')`.
unfoldable pub trim_end : Str → Str
trim_end [] = []
trim_end (c ∷ cs) = let rest = trim_end cs in if c == b'\n' && rest == [] then [] else c ∷ rest

unfoldable pub paste_safe : Str → Str
unfolding unix_newlines is_text trim_end
paste_safe text = trim_end (keep is_text (unix_newlines text))

pub data Effect : Type 0 where
  pasted : Pane → Str → Effect
  typed : Str → Str → Effect
  copied : Str → Effect

-- The calls that hand text over, with the results that they will have.
pub record Channels : Type 0 where
  pub send_to_pane : Pane → Str → Result (Unit {0})
  pub paste_into_frontmost : Str → Str → Result (Unit {0})
  pub copy : Str → Result (Unit {0})

-- The moments at which `send` looks: when it selects, before it delivers, when it rechecks the
-- pane, and when it reports.
pub record Timeline : Type 0 where
  pub selecting : Moment
  pub checking : Moment
  pub delivering : Moment
  pub reporting : Moment

unfoldable pub deliver :
    Channels → Moment → Session → Pane → ℕ → Str → List Effect × Result (Unit {0})
unfolding matches_tty agent_tty
deliver channels now session p tty text =
    let current = agent_tty now session in
    if not (current == some tty) || not (matches_tty (now.inspect p) current)
    then ([], err Error.pane_lost)
    else (Effect.pasted p text ∷ [], channels.send_to_pane p text)

pub data Note : Type 0 where
  sent_through : Mux → Note
  pasted_in_front copied_agent_gone copied_paste_it copied_unverified : Note

pub record Report : Type 0 where
  pub backend : Backend
  pub note : Note

unfoldable pub copied_note : Moment → Session → Option Backend → Note
unfolding agent_alive
copied_note now session pinned =
    if not (agent_alive now.os session)
    then Note.copied_agent_gone
    else if pinned == some Backend.clipboard
    then Note.copied_paste_it
    else Note.copied_unverified

-- A result that is reported with its note, and the effects so far.
abbrev pub report : List Effect × Result (Unit {0}) → Backend → Note → List Effect × Result Report
report (effects, done) backend note =
    (effects, done >>= λ _. ok (record { backend = backend; note = note }))

-- The `match destination` of `send`.
unfoldable pub hand_over :
    Channels → Timeline → Session → Str → Option Backend → Destination → List Effect × Result Report
unfolding deliver copied_note
hand_over channels t session text pinned (Destination.pane p tty) =
    report (deliver channels t.delivering session p tty text) (Backend.mux p.mux)
      (Note.sent_through p.mux)
hand_over channels t session text pinned Destination.keystroke = elim session.terminal.bundle_id [
  | none ↦ ([], err Error.no_bundle_id)
  | some bundle_id ↦
      report (Effect.typed bundle_id text ∷ [], channels.paste_into_frontmost bundle_id text)
        Backend.keystroke Note.pasted_in_front
]
hand_over channels t session text pinned Destination.clipboard =
    report (Effect.copied text ∷ [], channels.copy text) Backend.clipboard
      (copied_note t.reporting session pinned)

unfoldable pub send_to :
    Channels → Timeline → Session → Str → Option Backend → Destination → List Effect × Result Report
unfolding hand_over destination_backend agent_alive
send_to channels t session text pinned destination =
    if not (destination_backend destination == Backend.clipboard)
      && not (agent_alive t.checking.os session)
    then ([], err Error.agent_gone)
    else hand_over channels t session text pinned destination

unfoldable pub send :
    Channels → Timeline → Session → Str → Option Backend → List Effect × Result Report
unfolding paste_safe resolve send_to
send channels t session text pinned = elim (resolve t.selecting session pinned) [
  | err e ↦ ([], err e)
  | ok destination ↦ send_to channels t session (paste_safe text) pinned destination
]
