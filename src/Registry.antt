-- ===== src/Registry.antt =====
-- The sessions that are registered (src/registry.rs): reading the directory of sessions, the live ones
-- among them, and the lookup of one by its id.
use peekback.Activity.{SessionKey, key_eq, operation_eq, outcome_eq, source_eq, valid_id}
use peekback.Base.{
  Bool, List, Option, Str, Str_discrete, [], codes, false, head?, if◌then◌else◌, keep, nat_eq, none,
  not, option_discrete, option_eq, some, str_eq, ◌&&◌, ◌++◌, ◌==◌, ◌∷◌,
}
use peekback.Base.Int.{int_eq, lez}
use peekback.Base.Paths.{path_eq}
use peekback.Base.Sort.{sort}
use peekback.Capture.Jobs.{list_of}
use peekback.Session.{Os, Session, activity_key, agent_alive, turn_eq}

-- A file of the directory of sessions: its extension, and the session it can be read as.
pub record EntryFile : Type 0 where
  pub extension : Option Str
  pub session : Option Session

abbrev pub readable_session : EntryFile → List Session
readable_session file = if file.extension == some (codes "json") then list_of file.session else []

abbrev pub readable_sessions : List EntryFile → List Session
readable_sessions [] = []
readable_sessions (file ∷ files) = readable_session file ++ readable_sessions files

abbrev pub most_recent : Session → Session → Bool
most_recent a b = lez b.last_active_at a.last_active_at

-- Entries without an end marker, the most recently active first.
unfoldable pub registered_in : (SessionKey → Bool) → List EntryFile → List Session
unfolding activity_key sort Str_discrete option_discrete
registered_in ended files =
    sort most_recent (keep (λ s. not (ended (activity_key s))) (readable_sessions files))

unfoldable pub load_all_in : Os → (SessionKey → Bool) → List EntryFile → List Session
unfolding registered_in agent_alive
load_all_in os ended files = keep (agent_alive os) (registered_in ended files)

-- The newest live session.
unfoldable pub newest : Os → (SessionKey → Bool) → List EntryFile → Option Session
unfolding load_all_in
newest os ended files = head? (load_all_in os ended files)

abbrev pub unless_ended : (SessionKey → Bool) → Option Session → Option Session
unless_ended ended none = none
unless_ended ended (some s) = if ended (activity_key s) then none else some s

-- The entry of an id, which must be valid, since it becomes a file's name.
unfoldable pub registered_at : (SessionKey → Bool) → Str → Option Session → Option Session
unfolding valid_id activity_key
registered_at ended id entry = if valid_id id then unless_ended ended entry else none

abbrev pub if_alive : Os → Option Session → Option Session
if_alive os none = none
if_alive os (some s) = if agent_alive os s then some s else none

unfoldable pub find_session : Os → (SessionKey → Bool) → Str → Option Session → Option Session
unfolding registered_at agent_alive
find_session os ended id entry = if_alive os (registered_at ended id entry)

-- The file is an entry of a live session that passes the test: its extension is that of a JSON file,
-- it can be read as a session, which has not ended, and the agent of the session is alive.
abbrev pub is_live_entry : Os → (SessionKey → Bool) → (Session → Bool) → EntryFile → Bool
is_live_entry os ended p file = file.extension == some (codes "json") && elim file.session [
  | none ↦ false
  | some s ↦ not (ended (activity_key s)) && (agent_alive os s && p s)
]
