-- ===== src/Capture.antt =====
-- src/capture.rs and src/turn_history.rs: what is stored of a session when a turn closes. What the
-- transcripts, the directories and the registry hold at that moment is an argument.
pub mod Jobs
pub mod Overlap
use peekback.Activity.{
  FileEvent, Operation, SessionKey, SessionKey_discrete, Source, Source_discrete, file_event,
  key_eq, operation_eq, outcome_eq, source_eq,
}
use peekback.Base.{
  Bool, Eq, List, Option, Result, Str, Str_discrete, [], any, contains, false, find, if◌then◌else◌,
  keep, map, nat_eq, none, not, ok, option_discrete, option_eq, some, str_eq, ℕ, ℕ_discrete, ◌&&◌,
  ◌*◌, ◌++◌, ◌-◌, ◌==◌, ◌>>=◌, ◌^◌, ◌||◌, ◌∷◌,
}
use peekback.Base.Int.{i64_max, int_eq, lez, ltz, maxz, pos, saturating_add, ℤ, ◌-ℤ◌}
use peekback.Base.Paths.{Component, FilePath, FilePath_discrete, path_eq, starts_with}
use peekback.Base.Sort.{sort}
use peekback.Daemon.Events.{event}
use peekback.Query.Scan.{ScanReport, ScanRoot, Tree, scan_report}
use peekback.Session.{
  Os, Session, Turn, Turn_discrete, activity_key, agent_alive, last_agent_activity, memory_dir,
  scratchpad_dir, turn_eq,
}
use peekback.Store.{Codec, Dir, le_str}
use peekback.Store.Append.{append_new, identity_eq}

abbrev pub slack_secs : ℕ
slack_secs = 2

abbrev pub scan_budget : ℕ
scan_budget = 20000

abbrev pub recent_turns_secs : ℕ
recent_turns_secs = 24 * 60 * 60

abbrev pub quiet_secs : ℕ
quiet_secs = 10 * 60

-- The times of a turn, widened on both sides; the difference is exact.
unfoldable pub covers : Turn → ℤ → Bool
unfolding ◌-ℤ◌ saturating_add
covers turn at =
    lez (turn.started_at -ℤ pos slack_secs) at && lez at (saturating_add turn.ended_at slack_secs)

unfoldable pub abandoned : Os → Session → ℤ → Turn
unfolding last_agent_activity
abandoned os session started_at = record {
  started_at = started_at;
  ended_at = maxz (last_agent_activity os session) started_at;
}

pub record RecordedTurn : Type 0 where
  pub turn : Turn
  pub roots : List FilePath

unfoldable pub RecordedTurn_discrete : Discrete RecordedTurn
unfolding ℕ_discrete
RecordedTurn_discrete = hlevel ℕ_discrete

instance abbrev pub recorded_turn_eq : Eq RecordedTurn
recorded_turn_eq = record { dec = RecordedTurn_discrete }

-- `turn_history::History`.
pub record TurnHistory : Type 0 where
  pub session : SessionKey
  pub turns : List RecordedTurn

-- The open turn reaches the present while the agent looks busy.
abbrev pub open_turn : Os → Session → ℤ → ℤ → Turn
open_turn os session now started_at =
    let turn = abandoned os session started_at in
    if agent_alive os session && ltz (now -ℤ turn.ended_at) (pos quiet_secs)
    then record turn { ended_at = i64_max }
    else turn

abbrev pub is_recorded : Option TurnHistory → Turn → Bool
is_recorded none turn = false
is_recorded (some history) turn = any (λ r. r.turn == turn) history.turns

unfoldable pub turns : Os → Session → Option TurnHistory → ℤ → List Turn
unfolding abandoned agent_alive ◌-ℤ◌ Turn_discrete
turns os session recorded now =
    keep (λ turn. not (is_recorded recorded turn)) session.recent_turns
    ++ elim session.turn_started_at [
      | none ↦ []
      | some started_at ↦ open_turn os session now started_at ∷ []
    ]

unfoldable pub remember : List Turn → Turn → List Turn
unfolding ◌-ℤ◌
remember turns closed =
    keep (λ turn. lez (closed.ended_at -ℤ pos recent_turns_secs) turn.ended_at)
      (turns ++ closed ∷ [])

abbrev pub in_dir_of : FilePath → Option FilePath → Bool
in_dir_of path none = false
in_dir_of path (some dir) = starts_with path dir

abbrev pub in_roots : FilePath → Session → Bool
in_roots path other = starts_with path other.cwd || in_dir_of path (memory_dir other)

abbrev pub was_working : Os → List TurnHistory → ℤ → ℤ → Session → Bool
was_working os history now at other =
    any (λ turn. covers turn at)
      (turns os other (find (λ h. h.session == activity_key other) history) now)

-- The live sessions that may have changed the file as well.
unfoldable pub concurrent : Os → FileEvent → List Session → List TurnHistory → ℤ → List SessionKey
unfolding starts_with memory_dir covers turns activity_key SessionKey_discrete
concurrent os event others history now = map activity_key (
    keep (λ other. in_roots event.path other && was_working os history now event.timestamp other)
      others)

-- The recorded turns of a session overlap the event.
abbrev pub overlaps : FileEvent → TurnHistory → Bool
overlaps event other =
    any (λ r. covers r.turn event.timestamp && any (λ dir. starts_with event.path dir) r.roots)
      other.turns

unfoldable pub add_recorded :
    SessionKey → FileEvent → List TurnHistory → List SessionKey → List SessionKey
unfolding covers starts_with SessionKey_discrete
add_recorded key event [] found = found
add_recorded key event (other ∷ history) found = add_recorded key event history (
    if not (other.session == key) && overlaps event other && not (contains found other.session)
    then found ++ other.session ∷ []
    else found)

abbrev pub by_agent_and_id : SessionKey → SessionKey → Bool
by_agent_and_id a b =
    if a.agent.as_str == b.agent.as_str
    then le_str a.session_id b.session_id
    else le_str a.agent.as_str b.agent.as_str

-- The sessions that a scanned event names beside its own.
unfoldable pub mark_concurrent :
    Os → SessionKey → List Session → List TurnHistory → ℤ → FileEvent → FileEvent
unfolding concurrent add_recorded sort le_str Source_discrete Str_discrete
mark_concurrent os key others history now event =
    if event.source == Source.scratchpad_scan then event else record event {
      concurrent =
          sort by_agent_and_id
            (add_recorded key event history (concurrent os event others history now));
    }

abbrev pub usize_max : ℕ
usize_max = 2 ^ 64 - 1

abbrev pub scratchpad_root : Option FilePath → List ScanRoot
scratchpad_root none = []
scratchpad_root (some path) =
    record {
      path = path;
      since = pos 0;
      until = i64_max;
      depth = usize_max;
      source = Source.scratchpad_scan;
    }
    ∷ []

abbrev pub memory_root : Turn → Option FilePath → List ScanRoot
memory_root turn none = []
memory_root turn (some path) =
    record {
      path = path;
      since = turn.started_at -ℤ pos slack_secs;
      until = saturating_add turn.ended_at slack_secs;
      depth = 1;
      source = Source.memory_scan;
    }
    ∷ []

-- The working directory, unless it is the root or the home directory.
abbrev pub project_root : Option FilePath → Turn → FilePath → List ScanRoot
project_root home turn cwd =
    if not (cwd == Component.root_dir ∷ []) && not (home == some cwd)
    then record {
      path = cwd;
      since = turn.started_at -ℤ pos slack_secs;
      until = saturating_add turn.ended_at slack_secs;
      depth = 4;
      source = Source.project_scan;
    }
      ∷ []
    else []

unfoldable pub capture_roots : Os → Option FilePath → Session → Option Turn → List ScanRoot
unfolding scratchpad_dir memory_dir ◌-ℤ◌ saturating_add FilePath_discrete option_discrete
capture_roots os home session none = scratchpad_root (scratchpad_dir os session)
capture_roots os home session (some turn) =
    scratchpad_root (scratchpad_dir os session)
    ++ memory_root turn (memory_dir session)
    ++ project_root home turn session.cwd

-- What a capture finds: the transcript's events, times of files, directories, live sessions, turn
-- histories that can be read, the clock, and the name for a new batch.
pub record Found : Type 0 where
  pub os : Os
  pub codec : Codec
  pub transcript_events : SessionKey → FilePath → FilePath → List FileEvent
  pub modified_at : FilePath → Option ℤ
  pub tree : FilePath → Tree
  pub home : Option FilePath
  pub registered : List Session
  pub histories : List TurnHistory
  pub now : ℤ
  pub batch_name : Str

abbrev pub transcripts : Found → Session → List FileEvent
transcripts found session = elim session.transcript_path [
  | none ↦ []
  | some transcript ↦ found.transcript_events (activity_key session) session.cwd transcript
]

abbrev pub or_zero : Option ℤ → ℤ
or_zero none = pos 0
or_zero (some at) = at

abbrev pub legacy_event : Found → Session → FilePath → FileEvent
legacy_event found session path =
    file_event (activity_key session) session.cwd path (or_zero (found.modified_at path))
      Operation.write Source.legacy_registry

unfoldable pub capture_report : Found → Session → Option Turn → ScanReport
unfolding scan_report capture_roots activity_key
capture_report found session turn =
    scan_report (activity_key session) session.cwd found.tree
      (capture_roots found.os found.home session turn) scan_budget

-- An event of the scan, with the other registered sessions that may have changed the file.
unfoldable pub marked : Found → Session → FileEvent → FileEvent
unfolding mark_concurrent activity_key SessionKey_discrete
marked found session event =
    let key = activity_key session in
    let others = keep (λ s. not (activity_key s == key)) found.registered in
    mark_concurrent found.os key others found.histories found.now event

-- The events that a capture stores.
unfoldable pub captured_events : Found → Session → Option Turn → List FileEvent
unfolding file_event activity_key capture_report marked
captured_events found session turn =
    transcripts found session
    ++ map (legacy_event found session) session.written_files
    ++ map (marked found session) (capture_report found session turn).events

unfoldable pub capture_turn :
    Found → Session → Option Turn → Option Dir → Option Dir × Result (Unit {0})
unfolding captured_events append_new activity_key
capture_turn found session turn dir =
    let (dir', result) =
      append_new found.codec found.batch_name (activity_key session)
        (captured_events found session turn) dir in
    (dir', result >>= λ n. ok tt)
