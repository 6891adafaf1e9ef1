-- ===== src/Record.antt =====
-- src/record.rs and src/lifecycle.rs: what one event of a session does to the files under the root,
-- while the lifecycle lock of its id is held. What the operating system answers is an argument.
pub mod Entries
pub mod Handler
pub mod Life
pub mod Reopened
use peekback.Activity.{
  FileEvent, SessionKey, SessionKey_discrete, key_eq, operation_eq, outcome_eq, source_eq, validate,
}
use peekback.Base.{
  Bool, List, Option, Result, Str, contains, err, false, if◌then◌else◌, keep, nat_eq, none, not, ok,
  option_eq, some, str_eq, true, ◌==◌, ◌||◌, ◌∷◌,
}
use peekback.Base.Int.{int_eq, maxz, ℤ}
use peekback.Base.Paths.{FilePath, path_eq}
use peekback.Capture.{Found, abandoned, capture_turn, recorded_turn_eq}
use peekback.Capture.Jobs.{
  Attempt, JobFile, Kept, Retry, Write, enqueue, record_history, retry, write_result, write_state,
}
use peekback.Daemon.Actions.{session_id}
use peekback.Harness.{Harness, harness_eq, key}
use peekback.Session.{Os, Session, Terminal, Turn, activity_key, turn_eq}

pub data Start : Type 0 where
  fresh_start compaction : Start

pub data SessionEvent : Type 0 where
  session_started : Start → SessionEvent
  prompt_submitted turn_ended session_ended : SessionEvent
  tool_used : List FileEvent → SessionEvent

pub record Place : Type 0 where
  pub cwd : FilePath
  pub transcript : Option FilePath

-- `record::Observation`.
pub record Observed : Type 0 where
  pub harness : Harness
  pub session_id : Str
  pub event : SessionEvent
  pub place : Option Place

-- The files that concern one session id: its live entry, the end markers, and by key the queue of
-- captures and what captures change.
pub record Root : Type 0 where
  pub entry : Option Session
  pub ended : List SessionKey
  pub queues : SessionKey → List JobFile
  pub kept : SessionKey → Kept

-- What one hook meets.
pub record Calls : Type 0 where
  pub now : ℤ
  pub terminal : Terminal
  pub locked : Result (Unit {0})
  pub incarnation : Result Str
  pub found : Found
  pub attempt : Str → Attempt
  pub job_name : Str
  pub enqueue : Write
  pub history : Write
  pub mark : Write
  pub mark_again : Write
  pub removal : Write
  pub late_job_name : Str
  pub late_enqueue : Write
  pub publish : Write
  pub clear : Write

abbrev pub set_at {ℓ} : {A : Type ℓ} → SessionKey → A → (SessionKey → A) → SessionKey → A
set_at key a f k = if k == key then a else f k

-- `lifecycle::ended`.
abbrev pub is_ended : Root → SessionKey → Bool
is_ended root key = contains root.ended key

unfoldable pub mark_ended : Write → SessionKey → Root → Root × Result (Unit {0})
unfolding validate
mark_ended write key root = elim (validate key) [
  | err e ↦ (root, err e)
  | ok a ↦
      (record root { ended = write_state write root.ended (key ∷ root.ended) }, write_result write)
]

abbrev pub unless_failed :
    Root × Result (Unit {0}) → (Root → Root × Result (Unit {0})) → Root × Result (Unit {0})
unless_failed (root, ok a) f = f root
unless_failed (root, err e) f = (root, err e)

abbrev pub remove_entry : Write → Root → Root × Result (Unit {0})
remove_entry write root =
    (record root { entry = write_state write root.entry none }, write_result write)

-- `lifecycle::end`: the marker first, then the entry.
unfoldable pub end_session : Write → Write → SessionKey → Root → Root × Result (Unit {0})
unfolding mark_ended
end_session mark removal key root = unless_failed (mark_ended mark key root) (remove_entry removal)

-- `lifecycle::resume`.
unfoldable pub resume : Write → SessionKey → Root → Root × Result (Unit {0})
unfolding SessionKey_discrete
resume write key root = (
  record root { ended = write_state write root.ended (keep (λ k. not (k == key)) root.ended) },
  write_result write,
)

-- The turn that the event closes: at once, or one that nobody ended.
abbrev pub closes : Os → ℤ → SessionEvent → Session → ℤ → Option Turn
closes os now SessionEvent.turn_ended previous started_at =
    some (record { started_at = started_at; ended_at = maxz now started_at })
closes os now SessionEvent.prompt_submitted previous started_at =
    some (abandoned os previous started_at)
closes os now (SessionEvent.session_started Start.fresh_start) previous started_at =
    some (abandoned os previous started_at)
closes os now SessionEvent.session_ended previous started_at =
    some (abandoned os previous started_at)
closes os now _ previous started_at = none

abbrev pub open_turn_of : Option Session → Option ℤ
open_turn_of none = none
open_turn_of (some previous) = previous.turn_started_at

unfoldable pub closed_turn : Os → ℤ → SessionEvent → Option Session → Option Turn
unfolding abandoned
closed_turn os now event none = none
closed_turn os now event (some previous) = elim previous.turn_started_at [
  | none ↦ none
  | some started_at ↦ closes os now event previous started_at
]

abbrev pub ends_session : SessionEvent → Bool
ends_session SessionEvent.session_ended = true
ends_session _ = false

abbrev pub ends_turn : SessionEvent → Bool
ends_turn SessionEvent.turn_ended = true
ends_turn _ = false

abbrev pub is_starting : SessionEvent → Bool
is_starting (SessionEvent.session_started start) = true
is_starting _ = false

abbrev pub is_fresh_start : SessionEvent → Bool
is_fresh_start (SessionEvent.session_started Start.fresh_start) = true
is_fresh_start _ = false

abbrev pub has_value {ℓ} : {A : Type ℓ} → Option A → Bool
has_value none = false
has_value (some a) = true

abbrev pub transcript_of : Option Place → Option FilePath
transcript_of none = none
transcript_of (some place) = place.transcript

abbrev pub or_else {ℓ} : {A : Type ℓ} → Option A → Option A → Option A
or_else none b = b
or_else (some a) b = some a

-- The session as it is captured: a turn's end may bring its transcript.
abbrev pub captured_context : SessionEvent → Option Place → Session → Session
captured_context SessionEvent.turn_ended place session = record session {
  transcript_path = or_else session.transcript_path (transcript_of place);
}
captured_context _ place session = session

unfoldable pub capture_context :
    SessionEvent → Option Place → Option Turn → Option Session → Option Session
capture_context event place closed none = none
capture_context event place closed (some previous) =
    if has_value closed || ends_session event || ends_turn event
    then some (captured_context event place previous)
    else none

unfoldable pub queue_job : Calls → Option Session → Option Turn → Root → Root × Result (Unit {0})
unfolding enqueue activity_key SessionKey_discrete
queue_job calls none closed root = (root, ok tt)
queue_job calls (some context) closed root =
    let key = activity_key context in
    let (queue, result) = enqueue calls.enqueue calls.job_name context closed (root.queues key) in
    (record root { queues = set_at key queue root.queues }, result)

-- A capture whose job was not saved; its error is only printed.
abbrev pub capture_at : Found → Session → Option Turn → Kept → Kept
capture_at found context closed kept = record kept {
  store = (capture_turn found context closed kept.store).0;
}

unfoldable pub without_job : Calls → Result (Unit {0}) → Option Session → Option Turn → Root → Root
unfolding capture_turn activity_key SessionKey_discrete
without_job calls (err e) (some context) closed root =
    let key = activity_key context in
    record root {
      kept = set_at key (capture_at calls.found context closed (root.kept key)) root.kept;
    }
without_job calls _ _ closed root = root

unfoldable pub save_turns :
    Calls → SessionEvent → Option Turn → Option Session → Root → Root × Result (Unit {0})
unfolding record_history activity_key SessionKey_discrete
save_turns calls event closed none root = (root, ok tt)
save_turns calls event closed (some previous) root =
    let key = activity_key previous in
    let (history, result) = record_history calls.history previous closed (root.kept key).history in
    if has_value closed || ends_session event
    then (
      record root { kept = set_at key (record (root.kept key) { history = history }) root.kept },
      result,
    )
    else (root, ok tt)

unfoldable pub retry_queue : Calls → SessionKey → Root → Root × Result (Unit {0})
unfolding retry SessionKey_discrete
retry_queue calls key root =
    let (files, kept, result) =
      retry calls.attempt Retry.automatic key (root.queues key) (root.kept key) in
    (
      record root { queues = set_at key files root.queues; kept = set_at key kept root.kept },
      result,
    )
