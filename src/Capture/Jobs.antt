-- ===== src/Capture/Jobs.antt =====
-- The saved turn histories (src/turn_history.rs) and the queue of captures (src/capture_jobs.rs).
-- The caller holds the lifecycle lock of the session. A file is written beside its place and renamed,
-- so a write that fails leaves the old content, or the new one if only the sync behind the rename
-- failed.
pub mod Attempts
pub mod Recorded
use peekback.Activity.{
  SessionKey, SessionKey_discrete, key_eq, operation_eq, outcome_eq, source_eq, validate,
}
use peekback.Base.{
  Bool, Error, List, Option, Result, Str, [], and, any, codes, contains, ensure, err, false,
  if◌then◌else◌, leb, length, nat_eq, none, not, ok, option_discrete, option_eq, some, str_eq, true,
  ℕ, ◌%◌, ◌++◌, ◌+◌, ◌==◌, ◌>>=◌, ◌>>◌, ◌^◌, ◌∷◌,
}
use peekback.Base.Int.{int_eq}
use peekback.Base.Paths.{FilePath, path_eq}
use peekback.Capture.{
  Found, RecordedTurn, RecordedTurn_discrete, TurnHistory, capture_turn, recorded_turn_eq, turns,
}
use peekback.Session.{Session, Turn, Turn_discrete, activity_key, memory_dir, turn_eq}
use peekback.Store.{Dir}

pub data Write : Type 0 where
  written : Write
  failed_before failed_after : Error → Write

abbrev pub write_result : Write → Result (Unit {0})
write_result Write.written = ok tt
write_result (Write.failed_before e) = err e
write_result (Write.failed_after e) = err e

abbrev pub write_state {ℓ} : {A : Type ℓ} → Write → A → A → A
write_state Write.written old update = update
write_state (Write.failed_before e) old update = old
write_state (Write.failed_after e) old update = update

pub data HistoryFile : Type 0 where
  no_history : HistoryFile
  unreadable_history : Error → HistoryFile
  saved_history : TurnHistory → HistoryFile

abbrev pub read_history : SessionKey → HistoryFile → Result TurnHistory
read_history key HistoryFile.no_history = ok (record { session = key; turns = [] })
read_history key (HistoryFile.unreadable_history e) = err e
read_history key (HistoryFile.saved_history history) = ok history

abbrev pub list_of {ℓ} : {A : Type ℓ} → Option A → List A
list_of none = []
list_of (some a) = a ∷ []

abbrev pub has_turn : List RecordedTurn → Turn → Bool
has_turn saved turn = any (λ old. old.turn == turn) saved

-- The loop over the recent turns: a turn that is saved keeps its roots.
unfoldable pub add_recent : List FilePath → List Turn → List RecordedTurn → List RecordedTurn
unfolding Turn_discrete
add_recent roots [] saved = saved
add_recent roots (turn ∷ recent) saved =
    add_recent roots recent
      (if has_turn saved turn then saved else saved ++ record { turn = turn; roots = roots } ∷ [])

unfoldable pub add_closed : List FilePath → Option Turn → List RecordedTurn → List RecordedTurn
unfolding RecordedTurn_discrete
add_closed roots none saved = saved
add_closed roots (some turn) saved =
    let added : RecordedTurn = record { turn = turn; roots = roots } in
    if contains saved added then saved else saved ++ added ∷ []

unfoldable pub turn_roots : Session → List FilePath
unfolding memory_dir
turn_roots session = session.cwd ∷ list_of (memory_dir session)

-- The history with the turns, and whether it has changed.
unfoldable pub updated : Session → Option Turn → TurnHistory → TurnHistory × Bool
unfolding add_recent add_closed turn_roots
updated session closed history =
    let turns =
      add_closed (turn_roots session) closed
        (add_recent (turn_roots session) session.recent_turns history.turns) in
    (record history { turns = turns }, not (length turns == length history.turns))

unfoldable pub recorded : Session → Option Turn → HistoryFile → Result (TurnHistory × Bool)
unfolding activity_key validate SessionKey_discrete updated
recorded session closed file = do
  validate (activity_key session)
  history ← read_history (activity_key session) file
  ensure (history.session == activity_key session) Error.other_history
  ok (updated session closed history)

-- `turn_history::record`.
unfoldable pub record_history :
    Write → Session → Option Turn → HistoryFile → HistoryFile × Result (Unit {0})
unfolding recorded
record_history write session closed file = elim (recorded session closed file) [
  | err e ↦ (file, err e)
  | ok change ↦
      if change.1
      then (write_state write file (HistoryFile.saved_history change.0), write_result write)
      else (file, ok tt)
]

pub record CaptureJob : Type 0 where
  pub session : Session
  pub turn : Option Turn
  pub attempts : ℕ

-- A file of the queue; its content may be no job.
pub record JobFile : Type 0 where
  pub stem : Str
  pub extension : Option Str
  pub is_regular : Bool
  pub job : Option CaptureJob

pub data Retry : Type 0 where
  automatic explicit : Retry

abbrev pub automatic_attempts : ℕ
automatic_attempts = 3

-- The state that a capture changes: the saved history and the directory of the session's events.
pub record Kept : Type 0 where
  pub history : HistoryFile
  pub store : Option Dir

-- What one attempt at a job meets.
pub record Attempt : Type 0 where
  pub found : Found
  pub history : Write
  pub rewrite : Write
  pub remove : Write
  pub aside : Write

unfoldable pub run_job : Attempt → CaptureJob → Kept → Kept × Result (Unit {0})
unfolding record_history capture_turn
run_job attempt job kept =
    let (history, saved) = record_history attempt.history job.session job.turn kept.history in
    let (store, stored) = capture_turn attempt.found job.session job.turn kept.store in
    (record { history = history; store = store }, and stored saved)

-- What is left of a job's file, the state, and the result.
abbrev pub Retried : Type 0
Retried = Option JobFile × Kept × Result (Unit {0})

abbrev pub set_aside : Write → JobFile → Kept → Retried
set_aside write file kept = (
  some (write_state write file (record file { extension = some (codes "corrupt") })),
  kept,
  and (write_result write) (err Error.corrupt_job),
)

-- A job that failed counts the attempt; a job that is done is removed.
unfoldable pub settle_job : Attempt → JobFile → CaptureJob → Kept × Result (Unit {0}) → Retried
settle_job attempt file job (kept, ok done) =
    (write_state attempt.remove (some file) none, kept, write_result attempt.remove)
settle_job attempt file job (kept, err e) =
    let counted = record job { attempts = (job.attempts + 1) % 2 ^ 32 } in
    (
      some (write_state attempt.rewrite file (record file { job = some counted })),
      kept,
      and (write_result attempt.rewrite) (err e),
    )

abbrev pub gives_up : Retry → CaptureJob → Bool
gives_up Retry.automatic job = leb automatic_attempts job.attempts
gives_up Retry.explicit job = false

unfoldable pub retry_found :
    Attempt → Retry → SessionKey → JobFile → Option CaptureJob → Kept → Retried
unfolding activity_key SessionKey_discrete run_job settle_job
retry_found attempt mode key file none kept = set_aside attempt.aside file kept
retry_found attempt mode key file (some job) kept =
    if not (activity_key job.session == key)
    then (some file, kept, err Error.other_session)
    else if gives_up mode job
    then (some file, kept, ok tt)
    else settle_job attempt file job (run_job attempt job kept)

unfoldable pub retry_file : Attempt → Retry → SessionKey → JobFile → Kept → Retried
unfolding retry_found option_discrete
retry_file attempt mode key file kept =
    if not (file.extension == some (codes "json"))
    then (some file, kept, ok tt)
    else if not file.is_regular
    then (some file, kept, err Error.not_regular_file)
    else retry_found attempt mode key file file.job kept

abbrev pub first_error : Result (Unit {0}) → Result (Unit {0}) → Result (Unit {0})
first_error (ok a) later = later
first_error (err e) later = err e

abbrev pub QueueResult : Type 0
QueueResult = List JobFile × Kept × Result (Unit {0})

-- The loop of `retry`: every file is tried, and the first error is the result.
unfoldable pub retry_files :
    (Str → Attempt) → Retry → SessionKey → List JobFile → Kept → QueueResult
unfolding retry_file
retry_files attempt mode key [] kept = ([], kept, ok tt)
retry_files attempt mode key (file ∷ files) kept =
    let (left, kept', result) = retry_file (attempt file.stem) mode key file kept in
    let (rest, kept'', later) = retry_files attempt mode key files kept' in
    (list_of left ++ rest, kept'', first_error result later)

abbrev pub after_checked : Result (Unit {0}) → QueueResult → QueueResult → QueueResult
after_checked (ok a) old update = update
after_checked (err e) (files, kept, result) update = (files, kept, err e)

-- A missing queue is an empty one.
unfoldable pub retry : (Str → Attempt) → Retry → SessionKey → List JobFile → Kept → QueueResult
unfolding validate retry_files
retry attempt mode key files kept =
    after_checked (validate key) (files, kept, ok tt) (retry_files attempt mode key files kept)

-- `enqueue`, under a name that is not in use.
unfoldable pub enqueue :
    Write → Str → Session → Option Turn → List JobFile → List JobFile × Result (Unit {0})
unfolding activity_key validate
enqueue write stem session turn files = elim (validate (activity_key session)) [
  | err e ↦ (files, err e)
  | ok a ↦ (
    write_state write files (
        files
        ++ record {
          stem = stem;
          extension = some (codes "json");
          is_regular = true;
          job = some (record { session = session; turn = turn; attempts = 0 });
        }
          ∷ []),
    write_result write,
  )
]
