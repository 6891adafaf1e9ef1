-- ===== src/Examples/Lifecycle.antt =====
-- The theorems on captures and on recording at the session of `Data`.
use peekback.Activity.{
  FileEvent, SessionKey, SessionKey_discrete, Source, key_eq, operation_eq, outcome_eq, source_eq,
}
use peekback.Base.{
  All, Error, List, Str, [], arith, codes, nat_eq, none, ok, option_eq, refl, some, str_eq, true,
  ◌∷◌, ◌≡◌, ◌⊎◌,
}
use peekback.Base.Int.{int_eq, pos}
use peekback.Base.Paths.{path_eq}
use peekback.Capture.{Found, TurnHistory, recorded_turn_eq}
use peekback.Capture.Jobs.{Attempt, HistoryFile, JobFile, Kept, Write, record_history}
use peekback.Capture.Jobs.Attempts.{CanSettle, Spent, retry_gives_up, round}
use peekback.Capture.Jobs.Recorded.{Keeps, record_history-Keeps}
use peekback.Examples.Data.{event_at, key_s, running_agent, session_s, ten_byte_codec, tmp}
use peekback.Harness.{Harness, harness_eq, key}
use peekback.Query.Scan.{Tree}
use peekback.Record.{Calls, Observed, Place, Root, SessionEvent, is_ended}
use peekback.Record.Entries.{Continues, IsEntry, record_event-IsEntry}
use peekback.Record.Handler.{record_event}
use peekback.Record.Reopened.{Ended, record_event-Ended, record_event_over}
use peekback.Registry.{EntryFile}
use peekback.Session.{Os, Session, Turn, turn_eq}

abbrev os_s : Os
os_s = record { info = running_agent; transcript_activity = λ path. none; uid = codes "501" }

abbrev key_t : SessionKey
key_t = record { agent = record { as_str = codes "codex" }; session_id = codes "t" }

abbrev turn_s : Turn
turn_s = record { started_at = pos 3; ended_at = pos 8 }

abbrev history_t : TurnHistory
history_t = record { session = key_t; turns = record { turn = turn_s; roots = tmp ∷ [] } ∷ [] }

abbrev scanned : FileEvent
scanned = record (event_at (pos 5)) { source = Source.project_scan }

abbrev worked : Session
worked = record session_s { recent_turns = turn_s ∷ []; turn_started_at = some (pos 10) }

abbrev later_turn : Turn
later_turn = record { started_at = pos 10; ended_at = pos 12 }

history_saved :
    (record_history Write.written worked (some later_turn) HistoryFile.no_history).1 ≡ ok tt
unfolding record_history
history_saved = refl

record_history-Keeps_example :
    Keeps worked
      (some later_turn)
      HistoryFile.no_history
      (record_history Write.written worked (some later_turn) HistoryFile.no_history).0
record_history-Keeps_example =
    record_history-Keeps Write.written worked (some later_turn) HistoryFile.no_history history_saved

abbrev nothing_found : Found
nothing_found = record {
  os = os_s;
  codec = ten_byte_codec;
  transcript_events = λ key cwd path. [];
  modified_at = λ path. none;
  tree = λ path. Tree.absent (codes "not found");
  home = none;
  registered = [];
  histories = [];
  now = pos 20;
  batch_name = codes "2";
}

-- Another session, of which a turn is recorded.
abbrev overlapping : Found
overlapping = record nothing_found { registered = session_s ∷ []; histories = history_t ∷ [] }

-- The entry of a session and a file of another kind.
abbrev entry_files : List EntryFile
entry_files =
    record { extension = some (codes "json"); session = some session_s }
    ∷ record { extension = none; session = none }
    ∷ []

-- The history cannot be saved, so the job fails.
abbrev failing : Str → Attempt
failing stem = record {
  found = nothing_found;
  history = Write.failed_before (Error.io (codes "full"));
  rewrite = Write.written;
  remove = Write.written;
  aside = Write.written;
}

abbrev job_file : JobFile
job_file = record {
  stem = codes "1";
  extension = some (codes "json");
  is_regular = true;
  job = some (record { session = worked; turn = some later_turn; attempts = 0 });
}

abbrev empty_kept : Kept
empty_kept = record { history = HistoryFile.no_history; store = none }

failing-CanSettle : CanSettle failing
failing-CanSettle stem = (refl, refl)

retry_gives_up_example :
    All
      (Spent key_s 3)
      (round failing key_s
        (round failing key_s (round failing key_s (job_file ∷ [], empty_kept)))).0
    × ((round failing key_s (
          round failing key_s
            (round failing key_s (round failing key_s (job_file ∷ [], empty_kept))))).1
        ≡ (round failing key_s
            (round failing key_s (round failing key_s (job_file ∷ [], empty_kept)))).1)
retry_gives_up_example =
    retry_gives_up failing failing failing failing key_s (job_file ∷ []) empty_kept
      failing-CanSettle failing-CanSettle failing-CanSettle

abbrev smooth : Calls
smooth = record {
  now = pos 20;
  terminal = session_s.terminal;
  locked = ok tt;
  incarnation = ok (codes "j");
  found = nothing_found;
  attempt = λ stem. record (failing stem) { history = Write.written };
  job_name = codes "1";
  enqueue = Write.written;
  history = Write.written;
  mark = Write.written;
  mark_again = Write.written;
  removal = Write.written;
  late_job_name = codes "2";
  late_enqueue = Write.written;
  publish = Write.written;
  clear = Write.written;
}

abbrev in_tmp : Place
in_tmp = record { cwd = tmp; transcript = none }

abbrev prompted : Observed
prompted = record {
  harness = Harness.claude;
  session_id = codes "s";
  event = SessionEvent.prompt_submitted;
  place = some in_tmp;
}

abbrev stopped : Observed
stopped = record prompted { event = SessionEvent.session_ended }

abbrev live_root : Root
live_root = record { entry = some worked; ended = []; queues = λ key. []; kept = λ key. empty_kept }

abbrev over_root : Root
over_root = record live_root { entry = none; ended = key_s ∷ [] }

over_root_ended : is_ended over_root (key Harness.claude (codes "s")) ≡ true
unfolding key SessionKey_discrete
over_root_ended = refl

record_event_over_example :
    (is_ended (record_event smooth prompted over_root).0 (key Harness.claude (codes "s")) ≡ true)
    × (((record_event smooth prompted over_root).0.entry ≡ none)
        ⊎ ((record_event smooth prompted over_root).0.entry ≡ none))
record_event_over_example = record_event_over smooth prompted over_root refl over_root_ended

stopped_well : (record_event smooth stopped live_root).1 ≡ ok tt
unfolding record_event
stopped_well = refl

record_event-Ended_example :
    Ended (key Harness.claude (codes "s")) (record_event smooth stopped live_root).0
record_event-Ended_example = record_event-Ended smooth stopped live_root refl stopped_well

worked-IsEntry : IsEntry (codes "s") (some worked)
worked-IsEntry = (refl, (omega arith, tt))

record_event-IsEntry_example :
    IsEntry (codes "s") (record_event smooth prompted live_root).0.entry
    × Continues (some worked) (record_event smooth prompted live_root).0.entry
record_event-IsEntry_example = record_event-IsEntry smooth prompted live_root worked-IsEntry
