-- ===== src/Record/Handler.antt =====
-- The handler of one event (`record` in src/record.rs), of its steps.
use peekback.Activity.{
  SessionKey, SessionKey_discrete, key_eq, operation_eq, outcome_eq, source_eq, valid_id,
}
use peekback.Base.{
  Bool, Error, List, Option, Result, Str, [], and, ensure, err, false, if◌then◌else◌, nat_eq, none,
  not, ok, option_eq, some, str_eq, true, ◌&&◌, ◌==◌, ◌>>◌,
}
use peekback.Base.Int.{int_eq, maxz, ℤ}
use peekback.Base.Paths.{path_eq}
use peekback.Capture.{recorded_turn_eq, remember}
use peekback.Capture.Jobs.{Write, enqueue, write_result, write_state}
use peekback.Daemon.Events.{started}
use peekback.Harness.{Harness, Harness_discrete, harness_eq, key}
use peekback.Record.{
  Calls, Observed, Place, Root, SessionEvent, Start, capture_context, closed_turn, end_session,
  ends_session, ends_turn, is_ended, is_fresh_start, is_starting, mark_ended, open_turn_of, or_else,
  queue_job, resume, retry_queue, save_turns, set_at, unless_failed, without_job,
}
use peekback.Session.{Session, Turn, activity_key, turn_eq}
use peekback.Store.Append.{append, identity_eq}

-- What the beginning of a hook hands on: the former entry, the turn it closed, the session to capture,
-- and the results of saving the job and the turns.
pub record Closing : Type 0 where
  pub previous : Option Session
  pub closed : Option Turn
  pub context : Option Session
  pub queued : Result (Unit {0})
  pub retained : Result (Unit {0})

abbrev pub capture_unqueued : Calls → Closing → Root → Root
capture_unqueued calls c root = without_job calls c.queued c.context c.closed root

-- After a session's end: the marker, the queue, the entry.
unfoldable pub record_end : Calls → SessionKey → Closing → Root → Root × Result (Unit {0})
unfolding mark_ended retry_queue end_session without_job
record_end calls key c root = unless_failed (mark_ended calls.mark key root) (λ marked.
    let (retried, captured) = retry_queue calls key marked in
    unless_failed (end_session calls.mark_again calls.removal key retried)
      (λ done. (capture_unqueued calls c done, and (and c.queued c.retained) captured)))

abbrev pub from_previous {ℓ} : {A : Type ℓ} → Option Session → A → (Session → A) → A
from_previous none default f = default
from_previous (some previous) default f = f previous

abbrev pub next_turn_start : Calls → SessionEvent → Option ℤ → Option ℤ
next_turn_start calls SessionEvent.prompt_submitted started = some calls.now
next_turn_start calls SessionEvent.turn_ended started = none
next_turn_start calls (SessionEvent.session_started Start.fresh_start) started = none
next_turn_start calls _ started = started

abbrev pub remember_closed : Option Turn → List Turn → List Turn
remember_closed none recent = recent
remember_closed (some turn) recent = remember recent turn

abbrev pub incarnation_of : Calls → SessionEvent → Option Session → Result Str
incarnation_of calls event none = calls.incarnation
incarnation_of calls event (some previous) =
    if is_fresh_start event then calls.incarnation else ok previous.incarnation

-- The entry that the event leads to.
unfoldable pub next_session : Calls → Observed → Place → Closing → Str → Session
unfolding remember
next_session calls o place c incarnation = record {
  session_id = o.session_id;
  incarnation = incarnation;
  harness = o.harness;
  transcript_path =
      or_else place.transcript (from_previous c.previous none (λ s. s.transcript_path));
  written_files = from_previous c.previous [] (λ s. s.written_files);
  cwd = place.cwd;
  started_at = from_previous c.previous calls.now (λ s. s.started_at);
  last_active_at = from_previous c.previous calls.now (λ s. maxz calls.now s.last_active_at);
  terminal = calls.terminal;
  turn_started_at = next_turn_start calls o.event (open_turn_of c.previous);
  recent_turns = remember_closed c.closed (from_previous c.previous [] (λ s. s.recent_turns));
}

-- The events of tools are stored at once.
unfoldable pub store_tools : Calls → SessionEvent → Session → Root → Root × Result (Unit {0})
unfolding append activity_key SessionKey_discrete
store_tools calls (SessionEvent.tool_used events) session root =
    let key = activity_key session in
    let (dir, result) =
      append calls.found.codec calls.found.batch_name key events (root.kept key).store in
    (record root { kept = set_at key (record (root.kept key) { store = dir }) root.kept }, result)
store_tools calls _ session root = (root, ok tt)

abbrev pub is_none {ℓ} : {A : Type ℓ} → Option A → Bool
is_none none = true
is_none (some a) = false

-- A turn's end without an entry before it captures what the new session has.
unfoldable pub queue_first :
    Calls → SessionEvent → Option Session → Session → Root → Root × Result (Unit {0})
unfolding enqueue activity_key SessionKey_discrete
queue_first calls event previous session root =
    let key = activity_key session in
    let (queue, result) =
      enqueue calls.late_enqueue calls.late_job_name session none (root.queues key) in
    if ends_turn event && is_none previous
    then (record root { queues = set_at key queue root.queues }, result)
    else (root, ok tt)

abbrev pub write_entry : Write → Session → Root → Root × Result (Unit {0})
write_entry write session root =
    (record root { entry = write_state write root.entry (some session) }, write_result write)

-- A start takes the end marker away behind the entry.
unfoldable pub reopen : Calls → SessionEvent → SessionKey → Root → Root × Result (Unit {0})
unfolding resume
reopen calls event key root =
    if is_starting event then resume calls.clear key root else (root, ok tt)

unfoldable pub publish_entry :
    Calls → SessionEvent → SessionKey → Session → Root → Root × Result (Unit {0})
unfolding reopen
publish_entry calls event key session root =
    unless_failed (write_entry calls.publish session root) (reopen calls event key)

abbrev pub is_tool : SessionEvent → Bool
is_tool (SessionEvent.tool_used events) = true
is_tool _ = false

-- The end of a hook: boundaries of turns retry the queue.
unfoldable pub after_publish :
    Calls → SessionEvent → SessionKey → Closing → Root → Root × Result (Unit {0})
unfolding retry_queue without_job
after_publish calls event key c root =
    let unqueued = capture_unqueued calls c root in
    let (retried, captured) = retry_queue calls key unqueued in
    if is_tool event
    then (unqueued, and c.queued c.retained)
    else (retried, and (and c.queued c.retained) captured)

unfoldable pub record_open :
    Calls → Observed → SessionKey → Closing → Session → Root → Root × Result (Unit {0})
unfolding queue_first publish_entry after_publish
record_open calls o key c session root =
    unless_failed (queue_first calls o.event c.previous session root) (λ queued.
      unless_failed (publish_entry calls o.event key session queued)
        (after_publish calls o.event key c))

-- Only a start reopens a session that has ended.
unfoldable pub record_session :
    Calls → Observed → SessionKey → Closing → Session → Root → Root × Result (Unit {0})
unfolding store_tools record_open without_job SessionKey_discrete
record_session calls o key c session root =
    unless_failed (store_tools calls o.event session root) (λ stored.
      if not (is_starting o.event) && is_ended stored key
      then (capture_unqueued calls c stored, c.queued)
      else record_open calls o key c session stored)

unfoldable pub record_place :
    Calls → Observed → SessionKey → Closing → Option Place → Root → Root × Result (Unit {0})
unfolding next_session record_session without_job
record_place calls o key c none root = (capture_unqueued calls c root, c.queued)
record_place calls o key c (some place) root = elim (incarnation_of calls o.event c.previous) [
  | err e ↦ (root, err e)
  | ok incarnation ↦ record_session calls o key c (next_session calls o place c incarnation) root
]

unfoldable pub record_closing :
    Calls → Observed → SessionKey → Closing → Root → Root × Result (Unit {0})
unfolding record_end record_place
record_closing calls o key c root =
    if ends_session o.event
    then record_end calls key c root
    else record_place calls o key c o.place root

-- What happens before the event is told apart.
unfoldable pub close : Calls → Observed → Root → Root × Closing
unfolding closed_turn capture_context queue_job save_turns
close calls o root =
    let closed = closed_turn calls.found.os calls.now o.event root.entry in
    let context = capture_context o.event o.place closed root.entry in
    let (with_job, queued) = queue_job calls context closed root in
    let (saved, retained) = save_turns calls o.event closed root.entry with_job in
    (
      saved,
      record {
        previous = root.entry;
        closed = closed;
        context = context;
        queued = queued;
        retained = retained;
      },
    )

abbrev pub of_other_agent : Harness → Option Session → Bool
of_other_agent harness none = false
of_other_agent harness (some previous) = not (previous.harness == harness)

unfoldable pub record_event : Calls → Observed → Root → Root × Result (Unit {0})
unfolding valid_id key close record_closing Harness_discrete
record_event calls o root =
    elim (do ensure (valid_id o.session_id) Error.invalid_session_id; calls.locked) [
      | err e ↦ (root, err e)
      | ok a ↦
          if of_other_agent o.harness root.entry
          then (root, err Error.other_agent)
          else let (closing, c) = close calls o root in
            record_closing calls o (key o.harness o.session_id) c closing
    ]
