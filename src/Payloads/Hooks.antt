-- ===== src/Payloads/Hooks.antt =====
-- The decoding of a payload (src/harness/hook_json.rs) and the hook of src/record.rs.
use peekback.Activity.{
  FileEvent, Outcome, Source, key_eq, operation_eq, outcome_eq, source_eq, valid_id,
}
use peekback.Base.{
  Bool, List, Option, Result, Str, Str_discrete, [], codes, false, if◌then◌else◌, map, nat_eq, none,
  ok, option_discrete, option_eq, some, str_eq, true, ◌==◌, ◌>>=◌, ◌||◌, ◌∷◌,
}
use peekback.Base.Int.{int_eq, ℤ}
use peekback.Base.Paths.{FilePath, is_absolute, parse, path_eq}
use peekback.Daemon.Actions.{session_id}
use peekback.Harness.{Harness, harness_eq, key}
use peekback.Payloads.{Value, as_bool, as_str, index, says, str_or_empty}
use peekback.Payloads.Tools.{harness_events}
use peekback.Record.{Calls, Observed, Place, Root, SessionEvent, Start, is_fresh_start}
use peekback.Record.Handler.{record_event}

-- The flags of a response: two that tell of an error, and one of success.
unfoldable pub response_outcome : Value → Outcome
unfolding index
response_outcome response =
    let is_error = as_bool (index (codes "is_error") response) in
    let is_error_too = as_bool (index (codes "isError") response) in
    let success = as_bool (index (codes "success") response) in
    if says is_error true || says is_error_too true || says success false
    then Outcome.failed
    else if says is_error false || says is_error_too false || says success true
    then Outcome.succeeded
    else Outcome.unknown

unfoldable pub hook_outcome : Value → Outcome
unfolding index response_outcome Str_discrete option_discrete
hook_outcome input =
    if as_str (index (codes "hook_event_name") input) == some (codes "PostToolUseFailure")
    then Outcome.failed
    else response_outcome (index (codes "tool_response") input)

abbrev pub mark_call : Value → FileEvent → FileEvent
mark_call input e = record e {
  tool_call_id = as_str (index (codes "tool_use_id") input);
  outcome = hook_outcome input;
}

-- `hook_json::tool_events`.
unfoldable pub tool_events : Harness → Str → FilePath → Value → ℤ → List FileEvent
unfolding harness_events hook_outcome index key
tool_events harness session_id cwd input now = map (mark_call input) (
    harness_events harness (key harness session_id) cwd
      (str_or_empty (as_str (index (codes "tool_name") input))) (index (codes "tool_input") input)
      now Source.hook)

abbrev pub transcript_at : FilePath → Value → Option Place
transcript_at cwd Value.null = some (record { cwd = cwd; transcript = none })
transcript_at cwd (Value.string []) = some (record { cwd = cwd; transcript = none })
transcript_at cwd (Value.string (c ∷ cs)) =
    some (record { cwd = cwd; transcript = some (parse (c ∷ cs)) })
transcript_at cwd _ = none

abbrev pub place_at : FilePath → Value → Option Place
place_at cwd transcript = if is_absolute cwd then transcript_at cwd transcript else none

unfoldable pub place_of : Value → Option Place
unfolding index parse
place_of input = elim (as_str (index (codes "cwd") input)) [
  | none ↦ none
  | some cwd ↦ place_at (parse cwd) (index (codes "transcript_path") input)
]

abbrev pub events_at : Harness → Str → Value → ℤ → Option Place → List FileEvent
events_at harness session_id input now none = []
events_at harness session_id input now (some place) =
    tool_events harness session_id place.cwd input now

unfoldable pub event_named : Harness → Str → Value → ℤ → Option Place → Str → Option SessionEvent
unfolding tool_events index Str_discrete option_discrete
event_named harness session_id input now place name =
    if name == codes "SessionStart"
    then (if as_str (index (codes "source") input) == some (codes "compact")
        then some (SessionEvent.session_started Start.compaction)
        else some (SessionEvent.session_started Start.fresh_start))
    else if name == codes "UserPromptSubmit"
    then some SessionEvent.prompt_submitted
    else if name == codes "PostToolUse" || name == codes "PostToolUseFailure"
    then some (SessionEvent.tool_used (events_at harness session_id input now place))
    else if name == codes "Stop"
    then some SessionEvent.turn_ended
    else if name == codes "SessionEnd"
    then some SessionEvent.session_ended
    else none

abbrev pub observed_as : Harness → Str → Option Place → Option SessionEvent → Option Observed
observed_as harness session_id place none = none
observed_as harness session_id place (some event) =
    some (record { harness = harness; session_id = session_id; event = event; place = place })

abbrev pub decode_named : Harness → Str → Value → ℤ → Option Str → Option Observed
decode_named harness session_id input now none = none
decode_named harness session_id input now (some name) =
    observed_as harness session_id (place_of input)
      (event_named harness session_id input now (place_of input) name)

abbrev pub decode_session : Harness → Value → ℤ → Option Str → Option Observed
decode_session harness input now none = none
decode_session harness input now (some session_id) =
    if valid_id session_id
    then decode_named harness session_id input now (as_str (index (codes "hook_event_name") input))
    else none

unfoldable pub decode : Harness → Value → ℤ → Option Observed
unfolding index valid_id place_of event_named
decode harness input now =
    decode_session harness input now (as_str (index (codes "session_id") input))

-- `record::hook`: the payload is decoded and recorded; whether it started a session is the result.
unfoldable pub hook : Calls → Harness → Value → Root → Root × Result Bool
unfolding decode record_event
hook calls harness input root = elim (decode harness input calls.now) [
  | none ↦ (root, ok false)
  | some o ↦
      let (root', result) = record_event calls o root in
      (root', result >>= λ recorded. ok (is_fresh_start o.event))
]
