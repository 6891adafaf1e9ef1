-- ===== src/Examples/Platform.antt =====
-- The theorems on requests, payloads and bookmarks at small inputs.
use peekback.Activity.{FileEvent, key_eq, operation_eq, outcome_eq, source_eq}
use peekback.Base.{
  All, List, Str, [], codes, false, inr, length, nat_eq, none, ok, option_eq, refl, some, str_eq,
  true, ℕ, ◌+◌, ◌==◌, ◌∷◌, ◌≡◌, ◌≤◌, ◌⊎◌,
}
use peekback.Base.Int.{int_eq, pos}
use peekback.Base.Paths.{path_eq}
use peekback.Base.Sort.{insert}
use peekback.Bookmarks.{DirAnswer, DirEntry, Disk, EntryKind, Walk, walk_markdown}
use peekback.Bookmarks.Listings.{bookmark_listing}
use peekback.Bookmarks.Walked.{walk_markdown_ends}
use peekback.Examples.Data.{tmp}
use peekback.Harness.{Harness, harness_eq}
use peekback.Payloads.{Fields, Value}
use peekback.Payloads.Accepted.{IsRecordable, decode-IsRecordable}
use peekback.Payloads.Hooks.{decode, tool_events}
use peekback.Record.{Observed, SessionEvent}
use peekback.Requests.{
  LoopTurn, PollAnswer, ReadAnswer, apply_deadline, apply_timeout, read_request, reply_margin,
}
use peekback.Requests.Lines.{
  IsLineOf, all_bytes, apply_deadline_lem, has_ended, read_request-IsLineOf, read_request-has_ended,
}

apply_deadline_lem_example :
    (apply_deadline (some 5000) 100 4000 ≤ 100 + apply_timeout)
    × ((apply_deadline (some 5000) 100 4000 ≡ 100)
        ⊎ (apply_deadline (some 5000) 100 4000 + reply_margin + 4000 ≤ 100 + 5000))
apply_deadline_lem_example = apply_deadline_lem 5000 100 4000

-- A client that sends its line in two parts.
abbrev part : ℕ → List ℕ → LoopTurn
part at bs = record { now = at; poll = PollAnswer.ready; read = ReadAnswer.bytes bs }

abbrev two_parts : List LoopTurn
two_parts = part 1 (codes "op") ∷ part 2 (codes "en\n") ∷ []

two_parts_read : read_request 9 two_parts [] ≡ some (ok (some (codes "open")))
unfolding read_request
two_parts_read = refl

read_request-IsLineOf_example : IsLineOf (all_bytes two_parts) (codes "open")
read_request-IsLineOf_example = read_request-IsLineOf 9 two_parts (codes "open") two_parts_read

abbrev slow_client : List LoopTurn
slow_client = part 1 (codes "op") ∷ part 9 (codes "en") ∷ []

read_request-has_ended_example : has_ended (read_request 9 slow_client []) ≡ true
read_request-has_ended_example = read_request-has_ended 9 slow_client [] refl

-- A patch that adds a file and moves another.
abbrev patch_text : Str
patch_text =
    codes
      "*** Begin Patch\n*** Add File: a.md\n*** Update File: b.md\n*** Move to: c.md\n*** End Patch\n"

abbrev string_field : Str → Str → Fields → Fields
string_field n s rest = Fields.field n (Value.string s) rest

abbrev patched_payload : Value
patched_payload = Value.object (
    string_field (codes "session_id") (codes "s") (
      string_field (codes "cwd") (codes "/tmp") (
        string_field (codes "hook_event_name") (codes "PostToolUse") (
          string_field (codes "tool_name") (codes "apply_patch") (
            Fields.field (codes "tool_input")
              (Value.object (string_field (codes "command") patch_text Fields.no_fields))
              Fields.no_fields)))))

abbrev patched_events : List FileEvent
patched_events = tool_events Harness.codex (codes "s") tmp patched_payload (pos 3)

abbrev patched : Observed
patched = record {
  harness = Harness.codex;
  session_id = codes "s";
  event = SessionEvent.tool_used patched_events;
  place = some (record { cwd = tmp; transcript = none });
}

patched_decoded : decode Harness.codex patched_payload (pos 3) ≡ some patched
unfolding decode
patched_decoded = refl

patch_has_two : length patched_events ≡ 2
unfolding tool_events
patch_has_two = refl

decode-IsRecordable_example : IsRecordable Harness.codex patched
decode-IsRecordable_example =
    decode-IsRecordable Harness.codex patched_payload (pos 3) patched patched_decoded

-- One directory with a document and a hidden file.
abbrev small_disk : Disk
small_disk = record {
  read_dir = λ dir. DirAnswer.dir_entries (
      DirEntry.named_entry (codes "a.md") EntryKind.a_file
      ∷ DirEntry.named_entry (codes ".b.md") EntryKind.a_file
      ∷ []);
  is_dir = λ path. path == tmp;
  is_file = λ path. false;
  is_markdown = λ path. true;
  modified_at = λ path. some (pos 4);
  show = λ path. codes "path";
  path_le = λ a b. true;
  glob = λ path. inr (λ file. true);
  show_number = λ n. codes "20000";
}

walk_markdown_ends_example :
    (w : Walk) × (walk_markdown small_disk tmp 10 [] ≡ some w)
    × (length w.visited + w.budget ≤ 10)
    × All (λ p. small_disk.is_markdown p ≡ true) w.visited
walk_markdown_ends_example = walk_markdown_ends small_disk tmp 10 []

abbrev two_bookmarks : List Str
two_bookmarks = codes "/tmp" ∷ codes "/tmp" ∷ []

bookmarks_count_once : length (bookmark_listing small_disk two_bookmarks none tmp).documents ≡ 1
unfolding bookmark_listing insert
bookmarks_count_once = refl
