-- ===== src/Examples/Data.antt =====
-- A session with two panes, its agent, and a history of two events.
use peekback.Activity.{
  FileEvent, Operation, Outcome, SessionKey, Source, key_eq, operation_eq, outcome_eq, source_eq,
}
use peekback.Base.{Str, [], codes, false, nat_eq, none, ok, option_eq, some, str_eq, true, ℕ, ◌∷◌}
use peekback.Base.Int.{int_eq, pos, ℤ}
use peekback.Base.Paths.{FilePath, parse, path_eq}
use peekback.Daemon.{
  App, Current, Now, Presentation, SessionIdentity, ViewContext, listing_request_eq,
  no_file_listing, no_listing, session_identity_eq, theme_eq, view_context_eq,
}
use peekback.Daemon.Jobs.{Surroundings}
use peekback.Harness.{Harness, harness_eq}
use peekback.Mux.{Inspection, Mux, Pane, mux_eq, pane_eq}
use peekback.Process.{ProcessId, Processes, process_eq}
use peekback.Resolve.{Focus, server_eq}
use peekback.Send.{Channels, Moment, Timeline, backend_eq}
use peekback.Session.{Session, turn_eq}
use peekback.Store.{Codec, Content, Dir}

abbrev pub tmp : FilePath
tmp = parse (codes "/tmp")

abbrev pub key_s : SessionKey
key_s = record { agent = record { as_str = codes "claude" }; session_id = codes "s" }

-- A session that was active at 5 and at 20.
abbrev pub event_at : ℤ → FileEvent
event_at at = record {
  schema_version = 2;
  session = key_s;
  timestamp = at;
  cwd = tmp;
  path = parse (codes "/tmp/a.md");
  previous_path = none;
  operation = Operation.modify;
  source = Source.hook;
  outcome = Outcome.succeeded;
  tool_call_id = none;
  concurrent = [];
}

-- Every event takes ten bytes, and a checkpoint a hundred.
abbrev pub ten_byte_codec : Codec
ten_byte_codec = record { event_size = λ e. 10; checkpoint_size = λ c. 100; show = λ n. codes "0" }

abbrev pub batch_dir : Dir
batch_dir = (codes "1.json", Content.batch (event_at (pos 5) ∷ event_at (pos 20) ∷ []) 23) ∷ []

abbrev pub pane_on : Str → Pane
pane_on id = record { mux = Mux.tmux; server = some (codes "/tmp/tmux"); id = id }

abbrev pub agent_7 : ProcessId
agent_7 = record { pid = 7; started_at_us = 1 }

abbrev pub session_s : Session
session_s = record {
  session_id = codes "s";
  incarnation = codes "i";
  harness = Harness.claude;
  transcript_path = none;
  written_files = [];
  cwd = tmp;
  started_at = pos 1;
  last_active_at = pos 1;
  terminal = record {
    bundle_id = some (codes "term");
    term_program = none;
    iterm_profile = none;
    panes = pane_on (codes "%1") ∷ pane_on (codes "%2") ∷ [];
    agent = some agent_7;
  };
  turn_started_at = none;
  recent_turns = [];
}

-- The agent runs in the foreground of terminal 3, which the first pane shows.
abbrev pub running_agent : Processes
running_agent pid = some (record {
  id = agent_7;
  parent = 1;
  name = codes "claude";
  terminal = some 3;
  foreground = true;
  foreground_group = 7;
})

abbrev pub still_moment : Moment
still_moment = record {
  os = record { info = running_agent; transcript_activity = λ path. none; uid = codes "501" };
  inspect = λ p. Inspection.available (some 3);
}

abbrev pub still_timeline : Timeline
still_timeline = record {
  selecting = still_moment;
  checking = still_moment;
  delivering = still_moment;
  reporting = still_moment;
}

abbrev pub working_channels : Channels
working_channels = record {
  send_to_pane = λ p text. ok tt;
  paste_into_frontmost = λ bundle text. ok tt;
  copy = λ text. ok tt;
}

abbrev pub identity_s : SessionIdentity
identity_s = record {
  key = key_s;
  incarnation = codes "i";
  process = some agent_7;
  started_at = pos 1;
}

abbrev pub context_of_generation : ℕ → ViewContext
context_of_generation g = record { generation = g; session = some identity_s }

abbrev pub current_view : ℕ → Current
current_view g = record {
  context = context_of_generation g;
  session = some session_s;
  awaiting = none;
  documents = [];
  path = some (parse (codes "/tmp/a.md"));
  file_identity = none;
  source = codes "text";
  missing = false;
}

abbrev pub app_at : ℕ → App
app_at g = record {
  current = some (current_view g);
  generation = g;
  reload_revision = 0;
  reload_at = some 5;
  refresh_at = some 6;
  refresh_pending = false;
  next_poll = 7;
  page_ready = true;
  theme = none;
  sessions = session_s ∷ [];
  scratchpad = no_file_listing;
  bookmarks = no_file_listing;
  sending = false;
  presentation = Presentation.keep;
}

abbrev pub now_at : ℕ → Now
now_at at = record {
  instant = at;
  workers_free = true;
  delivery_free = true;
  is_focused = false;
  is_visible = true;
  watch = λ path. ok tt;
}

abbrev pub quiet_world : Surroundings
quiet_world = record {
  find = λ id. some session_s;
  load_all = session_s ∷ [];
  focused = Focus.nothing;
  documents = λ s. [];
  canonicalize = λ path. ok path;
  source = λ path. ok (codes "new");
  exists = λ path. true;
  theme = record { name = codes "dark"; font_family = none; font_size = none };
  folder = λ dir. no_listing;
  bookmarks = λ cwd. no_listing;
  os = record { info = running_agent; transcript_activity = λ path. none; uid = codes "501" };
}
