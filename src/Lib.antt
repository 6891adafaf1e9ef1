-- ===== src/Lib.antt =====
-- Verification of peekback: a viewer of the documents that a coding agent writes, with a history
-- of the files of its sessions and with delivery of notes back to the agent.
--
-- The parts and their files, with paths from the repository's root:
--   * Activity.antt models crates/session-activity/src/lib.rs: agent ids (`AgentId::new`), session
--     keys, events and `resolve_path`. A path is a list of components, text a list of code points.
--   * Store.antt and Store/Append.antt model crates/session-activity/src/store.rs. The directory of a
--     session is an association list of names and contents; `Codec` gives the sizes of the encoded
--     values, which are those of a JSON library, and names of new files are arguments, since the
--     time, the process and a counter are in them. A lock makes each operation exclusive, so each is
--     a function from directory to directory.
--   * Store/Maintenance.antt models crates/session-activity/src/maintenance.rs. What `maintain` does to
--     the directory is a list of steps, each of them atomic as a rename is, so that a crash is a
--     prefix of the list. Store/Maintenance/Atomic.antt states what readers see of it.
--   * Harness.antt, Mux.antt, Process.antt and Session.antt model src/harness/mod.rs, src/mux/mod.rs,
--     src/mux/tmux.rs, src/process.rs and src/registry.rs: agents, panes, processes and the record of a
--     session. The process table, the environment and what a multiplexer reports are arguments.
--   * Registry.antt models the rest of src/registry.rs but its pruning: the sessions that the files of
--     its directory give, and the lookup of one by its id.
--   * Resolve.antt models src/session.rs: which session a pane or the focus leads to. The cache of the
--     answers of the multiplexers is an association list in the order of the calls, and an answer
--     may depend on how many calls came before.
--   * Send.antt models src/send.rs. A `Timeline` holds what the program observes at each moment at which
--     it looks, and `Channels` the results of the calls that hand text over; the effects are a list.
--   * Daemon.antt with Daemon/Actions.antt, Daemon/Events.antt, Daemon/Jobs.antt and Daemon/Loop.antt
--     models src/daemon/controller.rs, src/daemon/state.rs, src/daemon/messages.rs, src/protocol.rs and the
--     loop of src/daemon/mod.rs: the state `App`, its methods, `event`, what the worker threads run, and
--     `tick`. A run gives the state, the outputs in their order and the result; `Now` holds the time,
--     whether the queues have room and what the window says. Threads meet the controller only through events, so orders of
--     events are the interleavings. Counters of 64 bits wrap around; instants are milliseconds.
--     A turn of the loop reads the clock once, and the request of the window to close is left out.
--   * Query.antt with Query/Scan.antt models crates/session-activity/src/query.rs. A set of outcomes is
--     its membership test; a scan runs over a tree of what the system answers for each entry, which
--     does not change while it is read.
--   * Capture.antt, Capture/Jobs.antt, Record.antt and Record/Handler.antt model src/capture.rs,
--     src/turn_history.rs, src/capture_jobs.rs, src/lifecycle.rs and src/record.rs: the files of one session id, on which a hook
--     works alone under its lock. `Write` says how a write ends, also that it fails with the new
--     content in place; `Found` is what a capture meets and `Calls` what a hook meets.
--   * Payloads.antt, Payloads/Tools.antt and Payloads/Hooks.antt model src/harness/hook_json.rs with the
--     tools of src/harness/claude.rs and src/harness/codex.rs, and `hook` of src/record.rs, on a parsed payload.
--   * Bookmarks.antt and Bookmarks/Listings.antt model src/bookmarks.rs; `Disk` answers for the file
--     system and the globs. Its walk runs on fuel: a directory waits only for a unit of the budget, so
--     the budget and two is enough.
--   * Requests.antt models the reading of requests in src/daemon/server.rs, on a list of what the clock
--     and the socket give in each turn of its loop.
--   * Base.antt holds what the parts share, and Examples.antt the theorems at concrete inputs.
--
-- The parts interact as in the program: a hook decodes a payload and records it, which saves jobs,
-- runs captures with their scans and appends to the store; the daemon's `event` starts jobs, the jobs
-- call `send`, and their results come back as events. But for the walk of the bookmarks, loops are
-- structural recursions. An error is a constructor for each message that the program raises, and
-- `io` for the others.
--
-- Not modelled: the parsing of transcripts, the merging of settings, the pruning of the
-- registry, the loading of all turn histories, the documents of a session, the terminal browser, the
-- client, the settings, and the code that only calls the platform (window, watcher, sockets,
-- clipboard). Of maintenance, a removal that fails while later ones succeed and the temporary files of
-- a publication are left out; of the store, the listing across sessions.
-- Differences of times are exact: no time is so near the smallest number of 64 bits that one wraps.
pub mod Activity
pub mod Base
pub mod Bookmarks
pub mod Capture
pub mod Daemon
pub mod Examples
pub mod Harness
pub mod Mux
pub mod Payloads
pub mod Process
pub mod Query
pub mod Record
pub mod Registry
pub mod Requests
pub mod Resolve
pub mod Send
pub mod Session
pub mod Store
