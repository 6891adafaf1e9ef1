-- ===== src/Query/Scan.antt =====
-- `scan_report` of crates/session-activity/src/query.rs over a directory tree that does not change
-- while it is read. What the operating system answers for an entry is in the tree: its kind, its
-- time, or the message of the error.
pub mod Bounds
pub mod Complete
use peekback.Activity.{
  FileEvent, Operation, SessionKey, Source, file_event, key_eq, operation_eq, outcome_eq, source_eq,
}
use peekback.Base.{
  Bool, List, Option, Str, Str_discrete, [], begins_with, codes, contains, false, has_part,
  if◌then◌else◌, nat_eq, none, not, option_eq, some, str_eq, suc, true, zero, ℕ, ℕ_discrete, ◌&&◌,
  ◌++◌, ◌==◌, ◌||◌, ◌∷◌,
}
use peekback.Base.Int.{int_eq, lez, pos, ℤ}
use peekback.Base.Paths.{Component, FilePath, FilePath_discrete, join, path_eq}
use peekback.Harness.{name}

-- A `.git` beside the entries: what its first 4096 bytes read as, where it is a file.
pub data GitMarker : Type 0 where
  no_git git_dir : GitMarker
  git_file : Option Str → GitMarker

unfoldable pub is_other_checkout : GitMarker → Bool
unfolding ℕ_discrete
is_other_checkout GitMarker.no_git = false
is_other_checkout GitMarker.git_dir = true
is_other_checkout (GitMarker.git_file none) = false
is_other_checkout (GitMarker.git_file (some head)) = has_part (codes "/worktrees/") head

-- The time of a file: not to be read, before the epoch, or seconds after it.
pub data Modified : Type 0 where
  no_time : Str → Modified
  before_epoch : Modified
  seconds : ℕ → Modified

mutual
  pub data Tree : Type 0 where
    absent unreadable : Str → Tree
    readable : Entries → Tree

  pub data Entries : Type 0 where
    no_more : Entries
    broken : Str → Entries → Entries
    of_no_kind : Str → Str → Entries → Entries
    folder : Str → GitMarker → Tree → Entries → Entries
    file : Str → Modified → Entries → Entries
    special : Str → Entries → Entries

pub record ScanRoot : Type 0 where
  pub path : FilePath
  pub since : ℤ
  pub until : ℤ
  pub depth : ℕ
  pub source : Source

pub record ScanWarning : Type 0 where
  pub path : FilePath
  pub message : Str

pub record ScanReport : Type 0 where
  pub events : List FileEvent
  pub entries_visited : ℕ
  pub budget_exhausted : Bool
  pub depth_limited : Bool
  pub warnings : List ScanWarning

abbrev pub default_report : ScanReport
default_report = record {
  events = [];
  entries_visited = 0;
  budget_exhausted = false;
  depth_limited = false;
  warnings = [];
}

-- What a scan is about.
pub record Scan : Type 0 where
  pub session : SessionKey
  pub cwd : FilePath
  pub root : ScanRoot
  pub budget : ℕ

abbrev pub warn : FilePath → Str → ScanReport → ScanReport
warn path message r = record r {
  warnings = r.warnings ++ record { path = path; message = message } ∷ [];
}

unfoldable pub entry_path : FilePath → Str → FilePath
unfolding join
entry_path dir name = join dir (Component.normal name ∷ [])

-- Hidden and build directories are not searched.
unfoldable pub is_searched : Str → Bool
unfolding Str_discrete ℕ_discrete
is_searched name =
    not (begins_with (codes ".") name)
    && not (contains (codes "node_modules" ∷ codes "target" ∷ []) name)

abbrev pub in_window : ScanRoot → ℤ → Bool
in_window root at = lez root.since at && lez at root.until

unfoldable pub observe : Scan → FilePath → ℤ → ScanReport → ScanReport
unfolding file_event
observe scan path at r =
    if in_window scan.root at
    then record r {
      events =
          r.events
          ++ file_event scan.session scan.cwd path at Operation.observed scan.root.source ∷ [];
    }
    else r

unfoldable pub visit_file : Scan → FilePath → Modified → ScanReport → ScanReport
unfolding observe
visit_file scan path (Modified.no_time message) r = warn path message r
visit_file scan path Modified.before_epoch r = observe scan path (pos 0) r
visit_file scan path (Modified.seconds n) r = observe scan path (pos n) r

abbrev pub count_entry : ScanReport → ScanReport
count_entry r = record r { entries_visited = suc r.entries_visited }

abbrev pub exhaust : ScanReport → ScanReport
exhaust r = record r { budget_exhausted = true }

-- `walk` and its loop over the entries of one directory, `depth` being what is left below it.
unfoldable mutual
  unfolding is_other_checkout entry_path is_searched visit_file FilePath_discrete ℕ_discrete

  pub walk : Scan → Tree → FilePath → ℕ → ScanReport → ScanReport
  walk scan tree dir zero r = record r { depth_limited = true }
  walk scan (Tree.absent message) dir (suc depth) r =
      if dir == scan.root.path then r else warn dir message r
  walk scan (Tree.unreadable message) dir (suc depth) r = warn dir message r
  walk scan (Tree.readable entries) dir (suc depth) r = walk_entries scan entries dir depth r

  pub walk_entries : Scan → Entries → FilePath → ℕ → ScanReport → ScanReport
  walk_entries scan Entries.no_more dir depth r = r
  walk_entries scan (Entries.broken message rest) dir depth r =
      let more = walk_entries scan rest dir depth (warn dir message (count_entry r)) in
      if r.entries_visited == scan.budget then exhaust r else more
  walk_entries scan (Entries.of_no_kind name message rest) dir depth r =
      let more =
        walk_entries scan rest dir depth (warn (entry_path dir name) message (count_entry r)) in
      if r.entries_visited == scan.budget then exhaust r else more
  walk_entries scan (Entries.folder name git tree rest) dir depth r =
      let skipped = not (is_searched name) || is_other_checkout git in
      let below = walk scan tree (entry_path dir name) depth (count_entry r) in
      let inside = if skipped then count_entry r else below in
      let more = walk_entries scan rest dir depth inside in
      if r.entries_visited == scan.budget
      then exhaust r
      else if not skipped && inside.budget_exhausted
      then inside
      else more
  walk_entries scan (Entries.file name at rest) dir depth r =
      let more =
        walk_entries scan rest dir depth
          (visit_file scan (entry_path dir name) at (count_entry r)) in
      if r.entries_visited == scan.budget then exhaust r else more
  walk_entries scan (Entries.special name rest) dir depth r =
      let more = walk_entries scan rest dir depth (count_entry r) in
      if r.entries_visited == scan.budget then exhaust r else more

-- The roots in turn, `tree` being what is found at a path.
unfoldable pub scan_roots :
    SessionKey → FilePath → ℕ → (FilePath → Tree) → List ScanRoot → ScanReport → ScanReport
unfolding walk
scan_roots session cwd budget tree [] r = r
scan_roots session cwd budget tree (root ∷ roots) r =
    let scan : Scan = record { session = session; cwd = cwd; root = root; budget = budget } in
    let walked = walk scan (tree root.path) root.path root.depth r in
    let more = scan_roots session cwd budget tree roots walked in
    if walked.budget_exhausted then walked else more

unfoldable pub scan_report :
    SessionKey → FilePath → (FilePath → Tree) → List ScanRoot → ℕ → ScanReport
unfolding scan_roots
scan_report session cwd tree roots budget = scan_roots session cwd budget tree roots default_report
