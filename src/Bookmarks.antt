-- ===== src/Bookmarks.antt =====
-- src/bookmarks.rs: the documents under bookmarks and folders. What the file system answers is an
-- argument, and so are the matching of globs and the way a path is shown.
pub mod Listed
pub mod Listings
pub mod Walked
use peekback.Base.{
  Bool, List, Option, Str, [], begins_with, codes, false, if◌then◌else◌, leb, ltb, nat_eq, none,
  option_eq, some, str_eq, suc, true, zero, ℕ, ℕ_discrete, ◌&&◌, ◌++◌, ◌+◌, ◌-◌, ◌∷◌, ◌⊎◌,
}
use peekback.Base.Int.{int_eq, ℤ}
use peekback.Base.Paths.{Component, FilePath, join, path_eq}
use peekback.Daemon.Events.{opened}

abbrev pub max_documents : ℕ
max_documents = 200

abbrev pub bookmark_budget : ℕ
bookmark_budget = 20000

abbrev pub max_depth : ℕ
max_depth = 16

-- An entry of a directory: its kind may not be known; another kind may lead to a file.
pub data EntryKind : Type 0 where
  no_kind : Str → EntryKind
  a_directory a_file : EntryKind
  other_kind : Bool → EntryKind

pub data DirEntry : Type 0 where
  broken_entry : Str → DirEntry
  named_entry : Str → EntryKind → DirEntry

pub data DirAnswer : Type 0 where
  no_directory : DirAnswer
  no_answer : Str → DirAnswer
  dir_entries : List DirEntry → DirAnswer

-- What is asked of the file system, and how paths and messages are written.
pub record Disk : Type 0 where
  pub read_dir : FilePath → DirAnswer
  pub is_dir : FilePath → Bool
  pub is_file : FilePath → Bool
  pub is_markdown : FilePath → Bool
  pub modified_at : FilePath → Option ℤ
  pub show : FilePath → Str
  pub path_le : FilePath → FilePath → Bool
  pub glob : FilePath → Str ⊎ (FilePath → Bool)
  pub show_number : ℕ → Str

-- The state of a walk: directories to come, the newest first, the budget, and what was found.
pub record Walk : Type 0 where
  pub pending : List (FilePath × ℕ)
  pub budget : ℕ
  pub warnings : List Str
  pub visited : List FilePath
  pub is_over : Bool

abbrev pub warn_at : Disk → FilePath → Str → Walk → Walk
warn_at disk path message w = record w {
  warnings = w.warnings ++ (disk.show path ++ codes ": " ++ message) ∷ [];
}

abbrev pub child_of : FilePath → Str → FilePath
child_of dir name = join dir (Component.normal name ∷ [])

abbrev pub visit_if : Bool → FilePath → Walk → Walk
visit_if b path w = if b then record w { visited = w.visited ++ path ∷ [] } else w

unfoldable pub walk_kind : Disk → FilePath → ℕ → EntryKind → Walk → Walk
walk_kind disk path depth (EntryKind.no_kind message) w = warn_at disk path message w
walk_kind disk path depth EntryKind.a_directory w =
    if ltb depth max_depth then record w { pending = (path, depth + 1) ∷ w.pending } else w
walk_kind disk path depth EntryKind.a_file w = visit_if (disk.is_markdown path) path w
walk_kind disk path depth (EntryKind.other_kind leads_to_file) w =
    visit_if (disk.is_markdown path && leads_to_file) path w

unfoldable pub walk_entry : Disk → FilePath → ℕ → Str → EntryKind → Walk → Walk
unfolding walk_kind join ℕ_discrete
walk_entry disk dir depth name kind w =
    if begins_with (codes ".") name then w else walk_kind disk (child_of dir name) depth kind w

-- The loop over one directory; it ends the walk when the budget is used up.
unfoldable pub walk_dir : Disk → FilePath → ℕ → List DirEntry → Walk → Walk
unfolding walk_entry
walk_dir disk dir depth [] w = w
walk_dir disk dir depth (DirEntry.broken_entry message ∷ rest) w =
    walk_dir disk dir depth rest (warn_at disk dir message w)
walk_dir disk dir depth (DirEntry.named_entry name kind ∷ rest) w =
    let more =
      walk_dir disk dir depth rest
        (walk_entry disk dir depth name kind (record w { budget = w.budget - 1 })) in
    if leb w.budget 0 then record w { is_over = true } else more

unfoldable pub open_dir : Disk → FilePath → ℕ → DirAnswer → Walk → Walk
unfolding walk_dir
open_dir disk dir depth DirAnswer.no_directory w = w
open_dir disk dir depth (DirAnswer.no_answer message) w = warn_at disk dir message w
open_dir disk dir depth (DirAnswer.dir_entries entries) w = walk_dir disk dir depth entries w

-- The loop over the pending directories; `none` where the fuel does not suffice.
unfoldable pub walk_pending : Disk → ℕ → Walk → Option Walk
unfolding open_dir
walk_pending disk zero w = none
walk_pending disk (suc fuel) w = elim w.pending [
  | [] ↦ some w
  | next ∷ rest ↦
      let (dir, depth) = next in
      let opened = open_dir disk dir depth (disk.read_dir dir) (record w { pending = rest }) in
      let more = walk_pending disk fuel opened in if opened.is_over then some opened else more
]

-- A directory is pending only for a unit of the budget, so this fuel suffices.
unfoldable pub walk_markdown : Disk → FilePath → ℕ → List Str → Option Walk
unfolding walk_pending
walk_markdown disk dir budget warnings = walk_pending disk (budget + 2) (record {
  pending = (dir, 0) ∷ [];
  budget = budget;
  warnings = warnings;
  visited = [];
  is_over = false;
})

-- The walk as its callers see it: what is left of the budget, the warnings, and the files.
abbrev pub walk_result : Option Walk → ℕ × List Str × List FilePath
walk_result none = (0, [], [])
walk_result (some w) = (w.budget, w.warnings, w.visited)

unfoldable pub walk_files : Disk → FilePath → ℕ → List Str → ℕ × List Str × List FilePath
unfolding walk_markdown
walk_files disk dir budget warnings = walk_result (walk_markdown disk dir budget warnings)
