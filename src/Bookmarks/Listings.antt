-- ===== src/Bookmarks/Listings.antt =====
-- The listings of bookmarks and of folders (`list` and `folder` in src/bookmarks.rs).
use peekback.Base.{
  Bool, List, Option, Str, Str_discrete, [], any, codes, contains, false, if◌then◌else◌, inl, inr,
  keep, length, nat_eq, none, not, option_eq, some, str_eq, ℕ, ℕ_discrete, ◌&&◌, ◌++◌, ◌+◌, ◌==◌,
  ◌∷◌,
}
use peekback.Base.Int.{int_eq, ltz, pos, ℤ, ℤ_discrete}
use peekback.Base.Paths.{
  Component, FilePath, FilePath_discrete, is_absolute, join, parse, path_eq, strip_prefix,
}
use peekback.Base.Sort.{sort}
use peekback.Base.Texts.{strip_text, trim_text}
use peekback.Bookmarks.{Disk, bookmark_budget, max_documents, walk_files}
use peekback.Daemon.{
  Document, Listing, listing_request_eq, session_identity_eq, theme_eq, view_context_eq,
}

-- `Scan`: the budget, the paths that were listed, and the listing.
pub record Bookmarking : Type 0 where
  pub budget : ℕ
  pub seen : List FilePath
  pub listing : Listing

pub data LabelBase : Type 0 where
  absolute_base : LabelBase
  project_base : FilePath → LabelBase

abbrev pub relative_label : Disk → FilePath → Option FilePath → Str
relative_label disk path none = disk.show path
relative_label disk path (some rest) = disk.show rest

abbrev pub home_label : Disk → FilePath → Option FilePath → Str
home_label disk path none = disk.show path
home_label disk path (some rest) = codes "~/" ++ disk.show rest

unfoldable pub bookmark_label : Disk → LabelBase → FilePath → FilePath → Str
unfolding strip_prefix
bookmark_label disk absolute_base home path = home_label disk path (strip_prefix path home)
bookmark_label disk (project_base cwd) home path = relative_label disk path (strip_prefix path cwd)

abbrev pub bookmark_document : Disk → LabelBase → FilePath → FilePath → ℤ → Document
bookmark_document disk base home path touched_at = record {
  path = path;
  touched_at = touched_at;
  label = bookmark_label disk base home path;
  scanned = false;
  shared = false;
}

abbrev pub list_document : Document → Listing → Listing
list_document d l =
    if length l.documents == max_documents
    then record l { found = l.found + 1 }
    else record l { found = l.found + 1; documents = l.documents ++ d ∷ [] }

-- `Scan::add`.
unfoldable pub add_document : Disk → LabelBase → FilePath → FilePath → ℤ → Bookmarking → Bookmarking
unfolding bookmark_label FilePath_discrete ℕ_discrete
add_document disk base home path touched_at scan =
    if contains scan.seen path then scan else record scan {
      seen = path ∷ scan.seen;
      listing = list_document (bookmark_document disk base home path touched_at) scan.listing;
    }

abbrev pub touched : Option ℤ → ℤ
touched none = pos 0
touched (some at) = at

unfoldable pub add_documents :
    Disk → LabelBase → FilePath → List FilePath → Bookmarking → Bookmarking
unfolding add_document
add_documents disk base home [] scan = scan
add_documents disk base home (path ∷ paths) scan =
    add_documents disk base home paths
      (add_document disk base home path (touched (disk.modified_at path)) scan)

abbrev pub stopped_message : Disk → Str
stopped_message disk =
    codes "stopped after scanning " ++ disk.show_number bookmark_budget ++ codes " entries"

abbrev pub add_warning : Str → Listing → Listing
add_warning message l = record l { warnings = l.warnings ++ message ∷ [] }

abbrev pub empty_scan : ℕ → List Str → Bookmarking
empty_scan budget warnings = record {
  budget = budget;
  seen = [];
  listing = record { documents = []; found = 0; warnings = warnings };
}

-- Of two files the one that was touched later comes first, and the later path of one time.
abbrev pub newer : Disk → FilePath → FilePath → Bool
newer disk a b =
    let at = touched (disk.modified_at a) in
    let other = touched (disk.modified_at b) in
    if at == other then disk.path_le b a else ltz other at

-- `bookmarks::folder`.
unfoldable pub folder_listing : Disk → FilePath → Listing
unfolding walk_files add_documents sort ℕ_discrete ℤ_discrete
folder_listing disk dir =
    let (budget, warnings, found) = walk_files disk dir bookmark_budget [] in
    let scan =
      add_documents disk (LabelBase.project_base dir) dir (sort (newer disk) found)
        (empty_scan budget warnings) in
    if budget == 0 then add_warning (stopped_message disk) scan.listing else scan.listing

-- An entry as a path and what its labels are relative to; `~` is the home directory.
abbrev pub resolve_relative : Str → Option FilePath → Option (FilePath × LabelBase)
resolve_relative entry none = none
resolve_relative entry (some cwd) = some (join cwd (parse entry), LabelBase.project_base cwd)

abbrev pub resolve_plain :
    Str → Option FilePath → FilePath → Option Str → Option (FilePath × LabelBase)
resolve_plain entry cwd home (some rest) = some (join home (parse rest), LabelBase.absolute_base)
resolve_plain entry cwd home none =
    if is_absolute (parse entry)
    then some (parse entry, LabelBase.absolute_base)
    else resolve_relative entry cwd

unfoldable pub resolve_entry : Str → Option FilePath → FilePath → Option (FilePath × LabelBase)
unfolding trim_text strip_text join parse Str_discrete
resolve_entry untrimmed cwd home =
    let entry = trim_text untrimmed in
    if entry == []
    then none
    else if entry == codes "~"
    then some (home, LabelBase.absolute_base)
    else resolve_plain entry cwd home (strip_text (codes "~/") entry)

unfoldable pub has_glob : Str → Bool
unfolding ℕ_discrete
has_glob = any (contains (codes "*?[{"))

-- The directory before the first wildcard.
unfoldable pub glob_root : FilePath → FilePath
unfolding has_glob
glob_root [] = []
glob_root (Component.normal part ∷ rest) =
    if has_glob part then [] else Component.normal part ∷ glob_root rest
glob_root (c ∷ rest) = c ∷ glob_root rest

-- What an entry leads to: the budget and warnings that are left, the files, and perhaps a complaint.
abbrev pub EntryFiles : Type 0
EntryFiles = ℕ × List Str × List FilePath × Option Str

unfoldable pub glob_files : Disk → FilePath → ℕ → List Str → EntryFiles
unfolding glob_root walk_files
glob_files disk pattern budget warnings = elim (disk.glob pattern) [
  | inl message ↦ (budget, warnings, [], some message)
  | inr matches ↦
      let root = glob_root pattern in
      let (left, warned, found) = walk_files disk root budget warnings in
      if disk.is_dir root
      then (left, warned, keep matches found, none)
      else (budget, warnings, [], none)
]

unfoldable pub entry_files : Disk → Str → FilePath → ℕ → List Str → EntryFiles
unfolding has_glob glob_files walk_files
entry_files disk entry path budget warnings =
    let (left, warned, found) = walk_files disk path budget warnings in
    if has_glob entry
    then glob_files disk path budget warnings
    else if disk.is_dir path
    then (left, warned, found, none)
    else if disk.is_file path && not (disk.is_markdown path)
    then (budget, warnings, [], some (codes "not a Markdown file"))
    else if disk.is_file path
    then (budget, warnings, path ∷ [], none)
    else (budget, warnings, [], none)

abbrev pub with_complaint : Str → Option Str → Listing → Listing
with_complaint entry none l = l
with_complaint entry (some message) l = add_warning (entry ++ codes ": " ++ message) l

-- One entry that names a path.
unfoldable pub list_entry : Disk → FilePath → Str → FilePath → LabelBase → Bookmarking → Bookmarking
unfolding entry_files add_documents sort
list_entry disk home entry path base scan =
    let (left, warned, found, complaint) =
      entry_files disk entry path scan.budget scan.listing.warnings in
    add_documents disk base home (sort disk.path_le found) (record scan {
      budget = left;
      listing = with_complaint entry complaint (record scan.listing { warnings = warned });
    })

-- `bookmarks::list`, which ends when the budget is used up.
unfoldable pub list_from : Disk → Option FilePath → FilePath → List Str → Bookmarking → Listing
unfolding resolve_entry list_entry ℕ_discrete
list_from disk cwd home [] scan = scan.listing
list_from disk cwd home (entry ∷ entries) scan = elim (resolve_entry entry cwd home) [
  | none ↦ list_from disk cwd home entries scan
  | some target ↦
      let scanned = list_entry disk home entry target.0 target.1 scan in
      let more = list_from disk cwd home entries scanned in
      if scanned.budget == 0
      then add_warning (entry ++ codes ": " ++ stopped_message disk) scanned.listing
      else more
]

unfoldable pub bookmark_listing : Disk → List Str → Option FilePath → FilePath → Listing
unfolding list_from
bookmark_listing disk entries cwd home =
    list_from disk cwd home entries (empty_scan bookmark_budget [])
