-- ===== src/Examples/Evidence.antt =====
-- The theorems on the query of the history at two observations of one call.
use peekback.Activity.{FileEvent, Outcome, Source, key_eq, operation_eq, outcome_eq, source_eq}
use peekback.Base.{
  All, Bool, List, [], any, codes, false, keep, leb, length, nat_eq, option_eq, refl, some, str_eq,
  true, ◌==◌, ◌∷◌, ◌≡◌,
}
use peekback.Base.Int.{int_eq, pos}
use peekback.Base.Paths.{FilePath, path_eq}
use peekback.Examples.Data.{event_at, key_s, tmp}
use peekback.Query.{Evidence, evidence_eq, files, is_known, observation_eq, reconcile}
use peekback.Query.Grouped.{touches}
use peekback.Query.Listing.{Describes, files_complete}
use peekback.Query.Reconciled.{NoRepeats, reconcile_idempotent, reconcile_sound, unidentified}
use peekback.Query.Scan.{Entries, GitMarker, Modified, ScanReport, ScanRoot, Tree, scan_report}
use peekback.Query.Scan.Bounds.{IsObserved, scan_report-IsObserved}
use peekback.Query.Scan.Complete.{everything, scan_report_complete}
use peekback.Query.Settled.{reported}

abbrev seen_done : FileEvent
seen_done = record (event_at (pos 5)) { tool_call_id = some (codes "c") }

abbrev seen_unknown : FileEvent
seen_unknown = record (event_at (pos 6)) {
  tool_call_id = some (codes "c");
  outcome = Outcome.unknown;
  source = Source.transcript;
}

abbrev observations : List FileEvent
observations = seen_unknown ∷ seen_done ∷ seen_done ∷ []

reconcile_idempotent_example : reconcile (reconcile observations) ≡ reconcile observations
reconcile_idempotent_example = reconcile_idempotent observations

reconcile_sound_example :
    NoRepeats (reconcile observations)
    × (keep unidentified (reconcile observations) ≡ keep unidentified observations)
    × ((key : Evidence) (o : Outcome)
        → is_known o ≡ true
        → reported key o (reconcile observations) ≡ reported key o observations)
reconcile_sound_example = reconcile_sound observations

abbrev shorter : FilePath → FilePath → Bool
shorter a b = leb (length a) (length b)

abbrev on_disk : FilePath → Bool
on_disk path = true

files_complete_example :
    ((p : FilePath)
      → any (λ a. a.path == p) (files on_disk shorter observations)
        ≡ any (touches p) (reconcile observations))
    × All (Describes on_disk (reconcile observations)) (files on_disk shorter observations)
files_complete_example = files_complete on_disk shorter observations

-- A file in the window, one in a directory that is left out, and one that is too old.
abbrev small_tree : Tree
small_tree = Tree.readable (
    Entries.file (codes "a.md") (Modified.seconds 5) (
      Entries.folder (codes "target") GitMarker.no_git
        (Tree.readable (Entries.file (codes "b.md") (Modified.seconds 5) Entries.no_more))
        (Entries.file (codes "c.md") Modified.before_epoch Entries.no_more)))

abbrev tmp_root : ScanRoot
tmp_root = record {
  path = tmp;
  since = pos 1;
  until = pos 9;
  depth = 4;
  source = Source.project_scan;
}

abbrev small_scan : ScanReport
small_scan = scan_report key_s tmp (λ path. small_tree) (tmp_root ∷ []) 10

scan_report-IsObserved_example :
    All (IsObserved key_s tmp (λ path. small_tree) 10 (tmp_root ∷ [])) small_scan.events
scan_report-IsObserved_example =
    scan_report-IsObserved key_s tmp (λ path. small_tree) 10 (tmp_root ∷ [])

small_scan_whole : small_scan.budget_exhausted ≡ false
unfolding scan_report
small_scan_whole = refl

small_scan_deep : small_scan.depth_limited ≡ false
unfolding scan_report
small_scan_deep = refl

scan_report_complete_example :
    small_scan.events ≡ everything key_s tmp (λ path. small_tree) 10 (tmp_root ∷ [])
scan_report_complete_example =
    scan_report_complete key_s tmp (λ path. small_tree) 10 (tmp_root ∷ []) small_scan_whole
      small_scan_deep
