-- ===== src/Query/Scan/Bounds.antt =====
-- What holds of a scan however it ends (crates/session-activity/src/query.rs).
use peekback.Activity.{
  FileEvent, Operation, Outcome, SessionKey, file_event, key_eq, operation_eq, outcome_eq,
  source_eq,
}
use peekback.Base.{
  ==_iff, All, All-append, All-map, Bool, Bool-cases, List, Str, [], any, any-members, false,
  if◌then◌else◌, inl, inr, nat_eq, not, option_eq, refl, str_eq, suc, true, zero, ℕ, ◌&&◌, ◌++◌,
  ◌==◌, ◌||◌, ◌∷◌, ◌≡◌, ◌≤◌,
}
use peekback.Base.Int.{int_eq, pos, ℤ}
use peekback.Base.Paths.{FilePath, path_eq}
use peekback.Harness.{name}
use peekback.Query.Scan.{
  Entries, Modified, Scan, ScanReport, ScanRoot, Tree, count_entry, default_report, entry_path,
  exhaust, in_window, is_other_checkout, is_searched, observe, scan_report, scan_roots, visit_file,
  walk, walk_entries, warn,
}

abbrev event_of : Scan → FilePath → ℤ → FileEvent
event_of scan path at = file_event scan.session scan.cwd path at Operation.observed scan.root.source

-- The steps of a scan keep a property of its report.
record Keeps (scan : Scan) (P : ScanReport → Type 0) : Type 0 where
  warned : (path : FilePath) (message : Str) (r : ScanReport) → P r → P (warn path message r)
  counted : (r : ScanReport) → (r.entries_visited == scan.budget) ≡ false → P r → P (count_entry r)
  exhausted : (r : ScanReport) → (r.entries_visited == scan.budget) ≡ true → P r → P (exhaust r)
  limited : (r : ScanReport) → P r → P (record r { depth_limited = true })
  observed :
      (path : FilePath) (at : ℤ) (r : ScanReport)
      → in_window scan.root at ≡ true
      → P r
      → P (record r { events = r.events ++ event_of scan path at ∷ [] })

module _ (scan : Scan) (P : ScanReport → Type 0) (k : Keeps scan P) where
  observe-keeps : (path : FilePath) (at : ℤ) (r : ScanReport) → P r → P (observe scan path at r)
  unfolding observe
  observe-keeps path at r h = elim (Bool-cases (in_window scan.root at)) [
    | inl y ↦ rw y (k.observed path at r y h)
    | inr n ↦ rw n h
  ]

  visit_file-keeps :
      (path : FilePath) (at : Modified) (r : ScanReport) → P r → P (visit_file scan path at r)
  unfolding visit_file
  visit_file-keeps path (Modified.no_time message) r h = k.warned path message r h
  visit_file-keeps path Modified.before_epoch r h = observe-keeps path (pos 0) r h
  visit_file-keeps path (Modified.seconds n) r h = observe-keeps path (pos n) r h

  within_budget :
      (r more : ScanReport)
      → P r
      → ((r.entries_visited == scan.budget) ≡ false → P (count_entry r) → P more)
      → P (if r.entries_visited == scan.budget then exhaust r else more)
  within_budget r more h f = elim (Bool-cases (r.entries_visited == scan.budget)) [
    | inl y ↦ rw y (k.exhausted r y h)
    | inr n ↦ rw n (f n (k.counted r n h))
  ]

  either : (b : Bool) (r s : ScanReport) → P r → P s → P (if b then r else s)
  either true r s h i = h
  either false r s h i = i

  mutual
    unfolding walk

    walk-keeps :
        (tree : Tree) (dir : FilePath) (depth : ℕ) (r : ScanReport)
        → P r
        → P (walk scan tree dir depth r)
    walk-keeps (Tree.absent message) dir zero r h = k.limited r h
    walk-keeps (Tree.unreadable message) dir zero r h = k.limited r h
    walk-keeps (Tree.readable entries) dir zero r h = k.limited r h
    walk-keeps (Tree.absent message) dir (suc depth) r h =
        either (dir == scan.root.path) r (warn dir message r) h (k.warned dir message r h)
    walk-keeps (Tree.unreadable message) dir (suc depth) r h = k.warned dir message r h
    walk-keeps (Tree.readable entries) dir (suc depth) r h =
        walk_entries-keeps entries dir depth r h

    walk_entries-keeps :
        (entries : Entries) (dir : FilePath) (depth : ℕ) (r : ScanReport)
        → P r
        → P (walk_entries scan entries dir depth r)
    walk_entries-keeps Entries.no_more dir depth r h = h
    walk_entries-keeps (Entries.broken message rest) dir depth r h =
        within_budget r _ h (λ n c. walk_entries-keeps rest dir depth _ (k.warned dir message _ c))
    walk_entries-keeps (Entries.of_no_kind name message rest) dir depth r h =
        within_budget r _ h (λ n c. walk_entries-keeps rest dir depth _ (k.warned _ message _ c))
    walk_entries-keeps (Entries.folder name git tree rest) dir depth r h =
        within_budget r _ h (λ n c.
          let inside =
            either (not (is_searched name) || is_other_checkout git) _ _ c
              (walk-keeps tree (entry_path dir name) depth (count_entry r) c) in
          either _ _ _ inside (walk_entries-keeps rest dir depth _ inside))
    walk_entries-keeps (Entries.file name at rest) dir depth r h =
        within_budget r _ h (λ n c.
          walk_entries-keeps rest dir depth _ (visit_file-keeps (entry_path dir name) at _ c))
    walk_entries-keeps (Entries.special name rest) dir depth r h =
        within_budget r _ h (λ n c. walk_entries-keeps rest dir depth _ c)

module _ (session : SessionKey) (cwd : FilePath) (tree : FilePath → Tree) (budget : ℕ) where
  abbrev scan_of : ScanRoot → Scan
  scan_of root = record { session = session; cwd = cwd; root = root; budget = budget }

  scan_roots-keeps :
      (P : ScanReport → Type 0) (roots : List ScanRoot) (r : ScanReport)
      → All (λ root. Keeps (scan_of root) P) roots
      → P r
      → P (scan_roots session cwd budget tree roots r)
  unfolding scan_roots
  scan_roots-keeps P [] r k h = h
  scan_roots-keeps P (root ∷ roots) r k h =
      let walked = walk-keeps (scan_of root) P k.0 (tree root.path) root.path root.depth r h in
      elim (Bool-cases
        (walk (scan_of root) (tree root.path) root.path root.depth r).budget_exhausted) [
          | inl y ↦ rw y walked
          | inr n ↦ rw n (scan_roots-keeps P roots _ k.1 walked)
        ]

  abbrev pub IsBounded : ScanReport → Type 0
  IsBounded r =
      (r.entries_visited ≤ budget) × (r.budget_exhausted ≡ true → r.entries_visited ≡ budget)

  -- An observation of this scan, by one of its roots.
  abbrev pub IsObserved : List ScanRoot → FileEvent → Type 0
  IsObserved roots e =
      (e.session ≡ session)
      × (e.cwd ≡ cwd)
      × (e.operation ≡ Operation.observed)
      × (e.outcome ≡ Outcome.unknown)
      × (any (λ root. in_window root e.timestamp && root.source == e.source) roots ≡ true)

  IsObserved-root :
      (roots : List ScanRoot) (root : ScanRoot) (path : FilePath) (at : ℤ)
      → ((p : ScanRoot → Bool) → p root ≡ true → any p roots ≡ true)
      → in_window root at ≡ true
      → IsObserved roots (event_of (scan_of root) path at)
  unfolding file_event
  IsObserved-root roots root path at m w = (
    refl,
    refl,
    refl,
    refl,
    m (λ r. in_window r at && r.source == root.source)
        (rw (w, (==_iff root.source root.source).1 refl) refl),
  )

  IsObserved-Keeps :
      (roots : List ScanRoot) (root : ScanRoot)
      → ((p : ScanRoot → Bool) → p root ≡ true → any p roots ≡ true)
      → Keeps (scan_of root) (λ r. All (IsObserved roots) r.events)
  IsObserved-Keeps roots root m = record {
    warned = λ path message r h. h;
    counted = λ r n h. h;
    exhausted = λ r y h. h;
    limited = λ r h. h;
    observed = λ path at r w h.
        All-append (IsObserved roots) r.events _ h (IsObserved-root roots root path at m w, tt);
  }

  -- Every event of a scan is an observation for the scan's session, whose time lies in the window of
  -- a root of its source.
  pub scan_report-IsObserved :
      (roots : List ScanRoot)
      → All (IsObserved roots) (scan_report session cwd tree roots budget).events
  unfolding scan_report
  scan_report-IsObserved roots =
      scan_roots-keeps (λ r. All (IsObserved roots) r.events) roots default_report
        (All-map {P = λ root. (p : ScanRoot → Bool) → p root ≡ true → any p roots ≡ true}
          {Q = λ root. Keeps (scan_of root) (λ r. All (IsObserved roots) r.events)}
          (λ root m. IsObserved-Keeps roots root m) roots (any-members roots))
        tt
