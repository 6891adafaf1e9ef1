-- ===== src/Query/Scan/Complete.antt =====
-- A scan that was not cut short (crates/session-activity/src/query.rs).
use mathlib.Core.List.{append-nil, append_assoc}
use peekback.Activity.{
  FileEvent, Operation, SessionKey, file_event, key_eq, operation_eq, outcome_eq, source_eq,
}
use peekback.Base.{
  Bool, Bool-cases, List, Str, [], ap, arith, false, if◌then◌else◌, inl, inr, nat_eq, not,
  option_eq, refl, str_eq, suc, sym, true, zero, ℕ, ◌&&◌, ◌++◌, ◌==◌, ◌||◌, ◌∙◌, ◌∷◌, ◌≡◌,
}
use peekback.Base.Int.{int_eq, pos, ℤ}
use peekback.Base.Paths.{FilePath, path_eq}
use peekback.Harness.{name}
use peekback.Query.Scan.{
  Entries, Modified, Scan, ScanReport, ScanRoot, Tree, count_entry, default_report, entry_path,
  exhaust, in_window, is_other_checkout, is_searched, observe, scan_report, scan_roots, visit_file,
  walk, walk_entries, warn,
}

abbrev seen_at : Scan → FilePath → ℤ → List FileEvent
seen_at scan path at =
    if in_window scan.root at
    then file_event scan.session scan.cwd path at Operation.observed scan.root.source ∷ []
    else []

-- The observations of one file.
abbrev seen_file : Scan → FilePath → Modified → List FileEvent
seen_file scan path (Modified.no_time message) = []
seen_file scan path Modified.before_epoch = seen_at scan path (pos 0)
seen_file scan path (Modified.seconds n) = seen_at scan path (pos n)

-- What there is to see, whatever the depth and the budget.
unfoldable mutual
  unfolding is_searched is_other_checkout entry_path file_event

  pub all_below : Scan → Tree → FilePath → List FileEvent
  all_below scan (Tree.absent message) dir = []
  all_below scan (Tree.unreadable message) dir = []
  all_below scan (Tree.readable entries) dir = all_entries scan entries dir

  pub all_entries : Scan → Entries → FilePath → List FileEvent
  all_entries scan Entries.no_more dir = []
  all_entries scan (Entries.broken message rest) dir = all_entries scan rest dir
  all_entries scan (Entries.of_no_kind name message rest) dir = all_entries scan rest dir
  all_entries scan (Entries.folder name git tree rest) dir =
      (if not (is_searched name) || is_other_checkout git
        then []
        else all_below scan tree (entry_path dir name))
      ++ all_entries scan rest dir
  all_entries scan (Entries.file name at rest) dir =
      seen_file scan (entry_path dir name) at ++ all_entries scan rest dir
  all_entries scan (Entries.special name rest) dir = all_entries scan rest dir

abbrev uncut : ScanReport → Bool
uncut r = not r.budget_exhausted && not r.depth_limited

observe-events :
    (scan : Scan) (path : FilePath) (at : ℤ) (r : ScanReport)
    → (observe scan path at r).events ≡ r.events ++ seen_at scan path at
unfolding observe
observe-events scan path at r = elim (Bool-cases (in_window scan.root at)) [
  | inl y ↦ rw y refl
  | inr n ↦ rw n (sym (append-nil r.events))
]

visit_file-events :
    (scan : Scan) (path : FilePath) (at : Modified) (r : ScanReport)
    → (visit_file scan path at r).events ≡ r.events ++ seen_file scan path at
unfolding visit_file
visit_file-events scan path (Modified.no_time message) r = sym (append-nil r.events)
visit_file-events scan path Modified.before_epoch r = observe-events scan path (pos 0) r
visit_file-events scan path (Modified.seconds n) r = observe-events scan path (pos n) r

observe-uncut :
    (scan : Scan) (path : FilePath) (at : ℤ) (r : ScanReport)
    → uncut (observe scan path at r) ≡ uncut r
unfolding observe
observe-uncut scan path at r = elim (Bool-cases (in_window scan.root at)) [
  | inl y ↦ rw y refl
  | inr n ↦ rw n refl
]

visit_file-uncut :
    (scan : Scan) (path : FilePath) (at : Modified) (r : ScanReport)
    → uncut (visit_file scan path at r) ≡ uncut r
unfolding visit_file observe
visit_file-uncut scan path (Modified.no_time message) r = refl
visit_file-uncut scan path Modified.before_epoch r = observe-uncut scan path (pos 0) r
visit_file-uncut scan path (Modified.seconds n) r = observe-uncut scan path (pos n) r

-- If the later report is uncut, so was the earlier one, and these are the events between them.
abbrev Adds : List FileEvent → ScanReport → ScanReport → Type 0
Adds xs r s = uncut s ≡ true → (uncut r ≡ true) × (s.events ≡ r.events ++ xs)

Adds-nothing : (r : ScanReport) → Adds [] r r
Adds-nothing r h = (h, sym (append-nil r.events))

Adds-then :
    (xs ys : List FileEvent) (r s t : ScanReport) → Adds xs r s → Adds ys s t → Adds (xs ++ ys) r t
Adds-then xs ys r s t f g h =
    let (u, e) = g h in
    let (v, k) = f u in (v, e ∙ (ap (λ zs. zs ++ ys) k ∙ append_assoc r.events xs ys))

Adds-within :
    (b : Bool) (xs : List FileEvent) (r more : ScanReport)
    → Adds xs r more
    → Adds xs r (if b then exhaust r else more)
Adds-within true xs r more f h = absurd (ground arith)
Adds-within false xs r more f h = f h

Adds-limited :
    (xs : List FileEvent) (r : ScanReport) → Adds xs r (record r { depth_limited = true })
Adds-limited xs r h = absurd (ground arith)

Adds-warned :
    (b : Bool) (path : FilePath) (message : Str) (r : ScanReport)
    → Adds [] r (if b then r else warn path message r)
Adds-warned true path message r = Adds-nothing r
Adds-warned false path message r = Adds-nothing r

Adds-skipped :
    (b : Bool) (xs : List FileEvent) (r s : ScanReport)
    → Adds xs r s
    → Adds (if b then [] else xs) r (if b then r else s)
Adds-skipped true xs r s f = Adds-nothing r
Adds-skipped false xs r s f = f

Adds-stopped :
    (b : Bool) (xs ys : List FileEvent) (r inside more : ScanReport)
    → Adds xs r inside
    → Adds ys inside more
    → Adds (xs ++ ys) r (if not b && inside.budget_exhausted then inside else more)
Adds-stopped b xs ys r inside more f g = elim (Bool-cases (not b && inside.budget_exhausted)) [
  | inl y ↦ rw y (λ h. absurd (ground arith))
  | inr n ↦ rw n (Adds-then xs ys r inside more f g)
]

Adds-visit_file :
    (scan : Scan) (path : FilePath) (at : Modified) (r : ScanReport)
    → Adds (seen_file scan path at) r (visit_file scan path at r)
Adds-visit_file scan path at r h =
    (sym (visit_file-uncut scan path at r) ∙ h, visit_file-events scan path at r)

mutual
  unfolding walk all_below

  Adds-walk :
      (scan : Scan) (tree : Tree) (dir : FilePath) (depth : ℕ) (r : ScanReport)
      → Adds (all_below scan tree dir) r (walk scan tree dir depth r)
  Adds-walk scan (Tree.absent message) dir zero r = Adds-limited [] r
  Adds-walk scan (Tree.unreadable message) dir zero r = Adds-limited [] r
  Adds-walk scan (Tree.readable entries) dir zero r = Adds-limited (all_entries scan entries dir) r
  Adds-walk scan (Tree.absent message) dir (suc depth) r =
      Adds-warned (dir == scan.root.path) dir message r
  Adds-walk scan (Tree.unreadable message) dir (suc depth) r = Adds-nothing r
  Adds-walk scan (Tree.readable entries) dir (suc depth) r =
      Adds-walk_entries scan entries dir depth r

  Adds-walk_entries :
      (scan : Scan) (entries : Entries) (dir : FilePath) (depth : ℕ) (r : ScanReport)
      → Adds (all_entries scan entries dir) r (walk_entries scan entries dir depth r)
  Adds-walk_entries scan Entries.no_more dir depth r = Adds-nothing r
  Adds-walk_entries scan (Entries.broken message rest) dir depth r =
      let visited = warn dir message (count_entry r) in
      Adds-within (r.entries_visited == scan.budget) (all_entries scan rest dir) r
        (walk_entries scan rest dir depth visited) (Adds-walk_entries scan rest dir depth visited)
  Adds-walk_entries scan (Entries.of_no_kind name message rest) dir depth r =
      let visited = warn (entry_path dir name) message (count_entry r) in
      Adds-within (r.entries_visited == scan.budget) (all_entries scan rest dir) r
        (walk_entries scan rest dir depth visited) (Adds-walk_entries scan rest dir depth visited)
  Adds-walk_entries scan (Entries.folder name git tree rest) dir depth r =
      let skipped = not (is_searched name) || is_other_checkout git in
      let found = all_below scan tree (entry_path dir name) in
      let below = walk scan tree (entry_path dir name) depth (count_entry r) in
      let inside = if skipped then count_entry r else below in
      let more = walk_entries scan rest dir depth inside in
      Adds-within (r.entries_visited == scan.budget)
        ((if skipped then [] else found) ++ all_entries scan rest dir) r
        (if not skipped && inside.budget_exhausted then inside else more)
        (Adds-stopped skipped (if skipped then [] else found) (all_entries scan rest dir)
          (count_entry r) inside more
          (Adds-skipped skipped found (count_entry r) below
            (Adds-walk scan tree (entry_path dir name) depth (count_entry r)))
          (Adds-walk_entries scan rest dir depth inside))
  Adds-walk_entries scan (Entries.file name at rest) dir depth r =
      let path = entry_path dir name in
      let visited = visit_file scan path at (count_entry r) in
      let more = walk_entries scan rest dir depth visited in
      Adds-within (r.entries_visited == scan.budget)
        (seen_file scan path at ++ all_entries scan rest dir) r more
        (Adds-then (seen_file scan path at) (all_entries scan rest dir) (count_entry r) visited more
          (Adds-visit_file scan path at (count_entry r))
          (Adds-walk_entries scan rest dir depth visited))
  Adds-walk_entries scan (Entries.special name rest) dir depth r =
      Adds-within (r.entries_visited == scan.budget) (all_entries scan rest dir) r
        (walk_entries scan rest dir depth (count_entry r))
        (Adds-walk_entries scan rest dir depth (count_entry r))

module _ (session : SessionKey) (cwd : FilePath) (tree : FilePath → Tree) (budget : ℕ) where
  abbrev pub everything : List ScanRoot → List FileEvent
  everything [] = []
  everything (root ∷ roots) =
      all_below (record { session = session; cwd = cwd; root = root; budget = budget })
        (tree root.path) root.path
      ++ everything roots

  Adds-scan_roots :
      (roots : List ScanRoot) (r : ScanReport)
      → Adds (everything roots) r (scan_roots session cwd budget tree roots r)
  unfolding scan_roots
  Adds-scan_roots [] r = Adds-nothing r
  Adds-scan_roots (root ∷ roots) r =
      let scan : Scan = record { session = session; cwd = cwd; root = root; budget = budget } in
      let walked = walk scan (tree root.path) root.path root.depth r in
      Adds-stopped false (all_below scan (tree root.path) root.path) (everything roots) r walked
        (scan_roots session cwd budget tree roots walked)
        (Adds-walk scan (tree root.path) root.path root.depth r) (Adds-scan_roots roots walked)

  -- A scan that neither exhausted its budget nor was limited by depth has observed, in order,
  -- exactly the files in the window below each root that the system let it read, hidden and build
  -- directories and other checkouts left out.
  pub scan_report_complete :
      (roots : List ScanRoot)
      → (scan_report session cwd tree roots budget).budget_exhausted ≡ false
      → (scan_report session cwd tree roots budget).depth_limited ≡ false
      → (scan_report session cwd tree roots budget).events ≡ everything roots
  unfolding scan_report
  scan_report_complete roots h k = (Adds-scan_roots roots default_report (rw (h, k) refl)).1
