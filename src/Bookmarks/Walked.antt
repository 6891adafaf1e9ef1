-- ===== src/Bookmarks/Walked.antt =====
-- The walk below a directory (`walk` in src/bookmarks.rs) ends, within its budget.
use peekback.Base.{
  All, All-append, Bool, List, Option, Str, [], ap, arith, begins_with, codes, either_branch, false,
  inl, inr, leb, length, length-append, ltb, nat_eq, option_eq, refl, some, str_eq, suc, true, zero,
  ℕ, ◌&&◌, ◌+◌, ◌-◌, ◌<◌, ◌∷◌, ◌≡◌, ◌≤◌, ◌⊎◌,
}
use peekback.Base.Int.{int_eq}
use peekback.Base.Paths.{FilePath, path_eq}
use peekback.Bookmarks.{
  DirAnswer, DirEntry, Disk, EntryKind, Walk, child_of, max_depth, open_dir, visit_if, walk_dir,
  walk_entry, walk_kind, walk_markdown, walk_pending, warn_at,
}

pending_cases :
    (xs : List (FilePath × ℕ))
    → (xs ≡ [])
      ⊎ ((dir : FilePath) × (depth : ℕ) × (rest : List (FilePath × ℕ)) × (xs ≡ (dir, depth) ∷ rest))
pending_cases [] = inl refl
pending_cases ((dir, depth) ∷ rest) = inr (dir, depth, rest, refl)

module _ (disk : Disk) where
  abbrev AllMarkdown : List FilePath → Type 0
  AllMarkdown = All (λ p. disk.is_markdown p ≡ true)

  -- From one state of the walk to a later one: a unit of the budget pays for what was added.
  record Pays (cost : ℕ) (w v : Walk) : Type 0 where
    directories : length v.pending + v.budget ≤ length w.pending + w.budget + cost
    files : length v.visited + v.budget ≤ length w.visited + w.budget + cost
    markdown : AllMarkdown w.visited → AllMarkdown v.visited

  Pays-same : (w : Walk) → Pays 0 w w
  Pays-same w = record { directories = omega arith; files = omega arith; markdown = λ h. h }

  Pays-one : (w : Walk) → Pays 1 w w
  Pays-one w = record { directories = omega arith; files = omega arith; markdown = λ h. h }

  Pays-trans : (w v u : Walk) → Pays 0 w v → Pays 0 v u → Pays 0 w u
  Pays-trans w v u p q = record {
    directories = omega (arith, p.directories, q.directories);
    files = omega (arith, p.files, q.files);
    markdown = λ h. q.markdown (p.markdown h);
  }

  Pays-pending :
      (path : FilePath) (depth : ℕ) (w : Walk)
      → Pays 1 w (record w { pending = (path, depth) ∷ w.pending })
  Pays-pending path depth w = record {
    directories = omega arith;
    files = omega arith;
    markdown = λ h. h;
  }

  Pays-visit :
      (b : Bool) (path : FilePath) (w : Walk)
      → (b ≡ true → disk.is_markdown path ≡ true)
      → Pays 1 w (visit_if b path w)
  Pays-visit false path w h = Pays-one w
  Pays-visit true path w h = record {
    directories = omega arith;
    files = omega (arith, length-append w.visited (path ∷ []));
    markdown =
        λ k. All-append (λ p. disk.is_markdown p ≡ true) w.visited (path ∷ []) k (h refl, tt);
  }

  Pays-walk_kind :
      (path : FilePath) (depth : ℕ) (kind : EntryKind) (w : Walk)
      → Pays 1 w (walk_kind disk path depth kind w)
  unfolding walk_kind
  Pays-walk_kind path depth (EntryKind.no_kind message) w = record {
    directories = omega arith;
    files = omega arith;
    markdown = λ h. h;
  }
  Pays-walk_kind path depth EntryKind.a_directory w =
      either_branch (Pays 1 w) (ltb depth max_depth) _ w (λ y. Pays-pending path (depth + 1) w)
        (λ n. Pays-one w)
  Pays-walk_kind path depth EntryKind.a_file w = Pays-visit (disk.is_markdown path) path w (λ h. h)
  Pays-walk_kind path depth (EntryKind.other_kind leads) w =
      Pays-visit (disk.is_markdown path && leads) path w (λ h. ground (arith, h))

  Pays-walk_entry :
      (dir : FilePath) (depth : ℕ) (name : Str) (kind : EntryKind) (w : Walk)
      → Pays 1 w (walk_entry disk dir depth name kind w)
  unfolding walk_entry
  Pays-walk_entry dir depth name kind w =
      either_branch (Pays 1 w) (begins_with (codes ".") name) w _ (λ y. Pays-one w)
        (λ n. Pays-walk_kind (child_of dir name) depth kind w)

  -- What an entry adds is paid for by the unit of the budget that it takes.
  Pays-taken :
      (w v : Walk)
      → leb w.budget 0 ≡ false
      → Pays 1 (record w { budget = w.budget - 1 }) v
      → Pays 0 w v
  Pays-taken w v h p =
      let some_left : 1 ≤ w.budget = ground (arith, h) in
      record {
        directories = omega (arith, p.directories, some_left);
        files = omega (arith, p.files, some_left);
        markdown = p.markdown;
      }

  Pays-walk_dir :
      (dir : FilePath) (depth : ℕ) (rest : List DirEntry) (w : Walk)
      → Pays 0 w (walk_dir disk dir depth rest w)
  unfolding walk_dir
  Pays-walk_dir dir depth [] w = Pays-same w
  Pays-walk_dir dir depth (DirEntry.broken_entry message ∷ rest) w =
      let warned = warn_at disk dir message w in
      let p = Pays-walk_dir dir depth rest warned in
      record { directories = p.directories; files = p.files; markdown = p.markdown }
  Pays-walk_dir dir depth (DirEntry.named_entry name kind ∷ rest) w =
      let taken = record w { budget = w.budget - 1 } in
      let entered = walk_entry disk dir depth name kind taken in
      either_branch (Pays 0 w) (leb w.budget 0) _ (walk_dir disk dir depth rest entered)
        (λ y. record { directories = omega arith; files = omega arith; markdown = λ h. h })
        (λ n.
          Pays-trans w entered (walk_dir disk dir depth rest entered)
            (Pays-taken w entered n (Pays-walk_entry dir depth name kind taken))
            (Pays-walk_dir dir depth rest entered))

  Pays-open_dir :
      (dir : FilePath) (depth : ℕ) (answer : DirAnswer) (w : Walk)
      → Pays 0 w (open_dir disk dir depth answer w)
  unfolding open_dir
  Pays-open_dir dir depth DirAnswer.no_directory w = Pays-same w
  Pays-open_dir dir depth (DirAnswer.no_answer message) w = record {
    directories = omega arith;
    files = omega arith;
    markdown = λ h. h;
  }
  Pays-open_dir dir depth (DirAnswer.dir_entries entries) w = Pays-walk_dir dir depth entries w

  -- A walk that has ended, with files that the budget paid for.
  abbrev Ends : Walk → Option Walk → Type 0
  Ends w result =
      (v : Walk) × (result ≡ some v)
      × (length v.visited + v.budget ≤ length w.visited + w.budget)
      × (AllMarkdown w.visited → AllMarkdown v.visited)

  Ends-after : (w v : Walk) (result : Option Walk) → Pays 0 w v → Ends v result → Ends w result
  Ends-after w v result p (u, e, f, m) = (u, e, omega (arith, p.files, f), λ h. m (p.markdown h))

  Pays-popped :
      (w v : Walk) (rest : List (FilePath × ℕ))
      → Pays 0 (record w { pending = rest }) v
      → length rest ≤ length w.pending
      → Pays 0 w v
  Pays-popped w v rest p h = record {
    directories = omega (arith, p.directories, h);
    files = p.files;
    markdown = p.markdown;
  }

  opened_at : FilePath → ℕ → List (FilePath × ℕ) → Walk → Walk
  opened_at dir depth rest w =
      open_dir disk dir depth (disk.read_dir dir) (record w { pending = rest })

  Ends-walk_pending :
      (fuel : ℕ) (w : Walk) → length w.pending + w.budget < fuel → Ends w (walk_pending disk fuel w)
  unfolding walk_pending opened_at
  Ends-walk_pending zero w h = absurd (omega (arith, h))
  Ends-walk_pending (suc fuel) w h = elim (pending_cases w.pending) [
    | inl e ↦ rw (e, walk_pending) (w, refl, omega arith, λ k. k)
    | inr (dir, depth, rest, e) ↦
        let opened = opened_at dir depth rest w in
        let p = Pays-open_dir dir depth (disk.read_dir dir) (record w { pending = rest }) in
        let fewer : length rest + 1 ≡ length w.pending = omega (arith, ap length e) in
        let paid = Pays-popped w opened rest p (omega (arith, fewer)) in
        rw (e, walk_pending)
          (either_branch (Ends w) opened.is_over (some opened) (walk_pending disk fuel opened)
            (λ y. Ends-after w opened (some opened) paid (opened, refl, omega arith, λ k. k))
            (λ n.
              Ends-after w opened (walk_pending disk fuel opened) paid
                (Ends-walk_pending fuel opened (omega (arith, p.directories, fewer, h)))))
  ]

  -- A walk below a directory always ends: it finds no more files than its budget, each of them a
  -- Markdown file.
  pub walk_markdown_ends :
      (dir : FilePath) (budget : ℕ) (warnings : List Str)
      → (w : Walk) × (walk_markdown disk dir budget warnings ≡ some w)
        × (length w.visited + w.budget ≤ budget)
        × All (λ p. disk.is_markdown p ≡ true) w.visited
  unfolding walk_markdown
  walk_markdown_ends dir budget warnings =
      let start : Walk = record {
        pending = (dir, 0) ∷ [];
        budget = budget;
        warnings = warnings;
        visited = [];
        is_over = false;
      } in
      let (w, e, f, m) = Ends-walk_pending (budget + 2) start (omega arith) in
      (w, e, omega (arith, f), m tt)
