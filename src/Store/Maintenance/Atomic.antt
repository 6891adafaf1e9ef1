-- ===== src/Store/Maintenance/Atomic.antt =====
-- Whole runs of maintenance, and runs that stop (crates/session-activity/src/maintenance.rs).
use mathlib.Core.List.{append-nil}
use peekback.Activity.{FileEvent, SessionKey, key_eq, operation_eq, outcome_eq, source_eq, validate}
use peekback.Base.{
  Bool-cases, List, Option, Result-cases, Str, [], ap, arith, codes, false, inl, inr, keep, leb,
  length, map, nat_eq, none, ok, option_eq, refl, some, str_eq, subst, suc, sym, take, true, zero,
  ℕ, ◌++◌, ◌<◌, ◌∙◌, ◌∷◌, ◌≡◌, ◌⊎◌,
}
use peekback.Base.Int.{int_eq, ltz, ℤ}
use peekback.Base.Paths.{path_eq}
use peekback.Daemon.{after, listing_request_eq, session_identity_eq, theme_eq, view_context_eq}
use peekback.Store.{
  Checkpoint, Codec, Content, Dir, checkpoint_name, delete, is_retained, max_batch_bytes, names,
  put, read_checkpoint, read_unlocked, safe_name,
}
use peekback.Store.Maintenance.{
  MaintenanceReport, Prepared, Step, commit, covered_by, maintain, new_checkpoint, pack_files,
  publishing, report_of, run_steps, survey,
}
use peekback.Store.Maintenance.Commit.{ok-injective}
use peekback.Store.Maintenance.Covered.{FreshNames}
use peekback.Store.Maintenance.Crash.{files, new, reads_before, reads_cleanup}
use peekback.Store.Maintenance.Survey.{IsPrepared, survey-IsPrepared}

take_append :
    (k : ℕ) (xs ys : List Step)
    → (take k (xs ++ ys) ≡ take k xs) ⊎ ((j : ℕ) × (take k (xs ++ ys) ≡ xs ++ take j ys))
take_append k [] ys = inr (k, refl)
take_append zero (x ∷ xs) ys = inl refl
take_append (suc k) (x ∷ xs) ys = elim (take_append k xs ys) [
  | inl e ↦ inl (ap (◌∷◌ x) e)
  | inr (j, e) ↦ inr (j, ap (◌∷◌ x) e)
]

take-map {ℓ} :
    {A : Type ℓ} (k : ℕ) (f : A → Step) (xs : List A) → take k (map f xs) ≡ map f (take k xs)
take-map zero f xs = refl
take-map (suc k) f [] = refl
take-map (suc k) f (x ∷ xs) = ap (◌∷◌ (f x)) (take-map k f xs)

take_all {ℓ} : {A : Type ℓ} (xs : List A) → take (length xs) xs ≡ xs
take_all [] = refl
take_all (x ∷ xs) = ap (◌∷◌ x) (take_all xs)

run_steps-append :
    (xs ys : List Step) (d : Dir) → run_steps (xs ++ ys) d ≡ run_steps ys (run_steps xs d)
unfolding run_steps
run_steps-append [] ys d = refl
run_steps-append (Step.publish n c ∷ xs) ys d = run_steps-append xs ys (put n c d)
run_steps-append (Step.remove n ∷ xs) ys d = run_steps-append xs ys (delete n d)

-- A directory that reads as one history or as another, both without a warning.
abbrev pub ReadsAs : SessionKey → Dir → List FileEvent → Type 0
ReadsAs session d es = read_unlocked session d ≡ ok (record { events = es; warnings = [] })

module _ (codec : Codec) (positive : (e : FileEvent) → 0 < codec.event_size e) (prefix : Str)
    (session : SessionKey) (d : Dir) (p : Prepared) (old : Checkpoint)
    (i : IsPrepared codec session d p old)
    (fresh : FreshNames codec prefix d (length p.chunks)) where
  abbrev cleanup : List Str
  cleanup = covered_by p.paths old d ++ keep (safe_name (codes ".pack")) (names d)

  abbrev tail_steps : ℕ → List Step
  tail_steps size =
      Step.publish checkpoint_name
        (Content.checkpoint (new codec positive prefix session d p old i fresh) size)
      ∷ map Step.remove cleanup

  abbrev first_steps : List Step
  first_steps = publishing (files codec positive prefix session d p old i fresh)

  reads_published : (k : ℕ) → ReadsAs session (run_steps (take k first_steps) d) p.before
  reads_published k =
      subst (λ steps. ReadsAs session (run_steps steps d) p.before) (sym (take-map k _ _))
        (reads_before codec positive prefix session d p old i fresh k)

  reads_tail :
      (size j : ℕ)
      → leb size max_batch_bytes ≡ true
      → (ReadsAs session (run_steps (first_steps ++ take j (tail_steps size)) d) p.before)
        ⊎ (ReadsAs session (run_steps (first_steps ++ take j (tail_steps size)) d) p.retained)
  unfolding run_steps
  reads_tail size zero small = inl (
      subst (λ steps. ReadsAs session (run_steps steps d) p.before)
        (take_all first_steps ∙ sym (append-nil first_steps))
        (reads_published (length first_steps)))
  reads_tail size (suc j) small = inr (
      subst (λ e. ReadsAs session e p.retained)
        (ap
            (λ steps. run_steps steps (
              put checkpoint_name
                (Content.checkpoint (new codec positive prefix session d p old i fresh) size)
                (run_steps first_steps d)))
            (sym (take-map j Step.remove cleanup))
          ∙ sym (run_steps-append first_steps (take (suc j) (tail_steps size)) d))
        (reads_cleanup codec positive prefix session d p old i fresh size j small))

  -- Whatever prefix of the steps has run, the directory reads as one of the two histories.
  reads_prefix :
      (size k : ℕ)
      → leb size max_batch_bytes ≡ true
      → (ReadsAs session (run_steps (take k (first_steps ++ tail_steps size)) d) p.before)
        ⊎ (ReadsAs session (run_steps (take k (first_steps ++ tail_steps size)) d) p.retained)
  reads_prefix size k small = elim (take_append k first_steps (tail_steps size)) [
    | inl e ↦
        inl (
          subst (λ steps. ReadsAs session (run_steps steps d) p.before) (sym e) (reads_published k))
    | inr (j, e) ↦
        subst
          (λ steps.
            (ReadsAs session (run_steps steps d) p.before)
            ⊎ (ReadsAs session (run_steps steps d) p.retained))
          (sym e) (reads_tail size j small)
  ]

  -- When all of them have, it reads as the retained one.
  reads_whole :
      (size : ℕ)
      → leb size max_batch_bytes ≡ true
      → ReadsAs session (run_steps (first_steps ++ tail_steps size) d) p.retained
  unfolding run_steps
  reads_whole size small =
      subst (λ e. ReadsAs session e p.retained)
        (ap
            (λ ns. run_steps (map Step.remove ns) (
              put checkpoint_name
                (Content.checkpoint (new codec positive prefix session d p old i fresh) size)
                (run_steps first_steps d)))
            (take_all cleanup)
          ∙ sym (run_steps-append first_steps (tail_steps size) d))
        (reads_cleanup codec positive prefix session d p old i fresh size (length cleanup) small)

-- What a run promises: its first `k` steps read as the history before or as what is kept of it,
-- and all of its steps read as the latter.
abbrev pub IsAtomic : SessionKey → Dir → List Step → ℕ → List FileEvent → List FileEvent → Type 0
IsAtomic session d steps k before after =
    ((ReadsAs session (run_steps (take k steps) d) before)
      ⊎ (ReadsAs session (run_steps (take k steps) d) after))
    × ReadsAs session (run_steps steps d) after

-- A commit that returns a report has published a checkpoint that readers accept.
commit-eq-ok :
    (codec : Codec) (prefix : Str) (d : Dir) (p : Prepared) (old : Checkpoint)
    (report : MaintenanceReport)
    → (commit codec prefix p old d).result ≡ ok report
    → (leb
          (codec.checkpoint_size
            (new_checkpoint p (pack_files codec prefix 0 p.chunks) (covered_by p.paths old d)))
          max_batch_bytes
        ≡ true)
      × (report ≡ report_of true p)
unfolding commit
commit-eq-ok codec prefix d p old report h =
    elim (Bool-cases (
      leb
        (codec.checkpoint_size
          (new_checkpoint p (pack_files codec prefix 0 p.chunks) (covered_by p.paths old d)))
        max_batch_bytes)) [
          | inr large ↦ absurd (ground arith)
          | inl small ↦ (small, ok-injective (ground arith))
        ]

commit-IsAtomic :
    (codec : Codec) (positive : (e : FileEvent) → 0 < codec.event_size e) (prefix : Str)
    (session : SessionKey) (d : Dir) (p : Prepared) (old : Checkpoint) (k : ℕ)
    → IsPrepared codec session d p old
    → FreshNames codec prefix d (length p.chunks)
    → leb
        (codec.checkpoint_size
          (new_checkpoint p (pack_files codec prefix 0 p.chunks) (covered_by p.paths old d)))
        max_batch_bytes
      ≡ true
    → IsAtomic session d (commit codec prefix p old d).steps k p.before p.retained
unfolding commit
commit-IsAtomic codec positive prefix session d p old k i fresh small =
    let size = codec.checkpoint_size (new codec positive prefix session d p old i fresh) in
    rw (small, commit)
      (
        reads_prefix codec positive prefix session d p old i fresh size k small,
        reads_whole codec positive prefix session d p old i fresh size small,
      )

-- A run that is applied and succeeds is a commit.
maintain-eq-ok :
    (codec : Codec) (prefix : Str) (now : ℤ) (session : SessionKey) (before : Option ℤ) (d : Dir)
    (report : MaintenanceReport)
    → (maintain codec prefix now session before true (some d)).result ≡ ok report
    → (p : Prepared) × (old : Checkpoint) × (survey codec session before d ≡ ok p)
      × (read_checkpoint d ≡ ok old)
      × (maintain codec prefix now session before true (some d) ≡ commit codec prefix p old d)
unfolding maintain
maintain-eq-ok codec prefix now session before d report h =
    elim (Bool-cases (elim before [ none ↦ false | some cutoff ↦ ltz now cutoff ])) [
      | inl late ↦ absurd (ground arith)
      | inr fine ↦ elim (Result-cases (validate session)) [
        | inr (er, v) ↦ absurd (ground arith)
        | inl (u, v) ↦ elim (Result-cases (survey codec session before d)) [
          | inr (er, e) ↦ absurd (ground arith)
          | inl (p, e) ↦ elim (Result-cases (read_checkpoint d)) [
            | inr (er, k) ↦ absurd (ground arith)
            | inl (old, k) ↦ (p, old, e, k, rw (fine, v, e, k, maintain) refl)
          ]
        ]
      ]
    ]

-- Where every event takes some bytes and the generated pack names are new, of the right form and
-- all different, maintenance that is applied and reports success is atomic for readers: there was
-- a readable history, the directory after the first `k` of the steps, for any `k`, reads without a
-- warning as that history or as the events of it that the reported cutoff keeps, and after all the
-- steps as those.
pub maintain-IsAtomic :
    (codec : Codec) (positive : (e : FileEvent) → 0 < codec.event_size e) (prefix : Str) (now : ℤ)
    (session : SessionKey) (before : Option ℤ) (d : Dir) (report : MaintenanceReport) (k : ℕ)
    → FreshNames codec prefix d report.batches_after
    → (maintain codec prefix now session before true (some d)).result ≡ ok report
    → (es : List FileEvent) × ReadsAs session d es
      × IsAtomic session d
          (maintain codec prefix now session before true (some d)).steps
          k
          es
          (keep (is_retained report.retained_from) es)
maintain-IsAtomic codec positive prefix now session before d report k fresh h =
    let (p, old, e, t, same) = maintain-eq-ok codec prefix now session before d report h in
    let i = survey-IsPrepared codec session before d p old t e in
    let (small, r) = commit-eq-ok codec prefix d p old report (sym (ap (λ q. q.result) same) ∙ h) in
    let fresh' = subst (λ q. FreshNames codec prefix d q.batches_after) r fresh in
    let atomic = commit-IsAtomic codec positive prefix session d p old k i fresh' small in
    let kept : p.retained ≡ keep (is_retained report.retained_from) p.before =
      i.retained ∙ ap (λ q. keep (is_retained q.retained_from) p.before) (sym r) in
    (
      p.before,
      i.before,
      subst
          (λ es.
            IsAtomic session d (maintain codec prefix now session before true (some d)).steps k
              p.before es)
          kept (subst (λ q. IsAtomic session d q.steps k p.before p.retained) (sym same) atomic),
    )
