-- ===== src/Capture/Jobs/Attempts.antt =====
-- How often a capture is tried (src/capture_jobs.rs).
use peekback.Activity.{SessionKey, key_eq, operation_eq, outcome_eq, source_eq}
use peekback.Base.{
  ==_iff, All, All-each, Bool-cases, List, Option, Result, Str, Str_discrete, [], ap, arith, codes,
  either_branch, err, false, inl, inr, leb, le→leb, nat_eq, none, not, not-eq, ok, option_discrete,
  option_eq, refl, some, some-injective, str_eq, sym, true, ℕ, ℕ_discrete, ◌%◌, ◌++◌, ◌+◌, ◌<◌,
  ◌==◌, ◌^◌, ◌∙◌, ◌∷◌, ◌≡◌, ◌≤◌,
}
use peekback.Base.Int.{int_eq}
use peekback.Base.Paths.{path_eq}
use peekback.Capture.Jobs.{
  Attempt, CaptureJob, JobFile, Kept, Retried, Retry, Write, list_of, retry_file, retry_files,
  retry_found, run_job, set_aside, settle_job,
}
use peekback.Daemon.{done, listing_request_eq, session_identity_eq, theme_eq, view_context_eq}
use peekback.Harness.{harness_eq, key}
use peekback.Query.{evidence_eq, files, observation_eq}
use peekback.Session.{activity_key, turn_eq}

-- A file of the queue that holds a job of the session has failed `n` times at least.
abbrev pub Spent : SessionKey → ℕ → JobFile → Type 0
Spent key n file =
    (job : CaptureJob)
    → file.extension ≡ some (codes "json")
    → file.is_regular ≡ true
    → file.job ≡ some job
    → activity_key job.session ≡ key
    → n ≤ job.attempts

-- The files of the queue can be rewritten and removed.
abbrev pub CanSettle : (Str → Attempt) → Type 0
CanSettle attempt =
    (stem : Str)
    → ((attempt stem).rewrite ≡ Write.written) × ((attempt stem).remove ≡ Write.written)

-- The same of what is left of a file.
abbrev SpentLeft : SessionKey → ℕ → Option JobFile → Type 0
SpentLeft key n none = Unit
SpentLeft key n (some file) = Spent key n file

Spent-not_json :
    (key : SessionKey) (n : ℕ) (file : JobFile)
    → (file.extension == some (codes "json")) ≡ false
    → Spent key n file
Spent-not_json key n file h = λ job e r j k. absurd (not-eq h e)

json_corrupt : (some (codes "corrupt") == some (codes "json")) ≡ false
unfolding option_discrete Str_discrete ℕ_discrete
json_corrupt = refl

Spent-set_aside :
    (write : Write) (key : SessionKey) (n : ℕ) (file : JobFile) (kept : Kept)
    → file.job ≡ none
    → SpentLeft key n (set_aside write file kept).0
Spent-set_aside Write.written key n file kept h = λ job e r j k. absurd (not-eq json_corrupt e)
Spent-set_aside (Write.failed_before x) key n file kept h = λ job e r j k. absurd (ground arith)
Spent-set_aside (Write.failed_after x) key n file kept h =
    λ job e r j k. absurd (not-eq json_corrupt e)

counted_lem : (a : ℕ) → a < 3 → (a + 1) % 2 ^ 32 ≡ a + 1
counted_lem a h = omega arith

Spent-settle_job :
    (attempt : Attempt) (key : SessionKey) (n : ℕ) (file : JobFile) (job : CaptureJob)
    (ran : Kept × Result (Unit {0}))
    → attempt.rewrite ≡ Write.written
    → attempt.remove ≡ Write.written
    → n ≤ job.attempts
    → job.attempts < 3
    → SpentLeft key (n + 1) (settle_job attempt file job ran).0
unfolding settle_job
Spent-settle_job attempt key n file job (kept, err e) w v h l = rw w (λ other x r j k.
    let same : (job.attempts + 1) % 2 ^ 32 ≡ other.attempts =
      ap (λ j. j.attempts) (some-injective j) in
    omega (arith, same, counted_lem job.attempts l, h))
Spent-settle_job attempt key n file job (kept, ok done) w v h l = rw v tt

Spent-retry_found :
    (attempt : Attempt) (key : SessionKey) (n : ℕ) (file : JobFile) (found : Option CaptureJob)
    (kept : Kept)
    → attempt.rewrite ≡ Write.written
    → attempt.remove ≡ Write.written
    → n ≤ 2
    → file.extension ≡ some (codes "json")
    → file.is_regular ≡ true
    → file.job ≡ found
    → Spent key n file
    → SpentLeft key (n + 1) (retry_found attempt Retry.automatic key file found kept).0
unfolding retry_found
Spent-retry_found attempt key n file none kept w v s x r j h =
    Spent-set_aside attempt.aside key (n + 1) file kept j
Spent-retry_found attempt key n file (some job) kept w v s x r j h =
    elim (Bool-cases (activity_key job.session == key)) [
      | inr other ↦ rw other (λ job' x' r' j' k'.
          let same : job ≡ job' = some-injective (sym j ∙ j') in
          absurd (not-eq other (ap (λ j. activity_key j.session) same ∙ k')))
      | inl own ↦ elim (Bool-cases (leb 3 job.attempts)) [
        | inl over ↦
            rw (own, over)
              (λ job' x' r' j' k'.
                let same : job ≡ job' = some-injective (sym j ∙ j') in
                let many : 3 ≤ job.attempts = ground arith in
                omega (arith, many, s, ap (λ j. j.attempts) same))
        | inr under ↦
            rw (own, under)
              (Spent-settle_job attempt key n file job (run_job attempt job kept) w v
                (h job x r j ((==_iff (activity_key job.session) key).0 own)) (ground arith))
      ]
    ]

Spent-retry_file :
    (attempt : Attempt) (key : SessionKey) (n : ℕ) (file : JobFile) (kept : Kept)
    → attempt.rewrite ≡ Write.written
    → attempt.remove ≡ Write.written
    → n ≤ 2
    → Spent key n file
    → SpentLeft key (n + 1) (retry_file attempt Retry.automatic key file kept).0
unfolding retry_file
Spent-retry_file attempt key n file kept w v s h =
    let P : Retried → Type 0 = λ r. SpentLeft key (n + 1) r.0 in
    either_branch P (not (file.extension == some (codes "json"))) _ _
      (λ other. Spent-not_json key (n + 1) file (ground (arith, other)))
      (λ json.
        either_branch P (not file.is_regular) _ _ (λ special job x r j k. absurd (ground arith))
          (λ regular.
            Spent-retry_found attempt key n file file.job kept w v s
              ((==_iff file.extension (some (codes "json"))).0 (ground (arith, json)))
              (ground (arith, regular)) refl h))

Spent-list_of :
    (key : SessionKey) (n : ℕ) (left : Option JobFile) (rest : List JobFile)
    → SpentLeft key n left
    → All (Spent key n) rest
    → All (Spent key n) (list_of left ++ rest)
Spent-list_of key n none rest h k = k
Spent-list_of key n (some file) rest h k = (h, k)

Spent-retry_files :
    (attempt : Str → Attempt) (key : SessionKey) (n : ℕ) (files : List JobFile) (kept : Kept)
    → CanSettle attempt
    → n ≤ 2
    → All (Spent key n) files
    → All (Spent key (n + 1)) (retry_files attempt Retry.automatic key files kept).0
unfolding retry_files
Spent-retry_files attempt key n [] kept c s h = tt
Spent-retry_files attempt key n (file ∷ files) kept c s h =
    Spent-list_of key (n + 1) (retry_file (attempt file.stem) Retry.automatic key file kept).0 _
      (Spent-retry_file (attempt file.stem) key n file kept (c file.stem).0 (c file.stem).1 s h.0)
      (Spent-retry_files attempt key n files _ c s h.1)

Spent-zero : (key : SessionKey) (files : List JobFile) → All (Spent key 0) files
Spent-zero key files = All-each {P = Spent key 0} (λ file job x r j k. omega arith) files

idle_found :
    (attempt : Attempt) (key : SessionKey) (file : JobFile) (found : Option CaptureJob)
    (kept : Kept)
    → file.extension ≡ some (codes "json")
    → file.is_regular ≡ true
    → file.job ≡ found
    → Spent key 3 file
    → (retry_found attempt Retry.automatic key file found kept).1 ≡ kept
unfolding retry_found
idle_found attempt key file none kept x r j h = refl
idle_found attempt key file (some job) kept x r j h =
    elim (Bool-cases (activity_key job.session == key)) [
      | inr other ↦ rw other refl
      | inl own ↦
          let many = h job x r j ((==_iff (activity_key job.session) key).0 own) in
          let over : leb 3 job.attempts ≡ true = le→leb 3 job.attempts many in rw (own, over) refl
    ]

idle_file :
    (attempt : Attempt) (key : SessionKey) (file : JobFile) (kept : Kept)
    → Spent key 3 file
    → (retry_file attempt Retry.automatic key file kept).1 ≡ kept
unfolding retry_file
idle_file attempt key file kept h =
    let P : Retried → Type 0 = λ r. r.1 ≡ kept in
    either_branch P (not (file.extension == some (codes "json"))) _ _ (λ other. refl)
      (λ json.
        either_branch P (not file.is_regular) _ _ (λ special. refl)
          (λ regular.
            idle_found attempt key file file.job kept
              ((==_iff file.extension (some (codes "json"))).0 (ground (arith, json)))
              (ground (arith, regular)) refl h))

idle_files :
    (attempt : Str → Attempt) (key : SessionKey) (files : List JobFile) (kept : Kept)
    → All (Spent key 3) files
    → (retry_files attempt Retry.automatic key files kept).1 ≡ kept
unfolding retry_files
idle_files attempt key [] kept h = refl
idle_files attempt key (file ∷ files) kept h =
    let e = idle_file (attempt file.stem) key file kept h.0 in
    idle_files attempt key files _ h.1 ∙ e

-- The files that an automatic retry leaves, and what it captured.
abbrev pub round : (Str → Attempt) → SessionKey → List JobFile × Kept → List JobFile × Kept
round attempt key (files, kept) =
    let (files', kept', result) = retry_files attempt Retry.automatic key files kept in
    (files', kept')

-- Where the queue's files can be rewritten and removed, every job of the session that three automatic
-- retries leave has failed three times at least, and a further automatic retry captures nothing.
pub retry_gives_up :
    (a b c d : Str → Attempt) (key : SessionKey) (files : List JobFile) (kept : Kept)
    → CanSettle a
    → CanSettle b
    → CanSettle c
    → All (Spent key 3) (round c key (round b key (round a key (files, kept)))).0
      × ((round d key (round c key (round b key (round a key (files, kept))))).1
          ≡ (round c key (round b key (round a key (files, kept)))).1)
retry_gives_up a b c d key files kept p q r =
    let one = Spent-retry_files a key 0 files kept p (omega arith) (Spent-zero key files) in
    let two = Spent-retry_files b key 1 _ (round a key (files, kept)).1 q (omega arith) one in
    let three =
      Spent-retry_files c key 2 _ (round b key (round a key (files, kept))).1 r (omega arith) two in
    (three, idle_files d key _ _ three)
