-- ===== src/Store/Append.antt =====
-- Adding events to a session's history (crates/session-activity/src/store.rs). The names of new
-- batches, made of the time, the process and a counter, are arguments.
pub mod Fresh
use peekback.Activity.{
  FileEvent, Operation, Outcome, SessionKey, Source, key_eq, operation_eq, outcome_eq, source_eq,
  validate,
}
use peekback.Base.{
  Eq, Error, List, Option, Result, Str, [], codes, contains, ensure, err, false, keep, leb, length,
  map, nat_eq, none, ok, option_eq, some, str_eq, true, ℕ, ℕ_discrete, ◌++◌, ◌>>=◌, ◌>>◌, ◌∷◌,
}
use peekback.Base.Int.{int_eq, ℤ}
use peekback.Base.Paths.{FilePath, path_eq}
use peekback.Store.{
  Codec, Content, Dir, array_size, events, is_retained, max_batch_bytes, put, read_unlocked,
  retained_from, validate_batch,
}

-- The batch file, unless nothing is left to write.
unfoldable pub write_retained : Codec → Str → List FileEvent → Dir → Result Dir
unfolding array_size put
write_retained codec name [] dir = ok dir
write_retained codec name (e ∷ es) dir = do
  let size = array_size codec (e ∷ es)
  ensure (leb size max_batch_bytes) Error.batch_too_large
  ok (put (name ++ codes ".json") (Content.batch (e ∷ es) size) dir)

-- `append_unlocked`: events behind the retention cutoff are dropped, and a batch is one file.
unfoldable pub append_unlocked : Codec → Str → List FileEvent → Dir → Result Dir
unfolding retained_from write_retained
append_unlocked codec name events dir = do
  cutoff ← retained_from dir
  let retained = keep (is_retained cutoff) events
  write_retained codec name retained dir

-- The directory of a session, created where it is missing.
abbrev pub created : Option Dir → Dir
created none = []
created (some dir) = dir

-- `prepare` creates the directory, which stays if a later step fails.
abbrev pub in_dir {ℓ} : {A : Type ℓ} → Dir → Result (Dir × A) → Option Dir × Result A
in_dir dir (ok (dir', a)) = (some dir', ok a)
in_dir dir (err e) = (some dir, err e)

-- The checks of `prepare`; `none` means that there is nothing to append.
unfoldable pub prepare : SessionKey → List FileEvent → Result (Option (List FileEvent))
unfolding validate validate_batch
prepare session [] = do validate session; ok none
prepare session (e ∷ es) = do validate session; validate_batch session (e ∷ es); ok (some (e ∷ es))

unfoldable pub append :
    Codec → Str → SessionKey → List FileEvent → Option Dir → Option Dir × Result (Unit {0})
unfolding prepare append_unlocked
append codec name session events dir = elim (prepare session events) [
  | err e ↦ (dir, err e)
  | ok prepared ↦ elim prepared [
    | none ↦ (dir, ok tt)
    | some es ↦
        in_dir (created dir) (append_unlocked codec name es (created dir) >>= λ d. ok (d, tt))
  ]
]

-- What makes two events one: everything but the schema, the session and `concurrent`.
pub record Identity : Type 0 where
  pub timestamp : ℤ
  pub path : FilePath
  pub previous_path : Option FilePath
  pub cwd : FilePath
  pub operation : Operation
  pub source : Source
  pub outcome : Outcome
  pub tool_call_id : Option Str

unfoldable pub Identity_discrete : Discrete Identity
unfolding ℕ_discrete
Identity_discrete = hlevel ℕ_discrete

instance abbrev pub identity_eq : Eq Identity
identity_eq = record { dec = Identity_discrete }

unfoldable pub identity : FileEvent → Identity
identity e = record {
  timestamp = e.timestamp;
  path = e.path;
  previous_path = e.previous_path;
  cwd = e.cwd;
  operation = e.operation;
  source = e.source;
  outcome = e.outcome;
  tool_call_id = e.tool_call_id;
}

-- `events.filter(|e| seen.insert(identity(e)))`.
unfoldable pub fresh_events : List Identity → List FileEvent → List FileEvent
unfolding identity
fresh_events seen [] = []
fresh_events seen (e ∷ es) = elim (contains seen (identity e)) [
  | true ↦ fresh_events seen es
  | false ↦ e ∷ fresh_events (identity e ∷ seen) es
]

unfoldable pub append_new_unlocked :
    Codec → Str → SessionKey → List FileEvent → Dir → Result (Dir × ℕ)
unfolding read_unlocked fresh_events append_unlocked
append_new_unlocked codec name session events dir = do
  report ← read_unlocked session dir
  let fresh = fresh_events (map identity report.events) events
  dir' ← append_unlocked codec name fresh dir
  ok (dir', length fresh)

unfoldable pub append_new :
    Codec → Str → SessionKey → List FileEvent → Option Dir → Option Dir × Result ℕ
unfolding prepare append_new_unlocked
append_new codec name session events dir = elim (prepare session events) [
  | err e ↦ (dir, err e)
  | ok prepared ↦ elim prepared [
    | none ↦ (dir, ok 0)
    | some es ↦ in_dir (created dir) (append_new_unlocked codec name session es (created dir))
  ]
]
