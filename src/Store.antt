-- ===== src/Store.antt =====
-- crates/session-activity/src/store.rs and maintenance.rs: the history of one session as a
-- directory of files. A file's content is what its bytes decode to and how many they are; the
-- encoded sizes are those of the JSON library, an argument. An operation runs under the lock of the
-- directory, so it sees one state; a crash inside maintenance leaves a state after some of its
-- steps.
pub mod Append
pub mod Maintenance
use peekback.Activity.{
  FileEvent, Operation, SessionKey, key_eq, operation_eq, outcome_eq, schema_version, source_eq,
  valid_id, validate,
}
use peekback.Base.{
  Bool, Error, List, Option, Result, Str, [], all, codes, contains, ensure, err, false,
  if◌then◌else◌, keep, leb, ltb, map, nat_eq, none, not, ok, option_eq, some, str_eq, true, ℕ, ◌&&◌,
  ◌*◌, ◌++◌, ◌+◌, ◌==◌, ◌>>=◌, ◌>>◌, ◌||◌, ◌∷◌,
}
use peekback.Base.Int.{int_eq, lez, ℤ}
use peekback.Base.Paths.{is_absolute, path_eq}
use peekback.Base.Sort.{sort}

-- The checkpoint file: the atomic commit point of maintenance.
pub record Checkpoint : Type 0 where
  pub version : ℕ
  pub retained_from : Option ℤ
  pub chunks : List Str
  pub covered : List Str

-- What a file of the directory holds: a batch or a checkpoint with its size in bytes, or something
-- that cannot be read as either.
pub data Content : Type 0 where
  batch : List FileEvent → ℕ → Content
  checkpoint : Checkpoint → ℕ → Content
  damaged : Error → Content

abbrev pub Dir : Type 0
Dir = List (Str × Content)

abbrev pub max_batch_bytes : ℕ
max_batch_bytes = 16 * 1024 * 1024

-- The sizes of the JSON texts, and the text of a number.
pub record Codec : Type 0 where
  pub event_size : FileEvent → ℕ
  pub checkpoint_size : Checkpoint → ℕ
  pub show : ℕ → Str

-- The size of `[a,b,...]`.
unfoldable pub body_size : Codec → List FileEvent → ℕ
body_size c [] = 0
body_size c (e ∷ []) = c.event_size e
body_size c (e ∷ f ∷ es) = c.event_size e + 1 + body_size c (f ∷ es)

unfoldable pub array_size : Codec → List FileEvent → ℕ
unfolding body_size
array_size c es = body_size c es + 2

unfoldable pub lookup : Str → Dir → Option Content
lookup name [] = none
lookup name ((n, content) ∷ dir) = if n == name then some content else lookup name dir

-- Writing a temporary file and renaming it over `name`: the file is replaced at once.
unfoldable pub put : Str → Content → Dir → Dir
put name content [] = (name, content) ∷ []
put name content ((n, old) ∷ dir) =
    if n == name then (n, content) ∷ dir else (n, old) ∷ put name content dir

unfoldable pub delete : Str → Dir → Dir
delete name dir = keep (λ f. not (f.0 == name)) dir

abbrev pub checkpoint_name : Str
checkpoint_name = codes ".checkpoint"

unfoldable pub ends_with : Str → Str → Bool
ends_with suffix [] = suffix == []
ends_with suffix (c ∷ cs) = (c ∷ cs) == suffix || ends_with suffix cs

-- `path.extension() == Some("json")`: a name that is only the suffix is a hidden file without one.
unfoldable pub is_json : Str → Bool
unfolding ends_with
is_json name = ends_with (codes ".json") name && not (name == codes ".json")

unfoldable pub safe_name : Str → Str → Bool
unfolding ends_with valid_id
safe_name suffix name = ends_with suffix name && valid_id name

abbrev pub no_checkpoint : Checkpoint
no_checkpoint = record { version = 0; retained_from = none; chunks = []; covered = [] }

-- All names differ.
unfoldable pub distinct : List Str → Bool
distinct [] = true
distinct (n ∷ ns) = not (contains ns n) && distinct ns

-- `checkpoint(dir)`: the committed state, or why it cannot be trusted.
unfoldable pub read_checkpoint : Dir → Result Checkpoint
unfolding lookup safe_name distinct
read_checkpoint dir = elim (lookup checkpoint_name dir) [
  | none ↦ ok no_checkpoint
  | some content ↦ elim content [
    | Content.batch es size ↦ err (Error.io (codes "checkpoint is no object"))
    | Content.damaged e ↦ err e
    | Content.checkpoint c size ↦ do
      ensure (leb size max_batch_bytes) Error.checkpoint_too_large
      ensure (c.version == 1) (Error.io (codes "unsupported history checkpoint version"))
      ensure (all (safe_name (codes ".pack")) c.chunks)
          (Error.io (codes "invalid checkpoint chunk name"))
      ensure (all (safe_name (codes ".json")) c.covered)
          (Error.io (codes "invalid checkpoint source name"))
      ensure (distinct c.chunks) (Error.io (codes "duplicate checkpoint chunk"))
      ok c
  ]
]

unfoldable pub retained_from : Dir → Result (Option ℤ)
retained_from dir = do c ← read_checkpoint dir; ok c.retained_from

-- `a <= b` of texts, as paths of one directory are sorted.
unfoldable pub le_str : Str → Str → Bool
le_str [] b = true
le_str (x ∷ a) [] = false
le_str (x ∷ a) (y ∷ b) = let rest = le_str a b in if x == y then rest else ltb x y

abbrev pub names : Dir → List Str
names = map (λ f. f.0)

-- Batches that no checkpoint covers, by name.
unfoldable pub incoming : List Str → Dir → List Str
unfolding is_json le_str sort
incoming covered dir = sort le_str (keep (λ n. is_json n && not (contains covered n)) (names dir))

unfoldable pub active_paths : Dir → Result (List Str)
active_paths dir = do c ← read_checkpoint dir; ok (c.chunks ++ incoming c.covered dir)

-- The checks of `validate_batch` on one event.
unfoldable pub validate_event : SessionKey → FileEvent → Result (Unit {0})
validate_event session e = do
  ensure (e.session == session) Error.other_session
  ensure (leb 1 e.schema_version && leb e.schema_version schema_version) Error.unsupported_schema
  ensure (is_absolute e.path && is_absolute e.cwd) Error.paths_not_absolute
  elim e.previous_path [
    | none ↦ ensure (not (e.operation == Operation.rename)) Error.rename_disagrees
    | some p ↦ do
      ensure (is_absolute p) Error.paths_not_absolute
      ensure (e.operation == Operation.rename) Error.rename_disagrees
  ]

unfoldable pub validate_batch : SessionKey → List FileEvent → Result (Unit {0})
unfolding validate_event
validate_batch session [] = ok tt
validate_batch session (e ∷ es) = do validate_event session e; validate_batch session es

unfoldable pub read_batch : SessionKey → Option Content → Result (List FileEvent)
unfolding validate_batch
read_batch session none = err (Error.io (codes "not found"))
read_batch session (some (Content.damaged e)) = err e
read_batch session (some (Content.checkpoint c size)) = err (Error.io (codes "batch is no array"))
read_batch session (some (Content.batch es size)) = do
  ensure (leb size max_batch_bytes) Error.batch_too_large
  validate_batch session es
  ok es

pub record ReadReport : Type 0 where
  pub events : List FileEvent
  pub warnings : List (Str × Error)

-- A batch goes in front of those that follow, or becomes a warning.
abbrev pub add_batch : Str → Result (List FileEvent) → ReadReport → ReadReport
add_batch n (ok es) rest = record { events = es ++ rest.events; warnings = rest.warnings }
add_batch n (err e) rest = record { events = rest.events; warnings = (n, e) ∷ rest.warnings }

-- The loop over the active paths.
unfoldable pub read_paths : SessionKey → Dir → List Str → ReadReport
read_paths session dir [] = record { events = []; warnings = [] }
read_paths session dir (n ∷ ns) =
    add_batch n (read_batch session (lookup n dir)) (read_paths session dir ns)

abbrev pub by_timestamp : FileEvent → FileEvent → Bool
by_timestamp a b = lez a.timestamp b.timestamp

-- `cutoff.is_none_or(|at| event.timestamp >= at)`.
abbrev pub is_retained : Option ℤ → FileEvent → Bool
is_retained none e = true
is_retained (some at) e = lez at e.timestamp

unfoldable pub read_unlocked : SessionKey → Dir → Result ReadReport
read_unlocked session dir = do
  validate session
  paths ← active_paths dir
  cutoff ← retained_from dir
  let report = read_paths session dir paths
  ok (record {
    events = keep (is_retained cutoff) (sort by_timestamp report.events);
    warnings = report.warnings;
  })

-- `Store::read`: a session without a directory has no history.
unfoldable pub read : SessionKey → Option Dir → Result ReadReport
unfolding read_unlocked
read session none = do validate session; ok (record { events = []; warnings = [] })
read session (some dir) = read_unlocked session dir

-- `Store::events`: complete history or none.
unfoldable pub events : SessionKey → Option Dir → Result (List FileEvent)
unfolding read
events session dir = do
  report ← read session dir
  elim report.warnings [ [] ↦ ok report.events | w ∷ ws ↦ err Error.incomplete_history ]
