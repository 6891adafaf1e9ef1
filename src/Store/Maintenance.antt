-- ===== src/Store/Maintenance.antt =====
-- Packing and retention (crates/session-activity/src/maintenance.rs). The changes of the directory
-- are a list of steps, so that a crash is a prefix of it; a name is made unique by an argument.
pub mod Pack
pub mod Dirs
pub mod Commit
pub mod Committed
pub mod Covered
pub mod Published
pub mod Obsolete
pub mod Survey
pub mod Crash
pub mod Atomic
use peekback.Activity.{FileEvent, SessionKey, key_eq, operation_eq, outcome_eq, source_eq, validate}
use peekback.Base.{
  Bool, Error, List, Option, Result, Str, [], all, codes, ensure, err, false, if◌then◌else◌, keep,
  leb, length, ltb, map, nat_eq, none, not, ok, option_eq, some, str_eq, suc, true, ℕ, ◌&&◌, ◌++◌,
  ◌+◌, ◌-◌, ◌==◌, ◌>>=◌, ◌>>◌, ◌||◌, ◌∷◌,
}
use peekback.Base.Int.{int_eq, ltz, maxz, ℤ}
use peekback.Base.Paths.{path_eq}
use peekback.Base.Sort.{sort}
use peekback.Store.{
  Checkpoint, Codec, Content, Dir, active_paths, checkpoint_name, delete, events, is_json,
  is_retained, le_str, lookup, max_batch_bytes, names, put, read_checkpoint, read_unlocked,
  retained_from, safe_name,
}

-- A pack: its events, and the size of its file.
pub record Chunk : Type 0 where
  pub events : List FileEvent
  pub size : ℕ

-- The loop of `pack`, with the chunk that is open and its length so far, `[` included.
unfoldable pub pack_from : Codec → List FileEvent → ℕ → List FileEvent → Result (List Chunk)
pack_from codec chunk len [] =
    if ltb 1 len then ok (record { events = chunk; size = len + 1 } ∷ []) else ok []
pack_from codec chunk len (e ∷ es) = elim (leb (codec.event_size e + 2) max_batch_bytes) [
  | false ↦ err Error.event_too_large
  | true ↦ elim (ltb 1 len && ltb max_batch_bytes (len + codec.event_size e + 2)) [
    | true ↦ do
      rest ← pack_from codec (e ∷ []) (1 + codec.event_size e) es
      ok (record { events = chunk; size = len + 1 } ∷ rest)
    | false ↦
        pack_from codec (chunk ++ e ∷ [])
          ((if ltb 1 len then len + 1 else len) + codec.event_size e) es
  ]
]

unfoldable pub pack : Codec → List FileEvent → Result (List Chunk)
unfolding pack_from
pack codec es = pack_from codec [] 1 es

pub record MaintenanceReport : Type 0 where
  pub dry_run : Bool
  pub batches_before : ℕ
  pub batches_after : ℕ
  pub events_before : ℕ
  pub events_after : ℕ
  pub events_removed : ℕ
  pub retained_from : Option ℤ

abbrev pub empty_report : Bool → MaintenanceReport
empty_report apply = record {
  dry_run = not apply;
  batches_before = 0;
  batches_after = 0;
  events_before = 0;
  events_after = 0;
  events_removed = 0;
  retained_from = none;
}

pub data Step : Type 0 where
  publish : Str → Content → Step
  remove : Str → Step

unfoldable pub run_steps : List Step → Dir → Dir
unfolding put delete
run_steps [] dir = dir
run_steps (Step.publish name content ∷ steps) dir = run_steps steps (put name content dir)
run_steps (Step.remove name ∷ steps) dir = run_steps steps (delete name dir)

-- `Option::max`: no cutoff is below every cutoff.
unfoldable pub max_cutoff : Option ℤ → Option ℤ → Option ℤ
max_cutoff none b = b
max_cutoff (some a) none = some a
max_cutoff (some a) (some b) = some (maxz a b)

-- What `maintain` has found and decided before it writes.
pub record Prepared : Type 0 where
  pub cutoff : Option ℤ
  pub paths : List Str
  pub before : List FileEvent
  pub retained : List FileEvent
  pub chunks : List Chunk

unfoldable pub survey : Codec → SessionKey → Option ℤ → Dir → Result Prepared
unfolding retained_from max_cutoff active_paths is_json safe_name read_unlocked pack
survey codec session before dir = do
  old ← retained_from dir
  let cutoff = max_cutoff before old
  paths ← active_paths dir
  ensure (all (λ n. not (is_json n) || safe_name (codes ".json") n) paths) Error.unexpected_file
  history ← read_unlocked session dir
  elim history.warnings [
    | w ∷ ws ↦ err Error.damaged_history
    | [] ↦ do
      chunks ← pack codec (keep (is_retained cutoff) history.events)
      ok (record {
        cutoff = cutoff;
        paths = paths;
        before = history.events;
        retained = keep (is_retained cutoff) history.events;
        chunks = chunks;
      })
  ]

abbrev pub report_of : Bool → Prepared → MaintenanceReport
report_of apply p = record {
  dry_run = not apply;
  batches_before = length p.paths;
  batches_after = length p.chunks;
  events_before = length p.before;
  events_after = length p.retained;
  events_removed = length p.before - length p.retained;
  retained_from = p.cutoff;
}

-- `format!("{prefix}-{index}.pack")`.
abbrev pub pack_name : Codec → Str → ℕ → Str
pack_name codec prefix index = prefix ++ codes "-" ++ codec.show index ++ codes ".pack"

-- The pack files, named by their index.
unfoldable pub pack_files : Codec → Str → ℕ → List Chunk → List (Str × Content)
pack_files codec prefix index [] = []
pack_files codec prefix index (chunk ∷ chunks) =
    (pack_name codec prefix index, Content.batch chunk.events chunk.size)
    ∷ pack_files codec prefix (suc index) chunks

unfoldable pub dedup : List Str → List Str
dedup [] = []
dedup (n ∷ []) = n ∷ []
dedup (n ∷ m ∷ ns) = let rest = dedup (m ∷ ns) in if n == m then rest else n ∷ rest

unfoldable pub exists : Dir → Str → Bool
unfolding lookup
exists dir n = elim (lookup n dir) [ none ↦ false | some c ↦ true ]

-- Sources that the new checkpoint covers: the batches that are active, and those that an earlier
-- one covered and that an interrupted cleanup left behind.
unfoldable pub covered_by : List Str → Checkpoint → Dir → List Str
unfolding dedup sort is_json le_str exists
covered_by paths old dir = dedup (sort le_str (keep is_json paths ++ keep (exists dir) old.covered))

abbrev pub publishing : List (Str × Content) → List Step
publishing = map (λ f. Step.publish f.0 f.1)

abbrev pub new_checkpoint : Prepared → List (Str × Content) → List Str → Checkpoint
new_checkpoint p files covered = record {
  version = 1;
  retained_from = p.cutoff;
  chunks = names files;
  covered = covered;
}

-- What a run does to the directory, and what it returns.
pub record Plan : Type 0 where
  pub steps : List Step
  pub result : Result MaintenanceReport

-- Publish the packs, then the checkpoint, and remove what it replaces.
unfoldable pub commit : Codec → Str → Prepared → Checkpoint → Dir → Plan
unfolding pack_files covered_by safe_name
commit codec prefix p old dir =
    let files = pack_files codec prefix 0 p.chunks in
    let covered = covered_by p.paths old dir in
    let new = new_checkpoint p files covered in
    let old_packs = keep (safe_name (codes ".pack")) (names dir) in
    let size = codec.checkpoint_size new in
    if leb size max_batch_bytes
    then record {
      steps =
          publishing files
          ++ (Step.publish checkpoint_name (Content.checkpoint new size)
              ∷ map Step.remove (covered ++ old_packs));
      result = ok (report_of true p);
    }
    else record { steps = publishing files; result = err Error.checkpoint_too_large }

abbrev pub failing : Error → Plan
failing e = record { steps = []; result = err e }

-- `Store::maintain` at the time `now`, on a session that may have no directory.
unfoldable pub maintain : Codec → Str → ℤ → SessionKey → Option ℤ → Bool → Option Dir → Plan
unfolding survey commit read_checkpoint validate
maintain codec prefix now session before apply dir =
    if elim before [ none ↦ false | some cutoff ↦ ltz now cutoff ]
    then failing Error.cutoff_in_future
    else elim (validate session) [
      | err e ↦ failing e
      | ok _ ↦ elim dir [
        | none ↦ record { steps = []; result = ok (empty_report apply) }
        | some d ↦ elim (survey codec session before d) [
          | err e ↦ failing e
          | ok p ↦
              if not apply
              then record { steps = []; result = ok (report_of false p) }
              else elim (read_checkpoint d) [
                | err e ↦ failing e
                | ok old ↦ commit codec prefix p old d
              ]
        ]
      ]
    ]
