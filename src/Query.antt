-- ===== src/Query.antt =====
-- crates/session-activity/src/query.rs: the views that a client reads from a history. Whether a
-- path is a file on disk is an argument, and so is the order of paths of the standard library.
pub mod Settled
pub mod Scan
pub mod Grouped
pub mod Listing
pub mod Reconciled
use peekback.Activity.{
  FileEvent, Operation, Operation_discrete, Outcome, SessionKey, Source, key_eq, operation_eq,
  outcome_eq, source_eq,
}
use peekback.Base.{
  Bool, Eq, List, Option, Str, Str_discrete, [], all, any, contains, false, if◌then◌else◌, is_empty,
  keep, map, nat_eq, none, not, option_eq, some, str_eq, true, ℕ_discrete, ◌&&◌, ◌++◌, ◌==◌, ◌||◌,
  ◌∷◌,
}
use peekback.Base.Int.{int_eq, lez, ltz, pos, ℤ}
use peekback.Base.Paths.{FilePath, FilePath_discrete, path_eq}
use peekback.Base.Sort.{sort}
use peekback.Store.Maintenance.{exists}

-- What identifies one use of a tool: the session, the call, the operation and its paths.
pub record Evidence : Type 0 where
  pub session : SessionKey
  pub call : Str
  pub operation : Operation
  pub path : FilePath
  pub previous_path : Option FilePath

unfoldable pub Evidence_discrete : Discrete Evidence
unfolding ℕ_discrete
Evidence_discrete = hlevel ℕ_discrete

instance abbrev pub evidence_eq : Eq Evidence
evidence_eq = record { dec = Evidence_discrete }

unfoldable pub evidence : FileEvent → Option Evidence
unfolding Str_discrete
evidence e = elim e.tool_call_id [
  | none ↦ none
  | some id ↦
      if id == []
      then none
      else some (record {
        session = e.session;
        call = id;
        operation = e.operation;
        path = e.path;
        previous_path = e.previous_path;
      })
]

-- `HashMap<Evidence, HashSet<Outcome>>`: whether the set of a key holds an outcome.
abbrev pub OutcomeSets : Type 0
OutcomeSets = Evidence → Outcome → Bool

abbrev pub no_outcomes : OutcomeSets
no_outcomes = λ key o. false

-- `outcomes.entry(key).or_default().insert(outcome)`.
unfoldable pub insert_outcome : OutcomeSets → Evidence → Outcome → OutcomeSets
insert_outcome sets key outcome = λ k o. k == key && o == outcome || sets k o

abbrev pub note_at : OutcomeSets → Option Evidence → Outcome → OutcomeSets
note_at sets none outcome = sets
note_at sets (some key) outcome = insert_outcome sets key outcome

abbrev pub is_known : Outcome → Bool
is_known outcome = not (outcome == Outcome.unknown)

unfoldable pub note_outcome : OutcomeSets → FileEvent → OutcomeSets
unfolding evidence insert_outcome
note_outcome sets e = if is_known e.outcome then note_at sets (evidence e) e.outcome else sets

-- The first loop of `reconcile`.
unfoldable pub note_outcomes : OutcomeSets → List FileEvent → OutcomeSets
unfolding note_outcome
note_outcomes sets [] = sets
note_outcomes sets (e ∷ es) = note_outcomes (note_outcome sets e) es

-- The elements of a set of outcomes.
abbrev pub elements : (Outcome → Bool) → List Outcome
elements set = keep set (Outcome.succeeded ∷ Outcome.failed ∷ Outcome.unknown ∷ [])

-- The outcome of a set that holds one.
abbrev pub only : List Outcome → Option Outcome
only (o ∷ []) = some o
only _ = none

-- An unknown outcome becomes the one that other observations of the same call agree on.
abbrev pub settled : (Outcome → Bool) → Outcome → Outcome
settled set outcome =
    if outcome == Outcome.unknown
    then elim (only (elements set)) [ none ↦ outcome | some o ↦ o ]
    else outcome

unfoldable pub settle : OutcomeSets → Evidence → FileEvent → FileEvent
settle sets key e = record e { outcome = settled (sets key) e.outcome }

-- What `seen` holds of an observation.
pub record Observation : Type 0 where
  pub key : Evidence
  pub source : Source
  pub outcome : Outcome

unfoldable pub Observation_discrete : Discrete Observation
unfolding Evidence_discrete ℕ_discrete
Observation_discrete = hlevel ℕ_discrete

instance abbrev pub observation_eq : Eq Observation
observation_eq = record { dec = Observation_discrete }

abbrev pub observation : Evidence → FileEvent → Observation
observation key e = record { key = key; source = e.source; outcome = e.outcome }

-- The second loop of `reconcile`.
unfoldable pub reconcile_from : OutcomeSets → List Observation → List FileEvent → List FileEvent
unfolding evidence settle Observation_discrete
reconcile_from sets seen [] = []
reconcile_from sets seen (e ∷ es) = elim (evidence e) [
  | none ↦ e ∷ reconcile_from sets seen es
  | some key ↦
      let f = settle sets key e in
      elim (contains seen (observation key f)) [
        | true ↦ reconcile_from sets seen es
        | false ↦ f ∷ reconcile_from sets (observation key f ∷ seen) es
      ]
]

unfoldable pub reconcile : List FileEvent → List FileEvent
unfolding note_outcomes reconcile_from
reconcile events = reconcile_from (note_outcomes no_outcomes events) [] events

pub record FileActivity : Type 0 where
  pub path : FilePath
  pub last_touched_at : ℤ
  pub exists : Bool
  pub events : List FileEvent

unfoldable pub scan_only : FileActivity → Bool
unfolding Operation_discrete
scan_only a = all (λ e. e.operation == Operation.observed) a.events

unfoldable pub possibly_shared : FileActivity → Bool
unfolding scan_only
possibly_shared a = scan_only a && any (λ e. not (is_empty e.concurrent)) a.events

-- `grouped.entry(path).or_default().push(event)`.
abbrev pub Groups : Type 0
Groups = List (FilePath × List FileEvent)

unfoldable pub push_event : FilePath → FileEvent → Groups → Groups
unfolding FilePath_discrete
push_event p e [] = (p, e ∷ []) ∷ []
push_event p e ((q, es) ∷ groups) =
    if q == p then (q, es ++ e ∷ []) ∷ groups else (q, es) ∷ push_event p e groups

abbrev pub push_previous : Option FilePath → FileEvent → Groups → Groups
push_previous none e groups = groups
push_previous (some p) e groups = push_event p e groups

unfoldable pub grouped : Groups → List FileEvent → Groups
unfolding push_event
grouped groups [] = groups
grouped groups (e ∷ es) = grouped (push_event e.path e (push_previous e.previous_path e groups)) es

abbrev pub earlier : FileEvent → FileEvent → Bool
earlier a b = lez a.timestamp b.timestamp

abbrev pub last_timestamp : List FileEvent → ℤ
last_timestamp [] = pos 0
last_timestamp (e ∷ []) = e.timestamp
last_timestamp (e ∷ f ∷ es) = last_timestamp (f ∷ es)

unfoldable pub file_activity : (FilePath → Bool) → FilePath × List FileEvent → FileActivity
unfolding sort
file_activity is_file (path, events) =
    let events = sort earlier events in
    record {
      path = path;
      last_touched_at = last_timestamp events;
      exists = is_file path;
      events = events;
    }

-- The newest first, and by path among those of one second.
abbrev pub newest_first : (FilePath → FilePath → Bool) → FileActivity → FileActivity → Bool
newest_first path_le a b =
    ltz b.last_touched_at a.last_touched_at
    || a.last_touched_at == b.last_touched_at && path_le a.path b.path

unfoldable pub files :
    (FilePath → Bool) → (FilePath → FilePath → Bool) → List FileEvent → List FileActivity
unfolding reconcile grouped file_activity sort
files is_file path_le events =
    sort (newest_first path_le) (map (file_activity is_file) (grouped [] (reconcile events)))
