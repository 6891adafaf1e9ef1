-- ===== src/Session.antt =====
-- The live session of src/registry.rs, with the directories that its agent keeps
-- (src/harness/claude.rs). What the operating system and a transcript report is an argument.
use peekback.Activity.{SessionKey, key_eq, operation_eq, outcome_eq, source_eq}
use peekback.Base.{
  Bool, Eq, List, Option, Str, [], codes, nat_eq, none, option_eq, some, str_eq, true, ℕ_discrete,
  ◌++◌, ◌∷◌,
}
use peekback.Base.Int.{int_eq, maxz, ℤ}
use peekback.Base.Paths.{Component, FilePath, file_name, join, parent, parse, path_eq}
use peekback.Harness.{Harness, harness_eq, key, slug}
use peekback.Mux.{Pane, mux_eq, pane_eq}
use peekback.Process.{ProcessId, Processes, is_running, process_eq}

pub record Turn : Type 0 where
  pub started_at : ℤ
  pub ended_at : ℤ

unfoldable pub Turn_discrete : Discrete Turn
unfolding ℕ_discrete
Turn_discrete = hlevel ℕ_discrete

instance abbrev pub turn_eq : Eq Turn
turn_eq = record { dec = Turn_discrete }

pub record Terminal : Type 0 where
  pub bundle_id : Option Str
  pub term_program : Option Str
  pub iterm_profile : Option Str
  pub panes : List Pane
  pub agent : Option ProcessId

pub record Session : Type 0 where
  pub session_id : Str
  pub incarnation : Str
  pub harness : Harness
  pub transcript_path : Option FilePath
  pub written_files : List FilePath
  pub cwd : FilePath
  pub started_at : ℤ
  pub last_active_at : ℤ
  pub terminal : Terminal
  pub turn_started_at : Option ℤ
  pub recent_turns : List Turn

-- What the program asks of its surroundings about sessions: the table of processes, the newest
-- activity recorded in a Claude transcript, and the user's id, by which the scratchpad is named.
pub record Os : Type 0 where
  pub info : Processes
  pub transcript_activity : FilePath → Option ℤ
  pub uid : Str

unfoldable pub activity_key : Session → SessionKey
unfolding key
activity_key s = key s.harness s.session_id

-- Sessions from before process tracking count as alive.
unfoldable pub agent_alive : Os → Session → Bool
unfolding is_running
agent_alive os s = elim s.terminal.agent [ none ↦ true | some agent ↦ is_running os.info agent ]

-- `Harness::last_activity`.
unfoldable pub last_activity : Os → Harness → FilePath → Option ℤ
last_activity os Harness.claude transcript = os.transcript_activity transcript
last_activity os Harness.codex transcript = none

unfoldable pub last_agent_activity : Os → Session → ℤ
unfolding last_activity
last_agent_activity os s = elim s.transcript_path [
  | none ↦ s.last_active_at
  | some path ↦ elim (last_activity os s.harness path) [
    | none ↦ s.last_active_at
    | some at ↦ maxz at s.last_active_at
  ]
]

-- `claude::project_dir`.
unfoldable pub project_dir : Session → Option FilePath
unfolding parent
project_dir s = elim s.transcript_path [ none ↦ none | some path ↦ parent path ]

unfoldable pub claude_memory_dir : Session → Option FilePath
unfolding project_dir join
claude_memory_dir s = elim (project_dir s) [
  | none ↦ none
  | some dir ↦ some (join dir (Component.normal (codes "memory") ∷ []))
]

abbrev pub scratch_root : Str → FilePath
scratch_root uid =
    Component.root_dir
    ∷ Component.normal (codes "private")
    ∷ Component.normal (codes "tmp")
    ∷ Component.normal (codes "claude-" ++ uid)
    ∷ []

unfoldable pub claude_scratchpad_dir : Os → Session → Option FilePath
unfolding project_dir file_name join parse
claude_scratchpad_dir os s = elim (project_dir s) [
  | none ↦ none
  | some dir ↦ elim (file_name dir) [
    | none ↦ none
    | some slug ↦ some (
        join (join (join (scratch_root os.uid) (Component.normal slug ∷ [])) (parse s.session_id))
          (Component.normal (codes "scratchpad") ∷ []))
  ]
]

-- `Session::memory_dir` and `scratchpad_dir`, through the harness.
unfoldable pub memory_dir_of : Harness → Session → Option FilePath
unfolding claude_memory_dir
memory_dir_of Harness.claude s = claude_memory_dir s
memory_dir_of Harness.codex s = none

unfoldable pub memory_dir : Session → Option FilePath
unfolding memory_dir_of
memory_dir s = memory_dir_of s.harness s

unfoldable pub scratchpad_dir_of : Os → Harness → Session → Option FilePath
unfolding claude_scratchpad_dir
scratchpad_dir_of os Harness.claude s = claude_scratchpad_dir os s
scratchpad_dir_of os Harness.codex s = none

unfoldable pub scratchpad_dir : Os → Session → Option FilePath
unfolding scratchpad_dir_of
scratchpad_dir os s = scratchpad_dir_of os s.harness s
