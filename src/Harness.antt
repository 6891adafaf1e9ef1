-- ===== src/Harness.antt =====
-- src/harness/mod.rs and the constants of its agents: the coding agents whose sessions are
-- recorded, and the names they are known by.
pub mod Names
use peekback.Activity.{AgentId, SessionKey, key_eq, operation_eq, outcome_eq, source_eq}
use peekback.Base.{
  Eq, List, Option, Str, Str_discrete, [], codes, contains, find, if◌then◌else◌, nat_eq, none,
  option_eq, some, str_eq, ◌++◌, ◌==◌, ◌∷◌,
}
use peekback.Base.Int.{int_eq}
use peekback.Base.Paths.{path_eq}

pub data Harness : Type 0 where
  claude codex : Harness

unfoldable pub Harness_discrete : Discrete Harness
Harness_discrete = hlevel

instance abbrev pub harness_eq : Eq Harness
harness_eq = record { dec = Harness_discrete }

abbrev pub all_harnesses : List Harness
all_harnesses = Harness.claude ∷ Harness.codex ∷ []

-- Codex first: started from Claude Code it inherits `CLAUDE_CODE_SESSION_ID`.
abbrev pub session_env_precedence : List Harness
session_env_precedence = Harness.codex ∷ Harness.claude ∷ []

unfoldable pub name : Harness → Str
name Harness.claude = codes "Claude Code"
name Harness.codex = codes "Codex"

unfoldable pub slug : Harness → Str
slug Harness.claude = codes "claude"
slug Harness.codex = codes "codex"

unfoldable pub executables : Harness → List Str
executables Harness.claude = codes "claude" ∷ []
executables Harness.codex = codes "codex" ∷ []

unfoldable pub session_env : Harness → List Str
session_env Harness.claude = codes "CLAUDE_CODE_SESSION_ID" ∷ []
session_env Harness.codex = codes "CODEX_THREAD_ID" ∷ codes "CODEX_SESSION_ID" ∷ []

unfoldable pub started_as : Str → Option Harness
unfolding executables Str_discrete
started_as executable = find (λ harness. contains (executables harness) executable) all_harnesses

unfoldable pub session_env_by_precedence : List Str
unfolding session_env
session_env_by_precedence = session_env Harness.codex ++ session_env Harness.claude

-- `Harness::agent_id`; that `AgentId::new` accepts every slug is a theorem of `Names`.
unfoldable pub agent_id_of : Harness → AgentId
unfolding slug
agent_id_of harness = record { as_str = slug harness }

unfoldable pub key : Harness → Str → SessionKey
unfolding agent_id_of
key harness session_id = record { agent = agent_id_of harness; session_id = session_id }

unfoldable pub of : AgentId → Option Harness
unfolding slug Str_discrete
of agent = find (λ harness. slug harness == agent.as_str) all_harnesses

unfoldable pub label : AgentId → Str
unfolding of name
label agent = elim (of agent) [ none ↦ agent.as_str | some harness ↦ name harness ]

-- `session::current_id`: the first variable that is set and not empty.
unfoldable pub first_set : (Str → Option Str) → List Str → Option Str
unfolding Str_discrete
first_set get [] = none
first_set get (v ∷ vs) =
    let rest = first_set get vs in
    elim (get v) [ none ↦ rest | some id ↦ if id == [] then rest else some id ]

unfoldable pub current_id : (Str → Option Str) → Option Str
unfolding first_set session_env_by_precedence
current_id get = first_set get session_env_by_precedence
