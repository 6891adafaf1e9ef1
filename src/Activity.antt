-- ===== src/Activity.antt =====
-- crates/session-activity/src/lib.rs: the identities and the events that every part shares. A
-- session's files on disk are named by its agent and its id, so both are validated first.
pub mod Paths
use peekback.Base.{
  Bool, Eq, Error, List, Option, Result, Str, Str_discrete, [], all, codes, ensure, leb, nat_eq,
  none, not, ok, option_eq, str_eq, ℕ, ℕ_discrete, ◌&&◌, ◌==◌, ◌>>=◌, ◌>>◌, ◌||◌, ◌∷◌,
}
use peekback.Base.Int.{int_eq, ℤ}
use peekback.Base.Paths.{Component, FilePath, join, path_eq, pop, push}

pub record AgentId : Type 0 where
  pub as_str : Str

is_ascii_lowercase : ℕ → Bool
is_ascii_lowercase c = leb b'a' c && leb c b'z'

is_ascii_digit : ℕ → Bool
is_ascii_digit c = leb b'0' c && leb c b'9'

is_ascii_alphanumeric : ℕ → Bool
unfolding is_ascii_lowercase is_ascii_digit
is_ascii_alphanumeric c = is_ascii_lowercase c || leb b'A' c && leb c b'Z' || is_ascii_digit c

agent_char : ℕ → Bool
unfolding is_ascii_lowercase is_ascii_digit ℕ_discrete
agent_char c = is_ascii_lowercase c || is_ascii_digit c || c == b'-'

-- `AgentId::new`: the only way to make one outside the library.
unfoldable pub agent_id : Str → Result AgentId
unfolding agent_char Str_discrete
agent_id id = do
  ensure (not (id == []) && all agent_char id) Error.invalid_agent_id
  ok (record { as_str = id })

pub record SessionKey : Type 0 where
  pub agent : AgentId
  pub session_id : Str

unfoldable pub SessionKey_discrete : Discrete SessionKey
unfolding ℕ_discrete
SessionKey_discrete = hlevel ℕ_discrete

instance abbrev pub key_eq : Eq SessionKey
key_eq = record { dec = SessionKey_discrete }

unfoldable pub id_char : ℕ → Bool
unfolding is_ascii_alphanumeric ℕ_discrete
id_char c = is_ascii_alphanumeric c || c == b'-' || c == b'_' || c == b'.'

unfoldable pub valid_id : Str → Bool
unfolding id_char Str_discrete
valid_id id = not (id == []) && not (id == codes ".") && not (id == codes "..") && all id_char id

unfoldable pub validate : SessionKey → Result (Unit {0})
unfolding valid_id
validate key = ensure (valid_id key.session_id) Error.invalid_session_id

pub data Operation : Type 0 where
  read write create modify delete rename observed : Operation

pub data Source : Type 0 where
  hook transcript project_scan scratchpad_scan memory_scan legacy_registry : Source

pub data Outcome : Type 0 where
  succeeded failed unknown : Outcome

unfoldable pub Operation_discrete : Discrete Operation
Operation_discrete = hlevel

unfoldable pub Source_discrete : Discrete Source
Source_discrete = hlevel

unfoldable pub Outcome_discrete : Discrete Outcome
Outcome_discrete = hlevel

instance abbrev pub operation_eq : Eq Operation
operation_eq = record { dec = Operation_discrete }

instance abbrev pub source_eq : Eq Source
source_eq = record { dec = Source_discrete }

instance abbrev pub outcome_eq : Eq Outcome
outcome_eq = record { dec = Outcome_discrete }

pub record FileEvent : Type 0 where
  pub schema_version : ℕ
  pub session : SessionKey
  pub timestamp : ℤ
  pub cwd : FilePath
  pub path : FilePath
  pub previous_path : Option FilePath
  pub operation : Operation
  pub source : Source
  pub outcome : Outcome
  pub tool_call_id : Option Str
  pub concurrent : List SessionKey

abbrev pub schema_version : ℕ
schema_version = 2

-- The loop of `resolve_path`, over the components that are left.
unfoldable pub resolve_from : FilePath → FilePath → FilePath
resolve_from result [] = result
resolve_from result (Component.cur_dir ∷ rest) = resolve_from result rest
resolve_from result (Component.parent_dir ∷ rest) = resolve_from (pop result) rest
resolve_from result (part ∷ rest) = resolve_from (push result part) rest

unfoldable pub resolve_path : FilePath → FilePath → FilePath
unfolding resolve_from join pop push
resolve_path cwd path = resolve_from [] (join cwd path)

-- `FileEvent::new`.
unfoldable pub file_event : SessionKey → FilePath → FilePath → ℤ → Operation → Source → FileEvent
unfolding resolve_path
file_event session cwd path timestamp operation source = record {
  schema_version = schema_version;
  session = session;
  timestamp = timestamp;
  cwd = cwd;
  path = resolve_path cwd path;
  previous_path = none;
  operation = operation;
  source = source;
  outcome = Outcome.unknown;
  tool_call_id = none;
  concurrent = [];
}
