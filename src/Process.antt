-- ===== src/Process.antt =====
-- src/process.rs: process identities that survive the reuse of a process id. What the kernel
-- reports of a process is an argument.
use peekback.Base.{
  Bool, Eq, Option, Str, [], codes, contains, false, if◌then◌else◌, nat_eq, none, option_eq, some,
  str_eq, suc, true, zero, ℕ, ℕ_discrete, ◌==◌, ◌∷◌,
}
use peekback.Base.Int.{int_eq}
use peekback.Base.Paths.{path_eq}

pub record ProcessId : Type 0 where
  pub pid : ℕ
  pub started_at_us : ℕ

unfoldable pub ProcessId_discrete : Discrete ProcessId
unfolding ℕ_discrete
ProcessId_discrete = hlevel ℕ_discrete

instance abbrev pub process_eq : Eq ProcessId
process_eq = record { dec = ProcessId_discrete }

pub record Info : Type 0 where
  pub id : ProcessId
  pub parent : ℕ
  pub name : Str
  pub terminal : Option ℕ
  pub foreground : Bool
  pub foreground_group : ℕ

-- The table of processes: `info` of the source.
abbrev pub Processes : Type 0
Processes = ℕ → Option Info

-- The report on the process, if its id was not given to another one.
unfoldable pub same_process : Processes → ProcessId → Option Info
same_process info process = elim (info process.pid) [
  | none ↦ none
  | some p ↦ if p.id == process then some p else none
]

unfoldable pub is_running : Processes → ProcessId → Bool
unfolding same_process
is_running info process = elim (same_process info process) [ none ↦ false | some p ↦ true ]

unfoldable pub process_tty : Processes → ProcessId → Option ℕ
unfolding same_process
process_tty info process = elim (same_process info process) [ none ↦ none | some p ↦ p.terminal ]

unfoldable pub foreground_tty : Processes → ProcessId → Option ℕ
unfolding same_process
foreground_tty info process = elim (same_process info process) [
  | none ↦ none
  | some p ↦ if p.foreground then p.terminal else none
]

unfoldable pub is_shell : Str → Bool
is_shell name =
    contains
      (codes "sh" ∷ codes "bash" ∷ codes "zsh" ∷ codes "dash" ∷ codes "fish" ∷ codes "ksh" ∷ [])
      name

-- The loop of `hook_agent`, with the rounds that are left.
unfoldable pub hook_agent_from : Processes → ℕ → ℕ → Option ProcessId
unfolding is_shell
hook_agent_from info zero pid = none
hook_agent_from info (suc rounds) pid = elim (info pid) [
  | none ↦ none
  | some process ↦
      let next = hook_agent_from info rounds process.parent in
      if is_shell process.name then next else some process.id
]

unfoldable pub hook_agent : Processes → ℕ → Option ProcessId
unfolding hook_agent_from
hook_agent info parent_id = hook_agent_from info 8 parent_id
