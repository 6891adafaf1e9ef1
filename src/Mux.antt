-- ===== src/Mux.antt =====
-- src/mux/mod.rs and the parsing of src/mux/tmux.rs: panes of terminal multiplexers, and which of
-- a session's panes its agent may be running in. The answers of tmux are arguments.
pub mod Panes
use peekback.Base.{
  Bool, Eq, List, Option, Str, Str_discrete, [], codes, false, find, if◌then◌else◌, nat_eq, none,
  option_eq, some, str_eq, true, ℕ, ℕ_discrete, ◌++◌, ◌==◌, ◌∷◌,
}
use peekback.Base.Int.{int_eq}
use peekback.Base.Paths.{path_eq}
use peekback.Harness.{harness_eq, name}

-- Terminal devices are numbers, as `rdev` gives them.
pub data Mux : Type 0 where
  tmux : Mux

unfoldable pub Mux_discrete : Discrete Mux
Mux_discrete = hlevel

instance abbrev pub mux_eq : Eq Mux
mux_eq = record { dec = Mux_discrete }

pub record Pane : Type 0 where
  pub mux : Mux
  pub server : Option Str
  pub id : Str

unfoldable pub Pane_discrete : Discrete Pane
unfolding ℕ_discrete
Pane_discrete = hlevel ℕ_discrete

instance abbrev pub pane_eq : Eq Pane
pane_eq = record { dec = Pane_discrete }

pub record Focused : Type 0 where
  pub pane : Str
  pub pid : Option ℕ

pub data Inspection : Type 0 where
  available : Option ℕ → Inspection
  unavailable unknown : Inspection

unfoldable pub inspected_tty : Inspection → Option ℕ
inspected_tty (Inspection.available t) = t
inspected_tty Inspection.unavailable = none
inspected_tty Inspection.unknown = none

-- Both terminals are known, and they are one.
unfoldable pub matches_tty : Inspection → Option ℕ → Bool
unfolding inspected_tty
matches_tty inspection agent_tty = elim (inspected_tty inspection) [
  | none ↦ false
  | some pane ↦ elim agent_tty [ none ↦ false | some agent ↦ pane == agent ]
]

unfoldable pub mux_name : Mux → Str
mux_name Mux.tmux = codes "tmux"

abbrev pub all_muxes : List Mux
all_muxes = Mux.tmux ∷ []

unfoldable pub parse_mux : Str → Option Mux
unfolding mux_name
parse_mux name = find (λ m. mux_name m == name) all_muxes

-- The text in front of the first comma, if there is any.
unfoldable pub until_comma : Str → Str
until_comma [] = []
until_comma (c ∷ cs) = let rest = until_comma cs in if c == b',' then [] else c ∷ rest

-- `TMUX` is `socket,pid,session`.
unfoldable pub server_from : Str → Option Str
unfolding until_comma
server_from value = let socket = until_comma value in if socket == [] then none else some socket

unfoldable pub capture_tmux : (Str → Option Str) → Option Pane
unfolding server_from
capture_tmux env = elim (env (codes "TMUX")) [
  | none ↦ none
  | some value ↦ elim (server_from value) [
    | none ↦ none
    | some server ↦ elim (env (codes "TMUX_PANE")) [
      | none ↦ none
      | some id ↦ some (record { mux = Mux.tmux; server = some server; id = id })
    ]
  ]
]

-- `Mux::capture` over all multiplexers, `mux::capture` in the source.
unfoldable pub capture : (Str → Option Str) → List Pane
unfolding capture_tmux
capture env = elim (capture_tmux env) [ none ↦ [] | some pane ↦ pane ∷ [] ]

-- What `on_agent_tty` keeps of a pane on the terminal `device`: nothing if that is another
-- terminal, and whether the terminal is known.
unfoldable pub on_device : ℕ → Option ℕ → Option Bool
on_device agent none = some false
on_device agent (some device) = if device == agent then some true else none

-- The panes that are known to be on the agent's terminal, and those that may be.
unfoldable pub partition_panes : ℕ → (Pane → Option ℕ) → List Pane → List Pane × List Pane
unfolding on_device
partition_panes agent tty_of [] = ([], [])
partition_panes agent tty_of (p ∷ ps) =
    let (known, rest) = partition_panes agent tty_of ps in
    elim (on_device agent (tty_of p)) [
      | none ↦ (known, rest)
      | some true ↦ (p ∷ known, rest)
      | some false ↦ (known, p ∷ rest)
    ]

unfoldable pub on_agent_tty : List Pane → Option ℕ → (Pane → Option ℕ) → List Pane
unfolding partition_panes
on_agent_tty panes none tty_of = panes
on_agent_tty panes (some agent) tty_of =
    let (known, rest) = partition_panes agent tty_of panes in known ++ rest
