-- ===== src/Resolve.antt =====
-- src/session.rs: which session a command or the hotkey is about. The registered sessions and what a
-- multiplexer answers are arguments; the answer may change from one call to the next.
pub mod Asked
pub mod Tmux
use peekback.Base.{
  Bool, Eq, Error, List, Option, Result, Str, [], any, err, false, find, if◌then◌else◌, length, map,
  nat_eq, none, not, ok, option_eq, some, str_eq, true, ℕ, ℕ_discrete, ◌&&◌, ◌++◌, ◌==◌, ◌||◌, ◌∷◌,
}
use peekback.Base.Int.{int_eq}
use peekback.Base.Paths.{path_eq}
use peekback.Harness.{Harness, harness_eq}
use peekback.Mux.{Focused, Mux, Pane, mux_eq, pane_eq}
use peekback.Session.{Session, turn_eq}

pub data Focus : Type 0 where
  session : Session → Focus
  unstarted : Harness → Pane → Focus
  nothing : Focus

-- The server that a multiplexer is asked about.
pub record Server : Type 0 where
  pub mux : Mux
  pub server : Option Str

unfoldable pub Server_discrete : Discrete Server
unfolding ℕ_discrete
Server_discrete = hlevel ℕ_discrete

instance abbrev pub server_eq : Eq Server
server_eq = record { dec = Server_discrete }

abbrev pub server_of : Pane → Server
server_of p = record { mux = p.mux; server = p.server }

-- The answers so far, which `HashMap` keeps, in the order of the calls.
abbrev pub Asked : Type 0
Asked = List (Server × Option Focused)

-- What the nth call answers.
abbrev pub Asker : Type 0
Asker = ℕ → Server → Option Focused

unfoldable pub answer_of : Asked → Server → Option (Option Focused)
answer_of [] server = none
answer_of ((s, a) ∷ asked) server =
    let rest = answer_of asked server in if s == server then some a else rest

-- The closure `ask`: a server is asked unless its answer is known.
unfoldable pub ask : Asker → Asked → Server → Asked × Option Focused
unfolding answer_of
ask focused asked server = elim (answer_of asked server) [
  | some a ↦ (asked, a)
  | none ↦ (asked ++ (server, focused (length asked) server) ∷ [], focused (length asked) server)
]

abbrev pub shows_pane : Pane → Option Focused → Bool
shows_pane p none = false
shows_pane p (some f) = f.pane == p.id

-- The inner `any` of `in_active_pane`, which stops at the first pane in focus.
unfoldable pub any_focused : Asker → Asked → List Pane → Asked × Bool
unfolding ask
any_focused focused asked [] = (asked, false)
any_focused focused asked (p ∷ ps) =
    let (asked', f) = ask focused asked (server_of p) in
    elim (shows_pane p f) [ true ↦ (asked', true) | false ↦ any_focused focused asked' ps ]

unfoldable pub in_active_pane : Asker → Asked → List Session → Asked × Option Session
unfolding any_focused
in_active_pane focused asked [] = (asked, none)
in_active_pane focused asked (s ∷ ss) =
    let (asked', found) = any_focused focused asked s.terminal.panes in
    elim found [ true ↦ (asked', some s) | false ↦ in_active_pane focused asked' ss ]

-- The agent in a focused pane, if there is one.
abbrev pub agent_there : (ℕ → Option Harness) → Server → Option Focused → Option Focus
agent_there harness_in server none = none
agent_there harness_in server (some f) = elim f.pid [
  | none ↦ none
  | some pid ↦ elim (harness_in pid) [
    | none ↦ none
    | some harness ↦
        some (
          Focus.unstarted harness
            (record { mux = server.mux; server = server.server; id = f.pane }))
  ]
]

-- The loop of `resolve_focus` over the servers.
unfoldable pub unstarted_agent :
    Asker → (ℕ → Option Harness) → Asked → List Server → Asked × Option Focus
unfolding ask
unstarted_agent focused harness_in asked [] = (asked, none)
unstarted_agent focused harness_in asked (server ∷ servers) =
    let (asked', f) = ask focused asked server in
    elim (agent_there harness_in server f) [
      | some focus ↦ (asked', some focus)
      | none ↦ unstarted_agent focused harness_in asked' servers
    ]

unfoldable pub servers_of : List Session → List Server
servers_of [] = []
servers_of (s ∷ ss) = map server_of s.terminal.panes ++ servers_of ss

abbrev pub newest_focus : List Session → Focus
newest_focus [] = Focus.nothing
newest_focus (s ∷ ss) = Focus.session s

-- `resolve_focus`, with the calls that it made.
unfoldable pub resolve_focus :
    List Session → List Server → Asker → (ℕ → Option Harness) → Asked × Focus
unfolding in_active_pane unstarted_agent servers_of
resolve_focus sessions extra focused harness_in =
    let (asked, active) = in_active_pane focused [] sessions in
    elim active [
      | some s ↦ (asked, Focus.session s)
      | none ↦
          let (asked', agent) =
            unstarted_agent focused harness_in asked (servers_of sessions ++ extra) in
          (asked', elim agent [ some focus ↦ focus | none ↦ newest_focus sessions ])
    ]

abbrev pub is_tmux : Pane → Bool
is_tmux p = p.mux == Mux.tmux

-- The server on which a session has the pane, if it is the caller's.
unfoldable pub found_on : Str → Option Str → Session → Option (Option Str)
found_on pane server s = elim (find is_tmux s.terminal.panes) [
  | none ↦ none
  | some p ↦ if p.id == pane && (server == none || p.server == server) then some p.server else none
]

unfoldable pub found_in : Str → Option Str → List Session → List (Option Str × Session)
unfolding found_on
found_in pane server [] = []
found_in pane server (s ∷ ss) =
    let rest = found_in pane server ss in
    elim (found_on pane server s) [ none ↦ rest | some on ↦ (on, s) ∷ rest ]

abbrev pub one_server : List (Option Str × Session) → Result Session
one_server [] = err Error.no_session_in_pane
one_server ((first, s) ∷ rest) =
    if any (λ o. not (o.0 == first)) rest then err Error.several_servers else ok s

unfoldable pub in_tmux_pane : List Session → Str → Option Str → Result Session
unfolding found_in
in_tmux_pane sessions pane server = one_server (found_in pane server sessions)
