-- ===== src/Resolve/Tmux.antt =====
-- Looking a tmux pane up (src/session.rs).
use peekback.Base.{
  All, List, Option, Str, find, nat_eq, none, option_eq, some, str_eq, ◌++◌, ◌∷◌, ◌≡◌, ◌≢◌, ◌⊎◌,
}
use peekback.Base.Int.{int_eq}
use peekback.Base.Paths.{path_eq}
use peekback.Mux.{Pane, mux_eq, pane_eq}
use peekback.Resolve.{is_tmux, server_eq}
use peekback.Session.{Session, turn_eq}

-- The first tmux pane of the session has the id, and is on the server `on`.
abbrev pub HasOn : Str → Option Str → Session → Type 0
HasOn pane on t =
    (p : Pane) × (find is_tmux t.terminal.panes ≡ some p) × (p.id ≡ pane) × (p.server ≡ on)

-- No pane to look for: there is none, or it has another id, or a server is given and the pane is on
-- another one.
abbrev pub IsOtherPane : Str → Option Str → Option Pane → Type 0
IsOtherPane pane server none = Unit
IsOtherPane pane server (some p) = (p.id ≢ pane) ⊎ ((server ≢ none) × (p.server ≢ server))

-- The first tmux pane of the session is not looked for.
abbrev pub IsOther : Str → Option Str → Session → Type 0
IsOther pane server t = IsOtherPane pane server (find is_tmux t.terminal.panes)

-- Each session is another one, or has the pane on the server `on`.
abbrev pub AllOn : Str → Option Str → Option Str → List Session → Type 0
AllOn pane server on = All (λ t. IsOther pane server t ⊎ HasOn pane on t)

-- What the lookup of a pane has found: the first session that has it, on a server that is the one
-- given, if one is; each later session that is looked for has it on the same server.
abbrev pub IsFirst : List Session → Str → Option Str → Session → Type 0
IsFirst sessions pane server s =
    (on : Option Str) × (before : List Session) × (after : List Session) × (sessions
      ≡ before ++ s ∷ after)
    × HasOn pane on s
    × ((server ≡ none) ⊎ (on ≡ server))
    × All (IsOther pane server) before
    × AllOn pane server on after
