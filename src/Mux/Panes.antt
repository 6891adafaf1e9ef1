-- ===== src/Mux/Panes.antt =====
-- Which panes `on_agent_tty` keeps, and in which order (src/mux/mod.rs).
use peekback.Base.{
  Bool, List, Option, [], ap, arith, false, keep, nat_eq, none, option_eq, refl, some, str_eq, true,
  ℕ, ◌++◌, ◌==◌, ◌∷◌, ◌≡◌,
}
use peekback.Base.Int.{int_eq}
use peekback.Base.Paths.{path_eq}
use peekback.Mux.{Pane, mux_eq, on_agent_tty, on_device, pane_eq, partition_panes}

-- The tests of the specification: a pane on the agent's terminal, and a pane whose terminal is not
-- known.
abbrev pub is_verified : ℕ → (Pane → Option ℕ) → Pane → Bool
is_verified agent tty_of p = elim (tty_of p) [ none ↦ false | some device ↦ device == agent ]

abbrev pub is_unknown : (Pane → Option ℕ) → Pane → Bool
is_unknown tty_of p = elim (tty_of p) [ none ↦ true | some device ↦ false ]

partition_panes_lem :
    (agent : ℕ) (tty_of : Pane → Option ℕ) (panes : List Pane)
    → partition_panes agent tty_of panes
      ≡ (keep (is_verified agent tty_of) panes, keep (is_unknown tty_of) panes)
unfolding partition_panes on_device
partition_panes_lem agent tty_of [] = refl
partition_panes_lem agent tty_of (p ∷ ps) = ground (arith, partition_panes_lem agent tty_of ps)

-- With the agent's terminal known, the panes on it come first and the panes of unknown terminals
-- after them, each in the order recorded, and no pane on another terminal is left; without it,
-- the panes stay as they are.
pub on_agent_tty_lem :
    (panes : List Pane) (agent : ℕ) (tty_of : Pane → Option ℕ)
    → (on_agent_tty panes (some agent) tty_of
        ≡ keep (is_verified agent tty_of) panes ++ keep (is_unknown tty_of) panes)
      × (on_agent_tty panes none tty_of ≡ panes)
unfolding on_agent_tty
on_agent_tty_lem panes agent tty_of =
    (ap (λ r. r.0 ++ r.1) (partition_panes_lem agent tty_of panes), refl)
