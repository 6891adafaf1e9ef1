-- ===== src/Send/Selection.antt =====
-- The destination that `select` chooses (src/send.rs).
use mathlib.Core.Path.{fun_ext}
use peekback.Base.{
  All, Bool, Error, FirstOf, Option, Option-cases, Result, arith, err, false, find, find-FirstOf,
  find-none, inl, inr, nat_eq, none, ok, option_eq, refl, some, str_eq, ℕ, ◌&&◌, ◌==◌, ◌≡◌, ◌≢◌,
  ◌⊎◌,
}
use peekback.Base.Int.{int_eq}
use peekback.Base.Paths.{path_eq}
use peekback.Mux.{Inspection, Mux, Pane, matches_tty, mux_eq, pane_eq}
use peekback.Send.{
  Backend, Destination, agent_tty, allows, backend_eq, is_candidate, select, select_pane,
  without_pane,
}
use peekback.Session.{Session, turn_eq}

-- The pane is on the agent's terminal, as far as its multiplexer could tell.
abbrev pub verified_on : ℕ → (Pane → Inspection) → Pane → Bool
verified_on tty inspect p = elim (inspect p) [
  | Inspection.available known ↦ elim known [ none ↦ false | some device ↦ device == tty ]
  | Inspection.unavailable ↦ false
  | Inspection.unknown ↦ false
]

-- No pane that the pin allows is on the agent's terminal.
abbrev pub NoneVerified : Session → Option Backend → Option ℕ → (Pane → Inspection) → Type 0
NoneVerified session pinned none inspect = Unit
NoneVerified session pinned (some tty) inspect =
    All (λ p. (allows pinned p && verified_on tty inspect p) ≡ false) session.terminal.panes

abbrev pub Selects :
    Session → Option Backend → Option ℕ → (Pane → Inspection) → Result Destination → Type 0
Selects session pinned agent_tty inspect (ok (Destination.pane p tty)) =
    (agent_tty ≡ some tty)
    × FirstOf (λ q. allows pinned q && verified_on tty inspect q) session.terminal.panes p
Selects session pinned agent_tty inspect (ok Destination.keystroke) =
    pinned ≡ some Backend.keystroke
Selects session pinned agent_tty inspect (ok Destination.clipboard) =
    (pinned ≡ some Backend.clipboard)
    ⊎ ((pinned ≡ none) × NoneVerified session pinned agent_tty inspect)
Selects session pinned agent_tty inspect (err e) =
    (m : Mux) × (pinned ≡ some (Backend.mux m))
    × (e ≡ Error.unverified_pane)
    × NoneVerified session pinned agent_tty inspect

candidate-verified :
    (pinned : Option Backend) (tty : ℕ) (inspect : Pane → Inspection)
    → is_candidate pinned (some tty) inspect ≡ (λ p. allows pinned p && verified_on tty inspect p)
unfolding matches_tty
candidate-verified pinned tty inspect = fun_ext λ p. ground arith

without_pane-Selects :
    (session : Session) (pinned : Option Backend) (agent_tty : Option ℕ)
    (inspect : Pane → Inspection)
    → pinned ≢ some Backend.clipboard
    → pinned ≢ some Backend.keystroke
    → NoneVerified session pinned agent_tty inspect
    → Selects session pinned agent_tty inspect (without_pane pinned)
unfolding without_pane
without_pane-Selects session none agent_tty inspect c k h = inr (refl, h)
without_pane-Selects session (some (Backend.mux m)) agent_tty inspect c k h = (m, refl, refl, h)
without_pane-Selects session (some Backend.keystroke) agent_tty inspect c k h = absurd (k refl)
without_pane-Selects session (some Backend.clipboard) agent_tty inspect c k h = absurd (c refl)

-- `select_pane` by the test of the specification.
select_spec : Session → Option Backend → ℕ → (Pane → Inspection) → Result Destination
select_spec session pinned tty inspect =
    elim (find (λ p. allows pinned p && verified_on tty inspect p) session.terminal.panes) [
      | some p ↦ ok (Destination.pane p tty)
      | none ↦ without_pane pinned
    ]

select_pane_lem :
    (session : Session) (pinned : Option Backend) (tty : ℕ) (inspect : Pane → Inspection)
    → select_pane session pinned (some tty) inspect ≡ select_spec session pinned tty inspect
unfolding select_pane select_spec
select_pane_lem session pinned tty inspect = λ i.
    elim (find (candidate-verified pinned tty inspect i) session.terminal.panes) [
      | some p ↦ ok (Destination.pane p tty)
      | none ↦ without_pane pinned
    ]

select_pane-Selects :
    (session : Session) (pinned : Option Backend) (agent_tty : Option ℕ)
    (inspect : Pane → Inspection)
    → pinned ≢ some Backend.clipboard
    → pinned ≢ some Backend.keystroke
    → Selects session pinned agent_tty inspect (select_pane session pinned agent_tty inspect)
unfolding select_pane select_spec
select_pane-Selects session pinned none inspect c k =
    without_pane-Selects session pinned none inspect c k tt
select_pane-Selects session pinned (some tty) inspect c k =
    rw (select_pane_lem session pinned tty inspect)
      (elim (Option-cases (find test session.terminal.panes)) [
        | inl e ↦
            rw (e, select_spec)
              (without_pane-Selects session pinned (some tty) inspect c k
                (find-none test session.terminal.panes e))
        | inr (p, e) ↦ rw (e, select_spec) (refl, find-FirstOf test session.terminal.panes e)
      ])
  where
    test : Pane → Bool
    test p = allows pinned p && verified_on tty inspect p

-- Text goes to a pane only if the agent's terminal is known and the pane is the first that the pin
-- allows and that is verified to be on that terminal; to the frontmost application only if that
-- is pinned; to the clipboard only if that is pinned, or without a pin where no pane is verified.
-- The choice fails only where a multiplexer is pinned and none of its panes is verified.
pub select-Selects :
    (session : Session) (pinned : Option Backend) (agent_tty : Option ℕ)
    (inspect : Pane → Inspection)
    → Selects session pinned agent_tty inspect (select session pinned agent_tty inspect)
unfolding select
select-Selects session (some Backend.clipboard) agent_tty inspect = inl refl
select-Selects session (some Backend.keystroke) agent_tty inspect = refl
select-Selects session (some (Backend.mux m)) agent_tty inspect =
    select_pane-Selects session (some (Backend.mux m)) agent_tty inspect (λ e. cc) (λ e. cc)
select-Selects session none agent_tty inspect =
    select_pane-Selects session none agent_tty inspect (λ e. cc) (λ e. cc)
