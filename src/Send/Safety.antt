-- ===== src/Send/Safety.antt =====
-- What `send` hands over, and when (src/send.rs).
use peekback.Base.{
  Bool, Error, List, Option, Option-cases, Result, Result-cases, Str, [], arith, err, false,
  if◌then◌else◌, inl, inr, nat_eq, none, not, ok, option_eq, refl, some, str_eq, subst, true, ℕ,
  ◌&&◌, ◌∷◌, ◌≡◌, ◌≢◌, ◌⊎◌,
}
use peekback.Base.Int.{int_eq}
use peekback.Base.Paths.{path_eq}
use peekback.Mux.{Inspection, Pane, matches_tty, mux_eq, pane_eq}
use peekback.Send.{
  Backend, Backend_discrete, Channels, Destination, Effect, Moment, Report, Timeline, agent_tty,
  allows, backend_eq, deliver, hand_over, paste_safe, resolve, send, send_to,
}
use peekback.Send.Selection.{Selects, select-Selects, verified_on}
use peekback.Session.{Session, agent_alive, turn_eq}

-- The pane was on the terminal whose foreground the agent was in.
abbrev pub VerifiedAt : Moment → Session → Pane → Type 0
VerifiedAt now session p =
    (tty : ℕ) × (agent_tty now session ≡ some tty)
    × (now.inspect p ≡ Inspection.available (some tty))

-- What must hold where an effect happened.
abbrev pub Justified : Timeline → Session → Str → Option Backend → Effect → Type 0
Justified t session text pinned (Effect.pasted p sent) =
    (sent ≡ paste_safe text)
    × (agent_alive t.checking.os session ≡ true)
    × VerifiedAt t.selecting session p
    × VerifiedAt t.delivering session p
Justified t session text pinned (Effect.typed bundle_id sent) =
    (sent ≡ paste_safe text)
    × (agent_alive t.checking.os session ≡ true)
    × (pinned ≡ some Backend.keystroke)
    × (session.terminal.bundle_id ≡ some bundle_id)
Justified t session text pinned (Effect.copied sent) =
    (sent ≡ paste_safe text) × (pinned ≢ some Backend.keystroke)

deliver-lem :
    (channels : Channels) (now : Moment) (session : Session) (p : Pane) (tty : ℕ) (text : Str)
    → ((deliver channels now session p tty text).0 ≡ [])
      ⊎ (((deliver channels now session p tty text).0 ≡ Effect.pasted p text ∷ [])
          × VerifiedAt now session p)
unfolding deliver matches_tty
deliver-lem channels now session p tty text = ground arith

-- At most one effect happens, and it is justified.
abbrev pub Sound : Timeline → Session → Str → Option Backend → List Effect → Type 0
Sound t session text pinned [] = Unit
Sound t session text pinned (effect ∷ []) = Justified t session text pinned effect
Sound t session text pinned (effect ∷ other ∷ rest) = ⊥

alive-of_gate : (alive : Bool) → (true && not alive) ≡ false → alive ≡ true
alive-of_gate true h = refl
alive-of_gate false h = cc

verified-inspect :
    (tty : ℕ) (inspect : Pane → Inspection) (p : Pane) (allowed : Bool)
    → (allowed && verified_on tty inspect p) ≡ true
    → inspect p ≡ Inspection.available (some tty)
verified-inspect tty inspect p allowed h = ground arith

clipboard-pinned :
    {P : Type 0} (pinned : Option Backend)
    → (pinned ≡ some Backend.clipboard) ⊎ ((pinned ≡ none) × P)
    → pinned ≢ some Backend.keystroke
clipboard-pinned pinned (inl e) = λ k. cc
clipboard-pinned pinned (inr (e, _)) = λ k. cc

module _ (t : Timeline) (session : Session) (text : Str) (pinned : Option Backend) where
  -- A refusal has no effect.
  gate-Sound :
      (refused : Bool) (e : Error) (r : List Effect × Result Report)
      → (refused ≡ false → Sound t session text pinned r.0)
      → Sound t session text pinned (if refused then ([], err e) else r).0
  gate-Sound true e r h = tt
  gate-Sound false e r h = h refl

  selected :
      (destination : Destination)
      → resolve t.selecting session pinned ≡ ok destination
      → Selects session pinned (agent_tty t.selecting session) t.selecting.inspect (ok destination)
  unfolding resolve
  selected destination h =
      subst (Selects session pinned (agent_tty t.selecting session) t.selecting.inspect) h
        (select-Selects session pinned (agent_tty t.selecting session) t.selecting.inspect)

  selected_pane :
      (p : Pane) (tty : ℕ)
      → resolve t.selecting session pinned ≡ ok (Destination.pane p tty)
      → VerifiedAt t.selecting session p
  selected_pane p tty h =
      let (on, first) = selected (Destination.pane p tty) h in
      (tty, on, verified-inspect tty t.selecting.inspect p (allows pinned p) first.4)

  delivered-Sound :
      (channels : Channels) (p : Pane) (tty : ℕ)
      → agent_alive t.checking.os session ≡ true
      → VerifiedAt t.selecting session p
      → Sound t session text pinned
          (deliver channels t.delivering session p tty (paste_safe text)).0
  delivered-Sound channels p tty alive v =
      elim (deliver-lem channels t.delivering session p tty (paste_safe text)) [
        | inl nothing ↦ rw nothing tt
        | inr (e, w) ↦ rw e (refl, alive, v, w)
      ]

  typed-Sound :
      (channels : Channels)
      → agent_alive t.checking.os session ≡ true
      → pinned ≡ some Backend.keystroke
      → Sound t session text pinned
          (hand_over channels t session (paste_safe text) pinned Destination.keystroke).0
  unfolding hand_over
  typed-Sound channels alive pin = elim (Option-cases session.terminal.bundle_id) [
    | inl e ↦ rw (e, hand_over) tt
    | inr (b, e) ↦ rw (e, hand_over) (refl, alive, pin, refl)
  ]

  copied-Sound :
      (channels : Channels)
      → pinned ≢ some Backend.keystroke
      → Sound t session text pinned
          (hand_over channels t session (paste_safe text) pinned Destination.clipboard).0
  unfolding hand_over
  copied-Sound channels pin = (refl, pin)

  send_to-Sound :
      (channels : Channels) (destination : Destination)
      → resolve t.selecting session pinned ≡ ok destination
      → Sound t session text pinned
          (send_to channels t session (paste_safe text) pinned destination).0
  unfolding send_to hand_over Backend_discrete
  send_to-Sound channels (Destination.pane p tty) h =
      gate-Sound _ _ _
        λ passed. delivered-Sound channels p tty (alive-of_gate _ passed) (selected_pane p tty h)
  send_to-Sound channels Destination.keystroke h =
      gate-Sound _ _ _
        λ passed. typed-Sound channels (alive-of_gate _ passed) (selected Destination.keystroke h)
  send_to-Sound channels Destination.clipboard h =
      copied-Sound channels (clipboard-pinned pinned (selected Destination.clipboard h))

-- `send` has at most one effect. It pastes into a pane or types into the frontmost application
-- only the safe text, and only if the agent was alive when it was checked; into a pane only if the
-- pane was on the terminal whose foreground the agent was in, both when it was selected and right
-- before the paste; by keystroke only if that was pinned and the terminal application is known.
-- Where it copies instead, keystroke was not pinned.
pub send-Sound :
    (channels : Channels) (t : Timeline) (session : Session) (text : Str) (pinned : Option Backend)
    → Sound t session text pinned (send channels t session text pinned).0
unfolding send
send-Sound channels t session text pinned =
    elim (Result-cases (resolve t.selecting session pinned)) [
      | inl (destination, e) ↦
          rw (e, send) (send_to-Sound t session text pinned channels destination e)
      | inr (e, h) ↦ rw (h, send) tt
    ]
