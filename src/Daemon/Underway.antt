-- ===== src/Daemon/Underway.antt =====
-- At most one send is under way, along every run of the daemon (src/daemon/controller.rs).
use peekback.Base.{
  Bool, Bool-cases, List, Option, Option-cases, Result, Result-cases, Str, ap, arith, false, inl,
  inr, nat_eq, none, not, option_eq, refl, some, str_eq, suc, sym, true, ℕ, ◌+◌, ◌==◌, ◌||◌, ◌≡◌,
  ◌≤◌,
}
use peekback.Base.Int.{int_eq}
use peekback.Base.Paths.{FilePath, path_eq}
use peekback.Daemon.{
  App, Current, Document, Listing, Now, Output, UserEvent, ViewContext, after, listing_request_eq,
  new_app, session_identity_eq, theme_eq, view_context_eq,
}
use peekback.Daemon.Actions.{accepts, render, slot}
use peekback.Daemon.Events.{
  AfterRefresh, after_refresh, decide, event, listed, open_first, refreshed, reloaded,
  reloaded_text, rewatch, update_documents, update_view, with_text,
}
use peekback.Daemon.Loop.{tick}
use peekback.Daemon.Sending.{
  Moves, as_ℕ, sends, sends-append, sends-page, sends-render, sends-show, slot-sending,
}
use peekback.Daemon.Started.{sends-hotkey, sends-opened, sends-requested}
use peekback.Daemon.Ticking.{tick-Moves}
use peekback.Send.{Report, backend_eq}

sends-rewatch : (path : Option FilePath) → sends (rewatch path) ≡ 0
sends-rewatch none = refl
sends-rewatch (some p) = refl

sends-reloaded_text :
    (app : App) (doc : Current) (source : Str) (canonical : Option FilePath)
    → Moves app (reloaded_text app doc source canonical)
unfolding reloaded_text
sends-reloaded_text app doc source canonical =
    elim (Bool-cases
      (not (source == doc.source) || (doc.missing || not (canonical == doc.file_identity)))) [
        | inr e ↦ rw (e, reloaded_text) (omega arith)
        | inl e ↦
            rw (e, reloaded_text)
              (omega (
                arith,
                sends-append (rewatch doc.path) (render (with_text app doc source canonical)),
                sends-rewatch doc.path,
                sends-render (with_text app doc source canonical),
              ))
      ]

sends-reloaded :
    (app : App) (generation revision : ℕ) (result : Result Str) (missing : Bool)
    (canonical : Option FilePath)
    → Moves app (reloaded app generation revision result missing canonical)
unfolding reloaded
sends-reloaded app generation revision result missing canonical =
    elim (Bool-cases
      (not (generation == app.generation) || not (revision == app.reload_revision))) [
        | inl e ↦ rw (e, reloaded) (omega arith)
        | inr e ↦ elim (Option-cases app.current) [
          | inl k ↦ rw (e, k, reloaded) (omega arith)
          | inr (doc, k) ↦ elim (Result-cases result) [
            | inl (source, m) ↦
                rw (e, k, m, reloaded) (sends-reloaded_text app doc source canonical)
            | inr (er, m) ↦ elim (Bool-cases missing) [
              | inl q ↦ rw (e, k, m, q, reloaded) (omega arith)
              | inr q ↦ rw (e, k, m, q, reloaded) (omega arith)
            ]
          ]
        ]
      ]

sends-update_documents :
    (app : App) (doc : Current) (documents : List Document)
    → sends (update_documents app doc documents) ≡ 0
unfolding update_documents
sends-update_documents app doc documents = elim (Option-cases doc.session) [
  | inl e ↦ rw (e, update_documents) refl
  | inr (s, e) ↦ elim (Bool-cases app.page_ready) [
    | inl k ↦ rw (e, k, update_documents) refl
    | inr k ↦ rw (e, k, update_documents) refl
  ]
]

sends-open_first :
    (now : Now) (app : App) (first : Option FilePath) → Moves app (open_first now app first)
sends-open_first now app none = omega arith
sends-open_first now app (some path) = sends-show now app _ _ _ none

updated :
    (now : Now) (app app' : App) (outputs : List Output) (first : Option FilePath)
    → app'.sending ≡ app.sending
    → sends outputs ≡ 0
    → Moves app (after outputs (open_first now app' first))
updated now app app' outputs first h k = omega (
  arith,
  sends-append outputs (open_first now app' first).outputs,
  k,
  ap as_ℕ h,
  sends-open_first now app' first,
)

sends-update_view :
    (now : Now) (app : App) (documents : List Document) (first : Option FilePath)
    → Moves app (update_view now app documents first)
unfolding update_view
sends-update_view now app documents first = elim (Option-cases app.current) [
  | inl e ↦ rw (e, update_view) (omega arith)
  | inr (doc, e) ↦
      rw (e, update_view)
        (updated now app (record app { current = some (record doc { documents = documents }) }) _
          first refl (sends-update_documents app doc documents))
]

sends-decide :
    (now : Now) (app : App) (documents : List Document) (d : AfterRefresh)
    → Moves app (decide now app documents d)
sends-decide now app documents AfterRefresh.ignore = omega arith
sends-decide now app documents AfterRefresh.retry = omega arith
sends-decide now app documents (AfterRefresh.start id) = sends-show now app _ _ _ none
sends-decide now app documents (AfterRefresh.update first) =
    sends-update_view now app documents first

sends-listed :
    (app : App) (c : ViewContext) (id : ℕ) (s : Bool) (listing : Listing) (available : Bool)
    → Moves app (listed app c id s listing available)
unfolding listed
sends-listed app c id s listing available = elim (Bool-cases (accepts app c)) [
  | inr e ↦ rw (e, listed) (omega arith)
  | inl e ↦ elim (Bool-cases ((slot app s).request == some (c, id))) [
    | inr k ↦ rw (e, k, listed) (omega arith)
    | inl k ↦
        rw (e, k, listed)
          (omega (
            arith,
            ap as_ℕ
                (slot-sending app s (record { request = (slot app s).request; listing = listing })),
          ))
  ]
]

-- The end of a send.
abbrev pub is_sent : UserEvent → Bool
is_sent (UserEvent.sent id purpose result) = true
is_sent e = false

event-Moves :
    (now : Now) (app : App) (e : UserEvent) → is_sent e ≡ false → Moves app (event now app e)
unfolding event refreshed
event-Moves now app (UserEvent.page m) h = sends-page now app m
event-Moves now app (UserEvent.opened g result reply) h = sends-opened now app g result reply
event-Moves now app (UserEvent.request request channel deadline) h =
    sends-requested now app request channel deadline
event-Moves now app UserEvent.hotkey h = sends-hotkey now app
event-Moves now app UserEvent.doc_changed h = omega arith
event-Moves now app (UserEvent.reloaded g r result missing canonical) h =
    sends-reloaded app g r result missing canonical
event-Moves now app UserEvent.registry_changed h = omega arith
event-Moves now app (UserEvent.refreshed context sessions documents) h =
    sends-decide now (record app { refresh_pending = false; sessions = sessions }) documents
      (after_refresh app.current app.generation context sessions documents)
event-Moves now app (UserEvent.listed c id s listing available) h =
    sends-listed app c id s listing available
event-Moves now app (UserEvent.sent id purpose result) h = absurd (ground arith)
event-Moves now app (UserEvent.copied result) h = omega arith

sends-sent :
    (now : Now) (app : App) (id : ℕ) (purpose : Option Str) (result : Result Report)
    → as_ℕ (event now app (UserEvent.sent id purpose result)).app.sending ≡ 0
unfolding event
sends-sent now app id purpose result = refl

-- The states that the daemon reaches, each with the number of its sends that are queued or run:
-- an event other than the end of a send and a tick of the timers add those that they start, and the
-- end of a send takes it away.
pub data Reaches : App → ℕ → Type 0 where
  started : (t : ℕ) → Reaches (new_app t) 0
  handled :
      {app : App} {n : ℕ} (now : Now) (e : UserEvent)
      → is_sent e ≡ false
      → Reaches app n
      → Reaches (event now app e).app (n + sends (event now app e).outputs)
  ticked :
      {app : App} {n : ℕ} (now : Now)
      → Reaches app n
      → Reaches (tick now app).app (n + sends (tick now app).outputs)
  finished :
      {app : App} {n : ℕ} (now : Now) (id : ℕ) (purpose : Option Str) (result : Result Report)
      → Reaches app (suc n)
      → Reaches (event now app (UserEvent.sent id purpose result)).app n

flag-at-most : (b : Bool) → as_ℕ b ≤ 1
flag-at-most true = omega arith
flag-at-most false = omega arith

started_flag : (t : ℕ) → as_ℕ (new_app t).sending ≡ 0
unfolding new_app
started_flag t = refl

-- In every state that events and ticks reach, the sends that are queued or run are one while the
-- daemon says that it is sending, and none otherwise; so there is never more than one.
pub sending-counts : (app : App) (n : ℕ) → Reaches app n → n ≡ as_ℕ app.sending
sending-counts _ _ (Reaches.started t) = sym (started_flag t)
sending-counts _ _ (Reaches.handled {app} {n} now e h r) =
    omega (arith, sending-counts app n r, event-Moves now app e h)
sending-counts _ _ (Reaches.ticked {app} {n} now r) =
    omega (arith, sending-counts app n r, tick-Moves now app)
sending-counts _ _ (Reaches.finished {app} {n} now id purpose result r) = omega (
  arith,
  sending-counts app (suc n) r,
  flag-at-most app.sending,
  sends-sent now app id purpose result,
)
