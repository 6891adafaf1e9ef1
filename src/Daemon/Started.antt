-- ===== src/Daemon/Started.antt =====
-- At most one send is under way: opens and requests (src/daemon/controller.rs).
use peekback.Base.{
  Bool-cases, Error, Option, Result, Result-cases, [], arith, false, inl, inr, leb, nat_eq, none,
  option_eq, refl, some, str_eq, ℕ, ◌++◌, ◌==◌, ◌∷◌, ◌≡◌,
}
use peekback.Base.Int.{int_eq}
use peekback.Base.Paths.{FilePath, path_eq}
use peekback.Daemon.{
  App, Loaded, Now, Output, Presentation, Reply, Request, Response, Run, Theme, done,
  listing_request_eq, session_identity_eq, theme_eq, view_context_eq,
}
use peekback.Daemon.Actions.{place, render}
use peekback.Daemon.Events.{
  answer, answer_error, hotkey, install, is_focus, keep_view, landing, map_current, opened, present,
  requested, response_of, serve, set_generation, theming, watching,
}
use peekback.Daemon.Sending.{Moves, sends, sends-append, sends-render, sends-show, sends_output}

sends-watching : (now : Now) (path : Option FilePath) → sends (watching now path) ≡ 0
sends-watching now none = refl
sends-watching now (some path) = elim (Result-cases (now.watch path)) [
  | inl (u, e) ↦ rw e refl
  | inr (er, e) ↦ rw e refl
]

sends-theming : (app : App) (theme : Option Theme) → sends (theming app theme) ≡ 0
sends-theming app theme = elim (Bool-cases (theme == app.theme)) [
  | inl e ↦ rw e refl
  | inr e ↦ rw e refl
]

sends-present : (p : Presentation) → sends (present p) ≡ 0
sends-present Presentation.keep = refl
sends-present Presentation.bring_forward = refl
sends-present Presentation.focus = refl

sends-place : (app : App) → sends_output (place app) ≡ 0
unfolding place
sends-place app = refl

sends-install : (now : Now) (app : App) (l : Loaded) → Moves app (install now app l)
unfolding install
sends-install now app l =
    let app' = record app { current = some l.current; theme = l.theme } in
    omega (
      arith,
      sends-append (watching now l.current.path)
          (theming app l.theme ++ (render app' ++ (place app' ∷ present app'.presentation))),
      sends-append (theming app l.theme) (render app' ++ (place app' ∷ present app'.presentation)),
      sends-append (render app') (place app' ∷ present app'.presentation),
      sends-watching now l.current.path,
      sends-theming app l.theme,
      sends-render app',
      sends-place app',
      sends-present app'.presentation,
    )

sends-keep_view :
    (app : App) (generation : ℕ) (reply : Option Reply) (e : Error)
    → Moves app (keep_view app generation reply e)
unfolding keep_view
sends-keep_view app generation (some r) e =
    let app' = map_current (set_generation generation) app in
    omega (arith, sends-append (render app') [], sends-render app')
sends-keep_view app generation none e =
    let app' = map_current (set_generation generation) app in
    elim (Bool-cases (is_focus app.presentation)) [
      | inl f ↦ rw f (
          omega (
            arith,
            sends-append (render app') (place app' ∷ Output.focus ∷ []),
            sends-render app',
            sends-place app',
          ))
      | inr f ↦ rw f (omega (arith, sends-append (render app') [], sends-render app'))
    ]

sends-landing :
    (now : Now) (app : App) (generation : ℕ) (result : Result Loaded) (reply : Option Reply)
    → Moves app (landing now app generation result reply)
unfolding landing
sends-landing now app generation result reply =
    elim (Bool-cases (elim reply [ none ↦ false | some r ↦ leb r.1 now.instant ])) [
      | inl e ↦ rw (e, landing) (sends-keep_view app generation reply Error.timed_out)
      | inr e ↦ elim (Result-cases result) [
        | inl (l, k) ↦ rw (e, k, landing) (sends-install now app l)
        | inr (er, k) ↦ rw (e, k, landing) (sends-keep_view app generation reply er)
      ]
    ]

sends-answer :
    (app : App) (reply : Option Reply) (run : Run) → Moves app run → Moves app (answer reply run)
sends-answer app none run h = h
sends-answer app (some r) run h =
    omega (arith, h, sends-append run.outputs (Output.reply r.0 (response_of run.result) ∷ []))

sends-superseded :
    (app : App) (reply : Option Reply)
    → Moves app (
        done app (elim reply [
          | none ↦ []
          | some r ↦ Output.reply r.0 (Response.error Error.superseded) ∷ []
        ]))
sends-superseded app none = omega arith
sends-superseded app (some r) = omega arith

pub sends-opened :
    (now : Now) (app : App) (generation : ℕ) (result : Result Loaded) (reply : Option Reply)
    → Moves app (opened now app generation result reply)
unfolding opened
sends-opened now app generation result reply = elim (Bool-cases (generation == app.generation)) [
  | inr e ↦ rw (e, opened) (sends-superseded app reply)
  | inl e ↦
      rw (e, opened)
        (sends-answer app reply (landing now app generation result reply)
          (sends-landing now app generation result reply))
]

sends-answer_error :
    (app : App) (channel : ℕ) (run : Run) → Moves app run → Moves app (answer_error channel run)
sends-answer_error app channel run h = elim (Result-cases run.result) [
  | inl (u, e) ↦ rw e h
  | inr (er, e) ↦
      rw e
        (omega (arith, h, sends-append run.outputs (Output.reply channel (Response.error er) ∷ [])))
]

sends-serve :
    (now : Now) (app : App) (request : Request) (channel deadline : ℕ)
    → Moves app (serve now app request channel deadline)
unfolding serve
sends-serve now app (Request.show id path focus) channel deadline =
    sends-answer_error app channel _ (sends-show now app _ _ _ (some (channel, deadline)))
sends-serve now app Request.status channel deadline = omega arith
sends-serve now app Request.hide channel deadline = omega arith
sends-serve now app Request.quit channel deadline = omega arith

pub sends-requested :
    (now : Now) (app : App) (request : Request) (channel deadline : ℕ)
    → Moves app (requested now app request channel deadline)
unfolding requested
sends-requested now app request channel deadline = elim (Bool-cases (leb deadline now.instant)) [
  | inl e ↦ rw (e, requested) (omega arith)
  | inr e ↦ rw (e, requested) (sends-serve now app request channel deadline)
]

pub sends-hotkey : (now : Now) (app : App) → Moves app (hotkey now app)
unfolding hotkey
sends-hotkey now app = elim (Bool-cases now.is_focused) [
  | inl e ↦ rw (e, hotkey) (omega arith)
  | inr e ↦ elim (Bool-cases now.is_visible) [
    | inl k ↦ rw (e, k, hotkey) (omega (arith, sends-place app))
    | inr k ↦ rw (e, k, hotkey) (sends-show now app _ _ _ none)
  ]
]
