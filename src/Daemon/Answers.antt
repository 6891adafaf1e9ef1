-- ===== src/Daemon/Answers.antt =====
-- Every client is answered once (src/daemon/controller.rs).
use peekback.Base.{
  Bool, Bool-cases, Error, Option, Result, Result-cases, [], arith, false, if◌then◌else◌, inl, inr,
  leb, nat_eq, none, option_eq, refl, some, str_eq, true, ℕ, ◌++◌, ◌+◌, ◌==◌, ◌∙◌, ◌∷◌, ◌≡◌,
}
use peekback.Base.Int.{int_eq}
use peekback.Base.Paths.{FilePath, path_eq}
use peekback.Daemon.{
  App, Job, Loaded, Now, Output, Presentation, Reply, Request, Response, Run, Target, Theme,
  listing_request_eq, session_identity_eq, submit_job, theme_eq, view_context_eq,
}
use peekback.Daemon.Actions.{place, render, show}
use peekback.Daemon.Events.{
  answer, answer_error, hotkey, install, is_focus, keep_view, landing, map_current, opened, present,
  requested, serve, set_generation, theming, watching,
}
use peekback.Daemon.Replies.{
  answering, answering_reply, answers, answers-append, answers-render, answers-show_none,
}

module _ (n : ℕ) where
  answers-watching : (now : Now) (path : Option FilePath) → answers n (watching now path) ≡ 0
  answers-watching now none = refl
  answers-watching now (some path) = elim (Result-cases (now.watch path)) [
    | inl (u, e) ↦ rw e refl
    | inr (er, e) ↦ rw e refl
  ]

  answers-theming : (app : App) (theme : Option Theme) → answers n (theming app theme) ≡ 0
  answers-theming app theme = elim (Bool-cases (theme == app.theme)) [
    | inl e ↦ rw e refl
    | inr e ↦ rw e refl
  ]

  answers-present : (p : Presentation) → answers n (present p) ≡ 0
  answers-present Presentation.keep = refl
  answers-present Presentation.bring_forward = refl
  answers-present Presentation.focus = refl

  answers-place : (app : App) → answering n (place app) ≡ 0
  unfolding place
  answers-place app = refl

  answers-install : (now : Now) (app : App) (l : Loaded) → answers n (install now app l).outputs ≡ 0
  unfolding install
  answers-install now app l =
      let app' = record app { current = some l.current; theme = l.theme } in
      omega (
        arith,
        answers-append n (watching now l.current.path)
            (theming app l.theme ++ (render app' ++ (place app' ∷ present app'.presentation))),
        answers-append n (theming app l.theme)
            (render app' ++ (place app' ∷ present app'.presentation)),
        answers-append n (render app') (place app' ∷ present app'.presentation),
        answers-watching now l.current.path,
        answers-theming app l.theme,
        answers-render n app',
        answers-place app',
        answers-present app'.presentation,
      )

  answers-keep_view :
      (app : App) (generation : ℕ) (reply : Option Reply) (e : Error)
      → answers n (keep_view app generation reply e).outputs ≡ 0
  unfolding keep_view
  answers-keep_view app generation (some r) e =
      let app' = map_current (set_generation generation) app in
      omega (arith, answers-append n (render app') [], answers-render n app')
  answers-keep_view app generation none e =
      let app' = map_current (set_generation generation) app in
      elim (Bool-cases (is_focus app.presentation)) [
        | inl f ↦ rw f (
            omega (
              arith,
              answers-append n (render app') (place app' ∷ Output.focus ∷ []),
              answers-render n app',
              answers-place app',
            ))
        | inr f ↦ rw f (omega (arith, answers-append n (render app') [], answers-render n app'))
      ]

  answers-landing :
      (now : Now) (app : App) (generation : ℕ) (result : Result Loaded) (reply : Option Reply)
      → answers n (landing now app generation result reply).outputs ≡ 0
  unfolding landing
  answers-landing now app generation result reply =
      elim (Bool-cases (elim reply [ none ↦ false | some r ↦ leb r.1 now.instant ])) [
        | inl e ↦ rw (e, landing) (answers-keep_view app generation reply Error.timed_out)
        | inr e ↦ elim (Result-cases result) [
          | inl (l, k) ↦ rw (e, k, landing) (answers-install now app l)
          | inr (er, k) ↦ rw (e, k, landing) (answers-keep_view app generation reply er)
        ]
      ]

  answers-answer :
      (reply : Option Reply) (run : Run)
      → answers n (answer reply run).outputs ≡ answers n run.outputs + answering_reply n reply
  answers-answer none run = omega arith
  answers-answer (some r) run = answers-append n run.outputs _ ∙ omega arith

  answers-superseded :
      (reply : Option Reply)
      → answers n (elim reply [
        | none ↦ []
        | some r ↦ Output.reply r.0 (Response.error Error.superseded) ∷ []
      ])
        ≡ answering_reply n reply
  answers-superseded none = refl
  answers-superseded (some r) = omega arith

  pub answers-opened :
      (now : Now) (app : App) (generation : ℕ) (result : Result Loaded) (reply : Option Reply)
      → answers n (opened now app generation result reply).outputs ≡ answering_reply n reply
  unfolding opened
  answers-opened now app generation result reply =
      elim (Bool-cases (generation == app.generation)) [
        | inr e ↦ rw (e, opened) (answers-superseded reply)
        | inl e ↦
            rw (e, opened)
              (answers-answer reply (landing now app generation result reply)
                ∙ omega (arith, answers-landing now app generation result reply))
      ]

  answers-submitted :
      (free : Bool) (app app' : App) (generation : ℕ) (target : Target) (path : Option FilePath)
      (channel deadline : ℕ)
      → answers n
          (answer_error channel (
            submit_job free app
              (Job.open_view generation target path (some (channel, deadline)))
              app')).outputs
        ≡ (if channel == n then 1 else 0)
  answers-submitted true app app' generation target path channel deadline = omega arith
  answers-submitted false app app' generation target path channel deadline = omega arith

  answers-serve :
      (now : Now) (app : App) (request : Request) (channel deadline : ℕ)
      → answers n (serve now app request channel deadline).outputs ≡ (if channel == n then 1 else 0)
  unfolding serve show
  answers-serve now app (Request.show id path focus) channel deadline =
      answers-submitted now.workers_free app _ _ _ path channel deadline
  answers-serve now app Request.status channel deadline = omega arith
  answers-serve now app Request.hide channel deadline = omega arith
  answers-serve now app Request.quit channel deadline = omega arith

  pub answers-requested :
      (now : Now) (app : App) (request : Request) (channel deadline : ℕ)
      → answers n (requested now app request channel deadline).outputs
        ≡ (if channel == n then 1 else 0)
  unfolding requested
  answers-requested now app request channel deadline =
      elim (Bool-cases (leb deadline now.instant)) [
        | inl e ↦ rw (e, requested) (omega arith)
        | inr e ↦ rw (e, requested) (answers-serve now app request channel deadline)
      ]

  pub answers-hotkey : (now : Now) (app : App) → answers n (hotkey now app).outputs ≡ 0
  unfolding hotkey
  answers-hotkey now app = elim (Bool-cases now.is_focused) [
    | inl e ↦ rw (e, hotkey) refl
    | inr e ↦ elim (Bool-cases now.is_visible) [
      | inl k ↦ rw (e, k, hotkey) (omega (arith, answers-place app))
      | inr k ↦ rw (e, k, hotkey) (answers-show_none n now app _ _ _)
    ]
  ]
