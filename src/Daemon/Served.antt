-- ===== src/Daemon/Served.antt =====
-- Every client is answered once, whatever happens (src/daemon/controller.rs).
use peekback.Base.{
  Bool, Bool-cases, List, Option, Option-cases, Result, Result-cases, Str, arith, false, inl, inr,
  nat_eq, none, not, option_eq, refl, some, str_eq, ℕ, ◌==◌, ◌||◌, ◌∙◌, ◌≡◌,
}
use peekback.Base.Int.{int_eq}
use peekback.Base.Paths.{FilePath, path_eq}
use peekback.Daemon.{
  App, Current, Document, Listing, Now, UserEvent, ViewContext, listing_request_eq,
  session_identity_eq, theme_eq, view_context_eq,
}
use peekback.Daemon.Actions.{accepts, render, slot}
use peekback.Daemon.Answers.{answers-hotkey, answers-opened, answers-requested}
use peekback.Daemon.Events.{
  AfterRefresh, after_refresh, decide, event, listed, open_first, refreshed, reloaded,
  reloaded_text, rewatch, update_documents, update_view, with_text,
}
use peekback.Daemon.Replies.{
  answers, answers-after, answers-append, answers-page, answers-render, answers-show_none, owed,
}

module _ (n : ℕ) where
  answers-rewatch : (path : Option FilePath) → answers n (rewatch path) ≡ 0
  answers-rewatch none = refl
  answers-rewatch (some p) = refl

  answers-reloaded_text :
      (app : App) (doc : Current) (source : Str) (canonical : Option FilePath)
      → answers n (reloaded_text app doc source canonical).outputs ≡ 0
  unfolding reloaded_text
  answers-reloaded_text app doc source canonical =
      elim (Bool-cases
        (not (source == doc.source) || (doc.missing || not (canonical == doc.file_identity)))) [
          | inr e ↦ rw (e, reloaded_text) refl
          | inl e ↦
              rw (e, reloaded_text)
                (answers-append n (rewatch doc.path) (render (with_text app doc source canonical))
                  ∙ omega (
                    arith,
                    answers-rewatch doc.path,
                    answers-render n (with_text app doc source canonical),
                  ))
        ]

  answers-reloaded :
      (app : App) (generation revision : ℕ) (result : Result Str) (missing : Bool)
      (canonical : Option FilePath)
      → answers n (reloaded app generation revision result missing canonical).outputs ≡ 0
  unfolding reloaded
  answers-reloaded app generation revision result missing canonical =
      elim (Bool-cases
        (not (generation == app.generation) || not (revision == app.reload_revision))) [
          | inl e ↦ rw (e, reloaded) refl
          | inr e ↦ elim (Option-cases app.current) [
            | inl k ↦ rw (e, k, reloaded) refl
            | inr (doc, k) ↦ elim (Result-cases result) [
              | inl (source, m) ↦
                  rw (e, k, m, reloaded) (answers-reloaded_text app doc source canonical)
              | inr (er, m) ↦ elim (Bool-cases missing) [
                | inl q ↦ rw (e, k, m, q, reloaded) refl
                | inr q ↦ rw (e, k, m, q, reloaded) refl
              ]
            ]
          ]
        ]

  answers-update_documents :
      (app : App) (doc : Current) (documents : List Document)
      → answers n (update_documents app doc documents) ≡ 0
  unfolding update_documents
  answers-update_documents app doc documents = elim (Option-cases doc.session) [
    | inl e ↦ rw (e, update_documents) refl
    | inr (s, e) ↦ elim (Bool-cases app.page_ready) [
      | inl k ↦ rw (e, k, update_documents) refl
      | inr k ↦ rw (e, k, update_documents) refl
    ]
  ]

  answers-open_first :
      (now : Now) (app : App) (first : Option FilePath)
      → answers n (open_first now app first).outputs ≡ 0
  answers-open_first now app none = refl
  answers-open_first now app (some path) = answers-show_none n now app _ _ _

  answers-update_view :
      (now : Now) (app : App) (documents : List Document) (first : Option FilePath)
      → answers n (update_view now app documents first).outputs ≡ 0
  unfolding update_view
  answers-update_view now app documents first = elim (Option-cases app.current) [
    | inl e ↦ rw (e, update_view) refl
    | inr (doc, e) ↦
        rw (e, update_view)
          (answers-after n (update_documents app doc documents) (
              open_first now (record app { current = some (record doc { documents = documents }) })
                first)
            ∙ omega (
              arith,
              answers-update_documents app doc documents,
              answers-open_first now
                  (record app { current = some (record doc { documents = documents }) }) first,
            ))
  ]

  answers-decide :
      (now : Now) (app : App) (documents : List Document) (d : AfterRefresh)
      → answers n (decide now app documents d).outputs ≡ 0
  answers-decide now app documents AfterRefresh.ignore = refl
  answers-decide now app documents AfterRefresh.retry = refl
  answers-decide now app documents (AfterRefresh.start id) = answers-show_none n now app _ _ _
  answers-decide now app documents (AfterRefresh.update first) =
      answers-update_view now app documents first

  answers-listed :
      (app : App) (c : ViewContext) (id : ℕ) (s : Bool) (listing : Listing) (available : Bool)
      → answers n (listed app c id s listing available).outputs ≡ 0
  unfolding listed
  answers-listed app c id s listing available = elim (Bool-cases (accepts app c)) [
    | inr e ↦ rw (e, listed) refl
    | inl e ↦ elim (Bool-cases ((slot app s).request == some (c, id))) [
      | inr k ↦ rw (e, k, listed) refl
      | inl k ↦ rw (e, k, listed) refl
    ]
  ]

  -- Handling an event answers a channel as often as the event owes it: a request is answered at
  -- once or by the open that it queues, and the end of an open answers the client that waits for
  -- it. This holds on every branch, refused and failed ones included.
  pub event-answers :
      (now : Now) (app : App) (e : UserEvent) → answers n (event now app e).outputs ≡ owed n e
  unfolding event refreshed
  event-answers now app (UserEvent.page m) = answers-page n now app m
  event-answers now app (UserEvent.opened g result reply) = answers-opened n now app g result reply
  event-answers now app (UserEvent.request request channel deadline) =
      answers-requested n now app request channel deadline
  event-answers now app UserEvent.hotkey = answers-hotkey n now app
  event-answers now app UserEvent.doc_changed = refl
  event-answers now app (UserEvent.reloaded g r result missing canonical) =
      answers-reloaded app g r result missing canonical
  event-answers now app UserEvent.registry_changed = refl
  event-answers now app (UserEvent.refreshed context sessions documents) =
      answers-decide now (record app { refresh_pending = false; sessions = sessions }) documents
        (after_refresh app.current app.generation context sessions documents)
  event-answers now app (UserEvent.listed c id s listing available) =
      answers-listed app c id s listing available
  event-answers now app (UserEvent.sent id purpose result) = refl
  event-answers now app (UserEvent.copied result) = refl
