-- ===== src/Examples/Viewer.antt =====
-- The theorems on the daemon at the view of `Data`.
use peekback.Base.{
  Error, List, Result, Str, [], arith, codes, err, false, nat_eq, none, ok, option_discrete,
  option_eq, refl, some, str_eq, sym, true, ℕ, ℕ_discrete, ◌+◌, ◌<◌, ◌==◌, ◌∙◌, ◌∷◌, ◌≡◌, ◌≢◌,
}
use peekback.Base.Int.{int_eq}
use peekback.Base.Paths.{path_eq}
use peekback.Daemon.{
  App, Now, PageMessage, Presentation, Request, SessionIdentity_discrete, Target, UserEvent,
  ViewContext_discrete, identity_of, listing_request_eq, new_app, session_identity_eq, theme_eq,
  view_context_eq,
}
use peekback.Daemon.Actions.{page, show}
use peekback.Daemon.Events.{event}
use peekback.Daemon.Jobs.{run_open, run_send}
use peekback.Daemon.Landing.{IsSettled, opened-IsSettled, run_send-IsOwned}
use peekback.Daemon.Loop.{ControlFlow, turn}
use peekback.Daemon.Replies.{answers}
use peekback.Daemon.Sending.{as_ℕ, sends}
use peekback.Daemon.Served.{event-answers}
use peekback.Daemon.Stale.{IsRefused, page-IsRefused, run_page, show-closes}
use peekback.Daemon.Underway.{Reaches, sending-counts}
use peekback.Daemon.Wake.{turn-waits}
use peekback.Examples.Data.{app_at, context_of_generation, current_view, now_at, quiet_world}
use peekback.Send.{Effect, Report, backend_eq}
use peekback.Session.{Session, turn_eq}

abbrev show_request : UserEvent
show_request = UserEvent.request (Request.show (some (codes "s")) none true) 9 50

event-answers_example : answers 9 (event (now_at 10) (app_at 4) show_request).outputs ≡ 1
unfolding ℕ_discrete
event-answers_example = event-answers 9 (now_at 10) (app_at 4) show_request

abbrev stale_send : PageMessage
stale_send = PageMessage.send (context_of_generation 3) 1 (codes "text") none

stale : ((current_view 4).context == context_of_generation 3) ≡ false
unfolding ViewContext_discrete ℕ_discrete
stale = refl

page-IsRefused_example : IsRefused (app_at 4) (page (now_at 10) (app_at 4) stale_send)
page-IsRefused_example =
    page-IsRefused (now_at 10) (app_at 4) (current_view 4) (context_of_generation 3) stale_send refl
      refl stale

shown : (show (now_at 10) (app_at 4) Target.focused none Presentation.focus none).result ≡ ok tt
unfolding show
shown = refl

abbrev shown_next : App
shown_next = (show (now_at 10) (app_at 4) Target.focused none Presentation.focus none).app

-- A listing and a send from the view that is still on screen.
abbrev two_actions : List (Now × PageMessage)
two_actions =
    (now_at 11, PageMessage.list_bookmarks (context_of_generation 4) 1)
    ∷ (now_at 12, PageMessage.send (context_of_generation 4) 2 (codes "hi") none)
    ∷ []

show-closes_example : IsRefused shown_next (run_page shown_next two_actions)
show-closes_example =
    show-closes (now_at 10) (app_at 4) (current_view 4) Target.focused none Presentation.focus none
      two_actions refl refl (omega arith) shown (refl, (refl, tt))

opened-IsSettled_example :
    IsSettled
      (event
        (now_at 10)
        (app_at 5)
        (run_open quiet_world 5 (Target.session (some (codes "s"))) none none)).app
opened-IsSettled_example =
    opened-IsSettled (now_at 10) (app_at 5) quiet_world (Target.session (some (codes "s"))) none
      none

abbrev copying : Session → Str → List Effect × Result Report
copying target text = (Effect.copied text ∷ [], err Error.agent_gone)

cons≢nil : {x : Effect} {xs : List Effect} → x ∷ xs ≢ []
cons≢nil e = cc

one_copy :
    (run_send quiet_world copying (context_of_generation 4) 1 (codes "s") (codes "text") none).0
    ≡ Effect.copied (codes "text") ∷ []
unfolding run_send ℕ_discrete SessionIdentity_discrete option_discrete
one_copy = refl

delivered :
    (run_send quiet_world copying (context_of_generation 4) 1 (codes "s") (codes "text") none).0
    ≢ []
delivered e = cons≢nil (sym one_copy ∙ e)

run_send-IsOwned_example :
    (target : Session) × (quiet_world.find (codes "s") ≡ some target)
    × ((context_of_generation 4).session ≡ some (identity_of target))
    × ((run_send quiet_world copying (context_of_generation 4) 1 (codes "s") (codes "text") none).0
        ≡ (copying target (codes "text")).0)
run_send-IsOwned_example =
    run_send-IsOwned quiet_world copying (context_of_generation 4) 1 (codes "s") (codes "text") none
      delivered

waited : (turn (now_at 10) (app_at 4) UserEvent.doc_changed).2 ≡ ControlFlow.wait_until 110
unfolding turn ℕ_discrete
waited = refl

turn-waits_example : 10 < 110
turn-waits_example = turn-waits (now_at 10) (app_at 4) UserEvent.doc_changed 110 waited

abbrev view_opened : UserEvent
view_opened = UserEvent.opened 0 (ok (record { current = current_view 0; theme = none })) none

abbrev note_sent : UserEvent
note_sent = UserEvent.page (PageMessage.send (context_of_generation 0) 1 (codes "text") none)

abbrev viewing : App
viewing = (event (now_at 1) (new_app 0) view_opened).app

abbrev sending_one : ℕ
sending_one =
    (0 + sends (event (now_at 1) (new_app 0) view_opened).outputs)
    + sends (event (now_at 2) viewing note_sent).outputs

one_underway : Reaches (event (now_at 2) viewing note_sent).app sending_one
one_underway =
    Reaches.handled (now_at 2) note_sent refl
      (Reaches.handled (now_at 1) view_opened refl (Reaches.started 0))

sending-counts_example : sending_one ≡ as_ℕ (event (now_at 2) viewing note_sent).app.sending
sending-counts_example =
    sending-counts (event (now_at 2) viewing note_sent).app sending_one one_underway

-- It is one.
sends_one : sending_one ≡ 1
unfolding event new_app ℕ_discrete option_discrete SessionIdentity_discrete ViewContext_discrete
sends_one = refl
