-- ===== src/Daemon/Stale.antt =====
-- Views that were replaced, and actions on them (src/daemon/controller.rs, src/daemon/state.rs).
use mathlib.Core.List.{append_assoc}
use peekback.Base.{
  All, Bool, Error, List, Option, Str, [], ap, arith, err, false, nat_eq, none, ok, option_eq, refl,
  some, str_eq, subst, sym, true, ℕ, ◌++◌, ◌<◌, ◌==◌, ◌^◌, ◌∙◌, ◌∷◌, ◌≡◌, ◌≢◌,
}
use peekback.Base.Int.{int_eq}
use peekback.Base.Paths.{FilePath, path_eq}
use peekback.Daemon.{
  App, Current, Job, Now, Output, PageMessage, Presentation, Reply, Run, Target, ViewContext, done,
  fail, listing_request_eq, session_identity_eq, submit_job, theme_eq, view_context_eq,
}
use peekback.Daemon.Actions.{
  accepts, list, next, open_listed, page, report_failure, show, shows, submit_send, switch,
}

-- The jobs among outputs.
abbrev pub submitted_by : Output → List Job
submitted_by (Output.submit job) = job ∷ []
submitted_by o = []

abbrev pub submitted : List Output → List Job
submitted [] = []
submitted (o ∷ os) = submitted_by o ++ submitted os

-- The view that a message of the page is about.
abbrev pub context_of : PageMessage → Option ViewContext
context_of (PageMessage.list_scratchpad c id) = some c
context_of (PageMessage.open_scratchpad c id path) = some c
context_of (PageMessage.list_bookmarks c id) = some c
context_of (PageMessage.open_bookmark c id path) = some c
context_of (PageMessage.switch c id path) = some c
context_of (PageMessage.send c id text purpose) = some c
context_of PageMessage.ready = none
context_of (PageMessage.copy text) = none
context_of PageMessage.hide = none
context_of (PageMessage.open_external url) = none

-- No effect but what the page is told.
abbrev pub IsRefused : App → Run → Type 0
IsRefused app run = (run.app ≡ app) × (submitted run.outputs ≡ [])

not_shown :
    (app : App) (doc : Current) (c : ViewContext)
    → app.current ≡ some doc
    → (doc.context == c) ≡ false
    → shows app c ≡ false
unfolding shows
not_shown app doc c h k = rw (h, shows) k

not_accepted :
    (app : App) (doc : Current) (c : ViewContext)
    → app.current ≡ some doc
    → (doc.context == c) ≡ false
    → accepts app c ≡ false
unfolding accepts
not_accepted app doc c h k = rw (h, k, accepts) (ground arith)

list-IsRefused :
    (now : Now) (app : App) (c : ViewContext) (id : ℕ) (s : Bool)
    → accepts app c ≡ false
    → IsRefused app (list now app c id s)
unfolding list
list-IsRefused now app c id s h = rw (h, list) (refl, refl)

open_listed-IsRefused :
    (now : Now) (app : App) (c : ViewContext) (id : ℕ) (path : FilePath) (s : Bool)
    → accepts app c ≡ false
    → IsRefused app (open_listed now app c id path s)
unfolding open_listed
open_listed-IsRefused now app c id path s h = rw (h, open_listed) (refl, refl)

switch-IsRefused :
    (now : Now) (app : App) (c : ViewContext) (id : Option Str) (path : Option FilePath)
    → shows app c ≡ false
    → IsRefused app (switch now app c id path)
unfolding switch
switch-IsRefused now app c id path h = rw (h, switch) (refl, refl)

send-rejected :
    (now : Now) (app : App) (c : ViewContext) (id : ℕ) (text : Str) (purpose : Option Str)
    → accepts app c ≡ false
    → submit_send now app c id text purpose ≡ fail app Error.viewer_changed
unfolding submit_send
send-rejected now app c id text purpose h = rw (h, submit_send) refl

send-IsRefused :
    (now : Now) (app : App) (c : ViewContext) (id : ℕ) (text : Str) (purpose : Option Str)
    → accepts app c ≡ false
    → IsRefused app (report_failure id purpose (submit_send now app c id text purpose))
unfolding report_failure
send-IsRefused now app c id text purpose h =
    rw (send-rejected now app c id text purpose h) (refl, refl)

none≢some {ℓ} : {A : Type ℓ} {a : A} → none ≢ some a
none≢some h = cc

other :
    (doc : Current) (c d : ViewContext)
    → some d ≡ some c
    → (doc.context == c) ≡ false
    → (doc.context == d) ≡ false
other doc c d h k =
    subst (λ o. elim o [ none ↦ (doc.context == c) ≡ false | some e ↦ (doc.context == e) ≡ false ])
      (sym h) k

-- A message of the page about another view than the one on screen changes nothing and starts
-- nothing: every kind of message that names a view is refused.
pub page-IsRefused :
    (now : Now) (app : App) (doc : Current) (c : ViewContext) (m : PageMessage)
    → app.current ≡ some doc
    → context_of m ≡ some c
    → (doc.context == c) ≡ false
    → IsRefused app (page now app m)
unfolding page
page-IsRefused now app doc c (PageMessage.list_scratchpad v id) h k d =
    list-IsRefused now app v id true (not_accepted app doc v h (other doc c v k d))
page-IsRefused now app doc c (PageMessage.list_bookmarks v id) h k d =
    list-IsRefused now app v id false (not_accepted app doc v h (other doc c v k d))
page-IsRefused now app doc c (PageMessage.open_scratchpad v id path) h k d =
    open_listed-IsRefused now app v id path true (not_accepted app doc v h (other doc c v k d))
page-IsRefused now app doc c (PageMessage.open_bookmark v id path) h k d =
    open_listed-IsRefused now app v id path false (not_accepted app doc v h (other doc c v k d))
page-IsRefused now app doc c (PageMessage.switch v id path) h k d =
    switch-IsRefused now app v id path (not_shown app doc v h (other doc c v k d))
page-IsRefused now app doc c (PageMessage.send v id text purpose) h k d =
    send-IsRefused now app v id text purpose (not_accepted app doc v h (other doc c v k d))
page-IsRefused now app doc c PageMessage.ready h k d = absurd (none≢some k)
page-IsRefused now app doc c (PageMessage.copy text) h k d = absurd (none≢some k)
page-IsRefused now app doc c PageMessage.hide h k d = absurd (none≢some k)
page-IsRefused now app doc c (PageMessage.open_external url) h k d = absurd (none≢some k)

err≢ok {ℓ} : {A : Type ℓ} {e : Error} {a : A} → err e ≢ ok a
err≢ok h = cc

next-other : (n : ℕ) → n < 2 ^ 64 → (n == next n) ≡ false
unfolding next
next-other n h = ground arith

closed :
    (app' : App) (doc : Current) (c : ViewContext)
    → app'.current ≡ some doc
    → (doc.context.generation == app'.generation) ≡ false
    → accepts app' c ≡ false
unfolding accepts
closed app' doc c h k = rw (h, k, accepts) refl

submitted_show :
    (free : Bool) (app app' : App) (job : Job) (doc : Current) (c : ViewContext)
    → app'.current ≡ some doc
    → (doc.context.generation == app'.generation) ≡ false
    → (submit_job free app job app').result ≡ ok tt
    → accepts (submit_job free app job app').app c ≡ false
submitted_show true app app' job doc c h k r = closed app' doc c h k
submitted_show false app app' job doc c h k r = absurd (err≢ok r)

-- The messages that act on the document on screen.
abbrev pub is_action : PageMessage → Bool
is_action (PageMessage.list_scratchpad c id) = true
is_action (PageMessage.open_scratchpad c id path) = true
is_action (PageMessage.list_bookmarks c id) = true
is_action (PageMessage.open_bookmark c id path) = true
is_action (PageMessage.send c id text purpose) = true
is_action m = false

action-IsRefused :
    (now : Now) (app : App) (m : PageMessage)
    → ((c : ViewContext) → accepts app c ≡ false)
    → is_action m ≡ true
    → IsRefused app (page now app m)
unfolding page
action-IsRefused now app (PageMessage.list_scratchpad v id) h a =
    list-IsRefused now app v id true (h v)
action-IsRefused now app (PageMessage.list_bookmarks v id) h a =
    list-IsRefused now app v id false (h v)
action-IsRefused now app (PageMessage.open_scratchpad v id path) h a =
    open_listed-IsRefused now app v id path true (h v)
action-IsRefused now app (PageMessage.open_bookmark v id path) h a =
    open_listed-IsRefused now app v id path false (h v)
action-IsRefused now app (PageMessage.send v id text purpose) h a =
    send-IsRefused now app v id text purpose (h v)
action-IsRefused now app (PageMessage.switch v id path) h a = absurd (ground arith)
action-IsRefused now app PageMessage.ready h a = absurd (ground arith)
action-IsRefused now app (PageMessage.copy text) h a = absurd (ground arith)
action-IsRefused now app PageMessage.hide h a = absurd (ground arith)
action-IsRefused now app (PageMessage.open_external url) h a = absurd (ground arith)

-- The page sends messages one after another, each at its time.
abbrev pub run_page : App → List (Now × PageMessage) → Run
run_page app [] = done app []
run_page app ((now, m) ∷ ms) =
    let turn = page now app m in
    let rest = run_page turn.app ms in record rest { outputs = turn.outputs ++ rest.outputs }

submitted-append : (os ps : List Output) → submitted (os ++ ps) ≡ submitted os ++ submitted ps
submitted-append [] ps = refl
submitted-append (o ∷ os) ps =
    ap (◌++◌ (submitted_by o)) (submitted-append os ps)
    ∙ sym (append_assoc (submitted_by o) (submitted os) (submitted ps))

run_page-IsRefused :
    (app : App) (ms : List (Now × PageMessage))
    → ((c : ViewContext) → accepts app c ≡ false)
    → All (λ m. is_action m.1 ≡ true) ms
    → IsRefused app (run_page app ms)
run_page-IsRefused app [] h a = (refl, refl)
run_page-IsRefused app ((now, m) ∷ ms) h a =
    let (same, nothing) = action-IsRefused now app m h a.0 in
    let (later, silent) =
      subst (λ b. IsRefused b (run_page b ms)) (sym same) (run_page-IsRefused app ms h a.1) in
    (
      later ∙ same,
      submitted-append (page now app m).outputs (run_page (page now app m).app ms).outputs
          ∙ rw (nothing, silent) refl,
    )

-- Where the newest view is on screen and another one is then requested with success, whatever
-- the page sends next to list files, to open a listed one or to send text, in any number and for
-- any view, changes nothing and starts nothing. The counter of 64 bits is in its range.
pub show-closes :
    (now : Now) (app : App) (doc : Current) (target : Target) (path : Option FilePath)
    (p : Presentation) (reply : Option Reply) (ms : List (Now × PageMessage))
    → app.current ≡ some doc
    → doc.context.generation ≡ app.generation
    → app.generation < 2 ^ 64
    → (show now app target path p reply).result ≡ ok tt
    → All (λ m. is_action m.1 ≡ true) ms
    → IsRefused
        (show now app target path p reply).app
        (run_page (show now app target path p reply).app ms)
unfolding show
show-closes now app doc target path p reply ms h k b r a =
    run_page-IsRefused (show now app target path p reply).app ms
      (λ c.
        submitted_show now.workers_free app _ _ doc c h
          (subst (λ g. (g == next app.generation) ≡ false) (sym k) (next-other app.generation b)) r)
      a
