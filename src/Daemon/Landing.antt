-- ===== src/Daemon/Landing.antt =====
-- Where opens land, and where sends go (src/daemon/controller.rs).
use peekback.Base.{
  ==_iff, Bool-cases, Error, List, Option, Option-cases, Result, Str, [], err, false, inl, inr, leb,
  nat_eq, none, ok, option_eq, refl, some, str_eq, subst, sym, true, ℕ, ◌>>=◌, ◌||◌, ◌≡◌, ◌≢◌,
}
use peekback.Base.Int.{int_eq}
use peekback.Base.Paths.{FilePath, path_eq}
use peekback.Daemon.{
  App, Awaiting, Loaded, Now, Reply, Run, Target, ViewContext, identity_of, listing_request_eq,
  owns, session_identity_eq, theme_eq, view_context_eq,
}
use peekback.Daemon.Events.{answer, event, install, keep_view, landing, opened}
use peekback.Daemon.Jobs.{
  Surroundings, chosen_path, is_some, open_view, registered, run_open, run_send, subject, text_of,
  transposed,
}
use peekback.Send.{Effect, Report, backend_eq, send}
use peekback.Session.{Session, turn_eq}

-- The view on screen, if any, is the newest one.
abbrev pub IsSettled : App → Type 0
IsSettled app = elim app.current [ none ↦ Unit | some c ↦ c.context.generation ≡ app.generation ]

-- A result that has a property if there is one.
abbrev pub IfOk {ℓ} : {A : Type ℓ} → (A → Type 0) → Result A → Type 0
IfOk P (ok a) = P a
IfOk P (err e) = Unit

IfOk->>= {ℓ κ} :
    {A : Type ℓ} {B : Type κ} (P : B → Type 0) (r : Result A) (f : A → Result B)
    → ((a : A) → IfOk P (f a))
    → IfOk P (r >>= f)
IfOk->>= P (ok a) f h = h a
IfOk->>= P (err e) f h = tt

IfOk-map {ℓ κ} :
    {A : Type ℓ} {B : Type κ} (P : A → Type 0) (Q : B → Type 0) (f : A → B) (r : Result A)
    → ((a : A) → P a → Q (f a))
    → IfOk P r
    → IfOk Q (r >>= λ a. ok (f a))
IfOk-map P Q f (ok a) h k = h a k
IfOk-map P Q f (err e) h k = tt

abbrev IsOpened : ℕ → Result Loaded → Type 0
IsOpened generation = IfOk (λ l. l.current.context.generation ≡ generation)

open_view-generation :
    (world : Surroundings) (generation : ℕ) (id : Option Str) (path : Option FilePath)
    (awaiting : Option Awaiting)
    → IfOk (λ c. c.context.generation ≡ generation) (open_view world generation id path awaiting)
unfolding open_view
open_view-generation world generation id path awaiting = IfOk->>= _ (registered world id) _ λ found.
    IfOk->>= _ (chosen_path path (is_some found || is_some awaiting) _) _ λ p.
      IfOk->>= _ (transposed p world.canonicalize) _ λ i. IfOk->>= _ (text_of world p) _ λ s. refl

keep_view-IsSettled :
    (app : App) (reply : Option Reply) (e : Error)
    → IsSettled (keep_view app app.generation reply e).app
unfolding keep_view
keep_view-IsSettled app reply e = elim (Option-cases app.current) [
  | inl n ↦ rw (n, keep_view) tt
  | inr (c, n) ↦ rw (n, keep_view) refl
]

answer-app : (reply : Option Reply) (run : Run) → (answer reply run).app ≡ run.app
answer-app none run = refl
answer-app (some r) run = refl

landing-IsSettled :
    (now : Now) (app : App) (result : Result Loaded) (reply : Option Reply)
    → IsOpened app.generation result
    → IsSettled (landing now app app.generation result reply).app
unfolding landing install
landing-IsSettled now app (err e) reply h =
    elim (Bool-cases (elim reply [ none ↦ false | some r ↦ leb r.1 now.instant ])) [
      | inl t ↦ rw (t, landing) (keep_view-IsSettled app reply Error.timed_out)
      | inr t ↦ rw (t, landing) (keep_view-IsSettled app reply e)
    ]
landing-IsSettled now app (ok l) reply h =
    elim (Bool-cases (elim reply [ none ↦ false | some r ↦ leb r.1 now.instant ])) [
      | inl t ↦ rw (t, landing) (keep_view-IsSettled app reply Error.timed_out)
      | inr t ↦ rw (t, landing) h
    ]

opened-newest :
    (now : Now) (app : App) (result : Result Loaded) (reply : Option Reply)
    → (opened now app app.generation result reply).app
      ≡ (landing now app app.generation result reply).app
unfolding opened
opened-newest now app result reply =
    rw ((==_iff app.generation app.generation).1 refl, opened)
      (answer-app reply (landing now app app.generation result reply))

-- When the newest open ends, whether it shows its view, fails or comes too late for its client,
-- the view on screen is the newest one, so the page can act on it again.
pub opened-IsSettled :
    (now : Now) (app : App) (world : Surroundings) (target : Target) (path : Option FilePath)
    (reply : Option Reply)
    → IsSettled (event now app (run_open world app.generation target path reply)).app
unfolding event run_open
opened-IsSettled now app world target path reply =
    let result =
      open_view world app.generation (subject world target).0 path (subject world target).1 in
    let loaded = result >>= λ c. ok (record { current = c; theme = some world.theme }) in
    subst IsSettled (sym (opened-newest now app loaded reply)) (
      landing-IsSettled now app loaded reply (
        IfOk-map _ _ (λ c. record { current = c; theme = some world.theme }) result (λ c h. h)
          (open_view-generation world app.generation (subject world target).0 path
            (subject world target).1)))

owns_lem : (c : ViewContext) (s : Session) → owns c s ≡ true → c.session ≡ some (identity_of s)
unfolding owns
owns_lem c s h = (==_iff c.session (some (identity_of s))).0 h

-- A send reaches a session only if the view that it was sent from shows it: the session that is
-- registered when the job runs has the agent, the id, the incarnation, the process and the start
-- of the one that the context names. Otherwise nothing is delivered, whatever delivers it.
pub run_send-IsOwned :
    (world : Surroundings) (send : Session → Str → List Effect × Result Report) (c : ViewContext)
    (request_id : ℕ) (id text : Str) (purpose : Option Str)
    → (run_send world send c request_id id text purpose).0 ≢ []
    → (target : Session) × (world.find id ≡ some target)
      × (c.session ≡ some (identity_of target))
      × ((run_send world send c request_id id text purpose).0 ≡ (send target text).0)
unfolding run_send
run_send-IsOwned world send c request_id id text purpose h = elim (Option-cases (world.find id)) [
  | inl e ↦ absurd (h (rw (e, run_send) refl))
  | inr (target, e) ↦ elim (Bool-cases (owns c target)) [
    | inr k ↦ absurd (h (rw (e, k, run_send) refl))
    | inl k ↦ (target, e, owns_lem c target k, rw (e, k, run_send) refl)
  ]
]
