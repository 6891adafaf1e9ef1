-- ===== src/Base/Results.antt =====
-- `anyhow::Result`: an error is one of the messages that the program raises, or a failure of the
-- operating system or of a codec, by its text.
use mathlib.Core.Path.{◌≡◌, refl}
use mathlib.Core.Logic.{◌⊎◌, inl, inr}
use mathlib.Core.Bool.{Bool, true, false}
use mathlib.Core.Option.{Option, none, some}
use native.Mathlib.Omega.{arith}
use peekback.Base.Tests.{Str}

pub data Error : Type 0 where
  invalid_agent_id invalid_session_id : Error
  other_session unsupported_schema paths_not_absolute rename_disagrees : Error
  batch_too_large event_too_large checkpoint_too_large : Error
  cutoff_in_future unexpected_file damaged_history incomplete_history : Error
  other_agent other_history not_regular_file corrupt_job : Error
  unknown_backend removed_backend unverified_pane agent_gone pane_lost no_bundle_id : Error
  no_session_in_pane several_servers not_registered no_sessions : Error
  viewer_changed send_in_progress no_session session_ended session_restarted : Error
  stale_listing unlisted_file nothing_to_show superseded timed_out : Error
  io : Str → Error

pub data Result {ℓ} (A : Type ℓ) : Type ℓ where
  ok : A → Result A
  err : Error → Result A

-- `ensure!`.
abbrev pub ensure : Bool → Error → Result (Unit {0})
ensure true e = ok tt
ensure false e = err e

-- `Option::ok_or`.
abbrev pub ok_or {ℓ} : {A : Type ℓ} → Option A → Error → Result A
ok_or none e = err e
ok_or (some a) e = ok a

infixl 5 ◌>>=◌ ◌>>◌
-- The `?` operator on a result that is used.
abbrev pub ◌>>=◌ {κ ℓ} : {B : Type ℓ} {A : Type κ} → Result A → (A → Result B) → Result B
err e >>= f = err e
ok a >>= f = f a

-- `Result::and`: the second result, unless the first failed.
abbrev pub and {ℓ} : {A : Type ℓ} → Result (Unit {0}) → Result A → Result A
and (ok _) r = r
and (err e) r = err e

abbrev pub is_ok {ℓ} : {A : Type ℓ} → Result A → Bool
is_ok (ok a) = true
is_ok (err e) = false

abbrev pub is_err {ℓ} : {A : Type ℓ} → Result A → Bool
is_err (ok a) = false
is_err (err e) = true

-- The `?` operator on a result without a value.
abbrev pub ◌>>◌ {ℓ} : {B : Type ℓ} → Result (Unit {0}) → Result B → Result B
first >> second = first >>= λ _. second

pub Result-cases {ℓ} :
    {A : Type ℓ} (r : Result A) → ((a : A) × (r ≡ ok a)) ⊎ ((e : Error) × (r ≡ err e))
Result-cases (ok a) = inl (a, refl)
Result-cases (err e) = inr (e, refl)

-- A chain that succeeds has passed its first step.
pub bind-ok {κ ℓ} :
    {A : Type κ} {B : Type ℓ} (r : Result A) (f : A → Result B) (b : B)
    → (r >>= f) ≡ ok b
    → (a : A) × (r ≡ ok a) × (f a ≡ ok b)
bind-ok (ok a) f b h = (a, refl, h)
bind-ok (err e) f b h = absurd (ground arith)
