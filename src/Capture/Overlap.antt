-- ===== src/Capture/Overlap.antt =====
-- Which sessions a captured event names beside its own (src/capture.rs).
pub mod Named
use peekback.Activity.{FileEvent, SessionKey, Source, key_eq, operation_eq, outcome_eq, source_eq}
use peekback.Base.{
  ==_iff, Bool, Bool-cases, List, Option-cases, [], any, ap, arith, contains, contains-append,
  false, find, if◌then◌else◌, inl, inr, keep, map, nat_eq, none, not, option_eq, refl, some, str_eq,
  subst, true, ◌&&◌, ◌++◌, ◌==◌, ◌||◌, ◌∙◌, ◌∷◌, ◌≡◌,
}
use peekback.Base.Int.{
  +ℤ_parts, -ℤ_parts, i64_max, int_eq, lez, ltz, maxz, pos, saturating_add, ℤ, ◌+ℤ◌, ◌-ℤ◌,
}
use peekback.Base.Paths.{FilePath, path_eq, starts_with}
use peekback.Base.Sort.{contains-sort}
use peekback.Capture.{
  Found, TurnHistory, abandoned, add_recorded, by_agent_and_id, concurrent, covers, in_roots,
  is_recorded, mark_concurrent, marked, open_turn, overlaps, quiet_secs, recorded_turn_eq,
  slack_secs, turns, was_working,
}
use peekback.Daemon.Events.{event}
use peekback.Session.{
  Os, Session, Turn, activity_key, agent_alive, last_agent_activity, memory_dir, turn_eq,
}

contains-map-keep :
    (p : Session → Bool) (others : List Session) (k : SessionKey)
    → contains (map activity_key (keep p others)) k ≡ any (λ o. p o && activity_key o == k) others
contains-map-keep p [] k = refl
contains-map-keep p (o ∷ others) k = ground (arith, contains-map-keep p others k)

contains-snoc :
    (found : List SessionKey) (a k : SessionKey)
    → contains (found ++ a ∷ []) k ≡ (contains found k || a == k)
contains-snoc found a k = contains-append found (a ∷ []) k ∙ ground arith

contains-added :
    (b : Bool) (found : List SessionKey) (a k : SessionKey)
    → contains (if b then found ++ a ∷ [] else found) k ≡ (contains found k || b && a == k)
contains-added true found a k = contains-snoc found a k
contains-added false found a k = ground arith

-- A list that holds `a` holds `k` if they are one.
held :
    (found : List SessionKey) (a k : SessionKey)
    → contains found a ≡ true
    → (a == k) ≡ true
    → contains found k ≡ true
held found a k h e = subst (λ k. contains found k ≡ true) ((==_iff a k).0 e) h

-- The recorded turns of the session `k`, another than `key`, overlap the event.
abbrev pub recorded_overlap : SessionKey → FileEvent → SessionKey → TurnHistory → Bool
recorded_overlap key event k other =
    not (other.session == key) && overlaps event other && other.session == k

merged :
    (s o c q f r : Bool)
    → (c ≡ true → q ≡ true → f ≡ true)
    → ((f || (s && o && not c) && q) || r) ≡ (f || ((s && o && q) || r))
merged s o true true f r h = ground (arith, h refl refl)
merged s o true false f r h = ground arith
merged s o false q f r h = ground arith

contains-add_recorded :
    (key : SessionKey) (event : FileEvent) (history : List TurnHistory) (found : List SessionKey)
    (k : SessionKey)
    → contains (add_recorded key event history found) k
      ≡ (contains found k || any (recorded_overlap key event k) history)
unfolding add_recorded
contains-add_recorded key event [] found k = ground arith
contains-add_recorded key event (other ∷ history) found k =
    let b =
      not (other.session == key) && overlaps event other && not (contains found other.session) in
    contains-add_recorded key event history (if b then found ++ other.session ∷ [] else found) k
    ∙ rw (contains-added b found other.session k) (
        merged (not (other.session == key)) (overlaps event other) (contains found other.session)
          (other.session == k) (contains found k) _ (held found other.session k))

-- The live session `k` was working in the place of the event.
abbrev pub live_overlap : Os → FileEvent → List TurnHistory → ℤ → SessionKey → Session → Bool
live_overlap os event history now k other =
    (in_roots event.path other && was_working os history now event.timestamp other)
    && activity_key other == k

-- Which sessions an observation of no scratchpad names, by the tests of the code.
pub mark_concurrent_lem :
    (os : Os) (key : SessionKey) (others : List Session) (history : List TurnHistory) (now : ℤ)
    (event : FileEvent) (k : SessionKey)
    → (event.source == Source.scratchpad_scan) ≡ false
    → contains (mark_concurrent os key others history now event).concurrent k ≡ (
        any (live_overlap os event history now k) others
        || any (recorded_overlap key event k) history)
unfolding mark_concurrent concurrent
mark_concurrent_lem os key others history now event k h = rw h (
    contains-sort by_agent_and_id
      (add_recorded key event history (concurrent os event others history now)) k
    ∙ (contains-add_recorded key event history (concurrent os event others history now) k
        ∙ ap (λ b. b || any (recorded_overlap key event k) history) (contains-map-keep _ others k)))
