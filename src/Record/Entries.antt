-- ===== src/Record/Entries.antt =====
-- What the live entry keeps (src/record.rs).
use peekback.Activity.{SessionKey, key_eq, operation_eq, outcome_eq, source_eq}
use peekback.Base.{
  ==_iff, All, All-append, All-keep_of, List, Option, Option-cases, Str, [], ap, arith, false, inl,
  inr, nat_eq, none, option_eq, refl, some, some-injective, str_eq, subst, sym, ◌++◌, ◌∷◌, ◌≡◌,
}
use peekback.Base.Int.{int_eq, maxz, ℤ, ◌≤ℤ◌}
use peekback.Base.Paths.{path_eq}
use peekback.Capture.{abandoned, recorded_turn_eq, remember}
use peekback.Daemon.Actions.{place}
use peekback.Daemon.Events.{event}
use peekback.Daemon.Loop.{turn}
use peekback.Harness.{harness_eq}
use peekback.Record.{Calls, Observed, Place, Root, SessionEvent, Start, closed_turn, closes}
use peekback.Record.Handler.{
  Closing, close, from_previous, next_session, of_other_agent, record_event, remember_closed,
}
use peekback.Record.Life.{record_event-keeps}
use peekback.Session.{Os, Session, Turn, turn_eq}

abbrev pub IsTurn : Turn → Type 0
IsTurn t = t.started_at ≤ℤ t.ended_at

-- An entry of this id, whose recent turns end no earlier than they start.
abbrev pub IsEntry : Str → Option Session → Type 0
IsEntry id none = Unit
IsEntry id (some s) = (s.session_id ≡ id) × All IsTurn s.recent_turns

-- The later entry goes on with the earlier: the same agent and beginning, no earlier activity.
abbrev pub Continues : Option Session → Option Session → Type 0
Continues (some p) (some s) =
    (s.harness ≡ p.harness) × (s.started_at ≡ p.started_at) × (p.last_active_at ≤ℤ s.last_active_at)
Continues _ _ = Unit

Continues-none : (p : Option Session) → Continues p none
Continues-none none = tt
Continues-none (some p) = tt

le_refl : (a : ℤ) → a ≤ℤ a
le_refl a = omega arith

Continues-same : (p : Option Session) → Continues p p
Continues-same none = tt
Continues-same (some p) = (refl, refl, le_refl p.last_active_at)

le_maxz : (a b : ℤ) → b ≤ℤ maxz a b
le_maxz a b = ground arith

closes-IsTurn :
    (os : Os) (now : ℤ) (event : SessionEvent) (previous : Session) (started_at : ℤ) (turn : Turn)
    → closes os now event previous started_at ≡ some turn
    → IsTurn turn
unfolding abandoned
closes-IsTurn os now SessionEvent.turn_ended previous started_at turn h =
    subst IsTurn (some-injective h) (le_maxz now started_at)
closes-IsTurn os now SessionEvent.prompt_submitted previous started_at turn h =
    subst IsTurn (some-injective h) (le_maxz _ started_at)
closes-IsTurn os now (SessionEvent.session_started Start.fresh_start) previous started_at turn h =
    subst IsTurn (some-injective h) (le_maxz _ started_at)
closes-IsTurn os now SessionEvent.session_ended previous started_at turn h =
    subst IsTurn (some-injective h) (le_maxz _ started_at)
closes-IsTurn os now (SessionEvent.session_started Start.compaction) previous started_at turn h =
    absurd (ground arith)
closes-IsTurn os now (SessionEvent.tool_used es) previous started_at turn h = absurd (ground arith)

closed_turn-IsTurn :
    (os : Os) (now : ℤ) (event : SessionEvent) (previous : Option Session) (turn : Turn)
    → closed_turn os now event previous ≡ some turn
    → IsTurn turn
unfolding closed_turn
closed_turn-IsTurn os now event none turn = λ h. absurd (ground arith)
closed_turn-IsTurn os now event (some previous) turn =
    elim (Option-cases previous.turn_started_at) [
      | inl n ↦ rw (n, closed_turn) (λ h. absurd (ground arith))
      | inr (started_at, e) ↦
          rw (e, closed_turn) (closes-IsTurn os now event previous started_at turn)
    ]

remember-IsTurn :
    (recent : List Turn) (closed : Turn)
    → All IsTurn recent
    → IsTurn closed
    → All IsTurn (remember recent closed)
unfolding remember
remember-IsTurn recent closed h k =
    All-keep_of IsTurn _ (recent ++ closed ∷ []) (All-append IsTurn recent (closed ∷ []) h (k, tt))

remember_closed-IsTurn :
    (closed : Option Turn) (recent : List Turn)
    → All IsTurn recent
    → ((turn : Turn) → closed ≡ some turn → IsTurn turn)
    → All IsTurn (remember_closed closed recent)
remember_closed-IsTurn none recent h k = h
remember_closed-IsTurn (some turn) recent h k = remember-IsTurn recent turn h (k turn refl)

recent_of :
    (id : Str) (previous : Option Session)
    → IsEntry id previous
    → All IsTurn (from_previous previous [] (λ s. s.recent_turns))
recent_of id none h = tt
recent_of id (some previous) h = h.1

next_session-IsEntry :
    (calls : Calls) (o : Observed) (place : Place) (c : Closing) (incarnation : Str)
    → IsEntry o.session_id c.previous
    → ((turn : Turn) → c.closed ≡ some turn → IsTurn turn)
    → IsEntry o.session_id (some (next_session calls o place c incarnation))
unfolding next_session
next_session-IsEntry calls o place c incarnation h k =
    (refl, remember_closed-IsTurn c.closed _ (recent_of o.session_id c.previous h) k)

next_session-Continues :
    (calls : Calls) (o : Observed) (place : Place) (c : Closing) (incarnation : Str)
    (previous : Option Session)
    → of_other_agent o.harness previous ≡ false
    → c.previous ≡ previous
    → Continues previous (some (next_session calls o place c incarnation))
unfolding next_session
next_session-Continues calls o place c incarnation none h e = tt
next_session-Continues calls o place c incarnation (some p) h e = (
  sym ((==_iff p.harness o.harness).0 (ground (arith, h))),
  ap (λ x. from_previous x calls.now (λ s. s.started_at)) e,
  subst (λ x. p.last_active_at ≤ℤ from_previous x calls.now (λ s. maxz calls.now s.last_active_at))
      (sym e) (le_maxz calls.now p.last_active_at),
)

close-previous :
    (calls : Calls) (o : Observed) (root : Root) → (close calls o root).1.previous ≡ root.entry
unfolding close
close-previous calls o root = refl

close-closed :
    (calls : Calls) (o : Observed) (root : Root) (turn : Turn)
    → (close calls o root).1.closed ≡ some turn
    → IsTurn turn
unfolding close
close-closed calls o root turn h =
    closed_turn-IsTurn calls.found.os calls.now o.event root.entry turn h

-- Every event leaves no live entry or one of its id, whose recent turns end no earlier than they
-- start, if that held before; and an entry that it leaves where one was has the agent and the
-- beginning of that one, and no earlier activity.
pub record_event-IsEntry :
    (calls : Calls) (o : Observed) (root : Root)
    → IsEntry o.session_id root.entry
    → IsEntry o.session_id (record_event calls o root).0.entry
      × Continues root.entry (record_event calls o root).0.entry
record_event-IsEntry calls o root h =
    let P : Option Session → List SessionKey → Type 0 =
      λ e m. IsEntry o.session_id e × Continues root.entry e in
    record_event-keeps calls o root P
      (λ same. record {
        marked = λ e m y p. p;
        removed = λ e m y p. (tt, Continues-none root.entry);
        published = λ e m place incarnation y p. (
          next_session-IsEntry calls o place (close calls o root).1 incarnation
              (subst (IsEntry o.session_id) (sym (close-previous calls o root)) h)
              (close-closed calls o root),
          next_session-Continues calls o place (close calls o root).1 incarnation root.entry same
              (close-previous calls o root),
        );
        cleared = λ e m y p. p;
      })
      (h, Continues-same root.entry)
