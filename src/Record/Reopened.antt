-- ===== src/Record/Reopened.antt =====
-- A session that has ended (src/record.rs).
use peekback.Activity.{SessionKey, key_eq, operation_eq, outcome_eq, source_eq, validate}
use peekback.Base.{
  ==_iff, Bool-cases, List, Option, Result, Result-cases, ap, arith, contains, err, false, inl, inr,
  nat_eq, none, ok, option_eq, refl, str_eq, subst, sym, true, ◌∙◌, ◌∷◌, ◌≡◌, ◌⊎◌,
}
use peekback.Base.Int.{int_eq}
use peekback.Base.Paths.{path_eq}
use peekback.Capture.Jobs.{Write, write_result, write_state}
use peekback.Harness.{harness_eq, key}
use peekback.Record.{
  Calls, Observed, Root, end_session, ends_session, is_ended, is_starting, mark_ended, remove_entry,
  retry_queue, unless_failed,
}
use peekback.Record.Handler.{
  Closing, close, of_other_agent, record_closing, record_end, record_event,
}
use peekback.Record.Life.{Rules, begins, record_event-keeps, without_job-SameLife}
use peekback.Session.{Session, turn_eq}

abbrev Over : SessionKey → Option Session → Option Session → List SessionKey → Type 0
Over k before e m = (contains m k ≡ true) × ((e ≡ before) ⊎ (e ≡ none))

marked_head : (k : SessionKey) (m : List SessionKey) → contains (k ∷ m) k ≡ true
marked_head k m = rw ((==_iff k k).1 refl) refl

Over-Rules :
    (calls : Calls) (o : Observed) (k : SessionKey) (c : Closing) (before : Option Session)
    → is_starting o.event ≡ false
    → Rules calls o k c (Over k before)
Over-Rules calls o k c before n = record {
  marked = λ e m y h. (marked_head k m, h.1);
  removed = λ e m y h. (h.0, inr refl);
  published = λ e m place incarnation y h. absurd (ground (arith, y, n, h.0));
  cleared = λ e m y h. absurd (ground (arith, y, n));
}

-- Once a session has ended, an event that starts no session leaves the end marker, and no live entry
-- but the one that was there.
pub record_event_over :
    (calls : Calls) (o : Observed) (root : Root)
    → is_starting o.event ≡ false
    → is_ended root (key o.harness o.session_id) ≡ true
    → (is_ended (record_event calls o root).0 (key o.harness o.session_id) ≡ true)
      × (((record_event calls o root).0.entry ≡ root.entry)
          ⊎ ((record_event calls o root).0.entry ≡ none))
record_event_over calls o root n h =
    let k = key o.harness o.session_id in
    record_event-keeps calls o root (Over k root.entry)
      (λ same. Over-Rules calls o k (close calls o root).1 root.entry n) (h, inl refl)

-- A chain of steps that reports no error took every step.
unless_failed-ok :
    (r : Root × Result (Unit {0})) (f : Root → Root × Result (Unit {0}))
    → (unless_failed r f).1 ≡ ok tt
    → (r.1 ≡ ok tt) × ((f r.0).1 ≡ ok tt) × (unless_failed r f ≡ f r.0)
unless_failed-ok (r, ok a) f h = (refl, h, refl)
unless_failed-ok (r, err e) f h = absurd (ground arith)

-- The session has no live entry, and its end is marked.
abbrev pub Ended : SessionKey → Root → Type 0
Ended k r = (r.entry ≡ none) × (is_ended r k ≡ true)

written_ok :
    {A : Type 0} (write : Write) (old update : A)
    → write_result write ≡ ok tt
    → write_state write old update ≡ update
written_ok Write.written old update h = refl
written_ok (Write.failed_before e) old update h = absurd (ground arith)
written_ok (Write.failed_after e) old update h = absurd (ground arith)

mark_ended_ok :
    (write : Write) (k : SessionKey) (r : Root)
    → (mark_ended write k r).1 ≡ ok tt
    → is_ended (mark_ended write k r).0 k ≡ true
unfolding mark_ended
mark_ended_ok write k r = elim (Result-cases (validate k)) [
  | inl (a, e) ↦
      rw (e, mark_ended)
        (λ h. let w = written_ok write r.ended (k ∷ r.ended) h in rw w (marked_head k r.ended))
  | inr (e, q) ↦ rw (q, mark_ended) (λ h. absurd (ground arith))
]

end_session_ok :
    (mark removal : Write) (k : SessionKey) (r : Root)
    → (end_session mark removal k r).1 ≡ ok tt
    → Ended k (end_session mark removal k r).0
unfolding end_session
end_session_ok mark removal k r h =
    let (m, f, e) = unless_failed-ok (mark_ended mark k r) (remove_entry removal) h in
    let marked = (mark_ended mark k r).0 in
    subst (λ (t : Root × Result (Unit {0})). Ended k t.0) (sym e)
      (written_ok removal marked.entry none f, mark_ended_ok mark k r m)

record_end_ok :
    (calls : Calls) (k : SessionKey) (c : Closing) (r : Root)
    → (record_end calls k c r).1 ≡ ok tt
    → Ended k (record_end calls k c r).0
unfolding record_end
record_end_ok calls k c r h =
    let (m, f, e) = unless_failed-ok (mark_ended calls.mark k r) _ h in
    let retried = (retry_queue calls k (mark_ended calls.mark k r).0).0 in
    let ended = end_session calls.mark_again calls.removal k retried in
    let (n, g, d) = unless_failed-ok ended _ f in
    let same = without_job-SameLife calls c.queued c.context c.closed ended.0 in
    let over = end_session_ok calls.mark_again calls.removal k retried n in
    subst (λ (t : Root × Result (Unit {0})). Ended k t.0) (sym (e ∙ d))
      (same.0 ∙ over.0, ap (λ m. contains m k) same.1 ∙ over.1)

record_closing-Ended :
    (calls : Calls) (o : Observed) (k : SessionKey) (c : Closing) (r : Root)
    → ends_session o.event ≡ true
    → (record_closing calls o k c r).1 ≡ ok tt
    → Ended k (record_closing calls o k c r).0
unfolding record_closing
record_closing-Ended calls o k c r y = rw (y, record_closing) (record_end_ok calls k c r)

-- A session's end that reports no error leaves no live entry, and leaves the session marked as ended.
pub record_event-Ended :
    (calls : Calls) (o : Observed) (root : Root)
    → ends_session o.event ≡ true
    → (record_event calls o root).1 ≡ ok tt
    → Ended (key o.harness o.session_id) (record_event calls o root).0
unfolding record_event
record_event-Ended calls o root y = elim (Result-cases (begins calls o)) [
  | inr (e, q) ↦ rw (q, record_event) (λ h. absurd (ground arith))
  | inl (a, e) ↦ elim (Bool-cases (of_other_agent o.harness root.entry)) [
    | inl other ↦ rw (e, record_event, other) (λ h. absurd (ground arith))
    | inr same ↦
        rw (e, record_event, same)
          (record_closing-Ended calls o (key o.harness o.session_id) (close calls o root).1
            (close calls o root).0 y)
  ]
]
