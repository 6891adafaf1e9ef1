-- ===== src/Record/Life.antt =====
-- How an event changes the live entry and the end markers, step by step (src/record.rs).
use peekback.Activity.{SessionKey, key_eq, operation_eq, outcome_eq, source_eq, valid_id, validate}
use peekback.Base.{
  Bool-cases, Error, List, Option, Result, Result-cases, Str, contains, either_branch, ensure, err,
  false, inl, inr, keep, nat_eq, none, not, ok, option_eq, refl, some, str_eq, subst, sym, true,
  ◌&&◌, ◌==◌, ◌>>◌, ◌||◌, ◌∙◌, ◌∷◌, ◌≡◌,
}
use peekback.Base.Int.{int_eq}
use peekback.Base.Paths.{path_eq}
use peekback.Capture.Jobs.{Write, write_state}
use peekback.Harness.{harness_eq, key}
use peekback.Record.{
  Calls, Observed, Place, Root, SessionEvent, capture_context, closed_turn, end_session,
  ends_session, ends_turn, has_value, is_ended, is_starting, mark_ended, queue_job, remove_entry,
  resume, retry_queue, save_turns, unless_failed, without_job,
}
use peekback.Record.Handler.{
  Closing, after_publish, capture_unqueued, close, incarnation_of, is_none, is_tool, next_session,
  of_other_agent, publish_entry, queue_first, record_closing, record_end, record_event, record_open,
  record_place, record_session, reopen, store_tools, write_entry,
}
use peekback.Session.{Session, Turn, turn_eq}

-- The steps of one hook that change the entry or the markers, each where the hook takes it.
pub record Rules (calls : Calls) (o : Observed) (k : SessionKey) (c : Closing)
    (P : Option Session → List SessionKey → Type 0) : Type 0 where
  pub marked :
      (e : Option Session) (m : List SessionKey) → ends_session o.event ≡ true → P e m → P e (k ∷ m)
  pub removed :
      (e : Option Session) (m : List SessionKey) → ends_session o.event ≡ true → P e m → P none m
  pub published :
      (e : Option Session) (m : List SessionKey) (place : Place) (incarnation : Str)
      → (not (is_starting o.event) && contains m k) ≡ false
      → P e m
      → P (some (next_session calls o place c incarnation)) m
  pub cleared :
      (e : Option Session) (m : List SessionKey)
      → is_starting o.event ≡ true
      → P e m
      → P e (keep (λ j. not (j == k)) m)

-- The entry and the markers stay.
abbrev pub SameLife : Root → Root → Type 0
SameLife r s = (s.entry ≡ r.entry) × (s.ended ≡ r.ended)

queue_job-SameLife :
    (calls : Calls) (context : Option Session) (closed : Option Turn) (root : Root)
    → SameLife root (queue_job calls context closed root).0
unfolding queue_job
queue_job-SameLife calls none closed root = (refl, refl)
queue_job-SameLife calls (some context) closed root = (refl, refl)

save_turns-SameLife :
    (calls : Calls) (event : SessionEvent) (closed : Option Turn) (previous : Option Session)
    (root : Root)
    → SameLife root (save_turns calls event closed previous root).0
unfolding save_turns
save_turns-SameLife calls event closed none root = (refl, refl)
save_turns-SameLife calls event closed (some previous) root =
    either_branch (λ (r : Root × Result (Unit {0})). SameLife root r.0)
      (has_value closed || ends_session event) _ _ (λ h. (refl, refl)) (λ h. (refl, refl))

pub without_job-SameLife :
    (calls : Calls) (queued : Result (Unit {0})) (context : Option Session) (closed : Option Turn)
    (root : Root)
    → SameLife root (without_job calls queued context closed root)
unfolding without_job
without_job-SameLife calls (err e) (some context) closed root = (refl, refl)
without_job-SameLife calls (err e) none closed root = (refl, refl)
without_job-SameLife calls (ok a) none closed root = (refl, refl)
without_job-SameLife calls (ok a) (some context) closed root = (refl, refl)

store_tools-SameLife :
    (calls : Calls) (event : SessionEvent) (session : Session) (root : Root)
    → SameLife root (store_tools calls event session root).0
unfolding store_tools
store_tools-SameLife calls (SessionEvent.tool_used es) session root = (refl, refl)
store_tools-SameLife calls (SessionEvent.session_started start) session root = (refl, refl)
store_tools-SameLife calls SessionEvent.prompt_submitted session root = (refl, refl)
store_tools-SameLife calls SessionEvent.turn_ended session root = (refl, refl)
store_tools-SameLife calls SessionEvent.session_ended session root = (refl, refl)

queue_first-SameLife :
    (calls : Calls) (event : SessionEvent) (previous : Option Session) (session : Session)
    (root : Root)
    → SameLife root (queue_first calls event previous session root).0
unfolding queue_first
queue_first-SameLife calls event previous session root =
    either_branch (λ (r : Root × Result (Unit {0})). SameLife root r.0)
      (ends_turn event && is_none previous) _ _ (λ h. (refl, refl)) (λ h. (refl, refl))

module _ (calls : Calls) (o : Observed) (k : SessionKey) (c : Closing)
    (P : Option Session → List SessionKey → Type 0) (rules : Rules calls o k c P) where
  abbrev Alive : Root → Type 0
  Alive r = P r.entry r.ended

  Alive-SameLife : (r s : Root) → SameLife r s → Alive r → Alive s
  Alive-SameLife r s (e, m) h = subst (λ x. P x s.ended) (sym e) (subst (P r.entry) (sym m) h)

  Alive-unless_failed :
      (r : Root × Result (Unit {0})) (f : Root → Root × Result (Unit {0}))
      → Alive r.0
      → ((s : Root) → Alive s → Alive (f s).0)
      → Alive (unless_failed r f).0
  Alive-unless_failed (r, ok a) f h g = g r h
  Alive-unless_failed (r, err e) f h g = h

  Alive-unless_at :
      (r : Root × Result (Unit {0})) (f : Root → Root × Result (Unit {0}))
      → Alive r.0
      → Alive (f r.0).0
      → Alive (unless_failed r f).0
  Alive-unless_at (r, ok a) f h g = g
  Alive-unless_at (r, err e) f h g = h

  Alive-unqueued : (r : Root) → Alive r → Alive (capture_unqueued calls c r)
  Alive-unqueued r h =
      Alive-SameLife r (capture_unqueued calls c r)
        (without_job-SameLife calls c.queued c.context c.closed r) h

  Alive-retry_queue : (r : Root) → Alive r → Alive (retry_queue calls k r).0
  unfolding retry_queue
  Alive-retry_queue r h = h

  write_both :
      (Q : Option Session → List SessionKey → Type 0) (write : Write) (e f : Option Session)
      (m : List SessionKey)
      → Q e m
      → Q f m
      → Q (write_state write e f) m
  write_both Q Write.written e f m h i = i
  write_both Q (Write.failed_before x) e f m h i = h
  write_both Q (Write.failed_after x) e f m h i = i

  write_marks :
      (write : Write) (e : Option Session) (m n : List SessionKey)
      → P e m
      → P e n
      → P e (write_state write m n)
  write_marks Write.written e m n h i = i
  write_marks (Write.failed_before x) e m n h i = h
  write_marks (Write.failed_after x) e m n h i = i

  Alive-mark_ended :
      (write : Write) (r : Root)
      → ends_session o.event ≡ true
      → Alive r
      → Alive (mark_ended write k r).0
  unfolding mark_ended
  Alive-mark_ended write r y h = elim (Result-cases (validate k)) [
    | inl (a, e) ↦
        rw (e, mark_ended)
          (write_marks write r.entry r.ended (k ∷ r.ended) h (rules.marked _ _ y h))
    | inr (e, q) ↦ rw (q, mark_ended) h
  ]

  Alive-end_session :
      (mark removal : Write) (r : Root)
      → ends_session o.event ≡ true
      → Alive r
      → Alive (end_session mark removal k r).0
  unfolding end_session
  Alive-end_session mark removal r y h =
      Alive-unless_failed (mark_ended mark k r) (remove_entry removal) (Alive-mark_ended mark r y h)
        (λ s i. write_both P removal s.entry none s.ended i (rules.removed _ _ y i))

  Alive-record_end :
      (r : Root) → ends_session o.event ≡ true → Alive r → Alive (record_end calls k c r).0
  unfolding record_end
  Alive-record_end r y h =
      Alive-unless_failed (mark_ended calls.mark k r) _ (Alive-mark_ended calls.mark r y h) (λ s i.
        Alive-unless_failed (end_session calls.mark_again calls.removal k (retry_queue calls k s).0)
          _
          (Alive-end_session calls.mark_again calls.removal (retry_queue calls k s).0 y
            (Alive-retry_queue s i))
          (λ t j. Alive-unqueued t j))

  Alive-reopen : (r : Root) → Alive r → Alive (reopen calls o.event k r).0
  unfolding reopen resume
  Alive-reopen r h =
      either_branch (λ (t : Root × Result (Unit {0})). Alive t.0) (is_starting o.event)
        (resume calls.clear k r) (r, ok tt)
        (λ starting. write_marks calls.clear r.entry r.ended _ h (rules.cleared _ _ starting h))
        (λ other. h)

  Alive-publish_entry :
      (place : Place) (incarnation : Str) (r : Root)
      → (not (is_starting o.event) && contains r.ended k) ≡ false
      → Alive r
      → Alive (publish_entry calls o.event k (next_session calls o place c incarnation) r).0
  unfolding publish_entry
  Alive-publish_entry place incarnation r y h =
      let session = next_session calls o place c incarnation in
      Alive-unless_failed (write_entry calls.publish session r) (reopen calls o.event k)
        (write_both P calls.publish r.entry (some session) r.ended h
          (rules.published _ _ place incarnation y h))
        Alive-reopen

  Alive-after_publish : (r : Root) → Alive r → Alive (after_publish calls o.event k c r).0
  unfolding after_publish
  Alive-after_publish r h =
      let unqueued = Alive-unqueued r h in
      either_branch (λ (t : Root × Result (Unit {0})). Alive t.0) (is_tool o.event) _ _
        (λ tool. unqueued) (λ other. Alive-retry_queue (capture_unqueued calls c r) unqueued)

  Alive-record_open :
      (place : Place) (incarnation : Str) (r : Root)
      → (not (is_starting o.event) && contains r.ended k) ≡ false
      → Alive r
      → Alive (record_open calls o k c (next_session calls o place c incarnation) r).0
  unfolding record_open
  Alive-record_open place incarnation r y h =
      let session = next_session calls o place c incarnation in
      let same = queue_first-SameLife calls o.event c.previous session r in
      let queued = (queue_first calls o.event c.previous session r).0 in
      let goes : (not (is_starting o.event) && contains queued.ended k) ≡ false =
        subst (λ m. (not (is_starting o.event) && contains m k) ≡ false) (sym same.1) y in
      let alive = Alive-SameLife r queued same h in
      Alive-unless_at (queue_first calls o.event c.previous session r) _ alive (
        Alive-unless_failed (publish_entry calls o.event k session queued)
          (after_publish calls o.event k c)
          (Alive-publish_entry place incarnation queued goes alive) Alive-after_publish)

  Alive-record_session :
      (place : Place) (incarnation : Str) (r : Root)
      → Alive r
      → Alive (record_session calls o k c (next_session calls o place c incarnation) r).0
  unfolding record_session
  Alive-record_session place incarnation r h =
      let session = next_session calls o place c incarnation in
      Alive-unless_failed (store_tools calls o.event session r) _
        (Alive-SameLife r (store_tools calls o.event session r).0
          (store_tools-SameLife calls o.event session r) h)
        (λ s i.
          either_branch (λ (t : Root × Result (Unit {0})). Alive t.0)
            (not (is_starting o.event) && is_ended s k) (capture_unqueued calls c s, c.queued)
            (record_open calls o k c session s) (λ over. Alive-unqueued s i)
            (λ goes. Alive-record_open place incarnation s goes i))

  Alive-record_place :
      (place : Option Place) (r : Root) → Alive r → Alive (record_place calls o k c place r).0
  unfolding record_place
  Alive-record_place none r h = Alive-unqueued r h
  Alive-record_place (some place) r h =
      elim (Result-cases (incarnation_of calls o.event c.previous)) [
        | inl (incarnation, e) ↦ rw (e, record_place) (Alive-record_session place incarnation r h)
        | inr (e, q) ↦ rw (q, record_place) h
      ]

  Alive-record_closing : (r : Root) → Alive r → Alive (record_closing calls o k c r).0
  unfolding record_closing
  Alive-record_closing r h =
      either_branch (λ (t : Root × Result (Unit {0})). Alive t.0) (ends_session o.event)
        (record_end calls k c r) (record_place calls o k c o.place r) (λ y. Alive-record_end r y h)
        (λ n. Alive-record_place o.place r h)

close-SameLife : (calls : Calls) (o : Observed) (root : Root) → SameLife root (close calls o root).0
unfolding close
close-SameLife calls o root =
    let closed = closed_turn calls.found.os calls.now o.event root.entry in
    let context = capture_context o.event o.place closed root.entry in
    let a = queue_job-SameLife calls context closed root in
    let b =
      save_turns-SameLife calls o.event closed root.entry (queue_job calls context closed root).0 in
    (b.0 ∙ a.0, b.1 ∙ a.1)

-- What a hook that may change anything begins with.
abbrev pub begins : Calls → Observed → Result (Unit {0})
begins calls o = do ensure (valid_id o.session_id) Error.invalid_session_id; calls.locked

-- What the steps of a hook keep of the entry and the markers, the hook keeps.
pub record_event-keeps :
    (calls : Calls) (o : Observed) (root : Root) (P : Option Session → List SessionKey → Type 0)
    → (of_other_agent o.harness root.entry ≡ false
        → Rules calls o (key o.harness o.session_id) (close calls o root).1 P)
    → P root.entry root.ended
    → P (record_event calls o root).0.entry (record_event calls o root).0.ended
unfolding record_event
record_event-keeps calls o root P rules h = elim (Result-cases (begins calls o)) [
  | inr (e, q) ↦ rw (q, record_event) h
  | inl (a, e) ↦ elim (Bool-cases (of_other_agent o.harness root.entry)) [
    | inl other ↦ rw (e, record_event, other) h
    | inr same ↦
        let k = key o.harness o.session_id in
        let c = (close calls o root).1 in
        rw (e, record_event, same)
          (Alive-record_closing calls o k c P (rules same) (close calls o root).0 (
            Alive-SameLife calls o k c P (rules same) root (close calls o root).0
              (close-SameLife calls o root) h))
  ]
]
