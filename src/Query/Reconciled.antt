-- ===== src/Query/Reconciled.antt =====
-- `reconcile` as a whole (crates/session-activity/src/query.rs).
use peekback.Activity.{
  FileEvent, Outcome, Outcome_discrete, key_eq, operation_eq, outcome_eq, source_eq,
}
use peekback.Base.{
  ==_iff, All, All-map, Bool, Bool-cases, List, Option, [], ap, arith, contains, false, inl, inr,
  keep, nat_eq, none, not, option_discrete, option_eq, refl, some, str_eq, subst, sym, true, ◌&&◌,
  ◌==◌, ◌∙◌, ◌∷◌, ◌≡◌, ◌⊎◌,
}
use peekback.Base.Int.{int_eq}
use peekback.Base.Paths.{path_eq}
use peekback.Query.{
  Evidence, Observation, OutcomeSets, elements, evidence, evidence_eq, is_known, no_outcomes,
  note_outcomes, observation, observation_eq, reconcile, reconcile_from, settle,
}
use peekback.Query.Settled.{
  CoveredBy, evidence-settle, heard, note_outcomes_lem, note_outcomes_unknown,
  reconcile_from-CoveredBy, reported, reported-reconcile_from, settled_again, step_cases,
}

elements_same :
    (set other : Outcome → Bool) → ((o : Outcome) → set o ≡ other o) → elements set ≡ elements other
elements_same set other h = rw (h Outcome.succeeded, h Outcome.failed, h Outcome.unknown) refl

known_or_not : (o : Outcome) → (is_known o ≡ true) ⊎ (o ≡ Outcome.unknown)
unfolding Outcome_discrete
known_or_not Outcome.succeeded = inl refl
known_or_not Outcome.failed = inl refl
known_or_not Outcome.unknown = inr refl

sets_lem :
    (es : List FileEvent) (key : Evidence) (o : Outcome)
    → is_known o ≡ true
    → note_outcomes no_outcomes es key o ≡ reported key o es
sets_lem es key o h = note_outcomes_lem no_outcomes es key o h ∙ ground arith

sets-CoveredBy : (es : List FileEvent) → CoveredBy (note_outcomes no_outcomes es) es
sets-CoveredBy es key o n r = sets_lem es key o n ∙ r

same_truth : (a b : Bool) → (a ≡ true → b ≡ true) → (b ≡ true → a ≡ true) → a ≡ b
same_truth true b f g = sym (f refl)
same_truth false true f g = g refl
same_truth false false f g = refl

reported-reconcile :
    (es : List FileEvent) (key : Evidence) (o : Outcome)
    → is_known o ≡ true
    → reported key o (reconcile es) ≡ reported key o es
unfolding reconcile heard
reported-reconcile es key o n =
    let sets = note_outcomes no_outcomes es in
    let fewer = reconcile_from-CoveredBy sets [] es (sets-CoveredBy es) key o n in
    let more = reported-reconcile_from sets [] es key o n in
    let e = sets_lem es key o n in
    same_truth _ _ (λ h. sym e ∙ fewer h) (λ h. ground (arith, more h))

sets-reconcile :
    (es : List FileEvent) (key : Evidence) (o : Outcome)
    → note_outcomes no_outcomes es key o ≡ note_outcomes no_outcomes (reconcile es) key o
sets-reconcile es key o = elim (known_or_not o) [
  | inl n ↦
      sets_lem es key o n ∙ sym (sets_lem (reconcile es) key o n ∙ reported-reconcile es key o n)
  | inr u ↦
      let a = note_outcomes_unknown no_outcomes es key in
      let b = note_outcomes_unknown no_outcomes (reconcile es) key in rw u (a ∙ sym b)
]

settle_again :
    (sets other : OutcomeSets) (key : Evidence) (e : FileEvent)
    → elements (sets key) ≡ elements (other key)
    → settle other key (settle sets key e) ≡ settle sets key e
unfolding settle
settle_again sets other key e h =
    ap (λ o. record e { outcome = o }) (settled_again (sets key) (other key) e.outcome h)

reconcile_from_kept :
    (sets : OutcomeSets) (seen : List Observation) (f : FileEvent) (es : List FileEvent)
    (key : Evidence)
    → evidence f ≡ some key
    → settle sets key f ≡ f
    → contains seen (observation key f) ≡ false
    → reconcile_from sets seen (f ∷ es) ≡ f ∷ reconcile_from sets (observation key f ∷ seen) es
unfolding reconcile_from
reconcile_from_kept sets seen f es key h same c =
    let c' = subst (λ g. contains seen (observation key g) ≡ false) (sym same) c in
    subst
      (λ g.
        reconcile_from sets seen (f ∷ es) ≡ g ∷ reconcile_from sets (observation key g ∷ seen) es)
      same (rw (h, c', reconcile_from) refl)

reconcile_from_unidentified :
    (sets : OutcomeSets) (seen : List Observation) (f : FileEvent) (es : List FileEvent)
    → evidence f ≡ none
    → reconcile_from sets seen (f ∷ es) ≡ f ∷ reconcile_from sets seen es
unfolding reconcile_from
reconcile_from_unidentified sets seen f es h = rw (h, reconcile_from) refl

reconcile_from_again :
    (sets other : OutcomeSets)
    (same : (key : Evidence) → elements (sets key) ≡ elements (other key)) (seen : List Observation)
    (es : List FileEvent)
    → reconcile_from other seen (reconcile_from sets seen es) ≡ reconcile_from sets seen es
unfolding reconcile_from
reconcile_from_again sets other same seen [] = refl
reconcile_from_again sets other same seen (e ∷ es) = elim (step_cases sets seen e es) [
  | inl (n, q) ↦ rw q (
      reconcile_from_unidentified other seen e _ n
      ∙ ap (◌∷◌ e) (reconcile_from_again sets other same seen es))
  | inr (key, p, inl (c, q)) ↦ rw q (reconcile_from_again sets other same seen es)
  | inr (key, p, inr (c, q)) ↦ rw q (
      reconcile_from_kept other seen (settle sets key e) _ key (evidence-settle sets key e ∙ p)
        (settle_again sets other key e (same key)) c
      ∙ ap (◌∷◌ (settle sets key e))
          (reconcile_from_again sets other same (observation key (settle sets key e) ∷ seen) es))
]

-- Reconciling a reconciled history changes nothing.
pub reconcile_idempotent : (es : List FileEvent) → reconcile (reconcile es) ≡ reconcile es
unfolding reconcile
reconcile_idempotent es =
    reconcile_from_again (note_outcomes no_outcomes es) (note_outcomes no_outcomes (reconcile es))
      (λ key. elements_same _ _ (sets-reconcile es key)) [] es

-- No later event repeats the tool use, the source and the outcome of an earlier one.
abbrev pub repeats : FileEvent → FileEvent → Bool
repeats e f =
    not (evidence e == none)
    && evidence e == evidence f
    && e.source == f.source
    && e.outcome == f.outcome

abbrev pub NoRepeats : List FileEvent → Type 0
NoRepeats [] = Unit
NoRepeats (e ∷ es) = All (λ f. repeats e f ≡ false) es × NoRepeats es

-- The event does not show what has been seen.
abbrev unseen_at : List Observation → Option Evidence → FileEvent → Bool
unseen_at seen none e = true
unseen_at seen (some key) e = not (contains seen (observation key e))

abbrev unseen : List Observation → FileEvent → Bool
unseen seen e = unseen_at seen (evidence e) e

unseen_at-cons :
    (seen : List Observation) (t : Observation) (at : Option Evidence) (e : FileEvent)
    → unseen_at (t ∷ seen) at e ≡ true
    → unseen_at seen at e ≡ true
unseen_at-cons seen t none e h = refl
unseen_at-cons seen t (some key) e h = ground arith

unseen_head :
    (seen : List Observation) (key : Evidence) (e : FileEvent)
    → not (contains (observation key e ∷ seen) (observation key e)) ≡ false
unseen_head seen key e = rw ((==_iff (observation key e) (observation key e)).1 refl) refl

repeats_parts :
    (e f : FileEvent)
    → repeats e f ≡ true
    → (evidence e ≡ evidence f) × (e.source ≡ f.source) × (e.outcome ≡ f.outcome)
repeats_parts e f h = (
  (==_iff (evidence e) (evidence f)).0 (ground arith),
  (==_iff e.source f.source).0 (ground arith),
  (==_iff e.outcome f.outcome).0 (ground arith),
)

repeats-unseen :
    (seen : List Observation) (key : Evidence) (e f : FileEvent)
    → evidence e ≡ some key
    → unseen (observation key e ∷ seen) f ≡ true
    → repeats e f ≡ false
repeats-unseen seen key e f p h = elim (Bool-cases (repeats e f)) [
  | inr n ↦ n
  | inl y ↦
      let (a, b, c) = repeats_parts e f y in
      let at : evidence f ≡ some key = sym a ∙ p in
      let k = subst (λ o. unseen_at (observation key e ∷ seen) o f ≡ true) at h in
      let same : observation key f ≡ observation key e = cc in
      absurd (ground (arith, unseen_head seen key e))
]

unidentified-repeats :
    (e : FileEvent) (fs : List FileEvent) → evidence e ≡ none → All (λ f. repeats e f ≡ false) fs
unfolding option_discrete
unidentified-repeats e [] h = tt
unidentified-repeats e (f ∷ fs) h = (rw h refl, unidentified-repeats e fs h)

-- A list that shows nothing seen and repeats nothing.
abbrev Fresh : List Observation → List FileEvent → Type 0
Fresh seen es = All (λ e. unseen seen e ≡ true) es × NoRepeats es

Fresh-unidentified :
    (seen : List Observation) (e : FileEvent) (es : List FileEvent)
    → evidence e ≡ none
    → Fresh seen es
    → Fresh seen (e ∷ es)
Fresh-unidentified seen e es n h =
    ((subst (λ o. unseen_at seen o e ≡ true) (sym n) refl, h.0), (unidentified-repeats e es n, h.1))

Fresh-kept :
    (seen : List Observation) (key : Evidence) (e : FileEvent) (es : List FileEvent)
    → evidence e ≡ some key
    → contains seen (observation key e) ≡ false
    → Fresh (observation key e ∷ seen) es
    → Fresh seen (e ∷ es)
Fresh-kept seen key e es p c h = (
  (
    subst (λ o. unseen_at seen o e ≡ true) (sym p) (ground (arith, c)),
    All-map {P = λ f. unseen (observation key e ∷ seen) f ≡ true}
        (λ f. unseen_at-cons seen (observation key e) (evidence f) f) es h.0,
  ),
  (
    All-map {P = λ f. unseen (observation key e ∷ seen) f ≡ true}
        (λ f. repeats-unseen seen key e f p) es h.0,
    h.1,
  ),
)

NoRepeats-reconcile_from :
    (sets : OutcomeSets) (seen : List Observation) (es : List FileEvent)
    → Fresh seen (reconcile_from sets seen es)
unfolding reconcile_from
NoRepeats-reconcile_from sets seen [] = (tt, tt)
NoRepeats-reconcile_from sets seen (e ∷ es) = elim (step_cases sets seen e es) [
  | inl (n, q) ↦
      subst (Fresh seen) (sym q)
        (Fresh-unidentified seen e _ n (NoRepeats-reconcile_from sets seen es))
  | inr (key, p, inl (c, q)) ↦ subst (Fresh seen) (sym q) (NoRepeats-reconcile_from sets seen es)
  | inr (key, p, inr (c, q)) ↦ subst (Fresh seen) (sym q) (
      Fresh-kept seen key (settle sets key e) _ (evidence-settle sets key e ∙ p) c
        (NoRepeats-reconcile_from sets (observation key (settle sets key e) ∷ seen) es))
]

abbrev pub unidentified : FileEvent → Bool
unidentified e = evidence e == none

identified : (e : FileEvent) (key : Evidence) → evidence e ≡ some key → unidentified e ≡ false
unfolding option_discrete
identified e key h = rw h refl

unidentified-reconcile_from :
    (sets : OutcomeSets) (seen : List Observation) (es : List FileEvent)
    → keep unidentified (reconcile_from sets seen es) ≡ keep unidentified es
unfolding reconcile_from
unidentified-reconcile_from sets seen [] = refl
unidentified-reconcile_from sets seen (e ∷ es) = elim (step_cases sets seen e es) [
  | inl (n, q) ↦ rw (q, unidentified-reconcile_from sets seen es) refl
  | inr (key, p, inl (c, q)) ↦ rw (q, identified e key p) (unidentified-reconcile_from sets seen es)
  | inr (key, p, inr (c, q)) ↦
      rw (q, identified e key p)
        (unidentified-reconcile_from sets (observation key (settle sets key e) ∷ seen) es)
]

-- Reconciling a history repeats no observation of a tool use, keeps every event without a call id,
-- or with an empty one, as it is and in order, and reports for each tool use the same known outcomes as the history.
pub reconcile_sound :
    (es : List FileEvent)
    → NoRepeats (reconcile es)
      × (keep unidentified (reconcile es) ≡ keep unidentified es)
      × ((key : Evidence) (o : Outcome)
          → is_known o ≡ true
          → reported key o (reconcile es) ≡ reported key o es)
unfolding reconcile
reconcile_sound es = (
  (NoRepeats-reconcile_from (note_outcomes no_outcomes es) [] es).1,
  unidentified-reconcile_from (note_outcomes no_outcomes es) [] es,
  reported-reconcile es,
)
