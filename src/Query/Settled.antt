-- ===== src/Query/Settled.antt =====
-- What `reconcile` guarantees (crates/session-activity/src/query.rs).
use peekback.Activity.{FileEvent, Outcome, key_eq, operation_eq, outcome_eq, source_eq}
use peekback.Base.{
  ==_iff, Bool, Bool-cases, List, Option, Option-cases, [], any, ap, arith, contains, false, inl,
  inr, nat_eq, none, option_eq, refl, some, str_eq, subst, sym, true, ◌&&◌, ◌==◌, ◌||◌, ◌∙◌, ◌∷◌,
  ◌≡◌, ◌⊎◌,
}
use peekback.Base.Int.{int_eq}
use peekback.Base.Paths.{path_eq}
use peekback.Query.{
  Evidence, Observation, OutcomeSets, elements, evidence, evidence_eq, insert_outcome, is_known,
  note_at, note_outcome, note_outcomes, observation, observation_eq, only, reconcile_from, settle,
  settled,
}

pub evidence-settle :
    (sets : OutcomeSets) (key : Evidence) (e : FileEvent)
    → evidence (settle sets key e) ≡ evidence e
unfolding evidence settle
evidence-settle sets key e = refl

abbrev pub reported : (key : Evidence) (o : Outcome) → List FileEvent → Bool
reported key o es = any (λ e. evidence e == some key && e.outcome == o) es

note_at_lem :
    (sets : OutcomeSets) (at : Option Evidence) (seen o : Outcome) (key : Evidence)
    → note_at sets at seen key o ≡ (at == some key && seen == o || sets key o)
unfolding insert_outcome
note_at_lem sets none seen o key = ground arith
note_at_lem sets (some k) seen o key =
    ground (arith, ==_iff key k, ==_iff (some k) (some key), ==_iff o seen, ==_iff seen o)

note_outcome_lem :
    (sets : OutcomeSets) (e : FileEvent) (key : Evidence) (o : Outcome)
    → is_known o ≡ true
    → note_outcome sets e key o ≡ (evidence e == some key && e.outcome == o || sets key o)
unfolding note_outcome
note_outcome_lem sets e key o h = elim (Bool-cases (is_known e.outcome)) [
  | inl k ↦ rw k (note_at_lem sets (evidence e) e.outcome o key)
  | inr k ↦ rw k (
      ground
        (arith, ==_iff e.outcome o, ==_iff e.outcome Outcome.unknown, ==_iff o Outcome.unknown))
]

pub note_outcomes_lem :
    (sets : OutcomeSets) (es : List FileEvent) (key : Evidence) (o : Outcome)
    → is_known o ≡ true
    → note_outcomes sets es key o ≡ (reported key o es || sets key o)
unfolding note_outcomes
note_outcomes_lem sets [] key o h = refl
note_outcomes_lem sets (e ∷ es) key o h =
    ground
      (arith, note_outcomes_lem (note_outcome sets e) es key o h, note_outcome_lem sets e key o h)

note_outcome_unknown :
    (sets : OutcomeSets) (e : FileEvent) (key : Evidence)
    → note_outcome sets e key Outcome.unknown ≡ sets key Outcome.unknown
unfolding note_outcome
note_outcome_unknown sets e key = elim (Bool-cases (is_known e.outcome)) [
  | inl k ↦ rw (k, note_at_lem sets (evidence e) e.outcome Outcome.unknown key) (ground arith)
  | inr k ↦ rw k refl
]

pub note_outcomes_unknown :
    (sets : OutcomeSets) (es : List FileEvent) (key : Evidence)
    → note_outcomes sets es key Outcome.unknown ≡ sets key Outcome.unknown
unfolding note_outcomes
note_outcomes_unknown sets [] key = refl
note_outcomes_unknown sets (e ∷ es) key =
    note_outcomes_unknown (note_outcome sets e) es key ∙ note_outcome_unknown sets e key

only-elements : (set : Outcome → Bool) (o : Outcome) → only (elements set) ≡ some o → set o ≡ true
only-elements set Outcome.succeeded h = ground arith
only-elements set Outcome.failed h = ground arith
only-elements set Outcome.unknown h = ground arith

settled_known : (set : Outcome → Bool) (o : Outcome) → is_known o ≡ true → settled set o ≡ o
settled_known set o h = ground arith

-- A settled outcome was observed, or is one of the set.
settled_source :
    (set : Outcome → Bool) (seen o : Outcome)
    → is_known o ≡ true
    → settled set seen ≡ o
    → (seen ≡ o) ⊎ (set o ≡ true)
settled_source set seen o h e = elim (Bool-cases (is_known seen)) [
  | inl k ↦ inl (sym (settled_known set seen k) ∙ e)
  | inr k ↦ elim (Option-cases (only (elements set))) [
    | inl n ↦ ground arith
    | inr (p, q) ↦ inr (only-elements set o (ground arith))
  ]
]

pub settled_again :
    (set other : Outcome → Bool) (o : Outcome)
    → elements set ≡ elements other
    → settled other (settled set o) ≡ settled set o
settled_again set other o h = elim (Bool-cases (is_known o)) [
  | inl k ↦
      ap (settled other) (settled_known set o k)
      ∙ settled_known other o k
      ∙ sym (settled_known set o k)
  | inr k ↦ elim (Option-cases (only (elements set))) [
    | inl n ↦ ground arith
    | inr (p, q) ↦ ground arith
  ]
]

-- The outcomes that the events report are among the sets.
abbrev pub CoveredBy : OutcomeSets → List FileEvent → Type 0
CoveredBy sets es =
    (key : Evidence) (o : Outcome)
    → is_known o ≡ true
    → reported key o es ≡ true
    → sets key o ≡ true

CoveredBy-tail :
    (sets : OutcomeSets) (e : FileEvent) (es : List FileEvent)
    → CoveredBy sets (e ∷ es)
    → CoveredBy sets es
CoveredBy-tail sets e es h key o k r = h key o k (ground arith)

unfoldable pub heard : Evidence → Outcome → List Observation → Bool
heard key o seen = any (λ t. t.key == key && t.outcome == o) seen

-- The cases of one step of the second loop.
abbrev pub Taken : OutcomeSets → List Observation → FileEvent → List FileEvent → Type 0
Taken sets seen e es =
    ((evidence e ≡ none) × (reconcile_from sets seen (e ∷ es) ≡ e ∷ reconcile_from sets seen es))
    ⊎ ((key : Evidence) × (evidence e ≡ some key)
        × (((contains seen (observation key (settle sets key e)) ≡ true)
              × (reconcile_from sets seen (e ∷ es) ≡ reconcile_from sets seen es))
            ⊎ ((contains seen (observation key (settle sets key e)) ≡ false)
                × (reconcile_from sets seen (e ∷ es)
                    ≡ settle sets key e
                      ∷ reconcile_from sets (observation key (settle sets key e) ∷ seen) es))))

pub step_cases :
    (sets : OutcomeSets) (seen : List Observation) (e : FileEvent) (es : List FileEvent)
    → Taken sets seen e es
unfolding reconcile_from
step_cases sets seen e es = elim (Option-cases (evidence e)) [
  | inl n ↦ inl (n, rw (n, reconcile_from) refl)
  | inr (key, q) ↦ inr (
    key,
    q,
    elim (Bool-cases (contains seen (observation key (settle sets key e)))) [
      | inl c ↦ inl (c, rw (q, c, reconcile_from) refl)
      | inr c ↦ inr (c, rw (q, c, reconcile_from) refl)
    ],
  )
]

reported-cons :
    (key : Evidence) (o : Outcome) (e : FileEvent) (es : List FileEvent)
    → reported key o (e ∷ es) ≡ true
    → ((evidence e ≡ some key) × (e.outcome ≡ o)) ⊎ (reported key o es ≡ true)
reported-cons key o e es h = elim (Bool-cases (reported key o es)) [
  | inl r ↦ inr r
  | inr r ↦
      inl ((==_iff (evidence e) (some key)).0 (ground arith), (==_iff e.outcome o).0 (ground arith))
]

reported_here :
    (key : Evidence) (e : FileEvent) (es : List FileEvent)
    → evidence e ≡ some key
    → reported key e.outcome (e ∷ es) ≡ true
reported_here key e es h =
    rw ((==_iff (evidence e) (some key)).1 h, (==_iff e.outcome e.outcome).1 refl) refl

CoveredBy-cons :
    (sets : OutcomeSets) (e : FileEvent) (es : List FileEvent)
    → ((key : Evidence)
        → evidence e ≡ some key
        → is_known e.outcome ≡ true
        → sets key e.outcome ≡ true)
    → CoveredBy sets es
    → CoveredBy sets (e ∷ es)
CoveredBy-cons sets e es h k key o n r = elim (reported-cons key o e es r) [
  | inl (p, q) ↦
      subst (λ o. sets key o ≡ true) q (h key p (subst (λ o. is_known o ≡ true) (sym q) n))
  | inr r ↦ k key o n r
]

CoveredBy-head :
    (sets : OutcomeSets) (e : FileEvent) (es : List FileEvent)
    → CoveredBy sets (e ∷ es)
    → (key : Evidence) → evidence e ≡ some key
    → is_known e.outcome ≡ true
    → sets key e.outcome ≡ true
CoveredBy-head sets e es h key p n = h key e.outcome n (reported_here key e es p)

settle-covered :
    (sets : OutcomeSets) (e : FileEvent) (es : List FileEvent) (key : Evidence)
    → CoveredBy sets (e ∷ es)
    → evidence e ≡ some key
    → is_known (settle sets key e).outcome ≡ true
    → sets key (settle sets key e).outcome ≡ true
unfolding settle
settle-covered sets e es key h p n = elim (settled_source (sets key) e.outcome _ n refl) [
  | inl q ↦
      subst (λ o. sets key o ≡ true) q
        (CoveredBy-head sets e es h key p (subst (λ o. is_known o ≡ true) (sym q) n))
  | inr q ↦ q
]

same_key :
    (sets : OutcomeSets) (key other : Evidence) (e : FileEvent)
    → evidence e ≡ some key
    → evidence (settle sets key e) ≡ some other
    → key ≡ other
same_key sets key other e p m =
    let q : evidence e ≡ some other = sym (evidence-settle sets key e) ∙ m in cc

contains-heard :
    (seen : List Observation) (t : Observation)
    → contains seen t ≡ true
    → heard t.key t.outcome seen ≡ true
unfolding heard
contains-heard [] t h = h
contains-heard (s ∷ seen) t h = elim (Bool-cases (s == t)) [
  | inl q ↦
      let e = (==_iff s t).0 q in
      rw
        (
          (==_iff s.key t.key).1 (ap (λ t. t.key) e),
          (==_iff s.outcome t.outcome).1 (ap (λ t. t.outcome) e),
        )
        refl
  | inr q ↦ ground (arith, contains-heard seen t (ground arith))
]

settle-known :
    (sets : OutcomeSets) (key : Evidence) (e : FileEvent) (o : Outcome)
    → e.outcome ≡ o
    → is_known o ≡ true
    → (settle sets key e).outcome ≡ o
unfolding settle
settle-known sets key e o h n = ap (settled (sets key)) h ∙ settled_known (sets key) o n

-- Reconciling reports no outcome that was not reported.
pub reconcile_from-CoveredBy :
    (sets : OutcomeSets) (seen : List Observation) (es : List FileEvent)
    → CoveredBy sets es
    → CoveredBy sets (reconcile_from sets seen es)
unfolding reconcile_from
reconcile_from-CoveredBy sets seen [] h = h
reconcile_from-CoveredBy sets seen (e ∷ es) h =
    let t = CoveredBy-tail sets e es h in
    elim (step_cases sets seen e es) [
      | inl (n, q) ↦ subst (CoveredBy sets) (sym q) (
          CoveredBy-cons sets e _ (CoveredBy-head sets e es h)
            (reconcile_from-CoveredBy sets seen es t))
      | inr (key, p, inl (c, q)) ↦
          subst (CoveredBy sets) (sym q) (reconcile_from-CoveredBy sets seen es t)
      | inr (key, p, inr (c, q)) ↦ subst (CoveredBy sets) (sym q) (
          CoveredBy-cons sets (settle sets key e) _
            (λ other m n.
              let same : key ≡ other = same_key sets key other e p m in
              subst (λ k. sets k (settle sets key e).outcome ≡ true) same
                (settle-covered sets e es key h p n))
            (reconcile_from-CoveredBy sets (observation key (settle sets key e) ∷ seen) es t))
    ]

first_heard :
    (f : FileEvent) (k key : Evidence) (o : Outcome) (rest : List FileEvent)
    (seen : List Observation)
    → evidence f ≡ some k
    → (reported key o rest || heard key o (observation k f ∷ seen)) ≡ true
    → (reported key o (f ∷ rest) || heard key o seen) ≡ true
unfolding heard
first_heard f k key o rest seen h r = elim (Bool-cases (k == key)) [
  | inl y ↦
      let same = (==_iff k key).0 y in
      let there : (evidence f == some key) ≡ true =
        (==_iff (evidence f) (some key)).1 (h ∙ ap some same) in
      ground arith
  | inr n ↦ ground arith
]

-- An outcome that was reported is reported still, unless it was seen before.
pub reported-reconcile_from :
    (sets : OutcomeSets) (seen : List Observation) (es : List FileEvent) (key : Evidence)
    (o : Outcome)
    → is_known o ≡ true
    → reported key o es ≡ true
    → (reported key o (reconcile_from sets seen es) || heard key o seen) ≡ true
unfolding reconcile_from
reported-reconcile_from sets seen [] key o n h = absurd (ground arith)
reported-reconcile_from sets seen (e ∷ es) key o n h = elim (step_cases sets seen e es) [
  | inl (m, q) ↦ rw q (elim (reported-cons key o e es h) [
    | inl (x, y) ↦ absurd (ground arith)
    | inr r ↦ ground (arith, reported-reconcile_from sets seen es key o n r)
  ])
  | inr (k, p, inl (c, q)) ↦ rw q (elim (reported-cons key o e es h) [
    | inl (x, y) ↦
        let same : k ≡ key = cc in
        let at = contains-heard seen _ c in
        let there : heard key o seen ≡ true =
          subst (λ k. heard k o seen ≡ true) same
            (subst (λ u. heard k u seen ≡ true) (settle-known sets k e o y n) at) in
        ground arith
    | inr r ↦ reported-reconcile_from sets seen es key o n r
  ])
  | inr (k, p, inr (c, q)) ↦ rw q (elim (reported-cons key o e es h) [
    | inl (x, y) ↦
        let at =
          reported_here key (settle sets k e)
            (reconcile_from sets (observation k (settle sets k e) ∷ seen) es)
            (evidence-settle sets k e ∙ x) in
        let here =
          subst
            (λ u.
              reported key u
                (settle sets k e ∷ reconcile_from sets (observation k (settle sets k e) ∷ seen) es)
              ≡ true)
            (settle-known sets k e o y n) at in
        rw here refl
    | inr r ↦
        let rest =
          reported-reconcile_from sets (observation k (settle sets k e) ∷ seen) es key o n r in
        first_heard (settle sets k e) k key o _ seen (evidence-settle sets k e ∙ p) rest
  ])
]
