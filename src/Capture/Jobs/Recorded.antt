-- ===== src/Capture/Jobs/Recorded.antt =====
-- What the saved history of turns keeps (src/turn_history.rs).
use mathlib.Core.List.{append-nil, append_assoc}
use peekback.Activity.{SessionKey, key_eq, operation_eq, outcome_eq, source_eq, validate}
use peekback.Base.{
  ==_iff, All, All-map, Bool, Bool-cases, Error, List, Option, Result, Result-cases, [], ap, arith,
  bind-ok, contains, contains-append, ensure, false, if◌then◌else◌, inl, inr, length, length-append,
  nat_eq, none, not, ok, option_eq, refl, some, str_eq, subst, sym, true, ◌++◌, ◌==◌, ◌||◌, ◌∙◌,
  ◌∷◌, ◌≡◌,
}
use peekback.Base.Int.{int_eq}
use peekback.Base.Paths.{FilePath, path_eq}
use peekback.Capture.{RecordedTurn, TurnHistory, recorded_turn_eq}
use peekback.Capture.Jobs.{
  HistoryFile, Write, add_closed, add_recent, has_turn, read_history, record_history, recorded,
  turn_roots, updated, write_result, write_state,
}
use peekback.Session.{Session, Turn, activity_key, turn_eq}
use peekback.Store.Maintenance.Commit.{ok-injective}

-- Every turn that is saved with some roots stays so.
abbrev pub Extends : List RecordedTurn → List RecordedTurn → Type 0
Extends old saved = (more : List RecordedTurn) × (saved ≡ old ++ more)

Extends-nil : (old : List RecordedTurn) → Extends old old
Extends-nil old = ([], sym (append-nil old))

Extends-trans : (a b c : List RecordedTurn) → Extends a b → Extends b c → Extends a c
Extends-trans a b c (m, e) (n, f) = (m ++ n, f ∙ (ap (λ xs. xs ++ n) e ∙ append_assoc a m n))

Extends-if :
    (b : Bool) (saved : List RecordedTurn) (r : RecordedTurn)
    → Extends saved (if b then saved else saved ++ r ∷ [])
Extends-if true saved r = Extends-nil saved
Extends-if false saved r = (r ∷ [], refl)

Extends-add_recent :
    (roots : List FilePath) (recent : List Turn) (saved : List RecordedTurn)
    → Extends saved (add_recent roots recent saved)
unfolding add_recent
Extends-add_recent roots [] saved = Extends-nil saved
Extends-add_recent roots (turn ∷ recent) saved =
    Extends-trans saved _ _
      (Extends-if (has_turn saved turn) saved (record { turn = turn; roots = roots }))
      (Extends-add_recent roots recent _)

Extends-add_closed :
    (roots : List FilePath) (closed : Option Turn) (saved : List RecordedTurn)
    → Extends saved (add_closed roots closed saved)
unfolding add_closed
Extends-add_closed roots none saved = Extends-nil saved
Extends-add_closed roots (some turn) saved =
    Extends-if _ saved (record { turn = turn; roots = roots })

has_turn-append :
    (old more : List RecordedTurn) (turn : Turn)
    → has_turn (old ++ more) turn ≡ (has_turn old turn || has_turn more turn)
has_turn-append [] more turn = refl
has_turn-append (r ∷ old) more turn = ground (arith, has_turn-append old more turn)

has_turn-Extends :
    (old saved : List RecordedTurn) (turn : Turn)
    → Extends old saved
    → has_turn old turn ≡ true
    → has_turn saved turn ≡ true
has_turn-Extends old saved turn (more, e) h = rw (e, has_turn-append old more turn, h) refl

has_turn-added :
    (roots : List FilePath) (saved : List RecordedTurn) (turn : Turn)
    → has_turn
        (if has_turn saved turn then saved else saved ++ record { turn = turn; roots = roots } ∷ [])
        turn
      ≡ true
has_turn-added roots saved turn = elim (Bool-cases (has_turn saved turn)) [
  | inl y ↦ rw y y
  | inr n ↦
      rw
        (
          n,
          has_turn-append saved (record { turn = turn; roots = roots } ∷ []) turn,
          n,
          (==_iff turn turn).1 refl,
        )
        refl
]

-- The history has the turn.
abbrev pub HasTurns : List RecordedTurn → List Turn → Type 0
HasTurns saved recent = All (λ turn. has_turn saved turn ≡ true) recent

HasTurns-add_recent :
    (roots : List FilePath) (recent : List Turn) (saved : List RecordedTurn)
    → HasTurns (add_recent roots recent saved) recent
unfolding add_recent
HasTurns-add_recent roots [] saved = tt
HasTurns-add_recent roots (turn ∷ recent) saved = (
  has_turn-Extends _ _ turn (Extends-add_recent roots recent _) (has_turn-added roots saved turn),
  HasTurns-add_recent roots recent _,
)

contains-added :
    (saved : List RecordedTurn) (r : RecordedTurn)
    → contains (if contains saved r then saved else saved ++ r ∷ []) r ≡ true
contains-added saved r = elim (Bool-cases (contains saved r)) [
  | inl y ↦ rw y y
  | inr n ↦ rw (n, contains-append saved (r ∷ []) r, n, (==_iff r r).1 refl) refl
]

-- The history that a file holds after a write that succeeded.
abbrev pub turns_of : HistoryFile → List RecordedTurn
turns_of HistoryFile.no_history = []
turns_of (HistoryFile.unreadable_history e) = []
turns_of (HistoryFile.saved_history history) = history.turns

all_turns : Session → Option Turn → List RecordedTurn → List RecordedTurn
all_turns session closed old =
    add_closed (turn_roots session) closed
      (add_recent (turn_roots session) session.recent_turns old)

-- The history that is to be written has all turns, and has changed unless it is as long as before.
abbrev Adding : Session → Option Turn → HistoryFile → TurnHistory → Bool → Type 0
Adding session closed file history changed =
    (history.turns ≡ all_turns session closed (turns_of file))
    × (changed ≡ not (length history.turns == length (turns_of file)))

read_history-turns :
    (key : SessionKey) (file : HistoryFile) (history : TurnHistory)
    → read_history key file ≡ ok history
    → history.turns ≡ turns_of file
read_history-turns key HistoryFile.no_history history h = ap (λ g. g.turns) (sym (ok-injective h))
read_history-turns key (HistoryFile.unreadable_history e) history h = absurd (ground arith)
read_history-turns key (HistoryFile.saved_history old) history h =
    ap (λ g. g.turns) (sym (ok-injective h))

updated-Adding :
    (session : Session) (closed : Option Turn) (file : HistoryFile) (old history : TurnHistory)
    (changed : Bool)
    → old.turns ≡ turns_of file
    → updated session closed old ≡ (history, changed)
    → Adding session closed file history changed
unfolding updated all_turns
updated-Adding session closed file old history changed e h =
    let g : history.turns ≡ all_turns session closed old.turns = ap (λ p. p.0.turns) (sym h) in
    let c : changed ≡ not (length (all_turns session closed old.turns) == length old.turns) =
      ap (λ p. p.1) (sym h) in
    (g ∙ ap (all_turns session closed) e, c ∙ rw (g, e) refl)

recorded-Adding :
    (session : Session) (closed : Option Turn) (file : HistoryFile) (history : TurnHistory)
    (changed : Bool)
    → recorded session closed file ≡ ok (history, changed)
    → Adding session closed file history changed
unfolding recorded
recorded-Adding session closed file history changed h =
    let (checked, v, h1) = bind-ok (validate (activity_key session)) _ (history, changed) h in
    let (old, r, h2) = bind-ok (read_history (activity_key session) file) _ (history, changed) h1 in
    let (same, o, h3) =
      bind-ok (ensure (old.session == activity_key session) Error.other_history) _
        (history, changed) h2 in
    updated-Adding session closed file old history changed
      (read_history-turns (activity_key session) file old r) (ok-injective h3)

contains-has_turn :
    (saved : List RecordedTurn) (r : RecordedTurn)
    → contains saved r ≡ true
    → has_turn saved r.turn ≡ true
contains-has_turn [] r h = h
contains-has_turn (s ∷ saved) r h = elim (Bool-cases (s == r)) [
  | inl y ↦ rw ((==_iff s.turn r.turn).1 (ap (λ r. r.turn) ((==_iff s r).0 y))) refl
  | inr n ↦ ground (arith, contains-has_turn saved r (ground arith))
]

HasTurns-Extends :
    (old saved : List RecordedTurn) (recent : List Turn)
    → Extends old saved
    → HasTurns old recent
    → HasTurns saved recent
HasTurns-Extends old saved recent e h =
    All-map {P = λ turn. has_turn old turn ≡ true} (λ turn. has_turn-Extends old saved turn e)
      recent h

contains-add_closed :
    (roots : List FilePath) (turn : Turn) (saved : List RecordedTurn)
    → contains (add_closed roots (some turn) saved) (record { turn = turn; roots = roots }) ≡ true
unfolding add_closed
contains-add_closed roots turn saved = contains-added saved (record { turn = turn; roots = roots })

Extends-all_turns :
    (session : Session) (closed : Option Turn) (old : List RecordedTurn)
    → Extends old (all_turns session closed old)
unfolding all_turns
Extends-all_turns session closed old =
    Extends-trans old _ _ (Extends-add_recent (turn_roots session) session.recent_turns old)
      (Extends-add_closed (turn_roots session) closed _)

HasTurns-all_turns :
    (session : Session) (closed : Option Turn) (old : List RecordedTurn)
    → HasTurns (all_turns session closed old) session.recent_turns
unfolding all_turns
HasTurns-all_turns session closed old =
    HasTurns-Extends _ _ session.recent_turns (Extends-add_closed (turn_roots session) closed _)
      (HasTurns-add_recent (turn_roots session) session.recent_turns old)

contains-all_turns :
    (session : Session) (turn : Turn) (old : List RecordedTurn)
    → contains
        (all_turns session (some turn) old)
        (record { turn = turn; roots = turn_roots session })
      ≡ true
unfolding all_turns
contains-all_turns session turn old = contains-add_closed (turn_roots session) turn _

Extends-same_length :
    (old saved : List RecordedTurn)
    → Extends old saved
    → (length saved == length old) ≡ true
    → saved ≡ old
Extends-same_length old saved ([], e) h = e ∙ append-nil old
Extends-same_length old saved (r ∷ more, e) h = absurd (
    ground
      (arith, (==_iff (length saved) (length old)).0 h, ap length e, length-append old (r ∷ more)))

-- All that a history must have after it was recorded.
abbrev pub Keeps : Session → Option Turn → HistoryFile → HistoryFile → Type 0
Keeps session closed old file =
    Extends (turns_of old) (turns_of file)
    × HasTurns (turns_of file) session.recent_turns
    × ((turn : Turn) → closed ≡ some turn → has_turn (turns_of file) turn ≡ true)

Keeps-all_turns :
    (session : Session) (closed : Option Turn) (old file : HistoryFile)
    → turns_of file ≡ all_turns session closed (turns_of old)
    → Keeps session closed old file
Keeps-all_turns session closed old file e = (
  subst (Extends (turns_of old)) (sym e) (Extends-all_turns session closed (turns_of old)),
  subst (λ saved. HasTurns saved session.recent_turns) (sym e)
      (HasTurns-all_turns session closed (turns_of old)),
  λ turn c.
      let there = contains-all_turns session turn (turns_of old) in
      let all =
        subst
          (λ o.
            contains (all_turns session o (turns_of old))
              (record { turn = turn; roots = turn_roots session })
            ≡ true)
          (sym c) there in
      subst (λ saved. has_turn saved turn ≡ true) (sym e)
        (contains-has_turn (all_turns session closed (turns_of old))
          (record { turn = turn; roots = turn_roots session }) all),
)

-- What a recording leaves in the file, if it succeeds.
abbrev Recorded : Session → Option Turn → HistoryFile → HistoryFile × Result (Unit {0}) → Type 0
Recorded session closed file (after', result) =
    result ≡ ok tt → turns_of after' ≡ all_turns session closed (turns_of file)

Recorded-change :
    (write : Write) (session : Session) (closed : Option Turn) (file : HistoryFile)
    (history : TurnHistory) (changed : Bool)
    → Adding session closed file history changed
    → Recorded session closed file (
        if changed
        then (write_state write file (HistoryFile.saved_history history), write_result write)
        else (file, ok tt))
Recorded-change Write.written session closed file history true a h = a.0
Recorded-change (Write.failed_before e) session closed file history true a h = absurd (ground arith)
Recorded-change (Write.failed_after e) session closed file history true a h = absurd (ground arith)
Recorded-change write session closed file history false (t, c) h =
    let same =
      Extends-same_length (turns_of file) history.turns
        (subst (Extends (turns_of file)) (sym t) (Extends-all_turns session closed (turns_of file)))
        (ground arith) in
    sym same ∙ t

record_history-Recorded :
    (write : Write) (session : Session) (closed : Option Turn) (file : HistoryFile)
    → Recorded session closed file (record_history write session closed file)
unfolding record_history
record_history-Recorded write session closed file =
    elim (Result-cases (recorded session closed file)) [
      | inl ((history, changed), e) ↦
          rw (e, record_history)
            (Recorded-change write session closed file history changed
              (recorded-Adding session closed file history changed e))
      | inr (e, q) ↦ rw (q, record_history) (λ h. absurd (ground arith))
    ]

-- A turn history that was recorded without an error still has every turn with the roots it was saved
-- with, and has all recent turns of the session and the one that was closed.
pub record_history-Keeps :
    (write : Write) (session : Session) (closed : Option Turn) (file : HistoryFile)
    → (record_history write session closed file).1 ≡ ok tt
    → Keeps session closed file (record_history write session closed file).0
record_history-Keeps write session closed file h =
    Keeps-all_turns session closed file (record_history write session closed file).0
      (record_history-Recorded write session closed file h)
