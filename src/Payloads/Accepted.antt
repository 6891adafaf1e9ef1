-- ===== src/Payloads/Accepted.antt =====
-- What a hook decodes is what the store accepts (src/harness/hook_json.rs and
-- crates/session-activity/src/store.rs).
use peekback.Activity.{
  FileEvent, Operation, Operation_discrete, SessionKey, Source, file_event, key_eq, operation_eq,
  outcome_eq, resolve_path, schema_version, source_eq, valid_id,
}
use peekback.Activity.Paths.{resolve_path_canonical}
use peekback.Base.{
  ==_iff, All, All-append, Error, List, Option, Option-cases, Result, Str, [], codes, either_branch,
  ensure, false, inl, inr, is_empty, map, nat_eq, none, not, ok, option_eq, refl, some, str_eq,
  subst, true, ◌&&◌, ◌==◌, ◌>>◌, ◌||◌, ◌∷◌, ◌≡◌,
}
use peekback.Base.Int.{int_eq, ℤ}
use peekback.Base.Paths.{FilePath, is_absolute, parse, path_eq}
use peekback.Base.Texts.{strip_text, text_lines, trim_text}
use peekback.Harness.{Harness, harness_eq, key}
use peekback.Payloads.{Value, as_str, index, str_or_empty}
use peekback.Payloads.Hooks.{
  decode, decode_named, decode_session, event_named, events_at, mark_call, observed_as, place_of,
  tool_events, transcript_at,
}
use peekback.Payloads.Tools.{
  claude_events, claude_operation, codex_events, harness_events, header_events, is_whole_patch,
  patch_events, patch_line, patch_loop, path_events, rename_last,
}
use peekback.Record.{Observed, Place, SessionEvent}
use peekback.Store.{validate_batch, validate_event}

abbrev Agrees : Option FilePath → Operation → Type 0
Agrees none operation = (operation == Operation.rename) ≡ false
Agrees (some p) operation = (is_absolute p ≡ true) × (operation ≡ Operation.rename)

abbrev Acceptable : SessionKey → FileEvent → Type 0
Acceptable key e =
    (e.session ≡ key)
    × (e.schema_version ≡ schema_version)
    × (is_absolute e.path ≡ true)
    × (is_absolute e.cwd ≡ true)
    × Agrees e.previous_path e.operation

Agrees-ok :
    (previous : Option FilePath) (operation : Operation)
    → Agrees previous operation
    → (elim previous as (λ x. Result (Unit {0})) [
      | none ↦ ensure (not (operation == Operation.rename)) Error.rename_disagrees
      | some p ↦ do
        ensure (is_absolute p) Error.paths_not_absolute
        ensure (operation == Operation.rename) Error.rename_disagrees
    ])
      ≡ ok tt
Agrees-ok none operation h = rw h refl
Agrees-ok (some p) operation h = rw (h.0, (==_iff operation Operation.rename).1 h.1) refl

validate_event-Acceptable :
    (key : SessionKey) (e : FileEvent) → Acceptable key e → validate_event key e ≡ ok tt
unfolding validate_event
validate_event-Acceptable key e (s, v, p, c, a) =
    rw ((==_iff e.session key).1 s, v, p, c) (Agrees-ok e.previous_path e.operation a)

validate_batch-Acceptable :
    (key : SessionKey) (es : List FileEvent)
    → All (Acceptable key) es
    → validate_batch key es ≡ ok tt
unfolding validate_batch
validate_batch-Acceptable key [] h = refl
validate_batch-Acceptable key (e ∷ es) h =
    rw (validate_event-Acceptable key e h.0) (validate_batch-Acceptable key es h.1)

module _ (key : SessionKey) (cwd : FilePath) (rooted : is_absolute cwd ≡ true) where
  resolved : (path : FilePath) → is_absolute (resolve_path cwd path) ≡ true
  resolved path = (resolve_path_canonical cwd path cwd rooted).0

  Acceptable-path_events :
      (operation : Operation) (path : Option Str) (at : ℤ) (source : Source)
      → (operation == Operation.rename) ≡ false
      → All (Acceptable key) (path_events key cwd operation path at source)
  unfolding path_events file_event
  Acceptable-path_events operation none at source h = tt
  Acceptable-path_events operation (some []) at source h = tt
  Acceptable-path_events operation (some (c ∷ cs)) at source h =
      ((refl, refl, resolved (parse (c ∷ cs)), rooted, h), tt)

  Acceptable-rename_last :
      (path : Str) (es : List FileEvent)
      → All (Acceptable key) es
      → All (Acceptable key) (rename_last cwd path es)
  unfolding rename_last
  Acceptable-rename_last path [] h = tt
  Acceptable-rename_last path (e ∷ []) ((s, v, p, c, a), t) =
      either_branch (All (Acceptable key)) (e.operation == Operation.modify && not (is_empty path))
        _ _ (λ y. ((s, v, resolved (parse path), c, (p, refl)), tt)) (λ n. ((s, v, p, c, a), tt))
  Acceptable-rename_last path (e ∷ f ∷ es) h = (h.0, Acceptable-rename_last path (f ∷ es) h.1)

  Acceptable-header_events :
      (line : Str) (at : ℤ) (source : Source)
      → All (Acceptable key) (header_events key cwd line at source)
  unfolding header_events Operation_discrete
  Acceptable-header_events line at source =
      let added = strip_text (codes "*** Add File: ") line in
      let changed = strip_text (codes "*** Update File: ") line in
      let deleted = strip_text (codes "*** Delete File: ") line in
      let a = Acceptable-path_events Operation.create added at source refl in
      let b = Acceptable-path_events Operation.modify changed at source refl in
      let c = Acceptable-path_events Operation.delete deleted at source refl in
      All-append (Acceptable key) (path_events key cwd Operation.create added at source) _ a (
        All-append (Acceptable key) (path_events key cwd Operation.modify changed at source)
          (path_events key cwd Operation.delete deleted at source) b c)

  Acceptable-patch_line :
      (at : ℤ) (source : Source) (line : Str) (es : List FileEvent)
      → All (Acceptable key) es
      → All (Acceptable key) (patch_line key cwd at source line es)
  unfolding patch_line
  Acceptable-patch_line at source line es h =
      elim (Option-cases (strip_text (codes "*** Move to: ") line)) [
        | inl n ↦
            rw (n, patch_line)
              (All-append (Acceptable key) es _ h (Acceptable-header_events line at source))
        | inr (path, e) ↦ rw (e, patch_line) (Acceptable-rename_last path es h)
      ]

  Acceptable-patch_loop :
      (at : ℤ) (source : Source) (lines : List Str) (es : List FileEvent)
      → All (Acceptable key) es
      → All (Acceptable key) (patch_loop key cwd at source lines es)
  unfolding patch_loop
  Acceptable-patch_loop at source [] es h = h
  Acceptable-patch_loop at source (line ∷ lines) es h =
      Acceptable-patch_loop at source lines (patch_line key cwd at source line es)
        (Acceptable-patch_line at source line es h)

  Acceptable-patch_events :
      (patch : Str) (at : ℤ) (source : Source)
      → All (Acceptable key) (patch_events key cwd patch at source)
  unfolding patch_events
  Acceptable-patch_events patch at source =
      let lines = text_lines (trim_text patch) in
      either_branch (All (Acceptable key)) (not (is_whole_patch lines)) []
        (patch_loop key cwd at source lines []) (λ y. tt)
        (λ m. Acceptable-patch_loop at source lines [] tt)

  Acceptable-codex_events :
      (tool : Str) (input : Value) (at : ℤ) (source : Source)
      → All (Acceptable key) (codex_events key cwd tool input at source)
  unfolding codex_events
  Acceptable-codex_events tool input at source =
      either_branch (All (Acceptable key)) (not (tool == codes "apply_patch")) [] _ (λ y. tt)
        (λ n.
          Acceptable-patch_events (str_or_empty (as_str (index (codes "command") input))) at source)

  abbrev NoRename : Option Operation → Type 0
  NoRename none = Unit
  NoRename (some operation) = (operation == Operation.rename) ≡ false

  claude_operation-NoRename : (tool : Str) → NoRename (claude_operation tool)
  unfolding claude_operation Operation_discrete
  claude_operation-NoRename tool =
      either_branch NoRename (tool == codes "Read") _ _ (λ y. refl)
        (λ n.
          either_branch NoRename (tool == codes "Write") _ _ (λ y. refl)
            (λ m.
              either_branch NoRename (tool == codes "Edit" || tool == codes "MultiEdit") _ _
                (λ y. refl) (λ k. tt)))

  Acceptable-claude_events :
      (tool : Str) (input : Value) (at : ℤ) (source : Source)
      → All (Acceptable key) (claude_events key cwd tool input at source)
  unfolding claude_events
  Acceptable-claude_events tool input at source = elim (Option-cases (claude_operation tool)) [
    | inl n ↦ rw (n, claude_events) tt
    | inr (operation, e) ↦
        rw (e, claude_events)
          (Acceptable-path_events operation _ at source
            (subst NoRename e (claude_operation-NoRename tool)))
  ]

  Acceptable-harness_events :
      (harness : Harness) (tool : Str) (input : Value) (at : ℤ) (source : Source)
      → All (Acceptable key) (harness_events harness key cwd tool input at source)
  unfolding harness_events
  Acceptable-harness_events Harness.claude tool input at source =
      Acceptable-claude_events tool input at source
  Acceptable-harness_events Harness.codex tool input at source =
      Acceptable-codex_events tool input at source

-- The event of an observation is none of a tool, or its tool's events are acceptable.
abbrev pub Accepts : SessionKey → SessionEvent → Type 0
Accepts key (SessionEvent.tool_used es) = validate_batch key es ≡ ok tt
Accepts key _ = Unit

Acceptable-mark_call :
    (key : SessionKey) (input : Value) (es : List FileEvent)
    → All (Acceptable key) es
    → All (Acceptable key) (map (mark_call input) es)
Acceptable-mark_call key input [] h = tt
Acceptable-mark_call key input (e ∷ es) h = (h.0, Acceptable-mark_call key input es h.1)

tool_events-accepted :
    (harness : Harness) (id : Str) (cwd : FilePath) (input : Value) (now : ℤ)
    → is_absolute cwd ≡ true
    → validate_batch (key harness id) (tool_events harness id cwd input now) ≡ ok tt
unfolding tool_events
tool_events-accepted harness id cwd input now r = validate_batch-Acceptable (key harness id) _ (
    Acceptable-mark_call (key harness id) input _
      (Acceptable-harness_events (key harness id) cwd r harness _ _ now Source.hook))

abbrev pub IsRooted : Option Place → Type 0
IsRooted none = Unit
IsRooted (some place) = is_absolute place.cwd ≡ true

IsRooted-transcript_at :
    (cwd : FilePath) (transcript : Value)
    → is_absolute cwd ≡ true
    → IsRooted (transcript_at cwd transcript)
IsRooted-transcript_at cwd Value.null r = r
IsRooted-transcript_at cwd (Value.string []) r = r
IsRooted-transcript_at cwd (Value.string (c ∷ cs)) r = r
IsRooted-transcript_at cwd (Value.boolean b) r = tt
IsRooted-transcript_at cwd (Value.number n) r = tt
IsRooted-transcript_at cwd (Value.array vs) r = tt
IsRooted-transcript_at cwd (Value.object fs) r = tt

IsRooted-place_of : (input : Value) → IsRooted (place_of input)
unfolding place_of
IsRooted-place_of input = elim (Option-cases (as_str (index (codes "cwd") input))) [
  | inl n ↦ rw (n, place_of) tt
  | inr (cwd, e) ↦
      rw (e, place_of)
        (either_branch IsRooted (is_absolute (parse cwd)) _ none
          (λ r. IsRooted-transcript_at (parse cwd) _ r) (λ n. tt))
]

events_at-accepted :
    (harness : Harness) (id : Str) (input : Value) (now : ℤ) (place : Option Place)
    → IsRooted place
    → validate_batch (key harness id) (events_at harness id input now place) ≡ ok tt
unfolding validate_batch
events_at-accepted harness id input now none r = refl
events_at-accepted harness id input now (some place) r =
    tool_events-accepted harness id place.cwd input now r

abbrev AcceptsSome : SessionKey → Option SessionEvent → Type 0
AcceptsSome key none = Unit
AcceptsSome key (some event) = Accepts key event

event_named-accepted :
    (harness : Harness) (id : Str) (input : Value) (now : ℤ) (place : Option Place) (name : Str)
    → IsRooted place
    → AcceptsSome (key harness id) (event_named harness id input now place name)
unfolding event_named
event_named-accepted harness id input now place name r =
    let P = AcceptsSome (key harness id) in
    either_branch P (name == codes "SessionStart") _ _
      (λ y.
        either_branch P (as_str (index (codes "source") input) == some (codes "compact")) _ _
          (λ y. tt) (λ n. tt))
      (λ n.
        either_branch P (name == codes "UserPromptSubmit") _ _ (λ y. tt)
          (λ n.
            either_branch P (name == codes "PostToolUse" || name == codes "PostToolUseFailure")
              (some (SessionEvent.tool_used (events_at harness id input now place))) _
              (λ y. events_at-accepted harness id input now place r)
              (λ n.
                either_branch P (name == codes "Stop") _ _ (λ y. tt)
                  (λ n. either_branch P (name == codes "SessionEnd") _ _ (λ y. tt) (λ n. tt)))))

-- An observation that can be recorded: a valid id, an absolute place, events that the store accepts.
abbrev pub IsRecordable : Harness → Observed → Type 0
IsRecordable harness o =
    (o.harness ≡ harness)
    × (valid_id o.session_id ≡ true)
    × IsRooted o.place
    × Accepts (key harness o.session_id) o.event

abbrev Recordable : Harness → Option Observed → Type 0
Recordable harness none = Unit
Recordable harness (some o) = IsRecordable harness o

Recordable-observed_as :
    (harness : Harness) (id : Str) (place : Option Place) (event : Option SessionEvent)
    → valid_id id ≡ true
    → IsRooted place
    → AcceptsSome (key harness id) event
    → Recordable harness (observed_as harness id place event)
Recordable-observed_as harness id place none v r a = tt
Recordable-observed_as harness id place (some event) v r a = (refl, v, r, a)

Recordable-decode_named :
    (harness : Harness) (id : Str) (input : Value) (now : ℤ) (name : Option Str)
    → valid_id id ≡ true
    → Recordable harness (decode_named harness id input now name)
Recordable-decode_named harness id input now none v = tt
Recordable-decode_named harness id input now (some name) v =
    Recordable-observed_as harness id (place_of input) _ v (IsRooted-place_of input)
      (event_named-accepted harness id input now (place_of input) name (IsRooted-place_of input))

Recordable-decode_session :
    (harness : Harness) (input : Value) (now : ℤ) (id : Option Str)
    → Recordable harness (decode_session harness input now id)
Recordable-decode_session harness input now none = tt
Recordable-decode_session harness input now (some id) =
    either_branch (Recordable harness) (valid_id id) _ none
      (λ v. Recordable-decode_named harness id input now _ v) (λ n. tt)

-- Whatever payload an agent sends, what a hook decodes from it has a valid session id and an absolute
-- working directory if any, and its file events pass the checks of the store.
pub decode-IsRecordable :
    (harness : Harness) (input : Value) (now : ℤ) (o : Observed)
    → decode harness input now ≡ some o
    → IsRecordable harness o
unfolding decode
decode-IsRecordable harness input now o h =
    subst (Recordable harness) h
      (Recordable-decode_session harness input now (as_str (index (codes "session_id") input)))
