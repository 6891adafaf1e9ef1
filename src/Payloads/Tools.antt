-- ===== src/Payloads/Tools.antt =====
-- The files that a tool call touches (`tool_events` in src/harness/claude.rs, src/harness/codex.rs
-- and src/harness/mod.rs).
use peekback.Activity.{
  FileEvent, Operation, Operation_discrete, SessionKey, Source, file_event, key_eq, operation_eq,
  outcome_eq, resolve_path, source_eq,
}
use peekback.Base.{
  Bool, List, Option, Str, Str_discrete, [], codes, head?, if◌then◌else◌, is_empty, nat_eq, none,
  not, option_discrete, option_eq, some, str_eq, ◌&&◌, ◌++◌, ◌==◌, ◌||◌, ◌∷◌,
}
use peekback.Base.Int.{int_eq, ℤ}
use peekback.Base.Paths.{FilePath, parse, path_eq}
use peekback.Base.Texts.{last?, strip_text, text_lines, trim_text}
use peekback.Harness.{Harness, harness_eq, key}
use peekback.Payloads.{Value, as_str, index, str_or_empty}

-- `claude::tool_events`.
unfoldable pub claude_operation : Str → Option Operation
unfolding Str_discrete
claude_operation tool =
    if tool == codes "Read"
    then some Operation.read
    else if tool == codes "Write"
    then some Operation.write
    else if tool == codes "Edit" || tool == codes "MultiEdit"
    then some Operation.modify
    else none

unfoldable pub path_events :
    SessionKey → FilePath → Operation → Option Str → ℤ → Source → List FileEvent
unfolding file_event parse
path_events key cwd operation none at source = []
path_events key cwd operation (some []) at source = []
path_events key cwd operation (some (c ∷ cs)) at source =
    file_event key cwd (parse (c ∷ cs)) at operation source ∷ []

unfoldable pub claude_events : SessionKey → FilePath → Str → Value → ℤ → Source → List FileEvent
unfolding claude_operation path_events index
claude_events key cwd tool input at source = elim (claude_operation tool) [
  | none ↦ []
  | some operation ↦
      path_events key cwd operation (as_str (index (codes "file_path") input)) at source
]

abbrev pub rename_to : FilePath → FilePath → FileEvent → FileEvent
rename_to cwd path e = record e {
  previous_path = some e.path;
  path = resolve_path cwd path;
  operation = Operation.rename;
}

-- The last event, if it updates a file, becomes a rename.
unfoldable pub rename_last : FilePath → Str → List FileEvent → List FileEvent
unfolding resolve_path parse Operation_discrete
rename_last cwd path [] = []
rename_last cwd path (e ∷ []) =
    if e.operation == Operation.modify && not (is_empty path)
    then rename_to cwd (parse path) e ∷ []
    else e ∷ []
rename_last cwd path (e ∷ f ∷ es) = e ∷ rename_last cwd path (f ∷ es)

unfoldable pub header_events : SessionKey → FilePath → Str → ℤ → Source → List FileEvent
unfolding strip_text path_events
header_events key cwd line at source =
    path_events key cwd Operation.create (strip_text (codes "*** Add File: ") line) at source
    ++ (path_events key cwd Operation.modify (strip_text (codes "*** Update File: ") line) at source
        ++ path_events key cwd Operation.delete (strip_text (codes "*** Delete File: ") line) at
            source)

-- One line of a patch.
unfoldable pub patch_line :
    SessionKey → FilePath → ℤ → Source → Str → List FileEvent → List FileEvent
unfolding strip_text rename_last header_events
patch_line key cwd at source line events = elim (strip_text (codes "*** Move to: ") line) [
  | some path ↦ rename_last cwd path events
  | none ↦ events ++ header_events key cwd line at source
]

-- The loop over the lines of a patch.
unfoldable pub patch_loop :
    SessionKey → FilePath → ℤ → Source → List Str → List FileEvent → List FileEvent
unfolding patch_line
patch_loop key cwd at source [] events = events
patch_loop key cwd at source (line ∷ lines) events =
    patch_loop key cwd at source lines (patch_line key cwd at source line events)

abbrev pub is_whole_patch : List Str → Bool
is_whole_patch lines =
    head? lines == some (codes "*** Begin Patch") && last? lines == some (codes "*** End Patch")

unfoldable pub patch_events : SessionKey → FilePath → Str → ℤ → Source → List FileEvent
unfolding trim_text text_lines patch_loop Str_discrete option_discrete
patch_events key cwd patch at source =
    let lines = text_lines (trim_text patch) in
    if not (is_whole_patch lines) then [] else patch_loop key cwd at source lines []

unfoldable pub codex_events : SessionKey → FilePath → Str → Value → ℤ → Source → List FileEvent
unfolding patch_events index Str_discrete
codex_events key cwd tool input at source =
    if not (tool == codes "apply_patch")
    then []
    else patch_events key cwd (str_or_empty (as_str (index (codes "command") input))) at source

-- `Harness::tool_events`.
unfoldable pub harness_events :
    Harness → SessionKey → FilePath → Str → Value → ℤ → Source → List FileEvent
unfolding claude_events codex_events
harness_events Harness.claude key cwd tool input at source =
    claude_events key cwd tool input at source
harness_events Harness.codex key cwd tool input at source =
    codex_events key cwd tool input at source
