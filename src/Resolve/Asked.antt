-- ===== src/Resolve/Asked.antt =====
-- A server is asked once for the focus (src/session.rs).
-- Every server stands once among the calls.
use peekback.Base.{[], nat_eq, none, option_eq, str_eq, ◌∷◌, ◌≡◌}
use peekback.Base.Int.{int_eq}
use peekback.Base.Paths.{path_eq}
use peekback.Harness.{Harness, harness_eq}
use peekback.Mux.{mux_eq, pane_eq}
use peekback.Resolve.{Asked, answer_of, server_eq}
use peekback.Session.{Session, turn_eq}

abbrev pub AskedOnce : Asked → Type 0
AskedOnce [] = Unit
AskedOnce ((s, a) ∷ asked) = (answer_of asked s ≡ none) × AskedOnce asked
