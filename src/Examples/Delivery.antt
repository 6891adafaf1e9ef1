-- ===== src/Examples/Delivery.antt =====
-- The theorems on delivery at the session of `Data`.
use peekback.Base.{All, codes, keep, nat_eq, none, option_eq, some, str_eq, true, ◌++◌, ◌≡◌}
use peekback.Base.Int.{int_eq}
use peekback.Base.Paths.{path_eq}
use peekback.Examples.Data.{session_s, still_moment, still_timeline, working_channels}
use peekback.Mux.{mux_eq, on_agent_tty, pane_eq}
use peekback.Mux.Panes.{is_unknown, is_verified, on_agent_tty_lem}
use peekback.Resolve.{server_eq}
use peekback.Send.{backend_eq, is_text, paste_safe, select, send}
use peekback.Send.Safety.{Sound, send-Sound}
use peekback.Send.Selection.{Selects, select-Selects}
use peekback.Send.Text.{EndsWithNewline, paste_safe_clean}

send-Sound_example :
    Sound still_timeline session_s
      (codes "hi\n")
      none
      (send working_channels still_timeline session_s (codes "hi\n") none).0
send-Sound_example = send-Sound working_channels still_timeline session_s (codes "hi\n") none

select-Selects_example :
    Selects session_s none
      (some 3)
      still_moment.inspect
      (select session_s none (some 3) still_moment.inspect)
select-Selects_example = select-Selects session_s none (some 3) still_moment.inspect

paste_safe_clean_example :
    All (λ c. is_text c ≡ true) (paste_safe (codes "a\n\n"))
    × (¬ EndsWithNewline (paste_safe (codes "a\n\n")))
    × (paste_safe (paste_safe (codes "a\n\n")) ≡ paste_safe (codes "a\n\n"))
paste_safe_clean_example = paste_safe_clean (codes "a\n\n")

on_agent_tty_lem_example :
    (on_agent_tty session_s.terminal.panes (some 3) (λ p. none)
      ≡ keep (is_verified 3 (λ p. none)) session_s.terminal.panes
        ++ keep (is_unknown (λ p. none)) session_s.terminal.panes)
    × (on_agent_tty session_s.terminal.panes none (λ p. none) ≡ session_s.terminal.panes)
on_agent_tty_lem_example = on_agent_tty_lem session_s.terminal.panes 3 (λ p. none)
