-- ===== src/Capture/Overlap/Named.antt =====
-- Which sessions a capture names beside its own, as turns and places tell (src/capture.rs).
use peekback.Activity.{FileEvent, SessionKey, key_eq, operation_eq, outcome_eq, source_eq}
use peekback.Base.{
  Bool, List, any, false, find, nat_eq, none, not, option_eq, some, str_eq, ◌&&◌, ◌==◌, ◌||◌,
}
use peekback.Base.Int.{int_eq, lez, ltz, maxz, pos, ℤ, ◌+ℤ◌}
use peekback.Base.Paths.{FilePath, path_eq, starts_with}
use peekback.Capture.{Found, TurnHistory, is_recorded, recorded_turn_eq, turns}
use peekback.Session.{
  Os, Session, Turn, activity_key, agent_alive, last_agent_activity, memory_dir, turn_eq,
}

-- The time lies in the turn, with two seconds on either side.
abbrev pub within : Turn → ℤ → Bool
within turn at = lez turn.started_at (at +ℤ pos 2) && lez at (turn.ended_at +ℤ pos 2)

-- The path is in the working directory of the session or in its memory.
abbrev pub in_place : FilePath → Session → Bool
in_place path other =
    starts_with path other.cwd
    || elim (memory_dir other) [ none ↦ false | some dir ↦ starts_with path dir ]

-- The open turn of a session, if it has one, has begun by the time, at most two seconds later; and
-- either its agent runs and was active in the ten minutes before `now`, or the time is at most two
-- seconds after its last activity.
abbrev pub in_open_turn : Os → Session → ℤ → ℤ → Bool
in_open_turn os other now at = elim other.turn_started_at [
  | none ↦ false
  | some began ↦
      let last = maxz (last_agent_activity os other) began in
      lez began (at +ℤ pos 2)
      && (agent_alive os other && ltz now (last +ℤ pos 600) || lez at (last +ℤ pos 2))
]

-- The session was at work at the time: in a recent turn that is not recorded, or in its open one.
abbrev pub at_work : Os → List TurnHistory → ℤ → ℤ → Session → Bool
at_work os histories now at other =
    any
      (λ turn.
        not (is_recorded (find (λ h. h.session == activity_key other) histories) turn)
        && within turn at)
      other.recent_turns
    || in_open_turn os other now at

-- The session `k`, which is not the one captured, is registered and was at work where the file is.
abbrev pub is_live_at : Found → Session → FileEvent → SessionKey → Session → Bool
is_live_at found session event k other =
    not (activity_key other == activity_key session)
    && ((in_place event.path other
          && at_work found.os found.histories found.now event.timestamp other)
        && activity_key other == k)

-- A turn recorded of the session `k`, which is not the one captured, has the time and the file.
abbrev pub is_recorded_at : Session → FileEvent → SessionKey → TurnHistory → Bool
is_recorded_at session event k history =
    not (history.session == activity_key session)
    && any (λ r. within r.turn event.timestamp && any (λ dir. starts_with event.path dir) r.roots)
        history.turns
    && history.session == k
