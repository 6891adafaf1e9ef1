-- ===== src/Requests.antt =====
-- src/daemon/server.rs: the reading of a request from a client and the time it may still be applied.
-- Instants and durations are milliseconds. What the clock, `poll` and `read` give in each turn of the
-- loop is an argument.
pub mod Lines
use peekback.Base.{
  Bool, Error, List, Option, Result, [], codes, contains, err, false, if◌then◌else◌, is_empty, leb,
  length, nat_eq, none, ok, option_eq, some, str_eq, true, ℕ, ℕ_discrete, ◌*◌, ◌++◌, ◌+◌, ◌-◌, ◌==◌,
  ◌∷◌,
}
use peekback.Base.Int.{int_eq}
use peekback.Base.Paths.{path_eq}
use peekback.Capture.{recorded_turn_eq, turns}
use peekback.Daemon.Events.{answer}
use peekback.Daemon.Loop.{poll}
use peekback.Store.{read}

abbrev pub apply_timeout : ℕ
apply_timeout = 2000

abbrev pub reply_margin : ℕ
reply_margin = 250

-- Subtraction stops at zero, as that of the program does.
unfoldable pub apply_deadline : Option ℕ → ℕ → ℕ → ℕ
apply_deadline none now wall_ms = now + apply_timeout
apply_deadline (some expires_at_ms) now wall_ms =
    let own = now + apply_timeout in
    let left = expires_at_ms - wall_ms - reply_margin in
    if leb own (now + left) then own else now + left

pub data PollAnswer : Type 0 where
  poll_interrupted not_ready ready : PollAnswer
  poll_failed : Error → PollAnswer

-- No bytes mean that the client has hung up.
pub data ReadAnswer : Type 0 where
  would_block : ReadAnswer
  read_failed : Error → ReadAnswer
  bytes : List ℕ → ReadAnswer

pub record LoopTurn : Type 0 where
  pub now : ℕ
  pub poll : PollAnswer
  pub read : ReadAnswer

abbrev pub newline : ℕ
newline = 10

-- What stands before the newline, or everything, and whether there is one.
abbrev pub before_newline : List ℕ → List ℕ
before_newline [] = []
before_newline (b ∷ bs) = if b == newline then [] else b ∷ before_newline bs

abbrev pub max_request : ℕ
max_request = 64 * 1024

-- What a request may come to: nothing from a client that hangs up at once, or a line.
abbrev pub RequestLine : Type 0
RequestLine = Result (Option (List ℕ))

abbrev pub end_or_continue : Bool → List ℕ → Option RequestLine → Option RequestLine
end_or_continue true line more = some (ok (some line))
end_or_continue false line more = more

-- A read gave bytes: `line` is what there was, `added` with them.
abbrev pub received : List ℕ → List ℕ → List ℕ → Option RequestLine → Option RequestLine
received line added [] more =
    if is_empty line
    then some (ok none)
    else some (err (Error.io (codes "incomplete socket request")))
received line added (b ∷ bs) more =
    if leb (length added) max_request
    then end_or_continue (contains (b ∷ bs) newline) added more
    else some (err (Error.io (codes "socket request exceeds 64 KiB limit")))

-- One turn of the loop, `more` being the turns behind it.
abbrev pub after_turn :
    PollAnswer → ReadAnswer → List ℕ → (List ℕ → Option RequestLine) → Option RequestLine
after_turn PollAnswer.poll_interrupted answer line more = more line
after_turn PollAnswer.not_ready answer line more = more line
after_turn (PollAnswer.poll_failed e) answer line more = some (err e)
after_turn PollAnswer.ready ReadAnswer.would_block line more = more line
after_turn PollAnswer.ready (ReadAnswer.read_failed e) line more = some (err e)
after_turn PollAnswer.ready (ReadAnswer.bytes bs) line more =
    received line (line ++ before_newline bs) bs (more (line ++ before_newline bs))

-- The loop; `none` where it is still waiting after these turns.
unfoldable pub read_request : ℕ → List LoopTurn → List ℕ → Option RequestLine
unfolding ℕ_discrete
read_request deadline [] line = none
read_request deadline (t ∷ turns) line =
    if leb deadline t.now
    then some (err Error.timed_out)
    else after_turn t.poll t.read line (λ added. read_request deadline turns added)
