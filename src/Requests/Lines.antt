-- ===== src/Requests/Lines.antt =====
-- What a request that was read is, and when its loop ends (src/daemon/server.rs).
use mathlib.Core.List.{append_assoc}
use peekback.Base.{
  ==_iff, All, All-append, Bool, Bool-cases, Error, List, Option, [], all, any, ap, arith, codes,
  contains, either_branch, err, false, if◌then◌else◌, inl, inr, is_empty, leb, leb→le, length,
  nat_eq, none, not, ok, option_eq, refl, some, some-injective, str_eq, subst, sym, true, ℕ, ◌++◌,
  ◌+◌, ◌-◌, ◌==◌, ◌∙◌, ◌∷◌, ◌≡◌, ◌≤◌, ◌⊎◌,
}
use peekback.Base.Int.{int_eq}
use peekback.Base.Paths.{path_eq}
use peekback.Capture.{recorded_turn_eq, turns}
use peekback.Daemon.Events.{answer}
use peekback.Requests.{
  LoopTurn, PollAnswer, ReadAnswer, RequestLine, after_turn, apply_deadline, apply_timeout,
  before_newline, end_or_continue, max_request, newline, read_request, received, reply_margin,
}
use peekback.Store.Maintenance.Commit.{ok-injective}

left_cases : (e w : ℕ) → (e - w - reply_margin ≡ 0) ⊎ (e - w - reply_margin + reply_margin + w ≡ e)
left_cases e w = elim (Bool-cases (leb (w + reply_margin) e)) [
  | inl y ↦ inr (omega (arith, leb→le (w + reply_margin) e y))
  | inr n ↦ inl (ground (arith, n))
]

-- A request is applied within two seconds, and its reply leaves the client the margin before its
-- expiry, unless no time is left at all.
pub apply_deadline_lem :
    (expires_at_ms now wall_ms : ℕ)
    → (apply_deadline (some expires_at_ms) now wall_ms ≤ now + apply_timeout)
      × ((apply_deadline (some expires_at_ms) now wall_ms ≡ now)
          ⊎ (apply_deadline (some expires_at_ms) now wall_ms + reply_margin + wall_ms
              ≤ now + expires_at_ms))
unfolding apply_deadline
apply_deadline_lem expires_at_ms now wall_ms =
    let left = expires_at_ms - wall_ms - reply_margin in
    elim (left_cases expires_at_ms wall_ms) [
      | inl none_left ↦ elim (Bool-cases (leb (now + apply_timeout) (now + left))) [
        | inl y ↦ absurd (ground (arith, none_left, y))
        | inr n ↦ rw n (omega (arith, none_left), inl (omega (arith, none_left)))
      ]
      | inr some_left ↦ elim (Bool-cases (leb (now + apply_timeout) (now + left))) [
        | inl y ↦
            let within : now + apply_timeout ≤ now + left = leb→le _ _ y in
            rw y (omega arith, inr (omega (arith, within, some_left)))
        | inr n ↦
            let within : now + left ≤ now + apply_timeout = ground (arith, n) in
            rw n (within, inr (omega (arith, some_left)))
      ]
    ]

-- All bytes that the turns of the loop give.
abbrev pub bytes_read : PollAnswer → ReadAnswer → List ℕ
bytes_read PollAnswer.ready (ReadAnswer.bytes bs) = bs
bytes_read _ _ = []

abbrev pub all_bytes : List LoopTurn → List ℕ
all_bytes [] = []
all_bytes (t ∷ turns) = bytes_read t.poll t.read ++ all_bytes turns

abbrev pub is_text_byte : ℕ → Bool
is_text_byte b = not (b == newline)

-- The line is what the bytes hold before their first newline, within the limit.
abbrev pub IsLineOf : List ℕ → List ℕ → Type 0
IsLineOf all line =
    ((rest : List ℕ) × (all ≡ line ++ newline ∷ rest))
    × All (λ b. is_text_byte b ≡ true) line
    × (length line ≤ max_request)

before_newline-text : (bs : List ℕ) → All (λ b. is_text_byte b ≡ true) (before_newline bs)
before_newline-text [] = tt
before_newline-text (b ∷ bs) = elim (Bool-cases (b == newline)) [
  | inl y ↦ rw y tt
  | inr n ↦ rw n (rw n refl, before_newline-text bs)
]

before_newline_split :
    (bs : List ℕ)
    → contains bs newline ≡ true
    → (rest : List ℕ) × (bs ≡ before_newline bs ++ newline ∷ rest)
before_newline_split [] h = absurd (ground arith)
before_newline_split (b ∷ bs) h = elim (Bool-cases (b == newline)) [
  | inl y ↦ let e = (==_iff b newline).0 y in (bs, rw y (ap (λ x. x ∷ bs) e))
  | inr n ↦ let (rest, e) = before_newline_split bs (ground arith) in (rest, rw n (ap (◌∷◌ b) e))
]

before_newline_all : (bs : List ℕ) → contains bs newline ≡ false → before_newline bs ≡ bs
before_newline_all [] h = refl
before_newline_all (b ∷ bs) h = elim (Bool-cases (b == newline)) [
  | inl y ↦ absurd (ground arith)
  | inr n ↦ rw n (ap (◌∷◌ b) (before_newline_all bs (ground arith)))
]

-- The result of a loop, where it is a line, is the line of these bytes.
abbrev GivesLine : List ℕ → Option RequestLine → Type 0
GivesLine all result = (line : List ℕ) → result ≡ some (ok (some line)) → IsLineOf all line

GivesLine-end :
    (b : Bool) (all added : List ℕ) (more : Option RequestLine)
    → (b ≡ true → IsLineOf all added)
    → (b ≡ false → GivesLine all more)
    → GivesLine all (end_or_continue b added more)
GivesLine-end true all added more f g line h =
    subst (IsLineOf all) (some-injective (ok-injective (some-injective h))) (f refl)
GivesLine-end false all added more f g line h = g refl line h

IsLineOf-added :
    (line bs rest : List ℕ)
    → All (λ b. is_text_byte b ≡ true) line
    → contains bs newline ≡ true
    → length (line ++ before_newline bs) ≤ max_request
    → IsLineOf (line ++ (bs ++ rest)) (line ++ before_newline bs)
IsLineOf-added line bs rest t c l =
    let (tail, e) = before_newline_split bs c in
    let start = before_newline bs in
    let split : line ++ (bs ++ rest) ≡ line ++ ((start ++ newline ∷ tail) ++ rest) =
      ap (λ x. line ++ (x ++ rest)) e in
    let joined : line ++ ((start ++ newline ∷ tail) ++ rest)
        ≡ (line ++ start) ++ newline ∷ (tail ++ rest) =
      ap (λ x. line ++ x) (append_assoc start (newline ∷ tail) rest)
      ∙ sym (append_assoc line start (newline ∷ (tail ++ rest))) in
    (
      (tail ++ rest, split ∙ joined),
      All-append (λ b. is_text_byte b ≡ true) line start t (before_newline-text bs),
      l,
    )

GivesLine-some :
    (line bs rest : List ℕ) (more : Option RequestLine)
    → All (λ b. is_text_byte b ≡ true) line
    → (contains bs newline ≡ false → GivesLine (line ++ (bs ++ rest)) more)
    → GivesLine (line ++ (bs ++ rest)) (
        if leb (length (line ++ before_newline bs)) max_request
        then end_or_continue (contains bs newline) (line ++ before_newline bs) more
        else some (err (Error.io (codes "socket request exceeds 64 KiB limit"))))
GivesLine-some line bs rest more t g =
    let added = line ++ before_newline bs in
    either_branch (GivesLine (line ++ (bs ++ rest))) (leb (length added) max_request)
      (end_or_continue (contains bs newline) added more) _
      (λ y.
        GivesLine-end (contains bs newline) (line ++ (bs ++ rest)) added more
          (λ c. IsLineOf-added line bs rest t c (leb→le (length added) max_request y)) g)
      (λ n l h. absurd (ground arith))

GivesLine-received :
    (line bs rest : List ℕ) (more : Option RequestLine)
    → All (λ b. is_text_byte b ≡ true) line
    → (contains bs newline ≡ false → GivesLine (line ++ (bs ++ rest)) more)
    → GivesLine (line ++ (bs ++ rest)) (received line (line ++ before_newline bs) bs more)
GivesLine-received line [] rest more t g =
    either_branch (GivesLine (line ++ ([] ++ rest))) (is_empty line) (some (ok none)) _
      (λ y l h. absurd (ground arith)) (λ n l h. absurd (ground arith))
GivesLine-received line (b ∷ bs) rest more t g = GivesLine-some line (b ∷ bs) rest more t g

GivesLine-after_turn :
    (poll : PollAnswer) (answer : ReadAnswer) (line rest : List ℕ)
    (more : List ℕ → Option RequestLine)
    → All (λ b. is_text_byte b ≡ true) line
    → ((added : List ℕ)
        → All (λ b. is_text_byte b ≡ true) added
        → GivesLine (added ++ rest) (more added))
    → GivesLine (line ++ (bytes_read poll answer ++ rest)) (after_turn poll answer line more)
GivesLine-after_turn PollAnswer.poll_interrupted (ReadAnswer.bytes bs) line rest more t g = g line t
GivesLine-after_turn PollAnswer.poll_interrupted ReadAnswer.would_block line rest more t g =
    g line t
GivesLine-after_turn PollAnswer.poll_interrupted (ReadAnswer.read_failed e) line rest more t g =
    g line t
GivesLine-after_turn PollAnswer.not_ready (ReadAnswer.bytes bs) line rest more t g = g line t
GivesLine-after_turn PollAnswer.not_ready ReadAnswer.would_block line rest more t g = g line t
GivesLine-after_turn PollAnswer.not_ready (ReadAnswer.read_failed e) line rest more t g = g line t
GivesLine-after_turn (PollAnswer.poll_failed e) answer line rest more t g =
    λ l h. absurd (ground arith)
GivesLine-after_turn PollAnswer.ready ReadAnswer.would_block line rest more t g = g line t
GivesLine-after_turn PollAnswer.ready (ReadAnswer.read_failed e) line rest more t g =
    λ l h. absurd (ground arith)
GivesLine-after_turn PollAnswer.ready (ReadAnswer.bytes bs) line rest more t g =
    let added = line ++ before_newline bs in
    GivesLine-received line bs rest (more added) t (λ n.
      let same = before_newline_all bs n in
      let split : added ++ rest ≡ line ++ (bs ++ rest) =
        ap (λ x. (line ++ x) ++ rest) same ∙ append_assoc line bs rest in
      subst (λ all. GivesLine all (more added)) split
        (g added (
          All-append (λ b. is_text_byte b ≡ true) line (before_newline bs) t
            (before_newline-text bs))))

read_request-GivesLine :
    (deadline : ℕ) (turns : List LoopTurn) (line : List ℕ)
    → All (λ b. is_text_byte b ≡ true) line
    → GivesLine (line ++ all_bytes turns) (read_request deadline turns line)
unfolding read_request
read_request-GivesLine deadline [] line t = λ l h. absurd (ground arith)
read_request-GivesLine deadline (u ∷ turns) line t =
    either_branch (GivesLine (line ++ all_bytes (u ∷ turns))) (leb deadline u.now)
      (some (err Error.timed_out)) _ (λ y l h. absurd (ground arith))
      (λ n.
        GivesLine-after_turn u.poll u.read line (all_bytes turns)
          (λ added. read_request deadline turns added) t (read_request-GivesLine deadline turns))

-- A request that is read is what the client sent before its first newline, and no longer than the
-- limit.
pub read_request-IsLineOf :
    (deadline : ℕ) (turns : List LoopTurn) (line : List ℕ)
    → read_request deadline turns [] ≡ some (ok (some line))
    → IsLineOf (all_bytes turns) line
read_request-IsLineOf deadline turns line h = read_request-GivesLine deadline turns [] tt line h

abbrev pub has_ended : Option RequestLine → Bool
has_ended none = false
has_ended (some result) = true

end_or_continue-has_ended :
    (b : Bool) (added : List ℕ) (more : Option RequestLine)
    → has_ended more ≡ true
    → has_ended (end_or_continue b added more) ≡ true
end_or_continue-has_ended true added more h = refl
end_or_continue-has_ended false added more h = h

received-has_ended :
    (line added bs : List ℕ) (more : Option RequestLine)
    → has_ended more ≡ true
    → has_ended (received line added bs more) ≡ true
received-has_ended line added [] more h = ground arith
received-has_ended line added (b ∷ bs) more h =
    either_branch (λ r. has_ended r ≡ true) (leb (length added) max_request) _ _
      (λ y. end_or_continue-has_ended (contains (b ∷ bs) newline) added more h) (λ n. refl)

after_turn-has_ended :
    (poll : PollAnswer) (answer : ReadAnswer) (line : List ℕ) (more : List ℕ → Option RequestLine)
    → ((added : List ℕ) → has_ended (more added) ≡ true)
    → has_ended (after_turn poll answer line more) ≡ true
after_turn-has_ended PollAnswer.poll_interrupted answer line more h = h line
after_turn-has_ended PollAnswer.not_ready answer line more h = h line
after_turn-has_ended (PollAnswer.poll_failed e) answer line more h = refl
after_turn-has_ended PollAnswer.ready ReadAnswer.would_block line more h = h line
after_turn-has_ended PollAnswer.ready (ReadAnswer.read_failed e) line more h = refl
after_turn-has_ended PollAnswer.ready (ReadAnswer.bytes bs) line more h =
    received-has_ended line (line ++ before_newline bs) bs _ (h _)

-- Whatever a client sends, the reading of its request has ended once the clock has reached the
-- deadline.
pub read_request-has_ended :
    (deadline : ℕ) (turns : List LoopTurn) (line : List ℕ)
    → any (λ t. leb deadline t.now) turns ≡ true
    → has_ended (read_request deadline turns line) ≡ true
unfolding read_request
read_request-has_ended deadline [] line h = absurd (ground arith)
read_request-has_ended deadline (t ∷ turns) line h =
    either_branch (λ r. has_ended r ≡ true) (leb deadline t.now) _ _ (λ y. refl)
      (λ n.
        let later : any (λ t. leb deadline t.now) turns ≡ true = ground arith in
        after_turn-has_ended t.poll t.read line _
          (λ added. read_request-has_ended deadline turns added later))
