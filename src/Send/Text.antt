-- ===== src/Send/Text.antt =====
-- What `paste_safe` lets through (src/send.rs).
use peekback.Base.{
  All, All-keep, Bool, Bool-cases, Str, Str_discrete, [], arith, false, inl, inr, keep, keep-All,
  nat_eq, option_eq, refl, str_eq, true, ℕ, ◌&&◌, ◌==◌, ◌∷◌, ◌≡◌, ◌≢◌,
}
use peekback.Base.Int.{int_eq}
use peekback.Base.Paths.{path_eq}
use peekback.Send.{backend_eq, is_text, paste_safe, trim_end, unix_newlines}

abbrev pub EndsWithNewline : Str → Type 0
EndsWithNewline [] = ⊥
EndsWithNewline (c ∷ []) = c ≡ b'\n'
EndsWithNewline (c ∷ d ∷ cs) = EndsWithNewline (d ∷ cs)

trim_end-All : (P : ℕ → Type 0) (s : Str) → All P s → All P (trim_end s)
unfolding trim_end
trim_end-All P [] h = tt
trim_end-All P (c ∷ cs) h = elim (Bool-cases (c == b'\n' && trim_end cs == [])) [
  | inl dropped ↦ rw dropped tt
  | inr kept ↦ rw kept (h.0, trim_end-All P cs h.1)
]

ends_kept :
    (c : ℕ) (rest : Str)
    → ¬ EndsWithNewline rest
    → (c == b'\n' && rest == []) ≡ false
    → ¬ EndsWithNewline (c ∷ rest)
unfolding Str_discrete
ends_kept c [] h k = λ e. ground arith
ends_kept c (d ∷ rest) h k = h

trim_end-end : (s : Str) → ¬ EndsWithNewline (trim_end s)
unfolding trim_end
trim_end-end [] = λ h. h
trim_end-end (c ∷ cs) = elim (Bool-cases (c == b'\n' && trim_end cs == [])) [
  | inl dropped ↦ rw dropped (λ h. h)
  | inr kept ↦ rw kept (ends_kept c (trim_end cs) (trim_end-end cs) kept)
]

trim_end_step :
    (c : ℕ) (cs : Str)
    → trim_end cs ≡ cs
    → (c == b'\n' && cs == []) ≡ false
    → trim_end (c ∷ cs) ≡ c ∷ cs
unfolding trim_end
trim_end_step c cs e k = rw (e, k)

more_follows : (c d : ℕ) (cs : Str) → (c == b'\n' && (d ∷ cs) == []) ≡ false
unfolding Str_discrete
more_follows c d cs = ground arith

no_newline : (c : ℕ) → c ≢ b'\n' → (c == b'\n' && ◌==◌ {A = Str} [] []) ≡ false
no_newline c h = ground arith

-- Without a newline at the end there is nothing to trim.
trim_end_fixed : (s : Str) → ¬ EndsWithNewline s → trim_end s ≡ s
unfolding trim_end
trim_end_fixed [] h = refl
trim_end_fixed (c ∷ []) h = trim_end_step c [] refl (no_newline c h)
trim_end_fixed (c ∷ d ∷ cs) h =
    trim_end_step c (d ∷ cs) (trim_end_fixed (d ∷ cs) h) (more_follows c d cs)

no_return : (c : ℕ) (b : Bool) → is_text c ≡ true → (c == 13 && b) ≡ false
unfolding is_text
no_return c b h = ground arith

unix_newlines_step :
    (c d : ℕ) (cs : Str)
    → (c == 13 && d == b'\n') ≡ false
    → unix_newlines (d ∷ cs) ≡ d ∷ cs
    → unix_newlines (c ∷ d ∷ cs) ≡ c ∷ d ∷ cs
unfolding unix_newlines
unix_newlines_step c d cs k e = rw (k, e)

unix_newlines_fixed : (s : Str) → All (λ c. is_text c ≡ true) s → unix_newlines s ≡ s
unfolding unix_newlines
unix_newlines_fixed [] h = refl
unix_newlines_fixed (c ∷ []) h = refl
unix_newlines_fixed (c ∷ d ∷ cs) h =
    unix_newlines_step c d cs (no_return c _ h.0) (unix_newlines_fixed (d ∷ cs) h.1)

-- The text that is handed over holds only tabs, newlines and characters that are no control
-- characters, and does not end with a newline; making it safe again changes nothing.
pub paste_safe_clean :
    (text : Str)
    → All (λ c. is_text c ≡ true) (paste_safe text)
      × (¬ EndsWithNewline (paste_safe text))
      × (paste_safe (paste_safe text) ≡ paste_safe text)
unfolding paste_safe
paste_safe_clean text =
    let kept = keep is_text (unix_newlines text) in
    let clean = trim_end-All (λ c. is_text c ≡ true) kept (All-keep is_text (unix_newlines text)) in
    let ends = trim_end-end kept in
    (
      clean,
      ends,
      rw (
        unix_newlines_fixed (trim_end kept) clean,
        keep-All is_text (trim_end kept) clean,
        trim_end_fixed (trim_end kept) ends,
      ),
    )
