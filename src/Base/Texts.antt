-- ===== src/Base/Texts.antt =====
-- Operations of the program's standard library on texts.
use Prim.Native.Nat.{ℕ}
use mathlib.Core.Bool.{Bool, ◌&&◌, ◌||◌}
use mathlib.Core.List.{List, [], ◌∷◌, map, reverse}
use mathlib.Core.Option.{Option, none, some}
use native.Mathlib.Decide.{ℕ_discrete}
use peekback.Base.Tests.{Str, leb, ◌==◌, if◌then◌else◌, nat_eq}

-- `trim` and `lines` of texts.
unfoldable pub is_whitespace : ℕ → Bool
unfolding ℕ_discrete
is_whitespace c =
    leb 9 c && leb c 13
    || c == 32
    || c == 133
    || c == 160
    || c == 5760
    || leb 8192 c && leb c 8202
    || c == 8232
    || c == 8233
    || c == 8239
    || c == 8287
    || c == 12288

unfoldable pub trim_start : Str → Str
unfolding is_whitespace
trim_start [] = []
trim_start (c ∷ cs) = if is_whitespace c then trim_start cs else c ∷ cs

unfoldable pub trim_text : Str → Str
unfolding trim_start
trim_text s = reverse (trim_start (reverse (trim_start s)))

abbrev pub line_cons : ℕ → List Str → List Str
line_cons c [] = (c ∷ []) ∷ []
line_cons c (l ∷ ls) = (c ∷ l) ∷ ls

unfoldable pub split_lines : Str → List Str
unfolding ℕ_discrete
split_lines [] = []
split_lines (c ∷ cs) = if c == 10 then [] ∷ split_lines cs else line_cons c (split_lines cs)

unfoldable pub without_return : Str → Str
unfolding ℕ_discrete
without_return [] = []
without_return (c ∷ []) = if c == 13 then [] else c ∷ []
without_return (c ∷ d ∷ cs) = c ∷ without_return (d ∷ cs)

-- The lines of a trimmed text, whose last one ends with no carriage return.
unfoldable pub text_lines : Str → List Str
unfolding split_lines without_return
text_lines s = map without_return (split_lines s)

abbrev pub last? {ℓ} : {A : Type ℓ} → List A → Option A
last? [] = none
last? (x ∷ []) = some x
last? (x ∷ y ∷ xs) = last? (y ∷ xs)

-- `str::strip_prefix`.
unfoldable pub strip_text : Str → Str → Option Str
unfolding ℕ_discrete
strip_text [] text = some text
strip_text (p ∷ ps) [] = none
strip_text (p ∷ ps) (c ∷ cs) = if p == c then strip_text ps cs else none
