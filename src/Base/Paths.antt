-- ===== src/Base/Paths.antt =====
-- `std::path` as the program uses it. A path is its components: separators that repeat and `.`
-- after the first place are gone, as `Path::components` and the equality of paths have it.
use peekback.Base.Tests.{Str, Str_discrete, Eq, ◌==◌, codes, if◌then◌else◌, nat_eq, str_eq}
use Prim.Native.Nat.{ℕ}
use mathlib.Core.Bool.{Bool, true, false, ◌||◌}
use mathlib.Core.List.{List, [], ◌∷◌, ◌++◌}
use mathlib.Core.Option.{Option, none, some}
use native.Mathlib.Decide.{ℕ_discrete}

pub data Component : Type 0 where
  root_dir cur_dir parent_dir : Component
  normal : Str → Component

abbrev pub FilePath : Type 0
FilePath = List Component

unfoldable pub Component_discrete : Discrete Component
unfolding Str_discrete
Component_discrete = hlevel ℕ_discrete

unfoldable pub FilePath_discrete : Discrete FilePath
unfolding Component_discrete ℕ_discrete
FilePath_discrete = hlevel ℕ_discrete

instance abbrev pub path_eq : Eq FilePath
path_eq = record { dec = FilePath_discrete }

abbrev pub is_absolute : FilePath → Bool
is_absolute (root_dir ∷ p) = true
is_absolute _ = false

-- `a.join(b)`: an absolute `b` replaces `a`, and a `.` in front of `b` is dropped behind `a`.
unfoldable pub join : FilePath → FilePath → FilePath
join [] b = b
join (c ∷ a) (root_dir ∷ b) = root_dir ∷ b
join (c ∷ a) (cur_dir ∷ b) = c ∷ a ++ b
join (c ∷ a) b = c ∷ a ++ b

-- `PathBuf::pop`: the root and the empty path have no parent.
unfoldable pub pop : FilePath → FilePath
pop [] = []
pop (root_dir ∷ []) = root_dir ∷ []
pop (c ∷ []) = []
pop (c ∷ d ∷ p) = c ∷ pop (d ∷ p)

-- `PathBuf::push` of one component.
unfoldable pub push : FilePath → Component → FilePath
push p root_dir = root_dir ∷ []
push p c = p ++ c ∷ []

-- `Path::parent` and `Path::file_name`.
unfoldable pub parent : FilePath → Option FilePath
parent [] = none
parent (root_dir ∷ []) = none
parent (c ∷ p) = some (pop (c ∷ p))

unfoldable pub file_name : FilePath → Option Str
file_name [] = none
file_name (normal s ∷ []) = some s
file_name (c ∷ []) = none
file_name (c ∷ d ∷ p) = file_name (d ∷ p)

-- `Path::strip_prefix`, by whole components; `starts_with` is that it succeeds.
unfoldable pub strip_prefix : FilePath → FilePath → Option FilePath
strip_prefix p [] = some p
strip_prefix [] (d ∷ q) = none
strip_prefix (c ∷ p) (d ∷ q) = elim (Component_discrete c d) [
  | yes _ ↦ strip_prefix p q
  | no _ ↦ none
]

unfoldable pub starts_with : FilePath → FilePath → Bool
unfolding strip_prefix
starts_with p q = elim (strip_prefix p q) [ some _ ↦ true | none ↦ false ]

-- `Path::new(text).components()`: the text between separators, and the root of a text that begins
-- with one.
-- One more character in front of the segments of a text.
unfoldable pub segment_cons : Bool → ℕ → List Str → List Str
segment_cons true c rest = [] ∷ rest
segment_cons false c [] = (c ∷ []) ∷ []
segment_cons false c (s ∷ rest) = (c ∷ s) ∷ rest

unfoldable pub segments : Str → List Str
unfolding segment_cons ℕ_discrete
segments [] = [] ∷ []
segments (c ∷ cs) = segment_cons (c == b'/') c (segments cs)

unfoldable pub component : Str → Component
unfolding Str_discrete
component s = if s == codes "." then cur_dir else if s == codes ".." then parent_dir else normal s

-- Empty segments and, behind the first place, `.` are no components.
unfoldable pub later_components : List Str → FilePath
unfolding component Str_discrete
later_components [] = []
later_components (s ∷ rest) =
    let more = later_components rest in
    if s == [] || s == codes "." then more else component s ∷ more

unfoldable pub first_components : List Str → FilePath
unfolding later_components component Str_discrete
first_components [] = []
first_components (s ∷ rest) =
    if s == [] then later_components rest else component s ∷ later_components rest

unfoldable pub parse : Str → FilePath
unfolding segments first_components later_components ℕ_discrete
parse [] = []
parse (c ∷ cs) =
    if c == b'/'
    then root_dir ∷ later_components (segments cs)
    else first_components (segments (c ∷ cs))
