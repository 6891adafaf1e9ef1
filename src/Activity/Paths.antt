-- ===== src/Activity/Paths.antt =====
-- What the names and paths of the activity library guarantee (crates/session-activity/src/lib.rs).
use mathlib.Core.List.{append-nil, append_assoc}
use peekback.Activity.{
  id_char, key_eq, operation_eq, outcome_eq, resolve_from, resolve_path, source_eq, valid_id,
}
use peekback.Base.{
  All, Bool, Str, [], all, all-cons, ap, arith, codes, false, nat_eq, not, option_eq, refl, str_eq,
  sym, true, ℕ, ◌&&◌, ◌++◌, ◌==◌, ◌∙◌, ◌∷◌, ◌≡◌,
}
use peekback.Base.Int.{int_eq}
use peekback.Base.Paths.{
  Component, FilePath, component, first_components, is_absolute, join, later_components, parse,
  path_eq, pop, push, segment_cons, segments,
}

abbrev pub IsNormal : Component → Type 0
IsNormal (Component.normal s) = Unit
IsNormal _ = ⊥

-- Names only, behind a root if there is one.
abbrev pub IsClean : FilePath → Type 0
IsClean (Component.root_dir ∷ p) = All IsNormal p
IsClean p = All IsNormal p

All-pop : (p : FilePath) → All IsNormal p → All IsNormal (pop p)
unfolding pop
All-pop [] h = tt
All-pop (Component.normal s ∷ []) h = tt
All-pop (Component.normal s ∷ d ∷ p) h = (tt, All-pop (d ∷ p) h.1)
All-pop (c ∷ p) h = absurd (ground arith)

All-snoc : (p : FilePath) (s : Str) → All IsNormal p → All IsNormal (p ++ Component.normal s ∷ [])
All-snoc [] s h = (tt, tt)
All-snoc (c ∷ p) s h = (h.0, All-snoc p s h.1)

IsClean-pop : (p : FilePath) → IsClean p → IsClean (pop p)
unfolding pop
IsClean-pop [] h = tt
IsClean-pop (Component.root_dir ∷ []) h = tt
IsClean-pop (Component.root_dir ∷ d ∷ p) h = All-pop (d ∷ p) h
IsClean-pop (Component.normal s ∷ []) h = tt
IsClean-pop (Component.normal s ∷ d ∷ p) h = (tt, All-pop (d ∷ p) h.1)
IsClean-pop (c ∷ p) h = absurd (ground arith)

IsClean-push : (p : FilePath) (s : Str) → IsClean p → IsClean (p ++ Component.normal s ∷ [])
IsClean-push [] s h = (tt, tt)
IsClean-push (Component.root_dir ∷ p) s h = All-snoc p s h
IsClean-push (Component.normal t ∷ p) s h = (tt, All-snoc p s h.1)
IsClean-push (c ∷ p) s h = absurd (ground arith)

resolve_from-IsClean : (r p : FilePath) → IsClean r → IsClean (resolve_from r p)
unfolding resolve_from push
resolve_from-IsClean r [] h = h
resolve_from-IsClean r (Component.cur_dir ∷ p) h = resolve_from-IsClean r p h
resolve_from-IsClean r (Component.parent_dir ∷ p) h =
    resolve_from-IsClean (pop r) p (IsClean-pop r h)
resolve_from-IsClean r (Component.root_dir ∷ p) h =
    resolve_from-IsClean (Component.root_dir ∷ []) p tt
resolve_from-IsClean r (Component.normal s ∷ p) h =
    resolve_from-IsClean (r ++ Component.normal s ∷ []) p (IsClean-push r s h)

rooted-pop : (p : FilePath) → is_absolute p ≡ true → is_absolute (pop p) ≡ true
unfolding pop
rooted-pop (Component.root_dir ∷ []) h = refl
rooted-pop (Component.root_dir ∷ d ∷ p) h = refl
rooted-pop [] h = cc
rooted-pop (c ∷ p) h = cc

rooted-append : (p q : FilePath) → is_absolute p ≡ true → is_absolute (p ++ q) ≡ true
rooted-append (Component.root_dir ∷ p) q h = refl
rooted-append [] q h = cc
rooted-append (c ∷ p) q h = cc

-- A rooted result stays rooted.
resolve_from-rooted :
    (r p : FilePath) → is_absolute r ≡ true → is_absolute (resolve_from r p) ≡ true
unfolding resolve_from push
resolve_from-rooted r [] h = h
resolve_from-rooted r (Component.cur_dir ∷ p) h = resolve_from-rooted r p h
resolve_from-rooted r (Component.parent_dir ∷ p) h = resolve_from-rooted (pop r) p (rooted-pop r h)
resolve_from-rooted r (Component.root_dir ∷ p) h =
    resolve_from-rooted (Component.root_dir ∷ []) p refl
resolve_from-rooted r (Component.normal s ∷ p) h =
    resolve_from-rooted (r ++ Component.normal s ∷ []) p
      (rooted-append r (Component.normal s ∷ []) h)

resolve_from_clean : (r p : FilePath) → All IsNormal p → resolve_from r p ≡ r ++ p
unfolding resolve_from push
resolve_from_clean r [] h = sym (append-nil r)
resolve_from_clean r (Component.normal s ∷ p) h =
    resolve_from_clean (r ++ Component.normal s ∷ []) p h.1 ∙ append_assoc r _ p
resolve_from_clean r (c ∷ p) h = absurd (ground arith)

absolute_clean :
    (p : FilePath)
    → is_absolute p ≡ true
    → IsClean p
    → (q : FilePath) × (p ≡ Component.root_dir ∷ q) × All IsNormal q
absolute_clean (Component.root_dir ∷ q) a c = (q, refl, c)
absolute_clean [] a c = cc
absolute_clean (Component.normal s ∷ q) a c = cc
absolute_clean (c ∷ q) a h = absurd (ground arith)

join_absolute : (c q : FilePath) → join c (Component.root_dir ∷ q) ≡ Component.root_dir ∷ q
unfolding join
join_absolute [] q = refl
join_absolute (d ∷ c) q = refl

is_absolute-join : (c p : FilePath) → is_absolute c ≡ true → is_absolute (join c p) ≡ true
unfolding join
is_absolute-join (Component.root_dir ∷ c) [] h = refl
is_absolute-join (Component.root_dir ∷ c) (Component.root_dir ∷ p) h = refl
is_absolute-join (Component.root_dir ∷ c) (Component.cur_dir ∷ p) h = refl
is_absolute-join (Component.root_dir ∷ c) (Component.parent_dir ∷ p) h = refl
is_absolute-join (Component.root_dir ∷ c) (Component.normal s ∷ p) h = refl
is_absolute-join [] p h = cc
is_absolute-join (d ∷ c) p h = cc

resolve_from-absolute :
    (p : FilePath) → is_absolute p ≡ true → is_absolute (resolve_from [] p) ≡ true
unfolding resolve_from push
resolve_from-absolute (Component.root_dir ∷ p) h =
    resolve_from-rooted (Component.root_dir ∷ []) p refl
resolve_from-absolute [] h = cc
resolve_from-absolute (c ∷ p) h = cc

resolve_from_root :
    (q : FilePath)
    → All IsNormal q
    → resolve_from [] (Component.root_dir ∷ q) ≡ Component.root_dir ∷ q
unfolding resolve_from push
resolve_from_root q n = resolve_from_clean (Component.root_dir ∷ []) q n

-- Under an absolute working directory a path resolves to an absolute path without `.` and `..`,
-- and resolving that path again, from any directory, changes nothing.
pub resolve_path_canonical :
    (cwd path other : FilePath)
    → is_absolute cwd ≡ true
    → (is_absolute (resolve_path cwd path) ≡ true)
      × IsClean (resolve_path cwd path)
      × (resolve_path other (resolve_path cwd path) ≡ resolve_path cwd path)
unfolding resolve_path
resolve_path_canonical cwd path other h =
    let rooted = resolve_from-absolute (join cwd path) (is_absolute-join cwd path h) in
    let clean = resolve_from-IsClean [] (join cwd path) tt in
    let (q, e, n) = absolute_clean _ rooted clean in
    (rooted, clean, rw (e, join_absolute other q) (resolve_from_root q n))

id_char-sep : (c : ℕ) → id_char c ≡ true → (c == b'/') ≡ false
unfolding id_char
id_char-sep c h = ground arith

segments-id_char : (id : Str) → all id_char id ≡ true → segments id ≡ id ∷ []
unfolding segments segment_cons
segments-id_char [] h = refl
segments-id_char (c ∷ cs) h =
    let (hc, hcs) = all-cons id_char c cs h in rw (id_char-sep c hc, segments-id_char cs hcs)

component-name :
    (s : Str)
    → (s == codes ".") ≡ false
    → (s == codes "..") ≡ false
    → component s ≡ Component.normal s
unfolding component
component-name s h k = rw (h, k)

and_parts :
    (a b c d : Bool)
    → (not a && not b && not c && d) ≡ true
    → (a ≡ false) × (b ≡ false) × (c ≡ false) × (d ≡ true)
and_parts a b c d h = ground arith

valid_id_parts :
    (id : Str)
    → valid_id id ≡ true
    → ((id == []) ≡ false)
      × ((id == codes ".") ≡ false)
      × ((id == codes "..") ≡ false)
      × (all id_char id ≡ true)
unfolding valid_id
valid_id_parts id h = and_parts (id == []) (id == codes ".") (id == codes "..") _ h

valid_id-nil : valid_id [] ≡ false
unfolding valid_id
valid_id-nil = refl

pub parse-valid_id : (id : Str) → valid_id id ≡ true → parse id ≡ Component.normal id ∷ []
unfolding parse segments segment_cons first_components later_components
parse-valid_id [] h = cc valid_id-nil
parse-valid_id (c ∷ cs) h =
    let (filled, one, two, chars) = valid_id_parts (c ∷ cs) h in
    let (hc, hcs) = all-cons id_char c cs chars in
    rw (id_char-sep c hc, segments-id_char cs hcs)
      (ap (λ k. k ∷ []) (component-name (c ∷ cs) one two))

join_root :
    (q : FilePath) (s : Str)
    → join (Component.root_dir ∷ q) (Component.normal s ∷ [])
      ≡ Component.root_dir ∷ (q ++ Component.normal s ∷ [])
unfolding join
join_root q s = refl

-- A valid id is one path component: under a canonical absolute directory it names a child of that
-- directory, and neither leaves the directory nor reaches below it.
pub resolve_path-valid_id :
    (dir : FilePath) (id : Str)
    → is_absolute dir ≡ true
    → IsClean dir
    → valid_id id ≡ true
    → resolve_path dir (parse id) ≡ dir ++ Component.normal id ∷ []
unfolding resolve_path
resolve_path-valid_id dir id a c h =
    let (q, e, n) = absolute_clean dir a c in
    rw (parse-valid_id id h, e, join_root q id)
      (resolve_from_root (q ++ Component.normal id ∷ []) (All-snoc q id n))
