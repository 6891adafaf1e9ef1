-- ===== src/Query/Grouped.antt =====
-- The listing of files (`files` in crates/session-activity/src/query.rs).
use mathlib.Core.List.{append-nil, append_assoc}
use peekback.Activity.{FileEvent, key_eq, operation_eq, outcome_eq, source_eq}
use peekback.Base.{
  ==_iff, All, Bool, Bool-cases, List, Option, [], any, ap, arith, false, if◌then◌else◌, inl, inr,
  map, nat_eq, none, not-eq, option_discrete, option_eq, refl, some, str_eq, sym, true, ◌++◌, ◌==◌,
  ◌||◌, ◌∙◌, ◌∷◌, ◌≡◌,
}
use peekback.Base.Int.{int_eq}
use peekback.Base.Paths.{FilePath, path_eq}
use peekback.Query.{
  FileActivity, Groups, evidence_eq, file_activity, grouped, observation_eq, push_event,
  push_previous,
}

-- What one event adds to the listing of a path: it stands there once for each side of a rename.
abbrev pub about_one : FilePath → FileEvent → List FileEvent
about_one p e =
    (if e.previous_path == some p then e ∷ [] else []) ++ (if e.path == p then e ∷ [] else [])

abbrev pub about : FilePath → List FileEvent → List FileEvent
about p [] = []
about p (e ∷ es) = about_one p e ++ about p es

abbrev pub group_at : FilePath → Groups → List FileEvent
group_at p [] = []
group_at p ((q, es) ∷ groups) = if q == p then es else group_at p groups

last_or_none :
    (b : Bool) (es : List FileEvent) (e : FileEvent) (rest : List FileEvent)
    → (if b then es ++ e ∷ [] else rest) ≡ (if b then es else rest) ++ (if b then e ∷ [] else [])
last_or_none true es e rest = refl
last_or_none false es e rest = sym (append-nil rest)

other_path : (p q r : FilePath) → (r == q) ≡ false → (r == p) ≡ true → (q == p) ≡ false
other_path p q r n y = elim (Bool-cases (q == p)) [
  | inr m ↦ m
  | inl k ↦ absurd (not-eq n ((==_iff r p).0 y ∙ sym ((==_iff q p).0 k)))
]

some_eq : (q p : FilePath) → (some q == some p) ≡ (q == p)
some_eq q p = elim (Bool-cases (q == p)) [
  | inl y ↦ (==_iff (some q) (some p)).1 (ap some ((==_iff q p).0 y)) ∙ sym y
  | inr n ↦ elim (Bool-cases (some q == some p)) [
    | inl k ↦
        let e = (==_iff (some q) (some p)).0 k in let same : q ≡ p = cc in absurd (not-eq n same)
    | inr m ↦ m ∙ sym n
  ]
]

group_at-push_event :
    (p q : FilePath) (e : FileEvent) (g : Groups)
    → group_at p (push_event q e g) ≡ group_at p g ++ (if q == p then e ∷ [] else [])
unfolding push_event
group_at-push_event p q e [] = ground (arith)
group_at-push_event p q e ((r, es) ∷ g) = elim (Bool-cases (r == q)) [
  | inl y ↦ let same = (==_iff r q).0 y in rw (y, same) (last_or_none (q == p) es e (group_at p g))
  | inr n ↦ elim (Bool-cases (r == p)) [
    | inl y ↦ rw (n, y, other_path p q r n y) (sym (append-nil es))
    | inr m ↦ rw (n, m) (group_at-push_event p q e g)
  ]
]

group_at-push_previous :
    (p : FilePath) (o : Option FilePath) (e : FileEvent) (g : Groups)
    → group_at p (push_previous o e g) ≡ group_at p g ++ (if o == some p then e ∷ [] else [])
unfolding option_discrete
group_at-push_previous p none e g = sym (append-nil (group_at p g))
group_at-push_previous p (some q) e g = rw (some_eq q p) (group_at-push_event p q e g)

pub group_at-grouped :
    (p : FilePath) (g : Groups) (es : List FileEvent)
    → group_at p (grouped g es) ≡ group_at p g ++ about p es
unfolding grouped
group_at-grouped p g [] = sym (append-nil _)
group_at-grouped p g (e ∷ es) =
    group_at-grouped p (push_event e.path e (push_previous e.previous_path e g)) es
    ∙ rw
        (
          group_at-push_event p e.path e (push_previous e.previous_path e g),
          group_at-push_previous p e.previous_path e g,
        )
        (ap (λ xs. xs ++ about p es) (append_assoc (group_at p g) _ _)
          ∙ append_assoc (group_at p g) (about_one p e) (about p es))

-- No two groups are of one path.
abbrev pub KeysDiffer : Groups → Type 0
KeysDiffer [] = Unit
KeysDiffer (g ∷ gs) = All (λ h. (g.0 == h.0) ≡ false) gs × KeysDiffer gs

keys_apart :
    (r p : FilePath) (e : FileEvent) (g : Groups)
    → (r == p) ≡ false
    → All (λ h. (r == h.0) ≡ false) g
    → All (λ h. (r == h.0) ≡ false) (push_event p e g)
unfolding push_event
keys_apart r p e [] n h = (n, tt)
keys_apart r p e ((q, es) ∷ g) n h = elim (Bool-cases (q == p)) [
  | inl y ↦ rw y (h.0, h.1)
  | inr m ↦ rw m (h.0, keys_apart r p e g n h.1)
]

KeysDiffer-push_event :
    (p : FilePath) (e : FileEvent) (g : Groups) → KeysDiffer g → KeysDiffer (push_event p e g)
unfolding push_event
KeysDiffer-push_event p e [] h = (tt, tt)
KeysDiffer-push_event p e ((q, es) ∷ g) h = elim (Bool-cases (q == p)) [
  | inl y ↦ rw y (h.0, h.1)
  | inr m ↦ rw m (keys_apart q p e g m h.0, KeysDiffer-push_event p e g h.1)
]

KeysDiffer-push_previous :
    (o : Option FilePath) (e : FileEvent) (g : Groups)
    → KeysDiffer g
    → KeysDiffer (push_previous o e g)
KeysDiffer-push_previous none e g h = h
KeysDiffer-push_previous (some p) e g h = KeysDiffer-push_event p e g h

same_path : (q : FilePath) → (q == q) ≡ true
same_path q = (==_iff q q).1 refl

later_groups :
    (q : FilePath) (es : List FileEvent) (g rest : Groups)
    → All (λ h. (q == h.0) ≡ false) rest
    → All (λ h. h.1 ≡ group_at h.0 g) rest
    → All (λ h. h.1 ≡ group_at h.0 ((q, es) ∷ g)) rest
later_groups q es g [] n h = tt
later_groups q es g (k ∷ rest) n h = (rw n.0 h.0, later_groups q es g rest n.1 h.1)

pub KeysDiffer-grouped :
    (g : Groups) (es : List FileEvent) → KeysDiffer g → KeysDiffer (grouped g es)
unfolding grouped
KeysDiffer-grouped g [] h = h
KeysDiffer-grouped g (e ∷ es) h =
    KeysDiffer-grouped (push_event e.path e (push_previous e.previous_path e g)) es
      (KeysDiffer-push_event e.path e _ (KeysDiffer-push_previous e.previous_path e g h))

pub groups_found : (g : Groups) → KeysDiffer g → All (λ h. h.1 ≡ group_at h.0 g) g
groups_found [] h = tt
groups_found ((q, es) ∷ g) h =
    (rw (same_path q) refl, later_groups q es g g h.0 (groups_found g h.1))

-- The event is listed under the path.
abbrev pub touches : FilePath → FileEvent → Bool
touches p e = e.previous_path == some p || e.path == p

abbrev pub is_of : FilePath → FilePath × List FileEvent → Bool
is_of p h = h.0 == p

any-push_event :
    (p q : FilePath) (e : FileEvent) (g : Groups)
    → any (is_of p) (push_event q e g) ≡ (q == p || any (is_of p) g)
unfolding push_event
any-push_event p q e [] = refl
any-push_event p q e ((r, es) ∷ g) = elim (Bool-cases (r == q)) [
  | inl y ↦ let same = (==_iff r q).0 y in rw (y, same) (ground arith)
  | inr n ↦ rw n (ground (arith, any-push_event p q e g))
]

any-push_previous :
    (p : FilePath) (o : Option FilePath) (e : FileEvent) (g : Groups)
    → any (is_of p) (push_previous o e g) ≡ (o == some p || any (is_of p) g)
unfolding option_discrete
any-push_previous p none e g = refl
any-push_previous p (some q) e g = rw (some_eq q p) (any-push_event p q e g)

pub any-grouped :
    (p : FilePath) (g : Groups) (es : List FileEvent)
    → any (is_of p) (grouped g es) ≡ (any (is_of p) g || any (touches p) es)
unfolding grouped
any-grouped p g [] = ground arith
any-grouped p g (e ∷ es) =
    let added = push_previous e.previous_path e g in
    any-grouped p (push_event e.path e added) es
    ∙ ground (arith, any-push_event p e.path e added, any-push_previous p e.previous_path e g)

abbrev pub is_at : FilePath → FileActivity → Bool
is_at p a = a.path == p

pub any-file_activity :
    (is_file : FilePath → Bool) (p : FilePath) (g : Groups)
    → any (is_at p) (map (file_activity is_file) g) ≡ any (is_of p) g
unfolding file_activity
any-file_activity is_file p [] = refl
any-file_activity is_file p ((q, es) ∷ g) = ground (arith, any-file_activity is_file p g)
