-- ===== src/Query/Listing.antt =====
-- The listing of files as a whole (`files` in crates/session-activity/src/query.rs).
use peekback.Activity.{FileEvent, key_eq, operation_eq, outcome_eq, source_eq}
use peekback.Base.{
  ==_iff, All, All-map, Bool, Bool-cases, List, [], any, ap, arith, false, inl, inr, map, nat_eq,
  option_eq, refl, str_eq, subst, sym, true, ◌&&◌, ◌==◌, ◌||◌, ◌∙◌, ◌∷◌, ◌≡◌, ◌⊎◌,
}
use peekback.Base.Int.{eq_of_parts, int_eq, ltz, ℤ}
use peekback.Base.Paths.{FilePath, path_eq}
use peekback.Base.Sort.{All-sort, IsOrder, IsSorted, any-sort, sort, sort-IsSorted}
use peekback.Query.{
  FileActivity, Groups, earlier, evidence_eq, file_activity, files, grouped, last_timestamp,
  newest_first, observation_eq, reconcile,
}
use peekback.Query.Grouped.{
  KeysDiffer-grouped, about, any-file_activity, any-grouped, group_at, group_at-grouped,
  groups_found, is_at, touches,
}

-- What the listing says of one path.
abbrev pub Describes : (FilePath → Bool) → List FileEvent → FileActivity → Type 0
Describes is_file es a =
    (a.events ≡ sort earlier (about a.path es))
    × (a.last_touched_at ≡ last_timestamp a.events)
    × (a.exists ≡ is_file a.path)

groups-Describes :
    (is_file : FilePath → Bool) (es : List FileEvent) (g : Groups)
    → All (λ h. h.1 ≡ about h.0 es) g
    → All (Describes is_file es) (map (file_activity is_file) g)
unfolding file_activity
groups-Describes is_file es [] h = tt
groups-Describes is_file es ((q, xs) ∷ g) h =
    ((ap (sort earlier) h.0, refl, refl), groups-Describes is_file es g h.1)

groups_about : (es : List FileEvent) → All (λ h. h.1 ≡ about h.0 es) (grouped [] es)
groups_about es =
    All-map {P = λ h. h.1 ≡ group_at h.0 (grouped [] es)} (λ h q. q ∙ group_at-grouped h.0 [] es)
      (grouped [] es) (groups_found (grouped [] es) (KeysDiffer-grouped [] es tt))

-- Newer, or of one time and in the second order.
abbrev lex : ℤ → ℤ → Bool → Bool
lex a b tie = ltz b a || a == b && tie

lex_cases : (a b : ℤ) (p : Bool) → lex a b p ≡ true → (ltz b a ≡ true) ⊎ ((a ≡ b) × (p ≡ true))
lex_cases a b p h = elim (Bool-cases (ltz b a)) [
  | inl y ↦ inl y
  | inr n ↦ inr ((==_iff a b).0 (ground arith), ground arith)
]

lex_newer : (a b : ℤ) (p : Bool) → ltz b a ≡ true → lex a b p ≡ true
lex_newer a b p h = rw h refl

ltz_trans : (a b c : ℤ) → ltz b a ≡ true → ltz c b ≡ true → ltz c a ≡ true
ltz_trans a b c h k = ground arith

lex_trans :
    (a b c : ℤ) (p q r : Bool)
    → (p ≡ true → q ≡ true → r ≡ true)
    → lex a b p ≡ true
    → lex b c q ≡ true
    → lex a c r ≡ true
lex_trans a b c p q r o h k = elim (lex_cases a b p h) [
  | inl x ↦ elim (lex_cases b c q k) [
    | inl y ↦ lex_newer a c r (ltz_trans a b c x y)
    | inr (e, y) ↦ lex_newer a c r (subst (λ c. ltz c a ≡ true) e x)
  ]
  | inr (e, x) ↦ elim (lex_cases b c q k) [
    | inl y ↦ lex_newer a c r (subst (λ a. ltz c a ≡ true) (sym e) y)
    | inr (f, y) ↦ rw ((==_iff a c).1 (e ∙ f), o x y) (ground arith)
  ]
]

lex_total : (a b : ℤ) (p q : Bool) → (p ≡ false → q ≡ true) → lex a b p ≡ false → lex b a q ≡ true
lex_total a b p q o h = elim (Bool-cases (ltz a b)) [
  | inl y ↦ lex_newer b a q y
  | inr n ↦
      let same : a ≡ b = eq_of_parts a b (ground arith) in
      let low : p ≡ false = ground (arith, (==_iff a b).1 same) in
      rw ((==_iff b a).1 (sym same), o low) (ground arith)
]

module _ (is_file : FilePath → Bool) (path_le : FilePath → FilePath → Bool) where
  -- A path is listed exactly when an event of the reconciled history is about it or was renamed from
  -- it, and its entry has all those events by time, the time of the last one, and whether the file
  -- exists.
  pub files_complete :
      (es : List FileEvent)
      → ((p : FilePath) → any (is_at p) (files is_file path_le es) ≡ any (touches p) (reconcile es))
        × All (Describes is_file (reconcile es)) (files is_file path_le es)
  unfolding files
  files_complete es =
      let found = map (file_activity is_file) (grouped [] (reconcile es)) in
      (
        (λ p.
            any-sort (is_at p) (newest_first path_le) found
            ∙ (any-file_activity is_file p _ ∙ any-grouped p [] (reconcile es))),
        All-sort (Describes is_file (reconcile es)) (newest_first path_le) found
            (groups-Describes is_file (reconcile es) _ (groups_about (reconcile es))),
      )

  newest_first_trans :
      (a b c : FileActivity)
      → IsOrder path_le
      → newest_first path_le a b ≡ true
      → newest_first path_le b c ≡ true
      → newest_first path_le a c ≡ true
  newest_first_trans a b c o h k =
      lex_trans a.last_touched_at b.last_touched_at c.last_touched_at _ _ _
        (o.trans a.path b.path c.path) h k

  newest_first_total :
      (a b : FileActivity)
      → IsOrder path_le
      → newest_first path_le a b ≡ false
      → newest_first path_le b a ≡ true
  newest_first_total a b o h =
      lex_total a.last_touched_at b.last_touched_at _ _ (o.total a.path b.path) h

  newest_first-IsOrder : IsOrder path_le → IsOrder (newest_first path_le)
  newest_first-IsOrder o = record {
    trans = λ a b c. newest_first_trans a b c o;
    total = λ a b. newest_first_total a b o;
  }

  -- Where paths are ordered, the listing stands with the last touched file first, and files of one
  -- second by path.
  pub files-IsSorted :
      IsOrder path_le
      → (es : List FileEvent) → IsSorted (newest_first path_le) (files is_file path_le es)
  unfolding files
  files-IsSorted o es = sort-IsSorted (newest_first path_le) (newest_first-IsOrder o) _
