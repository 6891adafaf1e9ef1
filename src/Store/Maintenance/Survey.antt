-- ===== src/Store/Maintenance/Survey.antt =====
-- What the checks of a maintenance run have found when they let it through
-- (crates/session-activity/src/maintenance.rs).
use peekback.Activity.{FileEvent, SessionKey, key_eq, operation_eq, outcome_eq, source_eq, validate}
use peekback.Base.{
  All-keep, Bool, Bool-cases, Error, List, Option, Option-cases, Result-cases, Str, [], all, ap,
  arith, codes, false, inl, inr, keep, keep-All, nat_eq, none, not, ok, option_eq, refl, some,
  str_eq, subst, true, ◌++◌, ◌||◌, ◌∙◌, ◌∷◌, ◌≡◌, ◌⊎◌,
}
use peekback.Base.Int.{int_eq, lez, ℤ}
use peekback.Base.Paths.{path_eq}
use peekback.Base.Sort.{IsOrder}
use peekback.Store.{
  Checkpoint, Codec, Content, Dir, ReadReport, active_paths, by_timestamp, checkpoint_name,
  incoming, is_json, is_retained, lookup, no_checkpoint, read_checkpoint, read_unlocked,
  retained_from, safe_name,
}
use peekback.Store.Maintenance.{Chunk, Prepared, max_cutoff, pack, survey}
use peekback.Store.Maintenance.Commit.{ok-injective, read_unlocked-eq-ok}

-- What `survey` has checked.
pub record IsPrepared (codec : Codec) (session : SessionKey) (d : Dir) (p : Prepared)
    (old : Checkpoint) : Type 0 where
  pub valid : validate session ≡ ok tt
  pub trusted : read_checkpoint d ≡ ok old
  pub paths : p.paths ≡ old.chunks ++ incoming old.covered d
  pub named : all (λ n. not (is_json n) || safe_name (codes ".json") n) p.paths ≡ true
  pub before : read_unlocked session d ≡ ok (record { events = p.before; warnings = [] })
  pub retained : p.retained ≡ keep (is_retained p.cutoff) p.before
  pub packed : pack codec p.retained ≡ ok p.chunks

lez_trans : (a b c : ℤ) → lez a b ≡ true → lez b c ≡ true → lez a c ≡ true
lez_trans a b c h k = ground arith

lez_total : (a b : ℤ) → lez a b ≡ false → lez b a ≡ true
lez_total a b h = ground arith

pub by_timestamp-IsOrder : IsOrder by_timestamp
by_timestamp-IsOrder = record {
  trans = λ a b c h k. ground (arith, lez_trans a.timestamp b.timestamp c.timestamp);
  total = λ a b h. ground (arith, lez_total a.timestamp b.timestamp);
}

pub keep_twice : (p : FileEvent → Bool) (es : List FileEvent) → keep p (keep p es) ≡ keep p es
keep_twice p es = keep-All p (keep p es) (All-keep p es)

trusted_content :
    (d : Dir) (c : Checkpoint) (content : Content)
    → lookup checkpoint_name d ≡ some content
    → read_checkpoint d ≡ ok c
    → all (safe_name (codes ".json")) c.covered ≡ true
unfolding read_checkpoint
trusted_content d c (Content.batch es size) e h = absurd (ground arith)
trusted_content d c (Content.damaged er) e h = absurd (ground arith)
trusted_content d c (Content.checkpoint k size) e h = ground arith

trusted_none :
    (d : Dir) (c : Checkpoint)
    → lookup checkpoint_name d ≡ none
    → read_checkpoint d ≡ ok c
    → all (safe_name (codes ".json")) c.covered ≡ true
unfolding read_checkpoint
trusted_none d c e h =
    let same : no_checkpoint ≡ c = ok-injective (ground arith) in
    subst (λ k. all (safe_name (codes ".json")) k.covered ≡ true) same refl

pub trusted_covered :
    (d : Dir) (c : Checkpoint)
    → read_checkpoint d ≡ ok c
    → all (safe_name (codes ".json")) c.covered ≡ true
trusted_covered d c h = elim (Option-cases (lookup checkpoint_name d)) [
  | inl e ↦ trusted_none d c e h
  | inr (k, e) ↦ trusted_content d c k e h
]

-- The run that the checks let through.
abbrev pub surveyed :
    (codec : Codec) (before : Option ℤ) (old : Checkpoint) (d : Dir) (es : List FileEvent)
    (chunks : List Chunk)
    → Prepared
surveyed codec before old d es chunks = record {
  cutoff = max_cutoff before old.retained_from;
  paths = old.chunks ++ incoming old.covered d;
  before = es;
  retained = keep (is_retained (max_cutoff before old.retained_from)) es;
  chunks = chunks;
}

List-cases {ℓ} : {A : Type ℓ} (xs : List A) → (xs ≡ []) ⊎ ((x : A) × (ys : List A) × (xs ≡ x ∷ ys))
List-cases [] = inl refl
List-cases (x ∷ xs) = inr (x, xs, refl)

surveyed-IsPrepared :
    (codec : Codec) (session : SessionKey) (before : Option ℤ) (d : Dir) (old : Checkpoint)
    (r : ReadReport) (chunks : List Chunk)
    → read_checkpoint d ≡ ok old
    → all
        (λ n. not (is_json n) || safe_name (codes ".json") n)
        (old.chunks ++ incoming old.covered d)
      ≡ true
    → read_unlocked session d ≡ ok r
    → r.warnings ≡ []
    → pack codec (keep (is_retained (max_cutoff before old.retained_from)) r.events) ≡ ok chunks
    → IsPrepared codec session d (surveyed codec before old d r.events chunks) old
surveyed-IsPrepared codec session before d old r chunks t named e w k =
    let (c, v, u, same) = read_unlocked-eq-ok session d r e in
    record {
      valid = v;
      trusted = t;
      paths = refl;
      named = named;
      before = e ∙ ap (λ ws. ok (record { events = r.events; warnings = ws })) w;
      retained = refl;
      packed = k;
    }

warnings-cases :
    (r : ReadReport)
    → (r.warnings ≡ []) ⊎ ((w : Str × Error) × (ws : List (Str × Error)) × (r.warnings ≡ w ∷ ws))
warnings-cases r = List-cases r.warnings

pub survey-IsPrepared :
    (codec : Codec) (session : SessionKey) (before : Option ℤ) (d : Dir) (p : Prepared)
    (old : Checkpoint)
    → read_checkpoint d ≡ ok old
    → survey codec session before d ≡ ok p
    → IsPrepared codec session d p old
unfolding survey retained_from active_paths
survey-IsPrepared codec session before d p old t h =
    elim (Bool-cases (
      all (λ n. not (is_json n) || safe_name (codes ".json") n)
        (old.chunks ++ incoming old.covered d))) [
          | inr bad ↦ absurd (ground arith)
          | inl named ↦ elim (Result-cases (read_unlocked session d)) [
            | inr (er, e) ↦ absurd (ground arith)
            | inl (r, e) ↦ elim (warnings-cases r) [
              | inr (w, ws, some_warning) ↦ absurd (ground arith)
              | inl none_left ↦
                  elim (Result-cases (
                    pack codec
                      (keep (is_retained (max_cutoff before old.retained_from)) r.events))) [
                        | inr (er, k) ↦ absurd (ground arith)
                        | inl (chunks, k) ↦
                            subst (λ q. IsPrepared codec session d q old)
                              (ok-injective (ground arith))
                              (surveyed-IsPrepared codec session before d old r chunks t named e
                                none_left k)
                      ]
            ]
          ]
        ]
