-- ===== src/Store/Maintenance/Commit.antt =====
-- Maintenance as its readers see it (crates/session-activity/src/maintenance.rs): the directory
-- after a prefix of the steps reads as before, until the checkpoint is published, and as the
-- retained history from then on.
use peekback.Activity.{FileEvent, SessionKey, key_eq, operation_eq, outcome_eq, source_eq, validate}
use peekback.Base.{
  All, Error, List, Option, Result-cases, Str, [], ap, arith, contains, err, false, inl, inr, keep,
  keep-keep, nat_eq, none, not, ok, option_eq, refl, some, str_eq, sym, ◌++◌, ◌∙◌, ◌∷◌, ◌≡◌, ◌≢◌,
}
use peekback.Base.Int.{int_eq}
use peekback.Base.Paths.{path_eq}
use peekback.Base.Sort.{sort}
use peekback.Store.{
  Checkpoint, Content, Dir, ReadReport, active_paths, by_timestamp, checkpoint_name, incoming,
  is_json, is_retained, le_str, lookup, names, put, read_batch, read_checkpoint, read_paths,
  read_unlocked, retained_from,
}
use peekback.Store.Maintenance.{publishing, run_steps}
use peekback.Store.Maintenance.Dirs.{batch_names, batch_names-put, lookup-put}

-- `e` is `d` with files added that no reader of `d` looks at.
pub record Extends (d e : Dir) : Type 0 where
  pub kept : (n : Str) → lookup n d ≢ none → lookup n e ≡ lookup n d
  pub same_checkpoint : lookup checkpoint_name e ≡ lookup checkpoint_name d
  pub same_batches : batch_names e ≡ batch_names d

-- A pack that can be published: its name is new, and is neither a batch's nor the checkpoint's.
abbrev pub IsNew : Dir → (Str × Content) → Type 0
IsNew d (n, content) = (lookup n d ≡ none) × (is_json n ≡ false) × (n ≢ checkpoint_name)

Extends-put :
    (d e : Dir) (n : Str) (content : Content)
    → Extends d e
    → IsNew d (n, content)
    → Extends d (put n content e)
Extends-put d e n content x new = record {
  kept = λ m h. ground (arith, lookup-put m n content e, x.kept m h);
  same_checkpoint = ground (arith, lookup-put checkpoint_name n content e);
  same_batches = batch_names-put n content e new.1 ∙ x.same_batches;
}

pub publishing-Extends :
    (d e : Dir) (files : List (Str × Content))
    → Extends d e
    → All (IsNew d) files
    → Extends d (run_steps (publishing files) e)
unfolding run_steps
publishing-Extends d e [] x h = x
publishing-Extends d e ((n, content) ∷ files) x h =
    publishing-Extends d (put n content e) files (Extends-put d e n content x h.0) h.1

read_checkpoint-Extends : (d e : Dir) → Extends d e → read_checkpoint e ≡ read_checkpoint d
unfolding read_checkpoint
read_checkpoint-Extends d e x = rw (x.same_checkpoint, read_checkpoint)

pub incoming-batches :
    (covered : List Str) (d : Dir)
    → incoming covered d ≡ sort le_str (keep (λ n. not (contains covered n)) (batch_names d))
unfolding incoming
incoming-batches covered d = ap (sort le_str) (sym (keep-keep is_json _ (names d)))

incoming-Extends :
    (covered : List Str) (d e : Dir) → Extends d e → incoming covered e ≡ incoming covered d
incoming-Extends covered d e x =
    incoming-batches covered e
    ∙ ap (λ ns. sort le_str (keep (λ n. not (contains covered n)) ns)) x.same_batches
    ∙ sym (incoming-batches covered d)

readable :
    (session : SessionKey) (content : Option Content) (es : List FileEvent)
    → read_batch session content ≡ ok es
    → content ≢ none
unfolding read_batch
readable session none es h = λ e. cc
readable session (some c) es h = λ e. cc

read_warnings :
    (session : SessionKey) (d : Dir) (n : Str) (ns : List Str) {es : List FileEvent}
    → read_batch session (lookup n d) ≡ ok es
    → (read_paths session d (n ∷ ns)).warnings ≡ []
    → (read_paths session d ns).warnings ≡ []
unfolding read_paths
read_warnings session d n ns found h = ground arith

read_step :
    (session : SessionKey) (d e : Dir) (n : Str) (ns : List Str)
    → lookup n e ≡ lookup n d
    → read_paths session e ns ≡ read_paths session d ns
    → read_paths session e (n ∷ ns) ≡ read_paths session d (n ∷ ns)
unfolding read_paths
read_step session d e n ns same rest = rw (same, rest)

-- A path that is read without a warning is a file of the directory.
read_paths-Extends :
    (session : SessionKey) (d e : Dir) (paths : List Str)
    → Extends d e
    → (read_paths session d paths).warnings ≡ []
    → read_paths session e paths ≡ read_paths session d paths
unfolding read_paths
read_paths-Extends session d e [] x h = refl
read_paths-Extends session d e (n ∷ ns) x h =
    elim (Result-cases (read_batch session (lookup n d))) [
      | inl (es, found) ↦
          let rest = read_paths-Extends session d e ns x (read_warnings session d n ns found h) in
          read_step session d e n ns (x.kept n (readable session (lookup n d) es found)) rest
      | inr (er, failed) ↦ absurd (ground arith)
    ]

-- What a reader sees under a checkpoint.
abbrev pub read_with : SessionKey → Dir → Checkpoint → ReadReport
read_with session d c = record {
  events =
      keep (is_retained c.retained_from)
        (sort by_timestamp (read_paths session d (c.chunks ++ incoming c.covered d)).events);
  warnings = (read_paths session d (c.chunks ++ incoming c.covered d)).warnings;
}

pub read_unlocked_with :
    (session : SessionKey) (d : Dir) (c : Checkpoint)
    → validate session ≡ ok tt
    → read_checkpoint d ≡ ok c
    → read_unlocked session d ≡ ok (read_with session d c)
unfolding read_unlocked active_paths retained_from
read_unlocked_with session d c v e = rw (v, e)

invalid :
    (session : SessionKey) (d : Dir) (r : ReadReport) (er : Error)
    → validate session ≡ err er
    → read_unlocked session d ≢ ok r
unfolding read_unlocked
invalid session d r er v h = ground arith

untrusted :
    (session : SessionKey) (d : Dir) (r : ReadReport) (er : Error)
    → read_checkpoint d ≡ err er
    → read_unlocked session d ≢ ok r
unfolding read_unlocked active_paths
untrusted session d r er v h = ground arith

pub ok-injective {ℓ} : {A : Type ℓ} {a b : A} → ok a ≡ ok b → a ≡ b
ok-injective h = cc

read_with-Extends :
    (session : SessionKey) (d e : Dir) (c : Checkpoint)
    → incoming c.covered e ≡ incoming c.covered d
    → read_paths session e (c.chunks ++ incoming c.covered d)
      ≡ read_paths session d (c.chunks ++ incoming c.covered d)
    → read_with session e c ≡ read_with session d c
read_with-Extends session d e c h k = rw (h, k)

pub read_unlocked-eq-ok :
    (session : SessionKey) (d : Dir) (r : ReadReport)
    → read_unlocked session d ≡ ok r
    → (c : Checkpoint) × (validate session ≡ ok tt)
      × (read_checkpoint d ≡ ok c)
      × (r ≡ read_with session d c)
read_unlocked-eq-ok session d r h = elim (Result-cases (read_checkpoint d)) [
  | inl (c, e) ↦ elim (Result-cases (validate session)) [
    | inl (u, v) ↦ (c, v, e, ok-injective (sym h ∙ read_unlocked_with session d c v e))
    | inr (er, v) ↦ absurd (invalid session d r er v h)
  ]
  | inr (er, e) ↦ absurd (untrusted session d r er e h)
]

-- A history that reads without a warning reads the same from a directory that extends its own: one
-- with the same checkpoint and the same batches in which no file of it is changed.
pub read_unlocked-Extends :
    (session : SessionKey) (d e : Dir) (r : ReadReport)
    → Extends d e
    → read_unlocked session d ≡ ok r
    → r.warnings ≡ []
    → read_unlocked session e ≡ ok r
read_unlocked-Extends session d e r x h w =
    let (c, v, k, same) = read_unlocked-eq-ok session d r h in
    let paths = c.chunks ++ incoming c.covered d in
    let read' = read_paths-Extends session d e paths x (sym (ap (λ q. q.warnings) same) ∙ w) in
    read_unlocked_with session e c v (read_checkpoint-Extends d e x ∙ k)
    ∙ ap ok (read_with-Extends session d e c (incoming-Extends c.covered d e x) read' ∙ sym same)
