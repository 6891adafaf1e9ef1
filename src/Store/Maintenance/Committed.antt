-- ===== src/Store/Maintenance/Committed.antt =====
-- A directory whose checkpoint is published reads as the packs that the checkpoint names, and the
-- cleanup that follows does not change that (crates/session-activity/src/maintenance.rs).
use mathlib.Core.List.{append-nil}
use mathlib.Core.Path.{ap₂}
use peekback.Activity.{FileEvent, SessionKey, key_eq, operation_eq, outcome_eq, source_eq, validate}
use peekback.Base.{
  All, All-append, All-map, List, Option, Result-cases, Str, [], ap, arith, contains, false, inl,
  inr, keep, keep-none, le→leb, map, nat_eq, none, not-true, ok, option_eq, refl, some, str_eq,
  subst, suc, true, ℕ, ◌++◌, ◌==◌, ◌∙◌, ◌∷◌, ◌≡◌, ◌≤◌,
}
use peekback.Base.Int.{int_eq}
use peekback.Base.Paths.{path_eq}
use peekback.Base.Sort.{IsSorted, sort, sort_sorted}
use peekback.Store.{
  Checkpoint, Codec, Content, Dir, by_timestamp, checkpoint_name, delete, incoming, is_retained,
  le_str, lookup, max_batch_bytes, names, read_batch, read_checkpoint, read_paths, read_unlocked,
  validate_batch, validate_event,
}
use peekback.Store.Maintenance.{Chunk, Step, pack_files, run_steps}
use peekback.Store.Maintenance.Commit.{incoming-batches, read_unlocked_with, read_with}
use peekback.Store.Maintenance.Dirs.{All-batch_names-delete, batch_names, lookup-delete}
use peekback.Store.Maintenance.Pack.{events_of}

abbrev pub AllValid : SessionKey → List FileEvent → Type 0
AllValid session es = All (λ e. validate_event session e ≡ ok tt) es

validate_batch-of_All :
    (session : SessionKey) (es : List FileEvent)
    → AllValid session es
    → validate_batch session es ≡ ok tt
unfolding validate_batch
validate_batch-of_All session [] h = refl
validate_batch-of_All session (e ∷ es) h = rw (h.0, validate_batch-of_All session es h.1)

All-of_validate_batch :
    (session : SessionKey) (es : List FileEvent)
    → validate_batch session es ≡ ok tt
    → AllValid session es
unfolding validate_batch
All-of_validate_batch session [] h = tt
All-of_validate_batch session (e ∷ es) h = elim (Result-cases (validate_event session e)) [
  | inl (u, v) ↦ (v, All-of_validate_batch session es (ground arith))
  | inr (er, v) ↦ absurd (ground arith)
]

read_batch-AllValid :
    (session : SessionKey) (content : Option Content) (es : List FileEvent)
    → read_batch session content ≡ ok es
    → AllValid session es
unfolding read_batch
read_batch-AllValid session none es h = cc
read_batch-AllValid session (some (Content.damaged e)) es h = cc
read_batch-AllValid session (some (Content.checkpoint c size)) es h = cc
read_batch-AllValid session (some (Content.batch fs size)) es h =
    elim (Result-cases (validate_batch session fs)) [
      | inl (u, v) ↦
          let e : fs ≡ es = ground arith in
          subst (AllValid session) e (All-of_validate_batch session fs v)
      | inr (er, v) ↦ absurd (ground arith)
    ]

-- What a reader is given is valid for the session.
pub read_paths-AllValid :
    (session : SessionKey) (d : Dir) (paths : List Str)
    → AllValid session (read_paths session d paths).events
unfolding read_paths
read_paths-AllValid session d [] = tt
read_paths-AllValid session d (n ∷ ns) = elim (Result-cases (read_batch session (lookup n d))) [
  | inl (es, e) ↦ rw e (
      All-append _ es _ (read_batch-AllValid session (lookup n d) es e)
        (read_paths-AllValid session d ns))
  | inr (er, e) ↦ rw e (read_paths-AllValid session d ns)
]

-- The file of a pack that a reader accepts.
abbrev pub IsReadable : SessionKey → Chunk → Type 0
IsReadable session c = (c.size ≤ max_batch_bytes) × AllValid session c.events

abbrev pub Stored : Dir → List (Str × Content) → Type 0
Stored d = All (λ f. lookup f.0 d ≡ some f.1)

read_pack :
    (session : SessionKey) (c : Chunk)
    → IsReadable session c
    → read_batch session (some (Content.batch c.events c.size)) ≡ ok c.events
unfolding read_batch
read_pack session c h = rw (le→leb _ _ h.0, validate_batch-of_All session c.events h.1)

read_packs :
    (codec : Codec) (prefix : Str) (session : SessionKey) (d : Dir) (i : ℕ) (chunks : List Chunk)
    → All (IsReadable session) chunks
    → Stored d (pack_files codec prefix i chunks)
    → read_paths session d (names (pack_files codec prefix i chunks))
      ≡ record { events = events_of chunks; warnings = [] }
unfolding read_paths pack_files
read_packs codec prefix session d i [] h s = refl
read_packs codec prefix session d i (c ∷ cs) h s =
    rw (s.0, read_pack session c h.0, read_packs codec prefix session d (suc i) cs h.1 s.1)

-- The state after the commit point.
pub record Committed (d : Dir) (files : List (Str × Content)) (new : Checkpoint) : Type 0 where
  pub trusted : read_checkpoint d ≡ ok new
  pub chunks : new.chunks ≡ names files
  pub stored : Stored d files
  pub all_covered : All (λ n. contains new.covered n ≡ true) (batch_names d)

-- No batch is left to read beside the packs.
incoming_covered :
    (d : Dir) (covered : List Str)
    → All (λ n. contains covered n ≡ true) (batch_names d)
    → incoming covered d ≡ []
unfolding sort
incoming_covered d covered h =
    incoming-batches covered d
    ∙ ap (sort le_str) (keep-none _ (batch_names d) (All-map (λ n e. not-true e) (batch_names d) h))

read_with_packs :
    (session : SessionKey) (d : Dir) (new : Checkpoint) (paths : List Str) (es : List FileEvent)
    → new.chunks ++ incoming new.covered d ≡ paths
    → read_paths session d paths ≡ record { events = es; warnings = [] }
    → IsSorted by_timestamp es
    → keep (is_retained new.retained_from) es ≡ es
    → read_with session d new ≡ record { events = es; warnings = [] }
read_with_packs session d new paths es p r sorted retained =
    rw (p, r, sort_sorted by_timestamp es sorted, retained)

-- A committed directory reads as its packs.
pub read_unlocked-Committed :
    (codec : Codec) (prefix : Str) (session : SessionKey) (d : Dir) (chunks : List Chunk)
    (new : Checkpoint) (es : List FileEvent)
    → validate session ≡ ok tt
    → Committed d (pack_files codec prefix 0 chunks) new
    → All (IsReadable session) chunks
    → events_of chunks ≡ es
    → IsSorted by_timestamp es
    → keep (is_retained new.retained_from) es ≡ es
    → read_unlocked session d ≡ ok (record { events = es; warnings = [] })
read_unlocked-Committed codec prefix session d chunks new es v c readable same sorted retained =
    let files = pack_files codec prefix 0 chunks in
    let paths : new.chunks ++ incoming new.covered d ≡ names files =
      ap₂ ◌++◌ c.chunks (incoming_covered d new.covered c.all_covered) ∙ append-nil (names files) in
    let packs : read_paths session d (names files) ≡ record { events = es; warnings = [] } =
      read_packs codec prefix session d 0 chunks readable c.stored
      ∙ ap (λ g. record { events = g; warnings = [] }) same in
    read_unlocked_with session d new v c.trusted
    ∙ ap ok (read_with_packs session d new (names files) es paths packs sorted retained)

-- A name that the cleanup may remove: neither the checkpoint's nor a new pack's.
abbrev pub IsObsolete : List (Str × Content) → Str → Type 0
IsObsolete files n = ((n == checkpoint_name) ≡ false) × (contains (names files) n ≡ false)

Stored-delete :
    (d : Dir) (files : List (Str × Content)) (n : Str)
    → contains (names files) n ≡ false
    → Stored d files
    → Stored (delete n d) files
Stored-delete d [] n h s = tt
Stored-delete d ((m, content) ∷ files) n h s =
    (ground (arith, lookup-delete m n d), Stored-delete d files n (ground arith) s.1)

read_checkpoint-lookup :
    (d e : Dir)
    → lookup checkpoint_name e ≡ lookup checkpoint_name d
    → read_checkpoint e ≡ read_checkpoint d
unfolding read_checkpoint
read_checkpoint-lookup d e h = rw (h, read_checkpoint)

remove-Committed :
    (d : Dir) (files : List (Str × Content)) (new : Checkpoint) (n : Str)
    → IsObsolete files n
    → Committed d files new
    → Committed (delete n d) files new
remove-Committed d files new n o c = record {
  trusted =
      read_checkpoint-lookup d (delete n d) (ground (arith, lookup-delete checkpoint_name n d))
      ∙ c.trusted;
  chunks = c.chunks;
  stored = Stored-delete d files n o.1 c.stored;
  all_covered = All-batch_names-delete _ n d c.all_covered;
}

-- The cleanup keeps a directory committed, however far it gets.
pub removes-Committed :
    (d : Dir) (files : List (Str × Content)) (new : Checkpoint) (ns : List Str)
    → All (IsObsolete files) ns
    → Committed d files new
    → Committed (run_steps (map Step.remove ns) d) files new
unfolding run_steps
removes-Committed d files new [] h c = c
removes-Committed d files new (n ∷ ns) h c =
    removes-Committed (delete n d) files new ns h.1 (remove-Committed d files new n h.0 c)
