-- ===== src/Store/Maintenance/Crash.antt =====
-- Maintenance that stops anywhere leaves the history before it or the retained history
-- (crates/session-activity/src/maintenance.rs).
use peekback.Activity.{FileEvent, SessionKey, key_eq, operation_eq, outcome_eq, source_eq}
use peekback.Base.{
  All, All-keep_of, All-take, All→all, List, Str, [], ap, arith, codes, contains, keep, leb, length,
  map, nat_eq, ok, option_eq, refl, str_eq, subst, sym, take, true, ℕ, ◌++◌, ◌<◌, ◌∙◌, ◌∷◌, ◌≡◌,
  ◌≢◌,
}
use peekback.Base.Int.{int_eq}
use peekback.Base.Paths.{path_eq}
use peekback.Base.Sort.{All-sort, IsSorted, keep-IsSorted, sort, sort-IsSorted}
use peekback.Store.{
  Checkpoint, Codec, Content, Dir, by_timestamp, checkpoint_name, incoming, is_retained,
  max_batch_bytes, names, put, read_paths, read_unlocked, safe_name,
}
use peekback.Store.Maintenance.{
  Chunk, Prepared, Step, covered_by, new_checkpoint, pack_files, publishing, run_steps,
}
use peekback.Store.Maintenance.Commit.{
  Extends, IsNew, publishing-Extends, read_unlocked-Extends, read_unlocked-eq-ok,
}
use peekback.Store.Maintenance.Committed.{
  AllValid, Committed, IsReadable, read_paths-AllValid, read_unlocked-Committed, removes-Committed,
}
use peekback.Store.Maintenance.Covered.{FreshNames, batches-covered, covered-safe}
use peekback.Store.Maintenance.Dirs.{batch_names, batch_names-put, lookup-put}
use peekback.Store.Maintenance.Obsolete.{removed-IsObsolete}
use peekback.Store.Maintenance.Pack.{IsGood, Packs, events_of, pack-Packs}
use peekback.Store.Maintenance.Published.{
  Stored-put, files-IsNew, files-distinct, files-safe, is_json_checkpoint, publishing-Stored,
  read_checkpoint-new,
}
use peekback.Store.Maintenance.Survey.{
  IsPrepared, by_timestamp-IsOrder, keep_twice, trusted_covered,
}

Extends-refl : (d : Dir) → Extends d d
Extends-refl d = record { kept = λ n h. refl; same_checkpoint = refl; same_batches = refl }

no_checkpoint_file :
    (d : Dir) (files : List (Str × Content))
    → All (IsNew d) files
    → All (λ f. f.0 ≢ checkpoint_name) files
no_checkpoint_file d [] h = tt
no_checkpoint_file d ((n, content) ∷ files) h = (h.0.2, no_checkpoint_file d files h.1)

AllValid-split :
    (session : SessionKey) (es fs : List FileEvent)
    → AllValid session (es ++ fs)
    → AllValid session es × AllValid session fs
AllValid-split session [] fs v = (tt, v)
AllValid-split session (e ∷ es) fs v =
    let (here, rest) = AllValid-split session es fs v.1 in ((v.0, here), rest)

-- Packs of valid events can be read.
IsReadable-of_Packs :
    (codec : Codec) (positive : (e : FileEvent) → 0 < codec.event_size e) (session : SessionKey)
    (chunks : List Chunk)
    → AllValid session (events_of chunks)
    → All (IsGood codec positive) chunks
    → All (IsReadable session) chunks
IsReadable-of_Packs codec positive session [] v g = tt
IsReadable-of_Packs codec positive session (c ∷ cs) v g =
    let (here, rest) = AllValid-split session c.events (events_of cs) v in
    ((g.0.2, here), IsReadable-of_Packs codec positive session cs rest g.1)

module _ (codec : Codec) (positive : (e : FileEvent) → 0 < codec.event_size e) (prefix : Str)
    (session : SessionKey) (d : Dir) (p : Prepared) (old : Checkpoint)
    (i : IsPrepared codec session d p old)
    (fresh : FreshNames codec prefix d (length p.chunks)) where
  abbrev pub files : List (Str × Content)
  files = pack_files codec prefix 0 p.chunks

  abbrev pub new : Checkpoint
  new = new_checkpoint p files (covered_by p.paths old d)

  abbrev pub published : Dir
  published = run_steps (publishing files) d

  published-IsNew : All (IsNew d) files
  published-IsNew = files-IsNew codec prefix d (length p.chunks) fresh 0 p.chunks (omega arith)

  -- The state when the checkpoint is published.
  Committed-new :
      (size : ℕ)
      → leb size max_batch_bytes ≡ true
      → Committed (put checkpoint_name (Content.checkpoint new size) published) files new
  Committed-new size small =
      let apart = files-distinct codec prefix d (length p.chunks) fresh 0 p.chunks (omega arith) in
      record {
        trusted =
            read_checkpoint-new _ new size
              (ground (
                arith,
                lookup-put checkpoint_name checkpoint_name (Content.checkpoint new size) published,
              ))
              small refl
              (files-safe codec prefix d (length p.chunks) fresh 0 p.chunks (omega arith))
              (All→all _ _ (covered-safe p.paths old d i.named (trusted_covered d old i.trusted)))
              apart;
        chunks = refl;
        stored =
            Stored-put published files checkpoint_name (Content.checkpoint new size)
              (no_checkpoint_file d files published-IsNew) (publishing-Stored files d apart);
        all_covered =
            subst (All (λ n. contains (covered_by p.paths old d) n ≡ true))
              (sym (
                batch_names-put checkpoint_name (Content.checkpoint new size) published
                  is_json_checkpoint
                ∙ (publishing-Extends d d files (Extends-refl d) published-IsNew).same_batches))
              (subst
                (λ paths. All (λ n. contains (covered_by paths old d) n ≡ true) (batch_names d))
                (sym i.paths) (batches-covered old d));
      }

  -- What the history was before: valid events, in order.
  before_ordered : IsSorted by_timestamp p.before × AllValid session p.before
  before_ordered =
      let (c, v, k, same) = read_unlocked-eq-ok session d _ i.before in
      let all = (read_paths session d (c.chunks ++ incoming c.covered d)).events in
      let es : keep (is_retained c.retained_from) (sort by_timestamp all) ≡ p.before =
        sym (ap (λ r. r.events) same) in
      (
        subst (IsSorted by_timestamp) es
            (keep-IsSorted by_timestamp _ _ (sort-IsSorted by_timestamp by_timestamp-IsOrder all)),
        subst (AllValid session) es (
            All-keep_of _ (is_retained c.retained_from) (sort by_timestamp all) (
              All-sort _ by_timestamp all
                (read_paths-AllValid session d (c.chunks ++ incoming c.covered d)))),
      )

  sorted : IsSorted by_timestamp p.retained
  sorted =
      subst (IsSorted by_timestamp) (sym i.retained)
        (keep-IsSorted by_timestamp _ _ before_ordered.0)

  packs : Packs codec positive p.retained (ok p.chunks)
  packs = subst (Packs codec positive p.retained) i.packed (pack-Packs codec positive p.retained)

  chunks-IsReadable : All (IsReadable session) p.chunks
  chunks-IsReadable =
      IsReadable-of_Packs codec positive session p.chunks
        (subst (AllValid session) (sym (packs.0 ∙ i.retained))
          (All-keep_of _ (is_retained p.cutoff) p.before before_ordered.1))
        packs.1

  -- From the commit point on, the directory reads as the retained history.
  reads_after :
      (e : Dir)
      → Committed e files new
      → read_unlocked session e ≡ ok (record { events = p.retained; warnings = [] })
  reads_after e c =
      read_unlocked-Committed codec prefix session e p.chunks new p.retained i.valid c
        chunks-IsReadable packs.0 sorted
        (ap (keep (is_retained p.cutoff)) i.retained ∙ keep_twice _ p.before ∙ sym i.retained)

  -- Before it, as the history before.
  pub reads_before :
      (k : ℕ)
      → read_unlocked session (run_steps (publishing (take k files)) d)
        ≡ ok (record { events = p.before; warnings = [] })
  reads_before k =
      read_unlocked-Extends session d _ _
        (publishing-Extends d d (take k files) (Extends-refl d)
          (All-take _ k files published-IsNew))
        i.before refl

  pub reads_cleanup :
      (size k : ℕ)
      → leb size max_batch_bytes ≡ true
      → read_unlocked session (
          run_steps
            (map Step.remove
              (take k (covered_by p.paths old d ++ keep (safe_name (codes ".pack")) (names d))))
            (put checkpoint_name (Content.checkpoint new size) published))
        ≡ ok (record { events = p.retained; warnings = [] })
  reads_cleanup size k small = reads_after _ (
      removes-Committed _ files new (take k _)
        (All-take _ k _ (
          removed-IsObsolete codec prefix d p.chunks fresh p.paths old i.named
            (trusted_covered d old i.trusted)))
        (Committed-new size small))
