-- ===== src/Store/Maintenance/Obsolete.antt =====
-- What a maintenance run removes is neither its checkpoint nor one of its packs
-- (crates/session-activity/src/maintenance.rs).
use peekback.Base.{
  All, All-append, All-map, All-of_contains, Bool, List, Str, [], all, all-contains, arith, codes,
  contains, contains-keep, false, keep, length, nat_eq, none, not, option_eq, refl, str_eq, sym,
  true, ◌&&◌, ◌++◌, ◌||◌, ◌∙◌, ◌∷◌, ◌≡◌,
}
use peekback.Base.Int.{int_eq}
use peekback.Base.Paths.{path_eq}
use peekback.Store.{Checkpoint, Codec, Content, Dir, is_json, lookup, names, safe_name}
use peekback.Store.Maintenance.{Chunk, covered_by, pack_files}
use peekback.Store.Maintenance.Commit.{IsNew}
use peekback.Store.Maintenance.Committed.{IsObsolete}
use peekback.Store.Maintenance.Covered.{FreshNames, covered-safe}
use peekback.Store.Maintenance.Dirs.{suffixes_differ}
use peekback.Store.Maintenance.Published.{
  checkpoint_is_no_batch, checkpoint_is_no_pack, files-IsNew, files-safe, not_checkpoint,
}

and_left : (a b : Bool) → (a && b) ≡ true → a ≡ true
and_left a b h = ground arith

and_right : (a b : Bool) → (a && b) ≡ true → b ≡ true
and_right a b h = ground arith

exists-lookup : (n : Str) (d : Dir) → lookup n d ≡ none → contains (names d) n ≡ false
unfolding lookup
exists-lookup n [] h = refl
exists-lookup n ((m, content) ∷ d) h = ground (arith, exists-lookup n d)

-- A name that is in the directory is none of the names that are not.
unused-contains :
    (d : Dir) (files : List (Str × Content)) (n : Str)
    → All (IsNew d) files
    → contains (names d) n ≡ true
    → contains (names files) n ≡ false
unused-contains d [] n h k = refl
unused-contains d ((m, content) ∷ files) n h k =
    ground (arith, h.0.0, exists-lookup m d, unused-contains d files n h.1 k)

-- The name of a pack file passes the test of a pack's name.
module _ (codec : Codec) (prefix : Str) (d : Dir) (chunks : List Chunk)
    (fresh : FreshNames codec prefix d (length chunks)) where
  no_pack :
      (n : Str)
      → safe_name (codes ".pack") n ≡ false
      → contains (names (pack_files codec prefix 0 chunks)) n ≡ false
  no_pack n h = ground (
    arith,
    all-contains (safe_name (codes ".pack")) (names (pack_files codec prefix 0 chunks)) n
        (files-safe codec prefix d (length chunks) fresh 0 chunks (omega arith)),
  )

  batch_is_no_pack :
      (n : Str) → safe_name (codes ".json") n ≡ true → safe_name (codes ".pack") n ≡ false
  unfolding safe_name
  batch_is_no_pack n h = ground (arith, suffixes_differ n)

  batch-IsObsolete :
      (n : Str)
      → safe_name (codes ".json") n ≡ true
      → IsObsolete (pack_files codec prefix 0 chunks) n
  batch-IsObsolete n h =
      (not_checkpoint (codes ".json") n checkpoint_is_no_batch h, no_pack n (batch_is_no_pack n h))

  old-IsObsolete :
      (n : Str)
      → contains (names d) n ≡ true
      → safe_name (codes ".pack") n ≡ true
      → IsObsolete (pack_files codec prefix 0 chunks) n
  old-IsObsolete n h k = (
    not_checkpoint (codes ".pack") n checkpoint_is_no_pack k,
    unused-contains d (pack_files codec prefix 0 chunks) n
        (files-IsNew codec prefix d (length chunks) fresh 0 chunks (omega arith)) h,
  )

  -- The covered sources and the packs of the directory may be removed.
  pub removed-IsObsolete :
      (paths : List Str) (old : Checkpoint)
      → all (λ n. not (is_json n) || safe_name (codes ".json") n) paths ≡ true
      → all (safe_name (codes ".json")) old.covered ≡ true
      → All
          (IsObsolete (pack_files codec prefix 0 chunks))
          (covered_by paths old d ++ keep (safe_name (codes ".pack")) (names d))
  removed-IsObsolete paths old h k =
      All-append _ (covered_by paths old d) _
        (All-map batch-IsObsolete (covered_by paths old d) (covered-safe paths old d h k))
        (All-of_contains _ (keep (safe_name (codes ".pack")) (names d)) λ n m.
          let both = sym (contains-keep (safe_name (codes ".pack")) (names d) n) ∙ m in
          old-IsObsolete n (and_left _ _ both) (and_right _ _ both))
