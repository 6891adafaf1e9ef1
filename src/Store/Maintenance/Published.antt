-- ===== src/Store/Maintenance/Published.antt =====
-- Publishing the packs and then the checkpoint commits the directory
-- (crates/session-activity/src/maintenance.rs).
use mathlib.Core.Bool.{false≢true}
use peekback.Base.{
  ==_iff, All, Bool-cases, List, Str, Str_discrete, [], all, arith, codes, contains, false, inl,
  inr, leb, length, nat_eq, not-eq, ok, option_eq, refl, some, str_eq, subst, suc, sym, true, ℕ,
  ◌+◌, ◌<◌, ◌==◌, ◌∙◌, ◌∷◌, ◌≡◌, ◌≢◌, ◌≤◌,
}
use peekback.Base.Int.{int_eq}
use peekback.Base.Paths.{path_eq}
use peekback.Store.{
  Checkpoint, Codec, Content, Dir, checkpoint_name, distinct, ends_with, is_json, lookup,
  max_batch_bytes, names, put, read_checkpoint, safe_name,
}
use peekback.Store.Maintenance.{Chunk, pack_files, pack_name, publishing, run_steps}
use peekback.Store.Maintenance.Commit.{IsNew}
use peekback.Store.Maintenance.Committed.{Stored}
use peekback.Store.Maintenance.Covered.{FreshNames}
use peekback.Store.Maintenance.Dirs.{lookup-put, suffixes_differ}

pub is_json_pack : (n : Str) → safe_name (codes ".pack") n ≡ true → is_json n ≡ false
unfolding is_json safe_name
is_json_pack n h = ground (arith, suffixes_differ n)

pub checkpoint_is_no_pack : safe_name (codes ".pack") checkpoint_name ≡ false
unfolding safe_name ends_with Str_discrete
checkpoint_is_no_pack = refl

pub checkpoint_is_no_batch : safe_name (codes ".json") checkpoint_name ≡ false
unfolding safe_name ends_with Str_discrete
checkpoint_is_no_batch = refl

pub is_json_checkpoint : is_json checkpoint_name ≡ false
unfolding is_json ends_with Str_discrete
is_json_checkpoint = refl

-- A name that passes a test which the checkpoint's name fails is another name.
pub not_checkpoint :
    (suffix n : Str)
    → safe_name suffix checkpoint_name ≡ false
    → safe_name suffix n ≡ true
    → (n == checkpoint_name) ≡ false
not_checkpoint suffix n h k = elim (Bool-cases (n == checkpoint_name)) [
  | inl e ↦ absurd (
      false≢true
        (sym h ∙ subst (λ m. safe_name suffix m ≡ true) ((==_iff n checkpoint_name).0 e) k))
  | inr e ↦ e
]

module _ (codec : Codec) (prefix : Str) (d : Dir) (n : ℕ)
    (fresh : FreshNames codec prefix d n) where
  pub files-IsNew :
      (i : ℕ) (chunks : List Chunk)
      → i + length chunks ≤ n
      → All (IsNew d) (pack_files codec prefix i chunks)
  unfolding pack_files
  files-IsNew i [] h = tt
  files-IsNew i (c ∷ cs) h =
      let safe = fresh.safe i (omega arith) in
      (
        (
          fresh.unused i (omega arith),
          is_json_pack (pack_name codec prefix i) safe,
          not-eq (
              not_checkpoint (codes ".pack") (pack_name codec prefix i) checkpoint_is_no_pack safe),
        ),
        files-IsNew (suc i) cs (omega arith),
      )

  pub files-safe :
      (i : ℕ) (chunks : List Chunk)
      → i + length chunks ≤ n
      → all (safe_name (codes ".pack")) (names (pack_files codec prefix i chunks)) ≡ true
  unfolding pack_files
  files-safe i [] h = refl
  files-safe i (c ∷ cs) h = rw (fresh.safe i (omega arith)) (files-safe (suc i) cs (omega arith))

  files-apart :
      (i j : ℕ) (chunks : List Chunk)
      → i < j
      → j + length chunks ≤ n
      → contains (names (pack_files codec prefix j chunks)) (pack_name codec prefix i) ≡ false
  unfolding pack_files
  files-apart i j [] h k = refl
  files-apart i j (c ∷ cs) h k =
      ground (
        arith,
        fresh.apart i j h (omega arith),
        files-apart i (suc j) cs (omega arith) (omega arith),
      )

  pub files-distinct :
      (i : ℕ) (chunks : List Chunk)
      → i + length chunks ≤ n
      → distinct (names (pack_files codec prefix i chunks)) ≡ true
  unfolding pack_files distinct
  files-distinct i [] h = refl
  files-distinct i (c ∷ cs) h =
      rw (files-apart i (suc i) cs (omega arith) (omega arith))
        (files-distinct (suc i) cs (omega arith))

-- Publishing other files does not change what stands under a name.
publishing-other :
    (files : List (Str × Content)) (e : Dir) (n : Str)
    → contains (names files) n ≡ false
    → lookup n (run_steps (publishing files) e) ≡ lookup n e
unfolding run_steps
publishing-other [] e n h = refl
publishing-other ((m, content) ∷ files) e n h =
    publishing-other files (put m content e) n (ground arith)
    ∙ ground (arith, lookup-put n m content e)

pub publishing-Stored :
    (files : List (Str × Content)) (e : Dir)
    → distinct (names files) ≡ true
    → Stored (run_steps (publishing files) e) files
unfolding run_steps distinct
publishing-Stored [] e h = tt
publishing-Stored ((m, content) ∷ files) e h = (
  publishing-other files (put m content e) m (ground arith)
      ∙ ground (arith, lookup-put m m content e),
  publishing-Stored files (put m content e) (ground arith),
)

pub Stored-put :
    (e : Dir) (files : List (Str × Content)) (n : Str) (content : Content)
    → All (λ f. f.0 ≢ n) files
    → Stored e files
    → Stored (put n content e) files
Stored-put e [] n content h s = tt
Stored-put e ((m, c) ∷ files) n content h s =
    (ground (arith, lookup-put m n content e, h.0), Stored-put e files n content h.1 s.1)

-- A checkpoint that passes the checks of a reader is trusted.
pub read_checkpoint-new :
    (d : Dir) (c : Checkpoint) (size : ℕ)
    → lookup checkpoint_name d ≡ some (Content.checkpoint c size)
    → leb size max_batch_bytes ≡ true
    → c.version ≡ 1
    → all (safe_name (codes ".pack")) c.chunks ≡ true
    → all (safe_name (codes ".json")) c.covered ≡ true
    → distinct c.chunks ≡ true
    → read_checkpoint d ≡ ok c
unfolding read_checkpoint
read_checkpoint-new d c size e h v p j o =
    rw (e, h, (==_iff c.version 1).1 v, p, j, o, read_checkpoint)
