-- ===== src/Store/Maintenance/Covered.antt =====
-- The sources that a new checkpoint covers, and the names of its packs
-- (crates/session-activity/src/maintenance.rs).
use mathlib.Core.Path.{ap₂}
use peekback.Base.{
  All, All-of_contains, List, Str, [], all, all-contains, arith, codes, contains, contains-append,
  contains-keep, false, keep, nat_eq, none, not, option_eq, refl, str_eq, true, ℕ, ◌&&◌, ◌++◌, ◌<◌,
  ◌==◌, ◌||◌, ◌∙◌, ◌∷◌, ◌≡◌,
}
use peekback.Base.Int.{int_eq}
use peekback.Base.Paths.{path_eq}
use peekback.Base.Sort.{contains-sort, sort}
use peekback.Store.{Checkpoint, Codec, Dir, incoming, is_json, le_str, lookup, names, safe_name}
use peekback.Store.Maintenance.{covered_by, dedup, exists, pack_name}
use peekback.Store.Maintenance.Dirs.{batch_names}

contains-dedup : (ns : List Str) (n : Str) → contains (dedup ns) n ≡ contains ns n
unfolding dedup
contains-dedup [] n = refl
contains-dedup (m ∷ []) n = refl
contains-dedup (m ∷ k ∷ ns) n = ground (arith, contains-dedup (k ∷ ns) n)

exists-names : (d : Dir) (n : Str) → exists d n ≡ contains (names d) n
unfolding exists lookup
exists-names [] n = refl
exists-names ((m, content) ∷ d) n = ground (arith, exists-names d n)

contains-covered_by :
    (paths : List Str) (old : Checkpoint) (d : Dir) (n : Str)
    → contains (covered_by paths old d) n
      ≡ ((contains paths n && is_json n) || (contains old.covered n && exists d n))
unfolding covered_by
contains-covered_by paths old d n =
    let both = keep is_json paths ++ keep (exists d) old.covered in
    contains-dedup (sort le_str both) n
    ∙ contains-sort le_str both n
    ∙ contains-append (keep is_json paths) (keep (exists d) old.covered) n
    ∙ ap₂ ◌||◌ (contains-keep is_json paths n) (contains-keep (exists d) old.covered n)

contains-incoming :
    (covered : List Str) (d : Dir) (n : Str)
    → contains (incoming covered d) n
      ≡ (contains (names d) n && (is_json n && not (contains covered n)))
unfolding incoming
contains-incoming covered d n =
    contains-sort le_str _ n
    ∙ contains-keep (λ m. is_json m && not (contains covered m)) (names d) n

-- Every batch of the directory is covered by the new checkpoint.
pub batches-covered :
    (old : Checkpoint) (d : Dir)
    → All
        (λ n. contains (covered_by (old.chunks ++ incoming old.covered d) old d) n ≡ true)
        (batch_names d)
batches-covered old d = All-of_contains _ (batch_names d) λ n m. ground (
  arith,
  contains-covered_by (old.chunks ++ incoming old.covered d) old d n,
  contains-append old.chunks (incoming old.covered d) n,
  contains-incoming old.covered d n,
  exists-names d n,
  contains-keep is_json (names d) n,
)

-- Every covered name is that of a batch.
pub covered-safe :
    (paths : List Str) (old : Checkpoint) (d : Dir)
    → all (λ n. not (is_json n) || safe_name (codes ".json") n) paths ≡ true
    → all (safe_name (codes ".json")) old.covered ≡ true
    → All (λ n. safe_name (codes ".json") n ≡ true) (covered_by paths old d)
covered-safe paths old d h k = All-of_contains _ (covered_by paths old d) λ n m. ground (
  arith,
  contains-covered_by paths old d n,
  all-contains (λ n. not (is_json n) || safe_name (codes ".json") n) paths n h,
  all-contains (safe_name (codes ".json")) old.covered n k,
)

-- What the generated names of the packs must be: the time, the process and a counter are in them.
pub record FreshNames (codec : Codec) (prefix : Str) (d : Dir) (n : ℕ) : Type 0 where
  pub safe : (i : ℕ) → i < n → safe_name (codes ".pack") (pack_name codec prefix i) ≡ true
  pub unused : (i : ℕ) → i < n → lookup (pack_name codec prefix i) d ≡ none
  pub apart :
      (i j : ℕ) → i < j → j < n → (pack_name codec prefix i == pack_name codec prefix j) ≡ false
