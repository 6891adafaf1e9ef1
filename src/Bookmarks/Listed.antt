-- ===== src/Bookmarks/Listed.antt =====
-- What a listing of bookmarks holds (src/bookmarks.rs).
use peekback.Base.{
  ==_iff, All, All-append, All-map, Bool-cases, List, Str, [], arith, contains, either_branch,
  false, inl, inr, length, length-append, nat_eq, not-eq, option_eq, refl, str_eq, subst, sym, true,
  ℕ, ◌++◌, ◌+◌, ◌==◌, ◌∙◌, ◌∷◌, ◌≡◌, ◌≢◌, ◌≤◌,
}
use peekback.Base.Int.{int_eq, ℤ}
use peekback.Base.Paths.{FilePath, path_eq}
use peekback.Base.Sort.{sort}
use peekback.Bookmarks.{Disk, bookmark_budget, max_documents, walk_files}
use peekback.Bookmarks.Listings.{
  Bookmarking, LabelBase, add_document, add_documents, add_warning, bookmark_document, empty_scan,
  folder_listing, newer, stopped_message, touched,
}
use peekback.Daemon.{
  Document, Listing, listing_request_eq, session_identity_eq, theme_eq, view_context_eq,
}
use peekback.Store.Maintenance.Crash.{new}

-- No path stands twice.
abbrev pub PathsDiffer : List Document → Type 0
PathsDiffer [] = Unit
PathsDiffer (d ∷ ds) = All (λ e. (d.path == e.path) ≡ false) ds × PathsDiffer ds

-- A listing within the limit, which names each of the files that were seen at most once and counts
-- them all.
pub record IsListing (scan : Bookmarking) : Type 0 where
  pub few : length scan.listing.documents ≤ max_documents
  pub counted : scan.listing.found ≡ length scan.seen
  pub all_shown :
      length scan.seen ≤ max_documents → length scan.listing.documents ≡ length scan.seen
  pub known : All (λ d. contains scan.seen d.path ≡ true) scan.listing.documents
  pub apart : PathsDiffer scan.listing.documents

IsListing-empty : (budget : ℕ) (warnings : List Str) → IsListing (empty_scan budget warnings)
IsListing-empty budget warnings = record {
  few = omega arith;
  counted = refl;
  all_shown = λ h. refl;
  known = tt;
  apart = tt;
}

PathsDiffer-snoc :
    (ds : List Document) (d : Document)
    → PathsDiffer ds
    → All (λ e. (e.path == d.path) ≡ false) ds
    → PathsDiffer (ds ++ d ∷ [])
PathsDiffer-snoc [] d h k = (tt, tt)
PathsDiffer-snoc (e ∷ ds) d h k = (
  All-append (λ f. (e.path == f.path) ≡ false) ds (d ∷ []) h.0 (k.0, tt),
  PathsDiffer-snoc ds d h.1 k.1,
)

contains_later :
    (seen : List FilePath) (p q : FilePath) → contains seen q ≡ true → contains (p ∷ seen) q ≡ true
contains_later seen p q h = ground arith

seen_head : (seen : List FilePath) (p : FilePath) → contains (p ∷ seen) p ≡ true
seen_head seen p = rw ((==_iff p p).1 refl) refl

apart_new :
    (seen : List FilePath) (p q : FilePath)
    → contains seen p ≡ false
    → contains seen q ≡ true
    → (q == p) ≡ false
apart_new seen p q n h = elim (Bool-cases (q == p)) [
  | inr m ↦ m
  | inl y ↦
      let e = (==_iff q p).0 y in
      let there : contains seen p ≡ true = subst (λ q. contains seen q ≡ true) e h in
      absurd (ground (arith, n, there))
]

IsListing-full :
    (scan : Bookmarking) (p : FilePath)
    → IsListing scan
    → (length scan.listing.documents == max_documents) ≡ true
    → IsListing (record scan {
      seen = p ∷ scan.seen;
      listing = record scan.listing { found = scan.listing.found + 1 };
    })
IsListing-full scan p h full = record {
  few = h.few;
  counted = omega (arith, h.counted);
  all_shown = λ k.
      let many : length scan.listing.documents ≡ max_documents =
        (==_iff (length scan.listing.documents) max_documents).0 full in
      absurd (omega (arith, h.all_shown (omega (arith, k)), many, k));
  known =
      All-map {P = λ d. contains scan.seen d.path ≡ true} (λ d. contains_later scan.seen p d.path)
        scan.listing.documents h.known;
  apart = h.apart;
}

IsListing-added :
    (scan : Bookmarking) (d : Document)
    → IsListing scan
    → (length scan.listing.documents == max_documents) ≡ false
    → contains scan.seen d.path ≡ false
    → IsListing (record scan {
      seen = d.path ∷ scan.seen;
      listing = record scan.listing {
        found = scan.listing.found + 1;
        documents = scan.listing.documents ++ d ∷ [];
      };
    })
IsListing-added scan d h room new = record {
  few =
      let fewer = length-append scan.listing.documents (d ∷ []) in
      let less : length scan.listing.documents ≢ max_documents = not-eq room in
      omega (arith, fewer, h.few, less);
  counted = omega (arith, h.counted);
  all_shown = λ k.
      let fewer = length-append scan.listing.documents (d ∷ []) in
      omega (arith, fewer, h.all_shown (omega (arith, k)));
  known =
      All-append (λ e. contains (d.path ∷ scan.seen) e.path ≡ true) scan.listing.documents (d ∷ [])
        (All-map {P = λ e. contains scan.seen e.path ≡ true}
          (λ e. contains_later scan.seen d.path e.path) scan.listing.documents h.known)
        (seen_head scan.seen d.path, tt);
  apart = PathsDiffer-snoc scan.listing.documents d h.apart (
      All-map {P = λ e. contains scan.seen e.path ≡ true}
        (λ e. apart_new scan.seen d.path e.path new) scan.listing.documents h.known);
}

IsListing-add_document :
    (disk : Disk) (base : LabelBase) (home path : FilePath) (touched_at : ℤ) (scan : Bookmarking)
    → IsListing scan
    → IsListing (add_document disk base home path touched_at scan)
unfolding add_document
IsListing-add_document disk base home path touched_at scan h =
    let d = bookmark_document disk base home path touched_at in
    either_branch IsListing (contains scan.seen path) scan _ (λ y. h)
      (λ new.
        either_branch (λ l. IsListing (record scan { seen = path ∷ scan.seen; listing = l }))
          (length scan.listing.documents == max_documents) _ _
          (λ full. IsListing-full scan path h full) (λ room. IsListing-added scan d h room new))

IsListing-add_documents :
    (disk : Disk) (base : LabelBase) (home : FilePath) (paths : List FilePath) (scan : Bookmarking)
    → IsListing scan
    → IsListing (add_documents disk base home paths scan)
unfolding add_documents
IsListing-add_documents disk base home [] scan h = h
IsListing-add_documents disk base home (path ∷ paths) scan h =
    IsListing-add_documents disk base home paths
      (add_document disk base home path (touched (disk.modified_at path)) scan)
      (IsListing-add_document disk base home path (touched (disk.modified_at path)) scan h)

-- A listing that is shown: at most 200 documents, no path twice, and if fewer than the files that
-- were found, exactly 200.
abbrev pub IsCapped : Listing → Type 0
IsCapped l =
    (length l.documents ≤ max_documents)
    × PathsDiffer l.documents
    × (l.found ≤ max_documents → length l.documents ≡ l.found)

IsCapped-IsListing : (scan : Bookmarking) → IsListing scan → IsCapped scan.listing
IsCapped-IsListing scan h =
    (h.few, h.apart, λ k. h.all_shown (omega (arith, h.counted, k)) ∙ sym h.counted)

-- The listing of a folder holds at most 200 documents, no path twice, and all that were found if they
-- are no more.
pub folder_listing-IsCapped : (disk : Disk) (dir : FilePath) → IsCapped (folder_listing disk dir)
unfolding folder_listing
folder_listing-IsCapped disk dir =
    let found = walk_files disk dir bookmark_budget [] in
    let scan =
      add_documents disk (LabelBase.project_base dir) dir (sort (newer disk) found.2)
        (empty_scan found.0 found.1) in
    let capped = IsCapped-IsListing scan (
      IsListing-add_documents disk (LabelBase.project_base dir) dir (sort (newer disk) found.2) _
        (IsListing-empty found.0 found.1)) in
    either_branch IsCapped (found.0 == 0) (add_warning (stopped_message disk) scan.listing)
      scan.listing (λ y. capped) (λ n. capped)
