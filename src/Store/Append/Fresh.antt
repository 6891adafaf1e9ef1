-- ===== src/Store/Append/Fresh.antt =====
-- The events that an append of new ones keeps (crates/session-activity/src/store.rs).
use peekback.Activity.{FileEvent, SessionKey, key_eq, operation_eq, outcome_eq, source_eq}
use peekback.Base.{
  All, List, Option, Str, [], codes, contains, false, if◌then◌else◌, keep, map, nat_eq, ok,
  option_eq, refl, some, str_eq, true, ◌++◌, ◌==◌, ◌||◌, ◌∷◌, ◌≡◌, ◌≢◌, ◌≤◌, ◌⊎◌,
}
use peekback.Base.Int.{int_eq, ℤ}
use peekback.Base.Paths.{path_eq}
use peekback.Store.{
  Codec, Content, Dir, ReadReport, array_size, is_retained, lookup, max_batch_bytes, read_unlocked,
  retained_from,
}
use peekback.Store.Append.{
  Identity, append_new_unlocked, append_unlocked, fresh_events, identity, identity_eq,
  write_retained,
}
use peekback.Store.Maintenance.Commit.{read_unlocked-eq-ok}

abbrev pub identities : List FileEvent → List Identity
identities = map identity

-- No two events are one.
abbrev pub AllDiffer : List Identity → Type 0
AllDiffer [] = Unit
AllDiffer (i ∷ is) = (contains is i ≡ false) × AllDiffer is

fresh_events-known :
    (seen : List Identity) (es : List FileEvent)
    → All (λ i. contains seen i ≡ true) (identities es)
    → fresh_events seen es ≡ []
unfolding fresh_events
fresh_events-known seen [] h = refl
fresh_events-known seen (e ∷ es) h = rw (h.0, fresh_events) (fresh_events-known seen es h.1)

-- The events that an append of new ones writes: no two of them are one, none is in the history,
-- and `i` is one of them or of the history if it is one of the history or of those to append.
abbrev pub IsFresh : List Identity → List FileEvent → List FileEvent → Identity → Type 0
IsFresh seen es fresh i =
    AllDiffer (identities fresh)
    × All (λ i. contains seen i ≡ false) (identities fresh)
    × ((contains seen i || contains (identities fresh) i)
        ≡ (contains seen i || contains (identities es) i))

-- How a directory looks after a batch of the events `fresh` was written to it: unless the cutoff
-- leaves none of them, the file of the batch has those it leaves, in their order, within the limit of
-- a batch, and a file of another name is as it was.
abbrev pub IsWritten : Codec → Str → Option ℤ → List FileEvent → Str → Dir → Dir → Type 0
IsWritten codec batch cutoff fresh name d d' =
    let kept = keep (is_retained cutoff) fresh in
    ((kept ≡ []) × (d' ≡ d))
    ⊎ ((kept ≢ [])
        × (array_size codec kept ≤ max_batch_bytes)
        × (lookup name d' ≡ (
            if batch ++ codes ".json" == name
            then some (Content.batch kept (array_size codec kept))
            else lookup name d)))

-- Appending events that the history already holds adds nothing: the directory stays as it is and
-- the count is zero.
pub append_new_unlocked-known :
    (codec : Codec) (batch : Str) (session : SessionKey) (es : List FileEvent) (d : Dir)
    (report : ReadReport)
    → read_unlocked session d ≡ ok report
    → All (λ i. contains (identities report.events) i ≡ true) (identities es)
    → append_new_unlocked codec batch session es d ≡ ok (d, 0)
unfolding append_new_unlocked append_unlocked retained_from write_retained
append_new_unlocked-known codec batch session es d report h k =
    let (c, v, t, same) = read_unlocked-eq-ok session d report h in
    rw (h, fresh_events-known (identities report.events) es k, t, append_new_unlocked) refl
