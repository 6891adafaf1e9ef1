-- ===== src/Examples/History.antt =====
-- The theorems on the history at the batch of `Data`.
use peekback.Activity.{
  FileEvent, Operation_discrete, SessionKey_discrete, key_eq, operation_eq, outcome_eq, source_eq,
  valid_id, validate,
}
use peekback.Base.{
  All, List, Str_discrete, [], arith, codes, contains, false, keep, nat_eq, ok, option_eq, refl,
  some, str_eq, true, ℕ, ℕ_discrete, ◌<◌, ◌==◌, ◌∷◌, ◌≡◌,
}
use peekback.Base.Int.{int_eq, pos}
use peekback.Base.Paths.{parse, path_eq}
use peekback.Base.Sort.{insert}
use peekback.Examples.Data.{batch_dir, event_at, key_s, ten_byte_codec}
use peekback.Store.{
  Content, Dir, ReadReport, active_paths, ends_with, incoming, is_json, is_retained, lookup, put,
  read_batch, read_checkpoint, read_paths, read_unlocked, retained_from, safe_name, validate_batch,
}
use peekback.Store.Append.{Identity_discrete, append_new_unlocked, identity, identity_eq}
use peekback.Store.Append.Fresh.{append_new_unlocked-known, identities}
use peekback.Store.Maintenance.{MaintenanceReport, maintain, pack, pack_name}
use peekback.Store.Maintenance.Atomic.{IsAtomic, ReadsAs, maintain-IsAtomic}
use peekback.Store.Maintenance.Commit.{Extends, read_unlocked-Extends}
use peekback.Store.Maintenance.Covered.{FreshNames}
use peekback.Store.Maintenance.Pack.{Packs, pack-Packs}

ten_bytes : (e : FileEvent) → 0 < ten_byte_codec.event_size e
ten_bytes e = omega arith

no_two :
    (i j : ℕ)
    → i < j
    → j < 1
    → (pack_name ten_byte_codec (codes "c") i == pack_name ten_byte_codec (codes "c") j) ≡ false
no_two i j h k = absurd (omega arith)

fresh_names : FreshNames ten_byte_codec (codes "c") batch_dir 1
unfolding safe_name ends_with valid_id lookup Str_discrete ℕ_discrete
fresh_names = record { safe = λ i h. refl; unused = λ i h. refl; apart = no_two }

abbrev one_kept : MaintenanceReport
one_kept = record {
  dry_run = false;
  batches_before = 1;
  batches_after = 1;
  events_before = 2;
  events_after = 1;
  events_removed = 1;
  retained_from = some (pos 10);
}

maintained :
    (maintain ten_byte_codec
      (codes "c")
      (pos 100)
      key_s
      (some (pos 10))
      true
      (some batch_dir)).result
    ≡ ok one_kept
unfolding maintain Str_discrete ℕ_discrete incoming insert read_paths read_batch SessionKey_discrete
    parse Operation_discrete
maintained = refl

maintain-IsAtomic_example :
    (es : List FileEvent) × ReadsAs key_s batch_dir es
    × IsAtomic key_s batch_dir
        (maintain ten_byte_codec
          (codes "c")
          (pos 100)
          key_s
          (some (pos 10))
          true
          (some batch_dir)).steps
        1
        es
        (keep (is_retained (some (pos 10))) es)
maintain-IsAtomic_example =
    maintain-IsAtomic ten_byte_codec ten_bytes (codes "c") (pos 100) key_s (some (pos 10)) batch_dir
      one_kept 1 fresh_names maintained

pack-Packs_example :
    Packs ten_byte_codec ten_bytes
      (event_at (pos 5) ∷ event_at (pos 20) ∷ [])
      (pack ten_byte_codec (event_at (pos 5) ∷ event_at (pos 20) ∷ []))
pack-Packs_example = pack-Packs ten_byte_codec ten_bytes (event_at (pos 5) ∷ event_at (pos 20) ∷ [])

-- The directory with a pack that no checkpoint names.
abbrev with_pack : Dir
with_pack = put (codes "c-0.pack") (Content.batch [] 2) batch_dir

extends : Extends batch_dir with_pack
unfolding lookup put is_json ends_with Str_discrete ℕ_discrete
extends = record { kept = λ n h. ground arith; same_checkpoint = refl; same_batches = refl }

abbrev two_events : ReadReport
two_events = record { events = event_at (pos 5) ∷ event_at (pos 20) ∷ []; warnings = [] }

reads_two : read_unlocked key_s batch_dir ≡ ok two_events
unfolding read_unlocked Str_discrete ℕ_discrete incoming insert read_paths read_batch
    SessionKey_discrete parse Operation_discrete lookup validate_batch validate active_paths
    read_checkpoint retained_from
reads_two = refl

read_unlocked-Extends_example : read_unlocked key_s with_pack ≡ ok two_events
read_unlocked-Extends_example =
    read_unlocked-Extends key_s batch_dir with_pack two_events extends reads_two refl

abbrev appended : List FileEvent
appended = event_at (pos 20) ∷ event_at (pos 30) ∷ event_at (pos 30) ∷ []

abbrev with_batch : Dir
with_batch =
    (codes "1.json", Content.batch (event_at (pos 5) ∷ event_at (pos 20) ∷ []) 23)
    ∷ (codes "2.json", Content.batch (event_at (pos 30) ∷ []) 12)
    ∷ []

both_known :
    All
      (λ i. contains (identities two_events.events) i ≡ true)
      (identities (event_at (pos 20) ∷ []))
unfolding identity Identity_discrete parse
both_known = (refl, tt)

append_new_unlocked-known_example :
    append_new_unlocked ten_byte_codec (codes "2") key_s (event_at (pos 20) ∷ []) batch_dir
    ≡ ok (batch_dir, 0)
append_new_unlocked-known_example =
    append_new_unlocked-known ten_byte_codec (codes "2") key_s (event_at (pos 20) ∷ []) batch_dir
      two_events reads_two both_known
