-- ===== src/Store/Maintenance/Pack.antt =====
-- Packs hold the events they were made of, in order, and fit the size limit
-- (crates/session-activity/src/maintenance.rs).
use mathlib.Core.List.{append_assoc}
use peekback.Activity.{FileEvent, key_eq, operation_eq, outcome_eq, source_eq}
use peekback.Base.{
  All, Bool, Bool-cases, Error, List, Result, [], any, any-append, ap, arith, err, false,
  if◌then◌else◌, inl, inr, leb, ltb, nat_eq, ok, option_eq, refl, str_eq, subst, true, ℕ, ◌&&◌,
  ◌++◌, ◌+◌, ◌<◌, ◌>>=◌, ◌∙◌, ◌∷◌, ◌≡◌, ◌≢◌, ◌≤◌,
}
use peekback.Base.Int.{int_eq}
use peekback.Base.Paths.{path_eq}
use peekback.Store.{Codec, array_size, body_size, max_batch_bytes}
use peekback.Store.Maintenance.{Chunk, pack, pack_from}

abbrev pub events_of : List Chunk → List FileEvent
events_of [] = []
events_of (c ∷ cs) = c.events ++ events_of cs

and-left : (a b : Bool) → (a && b) ≡ true → a ≡ true
and-left a b h = ground arith

module _ (codec : Codec) (positive : (e : FileEvent) → 0 < codec.event_size e) where
  -- A pack file that `read_batch` accepts, as far as its size goes.
  abbrev pub IsGood : Chunk → Type 0
  IsGood c = (c.events ≢ []) × (c.size ≡ array_size codec c.events) × (c.size ≤ max_batch_bytes)

  -- Alone in a pack, between its brackets, the event exceeds the limit.
  abbrev pub is_large : FileEvent → Bool
  is_large e = ltb max_batch_bytes (array_size codec (e ∷ []))

  abbrev pub Packs : List FileEvent → Result (List Chunk) → Type 0
  Packs goal (ok cs) = (events_of cs ≡ goal) × All IsGood cs
  Packs goal (err e) = (e ≡ Error.event_too_large) × (any is_large goal ≡ true)

  -- The length of the open chunk is that of its text without the closing bracket, which fits.
  abbrev IsOpen : List FileEvent → ℕ → Type 0
  IsOpen chunk len = (len ≡ body_size codec chunk + 1) × (len + 1 ≤ max_batch_bytes)

  body_size-snoc :
      (c : FileEvent) (chunk : List FileEvent) (e : FileEvent)
      → body_size codec ((c ∷ chunk) ++ e ∷ [])
        ≡ body_size codec (c ∷ chunk) + 1 + codec.event_size e
  unfolding body_size
  body_size-snoc c [] e = refl
  body_size-snoc c (d ∷ chunk) e = omega (arith, body_size-snoc d chunk e)

  body_size-pos : (c : FileEvent) (chunk : List FileEvent) → 0 < body_size codec (c ∷ chunk)
  unfolding body_size
  body_size-pos c [] = positive c
  body_size-pos c (d ∷ chunk) = omega (arith, body_size-pos d chunk)

  IsOpen-IsGood :
      (chunk : List FileEvent) (len : ℕ)
      → ltb 1 len ≡ true
      → IsOpen chunk len
      → IsGood (record { events = chunk; size = len + 1 })
  unfolding array_size body_size
  IsOpen-IsGood [] len h o = absurd (ground arith)
  IsOpen-IsGood (c ∷ chunk) len h o = ((λ e. cc), omega arith, o.1)

  closed_empty :
      (chunk : List FileEvent) (len : ℕ) → ltb 1 len ≡ false → IsOpen chunk len → chunk ≡ []
  closed_empty [] len h o = refl
  closed_empty (c ∷ chunk) len h o = absurd (ground (arith, body_size-pos c chunk))

  IsOpen-snoc :
      (chunk : List FileEvent) (len : ℕ) (e : FileEvent)
      → IsOpen chunk len
      → leb (codec.event_size e + 2) max_batch_bytes ≡ true
      → (ltb 1 len && ltb max_batch_bytes (len + codec.event_size e + 2)) ≡ false
      → IsOpen (chunk ++ e ∷ []) ((if ltb 1 len then len + 1 else len) + codec.event_size e)
  unfolding body_size
  IsOpen-snoc [] len e o fits more = ground arith
  IsOpen-snoc (c ∷ chunk) len e o fits more =
      ground (arith, body_size-pos c chunk, body_size-snoc c chunk e)

  IsOpen-single :
      (e : FileEvent)
      → leb (codec.event_size e + 2) max_batch_bytes ≡ true
      → IsOpen (e ∷ []) (1 + codec.event_size e)
  unfolding body_size
  IsOpen-single e fits = ground arith

  large_event :
      (e : FileEvent) → leb (codec.event_size e + 2) max_batch_bytes ≡ false → is_large e ≡ true
  unfolding array_size body_size
  large_event e h = ground arith

  any-right : (xs ys : List FileEvent) → any is_large ys ≡ true → any is_large (xs ++ ys) ≡ true
  any-right xs ys h = any-append is_large xs ys ∙ ground arith

  >>=-Packs :
      (c : Chunk) (goal : List FileEvent) (r : Result (List Chunk))
      → IsGood c
      → Packs goal r
      → Packs (c.events ++ goal) (r >>= λ rest. ok (c ∷ rest))
  >>=-Packs c goal (ok cs) g h = (ap (◌++◌ c.events) h.0, (g, h.1))
  >>=-Packs c goal (err e) g h = (h.0, any-right c.events goal h.1)

  regroup :
      (chunk : List FileEvent) (e : FileEvent) (es : List FileEvent) (r : Result (List Chunk))
      → Packs ((chunk ++ e ∷ []) ++ es) r
      → Packs (chunk ++ e ∷ es) r
  regroup chunk e es r = subst (λ g. Packs g r) (append_assoc chunk (e ∷ []) es)

  pack_from-Packs :
      (chunk : List FileEvent) (len : ℕ) (es : List FileEvent)
      → IsOpen chunk len
      → Packs (chunk ++ es) (pack_from codec chunk len es)
  unfolding pack_from
  pack_from-Packs chunk len [] o = elim (Bool-cases (ltb 1 len)) [
    | inl h ↦ rw h (refl, (IsOpen-IsGood chunk len h o, tt))
    | inr h ↦ rw (h, closed_empty chunk len h o) (refl, tt)
  ]
  pack_from-Packs chunk len (e ∷ es) o =
      elim (Bool-cases (leb (codec.event_size e + 2) max_batch_bytes)) [
        | inr large ↦
            rw (large, pack_from)
              (refl, any-right chunk (e ∷ es) (ground (arith, large_event e large)))
        | inl fits ↦
            elim (Bool-cases (ltb 1 len && ltb max_batch_bytes (len + codec.event_size e + 2))) [
              | inl full ↦
                  rw (fits, full, pack_from)
                    (>>=-Packs (record { events = chunk; size = len + 1 }) (e ∷ es) _
                      (IsOpen-IsGood chunk len (and-left _ _ full) o)
                      (pack_from-Packs (e ∷ []) (1 + codec.event_size e) es (IsOpen-single e fits)))
              | inr more ↦
                  rw (fits, more, pack_from)
                    (regroup chunk e es
                      (pack_from codec (chunk ++ e ∷ [])
                        ((if ltb 1 len then len + 1 else len) + codec.event_size e) es)
                      (pack_from-Packs (chunk ++ e ∷ [])
                        ((if ltb 1 len then len + 1 else len) + codec.event_size e) es
                        (IsOpen-snoc chunk len e o fits more)))
            ]
      ]

  -- Where every event takes some bytes, packing gives packs that hold all the events in their
  -- order, none of them empty, each with the size of its text and within the limit of a batch. If it
  -- fails, it is with the error for it, and one of the events exceeds the limit in a pack of its own.
  pub pack-Packs : (es : List FileEvent) → Packs es (pack codec es)
  unfolding pack body_size
  pack-Packs es = pack_from-Packs [] 1 es (refl, omega arith)
