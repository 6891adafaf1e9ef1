-- ===== src/Store/Maintenance/Dirs.antt =====
-- Directories under single steps: what a lookup and the list of batch names see.
use mathlib.Core.Bool.{false≢true}
use peekback.Base.{
  ==_iff, All, Bool-cases, List, Str, Str_discrete, [], arith, codes, false, if◌then◌else◌, inl,
  inr, keep, nat_eq, none, not, option_eq, refl, some, str_eq, subst, sym, true, ◌==◌, ◌∙◌, ◌∷◌,
  ◌≡◌,
}
use peekback.Base.Int.{int_eq}
use peekback.Base.Paths.{path_eq}
use peekback.Store.{Content, Dir, delete, ends_with, is_json, lookup, names, put}

pub lookup-put :
    (j k : Str) (v : Content) (d : Dir)
    → lookup j (put k v d) ≡ (if k == j then some v else lookup j d)
unfolding lookup put
lookup-put j k v [] = refl
lookup-put j k v ((n, old) ∷ d) = ground (arith, lookup-put j k v d)

pub lookup-delete :
    (j k : Str) (d : Dir) → lookup j (delete k d) ≡ (if j == k then none else lookup j d)
unfolding lookup delete
lookup-delete j k [] = ground arith
lookup-delete j k ((n, old) ∷ d) = ground (arith, lookup-delete j k d)

-- The batches of a directory, covered or not.
abbrev pub batch_names : Dir → List Str
batch_names d = keep is_json (names d)

pub batch_names-put :
    (k : Str) (v : Content) (d : Dir) → is_json k ≡ false → batch_names (put k v d) ≡ batch_names d
unfolding put
batch_names-put k v [] h = rw h
batch_names-put k v ((n, old) ∷ d) h = ground (arith, batch_names-put k v d)

All-tail :
    (P : Str → Type 0) (n : Str) (content : Content) (d : Dir)
    → All P (batch_names ((n, content) ∷ d))
    → All P (batch_names d)
All-tail P n content d h = elim (Bool-cases (is_json n)) [
  | inl e ↦ (rw e at h).1
  | inr e ↦ rw e at h
]

All-cons :
    (P : Str → Type 0) (n : Str) (content : Content) (d e : Dir)
    → All P (batch_names ((n, content) ∷ d))
    → All P (batch_names e)
    → All P (batch_names ((n, content) ∷ e))
All-cons P n content d e h k = elim (Bool-cases (is_json n)) [
  | inl j ↦ rw j ((rw j at h).0, k)
  | inr j ↦ rw j k
]

pub All-batch_names-delete :
    (P : Str → Type 0) (k : Str) (d : Dir)
    → All P (batch_names d)
    → All P (batch_names (delete k d))
unfolding delete
All-batch_names-delete P k [] h = tt
All-batch_names-delete P k ((n, old) ∷ d) h =
    let rest = All-batch_names-delete P k d (All-tail P n old d h) in
    elim (Bool-cases (not (n == k))) [
      | inl e ↦ rw e (All-cons P n old d (delete k d) h rest)
      | inr e ↦ rw e rest
    ]

pack_of_json : ends_with (codes ".pack") (codes ".json") ≡ false
unfolding ends_with Str_discrete
pack_of_json = refl

json_of_pack : ends_with (codes ".json") (codes ".pack") ≡ false
unfolding ends_with Str_discrete
json_of_pack = refl

json_of_nothing : ends_with (codes ".json") [] ≡ false
unfolding ends_with Str_discrete
json_of_nothing = refl

-- Names with one suffix do not have the other.
pub suffixes_differ :
    (n : Str) → ends_with (codes ".pack") n ≡ true → ends_with (codes ".json") n ≡ false
unfolding ends_with
suffixes_differ [] h = json_of_nothing
suffixes_differ (c ∷ cs) h = elim (Bool-cases ((c ∷ cs) == codes ".json")) [
  | inl j ↦
      let e : c ∷ cs ≡ codes ".json" = (==_iff (c ∷ cs) (codes ".json")).0 j in
      absurd (false≢true (sym pack_of_json ∙ subst (λ n. ends_with (codes ".pack") n ≡ true) e h))
  | inr j ↦ elim (Bool-cases ((c ∷ cs) == codes ".pack")) [
    | inl p ↦
        let e : c ∷ cs ≡ codes ".pack" = (==_iff (c ∷ cs) (codes ".pack")).0 p in
        subst (λ n. ends_with (codes ".json") n ≡ false) (sym e) json_of_pack
    | inr p ↦ rw j (suffixes_differ cs (rw p at h))
  ]
]
