-- ===== src/Examples/Names.antt =====
-- The theorems on paths and names.
use peekback.Activity.{
  agent_id, key_eq, operation_eq, outcome_eq, resolve_path, source_eq, valid_id,
}
use peekback.Activity.Paths.{IsClean, resolve_path-valid_id, resolve_path_canonical}
use peekback.Base.{[], codes, nat_eq, ok, option_eq, refl, some, str_eq, true, ◌++◌, ◌∷◌, ◌≡◌}
use peekback.Base.Int.{int_eq}
use peekback.Base.Paths.{Component, is_absolute, parse, path_eq}
use peekback.Examples.Data.{tmp}
use peekback.Harness.{Harness, agent_id_of, harness_eq, label, name, of, slug}
use peekback.Harness.Names.{agent_id_of_roundtrip}

tmp_absolute : is_absolute tmp ≡ true
unfolding parse
tmp_absolute = refl

tmp-IsClean : IsClean tmp
unfolding parse
tmp-IsClean = (tt, tt)

id_valid : valid_id (codes "s-1") ≡ true
unfolding valid_id
id_valid = refl

resolve_path_canonical_example :
    (is_absolute (resolve_path tmp (parse (codes "../a"))) ≡ true)
    × IsClean (resolve_path tmp (parse (codes "../a")))
    × (resolve_path (parse (codes "/x")) (resolve_path tmp (parse (codes "../a")))
        ≡ resolve_path tmp (parse (codes "../a")))
resolve_path_canonical_example =
    resolve_path_canonical tmp (parse (codes "../a")) (parse (codes "/x")) tmp_absolute

resolve_path-valid_id_example :
    resolve_path tmp (parse (codes "s-1")) ≡ tmp ++ Component.normal (codes "s-1") ∷ []
resolve_path-valid_id_example =
    resolve_path-valid_id tmp (codes "s-1") tmp_absolute tmp-IsClean id_valid

agent_id_of_roundtrip_example :
    (agent_id (slug Harness.codex) ≡ ok (agent_id_of Harness.codex))
    × (of (agent_id_of Harness.codex) ≡ some Harness.codex)
    × (label (agent_id_of Harness.codex) ≡ name Harness.codex)
agent_id_of_roundtrip_example = agent_id_of_roundtrip Harness.codex
