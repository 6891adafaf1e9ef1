-- ===== src/Harness/Names.antt =====
-- The names of the agents lead back to them (src/harness/mod.rs).
use peekback.Activity.{agent_id, key_eq, operation_eq, outcome_eq, source_eq}
use peekback.Base.{nat_eq, ok, option_eq, refl, some, str_eq, ◌≡◌}
use peekback.Base.Int.{int_eq}
use peekback.Base.Paths.{path_eq}
use peekback.Harness.{Harness, agent_id_of, harness_eq, label, name, of, slug}

-- Every slug is a valid agent id, so `agent_id` cannot panic; the id leads back to the agent, and
-- the agent is then called by its name.
pub agent_id_of_roundtrip :
    (harness : Harness)
    → (agent_id (slug harness) ≡ ok (agent_id_of harness))
      × (of (agent_id_of harness) ≡ some harness)
      × (label (agent_id_of harness) ≡ name harness)
unfolding agent_id slug agent_id_of of label
agent_id_of_roundtrip Harness.claude = (refl, refl, refl)
agent_id_of_roundtrip Harness.codex = (refl, refl, refl)
