-- ===== src/Phase3/Tests/Records.antt =====
-- States, records and paths on concrete values.
use ha_mcp.Prelude.{◌≡◌, refl, true, false, some, [], ◌++◌}
use mathlib.Core.List.{reverse}
use ha_mcp.Phase3.States.{
  intent_prepared, apply_committed, post_validation_succeeded, rollback_intent, rollback_committed,
  can_transition, is_terminal,
}
use ha_mcp.Phase3.States.Reach.{Run, here, step}
use ha_mcp.Phase3.Records.{TransactionRecord}
use ha_mcp.Phase3.Records.Schema.{
  reload_context_is_legal, record_reload_context_is_legal, can_record_transition,
}
use ha_mcp.Phase3.Records.Context.{ReloadGate, can_record_transition-ReloadGate}
use ha_mcp.Phase3.Paths.{
  units, split, is_canonical_path, split_from, segment_ok, unit_ok, starts_with_slash,
}
use ha_mcp.Phase3.Paths.Segments.{join, walk, canonical_path-walk}
use ha_mcp.Phase3.Tests.Workflow.{stopped}

abbrev committed : TransactionRecord
committed = stopped

abbrev validated : TransactionRecord
validated = record stopped {
  state = post_validation_succeeded;
  prior_state = some apply_committed;
  version = 2;
}

two_steps : Run 2 intent_prepared post_validation_succeeded
unfolding can_transition
two_steps = step {t = apply_committed} refl (step {t = post_validation_succeeded} refl here)

rolling : Run 1 rollback_intent rollback_committed
unfolding can_transition
rolling = step {t = rollback_committed} refl here

committed-legal : record_reload_context_is_legal committed ≡ true
unfolding reload_context_is_legal
committed-legal = refl

step_accepted : can_record_transition committed validated ≡ true
unfolding can_record_transition can_transition reload_context_is_legal
step_accepted = refl

can_record_transition-ReloadGate_example : ReloadGate committed validated
can_record_transition-ReloadGate_example =
    can_record_transition-ReloadGate committed validated step_accepted

committed-live : is_terminal committed.state ≡ false
unfolding is_terminal
committed-live = refl

path_accepted : is_canonical_path (λ s. s) "a/b.yaml" ≡ true
unfolding is_canonical_path split split_from segment_ok unit_ok starts_with_slash
path_accepted = refl

canonical_path-walk_example :
    (walk [] (split (units "a/b.yaml")) ≡ reverse (split (units "a/b.yaml")) ++ [])
    × (join (split (units "a/b.yaml")) ≡ units "a/b.yaml")
canonical_path-walk_example = canonical_path-walk (λ s. s) "a/b.yaml" [] path_accepted
