-- ===== src/Phase3/Coordinator/Table.antt =====
-- phase3/contracts.ts: `phase3RecoveryTable`, and where phase3/applyCoordinator.ts reloads by it.
use ha_mcp.Prelude.{true, false, Bool}
use ha_mcp.Phase3.States.{
  TransactionState, intent_prepared, apply_committed, post_validation_succeeded, reload_intent,
  reload_succeeded, verification_succeeded, rollback_intent, rollback_committed,
  rollback_validation_succeeded, rollback_reload_intent, rollback_reload_succeeded,
  rollback_verification_succeeded, manual_recovery_required,
}
use ha_mcp.Phase3.Coordinator.Recover.{
  DigestClass, candidate, expected_or_checkpoint, other_or_missing,
}

-- The entries of the table.
pub data Action : Type 0 where
  rolled_back_no_live_effect rollback rollback_with_reload_required manual_recovery
        complete_rollback_validation_verification complete_rollback_validation_reload_verification
        complete_rollback_reload_or_verification complete_rollback_verification verified_no_effect
        rolled_back_no_effect external_manual_required_no_transition no_effect :
      Action

-- `phase3RecoveryTable`.
unfoldable pub recovery_table : TransactionState → DigestClass → Action
recovery_table intent_prepared expected_or_checkpoint = rolled_back_no_live_effect
recovery_table intent_prepared candidate = rollback
recovery_table intent_prepared other_or_missing = manual_recovery
recovery_table apply_committed candidate = rollback
recovery_table apply_committed expected_or_checkpoint = complete_rollback_validation_verification
recovery_table apply_committed other_or_missing = manual_recovery
recovery_table post_validation_succeeded candidate = rollback
recovery_table post_validation_succeeded expected_or_checkpoint =
    complete_rollback_validation_verification
recovery_table post_validation_succeeded other_or_missing = manual_recovery
recovery_table reload_intent candidate = rollback_with_reload_required
recovery_table reload_intent expected_or_checkpoint =
    complete_rollback_validation_reload_verification
recovery_table reload_intent other_or_missing = manual_recovery
recovery_table reload_succeeded candidate = rollback_with_reload_required
recovery_table reload_succeeded expected_or_checkpoint =
    complete_rollback_validation_reload_verification
recovery_table reload_succeeded other_or_missing = manual_recovery
recovery_table rollback_intent candidate = rollback
recovery_table rollback_intent expected_or_checkpoint = complete_rollback_validation_verification
recovery_table rollback_intent other_or_missing = manual_recovery
recovery_table rollback_committed candidate = manual_recovery
recovery_table rollback_committed expected_or_checkpoint = complete_rollback_validation_verification
recovery_table rollback_committed other_or_missing = manual_recovery
recovery_table rollback_validation_succeeded candidate = manual_recovery
recovery_table rollback_validation_succeeded expected_or_checkpoint =
    complete_rollback_reload_or_verification
recovery_table rollback_validation_succeeded other_or_missing = manual_recovery
recovery_table rollback_reload_intent candidate = manual_recovery
recovery_table rollback_reload_intent expected_or_checkpoint = manual_recovery
recovery_table rollback_reload_intent other_or_missing = manual_recovery
recovery_table rollback_reload_succeeded candidate = manual_recovery
recovery_table rollback_reload_succeeded expected_or_checkpoint = complete_rollback_verification
recovery_table rollback_reload_succeeded other_or_missing = manual_recovery
recovery_table verification_succeeded candidate = verified_no_effect
recovery_table verification_succeeded expected_or_checkpoint =
    external_manual_required_no_transition
recovery_table verification_succeeded other_or_missing = external_manual_required_no_transition
recovery_table rollback_verification_succeeded candidate = external_manual_required_no_transition
recovery_table rollback_verification_succeeded expected_or_checkpoint = rolled_back_no_effect
recovery_table rollback_verification_succeeded other_or_missing =
    external_manual_required_no_transition
recovery_table manual_recovery_required seen = no_effect

-- The entries that have the domain reloaded again after the rollback.
abbrev pub asks_for_reload : Action → Bool
asks_for_reload rollback_with_reload_required = true
asks_for_reload complete_rollback_validation_reload_verification = true
asks_for_reload _ = false
