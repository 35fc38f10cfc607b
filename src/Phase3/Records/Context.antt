-- ===== src/Phase3/Records/Context.antt =====
-- phase3/contracts.ts: what an accepted step between two records keeps.
use ha_mcp.Prelude.{String, ◌+◌, ◌≡◌, ◌≢◌, ◌⊎◌, true, false, none, some, arith, option_beq_iff}
use ha_mcp.Phase3.States.{
  reload_intent, reload_succeeded, rollback_intent, rollback_reload_succeeded,
  rollback_verification_succeeded, manual_recovery_required, can_transition, is_terminal,
}
use ha_mcp.Phase3.Records.{TransactionRecord, StructuredFailure, target_eq}
use ha_mcp.Phase3.Records.Schema.{
  reload_context_is_legal, record_reload_context_is_legal, can_record_transition,
}

-- An accepted step from a record with a legal reload context, to a record that names its state as
-- the prior one, ends in a legal reload context.
pub can_record_transition-legal :
    (previous next : TransactionRecord)
    → record_reload_context_is_legal previous ≡ true
    → next.prior_state ≡ some previous.state
    → can_record_transition previous next ≡ true
    → record_reload_context_is_legal next ≡ true
unfolding can_record_transition reload_context_is_legal can_transition
can_record_transition-legal previous next legal prior accepted =
    ground (arith, option_beq_iff previous.reload_target next.reload_target)

-- What an accepted step says of the reload target and of the rollback reload flag.
pub record ReloadGate (previous next : TransactionRecord) : Type 0 where
  pub target_kept : next.reload_target ≡ previous.reload_target
  pub flag_kept : previous.rollback_reload_required ≡ true → next.rollback_reload_required ≡ true
  pub raised_by_rollback :
      previous.rollback_reload_required ≡ false
      → next.rollback_reload_required ≡ true
      → (next.state ≡ rollback_intent)
        × ((previous.state ≡ reload_intent) ⊎ (previous.state ≡ reload_succeeded))
  pub reload_before_success :
      next.state ≡ reload_succeeded → next.reload_target ≢ none → previous.state ≡ reload_intent
  pub reload_before_verified :
      next.state ≡ rollback_verification_succeeded
      → next.rollback_reload_required ≡ true
      → previous.state ≡ rollback_reload_succeeded

-- An accepted step keeps the reload target, never clears the rollback reload flag and raises it only
-- when it records a rollback from `reload_intent` or `reload_succeeded`. A record with a target comes
-- to `reload_succeeded` only from `reload_intent`, and one with the flag to
-- `rollback_verification_succeeded` only from `rollback_reload_succeeded`.
pub can_record_transition-ReloadGate :
    (previous next : TransactionRecord)
    → can_record_transition previous next ≡ true
    → ReloadGate previous next
unfolding can_record_transition reload_context_is_legal can_transition
can_record_transition-ReloadGate previous next accepted = record {
  target_kept = ground (arith, option_beq_iff previous.reload_target next.reload_target);
  flag_kept = ground arith;
  raised_by_rollback = ground arith;
  reload_before_success = ground arith;
  reload_before_verified = ground arith;
}

-- The record that `transition` writes for `manual_recovery_required`.
abbrev pub to_manual : TransactionRecord → StructuredFailure → String → TransactionRecord
to_manual previous failure updated_at = record previous {
  state = manual_recovery_required;
  prior_state = some previous.state;
  version = previous.version + 1;
  updated_at = updated_at;
  failure = some failure;
}

-- Manual recovery can be recorded from every record that is not terminal and has a legal reload
-- context, whatever the failure.
pub manual_is_always_legal :
    (previous : TransactionRecord) (failure : StructuredFailure) (updated_at : String)
    → is_terminal previous.state ≡ false
    → record_reload_context_is_legal previous ≡ true
    → can_record_transition previous (to_manual previous failure updated_at) ≡ true
unfolding can_record_transition reload_context_is_legal can_transition is_terminal
manual_is_always_legal previous failure updated_at live legal =
    ground (arith, option_beq_iff previous.reload_target previous.reload_target)
