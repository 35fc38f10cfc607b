-- ===== src/Phase3/Coordinator/Rollback.antt =====
-- phase3/applyCoordinator.ts: the rollback of an applied candidate.
use Prim.Native.Nat.{max}
use ha_mcp.Prelude.{
  ℕ, ◌+◌, String, Bool, true, false, not, ◌&&◌, ◌||◌, Option, none, some, ◌==◌, ◌!=◌, string_eq,
  option_eq, if◌then◌else◌,
}
use ha_mcp.Phase3.States.{
  rollback_intent, rollback_committed, rollback_validation_succeeded, rollback_reload_intent,
  rollback_reload_succeeded, rollback_verification_succeeded, state_beq,
}
use ha_mcp.Phase3.Records.{
  CommitStatus, before_commit, committed, commit_unknown, FailureStage, StructuredFailure,
  ReloadTarget, TransactionRecord,
}
use ha_mcp.Phase3.Records
use ha_mcp.Phase3.Records.Schema.{is_none}
use ha_mcp.Phase3.Effects.{
  Thrown, primitive, new_coordinator_error, M, pure, throw, ◌>>=◌, ◌>>◌, done, try_catch,
  try_finally, attempt,
}
use ha_mcp.Phase3.Faults.{
  commit_status, error_code, error_message, message_or, is_checkpoint_mismatch,
  should_require_rollback_reload,
}
use ha_mcp.Phase3.Ports.{Ports, OperationContext, Patch, ReplaceInput, checkpoint_post_rollback}
use ha_mcp.Phase3.Ports
use ha_mcp.Phase3.Coordinator.Manual.{failure_patch, move, new_failure, manual}

-- `current !== null && current === digest`.
abbrev pub digest_is : Option String → String → Bool
digest_is none digest = false
digest_is (some current) digest = current == digest

-- The stage that a rollback handler names.
abbrev stage_of : FailureStage → Thrown → FailureStage
stage_of stage e = if is_checkpoint_mismatch e then Records.checkpoint else stage

-- `{ failure, rollbackReloadRequired: true }`, the flag only where a reload may have to be undone.
abbrev pub rollback_patch : TransactionRecord → Thrown → StructuredFailure → Patch
rollback_patch r cause failure =
    if should_require_rollback_reload r cause
    then record { failure = some (some failure); rollback_reload_required = some true }
    else failure_patch failure

-- The states from which `completeRollbackValidation` records no new intent.
abbrev pub is_rolling_back : TransactionRecord → Bool
is_rolling_back r =
    state_beq r.state rollback_intent
    || state_beq r.state rollback_committed
    || state_beq r.state rollback_validation_succeeded
    || state_beq r.state rollback_reload_succeeded

module _ (p : Ports) where
  open p use {World, Bytes}

  -- `internalContext`, with the deadline of the caller or 0.
  unfoldable pub internal_context : ℕ → M World OperationContext
  internal_context caller_deadline = do
    signal ← p.fresh_signal
    time ← p.date_now
    pure (record { signal = signal; deadline_at = max (time + 60000) caller_deadline })

  -- `bytes.fill(0)` in a `finally`.
  abbrev pub wipe : Bytes → M World (Unit {0})
  wipe bytes w = (done tt, p.fill bytes w)

  -- `assertCheckpointIntegrity`.
  unfoldable pub assert_checkpoint_integrity : TransactionRecord → Bytes → M World (Unit {0})
  assert_checkpoint_integrity r checkpoint =
      if p.sha256 checkpoint != r.checkpoint_sha256
      then throw (
          new_coordinator_error "checkpoint_digest_mismatch"
            "Checkpoint bytes do not match the transaction checkpoint digest")
      else pure tt

  -- `manual` as the `catch` blocks call it.
  unfoldable pub give_up : FailureStage → TransactionRecord → Thrown → M World TransactionRecord
  give_up stage current e =
      manual p current (stage_of stage e) (error_code e) (error_message e) none none

  unfoldable pub reload_rollback :
      TransactionRecord → OperationContext → Option ReloadTarget → M World TransactionRecord
  reload_rollback r context none = pure r
  reload_rollback r context (some target) = do
    current ← move p r rollback_reload_intent
    attempt (p.reload_domain current.path target context)
        (λ e. manual p current Records.reload (error_code e) (error_message e) none none)
        (λ _. move p current rollback_reload_succeeded)

  -- `completeRollbackReload`.
  unfoldable pub complete_rollback_reload :
      TransactionRecord → OperationContext → M World TransactionRecord
  complete_rollback_reload r context = reload_rollback r context r.reload_target

  -- The last part of `completeRollbackValidationWithCheckpoint`: verification.
  unfoldable pub complete_verification :
      OperationContext → TransactionRecord → M World TransactionRecord
  complete_verification context current =
      if state_beq current.state rollback_validation_succeeded
        || state_beq current.state rollback_reload_succeeded
      then attempt
          (do
            p.verify current Ports.checkpoint context
            move p current rollback_verification_succeeded)
          (give_up Records.rollback current) pure
      else pure current

  -- The part before it: the reload that a rollback needs.
  unfoldable pub complete_reload : OperationContext → TransactionRecord → M World TransactionRecord
  complete_reload context current =
      if state_beq current.state rollback_validation_succeeded
        && current.rollback_reload_required
        && not (is_none current.reload_target)
      then attempt (complete_rollback_reload current context) (give_up Records.rollback current)
          (complete_verification context)
      else complete_verification context current

  -- `completeRollbackValidationWithCheckpoint`.
  unfoldable pub complete_rollback_validation_with_checkpoint :
      TransactionRecord → Bytes → OperationContext → M World TransactionRecord
  complete_rollback_validation_with_checkpoint r checkpoint context =
      attempt (assert_checkpoint_integrity r checkpoint) (give_up Records.rollback r) λ _.
        if state_beq r.state rollback_committed
        then attempt
            (do
              p.validate checkpoint checkpoint_post_rollback context
              move p r rollback_validation_succeeded)
            (give_up Records.rollback r) (complete_reload context)
        else complete_reload context r

  unfoldable pub commit_restore :
      TransactionRecord → Bytes → OperationContext → M World TransactionRecord
  commit_restore r checkpoint context = do
    current ← move p r rollback_committed
    complete_rollback_validation_with_checkpoint current checkpoint context

  -- The live digest decides whether an unknown commit has restored the checkpoint.
  unfoldable pub settle_unknown_restore :
      TransactionRecord → Bytes → OperationContext → Option String → M World TransactionRecord
  settle_unknown_restore r checkpoint context digest =
      if not (digest_is digest r.expected_sha256) && not (digest_is digest r.checkpoint_sha256)
      then manual p r Records.rollback "rollback_commit_unknown_digest"
          "Rollback commit was unknown and live digest is not checkpoint" (some commit_unknown)
          digest
      else commit_restore r checkpoint context

  -- `restoreCheckpointAfterRollbackIntent` from the status of the replacement on; `message` is that
  -- of what the replacement threw, or the fallback.
  unfoldable pub after_restore :
      TransactionRecord
      → Bytes
      → OperationContext
      → String
      → CommitStatus
      → M World TransactionRecord
  after_restore r checkpoint context message before_commit =
      manual p r Records.rollback "rollback_before_commit" message none none
  after_restore r checkpoint context message committed = commit_restore r checkpoint context
  after_restore r checkpoint context message commit_unknown = do
    digest ← p.read_digest r.path
    settle_unknown_restore r checkpoint context digest

  unfoldable pub restore_checkpoint_after_rollback_intent :
      TransactionRecord → Bytes → OperationContext → M World TransactionRecord
  restore_checkpoint_after_rollback_intent r checkpoint context =
      attempt
        (p.replace
          (record {
            path = r.path;
            expected_sha256 = r.candidate_sha256;
            content = checkpoint;
            content_sha256 = r.checkpoint_sha256;
          })
          context)
        (λ e.
          after_restore r checkpoint context (message_or "Rollback failed before commit" e)
            (commit_status e))
        (after_restore r checkpoint context "Rollback failed before commit")

  -- The `try` block of `rollbackAfterCommit` once the rollback intent is durable.
  unfoldable pub restore_from_intent :
      OperationContext → TransactionRecord → M World TransactionRecord
  restore_from_intent context current =
      try_catch
        (do
          checkpoint ← p.load_checkpoint current.checkpoint_id
          try_finally
              (do
                assert_checkpoint_integrity current checkpoint
                restore_checkpoint_after_rollback_intent current checkpoint context)
              (wipe checkpoint))
        (give_up Records.rollback current)

  unfoldable pub begin_rollback :
      TransactionRecord → Thrown → OperationContext → M World TransactionRecord
  begin_rollback r cause context =
      if state_beq r.state rollback_intent
      then restore_from_intent context r
      else attempt
          (do
            failure ←
                new_failure p Records.rollback (error_code cause) (error_message cause) none none
            p.transition r.transaction_id r.version rollback_intent
                (rollback_patch r cause failure))
          (give_up Records.rollback r) (restore_from_intent context)

  -- `rollbackAfterCommit`.
  unfoldable pub rollback_after_commit : TransactionRecord → Thrown → M World TransactionRecord
  rollback_after_commit r cause = do context ← internal_context 0; begin_rollback r cause context

  -- The `try` block of `completeRollbackValidation` once the rollback is durable.
  unfoldable pub validate_live_checkpoint :
      OperationContext → TransactionRecord → M World TransactionRecord
  validate_live_checkpoint context current =
      try_catch
        (do
          checkpoint ← p.load_checkpoint current.checkpoint_id
          try_finally
              (do
                assert_checkpoint_integrity current checkpoint
                complete_rollback_validation_with_checkpoint current checkpoint context)
              (wipe checkpoint))
        (give_up Records.recovery current)

  unfoldable pub commit_live_checkpoint :
      OperationContext → TransactionRecord → M World TransactionRecord
  commit_live_checkpoint context current =
      if state_beq current.state rollback_intent
      then attempt (move p current rollback_committed) (give_up Records.recovery current)
          (validate_live_checkpoint context)
      else validate_live_checkpoint context current

  unfoldable pub begin_completion : TransactionRecord → OperationContext → M World TransactionRecord
  begin_completion r context =
      if is_rolling_back r
      then commit_live_checkpoint context r
      else attempt
          (do
            failure ←
                new_failure p Records.recovery "checkpoint_live"
                  "Checkpoint digest is already live during recovery" none none
            p.transition r.transaction_id r.version rollback_intent
                (rollback_patch r (primitive "startup recovery rollback") failure))
          (give_up Records.recovery r) (commit_live_checkpoint context)

  -- `completeRollbackValidation`.
  unfoldable pub complete_rollback_validation : TransactionRecord → M World TransactionRecord
  complete_rollback_validation r = do context ← internal_context 0; begin_completion r context
