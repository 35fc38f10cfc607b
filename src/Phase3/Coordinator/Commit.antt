-- ===== src/Phase3/Coordinator/Commit.antt =====
-- phase3/applyCoordinator.ts: the replacement of the live file and what follows it.
use ha_mcp.Prelude.{String, not, ◌||◌, Option, none, some, string_eq, if◌then◌else◌}
use ha_mcp.Phase3.States.{
  apply_committed, post_validation_succeeded, reload_intent, reload_succeeded,
  verification_succeeded, rollback_intent, is_terminal,
}
use ha_mcp.Phase3.Records.{
  CommitStatus, before_commit, committed, commit_unknown, ReloadTarget, TransactionRecord,
}
use ha_mcp.Phase3.Records
use ha_mcp.Phase3.Effects.{Thrown, new_coordinator_error, M, pure, throw, ◌>>=◌, ◌>>◌, attempt}
use ha_mcp.Phase3.Faults.{commit_status}
use ha_mcp.Phase3.Ports.{Ports, OperationContext, ReplaceInput, candidate_post_apply}
use ha_mcp.Phase3.Ports
use ha_mcp.Phase3.Coordinator.Manual.{failure_patch, move, new_failure, manual}
use ha_mcp.Phase3.Coordinator.Rollback.{
  digest_is, internal_context, rollback_after_commit, complete_rollback_validation,
}

module _ (p : Ports) where
  open p use {World, Bytes}

  -- The end of `applyCandidate`; a failure is recorded if the commit was unknown.
  unfoldable pub record_commit : TransactionRecord → CommitStatus → M World TransactionRecord
  record_commit r commit_unknown = do
    failure ←
        new_failure p Records.apply "commit_unknown_candidate"
          "Commit was unknown and live digest is candidate" (some commit_unknown)
          (some r.candidate_sha256)
    p.transition r.transaction_id r.version apply_committed (failure_patch failure)
  record_commit r _ = move p r apply_committed

  -- The checkpoint is live: the rollback is recorded and completed.
  unfoldable pub settle_as_checkpoint :
      TransactionRecord → Option String → M World TransactionRecord
  settle_as_checkpoint r current = do
    failure ←
        new_failure p Records.apply "commit_unknown_checkpoint"
          "Commit was unknown and live digest is checkpoint" (some commit_unknown) current
    intent ← p.transition r.transaction_id r.version rollback_intent (failure_patch failure)
    complete_rollback_validation p intent

  -- `applyCandidate` where the commit is unknown: the live digest decides.
  unfoldable pub settle_digest : TransactionRecord → Option String → M World TransactionRecord
  settle_digest r current =
      if digest_is current r.checkpoint_sha256 || digest_is current r.expected_sha256
      then settle_as_checkpoint r current
      else if not (digest_is current r.candidate_sha256)
      then manual p r Records.apply "commit_unknown_digest"
          "Commit was unknown and live digest is neither candidate nor checkpoint"
          (some commit_unknown) current
      else record_commit r commit_unknown

  unfoldable pub settle_unknown_commit : TransactionRecord → M World TransactionRecord
  settle_unknown_commit r = do current ← p.read_digest r.path; settle_digest r current

  -- `applyCandidate` from the status of the replacement on.
  unfoldable pub after_replace : TransactionRecord → CommitStatus → M World TransactionRecord
  after_replace r before_commit =
      throw
        (new_coordinator_error "apply_before_commit" "Apply failed before the atomic commit point")
  after_replace r committed = record_commit r committed
  after_replace r commit_unknown = settle_unknown_commit r

  -- Its `catch`: an error before the commit is thrown on.
  abbrev pub after_replace_error :
      TransactionRecord → Thrown → CommitStatus → M World TransactionRecord
  after_replace_error r e before_commit = throw e
  after_replace_error r e status = after_replace r status

  -- `applyCandidate`.
  unfoldable pub apply_candidate :
      TransactionRecord → Bytes → OperationContext → M World TransactionRecord
  apply_candidate r content context =
      attempt
        (p.replace
          (record {
            path = r.path;
            expected_sha256 = r.expected_sha256;
            content = content;
            content_sha256 = r.candidate_sha256;
          })
          context)
        (λ e. after_replace_error r e (commit_status e)) (after_replace r)

  -- `finishPostCommit` from the record of the reload on.
  unfoldable pub finish_verification :
      OperationContext → TransactionRecord → M World TransactionRecord
  finish_verification context r =
      attempt (move p r reload_succeeded) (rollback_after_commit p r) λ current.
        attempt (do p.verify current Ports.candidate context; move p current verification_succeeded)
          (rollback_after_commit p current) pure

  unfoldable pub reload_candidate :
      OperationContext → TransactionRecord → Option ReloadTarget → M World TransactionRecord
  reload_candidate context r none = finish_verification context r
  reload_candidate context r (some target) =
      attempt (move p r reload_intent) (rollback_after_commit p r) λ current.
        attempt (p.reload_domain current.path target context) (rollback_after_commit p current)
          (λ _. finish_verification context current)

  -- `finishPostCommit` after the validation: the reload, if there is a target.
  unfoldable pub finish_reload : OperationContext → TransactionRecord → M World TransactionRecord
  finish_reload context r = reload_candidate context r r.reload_target

  -- `finishPostCommit`.
  unfoldable pub finish_post_commit :
      TransactionRecord → Bytes → OperationContext → M World TransactionRecord
  finish_post_commit r content caller = if is_terminal r.state then pure r else do
    context ← internal_context p caller.deadline_at
    attempt (do p.validate content candidate_post_apply context; move p r post_validation_succeeded)
        (rollback_after_commit p r) (finish_reload context)

  -- The rest of the inner `try` block of `apply`.
  unfoldable pub commit : TransactionRecord → Bytes → OperationContext → M World TransactionRecord
  commit r content context = do
    applied ← apply_candidate r content context
    finish_post_commit applied content context
