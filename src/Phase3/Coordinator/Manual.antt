-- ===== src/Phase3/Coordinator/Manual.antt =====
-- phase3/applyCoordinator.ts: `transition`, `failure` and `manual` of the coordinator.
use ha_mcp.Prelude.{
  ℕ, zero, suc, String, Bool, ◌&&◌, Option, none, some, ◌==◌, ◌!=◌, string_eq, option_eq,
  if◌then◌else◌,
}
use ha_mcp.Phase3.States.{TransactionState, manual_recovery_required, is_terminal}
use ha_mcp.Phase3.Records.{
  CommitStatus, FailureStage, StructuredFailure, TransactionRecord, impact_eq, target_eq,
}
use ha_mcp.Phase3.Effects.{Thrown, new_coordinator_error, M, pure, throw, ◌>>=◌, try_catch}
use ha_mcp.Phase3.Faults.{error_code}
use ha_mcp.Phase3.Ports.{Ports, Patch, no_patch}

-- `if (value) ...`: an empty text counts as absent.
abbrev pub if_truthy : Option String → Option String
if_truthy none = none
if_truthy (some s) = if s == "" then none else some s

-- `sameTransactionIdentity`.
unfoldable pub same_transaction_identity : TransactionRecord → TransactionRecord → Bool
same_transaction_identity expected actual =
    expected.transaction_id == actual.transaction_id
    && expected.proposal_id == actual.proposal_id
    && expected.approval_grant_id == actual.approval_grant_id
    && expected.proposal_storage_sha256 == actual.proposal_storage_sha256
    && expected.path == actual.path
    && expected.expected_sha256 == actual.expected_sha256
    && expected.candidate_sha256 == actual.candidate_sha256
    && expected.diff_sha256 == actual.diff_sha256
    && expected.checkpoint_id == actual.checkpoint_id
    && expected.checkpoint_sha256 == actual.checkpoint_sha256
    && expected.impact == actual.impact
    && expected.reload_target == actual.reload_target
    && expected.created_at == actual.created_at

abbrev pub unreconciled : Thrown
unreconciled =
    new_coordinator_error "manual_recovery_reconciliation_failed"
      "Manual recovery is required but the latest durable transaction identity could not be reconciled"

-- `{ failure }`.
abbrev pub failure_patch : StructuredFailure → Patch
failure_patch failure = record { failure = some (some failure); rollback_reload_required = none }

module _ (p : Ports) where
  open p use {World}

  -- `transition`, with no patch.
  unfoldable pub move : TransactionRecord → TransactionState → M World TransactionRecord
  move r state = p.transition r.transaction_id r.version state no_patch

  -- `failure`; the two optional arguments may be absent.
  unfoldable pub new_failure :
      FailureStage
      → String
      → String
      → Option CommitStatus
      → Option String
      → M World StructuredFailure
  new_failure stage code message commit_status observed = do
    time ← p.now
    pure (record {
      stage = stage;
      code = code;
      message = message;
      commit_status = commit_status;
      observed_sha256 = if_truthy observed;
      at = p.to_iso time;
    })

  -- The next attempt of the loop, `again`, with the latest record if it is the same transaction.
  unfoldable pub retry :
      (TransactionRecord → M World TransactionRecord)
      → TransactionRecord
      → Option TransactionRecord
      → M World TransactionRecord
  retry again original none = throw unreconciled
  retry again original (some latest) =
      if same_transaction_identity original latest then again latest else throw unreconciled

  -- The `catch` of the loop of `manual`: only a lost compare-and-swap reads the record again.
  unfoldable pub reconcile :
      (TransactionRecord → M World TransactionRecord)
      → TransactionRecord
      → TransactionRecord
      → Thrown
      → M World TransactionRecord
  reconcile again original current e =
      if error_code e != "journal_cas_conflict"
      then throw e
      else do found ← p.load_record current.transaction_id; retry again original found

  -- The loop of `manual`, with the attempts that are left.
  unfoldable pub manual_from :
      ℕ → TransactionRecord → StructuredFailure → TransactionRecord → M World TransactionRecord
  manual_from zero original failure current = throw (
      new_coordinator_error "manual_recovery_persistence_conflict"
        "Manual recovery is required but durable transaction state kept changing")
  manual_from (suc attempts) original failure current =
      if is_terminal current.state
      then pure current
      else try_catch
          (p.transition current.transaction_id current.version manual_recovery_required
            (failure_patch failure))
          (reconcile (λ latest. manual_from attempts original failure latest) original current)

  unfoldable pub manual :
      TransactionRecord
      → FailureStage
      → String
      → String
      → Option CommitStatus
      → Option String
      → M World TransactionRecord
  manual r stage code message commit_status observed = do
    failure ← new_failure stage code message commit_status observed
    manual_from 4 r failure r
