-- ===== src/Phase3/Coordinator/Apply.antt =====
-- phase3/applyCoordinator.ts: `apply` of the coordinator.
use ha_mcp.Prelude.{
  String, Bool, true, false, not, ◌&&◌, none, some, ◌==◌, leb, string_eq, option_eq, if◌then◌else◌,
}
use ha_mcp.Phase3.States.{intent_prepared}
use ha_mcp.Phase3.Records.{
  ProposalSnapshot, TransactionRecord, impact_eq, target_eq, risk_eq, proposal_state_eq,
}
use ha_mcp.Phase3.Records.Schema.{transaction_record_is_valid}
use ha_mcp.Phase3.Effects.{
  other_error, new_coordinator_error, no_evidence, M, pure, throw, ◌>>=◌, ◌>>◌, try_finally,
}
use ha_mcp.Phase3.Paths.{is_canonical_path}
use ha_mcp.Phase3.Ports.{
  Ports, OperationContext, Decision, allowed, denied, CheckpointReceipt, checkpoint_pre_apply,
  candidate_pre_apply,
}
use ha_mcp.Phase3.Coordinator.Rollback.{wipe}
use ha_mcp.Phase3.Coordinator.Commit.{commit}

-- `assertSameProposal`: no field differs.
unfoldable pub same_proposal : ProposalSnapshot → ProposalSnapshot → Bool
same_proposal first second =
    first.proposal_id == second.proposal_id
    && first.proposal_storage_sha256 == second.proposal_storage_sha256
    && first.state == second.state
    && first.path == second.path
    && first.expected_sha256 == second.expected_sha256
    && first.candidate_sha256 == second.candidate_sha256
    && first.diff_sha256 == second.diff_sha256
    && first.risk == second.risk
    && first.impact == second.impact
    && first.reload_target == second.reload_target
    && first.expires_at == second.expires_at

-- `if (!condition) throw new Phase3CoordinatorError(code, message)`.
abbrev pub ensure : {W : Type 0} → Bool → String → String → M W (Unit {0})
ensure true code message = pure tt
ensure false code message = throw (new_coordinator_error code message)

module _ (p : Ports) where
  open p use {World, Bytes}

  -- `assertPrecommitActive`.
  unfoldable pub assert_precommit_active : OperationContext → M World (Unit {0})
  assert_precommit_active context = do
    is_aborted ← p.aborted context.signal
    ensure (not is_aborted) "operation_cancelled" "Operation was cancelled before commit"
    time ← p.date_now
    ensure (not (leb context.deadline_at time)) "deadline_exceeded"
        "Operation deadline expired before commit"

  unfoldable pub permit : Decision → M World (Unit {0})
  permit allowed = pure tt
  permit (denied code message) = throw (new_coordinator_error code message)

  -- `assertPolicy`.
  unfoldable pub assert_policy : ProposalSnapshot → OperationContext → M World (Unit {0})
  assert_policy proposal context = do decision ← p.evaluate proposal context; permit decision

  -- `canonicalPhase3Path`.
  unfoldable pub canonical_path : String → M World String
  canonical_path path =
      if is_canonical_path p.formats.nfc path
      then pure path
      else throw (other_error "Phase3LockError" "Resource path is invalid" no_evidence)

  -- `assertPhase3TransactionRecord`; a record that the schema refuses is a `ZodError`.
  unfoldable pub parse_record : TransactionRecord → M World TransactionRecord
  parse_record r =
      if transaction_record_is_valid p.formats r
      then pure r
      else throw (other_error "ZodError" "Invalid transaction record" no_evidence)

  -- `intentRecord`.
  unfoldable pub intent_record :
      ProposalSnapshot → CheckpointReceipt → String → M World TransactionRecord
  intent_record proposal receipt grant_id = do
    time ← p.now
    transaction_id ← p.random_uuid
    parse_record (record {
      schema_version = 2;
      transaction_id = transaction_id;
      proposal_id = proposal.proposal_id;
      approval_grant_id = some grant_id;
      proposal_storage_sha256 = proposal.proposal_storage_sha256;
      path = proposal.path;
      expected_sha256 = proposal.expected_sha256;
      candidate_sha256 = proposal.candidate_sha256;
      diff_sha256 = proposal.diff_sha256;
      checkpoint_id = receipt.checkpoint_id;
      checkpoint_sha256 = receipt.checkpoint_sha256;
      impact = proposal.impact;
      reload_target = proposal.reload_target;
      rollback_reload_required = false;
      state = intent_prepared;
      prior_state = none;
      version = 0;
      created_at = p.to_iso time;
      updated_at = p.to_iso time;
      failure = none;
    })

  -- `apply` from the candidate's digest to the durable intent.
  unfoldable pub prepare :
      String
      → String
      → ProposalSnapshot
      → Bytes
      → Bytes
      → OperationContext
      → M World TransactionRecord
  prepare grant_id path proposal source content context = do
    ensure (p.sha256 content == proposal.candidate_sha256) "candidate_digest_drift"
        "Candidate bytes do not match proposal identity"
    p.validate source checkpoint_pre_apply context
    p.validate content candidate_pre_apply context
    time ← p.now
    _ ← p.consume_apply_grant grant_id proposal time context.signal
    receipt ← p.create_checkpoint path source proposal.expected_sha256 context
    ensure (receipt.checkpoint_sha256 == proposal.expected_sha256) "checkpoint_digest_mismatch"
        "Checkpoint metadata does not match the source digest"
    intent ← intent_record proposal receipt grant_id
    p.create_intent intent

  -- The inner `try` block of `apply`. The candidate is wiped as soon as it is loaded and the block
  -- ends, then the source is.
  unfoldable pub apply_source :
      String
      → String
      → ProposalSnapshot
      → Bytes
      → String
      → OperationContext
      → M World TransactionRecord
  apply_source grant_id path proposal source source_sha256 context =
      try_finally
        (do
          ensure
              (source_sha256 == proposal.expected_sha256
                && p.sha256 source == proposal.expected_sha256)
              "source_digest_drift" "Source digest does not match proposal expectation"
          content ← p.load_candidate proposal.proposal_id
          try_finally
              (do
                r ← prepare grant_id path proposal source content context
                commit p r content context)
              (wipe p content))
        (wipe p source)

  -- `apply` under the lease of the lock.
  unfoldable pub apply_locked :
      String → String → String → ProposalSnapshot → OperationContext → M World TransactionRecord
  apply_locked proposal_id grant_id path first context = do
    assert_precommit_active context
    proposal ← p.load_proposal proposal_id
    ensure (same_proposal first proposal) "proposal_identity_drift"
        "Proposal identity changed while acquiring the path lock"
    assert_policy proposal context
    (source, source_sha256) ← p.read path context
    apply_source grant_id path proposal source source_sha256 context

  -- `apply`.
  unfoldable pub apply : String → String → OperationContext → M World TransactionRecord
  apply proposal_id grant_id context = do
    assert_precommit_active context
    first ← p.load_proposal proposal_id
    assert_policy first context
    path ← canonical_path first.path
    lease ← p.acquire path context
    try_finally (apply_locked proposal_id grant_id path first context) (p.release lease)
