-- ===== src/Phase3/Coordinator/Recover.antt =====
-- phase3/applyCoordinator.ts: `recover` of the coordinator.
use ha_mcp.Prelude.{
  String, Bool, true, false, not, ◌&&◌, ◌||◌, Option, none, List, [], ◌∷◌, if◌then◌else◌,
}
use ha_mcp.Phase3.States.{
  TransactionState, verification_succeeded, rollback_committed, rollback_validation_succeeded,
  rollback_reload_intent, rollback_reload_succeeded, rollback_verification_succeeded,
  manual_recovery_required, state_beq,
}
use ha_mcp.Phase3.Records.{TransactionRecord}
use ha_mcp.Phase3.Records
use ha_mcp.Phase3.Effects.{primitive, M, pure, ◌>>=◌, try_finally}
use ha_mcp.Phase3.Ports.{Ports}
use ha_mcp.Phase3.Coordinator.Manual.{manual}
use ha_mcp.Phase3.Coordinator.Rollback.{
  digest_is, internal_context, rollback_after_commit, complete_rollback_validation,
}

pub data DigestClass : Type 0 where
  expected_or_checkpoint candidate other_or_missing : DigestClass

pub data Disposition : Type 0 where
  verified rolled_back manual_attention_required : Disposition

pub record RecoveryResult : Type 0 where
  pub transaction_id : String
  pub terminal_state : TransactionState
  pub observed_digest : DigestClass
  pub observed_sha256 : Option String
  pub disposition : Disposition
  pub needs_attention : Bool
  pub transaction : TransactionRecord

-- `classifyDigest`.
unfoldable pub classify_digest : TransactionRecord → Option String → DigestClass
classify_digest r current =
    if digest_is current r.candidate_sha256
    then candidate
    else if digest_is current r.expected_sha256 || digest_is current r.checkpoint_sha256
    then expected_or_checkpoint
    else other_or_missing

abbrev pub is_manual : Disposition → Bool
is_manual manual_attention_required = true
is_manual _ = false

-- `recoveryResult`.
unfoldable pub recovery_result :
    TransactionRecord → DigestClass → Option String → Disposition → RecoveryResult
recovery_result r digest_class observed disposition = record {
  transaction_id = r.transaction_id;
  terminal_state = r.state;
  observed_digest = digest_class;
  observed_sha256 = observed;
  disposition = disposition;
  needs_attention = is_manual disposition;
  transaction = r;
}

-- `dispositionForRecord`.
unfoldable pub disposition_for_record : TransactionRecord → Disposition
disposition_for_record r =
    if state_beq r.state verification_succeeded
    then verified
    else if state_beq r.state rollback_verification_succeeded
    then rolled_back
    else manual_attention_required

abbrev pub verified_if_candidate : DigestClass → Disposition
verified_if_candidate candidate = verified
verified_if_candidate _ = manual_attention_required

abbrev pub rolled_back_if_checkpoint : DigestClass → Disposition
rolled_back_if_checkpoint expected_or_checkpoint = rolled_back
rolled_back_if_checkpoint _ = manual_attention_required

abbrev pub is_expected_or_checkpoint : DigestClass → Bool
is_expected_or_checkpoint expected_or_checkpoint = true
is_expected_or_checkpoint _ = false

-- The rollback states in which the checkpoint has been restored.
abbrev pub is_restored : TransactionRecord → Bool
is_restored r =
    state_beq r.state rollback_committed
    || state_beq r.state rollback_validation_succeeded
    || state_beq r.state rollback_reload_succeeded

module _ (p : Ports) where
  open p use {World}

  -- A `manual` of `recoverOne` and its result.
  unfoldable pub recover_manually :
      TransactionRecord → DigestClass → Option String → String → String → M World RecoveryResult
  recover_manually r digest_class observed code message = do
    current ← manual p r Records.recovery code message none observed
    pure (recovery_result current digest_class observed manual_attention_required)

  -- The end of `recoverOne`: the rollback is completed or begun.
  unfoldable pub recover_rollback :
      TransactionRecord → DigestClass → Option String → M World RecoveryResult
  recover_rollback r digest_class observed = do
    recovered ←
        if is_expected_or_checkpoint digest_class
        then complete_rollback_validation p r
        else rollback_after_commit p r (primitive "startup recovery rollback")
    pure (recovery_result recovered digest_class observed (disposition_for_record recovered))

  -- `recoverOne` of a transaction in flight with a known digest.
  unfoldable pub recover_known :
      TransactionRecord → Option String → DigestClass → M World RecoveryResult
  recover_known r observed digest_class =
      if state_beq r.state rollback_reload_intent
      then recover_manually r digest_class observed "rollback_reload_incomplete"
          "Startup recovery found rollback reload intent without durable completion"
      else if is_restored r && not (is_expected_or_checkpoint digest_class)
      then recover_manually r digest_class observed "rollback_digest_drift"
          "Rollback recovery state does not have checkpoint digest live"
      else recover_rollback r digest_class observed

  -- `recoverOne` of a transaction in flight.
  unfoldable pub recover_live :
      TransactionRecord → Option String → DigestClass → M World RecoveryResult
  recover_live r observed other_or_missing =
      recover_manually r other_or_missing observed "digest_unknown"
        "Startup recovery found an unknown or missing live digest"
  recover_live r observed candidate = recover_known r observed candidate
  recover_live r observed expected_or_checkpoint = recover_known r observed expected_or_checkpoint

  -- `recoverOne` from the class of the digest on.
  unfoldable pub recover_class :
      TransactionRecord → Option String → DigestClass → M World RecoveryResult
  recover_class r observed digest_class =
      if state_beq r.state manual_recovery_required
      then pure (recovery_result r digest_class observed manual_attention_required)
      else if state_beq r.state verification_succeeded
      then pure (recovery_result r digest_class observed (verified_if_candidate digest_class))
      else if state_beq r.state rollback_verification_succeeded
      then pure (recovery_result r digest_class observed (rolled_back_if_checkpoint digest_class))
      else recover_live r observed digest_class

  -- `recoverOne`.
  unfoldable pub recover_one : TransactionRecord → M World RecoveryResult
  recover_one r = do
    observed ← p.read_digest r.path
    recover_class r observed (classify_digest r observed)

  unfoldable pub recover_each : List TransactionRecord → M World (List RecoveryResult)
  recover_each [] = pure []
  recover_each (r ∷ rs) = do
    result ← recover_one r
    results ← recover_each rs
    pure (result ∷ results)

  -- `recover`.
  unfoldable pub recover : M World (List RecoveryResult)
  recover = do
    context ← internal_context p 0
    lease ← p.acquire_recovery context
    try_finally (do records ← p.list_recoverable; recover_each records) (p.release lease)
