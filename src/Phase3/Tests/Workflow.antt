-- ===== src/Phase3/Tests/Workflow.antt =====
-- The coordinator on the simulated platform: an apply that succeeds, a recovery.
use ha_mcp.Prelude.{
  ◌≡◌, refl, true, false, none, some, [], ◌∷◌, All, arith, map_get, map_set, map_values,
}
use ha_mcp.Phase3.States.{
  TransactionState, verification_succeeded, rollback_verification_succeeded,
  rollback_validation_succeeded, reload_succeeded, apply_committed, intent_prepared,
}
use ha_mcp.Phase3.Records.{TransactionRecord}
use ha_mcp.Phase3.Effects.{Outcome, Thrown, done, thrown, other_error, no_evidence}
use ha_mcp.Phase3.Effects.Triples.{Post}
use ha_mcp.Phase3.Ports.{Ports, OperationContext}
use ha_mcp.Phase3.Journal.{Journal}
use ha_mcp.Phase3.Journal.Keeps.{transition-Accepted}
use ha_mcp.Phase3.Coordinator.Recover.{
  RecoveryResult, DigestClass, rolled_back, classify_digest, recovery_result,
  disposition_for_record, recover_manually, recover_rollback, recover_known, recover_live,
  recover_class, recover_one, recover_each, recover,
}
use ha_mcp.Phase3.Coordinator.Commit.{
  record_commit, settle_as_checkpoint, settle_digest, settle_unknown_commit, after_replace,
  apply_candidate, finish_verification, reload_candidate, finish_reload, finish_post_commit, commit,
}
use ha_mcp.Phase3.Coordinator.Apply.{
  same_proposal, assert_precommit_active, permit, assert_policy, canonical_path, parse_record,
  intent_record, prepare, apply_source, apply_locked, apply,
}
use ha_mcp.Phase3.Coordinator.Manual.{
  same_transaction_identity, move, new_failure, retry, reconcile, manual_from, manual,
}
use ha_mcp.Phase3.Coordinator.Rollback.{
  internal_context, assert_checkpoint_integrity, give_up, reload_rollback, complete_rollback_reload,
  complete_verification, complete_reload, complete_rollback_validation_with_checkpoint,
  commit_restore, settle_unknown_restore, after_restore, restore_checkpoint_after_rollback_intent,
  restore_from_intent, begin_rollback, rollback_after_commit, validate_live_checkpoint,
  commit_live_checkpoint, begin_completion, complete_rollback_validation,
}
use ha_mcp.Phase3.Faults.{
  commit_status, error_code, error_message, message_or, is_checkpoint_mismatch,
  reload_may_have_started, should_require_rollback_reload,
}
use ha_mcp.Phase3.States.{can_transition, is_terminal}
use ha_mcp.Phase3.Journal.{
  starts_at_intent, create_intent, next_record, flag_is_misplaced, transition_from, transition,
  load_record, is_recoverable, list_recoverable,
}
use ha_mcp.Phase3.Records.Schema.{
  reload_target_is_bound, reload_context_is_legal, failure_is_valid, proposal_is_valid,
  grant_is_valid, transaction_record_is_valid, can_record_transition,
}
use ha_mcp.Phase3.Paths.{
  is_sha256, split_from, split, segment_ok, unit_ok, starts_with_slash, is_canonical_path,
}
use ha_mcp.Phase3.Terminal.{JournalLaws, apply-is_terminal, recover-IsSettledResult}
use ha_mcp.Phase3.Tests.Sim.{formats, Sim, store, sim, start, old_text, new_text}
use ha_mcp.Phase3.Discipline.Recover.{IsSettledResult}
use ha_mcp.Phase3.Records.{no_impact, StructuredFailure, rollback, FailureStage}

sim_created :
    (r : TransactionRecord) (x : Outcome TransactionRecord × Journal) (w : Sim)
    → ((r' : TransactionRecord) (j : Journal) → x ≡ (done r', j) → r' ≡ r)
    → Post (λ r' _. r' ≡ r) (λ _ _. Unit {0}) (store x w)
sim_created r (done a, j) w h = h a j refl
sim_created r (thrown e, j) w h = tt

sim_moved :
    (s : TransactionState) (x : Outcome TransactionRecord × Journal) (w : Sim)
    → ((r : TransactionRecord) (j : Journal) → x ≡ (done r, j) → r.state ≡ s)
    → Post (λ r _. r.state ≡ s) (λ _ _. Unit {0}) (store x w)
sim_moved s (done a, j) w h = h a j refl
sim_moved s (thrown e, j) w h = tt

create_intent-returns :
    (r r' : TransactionRecord) (before after : Journal)
    → create_intent formats r before ≡ (done r', after)
    → r' ≡ r
unfolding create_intent
create_intent-returns r r' before after e = ground arith

pub sim_laws : JournalLaws sim
sim_laws = record {
  created = λ r. record {
    run = λ w h.
        sim_created r (create_intent formats r w.journal) w
          (λ r' j e. create_intent-returns r r' w.journal j e);
  };
  moved = λ id version s patch. record {
    run = λ w h.
        sim_moved s (transition formats "2026-01-01T00:00:00Z" id version s patch w.journal) w
          (λ r j e.
            (transition-Accepted formats "2026-01-01T00:00:00Z" id version s patch w.journal j r
              e).in_state);
  };
}

abbrev pub context : OperationContext
context = record { signal = 0; deadline_at = 1000 }

-- The record that the run returns, and the platform after it.
abbrev pub verified : TransactionRecord
verified = record {
  schema_version = 2;
  transaction_id = "transaction";
  proposal_id = "proposal";
  approval_grant_id = some "grant";
  proposal_storage_sha256 = old_text;
  path = "packages/lights.yaml";
  expected_sha256 = old_text;
  candidate_sha256 = new_text;
  diff_sha256 = old_text;
  checkpoint_id = "checkpoint";
  checkpoint_sha256 = old_text;
  impact = no_impact;
  reload_target = none;
  rollback_reload_required = false;
  state = verification_succeeded;
  prior_state = some reload_succeeded;
  version = 4;
  created_at = "2026-01-01T00:00:00Z";
  updated_at = "2026-01-01T00:00:00Z";
  failure = none;
}

abbrev ended : Sim
ended = record { journal = ("transaction", verified) ∷ []; file = new_text; saved = old_text }

apply_run : apply sim "proposal" "grant" context start ≡ (done verified, ended)
unfolding classify_digest recovery_result disposition_for_record recover_manually recover_rollback
    recover_known recover_live recover_class recover_one recover_each recover record_commit
    settle_as_checkpoint settle_digest settle_unknown_commit after_replace apply_candidate
    finish_verification reload_candidate finish_reload finish_post_commit commit same_proposal
    assert_precommit_active permit assert_policy canonical_path parse_record intent_record prepare
    apply_source apply_locked apply same_transaction_identity move new_failure retry reconcile
    manual_from manual internal_context assert_checkpoint_integrity give_up reload_rollback
    complete_rollback_reload complete_verification complete_reload
    complete_rollback_validation_with_checkpoint commit_restore settle_unknown_restore after_restore
    restore_checkpoint_after_rollback_intent restore_from_intent begin_rollback
    rollback_after_commit validate_live_checkpoint commit_live_checkpoint begin_completion
    complete_rollback_validation commit_status error_code error_message message_or
    is_checkpoint_mismatch reload_may_have_started should_require_rollback_reload can_transition
    is_terminal starts_at_intent create_intent next_record flag_is_misplaced transition_from
    transition load_record is_recoverable list_recoverable reload_target_is_bound
    reload_context_is_legal failure_is_valid proposal_is_valid grant_is_valid
    transaction_record_is_valid can_record_transition is_sha256 split_from split segment_ok unit_ok
    starts_with_slash is_canonical_path map_get map_set map_values
apply_run = refl

-- The process stopped right after the commit of the candidate became durable.
abbrev pub stopped : TransactionRecord
stopped = record verified {
  state = apply_committed;
  prior_state = some intent_prepared;
  version = 1;
}

abbrev pub crashed : Sim
crashed = record { journal = ("transaction", stopped) ∷ []; file = new_text; saved = old_text }

abbrev restored : TransactionRecord
restored = record stopped {
  state = rollback_verification_succeeded;
  prior_state = some rollback_validation_succeeded;
  version = 5;
  failure = some (record {
    stage = rollback;
    code = "unknown_failure";
    message = "startup recovery rollback";
    commit_status = none;
    observed_sha256 = none;
    at = "2026-01-01T00:00:00Z";
  });
}

abbrev recovered : Sim
recovered = record { journal = ("transaction", restored) ∷ []; file = old_text; saved = old_text }

abbrev result : RecoveryResult
result = record {
  transaction_id = "transaction";
  terminal_state = rollback_verification_succeeded;
  observed_digest = DigestClass.candidate;
  observed_sha256 = some new_text;
  disposition = rolled_back;
  needs_attention = false;
  transaction = restored;
}

recover_run : recover sim crashed ≡ (done (result ∷ []), recovered)
unfolding classify_digest recovery_result disposition_for_record recover_manually recover_rollback
    recover_known recover_live recover_class recover_one recover_each recover record_commit
    settle_as_checkpoint settle_digest settle_unknown_commit after_replace apply_candidate
    finish_verification reload_candidate finish_reload finish_post_commit commit same_proposal
    assert_precommit_active permit assert_policy canonical_path parse_record intent_record prepare
    apply_source apply_locked apply same_transaction_identity move new_failure retry reconcile
    manual_from manual internal_context assert_checkpoint_integrity give_up reload_rollback
    complete_rollback_reload complete_verification complete_reload
    complete_rollback_validation_with_checkpoint commit_restore settle_unknown_restore after_restore
    restore_checkpoint_after_rollback_intent restore_from_intent begin_rollback
    rollback_after_commit validate_live_checkpoint commit_live_checkpoint begin_completion
    complete_rollback_validation commit_status error_code error_message message_or
    is_checkpoint_mismatch reload_may_have_started should_require_rollback_reload can_transition
    is_terminal starts_at_intent create_intent next_record flag_is_misplaced transition_from
    transition load_record is_recoverable list_recoverable reload_target_is_bound
    reload_context_is_legal failure_is_valid proposal_is_valid grant_is_valid
    transaction_record_is_valid can_record_transition is_sha256 split_from split segment_ok unit_ok
    starts_with_slash is_canonical_path map_get map_set map_values
recover_run = refl

apply-is_terminal_example : is_terminal verified.state ≡ true
apply-is_terminal_example =
    apply-is_terminal sim sim_laws "proposal" "grant" context start ended verified apply_run

recover-IsSettledResult_example : All IsSettledResult (result ∷ [])
recover-IsSettledResult_example =
    recover-IsSettledResult sim sim_laws crashed recovered (result ∷ []) recover_run

-- The durable journal throws an error of its own class.
abbrev lost : Thrown
lost = other_error "Phase3JournalError" "Transaction version changed" no_evidence

abbrev contended : Ports
contended = record sim { transition = λ id version s patch w. (thrown lost, w) }

abbrev pub the_failure : StructuredFailure
the_failure = record {
  stage = FailureStage.apply;
  code = "io_error";
  message = "Replacement failed";
  commit_status = none;
  observed_sha256 = none;
  at = "2026-01-01T00:00:00Z";
}
