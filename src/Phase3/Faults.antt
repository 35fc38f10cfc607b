-- ===== src/Phase3/Faults.antt =====
-- phase3/applyCoordinator.ts: what the coordinator reads from a thrown value.
use ha_mcp.Prelude.{
  String, Bool, true, false, not, ◌&&◌, ◌||◌, Option, none, some, ◌==◌, ◌!=◌, string_eq, option_eq,
  if◌then◌else◌,
}
use ha_mcp.Phase3.States.{reload_intent, reload_succeeded, state_beq}
use ha_mcp.Phase3.Records.{CommitStatus, before_commit, TransactionRecord}
use ha_mcp.Phase3.Records.Schema.{is_none}
use ha_mcp.Phase3.Effects.{
  Evidence, Thrown, coordinator_error, other_error, other_object, primitive,
}

abbrev or_before_commit : Option CommitStatus → CommitStatus
or_before_commit none = before_commit
or_before_commit (some s) = s

-- `commitStatus`.
unfoldable pub commit_status : Thrown → CommitStatus
commit_status (coordinator_error code message evidence) = or_before_commit evidence.commit_status
commit_status (other_error name message evidence) = or_before_commit evidence.commit_status
commit_status (other_object text evidence) = or_before_commit evidence.commit_status
commit_status (primitive text) = before_commit

-- `errorCode`.
unfoldable pub error_code : Thrown → String
error_code (coordinator_error code message evidence) = code
error_code (other_error name message evidence) = name
error_code (other_object text evidence) = "unknown_failure"
error_code (primitive text) = "unknown_failure"

-- `errorMessage`.
unfoldable pub error_message : Thrown → String
error_message (coordinator_error code message evidence) = message
error_message (other_error name message evidence) = message
error_message (other_object text evidence) = text
error_message (primitive text) = text

-- `restoreError instanceof Error ? restoreError.message : fallback`.
unfoldable pub message_or : String → Thrown → String
message_or fallback (coordinator_error code message evidence) = message
message_or fallback (other_error name message evidence) = message
message_or fallback (other_object text evidence) = fallback
message_or fallback (primitive text) = fallback

-- `error instanceof Phase3CoordinatorError && error.code === "checkpoint_digest_mismatch"`.
unfoldable pub is_checkpoint_mismatch : Thrown → Bool
is_checkpoint_mismatch (coordinator_error code message evidence) =
    code == "checkpoint_digest_mismatch"
is_checkpoint_mismatch _ = false

evidence_of_start : Evidence → Bool
evidence_of_start evidence =
    if evidence.dispatch == some "outcome_unknown"
    then true
    else if evidence.dispatch == some "not_dispatched" || evidence.dispatch == some "not_attempted"
    then false
    else evidence.stage != some "input" && evidence.stage != some "resolution"

-- `reloadMayHaveStarted`.
unfoldable pub reload_may_have_started : Thrown → Bool
unfolding evidence_of_start
reload_may_have_started (coordinator_error code message evidence) = evidence_of_start evidence
reload_may_have_started (other_error name message evidence) = evidence_of_start evidence
reload_may_have_started (other_object text evidence) = evidence_of_start evidence
reload_may_have_started (primitive text) = true

-- `shouldRequireRollbackReload`.
unfoldable pub should_require_rollback_reload : TransactionRecord → Thrown → Bool
should_require_rollback_reload r cause =
    if is_none r.reload_target
    then false
    else if r.rollback_reload_required
    then true
    else if state_beq r.state reload_succeeded
    then true
    else if not (state_beq r.state reload_intent)
    then false
    else reload_may_have_started cause
