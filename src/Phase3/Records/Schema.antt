-- ===== src/Phase3/Records/Schema.antt =====
-- phase3/contracts.ts: the schemas with their refinements, and `phase3CanRecordTransition`.
use ha_mcp.Prelude.{
  ℕ, String, Bool, true, false, not, ◌&&◌, ◌||◌, Option, none, some, ◌==◌, ◌!=◌, nat_beq, leb,
  string_eq, option_eq, bool_beq, length, if◌then◌else◌,
}
use ha_mcp.Phase3.States.{
  TransactionState, reload_intent, reload_succeeded, post_validation_succeeded, rollback_intent,
  rollback_validation_succeeded, rollback_reload_intent, rollback_reload_succeeded,
  rollback_verification_succeeded, state_beq, state_eq, can_transition,
}
use ha_mcp.Phase3.Paths.{units, is_sha256, is_canonical_path}
use ha_mcp.Phase3.Records.{
  Impact, domain_reload, ReloadTarget, ProposalSnapshot, ApprovalGrant, StructuredFailure,
  TransactionRecord, impact_beq, target_eq,
}

-- What the schemas take from zod and JavaScript: the formats of UUIDs and datetimes, `normalize`,
-- and `Date.parse`, as milliseconds counted from the year 0; `none` is NaN.
pub record Formats : Type 0 where
  pub is_uuid : String → Bool
  pub is_datetime : String → Bool
  pub nfc : String → String
  pub date_parse : String → Option ℕ

abbrev pub is_none {ℓ} : {A : Type ℓ} → Option A → Bool
is_none none = true
is_none (some a) = false

-- `optional()` and `nullable()` around a check.
abbrev pub if_given {ℓ} : {A : Type ℓ} → (A → Bool) → Option A → Bool
if_given p none = true
if_given p (some a) = p a

-- `assertReloadTargetBinding`: no issue is added.
unfoldable pub reload_target_is_bound : Impact → Option ReloadTarget → Bool
reload_target_is_bound impact target =
    if impact_beq impact domain_reload then not (is_none target) else is_none target

-- `recordReloadContextIsLegal`, over the four fields that it picks.
unfoldable pub reload_context_is_legal :
    Option TransactionState → TransactionState → Option ReloadTarget → Bool → Bool
reload_context_is_legal prior_state state reload_target rollback_reload_required =
    if rollback_reload_required && is_none reload_target
    then false
    else if state_beq state reload_intent
    then not (is_none reload_target)
    else if state_beq state rollback_reload_intent || state_beq state rollback_reload_succeeded
    then rollback_reload_required && not (is_none reload_target)
    else if prior_state == some post_validation_succeeded && state_beq state reload_succeeded
    then is_none reload_target
    else if prior_state == some rollback_validation_succeeded
        && state_beq state rollback_verification_succeeded
    then not rollback_reload_required
    else true

abbrev pub record_reload_context_is_legal : TransactionRecord → Bool
record_reload_context_is_legal r =
    reload_context_is_legal r.prior_state r.state r.reload_target r.rollback_reload_required

-- `phase3StructuredFailureSchema`.
unfoldable pub failure_is_valid : Formats → StructuredFailure → Bool
failure_is_valid formats failure =
    leb 1 (length (units failure.code))
    && leb (length (units failure.code)) 80
    && leb 1 (length (units failure.message))
    && leb (length (units failure.message)) 500
    && if_given is_sha256 failure.observed_sha256
    && formats.is_datetime failure.at

-- `phase3ProposalSnapshotSchema`.
unfoldable pub proposal_is_valid : Formats → ProposalSnapshot → Bool
proposal_is_valid formats p =
    formats.is_uuid p.proposal_id
    && is_sha256 p.proposal_storage_sha256
    && is_canonical_path formats.nfc p.path
    && is_sha256 p.expected_sha256
    && is_sha256 p.candidate_sha256
    && is_sha256 p.diff_sha256
    && formats.is_datetime p.expires_at
    && reload_target_is_bound p.impact p.reload_target

-- `>=` of two numbers that may be NaN.
abbrev pub date_ge : Option ℕ → Option ℕ → Bool
date_ge (some a) (some b) = leb b a
date_ge _ _ = false

-- `phase3ApprovalGrantSchema`.
unfoldable pub grant_is_valid : Formats → ApprovalGrant → Bool
grant_is_valid formats g =
    formats.is_uuid g.grant_id
    && formats.is_uuid g.proposal_id
    && is_sha256 g.proposal_storage_sha256
    && is_sha256 g.candidate_sha256
    && is_sha256 g.diff_sha256
    && g.operation == "apply"
    && formats.is_datetime g.issued_at
    && formats.is_datetime g.expires_at
    && not (date_ge (formats.date_parse g.issued_at) (formats.date_parse g.expires_at))
    && reload_target_is_bound g.impact g.reload_target

-- `phase3TransactionRecordSchema`; `assertPhase3TransactionRecord` throws where this is false.
unfoldable pub transaction_record_is_valid : Formats → TransactionRecord → Bool
transaction_record_is_valid formats r =
    nat_beq r.schema_version 2
    && formats.is_uuid r.transaction_id
    && formats.is_uuid r.proposal_id
    && if_given formats.is_uuid r.approval_grant_id
    && is_sha256 r.proposal_storage_sha256
    && is_canonical_path formats.nfc r.path
    && is_sha256 r.expected_sha256
    && is_sha256 r.candidate_sha256
    && is_sha256 r.diff_sha256
    && formats.is_uuid r.checkpoint_id
    && is_sha256 r.checkpoint_sha256
    && formats.is_datetime r.created_at
    && formats.is_datetime r.updated_at
    && if_given (failure_is_valid formats) r.failure
    && reload_target_is_bound r.impact r.reload_target
    && record_reload_context_is_legal r

-- `phase3CanRecordTransition` where the new state is `rollback_intent`.
rollback_intent_is_legal : TransactionRecord → TransactionRecord → Bool
rollback_intent_is_legal previous next =
    if state_beq previous.state reload_intent
    then record_reload_context_is_legal next
    else if state_beq previous.state reload_succeeded
    then bool_beq next.rollback_reload_required (not (is_none previous.reload_target))
      && record_reload_context_is_legal next
    else not next.rollback_reload_required && record_reload_context_is_legal next

-- Its tests after that.
reload_step_is_legal : TransactionRecord → TransactionRecord → Bool
reload_step_is_legal previous next =
    if state_beq previous.state post_validation_succeeded && state_beq next.state reload_intent
    then not (is_none next.reload_target)
    else if state_beq previous.state post_validation_succeeded
        && state_beq next.state reload_succeeded
    then is_none next.reload_target
    else if state_beq previous.state rollback_validation_succeeded
        && state_beq next.state rollback_reload_intent
    then next.rollback_reload_required && not (is_none next.reload_target)
    else if state_beq previous.state rollback_validation_succeeded
        && state_beq next.state rollback_verification_succeeded
    then not next.rollback_reload_required
    else record_reload_context_is_legal next

unfoldable pub can_record_transition : TransactionRecord → TransactionRecord → Bool
unfolding rollback_intent_is_legal reload_step_is_legal
can_record_transition previous next =
    if not (can_transition previous.state next.state)
    then false
    else if previous.reload_target != next.reload_target
    then false
    else if previous.rollback_reload_required && not next.rollback_reload_required
    then false
    else if not previous.rollback_reload_required
        && next.rollback_reload_required
        && not (state_beq next.state rollback_intent)
    then false
    else if state_beq next.state rollback_intent
    then rollback_intent_is_legal previous next
    else reload_step_is_legal previous next
