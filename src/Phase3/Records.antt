-- ===== src/Phase3/Records.antt =====
-- phase3/contracts.ts: proposals, grants, failures, transaction records.
pub mod Schema
pub mod Context
use ha_mcp.Prelude.{ℕ, ◌≡◌, ◌↔◌, String, Bool, true, Option, arith, Comparable, nat_beq}
use ha_mcp.Phase3.States.{TransactionState}

pub data CommitStatus : Type 0 where
  before_commit committed commit_unknown : CommitStatus

pub data Impact : Type 0 where
  no_impact domain_reload restart_required : Impact

pub data ReloadTarget : Type 0 where
  automation_reload script_reload scene_reload : ReloadTarget

pub data Risk : Type 0 where
  low high : Risk

pub data ProposalState : Type 0 where
  pending discarded expired : ProposalState

pub data FailureStage : Type 0 where
  policy lock identity source validation approval checkpoint apply post_validation reload :
      FailureStage
  verification rollback recovery : FailureStage

abbrev impact_index : Impact → ℕ
impact_index no_impact = 0
impact_index domain_reload = 1
impact_index restart_required = 2

abbrev target_index : ReloadTarget → ℕ
target_index automation_reload = 0
target_index script_reload = 1
target_index scene_reload = 2

abbrev risk_index : Risk → ℕ
risk_index low = 0
risk_index high = 1

abbrev proposal_index : ProposalState → ℕ
proposal_index pending = 0
proposal_index discarded = 1
proposal_index expired = 2

abbrev pub impact_beq : Impact → Impact → Bool
impact_beq a b = nat_beq (impact_index a) (impact_index b)

pub impact_beq_iff : (a b : Impact) → (impact_beq a b ≡ true) ↔ (a ≡ b)
impact_beq_iff a b = ground arith

abbrev pub target_beq : ReloadTarget → ReloadTarget → Bool
target_beq a b = nat_beq (target_index a) (target_index b)

pub target_beq_iff : (a b : ReloadTarget) → (target_beq a b ≡ true) ↔ (a ≡ b)
target_beq_iff a b = ground arith

abbrev pub risk_beq : Risk → Risk → Bool
risk_beq a b = nat_beq (risk_index a) (risk_index b)

pub risk_beq_iff : (a b : Risk) → (risk_beq a b ≡ true) ↔ (a ≡ b)
risk_beq_iff a b = ground arith

abbrev pub proposal_state_beq : ProposalState → ProposalState → Bool
proposal_state_beq a b = nat_beq (proposal_index a) (proposal_index b)

pub proposal_state_beq_iff : (a b : ProposalState) → (proposal_state_beq a b ≡ true) ↔ (a ≡ b)
proposal_state_beq_iff a b = ground arith

instance abbrev pub impact_eq : Comparable Impact
impact_eq = record { same = impact_beq; same_iff = impact_beq_iff }

instance abbrev pub target_eq : Comparable ReloadTarget
target_eq = record { same = target_beq; same_iff = target_beq_iff }

instance abbrev pub risk_eq : Comparable Risk
risk_eq = record { same = risk_beq; same_iff = risk_beq_iff }

instance abbrev pub proposal_state_eq : Comparable ProposalState
proposal_state_eq = record { same = proposal_state_beq; same_iff = proposal_state_beq_iff }

pub record ProposalSnapshot : Type 0 where
  pub proposal_id : String
  pub proposal_storage_sha256 : String
  pub state : ProposalState
  pub path : String
  pub expected_sha256 : String
  pub candidate_sha256 : String
  pub diff_sha256 : String
  pub risk : Risk
  pub impact : Impact
  pub reload_target : Option ReloadTarget
  pub expires_at : String

pub record ApprovalGrant : Type 0 where
  pub grant_id : String
  pub proposal_id : String
  pub proposal_storage_sha256 : String
  pub candidate_sha256 : String
  pub diff_sha256 : String
  pub operation : String
  pub risk : Risk
  pub impact : Impact
  pub reload_target : Option ReloadTarget
  pub issued_at : String
  pub expires_at : String

pub record StructuredFailure : Type 0 where
  pub stage : FailureStage
  pub code : String
  pub message : String
  pub commit_status : Option CommitStatus
  pub observed_sha256 : Option String
  pub at : String

pub record TransactionRecord : Type 0 where
  pub schema_version : ℕ
  pub transaction_id : String
  pub proposal_id : String
  pub approval_grant_id : Option String
  pub proposal_storage_sha256 : String
  pub path : String
  pub expected_sha256 : String
  pub candidate_sha256 : String
  pub diff_sha256 : String
  pub checkpoint_id : String
  pub checkpoint_sha256 : String
  pub impact : Impact
  pub reload_target : Option ReloadTarget
  pub rollback_reload_required : Bool
  pub state : TransactionState
  pub prior_state : Option TransactionState
  pub version : ℕ
  pub created_at : String
  pub updated_at : String
  pub failure : Option StructuredFailure
