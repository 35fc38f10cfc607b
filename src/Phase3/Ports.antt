-- ===== src/Phase3/Ports.antt =====
-- phase3/applyCoordinator.ts: the ports of the coordinator, the interface between the workflow and
-- the components that it drives, with the clock, the digest and the signals of the platform.
use ha_mcp.Prelude.{ℕ, String, Bool, Option, none, List}
use ha_mcp.Phase3.States.{TransactionState}
use ha_mcp.Phase3.Records.{
  CommitStatus, ReloadTarget, ProposalSnapshot, ApprovalGrant, StructuredFailure, TransactionRecord,
}
use ha_mcp.Phase3.Records.Schema.{Formats}
use ha_mcp.Phase3.Effects.{M}

-- `Phase3LockContext`: the signal is a handle whose state the world holds.
pub record OperationContext : Type 0 where
  pub signal : ℕ
  pub deadline_at : ℕ

pub data Decision : Type 0 where
  allowed : Decision
  denied : String → String → Decision

pub data ValidationPhase : Type 0 where
  checkpoint_pre_apply candidate_pre_apply candidate_post_apply checkpoint_post_rollback :
      ValidationPhase

pub data VerifiedOutcome : Type 0 where
  candidate checkpoint : VerifiedOutcome

pub record CheckpointReceipt : Type 0 where
  pub checkpoint_id : String
  pub checkpoint_sha256 : String

pub record ReplaceInput (Bytes : Type 0) : Type 0 where
  pub path : String
  pub expected_sha256 : String
  pub content : Bytes
  pub content_sha256 : String

-- The patch of a transition. The outer `none` means that the property is absent.
pub record Patch : Type 0 where
  pub failure : Option (Option StructuredFailure)
  pub rollback_reload_required : Option Bool

abbrev pub no_patch : Patch
no_patch = record { failure = none; rollback_reload_required = none }

pub record Ports : Type 1 where
  pub World : Type 0
  pub Bytes : Type 0
  pub Lease : Type 0
  pub formats : Formats
  pub sha256 : Bytes → String
  pub to_iso : ℕ → String
  -- `Date.now()`, and the `now` of the ports
  pub date_now : M World ℕ
  pub now : M World ℕ
  pub random_uuid : M World String
  pub aborted : ℕ → M World Bool
  pub fresh_signal : M World ℕ
  -- `bytes.fill(0)`
  pub fill : Bytes → World → World
  pub load_proposal : String → M World ProposalSnapshot
  pub load_candidate : String → M World Bytes
  pub evaluate : ProposalSnapshot → OperationContext → M World Decision
  -- the `now` and the signal of the approval context
  pub consume_apply_grant : String → ProposalSnapshot → ℕ → ℕ → M World ApprovalGrant
  pub acquire : String → OperationContext → M World Lease
  pub acquire_recovery : OperationContext → M World Lease
  pub release : Lease → M World (Unit {0})
  pub read : String → OperationContext → M World (Bytes × String)
  pub read_digest : String → M World (Option String)
  pub validate : Bytes → ValidationPhase → OperationContext → M World (Unit {0})
  pub create_checkpoint : String → Bytes → String → OperationContext → M World CheckpointReceipt
  pub load_checkpoint : String → M World Bytes
  pub replace : ReplaceInput Bytes → OperationContext → M World CommitStatus
  pub reload_domain : String → ReloadTarget → OperationContext → M World (Unit {0})
  pub verify : TransactionRecord → VerifiedOutcome → OperationContext → M World (Unit {0})
  pub create_intent : TransactionRecord → M World TransactionRecord
  pub transition : String → ℕ → TransactionState → Patch → M World TransactionRecord
  pub load_record : String → M World (Option TransactionRecord)
  pub list_recoverable : M World (List TransactionRecord)
