-- ===== src/Phase3/Contract.antt =====
-- The discipline under which the coordinator drives its ports: what each port keeps, and what must
-- be durable before the live file is replaced or Home Assistant is asked to reload.
use ha_mcp.Prelude.{All, ℕ, String, ◌≡◌, ◌⊎◌, some, List, ◌∷◌}
use ha_mcp.Phase3.States.{
  TransactionState, intent_prepared, reload_intent, rollback_intent, rollback_reload_intent,
}
use ha_mcp.Phase3.Records.{ProposalSnapshot, ReloadTarget, TransactionRecord}
use ha_mcp.Phase3.Effects.{M}
use ha_mcp.Phase3.Effects.Triples.{Triple}
use ha_mcp.Phase3.Ports.{
  Ports, OperationContext, ValidationPhase, VerifiedOutcome, Patch, ReplaceInput,
}
use ha_mcp.Phase3.Coordinator.Apply.{prepare}

-- The replacement that a record plans for its candidate.
abbrev pub candidate_input : {B : Type 0} → TransactionRecord → B → ReplaceInput B
candidate_input r content = record {
  path = r.path;
  expected_sha256 = r.expected_sha256;
  content = content;
  content_sha256 = r.candidate_sha256;
}

-- The replacement that it plans for its rollback.
abbrev pub restore_input : {B : Type 0} → TransactionRecord → B → ReplaceInput B
restore_input r content = record {
  path = r.path;
  expected_sha256 = r.candidate_sha256;
  content = content;
  content_sha256 = r.checkpoint_sha256;
}

module _ {W : Type 0} (Inv : W → Type 0) (Known : TransactionRecord → W → Type 0) where
  -- The invariant holds, and the journal has returned each of the records.
  abbrev pub Holds : List TransactionRecord → W → Type 0
  Holds rs w = Inv w × All (λ r. Known r w) rs

  -- The method keeps what holds, whatever it returns or throws.
  abbrev pub Keeps : {A : Type 0} → M W A → Type 0
  Keeps m = (rs : List TransactionRecord) → Triple (Holds rs) m (λ _. Holds rs) (λ _. Holds rs)

pub record Contract (p : Ports) : Type 1 where
  pub Inv : p.World → Type 0
  pub Known : TransactionRecord → p.World → Type 0
  pub fill_kept :
      (rs : List TransactionRecord) (b : p.Bytes) (w : p.World)
      → Holds Inv Known rs w
      → Holds Inv Known rs (p.fill b w)
  pub now_kept : Keeps Inv Known p.now
  pub date_now_kept : Keeps Inv Known p.date_now
  pub fresh_signal_kept : Keeps Inv Known p.fresh_signal
  pub aborted_kept : (s : ℕ) → Keeps Inv Known (p.aborted s)
  pub load_proposal_kept : (id : String) → Keeps Inv Known (p.load_proposal id)
  pub load_candidate_kept : (id : String) → Keeps Inv Known (p.load_candidate id)
  pub evaluate_kept :
      (s : ProposalSnapshot) (c : OperationContext) → Keeps Inv Known (p.evaluate s c)
  pub acquire_kept : (path : String) (c : OperationContext) → Keeps Inv Known (p.acquire path c)
  pub acquire_recovery_kept : (c : OperationContext) → Keeps Inv Known (p.acquire_recovery c)
  pub release_kept : (l : p.Lease) → Keeps Inv Known (p.release l)
  pub read_kept : (path : String) (c : OperationContext) → Keeps Inv Known (p.read path c)
  pub read_digest_kept : (path : String) → Keeps Inv Known (p.read_digest path)
  pub validate_kept :
      (b : p.Bytes) (v : ValidationPhase) (c : OperationContext)
      → Keeps Inv Known (p.validate b v c)
  pub load_checkpoint_kept : (id : String) → Keeps Inv Known (p.load_checkpoint id)
  pub verify_kept :
      (r : TransactionRecord) (v : VerifiedOutcome) (c : OperationContext)
      → Keeps Inv Known (p.verify r v c)
  -- The intent comes back as it was prepared.
  pub prepared :
      (grant_id path : String) (proposal : ProposalSnapshot) (source content : p.Bytes)
      (c : OperationContext) (rs : List TransactionRecord)
      → Triple
          (Holds Inv Known rs)
          (prepare p grant_id path proposal source content c)
          (λ r w.
            Holds Inv Known (r ∷ rs) w
            × (r.state ≡ intent_prepared)
            × (r.candidate_sha256 ≡ p.sha256 content))
          (λ _. Holds Inv Known rs)
  -- A transition returns a record in the requested state.
  pub moved :
      (rs : List TransactionRecord) (id : String) (version : ℕ) (s : TransactionState)
      (patch : Patch)
      → Triple
          (Holds Inv Known rs)
          (p.transition id version s patch)
          (λ r w. Holds Inv Known (r ∷ rs) w × (r.state ≡ s))
          (λ _. Holds Inv Known rs)
  pub loaded :
      (rs : List TransactionRecord) (id : String)
      → Triple
          (Holds Inv Known rs)
          (p.load_record id)
          (λ found w. Holds Inv Known rs w × ((r : TransactionRecord) → found ≡ some r → Known r w))
          (λ _. Holds Inv Known rs)
  pub listed :
      (rs : List TransactionRecord)
      → Triple
          (Holds Inv Known rs)
          p.list_recoverable
          (λ found w. Holds Inv Known rs w × All (λ r. Known r w) found)
          (λ _. Holds Inv Known rs)
  -- The live file is replaced only as a durable record plans it.
  pub applied :
      (r : TransactionRecord) (content : p.Bytes) (c : OperationContext)
      (rs : List TransactionRecord)
      → r.state ≡ intent_prepared
      → r.candidate_sha256 ≡ p.sha256 content
      → Triple
          (Holds Inv Known (r ∷ rs))
          (p.replace (candidate_input r content) c)
          (λ _. Holds Inv Known (r ∷ rs))
          (λ _. Holds Inv Known (r ∷ rs))
  pub restored :
      (r : TransactionRecord) (content : p.Bytes) (c : OperationContext)
      (rs : List TransactionRecord)
      → r.state ≡ rollback_intent
      → r.checkpoint_sha256 ≡ p.sha256 content
      → Triple
          (Holds Inv Known (r ∷ rs))
          (p.replace (restore_input r content) c)
          (λ _. Holds Inv Known (r ∷ rs))
          (λ _. Holds Inv Known (r ∷ rs))
  -- A reload is asked for only after its intent is durable.
  pub reloaded :
      (r : TransactionRecord) (target : ReloadTarget) (c : OperationContext)
      (rs : List TransactionRecord)
      → (r.state ≡ reload_intent) ⊎ (r.state ≡ rollback_reload_intent)
      → Triple
          (Holds Inv Known (r ∷ rs))
          (p.reload_domain r.path target c)
          (λ _. Holds Inv Known (r ∷ rs))
          (λ _. Holds Inv Known (r ∷ rs))
