-- ===== src/Phase3/Discipline/Apply.antt =====
-- phase3/applyCoordinator.ts: `apply` from end to end.
use ha_mcp.Prelude.{String, ◌≡◌, Bool, true, false, not, ◌&&◌, List, ◌∷◌, ◌==◌, leb, string_eq}
use ha_mcp.Phase3.States.{intent_prepared}
use ha_mcp.Phase3.Records.{ProposalSnapshot, TransactionRecord}
use ha_mcp.Phase3.Effects.{M, Outcome, done, thrown}
use ha_mcp.Phase3.Effects.Triples.{
  Post, Triple, bind_rule, pure_rule, throw_rule, finally_rule, if_rule, assume_rule, weaken,
}
use ha_mcp.Phase3.Paths.{is_canonical_path}
use ha_mcp.Phase3.Ports.{Ports, OperationContext, Decision, allowed, denied}
use ha_mcp.Phase3.Coordinator.Commit.{commit}
use ha_mcp.Phase3.Coordinator.Apply.{
  same_proposal, ensure, assert_precommit_active, permit, assert_policy, canonical_path,
  apply_source, apply_locked, apply,
}
use ha_mcp.Phase3.Contract.{Contract, Holds, Keeps}
use ha_mcp.Phase3.Discipline.Manual.{Settled}
use ha_mcp.Phase3.Discipline.Restore.{wipe-Triple}
use ha_mcp.Phase3.Discipline.Commit.{commit-Settles}

module _ (p : Ports) (k : Contract p) where
  open k use {Inv, Known}

  pub ensure-Keeps : (b : Bool) (code message : String) → Keeps Inv Known (ensure b code message)
  ensure-Keeps true code message rs = pure_rule tt
  ensure-Keeps false code message rs = throw_rule _

  assert_precommit_active-Keeps :
      (c : OperationContext) → Keeps Inv Known (assert_precommit_active p c)
  unfolding assert_precommit_active
  assert_precommit_active-Keeps c rs = bind_rule (k.aborted_kept c.signal rs) λ is_aborted.
      bind_rule (ensure-Keeps (not is_aborted) _ _ rs) λ _.
        bind_rule (k.date_now_kept rs) λ time. ensure-Keeps (not (leb c.deadline_at time)) _ _ rs

  permit-Keeps : (d : Decision) → Keeps Inv Known (permit p d)
  unfolding permit
  permit-Keeps allowed rs = pure_rule tt
  permit-Keeps (denied code message) rs = throw_rule _

  assert_policy-Keeps :
      (s : ProposalSnapshot) (c : OperationContext) → Keeps Inv Known (assert_policy p s c)
  unfolding assert_policy
  assert_policy-Keeps s c rs = bind_rule (k.evaluate_kept s c rs) (λ d. permit-Keeps d rs)

  canonical_path-Keeps : (path : String) → Keeps Inv Known (canonical_path p path)
  unfolding canonical_path
  canonical_path-Keeps path rs =
      if_rule (is_canonical_path p.formats.nfc path) (λ _. pure_rule path) (λ _. throw_rule _)

  -- The method settles a transaction that it begins, or throws.
  abbrev pub Begins : M p.World TransactionRecord → Type 0
  Begins m =
      (rs : List TransactionRecord)
      → Triple (Holds Inv Known rs) m (Settled p k rs) (λ _. Holds Inv Known rs)

  apply_source-Begins :
      (grant_id path : String) (s : ProposalSnapshot) (b : p.Bytes) (digest : String)
      (c : OperationContext)
      → Begins (apply_source p grant_id path s b digest c)
  unfolding apply_source
  apply_source-Begins grant_id path s b digest c rs =
      finally_rule
        (bind_rule
          (ensure-Keeps (digest == s.expected_sha256 && p.sha256 b == s.expected_sha256) _ _ rs)
          λ _. bind_rule (k.load_candidate_kept s.proposal_id rs) λ content.
            finally_rule
              (bind_rule (k.prepared grant_id path s b content c rs) (λ r. begun r content))
              (wipe-Triple p k content rs rs))
        (wipe-Triple p k b rs rs)
    where
      begun :
          (r : TransactionRecord) (content : p.Bytes)
          → Triple
              (λ w.
                Holds Inv Known (r ∷ rs) w
                × (r.state ≡ intent_prepared)
                × (r.candidate_sha256 ≡ p.sha256 content))
              (commit p r content c)
              (Settled p k rs)
              (λ _. Holds Inv Known rs)
      begun r content = record {
        run = λ w h. (commit-Settles p k r content c h.1 h.2 rs).run w h.0;
      }

  apply_locked-Begins :
      (proposal_id grant_id path : String) (first : ProposalSnapshot) (c : OperationContext)
      → Begins (apply_locked p proposal_id grant_id path first c)
  unfolding apply_locked
  apply_locked-Begins proposal_id grant_id path first c rs =
      bind_rule (assert_precommit_active-Keeps c rs) λ _.
        bind_rule (k.load_proposal_kept proposal_id rs) λ s.
          bind_rule (ensure-Keeps (same_proposal first s) _ _ rs) λ _.
            bind_rule (assert_policy-Keeps s c rs) λ _.
              bind_rule (k.read_kept path c rs)
                λ (b, digest). apply_source-Begins grant_id path s b digest c rs

  -- Releasing the lease changes nothing that holds.
  release-Triple :
      (l : p.Lease) (rs : List TransactionRecord) (o : Outcome TransactionRecord)
      → Triple
          (λ w. Post (Settled p k rs) (λ _. Holds Inv Known rs) (o, w))
          (p.release l)
          (λ _ w. Post (Settled p k rs) (λ _. Holds Inv Known rs) (o, w))
          (λ _. Holds Inv Known rs)
  release-Triple l rs (done r) =
      assume_rule (λ e.
        weaken (k.release_kept l (r ∷ rs)) (λ w h. h) (λ _ w h. (h, e)) (λ x w h. (h.0, h.1.1)))
  release-Triple l rs (thrown e) = k.release_kept l rs

  -- `apply` settles the transaction that it begins, or throws.
  pub apply-Begins :
      (proposal_id grant_id : String) (c : OperationContext)
      → Begins (apply p proposal_id grant_id c)
  unfolding apply
  apply-Begins proposal_id grant_id c rs = bind_rule (assert_precommit_active-Keeps c rs) λ _.
      bind_rule (k.load_proposal_kept proposal_id rs) λ first.
        bind_rule (assert_policy-Keeps first c rs) λ _.
          bind_rule (canonical_path-Keeps first.path rs) λ path.
            bind_rule (k.acquire_kept path c rs) λ l.
              finally_rule (apply_locked-Begins proposal_id grant_id path first c rs)
                (release-Triple l rs)
