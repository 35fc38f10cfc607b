-- ===== src/Phase3/Intent.antt =====
-- phase3/applyCoordinator.ts: the part of `apply` that ends with the durable intent, under laws of
-- the ports that it calls.
use ha_mcp.Prelude.{
  String, ◌≡◌, refl, sym, ap, subst, ◌∙◌, true, Bool, ◌==◌, string_eq, beq→eq, false, List, ◌∷◌, ℕ,
}
use ha_mcp.Phase3.States.{intent_prepared}
use ha_mcp.Phase3.Records.{ProposalSnapshot, TransactionRecord}
use ha_mcp.Phase3.Records.Schema.{transaction_record_is_valid}
use ha_mcp.Phase3.Effects.Triples.{
  Triple, bind_rule, pure_rule, throw_rule, if_rule, assume_rule, weaken,
}
use ha_mcp.Phase3.Ports.{
  Ports, OperationContext, ValidationPhase, CheckpointReceipt, checkpoint_pre_apply,
  candidate_pre_apply,
}
use ha_mcp.Phase3.Coordinator.Apply.{ensure, parse_record, intent_record, prepare}
use ha_mcp.Phase3.Contract.{Holds, Keeps}

-- What the ports that `prepare` calls keep; an intent comes back as it was given.
pub record Intents (p : Ports) (Inv : p.World → Type 0)
    (Known : TransactionRecord → p.World → Type 0) : Type 1 where
  pub now_kept : Keeps Inv Known p.now
  pub random_uuid_kept : Keeps Inv Known p.random_uuid
  pub validate_kept :
      (b : p.Bytes) (v : ValidationPhase) (c : OperationContext)
      → Keeps Inv Known (p.validate b v c)
  pub consume_kept :
      (id : String) (s : ProposalSnapshot) (time signal : ℕ)
      → Keeps Inv Known (p.consume_apply_grant id s time signal)
  pub checkpoint_kept :
      (path : String) (b : p.Bytes) (sha : String) (c : OperationContext)
      → Keeps Inv Known (p.create_checkpoint path b sha c)
  pub created :
      (r : TransactionRecord) (rs : List TransactionRecord)
      → Triple
          (Holds Inv Known rs)
          (p.create_intent r)
          (λ r' w. Holds Inv Known (r' ∷ rs) w × (r' ≡ r))
          (λ _. Holds Inv Known rs)

module _ (p : Ports) (Inv : p.World → Type 0) (Known : TransactionRecord → p.World → Type 0)
    (k : Intents p Inv Known) (rs : List TransactionRecord) where
  open p use {World, Bytes}

  -- The identity that the intent takes from the proposal.
  abbrev IsIntentOf : ProposalSnapshot → TransactionRecord → Type 0
  IsIntentOf proposal r =
      (r.state ≡ intent_prepared) × (r.candidate_sha256 ≡ proposal.candidate_sha256)

  parse_record-Triple :
      (r : TransactionRecord)
      → Triple
          (Holds Inv Known rs)
          (parse_record p r)
          (λ r' w. Holds Inv Known rs w × (r' ≡ r))
          (λ _. Holds Inv Known rs)
  unfolding parse_record
  parse_record-Triple r =
      if_rule (transaction_record_is_valid p.formats r)
        (λ valid. weaken (pure_rule r) (λ w h. (h, refl)) (λ a w h. h) (λ e w h. h))
        (λ other. weaken (throw_rule _) (λ w h. h) (λ a w h. h) (λ e w h. h))

  intent_record-Triple :
      (proposal : ProposalSnapshot) (receipt : CheckpointReceipt) (grant_id : String)
      → Triple
          (Holds Inv Known rs)
          (intent_record p proposal receipt grant_id)
          (λ r w. Holds Inv Known rs w × IsIntentOf proposal r)
          (λ _. Holds Inv Known rs)
  unfolding intent_record
  intent_record-Triple proposal receipt grant_id = bind_rule (k.now_kept rs) λ time.
      bind_rule (k.random_uuid_kept rs) λ id.
        weaken (parse_record-Triple _) (λ w h. h)
          (λ r w h. (
            h.0,
            (
              ap (λ (x : TransactionRecord). x.state) h.1,
              ap (λ (x : TransactionRecord). x.candidate_sha256) h.1,
            ),
          ))
          (λ e w h. h)

  create-Triple :
      (proposal : ProposalSnapshot) (r : TransactionRecord)
      → Triple
          (λ w. Holds Inv Known rs w × IsIntentOf proposal r)
          (p.create_intent r)
          (λ r' w. Holds Inv Known (r' ∷ rs) w × IsIntentOf proposal r')
          (λ _. Holds Inv Known rs)
  create-Triple proposal r = record {
    run = λ w h.
        (weaken (k.created r rs) (λ w x. x)
            (λ r' w x. (x.0, subst (λ y. IsIntentOf proposal y) (sym x.1) h.1)) (λ e w x. x)).run
          w h.0;
  }

  ensure-Triple :
      (b : Bool) (code message : String)
      → Triple {W = World}
          (Holds Inv Known rs)
          (ensure b code message)
          (λ _ w. Holds Inv Known rs w × (b ≡ true))
          (λ _. Holds Inv Known rs)
  ensure-Triple true code message =
      weaken (pure_rule tt) (λ w h. (h, refl)) (λ a w h. h) (λ e w h. h)
  ensure-Triple false code message = weaken (throw_rule _) (λ w h. h) (λ a w h. h) (λ e w h. h)

  -- The prepared intent names the bytes of the candidate.
  pub prepare-Triple :
      (grant_id path : String) (proposal : ProposalSnapshot) (source content : Bytes)
      (c : OperationContext)
      → Triple
          (Holds Inv Known rs)
          (prepare p grant_id path proposal source content c)
          (λ r w.
            Holds Inv Known (r ∷ rs) w
            × (r.state ≡ intent_prepared)
            × (r.candidate_sha256 ≡ p.sha256 content))
          (λ _. Holds Inv Known rs)
  unfolding prepare
  prepare-Triple grant_id path proposal source content c =
      bind_rule (ensure-Triple (p.sha256 content == proposal.candidate_sha256) _ _) λ _.
        assume_rule λ same. bind_rule (k.validate_kept source checkpoint_pre_apply c rs) λ _.
          bind_rule (k.validate_kept content candidate_pre_apply c rs) λ _.
            bind_rule (k.now_kept rs) λ time.
              bind_rule (k.consume_kept grant_id proposal time c.signal rs) λ grant.
                bind_rule (k.checkpoint_kept path source proposal.expected_sha256 c rs) λ receipt.
                  bind_rule
                    (ensure-Triple (receipt.checkpoint_sha256 == proposal.expected_sha256) _ _)
                    λ _. assume_rule λ _.
                      bind_rule (intent_record-Triple proposal receipt grant_id) λ r.
                        weaken (create-Triple proposal r) (λ w h. h)
                          (λ r' w h. (h.0, h.1.0, h.1.1 ∙ sym (beq→eq _ _ same))) (λ e w h. h)
