-- ===== src/Phase3/Discipline/Recover.antt =====
-- phase3/applyCoordinator.ts: `recover`, under the contract of the ports.
use ha_mcp.Prelude.{String, ◌≡◌, true, false, not, ◌&&◌, Option, none, List, [], ◌∷◌, All, arith}
use ha_mcp.Phase3.States.{
  verification_succeeded, rollback_reload_intent, rollback_verification_succeeded,
  manual_recovery_required, state_beq, is_terminal,
}
use ha_mcp.Phase3.Records.{TransactionRecord}
use ha_mcp.Phase3.Effects.{primitive, M, pure, Outcome, done, thrown}
use ha_mcp.Phase3.Effects.Triples.{
  Post, Triple, bind_rule, pure_rule, finally_rule, if_rule, assume_rule, weaken,
}
use ha_mcp.Phase3.Ports.{Ports}
use ha_mcp.Phase3.Coordinator.Recover.{
  DigestClass, expected_or_checkpoint, candidate, other_or_missing, verified, rolled_back,
  manual_attention_required, RecoveryResult, classify_digest, recovery_result,
  disposition_for_record, is_expected_or_checkpoint, is_restored, verified_if_candidate,
  rolled_back_if_checkpoint, recover_manually, recover_rollback, recover_known, recover_live,
  recover_class, recover_one, recover_each, recover,
}
use ha_mcp.Phase3.Contract.{Contract, Holds}
use ha_mcp.Phase3.Discipline.Manual.{Settles, drop_known, manual-Settles}
use ha_mcp.Phase3.Discipline.Rollback.{internal_context-Keeps}
use ha_mcp.Phase3.Discipline.Restore.{
  rollback_after_commit-Settles, complete_rollback_validation-Settles,
}

-- The result names a terminal state, and reports success only of a transaction in that end.
pub record IsSettledResult (result : RecoveryResult) : Type 0 where
  pub terminal : is_terminal result.terminal_state ≡ true
  pub verified_only : result.disposition ≡ verified → result.terminal_state ≡ verification_succeeded
  pub rolled_back_only :
      result.disposition ≡ rolled_back → result.terminal_state ≡ rollback_verification_succeeded
  pub attention :
      result.needs_attention ≡ false → (result.disposition ≡ manual_attention_required) → ⊥

manual_result :
    (r : TransactionRecord) (d : DigestClass) (o : Option String)
    → is_terminal r.state ≡ true
    → IsSettledResult (recovery_result r d o manual_attention_required)
unfolding recovery_result is_terminal
manual_result r d o t = ground arith

rollback_result :
    (r : TransactionRecord) (d : DigestClass) (o : Option String)
    → is_terminal r.state ≡ true
    → IsSettledResult (recovery_result r d o (disposition_for_record r))
unfolding recovery_result disposition_for_record is_terminal
rollback_result r d o t = ground arith

verified_result :
    (r : TransactionRecord) (d : DigestClass) (o : Option String)
    → state_beq r.state verification_succeeded ≡ true
    → IsSettledResult (recovery_result r d o (verified_if_candidate d))
unfolding recovery_result is_terminal
verified_result r d o t = ground arith

rolled_back_result :
    (r : TransactionRecord) (d : DigestClass) (o : Option String)
    → state_beq r.state rollback_verification_succeeded ≡ true
    → IsSettledResult (recovery_result r d o (rolled_back_if_checkpoint d))
unfolding recovery_result is_terminal
rolled_back_result r d o t = ground arith

manual_state :
    (r : TransactionRecord)
    → state_beq r.state manual_recovery_required ≡ true
    → is_terminal r.state ≡ true
unfolding is_terminal
manual_state r e = ground arith

module _ (p : Ports) (k : Contract p) where
  open k use {Inv, Known}

  abbrev pub Recovers : TransactionRecord → M p.World RecoveryResult → Type 0
  Recovers r m =
      (rs : List TransactionRecord)
      → Triple (Holds Inv Known (r ∷ rs)) m (λ x w. Holds Inv Known (r ∷ rs) w × IsSettledResult x)
          (λ _. Holds Inv Known rs)

  recovered : (r : TransactionRecord) (x : RecoveryResult) → IsSettledResult x → Recovers r (pure x)
  recovered r x s rs = weaken (pure_rule x) (λ w h. (h, s)) (λ a w h. h) (λ e w h. h)

  -- What settles `r` keeps it among the known records.
  settle_keeping :
      {m : M p.World TransactionRecord} (r : TransactionRecord) (rs : List TransactionRecord)
      → Settles p k r m
      → Triple
          (Holds Inv Known (r ∷ rs))
          m
          (λ r' w. Holds Inv Known (r ∷ rs) w × (is_terminal r'.state ≡ true))
          (λ _. Holds Inv Known rs)
  settle_keeping r rs s =
      weaken (s (r ∷ rs)) (λ w h. (h.0, (h.1.0, h.1))) (λ r' w h. ((h.0.0, h.0.1.1), h.1))
        (λ e w h. drop_known p k rs r w h)

  recover_manually-Recovers :
      (r : TransactionRecord) (d : DigestClass) (o : Option String) (code message : String)
      → Recovers r (recover_manually p r d o code message)
  unfolding recover_manually
  recover_manually-Recovers r d o code message rs =
      bind_rule (settle_keeping r rs (manual-Settles p k r _ code message none o)) λ r'.
        assume_rule
          (λ t. weaken (pure_rule _) (λ w h. (h, manual_result r' d o t)) (λ a w h. h) (λ e w h. h))

  recover_rollback-Recovers :
      (r : TransactionRecord) (d : DigestClass) (o : Option String)
      → Recovers r (recover_rollback p r d o)
  unfolding recover_rollback
  recover_rollback-Recovers r d o rs =
      bind_rule
        (settle_keeping r rs (λ rs'.
          if_rule (is_expected_or_checkpoint d)
            (λ _. complete_rollback_validation-Settles p k r rs')
            (λ _. rollback_after_commit-Settles p k r (primitive "startup recovery rollback") rs')))
        λ r'. assume_rule (λ t.
          weaken (pure_rule _) (λ w h. (h, rollback_result r' d o t)) (λ a w h. h) (λ e w h. h))

  recover_known-Recovers :
      (r : TransactionRecord) (o : Option String) (d : DigestClass)
      → Recovers r (recover_known p r o d)
  unfolding recover_known
  recover_known-Recovers r o d rs =
      if_rule (state_beq r.state rollback_reload_intent)
        (λ _. recover_manually-Recovers r d o _ _ rs)
        (λ _.
          if_rule (is_restored r && not (is_expected_or_checkpoint d))
            (λ _. recover_manually-Recovers r d o _ _ rs) (λ _. recover_rollback-Recovers r d o rs))

  recover_live-Recovers :
      (r : TransactionRecord) (o : Option String) (d : DigestClass)
      → Recovers r (recover_live p r o d)
  unfolding recover_live
  recover_live-Recovers r o other_or_missing rs = recover_manually-Recovers r _ o _ _ rs
  recover_live-Recovers r o candidate rs = recover_known-Recovers r o candidate rs
  recover_live-Recovers r o expected_or_checkpoint rs = recover_known-Recovers r o _ rs

  recover_class-Recovers :
      (r : TransactionRecord) (o : Option String) (d : DigestClass)
      → Recovers r (recover_class p r o d)
  unfolding recover_class is_terminal
  recover_class-Recovers r o d rs =
      if_rule (state_beq r.state manual_recovery_required)
        (λ e. recovered r _ (manual_result r d o (manual_state r e)) rs)
        (λ _.
          if_rule (state_beq r.state verification_succeeded)
            (λ e. recovered r _ (verified_result r d o e) rs)
            (λ _.
              if_rule (state_beq r.state rollback_verification_succeeded)
                (λ e. recovered r _ (rolled_back_result r d o e) rs)
                (λ _. recover_live-Recovers r o d rs)))

  pub recover_one-Recovers : (r : TransactionRecord) → Recovers r (recover_one p r)
  unfolding recover_one
  recover_one-Recovers r rs =
      bind_rule
        (weaken (k.read_digest_kept r.path (r ∷ rs)) (λ w h. h) (λ a w h. h)
          (λ e w h. drop_known p k rs r w h))
        (λ o. recover_class-Recovers r o (classify_digest r o) rs)

  -- Every record of the list is recovered.
  recover_each-Triple :
      (found : List TransactionRecord)
      → Triple
          (λ w. Inv w × All (λ r. Known r w) found)
          (recover_each p found)
          (λ xs w. Inv w × All IsSettledResult xs)
          (λ _. Inv)
  unfolding recover_each
  recover_each-Triple [] = weaken (pure_rule []) (λ w h. (h.0, tt)) (λ a w h. h) (λ e w h. h)
  recover_each-Triple (r ∷ rs) =
      bind_rule (weaken (recover_one-Recovers r rs) (λ w h. h) (λ a w h. h) (λ e w h. h.0)) λ x.
        assume_rule λ s.
          bind_rule
            (weaken (recover_each-Triple rs) (λ w h. (h.0, h.1.1)) (λ a w h. h) (λ e w h. h))
            λ xs. weaken (pure_rule _) (λ w h. (h.0, (s, h.1))) (λ a w h. h) (λ e w h. h)

  release-Triple :
      (l : p.Lease) (o : Outcome (List RecoveryResult))
      → Triple
          (λ w. Post (λ xs w. Inv w × All IsSettledResult xs) (λ _. Inv) (o, w))
          (p.release l)
          (λ _ w. Post (λ xs w. Inv w × All IsSettledResult xs) (λ _. Inv) (o, w))
          (λ _. Inv)
  release-Triple l (done xs) =
      assume_rule
        (λ s. weaken (k.release_kept l []) (λ w h. (h, tt)) (λ _ w h. (h.0, s)) (λ e w h. h.0))
  release-Triple l (thrown e) =
      weaken (k.release_kept l []) (λ w h. (h, tt)) (λ _ w h. h.0) (λ e w h. h.0)

  -- `recover` settles every transaction that the journal lists, or throws.
  pub recover-Triple :
      Triple (λ w. Inv w) (recover p) (λ xs w. Inv w × All IsSettledResult xs) (λ _ w. Inv w)
  unfolding recover
  recover-Triple =
      bind_rule
        (weaken (internal_context-Keeps p k 0 []) (λ w h. (h, tt)) (λ a w h. h.0) (λ e w h. h.0))
        λ c.
          bind_rule
            (weaken (k.acquire_recovery_kept c []) (λ w h. (h, tt)) (λ a w h. h.0) (λ e w h. h.0))
            λ l.
              finally_rule
                (bind_rule
                  (weaken (k.listed []) (λ w h. (h, tt)) (λ found w h. (h.0.0, h.1)) (λ e w h. h.0))
                  recover_each-Triple)
                (release-Triple l)
