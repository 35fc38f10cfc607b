-- ===== src/Phase3/Discipline/Restore.antt =====
-- phase3/applyCoordinator.ts: `rollbackAfterCommit` and `completeRollbackValidation`.
use ha_mcp.Prelude.{
  String, ◌≡◌, ◌⊎◌, inl, inr, Option, true, false, not, ◌&&◌, none, List, ◌∷◌, arith,
}
use ha_mcp.Phase3.States.{rollback_intent, state_beq, state_beq_iff}
use ha_mcp.Phase3.Records.{
  CommitStatus, before_commit, committed, commit_unknown, FailureStage, TransactionRecord,
}
use ha_mcp.Phase3.Records
use ha_mcp.Phase3.Effects.{Thrown, M, thrown, done, Outcome, ◌>>=◌, ◌>>◌, try_finally}
use ha_mcp.Phase3.Effects.Triples.{
  Post, Triple, bind_rule, catch_rule, finally_rule, attempt_rule, if_rule, assume_rule, weaken,
}
use ha_mcp.Phase3.Ports.{Ports, OperationContext}
use ha_mcp.Phase3.Coordinator.Manual.{move}
use ha_mcp.Phase3.Coordinator.Rollback.{
  digest_is, wipe, assert_checkpoint_integrity, commit_restore, settle_unknown_restore,
  begin_rollback, begin_completion, after_restore, restore_checkpoint_after_rollback_intent,
  restore_from_intent, rollback_after_commit, validate_live_checkpoint, commit_live_checkpoint,
  is_rolling_back, complete_rollback_validation,
}
use ha_mcp.Phase3.Contract.{Contract, Holds}
use ha_mcp.Phase3.Discipline.Manual.{
  Settled, Settles, drop_known, transition-Triple, new_failure-Keeps, manual-Settles,
}
use ha_mcp.Phase3.Discipline.Rollback.{
  IsRestored, give_up-Settles, internal_context-Keeps, seq, assert_checkpoint_integrity-Triple,
  complete_with_checkpoint-Settles,
}

not_at_intent :
    (r : TransactionRecord)
    → (r.state ≡ rollback_intent) ⊎ IsRestored r
    → state_beq r.state rollback_intent ≡ false
    → IsRestored r
not_at_intent r (inl e) h = absurd (ground arith)
not_at_intent r (inr v) h = v

rolling_back :
    (r : TransactionRecord) → is_rolling_back r ≡ true → (r.state ≡ rollback_intent) ⊎ IsRestored r
rolling_back r h = ground arith

module _ (p : Ports) (k : Contract p) where
  open k use {Inv, Known}

  -- The rollback is committed and completed; what fails before keeps `r`.
  commit_restore-Settles :
      (r : TransactionRecord) (b : p.Bytes) (c : OperationContext)
      → Settles p k r (commit_restore p r b c)
  unfolding commit_restore move
  commit_restore-Settles r b c rs =
      bind_rule
        (weaken (transition-Triple p k rs r _ _ _ _) (λ w h. h) (λ r' w h. h)
          (λ e w h. drop_known p k rs r w h))
        (λ r'. assume_rule (λ e. complete_with_checkpoint-Settles p k r' b c (inl e) rs))

  settle_unknown_restore-Settles :
      (r : TransactionRecord) (b : p.Bytes) (c : OperationContext) (digest : Option String)
      → Settles p k r (settle_unknown_restore p r b c digest)
  unfolding settle_unknown_restore
  settle_unknown_restore-Settles r b c digest rs =
      if_rule
        (not (digest_is digest r.expected_sha256) && not (digest_is digest r.checkpoint_sha256))
        (λ drifted. manual-Settles p k r _ _ _ _ digest rs)
        (λ live. commit_restore-Settles r b c rs)

  after_restore-Settles :
      (r : TransactionRecord) (b : p.Bytes) (c : OperationContext) (message : String)
      (s : CommitStatus)
      → Settles p k r (after_restore p r b c message s)
  unfolding after_restore
  after_restore-Settles r b c message before_commit rs = manual-Settles p k r _ _ _ none none rs
  after_restore-Settles r b c message committed rs = commit_restore-Settles r b c rs
  after_restore-Settles r b c message commit_unknown rs =
      seq p k rs r (k.read_digest_kept r.path)
        (λ digest. settle_unknown_restore-Settles r b c digest rs)

  restore_checkpoint-Settles :
      (r : TransactionRecord) (b : p.Bytes) (c : OperationContext)
      → r.state ≡ rollback_intent
      → r.checkpoint_sha256 ≡ p.sha256 b
      → Settles p k r (restore_checkpoint_after_rollback_intent p r b c)
  unfolding restore_checkpoint_after_rollback_intent
  restore_checkpoint-Settles r b c at_intent same rs =
      attempt_rule (k.restored r b c rs at_intent same) (λ e. after_restore-Settles r b c _ _ rs)
        (λ s. after_restore-Settles r b c _ s rs)

  -- What settles `r` keeps it durable when it throws.
  keep_known :
      {m : M p.World TransactionRecord} (r : TransactionRecord) (rs : List TransactionRecord)
      → Settles p k r m
      → Triple (Holds Inv Known (r ∷ rs)) m (Settled p k rs) (λ _. Holds Inv Known (r ∷ rs))
  keep_known r rs s =
      weaken (s (r ∷ rs)) (λ w h. (h.0, (h.1.0, h.1)))
        (λ r' w h. ((h.0.0, (h.0.1.0, h.0.1.1.1)), h.1)) (λ e w h. h)

  -- Wiping a buffer changes nothing that holds.
  pub wipe-Triple :
      (b : p.Bytes) (rs es : List TransactionRecord) (o : Outcome TransactionRecord)
      → Triple
          (λ w. Post (Settled p k rs) (λ _. Holds Inv Known es) (o, w))
          (wipe p b)
          (λ _ w. Post (Settled p k rs) (λ _. Holds Inv Known es) (o, w))
          (λ _. Holds Inv Known es)
  wipe-Triple b rs es (done r) = record { run = λ w h. (k.fill_kept (r ∷ rs) b w h.0, h.1) }
  wipe-Triple b rs es (thrown e) = record { run = λ w h. k.fill_kept es b w h }

  -- The checkpoint is loaded, checked, used and wiped; `use_it` settles `r`.
  with_checkpoint :
      (r : TransactionRecord) (rs : List TransactionRecord)
      (use_it : p.Bytes → M p.World TransactionRecord)
      → ((b : p.Bytes) → r.checkpoint_sha256 ≡ p.sha256 b → Settles p k r (use_it b))
      → Triple
          (Holds Inv Known (r ∷ rs))
          (p.load_checkpoint r.checkpoint_id >>= λ b.
            try_finally (assert_checkpoint_integrity p r b >> use_it b) (wipe p b))
          (Settled p k rs)
          (λ _. Holds Inv Known (r ∷ rs))
  with_checkpoint r rs use_it settles =
      bind_rule (k.load_checkpoint_kept r.checkpoint_id (r ∷ rs)) λ b.
        finally_rule
          (bind_rule (assert_checkpoint_integrity-Triple p k r b (r ∷ rs))
            (λ _. assume_rule (λ same. keep_known r rs (settles b same))))
          (wipe-Triple b rs (r ∷ rs))

  restore_from_intent-Settles :
      (c : OperationContext) (r : TransactionRecord)
      → r.state ≡ rollback_intent
      → Settles p k r (restore_from_intent p c r)
  unfolding restore_from_intent
  restore_from_intent-Settles c r at_intent rs =
      catch_rule
        (with_checkpoint r rs _ (λ b same. restore_checkpoint-Settles r b c at_intent same))
        (λ e. give_up-Settles p k Records.rollback r e rs)

  validate_live_checkpoint-Settles :
      (c : OperationContext) (r : TransactionRecord)
      → IsRestored r
      → Settles p k r (validate_live_checkpoint p c r)
  unfolding validate_live_checkpoint
  validate_live_checkpoint-Settles c r restored rs =
      catch_rule
        (with_checkpoint r rs _ (λ b same. complete_with_checkpoint-Settles p k r b c restored))
        (λ e. give_up-Settles p k Records.recovery r e rs)

  begin_rollback-Settles :
      (r : TransactionRecord) (cause : Thrown) (c : OperationContext)
      → Settles p k r (begin_rollback p r cause c)
  unfolding begin_rollback
  begin_rollback-Settles r cause c rs =
      if_rule _ (λ at_intent. restore_from_intent-Settles c r ((state_beq_iff _ _).0 at_intent) rs)
        (λ other.
          attempt_rule
            (bind_rule (new_failure-Keeps p k _ _ _ none none (r ∷ rs))
              (λ f. transition-Triple p k rs r _ _ _ _))
            (λ e. give_up-Settles p k Records.rollback r e rs)
            (λ r'. assume_rule (λ e. restore_from_intent-Settles c r' e rs)))

  -- `rollbackAfterCommit` settles the record, whatever the cause is.
  pub rollback_after_commit-Settles :
      (r : TransactionRecord) (cause : Thrown) → Settles p k r (rollback_after_commit p r cause)
  unfolding rollback_after_commit
  rollback_after_commit-Settles r cause rs =
      seq p k rs r (internal_context-Keeps p k 0) (λ c. begin_rollback-Settles r cause c rs)

  commit_live_checkpoint-Settles :
      (c : OperationContext) (r : TransactionRecord)
      → (r.state ≡ rollback_intent) ⊎ IsRestored r
      → Settles p k r (commit_live_checkpoint p c r)
  unfolding commit_live_checkpoint move
  commit_live_checkpoint-Settles c r v rs =
      if_rule _
        (λ at_intent.
          attempt_rule (transition-Triple p k rs r _ _ _ _)
            (λ e. give_up-Settles p k Records.recovery r e rs)
            (λ r'. assume_rule (λ e. validate_live_checkpoint-Settles c r' (inl e) rs)))
        (λ other. validate_live_checkpoint-Settles c r (not_at_intent r v other) rs)

  begin_completion-Settles :
      (r : TransactionRecord) (c : OperationContext) → Settles p k r (begin_completion p r c)
  unfolding begin_completion
  begin_completion-Settles r c rs =
      if_rule _ (λ rolling. commit_live_checkpoint-Settles c r (rolling_back r rolling) rs)
        (λ other.
          attempt_rule
            (bind_rule (new_failure-Keeps p k _ _ _ none none (r ∷ rs))
              (λ f. transition-Triple p k rs r _ _ _ _))
            (λ e. give_up-Settles p k Records.recovery r e rs)
            (λ r'. assume_rule (λ e. commit_live_checkpoint-Settles c r' (inl e) rs)))

  -- `completeRollbackValidation` settles the record.
  pub complete_rollback_validation-Settles :
      (r : TransactionRecord) → Settles p k r (complete_rollback_validation p r)
  unfolding complete_rollback_validation
  complete_rollback_validation-Settles r rs =
      seq p k rs r (internal_context-Keeps p k 0) (λ c. begin_completion-Settles r c rs)
