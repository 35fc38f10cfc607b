-- ===== src/Phase3/Discipline/Commit.antt =====
-- phase3/applyCoordinator.ts: `applyCandidate` and `finishPostCommit`.
use ha_mcp.Prelude.{ℕ, String, ◌≡◌, refl, inl, not, ◌||◌, Option, none, some, List, ◌∷◌}
use ha_mcp.Phase3.States.{TransactionState, intent_prepared, verification_succeeded, is_terminal}
use ha_mcp.Phase3.Records.{
  CommitStatus, before_commit, committed, commit_unknown, ReloadTarget, TransactionRecord,
}
use ha_mcp.Phase3.Effects.{Thrown, M, continue}
use ha_mcp.Phase3.Effects.Triples.{
  Triple, bind_rule, pure_rule, attempt_rule, if_rule, assume_rule, weaken,
}
use ha_mcp.Phase3.Faults.{commit_status}
use ha_mcp.Phase3.Ports.{Ports, OperationContext, Patch, candidate_post_apply}
use ha_mcp.Phase3.Ports
use ha_mcp.Phase3.Coordinator.Manual.{move}
use ha_mcp.Phase3.Coordinator.Rollback.{digest_is}
use ha_mcp.Phase3.Coordinator.Commit.{
  record_commit, settle_as_checkpoint, settle_digest, settle_unknown_commit, after_replace,
  after_replace_error, apply_candidate, finish_verification, reload_candidate, finish_reload,
  finish_post_commit, commit,
}
use ha_mcp.Phase3.Contract.{Contract, Holds, Keeps}
use ha_mcp.Phase3.Discipline.Manual.{
  Settles, drop_known, throw_holds, transition-Triple, new_failure-Keeps, manual-Settles,
}
use ha_mcp.Phase3.Discipline.Rollback.{internal_context-Keeps, seq, settled}
use ha_mcp.Phase3.Discipline.Restore.{
  rollback_after_commit-Settles, complete_rollback_validation-Settles,
}

module _ (p : Ports) (k : Contract p) where
  open k use {Inv, Known}

  finish_verification-Settles :
      (c : OperationContext) (r : TransactionRecord) → Settles p k r (finish_verification p c r)
  unfolding finish_verification move is_terminal
  finish_verification-Settles c r rs =
      attempt_rule (transition-Triple p k rs r _ _ _ _)
        (λ e. rollback_after_commit-Settles p k r e rs)
        λ r'. assume_rule λ _.
          attempt_rule
            (bind_rule (k.verify_kept r' Ports.candidate c (r' ∷ rs))
              (λ _. transition-Triple p k rs r' _ _ _ _))
            (λ e. rollback_after_commit-Settles p k r' e rs)
            (λ r''. settled p k r'' verification_succeeded rs refl)

  reload_candidate-Settles :
      (c : OperationContext) (r : TransactionRecord) (target : Option ReloadTarget)
      → Settles p k r (reload_candidate p c r target)
  unfolding reload_candidate move
  reload_candidate-Settles c r none rs = finish_verification-Settles c r rs
  reload_candidate-Settles c r (some target) rs =
      attempt_rule (transition-Triple p k rs r _ _ _ _)
        (λ e. rollback_after_commit-Settles p k r e rs)
        λ r'. assume_rule λ at_intent.
          attempt_rule (k.reloaded r' target c rs (inl at_intent))
            (λ e. rollback_after_commit-Settles p k r' e rs)
            (λ _. finish_verification-Settles c r' rs)

  -- `finishPostCommit` settles the record.
  finish_post_commit-Settles :
      (r : TransactionRecord) (b : p.Bytes) (c : OperationContext)
      → Settles p k r (finish_post_commit p r b c)
  unfolding finish_post_commit finish_reload move
  finish_post_commit-Settles r b c rs =
      if_rule (is_terminal r.state)
        (λ e. weaken (pure_rule r) (λ w h. (h, e)) (λ a w h. h) (λ x w h. h))
        (λ live. seq p k rs r (internal_context-Keeps p k c.deadline_at) λ c'.
          attempt_rule
            (bind_rule (k.validate_kept b candidate_post_apply c' (r ∷ rs))
              (λ _. transition-Triple p k rs r _ _ _ _))
            (λ e. rollback_after_commit-Settles p k r e rs)
            (λ r'. assume_rule (λ _. reload_candidate-Settles c' r' r'.reload_target rs)))

  -- From a durable `r` the method returns a durable record, or throws.
  abbrev Advances : TransactionRecord → M p.World TransactionRecord → Type 0
  Advances r m =
      (rs : List TransactionRecord)
      → Triple (Holds Inv Known (r ∷ rs)) m (λ r' w. Holds Inv Known (r' ∷ rs) w)
          (λ _. Holds Inv Known rs)

  settles→advances :
      (r : TransactionRecord) {m : M p.World TransactionRecord} → Settles p k r m → Advances r m
  settles→advances r s rs = weaken (s rs) (λ w h. h) (λ r' w h. h.0) (λ e w h. h)

  move-Advances :
      (r : TransactionRecord) (id : String) (version : ℕ) (s : TransactionState) (patch : Patch)
      → Advances r (p.transition id version s patch)
  move-Advances r id version s patch rs =
      weaken (transition-Triple p k rs r id version s patch) (λ w h. h) (λ r' w h. h.0)
        (λ e w h. drop_known p k rs r w h)

  after_failure :
      (r : TransactionRecord) (rs : List TransactionRecord) {A : Type 0}
      {Q : TransactionRecord → p.World → Type 0} (m : M p.World A)
      (f : A → M p.World TransactionRecord)
      → Keeps Inv Known m
      → ((a : A) → Triple (Holds Inv Known (r ∷ rs)) (f a) Q (λ _. Holds Inv Known rs))
      → Triple (Holds Inv Known (r ∷ rs)) (λ w. continue f (m w)) Q (λ _. Holds Inv Known rs)
  after_failure r rs m f kept rest =
      bind_rule (weaken (kept (r ∷ rs)) (λ w h. h) (λ a w h. h) (λ e w h. drop_known p k rs r w h))
        rest

  record_commit-Advances :
      (r : TransactionRecord) (s : CommitStatus) → Advances r (record_commit p r s)
  unfolding record_commit move
  record_commit-Advances r commit_unknown rs =
      after_failure r rs _ _ (new_failure-Keeps p k _ _ _ _ _) (λ f. move-Advances r _ _ _ _ rs)
  record_commit-Advances r _ rs = move-Advances r _ _ _ _ rs

  settle_as_checkpoint-Settles :
      (r : TransactionRecord) (digest : Option String)
      → Settles p k r (settle_as_checkpoint p r digest)
  unfolding settle_as_checkpoint
  settle_as_checkpoint-Settles r digest rs = seq p k rs r (new_failure-Keeps p k _ _ _ _ _) λ f.
      bind_rule (move-Advances r _ _ _ _ rs) (λ r'. complete_rollback_validation-Settles p k r' rs)

  settle_digest-Advances :
      (r : TransactionRecord) (digest : Option String) → Advances r (settle_digest p r digest)
  unfolding settle_digest
  settle_digest-Advances r digest rs =
      if_rule (digest_is digest r.checkpoint_sha256 || digest_is digest r.expected_sha256)
        (λ live. settles→advances r (settle_as_checkpoint-Settles r digest) rs)
        (λ other.
          if_rule (not (digest_is digest r.candidate_sha256))
            (λ drifted. settles→advances r (manual-Settles p k r _ _ _ _ digest) rs)
            (λ candidate. record_commit-Advances r commit_unknown rs))

  after_replace-Advances :
      (r : TransactionRecord) (s : CommitStatus) → Advances r (after_replace p r s)
  unfolding after_replace settle_unknown_commit
  after_replace-Advances r before_commit rs = throw_holds p k rs r _ _
  after_replace-Advances r committed rs = record_commit-Advances r committed rs
  after_replace-Advances r commit_unknown rs =
      after_failure r rs _ _ (k.read_digest_kept r.path)
        (λ digest. settle_digest-Advances r digest rs)

  after_replace_error-Advances :
      (r : TransactionRecord) (e : Thrown) (s : CommitStatus)
      → Advances r (after_replace_error p r e s)
  after_replace_error-Advances r e before_commit rs = throw_holds p k rs r e _
  after_replace_error-Advances r e committed rs = after_replace-Advances r committed rs
  after_replace_error-Advances r e commit_unknown rs = after_replace-Advances r commit_unknown rs

  -- From a durable intent for these bytes, the commit settles the transaction, or throws.
  pub commit-Settles :
      (r : TransactionRecord) (b : p.Bytes) (c : OperationContext)
      → r.state ≡ intent_prepared
      → r.candidate_sha256 ≡ p.sha256 b
      → Settles p k r (commit p r b c)
  unfolding commit apply_candidate
  commit-Settles r b c at_intent same rs =
      bind_rule
        (attempt_rule (k.applied r b c rs at_intent same)
          (λ e. after_replace_error-Advances r e (commit_status e) rs)
          (λ s. after_replace-Advances r s rs))
        (λ r'. finish_post_commit-Settles r' b c rs)
