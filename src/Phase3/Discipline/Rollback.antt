-- ===== src/Phase3/Discipline/Rollback.antt =====
-- phase3/applyCoordinator.ts: rollbacks, under the contract of the ports.
use ha_mcp.Prelude.{
  ℕ, ◌≡◌, ◌⊎◌, inl, inr, refl, sym, ap, ◌∙◌, true, false, not, ◌&&◌, ◌||◌, Option, none, some, List,
  ◌∷◌, ◌!=◌, string_eq, arith, eq_of_not_ne,
}
use ha_mcp.Phase3.States.{
  TransactionState, rollback_committed, rollback_validation_succeeded, rollback_reload_succeeded,
  rollback_verification_succeeded, state_beq, is_terminal,
}
use ha_mcp.Phase3.Records.{
  CommitStatus, ReloadTarget, before_commit, committed, commit_unknown, FailureStage,
  TransactionRecord,
}
use ha_mcp.Phase3.Records
use ha_mcp.Phase3.Records.Schema.{is_none}
use ha_mcp.Phase3.Effects.{Thrown, M, continue, pure}
use ha_mcp.Phase3.Effects.Triples.{
  Triple, bind_rule, pure_rule, throw_rule, attempt_rule, if_rule, frame_rule, assume_rule, weaken,
}
use ha_mcp.Phase3.Ports.{Ports, OperationContext, checkpoint_post_rollback}
use ha_mcp.Phase3.Ports
use ha_mcp.Phase3.Coordinator.Manual.{move}
use ha_mcp.Phase3.Coordinator.Rollback.{
  internal_context, assert_checkpoint_integrity, give_up, reload_rollback, complete_rollback_reload,
  complete_verification, complete_reload, complete_rollback_validation_with_checkpoint,
}
use ha_mcp.Phase3.Contract.{Contract, Holds, Keeps}
use ha_mcp.Phase3.Discipline.Manual.{
  Settled, Settles, drop_known, transition-Triple, manual-Settles,
}

-- The states from which the verification of a rollback may follow, and those that are settled.
abbrev pub IsVerifiable : TransactionRecord → Type 0
IsVerifiable r =
    ((r.state ≡ rollback_validation_succeeded) ⊎ (r.state ≡ rollback_reload_succeeded))
    ⊎ (is_terminal r.state ≡ true)

-- The states in which the checkpoint has been restored.
abbrev pub IsRestored : TransactionRecord → Type 0
IsRestored r = (r.state ≡ rollback_committed) ⊎ IsVerifiable r

module _ (p : Ports) (k : Contract p) where
  open k use {Inv, Known}

  pub give_up-Settles :
      (stage : FailureStage) (r : TransactionRecord) (e : Thrown)
      → Settles p k r (give_up p stage r e)
  unfolding give_up
  give_up-Settles stage r e = manual-Settles p k r _ _ _ none none

  pub internal_context-Keeps : (d : ℕ) → Keeps Inv Known (internal_context p d)
  unfolding internal_context
  internal_context-Keeps d rs =
      bind_rule (k.fresh_signal_kept rs) (λ s. bind_rule (k.date_now_kept rs) (λ t. pure_rule _))

  -- What follows a method that keeps what holds.
  pub seq :
      {A : Type 0} (rs : List TransactionRecord) (r : TransactionRecord) {m : M p.World A}
      {f : A → M p.World TransactionRecord}
      → Keeps Inv Known m
      → ((a : A)
          → Triple (Holds Inv Known (r ∷ rs)) (f a) (Settled p k rs) (λ _. Holds Inv Known rs))
      → Triple
          (Holds Inv Known (r ∷ rs))
          (λ w. continue f (m w))
          (Settled p k rs)
          (λ _. Holds Inv Known rs)
  seq rs r kept rest =
      bind_rule (weaken (kept (r ∷ rs)) (λ w h. h) (λ a w h. h) (λ e w h. drop_known p k rs r w h))
        rest

  reload_rollback-Triple :
      (r : TransactionRecord) (c : OperationContext) (target : Option ReloadTarget)
      (rs : List TransactionRecord)
      → r.state ≡ rollback_validation_succeeded
      → Triple
          (Holds Inv Known (r ∷ rs))
          (reload_rollback p r c target)
          (λ r' w. Holds Inv Known (r' ∷ rs) w × IsVerifiable r')
          (λ _. Holds Inv Known (r ∷ rs))
  unfolding reload_rollback move
  reload_rollback-Triple r c none rs e =
      weaken (pure_rule r) (λ w h. (h, inl (inl e))) (λ a w h. h) (λ x w h. h)
  reload_rollback-Triple r c (some target) rs e = bind_rule (k.moved (r ∷ rs) _ _ _ _) λ current.
      attempt_rule (frame_rule (λ at_intent. k.reloaded current target c (r ∷ rs) (inr at_intent)))
        (λ x.
          weaken (manual-Settles p k current _ _ _ none none (r ∷ rs)) (λ w h. h.0)
            (λ r' w h. ((h.0.0, (h.0.1.0, h.0.1.1.1)), inr h.1)) (λ x w h. h))
        (λ _.
          weaken (k.moved (current ∷ r ∷ rs) _ _ _ _) (λ w h. h.0)
            (λ r' w h. ((h.0.0, (h.0.1.0, h.0.1.1.1.1)), inl (inr h.1))) (λ x w h. (h.0, h.1.1)))

  pub settled :
      (r : TransactionRecord) (s : TransactionState) (rs : List TransactionRecord)
      → is_terminal s ≡ true
      → Triple
          (λ w. Holds Inv Known (r ∷ rs) w × (r.state ≡ s))
          (pure r)
          (Settled p k rs)
          (λ _. Holds Inv Known rs)
  settled r s rs e =
      assume_rule
        (λ h. weaken (pure_rule r) (λ w x. (x, ap is_terminal h ∙ e)) (λ a w x. x) (λ x w y. y))

  not_verifying :
      (r : TransactionRecord)
      → IsVerifiable r
      → (state_beq r.state rollback_validation_succeeded
          || state_beq r.state rollback_reload_succeeded)
        ≡ false
      → is_terminal r.state ≡ true
  not_verifying r v h = ground arith

  complete_verification-Settles :
      (c : OperationContext) (r : TransactionRecord)
      → IsVerifiable r
      → Settles p k r (complete_verification p c r)
  unfolding complete_verification move is_terminal
  complete_verification-Settles c r v rs =
      if_rule _
        (λ ready.
          attempt_rule
            (bind_rule (k.verify_kept r Ports.checkpoint c (r ∷ rs))
              (λ _. transition-Triple p k rs r _ _ _ _))
            (λ e. give_up-Settles Records.rollback r e rs)
            (λ r'. settled r' rollback_verification_succeeded rs refl))
        (λ other.
          weaken (pure_rule r) (λ w h. (h, not_verifying r v other)) (λ a w h. h) (λ e w h. h))

  at_reload :
      (r : TransactionRecord)
      → (state_beq r.state rollback_validation_succeeded
          && r.rollback_reload_required
          && not (is_none r.reload_target))
        ≡ true
      → r.state ≡ rollback_validation_succeeded
  at_reload r h = ground arith

  complete_reload-Settles :
      (c : OperationContext) (r : TransactionRecord)
      → IsVerifiable r
      → Settles p k r (complete_reload p c r)
  unfolding complete_reload complete_rollback_reload
  complete_reload-Settles c r v rs =
      if_rule _
        (λ needed.
          attempt_rule (reload_rollback-Triple r c r.reload_target rs (at_reload r needed))
            (λ e. give_up-Settles Records.rollback r e rs)
            (λ r'. assume_rule (λ v'. complete_verification-Settles c r' v' rs)))
        (λ other. complete_verification-Settles c r v rs)

  pub assert_checkpoint_integrity-Triple :
      (r : TransactionRecord) (b : p.Bytes) (rs : List TransactionRecord)
      → Triple
          (Holds Inv Known rs)
          (assert_checkpoint_integrity p r b)
          (λ _ w. Holds Inv Known rs w × (r.checkpoint_sha256 ≡ p.sha256 b))
          (λ _. Holds Inv Known rs)
  unfolding assert_checkpoint_integrity
  assert_checkpoint_integrity-Triple r b rs =
      if_rule (p.sha256 b != r.checkpoint_sha256) (λ differs. throw_rule _)
        (λ same.
          weaken (pure_rule tt) (λ w h. (h, sym (eq_of_not_ne _ _ same))) (λ a w h. h) (λ e w h. h))

  not_committed :
      (r : TransactionRecord)
      → IsRestored r
      → state_beq r.state rollback_committed ≡ false
      → IsVerifiable r
  not_committed r (inl e) h = absurd (ground arith)
  not_committed r (inr v) h = v

  -- From a restored checkpoint the rollback ends in a terminal state.
  pub complete_with_checkpoint-Settles :
      (r : TransactionRecord) (b : p.Bytes) (c : OperationContext)
      → IsRestored r
      → Settles p k r (complete_rollback_validation_with_checkpoint p r b c)
  unfolding complete_rollback_validation_with_checkpoint move
  complete_with_checkpoint-Settles r b c v rs =
      attempt_rule (assert_checkpoint_integrity-Triple r b (r ∷ rs))
        (λ e. give_up-Settles Records.rollback r e rs)
        λ _. assume_rule λ _.
          if_rule _
            (λ ready.
              attempt_rule
                (bind_rule (k.validate_kept b checkpoint_post_rollback c (r ∷ rs))
                  (λ _. transition-Triple p k rs r _ _ _ _))
                (λ e. give_up-Settles Records.rollback r e rs)
                (λ r'. assume_rule (λ e. complete_reload-Settles c r' (inl (inl e)) rs)))
            (λ other. complete_reload-Settles c r (not_committed r v other) rs)
