-- ===== src/Phase3/States.antt =====
-- phase3/contracts.ts: the transaction states and their legal transitions.
pub mod Reach
use ha_mcp.Prelude.{
  ℕ, ◌≡◌, ◌↔◌, Bool, true, List, [], ◌∷◌, arith, Comparable, nat_beq, includes, ◌||◌,
}

pub data TransactionState : Type 0 where
  intent_prepared apply_committed post_validation_succeeded reload_intent reload_succeeded :
      TransactionState
  verification_succeeded rollback_intent rollback_committed : TransactionState
  rollback_validation_succeeded rollback_reload_intent rollback_reload_succeeded : TransactionState
  rollback_verification_succeeded manual_recovery_required : TransactionState

-- The position in `phase3TransactionStates`.
abbrev pub state_index : TransactionState → ℕ
state_index intent_prepared = 0
state_index apply_committed = 1
state_index post_validation_succeeded = 2
state_index reload_intent = 3
state_index reload_succeeded = 4
state_index verification_succeeded = 5
state_index rollback_intent = 6
state_index rollback_committed = 7
state_index rollback_validation_succeeded = 8
state_index rollback_reload_intent = 9
state_index rollback_reload_succeeded = 10
state_index rollback_verification_succeeded = 11
state_index manual_recovery_required = 12

abbrev pub state_beq : TransactionState → TransactionState → Bool
state_beq a b = nat_beq (state_index a) (state_index b)

pub state_beq_iff : (a b : TransactionState) → (state_beq a b ≡ true) ↔ (a ≡ b)
state_beq_iff a b = ground arith

instance abbrev pub state_eq : Comparable TransactionState
state_eq = record { same = state_beq; same_iff = state_beq_iff }

-- `phase3LegalTransitions`.
abbrev pub legal_transitions : TransactionState → List TransactionState
legal_transitions intent_prepared =
    apply_committed ∷ rollback_intent ∷ manual_recovery_required ∷ []
legal_transitions apply_committed =
    post_validation_succeeded ∷ rollback_intent ∷ manual_recovery_required ∷ []
legal_transitions post_validation_succeeded =
    reload_intent ∷ reload_succeeded ∷ rollback_intent ∷ manual_recovery_required ∷ []
legal_transitions reload_intent = reload_succeeded ∷ rollback_intent ∷ manual_recovery_required ∷ []
legal_transitions reload_succeeded =
    verification_succeeded ∷ rollback_intent ∷ manual_recovery_required ∷ []
legal_transitions verification_succeeded = []
legal_transitions rollback_intent = rollback_committed ∷ manual_recovery_required ∷ []
legal_transitions rollback_committed = rollback_validation_succeeded ∷ manual_recovery_required ∷ []
legal_transitions rollback_validation_succeeded =
    rollback_reload_intent ∷ rollback_verification_succeeded ∷ manual_recovery_required ∷ []
legal_transitions rollback_reload_intent = rollback_reload_succeeded ∷ manual_recovery_required ∷ []
legal_transitions rollback_reload_succeeded =
    rollback_verification_succeeded ∷ manual_recovery_required ∷ []
legal_transitions rollback_verification_succeeded = []
legal_transitions manual_recovery_required = []

-- `phase3CanTransition`.
unfoldable pub can_transition : TransactionState → TransactionState → Bool
can_transition from to = includes (legal_transitions from) to

-- `isTerminal` of the coordinator.
unfoldable pub is_terminal : TransactionState → Bool
is_terminal state =
    state_beq state verification_succeeded
    || state_beq state rollback_verification_succeeded
    || state_beq state manual_recovery_required
