-- ===== src/Phase3/States/Reach.antt =====
-- phase3/contracts.ts: what the transition table allows over whole runs.
use ha_mcp.Prelude.{ℕ, suc, ◌+◌, ◌≤◌, ◌<◌, ◌≡◌, ◌≢◌, ◌↔◌, true, false, arith}
use ha_mcp.Phase3.States.{
  TransactionState, verification_succeeded, rollback_intent, manual_recovery_required, state_index,
  can_transition, is_terminal,
}

-- A run of `n` accepted transitions.
pub data Run : ℕ → TransactionState → TransactionState → Type 0 where
  here : {s : TransactionState} → Run 0 s s
  step :
      {n : ℕ} {s t u : TransactionState} → can_transition s t ≡ true → Run n t u → Run (suc n) s u

pub Run-snoc :
    {n : ℕ} {s t u : TransactionState} → Run n s t → can_transition t u ≡ true → Run (suc n) s u
Run-snoc here h = step h here
Run-snoc (step g r) h = step g (Run-snoc r h)

can_transition-index :
    (s t : TransactionState) → can_transition s t ≡ true → state_index s < state_index t
unfolding can_transition
can_transition-index s t h = ground arith

pub Run-index : {n : ℕ} {s t : TransactionState} → Run n s t → n + state_index s ≤ state_index t
Run-index here = omega arith
Run-index (step {n} {s} {t} {u} h r) = omega (arith, can_transition-index s t h, Run-index r)

state_index_bound : (s : TransactionState) → state_index s ≤ 12
state_index_bound s = ground arith

-- No run makes more than twelve transitions.
pub Run-bounded : {n : ℕ} {s t : TransactionState} → Run n s t → n ≤ 12
Run-bounded {t} r = omega (arith, Run-index r, state_index_bound t)

-- A state is terminal exactly when no transition leaves it.
pub is_terminal_iff :
    (s : TransactionState)
    → (is_terminal s ≡ true) ↔ ((t : TransactionState) → can_transition s t ≡ false)
unfolding is_terminal can_transition
is_terminal_iff s =
    (λ h t. ground arith, λ none_leaves. ground (arith, none_leaves manual_recovery_required))

-- A run that has passed through `rollback_intent` never ends in `verification_succeeded`.
pub Run-rollback_ne_verified :
    {n : ℕ} {t : TransactionState} → Run n rollback_intent t → t ≢ verification_succeeded
Run-rollback_ne_verified {t} r e =
    let bound : state_index t ≤ 5 = rw e (omega arith) in omega (arith, Run-index r)
