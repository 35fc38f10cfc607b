-- ===== src/Phase3/Journal/Keeps.antt =====
-- phase3/applyCoordinator.ts: what the journal keeps.
use ha_mcp.Prelude.{
  ℕ, ◌+◌, ◌≡◌, ap, ◌∙◌, String, true, some, map_get, map_set, map_get-map_set, beq_refl,
  Option-cases, inl, inr, arith, string_eq,
}
use ha_mcp.Phase3.States.{TransactionState, can_transition}
use ha_mcp.Phase3.Records.{TransactionRecord}
use ha_mcp.Phase3.Records.Schema.{Formats}
use ha_mcp.Phase3.Effects.{Thrown, done, thrown, new_coordinator_error}
use ha_mcp.Phase3.Ports.{Patch}
use ha_mcp.Phase3.Journal.{Journal, next_record, transition_from, transition_found, transition}

-- What an accepted transition does.
pub record Accepted (id : String) (version : ℕ) (state : TransactionState) (before after : Journal)
    (r : TransactionRecord) : Type 0 where
  pub current : TransactionRecord
  pub found : map_get id before ≡ some current
  pub swapped : current.version ≡ version
  pub legal : can_transition current.state state ≡ true
  pub in_state : r.state ≡ state
  pub prior : r.prior_state ≡ some current.state
  pub counted : r.version ≡ current.version + 1
  pub same_id : r.transaction_id ≡ current.transaction_id
  pub same_plan :
      (r.path ≡ current.path)
      × (r.expected_sha256 ≡ current.expected_sha256)
      × (r.candidate_sha256 ≡ current.candidate_sha256)
      × (r.checkpoint_sha256 ≡ current.checkpoint_sha256)
      × (r.checkpoint_id ≡ current.checkpoint_id)
      × (r.approval_grant_id ≡ current.approval_grant_id)
      × (r.reload_target ≡ current.reload_target)
  pub stored : after ≡ map_set id r before

transition_from-Accepted :
    (formats : Formats) (time id : String) (version : ℕ) (state : TransactionState) (patch : Patch)
    (before after : Journal) (current r : TransactionRecord)
    → map_get id before ≡ some current
    → transition_from formats time id version state patch before current ≡ (done r, after)
    → Accepted id version state before after r
unfolding transition_from next_record
transition_from-Accepted formats time id version state patch before after current r found e =
    record {
      current = current;
      found = found;
      swapped = ground arith;
      legal = ground arith;
      in_state = ground arith;
      prior = ground arith;
      counted = ground arith;
      same_id = ground arith;
      same_plan = ground arith;
      stored = ground arith;
    }

-- An accepted transition found the record at the expected version in a state from which the new one
-- is legal. It stores the record in the new state, with the old one as its prior state, the next
-- version, and the identity that it had; nothing else changes.
pub transition-Accepted :
    (formats : Formats) (time id : String) (version : ℕ) (state : TransactionState) (patch : Patch)
    (before after : Journal) (r : TransactionRecord)
    → transition formats time id version state patch before ≡ (done r, after)
    → Accepted id version state before after r
unfolding transition
transition-Accepted formats time id version state patch before after r e =
    elim (Option-cases (map_get id before)) [
      | inl missing ↦ absurd (ground arith)
      | inr (current, found) ↦
          transition_from-Accepted formats time id version state patch before after current r found
            (rw (found, transition_found) at e)
    ]

-- A transition that throws leaves the journal as it was.
pub transition-unchanged :
    (formats : Formats) (time id : String) (version : ℕ) (state : TransactionState) (patch : Patch)
    (before after : Journal) (x : Thrown)
    → transition formats time id version state patch before ≡ (thrown x, after)
    → after ≡ before
unfolding transition transition_from
transition-unchanged formats time id version state patch before after x e = ground arith

stored_lookup :
    (id : String) (before after : Journal) (r : TransactionRecord)
    → after ≡ map_set id r before
    → map_get id after ≡ some r
stored_lookup id before after r e =
    ap (map_get id) e ∙ map_get-map_set id id r before ∙ rw (beq_refl id)

lost_update_of :
    (formats : Formats) (id : String) (version : ℕ) (journal : Journal) (r : TransactionRecord)
    → map_get id journal ≡ some r
    → r.version ≡ version + 1
    → (time : String) (state : TransactionState) (patch : Patch)
    → transition formats time id version state patch journal ≡ (
      thrown (new_coordinator_error "journal_cas_conflict" "Transaction version changed"),
      journal,
    )
unfolding transition transition_from
lost_update_of formats id version journal r found newer time state patch = ground arith

-- Once a transition has moved a record on, another one that expects the old version is refused: of
-- two writers that read the same version only the first is accepted.
pub transition-lost_update :
    (formats : Formats) (time id : String) (version : ℕ) (state : TransactionState) (patch : Patch)
    (before after : Journal) (r : TransactionRecord)
    → transition formats time id version state patch before ≡ (done r, after)
    → (time' : String) (state' : TransactionState) (patch' : Patch)
    → transition formats time' id version state' patch' after
      ≡ (thrown (new_coordinator_error "journal_cas_conflict" "Transaction version changed"), after)
transition-lost_update formats time id version state patch before after r e time' state' patch' =
    let a = transition-Accepted formats time id version state patch before after r e in
    lost_update_of formats id version after r (stored_lookup id before after r a.stored)
      (a.counted ∙ ap (λ n. n + 1) a.swapped) time' state' patch'
