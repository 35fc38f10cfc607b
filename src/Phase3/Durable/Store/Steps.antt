-- ===== src/Phase3/Durable/Store/Steps.antt =====
-- phase3/journal.ts: how the record that `transition` writes follows the current one.
use ha_mcp.Prelude.{
  ℕ, suc, ◌≤◌, String, true, none, some, [], ◌∷◌, ◌++◌, ◌≡◌, refl, subst, arith, string_eq,
  option_eq, inl, inr, Option-cases, every, beq_refl, beq→eq, map_get,
}
use ha_mcp.Prelude.Results.{ok}
use ha_mcp.Phase3.States.{TransactionState, state_eq}
use ha_mcp.Phase3.Records.{TransactionRecord, impact_eq, target_eq}
use ha_mcp.Phase3.Records.Schema.{Formats, can_record_transition, transaction_record_is_valid}
use ha_mcp.Phase3.Ports.{Patch}
use ha_mcp.Phase3.Journal.{next_record}
use ha_mcp.Phase3.Coordinator.Manual.{same_transaction_identity}
use ha_mcp.Phase3.Durable.Faults.{R}
use ha_mcp.Phase3.Durable.Limits.{final_entries}
use ha_mcp.Phase3.Durable.Histories.{
  canonical_record_identity, History, Histories, last_record, latest, or_empty, count_entries,
  assert_place, assert_successor, flag_is_kept, is_adjacent,
}
use ha_mcp.Phase3.Durable.Histories.Legal.{last_from}
use ha_mcp.Phase3.Durable.Histories.Sound.{is_of}
use ha_mcp.Phase3.Durable.Store.{assert_capacity, plan_from}

-- What `transition` has checked when it appends.
pub record Planned (formats : Formats) (time : String) (expected_version : ℕ)
    (state : TransactionState) (patch : Patch) (histories : Histories)
    (current next : TransactionRecord) : Type 0 where
  pub is_next : next ≡ next_record time state patch current
  pub swapped : current.version ≡ expected_version
  pub follows : can_record_transition current next ≡ true
  pub valid : transaction_record_is_valid formats next ≡ true
  pub room : suc (count_entries histories) ≤ final_entries

pub plan_from-Planned :
    (formats : Formats) (time : String) (version : ℕ) (state : TransactionState) (patch : Patch)
    (pending : R ℕ) (histories : Histories) (current next : TransactionRecord)
    → plan_from formats time version state patch pending histories current ≡ ok next
    → Planned formats time version state patch histories current next
unfolding plan_from assert_capacity
plan_from-Planned formats time version state patch pending histories current next h = record {
  is_next = ground arith;
  swapped = ground arith;
  follows = ground arith;
  valid = ground arith;
  room = ground arith;
}

pub next_record-same :
    (time : String) (state : TransactionState) (patch : Patch) (current : TransactionRecord)
    → same_transaction_identity current (next_record time state patch current) ≡ true
unfolding same_transaction_identity next_record
next_record-same time state patch current = ground (
  arith,
  beq_refl current.transaction_id,
  beq_refl current.proposal_id,
  beq_refl current.approval_grant_id,
  beq_refl current.proposal_storage_sha256,
  beq_refl current.path,
  beq_refl current.expected_sha256,
  beq_refl current.candidate_sha256,
  beq_refl current.diff_sha256,
  beq_refl current.checkpoint_id,
  beq_refl current.checkpoint_sha256,
  beq_refl current.impact,
  beq_refl current.reload_target,
  beq_refl current.created_at,
)

pub assert_place-next_record :
    (time : String) (state : TransactionState) (patch : Patch) (current : TransactionRecord)
    → can_record_transition current (next_record time state patch current) ≡ true
    → assert_place (some current) (next_record time state patch current) ≡ ok tt
unfolding assert_place assert_successor is_adjacent flag_is_kept can_record_transition next_record
assert_place-next_record time state patch current legal =
    let same = next_record-same time state patch current in ground arith

pub last_from-last_record : (rs : History) → last_from none rs ≡ last_record rs
last_from-last_record [] = refl
last_from-last_record (r ∷ []) = refl
last_from-last_record (r ∷ x ∷ xs) = last_from-last_record (x ∷ xs)

pub latest-history :
    (id : String) (histories : Histories) (r : TransactionRecord)
    → latest id histories ≡ some r
    → (rs : History) × (map_get id histories ≡ some rs) × (last_record rs ≡ some r)
unfolding latest
latest-history id histories r h = elim (Option-cases (map_get id histories)) [
  | inl missing ↦ absurd (ground arith)
  | inr (rs, found) ↦ (rs, found, ground arith)
]

pub last_record-owned :
    (id : String) (rs : History) (r : TransactionRecord)
    → every (is_of id) rs ≡ true
    → last_record rs ≡ some r
    → (r.transaction_id ≡ id) × (canonical_record_identity r ≡ true)
last_record-owned id [] r own last = absurd (ground arith)
last_record-owned id (x ∷ []) r own last =
    let same : x ≡ r = ground arith in
    subst (λ y. (y.transaction_id ≡ id) × (canonical_record_identity y ≡ true)) same
      (beq→eq x.transaction_id id (ground arith), ground arith)
last_record-owned id (x ∷ y ∷ ys) r own last = last_record-owned id (y ∷ ys) r (ground arith) last

pub last_record-append :
    (rs : History) (r : TransactionRecord) → last_record (rs ++ (r ∷ [])) ≡ some r
last_record-append [] r = refl
last_record-append (x ∷ []) r = refl
last_record-append (x ∷ y ∷ ys) r = last_record-append (y ∷ ys) r

pub last_record-none : (rs : History) → last_record rs ≡ none → rs ≡ []
last_record-none [] h = refl
last_record-none (r ∷ []) h = absurd (ground arith)
last_record-none (r ∷ x ∷ xs) h = absurd (ground (arith, last_record-none (x ∷ xs) h))

pub no_history :
    (id : String) (histories : Histories)
    → latest id histories ≡ none
    → or_empty (map_get id histories) ≡ []
unfolding latest
no_history id histories h = elim (Option-cases (map_get id histories)) [
  | inl missing ↦ rw missing refl
  | inr (rs, found) ↦ rw found (last_record-none rs (ground arith))
]
