-- ===== src/Phase3/Durable/Store.antt =====
-- phase3/journal.ts: `createIntent` and `transition`, from the fresh histories to the record that
-- they append.
pub mod Extension
pub mod Refines
pub mod Regroup
pub mod Reread
pub mod Sound
pub mod Steps
use ha_mcp.Prelude.{
  ℕ, suc, ◌+◌, String, Bool, true, false, not, ◌&&◌, ◌||◌, Option, none, some, List, [], ◌∷◌, ltb,
  nat_beq, length, map_get, map_set, ◌++◌, if◌then◌else◌,
}
use ha_mcp.Prelude.Results.{Result, ok, err, ◌>>=◌, ◌>>◌, guard}
use ha_mcp.Phase3.States.{TransactionState, can_transition}
use ha_mcp.Phase3.Records.{TransactionRecord}
use ha_mcp.Phase3.Records.Schema.{
  Formats, is_none, transaction_record_is_valid, can_record_transition,
}
use ha_mcp.Phase3.Paths.{units}
use ha_mcp.Phase3.Names.{is_lowercase_uuid}
use ha_mcp.Phase3.Ports.{Patch}
use ha_mcp.Phase3.Journal.{starts_at_intent, next_record, flag_is_misplaced}
use ha_mcp.Phase3.Durable.Limits.{transactions, final_entries, pending_entries}
use ha_mcp.Phase3.Durable.Faults.{
  R, journal_error, journal_missing, journal_conflict, journal_cas_conflict, unhealthy, illegal,
}
use ha_mcp.Phase3.Durable.Histories.{
  Histories, count_entries, canonical_record_identity, latest, or_empty,
}
use ha_mcp.Phase3.Durable.Scan.{present}

-- `assertCapacity`; `pending` is what `readdir` then gives: the number of pending
-- names in the directory, or what it throws.
unfoldable pub assert_capacity : Bool → R ℕ → Histories → R (Unit {0})
assert_capacity new_transaction pending histories = do
  guard (not (new_transaction && not (ltb (length histories) transactions)))
      (unhealthy "Phase 3 journal transaction limit exceeded")
  guard (ltb (count_entries histories) final_entries)
      (unhealthy "Phase 3 journal final entry limit exceeded")
  count ← pending
  guard (ltb count pending_entries) (unhealthy "Phase 3 journal pending entry limit exceeded")

-- `createIntent` until it appends.
unfoldable pub plan_intent : Formats → R ℕ → TransactionRecord → Histories → R TransactionRecord
plan_intent formats pending r histories = do
  guard (transaction_record_is_valid formats r) (illegal "Phase 3 journal intent record is invalid")
  guard (starts_at_intent r) (illegal "Phase 3 journal intent must start at version 0")
  guard (canonical_record_identity r) (illegal "Phase 3 journal UUID identity is not canonical")
  assert_capacity true pending histories
  guard (is_none (latest r.transaction_id histories))
      (journal_error journal_conflict "Phase 3 transaction already exists")
  ok r

-- `transition` of the current record until it appends.
unfoldable pub plan_from :
    Formats
    → String
    → ℕ
    → TransactionState
    → Patch
    → R ℕ
    → Histories
    → TransactionRecord
    → R TransactionRecord
plan_from formats time expected_version state patch pending histories current = do
  guard (nat_beq current.version expected_version)
      (journal_error journal_cas_conflict "Phase 3 transaction version changed")
  guard (can_transition current.state state) (illegal "Phase 3 journal transition is illegal")
  guard (not (flag_is_misplaced patch state))
      (illegal "Phase 3 rollback reload flag transition is illegal")
  assert_capacity false pending histories
  let next = next_record time state patch current
  guard (transaction_record_is_valid formats next)
      (illegal "Phase 3 journal transition record is invalid")
  guard (can_record_transition current next)
      (illegal "Phase 3 journal transition context is illegal")
  ok next

-- `transition` until it appends.
unfoldable pub plan_transition :
    Formats → String → String → ℕ → TransactionState → Patch → R ℕ → Histories → R TransactionRecord
plan_transition formats time id expected_version state patch pending histories = do
  guard (is_lowercase_uuid (units id))
      (journal_error journal_missing "Phase 3 transaction is missing")
  current ←
      present (journal_error journal_missing "Phase 3 transaction is missing") (latest id histories)
  plan_from formats time expected_version state patch pending histories current

-- `cache`: the record joins its history.
unfoldable pub cache : TransactionRecord → Histories → Histories
cache r histories =
    map_set r.transaction_id (or_empty (map_get r.transaction_id histories) ++ (r ∷ [])) histories
