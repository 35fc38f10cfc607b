-- ===== src/Phase3/Durable/Histories.antt =====
-- phase3/journal.ts: `buildHistories`, from the records of the final entries.
pub mod Legal
pub mod Sound
use ha_mcp.Prelude.{
  ℕ, zero, suc, ◌+◌, String, Bool, true, false, not, ◌&&◌, ◌||◌, Option, none, some, List, [], ◌∷◌,
  ◌++◌, map_get, map_set, nat_beq, leb, bool_beq, ◌==◌, ◌!=◌, option_eq, length, if◌then◌else◌,
  every,
}
use ha_mcp.Prelude.Results.{Result, ok, err, ◌>>=◌, ◌>>◌, guard}
use ha_mcp.Phase3.States.{rollback_intent, state_beq, state_eq}
use ha_mcp.Phase3.Records.{TransactionRecord}
use ha_mcp.Phase3.Records.Schema.{can_record_transition, if_given}
use ha_mcp.Phase3.Paths.{units}
use ha_mcp.Phase3.Names.{is_lowercase_uuid}
use ha_mcp.Phase3.Coordinator.Manual.{same_transaction_identity}
use ha_mcp.Phase3.Journal.{starts_at_intent}
use ha_mcp.Phase3.Durable.Faults.{R, unhealthy}
use ha_mcp.Phase3.Durable.Limits.{transactions, history_per_transaction}

-- `canonicalRecordIdentity`.
unfoldable pub canonical_record_identity : TransactionRecord → Bool
canonical_record_identity r =
    is_lowercase_uuid (units r.transaction_id)
    && is_lowercase_uuid (units r.proposal_id)
    && is_lowercase_uuid (units r.checkpoint_id)
    && if_given (λ id. is_lowercase_uuid (units id)) r.approval_grant_id

-- `assertInitial`; `createIntent` makes the same tests.
unfoldable pub assert_initial : TransactionRecord → R (Unit {0})
assert_initial r =
    guard (starts_at_intent r) (unhealthy "Phase 3 journal initial record is illegal")

-- The flag is as before, or is raised by a rollback.
unfoldable pub flag_is_kept : TransactionRecord → TransactionRecord → Bool
flag_is_kept previous r =
    bool_beq r.rollback_reload_required previous.rollback_reload_required
    || (not previous.rollback_reload_required
        && r.rollback_reload_required
        && state_beq r.state rollback_intent)

unfoldable pub is_adjacent : TransactionRecord → TransactionRecord → Bool
is_adjacent previous r =
    nat_beq r.version (previous.version + 1)
    && r.prior_state == some previous.state
    && can_record_transition previous r

-- `assertSuccessor`. Its comparison of the immutable fields is that of the coordinator.
unfoldable pub assert_successor : TransactionRecord → TransactionRecord → R (Unit {0})
assert_successor previous r = do
  guard (same_transaction_identity previous r)
      (unhealthy "Phase 3 journal immutable identity changed")
  guard (flag_is_kept previous r)
      (unhealthy "Phase 3 journal rollback reload flag regressed or changed illegally")
  guard (is_adjacent previous r) (unhealthy "Phase 3 journal history adjacency is illegal")

-- The record at an index, after the one before it.
unfoldable pub assert_place : Option TransactionRecord → TransactionRecord → R (Unit {0})
assert_place none r = assert_initial r
assert_place (some previous) r = assert_successor previous r

-- The loop over the records of one transaction, from an index on.
unfoldable pub check_from : ℕ → Option TransactionRecord → List TransactionRecord → R (Unit {0})
check_from index previous [] = ok tt
check_from index previous (r ∷ rs) = do
  guard (nat_beq r.version index) (unhealthy "Phase 3 journal history has a version gap")
  assert_place previous r
  check_from (suc index) (some r) rs

-- `sort((left, right) => left.version - right.version)`, which is stable.
unfoldable pub insert_version : TransactionRecord → List TransactionRecord → List TransactionRecord
insert_version r [] = r ∷ []
insert_version r (x ∷ xs) =
    let later = x ∷ insert_version r xs in if leb x.version r.version then later else r ∷ x ∷ xs

unfoldable pub sort_from : List TransactionRecord → List TransactionRecord → List TransactionRecord
sort_from sorted [] = sorted
sort_from sorted (r ∷ rs) = sort_from (insert_version r sorted) rs

abbrev pub History : Type 0
History = List TransactionRecord

abbrev pub or_empty : Option History → History
or_empty none = []
or_empty (some rs) = rs

-- The first loop: the records by their transactions.
unfoldable pub group_from :
    List (String × History) → List TransactionRecord → R (List (String × History))
group_from groups [] = ok groups
group_from groups (r ∷ rs) = do
  guard (canonical_record_identity r) (unhealthy "Phase 3 journal UUID identity is not canonical")
  group_from
      (map_set r.transaction_id (or_empty (map_get r.transaction_id groups) ++ (r ∷ [])) groups) rs

-- The second loop: each history is sorted and checked.
unfoldable pub check_groups : List (String × History) → R (List (String × History))
check_groups [] = ok []
check_groups ((id, rs) ∷ groups) = do
  let sorted = sort_from [] rs
  guard (leb (length sorted) history_per_transaction)
      (unhealthy "Phase 3 journal history limit exceeded")
  check_from 0 none sorted
  checked ← check_groups groups
  ok ((id, sorted) ∷ checked)

-- `buildHistories`: the histories by their transactions.
unfoldable pub build_histories : List TransactionRecord → R (List (String × History))
build_histories finals = do
  groups ← group_from [] finals
  guard (leb (length groups) transactions) (unhealthy "Phase 3 journal transaction limit exceeded")
  check_groups groups

abbrev pub last_record : History → Option TransactionRecord
last_record [] = none
last_record (r ∷ []) = some r
last_record (r ∷ x ∷ xs) = last_record (x ∷ xs)

abbrev pub last_of : Option History → Option TransactionRecord
last_of none = none
last_of (some rs) = last_record rs

-- `latest.get`: the last record of a history.
unfoldable pub latest : String → List (String × History) → Option TransactionRecord
latest id histories = last_of (map_get id histories)

abbrev pub Histories : Type 0
Histories = List (String × History)

-- The final entries that the histories hold.
unfoldable pub count_entries : Histories → ℕ
count_entries [] = 0
count_entries ((id, rs) ∷ histories) = length rs + count_entries histories
