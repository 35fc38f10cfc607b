-- ===== src/Phase3/Tests/Journal.antt =====
-- The journal on concrete records.
use ha_mcp.Prelude.{◌≤◌, ◌≡◌, refl, String, true, none, some, [], ◌∷◌, map_get, map_set}
use ha_mcp.Phase3.States.{
  intent_prepared, apply_committed, post_validation_succeeded, reload_succeeded, can_transition,
}
use ha_mcp.Phase3.States.Reach.{Run}
use ha_mcp.Phase3.Records.{TransactionRecord}
use ha_mcp.Phase3.Records.Schema.{
  reload_target_is_bound, reload_context_is_legal, failure_is_valid, transaction_record_is_valid,
  can_record_transition,
}
use ha_mcp.Phase3.Paths.{
  is_sha256, split_from, split, segment_ok, unit_ok, starts_with_slash, is_canonical_path,
}
use ha_mcp.Phase3.Effects.{Thrown, done, thrown, new_coordinator_error}
use ha_mcp.Phase3.Ports.{no_patch}
use ha_mcp.Phase3.Journal.{
  Journal, starts_at_intent, create_intent, next_record, flag_is_misplaced, illegal_move,
  transition_from, transition,
}
use ha_mcp.Phase3.Journal.Keeps.{transition-lost_update}
use ha_mcp.Phase3.Journal.Sessions.{Session, empty, created, moved, Session-history}
use ha_mcp.Phase3.Tests.Sim.{formats}
use ha_mcp.Phase3.Tests.Workflow.{verified}

abbrev time : String
time = "2026-01-01T00:00:00Z"

abbrev intent : TransactionRecord
intent = record verified { state = intent_prepared; prior_state = none; version = 0 }

abbrev one_record : Journal
one_record = ("transaction", intent) ∷ []

abbrev next : TransactionRecord
next = record verified { state = apply_committed; prior_state = some intent_prepared; version = 1 }

abbrev next_journal : Journal
next_journal = ("transaction", next) ∷ []

accepted_run :
    transition formats time "transaction" 0 apply_committed no_patch one_record
    ≡ (done next, next_journal)
unfolding map_get map_set is_sha256 split_from split segment_ok unit_ok starts_with_slash
    is_canonical_path reload_target_is_bound reload_context_is_legal failure_is_valid
    transaction_record_is_valid can_record_transition can_transition starts_at_intent create_intent
    next_record flag_is_misplaced transition_from transition
accepted_run = refl

transition-lost_update_example :
    transition formats time "transaction" 0 post_validation_succeeded no_patch next_journal ≡ (
      thrown (new_coordinator_error "journal_cas_conflict" "Transaction version changed"),
      next_journal,
    )
transition-lost_update_example =
    transition-lost_update formats time "transaction" 0 apply_committed no_patch one_record
      next_journal next accepted_run time post_validation_succeeded no_patch

abbrev illegal : Thrown
illegal =
    new_coordinator_error "journal_illegal_transition"
      "Illegal Phase 3A transition intent_prepared -> reload_succeeded"

refused_run :
    transition formats time "transaction" 0 reload_succeeded no_patch one_record
    ≡ (thrown illegal, one_record)
unfolding map_get map_set is_sha256 split_from split segment_ok unit_ok starts_with_slash
    is_canonical_path reload_target_is_bound reload_context_is_legal failure_is_valid
    transaction_record_is_valid can_record_transition can_transition starts_at_intent create_intent
    next_record flag_is_misplaced illegal_move transition_from transition
refused_run = refl

abbrev first_session : Journal
first_session = (create_intent formats intent []).1

abbrev second_session : Journal
second_session = (transition formats time "transaction" 0 apply_committed no_patch first_session).1

session : Session formats second_session
session = moved time "transaction" 0 apply_committed no_patch (created intent empty)

session_holds : map_get "transaction" second_session ≡ some next
unfolding map_get map_set is_sha256 split_from split segment_ok unit_ok starts_with_slash
    is_canonical_path reload_target_is_bound reload_context_is_legal failure_is_valid
    transaction_record_is_valid can_record_transition can_transition starts_at_intent create_intent
    next_record flag_is_misplaced transition_from transition
session_holds = refl

Session-history_example :
    (next.transaction_id ≡ "transaction")
    × (transaction_record_is_valid formats next ≡ true)
    × Run next.version intent_prepared next.state
    × (next.version ≤ 12)
Session-history_example = Session-history session "transaction" next session_holds
