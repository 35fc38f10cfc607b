-- ===== src/Phase3/Tests/Durable.antt =====
-- The durable journal on a concrete directory.
use ha_mcp.Prelude.{
  ◌≡◌, ◌++◌, refl, String, Bool, true, false, List, none, some, [], ◌∷◌, arith, map_get, map_set,
}
use ha_mcp.Prelude.Results.{ok, err}
use ha_mcp.Phase3.States.{intent_prepared, apply_committed, reload_succeeded, can_transition}
use ha_mcp.Phase3.Records.{TransactionRecord}
use ha_mcp.Phase3.Records.Schema.{
  reload_target_is_bound, reload_context_is_legal, failure_is_valid, transaction_record_is_valid,
  can_record_transition,
}
use ha_mcp.Phase3.Paths.{
  is_sha256, split_from, split, segment_ok, unit_ok, starts_with_slash, is_canonical_path,
}
use ha_mcp.Phase3.Names.{fits, take_match, is_lowercase_uuid}
use ha_mcp.Phase3.Effects.{done}
use ha_mcp.Phase3.Ports.{no_patch}
use ha_mcp.Phase3.Journal.{Journal, starts_at_intent, next_record, flag_is_misplaced, transition}
use ha_mcp.Phase3.Durable.Faults.{R, Failure, illegal, platform, unhealthy}
use ha_mcp.Phase3.Durable.Histories.{
  Histories, canonical_record_identity, assert_initial, flag_is_kept, is_adjacent, assert_successor,
  assert_place, check_from, insert_version, sort_from, group_from, check_groups, build_histories,
  latest, count_entries,
}
use ha_mcp.Phase3.Durable.Histories.Sound.{IsSound, build_histories-IsSound}
use ha_mcp.Phase3.Durable.Append.{Calls, Entries}
use ha_mcp.Phase3.Durable.Store.{assert_capacity, plan_from, plan_transition, cache}
use ha_mcp.Phase3.Durable.Store.Refines.{Represents, plan_transition-refines}
use ha_mcp.Phase3.Durable.Store.Reread.{build_histories-plan_transition}
use ha_mcp.Phase3.Durable.Health.{Health, assert_healthy}
use ha_mcp.Phase3.Durable.Operations.{Durable, make_intent, make_transition, load}
use ha_mcp.Phase3.Durable.Operations.Unhealthy.{moving, loading, run, run-unhealthy}
use ha_mcp.Phase3.Durable.Operations.Sessions.{
  Session, empty, intended, moved, IsReadable, Session-IsReadable,
}
use ha_mcp.Phase3.Durable.Operations.Durability.{
  Settled, make_transition-Settled, make_transition-durable,
}
use ha_mcp.Phase3.Durable.Operations.Progress.{IsQuiet, make_transition-quiet}
use ha_mcp.Phase3.Tests.Sim.{formats}
use ha_mcp.Phase3.Tests.Workflow.{verified}

abbrev time : String
time = "2026-01-01T00:00:00Z"

abbrev pub uuid : String
uuid = "aaaaaaaa-aaaa-4aaa-8aaa-aaaaaaaaaaaa"

abbrev pub intent : TransactionRecord
intent = record verified {
  transaction_id = uuid;
  proposal_id = uuid;
  checkpoint_id = uuid;
  approval_grant_id = some uuid;
  state = intent_prepared;
  prior_state = none;
  version = 0;
}

abbrev next : TransactionRecord
next = record intent { state = apply_committed; prior_state = some intent_prepared; version = 1 }

abbrev pub one_entry : Entries
one_entry = intent ∷ []

abbrev pub one_history : Histories
one_history = (uuid, one_entry) ∷ []

abbrev quiet : Calls
quiet = record {
  scanned = none;
  counted = none;
  reserved = none;
  exists_first = ok false;
  opened = none;
  written = none;
  synced = none;
  looked_at = none;
  file_synced = none;
  closed = none;
  file_closed = none;
  pending_synced = none;
  entry_synced = none;
  identified = none;
  pre_link = none;
  exists_second = ok false;
  linked = none;
  post_link = none;
  root_synced = none;
  parent_synced = none;
  pending_removed = none;
  root_synced_again = none;
  cleaned = none;
  exists_last = ok false;
  refreshed = none;
  has_version = false;
  exists_still = ok false;
}

-- The directory cannot be synced after the link.
abbrev failing : Calls
failing = record quiet { root_synced = some platform }

reads_one : build_histories one_entry ≡ ok one_history
unfolding map_get map_set fits take_match is_lowercase_uuid canonical_record_identity assert_initial
    flag_is_kept is_adjacent assert_successor assert_place check_from insert_version sort_from
    group_from check_groups build_histories starts_at_intent
reads_one = refl

plans_next :
    plan_transition formats time uuid 0 apply_committed no_patch (ok 0) one_history ≡ ok next
unfolding map_get is_sha256 split_from split segment_ok unit_ok starts_with_slash is_canonical_path
    reload_target_is_bound reload_context_is_legal failure_is_valid transaction_record_is_valid
    can_record_transition can_transition next_record flag_is_misplaced fits take_match
    is_lowercase_uuid latest count_entries assert_capacity plan_from plan_transition
plans_next = refl

build_histories-plan_transition_example :
    build_histories (one_entry ++ (next ∷ [])) ≡ ok (cache next one_history)
build_histories-plan_transition_example =
    build_histories-plan_transition formats time uuid 0 apply_committed no_patch (ok 0) one_entry
      one_history next reads_one plans_next

one_history-IsSound : IsSound one_history
one_history-IsSound = (build_histories-IsSound one_entry one_history reads_one).0

abbrev in_memory : Journal
in_memory = (uuid, intent) ∷ []

one_history-Represents : Represents one_history in_memory
unfolding latest map_get
one_history-Represents id = ground arith

plan_transition-refines_example :
    (transition formats time uuid 0 apply_committed no_patch in_memory
      ≡ (done next, map_set uuid next in_memory))
    × Represents (cache next one_history) (map_set uuid next in_memory)
plan_transition-refines_example =
    plan_transition-refines formats time uuid 0 apply_committed no_patch (ok 0) one_history
      in_memory next one_history-IsSound one_history-Represents plans_next

abbrev not_legal : Failure
not_legal = illegal "Phase 3 journal transition is illegal"

refuses_skip :
    plan_transition formats time uuid 0 reload_succeeded no_patch (ok 0) one_history ≡ err not_legal
unfolding map_get is_sha256 split_from split segment_ok unit_ok starts_with_slash is_canonical_path
    reload_target_is_bound reload_context_is_legal failure_is_valid transaction_record_is_valid
    can_record_transition can_transition next_record flag_is_misplaced fits take_match
    is_lowercase_uuid latest count_entries assert_capacity plan_from plan_transition
refuses_skip = refl

abbrev pub healthy : Health
healthy = record { is_unhealthy = false; initialized = true; histories = [] }

abbrev pub one_journal : Durable
one_journal = record { health = healthy; store = record { entries = one_entry; pendings = 0 } }

is_healthy : assert_healthy healthy ≡ ok tt
unfolding assert_healthy
is_healthy = refl

make_transition-Settled_example :
    Settled failing one_journal.store
      (make_transition formats time uuid 0 apply_committed no_patch failing 900 one_journal).0
      (make_transition formats time uuid 0 apply_committed no_patch failing 900 one_journal).1.store
make_transition-Settled_example =
    make_transition-Settled formats time uuid 0 apply_committed no_patch failing 900 one_journal

quiet-IsQuiet : IsQuiet quiet
quiet-IsQuiet = record {
  scanned = refl;
  counted = refl;
  reserved = refl;
  exists_first = refl;
  opened = refl;
  written = refl;
  synced = refl;
  looked_at = refl;
  file_synced = refl;
  closed = refl;
  file_closed = refl;
  pending_synced = refl;
  entry_synced = refl;
  identified = refl;
  pre_link = refl;
  exists_second = refl;
  linked = refl;
  post_link = refl;
  root_synced = refl;
  parent_synced = refl;
  pending_removed = refl;
  root_synced_again = refl;
}

abbrev two_entries : Entries
two_entries = one_entry ++ (next ∷ [])

abbrev two_journal : Durable
two_journal = record {
  health = record healthy { histories = cache next one_history };
  store = record { entries = two_entries; pendings = 0 };
}

make_transition-quiet_example :
    make_transition formats time uuid 0 apply_committed no_patch quiet 900 one_journal
    ≡ (ok next, two_journal)
make_transition-quiet_example =
    make_transition-quiet formats time uuid 0 apply_committed no_patch quiet 900 one_journal
      one_history next is_healthy reads_one plans_next quiet-IsQuiet (omega arith)

make_run :
    make_transition formats time uuid 0 apply_committed no_patch quiet 900 one_journal
    ≡ (ok next, two_journal)
make_run =
    make_transition-quiet formats time uuid 0 apply_committed no_patch quiet 900 one_journal
      one_history next is_healthy reads_one plans_next quiet-IsQuiet (omega arith)

make_transition-durable_example :
    (two_entries ≡ one_entry ++ (next ∷ [])) × ((load quiet uuid two_journal).0 ≡ ok (some next))
make_transition-durable_example =
    make_transition-durable formats time uuid 0 apply_committed no_patch quiet quiet 900 one_journal
      two_journal next make_run refl

abbrev no_entries : Durable
no_entries = record { health = healthy; store = record { entries = []; pendings = 0 } }

abbrev first_session : Durable
first_session = (make_intent formats quiet 900 intent no_entries).1

abbrev second_session : Durable
second_session =
    (make_transition formats time uuid 0 apply_committed no_patch failing 900 first_session).1

session : Session formats second_session
session =
    moved time uuid 0 apply_committed no_patch failing 900
      (intended quiet 900 intent (empty healthy))

Session-IsReadable_example : IsReadable second_session.store.entries
Session-IsReadable_example = Session-IsReadable session

-- `readdir` fails in the scan.
abbrev unreadable : Calls
unreadable = record quiet { scanned = some platform }

abbrev is_before : String → String → Bool
is_before a b = true

abbrev loading_first : R (List TransactionRecord) × Durable
loading_first = run formats is_before unreadable (loading uuid) one_journal

run-unhealthy_example :
    run formats is_before quiet (moving time uuid 0 apply_committed no_patch 900) loading_first.1
    ≡ (err (unhealthy "Phase 3 journal is unhealthy"), loading_first.1)
run-unhealthy_example =
    run-unhealthy formats is_before unreadable quiet (loading uuid)
      (moving time uuid 0 apply_committed no_patch 900) one_journal platform refl
