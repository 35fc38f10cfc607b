-- ===== src/Phase3/Journal.antt =====
-- phase3/applyCoordinator.ts: `InMemoryPhase3Journal`. Each operation returns the outcome and the
-- records after it; the time of `new Date()` is an argument.
pub mod Keeps
pub mod Sessions
use Prim.Native.String.{◌++◌ as text_append}
use ha_mcp.Prelude.{
  ℕ, ◌+◌, String, Bool, true, false, not, ◌&&◌, ◌||◌, Option, none, some, List, ◌∷◌, [], map_get,
  map_set, map_values, nat_beq, ◌==◌, ◌!=◌, string_eq, includes, if◌then◌else◌,
}
use ha_mcp.Phase3.States.{
  TransactionState, intent_prepared, apply_committed, post_validation_succeeded, reload_intent,
  reload_succeeded, verification_succeeded, rollback_intent, rollback_committed,
  rollback_validation_succeeded, rollback_reload_intent, rollback_reload_succeeded,
  rollback_verification_succeeded, manual_recovery_required, state_beq, state_eq, can_transition,
}
use ha_mcp.Phase3.Records.{StructuredFailure, TransactionRecord}
use ha_mcp.Phase3.Records.Schema.{
  Formats, is_none, transaction_record_is_valid, can_record_transition,
}
use ha_mcp.Phase3.Effects.{Outcome, done, thrown, new_coordinator_error}
use ha_mcp.Phase3.Ports.{Patch}

abbrev pub Journal : Type 0
Journal = List (String × TransactionRecord)

abbrev pub refuse : {A : Type 0} → String → String → Journal → Outcome A × Journal
refuse code message journal = (thrown (new_coordinator_error code message), journal)

-- What `createIntent` wants of a valid record.
unfoldable pub starts_at_intent : TransactionRecord → Bool
starts_at_intent r =
    state_beq r.state intent_prepared
    && nat_beq r.version 0
    && is_none r.prior_state
    && is_none r.failure
    && not r.rollback_reload_required
    && r.created_at == r.updated_at

-- `createIntent`.
unfoldable pub create_intent :
    Formats → TransactionRecord → Journal → Outcome TransactionRecord × Journal
unfolding starts_at_intent
create_intent formats r journal =
    if not (transaction_record_is_valid formats r)
    then refuse "journal_illegal_initial_state" "Transaction journal intent record is invalid"
        journal
    else if not (starts_at_intent r)
    then refuse "journal_illegal_initial_state"
        "Transaction journal must start at intent_prepared version 0" journal
    else if not (is_none (map_get r.transaction_id journal))
    then refuse "journal_conflict" "Transaction already exists" journal
    else (done r, map_set r.transaction_id r journal)

-- `Object.hasOwn(patch, "failure") ? patch.failure : current.failure`.
abbrev pub patched_failure :
    Option (Option StructuredFailure) → Option StructuredFailure → Option StructuredFailure
patched_failure none current = current
patched_failure (some failure) current = failure

abbrev pub is_flag_set : Option Bool → Bool
is_flag_set none = false
is_flag_set (some flag) = flag

-- The record that a transition writes.
unfoldable pub next_record :
    String → TransactionState → Patch → TransactionRecord → TransactionRecord
next_record time state patch current = record current {
  state = state;
  prior_state = some current.state;
  version = current.version + 1;
  updated_at = time;
  failure = patched_failure patch.failure current.failure;
  rollback_reload_required =
      current.rollback_reload_required || is_flag_set patch.rollback_reload_required;
}

-- The flag is given, and is not `true` or not with a rollback intent.
unfoldable pub flag_is_misplaced : Patch → TransactionState → Bool
flag_is_misplaced patch state =
    not (is_none patch.rollback_reload_required)
    && (not (is_flag_set patch.rollback_reload_required) || not (state_beq state rollback_intent))

-- The states as the source writes them.
abbrev pub state_name : TransactionState → String
state_name intent_prepared = "intent_prepared"
state_name apply_committed = "apply_committed"
state_name post_validation_succeeded = "post_validation_succeeded"
state_name reload_intent = "reload_intent"
state_name reload_succeeded = "reload_succeeded"
state_name verification_succeeded = "verification_succeeded"
state_name rollback_intent = "rollback_intent"
state_name rollback_committed = "rollback_committed"
state_name rollback_validation_succeeded = "rollback_validation_succeeded"
state_name rollback_reload_intent = "rollback_reload_intent"
state_name rollback_reload_succeeded = "rollback_reload_succeeded"
state_name rollback_verification_succeeded = "rollback_verification_succeeded"
state_name manual_recovery_required = "manual_recovery_required"

-- The message of a transition that is not legal.
unfoldable pub illegal_move : TransactionState → TransactionState → String
illegal_move from to =
    text_append "Illegal Phase 3A transition "
      (text_append (state_name from) (text_append " -> " (state_name to)))

-- `transition` of a record that is there.
unfoldable pub transition_from :
    Formats
    → String
    → String
    → ℕ
    → TransactionState
    → Patch
    → Journal
    → TransactionRecord
    → Outcome TransactionRecord × Journal
transition_from formats time id expected_version state patch journal current =
    if not (nat_beq current.version expected_version)
    then refuse "journal_cas_conflict" "Transaction version changed" journal
    else if not (can_transition current.state state)
    then refuse "journal_illegal_transition" (illegal_move current.state state) journal
    else if flag_is_misplaced patch state
    then refuse "journal_illegal_transition"
        "Rollback reload flag can only become true on rollback intent" journal
    else if not (transaction_record_is_valid formats (next_record time state patch current))
    then refuse "journal_illegal_transition" "Transaction reload context is illegal" journal
    else if not (can_record_transition current (next_record time state patch current))
    then refuse "journal_illegal_transition" "Transaction reload context is illegal" journal
    else (
      done (next_record time state patch current),
      map_set id (next_record time state patch current) journal,
    )

abbrev pub transition_found :
    Formats
    → String
    → String
    → ℕ
    → TransactionState
    → Patch
    → Journal
    → Option TransactionRecord
    → Outcome TransactionRecord × Journal
transition_found formats time id version state patch journal none =
    refuse "journal_missing" "Transaction is missing" journal
transition_found formats time id version state patch journal (some current) =
    transition_from formats time id version state patch journal current

-- `transition`.
unfoldable pub transition :
    Formats
    → String
    → String
    → ℕ
    → TransactionState
    → Patch
    → Journal
    → Outcome TransactionRecord × Journal
transition formats time id version state patch journal =
    transition_found formats time id version state patch journal (map_get id journal)

-- `load`.
unfoldable pub load_record : String → Journal → Option TransactionRecord
load_record id journal = map_get id journal

-- `phase3TransactionStates`, and those of them that have no terminal outcome.
abbrev non_terminal_states : List TransactionState
non_terminal_states =
    intent_prepared ∷ apply_committed ∷ post_validation_succeeded ∷ reload_intent ∷ reload_succeeded
    ∷ rollback_intent ∷ rollback_committed ∷ rollback_validation_succeeded ∷ rollback_reload_intent
    ∷ rollback_reload_succeeded ∷ []

unfoldable pub is_recoverable : TransactionState → Bool
is_recoverable state =
    includes non_terminal_states state
    || state_beq state verification_succeeded
    || state_beq state rollback_verification_succeeded
    || state_beq state manual_recovery_required

abbrev pub keep_recoverable : List TransactionRecord → List TransactionRecord
keep_recoverable [] = []
keep_recoverable (r ∷ rs) =
    if is_recoverable r.state then r ∷ keep_recoverable rs else keep_recoverable rs

-- `listRecoverable`.
unfoldable pub list_recoverable : Journal → List TransactionRecord
list_recoverable journal = keep_recoverable (map_values journal)
