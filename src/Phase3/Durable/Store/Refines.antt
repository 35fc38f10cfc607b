-- ===== src/Phase3/Durable/Store/Refines.antt =====
-- phase3/journal.ts against `InMemoryPhase3Journal` of phase3/applyCoordinator.ts: `transition`.
use ha_mcp.Prelude.{
  ℕ, String, Bool, true, false, some, [], ◌∷◌, ◌++◌, ◌≡◌, refl, sym, ◌∙◌, arith, ◌==◌, string_eq,
  if◌then◌else◌, inl, inr, Option-cases, Bool-cases, map_get, map_set, map_get-map_set,
}
use ha_mcp.Prelude.Results.{ok, err}
use ha_mcp.Phase3.States.{TransactionState}
use ha_mcp.Phase3.Records.{TransactionRecord}
use ha_mcp.Phase3.Records.Schema.{Formats}
use ha_mcp.Phase3.Effects.{Outcome, done, thrown}
use ha_mcp.Phase3.Ports.{Patch}
use ha_mcp.Phase3.Paths.{units}
use ha_mcp.Phase3.Names.{is_lowercase_uuid}
use ha_mcp.Phase3.Journal.{Journal, next_record, transition, transition_from}
use ha_mcp.Phase3.Durable.Faults.{R, Failure, journal_error, journal_unhealthy}
use ha_mcp.Phase3.Durable.Histories.{Histories, latest, or_empty}
use ha_mcp.Phase3.Durable.Histories.Sound.{IsSound}
use ha_mcp.Phase3.Durable.Store.Steps.{last_record-append}
use ha_mcp.Phase3.Durable.Store.Extension.{latest-Standing}
use ha_mcp.Phase3.Durable.Store.{assert_capacity, plan_from, plan_transition, cache}

-- The journal in memory holds the last record of each history.
abbrev pub Represents : Histories → Journal → Type 0
Represents histories journal = (id : String) → latest id histories ≡ map_get id journal

abbrev pub is_unhealthy : Failure → Bool
is_unhealthy (journal_error journal_unhealthy message) = true
is_unhealthy _ = false

abbrev pub has_thrown : {A : Type 0} → Outcome A → Bool
has_thrown (done a) = false
has_thrown (thrown e) = true

pub latest-cache :
    (id : String) (r : TransactionRecord) (histories : Histories)
    → latest id (cache r histories)
      ≡ (if r.transaction_id == id then some r else latest id histories)
unfolding latest cache
latest-cache id r histories =
    let history = or_empty (map_get r.transaction_id histories) ++ (r ∷ []) in
    elim (Bool-cases (r.transaction_id == id)) [
      | inl same ↦
          rw (map_get-map_set r.transaction_id id history histories, same)
            (last_record-append (or_empty (map_get r.transaction_id histories)) r)
      | inr other ↦ rw (map_get-map_set r.transaction_id id history histories, other) refl
    ]

cache-Represents :
    (id : String) (r : TransactionRecord) (histories : Histories) (journal : Journal)
    → Represents histories journal
    → r.transaction_id ≡ id
    → Represents (cache r histories) (map_set id r journal)
cache-Represents id r histories journal same own j = elim (Bool-cases (r.transaction_id == j)) [
  | inl here ↦
      latest-cache j r histories
      ∙ rw here (sym (map_get-map_set id j r journal ∙ rw (sym own, here) refl))
  | inr other ↦
      latest-cache j r histories
      ∙ rw other (same j ∙ sym (map_get-map_set id j r journal ∙ rw (sym own, other) refl))
]

transition_from-plan_from :
    (formats : Formats) (time id : String) (version : ℕ) (state : TransactionState) (patch : Patch)
    (pending : R ℕ) (histories : Histories) (journal : Journal) (current next : TransactionRecord)
    → plan_from formats time version state patch pending histories current ≡ ok next
    → (transition_from formats time id version state patch journal current
        ≡ (done next, map_set id next journal))
      × (next.transaction_id ≡ current.transaction_id)
unfolding plan_from transition_from assert_capacity next_record
transition_from-plan_from formats time id version state patch pending histories journal current next
      h =
    ground arith

transition_from-refused :
    (formats : Formats) (time id : String) (version : ℕ) (state : TransactionState) (patch : Patch)
    (pending : ℕ) (histories : Histories) (journal : Journal) (current : TransactionRecord)
    (e : Failure)
    → plan_from formats time version state patch (ok pending) histories current ≡ err e
    → is_unhealthy e ≡ false
    → let after = transition_from formats time id version state patch journal current in
      (has_thrown after.0 ≡ true) × (after.1 ≡ journal)
unfolding plan_from transition_from assert_capacity
transition_from-refused formats time id version state patch pending histories journal current e h
      healthy =
    ground arith

-- Where a journal in memory holds the last record of each sound history, a transition that the
-- durable journal appends is made by the journal in memory with the same record, and the two
-- still agree after it.
pub plan_transition-refines :
    (formats : Formats) (time id : String) (version : ℕ) (state : TransactionState) (patch : Patch)
    (pending : R ℕ) (histories : Histories) (journal : Journal) (next : TransactionRecord)
    → IsSound histories
    → Represents histories journal
    → plan_transition formats time id version state patch pending histories ≡ ok next
    → (transition formats time id version state patch journal
        ≡ (done next, map_set id next journal))
      × Represents (cache next histories) (map_set id next journal)
unfolding plan_transition transition
plan_transition-refines formats time id version state patch pending histories journal next sound
      same e =
    elim (Option-cases (latest id histories)) [
      | inl missing ↦ absurd (ground arith)
      | inr (current, found) ↦
          (let (made, kept) =
              transition_from-plan_from formats time id version state patch pending histories
                journal current next (ground arith) in
            let standing = latest-Standing id histories current sound found in
            (
              rw (sym (same id), found) made,
              cache-Represents id next histories journal same (kept ∙ standing.own),
            ))
    ]

-- Where a journal in memory holds the last record of each history, a transition that the durable
-- journal refuses, for a canonical id and not as unhealthy, is refused by the journal in memory
-- too, which is left as it was.
pub plan_transition-refused :
    (formats : Formats) (time id : String) (version : ℕ) (state : TransactionState) (patch : Patch)
    (pending : ℕ) (histories : Histories) (journal : Journal) (e : Failure)
    → Represents histories journal
    → is_lowercase_uuid (units id) ≡ true
    → plan_transition formats time id version state patch (ok pending) histories ≡ err e
    → is_unhealthy e ≡ false
    → (has_thrown (transition formats time id version state patch journal).0 ≡ true)
      × ((transition formats time id version state patch journal).1 ≡ journal)
unfolding plan_transition transition
plan_transition-refused formats time id version state patch pending histories journal e same
      canonical refused healthy =
    elim (Option-cases (latest id histories)) [
      | inl missing ↦ rw (sym (same id), missing) (refl, refl)
      | inr (current, found) ↦
          rw (sym (same id), found)
            (transition_from-refused formats time id version state patch pending histories journal
              current e (ground arith) healthy)
    ]
