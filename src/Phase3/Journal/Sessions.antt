-- ===== src/Phase3/Journal/Sessions.antt =====
-- phase3/applyCoordinator.ts: the journal over a whole session.
use ha_mcp.Prelude.{
  ℕ, ◌≤◌, ◌≡◌, refl, sym, ◌∙◌, subst, String, true, some, [], ◌⊎◌, map_get, map_set,
  map_get-map_set, Option-cases, Bool-cases, inl, inr, arith, string_eq, ◌==◌, beq→eq,
}
use ha_mcp.Phase3.States.{TransactionState, intent_prepared, can_transition}
use ha_mcp.Phase3.States.Reach.{Run, here, Run-bounded, Run-snoc}
use ha_mcp.Phase3.Records.{TransactionRecord}
use ha_mcp.Phase3.Records.Schema.{Formats, transaction_record_is_valid}
use ha_mcp.Phase3.Ports.{Patch}
use ha_mcp.Phase3.Journal.{
  Journal, create_intent, next_record, transition_from, transition_found, transition,
}

-- A record of the journal: it stands under its own id, is valid, and its state is reached from the
-- intent by as many legal transitions as its version says.
pub record Entry (formats : Formats) (id : String) (r : TransactionRecord) : Type 0 where
  pub own_id : r.transaction_id ≡ id
  pub valid : transaction_record_is_valid formats r ≡ true
  pub history : Run r.version intent_prepared r.state

abbrev pub IsConsistent : Formats → Journal → Type 0
IsConsistent formats journal =
    (id : String) (r : TransactionRecord) → map_get id journal ≡ some r → Entry formats id r

-- A journal after any operations, accepted or refused, on an empty one.
pub data Session (formats : Formats) : Journal → Type 0 where
  empty : Session formats []
  created :
      {journal : Journal} (r : TransactionRecord)
      → Session formats journal
      → Session formats (create_intent formats r journal).1
  moved :
      {journal : Journal} (time id : String) (version : ℕ) (state : TransactionState)
      (patch : Patch)
      → Session formats journal
      → Session formats (transition formats time id version state patch journal).1

set-IsConsistent :
    (formats : Formats) (k : String) (v : TransactionRecord) (journal : Journal)
    → IsConsistent formats journal
    → Entry formats k v
    → IsConsistent formats (map_set k v journal)
set-IsConsistent formats k v journal h e id r found = elim (Bool-cases (k == id)) [
  | inl same ↦
      let got : map_get id (map_set k v journal) ≡ some v =
        map_get-map_set k id v journal ∙ rw same in
      let here : v ≡ r = cc (got, found) in
      subst (λ x. Entry formats id x) here (subst (λ x. Entry formats x v) (beq→eq k id same) e)
  | inr other ↦ h id r (sym (map_get-map_set k id v journal ∙ rw other) ∙ found)
]

create_intent-cases :
    (formats : Formats) (r : TransactionRecord) (journal : Journal)
    → ((create_intent formats r journal).1 ≡ journal)
      ⊎ (((create_intent formats r journal).1 ≡ map_set r.transaction_id r journal)
          × (transaction_record_is_valid formats r ≡ true)
          × (r.state ≡ intent_prepared)
          × (r.version ≡ 0))
unfolding create_intent
create_intent-cases formats r journal = ground arith

transition_from-cases :
    (formats : Formats) (time id : String) (version : ℕ) (state : TransactionState) (patch : Patch)
    (journal : Journal) (current : TransactionRecord)
    → let next = next_record time state patch current in
      let after = (transition_from formats time id version state patch journal current).1 in
      (after ≡ journal)
      ⊎ ((after ≡ map_set id next journal)
          × (transaction_record_is_valid formats next ≡ true)
          × (can_transition current.state state ≡ true))
unfolding transition_from
transition_from-cases formats time id version state patch journal current = ground arith

create_intent-IsConsistent :
    (formats : Formats) (r : TransactionRecord) (journal : Journal)
    → IsConsistent formats journal
    → IsConsistent formats (create_intent formats r journal).1
create_intent-IsConsistent formats r journal h = elim (create_intent-cases formats r journal) [
  | inl same ↦ subst (IsConsistent formats) (sym same) h
  | inr (stored, valid, at_intent, first) ↦ subst (IsConsistent formats) (sym stored) (
      set-IsConsistent formats r.transaction_id r journal h
        (record { own_id = refl; valid = valid; history = rw (at_intent, first) here }))
]

next_record-Entry :
    (formats : Formats) (time id : String) (state : TransactionState) (patch : Patch)
    (current : TransactionRecord)
    → Entry formats id current
    → transaction_record_is_valid formats (next_record time state patch current) ≡ true
    → can_transition current.state state ≡ true
    → Entry formats id (next_record time state patch current)
unfolding next_record
next_record-Entry formats time id state patch current e valid legal = record {
  own_id = e.own_id;
  valid = valid;
  history = subst (λ n. Run n intent_prepared state) (omega arith) (Run-snoc e.history legal);
}

transition-IsConsistent :
    (formats : Formats) (time id : String) (version : ℕ) (state : TransactionState) (patch : Patch)
    (journal : Journal)
    → IsConsistent formats journal
    → IsConsistent formats (transition formats time id version state patch journal).1
unfolding transition
transition-IsConsistent formats time id version state patch journal h =
    elim (Option-cases (map_get id journal)) [
      | inl missing ↦ rw (missing, transition_found) h
      | inr (current, found) ↦
          rw (found, transition_found)
            (elim (transition_from-cases formats time id version state patch journal current) [
              | inl same ↦ subst (IsConsistent formats) (sym same) h
              | inr (stored, valid, legal) ↦ subst (IsConsistent formats) (sym stored) (
                  set-IsConsistent formats id _ journal h (
                    next_record-Entry formats time id state patch current (h id current found) valid
                      legal))
            ])
    ]

nothing-IsConsistent : (formats : Formats) → IsConsistent formats []
unfolding map_get
nothing-IsConsistent formats id r found = cc

Session-IsConsistent :
    {formats : Formats} {journal : Journal} → Session formats journal → IsConsistent formats journal
Session-IsConsistent {formats} empty = nothing-IsConsistent formats
Session-IsConsistent {formats} (created {journal} r s) =
    create_intent-IsConsistent formats r journal (Session-IsConsistent s)
Session-IsConsistent {formats} (moved {journal} time id version state patch s) =
    transition-IsConsistent formats time id version state patch journal (Session-IsConsistent s)

-- Whatever operations a session makes on an empty journal, each record that it holds stands under
-- its own id, passes the schema, has a state that legal transitions from the intent reach in exactly
-- `version` steps, and a version of at most twelve.
pub Session-history :
    {formats : Formats} {journal : Journal} (s : Session formats journal) (id : String)
    (r : TransactionRecord)
    → map_get id journal ≡ some r
    → (r.transaction_id ≡ id)
      × (transaction_record_is_valid formats r ≡ true)
      × Run r.version intent_prepared r.state
      × (r.version ≤ 12)
Session-history s id r found =
    let e = Session-IsConsistent s id r found in
    (e.own_id, e.valid, e.history, Run-bounded e.history)
