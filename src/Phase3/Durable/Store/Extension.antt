-- ===== src/Phase3/Durable/Store/Extension.antt =====
-- phase3/journal.ts: the histories that the appended records end.
use ha_mcp.Prelude.{
  map_set-length, map_set-length_present, ℕ, suc, ◌≤◌, String, true, none, some, [], ◌∷◌, ◌++◌, ◌≡◌,
  refl, sym, ap, ◌∙◌, subst, arith, length, string_eq, option_eq, inl, inr, Option-cases, every,
  beq_refl, map_get, map_set, map_get-All,
}
use ha_mcp.Prelude.Results.{ok}
use ha_mcp.Phase3.States.{TransactionState, state_eq}
use ha_mcp.Phase3.Records.{TransactionRecord, impact_eq, target_eq}
use ha_mcp.Phase3.Records.Schema.{Formats, can_record_transition}
use ha_mcp.Phase3.Ports.{Patch}
use ha_mcp.Phase3.Journal.{next_record, starts_at_intent}
use ha_mcp.Phase3.Durable.Faults.{R}
use ha_mcp.Phase3.Durable.Limits.{transactions, final_entries}
use ha_mcp.Phase3.Durable.Histories.{
  canonical_record_identity, History, Histories, last_record, latest, check_from, or_empty,
  count_entries, assert_place, assert_initial,
}
use ha_mcp.Phase3.Durable.Histories.Legal.{Reached, check_from-last, check_from-append}
use ha_mcp.Phase3.Durable.Histories.Sound.{every-append, Legal, IsSound, is_of}
use ha_mcp.Phase3.Durable.Store.Steps.{
  Planned, plan_from-Planned, assert_place-next_record, last_from-last_record, last_record-owned,
  no_history, latest-history,
}
use ha_mcp.Phase3.Durable.Store.{assert_capacity, plan_intent, plan_transition}

append-Legal :
    (id : String) (rs : History) (r : TransactionRecord)
    → Legal (id, rs)
    → r.transaction_id ≡ id
    → canonical_record_identity r ≡ true
    → r.version ≡ length rs
    → assert_place (last_record rs) r ≡ ok tt
    → Legal (id, rs ++ (r ∷ []))
append-Legal id rs r legal own canonical at place = record {
  owned = every-append (is_of id) rs (r ∷ []) legal.owned (
      subst (λ i. every (is_of i) (r ∷ []) ≡ true) own
        (ground (arith, canonical, beq_refl r.transaction_id)));
  checked =
      check_from-append 0 none rs r legal.checked (omega (arith, at))
        (rw (last_from-last_record rs) place);
}

-- The last record of a sound history.
pub record Standing (id : String) (histories : Histories) (r : TransactionRecord) : Type 0 where
  pub rs : History
  pub found : map_get id histories ≡ some rs
  pub last : last_record rs ≡ some r
  pub own : r.transaction_id ≡ id
  pub canonical : canonical_record_identity r ≡ true
  pub reached : Reached r (length rs)
  pub legal : Legal (id, rs)

pub latest-Standing :
    (id : String) (histories : Histories) (r : TransactionRecord)
    → IsSound histories
    → latest id histories ≡ some r
    → Standing id histories r
latest-Standing id histories r sound h =
    let (rs, found, last) = latest-history id histories r h in
    let legal = map_get-All Legal id rs histories found sound.all_legal in
    let (own, canonical) = last_record-owned id rs r legal.owned last in
    record {
      rs = rs;
      found = found;
      last = last;
      own = own;
      canonical = canonical;
      reached = check_from-last rs r legal.checked last;
      legal = legal;
    }

-- A record that may join the histories, and the history that it then ends.
pub record Extension (id : String) (histories : Histories) (next : TransactionRecord) : Type 0 where
  pub rs : History
  pub before : or_empty (map_get id histories) ≡ rs
  pub own : next.transaction_id ≡ id
  pub canonical : canonical_record_identity next ≡ true
  pub at : next.version ≡ length rs
  pub legal : Legal (id, rs ++ (next ∷ []))
  pub few : length (map_set id (rs ++ (next ∷ [])) histories) ≤ transactions
  pub room : suc (count_entries histories) ≤ final_entries

next_record-canonical :
    (time : String) (state : TransactionState) (patch : Patch) (current : TransactionRecord)
    → canonical_record_identity current ≡ true
    → canonical_record_identity (next_record time state patch current) ≡ true
unfolding canonical_record_identity next_record
next_record-canonical time state patch current h = h

-- The record that `transition` appends.
Planned-Extension :
    (formats : Formats) (time id : String) (version : ℕ) (state : TransactionState) (patch : Patch)
    (histories : Histories) (current next : TransactionRecord)
    → IsSound histories
    → Standing id histories current
    → Planned formats time version state patch histories current next
    → Extension id histories next
unfolding next_record
Planned-Extension formats time id version state patch histories current next sound s planned =
    let own : next.transaction_id ≡ id = ap (λ x. x.transaction_id) planned.is_next ∙ s.own in
    let canonical =
      subst (λ x. canonical_record_identity x ≡ true) (sym planned.is_next)
        (next_record-canonical time state patch current s.canonical) in
    let at : next.version ≡ length s.rs =
      ap (λ x. x.version) planned.is_next ∙ omega (arith, s.reached.counted) in
    let placed =
      subst (λ x. assert_place (some current) x ≡ ok tt) (sym planned.is_next)
        (assert_place-next_record time state patch current
          (subst (λ x. can_record_transition current x ≡ true) planned.is_next planned.follows)) in
    record {
      rs = s.rs;
      before = rw s.found refl;
      own = own;
      canonical = canonical;
      at = at;
      legal = append-Legal id s.rs next s.legal own canonical at (rw s.last placed);
      few = omega (
        arith,
        sound.few,
        map_set-length_present id (s.rs ++ (next ∷ [])) s.rs histories s.found,
      );
      room = planned.room;
    }

pub plan_transition-Extension :
    (formats : Formats) (time id : String) (version : ℕ) (state : TransactionState) (patch : Patch)
    (pending : R ℕ) (histories : Histories) (next : TransactionRecord)
    → IsSound histories
    → plan_transition formats time id version state patch pending histories ≡ ok next
    → Extension id histories next
unfolding plan_transition
plan_transition-Extension formats time id version state patch pending histories next sound h =
    elim (Option-cases (latest id histories)) [
      | inl missing ↦ absurd (ground arith)
      | inr (current, found) ↦
          Planned-Extension formats time id version state patch histories current next sound
            (latest-Standing id histories current sound found)
            (plan_from-Planned formats time version state patch pending histories current next
              (ground arith))
    ]

-- What `createIntent` has checked when it appends.
record Begun (r next : TransactionRecord) (histories : Histories) : Type 0 where
  same : r ≡ next
  canonical : canonical_record_identity r ≡ true
  starts : starts_at_intent r ≡ true
  new : latest r.transaction_id histories ≡ none
  few : suc (length histories) ≤ transactions
  room : suc (count_entries histories) ≤ final_entries

plan_intent-Begun :
    (formats : Formats) (pending : R ℕ) (r next : TransactionRecord) (histories : Histories)
    → plan_intent formats pending r histories ≡ ok next
    → Begun r next histories
unfolding plan_intent assert_capacity
plan_intent-Begun formats pending r next histories h = record {
  same = ground arith;
  canonical = ground arith;
  starts = ground arith;
  new = ground arith;
  few = ground arith;
  room = ground arith;
}

begun-Legal :
    (r : TransactionRecord)
    → starts_at_intent r ≡ true
    → canonical_record_identity r ≡ true
    → Legal (r.transaction_id, r ∷ [])
unfolding check_from assert_place assert_initial starts_at_intent
begun-Legal r h canonical = record {
  owned = ground (arith, canonical, beq_refl r.transaction_id);
  checked = ground arith;
}

-- The record that `createIntent` appends.
pub plan_intent-Extension :
    (formats : Formats) (pending : R ℕ) (r next : TransactionRecord) (histories : Histories)
    → IsSound histories
    → plan_intent formats pending r histories ≡ ok next
    → Extension r.transaction_id histories next
unfolding check_from starts_at_intent
plan_intent-Extension formats pending r next histories sound h =
    let begun = plan_intent-Begun formats pending r next histories h in
    let id = r.transaction_id in
    subst (Extension id histories) begun.same (record {
      rs = [];
      before = no_history id histories begun.new;
      own = refl;
      canonical = begun.canonical;
      at = ground (arith, begun.starts);
      legal = begun-Legal r begun.starts begun.canonical;
      few = omega (arith, begun.few, map_set-length id (r ∷ []) histories);
      room = begun.room;
    })
