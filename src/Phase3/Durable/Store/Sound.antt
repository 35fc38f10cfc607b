-- ===== src/Phase3/Durable/Store/Sound.antt =====
-- phase3/journal.ts: the histories after `createIntent` and `transition`.
use ha_mcp.Prelude.{
  ℕ, ◌≤◌, String, [], ◌∷◌, ◌++◌, ◌≡◌, sym, subst, arith, string_eq, option_eq, map_get, map_set,
  map_set-All,
}
use ha_mcp.Prelude.Results.{ok}
use ha_mcp.Phase3.States.{TransactionState, state_eq}
use ha_mcp.Phase3.States.Reach.{Run-bounded}
use ha_mcp.Phase3.Records.{TransactionRecord, impact_eq, target_eq}
use ha_mcp.Phase3.Records.Schema.{Formats}
use ha_mcp.Phase3.Ports.{Patch}
use ha_mcp.Phase3.Durable.Faults.{R}
use ha_mcp.Phase3.Durable.Limits.{final_entries}
use ha_mcp.Phase3.Durable.Histories.{Histories, or_empty, count_entries}
use ha_mcp.Phase3.Durable.Histories.Legal.{check_from-last}
use ha_mcp.Phase3.Durable.Histories.Sound.{Legal, IsSound, map_set-count}
use ha_mcp.Phase3.Durable.Store.Steps.{last_record-append}
use ha_mcp.Phase3.Durable.Store.Extension.{
  Extension, plan_transition-Extension, plan_intent-Extension,
}
use ha_mcp.Phase3.Durable.Store.{plan_intent, plan_transition, cache}

cache-IsSound :
    (id : String) (next : TransactionRecord) (histories : Histories)
    → IsSound histories
    → Extension id histories next
    → IsSound (cache next histories) × (count_entries (cache next histories) ≤ final_entries)
unfolding cache
cache-IsSound id next histories sound x =
    let result : IsSound (map_set id (x.rs ++ (next ∷ [])) histories) = record {
      all_legal = map_set-All Legal id (x.rs ++ (next ∷ [])) histories x.legal sound.all_legal;
      few = x.few;
    } in
    let grown : String → Histories =
      λ i. map_set i (or_empty (map_get i histories) ++ (next ∷ [])) histories in
    (
      subst (λ i. IsSound (grown i)) (sym x.own)
          (subst (λ xs. IsSound (map_set id (xs ++ (next ∷ [])) histories)) (sym x.before) result),
      omega (arith, x.room, map_set-count next.transaction_id next histories),
    )

-- If the histories are sound and `transition` appends a record, then the histories with it are sound
-- again and hold at most 512 entries, and the record's version is at most twelve.
pub plan_transition-IsSound :
    (formats : Formats) (time id : String) (version : ℕ) (state : TransactionState) (patch : Patch)
    (pending : R ℕ) (histories : Histories) (next : TransactionRecord)
    → IsSound histories
    → plan_transition formats time id version state patch pending histories ≡ ok next
    → IsSound (cache next histories)
      × (count_entries (cache next histories) ≤ final_entries)
      × (next.version ≤ 12)
plan_transition-IsSound formats time id version state patch pending histories next sound h =
    let x =
      plan_transition-Extension formats time id version state patch pending histories next sound
        h in
    let (again, room) = cache-IsSound id next histories sound x in
    let last =
      check_from-last (x.rs ++ (next ∷ [])) next x.legal.checked (last_record-append x.rs next) in
    (again, room, Run-bounded last.run)

-- If the histories are sound and `createIntent` appends a record, then the histories with it are
-- sound again, and hold at most 512 entries.
pub plan_intent-IsSound :
    (formats : Formats) (pending : R ℕ) (r next : TransactionRecord) (histories : Histories)
    → IsSound histories
    → plan_intent formats pending r histories ≡ ok next
    → IsSound (cache next histories) × (count_entries (cache next histories) ≤ final_entries)
plan_intent-IsSound formats pending r next histories sound h =
    cache-IsSound r.transaction_id next histories sound
      (plan_intent-Extension formats pending r next histories sound h)
