-- ===== src/Phase3/Durable/Store/Reread.antt =====
-- phase3/journal.ts: the next `buildHistories`, after an append.
use ha_mcp.Prelude.{
  ℕ, ◌≤◌, String, none, List, [], ◌∷◌, ◌++◌, ◌≡◌, sym, subst, arith, length, string_eq, inl, inr,
  map_set,
}
use ha_mcp.Prelude.Results.{ok, Result-cases}
use ha_mcp.Phase3.States.{TransactionState}
use ha_mcp.Phase3.States.Reach.{Run-bounded}
use ha_mcp.Phase3.Records.{TransactionRecord}
use ha_mcp.Phase3.Records.Schema.{Formats}
use ha_mcp.Phase3.Ports.{Patch}
use ha_mcp.Phase3.Durable.Faults.{R}
use ha_mcp.Phase3.Durable.Limits.{transactions}
use ha_mcp.Phase3.Durable.Histories.{
  Histories, check_from, group_from, check_groups, build_histories,
}
use ha_mcp.Phase3.Durable.Histories.Legal.{check_from-last}
use ha_mcp.Phase3.Durable.Histories.Sound.{build_histories-IsSound}
use ha_mcp.Phase3.Durable.Store.Steps.{last_record-append}
use ha_mcp.Phase3.Durable.Store.Extension.{
  Extension, plan_transition-Extension, plan_intent-Extension,
}
use ha_mcp.Phase3.Durable.Store.Regroup.{
  group_from-append, check_groups-add, check_groups-length, Fits, add,
}
use ha_mcp.Phase3.Durable.Store.{plan_intent, plan_transition, cache}

build_histories-extended :
    (id : String) (finals : List TransactionRecord) (histories : Histories)
    (next : TransactionRecord)
    → build_histories finals ≡ ok histories
    → Extension id histories next
    → build_histories (finals ++ (next ∷ [])) ≡ ok (cache next histories)
unfolding build_histories cache
build_histories-extended id finals histories next h x = elim (Result-cases (group_from [] finals)) [
  | inr (e, failed) ↦ absurd (ground arith)
  | inl (groups, grouped) ↦
      (let checked : check_groups groups ≡ ok histories = ground arith in
        let fits : Fits next.transaction_id next histories =
          subst (λ i. Fits i next histories) (sym x.own)
            (subst
              (λ xs. (check_from 0 none (xs ++ (next ∷ [])) ≡ ok tt) × (next.version ≡ length xs))
              (sym x.before) (x.legal.checked, x.at)) in
        let last =
          check_from-last (x.rs ++ (next ∷ [])) next x.legal.checked
            (last_record-append x.rs next) in
        let again =
          check_groups-add next.transaction_id groups histories next checked fits
            (Run-bounded last.run) in
        let grouped' = group_from-append [] groups finals next x.canonical grouped in
        let few : length (cache next groups) ≤ transactions =
          subst (λ n. n ≤ transactions)
            (check_groups-length (cache next groups) (cache next histories) again)
            (subst (λ i. length (add i next histories) ≤ transactions) (sym x.own)
              (subst (λ xs. length (map_set id (xs ++ (next ∷ [])) histories) ≤ transactions)
                (sym x.before) x.few)) in
        ground arith)
]

-- If `buildHistories` accepts the entries, and `transition` then appends a record, the next
-- `buildHistories` gives the histories with that record, as the journal has cached them.
pub build_histories-plan_transition :
    (formats : Formats) (time id : String) (version : ℕ) (state : TransactionState) (patch : Patch)
    (pending : R ℕ) (finals : List TransactionRecord) (histories : Histories)
    (next : TransactionRecord)
    → build_histories finals ≡ ok histories
    → plan_transition formats time id version state patch pending histories ≡ ok next
    → build_histories (finals ++ (next ∷ [])) ≡ ok (cache next histories)
build_histories-plan_transition formats time id version state patch pending finals histories next h
      plan =
    let (sound, total) = build_histories-IsSound finals histories h in
    build_histories-extended id finals histories next h (
      plan_transition-Extension formats time id version state patch pending histories next sound
        plan)

-- The same of `createIntent`.
pub build_histories-plan_intent :
    (formats : Formats) (pending : R ℕ) (finals : List TransactionRecord) (histories : Histories)
    (r next : TransactionRecord)
    → build_histories finals ≡ ok histories
    → plan_intent formats pending r histories ≡ ok next
    → build_histories (finals ++ (next ∷ [])) ≡ ok (cache next histories)
build_histories-plan_intent formats pending finals histories r next h plan =
    let (sound, total) = build_histories-IsSound finals histories h in
    build_histories-extended r.transaction_id finals histories next h
      (plan_intent-Extension formats pending r next histories sound plan)
