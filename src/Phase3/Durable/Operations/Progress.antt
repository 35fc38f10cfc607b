-- ===== src/Phase3/Durable/Operations/Progress.antt =====
-- phase3/journal.ts: operations in which no call of the file system fails.
use ha_mcp.Prelude.{ℕ, ◌≤◌, String, none, [], ◌∷◌, ◌++◌, ◌≡◌, refl, sym, subst, arith, false}
use ha_mcp.Prelude.Results.{ok}
use ha_mcp.Phase3.States.{TransactionState}
use ha_mcp.Phase3.Records.{TransactionRecord}
use ha_mcp.Phase3.Records.Schema.{Formats}
use ha_mcp.Phase3.Ports.{Patch}
use ha_mcp.Phase3.Durable.Faults.{JournalCode, journal_cas_conflict}
use ha_mcp.Phase3.Durable.Limits.{record_bytes}
use ha_mcp.Phase3.Durable.Histories.{Histories, build_histories}
use ha_mcp.Phase3.Durable.Append.{
  Calls, Entries, Store, classify_if, stage_record, prepare_link, confirm_link, removed_after_link,
  append_from, append_once, append,
}
use ha_mcp.Phase3.Durable.Store.{plan_transition, cache}
use ha_mcp.Phase3.Durable.Health.{assert_healthy}
use ha_mcp.Phase3.Durable.Operations.{
  Durable, scan_entries, count_pendings, refreshed, append_planned, appending, make_transition,
}

-- No call fails, and nothing stands at the path of the new entry.
pub record IsQuiet (calls : Calls) : Type 0 where
  pub scanned : calls.scanned ≡ none
  pub counted : calls.counted ≡ none
  pub reserved : calls.reserved ≡ none
  pub exists_first : calls.exists_first ≡ ok false
  pub opened : calls.opened ≡ none
  pub written : calls.written ≡ none
  pub synced : calls.synced ≡ none
  pub looked_at : calls.looked_at ≡ none
  pub file_synced : calls.file_synced ≡ none
  pub closed : calls.closed ≡ none
  pub file_closed : calls.file_closed ≡ none
  pub pending_synced : calls.pending_synced ≡ none
  pub entry_synced : calls.entry_synced ≡ none
  pub identified : calls.identified ≡ none
  pub pre_link : calls.pre_link ≡ none
  pub exists_second : calls.exists_second ≡ ok false
  pub linked : calls.linked ≡ none
  pub post_link : calls.post_link ≡ none
  pub root_synced : calls.root_synced ≡ none
  pub parent_synced : calls.parent_synced ≡ none
  pub pending_removed : calls.pending_removed ≡ none
  pub root_synced_again : calls.root_synced_again ≡ none

prepare_link-quiet :
    (calls : Calls) (code : JournalCode) (size : ℕ)
    → IsQuiet calls
    → size ≤ record_bytes
    → prepare_link calls code size ≡ (ok tt, false)
unfolding prepare_link classify_if stage_record
prepare_link-quiet calls code size q small = ground arith

confirm_link-quiet : (calls : Calls) → IsQuiet calls → confirm_link calls ≡ ok tt
unfolding confirm_link
confirm_link-quiet calls q = ground arith

removed_after_link-quiet : (calls : Calls) → IsQuiet calls → removed_after_link calls ≡ ok tt
unfolding removed_after_link
removed_after_link-quiet calls q = ground arith

append-quiet :
    (calls : Calls) (code : JournalCode) (size : ℕ) (r : TransactionRecord) (s : Store)
    → IsQuiet calls
    → size ≤ record_bytes
    → append calls code size r s
      ≡ ((ok tt, false), record { entries = s.entries ++ (r ∷ []); pendings = s.pendings })
unfolding append append_once append_from
append-quiet calls code size r s q small =
    subst
      (λ o.
        append_once calls code size r s o
        ≡ ((ok tt, false), record { entries = s.entries ++ (r ∷ []); pendings = s.pendings }))
      (sym q.reserved)
      (rw
        (
          prepare_link-quiet calls code size q small,
          confirm_link-quiet calls q,
          removed_after_link-quiet calls q,
        )
        refl)

scan_entries-quiet :
    (calls : Calls) (entries : Entries)
    → IsQuiet calls
    → scan_entries calls entries ≡ build_histories entries
unfolding scan_entries
scan_entries-quiet calls entries q = rw q.scanned refl

count_pendings-quiet :
    (calls : Calls) (s : Store) → IsQuiet calls → count_pendings calls s ≡ ok s.pendings
unfolding count_pendings
count_pendings-quiet calls s q = rw q.counted refl

-- A transition of a healthy journal that passes its tests returns its record and leaves it behind the
-- other entries, with no new pending directory, when its envelope is small enough and no call of the
-- file system fails.
pub make_transition-quiet :
    (formats : Formats) (time id : String) (version : ℕ) (state : TransactionState) (patch : Patch)
    (calls : Calls) (size : ℕ) (d : Durable) (histories : Histories) (next : TransactionRecord)
    → assert_healthy d.health ≡ ok tt
    → build_histories d.store.entries ≡ ok histories
    → plan_transition formats time id version state patch (ok d.store.pendings) histories ≡ ok next
    → IsQuiet calls
    → size ≤ record_bytes
    → make_transition formats time id version state patch calls size d ≡ (
      ok next,
      record {
        health = record d.health { histories = cache next histories };
        store = record { entries = d.store.entries ++ (next ∷ []); pendings = d.store.pendings };
      },
    )
unfolding make_transition appending refreshed append_planned
make_transition-quiet formats time id version state patch calls size d histories next healthy reads
      plan q small =
    rw
      (
        healthy,
        scan_entries-quiet calls d.store.entries q,
        reads,
        count_pendings-quiet calls d.store q,
        plan,
        append-quiet calls journal_cas_conflict size next d.store q small,
      )
      refl
