-- ===== src/Phase3/Durable/Operations.antt =====
-- phase3/journal.ts: `createIntent`, `transition`, `load` and `listRecoverable`, on the health of the
-- journal and its directory.
pub mod Durability
pub mod Progress
pub mod Sessions
pub mod Unhealthy
use ha_mcp.Prelude.{
  ℕ, String, Bool, true, false, Option, none, some, List, [], ◌∷◌, if◌then◌else◌, leb,
}
use ha_mcp.Prelude.Results.{ok, err, ◌>>=◌, ◌>>◌}
use ha_mcp.Phase3.States.{TransactionState}
use ha_mcp.Phase3.Records.{TransactionRecord}
use ha_mcp.Phase3.Records.Schema.{Formats}
use ha_mcp.Phase3.Ports.{Patch}
use ha_mcp.Phase3.Durable.Faults.{
  R, Failure, JournalCode, journal_conflict, journal_cas_conflict, normalize, attempt,
}
use ha_mcp.Phase3.Durable.Histories.{History, Histories, build_histories, latest, last_record}
use ha_mcp.Phase3.Durable.Append.{Calls, Entries, Store, Noted, append}
use ha_mcp.Phase3.Durable.Store.{plan_intent, plan_transition, cache}
use ha_mcp.Phase3.Durable.Health.{Health, assert_healthy, operate, list_latest}

-- A journal: its health, and its directory.
pub record Durable : Type 0 where
  pub health : Health
  pub store : Store

-- `scan`, where the files read as the entries.
unfoldable pub scan_entries : Calls → Entries → R Histories
scan_entries calls entries = do attempt calls.scanned; build_histories entries

-- `readdir` of `assertCapacity`.
unfoldable pub count_pendings : Calls → Store → R ℕ
count_pendings calls s = do attempt calls.counted; ok s.pendings

-- A refresh that fails in `append` makes the journal unhealthy.
abbrev pub lose : Bool → Health → Health
lose true h = record h { is_unhealthy = true }
lose false h = h

-- `append` and what follows it: the record is cached and returned.
abbrev pub returning : TransactionRecord → Health → Noted × Store → R TransactionRecord × Durable
returning r h ((ok u, lost), s) =
    (ok r, record { health = record (lose lost h) { histories = cache r h.histories }; store = s })
returning r h ((err e, lost), s) = (err e, record { health = lose lost h; store = s })

-- The record is appended, or what was thrown before is thrown on.
unfoldable pub append_planned :
    Calls → JournalCode → ℕ → Durable → R TransactionRecord → R TransactionRecord × Durable
append_planned calls code size d (ok next) =
    returning next d.health (append calls code size next d.store)
append_planned calls code size d (err e) = (err e, d)

-- `refresh`, and what an operation that appends does with the histories.
unfoldable pub refreshed :
    Calls
    → JournalCode
    → ℕ
    → Durable
    → (Histories → R TransactionRecord)
    → R Histories
    → R TransactionRecord × Durable
refreshed calls code size d plan (ok histories) =
    append_planned calls code size (record d { health = record d.health { histories = histories } })
      (plan histories)
refreshed calls code size d plan (err e) = (
  err (normalize e "Phase 3 journal refresh failed"),
  record d { health = record d.health { is_unhealthy = true } },
)

abbrev pub if_healthy : {A : Type 0} → R (Unit {0}) → Durable → R A × Durable → R A × Durable
if_healthy (ok u) d outcome = outcome
if_healthy (err e) d outcome = (err e, d)

-- An operation that appends: `assertHealthy`, `refresh`, the tests, `append`, `cache`.
unfoldable pub appending :
    Calls
    → JournalCode
    → ℕ
    → Durable
    → (Histories → R TransactionRecord)
    → R TransactionRecord × Durable
appending calls code size d plan =
    if_healthy (assert_healthy d.health) d
      (refreshed calls code size d plan (scan_entries calls d.store.entries))

module _ (formats : Formats) where
  -- `createIntent`.
  unfoldable pub make_intent :
      Calls → ℕ → TransactionRecord → Durable → R TransactionRecord × Durable
  make_intent calls size r d =
      appending calls journal_conflict size d (plan_intent formats (count_pendings calls d.store) r)

  -- `transition`.
  unfoldable pub make_transition :
      String
      → String
      → ℕ
      → TransactionState
      → Patch
      → Calls
      → ℕ
      → Durable
      → R TransactionRecord × Durable
  make_transition time id expected_version state patch calls size d =
      appending calls journal_cas_conflict size d (
        plan_transition formats time id expected_version state patch (count_pendings calls d.store))

abbrev pub with_health : {A : Type 0} → Durable → R A × Health → R A × Durable
with_health d (result, h) = (result, record d { health = h })

-- `load`.
unfoldable pub load : Calls → String → Durable → R (Option TransactionRecord) × Durable
load calls id d =
    with_health d (
      operate (λ histories. ok (latest id histories)) (scan_entries calls d.store.entries) d.health)

-- `listRecoverable`.
unfoldable pub list_recoverable :
    (String → String → Bool) → Calls → Durable → R (List TransactionRecord) × Durable
list_recoverable is_before calls d =
    with_health d (list_latest is_before (scan_entries calls d.store.entries) d.health)
