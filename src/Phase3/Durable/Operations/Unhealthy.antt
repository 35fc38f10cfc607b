-- ===== src/Phase3/Durable/Operations/Unhealthy.antt =====
-- phase3/journal.ts: a journal that has lost its health does nothing.
use ha_mcp.Prelude.{ℕ, ◌≡◌, refl, ap, String, Bool, Option, none, some, List, [], ◌∷◌, arith}
use ha_mcp.Prelude.Results.{ok, err}
use ha_mcp.Phase3.States.{TransactionState}
use ha_mcp.Phase3.Records.{TransactionRecord}
use ha_mcp.Phase3.Records.Schema.{Formats}
use ha_mcp.Phase3.Ports.{Patch}
use ha_mcp.Phase3.Durable.Faults.{R, Failure, unhealthy, JournalCode}
use ha_mcp.Phase3.Durable.Histories.{Histories}
use ha_mcp.Phase3.Durable.Append.{Calls}
use ha_mcp.Phase3.Durable.Health.{assert_healthy, operate, refresh_then, list_latest}
use ha_mcp.Phase3.Durable.Operations.{
  Durable, scan_entries, appending, refreshed, make_intent, make_transition, with_health, load,
  list_recoverable,
}

-- The operations of the journal, with their arguments.
pub data Operation : Type 0 where
  creating : ℕ → TransactionRecord → Operation
  moving : String → String → ℕ → TransactionState → Patch → ℕ → Operation
  loading : String → Operation
  listing : Operation

-- What they return, as a list.
abbrev one : R TransactionRecord × Durable → R (List TransactionRecord) × Durable
one (ok r, d) = (ok (r ∷ []), d)
one (err e, d) = (err e, d)

abbrev at_most_one : R (Option TransactionRecord) × Durable → R (List TransactionRecord) × Durable
at_most_one (ok none, d) = (ok [], d)
at_most_one (ok (some r), d) = (ok (r ∷ []), d)
at_most_one (err e, d) = (err e, d)

module _ (formats : Formats) (is_before : String → String → Bool) where
  unfoldable pub run : Calls → Operation → Durable → R (List TransactionRecord) × Durable
  run calls (creating size r) d = one (make_intent formats calls size r d)
  run calls (moving time id version state patch size) d =
      one (make_transition formats time id version state patch calls size d)
  run calls (loading id) d = at_most_one (load calls id d)
  run calls listing d = list_recoverable is_before calls d

abbrev refusal : Failure
refusal = unhealthy "Phase 3 journal is unhealthy"

-- `assertHealthy` throws.
abbrev IsUnhealthy : Durable → Type 0
IsUnhealthy d = assert_healthy d.health ≡ err refusal

appending-refused :
    (calls : Calls) (code : JournalCode) (size : ℕ) (d : Durable)
    (plan : Histories → R TransactionRecord)
    → IsUnhealthy d
    → appending calls code size d plan ≡ (err refusal, d)
unfolding appending
appending-refused calls code size d plan lost = rw lost refl

operate-refused :
    {A : Type 0} (d : Durable) (use_histories : Histories → R A) (scanned : R Histories)
    → IsUnhealthy d
    → with_health d (operate use_histories scanned d.health) ≡ (err refusal, d)
unfolding operate
operate-refused d use_histories scanned lost = rw lost refl

module _ (formats : Formats) (is_before : String → String → Bool) where
  run-refused :
      (calls : Calls) (o : Operation) (d : Durable)
      → IsUnhealthy d
      → run formats is_before calls o d ≡ (err refusal, d)
  unfolding run make_intent make_transition load list_recoverable list_latest
  run-refused calls (creating size r) d lost = ap one (appending-refused calls _ size d _ lost)
  run-refused calls (moving time id version state patch size) d lost =
      ap one (appending-refused calls _ size d _ lost)
  run-refused calls (loading id) d lost =
      ap at_most_one (operate-refused d _ (scan_entries calls d.store.entries) lost)
  run-refused calls listing d lost = operate-refused d _ (scan_entries calls d.store.entries) lost

  appending-lost :
      (calls : Calls) (code : JournalCode) (size : ℕ) (d : Durable)
      (plan : Histories → R TransactionRecord) (e : Failure)
      → calls.scanned ≡ some e
      → IsUnhealthy (one (appending calls code size d plan)).1
  unfolding appending scan_entries refreshed assert_healthy
  appending-lost calls code size d plan e fails = ground (arith, fails)

  load-lost :
      (calls : Calls) (id : String) (d : Durable) (e : Failure)
      → calls.scanned ≡ some e
      → IsUnhealthy (at_most_one (load calls id d)).1
  unfolding load operate refresh_then scan_entries assert_healthy
  load-lost calls id d e fails = ground (arith, fails)

  list-lost :
      (calls : Calls) (d : Durable) (e : Failure)
      → calls.scanned ≡ some e
      → IsUnhealthy (list_recoverable is_before calls d).1
  unfolding list_recoverable list_latest operate refresh_then scan_entries assert_healthy
  list-lost calls d e fails = ground (arith, fails)

  run-lost :
      (calls : Calls) (o : Operation) (d : Durable) (e : Failure)
      → calls.scanned ≡ some e
      → IsUnhealthy (run formats is_before calls o d).1
  unfolding run make_intent make_transition
  run-lost calls (creating size r) d e fails = appending-lost calls _ size d _ e fails
  run-lost calls (moving time id version state patch size) d e fails =
      appending-lost calls _ size d _ e fails
  run-lost calls (loading id) d e fails = load-lost calls id d e fails
  run-lost calls listing d e fails = list-lost calls d e fails

-- After `createIntent`, `transition`, `load` or `listRecoverable` in whose refresh a call of the file
-- system fails, or that found the journal unhealthy, each of the four throws `journal_unhealthy` and
-- leaves the journal and its directory as they are, however the calls would end.
pub run-unhealthy :
    (formats : Formats) (is_before : String → String → Bool) (calls later : Calls)
    (o next : Operation) (d : Durable) (e : Failure)
    → calls.scanned ≡ some e
    → run formats is_before later next (run formats is_before calls o d).1
      ≡ (err (unhealthy "Phase 3 journal is unhealthy"), (run formats is_before calls o d).1)
run-unhealthy formats is_before calls later o next d e fails =
    run-refused formats is_before later next (run formats is_before calls o d).1
      (run-lost formats is_before calls o d e fails)
