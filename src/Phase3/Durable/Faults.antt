-- ===== src/Phase3/Durable/Faults.antt =====
-- phase3/journal.ts: its errors.
use ha_mcp.Prelude.{String, Option, none, some}
use ha_mcp.Prelude.Results.{Result, ok, err}

-- `Phase3JournalErrorCode`.
pub data JournalCode : Type 0 where
  journal_unhealthy journal_missing journal_conflict journal_cas_conflict journal_illegal
        journal_commit_unknown :
      JournalCode

-- What the journal's code may be thrown: a `Phase3JournalError`, a `Phase3JournalSimulatedCrash`
-- (whose `retainPhase3Pending` is true), or another error, of the platform.
pub data Failure : Type 0 where
  journal_error : JournalCode → String → Failure
  crash : Failure
  platform : Failure

abbrev pub R : Type 0 → Type 0
R A = Result Failure A

abbrev pub unhealthy : String → Failure
unhealthy message = journal_error journal_unhealthy message

abbrev pub illegal : String → Failure
illegal message = journal_error journal_illegal message

-- `normalize`.
unfoldable pub normalize : Failure → String → Failure
normalize (journal_error code message) fallback = journal_error code message
normalize crash fallback = unhealthy fallback
normalize platform fallback = unhealthy fallback

-- A `catch` that normalizes.
abbrev pub normalizing : {A : Type 0} → String → R A → R A
normalizing fallback (ok a) = ok a
normalizing fallback (err e) = err (normalize e fallback)

-- A call that may fail.
abbrev pub attempt : Option Failure → R (Unit {0})
attempt none = ok tt
attempt (some e) = err e
