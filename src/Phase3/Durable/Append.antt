-- ===== src/Phase3/Durable/Append.antt =====
-- phase3/journal.ts: `writeAll` and `append`, the commit point of the journal.
pub mod Commit
use ha_mcp.Prelude.{
  ℕ, zero, suc, ◌-◌, ◌+◌, String, Bool, true, false, not, ◌&&◌, ◌||◌, Option, none, some, List, [],
  ◌∷◌, ◌++◌, leb, ltb, if◌then◌else◌,
}
use ha_mcp.Prelude.Results.{Result, ok, err, ◌>>=◌, ◌>>◌, guard}
use ha_mcp.Phase3.Records.{TransactionRecord}
use ha_mcp.Phase3.Durable.Limits.{record_bytes}
use ha_mcp.Phase3.Durable.Faults.{
  R, Failure, JournalCode, journal_error, journal_commit_unknown, crash, platform, unhealthy,
  normalize, attempt,
}

-- What one `write` does: it writes some bytes, is interrupted (EINTR), or fails otherwise.
pub data Write : Type 0 where
  wrote : ℕ → Write
  interrupted : Write
  broken : Write

-- `writeAll`, with `left` bytes to write and the writes to come; `none` while it waits for more.
unfoldable pub write_all : ℕ → List Write → Option (R (Unit {0}))
write_all zero writes = some (ok tt)
write_all (suc left) [] = none
write_all (suc left) (interrupted ∷ writes) = write_all (suc left) writes
write_all (suc left) (broken ∷ writes) = some (err platform)
write_all (suc left) (wrote n ∷ writes) =
    let rest = write_all (suc left - n) writes in
    if leb 1 n && leb n (suc left)
    then rest
    else some (err (unhealthy "Phase 3 journal write did not make progress"))

-- How each call of an operation ends, in the order of the calls. A stage is a hook.
pub record Calls : Type 0 where
  -- the calls of `scan`, and `readdir` of `assertCapacity`
  pub scanned : Option Failure
  pub counted : Option Failure
  -- the calls of `append`
  pub reserved : Option Failure
  -- `finalPathExists`, at the three places that ask
  pub exists_first : R Bool
  pub opened : Option Failure
  pub written : Option Failure
  pub synced : Option Failure
  pub looked_at : Option Failure
  pub file_synced : Option Failure
  pub closed : Option Failure
  pub file_closed : Option Failure
  pub pending_synced : Option Failure
  pub entry_synced : Option Failure
  pub identified : Option Failure
  pub pre_link : Option Failure
  pub exists_second : R Bool
  pub linked : Option Failure
  pub post_link : Option Failure
  pub root_synced : Option Failure
  pub parent_synced : Option Failure
  pub pending_removed : Option Failure
  pub root_synced_again : Option Failure
  -- in the `catch`
  pub cleaned : Option Failure
  pub exists_last : R Bool
  -- `classifyFinalConflict`: its refresh, whether the history then has the version, and whether the
  -- path is still there
  pub refreshed : Option Failure
  pub has_version : Bool
  pub exists_still : R Bool

-- The final entries of the directory.
abbrev pub Entries : Type 0
Entries = List TransactionRecord

-- The directory: the final entries, and how many pending directories there are.
pub record Store : Type 0 where
  pub entries : Entries
  pub pendings : ℕ

abbrev pub is_failed : Option Failure → Bool
is_failed none = false
is_failed (some e) = true

-- What part of `append` returns or throws, and whether a refresh failed in it.
abbrev pub Noted : Type 0
Noted = R (Unit {0}) × Bool

abbrev pub plainly : R (Unit {0}) → Noted
plainly m = (m, false)

abbrev pub and_then : Noted → Noted → Noted
and_then (ok u, lost) next = (next.0, lost || next.1)
and_then (err e, lost) next = (err e, lost)

-- `classifyFinalConflict`.
unfoldable pub classify_final_conflict : Calls → JournalCode → Noted
classify_final_conflict calls code = (
  do
    attempt calls.refreshed
    guard (not calls.has_version) (journal_error code "Phase 3 journal final entry already exists")
    still ← calls.exists_still
    guard (not still) (unhealthy "Phase 3 journal final entry is unsafe"),
  is_failed calls.refreshed,
)

-- `assertFinalAbsent`, and the `if` of the `catch`.
unfoldable pub classify_if : R Bool → Calls → JournalCode → Noted
classify_if (err e) calls code = plainly (err e)
classify_if (ok false) calls code = plainly (ok tt)
classify_if (ok true) calls code = classify_final_conflict calls code

-- The `finally` of the open file: what closing throws replaces what was thrown.
abbrev pub closing : Option Failure → R (Unit {0}) → R (Unit {0})
closing none outcome = outcome
closing (some e) outcome = err e

-- The record is written to the pending directory.
unfoldable pub stage_record : Calls → R (Unit {0})
stage_record calls = do
  attempt calls.opened
  closing calls.closed (do
    attempt calls.written
    attempt calls.synced
    attempt calls.looked_at
    attempt calls.file_synced)
  attempt calls.file_closed
  attempt calls.pending_synced
  attempt calls.entry_synced
  attempt calls.identified
  attempt calls.pre_link

-- The `try` block up to the link.
unfoldable pub prepare_link : Calls → JournalCode → ℕ → Noted
prepare_link calls code size =
    and_then
      (plainly
        (guard (leb size record_bytes) (unhealthy "Phase 3 journal record exceeds size limit")))
      (and_then (classify_if calls.exists_first calls code) (
        and_then (plainly (stage_record calls))
          (and_then (classify_if calls.exists_second calls code) (plainly (attempt calls.linked)))))

-- The `try` block after the link.
unfoldable pub confirm_link : Calls → R (Unit {0})
confirm_link calls = do
  attempt calls.post_link
  attempt calls.root_synced
  attempt calls.parent_synced
  attempt calls.pending_removed
  attempt calls.root_synced_again

abbrev pub or_unknown : R (Unit {0}) → R (Unit {0})
or_unknown (ok u) = ok u
or_unknown (err e) = err (
    journal_error journal_commit_unknown
      "Phase 3 journal link commit point was crossed but durability confirmation failed")

-- The `catch` of a failure before the link.
unfoldable pub abandon : Calls → JournalCode → Failure → Noted
abandon calls code crash = plainly (err crash)
abandon calls code (journal_error own message) =
    plainly (do attempt calls.cleaned; err (journal_error own message))
abandon calls code platform = and_then (plainly (attempt calls.cleaned)) (
    and_then (classify_if calls.exists_last calls code)
      (plainly (err (unhealthy "Phase 3 journal append failed"))))

-- The pending directories that are left: the own one stays where it is retained, or is not removed.
abbrev pub left_by : R (Unit {0}) → ℕ → ℕ
left_by (ok u) pendings = pendings
left_by (err e) pendings = suc pendings

-- `removeOwnPending` in the `try` block, if it is reached.
unfoldable pub removed_after_link : Calls → R (Unit {0})
removed_after_link calls = do
  attempt calls.post_link
  attempt calls.root_synced
  attempt calls.parent_synced
  attempt calls.pending_removed

-- `removeOwnPending` in the `catch`, unless `retainPending`.
unfoldable pub removed_after_failure : Calls → Failure → R (Unit {0})
removed_after_failure calls crash = err crash
removed_after_failure calls e = attempt calls.cleaned

unfoldable pub append_from : Calls → JournalCode → TransactionRecord → Store → Noted → Noted × Store
append_from calls code r s (ok u, lost) = (
  (or_unknown (confirm_link calls), lost),
  record {
    entries = s.entries ++ (r ∷ []);
    pendings = left_by (removed_after_link calls) s.pendings;
  },
)
append_from calls code r s (err e, lost) =
    let caught = abandon calls code e in
    (
      (caught.0, lost || caught.1),
      record s { pendings = left_by (removed_after_failure calls e) s.pendings },
    )

-- `append` after its `reservePendingDirectory`, which leaves nothing if it fails.
unfoldable pub append_once :
    Calls → JournalCode → ℕ → TransactionRecord → Store → Option Failure → Noted × Store
append_once calls code size r s (some e) = (plainly (err e), s)
append_once calls code size r s none = append_from calls code r s (prepare_link calls code size)

-- `append`, of a record that takes `size` bytes.
unfoldable pub append : Calls → JournalCode → ℕ → TransactionRecord → Store → Noted × Store
append calls code size r s = append_once calls code size r s calls.reserved
