-- ===== src/Phase3/Audit.antt =====
-- phase3/operatorAudit.ts: the audit of the operator, as the bytes of its file. JSON, UTF-8, the
-- formats of the fields and the looks at the file are parameters; a missing file is an empty one.

pub mod Lines
pub mod Keeps
pub mod Survives
pub mod Progress
use ha_mcp.Prelude.{
  ℕ, zero, suc, ◌+◌, ◌*◌, String, Bool, true, false, not, ◌&&◌, ◌||◌, Option, none, some, List, [],
  ◌∷◌, ◌++◌, length, every, includes, ◌==◌, nat_eq, leb, ltb, nat_beq, if◌then◌else◌,
}
use ha_mcp.Prelude.Results.{Result, ok, err, ◌>>=◌, ◌>>◌, guard}
use ha_mcp.Phase3.Paths.{units}

pub data AuditEvent : Type 0 where
  attempt displayed confirmed grant_issued settled failed audit_uncertain recovery_attempt
        recovery_displayed recovery_confirmed recovery_settled recovery_failed recovery_uncertain :
      AuditEvent

-- A record whose fields have their formats, with what `superRefine` reads of them.
pub record AuditRecord : Type 0 where
  pub event : AuditEvent
  pub has_proposal : Bool
  pub has_storage_sha256 : Bool
  pub has_displayed_sha256 : Bool
  pub has_grant : Bool
  pub has_transaction : Bool
  pub has_state : Bool

-- `superRefine` of `recordSchema`.
unfoldable pub is_complete : AuditRecord → Bool
is_complete r = elim r.event [
  | recovery_attempt ↦ true
  | recovery_failed ↦ true
  | recovery_displayed ↦ r.has_displayed_sha256
  | recovery_confirmed ↦ r.has_displayed_sha256
  | recovery_settled ↦ r.has_displayed_sha256
  | recovery_uncertain ↦ r.has_displayed_sha256
  | attempt ↦ r.has_proposal
  | failed ↦ r.has_proposal
  | settled ↦
      r.has_proposal
      && (r.has_storage_sha256 && r.has_displayed_sha256)
      && (r.has_transaction && r.has_state && r.has_grant)
  | audit_uncertain ↦
      r.has_proposal
      && (r.has_storage_sha256 && r.has_displayed_sha256)
      && (r.has_transaction && r.has_state && r.has_grant)
  | _ ↦ r.has_proposal && (r.has_storage_sha256 && r.has_displayed_sha256)
]

-- `Phase3OperatorError` by its code, and any other error.
pub data AuditFailure : Type 0 where
  operator_error : String → AuditFailure
  other_failure : AuditFailure

abbrev pub R : Type 0 → Type 0
R A = Result AuditFailure A

-- `PHASE3_OPERATOR_AUDIT_BYTES` and `maximumRowBytes`.
abbrev pub audit_bytes : ℕ
audit_bytes = 1024 * 1024

abbrev pub maximum_row_bytes : ℕ
maximum_row_bytes = 2048

abbrev pub newline : ℕ
newline = 10

-- The bytes up to the last newline, and the torn tail after it.
unfoldable pub committed : List ℕ → List ℕ
committed [] = []
committed (c ∷ cs) = let rest = committed cs in if includes (c ∷ cs) newline then c ∷ rest else []

unfoldable pub torn_tail : List ℕ → List ℕ
torn_tail [] = []
torn_tail (c ∷ cs) = let rest = torn_tail cs in if includes (c ∷ cs) newline then rest else c ∷ cs

-- `text.split("\n").slice(0, -1)`: the rows that end in a newline.
unfoldable pub rows_from : List ℕ → List ℕ → List (List ℕ)
rows_from row [] = []
rows_from row (c ∷ cs) =
    let closed = row ∷ rows_from [] cs in
    let longer = rows_from (row ++ c ∷ []) cs in if nat_beq c newline then closed else longer

abbrev pub rows : List ℕ → List (List ℕ)
rows bytes = rows_from [] bytes

-- `text.startsWith(start)` of code units.
unfoldable pub starts_with : List ℕ → List ℕ → Bool
starts_with text [] = true
starts_with [] (b ∷ bs) = false
starts_with (a ∷ text) (b ∷ bs) = let rest = starts_with text bs in nat_beq a b && rest

unfoldable pub row_prefix : List ℕ
row_prefix = units "{\"timestamp\":"

abbrev pub is_printable : ℕ → Bool
is_printable c = not (ltb c 0x20) && not (ltb 0x7e c)

-- `JSON.parse` and the fields of `recordSchema`: `none` is a SyntaxError, `some none` a value with
-- other fields.
abbrev pub Json : Type 0
Json = List ℕ → Option (Option AuditRecord)

abbrev pub is_record : Option (Option AuditRecord) → Bool
is_record none = false
is_record (some none) = false
is_record (some (some r)) = is_complete r

-- The same of a tail, where a SyntaxError is passed over.
abbrev pub is_record_or_torn : Option (Option AuditRecord) → Bool
is_record_or_torn none = true
is_record_or_torn (some none) = false
is_record_or_torn (some (some r)) = is_complete r

-- How the calls of `append` end. In `writes` a `none` throws; the process dies where the list ends
-- before the line does.
pub record Calls : Type 0 where
  pub lease_first : Bool
  pub opened : Bool
  pub looks : Bool
  pub lease_second : Bool
  pub truncated : Bool
  pub truncate_synced : Bool
  pub writes : List (Option ℕ)
  pub synced : Bool
  pub directory_synced : Bool

unfoldable pub drop_bytes : ℕ → List ℕ → List ℕ
drop_bytes zero cs = cs
drop_bytes (suc n) [] = []
drop_bytes (suc n) (c ∷ cs) = drop_bytes n cs

unfoldable pub take_bytes : ℕ → List ℕ → List ℕ
take_bytes zero cs = []
take_bytes (suc n) [] = []
take_bytes (suc n) (c ∷ cs) = c ∷ take_bytes n cs

-- The loop that writes `pending`: what it writes, and how it ends, if it does.
unfoldable pub write_pending : List ℕ → List (Option ℕ) → List ℕ × Option (R (Unit {0}))
write_pending [] ws = ([], some (ok tt))
write_pending (p ∷ ps) [] = ([], none)
write_pending (p ∷ ps) (none ∷ ws) = ([], some (err other_failure))
write_pending (p ∷ ps) (some zero ∷ ws) =
    ([], some (err (operator_error "operator_audit_write_failed")))
write_pending (p ∷ ps) (some (suc n) ∷ ws) =
    let rest = write_pending (drop_bytes n ps) ws in (p ∷ (take_bytes n ps ++ rest.0), rest.1)

abbrev pub and_sync : Calls → Option (R (Unit {0})) → Option (R (Unit {0}))
and_sync calls (some (ok u)) = some (guard (calls.synced && calls.directory_synced) other_failure)
and_sync calls o = o

-- The tail is cut off, or there is none.
unfoldable pub is_cut : Calls → List ℕ → Bool
is_cut calls bytes = length (torn_tail bytes) == 0 || calls.truncated && calls.truncate_synced

-- The file after the tail is cut off and the line written, and how that ends.
unfoldable pub write_line : Calls → List ℕ → List ℕ → List ℕ × Option (R (Unit {0}))
write_line calls line bytes =
    let written = write_pending line calls.writes in
    if is_cut calls bytes
    then (committed bytes ++ written.0, and_sync calls written.1)
    else if calls.truncated
    then (committed bytes, some (err other_failure))
    else (bytes, some (err other_failure))

abbrev pub append_if : R (Unit {0}) → Calls → List ℕ → List ℕ → List ℕ × Option (R (Unit {0}))
append_if (ok u) calls line bytes = write_line calls line bytes
append_if (err e) calls line bytes = (bytes, some (err e))

module _ (json : Json) (is_utf8 : List ℕ → Bool) where
  unfoldable pub is_valid_row : List ℕ → Bool
  is_valid_row row = leb (length row) maximum_row_bytes && is_record (json row)

  unfoldable pub is_valid_tail : List ℕ → Bool
  is_valid_tail [] = true
  is_valid_tail (c ∷ cs) =
      leb (length (c ∷ cs)) maximum_row_bytes
      && every is_printable (c ∷ cs)
      && (starts_with row_prefix (c ∷ cs) || starts_with (c ∷ cs) row_prefix)
      && is_record_or_torn (json (c ∷ cs))

  -- `scanAudit` of a file with these bytes; `looks` is whether what it sees of the file is as it
  -- should be, before and after the read.
  unfoldable pub scan_audit : Bool → List ℕ → R (List ℕ)
  scan_audit looks bytes = do
    guard (looks && leb (length bytes) audit_bytes) (operator_error "operator_audit_unsafe")
    guard (is_utf8 (committed bytes)) other_failure
    guard (every is_valid_row (rows (committed bytes))) (operator_error "operator_audit_unsafe")
    guard (is_valid_tail (torn_tail bytes)) (operator_error "operator_audit_torn_tail_invalid")
    ok (committed bytes)

  -- `validatePhase3OperatorAudit`: how many complete rows, and how many bytes of a torn tail.
  unfoldable pub validate_audit : Bool → List ℕ → R (ℕ × ℕ)
  validate_audit looks bytes = do
    kept ← scan_audit looks bytes
    ok (length (rows kept), length (torn_tail bytes))

  -- The tests of `append` before it changes the file; `line` is the row with its newline.
  unfoldable pub admit_line : Calls → List ℕ → List ℕ → R (Unit {0})
  admit_line calls line bytes = do
    guard calls.lease_first other_failure
    guard calls.opened other_failure
    kept ← scan_audit calls.looks bytes
    guard (leb (length kept + length line) audit_bytes) (operator_error "operator_audit_capacity")
    guard calls.lease_second other_failure

  -- `append` of a row that `recordSchema` accepts: the bytes after it.
  unfoldable pub append : Calls → List ℕ → List ℕ → List ℕ × Option (R (Unit {0}))
  append calls line bytes = append_if (admit_line calls line bytes) calls line bytes
