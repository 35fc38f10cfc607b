-- ===== src/Phase3/Tests/Audit.antt =====
-- The audit with one row and a torn tail, to which a row is appended by a process that dies.
use ha_mcp.Prelude.{
  ℕ, arith, zero, suc, ◌+◌, ◌≤◌, ◌≡◌, ◌≢◌, ◌⊎◌, refl, Bool, true, false, Option, none, some, List,
  [], ◌∷◌, ◌++◌, length, nat_beq, if◌then◌else◌, if-cases,
}
use ha_mcp.Prelude.Results.{ok}
use ha_mcp.Phase3.Paths.{units}
use ha_mcp.Phase3.Audit.{
  AuditRecord, attempt, Json, newline, committed, torn_tail, rows_from, starts_with, row_prefix,
  is_complete, is_record_or_torn, is_valid_row, is_valid_tail, scan_audit, audit_bytes, Calls,
  append,
}
use ha_mcp.Phase3.Audit.Progress.{IsQuiet, append-quiet}
use ha_mcp.Phase3.Audit.Keeps.{IsRow, Keeps}
use ha_mcp.Phase3.Audit.Survives.{IsAdded, append-Keeps}

abbrev attempted : AuditRecord
attempted = record {
  event = attempt;
  has_proposal = true;
  has_storage_sha256 = false;
  has_displayed_sha256 = false;
  has_grant = false;
  has_transaction = false;
  has_state = false;
}

abbrev row : List ℕ
row = units "{\"timestamp\":1}"

abbrev json : Json
json text = if nat_beq (length text) 15 then some (some attempted) else none

abbrev is_utf8 : List ℕ → Bool
is_utf8 bytes = true

abbrev bytes : List ℕ
bytes = row ++ newline ∷ units "{\"time"

good_row : IsRow json is_utf8 row
unfolding is_valid_row is_complete starts_with row_prefix
good_row = record {
  bare = refl;
  valid = refl;
  printable = refl;
  timed = refl;
  torn = λ out more start.
      if-cases (λ (o : Option (Option AuditRecord)). is_record_or_torn o ≡ true)
        (nat_beq (length out) 15) {x = some (some attempted)} {y = none} (λ whole. refl)
        (λ short. refl);
  encoded = λ b h. refl;
}

scanned : scan_audit json is_utf8 true bytes ≡ ok (committed bytes)
unfolding scan_audit committed torn_tail rows_from is_valid_row is_valid_tail is_complete
    starts_with row_prefix
scanned = refl

abbrev calls : Calls
calls = record {
  lease_first = true;
  opened = true;
  looks = true;
  lease_second = true;
  truncated = true;
  truncate_synced = true;
  writes = some 4 ∷ [];
  synced = true;
  directory_synced = true;
}

append-Keeps_example :
    Keeps json is_utf8 row bytes (append json is_utf8 calls (row ++ newline ∷ []) bytes).0
    × (((append json is_utf8 calls (row ++ newline ∷ []) bytes).1 ≢ some (ok tt))
        ⊎ IsAdded json is_utf8 row bytes (append json is_utf8 calls (row ++ newline ∷ []) bytes).0)
append-Keeps_example = append-Keeps json is_utf8 calls row bytes good_row scanned

-- A process to which nothing happens: the line is written in two parts.
abbrev quiet_calls : Calls
quiet_calls = record {
  lease_first = true;
  opened = true;
  looks = true;
  lease_second = true;
  truncated = true;
  truncate_synced = true;
  writes = repeat 16 (some 9);
  synced = true;
  directory_synced = true;
}
  where
    repeat : ℕ → Option ℕ → List (Option ℕ)
    repeat zero w = []
    repeat (suc n) w = w ∷ repeat n w

quiet : IsQuiet quiet_calls (row ++ newline ∷ [])
quiet = record {
  lease_first = refl;
  opened = refl;
  looks = refl;
  lease_second = refl;
  truncated = refl;
  truncate_synced = refl;
  written = refl;
  enough = omega arith;
  synced = refl;
  directory_synced = refl;
}

has_room : length (committed bytes) + length (row ++ newline ∷ []) ≤ audit_bytes
unfolding committed
has_room = omega arith

append-quiet_example :
    append json is_utf8 quiet_calls (row ++ newline ∷ []) bytes
    ≡ (committed bytes ++ (row ++ newline ∷ []), some (ok tt))
append-quiet_example =
    append-quiet json is_utf8 quiet_calls (row ++ newline ∷ []) bytes quiet scanned has_room
