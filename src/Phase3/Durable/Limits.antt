-- ===== src/Phase3/Durable/Limits.antt =====
-- phase3/journal.ts: `PHASE3_JOURNAL_LIMITS`; `versionWidth` is that of the names.
use ha_mcp.Prelude.{ℕ, ◌*◌}

abbrev pub transactions : ℕ
transactions = 64

abbrev pub final_entries : ℕ
final_entries = 512

abbrev pub pending_entries : ℕ
pending_entries = 64

abbrev pub history_per_transaction : ℕ
history_per_transaction = 128

abbrev pub record_bytes : ℕ
record_bytes = 64 * 1024

abbrev pub aggregate_bytes : ℕ
aggregate_bytes = 32 * 1024 * 1024

abbrev pub scan_entries : ℕ
scan_entries = 1024
