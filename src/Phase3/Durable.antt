-- ===== src/Phase3/Durable.antt =====
-- phase3/journal.ts: `DurablePhase3Journal`. The directory of final entries is a list, in the order of
-- their names; what the platform finds wrong with an entry is part of it.
pub mod Limits
pub mod Faults
pub mod Histories
pub mod Scan
pub mod Append
pub mod Store
pub mod Operations
pub mod Health
use ha_mcp.Prelude.{String}
