-- ===== src/Phase3.antt =====
-- The guarded apply workflow (src/phase3).
pub mod States
pub mod Paths
pub mod Names
pub mod Records
pub mod Effects
pub mod Faults
pub mod Ports
pub mod Coordinator
pub mod Contract
pub mod Discipline
pub mod Intent
pub mod Terminal
pub mod Traced
pub mod Journal
pub mod Locks
pub mod Durable
pub mod Policy
pub mod Approval
pub mod Atomic
pub mod Retention
pub mod Audit
mod Tests
