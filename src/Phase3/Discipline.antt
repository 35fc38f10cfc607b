-- ===== src/Phase3/Discipline.antt =====
-- phase3/applyCoordinator.ts: the methods of the coordinator, under the contract of the ports.
pub mod Manual
pub mod Rollback
pub mod Restore
pub mod Commit
pub mod Apply
pub mod Recover
