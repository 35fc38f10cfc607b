-- ===== src/Phase3/Coordinator.antt =====
-- phase3/applyCoordinator.ts: `Phase3ApplyCoordinator` over its ports.
pub mod Manual
pub mod Rollback
pub mod Commit
pub mod Apply
pub mod Recover
pub mod Table
