-- ===== src/Phase3/Retention.antt =====
-- phase3/retention.ts: offline epochs. `Epochs` is an epoch's directory and what is tested of it,
-- `Disk` the parent directory and the calls that change it, `Rotation` the operations.
pub mod Epochs
pub mod Disk
pub mod Rotation
pub mod Operations
pub mod Rules
pub mod Fresh
pub mod Shapes
pub mod Checks
pub mod Restart
pub mod Finish
pub mod Completes
pub mod Stuck
pub mod Rotates
pub mod Refuses
