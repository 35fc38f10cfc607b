-- ===== src/Bridge.antt =====
-- The bridge of src: its life cycle.
pub mod Lifecycle
pub mod Tests
