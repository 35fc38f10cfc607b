-- ===== src/Proposals.antt =====
-- The modules of src/proposals.
pub mod Cursor
pub mod Tests
