-- ===== src/Security.antt =====
-- The modules of src/security.
pub mod Pairing
pub mod Tests
