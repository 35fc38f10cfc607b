-- ===== src/Security/Tests.antt =====
-- Runs of the model of src/security on concrete inputs.
mod Pairing
