-- ===== src/Bridge/Tests.antt =====
-- Runs of the life cycle on concrete inputs.
mod Lifecycle
