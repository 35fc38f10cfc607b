-- ===== src/Proposals/Tests.antt =====
-- Runs of the model of src/proposals on concrete inputs.
mod Cursor
