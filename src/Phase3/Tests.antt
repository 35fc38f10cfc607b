-- ===== src/Phase3/Tests.antt =====
-- Runs of the model of src/phase3 on concrete inputs.
mod Sim
mod Workflow
mod Records
mod Journal
mod Recovery
mod Durable
mod Directory
mod Locks
mod Approval
mod Atomic
mod Retention
mod Audit
