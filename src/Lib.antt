-- ===== src/Lib.antt =====
-- The guarded apply workflow of HA-MCP: how a proposed change of a Home Assistant
-- configuration file is applied, verified, rolled back, and recovered after a crash, and how
-- the records of it are archived and audited; how the bridge to the server shuts down; the
-- store of the clients that are paired with the server; and the cursors of lists of
-- proposals.
--
-- The parts and how they interact. The coordinator (src/phase3/applyCoordinator.ts)
-- loads a proposal, asks the policy, takes the one mutation lease, reads the source,
-- consumes an approval grant, saves a checkpoint, makes the intent durable, replaces
-- the file, validates, reloads and verifies, and rolls back on any failure. Each step
-- is a transition of a transaction record in the journal, a compare-and-swap on the
-- record's version. What cannot be settled ends in manual recovery. At startup
-- `recover` goes through the records of the journal and settles each by its state and
-- the digest of the live file.
--
-- The files, after the paths of the repository:
-- - Prelude: the names that the modules share; Boolean tests, equality by instances,
--   lists over the native numbers, maps keyed by texts, results that are returned or thrown.
-- - Phase3/States, Phase3/Paths, Phase3/Records: src/phase3/contracts.ts. The states
--   and `phase3LegalTransitions`, the path and digest schemas, the records with the
--   refinements of their schemas, `phase3CanRecordTransition`.
-- - Phase3/Effects: exceptions and state. A method is a function from the world to an
--   outcome (a value, or what it throws) and the world after it; Effects/Triples has
--   the rules for what holds after a method.
-- - Phase3/Faults: what the coordinator reads from a thrown value.
-- - Phase3/Ports: `Phase3ApplyCoordinatorPorts`, with the clock, the digest and the
--   signals. The ports are parameters: nothing is assumed of them but what a theorem
--   names.
-- - Phase3/Coordinator: `Phase3ApplyCoordinator`, one function for each method, in
--   Manual, Rollback, Commit, Apply and Recover; Table has `phase3RecoveryTable` of
--   src/phase3/contracts.ts. A method with several `await`s under tests is cut into
--   functions named for the step.
-- - Phase3/Contract, Phase3/Discipline: an interface that a world and its ports fill
--   (an invariant, what is known of a record, a law for each port), and that every
--   method of the coordinator keeps it. Phase3/Terminal fills it for any ports over a
--   journal of which only the states of the records are known.
-- - Phase3/Intent: such an interface, built from what is known of the intents alone.
-- - Phase3/Traced: ports that log what becomes durable and what is done to the live system,
--   and what it means that the log was written ahead.
-- - Phase3/Names: the names in the directory of the durable journal, src/phase3/journal.ts.
-- - Phase3/Durable: `DurablePhase3Journal`, of the same file. Scan reads a directory, whose
--   items carry what the file system says of them; Histories is `buildHistories`; Append is
--   `append`, where an argument says how each call of the file system ends; Store has the
--   tests of `createIntent` and `transition`; Health has `initialize` and the health
--   flag; Operations has the four operations, on the health and the directory.
-- - Phase3/Journal: `InMemoryPhase3Journal`, of the same file.
-- - Phase3/Policy: `GuardedPhase3PolicyPort`, of the same file.
-- - Phase3/Locks: src/phase3/resourceLocks.ts.
-- - Phase3/Approval: `InjectedApprovalGrantPort`, src/phase3/approval.ts.
-- - Phase3/Atomic: src/phase3/atomicApply.ts. Frame is what the native helper prints, Classify what
--   its end says of the commit, Pool the permits and the waiters, Runner the process as a
--   machine that its events drive, Replace the port.
-- - Phase3/Retention: src/phase3/retention.ts. Epochs is an epoch's directory and the tests of
--   it, Disk the parent directory and its calls, each of which may fail, Rotation and Operations
--   the methods; Rules, Checks, Restart, Finish, Completes and Rotates follow a rotation
--   through every point at which a call may fail, with the stage of the header that
--   src/phase3/durableApproval.ts writes, Stuck is about where that stage is left, and Refuses says what is never
--   archived.
-- - Phase3/Audit: src/phase3/operatorAudit.ts, on the bytes of the file. Lines is about complete
--   rows and the loop of the writes, Keeps and Survives about the file that `append` leaves,
--   Progress about its end.
-- - Bridge/Lifecycle: `BridgeLifecycle`, src/bridgeLifecycle.ts, a function for each callback and for
--   what `performShutdown` does when what it waits for settles; `Life` is any order of them. Settles is
--   about the timer and `done`, Closes about what is closed.
-- - Security/Pairing: `PairingStore`, src/security/pairing.ts.
-- - Proposals/Cursor: `ProposalCursorCodec`, src/proposals/cursor.ts.
-- - Phase3/Tests: a simulated platform that the whole workflow runs on, and runs; Security/Tests,
--   Proposals/Tests and Bridge/Tests: runs of the store, of the cursors and of the bridge.
--
-- Bounds and fuel. No definition runs on fuel of the model's own. The loop of `manual`
-- makes four attempts in the source, and counts them down here. Versions and times are
-- natural numbers: a version is at most twelve in any session, far below the integers
-- that JavaScript counts exactly, and times are milliseconds from the year 0. Texts are
-- measured in UTF-16 units, as JavaScript does; lone surrogates are left out.
--
-- The order of events. Asynchronous methods run to their end, since the lease keeps two
-- workflows apart. In the lock queue and the journal each call is a step of its own, and
-- a session is any sequence of steps at any readings of the clock and of the signals. An
-- operation of the durable journal runs to its end on the entries and the pending directories; what
-- another process does shows only in how a call of the file system ends. The calls of the
-- pairing store run one after the other. A life of the bridge is any sequence of callbacks, with the
-- ends attached before the startup is finished.
--
-- Not modelled: the formats of UUIDs and datetimes, Unicode normalization, SHA-256, HMAC, scrypt,
-- base64url, the parsing of dates, JSON and UTF-8, and the order of `localeCompare`, which are the
-- platform's and are parameters; checkpoints, src/phase3/checkpoints.ts, which the coordinator
-- sees as a port; the native helper, which prints a frame; directory entries that a crash
-- loses because they were not synced;
-- durable approvals and the operator's runtime and lease; the listeners of the pairing store and
-- calls of it that overlap; src/guardedChanges.ts; the rest of the bridge, which is transport; and
-- the other files and directories of src/, which serve requests and read repositories.
pub mod Bridge
pub mod Prelude
pub mod Phase3
pub mod Proposals
pub mod Security
