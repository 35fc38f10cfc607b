-- ===== src/Phase3/Tests/Locks.antt =====
-- The lock queue in a short session: one caller holds the lease, a second one waits for it.
use ha_mcp.Prelude.{◌≤◌, ◌≡◌, false, [], ◌++◌, length}
use ha_mcp.Phase3.Locks.{Locks, new_locks, acquire, release}
use ha_mcp.Phase3.Locks.Invariant.{Session, start, acquired, let_go, out, one_if, mutual_exclusion}
use ha_mcp.Phase3.Locks.Order.{Ascends, granted, ids, first_come_first_served}

abbrev first_held : Locks
first_held = acquire (λ s. s) "a.yaml" 0 100 false 1 1 1 (new_locks 64)

abbrev second_waits : Locks
second_waits = acquire (λ s. s) "b.yaml" 1 100 false 2 2 2 first_held

abbrev passed_on : Locks
passed_on = release 0 (λ signal. false) (λ id. 3) second_waits

session : Session 64 passed_on
session =
    let_go 0 (λ signal. false) (λ id. 3)
      (acquired (λ s. s) "b.yaml" 1 100 false 2 2 2
        (acquired (λ s. s) "a.yaml" 0 100 false 1 1 1 start))

mutual_exclusion_example :
    (out passed_on.leases ≡ one_if passed_on.held)
    × (passed_on.held ≡ false → passed_on.queue ≡ [])
    × (length passed_on.queue ≤ passed_on.max_waiters)
mutual_exclusion_example = mutual_exclusion session

first_come_first_served_example : Ascends 0 (granted passed_on.log ++ ids passed_on.queue)
first_come_first_served_example = first_come_first_served session
