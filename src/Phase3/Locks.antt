-- ===== src/Phase3/Locks.antt =====
-- phase3/resourceLocks.ts: `Phase3ResourceLocks`, the one mutation queue. The event loop runs one
-- callback at a time, so each call below is a step of its own. The clock and the signals are read
-- as arguments: `now`, and whether the signal of a context is aborted.
pub mod Invariant
pub mod Order
pub mod Settling
use ha_mcp.Prelude.{
  ℕ, suc, String, Bool, true, false, not, ◌&&◌, ◌||◌, Option, none, some, List, [], ◌∷◌, ◌++◌,
  nat_beq, ◌==◌, string_eq, leb, length, if◌then◌else◌,
}
use ha_mcp.Phase3.Paths.{is_canonical_path}

-- `Phase3LockErrorCode`.
pub data LockError : Type 0 where
  invalid_path deadline_exceeded operation_cancelled max_waiters_exceeded : LockError

-- A waiter of the queue. `id` names the promise that it settles, `deadline_at` and `signal` are its
-- context's. A waiter in the queue is `active`: what settles it takes it out first.
pub record Waiter : Type 0 where
  pub id : ℕ
  pub path : String
  pub signal : ℕ
  pub deadline_at : ℕ

-- `Phase3LockLease`: the number of the lease and its path; `released` of its closure is kept in the
-- list of leases.
pub record Lease : Type 0 where
  pub id : ℕ
  pub path : String
  pub released : Bool

-- How a promise of `acquire` ends: with a lease of the same number, or an error.
pub data Settled : Type 0 where
  resolved : ℕ → Settled
  rejected : ℕ → LockError → Settled

pub record Locks : Type 0 where
  pub held : Bool
  pub queue : List Waiter
  pub max_waiters : ℕ
  -- the closures of the leases that were handed out, and the next number
  pub leases : List Lease
  pub next_id : ℕ
  -- the promises that have ended, in order
  pub log : List Settled

unfoldable pub new_locks : ℕ → Locks
new_locks max_waiters = record {
  held = false;
  queue = [];
  max_waiters = max_waiters;
  leases = [];
  next_id = 0;
  log = [];
}

-- `assertActive` of a context: the error that it throws.
unfoldable pub assert_active : Bool → ℕ → ℕ → Option LockError
assert_active aborted now deadline_at =
    if aborted
    then some operation_cancelled
    else if leb deadline_at now
    then some deadline_exceeded
    else none

-- `lease`.
abbrev pub hand_out : ℕ → String → Locks → Locks
hand_out id path s = record s {
  held = true;
  leases = record { id = id; path = path; released = false } ∷ s.leases;
  log = s.log ++ (resolved id ∷ []);
}

-- The promise is rejected; nothing else changes.
abbrev pub reject : ℕ → LockError → Locks → Locks
reject id e s = record s { log = s.log ++ (rejected id e ∷ []) }

-- What follows a test that may have thrown: `ok`, or the rejection in `t`.
abbrev pub refuse_or : Option LockError → ℕ → Locks → Locks → Locks
refuse_or none id ok t = ok
refuse_or (some e) id ok t = reject id e t

-- The promise waits at the end of the queue.
abbrev pub wait_in_line : String → ℕ → ℕ → Locks → Locks
wait_in_line path signal deadline_at s = record s {
  next_id = suc s.next_id;
  queue =
      s.queue
      ++ (record { id = s.next_id; path = path; signal = signal; deadline_at = deadline_at } ∷ []);
}

-- `acquireQueue` of a context that passed its first test, while no lease is out.
abbrev pub enter_free : String → ℕ → Bool → ℕ → Locks → Locks
enter_free path deadline_at aborted now s =
    refuse_or (assert_active aborted now deadline_at) s.next_id
      (hand_out s.next_id path (record s { next_id = suc s.next_id }))
      (record s { next_id = suc s.next_id })

-- The same while a lease is out. `now` is the clock at the second test, `later` at the delay.
abbrev pub enter_busy : String → ℕ → ℕ → Bool → ℕ → ℕ → Locks → Locks
enter_busy path signal deadline_at aborted now later s =
    if leb s.max_waiters (length s.queue)
    then reject s.next_id max_waiters_exceeded (record s { next_id = suc s.next_id })
    else refuse_or (assert_active aborted now deadline_at) s.next_id
        (if leb deadline_at later
          then reject s.next_id operation_cancelled (record s { next_id = suc s.next_id })
          else wait_in_line path signal deadline_at s)
        (record s { next_id = suc s.next_id })

unfoldable pub enter_queue : String → ℕ → ℕ → Bool → ℕ → ℕ → Locks → Locks
enter_queue path signal deadline_at aborted now later s =
    if not s.held
    then enter_free path deadline_at aborted now s
    else enter_busy path signal deadline_at aborted now later s

-- `acquireQueue`. The clock is read three times: at the two
-- tests and for the delay of the timer; a signal does not change within the call.
unfoldable pub acquire_queue : String → ℕ → ℕ → Bool → ℕ → ℕ → ℕ → Locks → Locks
acquire_queue path signal deadline_at aborted first now later s =
    refuse_or (assert_active aborted first deadline_at) s.next_id
      (enter_queue path signal deadline_at aborted now later s)
      (record s { next_id = suc s.next_id })

-- `acquire`: the path is tested first. `normalize("NFC")` is the JavaScript library's.
unfoldable pub acquire : (String → String) → String → ℕ → ℕ → Bool → ℕ → ℕ → ℕ → Locks → Locks
acquire nfc path signal deadline_at aborted first now later s =
    if is_canonical_path nfc path
    then acquire_queue path signal deadline_at aborted first now later s
    else reject s.next_id invalid_path (record s { next_id = suc s.next_id })

-- `acquireRecovery`.
unfoldable pub acquire_recovery : ℕ → ℕ → Bool → ℕ → ℕ → ℕ → Locks → Locks
acquire_recovery signal deadline_at aborted first now later s =
    acquire_queue "startup recovery" signal deadline_at aborted first now later s

-- `removeWaiter`.
unfoldable pub remove_waiter : ℕ → List Waiter → List Waiter
remove_waiter id [] = []
remove_waiter id (x ∷ xs) = if nat_beq x.id id then xs else x ∷ remove_waiter id xs

unfoldable pub is_waiting : ℕ → List Waiter → Bool
is_waiting id [] = false
is_waiting id (x ∷ xs) = nat_beq x.id id || is_waiting id xs

-- The `abort` listener of a waiter and its timer: an active waiter leaves the queue and is rejected.
unfoldable pub expire : ℕ → LockError → Locks → Locks
expire id e s =
    if is_waiting id s.queue then reject id e (record s { queue = remove_waiter id s.queue }) else s

-- The loop of the private `release`: waiters that are cancelled or late are rejected, the first
-- other one gets the lease. `now` is the clock as it is read for each waiter.
unfoldable pub pass_on : (ℕ → Bool) → (ℕ → ℕ) → List Waiter → Locks → Locks
pass_on aborted now [] s = record s { held = false; queue = [] }
pass_on aborted now (x ∷ xs) s = elim (assert_active (aborted x.signal) (now x.id) x.deadline_at) [
  | some e ↦ pass_on aborted now xs (reject x.id e s)
  | none ↦ hand_out x.id x.path (record s { queue = xs })
]

unfoldable pub mark_released : ℕ → List Lease → List Lease
mark_released id [] = []
mark_released id (l ∷ ls) =
    if nat_beq l.id id then record l { released = true } ∷ ls else l ∷ mark_released id ls

unfoldable pub is_unreleased : ℕ → List Lease → Bool
is_unreleased id [] = false
is_unreleased id (l ∷ ls) = if nat_beq l.id id then not l.released else is_unreleased id ls

-- `release` of a lease: the second call does nothing.
unfoldable pub release : ℕ → (ℕ → Bool) → (ℕ → ℕ) → Locks → Locks
release id aborted now s =
    if is_unreleased id s.leases
    then pass_on aborted now s.queue (record s { leases = mark_released id s.leases })
    else s

-- `waiterCount`.
unfoldable pub count_waiters : String → List Waiter → ℕ
count_waiters path [] = 0
count_waiters path (x ∷ xs) =
    let rest = count_waiters path xs in if x.path == path then suc rest else rest

unfoldable pub waiter_count : (String → String) → String → Locks → ℕ
waiter_count nfc path s = if is_canonical_path nfc path then count_waiters path s.queue else 0
