-- ===== src/Phase3/Locks/Invariant.antt =====
-- phase3/resourceLocks.ts: the leases that are out and the length of the queue.
use ha_mcp.Prelude.{
  ℕ, suc, ◌≤◌, ◌≡◌, String, Bool, true, false, List, [], ◌∷◌, arith, length, length-append,
  Bool-cases, Option-cases, inl, inr, if◌then◌else◌, if-cases,
}
use ha_mcp.Phase3.Paths.{is_canonical_path}
use ha_mcp.Phase3.Locks.{
  LockError, Waiter, Lease, Locks, new_locks, assert_active, hand_out, reject, enter_queue,
  acquire_queue, acquire, acquire_recovery, remove_waiter, is_waiting, expire, pass_on,
  mark_released, is_unreleased, release,
}

-- How many leases are out.
abbrev pub out : List Lease → ℕ
out [] = 0
out (l ∷ ls) = if l.released then out ls else suc (out ls)

abbrev pub one_if : Bool → ℕ
one_if true = 1
one_if false = 0

pub record IsExclusive (s : Locks) : Type 0 where
  pub one_out : out s.leases ≡ one_if s.held
  pub idle_is_empty : s.held ≡ false → s.queue ≡ []
  pub bounded : length s.queue ≤ s.max_waiters

acquire_queue-IsExclusive :
    (path : String) (signal deadline_at : ℕ) (aborted : Bool) (first now later : ℕ) (s : Locks)
    → IsExclusive s
    → IsExclusive (acquire_queue path signal deadline_at aborted first now later s)
unfolding acquire_queue enter_queue
acquire_queue-IsExclusive path signal deadline_at aborted first now later s h = ground (
  arith,
  length-append s.queue
      (record { id = s.next_id; path = path; signal = signal; deadline_at = deadline_at } ∷ []),
)

acquire-IsExclusive :
    (nfc : String → String) (path : String) (signal deadline_at : ℕ) (aborted : Bool)
    (first now later : ℕ) (s : Locks)
    → IsExclusive s
    → IsExclusive (acquire nfc path signal deadline_at aborted first now later s)
unfolding acquire
acquire-IsExclusive nfc path signal deadline_at aborted first now later s h =
    if-cases IsExclusive (is_canonical_path nfc path)
      (λ parses. acquire_queue-IsExclusive path signal deadline_at aborted first now later s h)
      (λ invalid. ground arith)

length-remove_waiter : (id : ℕ) (xs : List Waiter) → length (remove_waiter id xs) ≤ length xs
unfolding remove_waiter
length-remove_waiter id [] = omega arith
length-remove_waiter id (x ∷ xs) = ground (arith, length-remove_waiter id xs)

expire-IsExclusive :
    (id : ℕ) (e : LockError) (s : Locks) → IsExclusive s → IsExclusive (expire id e s)
unfolding expire is_waiting
expire-IsExclusive id e s h = ground (arith, length-remove_waiter id s.queue)

out-mark_released :
    (id : ℕ) (ls : List Lease)
    → is_unreleased id ls ≡ true
    → suc (out (mark_released id ls)) ≡ out ls
unfolding mark_released is_unreleased
out-mark_released id [] h = cc
out-mark_released id (l ∷ ls) h = ground (arith, out-mark_released id ls)

granted-IsExclusive :
    (x : Waiter) (xs : List Waiter) (s : Locks)
    → out s.leases ≡ 0
    → length xs ≤ s.max_waiters
    → IsExclusive (hand_out x.id x.path (record s { queue = xs }))
granted-IsExclusive x xs s idle bound = ground arith

pass_on-IsExclusive :
    (aborted : ℕ → Bool) (now : ℕ → ℕ) (xs : List Waiter) (s : Locks)
    → out s.leases ≡ 0
    → length xs ≤ s.max_waiters
    → IsExclusive (pass_on aborted now xs s)
unfolding pass_on
pass_on-IsExclusive aborted now [] s idle bound = ground arith
pass_on-IsExclusive aborted now (x ∷ xs) s idle bound =
    elim (Option-cases (assert_active (aborted x.signal) (now x.id) x.deadline_at)) [
      | inl active ↦ rw (active, pass_on) (granted-IsExclusive x xs s idle (omega arith))
      | inr (e, failed) ↦
          rw (failed, pass_on)
            (pass_on-IsExclusive aborted now xs (reject x.id e s) idle (omega arith))
    ]

release-IsExclusive :
    (id : ℕ) (aborted : ℕ → Bool) (now : ℕ → ℕ) (s : Locks)
    → IsExclusive s
    → IsExclusive (release id aborted now s)
unfolding release
release-IsExclusive id aborted now s h = elim (Bool-cases (is_unreleased id s.leases)) [
  | inl out_now ↦ rw out_now (
      pass_on-IsExclusive aborted now s.queue _
        (ground (arith, out-mark_released id s.leases out_now)) h.bounded)
  | inr gone ↦ rw gone h
]

-- The locks after any calls, in any order, at any readings of the clock and the signals.
pub data Session (max_waiters : ℕ) : Locks → Type 0 where
  start : Session max_waiters (new_locks max_waiters)
  acquired :
      {s : Locks} (nfc : String → String) (path : String) (signal deadline_at : ℕ) (aborted : Bool)
      (first now later : ℕ)
      → Session max_waiters s
      → Session max_waiters (acquire nfc path signal deadline_at aborted first now later s)
  recovering :
      {s : Locks} (signal deadline_at : ℕ) (aborted : Bool) (first now later : ℕ)
      → Session max_waiters s
      → Session max_waiters (acquire_recovery signal deadline_at aborted first now later s)
  expired :
      {s : Locks} (id : ℕ) (e : LockError)
      → Session max_waiters s
      → Session max_waiters (expire id e s)
  let_go :
      {s : Locks} (id : ℕ) (aborted : ℕ → Bool) (now : ℕ → ℕ)
      → Session max_waiters s
      → Session max_waiters (release id aborted now s)

new_locks-IsExclusive : (max_waiters : ℕ) → IsExclusive (new_locks max_waiters)
unfolding new_locks
new_locks-IsExclusive max_waiters = ground arith

pub Session-IsExclusive : {m : ℕ} {s : Locks} → Session m s → IsExclusive s
unfolding acquire_recovery
Session-IsExclusive {m} start = new_locks-IsExclusive m
Session-IsExclusive (acquired {s} nfc path signal deadline_at aborted first now later h) =
    acquire-IsExclusive nfc path signal deadline_at aborted first now later s
      (Session-IsExclusive h)
Session-IsExclusive (recovering {s} signal deadline_at aborted first now later h) =
    acquire_queue-IsExclusive "startup recovery" signal deadline_at aborted first now later s
      (Session-IsExclusive h)
Session-IsExclusive (expired {s} id e h) = expire-IsExclusive id e s (Session-IsExclusive h)
Session-IsExclusive (let_go {s} id aborted now h) =
    release-IsExclusive id aborted now s (Session-IsExclusive h)

-- In every session at most one lease is out: one if the queue is held and none if not. No one waits
-- while the queue is free, and no more than `max_waiters` ever wait.
pub mutual_exclusion :
    {m : ℕ} {s : Locks}
    → Session m s
    → (out s.leases ≡ one_if s.held)
      × (s.held ≡ false → s.queue ≡ [])
      × (length s.queue ≤ s.max_waiters)
mutual_exclusion h = let e = Session-IsExclusive h in (e.one_out, e.idle_is_empty, e.bounded)
