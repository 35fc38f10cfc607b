-- ===== src/Phase3/Locks/Settling.antt =====
-- phase3/resourceLocks.ts: the promises that the calls of `acquire` left.
use ha_mcp.Prelude.{
  ℕ, suc, not, leb, ◌+◌, ◌≡◌, String, Bool, true, Option, none, some, List, [], ◌∷◌, arith, length,
  length-append, Option-cases, if-cases, inl, inr,
}
use ha_mcp.Phase3.Paths.{is_canonical_path}
use ha_mcp.Phase3.Locks.{
  LockError, Waiter, resolved, rejected, Locks, new_locks, assert_active, hand_out, reject,
  refuse_or, enter_queue, acquire_queue, acquire, acquire_recovery, invalid_path,
  max_waiters_exceeded, operation_cancelled, enter_free, enter_busy, remove_waiter, is_waiting,
  expire, pass_on, mark_released, is_unreleased, release,
}
use ha_mcp.Phase3.Locks.Invariant.{Session, start, acquired, recovering, expired, let_go}

-- As many promises are settled or wait as calls were made.
record Accounts (s : Locks) : Type 0 where
  pub total : length s.log + length s.queue ≡ s.next_id

reject-Accounts :
    (s : Locks)
    → Accounts s
    → (e : LockError) → Accounts (reject s.next_id e (record s { next_id = suc s.next_id }))
reject-Accounts s h e = record {
  total = omega (arith, length-append s.log (rejected s.next_id e ∷ []), h.total);
}

refused_or-Accounts :
    (o : Option LockError) (s t : Locks)
    → Accounts s
    → Accounts t
    → Accounts (refuse_or o s.next_id t (record s { next_id = suc s.next_id }))
refused_or-Accounts none s t h k = k
refused_or-Accounts (some e) s t h k = reject-Accounts s h e

hand_out-Accounts :
    (path : String) (s : Locks)
    → Accounts s
    → Accounts (hand_out s.next_id path (record s { next_id = suc s.next_id }))
hand_out-Accounts path s h = record {
  total = omega (arith, length-append s.log (resolved s.next_id ∷ []), h.total);
}

enter_queue-Accounts :
    (path : String) (signal deadline_at : ℕ) (aborted : Bool) (now later : ℕ) (s : Locks)
    → Accounts s
    → Accounts (enter_queue path signal deadline_at aborted now later s)
unfolding enter_queue
enter_queue-Accounts path signal deadline_at aborted now later s h =
    if-cases Accounts (not s.held) {x = enter_free path deadline_at aborted now s}
      {y = enter_busy path signal deadline_at aborted now later s}
      (λ free.
        refused_or-Accounts (assert_active aborted now deadline_at) s _ h
          (hand_out-Accounts path s h))
      (λ busy.
        if-cases Accounts (leb s.max_waiters (length s.queue))
          (λ full. reject-Accounts s h max_waiters_exceeded)
          (λ room. refused_or-Accounts (assert_active aborted now deadline_at) s _ h (
            if-cases Accounts (leb deadline_at later)
              (λ late. reject-Accounts s h operation_cancelled)
              (λ early. record {
                total = omega (
                  arith,
                  length-append s.queue (
                      record {
                        id = s.next_id;
                        path = path;
                        signal = signal;
                        deadline_at = deadline_at;
                      }
                      ∷ []),
                  h.total,
                );
              }))))

acquire_queue-Accounts :
    (path : String) (signal deadline_at : ℕ) (aborted : Bool) (first now later : ℕ) (s : Locks)
    → Accounts s
    → Accounts (acquire_queue path signal deadline_at aborted first now later s)
unfolding acquire_queue
acquire_queue-Accounts path signal deadline_at aborted first now later s h =
    refused_or-Accounts (assert_active aborted first deadline_at) s _ h
      (enter_queue-Accounts path signal deadline_at aborted now later s h)

length-remove_waiter :
    (id : ℕ) (xs : List Waiter)
    → is_waiting id xs ≡ true
    → suc (length (remove_waiter id xs)) ≡ length xs
unfolding remove_waiter is_waiting
length-remove_waiter id [] h = ground arith
length-remove_waiter id (x ∷ xs) h = ground (arith, length-remove_waiter id xs)

expire-Accounts : (id : ℕ) (e : LockError) (s : Locks) → Accounts s → Accounts (expire id e s)
unfolding expire
expire-Accounts id e s h =
    ground (arith, length-remove_waiter id s.queue, length-append s.log (rejected id e ∷ []))

pass_on-Accounts :
    (aborted : ℕ → Bool) (now : ℕ → ℕ) (xs : List Waiter) (s : Locks)
    → length s.log + length xs ≡ s.next_id
    → Accounts (pass_on aborted now xs s)
unfolding pass_on
pass_on-Accounts aborted now [] s h = record { total = h }
pass_on-Accounts aborted now (x ∷ xs) s h =
    elim (Option-cases (assert_active (aborted x.signal) (now x.id) x.deadline_at)) [
      | inl active ↦
          rw (active, pass_on)
            (record { total = omega (arith, length-append s.log (resolved x.id ∷ []), h) })
      | inr (e, failed) ↦
          rw (failed, pass_on)
            (pass_on-Accounts aborted now xs (reject x.id e s)
              (omega (arith, length-append s.log (rejected x.id e ∷ []), h)))
    ]

release-Accounts :
    (id : ℕ) (aborted : ℕ → Bool) (now : ℕ → ℕ) (s : Locks)
    → Accounts s
    → Accounts (release id aborted now s)
unfolding release
release-Accounts id aborted now s h =
    if-cases Accounts (is_unreleased id s.leases)
      (λ held.
        pass_on-Accounts aborted now s.queue (record s { leases = mark_released id s.leases })
          h.total)
      (λ gone. h)

acquire-Accounts :
    (nfc : String → String) (path : String) (signal deadline_at : ℕ) (aborted : Bool)
    (first now later : ℕ) (s : Locks)
    → Accounts s
    → Accounts (acquire nfc path signal deadline_at aborted first now later s)
unfolding acquire
acquire-Accounts nfc path signal deadline_at aborted first now later s h =
    if-cases Accounts (is_canonical_path nfc path)
      (λ parses. acquire_queue-Accounts path signal deadline_at aborted first now later s h)
      (λ invalid. reject-Accounts s h invalid_path)

new_locks-Accounts : (m : ℕ) → Accounts (new_locks m)
unfolding new_locks
new_locks-Accounts m = ground arith

Session-Accounts : {m : ℕ} {s : Locks} → Session m s → Accounts s
unfolding acquire_recovery
Session-Accounts {m} start = new_locks-Accounts m
Session-Accounts (acquired {s} nfc path signal deadline_at aborted first now later h) =
    acquire-Accounts nfc path signal deadline_at aborted first now later s (Session-Accounts h)
Session-Accounts (recovering {s} signal deadline_at aborted first now later h) =
    acquire_queue-Accounts "startup recovery" signal deadline_at aborted first now later s
      (Session-Accounts h)
Session-Accounts (expired {s} id e h) = expire-Accounts id e s (Session-Accounts h)
Session-Accounts (let_go {s} id aborted now h) =
    release-Accounts id aborted now s (Session-Accounts h)

-- In every session as many promises are settled or still wait as calls of `acquire` and
-- `acquireRecovery` were made: no step loses a caller or settles more than one promise for it.
pub Session-total : {m : ℕ} {s : Locks} → Session m s → length s.log + length s.queue ≡ s.next_id
Session-total h = (Session-Accounts h).total
