-- ===== src/Phase3/Locks/Order.antt =====
-- phase3/resourceLocks.ts: the order in which leases are granted.
use ha_mcp.Prelude.{
  ℕ, suc, ◌≤◌, ◌≡◌, refl, sym, ap, subst, String, Bool, Option, none, some, List, [], ◌∷◌, ◌++◌,
  arith, length, Bool-cases, Option-cases, if-cases, inl, inr, nat_beq, leb, not, if◌then◌else◌,
}
use mathlib.Core.List.{append_assoc, append-nil}
use ha_mcp.Phase3.Paths.{is_canonical_path}
use ha_mcp.Phase3.Locks.{
  LockError, Waiter, Settled, resolved, rejected, Locks, new_locks, assert_active, hand_out, reject,
  refuse_or, enter_free, enter_busy, wait_in_line, enter_queue, acquire_queue, acquire,
  acquire_recovery, invalid_path, max_waiters_exceeded, operation_cancelled, remove_waiter,
  is_waiting, expire, pass_on, mark_released, is_unreleased, release,
}
use ha_mcp.Phase3.Locks.Invariant.{
  Session, start, acquired, recovering, expired, let_go, IsExclusive, Session-IsExclusive,
}

-- The promises that got a lease, in order.
abbrev pub granted : List Settled → List ℕ
granted [] = []
granted (resolved id ∷ log) = id ∷ granted log
granted (rejected id e ∷ log) = granted log

abbrev pub ids : List Waiter → List ℕ
ids [] = []
ids (x ∷ xs) = x.id ∷ ids xs

-- Each number is at least `lo` and above the one before it.
abbrev pub Ascends : ℕ → List ℕ → Type 0
Ascends lo [] = Unit
Ascends lo (n ∷ ns) = (lo ≤ n) × Ascends (suc n) ns

-- The leases granted, then those who wait, then the number of the next call, ascend.
abbrev Ordered : Locks → Type 0
Ordered s = Ascends 0 (granted s.log ++ (ids s.queue ++ (s.next_id ∷ [])))

granted-append : (a b : List Settled) → granted (a ++ b) ≡ granted a ++ granted b
granted-append [] b = refl
granted-append (resolved id ∷ a) b = ap (λ t. id ∷ t) (granted-append a b)
granted-append (rejected id e ∷ a) b = granted-append a b

ids-append : (a b : List Waiter) → ids (a ++ b) ≡ ids a ++ ids b
ids-append [] b = refl
ids-append (x ∷ a) b = ap (λ t. x.id ∷ t) (ids-append a b)

Ascends-weaken : (lo hi : ℕ) (ns : List ℕ) → hi ≤ lo → Ascends lo ns → Ascends hi ns
Ascends-weaken lo hi [] le h = tt
Ascends-weaken lo hi (n ∷ ns) le h = (omega arith, h.1)

-- The last number may grow, and another may follow it.
Ascends-grow :
    (lo : ℕ) (ns : List ℕ) (n : ℕ) → Ascends lo (ns ++ (n ∷ [])) → Ascends lo (ns ++ (suc n ∷ []))
Ascends-grow lo [] n h = omega arith
Ascends-grow lo (x ∷ ns) n h = (h.0, Ascends-grow (suc x) ns n h.1)

Ascends-next :
    (lo : ℕ) (ns : List ℕ) (n : ℕ)
    → Ascends lo (ns ++ (n ∷ []))
    → Ascends lo (ns ++ (n ∷ suc n ∷ []))
Ascends-next lo [] n h = omega arith
Ascends-next lo (x ∷ ns) n h = (h.0, Ascends-next (suc x) ns n h.1)

Ascends-prefix : (lo : ℕ) (ns ms : List ℕ) → Ascends lo (ns ++ ms) → Ascends lo ns
Ascends-prefix lo [] ms h = tt
Ascends-prefix lo (x ∷ ns) ms h = (h.0, Ascends-prefix (suc x) ns ms h.1)

-- Dropping one number from the middle.
Ascends-drop :
    (lo : ℕ) (ns : List ℕ) (n : ℕ) (ms : List ℕ)
    → Ascends lo (ns ++ (n ∷ ms))
    → Ascends lo (ns ++ ms)
Ascends-drop lo [] n ms h = Ascends-weaken (suc n) lo ms (omega arith) h.1
Ascends-drop lo (x ∷ ns) n ms h = (h.0, Ascends-drop (suc x) ns n ms h.1)

-- Dropping one waiter.
Ascends-remove :
    (lo : ℕ) (ns : List ℕ) (id : ℕ) (xs : List Waiter) (ms : List ℕ)
    → Ascends lo (ns ++ (ids xs ++ ms))
    → Ascends lo (ns ++ (ids (remove_waiter id xs) ++ ms))
unfolding remove_waiter
Ascends-remove lo ns id [] ms h = h
Ascends-remove lo [] id (x ∷ xs) ms h = elim (Bool-cases (nat_beq x.id id)) [
  | inl same ↦ rw same (Ascends-weaken (suc x.id) lo _ (omega arith) h.1)
  | inr other ↦ rw other (h.0, Ascends-remove (suc x.id) [] id xs ms h.1)
]
Ascends-remove lo (n ∷ ns) id (x ∷ xs) ms h = (h.0, Ascends-remove (suc n) ns id (x ∷ xs) ms h.1)

reject-Ordered :
    (e : LockError) (s : Locks)
    → Ordered s
    → Ordered (reject s.next_id e (record s { next_id = suc s.next_id }))
reject-Ordered e s h =
    rw (granted-append s.log (rejected s.next_id e ∷ []), append-nil)
      (rw (← append_assoc (granted s.log) (ids s.queue) (suc s.next_id ∷ [])) (
        Ascends-grow 0 (granted s.log ++ ids s.queue) s.next_id
          (rw (append_assoc (granted s.log) (ids s.queue) (s.next_id ∷ [])) h)))

hand_out-Ordered :
    (path : String) (s : Locks)
    → s.queue ≡ []
    → Ordered s
    → Ordered (hand_out s.next_id path (record s { next_id = suc s.next_id }))
hand_out-Ordered path s idle h =
    rw (granted-append s.log (resolved s.next_id ∷ []), append_assoc)
      (subst (λ q. Ascends 0 (granted s.log ++ (s.next_id ∷ (ids q ++ (suc s.next_id ∷ [])))))
        (sym idle)
        (Ascends-next 0 (granted s.log) s.next_id
          (subst (λ q. Ascends 0 (granted s.log ++ (ids q ++ (s.next_id ∷ [])))) idle h)))

wait-Ordered :
    (path : String) (signal deadline_at : ℕ) (s : Locks)
    → Ordered s
    → Ordered (record s {
      next_id = suc s.next_id;
      queue =
          s.queue
          ++ (record { id = s.next_id; path = path; signal = signal; deadline_at = deadline_at }
              ∷ []);
    })
wait-Ordered path signal deadline_at s h =
    rw
      (ids-append s.queue
        (record { id = s.next_id; path = path; signal = signal; deadline_at = deadline_at } ∷ []))
      (rw (append_assoc (ids s.queue) (s.next_id ∷ []) (suc s.next_id ∷ [])) (
        rw (← append_assoc (granted s.log) (ids s.queue) (s.next_id ∷ suc s.next_id ∷ [])) (
          Ascends-next 0 (granted s.log ++ ids s.queue) s.next_id
            (rw (append_assoc (granted s.log) (ids s.queue) (s.next_id ∷ [])) h))))

pub record InOrder (s : Locks) : Type 0 where
  pub ascends : Ordered s

refuse_or-cases :
    (P : Locks → Type 0) (o : Option LockError) (id : ℕ) (x t : Locks)
    → ((e : LockError) → P (reject id e t))
    → P x
    → P (refuse_or o id x t)
refuse_or-cases P none id x t h k = k
refuse_or-cases P (some e) id x t h k = h e

reject-InOrder :
    (s : Locks)
    → Ordered s
    → (e : LockError) → InOrder (reject s.next_id e (record s { next_id = suc s.next_id }))
reject-InOrder s h e = record { ascends = reject-Ordered e s h }

enter_free-InOrder :
    (path : String) (deadline_at : ℕ) (aborted : Bool) (now : ℕ) (s : Locks)
    → s.queue ≡ []
    → Ordered s
    → InOrder (enter_free path deadline_at aborted now s)
enter_free-InOrder path deadline_at aborted now s idle h =
    refuse_or-cases InOrder (assert_active aborted now deadline_at) s.next_id
      (hand_out s.next_id path (record s { next_id = suc s.next_id }))
      (record s { next_id = suc s.next_id }) (reject-InOrder s h)
      (record { ascends = hand_out-Ordered path s idle h })

enter_busy-InOrder :
    (path : String) (signal deadline_at : ℕ) (aborted : Bool) (now later : ℕ) (s : Locks)
    → Ordered s
    → InOrder (enter_busy path signal deadline_at aborted now later s)
enter_busy-InOrder path signal deadline_at aborted now later s h =
    if-cases InOrder (leb s.max_waiters (length s.queue))
      (λ full. reject-InOrder s h max_waiters_exceeded)
      (λ room.
        refuse_or-cases InOrder (assert_active aborted now deadline_at) s.next_id
          (if leb deadline_at later
            then reject s.next_id operation_cancelled (record s { next_id = suc s.next_id })
            else wait_in_line path signal deadline_at s)
          (record s { next_id = suc s.next_id }) (reject-InOrder s h)
          (if-cases InOrder (leb deadline_at later) (λ late. reject-InOrder s h operation_cancelled)
            (λ early. record { ascends = wait-Ordered path signal deadline_at s h })))

enter_queue-InOrder :
    (path : String) (signal deadline_at : ℕ) (aborted : Bool) (now later : ℕ) (s : Locks)
    → IsExclusive s
    → Ordered s
    → InOrder (enter_queue path signal deadline_at aborted now later s)
unfolding enter_queue
enter_queue-InOrder path signal deadline_at aborted now later s x h =
    if-cases InOrder (not s.held) {x = enter_free path deadline_at aborted now s}
      {y = enter_busy path signal deadline_at aborted now later s}
      (λ free. enter_free-InOrder path deadline_at aborted now s (x.idle_is_empty (ground arith)) h)
      (λ busy. enter_busy-InOrder path signal deadline_at aborted now later s h)

acquire_queue-InOrder :
    (path : String) (signal deadline_at : ℕ) (aborted : Bool) (first now later : ℕ) (s : Locks)
    → IsExclusive s
    → Ordered s
    → InOrder (acquire_queue path signal deadline_at aborted first now later s)
unfolding acquire_queue
acquire_queue-InOrder path signal deadline_at aborted first now later s x h =
    refuse_or-cases InOrder (assert_active aborted first deadline_at) s.next_id
      (enter_queue path signal deadline_at aborted now later s)
      (record s { next_id = suc s.next_id }) (λ e. record { ascends = reject-Ordered e s h })
      (enter_queue-InOrder path signal deadline_at aborted now later s x h)

acquire-InOrder :
    (nfc : String → String) (path : String) (signal deadline_at : ℕ) (aborted : Bool)
    (first now later : ℕ) (s : Locks)
    → IsExclusive s
    → Ordered s
    → InOrder (acquire nfc path signal deadline_at aborted first now later s)
unfolding acquire
acquire-InOrder nfc path signal deadline_at aborted first now later s x h =
    if-cases InOrder (is_canonical_path nfc path)
      (λ parses. acquire_queue-InOrder path signal deadline_at aborted first now later s x h)
      (λ invalid. reject-InOrder s h invalid_path)

expire-Ordered : (id : ℕ) (e : LockError) (s : Locks) → Ordered s → Ordered (expire id e s)
unfolding expire
expire-Ordered id e s h =
    if-cases Ordered (is_waiting id s.queue)
      (λ waiting.
        rw (granted-append s.log (rejected id e ∷ []), append-nil)
          (Ascends-remove 0 (granted s.log) id s.queue (s.next_id ∷ []) h))
      (λ gone. h)

pass_on-Ordered :
    (aborted : ℕ → Bool) (now : ℕ → ℕ) (xs : List Waiter) (s : Locks)
    → Ascends 0 (granted s.log ++ (ids xs ++ (s.next_id ∷ [])))
    → Ordered (pass_on aborted now xs s)
unfolding pass_on
pass_on-Ordered aborted now [] s h = h
pass_on-Ordered aborted now (x ∷ xs) s h =
    elim (Option-cases (assert_active (aborted x.signal) (now x.id) x.deadline_at)) [
      | inl active ↦
          rw (active, pass_on) (rw (granted-append s.log (resolved x.id ∷ []), append_assoc) h)
      | inr (e, failed) ↦
          rw (failed, pass_on)
            (pass_on-Ordered aborted now xs (reject x.id e s) (
              rw (granted-append s.log (rejected x.id e ∷ []), append-nil)
                (Ascends-drop 0 (granted s.log) x.id (ids xs ++ (s.next_id ∷ [])) h)))
    ]

release-Ordered :
    (id : ℕ) (aborted : ℕ → Bool) (now : ℕ → ℕ) (s : Locks)
    → Ordered s
    → Ordered (release id aborted now s)
unfolding release
release-Ordered id aborted now s h =
    if-cases Ordered (is_unreleased id s.leases)
      (λ held.
        pass_on-Ordered aborted now s.queue (record s { leases = mark_released id s.leases }) h)
      (λ gone. h)

new_locks-Ordered : (m : ℕ) → Ordered (new_locks m)
unfolding new_locks
new_locks-Ordered m = omega arith

Session-Ordered : {m : ℕ} {s : Locks} → Session m s → Ordered s
unfolding acquire_recovery
Session-Ordered {m} start = new_locks-Ordered m
Session-Ordered (acquired {s} nfc path signal deadline_at aborted first now later h) =
    (acquire-InOrder nfc path signal deadline_at aborted first now later s (Session-IsExclusive h)
      (Session-Ordered h)).ascends
Session-Ordered (recovering {s} signal deadline_at aborted first now later h) =
    (acquire_queue-InOrder "startup recovery" signal deadline_at aborted first now later s
      (Session-IsExclusive h) (Session-Ordered h)).ascends
Session-Ordered (expired {s} id e h) = expire-Ordered id e s (Session-Ordered h)
Session-Ordered (let_go {s} id aborted now h) = release-Ordered id aborted now s (Session-Ordered h)

-- In every session the leases are granted in the order in which the calls of `acquire` were made, no
-- call gets two leases, and who still waits came after everyone who was served.
pub first_come_first_served :
    {m : ℕ} {s : Locks} → Session m s → Ascends 0 (granted s.log ++ ids s.queue)
first_come_first_served {s = s} h =
    Ascends-prefix 0 (granted s.log ++ ids s.queue) (s.next_id ∷ [])
      (rw (append_assoc (granted s.log) (ids s.queue) (s.next_id ∷ [])) (Session-Ordered h))
