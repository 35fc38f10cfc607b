-- ===== src/Phase3/Atomic/Pool.antt =====
-- phase3/atomicApply.ts: `acquire`, `release` and the waiters of `NativePhase3AtomicApply`. The event
-- loop runs one callback at a time, so each call below is a step of its own; the clock and the
-- signals are read as arguments.
pub mod Bounds
use ha_mcp.Prelude.{
  ℕ, suc, ◌-◌, Bool, true, false, not, Option, none, some, List, [], ◌∷◌, ◌++◌, nat_beq, leb, ltb,
  length, if◌then◌else◌,
}
use ha_mcp.Phase3.Atomic.Classify.{ApplyCode, operation_cancelled, deadline_exceeded, queue_full}

-- `Waiter`, by the number of the promise that it settles. A waiter in the queue is `active`: what
-- settles it takes it out.
pub record Waiter : Type 0 where
  pub id : ℕ
  pub signal : ℕ
  pub deadline_at : ℕ

-- How a call of `acquire` ends.
pub data Settled : Type 0 where
  resolved : ℕ → Settled
  rejected : ℕ → ApplyCode → Settled

pub record Pool : Type 0 where
  pub active : ℕ
  pub waiters : List Waiter
  pub max_concurrent : ℕ
  pub max_waiters : ℕ
  -- the calls that hold a permit: their `release` has not run
  pub holders : List ℕ
  pub next_id : ℕ
  -- the calls that have ended, in order
  pub log : List Settled

-- `positiveInt` of an integer.
unfoldable pub positive_int : ℕ → ℕ → ℕ
positive_int value fallback = if leb 1 value then value else fallback

-- The constructor, of the limits that the options name.
unfoldable pub new_pool : ℕ → ℕ → Pool
new_pool max_concurrent max_waiters = record {
  active = 0;
  waiters = [];
  max_concurrent = positive_int max_concurrent 1;
  max_waiters = positive_int max_waiters 8;
  holders = [];
  next_id = 0;
  log = [];
}

-- `assertActive`: the code of the error that it throws.
unfoldable pub assert_active : Bool → ℕ → ℕ → Option ApplyCode
assert_active aborted now deadline_at =
    if aborted
    then some operation_cancelled
    else if leb deadline_at now
    then some deadline_exceeded
    else none

-- A permit for the call `id`, whose unit of `active` is counted already.
abbrev pub grant : ℕ → Pool → Pool
grant id s = record s { holders = id ∷ s.holders; log = s.log ++ (resolved id ∷ []) }

abbrev pub reject : ℕ → ApplyCode → Pool → Pool
reject id code s = record s { log = s.log ++ (rejected id code ∷ []) }

-- The loop of `release`: the first waiter that is still live takes the permit. `aborted` and `now`
-- are what the loop reads of a signal and of the clock at a waiter.
unfoldable pub pass_on : (ℕ → Bool) → (ℕ → ℕ) → List Waiter → Pool → Pool
pass_on aborted now [] s = record s { waiters = [] }
pass_on aborted now (x ∷ xs) s = elim (assert_active (aborted x.signal) (now x.id) x.deadline_at) [
  | some code ↦ pass_on aborted now xs (reject x.id code s)
  | none ↦ grant x.id (record s { waiters = xs; active = suc s.active })
]

-- `release`.
unfoldable pub give_back : (ℕ → Bool) → (ℕ → ℕ) → Pool → Pool
give_back aborted now s = pass_on aborted now s.waiters (record s { active = s.active - 1 })

unfoldable pub drop_holder : ℕ → List ℕ → List ℕ
drop_holder id [] = []
drop_holder id (h ∷ hs) = let rest = drop_holder id hs in if nat_beq h id then hs else h ∷ rest

-- The `finally` of the call `id`, which runs once.
unfoldable pub release : ℕ → (ℕ → Bool) → (ℕ → ℕ) → Pool → Pool
release id aborted now s = give_back aborted now (record s { holders = drop_holder id s.holders })

-- What follows a test that may have thrown.
abbrev pub refuse_or : Option ApplyCode → (ApplyCode → Pool) → Pool → Pool
refuse_or none refused t = t
refuse_or (some code) refused t = refused code

-- `acquire` while a permit is free: a second test that throws gives the permit back.
unfoldable pub enter_free : ℕ → Bool → ℕ → ℕ → (ℕ → Bool) → (ℕ → ℕ) → Pool → Pool
enter_free id aborted deadline_at second others clock s =
    let counted : Pool = record s { active = suc s.active } in
    refuse_or (assert_active aborted second deadline_at)
      (λ code. reject id code (give_back others clock counted)) (grant id counted)

-- The same while none is free. `second` is the clock at the delay of the timer.
unfoldable pub enter_busy : ℕ → ℕ → ℕ → ℕ → Pool → Pool
enter_busy id signal deadline_at second s =
    if leb s.max_waiters (length s.waiters)
    then reject id queue_full s
    else if leb deadline_at second
    then reject id deadline_exceeded s
    else record s {
      waiters = s.waiters ++ (record { id = id; signal = signal; deadline_at = deadline_at } ∷ []);
    }

unfoldable pub enter : ℕ → ℕ → ℕ → Bool → ℕ → (ℕ → Bool) → (ℕ → ℕ) → Pool → Pool
enter id signal deadline_at aborted second others clock s =
    if ltb s.active s.max_concurrent
    then enter_free id aborted deadline_at second others clock s
    else enter_busy id signal deadline_at second s

-- `acquire`. The clock is read twice, at `first` and at `second`; a signal does not change within
-- the call. `others` and `clock` are what a `release` within it reads.
unfoldable pub acquire : ℕ → ℕ → Bool → ℕ → ℕ → (ℕ → Bool) → (ℕ → ℕ) → Pool → Pool
acquire signal deadline_at aborted first second others clock s =
    let counted : Pool = record s { next_id = suc s.next_id } in
    refuse_or (assert_active aborted first deadline_at) (λ code. reject s.next_id code counted)
      (enter s.next_id signal deadline_at aborted second others clock counted)

-- `removeWaiter`.
unfoldable pub remove_waiter : ℕ → List Waiter → List Waiter
remove_waiter id [] = []
remove_waiter id (x ∷ xs) =
    let rest = remove_waiter id xs in if nat_beq x.id id then xs else x ∷ rest

unfoldable pub is_waiting : ℕ → List Waiter → Bool
is_waiting id [] = false
is_waiting id (x ∷ xs) = let rest = is_waiting id xs in if nat_beq x.id id then true else rest

-- `abort` of a waiter and its timer, which tell it why; of one that has ended they do nothing.
unfoldable pub expire : ℕ → ApplyCode → Pool → Pool
expire id code s =
    if is_waiting id s.waiters
    then reject id code (record s { waiters = remove_waiter id s.waiters })
    else s
