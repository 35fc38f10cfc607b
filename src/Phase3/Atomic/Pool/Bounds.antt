-- ===== src/Phase3/Atomic/Pool/Bounds.antt =====
-- phase3/atomicApply.ts: the permits that are out and the waiters.
use ha_mcp.Prelude.{
  ℕ, suc, ◌-◌, ◌≤◌, ◌<◌, ◌≡◌, ap, ◌∙◌, if-cases, Bool, true, Option, none, some, List, [], ◌∷◌,
  arith, length, length-append, Option-cases, inl, inr, ltb, includes, nat_eq,
}
use ha_mcp.Phase3.Atomic.Classify.{ApplyCode}
use ha_mcp.Phase3.Atomic.Pool.{
  Waiter, Pool, positive_int, new_pool, assert_active, reject, pass_on, give_back, drop_holder,
  release, refuse_or, enter_free, enter_busy, enter, acquire, remove_waiter, expire,
}

-- As many permits are out as are counted, no more than the limit; no one waits while one is free.
pub record IsWithin (s : Pool) : Type 0 where
  pub counted : length s.holders ≡ s.active
  pub few : s.active ≤ s.max_concurrent
  pub no_idle : s.active < s.max_concurrent → s.waiters ≡ []
  pub short : length s.waiters ≤ s.max_waiters
  pub positive : 1 ≤ s.max_concurrent

-- A pool with a free permit that is about to be passed on.
record IsFree (xs : List Waiter) (s : Pool) : Type 0 where
  counted : length s.holders ≡ s.active
  few : s.active < s.max_concurrent
  last : 1 ≤ length xs → suc s.active ≡ s.max_concurrent
  short : length xs ≤ s.max_waiters
  positive : 1 ≤ s.max_concurrent

pass_on-IsWithin :
    (aborted : ℕ → Bool) (now : ℕ → ℕ) (xs : List Waiter) (s : Pool)
    → IsFree xs s
    → IsWithin (pass_on aborted now xs s)
unfolding pass_on
pass_on-IsWithin aborted now [] s h = ground arith
pass_on-IsWithin aborted now (x ∷ xs) s h =
    elim (Option-cases (assert_active (aborted x.signal) (now x.id) x.deadline_at)) [
      | inl live ↦ rw (live, pass_on) (ground arith)
      | inr (code, failed) ↦
          rw (failed, pass_on)
            (pass_on-IsWithin aborted now xs (reject x.id code s) (record {
              counted = h.counted;
              few = h.few;
              last = λ more. h.last (omega arith);
              short = omega (arith, h.short);
              positive = h.positive;
            }))
    ]

length-drop_holder :
    (id : ℕ) (hs : List ℕ) → includes hs id ≡ true → suc (length (drop_holder id hs)) ≡ length hs
unfolding drop_holder
length-drop_holder id [] h = ground arith
length-drop_holder id (x ∷ xs) h = ground (arith, length-drop_holder id xs)

give_back-IsWithin :
    (aborted : ℕ → Bool) (now : ℕ → ℕ) (s : Pool)
    → suc (length s.holders) ≡ s.active
    → s.active ≤ s.max_concurrent
    → (s.active < s.max_concurrent → s.waiters ≡ [])
    → length s.waiters ≤ s.max_waiters
    → 1 ≤ s.max_concurrent
    → IsWithin (give_back aborted now s)
unfolding give_back
give_back-IsWithin aborted now s counted few no_idle short positive =
    pass_on-IsWithin aborted now s.waiters (record s { active = s.active - 1 })
      (record {
        counted = omega (arith, counted);
        few = omega (arith, counted, few);
        last = λ more. ground arith;
        short = short;
        positive = positive;
      })

release-IsWithin :
    (id : ℕ) (aborted : ℕ → Bool) (now : ℕ → ℕ) (s : Pool)
    → includes s.holders id ≡ true
    → IsWithin s
    → IsWithin (release id aborted now s)
unfolding release
release-IsWithin id aborted now s held h =
    give_back-IsWithin aborted now (record s { holders = drop_holder id s.holders })
      (length-drop_holder id s.holders held ∙ h.counted) h.few h.no_idle h.short h.positive

reject-IsWithin : (id : ℕ) (code : ApplyCode) (s : Pool) → IsWithin s → IsWithin (reject id code s)
reject-IsWithin id code s h = record {
  counted = h.counted;
  few = h.few;
  no_idle = h.no_idle;
  short = h.short;
  positive = h.positive;
}

refuse_or-IsWithin :
    (o : Option ApplyCode) (refused : ApplyCode → Pool) (t : Pool)
    → ((code : ApplyCode) → IsWithin (refused code))
    → IsWithin t
    → IsWithin (refuse_or o refused t)
refuse_or-IsWithin none refused t h k = k
refuse_or-IsWithin (some code) refused t h k = h code

enter_free-IsWithin :
    (id : ℕ) (aborted : Bool) (deadline_at second : ℕ) (others : ℕ → Bool) (clock : ℕ → ℕ)
    (s : Pool)
    → IsWithin s
    → s.active < s.max_concurrent
    → IsWithin (enter_free id aborted deadline_at second others clock s)
unfolding enter_free
enter_free-IsWithin id aborted deadline_at second others clock s h free =
    refuse_or-IsWithin (assert_active aborted second deadline_at) _ _
      (λ code. reject-IsWithin id code _ (
        give_back-IsWithin others clock (record s { active = suc s.active }) (ap suc h.counted)
          (omega (arith, free)) (λ lt. h.no_idle free) h.short h.positive))
      (record {
        counted = ap suc h.counted;
        few = omega (arith, free);
        no_idle = λ lt. h.no_idle free;
        short = h.short;
        positive = h.positive;
      })

enter_busy-IsWithin :
    (id signal deadline_at second : ℕ) (s : Pool)
    → IsWithin s
    → (s.active < s.max_concurrent → ⊥)
    → IsWithin (enter_busy id signal deadline_at second s)
unfolding enter_busy
enter_busy-IsWithin id signal deadline_at second s h busy = ground (
  arith,
  length-append s.waiters (record { id = id; signal = signal; deadline_at = deadline_at } ∷ []),
)

enter-IsWithin :
    (id signal deadline_at : ℕ) (aborted : Bool) (second : ℕ) (others : ℕ → Bool) (clock : ℕ → ℕ)
    (s : Pool)
    → IsWithin s
    → IsWithin (enter id signal deadline_at aborted second others clock s)
unfolding enter
enter-IsWithin id signal deadline_at aborted second others clock s h =
    if-cases IsWithin (ltb s.active s.max_concurrent)
      (λ free. enter_free-IsWithin id aborted deadline_at second others clock s h (ground arith))
      (λ busy. enter_busy-IsWithin id signal deadline_at second s h (ground arith))

acquire-IsWithin :
    (signal deadline_at : ℕ) (aborted : Bool) (first second : ℕ) (others : ℕ → Bool) (clock : ℕ → ℕ)
    (s : Pool)
    → IsWithin s
    → IsWithin (acquire signal deadline_at aborted first second others clock s)
unfolding acquire
acquire-IsWithin signal deadline_at aborted first second others clock s h =
    let counted : IsWithin (record s { next_id = suc s.next_id }) = record {
      counted = h.counted;
      few = h.few;
      no_idle = h.no_idle;
      short = h.short;
      positive = h.positive;
    } in
    refuse_or-IsWithin (assert_active aborted first deadline_at) _ _
      (λ code. reject-IsWithin s.next_id code _ counted)
      (enter-IsWithin s.next_id signal deadline_at aborted second others clock _ counted)

remove_waiter-length : (id : ℕ) (xs : List Waiter) → length (remove_waiter id xs) ≤ length xs
unfolding remove_waiter
remove_waiter-length id [] = omega arith
remove_waiter-length id (x ∷ xs) = ground (arith, remove_waiter-length id xs)

expire-IsWithin : (id : ℕ) (code : ApplyCode) (s : Pool) → IsWithin s → IsWithin (expire id code s)
unfolding expire
expire-IsWithin id code s h = ground (arith, remove_waiter-length id s.waiters)

new_pool-IsWithin :
    (max_concurrent max_waiters : ℕ) → IsWithin (new_pool max_concurrent max_waiters)
unfolding new_pool positive_int
new_pool-IsWithin max_concurrent max_waiters = ground arith

-- A pool after any calls, in any order, at any readings of the clock and the signals. Only a call
-- that holds a permit gives it back.
pub data Session (max_concurrent max_waiters : ℕ) : Pool → Type 0 where
  start : Session max_concurrent max_waiters (new_pool max_concurrent max_waiters)
  acquired :
      {s : Pool} (signal deadline_at : ℕ) (aborted : Bool) (first second : ℕ) (others : ℕ → Bool)
      (clock : ℕ → ℕ)
      → Session max_concurrent max_waiters s
      → Session max_concurrent max_waiters
          (acquire signal deadline_at aborted first second others clock s)
  expired :
      {s : Pool} (id : ℕ) (code : ApplyCode)
      → Session max_concurrent max_waiters s
      → Session max_concurrent max_waiters (expire id code s)
  released :
      {s : Pool} (id : ℕ) (aborted : ℕ → Bool) (now : ℕ → ℕ)
      → includes s.holders id ≡ true
      → Session max_concurrent max_waiters s
      → Session max_concurrent max_waiters (release id aborted now s)

-- In every session the permits that are out are counted exactly, they are never more than
-- `maxConcurrent`, at most `maxWaiters` calls wait, and none waits while a permit is free.
pub Session-IsWithin : {m n : ℕ} {s : Pool} → Session m n s → IsWithin s
Session-IsWithin {m} {n} start = new_pool-IsWithin m n
Session-IsWithin (acquired {s} signal deadline_at aborted first second others clock h) =
    acquire-IsWithin signal deadline_at aborted first second others clock s (Session-IsWithin h)
Session-IsWithin (expired {s} id code h) = expire-IsWithin id code s (Session-IsWithin h)
Session-IsWithin (released {s} id aborted now held h) =
    release-IsWithin id aborted now s held (Session-IsWithin h)
