-- ===== src/Bridge/Lifecycle/Settles.antt =====
-- bridgeLifecycle.ts: how `done` settles, and that a shutdown ends.
use ha_mcp.Prelude.{ℕ, suc, ◌≡◌, ◌≢◌, ◌≤◌, true, some, arith}
use ha_mcp.Bridge.Lifecycle.{
  Stage, idle, waiting, closing_server, closing_transport, closing_remote, finished, unset, armed,
  cleared, fired, pending, resolved, rejected, Bridge, new_bridge, install, shutdown, on_end,
  attach_remote, attach_local, on_close, on_error, startup_finished, end_shutdown, close_remote,
  close_transport, close_server, resume, deadline, Life, start, installing, ending,
  attaching_remote, attaching_local, closing, failing, started, resuming, late,
}

-- The stage, the timer, `done` and the number of exits, together.
pub record IsSettling (s : Bridge) : Type 0 where
  pub begun : s.stage ≢ idle → s.timer ≢ unset
  pub idle_timer : s.stage ≡ idle → s.timer ≡ unset
  pub unset_timer : s.timer ≡ unset → (s.stage ≡ idle) × (s.done ≡ pending) × (s.exits ≡ 0)
  pub armed_timer : s.timer ≡ armed → (s.done ≡ pending) × (s.exits ≡ 0)
  pub cleared_timer : s.timer ≡ cleared → (s.done ≡ resolved) × (s.exits ≡ 0)
  pub fired_timer : s.timer ≡ fired → (s.done ≡ rejected) × (s.exits ≡ 1)
  pub end_clears : s.stage ≡ finished → s.timer ≢ armed
  pub ends_last : s.timer ≡ cleared → s.stage ≡ finished

shutdown-IsSettling : (s : Bridge) → IsSettling s → IsSettling (shutdown s)
unfolding shutdown
shutdown-IsSettling s h = ground arith

end_shutdown-IsSettling : (s : Bridge) → s.stage ≢ idle → IsSettling s → IsSettling (end_shutdown s)
unfolding end_shutdown
end_shutdown-IsSettling s begun h = ground arith

deadline-IsSettling : (s : Bridge) → IsSettling s → IsSettling (deadline s)
unfolding deadline
deadline-IsSettling s h = ground arith

close_remote-IsSettling :
    (s : Bridge) → s.stage ≢ idle → s.stage ≢ finished → IsSettling s → IsSettling (close_remote s)
unfolding close_remote end_shutdown
close_remote-IsSettling s begun unended h = ground arith

close_transport-IsSettling :
    (s : Bridge)
    → s.stage ≢ idle
    → s.stage ≢ finished
    → IsSettling s
    → IsSettling (close_transport s)
unfolding close_transport
close_transport-IsSettling s begun unended h = ground (arith, close_remote-IsSettling s)

close_server-IsSettling :
    (s : Bridge) → s.stage ≢ idle → s.stage ≢ finished → IsSettling s → IsSettling (close_server s)
unfolding close_server
close_server-IsSettling s begun unended h = ground (arith, close_remote-IsSettling s)

resume-IsSettling : (s : Bridge) → IsSettling s → IsSettling (resume s)
unfolding resume
resume-IsSettling s h = ground (
  arith,
  close_server-IsSettling s,
  close_transport-IsSettling s,
  close_remote-IsSettling s,
  end_shutdown-IsSettling s,
)

attach_remote-IsSettling :
    (remote : ℕ) (s : Bridge) → IsSettling s → IsSettling (attach_remote remote s)
unfolding attach_remote
attach_remote-IsSettling remote s h =
    ground (arith, shutdown-IsSettling (record s { remote = some remote }))

attach_local-IsSettling :
    (server transport : ℕ) (s : Bridge)
    → IsSettling s
    → IsSettling (attach_local server transport s)
unfolding attach_local shutdown
attach_local-IsSettling server transport s h = ground arith

on_close-IsSettling :
    (transport : ℕ) (s : Bridge) → IsSettling s → IsSettling (on_close transport s)
unfolding on_close shutdown
on_close-IsSettling transport s h = ground arith

on_end-IsSettling : (s : Bridge) → IsSettling s → IsSettling (on_end s)
unfolding on_end
on_end-IsSettling s h = ground (arith, shutdown-IsSettling s)

-- Whatever happens in whatever order: while the timer of a shutdown runs, `done` is pending; it is
-- resolved only when the shutdown has ended and the timer was cleared; `forceExit` is called once if
-- the timer fires, which rejects `done`, and else never; once the shutdown has ended no timer runs.
pub Life-IsSettling : {s : Bridge} → Life s → IsSettling s
unfolding new_bridge install on_error startup_finished
Life-IsSettling start = ground arith
Life-IsSettling (installing {s} h) = let k = Life-IsSettling h in ground (arith, k)
Life-IsSettling (ending {s} h) = on_end-IsSettling s (Life-IsSettling h)
Life-IsSettling (attaching_remote {s} remote early h) =
    attach_remote-IsSettling remote s (Life-IsSettling h)
Life-IsSettling (attaching_local {s} server transport early h) =
    attach_local-IsSettling server transport s (Life-IsSettling h)
Life-IsSettling (closing {s} transport h) = on_close-IsSettling transport s (Life-IsSettling h)
Life-IsSettling (failing {s} h) = shutdown-IsSettling s (Life-IsSettling h)
Life-IsSettling (started {s} h) = let k = Life-IsSettling h in ground (arith, k)
Life-IsSettling (resuming {s} h) = resume-IsSettling s (Life-IsSettling h)
Life-IsSettling (late {s} h) = deadline-IsSettling s (Life-IsSettling h)

-- How many promises `performShutdown` still waits for, at most.
abbrev rank : Stage → ℕ
rank idle = 5
rank waiting = 4
rank closing_server = 3
rank closing_transport = 2
rank closing_remote = 1
rank finished = 0

record IsWithin (n : ℕ) (s : Bridge) : Type 0 where
  few : rank s.stage ≤ n
  ready : s.startup ≡ true

close_remote-IsWithin : (n : ℕ) (s : Bridge) → s.startup ≡ true → IsWithin (suc n) (close_remote s)
unfolding close_remote end_shutdown
close_remote-IsWithin n s ready = ground arith

close_transport-IsWithin :
    (n : ℕ) (s : Bridge) → s.startup ≡ true → IsWithin (suc (suc n)) (close_transport s)
unfolding close_transport
close_transport-IsWithin n s ready = ground (arith, close_remote-IsWithin (suc n) s)

close_server-IsWithin :
    (n : ℕ) (s : Bridge) → s.startup ≡ true → IsWithin (suc (suc (suc n))) (close_server s)
unfolding close_server
close_server-IsWithin n s ready = ground (arith, close_remote-IsWithin (suc (suc n)) s)

resume-IsWithin : (n : ℕ) (s : Bridge) → n ≤ 3 → IsWithin (suc n) s → IsWithin n (resume s)
unfolding resume end_shutdown
resume-IsWithin n s low h =
    ground
      (arith, close_server-IsWithin 0 s, close_transport-IsWithin 0 s, close_remote-IsWithin 0 s)

-- A shutdown that was begun has ended once the startup is finished and what it waits for has settled
-- four times, whatever is attached.
pub resume-ends :
    (s : Bridge)
    → s.stage ≢ idle
    → s.startup ≡ true
    → (resume (resume (resume (resume s)))).stage ≡ finished
resume-ends s begun ready =
    let h : IsWithin 4 s = record { few = ground (arith, begun); ready = ready } in
    let first = resume-IsWithin 3 s (omega arith) h in
    let second = resume-IsWithin 2 (resume s) (omega arith) first in
    let third = resume-IsWithin 1 (resume (resume s)) (omega arith) second in
    let last = resume-IsWithin 0 (resume (resume (resume s))) (omega arith) third in
    rank_zero (resume (resume (resume (resume s)))).stage last.few
  where
    rank_zero : (stage : Stage) → rank stage ≤ 0 → stage ≡ finished
    rank_zero stage low = ground (arith, low)
