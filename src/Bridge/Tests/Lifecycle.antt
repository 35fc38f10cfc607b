-- ===== src/Bridge/Tests/Lifecycle.antt =====
-- A bridge whose standard input ends after it has started: the server, the transport and the remote
-- session are closed in turn.
use ha_mcp.Prelude.{◌≡◌, ◌≢◌, refl, true, arith}
use ha_mcp.Bridge.Lifecycle.{
  Bridge, new_bridge, install, shutdown, on_end, attach_remote, attach_local, startup_finished,
  resume, idle, finished, resolved, close_server, close_transport, close_remote, end_shutdown, Life,
  start, installing, ending, attaching_remote, attaching_local, started, resuming,
}
use ha_mcp.Bridge.Lifecycle.Settles.{IsSettling, Life-IsSettling, resume-ends}
use ha_mcp.Bridge.Lifecycle.Closes.{
  is_server_closed, is_transport_closed, is_remote_closed, resolved-closed,
}

abbrev ended : Bridge
ended = on_end (startup_finished (attach_local 2 3 (attach_remote 1 (install new_bridge))))

abbrev closed : Bridge
closed = resume (resume (resume (resume ended)))

life : Life closed
unfolding new_bridge install attach_remote attach_local
life = resuming (
    resuming (
      resuming (
        resuming (
          ending
            (started (attaching_local 2 3 refl (attaching_remote 1 refl (installing start))))))))

Life-IsSettling_example : IsSettling closed
Life-IsSettling_example = Life-IsSettling life

ended_waits : ended.stage ≢ idle
unfolding on_end shutdown startup_finished attach_local attach_remote install new_bridge
ended_waits h = ground (arith, h)

ended_ready : ended.startup ≡ true
unfolding on_end shutdown startup_finished attach_local attach_remote install new_bridge
ended_ready = refl

resume-ends_example : closed.stage ≡ finished
resume-ends_example = resume-ends ended ended_waits ended_ready

closed_resolved : closed.done ≡ resolved
unfolding resume close_server close_transport close_remote end_shutdown on_end shutdown
    startup_finished attach_local attach_remote install new_bridge
closed_resolved = refl

resolved-closed_example :
    (is_server_closed closed.local closed.calls ≡ true)
    × (is_transport_closed closed.local closed.calls ≡ true)
    × (is_remote_closed closed.remote closed.calls ≡ true)
resolved-closed_example = resolved-closed life closed_resolved
