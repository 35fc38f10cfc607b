-- ===== src/Bridge/Lifecycle/Closes.antt =====
-- bridgeLifecycle.ts: what a shutdown closes.
use ha_mcp.Prelude.{
  ℕ, ◌≡◌, ◌≢◌, refl, ◌⊎◌, Bool, true, false, not, ◌||◌, Option, none, some, List, [], ◌∷◌, arith,
  nat_beq,
}
use ha_mcp.Bridge.Lifecycle.{
  Local, idle, waiting, closing_server, closing_remote, finished, resolved, Closed, server_closed,
  transport_closed, remote_closed, Bridge, new_bridge, install, shutdown, on_end, attach_remote,
  attach_local, on_close, on_error, startup_finished, end_shutdown, close_remote, close_transport,
  close_server, resume, deadline, Life, start, installing, ending, attaching_remote,
  attaching_local, closing, failing, started, resuming, late, mark_closed,
}
use ha_mcp.Bridge.Lifecycle.Settles.{Life-IsSettling}

-- Whether `close` of an object was called.
unfoldable pub has_server : ℕ → List Closed → Bool
has_server n [] = false
has_server n (server_closed k ∷ cs) = let rest = has_server n cs in nat_beq k n || rest
has_server n (transport_closed k ∷ cs) = has_server n cs
has_server n (remote_closed k ∷ cs) = has_server n cs

unfoldable pub has_transport : ℕ → List Closed → Bool
has_transport n [] = false
has_transport n (transport_closed k ∷ cs) = let rest = has_transport n cs in nat_beq k n || rest
has_transport n (server_closed k ∷ cs) = has_transport n cs
has_transport n (remote_closed k ∷ cs) = has_transport n cs

unfoldable pub has_remote : ℕ → List Closed → Bool
has_remote n [] = false
has_remote n (remote_closed k ∷ cs) = let rest = has_remote n cs in nat_beq k n || rest
has_remote n (server_closed k ∷ cs) = has_remote n cs
has_remote n (transport_closed k ∷ cs) = has_remote n cs

unfoldable pub is_server_closed : Option Local → List Closed → Bool
is_server_closed none cs = true
is_server_closed (some l) cs = has_server l.server cs

unfoldable pub is_transport_closed : Option Local → List Closed → Bool
is_transport_closed none cs = true
is_transport_closed (some l) cs = l.transport_closed || has_transport l.transport cs

unfoldable pub is_remote_closed : Option ℕ → List Closed → Bool
is_remote_closed none cs = true
is_remote_closed (some r) cs = has_remote r cs

-- What was closed at each stage.
record IsClosing (s : Bridge) : Type 0 where
  ready : s.stage ≢ idle → s.stage ≢ waiting → s.startup ≡ true
  server : s.stage ≢ idle → s.stage ≢ waiting → is_server_closed s.local s.calls ≡ true
  transport :
      s.stage ≢ idle
      → s.stage ≢ waiting
      → s.stage ≢ closing_server
      → is_transport_closed s.local s.calls ≡ true
  remote : s.stage ≡ closing_remote ⊎ s.stage ≡ finished → is_remote_closed s.remote s.calls ≡ true

shutdown-IsClosing : (s : Bridge) → IsClosing s → IsClosing (shutdown s)
unfolding shutdown
shutdown-IsClosing s h = ground arith

attach_remote-IsClosing :
    (remote : ℕ) (s : Bridge)
    → not s.startup ≡ true
    → IsClosing s
    → IsClosing (attach_remote remote s)
unfolding attach_remote shutdown
attach_remote-IsClosing remote s early h = ground arith

attach_local-IsClosing :
    (server transport : ℕ) (s : Bridge)
    → not s.startup ≡ true
    → IsClosing s
    → IsClosing (attach_local server transport s)
unfolding attach_local shutdown
attach_local-IsClosing server transport s early h = ground arith

mark_closed-closed :
    (transport : ℕ) (o : Option Local) (cs : List Closed)
    → (is_server_closed (mark_closed transport o) cs ≡ is_server_closed o cs)
      × (is_transport_closed o cs ≡ true → is_transport_closed (mark_closed transport o) cs ≡ true)
unfolding is_server_closed is_transport_closed
mark_closed-closed transport none cs = (refl, λ h. h)
mark_closed-closed transport (some l) cs = ground arith

on_close-IsClosing : (transport : ℕ) (s : Bridge) → IsClosing s → IsClosing (on_close transport s)
unfolding on_close shutdown
on_close-IsClosing transport s h = ground (arith, mark_closed-closed transport s.local s.calls)

on_end-IsClosing : (s : Bridge) → IsClosing s → IsClosing (on_end s)
unfolding on_end
on_end-IsClosing s h = ground (arith, shutdown-IsClosing s)

deadline-IsClosing : (s : Bridge) → IsClosing s → IsClosing (deadline s)
unfolding deadline
deadline-IsClosing s h = ground arith

close_remote-IsClosing :
    (s : Bridge)
    → s.startup ≡ true
    → is_server_closed s.local s.calls ≡ true
    → is_transport_closed s.local s.calls ≡ true
    → IsClosing (close_remote s)
unfolding close_remote end_shutdown is_server_closed is_transport_closed is_remote_closed has_server
    has_transport has_remote
close_remote-IsClosing s ready server transport = ground arith

close_transport-IsClosing :
    (s : Bridge)
    → s.startup ≡ true
    → is_server_closed s.local s.calls ≡ true
    → IsClosing (close_transport s)
unfolding close_transport is_server_closed is_transport_closed has_server has_transport
close_transport-IsClosing s ready server = ground (arith, close_remote-IsClosing s)

close_server-IsClosing : (s : Bridge) → s.startup ≡ true → IsClosing (close_server s)
unfolding close_server is_server_closed is_transport_closed has_server
close_server-IsClosing s ready = ground (arith, close_remote-IsClosing s)

end_shutdown-IsClosing :
    (s : Bridge) → s.stage ≡ closing_remote → IsClosing s → IsClosing (end_shutdown s)
unfolding end_shutdown
end_shutdown-IsClosing s last h = ground arith

resume-IsClosing : (s : Bridge) → IsClosing s → IsClosing (resume s)
unfolding resume
resume-IsClosing s h = ground (
  arith,
  close_server-IsClosing s,
  close_transport-IsClosing s,
  close_remote-IsClosing s,
  end_shutdown-IsClosing s,
)

Life-IsClosing : {s : Bridge} → Life s → IsClosing s
unfolding new_bridge install on_error startup_finished
Life-IsClosing start = ground arith
Life-IsClosing (installing {s} h) = let k = Life-IsClosing h in ground (arith, k)
Life-IsClosing (ending {s} h) = on_end-IsClosing s (Life-IsClosing h)
Life-IsClosing (attaching_remote {s} remote early h) =
    attach_remote-IsClosing remote s early (Life-IsClosing h)
Life-IsClosing (attaching_local {s} server transport early h) =
    attach_local-IsClosing server transport s early (Life-IsClosing h)
Life-IsClosing (closing {s} transport h) = on_close-IsClosing transport s (Life-IsClosing h)
Life-IsClosing (failing {s} h) = shutdown-IsClosing s (Life-IsClosing h)
Life-IsClosing (started {s} h) = let k = Life-IsClosing h in ground (arith, k)
Life-IsClosing (resuming {s} h) = resume-IsClosing s (Life-IsClosing h)
Life-IsClosing (late {s} h) = deadline-IsClosing s (Life-IsClosing h)

-- If the remote and the local ends are attached before the startup is finished, then once `done` is
-- resolved everything that is attached was closed: `close` of the server and of the remote was
-- called, and that of the transport unless the transport had closed by itself.
pub resolved-closed :
    {s : Bridge}
    → Life s
    → s.done ≡ resolved
    → (is_server_closed s.local s.calls ≡ true)
      × (is_transport_closed s.local s.calls ≡ true)
      × (is_remote_closed s.remote s.calls ≡ true)
resolved-closed {s} life settled =
    let closed = Life-IsClosing life in
    let outlook = Life-IsSettling life in ground (arith, closed, outlook)
