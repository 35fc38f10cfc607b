-- ===== src/Bridge/Lifecycle.antt =====
-- bridgeLifecycle.ts: `BridgeLifecycle`. The event loop runs one callback at a time: each function
-- below is what one callback, or one resumption of `performShutdown`, does. A promise of `close` that
-- is rejected goes on as one that is fulfilled (`closeContained`).
pub mod Settles
pub mod Closes
use ha_mcp.Prelude.{
  ℕ, suc, ◌≡◌, Bool, true, false, not, ◌&&◌, Option, none, some, List, [], ◌∷◌, nat_beq,
  if◌then◌else◌,
}

-- `local`: the server and the transport, by numbers for the objects.
pub record Local : Type 0 where
  pub server : ℕ
  pub transport : ℕ
  pub transport_closed : Bool

-- Where `performShutdown` is: not called, waiting for `startup`, for a `close`, or at its end.
pub data Stage : Type 0 where
  idle waiting closing_server closing_transport closing_remote finished : Stage

pub data Timer : Type 0 where
  unset armed cleared fired : Timer

-- The promise `done`.
pub data Done : Type 0 where
  pending resolved rejected : Done

-- A call of `close`.
pub data Closed : Type 0 where
  server_closed transport_closed remote_closed : ℕ → Closed

pub record Bridge : Type 0 where
  pub requested : Bool
  pub installed : Bool
  pub remote : Option ℕ
  pub local : Option Local
  pub startup : Bool
  pub stage : Stage
  pub timer : Timer
  pub done : Done
  -- the calls of `close`, the last first, and of `forceExit`
  pub calls : List Closed
  pub exits : ℕ

unfoldable pub new_bridge : Bridge
new_bridge = record {
  requested = false;
  installed = false;
  remote = none;
  local = none;
  startup = false;
  stage = idle;
  timer = unset;
  done = pending;
  calls = [];
  exits = 0;
}

unfoldable pub install : Bridge → Bridge
install s = record s { installed = true }

-- `shutdown`: a second call gives the promise of the first.
unfoldable pub shutdown : Bridge → Bridge
shutdown s = elim s.stage [
  | idle ↦ record s { requested = true; timer = armed; stage = waiting }
  | _ ↦ s
]

-- `stdin` ends or closes, or SIGINT or SIGTERM arrives, while the listeners are installed.
unfoldable pub on_end : Bridge → Bridge
on_end s = if s.installed then shutdown s else s

unfoldable pub attach_remote : ℕ → Bridge → Bridge
attach_remote remote s =
    if s.requested
    then shutdown (record s { remote = some remote })
    else record s { remote = some remote }

unfoldable pub attach_local : ℕ → ℕ → Bridge → Bridge
attach_local server transport s =
    let l : Local = record { server = server; transport = transport; transport_closed = false } in
    if s.requested then shutdown (record s { local = some l }) else record s { local = some l }

abbrev pub mark_closed : ℕ → Option Local → Option Local
mark_closed transport none = none
mark_closed transport (some l) =
    if nat_beq l.transport transport then some (record l { transport_closed = true }) else some l

-- The `onclose` of a transport; what the previous one throws changes nothing here.
unfoldable pub on_close : ℕ → Bridge → Bridge
on_close transport s = shutdown (record s { local = mark_closed transport s.local })

unfoldable pub on_error : Bridge → Bridge
on_error s = shutdown s

unfoldable pub startup_finished : Bridge → Bridge
startup_finished s = record s { startup = true }

-- What settles `done` first counts.
abbrev pub settle : Done → Done → Done
settle pending d = d
settle resolved d = resolved
settle rejected d = rejected

abbrev pub clear : Timer → Timer
clear armed = cleared
clear t = t

-- The end of `performShutdown`: the timer and the listeners go, and `done` is resolved.
unfoldable pub end_shutdown : Bridge → Bridge
end_shutdown s = record s {
  timer = clear s.timer;
  installed = false;
  done = settle s.done resolved;
  stage = finished;
}

unfoldable pub close_remote : Bridge → Bridge
close_remote s = close_if s.remote
  where
    close_if : Option ℕ → Bridge
    close_if none = end_shutdown s
    close_if (some r) = record s { stage = closing_remote; calls = remote_closed r ∷ s.calls }

-- After the server has closed: the transport, unless it has.
unfoldable pub close_transport : Bridge → Bridge
close_transport s = close_if s.local
  where
    close_if : Option Local → Bridge
    close_if none = close_remote s
    close_if (some l) =
        if l.transport_closed
        then close_remote s
        else record s { stage = closing_transport; calls = transport_closed l.transport ∷ s.calls }

unfoldable pub close_server : Bridge → Bridge
close_server s = close_if s.local
  where
    close_if : Option Local → Bridge
    close_if none = close_remote s
    close_if (some l) = record s {
      stage = closing_server;
      calls = server_closed l.server ∷ s.calls;
    }

-- A resumption of `performShutdown`: what it waits for has settled.
unfoldable pub resume : Bridge → Bridge
resume s = elim s.stage [
  | waiting ↦ if s.startup then close_server s else s
  | closing_server ↦ close_transport s
  | closing_transport ↦ close_remote s
  | closing_remote ↦ end_shutdown s
  | _ ↦ s
]

-- The timer of `shutdown` fires, unless it was cleared.
unfoldable pub deadline : Bridge → Bridge
deadline s = elim s.timer [
  | armed ↦ record s {
    timer = fired;
    installed = false;
    done = settle s.done rejected;
    exits = suc s.exits;
  }
  | _ ↦ s
]

-- A life of the bridge: any callbacks in any order, where the remote and the local ends are attached
-- before the startup is finished.
pub data Life : Bridge → Type 0 where
  start : Life new_bridge
  installing : {s : Bridge} → Life s → Life (install s)
  ending : {s : Bridge} → Life s → Life (on_end s)
  attaching_remote :
      {s : Bridge} (remote : ℕ) → not s.startup ≡ true → Life s → Life (attach_remote remote s)
  attaching_local :
      {s : Bridge} (server transport : ℕ)
      → not s.startup ≡ true
      → Life s
      → Life (attach_local server transport s)
  closing : {s : Bridge} (transport : ℕ) → Life s → Life (on_close transport s)
  failing : {s : Bridge} → Life s → Life (on_error s)
  started : {s : Bridge} → Life s → Life (startup_finished s)
  resuming : {s : Bridge} → Life s → Life (resume s)
  late : {s : Bridge} → Life s → Life (deadline s)
