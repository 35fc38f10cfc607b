-- ===== src/Phase3/Atomic/Runner.antt =====
-- phase3/atomicApply.ts: `SpawnPhase3AtomicApplyRunner`, the process of the helper as a machine that
-- its events drive. The buffers that are wiped and the clearing of timers are left out.
pub mod Collects
use ha_mcp.Prelude.{
  ℕ, suc, ◌+◌, String, Bool, true, false, not, ◌&&◌, ◌||◌, Option, none, some, List, [], ◌∷◌, ◌++◌,
  leb, ltb, length, if◌then◌else◌,
}
use ha_mcp.Phase3.Atomic.Classify.{RunnerResult}

-- `phase3AtomicApplyStdoutLimit` and `phase3AtomicApplyStderrLimit`.
abbrev pub stdout_limit : ℕ
stdout_limit = 256

abbrev pub stderr_limit : ℕ
stderr_limit = 4096

-- The signals that `killProcessGroup` sends.
pub data Kill : Type 0 where
  sigterm sigkill : Kill

pub data Event : Type 0 where
  stdout_data : List ℕ → Event
  stderr_data : ℕ → Event
  child_error : Option String → Event
  stdin_failed : Option String → Event
  abort : Event
  deadline : Event
  grace_over : Event
  close : Option ℕ → Option String → Event

-- The variables of `run`.
pub record Child : Type 0 where
  pub has_pid : Bool
  pub stdout_bytes : ℕ
  pub stdout_truncated : Bool
  pub stdout : List ℕ
  pub stderr_bytes : ℕ
  pub stdin_error : Option String
  pub spawn_error : Option String
  pub timed_out : Bool
  pub forced_kill : Bool
  -- the exit code and the signal, once `settled`
  pub closed : Option (Option ℕ × Option String)
  pub has_grace_timer : Bool
  -- what was sent to the process group
  pub sent : List Kill

abbrev pub is_settled : Option (Option ℕ × Option String) → Bool
is_settled none = false
is_settled (some end) = true

-- `killProcessGroup`.
abbrev pub kill_process_group : Kill → Child → Child
kill_process_group kill c = if c.has_pid then record c { sent = c.sent ++ (kill ∷ []) } else c

-- `terminate`.
unfoldable pub terminate : Bool → Child → Child
terminate timeout c =
    if is_settled c.closed
    then c
    else kill_process_group sigterm
        (record c { timed_out = c.timed_out || timeout; has_grace_timer = true })

-- `error.code ?? fallback`.
abbrev pub code_or : Option String → String → String
code_or none fallback = fallback
code_or (some code) fallback = code

abbrev pub min : ℕ → ℕ → ℕ
min a b = if leb a b then a else b

unfoldable pub on_stdout : List ℕ → Child → Child
on_stdout chunk c =
    let bytes = c.stdout_bytes + length chunk in
    if ltb stdout_limit bytes
    then record c { stdout_bytes = bytes; stdout_truncated = true }
    else record c { stdout_bytes = bytes; stdout = c.stdout ++ chunk }

unfoldable pub on_grace : Child → Child
on_grace c =
    if c.has_grace_timer && not (is_settled c.closed)
    then kill_process_group sigkill (record c { forced_kill = true })
    else c

abbrev pub on_close : Option ℕ → Option String → Child → Child
on_close exit_code signal c =
    if is_settled c.closed then c else record c { closed = some (exit_code, signal) }

unfoldable pub on_event : Event → Child → Child
on_event (stdout_data chunk) c = on_stdout chunk c
on_event (stderr_data n) c = record c { stderr_bytes = min (suc stderr_limit) (c.stderr_bytes + n) }
on_event (child_error code) c = record c { spawn_error = some (code_or code "spawn_error") }
on_event (stdin_failed code) c = record c { stdin_error = some (code_or code "stdin_error") }
on_event abort c = terminate false c
on_event deadline c = terminate true c
on_event grace_over c = on_grace c
on_event (close exit_code signal) c = on_close exit_code signal c

unfoldable pub on_events : List Event → Child → Child
on_events [] c = c
on_events (e ∷ es) c = on_events es (on_event e c)

-- The state before the first event: a deadline that has passed ends the process at once.
unfoldable pub spawned : Bool → Bool → Child
spawned has_pid is_late =
    let c : Child = record {
      has_pid = has_pid;
      stdout_bytes = 0;
      stdout_truncated = false;
      stdout = [];
      stderr_bytes = 0;
      stdin_error = none;
      spawn_error = none;
      timed_out = false;
      forced_kill = false;
      closed = none;
      has_grace_timer = false;
      sent = [];
    } in
    if is_late then terminate true c else c

-- The result, once the process has closed. `decode` is `toString("utf8")`.
unfoldable pub result_of : (List ℕ → String) → Child → Option RunnerResult
result_of decode c = ended c.closed
  where
    ended : Option (Option ℕ × Option String) → Option RunnerResult
    ended none = none
    ended (some (exit_code, signal)) = some (record {
      started = c.has_pid;
      stdout = if c.stdout_truncated then "" else decode c.stdout;
      exit_code = exit_code;
      signal = signal;
      stderr_bytes = c.stderr_bytes;
      stdout_truncated = c.stdout_truncated;
      stdin_error = c.stdin_error;
      spawn_error = c.spawn_error;
      timed_out = c.timed_out;
      forced_kill = c.forced_kill;
    })

-- `spawnFailure`.
unfoldable pub spawn_failure : Option String → RunnerResult
spawn_failure code = record {
  started = false;
  stdout = "";
  exit_code = none;
  signal = none;
  stderr_bytes = 0;
  stdout_truncated = false;
  stdin_error = none;
  spawn_error = some (code_or code "spawn_error");
  timed_out = false;
  forced_kill = false;
}

-- `run`: `spawn` throws, or gives a process and its events.
unfoldable pub run :
    (List ℕ → String) → Option (Option String) → Bool → Bool → List Event → Option RunnerResult
run decode (some code) has_pid is_late events = some (spawn_failure code)
run decode none has_pid is_late events =
    result_of decode (on_events events (spawned has_pid is_late))
