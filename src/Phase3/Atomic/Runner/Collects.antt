-- ===== src/Phase3/Atomic/Runner/Collects.antt =====
-- phase3/atomicApply.ts: what the runner keeps of the output, and the signals that it sends.
use ha_mcp.Prelude.{
  ℕ, suc, ◌+◌, ◌≤◌, ◌<◌, ◌≡◌, ap, sym, Bool, true, false, List, [], ◌∷◌, ◌++◌, arith, ltb, length,
  length-append, if-cases,
}
use mathlib.Core.List.{append_assoc, append-nil}
use ha_mcp.Phase3.Atomic.Runner.{
  stdout_limit, stderr_limit, Event, stdout_data, stderr_data, child_error, stdin_failed, abort,
  deadline, grace_over, close, Child, terminate, on_stdout, on_grace, on_event, on_events, spawned,
}

-- All that the process printed, in order.
unfoldable pub printed : List Event → List ℕ
printed [] = []
printed (stdout_data chunk ∷ es) = chunk ++ printed es
printed (stderr_data n ∷ es) = printed es
printed (child_error code ∷ es) = printed es
printed (stdin_failed code ∷ es) = printed es
printed (abort ∷ es) = printed es
printed (deadline ∷ es) = printed es
printed (grace_over ∷ es) = printed es
printed (close exit_code signal ∷ es) = printed es

-- What the runner holds of an output.
pub record Holds (output : List ℕ) (c : Child) : Type 0 where
  pub counted : c.stdout_bytes ≡ length output
  pub whole : c.stdout_truncated ≡ false → c.stdout ≡ output
  pub truncated : c.stdout_truncated ≡ true → stdout_limit < length output
  pub within : length c.stdout ≤ c.stdout_bytes
  pub fits : length c.stdout ≤ stdout_limit
  pub stderr : c.stderr_bytes ≤ suc stderr_limit

on_stdout-Holds :
    (output chunk : List ℕ) (c : Child)
    → Holds output c
    → Holds (output ++ chunk) (on_stdout chunk c)
unfolding on_stdout
on_stdout-Holds output chunk c h =
    if-cases (Holds (output ++ chunk)) (ltb stdout_limit (c.stdout_bytes + length chunk))
      (λ over. record {
        counted = omega (arith, h.counted, length-append output chunk);
        whole = λ e. ground (arith, e);
        truncated = λ _. ground (arith, over, h.counted, length-append output chunk);
        within = omega (arith, h.within);
        fits = h.fits;
        stderr = h.stderr;
      })
      (λ under. record {
        counted = omega (arith, h.counted, length-append output chunk);
        whole = λ e. ap (λ t. t ++ chunk) (h.whole e);
        truncated = λ e. omega (arith, h.truncated e, length-append output chunk);
        within = omega (arith, h.within, length-append c.stdout chunk);
        fits = ground (arith, under, h.within, length-append c.stdout chunk);
        stderr = h.stderr;
      })

-- A step that leaves the output alone.
quiet-Holds :
    (output : List ℕ) (c d : Child)
    → d.stdout_bytes ≡ c.stdout_bytes
    → d.stdout_truncated ≡ c.stdout_truncated
    → d.stdout ≡ c.stdout
    → d.stderr_bytes ≡ c.stderr_bytes
    → Holds output c
    → Holds output d
quiet-Holds output c d bytes truncated kept stderr h = ground (arith)

terminate-Holds :
    (output : List ℕ) (timeout : Bool) (c : Child)
    → Holds output c
    → Holds output (terminate timeout c)
unfolding terminate
terminate-Holds output timeout c h = ground arith

on_grace-Holds : (output : List ℕ) (c : Child) → Holds output c → Holds output (on_grace c)
unfolding on_grace
on_grace-Holds output c h = ground arith

on_events-Holds :
    (es : List Event) (output : List ℕ) (c : Child)
    → Holds output c
    → Holds (output ++ printed es) (on_events es c)
unfolding on_events on_event printed
on_events-Holds [] output c h = rw append-nil h
on_events-Holds (stdout_data chunk ∷ es) output c h =
    rw (sym (append_assoc output chunk (printed es)))
      (on_events-Holds es (output ++ chunk) (on_stdout chunk c) (on_stdout-Holds output chunk c h))
on_events-Holds (stderr_data n ∷ es) output c h = on_events-Holds es output _ (ground arith)
on_events-Holds (child_error code ∷ es) output c h = on_events-Holds es output _ (ground arith)
on_events-Holds (stdin_failed code ∷ es) output c h = on_events-Holds es output _ (ground arith)
on_events-Holds (abort ∷ es) output c h =
    on_events-Holds es output _ (terminate-Holds output false c h)
on_events-Holds (deadline ∷ es) output c h =
    on_events-Holds es output _ (terminate-Holds output true c h)
on_events-Holds (grace_over ∷ es) output c h =
    on_events-Holds es output _ (on_grace-Holds output c h)
on_events-Holds (close exit_code signal ∷ es) output c h =
    on_events-Holds es output _ (ground arith)

-- Whatever happens to the process and in whatever order, the runner holds at most 256 bytes of its
-- output, exactly all that was printed unless it is marked as truncated, which it is only if more
-- than 256 bytes were printed; of the error output it counts at most one byte above its limit.
pub on_events-Holds_printed :
    (has_pid is_late : Bool) (es : List Event)
    → Holds (printed es) (on_events es (spawned has_pid is_late))
unfolding spawned terminate
on_events-Holds_printed has_pid is_late es =
    on_events-Holds es [] (spawned has_pid is_late) (ground arith)
