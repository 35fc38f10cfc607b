-- ===== src/Phase3/Atomic/Classify.antt =====
-- phase3/atomicApply.ts: `classifyRunnerResult` and `frameResult`, what the end of the helper says of
-- the commit. The messages of the errors are left out.
pub mod Truth
use ha_mcp.Prelude.{
  ℕ, String, Bool, true, false, ◌||◌, not, Option, none, some, ◌==◌, nat_eq, option_eq,
  if◌then◌else◌,
}
use ha_mcp.Prelude.Results.{Result, ok, err}
use ha_mcp.Phase3.Records.{CommitStatus, before_commit, committed, commit_unknown}
use ha_mcp.Phase3.Atomic.Frame.{HelperError, Frame, parse_frame}

-- `Phase3AtomicApplyErrorCode`; `helper_error` is a code that the helper gave.
pub data ApplyCode : Type 0 where
  invalid_path invalid_digest content_too_large content_digest_mismatch operation_cancelled
        deadline_exceeded unsupported_platform invalid_root invalid_helper queue_full
        helper_spawn_failed helper_protocol helper_exit helper_signal helper_stdin_failed
        helper_timeout :
      ApplyCode
  helper_error : HelperError → ApplyCode

-- `Phase3AtomicApplyError`.
pub record ApplyError : Type 0 where
  pub code : ApplyCode
  pub commit_status : CommitStatus

-- `fail`.
abbrev pub fail : ApplyCode → ApplyError
fail code = record { code = code; commit_status = before_commit }

-- `Phase3AtomicApplyRunnerResult`. A `none` is a null or an absent field.
pub record RunnerResult : Type 0 where
  pub started : Bool
  pub stdout : String
  pub exit_code : Option ℕ
  pub signal : Option String
  pub stderr_bytes : ℕ
  pub stdout_truncated : Bool
  pub stdin_error : Option String
  pub spawn_error : Option String
  pub timed_out : Bool
  pub forced_kill : Bool

abbrev pub is_present : Option String → Bool
is_present none = false
is_present (some s) = true

-- The test for an end that is not trusted.
unfoldable pub is_troubled : RunnerResult → Bool
is_troubled r =
    is_present r.stdin_error
    || r.forced_kill
    || r.timed_out
    || is_present r.signal
    || not (r.exit_code == some 0)

unfoldable pub trouble_code : RunnerResult → ApplyCode
trouble_code r =
    if is_present r.stdin_error
    then helper_stdin_failed
    else if r.timed_out
    then helper_timeout
    else if is_present r.signal
    then helper_signal
    else helper_exit

-- `frameResult`.
unfoldable pub frame_outcome : CommitStatus → Option HelperError → Result ApplyError CommitStatus
frame_outcome status none = ok status
frame_outcome status (some e) = err (record { code = helper_error e; commit_status = status })

abbrev pub frame_result : Frame → Result ApplyError CommitStatus
frame_result f = frame_outcome f.status f.error_code

abbrev pub unknown : ApplyCode → Result ApplyError CommitStatus
unknown code = err (record { code = code; commit_status = commit_unknown })

-- `frame?.status === "before_commit"`.
abbrev pub says_before_commit : Option Frame → Bool
says_before_commit none = false
says_before_commit (some f) = elim f.status [ before_commit ↦ true | _ ↦ false ]

abbrev pub result_or :
    Option Frame → Result ApplyError CommitStatus → Result ApplyError CommitStatus
result_or none r = r
result_or (some f) r = frame_result f

-- The end of a helper that was started, with the frame that it printed.
unfoldable pub classify_ended : RunnerResult → Option Frame → Result ApplyError CommitStatus
classify_ended r frame =
    if is_troubled r
    then (if says_before_commit frame
        then result_or frame (unknown (trouble_code r))
        else unknown (trouble_code r))
    else result_or frame (unknown helper_protocol)

-- `classifyRunnerResult`.
unfoldable pub classify_runner_result : RunnerResult → Result ApplyError CommitStatus
classify_runner_result r =
    if not r.started
    then err (fail helper_spawn_failed)
    else classify_ended r (parse_frame r.stdout r.stdout_truncated)
