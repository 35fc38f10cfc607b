-- ===== src/Phase3/Tests/Atomic.antt =====
-- The atomic apply port on a small file, and its pool with one permit and two callers.
use ha_mcp.Prelude.{
  includes, nat_eq, ℕ, ◌≡◌, refl, ◌↔◌, ◌⊎◌, String, Bool, true, false, Option, none, some, List, [],
  ◌∷◌, length,
}
use ha_mcp.Prelude.Results.{ok}
use ha_mcp.Phase3.Paths.{
  units, is_canonical_path, is_sha256, split, split_from, segment_ok, unit_ok, starts_with_slash,
}
use ha_mcp.Phase3.Records.{committed, before_commit}
use ha_mcp.Phase3.Ports.{ReplaceInput}
use ha_mcp.Phase3.Atomic.Frame.{
  HelperError, race_detected, parse_frame, read_frame, read_status, read_end, frame_of, find_error,
  some_word, word_line, is_word_unit, same_text, strip, error_start, frame_start, status_text,
  error_text,
}
use ha_mcp.Phase3.Atomic.Frame.Exact.{IsLegal, frame_text}
use ha_mcp.Phase3.Atomic.Frame.Roundtrip.{parse_frame_iff}
use ha_mcp.Phase3.Atomic.Classify.{
  RunnerResult, is_troubled, classify_runner_result, classify_ended, frame_outcome,
}
use ha_mcp.Phase3.Atomic.Classify.Truth.{committed_frame, Printed, reported}
use ha_mcp.Phase3.Atomic.Pool.{
  Pool, new_pool, acquire, release, enter, enter_free, enter_busy, assert_active, positive_int,
}
use ha_mcp.Phase3.Atomic.Pool.Bounds.{
  Session, start, acquired, released, IsWithin, Session-IsWithin,
}
use ha_mcp.Phase3.Atomic.Runner.{
  Event, stdout_data, stderr_data, grace_over, deadline, close, on_events, spawned,
}
use ha_mcp.Phase3.Atomic.Runner.Collects.{Holds, printed, on_events-Holds_printed}
use ha_mcp.Phase3.Atomic.Replace.{
  Platform, Native, new_native, Request, replace, request_of, check_input, is_digest, is_absolute,
  admit,
}
use ha_mcp.Phase3.Atomic.Replace.Truth.{
  IsChecked, IsClean, replace-committed, replace-before_commit,
}

abbrev digest : String
digest = "aaaaaaaaaaaaaaaaaaaaaaaaaaaaaaaaaaaaaaaaaaaaaaaaaaaaaaaaaaaaaaaa"

abbrev platform : Platform (List ℕ)
platform = record {
  nfc = λ s. s;
  to_lower_case = λ s. s;
  normalize = λ s. s;
  sha256 = λ b. digest;
  byte_length = length;
}

abbrev native : Native
native =
    new_native "linux"
      (record { root = none; helper_path = none; platform = none; termination_grace_ms = none })

abbrev input : ReplaceInput (List ℕ)
input = record {
  path = "a.yaml";
  expected_sha256 = digest;
  content = 97 ∷ [];
  content_sha256 = digest;
}

abbrev ended : String → RunnerResult
ended stdout = record {
  started = true;
  stdout = stdout;
  exit_code = some 0;
  signal = none;
  stderr_bytes = 0;
  stdout_truncated = false;
  stdin_error = none;
  spawn_error = none;
  timed_out = false;
  forced_kill = false;
}

abbrev committed_text : String
committed_text = "phase3-atomic-apply-v1 status=committed\n"

abbrev raced_text : String
raced_text = "phase3-atomic-apply-v1 status=before_commit error=race_detected\n"

raced :
    parse_frame raced_text false
    ≡ some (record { status = before_commit; error_code = some race_detected })
unfolding parse_frame read_frame read_status read_end frame_of find_error some_word word_line
    is_word_unit same_text strip error_start frame_start status_text error_text
raced = refl

parse_frame_iff_example :
    (parse_frame raced_text false
      ≡ some (record { status = before_commit; error_code = some race_detected }))
    ↔ (IsLegal before_commit (some race_detected)
        × (units raced_text
            ≡ frame_text (record { status = before_commit; error_code = some race_detected })))
parse_frame_iff_example =
    parse_frame_iff raced_text (record { status = before_commit; error_code = some race_detected })

abbrev quick : Bool × ℕ
quick = (false, 1)

run_committed :
    replace platform native input 100 quick none quick (λ r. ended committed_text) ≡ ok committed
unfolding replace check_input is_digest is_absolute admit request_of new_native positive_int
    assert_active classify_runner_result classify_ended frame_outcome is_troubled parse_frame
    read_frame read_status read_end frame_of same_text strip error_start frame_start status_text
    is_canonical_path is_sha256 split split_from segment_ok unit_ok starts_with_slash
run_committed = refl

replace-committed_example :
    IsChecked platform native input
    × IsClean (ended committed_text)
    × Printed (ended committed_text) committed_frame
replace-committed_example =
    replace-committed platform native input 100 quick none quick (λ r. ended committed_text)
      run_committed

run_raced :
    reported (replace platform native input 100 quick none quick (λ r. ended raced_text))
    ≡ before_commit
unfolding replace check_input is_digest is_absolute admit request_of new_native positive_int
    assert_active classify_runner_result classify_ended frame_outcome is_troubled parse_frame
    read_frame read_status read_end frame_of find_error some_word word_line is_word_unit same_text
    strip error_start frame_start status_text error_text reported is_canonical_path is_sha256 split
    split_from segment_ok unit_ok starts_with_slash
run_raced = refl

replace-before_commit_example :
    ((other : Request (List ℕ) → RunnerResult)
      → replace platform native input 100 quick none quick other
        ≡ replace platform native input 100 quick none quick (λ r. ended raced_text))
    ⊎ (true ≡ false)
    ⊎ ((o : Option HelperError) × Printed
          (ended raced_text)
          (record { status = before_commit; error_code = o }))
replace-before_commit_example =
    replace-before_commit platform native input 100 quick none quick (λ r. ended raced_text)
      run_raced

abbrev first_in : Pool
first_in = acquire 0 100 false 1 1 (λ s. false) (λ id. 1) (new_pool 1 8)

abbrev second_waits : Pool
second_waits = acquire 1 100 false 2 2 (λ s. false) (λ id. 2) first_in

first_holds : includes second_waits.holders 0 ≡ true
unfolding acquire enter enter_free enter_busy assert_active new_pool positive_int
first_holds = refl

session : Session 1 8 (release 0 (λ s. false) (λ id. 3) second_waits)
session =
    released 0 (λ s. false) (λ id. 3) first_holds
      (acquired 1 100 false 2 2 (λ s. false) (λ id. 2)
        (acquired 0 100 false 1 1 (λ s. false) (λ id. 1) start))

Session-IsWithin_example : IsWithin (release 0 (λ s. false) (λ id. 3) second_waits)
Session-IsWithin_example = Session-IsWithin session

abbrev events : List Event
events =
    stdout_data (104 ∷ 105 ∷ [])
    ∷ stderr_data 9
    ∷ deadline
    ∷ grace_over
    ∷ close none (some "SIGKILL")
    ∷ []

on_events-Holds_printed_example : Holds (printed events) (on_events events (spawned true false))
on_events-Holds_printed_example = on_events-Holds_printed true false events
