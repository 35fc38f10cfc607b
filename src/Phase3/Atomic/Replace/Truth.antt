-- ===== src/Phase3/Atomic/Replace/Truth.antt =====
-- phase3/atomicApply.ts: what an outcome of `replace` says of the file.
use ha_mcp.Prelude.{
  ℕ, ◌≤◌, ◌≡◌, refl, ap, ◌∙◌, sym, ◌⊎◌, inl, inr, Bool, true, false, Option, none, some, not,
  String, ◌==◌, nat_eq, option_eq, arith, string_eq, beq→eq,
}
use ha_mcp.Prelude.Results.{ok, >>=-eq-ok, Result-cases}
use ha_mcp.Phase3.Paths.{is_canonical_path}
use ha_mcp.Phase3.Records.{before_commit, committed}
use ha_mcp.Phase3.Ports.{ReplaceInput}
use ha_mcp.Phase3.Atomic.Frame.{HelperError}
use ha_mcp.Phase3.Atomic.Classify.{
  ApplyCode, RunnerResult, is_troubled, is_present, classify_runner_result,
}
use ha_mcp.Phase3.Atomic.Classify.Truth.{
  reported, committed_frame, Printed, classify-committed_iff, classify-before_commit,
}
use ha_mcp.Phase3.Atomic.Replace.{
  Platform, Native, Request, is_digest, is_absolute, check_input, request_of, admit, replace,
  max_text_bytes,
}

-- The helper ended by itself with exit code 0, and its input was written.
pub record IsClean (r : RunnerResult) : Type 0 where
  pub exit_code : r.exit_code ≡ some 0
  pub signal : r.signal ≡ none
  pub in_time : r.timed_out ≡ false
  pub unkilled : r.forced_kill ≡ false
  pub input_written : r.stdin_error ≡ none

calm-IsClean : (r : RunnerResult) → is_troubled r ≡ false → IsClean r
unfolding is_troubled
calm-IsClean r calm = record {
  exit_code = ended_zero r.exit_code (ground (arith, calm));
  signal = absent r.signal (ground (arith, calm));
  in_time = ground (arith, calm);
  unkilled = ground (arith, calm);
  input_written = absent r.stdin_error (ground (arith, calm));
}
  where
    absent : (s : Option String) → is_present s ≡ false → s ≡ none
    absent none h = refl
    absent (some s) h = ground (arith, h)

    ended_zero : (c : Option ℕ) → not (c == some 0) ≡ false → c ≡ some 0
    ended_zero none h = ground (arith, h)
    ended_zero (some c) h = beq→eq (some c) (some 0) (ground (arith, h))

module _ {Bytes : Type 0} (p : Platform Bytes) where
  -- What was tested before the helper ran.
  pub record IsChecked (n : Native) (input : ReplaceInput Bytes) : Type 0 where
    pub path : is_canonical_path p.nfc input.path ≡ true
    pub expected : is_digest p input.expected_sha256 ≡ true
    pub content : is_digest p input.content_sha256 ≡ true
    pub small : p.byte_length input.content ≤ max_text_bytes
    pub bound : p.sha256 input.content ≡ input.content_sha256
    pub platform : n.platform ≡ "linux"
    pub root : is_absolute p n.root ≡ true
    pub helper : is_absolute p n.helper_path ≡ true

  check_input-IsChecked :
      (n : Native) (input : ReplaceInput Bytes) (aborted : Bool) (now deadline_at : ℕ)
      → check_input p n input aborted now deadline_at ≡ ok tt
      → IsChecked n input
  unfolding check_input
  check_input-IsChecked n input aborted now deadline_at h = record {
    path = ground (arith, h);
    expected = ground (arith, h);
    content = ground (arith, h);
    small = ground (arith, h);
    bound = beq→eq (p.sha256 input.content) input.content_sha256 (ground (arith, h));
    platform = beq→eq n.platform "linux" (ground (arith, h));
    root = ground (arith, h);
    helper = ground (arith, h);
  }

  -- A `replace` that returns committed had a canonical path, digests of the right form, a content of
  -- at most 512 KiB with the digest that was named, Linux and absolute normalized paths; and the
  -- helper, given exactly that request, ended with code 0 and no signal, timeout, kill or error of its
  -- input, and printed the committed frame and nothing else.
  pub replace-committed :
      (n : Native) (input : ReplaceInput Bytes) (deadline_at : ℕ) (first : Bool × ℕ)
      (acquired : Option ApplyCode) (second : Bool × ℕ) (run : Request Bytes → RunnerResult)
      → replace p n input deadline_at first acquired second run ≡ ok committed
      → IsChecked n input
        × IsClean (run (request_of p n input))
        × Printed (run (request_of p n input)) committed_frame
  unfolding replace admit
  replace-committed n input deadline_at first acquired second run h =
      let (u, admitted, ran) =
        >>=-eq-ok (admit p n input deadline_at first acquired second) _ committed h in
      let (v, checked, rest) =
        >>=-eq-ok (check_input p n input first.0 first.1 deadline_at) _ tt admitted in
      let (started, calm, printed) = (classify-committed_iff (run (request_of p n input))).0 ran in
      (
        check_input-IsChecked n input first.0 first.1 deadline_at checked,
        calm-IsClean (run (request_of p n input)) calm,
        printed,
      )

  replace-admitted :
      (n : Native) (input : ReplaceInput Bytes) (deadline_at : ℕ) (first : Bool × ℕ)
      (acquired : Option ApplyCode) (second : Bool × ℕ) (run : Request Bytes → RunnerResult)
      → admit p n input deadline_at first acquired second ≡ ok tt
      → replace p n input deadline_at first acquired second run
        ≡ classify_runner_result (run (request_of p n input))
  unfolding replace
  replace-admitted n input deadline_at first acquired second run passed = rw passed refl

  -- A `replace` whose outcome, returned or thrown, reports before_commit never ran the helper, and so
  -- has that outcome whatever the helper does, or the helper did not start, or it printed a
  -- before_commit frame and nothing else.
  pub replace-before_commit :
      (n : Native) (input : ReplaceInput Bytes) (deadline_at : ℕ) (first : Bool × ℕ)
      (acquired : Option ApplyCode) (second : Bool × ℕ) (run : Request Bytes → RunnerResult)
      → reported (replace p n input deadline_at first acquired second run) ≡ before_commit
      → ((other : Request Bytes → RunnerResult)
          → replace p n input deadline_at first acquired second other
            ≡ replace p n input deadline_at first acquired second run)
        ⊎ ((run (request_of p n input)).started ≡ false)
        ⊎ ((o : Option HelperError) × Printed
              (run (request_of p n input))
              (record { status = before_commit; error_code = o }))
  unfolding replace
  replace-before_commit n input deadline_at first acquired second run h =
      elim (Result-cases (admit p n input deadline_at first acquired second)) [
        | inr (e, failed) ↦ inl (λ other. rw failed refl)
        | inl (u, passed) ↦ inr (
            classify-before_commit (run (request_of p n input)) (
              ap reported
                (sym (replace-admitted n input deadline_at first acquired second run passed))
              ∙ h))
      ]
