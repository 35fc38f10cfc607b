-- ===== src/Phase3/Atomic/Replace.antt =====
-- phase3/atomicApply.ts: `replace` of `NativePhase3AtomicApply`. SHA-256, `toLowerCase`, the
-- normalizations of texts and paths and the runner are parameters; the messages of the errors and the
-- wiping of the copy are left out.
pub mod Truth
use ha_mcp.Prelude.{
  ℕ, ◌*◌, String, Bool, true, false, not, ◌&&◌, ◌||◌, Option, none, some, List, [], ◌∷◌, ◌==◌,
  string_eq, nat_eq, leb, includes, if◌then◌else◌,
}
use ha_mcp.Prelude.Results.{Result, ok, err, ◌>>=◌, ◌>>◌, guard}
use ha_mcp.Phase3.Paths.{units, is_sha256, starts_with_slash, is_canonical_path}
use ha_mcp.Phase3.Records.{CommitStatus}
use ha_mcp.Phase3.Ports.{ReplaceInput}
use ha_mcp.Phase3.Atomic.Classify.{
  ApplyCode, ApplyError, RunnerResult, fail, invalid_path, invalid_digest, content_too_large,
  content_digest_mismatch, unsupported_platform, invalid_root, invalid_helper,
  classify_runner_result,
}
use ha_mcp.Phase3.Atomic.Pool.{assert_active, positive_int}
use ha_mcp.Phase3.Atomic.Runner.{stdout_limit, stderr_limit}

-- The platform.
pub record Platform (Bytes : Type 0) : Type 0 where
  pub nfc : String → String
  pub to_lower_case : String → String
  -- `posix.normalize`
  pub normalize : String → String
  pub sha256 : Bytes → String
  pub byte_length : Bytes → ℕ

-- The options of the constructor, and what stands for them.
pub record Options : Type 0 where
  pub root : Option String
  pub helper_path : Option String
  pub platform : Option String
  pub termination_grace_ms : Option ℕ

abbrev pub or_default {ℓ} : {A : Type ℓ} → Option A → A → A
or_default none a = a
or_default (some a) _ = a

-- `NativePhase3AtomicApply`, without its pool. `process_platform` is the platform's.
pub record Native : Type 0 where
  pub root : String
  pub helper_path : String
  pub platform : String
  pub termination_grace_ms : ℕ

unfoldable pub new_native : String → Options → Native
new_native process_platform options = record {
  root = or_default options.root "/homeassistant";
  helper_path = or_default options.helper_path "/app/native/openat2-replace";
  platform = or_default options.platform process_platform;
  termination_grace_ms = positive_int (or_default options.termination_grace_ms 1000) 1000;
}

-- `Phase3AtomicApplyRunnerRequest`; the signal and the deadline are the context's.
pub record Request (Bytes : Type 0) : Type 0 where
  pub helper_path : String
  pub root : String
  pub path : String
  pub expected_sha256 : String
  pub content_sha256 : String
  pub byte_length : ℕ
  pub stdin : Bytes
  pub stdout_limit : ℕ
  pub stderr_limit : ℕ
  pub termination_grace_ms : ℕ

abbrev pub max_text_bytes : ℕ
max_text_bytes = 512 * 1024

-- What a test that may have thrown leaves.
abbrev pub check : Option ApplyCode → Result ApplyError (Unit {0})
check none = ok tt
check (some code) = err (fail code)

module _ {Bytes : Type 0} (p : Platform Bytes) where
  -- `validatedDigest`.
  unfoldable pub is_digest : String → Bool
  is_digest value = value == p.to_lower_case value && is_sha256 value

  -- `validatedAbsolute`.
  unfoldable pub is_absolute : String → Bool
  is_absolute value =
      not (includes (units value) 0)
      && starts_with_slash (units value)
      && p.normalize value == value

  -- `replace` up to the permit. `aborted` and `now` are read by `assertActive`.
  unfoldable pub check_input :
      Native → ReplaceInput Bytes → Bool → ℕ → ℕ → Result ApplyError (Unit {0})
  check_input n input aborted now deadline_at = do
    guard (is_canonical_path p.nfc input.path) (fail invalid_path)
    guard (is_digest input.expected_sha256) (fail invalid_digest)
    guard (is_digest input.content_sha256) (fail invalid_digest)
    guard (leb (p.byte_length input.content) max_text_bytes) (fail content_too_large)
    guard (p.sha256 input.content == input.content_sha256) (fail content_digest_mismatch)
    check (assert_active aborted now deadline_at)
    guard (n.platform == "linux") (fail unsupported_platform)
    guard (is_absolute n.root) (fail invalid_root)
    guard (is_absolute n.helper_path) (fail invalid_helper)

  unfoldable pub request_of : Native → ReplaceInput Bytes → Request Bytes
  request_of n input = record {
    helper_path = n.helper_path;
    root = n.root;
    path = input.path;
    expected_sha256 = input.expected_sha256;
    content_sha256 = input.content_sha256;
    byte_length = p.byte_length input.content;
    stdin = input.content;
    stdout_limit = stdout_limit;
    stderr_limit = stderr_limit;
    termination_grace_ms = n.termination_grace_ms;
  }

  -- `replace` up to the call of the runner. `first` is what `assertActive` reads at the start,
  -- `acquired` how the wait for the permit ends, `second` what `assertActive` reads then.
  unfoldable pub admit :
      Native
      → ReplaceInput Bytes
      → ℕ
      → Bool × ℕ
      → Option ApplyCode
      → Bool × ℕ
      → Result ApplyError (Unit {0})
  admit n input deadline_at first acquired second = do
    check_input n input first.0 first.1 deadline_at
    check acquired
    check (assert_active second.0 second.1 deadline_at)

  -- `replace`. The runner answers the request.
  unfoldable pub replace :
      Native
      → ReplaceInput Bytes
      → ℕ
      → Bool × ℕ
      → Option ApplyCode
      → Bool × ℕ
      → (Request Bytes → RunnerResult)
      → Result ApplyError CommitStatus
  replace n input deadline_at first acquired second run = do
    admit n input deadline_at first acquired second
    classify_runner_result (run (request_of n input))
