-- ===== src/Phase3/Atomic/Frame.antt =====
-- phase3/atomicApply.ts: `parseFrame`, over the UTF-16 code units of what the helper printed.
pub mod Exact
pub mod Roundtrip
use ha_mcp.Prelude.{
  ℕ, String, Bool, true, false, ◌&&◌, ◌||◌, Option, none, some, List, [], ◌∷◌, ◌++◌, leb, nat_beq,
  if◌then◌else◌,
}
use ha_mcp.Phase3.Paths.{units}
use ha_mcp.Phase3.Records.{CommitStatus, before_commit, committed, commit_unknown}

-- `Phase3AtomicApplyHelperErrorCode`.
pub data HelperError : Type 0 where
  invalid_input unsupported_platform open_root_failed open_parent_failed open_target_failed
        pending_blocked target_unsafe target_digest_mismatch candidate_read_failed
        candidate_digest_mismatch temp_create_failed temp_write_failed temp_verify_failed
        race_detected cancelled exchange_failed fsync_failed cleanup_failed
        commit_verification_failed internal_error :
      HelperError

unfoldable pub error_text : HelperError → List ℕ
error_text invalid_input = units "invalid_input"
error_text unsupported_platform = units "unsupported_platform"
error_text open_root_failed = units "open_root_failed"
error_text open_parent_failed = units "open_parent_failed"
error_text open_target_failed = units "open_target_failed"
error_text pending_blocked = units "pending_blocked"
error_text target_unsafe = units "target_unsafe"
error_text target_digest_mismatch = units "target_digest_mismatch"
error_text candidate_read_failed = units "candidate_read_failed"
error_text candidate_digest_mismatch = units "candidate_digest_mismatch"
error_text temp_create_failed = units "temp_create_failed"
error_text temp_write_failed = units "temp_write_failed"
error_text temp_verify_failed = units "temp_verify_failed"
error_text race_detected = units "race_detected"
error_text cancelled = units "cancelled"
error_text exchange_failed = units "exchange_failed"
error_text fsync_failed = units "fsync_failed"
error_text cleanup_failed = units "cleanup_failed"
error_text commit_verification_failed = units "commit_verification_failed"
error_text internal_error = units "internal_error"

-- `phase3AtomicApplyHelperErrorCodes`.
abbrev pub helper_error_codes : List HelperError
helper_error_codes =
    invalid_input ∷ unsupported_platform ∷ open_root_failed ∷ open_parent_failed
    ∷ open_target_failed ∷ pending_blocked ∷ target_unsafe ∷ target_digest_mismatch
    ∷ candidate_read_failed ∷ candidate_digest_mismatch ∷ temp_create_failed ∷ temp_write_failed
    ∷ temp_verify_failed ∷ race_detected ∷ cancelled ∷ exchange_failed ∷ fsync_failed
    ∷ cleanup_failed ∷ commit_verification_failed ∷ internal_error ∷ []

unfoldable pub status_text : CommitStatus → List ℕ
status_text before_commit = units "before_commit"
status_text committed = units "committed"
status_text commit_unknown = units "commit_unknown"

-- The start of the frame, with `phase3AtomicApplyFramePrefix`.
unfoldable pub frame_start : List ℕ
frame_start = units "phase3-atomic-apply-v1 status="

unfoldable pub error_start : List ℕ
error_start = units " error="

abbrev pub newline : List ℕ
newline = 10 ∷ []

-- `ParsedFrame`.
pub record Frame : Type 0 where
  pub status : CommitStatus
  pub error_code : Option HelperError

-- A literal part of the pattern at the start of a text: what follows it.
unfoldable pub strip : List ℕ → List ℕ → Option (List ℕ)
strip [] cs = some cs
strip (p ∷ ps) [] = none
strip (p ∷ ps) (c ∷ cs) = let rest = strip ps cs in if nat_beq p c then rest else none

abbrev pub is_at_end : Option (List ℕ) → Bool
is_at_end (some []) = true
is_at_end _ = false

-- `code === name` on code units.
unfoldable pub same_text : List ℕ → List ℕ → Bool
same_text name code = is_at_end (strip name code)

-- `[a-z_]`.
unfoldable pub is_word_unit : ℕ → Bool
is_word_unit c = (leb b'a' c && leb c b'z') || nat_beq c b'_'

abbrev pub prepend : ℕ → Option (List ℕ) → Option (List ℕ)
prepend c none = none
prepend c (some cs) = some (c ∷ cs)

-- `[a-z_]*\n$`: the word.
unfoldable pub word_line : List ℕ → Option (List ℕ)
word_line [] = none
word_line (c ∷ []) = if nat_beq c 10 then some [] else none
word_line (c ∷ d ∷ cs) =
    let rest = word_line (d ∷ cs) in if is_word_unit c then prepend c rest else none

-- `[a-z_]+\n$`.
unfoldable pub some_word : Option (List ℕ) → Option (List ℕ)
some_word (some (c ∷ cs)) = some (c ∷ cs)
some_word _ = none

-- `isHelperErrorCode`, and the code that it is.
unfoldable pub find_error : List ℕ → List HelperError → Option HelperError
find_error code [] = none
find_error code (e ∷ es) =
    let later = find_error code es in if same_text (error_text e) code then some e else later

abbrev pub frame_with : CommitStatus → Option HelperError → Option Frame
frame_with status none = none
frame_with status (some e) = some (record { status = status; error_code = some e })

-- The frame of a status and the code that follows it.
unfoldable pub frame_of : CommitStatus → Option (List ℕ) → Option Frame
frame_of status none = none
frame_of before_commit (some code) = frame_with before_commit (find_error code helper_error_codes)
frame_of committed (some code) = none
frame_of commit_unknown (some code) = frame_with commit_unknown (find_error code helper_error_codes)

abbrev pub and_then {ℓ} : {A : Type ℓ} → Option (List ℕ) → (List ℕ → Option A) → Option A
and_then none f = none
and_then (some cs) f = f cs

-- `(?: error=([a-z_]+))?\n$` after the status.
unfoldable pub read_end : CommitStatus → List ℕ → Option Frame
read_end status cs =
    if same_text newline cs
    then some (record { status = status; error_code = none })
    else and_then (strip error_start cs) λ code. frame_of status (some_word (word_line code))

abbrev pub or_else {ℓ} : {A : Type ℓ} → Option A → Option A → Option A
or_else none o = o
or_else (some a) o = some a

unfoldable pub read_status : CommitStatus → List ℕ → Option Frame
read_status status cs = and_then (strip (status_text status) cs) λ rest. read_end status rest

-- The alternatives of the pattern in order.
unfoldable pub read_frame : List ℕ → Option Frame
read_frame cs =
    or_else (read_status before_commit cs)
      (or_else (read_status committed cs) (read_status commit_unknown cs))

unfoldable pub parse_frame : String → Bool → Option Frame
parse_frame stdout truncated =
    if truncated then none else and_then (strip frame_start (units stdout)) λ cs. read_frame cs
