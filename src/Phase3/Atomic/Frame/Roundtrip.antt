-- ===== src/Phase3/Atomic/Frame/Roundtrip.antt =====
-- phase3/atomicApply.ts: the frames that the helper prints are read back.
use ha_mcp.Prelude.{ℕ, ◌≡◌, refl, ◌↔◌, String, false, Option, none, some, List, ◌++◌}
use ha_mcp.Phase3.Paths.{units}
use ha_mcp.Phase3.Records.{CommitStatus, before_commit, committed, commit_unknown}
use ha_mcp.Phase3.Atomic.Frame.{
  HelperError, invalid_input, unsupported_platform, open_root_failed, open_parent_failed,
  open_target_failed, pending_blocked, target_unsafe, target_digest_mismatch, candidate_read_failed,
  candidate_digest_mismatch, temp_create_failed, temp_write_failed, temp_verify_failed,
  race_detected, cancelled, exchange_failed, fsync_failed, cleanup_failed,
  commit_verification_failed, internal_error, Frame, error_text, helper_error_codes, status_text,
  frame_start, error_start, newline, strip, same_text, is_word_unit, word_line, some_word,
  find_error, frame_of, read_end, read_status, read_frame, parse_frame,
}
use ha_mcp.Phase3.Atomic.Frame.Exact.{
  end_text, frame_text, IsLegal, strip-append, parse_frame-exact,
}

error_text-found :
    (e : HelperError)
    → (find_error (error_text e) helper_error_codes ≡ some e)
      × (some_word (word_line (error_text e ++ newline)) ≡ some (error_text e))
unfolding find_error word_line some_word error_text same_text strip is_word_unit
error_text-found invalid_input = (refl, refl)
error_text-found unsupported_platform = (refl, refl)
error_text-found open_root_failed = (refl, refl)
error_text-found open_parent_failed = (refl, refl)
error_text-found open_target_failed = (refl, refl)
error_text-found pending_blocked = (refl, refl)
error_text-found target_unsafe = (refl, refl)
error_text-found target_digest_mismatch = (refl, refl)
error_text-found candidate_read_failed = (refl, refl)
error_text-found candidate_digest_mismatch = (refl, refl)
error_text-found temp_create_failed = (refl, refl)
error_text-found temp_write_failed = (refl, refl)
error_text-found temp_verify_failed = (refl, refl)
error_text-found race_detected = (refl, refl)
error_text-found cancelled = (refl, refl)
error_text-found exchange_failed = (refl, refl)
error_text-found fsync_failed = (refl, refl)
error_text-found cleanup_failed = (refl, refl)
error_text-found commit_verification_failed = (refl, refl)
error_text-found internal_error = (refl, refl)

coded-frame_of :
    (status : CommitStatus) (e : HelperError)
    → IsLegal status (some e)
    → frame_of status (some (error_text e)) ≡ some (record { status = status; error_code = some e })
unfolding frame_of
coded-frame_of committed e legal = absurd legal
coded-frame_of before_commit e legal = rw (error_text-found e).0 refl
coded-frame_of commit_unknown e legal = rw (error_text-found e).0 refl

end-read_end :
    (status : CommitStatus) (o : Option HelperError)
    → IsLegal status o
    → read_end status (end_text o) ≡ some (record { status = status; error_code = o })
unfolding read_end same_text strip error_start
end-read_end status none legal = refl
end-read_end status (some e) legal = rw (error_text-found e).1 (coded-frame_of status e legal)

printed-read_status :
    (status : CommitStatus) (o : Option HelperError)
    → IsLegal status o
    → read_status status (status_text status ++ end_text o)
      ≡ some (record { status = status; error_code = o })
unfolding read_status
printed-read_status status o legal =
    rw (strip-append (status_text status) (end_text o)) (end-read_end status o legal)

other-read_status :
    (t : List ℕ)
    → (read_status before_commit (status_text committed ++ t) ≡ none)
      × (read_status before_commit (status_text commit_unknown ++ t) ≡ none)
      × (read_status committed (status_text commit_unknown ++ t) ≡ none)
unfolding read_status status_text strip
other-read_status t = (refl, refl, refl)

printed-read_frame :
    (status : CommitStatus) (o : Option HelperError)
    → IsLegal status o
    → read_frame (status_text status ++ end_text o)
      ≡ some (record { status = status; error_code = o })
unfolding read_frame
printed-read_frame before_commit o legal = rw (printed-read_status before_commit o legal) refl
printed-read_frame committed o legal =
    rw ((other-read_status (end_text o)).0, printed-read_status committed o legal) refl
printed-read_frame commit_unknown o legal =
    rw
      (
        (other-read_status (end_text o)).1,
        (other-read_status (end_text o)).2,
        printed-read_status commit_unknown o legal,
      )
      refl

-- What the helper printed, whole, is read as a frame exactly where it is the text of that frame: the
-- prefix, the status, and, unless the status is `committed`, perhaps one of the twenty codes.
pub parse_frame_iff :
    (stdout : String) (f : Frame)
    → (parse_frame stdout false ≡ some f)
      ↔ (IsLegal f.status f.error_code × (units stdout ≡ frame_text f))
unfolding parse_frame
parse_frame_iff stdout f = (
  parse_frame-exact stdout f,
  λ (legal, text).
      rw (text, strip-append frame_start (status_text f.status ++ end_text f.error_code))
        (printed-read_frame f.status f.error_code legal),
)
