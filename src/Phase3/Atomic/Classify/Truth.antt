-- ===== src/Phase3/Atomic/Classify/Truth.antt =====
-- phase3/atomicApply.ts: when an outcome says that the commit happened, and when that it did not.
use ha_mcp.Prelude.{
  ◌≡◌, ◌≢◌, refl, ap, ◌∙◌, sym, subst, ◌↔◌, ◌⊎◌, inl, inr, String, Bool, true, false, Option, none,
  some, arith, Bool-cases,
}
use ha_mcp.Prelude.Results.{Result, ok, err}
use ha_mcp.Phase3.Paths.{units}
use ha_mcp.Phase3.Records.{CommitStatus, before_commit, committed, commit_unknown}
use ha_mcp.Phase3.Atomic.Frame.{HelperError, Frame, parse_frame}
use ha_mcp.Phase3.Atomic.Frame.Exact.{frame_text, parse_frame-exact}
use ha_mcp.Phase3.Atomic.Frame.Roundtrip.{parse_frame_iff}
use ha_mcp.Phase3.Atomic.Classify.{
  ApplyError, RunnerResult, is_troubled, frame_outcome, classify_ended, classify_runner_result,
}

-- The commit status that an outcome reports, returned or thrown.
unfoldable pub reported : Result ApplyError CommitStatus → CommitStatus
reported (ok status) = status
reported (err e) = e.commit_status

abbrev pub committed_frame : Frame
committed_frame = record { status = committed; error_code = none }

reported-frame_outcome :
    (status : CommitStatus) (o : Option HelperError) → reported (frame_outcome status o) ≡ status
unfolding reported frame_outcome
reported-frame_outcome status none = refl
reported-frame_outcome status (some e) = refl

-- What was printed, whole, is the text of the frame.
pub record Printed (r : RunnerResult) (f : Frame) : Type 0 where
  pub whole : r.stdout_truncated ≡ false
  pub text : units r.stdout ≡ frame_text f

parse_frame-whole :
    (stdout : String) (truncated : Bool) (f : Frame)
    → parse_frame stdout truncated ≡ some f
    → truncated ≡ false
unfolding parse_frame
parse_frame-whole stdout false f h = refl
parse_frame-whole stdout true f h = ground arith

parse_frame-Printed :
    (r : RunnerResult) (f : Frame) → parse_frame r.stdout r.stdout_truncated ≡ some f → Printed r f
parse_frame-Printed r f h =
    let whole = parse_frame-whole r.stdout r.stdout_truncated f h in
    record {
      whole = whole;
      text =
          (parse_frame-exact r.stdout f (subst (λ t. parse_frame r.stdout t ≡ some f) whole h)).1;
    }

classify_ended-reported :
    (r : RunnerResult) (status : CommitStatus) (o : Option HelperError)
    → (reported (classify_ended r (some (record { status = status; error_code = o })))
        ≡ commit_unknown)
      ⊎ (reported (classify_ended r (some (record { status = status; error_code = o }))) ≡ status)
unfolding classify_ended reported
classify_ended-reported r status o = ground (arith, reported-frame_outcome status o)

classify_ended-committed :
    (r : RunnerResult) (frame : Option Frame)
    → classify_ended r frame ≡ ok committed
    → (is_troubled r ≡ false) × (frame ≡ some committed_frame)
unfolding classify_ended frame_outcome
classify_ended-committed r none h = ground arith
classify_ended-committed r (some f) h = ground arith

classify_ended-before_commit :
    (r : RunnerResult) (frame : Option Frame)
    → reported (classify_ended r frame) ≡ before_commit
    → (o : Option HelperError) × (frame ≡ some (record { status = before_commit; error_code = o }))
unfolding classify_ended reported
classify_ended-before_commit r none h = ground arith
classify_ended-before_commit r (some f) h = elim (classify_ended-reported r f.status f.error_code) [
  | inl unsure ↦ ground (arith, unsure, h)
  | inr said ↦ (
    f.error_code,
    ap (λ t. some (record { status = t; error_code = f.error_code })) (sym said ∙ h),
  )
]

classify-started :
    (r : RunnerResult)
    → r.started ≡ true
    → classify_runner_result r ≡ classify_ended r (parse_frame r.stdout r.stdout_truncated)
unfolding classify_runner_result
classify-started r h = rw h refl

classify-idle :
    (r : RunnerResult)
    → r.started ≡ false
    → reported (classify_runner_result r) ≡ before_commit
      × (classify_runner_result r ≢ ok committed)
unfolding classify_runner_result reported
classify-idle r h = rw h (refl, λ e. ground (arith, e))

ended_calm-committed :
    (r : RunnerResult)
    → is_troubled r ≡ false
    → Printed r committed_frame
    → classify_ended r (parse_frame r.stdout r.stdout_truncated) ≡ ok committed
unfolding classify_ended frame_outcome
ended_calm-committed r calm printed =
    rw (calm, printed.whole, (parse_frame_iff r.stdout committed_frame).1 (tt, printed.text)) refl

-- The helper is reported to have committed exactly where it started, ended with exit code 0, with no
-- signal, timeout, kill or error of its input, and printed the committed frame and nothing else.
pub classify-committed_iff :
    (r : RunnerResult)
    → (classify_runner_result r ≡ ok committed)
      ↔ ((r.started ≡ true) × (is_troubled r ≡ false) × Printed r committed_frame)
classify-committed_iff r = (
  λ h. elim (Bool-cases r.started) [
    | inr idle ↦ absurd ((classify-idle r idle).1 h)
    | inl started ↦
        (let ended =
            classify_ended-committed r (parse_frame r.stdout r.stdout_truncated)
              (sym (classify-started r started) ∙ h) in
          (started, ended.0, parse_frame-Printed r committed_frame ended.1))
  ],
  λ (started, calm, printed). classify-started r started ∙ ended_calm-committed r calm printed,
)

-- An outcome, returned or thrown, reports before_commit only if the helper did not start, or printed
-- a before_commit frame and nothing else.
pub classify-before_commit :
    (r : RunnerResult)
    → reported (classify_runner_result r) ≡ before_commit
    → (r.started ≡ false)
      ⊎ ((o : Option HelperError) × Printed r (record { status = before_commit; error_code = o }))
classify-before_commit r h = elim (Bool-cases r.started) [
  | inr idle ↦ inl idle
  | inl started ↦
      (let (o, read) =
          classify_ended-before_commit r (parse_frame r.stdout r.stdout_truncated)
            (ap reported (sym (classify-started r started)) ∙ h) in
        inr (o, parse_frame-Printed r _ read))
]
