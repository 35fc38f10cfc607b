-- ===== src/Phase3/Approval.antt =====
-- phase3/approval.ts: `InjectedApprovalGrantPort`, and
-- the checks of a grant that the durable port shares.
pub mod Binding
pub mod Once
pub mod Injected
use ha_mcp.Prelude.{
  ℕ, String, Bool, true, false, not, ◌&&◌, ◌||◌, Option, none, some, List, [], ◌∷◌, ◌==◌, ◌!=◌,
  string_eq, option_eq, ltb, leb, includes, map_get, map_set, if◌then◌else◌,
}
use ha_mcp.Phase3.Records.{
  ProposalSnapshot, ApprovalGrant, pending, proposal_state_eq, impact_eq, risk_eq, target_eq,
}
use ha_mcp.Phase3.Records.Schema.{Formats, is_none, proposal_is_valid, grant_is_valid}

-- `Phase3ApprovalErrorCode`, without the two codes of the durable port.
pub data ApprovalError : Type 0 where
  approval_cancelled approval_not_found approval_replayed approval_not_yet_valid approval_expired
        approval_wrong_binding approval_store_unhealthy proposal_not_pending proposal_expired :
      ApprovalError

-- What a check returns or throws.
pub data Checked (A : Type 0) : Type 0 where
  passed : A → Checked A
  failed : ApprovalError → Checked A

abbrev pub and_then : {A B : Type 0} → Checked A → (A → Checked B) → Checked B
and_then (passed a) f = f a
and_then (failed e) f = failed e

abbrev pub refuse_if : {A : Type 0} → Bool → ApprovalError → Checked A → Checked A
refuse_if test e k = if test then failed e else k

-- The signal as the intrinsic getter of `AbortSignal` sees it: another object, or its state.
pub data Signal : Type 0 where
  unbranded : Signal
  live : Bool → Signal

-- `Phase3ApprovalContext`. `now` is `none` where it is not a safe integer or its getter throws.
pub record ApprovalContext : Type 0 where
  pub now : Option ℕ
  pub signal : Signal

pub record Approvals : Type 0 where
  pub grants : List (String × ApprovalGrant)
  pub consumed : List String

-- `assertPhase3ApprovalNotCancelled`: whether the signal is aborted, which is false, or what it throws.
unfoldable pub assert_not_cancelled : Signal → Checked Bool
assert_not_cancelled unbranded = failed approval_store_unhealthy
assert_not_cancelled (live true) = failed approval_cancelled
assert_not_cancelled (live false) = passed false

-- `validatePhase3ApprovalProposal` after its first test: the clock, the end of the proposal.
unfoldable pub check_expiry : Option ℕ → Option ℕ → Checked ℕ
check_expiry none expiry = failed approval_store_unhealthy
check_expiry (some now) none = failed approval_wrong_binding
check_expiry (some now) (some expiry) =
    if leb expiry now then failed proposal_expired else passed now

-- `validatePhase3ApprovalProposal`, which returns the time.
unfoldable pub validate_proposal : Formats → ProposalSnapshot → Option ℕ → Checked ℕ
validate_proposal formats p now =
    if not (proposal_is_valid formats p) || p.state != pending
    then failed proposal_not_pending
    else check_expiry now (formats.date_parse p.expires_at)

-- The window of `validatePhase3ApplyGrant`.
unfoldable pub check_window : ℕ → Option ℕ → Option ℕ → Checked (Unit {0})
check_window now (some issued) (some expires) =
    if ltb now issued
    then failed approval_not_yet_valid
    else if leb expires now
    then failed approval_expired
    else passed tt
check_window now _ _ = failed approval_wrong_binding

-- The negation of its long condition.
unfoldable pub binds : ApprovalGrant → ProposalSnapshot → Bool
binds g p =
    g.proposal_id == p.proposal_id
    && g.proposal_storage_sha256 == p.proposal_storage_sha256
    && g.candidate_sha256 == p.candidate_sha256
    && g.diff_sha256 == p.diff_sha256
    && g.operation == "apply"
    && g.risk == p.risk
    && g.impact == p.impact
    && g.reload_target == p.reload_target

-- `validatePhase3ApplyGrant`; `aborted` is the signal at its last test.
unfoldable pub validate_grant :
    Formats → ApprovalGrant → ProposalSnapshot → Option ℕ → Bool → Checked (Unit {0})
validate_grant formats g p now aborted = and_then (validate_proposal formats p now) λ at.
    refuse_if (not (grant_is_valid formats g)) approval_wrong_binding (
      and_then (check_window at (formats.date_parse g.issued_at) (formats.date_parse g.expires_at))
        λ _.
          refuse_if (not (binds g p)) approval_wrong_binding
            (refuse_if aborted approval_cancelled (passed tt)))

-- `this.grants.get` and the test after it.
abbrev pub found : Option ApprovalGrant → Checked ApprovalGrant
found none = failed approval_not_found
found (some g) = passed g

-- `consumeApplyGrant` until the grant is marked: the grant it is about to return.
unfoldable pub find_grant :
    Formats → String → ProposalSnapshot → ApprovalContext → Approvals → Checked ApprovalGrant
find_grant formats id p context s = and_then (assert_not_cancelled context.signal) λ aborted.
    and_then (found (map_get id s.grants)) λ g.
      refuse_if (includes s.consumed id) approval_replayed
        (and_then (validate_grant formats g p context.now aborted) λ _. passed g)

-- `consumeApplyGrant`.
unfoldable pub mark : String → Checked ApprovalGrant → Approvals → Checked ApprovalGrant × Approvals
mark id (passed g) s = (passed g, record s { consumed = id ∷ s.consumed })
mark id (failed e) s = (failed e, s)

unfoldable pub consume_apply_grant :
    Formats
    → String
    → ProposalSnapshot
    → ApprovalContext
    → Approvals
    → Checked ApprovalGrant × Approvals
consume_apply_grant formats id p context s = mark id (find_grant formats id p context s) s

-- The constructor; `none` where a grant does not parse or repeats an id.
unfoldable pub inject_from :
    Formats
    → List ApprovalGrant
    → List (String × ApprovalGrant)
    → Option (List (String × ApprovalGrant))
inject_from formats [] grants = some grants
inject_from formats (g ∷ gs) grants =
    if not (grant_is_valid formats g) || not (is_none (map_get g.grant_id grants))
    then none
    else inject_from formats gs (map_set g.grant_id g grants)

unfoldable pub inject : Formats → List ApprovalGrant → Option Approvals
inject formats gs = elim (inject_from formats gs []) [
  | none ↦ none
  | some grants ↦ some (record { grants = grants; consumed = [] })
]
