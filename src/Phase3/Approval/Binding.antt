-- ===== src/Phase3/Approval/Binding.antt =====
-- phase3/approval.ts: when a grant is accepted.
use ha_mcp.Prelude.{
  ℕ, ◌≤◌, ◌<◌, ◌≡◌, refl, sym, ap, subst, ◌∙◌, ◌↔◌, String, Bool, true, false, not, ◌||◌, Option,
  none, some, ◌!=◌, string_eq, option_eq, includes, map_get, arith, beq_refl, beq→eq,
}
use ha_mcp.Phase3.Records.{
  ProposalSnapshot, ApprovalGrant, pending, proposal_state_eq, impact_eq, risk_eq, target_eq,
}
use ha_mcp.Phase3.Records.Schema.{Formats, proposal_is_valid, grant_is_valid}
use ha_mcp.Phase3.Approval.{
  Checked, passed, failed, and_then, refuse_if, Signal, live, unbranded, ApprovalContext, Approvals,
  assert_not_cancelled, check_expiry, validate_proposal, proposal_not_pending,
  approval_wrong_binding, approval_cancelled, check_window, binds, validate_grant, found,
  find_grant, mark, consume_apply_grant,
}

-- Between the issue of the grant and its end, and before the end of the proposal.
pub data InWindow (formats : Formats) (g : ApprovalGrant) (p : ProposalSnapshot) (now : Option ℕ)
    : Type 0 where
  in_window :
      (at issued ends expiry : ℕ)
      → now ≡ some at
      → formats.date_parse g.issued_at ≡ some issued
      → formats.date_parse g.expires_at ≡ some ends
      → formats.date_parse p.expires_at ≡ some expiry
      → issued ≤ at
      → at < ends
      → at < expiry
      → InWindow formats g p now

-- What the grant says is what the proposal is.
pub record Binds (g : ApprovalGrant) (p : ProposalSnapshot) : Type 0 where
  pub proposal_id : g.proposal_id ≡ p.proposal_id
  pub storage : g.proposal_storage_sha256 ≡ p.proposal_storage_sha256
  pub candidate : g.candidate_sha256 ≡ p.candidate_sha256
  pub diff : g.diff_sha256 ≡ p.diff_sha256
  pub operation : g.operation ≡ "apply"
  pub risk : g.risk ≡ p.risk
  pub impact : g.impact ≡ p.impact
  pub reload_target : g.reload_target ≡ p.reload_target

pub record Accepts (formats : Formats) (id : String) (p : ProposalSnapshot)
    (context : ApprovalContext) (s : Approvals) (g : ApprovalGrant) : Type 0 where
  pub active : context.signal ≡ live false
  pub known : map_get id s.grants ≡ some g
  pub unused : includes s.consumed id ≡ false
  pub proposal_valid : proposal_is_valid formats p ≡ true
  pub is_pending : p.state ≡ pending
  pub grant_valid : grant_is_valid formats g ≡ true
  pub window : InWindow formats g p context.now
  pub same : Binds g p

binds-Binds : (g : ApprovalGrant) (p : ProposalSnapshot) → binds g p ≡ true → Binds g p
unfolding binds
binds-Binds g p h = record {
  proposal_id = beq→eq _ _ (ground arith);
  storage = beq→eq _ _ (ground arith);
  candidate = beq→eq _ _ (ground arith);
  diff = beq→eq _ _ (ground arith);
  operation = beq→eq _ _ (ground arith);
  risk = beq→eq _ _ (ground arith);
  impact = beq→eq _ _ (ground arith);
  reload_target = beq→eq _ _ (ground arith);
}

Binds-binds : (g : ApprovalGrant) (p : ProposalSnapshot) → Binds g p → binds g p ≡ true
unfolding binds
Binds-binds g p h =
    rw
      (
        h.proposal_id,
        h.storage,
        h.candidate,
        h.diff,
        h.operation,
        h.risk,
        h.impact,
        h.reload_target,
        beq_refl p.proposal_id,
        beq_refl p.proposal_storage_sha256,
        beq_refl p.candidate_sha256,
        beq_refl p.diff_sha256,
        beq_refl p.risk,
        beq_refl p.impact,
        beq_refl p.reload_target,
      )
      refl

check_expiry-passed :
    (now expiry : Option ℕ) (at : ℕ)
    → check_expiry now expiry ≡ passed at
    → (now ≡ some at) × (e : ℕ) × (expiry ≡ some e) × (at < e)
unfolding check_expiry
check_expiry-passed none expiry at h = ground arith
check_expiry-passed (some now) none at h = ground arith
check_expiry-passed (some now) (some e) at h = (ground arith, e, refl, ground arith)

check_window-passed :
    (issued ends : Option ℕ) (at : ℕ)
    → check_window at issued ends ≡ passed tt
    → (i : ℕ) × (e : ℕ) × (issued ≡ some i) × (ends ≡ some e) × (i ≤ at) × (at < e)
unfolding check_window
check_window-passed none ends at h = ground arith
check_window-passed (some i) none at h = ground arith
check_window-passed (some i) (some e) at h = (i, e, refl, refl, ground arith, ground arith)

and_then-passed :
    {A B : Type 0} (m : Checked A) (f : A → Checked B) (b : B)
    → and_then m f ≡ passed b
    → (a : A) × (m ≡ passed a) × (f a ≡ passed b)
and_then-passed (passed a) f b h = (a, refl, h)
and_then-passed (failed e) f b h = ground arith

refuse_if-passed :
    {A : Type 0} (test : Bool) (e : _) (k : Checked A) (a : A)
    → refuse_if test e k ≡ passed a
    → (test ≡ false) × (k ≡ passed a)
refuse_if-passed true e k a h = ground arith
refuse_if-passed false e k a h = (refl, h)

assert_not_cancelled-passed :
    (signal : Signal) (b : Bool)
    → assert_not_cancelled signal ≡ passed b
    → (signal ≡ live false) × (b ≡ false)
unfolding assert_not_cancelled
assert_not_cancelled-passed unbranded b h = ground arith
assert_not_cancelled-passed (live true) b h = ground arith
assert_not_cancelled-passed (live false) b h = ground arith

found-passed : (o : Option ApprovalGrant) (g : ApprovalGrant) → found o ≡ passed g → o ≡ some g
found-passed none g h = ground arith
found-passed (some x) g h = ground arith

pub mark_fst : (id : String) (m : Checked ApprovalGrant) (s : Approvals) → (mark id m s).0 ≡ m
unfolding mark
mark_fst id (passed g) s = refl
mark_fst id (failed e) s = refl

validate_grant-passed :
    (formats : Formats) (g : ApprovalGrant) (p : ProposalSnapshot) (now : Option ℕ) (aborted : Bool)
    → validate_grant formats g p now aborted ≡ passed tt
    → (proposal_is_valid formats p ≡ true)
      × (p.state ≡ pending)
      × (grant_is_valid formats g ≡ true)
      × InWindow formats g p now
      × Binds g p
unfolding validate_grant validate_proposal
validate_grant-passed formats g p now aborted h =
    let (at, proposal_passed, h1) = and_then-passed (validate_proposal formats p now) _ tt h in
    let (legal, expiry_passed) =
      refuse_if-passed (not (proposal_is_valid formats p) || p.state != pending)
        proposal_not_pending (check_expiry now (formats.date_parse p.expires_at)) at
        proposal_passed in
    let (now_is, e, expiry_is, before) =
      check_expiry-passed now (formats.date_parse p.expires_at) at expiry_passed in
    let (valid, h2) =
      refuse_if-passed (not (grant_is_valid formats g)) approval_wrong_binding (rest at) tt h1 in
    let (u, window_passed, h3) = and_then-passed (window_at at) (λ _. last) tt h2 in
    let (bound, h4) =
      refuse_if-passed (not (binds g p)) approval_wrong_binding
        (refuse_if aborted approval_cancelled (passed tt)) tt h3 in
    let (i, n, issued_is, ends_is, from, to) =
      check_window-passed (formats.date_parse g.issued_at) (formats.date_parse g.expires_at) at
        window_passed in
    (
      ground arith,
      beq→eq p.state pending (ground arith),
      ground arith,
      in_window at i n e now_is issued_is ends_is expiry_is from to before,
      binds-Binds g p (ground arith),
    )
  where
    window_at : ℕ → Checked (Unit {0})
    window_at at =
        check_window at (formats.date_parse g.issued_at) (formats.date_parse g.expires_at)

    last : Checked (Unit {0})
    last =
        refuse_if (not (binds g p)) approval_wrong_binding
          (refuse_if aborted approval_cancelled (passed tt))

    rest : ℕ → Checked (Unit {0})
    rest at = and_then (window_at at) (λ _. last)

Accepts-validate_grant :
    (formats : Formats) (id : String) (p : ProposalSnapshot) (context : ApprovalContext)
    (s : Approvals) (g : ApprovalGrant)
    → Accepts formats id p context s g
    → validate_grant formats g p context.now false ≡ passed tt
unfolding validate_grant validate_proposal check_expiry check_window
Accepts-validate_grant formats id p context s g a = elim a.window [
  | in_window at i n e now_is issued_is ends_is expiry_is from to before ↦
      rw
        (
          now_is,
          issued_is,
          ends_is,
          expiry_is,
          a.proposal_valid,
          Binds-binds g p a.same,
          a.is_pending,
          a.grant_valid,
        )
        (ground arith)
]

find_grant-Accepts :
    (formats : Formats) (id : String) (p : ProposalSnapshot) (context : ApprovalContext)
    (s : Approvals) (g : ApprovalGrant)
    → find_grant formats id p context s ≡ passed g
    → Accepts formats id p context s g
unfolding find_grant
find_grant-Accepts formats id p context s g h =
    let (aborted, signal_passed, h1) =
      and_then-passed (assert_not_cancelled context.signal) _ g h in
    let (x, found_passed, h2) = and_then-passed (found (map_get id s.grants)) _ g h1 in
    let (fresh, h3) = refuse_if-passed (includes s.consumed id) _ _ g h2 in
    let (u, grant_passed, h4) =
      and_then-passed (validate_grant formats x p context.now aborted) _ g h3 in
    let x_is : x ≡ g = ground arith in
    let (v, st, w, win, b) = validate_grant-passed formats x p context.now aborted grant_passed in
    record {
      active = (assert_not_cancelled-passed context.signal aborted signal_passed).0;
      known = found-passed (map_get id s.grants) x found_passed ∙ ap some x_is;
      unused = fresh;
      proposal_valid = v;
      is_pending = st;
      grant_valid = subst (λ y. grant_is_valid formats y ≡ true) x_is w;
      window = subst (λ y. InWindow formats y p context.now) x_is win;
      same = subst (λ y. Binds y p) x_is b;
    }

Accepts-find_grant :
    (formats : Formats) (id : String) (p : ProposalSnapshot) (context : ApprovalContext)
    (s : Approvals) (g : ApprovalGrant)
    → Accepts formats id p context s g
    → find_grant formats id p context s ≡ passed g
unfolding find_grant assert_not_cancelled
Accepts-find_grant formats id p context s g a =
    rw (a.active, a.known, a.unused, Accepts-validate_grant formats id p context s g a) refl

-- The port returns a grant only where the signal is live and not aborted, the grant is the one
-- injected under the id, valid and not used before, the proposal is valid and pending, the clock is
-- in the window of both, and each field of the grant that binds is the proposal's; in any such
-- case it does return it.
pub consume_apply_grant_iff :
    (formats : Formats) (id : String) (p : ProposalSnapshot) (context : ApprovalContext)
    (s : Approvals) (g : ApprovalGrant)
    → ((consume_apply_grant formats id p context s).0 ≡ passed g) ↔ Accepts formats id p context s g
unfolding consume_apply_grant
consume_apply_grant_iff formats id p context s g = (
  λ h.
      find_grant-Accepts formats id p context s g
        ((sym (mark_fst id (find_grant formats id p context s) s)) ∙ h),
  λ a.
      mark_fst id (find_grant formats id p context s) s
      ∙ Accepts-find_grant formats id p context s g a,
)
