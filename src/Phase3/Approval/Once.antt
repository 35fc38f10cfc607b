-- ===== src/Phase3/Approval/Once.antt =====
-- phase3/approval.ts: sequences of calls of the port.
use ha_mcp.Prelude.{
  ℕ, suc, ◌≤◌, ◌≡◌, refl, subst, ap, String, Bool, true, false, List, [], ◌∷◌, ◌==◌, string_eq,
  includes, if◌then◌else◌, arith, beq_refl, beq→eq, Bool-cases, inl, inr, sym, ◌∙◌, ◌⊎◌,
}
use ha_mcp.Phase3.Records.{ProposalSnapshot, ApprovalGrant}
use ha_mcp.Phase3.Records.Schema.{Formats}
use ha_mcp.Phase3.Approval.{
  Checked, passed, failed, ApprovalContext, Approvals, mark, find_grant, consume_apply_grant,
}
use ha_mcp.Phase3.Approval.Binding.{mark_fst, consume_apply_grant_iff}

-- A call of `consumeApplyGrant`.
pub record Call : Type 0 where
  pub id : String
  pub proposal : ProposalSnapshot
  pub context : ApprovalContext

abbrev is_passed : Checked ApprovalGrant → Bool
is_passed (passed g) = true
is_passed (failed e) = false

-- The port after the calls, and how many calls for `id` it granted.
abbrev pub after : Formats → List Call → Approvals → Approvals
after formats [] s = s
after formats (c ∷ cs) s =
    after formats cs (consume_apply_grant formats c.id c.proposal c.context s).1

abbrev pub grants_given : Formats → String → List Call → Approvals → ℕ
grants_given formats id [] s = 0
grants_given formats id (c ∷ cs) s =
    let rest =
      grants_given formats id cs (consume_apply_grant formats c.id c.proposal c.context s).1 in
    if c.id == id
    then (if is_passed (consume_apply_grant formats c.id c.proposal c.context s).0
        then suc rest
        else rest)
    else rest

-- Once used, an id stays used.
mark-includes :
    (id j : String) (m : Checked ApprovalGrant) (s : Approvals)
    → includes s.consumed id ≡ true
    → includes (mark j m s).1.consumed id ≡ true
unfolding mark
mark-includes id j (passed g) s h = ground arith
mark-includes id j (failed e) s h = h

is_passed-cases :
    (m : Checked ApprovalGrant) → ((g : ApprovalGrant) × (m ≡ passed g)) ⊎ (is_passed m ≡ false)
is_passed-cases (passed g) = inl (g, refl)
is_passed-cases (failed e) = inr refl

used-refused :
    (formats : Formats) (c : Call) (s : Approvals)
    → includes s.consumed c.id ≡ true
    → is_passed (consume_apply_grant formats c.id c.proposal c.context s).0 ≡ false
used-refused formats c s h =
    elim (is_passed-cases (consume_apply_grant formats c.id c.proposal c.context s).0) [
      | inl (g, is) ↦
          (let fresh =
              ((consume_apply_grant_iff formats c.id c.proposal c.context s g).0 is).unused in
            ground arith)
      | inr refused ↦ refused
    ]

passed-used :
    (id : String) (m : Checked ApprovalGrant) (s : Approvals)
    → is_passed m ≡ true
    → includes (mark id m s).1.consumed id ≡ true
unfolding mark
passed-used id (passed g) s h = ground (arith, beq_refl id)
passed-used id (failed e) s h = ground arith

used_gives_none :
    (formats : Formats) (id : String) (calls : List Call) (s : Approvals)
    → includes s.consumed id ≡ true
    → grants_given formats id calls s ≡ 0
unfolding consume_apply_grant
used_gives_none formats id [] s h = refl
used_gives_none formats id (c ∷ cs) s h = elim (Bool-cases (c.id == id)) [
  | inl same ↦ ground (
    arith,
    beq→eq c.id id same,
    used-refused formats c s
        (subst (λ j. includes s.consumed j ≡ true) (sym (beq→eq c.id id same)) h),
    used_gives_none formats id cs (consume_apply_grant formats c.id c.proposal c.context s).1
        (mark-includes id c.id (find_grant formats c.id c.proposal c.context s) s h),
  )
  | inr other ↦ ground (
    arith,
    used_gives_none formats id cs (consume_apply_grant formats c.id c.proposal c.context s).1
        (mark-includes id c.id (find_grant formats c.id c.proposal c.context s) s h),
  )
]

granted-used :
    (formats : Formats) (c : Call) (s : Approvals) (g : ApprovalGrant) (id : String)
    → c.id ≡ id
    → (consume_apply_grant formats c.id c.proposal c.context s).0 ≡ passed g
    → includes (consume_apply_grant formats c.id c.proposal c.context s).1.consumed id ≡ true
unfolding consume_apply_grant
granted-used formats c s g id same given =
    subst
      (λ j.
        includes (mark c.id (find_grant formats c.id c.proposal c.context s) s).1.consumed j ≡ true)
      same
      (passed-used c.id (find_grant formats c.id c.proposal c.context s) s (
        ap is_passed
          (sym (mark_fst c.id (find_grant formats c.id c.proposal c.context s) s) ∙ given)))

-- Over any sequence of calls of the port, from any state, at most one call is granted for an id.
pub used_at_most_once :
    (formats : Formats) (id : String) (calls : List Call) (s : Approvals)
    → grants_given formats id calls s ≤ 1
used_at_most_once formats id [] s = omega arith
used_at_most_once formats id (c ∷ cs) s = elim (Bool-cases (c.id == id)) [
  | inr other ↦ ground (
    arith,
    used_at_most_once formats id cs (consume_apply_grant formats c.id c.proposal c.context s).1,
  )
  | inl same ↦ elim (is_passed-cases (consume_apply_grant formats c.id c.proposal c.context s).0) [
    | inr refused ↦ ground (
      arith,
      used_at_most_once formats id cs (consume_apply_grant formats c.id c.proposal c.context s).1,
    )
    | inl (g, given) ↦ ground (
      arith,
      used_gives_none formats id cs (consume_apply_grant formats c.id c.proposal c.context s).1
          (granted-used formats c s g id (beq→eq c.id id same) given),
    )
  ]
]
