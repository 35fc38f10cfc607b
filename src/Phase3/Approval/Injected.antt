-- ===== src/Phase3/Approval/Injected.antt =====
-- phase3/approval.ts: the grants that the constructor of the port keeps.
use ha_mcp.Prelude.{
  ◌≡◌, refl, sym, ◌∙◌, subst, String, true, some, List, [], ◌∷◌, ◌==◌, string_eq, map_get, map_set,
  map_get-map_set, arith, beq→eq, Bool-cases, Option-cases, inl, inr,
}
use ha_mcp.Phase3.Records.{ApprovalGrant}
use ha_mcp.Phase3.Records.Schema.{Formats, grant_is_valid}
use ha_mcp.Phase3.Approval.{Approvals, inject_from, inject}

-- Each grant stands under its own id and is valid.
abbrev IsSound : Formats → List (String × ApprovalGrant) → Type 0
IsSound formats grants =
    (id : String) (g : ApprovalGrant)
    → map_get id grants ≡ some g
    → (g.grant_id ≡ id) × (grant_is_valid formats g ≡ true)

map_set-IsSound :
    (formats : Formats) (v : ApprovalGrant) (grants : List (String × ApprovalGrant))
    → IsSound formats grants
    → grant_is_valid formats v ≡ true
    → IsSound formats (map_set v.grant_id v grants)
map_set-IsSound formats v grants h valid id g held = elim (Bool-cases (v.grant_id == id)) [
  | inl same ↦
      let got : map_get id (map_set v.grant_id v grants) ≡ some v =
        map_get-map_set v.grant_id id v grants ∙ rw same in
      let is_v : v ≡ g = cc (got, held) in
      subst (λ x. (x.grant_id ≡ id) × (grant_is_valid formats x ≡ true)) is_v
        (beq→eq v.grant_id id same, valid)
  | inr other ↦ h id g (sym (map_get-map_set v.grant_id id v grants ∙ rw other) ∙ held)
]

inject_from-IsSound :
    (formats : Formats) (gs : List ApprovalGrant) (before after : List (String × ApprovalGrant))
    → IsSound formats before
    → inject_from formats gs before ≡ some after
    → IsSound formats after
unfolding inject_from
inject_from-IsSound formats [] before after h e =
    let same : before ≡ after = ground arith in subst (IsSound formats) same h
inject_from-IsSound formats (g ∷ gs) before after h e =
    inject_from-IsSound formats gs (map_set g.grant_id g before) after
      (map_set-IsSound formats g before h (ground arith)) (ground arith)

inject-IsSound :
    (formats : Formats) (gs : List ApprovalGrant) (s : Approvals)
    → inject formats gs ≡ some s
    → IsSound formats s.grants × (s.consumed ≡ [])
unfolding inject map_get
inject-IsSound formats gs s e = elim (Option-cases (inject_from formats gs [])) [
  | inl refused ↦ absurd (ground arith)
  | inr (grants, accepted) ↦
      let same : record { grants = grants; consumed = [] } ≡ s = ground arith in
      subst (λ (x : Approvals). IsSound formats x.grants × (x.consumed ≡ [])) same
        (
          inject_from-IsSound formats gs [] grants (λ id g held. absurd (ground arith)) accepted,
          refl,
        )
]

-- If the constructor of the port accepts the grants that are injected, each grant that the port then
-- holds stands under its own id and passes the schema.
pub inject-map_get :
    (formats : Formats) (gs : List ApprovalGrant) (s : Approvals) (id : String) (g : ApprovalGrant)
    → inject formats gs ≡ some s
    → map_get id s.grants ≡ some g
    → (g.grant_id ≡ id) × (grant_is_valid formats g ≡ true)
inject-map_get formats gs s id g e held = (inject-IsSound formats gs s e).0 id g held
