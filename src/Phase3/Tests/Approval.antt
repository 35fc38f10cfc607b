-- ===== src/Phase3/Tests/Approval.antt =====
-- Approval and policy on the grant and the proposal of the simulated platform.
use ha_mcp.Prelude.{◌≤◌, ◌≡◌, ◌↔◌, true, false, some, [], ◌∷◌}
use ha_mcp.Phase3.Records.Schema.{grant_is_valid, reload_target_is_bound}
use ha_mcp.Phase3.Paths.{is_sha256}
use ha_mcp.Phase3.Approval.{inject_from, inject}
use ha_mcp.Prelude.{refl, map_get, map_set}
use ha_mcp.Phase3.Policy.{PolicyOptions}
use ha_mcp.Phase3.Approval.{ApprovalContext, Approvals, live, passed, consume_apply_grant}
use ha_mcp.Phase3.Approval.Binding.{Accepts, consume_apply_grant_iff}
use ha_mcp.Phase3.Approval.Once.{Call, grants_given, used_at_most_once}
use ha_mcp.Phase3.Tests.Sim.{formats, the_proposal, the_grant}

abbrev context : ApprovalContext
context = record { now = some 150; signal = live false }

abbrev injected : Approvals
injected = record { grants = ("grant", the_grant) ∷ []; consumed = [] }

consume_apply_grant_iff_example :
    ((consume_apply_grant formats "grant" the_proposal context injected).0 ≡ passed the_grant)
    ↔ Accepts formats "grant" the_proposal context injected the_grant
consume_apply_grant_iff_example =
    consume_apply_grant_iff formats "grant" the_proposal context injected the_grant

abbrev call : Call
call = record { id = "grant"; proposal = the_proposal; context = context }

used_at_most_once_example : grants_given formats "grant" (call ∷ call ∷ []) injected ≤ 1
used_at_most_once_example = used_at_most_once formats "grant" (call ∷ call ∷ []) injected

abbrev writes_only : PolicyOptions
writes_only = record {
  writes_enabled = true;
  apply_capability = true;
  domain_reload_capability = false;
}

injected_run : inject formats (the_grant ∷ []) ≡ some injected
unfolding inject inject_from grant_is_valid is_sha256 reload_target_is_bound map_get map_set
injected_run = refl

grant_held : map_get "grant" injected.grants ≡ some the_grant
unfolding map_get
grant_held = refl
