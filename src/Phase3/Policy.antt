-- ===== src/Phase3/Policy.antt =====
-- phase3/applyCoordinator.ts: `GuardedPhase3PolicyPort`.
use ha_mcp.Prelude.{
  ℕ, ◌≡◌, ◌↔◌, ◌<◌, refl, Bool, true, false, not, ◌&&◌, Option, none, some, ◌!=◌, arith,
  if◌then◌else◌, beq→eq,
}
use ha_mcp.Phase3.Records.{
  ProposalSnapshot, pending, no_impact, domain_reload, restart_required, impact_beq,
  proposal_state_eq,
}
use ha_mcp.Phase3.Records.Schema.{Formats, date_ge}
use ha_mcp.Phase3.Ports.{Decision, allowed, denied}

-- The options of the constructor, an absent one false, less the clock.
pub record PolicyOptions : Type 0 where
  pub writes_enabled : Bool
  pub apply_capability : Bool
  pub domain_reload_capability : Bool

-- `evaluate`; `now` is the clock of the options.
unfoldable pub evaluate : Formats → PolicyOptions → ℕ → ProposalSnapshot → Decision
evaluate formats options now p =
    if not options.writes_enabled
    then denied "writes_disabled" "Live writes are disabled"
    else if not options.apply_capability
    then denied "missing_capability" "Apply capability is unavailable"
    else if p.state != pending
    then denied "proposal_not_pending" "Proposal is not pending"
    else if date_ge (some now) (formats.date_parse p.expires_at)
    then denied "proposal_expired" "Proposal has expired"
    else if impact_beq p.impact restart_required
    then denied "restart_required" "Restart-required changes are denied"
    else if impact_beq p.impact domain_reload && not options.domain_reload_capability
    then denied "missing_capability" "Domain reload capability is unavailable"
    else if not (impact_beq p.impact no_impact) && not (impact_beq p.impact domain_reload)
    then denied "invalid_impact" "Proposal impact is invalid"
    else allowed

-- The proposals that the options let through.
pub record Permits (formats : Formats) (options : PolicyOptions) (now : ℕ) (p : ProposalSnapshot)
    : Type 0 where
  pub writes : options.writes_enabled ≡ true
  pub applies : options.apply_capability ≡ true
  pub is_pending : p.state ≡ pending
  pub unexpired : (e : ℕ) → formats.date_parse p.expires_at ≡ some e → now < e
  pub no_restart : impact_beq p.impact restart_required ≡ false
  pub may_reload :
      impact_beq p.impact domain_reload ≡ true → options.domain_reload_capability ≡ true

unexpired-date_ge :
    (now : ℕ) (o : Option ℕ) → date_ge (some now) o ≡ false → (e : ℕ) → o ≡ some e → now < e
unexpired-date_ge now none h e is = ground arith
unexpired-date_ge now (some x) h e is = ground arith

date_ge-unexpired :
    (now : ℕ) (o : Option ℕ) → ((e : ℕ) → o ≡ some e → now < e) → date_ge (some now) o ≡ false
date_ge-unexpired now none h = refl
date_ge-unexpired now (some x) h = ground (arith, h x refl)

evaluate-Permits :
    (formats : Formats) (options : PolicyOptions) (now : ℕ) (p : ProposalSnapshot)
    → evaluate formats options now p ≡ allowed
    → Permits formats options now p
unfolding evaluate
evaluate-Permits formats options now p h = record {
  writes = ground arith;
  applies = ground arith;
  is_pending = beq→eq p.state pending (ground arith);
  unexpired = unexpired-date_ge now (formats.date_parse p.expires_at) (ground arith);
  no_restart = ground arith;
  may_reload = ground arith;
}

Permits-evaluate :
    (formats : Formats) (options : PolicyOptions) (now : ℕ) (p : ProposalSnapshot)
    → Permits formats options now p
    → evaluate formats options now p ≡ allowed
unfolding evaluate
Permits-evaluate formats options now p h =
    ground (arith, date_ge-unexpired now (formats.date_parse p.expires_at) h.unexpired)

-- The guarded policy allows a proposal exactly when writes are enabled and the capability to apply
-- is given, the proposal is pending and not expired, it needs no restart, and, if it reloads a
-- domain, that capability is given too.
pub evaluate_iff :
    (formats : Formats) (options : PolicyOptions) (now : ℕ) (p : ProposalSnapshot)
    → (evaluate formats options now p ≡ allowed) ↔ Permits formats options now p
evaluate_iff formats options now p =
    (evaluate-Permits formats options now p, Permits-evaluate formats options now p)
