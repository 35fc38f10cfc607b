-- ===== src/Phase3/Retention/Rotates.antt =====
-- phase3/retention.ts: `rotate` of an epoch that may be archived, whichever calls fail.
use ha_mcp.Prelude.{◌≡◌, ◌⊎◌, String, Bool, true, false, none, some, List, includes, string_eq}
use ha_mcp.Phase3.Coordinator.Recover.{RecoveryResult}
use ha_mcp.Phase3.Retention.Epochs.{Evidence, Epoch}
use ha_mcp.Phase3.Retention.Disk.{Marker, partial, Parent}
use ha_mcp.Phase3.Retention.Rotation.{Budgets}
use ha_mcp.Phase3.Retention.Operations.{marker_of}
use ha_mcp.Phase3.Retention.Shapes.{IsArchivable, IsWhole, IsResumed}

-- The names that `rotate` reads of a parent with no marker.
record AreReady (archive : String) (names : List String) : Type 0 where
  no_marker : includes names "rotation.json" ≡ false
  has_active : includes names "active" ≡ true
  free : includes names archive ≡ false

module _ (quiet : Bool) (b : Budgets) (proof : Evidence → List RecoveryResult)
    (old : List (String × Epoch)) (e : Epoch) (archive : String)
    (good : IsArchivable b proof old e (marker_of archive e)) where
  abbrev m : Marker
  m = marker_of archive e

  abbrev Ready : Parent → Type 0
  Ready = IsWhole old e none

  abbrev Any : Parent → Type 0
  Any p = (IsWhole old e none p ⊎ IsWhole old e (some partial) p) ⊎ IsResumed old e m p
