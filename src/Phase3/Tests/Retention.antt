-- ===== src/Phase3/Tests/Retention.antt =====
-- An epoch with one verified transaction is rotated; a call fails after the rename, and the rotation
-- is resumed.
use ha_mcp.Prelude.{
  ◌≢◌, refl, ◌⊎◌, String, true, false, none, some, List, [], ◌∷◌, map_get, map_set, arith,
}
use ha_mcp.Phase3.Names.{take_match, fits}
use ha_mcp.Phase3.Effects.{done}
use ha_mcp.Phase3.Coordinator.Recover.{RecoveryResult, candidate, verified}
use ha_mcp.Phase3.Retention.Epochs.{
  Evidence, Epoch, names_of, is_fresh, is_fresh_entry, is_fresh_store, is_valid_epoch,
  is_settled_epoch, are_bound, is_bound, is_automatic_end, are_proved, is_proved,
}
use ha_mcp.Phase3.Retention.Disk.{
  Marker, whole, World, new_store, header_entry, new_epoch, staged_entry, is_archive_name,
}
use ha_mcp.Phase3.Retention.Rotation.{Budgets}
use ha_mcp.Phase3.Retention.Operations.{marker_of, rotate, resume}
use ha_mcp.Phase3.Retention.Shapes.{IsArchivable, IsStuck, total_bytes}
use ha_mcp.Phase3.Retention.Stuck.{resume-IsStuck}
use ha_mcp.Phase3.Retention.Refuses.{IsUntouched, IsEligible, rotate-IsEligible}
use ha_mcp.Phase3.Tests.Workflow.{verified as succeeded}

abbrev proof : Evidence → List RecoveryResult
proof v =
    record {
      transaction_id = succeeded.transaction_id;
      terminal_state = succeeded.state;
      observed_digest = candidate;
      observed_sha256 = some succeeded.candidate_sha256;
      disposition = verified;
      needs_attention = false;
      transaction = succeeded;
    }
    ∷ []

abbrev epoch : Epoch
epoch = record {
  device = "8";
  inode = "21";
  is_private = true;
  entries = ("journal", new_store) ∷ ("checkpoints", new_store) ∷ ("approvals", header_entry) ∷ [];
  evidence = record {
    records = succeeded ∷ [];
    live_unused = 0;
    checkpoint_sha256 = λ id. some succeeded.checkpoint_sha256;
    is_consumed = λ r. true;
    has_valid_header = true;
    has_valid_audit = false;
    tree_bytes = 4096;
  };
}

abbrev budgets : Budgets
budgets = record { maximum_archives = 256; maximum_archive_bytes = 1000000 }

abbrev archive : String
archive = "archive-01234567-89ab-4cde-8f01-23456789abcd"

abbrev marker : Marker
marker = marker_of archive epoch

archivable : IsArchivable budgets proof [] epoch marker
unfolding is_valid_epoch names_of is_settled_epoch are_bound is_bound is_automatic_end are_proved
    is_proved is_archive_name take_match fits map_get total_bytes
archivable = record {
  is_private = refl;
  valid = refl;
  settled = refl;
  proved = refl;
  marked = refl;
  named = refl;
  free = refl;
  known = refl;
  sound = refl;
  few = refl;
  scanned = omega arith;
  small = refl;
}

abbrev ready : World
ready = record {
  parent = record {
    active = some epoch;
    marker = none;
    has_lock = true;
    archives = [];
    others = [];
  };
  busy = false;
  faults = false ∷ true ∷ [];
}

abbrev renamed : World
renamed = record {
  parent = record {
    active = none;
    marker = some (whole marker);
    has_lock = true;
    archives = map_set archive epoch [];
    others = [];
  };
  busy = false;
  faults = [];
}

abbrev ids : String × String
ids = ("8", "22")

rotate-IsEligible_example :
    IsUntouched [] epoch (rotate budgets proof ids archive ready).1.parent ⊎ IsEligible proof epoch
rotate-IsEligible_example =
    rotate-IsEligible budgets proof [] epoch ids archive ready
      (record { active = refl; archives = refl })

-- The process died while the header of the new approvals was staged.
abbrev staged : Epoch
staged = record (new_epoch "8" "22") {
  entries = ("journal", new_store) ∷ ("checkpoints", new_store) ∷ ("approvals", staged_entry) ∷ [];
}

abbrev left_over : World
left_over = record renamed { parent = record renamed.parent { active = some staged } }

left_over-IsStuck : IsStuck [] epoch marker left_over.parent
unfolding map_get map_set is_fresh is_fresh_entry is_fresh_store names_of
left_over-IsStuck = record {
  active = record { staged = refl; without = record { fresh = refl; made = refl } };
  same_marker = refl;
  archives = refl;
  others = refl;
}

resume-IsStuck_example :
    ((resume budgets proof ids left_over).0 ≢ done tt)
    × IsStuck [] epoch marker (resume budgets proof ids left_over).1.parent
resume-IsStuck_example =
    resume-IsStuck budgets proof [] epoch marker ids left_over archivable left_over-IsStuck refl
