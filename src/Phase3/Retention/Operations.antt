-- ===== src/Phase3/Retention/Operations.antt =====
-- phase3/retention.ts: `initialize`, `open`, `rotate` and `resume`, one at a time.
use ha_mcp.Prelude.{
  String, Bool, true, false, not, ◌&&◌, Option, none, some, List, [], ◌∷◌, ◌==◌, string_eq, leb,
  length, every, includes, if◌then◌else◌,
}
use ha_mcp.Phase3.Coordinator.Recover.{RecoveryResult}
use ha_mcp.Phase3.Effects.{M, pure, throw, ◌>>=◌, ◌>>◌, try_finally}
use ha_mcp.Phase3.Retention.Epochs.{Evidence, Epoch, store_names, is_valid_epoch}
use ha_mcp.Phase3.Retention.Disk.{
  Marker, MarkerFile, partial, whole, World, failure, call, require, change, look, is_archive_name,
  make_active, make_store, create_marker, write_marker,
}
use ha_mcp.Phase3.Retention.Rotation.{
  Budgets, active_of, directory, parent_entries, eligible, budget, finish, initialize_stores,
}

-- `exclusive`.
abbrev pub set_busy : Bool → World → World
set_busy busy w = record w { busy = busy }

abbrev pub idle_again : M World (Unit {0})
idle_again w = pure tt (set_busy false w)

abbrev pub take_turn : {A : Type 0} → M World A → M World A
take_turn action w = try_finally (call >> action) idle_again (set_busy true w)

abbrev pub exclusive : {A : Type 0} → M World A → M World A
exclusive action w =
    if w.busy
    then throw (failure "Phase 3 retention operation already active") w
    else take_turn action w

-- `rotate`, up to the marker that is synced; `archive` is the new name with a random UUID.
unfoldable pub mark_rotation : Marker → M World (Unit {0})
mark_rotation m = do
  call
  change create_marker
  try_finally (do change (write_marker m); call) call
  call
  call

abbrev pub marker_of : String → Epoch → Marker
marker_of archive e = record { archive = archive; device = e.device; inode = e.inode }

unfoldable pub begin_rotation :
    Budgets
    → (Evidence → List RecoveryResult)
    → String × String
    → String
    → List String
    → Epoch
    → M World (Unit {0})
begin_rotation b proof ids archive names e = do
  require (not (includes names archive)) "Phase 3 rotation archive already exists"
  mark_rotation (marker_of archive e)
  finish b proof true ids (marker_of archive e)

-- `budget` of the active directory, which it walks.
unfoldable pub active_budget : Budgets → M World (Unit {0})
active_budget b = directory active_of >>= budget b

unfoldable pub rotate_now :
    Budgets → (Evidence → List RecoveryResult) → String × String → String → M World (Unit {0})
rotate_now b proof ids archive = do
  names ← parent_entries
  require (not (includes names "rotation.json") && includes names "active")
      "Phase 3 epoch requires explicit offline resume"
  eligible active_of proof
  active_budget b
  e ← directory active_of
  begin_rotation b proof ids archive names e

unfoldable pub rotate :
    Budgets → (Evidence → List RecoveryResult) → String × String → String → M World (Unit {0})
rotate b proof ids archive = exclusive (rotate_now b proof ids archive)

-- `resume`.
abbrev pub parsed_marker : Option MarkerFile → M World Marker
parsed_marker none = throw (failure "ENOENT")
parsed_marker (some partial) = throw (failure "Unexpected end of JSON input")
parsed_marker (some (whole m)) =
    require (is_archive_name m.archive) "Invalid rotation marker" >> pure m

unfoldable pub resume_now :
    Budgets → (Evidence → List RecoveryResult) → String × String → M World (Unit {0})
resume_now b proof ids = do
  names ← parent_entries
  found ← look (λ p. p.marker)
  m ← parsed_marker found
  finish b proof false ids m

unfoldable pub resume :
    Budgets → (Evidence → List RecoveryResult) → String × String → M World (Unit {0})
resume b proof ids = exclusive (resume_now b proof ids)

-- `createActive`.
unfoldable pub create_stores : List String → M World (Unit {0})
create_stores [] = pure tt
create_stores (name ∷ names) = do call; change (make_store name); create_stores names

unfoldable pub create_active : String × String → M World (Unit {0})
create_active (device, inode) = do
  call
  change (make_active device inode)
  create_stores store_names
  call
  call

-- `initialize`.
unfoldable pub initialize : String × String → M World (Unit {0})
initialize ids = exclusive (do
  names ← parent_entries
  require (every (λ name. name == "operator.lock") names)
      "Phase 3 retention initialization requires an empty parent"
  create_active ids
  initialize_stores)

-- `open`.
unfoldable pub open_epoch : M World (Unit {0})
open_epoch = exclusive (do
  names ← parent_entries
  require (not (includes names "rotation.json") && includes names "active")
      "Phase 3 epoch requires explicit offline resume"
  e ← directory active_of
  require (is_valid_epoch e) "Phase 3 epoch topology is incomplete or unknown"
  call
  require (leb (length e.evidence.records) 1) "Phase 3 epoch contains multiple transactions")
