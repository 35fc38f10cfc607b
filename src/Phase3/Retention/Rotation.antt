-- ===== src/Phase3/Retention/Rotation.antt =====
-- phase3/retention.ts: `Phase3OfflineRetention`. The lease, the hooks and the live proof are calls that
-- may fail; the looks of `file` at the marker and the lock, and at the ancestors, are too.
use ha_mcp.Prelude.{
  ℕ, zero, ◌+◌, ◌*◌, String, Bool, true, false, not, ◌&&◌, Option, none, some, List, [], ◌∷◌, ◌==◌,
  string_eq, leb, ltb, length, includes, map_get, if◌then◌else◌,
}
use ha_mcp.Phase3.Coordinator.Recover.{RecoveryResult}
use ha_mcp.Phase3.Effects.{M, pure, throw, ◌>>=◌, ◌>>◌, try_finally}
use ha_mcp.Phase3.Retention.Epochs.{
  Evidence, Epoch, store_names, names_of, is_valid_epoch, is_fresh, are_bound, are_proved,
  is_settled_epoch,
}
use ha_mcp.Phase3.Retention.Disk.{
  Marker, Parent, World, failure, call, require, change, look, parent_names, is_known_parent,
  rename_active, make_active, make_store, approvals_of, stage_header, link_header, remove_stage,
  best_effort, unlink_marker,
}

-- The options of the constructor.
pub record Budgets : Type 0 where
  pub maximum_archives : ℕ
  pub maximum_archive_bytes : ℕ

-- The tests of the constructor.
unfoldable pub are_valid_budgets : Budgets → Bool
are_valid_budgets b =
    leb 1 b.maximum_archives
    && leb b.maximum_archives 512
    && leb 1 b.maximum_archive_bytes
    && leb b.maximum_archive_bytes (1024 * 1024 * 1024)

abbrev pub active_of : Parent → Option Epoch
active_of p = p.active

abbrev pub archive_of : String → Parent → Option Epoch
archive_of archive p = map_get archive p.archives

-- `directory` of an epoch: `lstat` and `metadata`.
abbrev pub private_epoch : Option Epoch → M World Epoch
private_epoch none = throw (failure "ENOENT")
private_epoch (some e) =
    require e.is_private "Phase 3 retention node is not private on the same device" >> pure e

unfoldable pub directory : (Parent → Option Epoch) → M World Epoch
directory root = do found ← look root; private_epoch found

-- `exists`.
abbrev pub is_there : Option Epoch → Bool
is_there none = false
is_there (some e) = true

-- `parentEntries`.
unfoldable pub parent_entries : M World (List String)
parent_entries = do
  call
  known ← look is_known_parent
  require known "Unknown Phase 3 retention parent entries"
  look parent_names

-- `assertMarkerIdentity`.
abbrev pub is_marked : Epoch → Marker → Bool
is_marked e m = e.device == m.device && e.inode == m.inode

abbrev pub assert_marker_identity : Epoch → Marker → M World (Unit {0})
assert_marker_identity e m = require (is_marked e m) "Phase 3 rotation archive identity changed"

-- `eligible` of the epoch that `directory` gave. The proof is given the stores of the epoch.
unfoldable pub check_eligible : (Evidence → List RecoveryResult) → Epoch → M World (Unit {0})
check_eligible proof e = do
  require (is_valid_epoch e) "Phase 3 epoch topology is incomplete or unknown"
  call
  try_finally
      (do
        call
        require (is_settled_epoch e.evidence)
            "Phase 3 retention requires a sole automatic terminal transaction"
        call
        require (are_proved e.evidence.records (proof e.evidence))
            "Phase 3 retention requires current live digest verification")
      call

unfoldable pub eligible :
    (Parent → Option Epoch) → (Evidence → List RecoveryResult) → M World (Unit {0})
eligible root proof = directory root >>= check_eligible proof

-- The archives of `budget`: each is valid and bound; their bytes.
unfoldable pub archives_bytes : List (String × Epoch) → M World ℕ
archives_bytes [] = pure zero
archives_bytes ((name, e) ∷ archives) = do
  call
  require (is_valid_epoch e) "Phase 3 epoch topology is incomplete or unknown"
  require (are_bound e.evidence) "Phase 3 retention checkpoint binding does not match transaction"
  bytes ← archives_bytes archives
  pure (e.evidence.tree_bytes + bytes)

unfoldable pub budget : Budgets → Epoch → M World (Unit {0})
budget b active = do
  archives ← look (λ p. p.archives)
  require (ltb (length archives) b.maximum_archives) "Phase 3 archive count budget exhausted"
  bytes ← archives_bytes archives
  require (leb (active.evidence.tree_bytes + bytes) b.maximum_archive_bytes)
      "Phase 3 archive byte budget exhausted"

-- `directory` and `assertMarkerIdentity` of what it gives.
unfoldable pub marked_directory : (Parent → Option Epoch) → Marker → M World Epoch
marked_directory root m = do e ← directory root; assert_marker_identity e m; pure e

-- A resumed `finish` tests the budget again.
unfoldable pub recheck_budget : Budgets → Bool → Epoch → M World (Unit {0})
recheck_budget b already_checked e =
    if already_checked then pure tt else (parent_entries >>= λ names. budget b e)

-- `finish` up to the rename and its durability.
unfoldable pub archive_active :
    Budgets → (Evidence → List RecoveryResult) → Bool → Marker → M World (Unit {0})
archive_active b proof already_checked m = do
  before ← marked_directory active_of m
  recheck_budget b already_checked before
  eligible active_of proof
  after ← marked_directory active_of m
  call
  change (rename_active m.archive)
  call
  call
  call

-- The new active directory.
unfoldable pub fresh_or_none : String × String → Option Epoch → M World (Unit {0})
fresh_or_none (device, inode) none = do call; change (make_active device inode); call; call
fresh_or_none ids (some e) = do call; require (is_fresh e) "Interrupted active epoch is not fresh"

abbrev pub lacks_store : String → Option Epoch → Bool
lacks_store name none = true
lacks_store name (some e) = not (includes (names_of e.entries) name)

unfoldable pub make_missing : String → Bool → M World (Unit {0})
make_missing name missing = if missing then (call >> change (make_store name)) else pure tt

-- The loop that makes the stores.
unfoldable pub make_stores : List String → M World (Unit {0})
make_stores [] = pure tt
make_stores (name ∷ names) = do
  missing ← look (λ p. lacks_store name p.active)
  make_missing name missing
  make_stores names

abbrev pub has_header : Epoch → Bool
has_header e = includes (approvals_of e) "header.json"

-- `initializeHeader` with `commitHeader`.
unfoldable pub write_header : M World (Unit {0})
write_header = do
  change stage_header
  call
  change link_header
  call
  λ w. best_effort (change remove_stage w)

-- `approvals.initialize`: a header that is there is read.
unfoldable pub initialize_found : Option Epoch → M World (Unit {0})
initialize_found none = throw (failure "ENOENT")
initialize_found (some e) =
    if has_header e
    then require e.evidence.has_valid_header "Approval header is invalid"
    else write_header

-- `stores` of the active epoch.
unfoldable pub initialize_stores : M World (Unit {0})
initialize_stores = do call; found ← look active_of; initialize_found found; call

-- The end of `finish`. `ids` identify the directory that `mkdir` makes.
unfoldable pub restart : String × String → M World (Unit {0})
restart ids = do
  found ← look active_of
  fresh_or_none ids found
  make_stores store_names
  call
  initialize_stores
  call
  call
  call
  change unlink_marker
  call

-- A resumed `finish` tests the archive again.
unfoldable pub recheck_archive :
    (Evidence → List RecoveryResult) → Bool → Marker → M World (Unit {0})
recheck_archive proof already_checked m =
    if already_checked then pure tt else eligible (archive_of m.archive) proof

-- `finish` once the epoch is archived.
unfoldable pub finish_archived :
    (Evidence → List RecoveryResult) → Bool → String × String → Marker → M World (Unit {0})
finish_archived proof already_checked ids m = do
  e ← marked_directory (archive_of m.archive) m
  recheck_archive proof already_checked m
  restart ids

unfoldable pub archive_if :
    Budgets → (Evidence → List RecoveryResult) → Bool → Marker → Bool → M World (Unit {0})
archive_if b proof already_checked m archived =
    if archived then pure tt else archive_active b proof already_checked m

unfoldable pub finish :
    Budgets
    → (Evidence → List RecoveryResult)
    → Bool
    → String × String
    → Marker
    → M World (Unit {0})
finish b proof already_checked ids m = do
  archived ← look (λ p. is_there (archive_of m.archive p))
  archive_if b proof already_checked m archived
  finish_archived proof already_checked ids m
