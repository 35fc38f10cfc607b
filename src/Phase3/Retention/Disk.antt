-- ===== src/Phase3/Retention/Disk.antt =====
-- phase3/retention.ts: the parent directory, and the calls that read and change it. Each call may
-- fail, before it has an effect; what has an effect has it in order.
use ha_mcp.Prelude.{
  String, Bool, true, false, ◌&&◌, ◌||◌, Option, none, some, List, [], ◌∷◌, ◌++◌, ◌==◌, string_eq,
  leb, length, every, map_set, map_get, if◌then◌else◌,
}
use ha_mcp.Phase3.Paths.{units}
use ha_mcp.Phase3.Names.{Place, hex, unit, variant, times, literal, take_match, is_all_taken}
use ha_mcp.Phase3.Effects.{Thrown, other_error, no_evidence, Outcome, done, thrown, M}
use ha_mcp.Phase3.Retention.Epochs.{Entry, Epoch}

-- `RotationMarker`, of version 1.
pub record Marker : Type 0 where
  pub archive : String
  pub device : String
  pub inode : String

-- `rotation.json`: created, or written whole.
pub data MarkerFile : Type 0 where
  partial : MarkerFile
  whole : Marker → MarkerFile

pub record Parent : Type 0 where
  pub active : Option Epoch
  pub marker : Option MarkerFile
  pub has_lock : Bool
  pub archives : List (String × Epoch)
  -- entries with any other name
  pub others : List String

-- `faults` says of each call to come whether it fails; those after its end do not.
pub record World : Type 0 where
  pub parent : Parent
  pub busy : Bool
  pub faults : List Bool

abbrev pub io_error : Thrown
io_error = other_error "Error" "EIO" no_evidence

abbrev pub failure : String → Thrown
failure message = other_error "Error" message no_evidence

unfoldable pub call : M World (Unit {0})
call w = next_call w.faults
  where
    next_call : List Bool → Outcome (Unit {0}) × World
    next_call [] = (done tt, w)
    next_call (false ∷ faults) = (done tt, record w { faults = faults })
    next_call (true ∷ faults) = (thrown io_error, record w { faults = faults })

-- `if (!condition) throw new Error(message)`.
abbrev pub require : Bool → String → M World (Unit {0})
require true message w = (done tt, w)
require false message w = (thrown (failure message), w)

abbrev pub after_call : (Parent → Parent) → Outcome (Unit {0}) × World → Outcome (Unit {0}) × World
after_call f (done u, w) = (done u, record w { parent = f w.parent })
after_call f (thrown e, w) = (thrown e, w)

-- A call with an effect.
unfoldable pub change : (Parent → Parent) → M World (Unit {0})
change f w = after_call f (call w)

-- A call that reads.
abbrev pub then_read : {A : Type 0} → (Parent → A) → Outcome (Unit {0}) × World → Outcome A × World
then_read f (done u, w) = (done (f w.parent), w)
then_read f (thrown e, w) = (thrown e, w)

unfoldable pub look : {A : Type 0} → (Parent → A) → M World A
look f w = then_read f (call w)

-- `archivePattern`.
abbrev pub archive_pattern : List Place
archive_pattern =
    literal (units "archive-")
    ++ times 8 hex (
        unit b'-'
        ∷ times 4 hex (
            unit b'-'
            ∷ unit b'4'
            ∷ times 3 hex (unit b'-' ∷ variant ∷ times 3 hex (unit b'-' ∷ times 12 hex []))))

unfoldable pub is_archive_name : String → Bool
is_archive_name name = is_all_taken (take_match archive_pattern (units name))

abbrev pub if_some {ℓ} : {A : Type ℓ} → Option A → String → List String → List String
if_some none name names = names
if_some (some a) name names = name ∷ names

unfoldable pub archive_names : List (String × Epoch) → List String
archive_names [] = []
archive_names ((name, e) ∷ archives) = name ∷ archive_names archives

-- `readdir` of the parent.
unfoldable pub parent_names : Parent → List String
parent_names p = if_some p.active "active" (
    if_some p.marker "rotation.json"
      ((if p.has_lock then "operator.lock" ∷ [] else []) ++ (archive_names p.archives ++ p.others)))

abbrev pub is_known_name : String → Bool
is_known_name name =
    name == "active" || name == "rotation.json" || name == "operator.lock" || is_archive_name name

abbrev pub is_private_epoch : Option Epoch → Bool
is_private_epoch none = true
is_private_epoch (some e) = e.is_private

-- The tests of `parentEntries`.
unfoldable pub is_known_parent : Parent → Bool
is_known_parent p =
    leb (length (parent_names p)) 515
    && every is_known_name (parent_names p)
    && is_private_epoch p.active
    && every (λ (name, e). e.is_private) p.archives

-- The changes: `rename` of the active epoch, `mkdir` of a new one and of its stores, the marker.
abbrev pub rename_to : String → Option Epoch → Parent → Parent
rename_to archive none p = p
rename_to archive (some e) p = record p { active = none; archives = map_set archive e p.archives }

abbrev pub rename_active : String → Parent → Parent
rename_active archive p = rename_to archive p.active p

abbrev pub new_epoch : String → String → Epoch
new_epoch device inode = record {
  device = device;
  inode = inode;
  is_private = true;
  entries = [];
  evidence = record {
    records = [];
    live_unused = 0;
    checkpoint_sha256 = λ id. none;
    is_consumed = λ r. false;
    has_valid_header = false;
    has_valid_audit = false;
    tree_bytes = 0;
  };
}

abbrev pub make_active : String → String → Parent → Parent
make_active device inode p = record p { active = some (new_epoch device inode) }

abbrev pub new_store : Entry
new_store = record { is_private = true; is_directory = true; children = [] }

abbrev pub add_store : String → Epoch → Epoch
add_store name e = record e { entries = map_set name new_store e.entries }

abbrev pub map_active : (Epoch → Epoch) → Option Epoch → Option Epoch
map_active f none = none
map_active f (some e) = some (f e)

abbrev pub make_store : String → Parent → Parent
make_store name p = record p { active = map_active (add_store name) p.active }

abbrev pub header_entry : Entry
header_entry = record { is_private = true; is_directory = true; children = "header.json" ∷ [] }

abbrev pub children_of : Option Entry → List String
children_of none = []
children_of (some e) = e.children

abbrev pub approvals_of : Epoch → List String
approvals_of e = children_of (map_get "approvals" e.entries)

-- What `approvals.initialize` does to a store with no header: it stages one, links it, and removes
-- the stage. The header has an id and a key tag.
abbrev pub staged_entry : Entry
staged_entry = record { is_private = true; is_directory = true; children = ".header-stage-0" ∷ [] }

abbrev pub linked_entry : Entry
linked_entry = record {
  is_private = true;
  is_directory = true;
  children = "header.json" ∷ ".header-stage-0" ∷ [];
}

abbrev pub set_approvals : Entry → Epoch → Epoch
set_approvals entry e = record e { entries = map_set "approvals" entry e.entries }

abbrev pub stage_header : Parent → Parent
stage_header p = record p { active = map_active (set_approvals staged_entry) p.active }

abbrev pub link_entry : Epoch → Epoch
link_entry e = record e {
  entries = map_set "approvals" linked_entry e.entries;
  evidence = record e.evidence { has_valid_header = true };
}

abbrev pub link_header : Parent → Parent
link_header p = record p { active = map_active link_entry p.active }

abbrev pub remove_stage : Parent → Parent
remove_stage p = record p { active = map_active (set_approvals header_entry) p.active }

-- A clean-up whose failure is passed over.
abbrev pub best_effort : Outcome (Unit {0}) × World → Outcome (Unit {0}) × World
best_effort (done u, w) = (done u, w)
best_effort (thrown e, w) = (done tt, w)

abbrev pub create_marker : Parent → Parent
create_marker p = record p { marker = some partial }

abbrev pub write_marker : Marker → Parent → Parent
write_marker m p = record p { marker = some (whole m) }

abbrev pub unlink_marker : Parent → Parent
unlink_marker p = record p { marker = none }
