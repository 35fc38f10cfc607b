-- ===== src/Phase3/Retention/Shapes.antt =====
-- phase3/retention.ts: what the parent directory is like at each point of a rotation.
use ha_mcp.Prelude.{
  ℕ, suc, ◌+◌, ◌≤◌, ◌≡◌, refl, ap, sym, subst, ◌⊎◌, String, Bool, true, false, includes, inl, inr,
  ◌&&◌, Option, none, some, List, [], ◌∷◌, ◌++◌, string_eq, every, map_get, map_set, arith, leb,
  ltb, length, if◌then◌else◌,
}
use ha_mcp.Phase3.Coordinator.Recover.{RecoveryResult}
use ha_mcp.Phase3.Retention.Epochs.{
  Evidence, Epoch, is_valid_epoch, is_fresh, are_bound, are_proved, is_settled_epoch, store_names,
}
use ha_mcp.Phase3.Retention.Disk.{
  Marker, MarkerFile, whole, Parent, is_archive_name, archive_names, parent_names, is_known_name,
  is_known_parent, is_private_epoch, if_some, approvals_of, set_approvals, header_entry,
}
use ha_mcp.Phase3.Retention.Rotation.{Budgets, is_marked, has_header}
use ha_mcp.Phase3.Retention.Fresh.{HasStores}

-- The archives of `budget`, as a test and a sum.
abbrev pub are_sound_archives : List (String × Epoch) → Bool
are_sound_archives old = every (λ (name, e). is_valid_epoch e && are_bound e.evidence) old

unfoldable pub total_bytes : List (String × Epoch) → ℕ
total_bytes [] = 0
total_bytes ((name, e) ∷ old) = e.evidence.tree_bytes + total_bytes old

abbrev pub are_known_archives : List (String × Epoch) → Bool
are_known_archives old = every (λ (name, e). is_archive_name name && e.is_private) old

-- An epoch that may be archived beside the archives `old`, under the name of the marker.
pub record IsArchivable (b : Budgets) (proof : Evidence → List RecoveryResult)
    (old : List (String × Epoch)) (e : Epoch) (m : Marker) : Type 0 where
  pub is_private : e.is_private ≡ true
  pub valid : is_valid_epoch e ≡ true
  pub settled : is_settled_epoch e.evidence ≡ true
  pub proved : are_proved e.evidence.records (proof e.evidence) ≡ true
  pub marked : is_marked e m ≡ true
  pub named : is_archive_name m.archive ≡ true
  pub free : map_get m.archive old ≡ none
  pub known : are_known_archives old ≡ true
  pub sound : are_sound_archives old ≡ true
  pub few : ltb (length old) b.maximum_archives ≡ true
  pub scanned : length old ≤ 511
  pub small : leb (e.evidence.tree_bytes + total_bytes old) b.maximum_archive_bytes ≡ true

-- The active epoch is `e`, and nothing was archived.
pub record IsWhole (old : List (String × Epoch)) (e : Epoch) (marker : Option MarkerFile)
    (p : Parent) : Type 0 where
  pub active : p.active ≡ some e
  pub same_marker : p.marker ≡ marker
  pub archives : p.archives ≡ old
  pub others : p.others ≡ []

-- `e` is archived; the new active epoch is as `Q` says.
pub record IsArchived (old : List (String × Epoch)) (e : Epoch) (m : Marker)
    (marker : Option MarkerFile) (Q : Option Epoch → Type 0) (p : Parent) : Type 0 where
  pub active : Q p.active
  pub same_marker : p.marker ≡ marker
  pub archives : p.archives ≡ map_set m.archive e old
  pub others : p.others ≡ []

-- A header that is there is valid.
abbrev pub IsHeaded : Epoch → Type 0
IsHeaded f = (has_header f ≡ false) ⊎ (f.evidence.has_valid_header ≡ true)

-- There is no active epoch yet, or a fresh one.
abbrev pub IsRestart : Option Epoch → Type 0
IsRestart none = Unit
IsRestart (some f) = (is_fresh f ≡ true) × IsHeaded f

abbrev pub HasMade : List String → Option Epoch → Type 0
HasMade made none = ⊥
HasMade made (some f) = HasStores made f × IsHeaded f

-- A new epoch that `open` accepts.
abbrev pub IsOpenable : Option Epoch → Type 0
IsOpenable none = ⊥
IsOpenable (some f) = (is_valid_epoch f ≡ true) × (is_fresh f ≡ true)

-- The approvals hold the stage of a header; without it, the epoch would be fresh with its stores.
pub record IsStagedEpoch (f : Epoch) : Type 0 where
  pub staged : includes (approvals_of f) ".header-stage-0" ≡ true
  pub without : HasStores store_names (set_approvals header_entry f)

abbrev pub IsStaged : Option Epoch → Type 0
IsStaged none = ⊥
IsStaged (some f) = IsStagedEpoch f

-- The same, with the header itself: `open` accepts the epoch without the stage.
abbrev pub IsStagedHeader : Option Epoch → Type 0
IsStagedHeader none = ⊥
IsStagedHeader (some f) = IsStagedEpoch f × (is_valid_epoch (set_approvals header_entry f) ≡ true)

-- A rotation that was interrupted with its marker written, before or after the rename.
abbrev pub IsInterrupted : List (String × Epoch) → Epoch → Marker → Parent → Type 0
IsInterrupted old e m p =
    IsWhole old e (some (whole m)) p ⊎ IsArchived old e m (some (whole m)) IsRestart p

-- A rotation that was interrupted while the stage of the new header was there.
abbrev pub IsStuck : List (String × Epoch) → Epoch → Marker → Parent → Type 0
IsStuck old e m p = IsArchived old e m (some (whole m)) IsStaged p

-- A rotation that is complete.
abbrev pub IsRotated : List (String × Epoch) → Epoch → Marker → Parent → Type 0
IsRotated old e m p = IsArchived old e m none IsOpenable p

-- A rotation that is complete but for the removal of the stage.
abbrev pub IsRotatedStaged : List (String × Epoch) → Epoch → Marker → Parent → Type 0
IsRotatedStaged old e m p = IsArchived old e m none IsStagedHeader p

-- How `finish` leaves the parent when it returns: the stage stays only if its removal failed.
abbrev pub IsEnded : Bool → List (String × Epoch) → Epoch → Marker → Parent → Type 0
IsEnded quiet old e m p = IsRotated old e m p ⊎ (IsRotatedStaged old e m p × (quiet ≡ false))

-- Where it leaves the parent, whatever fails.
abbrev pub IsResumed : List (String × Epoch) → Epoch → Marker → Parent → Type 0
IsResumed old e m p =
    (IsInterrupted old e m p ⊎ IsStuck old e m p)
    ⊎ (IsRotated old e m p ⊎ IsRotatedStaged old e m p)

pub ended-IsResumed :
    (quiet : Bool) (old : List (String × Epoch)) (e : Epoch) (m : Marker) (p : Parent)
    → IsEnded quiet old e m p
    → IsResumed old e m p
ended-IsResumed quiet old e m p (inl h) = inr (inl h)
ended-IsResumed quiet old e m p (inr (h, loud)) = inr (inr h)

every-known_names :
    (old : List (String × Epoch))
    → are_known_archives old ≡ true
    → every is_known_name (archive_names old ++ []) ≡ true
unfolding archive_names
every-known_names [] h = refl
every-known_names ((name, e) ∷ old) h = ground (arith, every-known_names old)

every-private :
    (old : List (String × Epoch))
    → are_known_archives old ≡ true
    → every (λ (name, e). e.is_private) old ≡ true
every-private [] h = refl
every-private ((name, e) ∷ old) h = ground (arith, every-private old)

length-names : (old : List (String × Epoch)) → length (archive_names old ++ []) ≡ length old
unfolding archive_names
length-names [] = refl
length-names ((name, e) ∷ old) = ap suc (length-names old)

pub map_set-known :
    (name : String) (e : Epoch) (old : List (String × Epoch))
    → is_archive_name name ≡ true
    → e.is_private ≡ true
    → are_known_archives old ≡ true
    → are_known_archives (map_set name e old) ≡ true
unfolding map_set
map_set-known name e [] named private h = ground arith
map_set-known name e ((j, x) ∷ old) named private h = ground (arith, map_set-known name e old)

length-if_some :
    {A : Type 0} (o : Option A) (name : String) (names : List String)
    → length (if_some o name names) ≤ suc (length names)
length-if_some none name names = omega arith
length-if_some (some a) name names = omega arith

every-if_some :
    {A : Type 0} (o : Option A) (name : String) (names : List String)
    → is_known_name name ≡ true
    → every is_known_name names ≡ true
    → every is_known_name (if_some o name names) ≡ true
every-if_some none name names known all = all
every-if_some (some a) name names known all = ground arith

-- `parentEntries` accepts such a parent.
is_known_fields :
    (active : Option Epoch) (marker : Option MarkerFile) (has_lock : Bool)
    (archives : List (String × Epoch))
    → is_private_epoch active ≡ true
    → are_known_archives archives ≡ true
    → length archives ≤ 512
    → is_known_parent (record {
      active = active;
      marker = marker;
      has_lock = has_lock;
      archives = archives;
      others = [];
    })
      ≡ true
unfolding is_known_parent parent_names
is_known_fields active marker has_lock archives private known short =
    let names = archive_names archives ++ [] in
    let locked = (if has_lock then "operator.lock" ∷ [] else []) ++ names in
    let marked = if_some marker "rotation.json" locked in
    let lock_length : length locked ≤ suc (length names) = ground arith in
    let all : every is_known_name locked ≡ true = ground (arith, every-known_names archives) in
    ground (
      arith,
      length-names archives,
      length-if_some marker "rotation.json" locked,
      length-if_some active "active" marked,
      every-if_some marker "rotation.json" locked,
      every-if_some active "active" marked,
      every-private archives,
    )

pub is_known_parent-true :
    (p : Parent)
    → is_private_epoch p.active ≡ true
    → are_known_archives p.archives ≡ true
    → length p.archives ≤ 512
    → p.others ≡ []
    → is_known_parent p ≡ true
is_known_parent-true p private known short none_other =
    subst (λ o. is_known_parent (record p { others = o }) ≡ true) (sym none_other)
      (is_known_fields p.active p.marker p.has_lock p.archives private known short)
