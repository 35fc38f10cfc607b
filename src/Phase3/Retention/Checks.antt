-- ===== src/Phase3/Retention/Checks.antt =====
-- phase3/retention.ts: the tests that read the parent and an epoch pass on one that may be archived,
-- whichever calls fail.
use ha_mcp.Prelude.{
  ◌+◌, ◌≡◌, refl, ap, sym, ◌∙◌, subst, String, Bool, true, Option, some, List, [], ◌∷◌, string_eq,
  arith, leb, ltb, length,
}
use ha_mcp.Phase3.Coordinator.Recover.{RecoveryResult}
use ha_mcp.Phase3.Effects.{Thrown}
use ha_mcp.Phase3.Effects.Triples.{Triple, bind_rule, assume_rule}
use ha_mcp.Phase3.Retention.Epochs.{
  Evidence, Epoch, is_valid_epoch, are_bound, are_proved, is_settled_epoch,
}
use ha_mcp.Phase3.Retention.Disk.{Marker, Parent, World, is_known_parent, parent_names}
use ha_mcp.Phase3.Retention.Rotation.{
  Budgets, is_marked, directory, private_epoch, parent_entries, check_eligible, eligible,
  archives_bytes, budget, marked_directory,
}
use ha_mcp.Phase3.Retention.Rules.{At, Broken, call_rule, look_rule, require_rule, closed_rule}
use ha_mcp.Phase3.Retention.Shapes.{are_sound_archives, total_bytes}

module _ (quiet : Bool) (Any : Parent → Type 0) (proof : Evidence → List RecoveryResult)
    (e : Epoch) where
  abbrev pub Fails : Thrown → World → Type 0
  Fails x = Broken quiet Any

  pub directory_rule :
      {S : Parent → Type 0} (root : Parent → Option Epoch)
      → ((p : Parent) → S p → Any p)
      → ((p : Parent) → S p → root p ≡ some e)
      → e.is_private ≡ true
      → Triple (At quiet S) (directory root) (λ a w. At quiet S w × (a ≡ e)) Fails
  unfolding directory
  directory_rule {S} root any found private =
      bind_rule (look_rule quiet Any (λ o. o ≡ some e) root any found) λ o. assume_rule λ same.
        subst (λ t. Triple (At quiet S) (private_epoch t) (λ a w. At quiet S w × (a ≡ e)) Fails)
          (sym same)
          (bind_rule (require_rule quiet Any e.is_private _ private)
            λ u. record { run = λ w h. (h, refl) })

  pub check_eligible_rule :
      {S : Parent → Type 0}
      → ((p : Parent) → S p → Any p)
      → is_valid_epoch e ≡ true
      → is_settled_epoch e.evidence ≡ true
      → are_proved e.evidence.records (proof e.evidence) ≡ true
      → Triple (At quiet S) (check_eligible proof e) (λ _. At quiet S) Fails
  unfolding check_eligible
  check_eligible_rule {S} any valid settled proved =
      bind_rule (require_rule quiet Any (is_valid_epoch e) _ valid) λ _.
        bind_rule (call_rule quiet Any any) λ _. closed_rule quiet Any any (
          bind_rule (call_rule quiet Any any) λ _.
            bind_rule (require_rule quiet Any (is_settled_epoch e.evidence) _ settled) λ _.
              bind_rule (call_rule quiet Any any) λ _.
                require_rule quiet Any (are_proved e.evidence.records (proof e.evidence)) _ proved)

  pub eligible_rule :
      {S : Parent → Type 0} (root : Parent → Option Epoch)
      → ((p : Parent) → S p → Any p)
      → ((p : Parent) → S p → root p ≡ some e)
      → e.is_private ≡ true
      → is_valid_epoch e ≡ true
      → is_settled_epoch e.evidence ≡ true
      → are_proved e.evidence.records (proof e.evidence) ≡ true
      → Triple (At quiet S) (eligible root proof) (λ _. At quiet S) Fails
  unfolding eligible
  eligible_rule {S} root any found private valid settled proved =
      bind_rule (directory_rule root any found private) λ a. assume_rule λ same.
        subst (λ x. Triple (At quiet S) (check_eligible proof x) (λ _. At quiet S) Fails) (sym same)
          (check_eligible_rule any valid settled proved)

  pub marked_directory_rule :
      {S : Parent → Type 0} (root : Parent → Option Epoch) (m : Marker)
      → ((p : Parent) → S p → Any p)
      → ((p : Parent) → S p → root p ≡ some e)
      → e.is_private ≡ true
      → is_marked e m ≡ true
      → Triple (At quiet S) (marked_directory root m) (λ a w. At quiet S w × (a ≡ e)) Fails
  unfolding marked_directory
  marked_directory_rule {S} root m any found private marked =
      bind_rule (directory_rule root any found private) λ a. assume_rule λ same.
        bind_rule
          (require_rule quiet Any (is_marked a m) _
            (subst (λ x. is_marked x m ≡ true) (sym same) marked))
          λ _. record { run = λ w h. (h, same) }

  pub archives_bytes_rule :
      {S : Parent → Type 0} (old : List (String × Epoch))
      → ((p : Parent) → S p → Any p)
      → are_sound_archives old ≡ true
      → Triple
          (At quiet S)
          (archives_bytes old)
          (λ bytes w. At quiet S w × (bytes ≡ total_bytes old))
          Fails
  unfolding archives_bytes total_bytes
  archives_bytes_rule [] any sound = record { run = λ w h. (h, refl) }
  archives_bytes_rule {S} ((name, a) ∷ old) any sound = bind_rule (call_rule quiet Any any) λ _.
      bind_rule (require_rule quiet Any (is_valid_epoch a) _ (ground (arith, sound))) λ _.
        bind_rule (require_rule quiet Any (are_bound a.evidence) _ (ground (arith, sound))) λ _.
          bind_rule (archives_bytes_rule old any (ground (arith, sound)))
            λ bytes. record { run = λ w h. (h.0, ap (λ n. a.evidence.tree_bytes + n) h.1) }

  pub budget_rule :
      {S : Parent → Type 0} (b : Budgets) (old : List (String × Epoch))
      → ((p : Parent) → S p → Any p)
      → ((p : Parent) → S p → p.archives ≡ old)
      → are_sound_archives old ≡ true
      → ltb (length old) b.maximum_archives ≡ true
      → leb (e.evidence.tree_bytes + total_bytes old) b.maximum_archive_bytes ≡ true
      → Triple (At quiet S) (budget b e) (λ _. At quiet S) Fails
  unfolding budget
  budget_rule {S} b old any same sound few small =
      bind_rule (look_rule quiet Any (λ a. a ≡ old) (λ p. p.archives) any same) λ archives.
        assume_rule λ eq.
          bind_rule
            (require_rule quiet Any (ltb (length archives) b.maximum_archives) _
              (subst (λ a. ltb (length a) b.maximum_archives ≡ true) (sym eq) few))
            λ _.
              bind_rule
                (archives_bytes_rule archives any
                  (subst (λ a. are_sound_archives a ≡ true) (sym eq) sound))
                λ bytes. assume_rule λ sum.
                  require_rule quiet Any
                    (leb (e.evidence.tree_bytes + bytes) b.maximum_archive_bytes) _
                    (subst (λ n. leb (e.evidence.tree_bytes + n) b.maximum_archive_bytes ≡ true)
                      (sym (sum ∙ ap total_bytes eq)) small)

  pub parent_entries_rule :
      {S : Parent → Type 0} (Q : List String → Type 0)
      → ((p : Parent) → S p → Any p)
      → ((p : Parent) → S p → is_known_parent p ≡ true)
      → ((p : Parent) → S p → Q (parent_names p))
      → Triple (At quiet S) parent_entries (λ names w. At quiet S w × Q names) Fails
  unfolding parent_entries
  parent_entries_rule {S} Q any known named = bind_rule (call_rule quiet Any any) λ _.
      bind_rule (look_rule quiet Any (λ t. t ≡ true) is_known_parent any known) λ t.
        assume_rule λ test.
          bind_rule (require_rule quiet Any t _ test)
            λ _. look_rule quiet Any Q parent_names any named
