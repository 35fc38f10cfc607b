-- ===== src/Phase3/Retention/Stuck.antt =====
-- phase3/retention.ts: `resume` of a rotation whose new approvals hold the stage of a header.
use ha_mcp.Prelude.{
  ◌≤◌, ◌≡◌, ◌≢◌, refl, ap, sym, ◌∙◌, subst, inl, inr, String, Bool, true, false, ◌&&◌, Option, none,
  some, List, [], ◌∷◌, ◌==◌, string_eq, every, includes, map_get, arith, length, Bool-cases, beq→eq,
  map_set-length, map_get-map_set, beq_refl,
}
use ha_mcp.Phase3.Coordinator.Recover.{RecoveryResult}
use ha_mcp.Phase3.Effects.{Outcome, done, thrown, M}
use ha_mcp.Phase3.Effects.Triples.{Post, Triple, bind_rule, assume_rule, pure_rule}
use ha_mcp.Phase3.Retention.Epochs.{
  Evidence, Epoch, Entry, is_fresh, is_fresh_entry, is_fresh_store,
}
use ha_mcp.Phase3.Retention.Disk.{
  Marker, Parent, World, require, children_of, is_known_parent, is_private_epoch,
}
use ha_mcp.Phase3.Retention.Rotation.{
  Budgets, active_of, archive_of, fresh_or_none, restart, recheck_archive, finish_archived,
  archive_if, finish, is_there,
}
use ha_mcp.Phase3.Retention.Operations.{resume_now, resume}
use ha_mcp.Phase3.Retention.Rules.{At, Broken, call_rule, look_rule, look-At_rule}
use ha_mcp.Phase3.Retention.Shapes.{
  IsArchivable, IsStuck, IsStaged, IsStagedEpoch, is_known_parent-true, map_set-known,
  are_known_archives,
}
use ha_mcp.Phase3.Retention.Checks.{marked_directory_rule, eligible_rule}
use ha_mcp.Phase3.Retention.Completes.{exclusive-Post, resume_rule}

abbrev stage_name : String
stage_name = ".header-stage-0"

store-unfresh :
    (name : String) (children : List String)
    → includes children stage_name ≡ true
    → is_fresh_store name children ≡ false
unfolding is_fresh_store
store-unfresh name [] h = absurd (ground (arith, h))
store-unfresh name (c ∷ []) h =
    let same : c ≡ stage_name = beq→eq c stage_name (ground (arith, h)) in
    subst (λ t. (name == "approvals" && t == "header.json") ≡ false) (sym same) (other name)
  where
    other : (name : String) → (name == "approvals" && false) ≡ false
    other name = ground arith
store-unfresh name (c ∷ d ∷ cs) h = refl

entries-unfresh :
    (entries : List (String × Entry))
    → includes (children_of (map_get "approvals" entries)) stage_name ≡ true
    → every is_fresh_entry entries ≡ false
unfolding map_get is_fresh_entry
entries-unfresh [] h = absurd (ground (arith, h))
entries-unfresh ((j, x) ∷ entries) h = elim (Bool-cases (j == "approvals")) [
  | inl same ↦ ground (arith, store-unfresh j x.children (rw same at h))
  | inr other ↦ ground (arith, entries-unfresh entries (rw other at h))
]

staged-unfresh : (f : Epoch) → IsStagedEpoch f → is_fresh f ≡ false
unfolding is_fresh
staged-unfresh f h = ground (arith, entries-unfresh f.entries h.staged)

staged_is_private : (o : Option Epoch) → IsStaged o → is_private_epoch o ≡ true
unfolding is_fresh
staged_is_private none h = absurd h
staged_is_private (some f) h = ground (arith, h.without.fresh)

module _ (b : Budgets) (proof : Evidence → List RecoveryResult) (old : List (String × Epoch))
    (e : Epoch) (m : Marker) (good : IsArchivable b proof old e m) where
  abbrev Stuck : Parent → Type 0
  Stuck = IsStuck old e m

  -- What never returns.
  abbrev Never : World → Type 0
  Never = At false (λ p. ⊥)

  abbrev Stays : World → Type 0
  Stays = Broken false Stuck

  Never-rule : (action : M World (Unit {0})) → Triple Never action (λ _. Never) (λ _. Stays)
  Never-rule action = record { run = λ w h. absurd h.holds }

  refuse_rule :
      (test : Bool) (message : String)
      → test ≡ false
      → Triple (At false Stuck) (require test message) (λ _. Never) (λ _. Stays)
  refuse_rule test message fails = record {
    run = λ w h.
        subst (λ t. Post (λ _. Never) (λ _. Stays) (require t message w)) (sym fails)
          (record { holds = h.holds; loud = refl });
  }

  known-Stuck : (p : Parent) → Stuck p → is_known_parent p ≡ true
  known-Stuck p h =
      is_known_parent-true p (staged_is_private p.active h.active)
        (subst (λ a. are_known_archives a ≡ true) (sym h.archives)
          (map_set-known m.archive e old good.named good.is_private good.known))
        (subst (λ a. length a ≤ 512) (sym h.archives)
          (omega (arith, good.scanned, map_set-length m.archive e old)))
        h.others

  archive_of-Stuck : (p : Parent) → Stuck p → archive_of m.archive p ≡ some e
  archive_of-Stuck p h =
      subst (λ a. map_get m.archive a ≡ some e) (sym h.archives)
        (map_get-map_set m.archive m.archive e old ∙ rw (beq_refl m.archive) refl)

  unfresh_rule :
      (ids : String × String) (f : Epoch)
      → IsStagedEpoch f
      → Triple (At false Stuck) (fresh_or_none ids (some f)) (λ _. Never) (λ _. Stays)
  unfolding fresh_or_none
  unfresh_rule ids f staged =
      bind_rule (call_rule false Stuck (λ p h. h))
        λ _. refuse_rule (is_fresh f) _ (staged-unfresh f staged)

  found_rule :
      (ids : String × String) (found : Option Epoch)
      → Triple
          (At false (λ p. Stuck p × (p.active ≡ found)))
          (fresh_or_none ids found)
          (λ _. Never)
          (λ _. Stays)
  found_rule ids none = record { run = λ w h. absurd (subst IsStaged h.holds.1 h.holds.0.active) }
  found_rule ids (some f) = record {
    run = λ w h.
        (unfresh_rule ids f (subst IsStaged h.holds.1 h.holds.0.active)).run w
          (record { holds = h.holds.0; calm = h.calm });
  }

  restart-IsStuck_rule :
      (ids : String × String) → Triple (At false Stuck) (restart ids) (λ _. Never) (λ _. Stays)
  unfolding restart
  restart-IsStuck_rule ids =
      bind_rule (look-At_rule false Stuck active_of (λ p h. h))
        λ found. bind_rule (found_rule ids found) λ _. Never-rule _

  finish-IsStuck_rule :
      (ids : String × String)
      → Triple (At false Stuck) (finish b proof false ids m) (λ _. Never) (λ _. Stays)
  unfolding finish archive_if finish_archived recheck_archive
  finish-IsStuck_rule ids =
      bind_rule
        (look_rule false Stuck (λ t. t ≡ true) (λ p. is_there (archive_of m.archive p)) (λ p h. h)
          (λ p h. ap is_there (archive_of-Stuck p h)))
        λ archived. assume_rule λ same.
          bind_rule
            (subst
              (λ t.
                Triple (At false Stuck) (archive_if b proof false m t) (λ _. At false Stuck)
                  (λ _. Stays))
              (sym same) (pure_rule tt))
            λ _.
              bind_rule
                (marked_directory_rule false Stuck proof e (archive_of m.archive) m (λ p h. h)
                  archive_of-Stuck good.is_private good.marked)
                λ a. assume_rule λ _.
                  bind_rule
                    (eligible_rule false Stuck proof e (archive_of m.archive) (λ p h. h)
                      archive_of-Stuck good.is_private good.valid good.settled good.proved)
                    λ _. restart-IsStuck_rule ids

  resume-Stays :
      (ids : String × String) (w : World)
      → w.busy ≡ false
      → Stuck w.parent
      → Post (λ _. Never) (λ _. Stays) (resume b proof ids w)
  unfolding resume
  resume-Stays ids w idle is_stuck =
      exclusive-Post false Stuck (resume_now b proof ids) w (λ p h. h)
        (resume_rule false Stuck (λ p. ⊥) b proof old e m good ids (λ p h. h) known-Stuck
          (λ p h. h.same_marker) (finish-IsStuck_rule ids))
        idle (record { holds = is_stuck; calm = λ q. ground (arith, q) })

  Stays-outcome :
      (r : Outcome (Unit {0}) × World)
      → Post (λ _. Never) (λ _. Stays) r
      → (r.0 ≢ done tt) × Stuck r.1.parent
  Stays-outcome (done u, w) h = absurd h.holds
  Stays-outcome (thrown x, w) h = (λ same. ground (arith, same), h.holds)

-- Once the rotation of an archivable epoch was interrupted with the stage of the new header left
-- behind, no `resume` that runs alone returns, whichever calls fail or none: the epoch stays archived,
-- and the rotation where it is.
pub resume-IsStuck :
    (b : Budgets) (proof : Evidence → List RecoveryResult) (old : List (String × Epoch)) (e : Epoch)
    (m : Marker) (ids : String × String) (w : World)
    → IsArchivable b proof old e m
    → IsStuck old e m w.parent
    → w.busy ≡ false
    → ((resume b proof ids w).0 ≢ done tt) × IsStuck old e m (resume b proof ids w).1.parent
resume-IsStuck b proof old e m ids w good is_stuck idle =
    Stays-outcome b proof old e m good (resume b proof ids w)
      (resume-Stays b proof old e m good ids w idle is_stuck)
