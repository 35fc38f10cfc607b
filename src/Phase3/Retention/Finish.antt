-- ===== src/Phase3/Retention/Finish.antt =====
-- phase3/retention.ts: `finish` of an interrupted rotation, whichever calls fail.
use ha_mcp.Prelude.{
  ◌≤◌, ◌≡◌, refl, ap, sym, ◌∙◌, subst, inl, inr, String, Bool, true, false, Option, none, some,
  List, string_eq, map_get, map_set, arith, length, map_get-map_set, map_set-length, beq_refl,
}
use ha_mcp.Phase3.Coordinator.Recover.{RecoveryResult}
use ha_mcp.Phase3.Effects.Triples.{Triple, bind_rule, pure_rule, assume_rule}
use ha_mcp.Phase3.Retention.Epochs.{Evidence, Epoch, is_fresh}
use ha_mcp.Phase3.Retention.Disk.{
  Marker, whole, Parent, is_known_parent, rename_to, is_private_epoch, rename_active,
}
use ha_mcp.Phase3.Retention.Rotation.{
  Budgets, active_of, archive_of, recheck_budget, archive_active, recheck_archive, finish_archived,
  archive_if, finish, is_there,
}
use ha_mcp.Phase3.Retention.Rules.{At, call_rule, change_rule, look_rule, restate_rule}
use ha_mcp.Phase3.Retention.Shapes.{
  IsArchivable, IsWhole, IsArchived, IsRestart, IsEnded, IsResumed, ended-IsResumed,
  is_known_parent-true, map_set-known, are_known_archives,
}
use ha_mcp.Phase3.Retention.Checks.{
  Fails, marked_directory_rule, eligible_rule, budget_rule, parent_entries_rule,
}
use ha_mcp.Phase3.Retention.Restart.{restart_rule}

module _ (quiet : Bool) (b : Budgets) (proof : Evidence → List RecoveryResult)
    (old : List (String × Epoch)) (e : Epoch) (m : Marker)
    (good : IsArchivable b proof old e m) where
  -- Where a call may fail.
  abbrev Any : Parent → Type 0
  Any = IsResumed old e m

  abbrev Before : Parent → Type 0
  Before = IsWhole old e (some (whole m))

  abbrev After : (Option Epoch → Type 0) → Parent → Type 0
  After Q = IsArchived old e m (some (whole m)) Q

  Any-Before : (p : Parent) → Before p → Any p
  Any-Before p h = inl (inl (inl h))

  none-IsRestart : (o : Option Epoch) → o ≡ none → IsRestart o
  none-IsRestart none h = tt
  none-IsRestart (some f) h = absurd (ground (arith, h))

  restarted :
      (Q : Option Epoch → Type 0)
      → ((o : Option Epoch) → Q o → IsRestart o)
      → (p : Parent) → After Q p
      → After IsRestart p
  restarted Q restart p h = record {
    active = restart p.active h.active;
    same_marker = h.same_marker;
    archives = h.archives;
    others = h.others;
  }

  Any-After :
      (Q : Option Epoch → Type 0)
      → ((o : Option Epoch) → Q o → IsRestart o)
      → (p : Parent) → After Q p
      → Any p
  Any-After Q restart p h = inl (inl (inr (restarted Q restart p h)))

  pub known-Before : (p : Parent) → Before p → is_known_parent p ≡ true
  known-Before p h =
      is_known_parent-true p (subst (λ o. is_private_epoch o ≡ true) (sym h.active) good.is_private)
        (subst (λ a. are_known_archives a ≡ true) (sym h.archives) good.known)
        (subst (λ a. length a ≤ 512) (sym h.archives) (omega (arith, good.scanned))) h.others

  restart_is_private : (o : Option Epoch) → IsRestart o → is_private_epoch o ≡ true
  unfolding is_fresh
  restart_is_private none h = refl
  restart_is_private (some f) (h, headed) = ground (arith, h)

  pub known-After : (p : Parent) → After IsRestart p → is_known_parent p ≡ true
  known-After p h =
      is_known_parent-true p (restart_is_private p.active h.active)
        (subst (λ a. are_known_archives a ≡ true) (sym h.archives)
          (map_set-known m.archive e old good.named good.is_private good.known))
        (subst (λ a. length a ≤ 512) (sym h.archives)
          (omega (arith, good.scanned, map_set-length m.archive e old)))
        h.others

  rename-After : (p : Parent) → Before p → After (λ o. o ≡ none) (rename_active m.archive p)
  rename-After p h =
      subst (λ o. After (λ t. t ≡ none) (rename_to m.archive o p)) (sym h.active)
        (record {
          active = refl;
          same_marker = h.same_marker;
          archives = ap (λ a. map_set m.archive e a) h.archives;
          others = h.others;
        })

  archive_of-After :
      (Q : Option Epoch → Type 0) (p : Parent) → After Q p → archive_of m.archive p ≡ some e
  archive_of-After Q p h =
      subst (λ a. map_get m.archive a ≡ some e) (sym h.archives)
        (map_get-map_set m.archive m.archive e old ∙ rw (beq_refl m.archive) refl)

  recheck_budget_rule :
      (already_checked : Bool)
      → Triple
          (At quiet Before)
          (recheck_budget b already_checked e)
          (λ _. At quiet Before)
          (Fails quiet Any proof e)
  unfolding recheck_budget
  recheck_budget_rule true = pure_rule tt
  recheck_budget_rule false =
      bind_rule
        (parent_entries_rule quiet Any proof e (λ names. Unit) Any-Before known-Before (λ p h. tt))
        λ names. assume_rule λ _.
          budget_rule quiet Any proof e b old Any-Before (λ p h. h.archives) good.sound good.few
            good.small

  archive_active_rule :
      (already_checked : Bool)
      → Triple
          (At quiet Before)
          (archive_active b proof already_checked m)
          (λ _. At quiet (After IsRestart))
          (Fails quiet Any proof e)
  unfolding archive_active
  archive_active_rule already_checked =
      let marked =
        marked_directory_rule quiet Any proof e active_of m Any-Before (λ p h. h.active)
          good.is_private good.marked in
      let gone = Any-After (λ o. o ≡ none) none-IsRestart in
      bind_rule marked λ before. assume_rule λ same.
        bind_rule
          (subst
            (λ x.
              Triple (At quiet Before) (recheck_budget b already_checked x) (λ _. At quiet Before)
                (Fails quiet Any proof e))
            (sym same) (recheck_budget_rule already_checked))
          λ _.
            bind_rule
              (eligible_rule quiet Any proof e active_of Any-Before (λ p h. h.active)
                good.is_private good.valid good.settled good.proved)
              λ _. bind_rule marked λ after. assume_rule λ _.
                bind_rule (call_rule quiet Any Any-Before) λ _.
                  bind_rule
                    (change_rule quiet Any (rename_active m.archive) Any-Before rename-After)
                    λ _. bind_rule (call_rule quiet Any gone) λ _.
                      bind_rule (call_rule quiet Any gone) λ _.
                        restate_rule quiet Any (λ p h. h) (restarted (λ o. o ≡ none) none-IsRestart)
                          (call_rule quiet Any gone)

  recheck_archive_rule :
      (already_checked : Bool)
      → Triple
          (At quiet (After IsRestart))
          (recheck_archive proof already_checked m)
          (λ _. At quiet (After IsRestart))
          (Fails quiet Any proof e)
  unfolding recheck_archive
  recheck_archive_rule true = pure_rule tt
  recheck_archive_rule false =
      eligible_rule quiet Any proof e (archive_of m.archive) (Any-After IsRestart (λ o h. h))
        (archive_of-After IsRestart) good.is_private good.valid good.settled good.proved

  finish_archived_rule :
      (already_checked : Bool) (ids : String × String)
      → Triple
          (At quiet (After IsRestart))
          (finish_archived proof already_checked ids m)
          (λ _. At quiet (IsEnded quiet old e m))
          (Fails quiet Any proof e)
  unfolding finish_archived
  finish_archived_rule already_checked ids =
      bind_rule
        (marked_directory_rule quiet Any proof e (archive_of m.archive) m
          (Any-After IsRestart (λ o h. h)) (archive_of-After IsRestart) good.is_private good.marked)
        λ a. assume_rule λ _. bind_rule (recheck_archive_rule already_checked) λ _.
          restart_rule quiet Any old e m (Any-After IsRestart (λ o h. h)) (λ p h. inl (inr h))
            (ended-IsResumed quiet old e m) ids

  archive_of-Before : (p : Parent) → Before p → archive_of m.archive p ≡ none
  archive_of-Before p h = subst (λ a. map_get m.archive a ≡ none) (sym h.archives) good.free

  -- `finish` from before the rename.
  pub finish_rule :
      (already_checked : Bool) (ids : String × String)
      → Triple
          (At quiet Before)
          (finish b proof already_checked ids m)
          (λ _. At quiet (IsEnded quiet old e m))
          (Fails quiet Any proof e)
  unfolding finish archive_if
  finish_rule already_checked ids =
      bind_rule
        (look_rule quiet Any (λ t. t ≡ false) (λ p. is_there (archive_of m.archive p)) Any-Before
          (λ p h. ap is_there (archive_of-Before p h)))
        λ archived. assume_rule λ same.
          bind_rule
            (subst
              (λ t.
                Triple (At quiet Before) (archive_if b proof already_checked m t)
                  (λ _. At quiet (After IsRestart)) (Fails quiet Any proof e))
              (sym same) (archive_active_rule already_checked))
            λ _. finish_archived_rule already_checked ids

  -- `finish` from after it.
  pub refinish_rule :
      (already_checked : Bool) (ids : String × String)
      → Triple
          (At quiet (After IsRestart))
          (finish b proof already_checked ids m)
          (λ _. At quiet (IsEnded quiet old e m))
          (Fails quiet Any proof e)
  unfolding finish archive_if
  refinish_rule already_checked ids =
      bind_rule
        (look_rule quiet Any (λ t. t ≡ true) (λ p. is_there (archive_of m.archive p))
          (Any-After IsRestart (λ o h. h)) (λ p h. ap is_there (archive_of-After IsRestart p h)))
        λ archived. assume_rule λ same.
          bind_rule
            (subst
              (λ t.
                Triple (At quiet (After IsRestart)) (archive_if b proof already_checked m t)
                  (λ _. At quiet (After IsRestart)) (Fails quiet Any proof e))
              (sym same) (pure_rule tt))
            λ _. finish_archived_rule already_checked ids
