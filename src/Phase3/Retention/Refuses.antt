-- ===== src/Phase3/Retention/Refuses.antt =====
-- phase3/retention.ts: `rotate` archives only an epoch whose evidence it tested.
use ha_mcp.Prelude.{
  ◌≡◌, refl, sym, subst, ◌⊎◌, inl, inr, String, Bool, true, false, not, ◌&&◌, some, List, [], ◌∷◌,
  includes, string_eq, Bool-cases,
}
use ha_mcp.Phase3.Coordinator.Recover.{RecoveryResult}
use ha_mcp.Phase3.Effects.{Outcome, done, thrown, M}
use ha_mcp.Phase3.Effects.Triples.{
  Post, Triple, bind_rule, assume_rule, finally_rule, frame_rule, weaken,
}
use ha_mcp.Phase3.Retention.Epochs.{Evidence, Epoch, is_valid_epoch, are_proved, is_settled_epoch}
use ha_mcp.Phase3.Retention.Disk.{
  Parent, World, call, require, look, then_read, is_known_parent, parent_names,
}
use ha_mcp.Phase3.Retention.Rotation.{
  Budgets, active_of, private_epoch, directory, parent_entries, check_eligible, eligible,
}
use ha_mcp.Phase3.Retention.Operations.{
  set_busy, idle_again, take_turn, exclusive, rotate_now, rotate,
}

-- What `eligible` tests of an epoch.
pub record IsEligible (proof : Evidence → List RecoveryResult) (e : Epoch) : Type 0 where
  pub valid : is_valid_epoch e ≡ true
  pub settled : is_settled_epoch e.evidence ≡ true
  pub proved : are_proved e.evidence.records (proof e.evidence) ≡ true

-- The active epoch and the archives are as they were.
pub record IsUntouched (old : List (String × Epoch)) (e : Epoch) (p : Parent) : Type 0 where
  pub active : p.active ≡ some e
  pub archives : p.archives ≡ old

module _ {W A : Type 0} {F : Type 0} (f : F) where
  fact-Post : (r : Outcome A × W) → Post (λ _ _. F) (λ _ _. F) r
  fact-Post (done a, w) = f
  fact-Post (thrown x, w) = f

module _ (proof : Evidence → List RecoveryResult) (old : List (String × Epoch)) (e : Epoch) where
  abbrev Same : World → Type 0
  Same w = IsUntouched old e w.parent

  -- The parent is untouched, or the epoch was eligible.
  abbrev Safe : World → Type 0
  Safe w = Same w ⊎ IsEligible proof e

  Same-rule :
      {A : Type 0} {Q : A → World → Type 0} {m : M World A}
      → Triple Same m Q (λ _. Same)
      → Triple Same m Q (λ _. Safe)
  Same-rule t = weaken t (λ w h. h) (λ a w h. h) (λ x w h. inl h)

  call-Same : Triple Same call (λ _. Same) (λ _. Same)
  unfolding call
  call-Same = record { run = λ w h. next w.parent w.busy w.faults h }
    where
      next :
          (p : Parent) (busy : Bool) (faults : List Bool)
          → IsUntouched old e p
          → Post
              (λ _. Same)
              (λ _. Same)
              (call (record { parent = p; busy = busy; faults = faults }))
      next p busy [] h = h
      next p busy (false ∷ faults) h = h
      next p busy (true ∷ faults) h = h

  require-Same :
      (b : Bool) (message : String)
      → Triple Same (require b message) (λ _ w. Same w × (b ≡ true)) (λ _. Same)
  require-Same true message = record { run = λ w h. (h, refl) }
  require-Same false message = record { run = λ w h. h }

  read-Same :
      {A : Type 0} (Q : A → Type 0) (f : Parent → A) (r : Outcome (Unit {0}) × World)
      → ((p : Parent) → IsUntouched old e p → Q (f p))
      → Post (λ _. Same) (λ _. Same) r
      → Post (λ a w. Same w × Q a) (λ _. Same) (then_read f r)
  read-Same Q f (done u, w) step h = (h, step w.parent h)
  read-Same Q f (thrown x, w) step h = h

  look-Same :
      {A : Type 0} (Q : A → Type 0) (f : Parent → A)
      → ((p : Parent) → IsUntouched old e p → Q (f p))
      → Triple Same (look f) (λ a w. Same w × Q a) (λ _. Same)
  unfolding look
  look-Same Q f step = record { run = λ w h. read-Same Q f (call w) step (call-Same.run w h) }

  directory-Same : Triple Same (directory active_of) (λ a w. Same w × (a ≡ e)) (λ _. Same)
  unfolding directory
  directory-Same = bind_rule (look-Same (λ o. o ≡ some e) active_of (λ p h. h.active)) λ o.
      assume_rule λ same.
        subst (λ t. Triple Same (private_epoch t) (λ a w. Same w × (a ≡ e)) (λ _. Same)) (sym same)
          (bind_rule (require-Same e.is_private _) λ _. record { run = λ w h. (h.0, refl) })

  closing-Same :
      (o : Outcome (Unit {0})) (F : Type 0)
      → Triple
          (λ w. Post (λ _ w. Same w × F) (λ _. Same) (o, w))
          call
          (λ _ w. Post (λ _ w. Same w × F) (λ _. Same) (o, w))
          (λ _. Same)
  closing-Same (done u) F =
      weaken (frame_rule (λ f. call-Same)) (λ w h. h) (λ a w h. h) (λ x w h. h.0)
  closing-Same (thrown x) F = call-Same

  check_eligible-Same :
      Triple Same (check_eligible proof e) (λ _ w. Same w × IsEligible proof e) (λ _. Same)
  unfolding check_eligible
  check_eligible-Same = bind_rule (require-Same (is_valid_epoch e) _) λ _. assume_rule λ valid.
      bind_rule call-Same λ _.
        finally_rule
          (bind_rule call-Same λ _. bind_rule (require-Same (is_settled_epoch e.evidence) _) λ _.
            assume_rule λ settled. bind_rule call-Same λ _.
              weaken (require-Same (are_proved e.evidence.records (proof e.evidence)) _) (λ w h. h)
                (λ a w h. (h.0, record { valid = valid; settled = settled; proved = h.1 }))
                (λ x w h. h))
          (λ o. closing-Same o (IsEligible proof e))

  eligible-Same :
      Triple Same (eligible active_of proof) (λ _ w. Same w × IsEligible proof e) (λ _. Same)
  unfolding eligible
  eligible-Same = bind_rule directory-Same λ a. assume_rule λ same.
      subst
        (λ x. Triple Same (check_eligible proof x) (λ _ w. Same w × IsEligible proof e) (λ _. Same))
        (sym same) check_eligible-Same

  parent_entries-Same : Triple Same parent_entries (λ _. Same) (λ _. Same)
  unfolding parent_entries
  parent_entries-Same = bind_rule call-Same λ _.
      bind_rule (look-Same (λ t. Unit) is_known_parent (λ p h. tt)) λ t.
        bind_rule (weaken (require-Same t _) (λ w h. h.0) (λ a w h. h.0) (λ x w h. h)) λ _.
          weaken (look-Same (λ t. Unit) parent_names (λ p h. tt)) (λ w h. h) (λ a w h. h.0)
            (λ x w h. h)

  rotate_now-Safe :
      (b : Budgets) (ids : String × String) (archive : String)
      → Triple Same (rotate_now b proof ids archive) (λ _. Safe) (λ _. Safe)
  unfolding rotate_now
  rotate_now-Safe b ids archive = bind_rule (Same-rule parent_entries-Same) λ names.
      bind_rule
        (Same-rule (
          weaken (require-Same (not (includes names "rotation.json") && includes names "active") _)
            (λ w h. h) (λ a w h. h.0) (λ x w h. h)))
        λ _. bind_rule (Same-rule eligible-Same) λ _. assume_rule λ tested.
          weaken {P = λ w. Unit {0}} (record { run = λ w h. fact-Post tested _ }) (λ w h. tt)
            (λ a w h. inr h) (λ x w h. inr h)

  idle-Safe :
      (o : Outcome (Unit {0}))
      → Triple
          (λ w. Post (λ _. Safe) (λ _. Safe) (o, w))
          idle_again
          (λ _ w. Post (λ _. Safe) (λ _. Safe) (o, w))
          (λ _. Safe)
  idle-Safe (done u) = record { run = λ w h. kept w h }
    where
      kept : (w : World) → Safe w → Safe (set_busy false w)
      kept w (inl h) = inl (record { active = h.active; archives = h.archives })
      kept w (inr f) = inr f
  idle-Safe (thrown x) = record { run = λ w h. kept w h }
    where
      kept : (w : World) → Safe w → Safe (set_busy false w)
      kept w (inl h) = inl (record { active = h.active; archives = h.archives })
      kept w (inr f) = inr f

  Safe-Post : {A : Type 0} (r : Outcome A × World) → Post (λ _. Safe) (λ _. Safe) r → Safe r.1
  Safe-Post (done a, w) h = h
  Safe-Post (thrown x, w) h = h

  turn-Safe :
      (action : M World (Unit {0})) (w : World)
      → Triple Same action (λ _. Safe) (λ _. Safe)
      → Same w
      → Safe (take_turn action w).1
  turn-Safe action w rule h = Safe-Post (take_turn action w) (
      (finally_rule {P = Same} (bind_rule (Same-rule call-Same) λ _. rule) idle-Safe).run
        (set_busy true w) (record { active = h.active; archives = h.archives }))

  exclusive-Safe :
      (action : M World (Unit {0})) (w : World)
      → Triple Same action (λ _. Safe) (λ _. Safe)
      → Same w
      → Safe (exclusive action w).1
  exclusive-Safe action w rule h = elim (Bool-cases w.busy) [
    | inl busy ↦ rw busy (inl h)
    | inr idle ↦ rw idle (turn-Safe action w rule h)
  ]

-- Whatever the parent directory holds and whichever calls fail, after `rotate` the active epoch and
-- the archives are as they were, or the epoch had passed every test: its directory was complete, its
-- journal held at most one transaction, automatically terminal and bound to its checkpoint and grant,
-- no approval was live, and the live proof agreed with the record.
pub rotate-IsEligible :
    (b : Budgets) (proof : Evidence → List RecoveryResult) (old : List (String × Epoch)) (e : Epoch)
    (ids : String × String) (archive : String) (w : World)
    → IsUntouched old e w.parent
    → IsUntouched old e (rotate b proof ids archive w).1.parent ⊎ IsEligible proof e
unfolding rotate
rotate-IsEligible b proof old e ids archive w h =
    exclusive-Safe proof old e (rotate_now b proof ids archive) w
      (rotate_now-Safe proof old e b ids archive) h
