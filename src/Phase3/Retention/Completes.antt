-- ===== src/Phase3/Retention/Completes.antt =====
-- phase3/retention.ts: `rotate` and `resume` as a whole, whichever calls fail.
use ha_mcp.Prelude.{
  ◌≡◌, refl, sym, ◌∙◌, subst, inl, inr, String, Bool, true, false, some, List, [], ◌∷◌, arith,
  string_eq,
}
use ha_mcp.Phase3.Coordinator.Recover.{RecoveryResult}
use ha_mcp.Phase3.Effects.{Outcome, done, thrown, M, ◌>>=◌}
use ha_mcp.Phase3.Effects.Triples.{Post, Triple, bind_rule, assume_rule, finally_rule}
use ha_mcp.Phase3.Retention.Epochs.{Evidence, Epoch}
use ha_mcp.Phase3.Retention.Disk.{Marker, whole, Parent, World, is_known_parent, is_archive_name}
use ha_mcp.Phase3.Retention.Rotation.{Budgets, finish}
use ha_mcp.Phase3.Retention.Operations.{set_busy, idle_again, exclusive, parsed_marker, resume_now}
use ha_mcp.Phase3.Retention.Rules.{At, Broken, call_rule, look_rule, require_rule}
use ha_mcp.Phase3.Retention.Shapes.{IsArchivable, IsRotated, IsEnded, IsResumed}
use ha_mcp.Phase3.Retention.Checks.{parent_entries_rule}

-- Whether a list is empty.
abbrev pub is_nil : List Bool → Bool
is_nil [] = true
is_nil (x ∷ xs) = false

pub is_nil-true : (xs : List Bool) → is_nil xs ≡ true → xs ≡ []
is_nil-true [] h = refl
is_nil-true (x ∷ xs) h = ground arith

module _ (quiet : Bool) (Any : Parent → Type 0) where
  idle_rule :
      (T : Parent → Type 0) (o : Outcome (Unit {0}))
      → Triple
          (λ w. Post (λ _. At quiet T) (λ _. Broken quiet Any) (o, w))
          idle_again
          (λ _ w. Post (λ _. At quiet T) (λ _. Broken quiet Any) (o, w))
          (λ _. Broken quiet Any)
  idle_rule T (done u) = record { run = λ w h. record { holds = h.holds; calm = h.calm } }
  idle_rule T (thrown x) = record { run = λ w h. record { holds = h.holds; loud = h.loud } }

  pub exclusive-Post :
      {S T : Parent → Type 0} (action : M World (Unit {0})) (w : World)
      → ((p : Parent) → S p → Any p)
      → Triple (At quiet S) action (λ _. At quiet T) (λ _. Broken quiet Any)
      → w.busy ≡ false
      → At quiet S w
      → Post (λ _. At quiet T) (λ _. Broken quiet Any) (exclusive action w)
  exclusive-Post {S} {T} action w any rule idle h = rw idle (
      (finally_rule {P = At quiet S} (bind_rule (call_rule quiet Any any) λ _. rule)
          (idle_rule T)).run
        (set_busy true w) (record { holds = h.holds; calm = h.calm }))

  -- What a `Post` says of the parent that is left, and of a quiet run.
  pub Post-outcome :
      {T : Parent → Type 0} (r : Outcome (Unit {0}) × World)
      → ((p : Parent) → T p → Any p)
      → Post (λ _. At quiet T) (λ _. Broken quiet Any) r
      → Any r.1.parent × (quiet ≡ true → (r.0 ≡ done tt) × T r.1.parent)
  Post-outcome (done u, w) any h = (any w.parent h.holds, λ q. (refl, h.holds))
  Post-outcome (thrown x, w) any h = (h.holds, λ q. absurd (true_ne_false (sym q ∙ h.loud)))
    where
      true_ne_false : true ≡ false → ⊥
      true_ne_false e = ground (arith, e)

module _ (quiet : Bool) (Any T : Parent → Type 0) (b : Budgets)
    (proof : Evidence → List RecoveryResult) (old : List (String × Epoch)) (e : Epoch) (m : Marker)
    (good : IsArchivable b proof old e m) where
  -- What `resume` reads before `finish`.
  pub resume_rule :
      {S : Parent → Type 0} (ids : String × String)
      → ((p : Parent) → S p → Any p)
      → ((p : Parent) → S p → is_known_parent p ≡ true)
      → ((p : Parent) → S p → p.marker ≡ some (whole m))
      → Triple (At quiet S) (finish b proof false ids m) (λ _. At quiet T) (λ _. Broken quiet Any)
      → Triple (At quiet S) (resume_now b proof ids) (λ _. At quiet T) (λ _. Broken quiet Any)
  unfolding resume_now
  resume_rule {S} ids any known marked finishing =
      bind_rule (parent_entries_rule quiet Any proof e (λ names. Unit) any known (λ p h. tt))
        λ names. assume_rule λ _.
          bind_rule (look_rule quiet Any (λ o. o ≡ some (whole m)) (λ p. p.marker) any marked)
            λ found. assume_rule λ same.
              subst
                (λ o.
                  Triple (At quiet S) (parsed_marker o >>= λ t. finish b proof false ids t)
                    (λ _. At quiet T) (λ _. Broken quiet Any))
                (sym same)
                (bind_rule {Q = λ t w. At quiet S w × (t ≡ m)}
                  (bind_rule (require_rule quiet Any (is_archive_name m.archive) _ good.named)
                    λ _. record { run = λ w h. (h, refl) })
                  λ t. assume_rule λ eq.
                    subst
                      (λ x.
                        Triple (At quiet S) (finish b proof false ids x) (λ _. At quiet T)
                          (λ _. Broken quiet Any))
                      (sym eq) finishing)

module _ (quiet : Bool) (b : Budgets) (proof : Evidence → List RecoveryResult)
    (old : List (String × Epoch)) (e : Epoch) (m : Marker)
    (good : IsArchivable b proof old e m) where
  abbrev Any : Parent → Type 0
  Any = IsResumed old e m

pub quiet-IsRotated :
    (quiet : Bool) (old : List (String × Epoch)) (e : Epoch) (m : Marker) (p : Parent)
    → quiet ≡ true
    → IsEnded quiet old e m p
    → IsRotated old e m p
quiet-IsRotated quiet old e m p q (inl h) = h
quiet-IsRotated quiet old e m p q (inr (h, loud)) = absurd (ground (arith, q, loud))
