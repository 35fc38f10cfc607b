-- ===== src/Phase3/Discipline/Manual.antt =====
-- phase3/applyCoordinator.ts: `manual`, under the contract of the ports.
use ha_mcp.Prelude.{
  ℕ, zero, suc, String, ◌≡◌, refl, ap, true, Option, none, some, List, ◌∷◌, ◌!=◌, string_eq,
}
use ha_mcp.Phase3.States.{TransactionState, is_terminal}
use ha_mcp.Phase3.Records.{CommitStatus, FailureStage, StructuredFailure, TransactionRecord}
use ha_mcp.Phase3.Effects.{Thrown, thrown, M}
use ha_mcp.Phase3.Effects.Triples.{
  Triple, bind_rule, pure_rule, throw_rule, catch_rule, if_rule, weaken,
}
use ha_mcp.Phase3.Faults.{error_code}
use ha_mcp.Phase3.Ports.{Ports, Patch}
use ha_mcp.Phase3.Coordinator.Manual.{
  same_transaction_identity, new_failure, retry, reconcile, manual_from, manual,
}
use ha_mcp.Phase3.Contract.{Contract, Holds, Keeps}

module _ (p : Ports) (k : Contract p) where
  open k use {Inv, Known}

  -- What holds when a method returns a record: the record is durable.
  abbrev pub Returned : List TransactionRecord → TransactionRecord → p.World → Type 0
  Returned rs r w = Holds Inv Known (r ∷ rs) w

  -- It is durable and its state is terminal.
  abbrev pub Settled : List TransactionRecord → TransactionRecord → p.World → Type 0
  Settled rs r w = Holds Inv Known (r ∷ rs) w × (is_terminal r.state ≡ true)

  -- From a durable `r` the method settles a record, or throws.
  abbrev pub Settles : TransactionRecord → M p.World TransactionRecord → Type 0
  Settles r m =
      (rs : List TransactionRecord)
      → Triple (Holds Inv Known (r ∷ rs)) m (Settled rs) (λ _. Holds Inv Known rs)

  pub drop_known :
      (rs : List TransactionRecord) (r : TransactionRecord) (w : p.World)
      → Holds Inv Known (r ∷ rs) w
      → Holds Inv Known rs w
  drop_known rs r w h = (h.0, h.1.1)

  pub throw_holds :
      {A : Type 0} (rs : List TransactionRecord) (r : TransactionRecord) (e : Thrown)
      (Q : A → p.World → Type 0)
      → Triple (Holds Inv Known (r ∷ rs)) (λ w. (thrown e, w)) Q (λ _. Holds Inv Known rs)
  throw_holds rs r e Q = weaken (throw_rule e) (drop_known rs r) (λ a w h. h) (λ x w h. h)

  -- A transition from `r` gives a durable record in the requested state in its place.
  pub transition-Triple :
      (rs : List TransactionRecord) (r : TransactionRecord) (id : String) (version : ℕ)
      (s : TransactionState) (patch : Patch)
      → Triple
          (Holds Inv Known (r ∷ rs))
          (p.transition id version s patch)
          (λ r' w. Holds Inv Known (r' ∷ rs) w × (r'.state ≡ s))
          (λ _. Holds Inv Known (r ∷ rs))
  transition-Triple rs r id version s patch =
      weaken (k.moved (r ∷ rs) id version s patch) (λ w h. h)
        (λ r' w h. ((h.0.0, (h.0.1.0, h.0.1.1.1)), h.1)) (λ e w h. h)

  pub new_failure-Keeps :
      (stage : FailureStage) (code message : String) (status : Option CommitStatus)
      (observed : Option String)
      → Keeps Inv Known (new_failure p stage code message status observed)
  unfolding new_failure
  new_failure-Keeps stage code message status observed rs =
      bind_rule (k.now_kept rs) (λ time. pure_rule _)

  module _ (again : TransactionRecord → M p.World TransactionRecord)
      (settles : (r : TransactionRecord) → Settles r (again r)) where
    retry-Triple :
        (original current : TransactionRecord) (rs : List TransactionRecord)
        (found : Option TransactionRecord)
        → Triple
            (λ w.
              Holds Inv Known (current ∷ rs) w
              × ((r : TransactionRecord) → found ≡ some r → Known r w))
            (retry p again original found)
            (Settled rs)
            (λ _. Holds Inv Known rs)
    unfolding retry
    retry-Triple original current rs none =
        weaken (throw_rule _) (λ w h. drop_known rs current w h.0) (λ a w h. h) (λ e w h. h)
    retry-Triple original current rs (some latest) =
        if_rule (same_transaction_identity original latest)
          (λ same.
            weaken (settles latest rs) (λ w h. (h.0.0, (h.1 latest refl, h.0.1.1))) (λ a w h. h)
              (λ e w h. h))
          (λ other.
            weaken (throw_rule _) (λ w h. drop_known rs current w h.0) (λ a w h. h) (λ e w h. h))

    reconcile-Settles :
        (original current : TransactionRecord) (e : Thrown)
        → Settles current (reconcile p again original current e)
    unfolding reconcile
    reconcile-Settles original current e rs =
        if_rule (error_code e != "journal_cas_conflict") (λ other. throw_holds rs current e _)
          (λ lost.
            bind_rule
              (weaken (k.loaded (current ∷ rs) current.transaction_id) (λ w h. h) (λ a w h. h)
                (λ x w h. drop_known rs current w h))
              (retry-Triple original current rs))

  manual_from-Settles :
      (attempts : ℕ) (original : TransactionRecord) (failure : StructuredFailure)
      (current : TransactionRecord)
      → Settles current (manual_from p attempts original failure current)
  unfolding manual_from is_terminal
  manual_from-Settles zero original failure current rs = throw_holds rs current _ _
  manual_from-Settles (suc attempts) original failure current rs =
      if_rule (is_terminal current.state)
        (λ settled. weaken (pure_rule current) (λ w h. (h, settled)) (λ a w h. h) (λ e w h. h))
        (λ live.
          catch_rule
            (weaken (transition-Triple rs current _ _ _ _) (λ w h. h)
              (λ r w h. (h.0, ap is_terminal h.1)) (λ e w h. h))
            (λ e.
              reconcile-Settles _ (λ latest. manual_from-Settles attempts original failure latest)
                original current e rs))

  -- `manual` settles the record, whatever the failure is.
  pub manual-Settles :
      (r : TransactionRecord) (stage : FailureStage) (code message : String)
      (status : Option CommitStatus) (observed : Option String)
      → Settles r (manual p r stage code message status observed)
  unfolding manual
  manual-Settles r stage code message status observed rs =
      bind_rule
        (weaken (new_failure-Keeps stage code message status observed (r ∷ rs)) (λ w h. h)
          (λ a w h. h) (λ e w h. drop_known rs r w h))
        (λ failure. manual_from-Settles 4 r failure r rs)
