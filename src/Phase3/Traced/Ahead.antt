-- ===== src/Phase3/Traced/Ahead.antt =====
-- phase3/applyCoordinator.ts over traced ports: the order of durable records and live changes.
use ha_mcp.Prelude.{String, ◌≡◌, refl, sym, List, [], ◌∷◌}
use ha_mcp.Phase3.Effects.{Outcome, done, thrown}
use ha_mcp.Phase3.Effects.Triples.{Post, weaken}
use ha_mcp.Phase3.Ports.{Ports, OperationContext}
use ha_mcp.Phase3.Coordinator.Apply.{apply}
use ha_mcp.Phase3.Coordinator.Recover.{recover}
use ha_mcp.Phase3.Contract.{Contract, candidate_input, restore_input}
use ha_mcp.Phase3.Intent.{Intents, prepare-Triple}
use ha_mcp.Phase3.Terminal.{JournalLaws}
use ha_mcp.Phase3.Discipline.Apply.{apply-Begins}
use ha_mcp.Phase3.Discipline.Recover.{recover-Triple}
use ha_mcp.Phase3.Traced.{
  Event, plans_candidate, plans_checkpoint, planned, intended, WriteAhead, start, traced,
}
use ha_mcp.Phase3.Traced.Rules.{
  Inv, Known, moved_on, lift-Keeps, announce-Triple, returned-Post, loaded-Post, listed-Post,
}

module _ (p : Ports) (laws : JournalLaws p) where
  open p use {World}

  traced_intents : Intents (traced p) Inv Known
  traced_intents = record {
    now_kept = lift-Keeps p.now;
    random_uuid_kept = lift-Keeps p.random_uuid;
    validate_kept = λ b v c. lift-Keeps (p.validate b v c);
    consume_kept = λ id s time signal. lift-Keeps (p.consume_apply_grant id s time signal);
    checkpoint_kept = λ path b sha c. lift-Keeps (p.create_checkpoint path b sha c);
    created = λ r rs. record {
      run = λ (w, log) h.
          returned-Post (λ r'. r' ≡ r) rs w log (p.create_intent r w) ((laws.created r).run w tt) h;
    };
  }

  write_ahead : Contract (traced p)
  write_ahead = record {
    Inv = Inv;
    Known = Known;
    fill_kept = λ rs b (w, log) h. moved_on rs w (p.fill b w) log h;
    now_kept = lift-Keeps p.now;
    date_now_kept = lift-Keeps p.date_now;
    fresh_signal_kept = lift-Keeps p.fresh_signal;
    aborted_kept = λ s. lift-Keeps (p.aborted s);
    load_proposal_kept = λ id. lift-Keeps (p.load_proposal id);
    load_candidate_kept = λ id. lift-Keeps (p.load_candidate id);
    evaluate_kept = λ s c. lift-Keeps (p.evaluate s c);
    acquire_kept = λ path c. lift-Keeps (p.acquire path c);
    acquire_recovery_kept = λ c. lift-Keeps (p.acquire_recovery c);
    release_kept = λ l. lift-Keeps (p.release l);
    read_kept = λ path c. lift-Keeps (p.read path c);
    read_digest_kept = λ path. lift-Keeps (p.read_digest path);
    validate_kept = λ b v c. lift-Keeps (p.validate b v c);
    load_checkpoint_kept = λ id. lift-Keeps (p.load_checkpoint id);
    verify_kept = λ r v c. lift-Keeps (p.verify r v c);
    prepared = λ grant_id path proposal source content c rs.
        prepare-Triple (traced p) Inv Known traced_intents rs grant_id path proposal source content
          c;
    moved = λ rs id version s patch. record {
      run = λ (w, log) h.
          returned-Post (λ r. r.state ≡ s) rs w log (p.transition id version s patch w)
            ((laws.moved id version s patch).run w tt) h;
    };
    loaded = λ rs id. record { run = λ (w, log) h. loaded-Post rs w log (p.load_record id w) h };
    listed = λ rs. record { run = λ (w, log) h. listed-Post rs w log (p.list_recoverable w) h };
    applied = λ r content c rs at same.
        announce-Triple _ (p.replace (candidate_input r content) c) (r ∷ rs)
          (λ w log h. planned r h.1.0 (plans_candidate at refl refl (sym same)));
    restored = λ r content c rs at same.
        announce-Triple _ (p.replace (restore_input r content) c) (r ∷ rs)
          (λ w log h. planned r h.1.0 (plans_checkpoint at refl refl (sym same)));
    reloaded = λ r target c rs at.
        announce-Triple _ (p.reload_domain r.path target c) (r ∷ rs)
          (λ w log h. intended r h.1.0 refl at);
  }

  kept_log :
      {A : Type 0} (Q : A → World × List Event → Type 0) (x : Outcome A × (World × List Event))
      → ((a : A) (v : World × List Event) → Q a v → Inv v)
      → Post Q (λ _. Inv) x
      → WriteAhead x.1.1
  kept_log Q (done a, v) f h = f a v h
  kept_log Q (thrown e, v) f h = h

  -- Over a journal that returns an intent as it was given and a transition in the state asked for, and
  -- whatever every other port does, `apply` writes ahead, whether it returns or throws: before the
  -- live file is replaced the journal has returned a record, in `intent_prepared` or
  -- `rollback_intent`, that names the path, the digest that is expected there and the digest of the
  -- new content; before a reload is asked for it has returned a record for the path in
  -- `reload_intent` or `rollback_reload_intent`.
  pub apply-WriteAhead :
      (proposal_id grant_id : String) (c : OperationContext) (w : World)
      → WriteAhead (apply (traced p) proposal_id grant_id c (w, [])).1.1
  unfolding write_ahead
  apply-WriteAhead proposal_id grant_id c w =
      kept_log _ (apply (traced p) proposal_id grant_id c (w, [])) (λ r v h. h.0.0)
        ((weaken (apply-Begins (traced p) write_ahead proposal_id grant_id c []) (λ w h. h)
            (λ r w h. h) (λ e w h. h.0)).run
          (w, []) (start, tt))

  -- Over such a journal and any other ports, `recover` writes ahead in the same sense, whether it
  -- returns or throws: the records that it lists or loads count as returned by the journal.
  pub recover-WriteAhead : (w : World) → WriteAhead (recover (traced p) (w, [])).1.1
  unfolding write_ahead
  recover-WriteAhead w =
      kept_log _ (recover (traced p) (w, [])) (λ r v h. h.0)
        ((recover-Triple (traced p) write_ahead).run (w, []) start)
