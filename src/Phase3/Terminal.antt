-- ===== src/Phase3/Terminal.antt =====
-- phase3/applyCoordinator.ts over a journal of which only the states of the records are known, and
-- any other ports.
use ha_mcp.Prelude.{String, ℕ, ◌≡◌, subst, true, List, [], ◌∷◌, All, string_eq}
use ha_mcp.Phase3.States.{TransactionState, is_terminal}
use ha_mcp.Phase3.Records.{TransactionRecord}
use ha_mcp.Phase3.Effects.{M, Outcome, Thrown, done, thrown}
use ha_mcp.Phase3.Effects.Triples.{Post, Triple, weaken}
use ha_mcp.Phase3.Ports.{Ports, OperationContext, Patch}
use ha_mcp.Phase3.Coordinator.Recover.{RecoveryResult, recover}
use ha_mcp.Phase3.Coordinator.Apply.{apply}
use ha_mcp.Phase3.Intent.{Intents, prepare-Triple}
use ha_mcp.Phase3.Contract.{Contract, Holds, Keeps}
use ha_mcp.Phase3.Discipline.Apply.{apply-Begins}
use ha_mcp.Phase3.Discipline.Manual.{Settled}
use ha_mcp.Phase3.Discipline.Recover.{IsSettledResult, recover-Triple}

-- What the coordinator needs of the journal: an intent comes back as it was given, and a transition
-- returns a record in the requested state.
pub record JournalLaws (p : Ports) : Type 0 where
  pub created :
      (r : TransactionRecord)
      → Triple (λ _. Unit {0}) (p.create_intent r) (λ r' _. r' ≡ r) (λ _ _. Unit {0})
  pub moved :
      (id : String) (version : ℕ) (s : TransactionState) (patch : Patch)
      → Triple
          (λ _. Unit {0})
          (p.transition id version s patch)
          (λ r _. r.state ≡ s)
          (λ _ _. Unit {0})

module _ {W : Type 0} where
  abbrev pub Anything : W → Type 0
  Anything w = Unit {0}

  abbrev pub Any : TransactionRecord → W → Type 0
  Any r w = Unit {0}

  All-Any : (rs : List TransactionRecord) (w : W) → All (λ r. Any r w) rs
  All-Any [] w = tt
  All-Any (r ∷ rs) w = (tt, All-Any rs w)

  always-Post :
      {A : Type 0} (rs : List TransactionRecord) (x : Outcome A × W)
      → Post (λ _. Holds Anything Any rs) (λ _. Holds Anything Any rs) x
  always-Post rs (done a, w) = (tt, All-Any rs w)
  always-Post rs (thrown e, w) = (tt, All-Any rs w)

  always : {A : Type 0} (m : M W A) → Keeps Anything Any m
  always m rs = record { run = λ w h. always-Post rs (m w) }

module _ (p : Ports) (laws : JournalLaws p) where
  open p use {World}

  intents : Intents p Anything Any
  intents = record {
    now_kept = always p.now;
    random_uuid_kept = always p.random_uuid;
    validate_kept = λ b v c. always (p.validate b v c);
    consume_kept = λ id s time signal. always (p.consume_apply_grant id s time signal);
    checkpoint_kept = λ path b sha c. always (p.create_checkpoint path b sha c);
    created = λ r rs.
        weaken (laws.created r) (λ w h. tt) (λ r' w e. ((tt, All-Any (r' ∷ rs) w), e))
          (λ e w h. (tt, All-Any rs w));
  }

  any_contract : Contract p
  any_contract = record {
    Inv = Anything;
    Known = Any;
    fill_kept = λ rs b w h. h;
    now_kept = always p.now;
    date_now_kept = always p.date_now;
    fresh_signal_kept = always p.fresh_signal;
    aborted_kept = λ s. always (p.aborted s);
    load_proposal_kept = λ id. always (p.load_proposal id);
    load_candidate_kept = λ id. always (p.load_candidate id);
    evaluate_kept = λ s c. always (p.evaluate s c);
    acquire_kept = λ path c. always (p.acquire path c);
    acquire_recovery_kept = λ c. always (p.acquire_recovery c);
    release_kept = λ l. always (p.release l);
    read_kept = λ path c. always (p.read path c);
    read_digest_kept = λ path. always (p.read_digest path);
    validate_kept = λ b v c. always (p.validate b v c);
    load_checkpoint_kept = λ id. always (p.load_checkpoint id);
    verify_kept = λ r v c. always (p.verify r v c);
    prepared = λ grant_id path proposal source content c rs.
        prepare-Triple p Anything Any intents rs grant_id path proposal source content c;
    moved = λ rs id version s patch.
        weaken (laws.moved id version s patch) (λ w h. tt) (λ r w h. ((tt, All-Any (r ∷ rs) w), h))
          (λ e w h. (tt, All-Any rs w));
    loaded = λ rs id.
        weaken (always (p.load_record id) rs) (λ w h. h) (λ o w h. (h, λ r e. tt)) (λ e w h. h);
    listed = λ rs.
        weaken (always p.list_recoverable rs) (λ w h. h) (λ found w h. (h, All-Any found w))
          (λ e w h. h);
    applied = λ r content c rs e same. always (p.replace _ c) (r ∷ rs);
    restored = λ r content c rs e same. always (p.replace _ c) (r ∷ rs);
    reloaded = λ r target c rs e. always (p.reload_domain r.path target c) (r ∷ rs);
  }

  returned :
      {A : Type 0} (Q : A → World → Type 0) (E : Thrown → World → Type 0) (x : Outcome A × World)
      {a : A} {w : World}
      → Post Q E x
      → x ≡ (done a, w)
      → Q a w
  returned Q E x h e = subst (λ y. Post Q E y) e h

  -- Over a journal that returns an intent as it was given and a transition in the state asked for,
  -- and whatever every other port does, `apply` returns only records in a terminal state.
  pub apply-is_terminal :
      (proposal_id grant_id : String) (c : OperationContext) (w w' : World) (r : TransactionRecord)
      → apply p proposal_id grant_id c w ≡ (done r, w')
      → is_terminal r.state ≡ true
  unfolding any_contract
  apply-is_terminal proposal_id grant_id c w w' r e =
      (returned (Settled p any_contract []) (λ _. Holds Anything Any []) _
        ((apply-Begins p any_contract proposal_id grant_id c []).run w (tt, tt)) e).1

  -- Over such a journal and any other ports, if `recover` returns, each of its results names a
  -- terminal state, is "verified" only of `verification_succeeded` and "rolled_back" only of
  -- `rollback_verification_succeeded`, and needs attention if it requires manual attention.
  pub recover-IsSettledResult :
      (w w' : World) (results : List RecoveryResult)
      → recover p w ≡ (done results, w')
      → All IsSettledResult results
  unfolding any_contract
  recover-IsSettledResult w w' results e =
      (returned (λ xs _. Unit {0} × All IsSettledResult xs) (λ _ _. Unit {0}) _
        ((recover-Triple p any_contract).run w tt) e).1
