-- ===== src/Phase3/Traced.antt =====
-- phase3/contracts.ts, `phase3JournalContract.transitionOrdering`: the ports of the coordinator with
-- a log of what becomes durable and of what is done to the live system, newest first.
pub mod Rules
pub mod Ahead
use ha_mcp.Prelude.{String, ◌≡◌, ◌⊎◌, ◌++◌, List, [], ◌∷◌, Option, none, some}
use ha_mcp.Phase3.States.{intent_prepared, rollback_intent, reload_intent, rollback_reload_intent}
use ha_mcp.Phase3.Records.{TransactionRecord}
use ha_mcp.Phase3.Effects.{M, Outcome, done, thrown}
use ha_mcp.Phase3.Ports.{Ports, ReplaceInput}

pub data Event : Type 0 where
  -- The journal returned the record.
  durable : TransactionRecord → Event
  -- A replacement of the live file was asked for: its path, the digest that it expects to find, the
  -- digest of the new content.
  replaced : String → String → String → Event
  -- A reload for the path was asked for.
  reload_asked : String → Event

-- The event stands in the log.
pub data In (e : Event) : List Event → Type 0 where
  newest : {es : List Event} → In e (e ∷ es)
  older : {x : Event} {es : List Event} → In e es → In e (x ∷ es)

-- The record plans to replace the file: by its candidate from the intent, by its checkpoint from the
-- rollback intent.
pub data Plans (path expected content : String) (r : TransactionRecord) : Type 0 where
  plans_candidate :
      r.state ≡ intent_prepared
      → path ≡ r.path
      → expected ≡ r.expected_sha256
      → content ≡ r.candidate_sha256
      → Plans path expected content r
  plans_checkpoint :
      r.state ≡ rollback_intent
      → path ≡ r.path
      → expected ≡ r.candidate_sha256
      → content ≡ r.checkpoint_sha256
      → Plans path expected content r

-- What the earlier part of the log shows of an event.
pub data Foreseen (log : List Event) : Event → Type 0 where
  recorded : (r : TransactionRecord) → Foreseen log (durable r)
  planned :
      {path expected content : String} (r : TransactionRecord)
      → In (durable r) log
      → Plans path expected content r
      → Foreseen log (replaced path expected content)
  intended :
      {path : String} (r : TransactionRecord)
      → In (durable r) log
      → path ≡ r.path
      → (r.state ≡ reload_intent) ⊎ (r.state ≡ rollback_reload_intent)
      → Foreseen log (reload_asked path)

-- Each event was foreseen by what stood in the log before it.
pub data WriteAhead : List Event → Type 0 where
  start : WriteAhead []
  next : {e : Event} {log : List Event} → Foreseen log e → WriteAhead log → WriteAhead (e ∷ log)

-- A method of a port, with the log beside its world.
abbrev pub lift : {W A : Type 0} → M W A → M (W × List Event) A
lift m (w, log) = let (o, w') = m w in (o, (w', log))

-- With an event before it, whatever comes of it.
abbrev pub announce : {W A : Type 0} → Event → M W A → M (W × List Event) A
announce e m (w, log) = lift m (w, e ∷ log)

abbrev pub note_all : List TransactionRecord → List Event → List Event
note_all [] log = log
note_all (r ∷ rs) log = durable r ∷ note_all rs log

abbrev pub note_option : Option TransactionRecord → List Event → List Event
note_option none log = log
note_option (some r) log = durable r ∷ log

-- The result adds to the log.
abbrev pub noted :
    {W A : Type 0}
    → (A → List Event → List Event)
    → List Event
    → Outcome A × W
    → Outcome A × (W × List Event)
noted f log (done a, w) = (done a, (w, f a log))
noted f log (thrown e, w) = (thrown e, (w, log))

abbrev pub witness : {W A : Type 0} → (A → List Event → List Event) → M W A → M (W × List Event) A
witness f m (w, log) = noted f log (m w)

abbrev pub traced : Ports → Ports
traced p = record {
  World = p.World × List Event;
  Bytes = p.Bytes;
  Lease = p.Lease;
  formats = p.formats;
  sha256 = p.sha256;
  to_iso = p.to_iso;
  date_now = lift p.date_now;
  now = lift p.now;
  random_uuid = lift p.random_uuid;
  aborted = λ s. lift (p.aborted s);
  fresh_signal = lift p.fresh_signal;
  fill = λ b (w, log). (p.fill b w, log);
  load_proposal = λ id. lift (p.load_proposal id);
  load_candidate = λ id. lift (p.load_candidate id);
  evaluate = λ s c. lift (p.evaluate s c);
  consume_apply_grant = λ id s time signal. lift (p.consume_apply_grant id s time signal);
  acquire = λ path c. lift (p.acquire path c);
  acquire_recovery = λ c. lift (p.acquire_recovery c);
  release = λ l. lift (p.release l);
  read = λ path c. lift (p.read path c);
  read_digest = λ path. lift (p.read_digest path);
  validate = λ b v c. lift (p.validate b v c);
  create_checkpoint = λ path b sha c. lift (p.create_checkpoint path b sha c);
  load_checkpoint = λ id. lift (p.load_checkpoint id);
  replace = λ input c.
      announce (replaced input.path input.expected_sha256 (p.sha256 input.content))
        (p.replace input c);
  reload_domain = λ path target c. announce (reload_asked path) (p.reload_domain path target c);
  verify = λ r v c. lift (p.verify r v c);
  create_intent = λ r. witness (λ a log. durable a ∷ log) (p.create_intent r);
  transition =
      λ id version s patch. witness (λ a log. durable a ∷ log) (p.transition id version s patch);
  load_record = λ id. witness note_option (p.load_record id);
  list_recoverable = witness note_all p.list_recoverable;
}
