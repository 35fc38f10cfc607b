-- ===== src/Phase3/Tests/Sim.antt =====
-- A platform to run src/phase3 on: the journal of the source, one file and its checkpoint, a fixed
-- clock, and ports that let everything through. The digest of a content is the content.
use ha_mcp.Prelude.{ℕ, String, true, false, Option, none, some, [], ◌==◌, string_eq, if◌then◌else◌}
use ha_mcp.Phase3.Records.{committed, ProposalSnapshot, ApprovalGrant, low, no_impact, pending}
use ha_mcp.Phase3.Records.Schema.{Formats}
use ha_mcp.Phase3.Effects.{Outcome, done, pure}
use ha_mcp.Phase3.Ports.{Ports, allowed}
use ha_mcp.Phase3.Journal.{Journal, create_intent, transition, load_record, list_recoverable}

abbrev pub dates : String → Option ℕ
dates s =
    if s == "2026-01-01T00:00:00Z"
    then some 100
    else if s == "2026-01-02T00:00:00Z"
    then some 200
    else none

abbrev pub formats : Formats
formats = record { is_uuid = λ s. true; is_datetime = λ s. true; nfc = λ s. s; date_parse = dates }

abbrev pub old_text : String
old_text = "aaaaaaaaaaaaaaaaaaaaaaaaaaaaaaaaaaaaaaaaaaaaaaaaaaaaaaaaaaaaaaaa"

abbrev pub new_text : String
new_text = "bbbbbbbbbbbbbbbbbbbbbbbbbbbbbbbbbbbbbbbbbbbbbbbbbbbbbbbbbbbbbbbb"

abbrev pub the_proposal : ProposalSnapshot
the_proposal = record {
  proposal_id = "proposal";
  proposal_storage_sha256 = old_text;
  state = pending;
  path = "packages/lights.yaml";
  expected_sha256 = old_text;
  candidate_sha256 = new_text;
  diff_sha256 = old_text;
  risk = low;
  impact = no_impact;
  reload_target = none;
  expires_at = "2026-01-02T00:00:00Z";
}

abbrev pub the_grant : ApprovalGrant
the_grant = record {
  grant_id = "grant";
  proposal_id = "proposal";
  proposal_storage_sha256 = old_text;
  candidate_sha256 = new_text;
  diff_sha256 = old_text;
  operation = "apply";
  risk = low;
  impact = no_impact;
  reload_target = none;
  issued_at = "2026-01-01T00:00:00Z";
  expires_at = "2026-01-02T00:00:00Z";
}

pub record Sim : Type 0 where
  pub journal : Journal
  pub file : String
  pub saved : String

abbrev pub store : {A : Type 0} → Outcome A × Journal → Sim → Outcome A × Sim
store (o, journal) w = (o, record w { journal = journal })

abbrev pub sim : Ports
sim = record {
  World = Sim;
  Bytes = String;
  Lease = Unit {0};
  formats = formats;
  sha256 = λ b. b;
  to_iso = λ t. "2026-01-01T00:00:00Z";
  date_now = pure 150;
  now = pure 150;
  random_uuid = pure "transaction";
  aborted = λ signal. pure false;
  fresh_signal = pure 0;
  fill = λ b w. w;
  load_proposal = λ id. pure the_proposal;
  load_candidate = λ id. pure new_text;
  evaluate = λ s c. pure allowed;
  consume_apply_grant = λ id s time signal. pure the_grant;
  acquire = λ path c. pure tt;
  acquire_recovery = λ c. pure tt;
  release = λ l. pure tt;
  read = λ path c w. (done (w.file, w.file), w);
  read_digest = λ path w. (done (some w.file), w);
  validate = λ b v c. pure tt;
  create_checkpoint = λ path b sha c w. (
    done (record { checkpoint_id = "checkpoint"; checkpoint_sha256 = sha }),
    record w { saved = b },
  );
  load_checkpoint = λ id w. (done w.saved, w);
  replace = λ input c w. (done committed, record w { file = input.content });
  reload_domain = λ path target c. pure tt;
  verify = λ r v c. pure tt;
  create_intent = λ r w. store (create_intent formats r w.journal) w;
  transition = λ id version s patch w.
      store (transition formats "2026-01-01T00:00:00Z" id version s patch w.journal) w;
  load_record = λ id w. (done (load_record id w.journal), w);
  list_recoverable = λ w. (done (list_recoverable w.journal), w);
}

abbrev pub start : Sim
start = record { journal = []; file = old_text; saved = "" }
