-- ===== src/Phase3/Retention/Epochs.antt =====
-- phase3/retention.ts: an epoch's directory as the calls of the file system and the three stores show
-- it, and the tests of `eligible`, `bindings`, `validateEpoch` and `validateFreshActive`.
use ha_mcp.Prelude.{
  ℕ, String, Bool, true, false, not, ◌&&◌, ◌||◌, Option, none, some, List, [], ◌∷◌, ◌==◌, string_eq,
  option_eq, nat_eq, nat_beq, leb, length, every, includes, map_get, if◌then◌else◌,
}
use ha_mcp.Phase3.States.{
  verification_succeeded, rollback_verification_succeeded, state_beq, state_eq,
}
use ha_mcp.Phase3.Records.{TransactionRecord}
use ha_mcp.Phase3.Coordinator.Recover.{
  RecoveryResult, DigestClass, candidate, expected_or_checkpoint, Disposition, verified,
  rolled_back,
}

-- An entry of an epoch's directory: whether `metadata` accepts it, whether it is a directory, and its
-- children.
pub record Entry : Type 0 where
  pub is_private : Bool
  pub is_directory : Bool
  pub children : List String

-- What the stores of an epoch answer.
pub record Evidence : Type 0 where
  -- `journal.listRecoverable()`
  pub records : List TransactionRecord
  -- `approvals.retentionSummary()`
  pub live_unused : ℕ
  -- the digest of what `checkpoints.load` returns; `none` where it throws
  pub checkpoint_sha256 : String → Option String
  -- whether `approvals.assertConsumedGrant` accepts the grant of a record
  pub is_consumed : TransactionRecord → Bool
  -- whether `header.json` and `operator.jsonl` are valid
  pub has_valid_header : Bool
  pub has_valid_audit : Bool
  -- the bytes that `treeBytes` adds up
  pub tree_bytes : ℕ

pub record Epoch : Type 0 where
  pub device : String
  pub inode : String
  pub is_private : Bool
  pub entries : List (String × Entry)
  pub evidence : Evidence

-- `storeNames`.
abbrev pub store_names : List String
store_names = "journal" ∷ "checkpoints" ∷ "approvals" ∷ []

unfoldable pub names_of : List (String × Entry) → List String
names_of [] = []
names_of ((name, e) ∷ entries) = name ∷ names_of entries

abbrev pub is_store_directory : Option Entry → Bool
is_store_directory none = false
is_store_directory (some e) = e.is_private && e.is_directory

-- `validateEpoch`.
unfoldable pub is_valid_epoch : Epoch → Bool
is_valid_epoch e =
    e.is_private
    && every (λ name. includes (names_of e.entries) name) store_names
    && every (λ name. includes store_names name || name == "operator.jsonl") (names_of e.entries)
    && every (λ name. is_store_directory (map_get name e.entries)) store_names
    && e.evidence.has_valid_header
    && (not (includes (names_of e.entries) "operator.jsonl") || e.evidence.has_valid_audit)

-- The children that a store of a fresh epoch may have.
unfoldable pub is_fresh_store : String → List String → Bool
is_fresh_store name [] = true
is_fresh_store name (child ∷ []) = name == "approvals" && child == "header.json"
is_fresh_store name (child ∷ more ∷ children) = false

unfoldable pub is_fresh_entry : String × Entry → Bool
is_fresh_entry (name, e) =
    includes store_names name && e.is_private && e.is_directory && is_fresh_store name e.children

-- `validateFreshActive`.
unfoldable pub is_fresh : Epoch → Bool
is_fresh e = e.is_private && every is_fresh_entry e.entries

-- `bindings` of one record.
unfoldable pub is_bound : Evidence → TransactionRecord → Bool
is_bound v r =
    checkpoint_is_bound (v.checkpoint_sha256 r.checkpoint_id) && grant_is_bound r.approval_grant_id
  where
    checkpoint_is_bound : Option String → Bool
    checkpoint_is_bound none = false
    checkpoint_is_bound (some digest) = digest == r.checkpoint_sha256 && digest == r.expected_sha256

    grant_is_bound : Option String → Bool
    grant_is_bound none = true
    grant_is_bound (some id) = v.is_consumed r

unfoldable pub are_bound : Evidence → Bool
are_bound v = every (is_bound v) v.records

-- The states that may be archived.
unfoldable pub is_automatic_end : TransactionRecord → Bool
is_automatic_end r =
    state_beq r.state verification_succeeded || state_beq r.state rollback_verification_succeeded

abbrev pub digest_class_index : DigestClass → ℕ
digest_class_index expected_or_checkpoint = 0
digest_class_index candidate = 1
digest_class_index _ = 2

abbrev pub disposition_index : Disposition → ℕ
disposition_index verified = 0
disposition_index rolled_back = 1
disposition_index _ = 2

-- What the live proof must say of the sole record.
unfoldable pub is_proved : TransactionRecord → RecoveryResult → Bool
is_proved r proof =
    let succeeded = state_beq r.state verification_succeeded in
    proof.transaction_id == r.transaction_id
    && proof.transaction.transaction_id == r.transaction_id
    && nat_beq proof.transaction.version r.version
    && state_beq proof.transaction.state r.state
    && state_beq proof.terminal_state r.state
    && not proof.needs_attention
    && nat_beq (digest_class_index proof.observed_digest)
        (if proof.observed_sha256 == some r.candidate_sha256 then 1 else 0)
    && nat_beq (disposition_index proof.disposition) (if succeeded then 0 else 1)
    && proof.observed_sha256 == some (if succeeded then r.candidate_sha256 else r.checkpoint_sha256)

-- The records of an epoch against the results of the proof.
unfoldable pub are_proved : List TransactionRecord → List RecoveryResult → Bool
are_proved [] [] = true
are_proved (r ∷ []) (proof ∷ []) = is_proved r proof
are_proved _ _ = false

-- The tests of `eligible` before the proof is asked.
unfoldable pub is_settled_epoch : Evidence → Bool
is_settled_epoch v =
    leb (length v.records) 1
    && every is_automatic_end v.records
    && nat_beq v.live_unused 0
    && are_bound v
