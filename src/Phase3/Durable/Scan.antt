-- ===== src/Phase3/Durable/Scan.antt =====
-- phase3/journal.ts: `scan` of the directory, and the envelope of a record.
pub mod Envelope
pub mod Sound
use ha_mcp.Prelude.{
  ℕ, suc, ◌+◌, String, Bool, true, false, not, ◌&&◌, ◌||◌, Option, none, some, List, [], ◌∷◌,
  nat_beq, leb, ltb, Comparable, ◌==◌, string_eq, length, if◌then◌else◌,
}
use ha_mcp.Prelude.Results.{Result, ok, err, ◌>>=◌, ◌>>◌, guard}
use ha_mcp.Phase3.Records.{TransactionRecord}
use ha_mcp.Phase3.Records.Schema.{Formats, transaction_record_is_valid}
use ha_mcp.Phase3.Paths.{units, is_sha256}
use ha_mcp.Phase3.Names.{is_pending_name, parse_final_name}
use ha_mcp.Phase3.Durable.Limits.{
  pending_entries, final_entries, record_bytes, aggregate_bytes, scan_entries,
}
use ha_mcp.Phase3.Durable.Faults.{R, Failure, platform, unhealthy, normalizing}
use ha_mcp.Phase3.Durable.Histories.{History, build_histories}

-- What the envelope takes from the platform and from zod: the encoding of texts, JSON, the shape of
-- an envelope, and the digest. `core_json` and `envelope_json` are `canonicalJson` of the envelope
-- without and with its digest.
pub record Codec : Type 1 where
  pub Bytes : Type 0
  pub Json : Type 0
  pub size : Bytes → ℕ
  pub encode : String → Bytes
  pub decode : Bytes → Option String
  pub parse : String → Option Json
  pub is_version_one : Json → Bool
  pub envelope : Json → Option (TransactionRecord × String)
  pub core_json : TransactionRecord → String
  pub envelope_json : TransactionRecord → String → String
  pub sha256 : String → String

-- What `lstat` says of a path.
pub record Metadata : Type 0 where
  pub is_file : Bool
  pub is_directory : Bool
  pub nlink : ℕ
  pub dev : ℕ
  pub ino : ℕ
  pub size : ℕ
  pub is_private : Bool
  pub is_owned : Bool

-- A name of the directory and what is found there: nothing any more, a directory with its sorted
-- children and the metadata of its record.json, or a file with its bytes. `is_stable` says that the
-- file is the same at each look that `readRecord` takes.
pub record Item (Bytes : Type 0) : Type 0 where
  pub name : List ℕ
  pub is_gone : Bool
  pub metadata : Metadata
  pub children : List (List ℕ)
  pub child : Metadata
  pub is_stable : Bool
  pub bytes : Bytes

-- `assertDirectory`.
unfoldable pub assert_directory : Metadata → R (Unit {0})
assert_directory m =
    guard (m.is_directory && leb 1 m.nlink && m.is_private && m.is_owned)
      (unhealthy "Phase 3 journal directory is unsafe")

-- `assertFile`, with linked files allowed.
unfoldable pub assert_file : Metadata → R (Unit {0})
assert_file m =
    guard (m.is_file && (nat_beq m.nlink 1 || nat_beq m.nlink 2) && m.is_private && m.is_owned)
      (unhealthy "Phase 3 journal record file is unsafe")

abbrev pub present : {A : Type 0} → Failure → Option A → R A
present e none = err e
present e (some a) = ok a

abbrev pub units_beq : List ℕ → List ℕ → Bool
units_beq [] [] = true
units_beq (c ∷ cs) (d ∷ ds) = nat_beq c d && units_beq cs ds
units_beq _ _ = false

-- The children of a pending directory.
unfoldable pub validate_children : List (List ℕ) → Metadata → R (Option Metadata)
validate_children [] child = ok none
validate_children (name ∷ []) child = do
  guard (units_beq name (units "record.json"))
      (unhealthy "Phase 3 journal pending entry is malformed")
  assert_file child
  guard (leb child.size record_bytes)
      (unhealthy "Phase 3 journal pending record exceeds size limit")
  ok (some child)
validate_children (name ∷ other ∷ names) child =
    err (unhealthy "Phase 3 journal pending entry is malformed")

module _ (codec : Codec) (formats : Formats) where
  open codec use {Bytes}

  -- `validatePending`.
  unfoldable pub validate_pending : Item Bytes → R (Option Metadata)
  validate_pending item =
      if item.is_gone
      then ok none
      else do assert_directory item.metadata; validate_children item.children item.child

  abbrev pub add_present : {A : Type 0} → Option A → List A → List A
  add_present none xs = xs
  add_present (some a) xs = a ∷ xs

  unfoldable pub validate_pendings : List (Item Bytes) → R (List Metadata)
  validate_pendings [] = ok []
  validate_pendings (item ∷ items) = do
    found ← validate_pending item
    others ← validate_pendings items
    ok (add_present found others)

  -- `journalEnvelope` as text, and its bytes.
  unfoldable pub journal_envelope : TransactionRecord → String
  journal_envelope r = codec.envelope_json r (codec.sha256 (codec.core_json r))

  unfoldable pub parse_envelope : Bytes → R TransactionRecord
  parse_envelope bytes = do
    text ← present platform (codec.decode bytes)
    value ← present (unhealthy "Phase 3 journal record is malformed") (codec.parse text)
    guard (not (codec.is_version_one value))
        (unhealthy "Phase 3 v1 journal entries are rejected without mutation")
    (r, digest) ←
        present (unhealthy "Phase 3 journal record is non-canonical") (codec.envelope value)
    guard
        (transaction_record_is_valid formats r
          && is_sha256 digest
          && codec.envelope_json r digest == text)
        (unhealthy "Phase 3 journal record is non-canonical")
    guard (codec.sha256 (codec.core_json r) == digest)
        (unhealthy "Phase 3 journal record digest mismatch")
    ok r

  abbrev pub is_same_file : Metadata → Metadata → Bool
  is_same_file a b = nat_beq a.dev b.dev && nat_beq a.ino b.ino

  abbrev pub count_same : Metadata → List Metadata → ℕ
  count_same m [] = 0
  count_same m (x ∷ xs) = let rest = count_same m xs in if is_same_file x m then suc rest else rest

  -- `readFinal`; the second part is the size of the file.
  unfoldable pub read_final : List Metadata → Item Bytes → R (TransactionRecord × ℕ)
  read_final pendings item = do
    guard (not item.is_gone) platform
    assert_file item.metadata
    guard (not (nat_beq item.metadata.nlink 2) || nat_beq (count_same item.metadata pendings) 1)
        (unhealthy "Phase 3 journal final hard link is unsafe")
    guard (leb item.metadata.size record_bytes)
        (unhealthy "Phase 3 journal record exceeds size limit")
    guard item.is_stable (unhealthy "Phase 3 journal record identity changed")
    r ← parse_envelope item.bytes
    ok (r, item.metadata.size)

  -- A final entry, after `count` others that took `bytes` bytes; the bytes with it.
  unfoldable pub read_named : List Metadata → ℕ → ℕ → Item Bytes → R (TransactionRecord × ℕ)
  read_named pendings count bytes item = do
    (id, version) ←
        present (unhealthy "Phase 3 journal contains unknown artifact") (parse_final_name item.name)
    guard (ltb count final_entries) (unhealthy "Phase 3 journal final entry limit exceeded")
    (r, size) ← read_final pendings item
    guard (leb (bytes + size) aggregate_bytes)
        (unhealthy "Phase 3 journal aggregate byte limit exceeded")
    guard (units_beq (units r.transaction_id) id && nat_beq r.version version)
        (unhealthy "Phase 3 journal history fork detected")
    ok (r, bytes + size)

  unfoldable pub read_finals :
      List Metadata → ℕ → ℕ → List (Item Bytes) → R (List TransactionRecord)
  read_finals pendings count bytes [] = ok []
  read_finals pendings count bytes (item ∷ items) =
      let skipped = read_finals pendings count bytes items in
      let taken = do
        (r, bytes') ← read_named pendings count bytes item
        rs ← read_finals pendings (suc count) bytes' items
        ok (r ∷ rs)
      in if is_pending_name item.name then skipped else taken

  abbrev pub pending_items : List (Item Bytes) → List (Item Bytes)
  pending_items [] = []
  pending_items (item ∷ items) =
      let rest = pending_items items in if is_pending_name item.name then item ∷ rest else rest

  -- `scan`, of a directory whose items are in the order of their names.
  unfoldable pub scan : List (Item Bytes) → R (List (String × History))
  scan items = do
    guard (leb (length items) scan_entries) (unhealthy "Phase 3 journal scan limit exceeded")
    guard (leb (length (pending_items items)) pending_entries)
        (unhealthy "Phase 3 journal pending entry limit exceeded")
    pendings ← validate_pendings (pending_items items)
    finals ← read_finals pendings 0 0 items
    build_histories finals
