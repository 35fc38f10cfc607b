-- ===== src/Phase3/Durable/Scan/Envelope.antt =====
-- phase3/journal.ts: envelopes, as they are read.
use ha_mcp.Prelude.{Option-cases, inl, inr, ◌≡◌, true, some, arith, string_eq, beq→eq}
use ha_mcp.Prelude.Results.{ok}
use ha_mcp.Phase3.Records.{TransactionRecord}
use ha_mcp.Phase3.Records.Schema.{Formats, transaction_record_is_valid}
use ha_mcp.Phase3.Durable.Scan.{Codec, journal_envelope, parse_envelope}

module _ (codec : Codec) (formats : Formats) where
  -- Bytes that are accepted decode to the text of the envelope of the record that they are read as, with
  -- its own digest, and the record is valid.
  pub parse_envelope-exact :
      (bytes : codec.Bytes) (r : TransactionRecord)
      → parse_envelope codec formats bytes ≡ ok r
      → (codec.decode bytes ≡ some (journal_envelope codec formats r))
        × (transaction_record_is_valid formats r ≡ true)
  unfolding parse_envelope journal_envelope
  parse_envelope-exact bytes r h = elim (Option-cases (codec.decode bytes)) [
    | inl e ↦ absurd (ground arith)
    | inr (text, e) ↦ elim (Option-cases (codec.parse text)) [
      | inl f ↦ absurd (ground arith)
      | inr (value, f) ↦ elim (Option-cases (codec.envelope value)) [
        | inl g ↦ absurd (ground arith)
        | inr ((r', digest), g) ↦
            (let same = beq→eq (codec.envelope_json r' digest) text in
              let digests = beq→eq (codec.sha256 (codec.core_json r')) digest in ground arith)
      ]
    ]
  ]
