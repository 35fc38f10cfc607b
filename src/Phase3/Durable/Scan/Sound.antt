-- ===== src/Phase3/Durable/Scan/Sound.antt =====
-- phase3/journal.ts: what `scan` accepts.
use ha_mcp.Prelude.{
  ℕ, suc, ◌+◌, ◌≤◌, List, [], ◌∷◌, ◌≡◌, subst, arith, length, inl, inr, Bool-cases,
}
use ha_mcp.Prelude.Results.{ok, Result-cases}
use ha_mcp.Phase3.Records.{TransactionRecord}
use ha_mcp.Phase3.Records.Schema.{Formats}
use ha_mcp.Phase3.Names.{is_pending_name}
use ha_mcp.Phase3.Durable.Limits.{final_entries}
use ha_mcp.Phase3.Durable.Histories.{Histories, count_entries}
use ha_mcp.Phase3.Durable.Histories.Sound.{IsSound, build_histories-IsSound}
use ha_mcp.Phase3.Durable.Scan.{
  Codec, Metadata, Item, read_named, read_finals, scan, validate_pendings, pending_items,
}

module _ (codec : Codec) (formats : Formats) where
  open codec use {Bytes}

  read_named-count :
      (pendings : List Metadata) (count bytes : ℕ) (item : Item Bytes)
      (found : TransactionRecord × ℕ)
      → read_named codec formats pendings count bytes item ≡ ok found
      → suc count ≤ final_entries
  unfolding read_named
  read_named-count pendings count bytes item found h = ground arith

  read_finals-bounded :
      (pendings : List Metadata) (count bytes : ℕ) (items : List (Item Bytes))
      (finals : List TransactionRecord)
      → count ≤ final_entries
      → read_finals codec formats pendings count bytes items ≡ ok finals
      → count + length finals ≤ final_entries
  unfolding read_finals
  read_finals-bounded pendings count bytes [] finals few h =
      let same : [] ≡ finals = ground arith in
      subst (λ xs. count + length xs ≤ final_entries) same (omega (arith, few))
  read_finals-bounded pendings count bytes (item ∷ items) finals few h =
      elim (Bool-cases (is_pending_name item.name)) [
        | inl pending ↦ read_finals-bounded pendings count bytes items finals few (ground arith)
        | inr final ↦ elim (Result-cases (read_named codec formats pendings count bytes item)) [
          | inr (e, failed) ↦ absurd (ground arith)
          | inl ((r, bytes'), read) ↦
              elim (Result-cases (read_finals codec formats pendings (suc count) bytes' items)) [
                | inr (e, failed) ↦ absurd (ground arith)
                | inl (others, rest) ↦
                    (let room = read_named-count pendings count bytes item (r, bytes') read in
                      let short =
                        read_finals-bounded pendings (suc count) bytes' items others room rest in
                      let all : r ∷ others ≡ finals = ground arith in
                      subst (λ xs. count + length xs ≤ final_entries) all (omega (arith, short)))
              ]
        ]
      ]

  -- What `scan` accepts are at most 64 sound histories with at most 512 entries together.
  pub scan-IsSound :
      (items : List (Item Bytes)) (histories : Histories)
      → scan codec formats items ≡ ok histories
      → IsSound histories × (count_entries histories ≤ final_entries)
  unfolding scan
  scan-IsSound items histories h =
      elim (Result-cases (validate_pendings codec formats (pending_items codec formats items))) [
        | inr (e, failed) ↦ absurd (ground arith)
        | inl (pendings, valid) ↦
            elim (Result-cases (read_finals codec formats pendings 0 0 items)) [
              | inr (e, failed) ↦ absurd (ground arith)
              | inl (finals, read) ↦
                  (let (sound, total) = build_histories-IsSound finals histories (ground arith) in
                    (
                      sound,
                      omega (
                        arith,
                        total,
                        read_finals-bounded pendings 0 0 items finals (omega arith) read,
                      ),
                    ))
            ]
      ]
