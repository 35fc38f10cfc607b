-- ===== src/Phase3/Durable/Operations/Durability.antt =====
-- phase3/journal.ts: what the end of a `transition` says of the directory.
use ha_mcp.Prelude.{
  ℕ, suc, String, Bool, none, some, true, false, [], ◌∷◌, ◌++◌, ◌≡◌, refl, sym, ap, ◌∙◌, ◌⊎◌, subst,
  arith, beq_refl, string_eq, ◌==◌, if◌then◌else◌,
}
use ha_mcp.Prelude.Results.{ok, err}
use ha_mcp.Phase3.States.{TransactionState}
use ha_mcp.Phase3.Records.{TransactionRecord}
use ha_mcp.Phase3.Records.Schema.{Formats}
use ha_mcp.Phase3.Ports.{Patch}
use ha_mcp.Phase3.Durable.Faults.{R, Failure, JournalCode, journal_cas_conflict}
use ha_mcp.Phase3.Durable.Histories.{Histories, latest, build_histories}
use ha_mcp.Phase3.Durable.Histories.Sound.{build_histories-IsSound}
use ha_mcp.Phase3.Durable.Append.{Calls, Store, Noted, append}
use ha_mcp.Phase3.Durable.Append.Commit.{
  Ends, linked, unsure, unlinked, append-Ends, append-kept, commit_unknown, Leaves, clean,
}
use ha_mcp.Phase3.Durable.Store.{plan_transition, cache}
use ha_mcp.Phase3.Durable.Store.Refines.{latest-cache}
use ha_mcp.Phase3.Durable.Store.Extension.{plan_transition-Extension}
use ha_mcp.Phase3.Durable.Store.Reread.{build_histories-plan_transition}
use ha_mcp.Phase3.Durable.Health.{Health, assert_healthy, operate, refresh_then}
use ha_mcp.Phase3.Durable.Operations.{
  Durable, scan_entries, count_pendings, lose, returning, appending, make_transition, load,
}
use ha_mcp.Phase3.Durable.Operations.Sessions.{stopped, appended, appending-Ran}

-- How an operation ends: with the record in place and nothing else left; with it in place and an error
-- that says so, and perhaps its pending directory; or without it, where its pending directory is gone,
-- or retained by a crash, or left where its removal failed.
pub data Settled (calls : Calls) (s : Store) (result : R TransactionRecord) (after : Store)
    : Type 0 where
  committed :
      (r : TransactionRecord)
      → result ≡ ok r
      → after ≡ record { entries = s.entries ++ (r ∷ []); pendings = s.pendings }
      → Settled calls s result after
  unconfirmed :
      (r : TransactionRecord)
      → result ≡ err commit_unknown
      → after.entries ≡ s.entries ++ (r ∷ [])
      → (after.pendings ≡ s.pendings) ⊎ (after.pendings ≡ suc s.pendings)
      → Settled calls s result after
  refused :
      (e : Failure)
      → result ≡ err e
      → after.entries ≡ s.entries
      → Leaves calls s.pendings e after.pendings
      → Settled calls s result after

returning-Settled :
    (calls : Calls) (r : TransactionRecord) (h : Health) (s : Store) (result : R (Unit {0}))
    (lost : Bool) (after : Store)
    → Ends calls r s result after
    → Settled calls s
        (returning r h ((result, lost), after)).0
        (returning r h ((result, lost), after)).1.store
returning-Settled calls r h s (ok u) lost after (linked grown fine) = committed r refl grown
returning-Settled calls r h s (err e) lost after (linked grown fine) = absurd (ground arith)
returning-Settled calls r h s (ok u) lost after (unsure grown some_left unknown) =
    absurd (ground arith)
returning-Settled calls r h s (err e) lost after (unsure grown some_left unknown) =
    unconfirmed r (ground arith) grown some_left
returning-Settled calls r h s (ok u) lost after (unlinked e same failed leaves) =
    absurd (ground arith)
returning-Settled calls r h s (err x) lost after (unlinked e same failed leaves) =
    refused e (ground arith) same leaves

appending-Settled :
    (calls : Calls) (code : JournalCode) (size : ℕ) (d : Durable)
    (plan : Histories → R TransactionRecord)
    → Settled calls d.store
        (appending calls code size d plan).0
        (appending calls code size d plan).1.store
appending-Settled calls code size d plan = elim (appending-Ran calls code size d plan) [
  | stopped e throws same ↦
      refused e throws (ap (λ s. s.entries) same) (clean (ap (λ s. s.pendings) same))
  | appended histories next reads planned healthy runs ↦
      (let x = append calls code size next d.store in
        subst (λ t. Settled calls d.store t.0 t.1.store) (sym runs)
          (returning-Settled calls next (record d.health { histories = histories }) d.store x.0.0
            x.0.1 x.1 (append-Ends calls code size next d.store)))
]

-- A transition ends in one of three ways, whatever call of the file system fails: it returns a record
-- that the directory has behind the other entries, with no new pending directory; or it throws
-- `journal_commit_unknown` and the directory has the record all the same; or it throws and the entries
-- are as they were, with a new pending directory only after a crash or where its removal failed.
pub make_transition-Settled :
    (formats : Formats) (time id : String) (version : ℕ) (state : TransactionState) (patch : Patch)
    (calls : Calls) (size : ℕ) (d : Durable)
    → let x = make_transition formats time id version state patch calls size d in
      Settled calls d.store x.0 x.1.store
unfolding make_transition
make_transition-Settled formats time id version state patch calls size d =
    appending-Settled calls journal_cas_conflict size d
      (plan_transition formats time id version state patch (count_pendings calls d.store))

-- What a journal is after it has returned a record.
record HasAppended (d : Durable) (next : TransactionRecord) (histories : Histories) (lost : Bool)
    (after : Durable) : Type 0 where
  entries : after.store.entries ≡ d.store.entries ++ (next ∷ [])
  health : after.health ≡ record (lose lost (record d.health { histories = histories })) {
    histories = cache next histories;
  }

returning-ok :
    (calls : Calls) (r next : TransactionRecord) (d after : Durable) (histories : Histories)
    (result : R (Unit {0})) (lost : Bool) (s : Store)
    → Ends calls r d.store result s
    → returning r (record d.health { histories = histories }) ((result, lost), s) ≡ (ok next, after)
    → (r ≡ next) × HasAppended d next histories lost after
returning-ok calls r next d after histories (err e) lost s ends h = absurd (ground arith)
returning-ok calls r next d after histories (ok u) lost s (unsure grown some_left unknown) h =
    absurd (ground arith)
returning-ok calls r next d after histories (ok u) lost s (unlinked e same failed leaves) h =
    absurd (ground arith)
returning-ok calls r next d after histories (ok u) lost s (linked grown fine) h =
    let same : r ≡ next = ground (arith, h) in
    let left : record {
      health = record (lose lost (record d.health { histories = histories })) {
        histories = cache r histories;
      };
      store = s;
    }
        ≡ after =
      ap (λ t. t.1) h in
    (
      same,
      record {
        entries =
            ap (λ t. t.store.entries) (sym left)
            ∙ ap (λ t. t.entries) grown
            ∙ ap (λ t. d.store.entries ++ (t ∷ [])) same;
        health =
            ap (λ t. t.health) (sym left)
            ∙ ap
                (λ t. record (lose lost (record d.health { histories = histories })) {
                  histories = cache t histories;
                })
                same;
      },
    )

returning-fine :
    (r : TransactionRecord) (h : Health) (x : Noted × Store) (next : TransactionRecord)
    (after : Durable)
    → returning r h x ≡ (ok next, after)
    → x.0.0 ≡ ok tt
returning-fine r h ((ok u, lost), s) next after e = refl
returning-fine r h ((err f, lost), s) next after e = absurd (ground (arith, e))

lose-healthy :
    (h : Health) (histories later : Histories) (lost : Bool)
    → lost ≡ false
    → assert_healthy h ≡ ok tt
    → assert_healthy (record (lose lost (record h { histories = histories })) { histories = later })
      ≡ ok tt
unfolding assert_healthy
lose-healthy h histories later false kept healthy = healthy
lose-healthy h histories later true kept healthy = absurd (ground (arith, kept))

load-found :
    (calls : Calls) (id : String) (d : Durable) (histories : Histories) (next : TransactionRecord)
    → calls.scanned ≡ none
    → assert_healthy d.health ≡ ok tt
    → build_histories d.store.entries ≡ ok histories
    → latest id histories ≡ some next
    → (load calls id d).0 ≡ ok (some next)
unfolding load operate refresh_then scan_entries
load-found calls id d histories next quiet healthy reads found =
    rw (healthy, quiet, reads, found) refl

-- When `transition` returns a record, the directory has it behind the other entries, and a `load` in
-- which no call of the file system fails then finds it.
pub make_transition-durable :
    (formats : Formats) (time id : String) (version : ℕ) (state : TransactionState) (patch : Patch)
    (calls later : Calls) (size : ℕ) (d after : Durable) (next : TransactionRecord)
    → make_transition formats time id version state patch calls size d ≡ (ok next, after)
    → later.scanned ≡ none
    → (after.store.entries ≡ d.store.entries ++ (next ∷ []))
      × ((load later id after).0 ≡ ok (some next))
unfolding make_transition
make_transition-durable formats time id version state patch calls later size d after next h quiet =
    let pending = count_pendings calls d.store in
    let plan = plan_transition formats time id version state patch pending in
    elim (appending-Ran calls journal_cas_conflict size d plan) [
      | stopped e throws same ↦ absurd (ok_ne_err next e (ap (λ t. t.0) (sym h) ∙ throws))
      | appended histories r reads planned healthy runs ↦
          (let x = append calls journal_cas_conflict size r d.store in
            let ends = append-Ends calls journal_cas_conflict size r d.store in
            let (same, grown) =
              returning-ok calls r next d after histories x.0.0 x.0.1 x.1 ends (sym runs ∙ h) in
            let kept = append-kept calls journal_cas_conflict size r d.store (
              returning-fine r (record d.health { histories = histories }) x next after
                (sym runs ∙ h)) in
            let chosen = subst (λ t. plan histories ≡ ok t) same planned in
            let (sound, total) = build_histories-IsSound d.store.entries histories reads in
            let extends =
              plan_transition-Extension formats time id version state patch pending histories next
                sound chosen in
            let again =
              build_histories-plan_transition formats time id version state patch pending
                d.store.entries histories next reads chosen in
            let found : latest id (cache next histories) ≡ some next =
              latest-cache id next histories
              ∙ subst
                  (λ i.
                    (if next.transaction_id == i then some next else latest i histories)
                    ≡ some next)
                  extends.own (rw (beq_refl next.transaction_id) refl) in
            (
              grown.entries,
              load-found later id after (cache next histories) next quiet
                  (subst (λ t. assert_healthy t ≡ ok tt) (sym grown.health)
                    (lose-healthy d.health histories (cache next histories) x.0.1 kept healthy))
                  (subst (λ es. build_histories es ≡ ok (cache next histories)) (sym grown.entries)
                    again)
                  found,
            ))
    ]
  where
    ok_ne_err : (r : TransactionRecord) (e : Failure) → ok r ≡ err e → ⊥
    ok_ne_err r e same = ground (arith, same)
