-- ===== src/Phase3/Durable/Operations/Sessions.antt =====
-- phase3/journal.ts: the journal over a whole session, whatever fails.
use ha_mcp.Prelude.{
  ℕ, ◌≤◌, String, [], ◌∷◌, ◌++◌, ◌≡◌, refl, sym, ap, ◌∙◌, subst, arith, string_eq, length,
}
use ha_mcp.Prelude.Results.{ok, err}
use ha_mcp.Phase3.States.{TransactionState}
use ha_mcp.Phase3.Records.{TransactionRecord}
use ha_mcp.Phase3.Records.Schema.{Formats}
use ha_mcp.Phase3.Ports.{Patch}
use ha_mcp.Phase3.Durable.Faults.{
  R, Failure, JournalCode, journal_conflict, journal_cas_conflict, normalize,
}
use ha_mcp.Phase3.Durable.Limits.{final_entries}
use ha_mcp.Phase3.Durable.Histories.{
  Histories, build_histories, group_from, check_groups, count_entries,
}
use ha_mcp.Phase3.Durable.Histories.Sound.{build_histories-IsSound}
use ha_mcp.Phase3.Durable.Append.{Calls, Entries, Store, Noted, append}
use ha_mcp.Phase3.Durable.Append.Commit.{linked, unsure, unlinked, append-Ends}
use ha_mcp.Phase3.Durable.Store.{plan_intent, plan_transition, cache}
use ha_mcp.Phase3.Durable.Store.Sound.{plan_intent-IsSound, plan_transition-IsSound}
use ha_mcp.Phase3.Durable.Store.Reread.{
  build_histories-plan_intent, build_histories-plan_transition,
}
use ha_mcp.Phase3.Durable.Health.{Health, assert_healthy}
use ha_mcp.Phase3.Durable.Operations.{
  Durable, scan_entries, count_pendings, append_planned, returning, refreshed, if_healthy,
  appending, make_intent, make_transition,
}

-- A journal after any operations, accepted, refused or failed, on an empty directory. Between them its
-- health may change: `initialize`, `load` and `listRecoverable` leave the directory as it is.
pub data Session (formats : Formats) : Durable → Type 0 where
  empty :
      (h : Health)
      → Session formats (record { health = h; store = record { entries = []; pendings = 0 } })
  turned :
      {d : Durable} (h : Health) → Session formats d → Session formats (record d { health = h })
  intended :
      {d : Durable} (calls : Calls) (size : ℕ) (r : TransactionRecord)
      → Session formats d
      → Session formats (make_intent formats calls size r d).1
  moved :
      {d : Durable} (time id : String) (version : ℕ) (state : TransactionState) (patch : Patch)
      (calls : Calls) (size : ℕ)
      → Session formats d
      → Session formats (make_transition formats time id version state patch calls size d).1

-- `buildHistories` accepts the entries, and there are not too many.
pub record IsReadable (entries : Entries) : Type 0 where
  pub histories : Histories
  pub reads : build_histories entries ≡ ok histories
  pub few : length entries ≤ final_entries

-- How an operation that appends goes: it stops before it changes the directory, or it appends.
pub data Ran (calls : Calls) (code : JournalCode) (size : ℕ) (d : Durable)
    (plan : Histories → R TransactionRecord) (x : R TransactionRecord × Durable) : Type 0 where
  stopped : (e : Failure) → x.0 ≡ err e → x.1.store ≡ d.store → Ran calls code size d plan x
  appended :
      (histories : Histories) (next : TransactionRecord)
      → build_histories d.store.entries ≡ ok histories
      → plan histories ≡ ok next
      → assert_healthy d.health ≡ ok tt
      → x
        ≡ returning next
            (record d.health { histories = histories })
            (append calls code size next d.store)
      → Ran calls code size d plan x

module _ (calls : Calls) (code : JournalCode) (size : ℕ) (d : Durable)
    (plan : Histories → R TransactionRecord) where
  planned-Ran :
      (histories : Histories) (p : R TransactionRecord)
      → build_histories d.store.entries ≡ ok histories
      → plan histories ≡ p
      → assert_healthy d.health ≡ ok tt
      → Ran calls code size d plan (
          append_planned calls code size
            (record d { health = record d.health { histories = histories } })
            p)
  unfolding append_planned
  planned-Ran histories (err e) reads planned healthy = stopped e refl refl
  planned-Ran histories (ok next) reads planned healthy =
      appended histories next reads planned healthy refl

  scanned-reads :
      (histories : Histories)
      → scan_entries calls d.store.entries ≡ ok histories
      → build_histories d.store.entries ≡ ok histories
  unfolding scan_entries
  scanned-reads histories h = ground arith

  refreshed-Ran :
      (scanned : R Histories)
      → scan_entries calls d.store.entries ≡ scanned
      → assert_healthy d.health ≡ ok tt
      → Ran calls code size d plan (refreshed calls code size d plan scanned)
  unfolding refreshed
  refreshed-Ran (err e) scans healthy =
      stopped (normalize e "Phase 3 journal refresh failed") refl refl
  refreshed-Ran (ok histories) scans healthy =
      planned-Ran histories (plan histories) (scanned-reads histories scans) refl healthy

  healthy-Ran :
      (health : R (Unit {0}))
      → assert_healthy d.health ≡ health
      → Ran calls code size d plan (
          if_healthy health d
            (refreshed calls code size d plan (scan_entries calls d.store.entries)))
  healthy-Ran (err e) lost = stopped e refl refl
  healthy-Ran (ok u) healthy = refreshed-Ran (scan_entries calls d.store.entries) refl healthy

  pub appending-Ran : Ran calls code size d plan (appending calls code size d plan)
  unfolding appending
  appending-Ran = healthy-Ran (assert_healthy d.health) refl

returning-store :
    (r : TransactionRecord) (h : Health) (x : Noted × Store) → (returning r h x).1.store ≡ x.1
returning-store r h ((ok u, lost), s) = refl
returning-store r h ((err e, lost), s) = refl

append-IsReadable :
    (calls : Calls) (code : JournalCode) (size : ℕ) (r : TransactionRecord) (s : Store)
    → IsReadable s.entries
    → IsReadable (s.entries ++ (r ∷ []))
    → IsReadable (append calls code size r s).1.entries
append-IsReadable calls code size r s before after = elim (append-Ends calls code size r s) [
  | linked grown result ↦ subst IsReadable (sym (ap (λ t. t.entries) grown)) after
  | unsure grown some_left result ↦ subst IsReadable (sym grown) after
  | unlinked e same failed leaves ↦ subst IsReadable (sym same) before
]

appending-IsReadable :
    (calls : Calls) (code : JournalCode) (size : ℕ) (d : Durable)
    (plan : Histories → R TransactionRecord)
    → IsReadable d.store.entries
    → ((histories : Histories) (r : TransactionRecord)
        → build_histories d.store.entries ≡ ok histories
        → plan histories ≡ ok r
        → IsReadable (d.store.entries ++ (r ∷ [])))
    → IsReadable (appending calls code size d plan).1.store.entries
appending-IsReadable calls code size d plan before after =
    elim (appending-Ran calls code size d plan) [
      | stopped e refused same ↦ subst IsReadable (sym (ap (λ s. s.entries) same)) before
      | appended histories next reads planned healthy runs ↦
          subst IsReadable
            (sym (
              ap (λ x. x.1.store.entries) runs
              ∙ ap (λ s. s.entries)
                  (returning-store next (record d.health { histories = histories })
                    (append calls code size next d.store))))
            (append-IsReadable calls code size next d.store before
              (after histories next reads planned))
    ]

-- A reading that holds as many entries as the directory does, and not more than are allowed.
readable :
    (entries : Entries) (histories : Histories)
    → build_histories entries ≡ ok histories
    → count_entries histories ≤ final_entries
    → IsReadable entries
readable entries histories reads few =
    let (sound, total) = build_histories-IsSound entries histories reads in
    record { histories = histories; reads = reads; few = omega (arith, few, total) }

make_intent-IsReadable :
    (formats : Formats) (calls : Calls) (size : ℕ) (r : TransactionRecord) (d : Durable)
    → IsReadable d.store.entries
    → IsReadable (make_intent formats calls size r d).1.store.entries
unfolding make_intent
make_intent-IsReadable formats calls size r d before =
    let pending = count_pendings calls d.store in
    appending-IsReadable calls journal_conflict size d (plan_intent formats pending r) before
      (λ histories next reads plan.
        let (sound, total) = build_histories-IsSound d.store.entries histories reads in
        let (again, room) = plan_intent-IsSound formats pending r next histories sound plan in
        readable (d.store.entries ++ (next ∷ [])) (cache next histories)
          (build_histories-plan_intent formats pending d.store.entries histories r next reads plan)
          room)

make_transition-IsReadable :
    (formats : Formats) (time id : String) (version : ℕ) (state : TransactionState) (patch : Patch)
    (calls : Calls) (size : ℕ) (d : Durable)
    → IsReadable d.store.entries
    → IsReadable (make_transition formats time id version state patch calls size d).1.store.entries
unfolding make_transition
make_transition-IsReadable formats time id version state patch calls size d before =
    let pending = count_pendings calls d.store in
    appending-IsReadable calls journal_cas_conflict size d
      (plan_transition formats time id version state patch pending) before
      (λ histories next reads planned.
        let (sound, total) = build_histories-IsSound d.store.entries histories reads in
        let (again, room, bound) =
          plan_transition-IsSound formats time id version state patch pending histories next sound
            planned in
        readable (d.store.entries ++ (next ∷ [])) (cache next histories)
          (build_histories-plan_transition formats time id version state patch pending
            d.store.entries histories next reads planned)
          room)

nothing-IsReadable : IsReadable []
unfolding build_histories group_from check_groups
nothing-IsReadable = record { histories = []; reads = refl; few = omega arith }

-- Whatever operations a session makes on an empty directory, whatever call of the file system fails in
-- each of them, and whatever becomes of the journal's health, `buildHistories` accepts the entries
-- that are left, of which there are at most 512.
pub Session-IsReadable :
    {formats : Formats} {d : Durable} → Session formats d → IsReadable d.store.entries
Session-IsReadable (empty h) = nothing-IsReadable
Session-IsReadable (turned h s) = Session-IsReadable s
Session-IsReadable {formats} (intended {d} calls size r s) =
    make_intent-IsReadable formats calls size r d (Session-IsReadable s)
Session-IsReadable {formats} (moved {d} time id version state patch calls size s) =
    make_transition-IsReadable formats time id version state patch calls size d
      (Session-IsReadable s)
