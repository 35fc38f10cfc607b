-- ===== src/Phase3/Durable/Append/Commit.antt =====
-- phase3/journal.ts: what `append` leaves behind, and what `writeAll` has written.
use ha_mcp.Prelude.{
  ℕ, zero, suc, ◌+◌, ◌-◌, ◌≡◌, ◌≢◌, ◌⊎◌, inl, inr, refl, ap, sym, ◌∙◌, Bool, true, false, Option,
  none, some, List, [], ◌∷◌, ◌++◌, arith, leb, ◌&&◌, Bool-cases, Option-cases,
}
use ha_mcp.Prelude.Results.{ok, err}
use ha_mcp.Phase3.Records.{TransactionRecord}
use ha_mcp.Phase3.Durable.Faults.{
  R, Failure, JournalCode, journal_error, journal_commit_unknown, crash, platform, unhealthy,
  attempt,
}
use ha_mcp.Phase3.Durable.Append.{
  Write, wrote, interrupted, broken, write_all, Calls, Store, Noted, classify_final_conflict,
  plainly, and_then, left_by, removed_after_link, removed_after_failure, classify_if, prepare_link,
  confirm_link, or_unknown, abandon, append_from, append_once, append,
}

-- The error that says that the commit point was crossed.
abbrev pub commit_unknown : Failure
commit_unknown =
    journal_error journal_commit_unknown
      "Phase 3 journal link commit point was crossed but durability confirmation failed"

err_ne_ok : (e : Failure) → err e ≢ ok tt
err_ne_ok e h = ground arith

-- What a failure in the `catch` says of the pending directory.
pub data Leaves (calls : Calls) (pendings : ℕ) (e : Failure) (after : ℕ) : Type 0 where
  clean : after ≡ pendings → Leaves calls pendings e after
  retained : e ≡ crash → after ≡ suc pendings → Leaves calls pendings e after
  unremoved : calls.cleaned ≡ some e → after ≡ suc pendings → Leaves calls pendings e after

then_err : (m : Noted) (e : Failure) → (x : Failure) × ((and_then m (plainly (err e))).0 ≡ err x)
then_err (ok u, lost) e = (e, refl)
then_err (err x, lost) e = (x, refl)

-- A failure of the platform, after the clean-up.
cleaned-Leaves :
    (calls : Calls) (m : Noted) (pendings : ℕ) (cleaned : Option Failure)
    → calls.cleaned ≡ cleaned
    → (x : Failure) × ((and_then
          (plainly (attempt cleaned))
          (and_then m (plainly (err (unhealthy "Phase 3 journal append failed"))))).0
        ≡ err x)
      × Leaves calls pendings x (left_by (attempt cleaned) pendings)
cleaned-Leaves calls m pendings none same =
    let (x, throws) = then_err m (unhealthy "Phase 3 journal append failed") in
    (x, throws, clean refl)
cleaned-Leaves calls m pendings (some e) same = (e, refl, unremoved same refl)

-- The record that is thrown on, and the pending directory.
abandon-Leaves :
    (calls : Calls) (code : JournalCode) (e : Failure) (pendings : ℕ)
    → (x : Failure) × ((abandon calls code e).0 ≡ err x)
      × Leaves calls pendings x (left_by (removed_after_failure calls e) pendings)
unfolding abandon removed_after_failure
abandon-Leaves calls code crash pendings = (crash, refl, retained refl refl)
abandon-Leaves calls code (journal_error own message) pendings = elim (Option-cases calls.cleaned) [
  | inl fine ↦ rw fine (journal_error own message, refl, clean refl)
  | inr (x, failed) ↦ (x, rw failed refl, unremoved failed (rw failed refl))
]
abandon-Leaves calls code platform pendings =
    cleaned-Leaves calls (classify_if calls.exists_last calls code) pendings calls.cleaned refl

-- The ends of an append.
pub data Ends (calls : Calls) (r : TransactionRecord) (s : Store) (result : R (Unit {0}))
    (after : Store) : Type 0 where
  linked :
      after ≡ record { entries = s.entries ++ (r ∷ []); pendings = s.pendings }
      → result ≡ ok tt
      → Ends calls r s result after
  unsure :
      after.entries ≡ s.entries ++ (r ∷ [])
      → (after.pendings ≡ s.pendings) ⊎ (after.pendings ≡ suc s.pendings)
      → result ≡ err commit_unknown
      → Ends calls r s result after
  unlinked :
      (e : Failure)
      → after.entries ≡ s.entries
      → result ≡ err e
      → Leaves calls s.pendings e after.pendings
      → Ends calls r s result after

confirm_link-cases :
    (calls : Calls) (pendings : ℕ)
    → ((confirm_link calls ≡ ok tt) × (left_by (removed_after_link calls) pendings ≡ pendings))
      ⊎ ((or_unknown (confirm_link calls) ≡ err commit_unknown)
          × ((left_by (removed_after_link calls) pendings ≡ pendings)
              ⊎ (left_by (removed_after_link calls) pendings ≡ suc pendings)))
unfolding confirm_link removed_after_link
confirm_link-cases calls pendings = ground arith

append_from-Ends :
    (calls : Calls) (code : JournalCode) (r : TransactionRecord) (s : Store) (m : Noted)
    → Ends calls r s (append_from calls code r s m).0.0 (append_from calls code r s m).1
unfolding append_from
append_from-Ends calls code r s (ok u, lost) = elim (confirm_link-cases calls s.pendings) [
  | inl (confirmed, none_left) ↦ linked (rw none_left refl) (rw confirmed refl)
  | inr (unknown, some_left) ↦ unsure refl some_left unknown
]
append_from-Ends calls code r s (err e, lost) =
    let (x, throws, leaves) = abandon-Leaves calls code e s.pendings in
    unlinked x refl throws leaves

append_once-Ends :
    (calls : Calls) (code : JournalCode) (size : ℕ) (r : TransactionRecord) (s : Store)
    (reserved : Option Failure)
    → Ends calls r s
        (append_once calls code size r s reserved).0.0
        (append_once calls code size r s reserved).1
unfolding append_once
append_once-Ends calls code size r s (some e) = unlinked e refl refl (clean refl)
append_once-Ends calls code size r s none =
    append_from-Ends calls code r s (prepare_link calls code size)

-- Whatever each call of the file system does, `append` ends in one of three ways: it returns, with the
-- new entry behind the others and its pending directory gone; it throws `journal_commit_unknown`, with
-- the entry in place and its pending directory perhaps left; or it throws, with the entries as they
-- were and its pending directory gone, or retained by a crash, or left where its removal failed.
pub append-Ends :
    (calls : Calls) (code : JournalCode) (size : ℕ) (r : TransactionRecord) (s : Store)
    → Ends calls r s (append calls code size r s).0.0 (append calls code size r s).1
unfolding append
append-Ends calls code size r s = append_once-Ends calls code size r s calls.reserved

classify_if-kept :
    (exists : R Bool) (calls : Calls) (code : JournalCode)
    → (classify_if exists calls code).0 ≡ ok tt
    → (classify_if exists calls code).1 ≡ false
unfolding classify_if classify_final_conflict
classify_if-kept (err e) calls code h = refl
classify_if-kept (ok false) calls code h = refl
classify_if-kept (ok true) calls code h = ground (arith, h)

prepare_link-kept :
    (calls : Calls) (code : JournalCode) (size : ℕ)
    → (prepare_link calls code size).0 ≡ ok tt
    → (prepare_link calls code size).1 ≡ false
unfolding prepare_link
prepare_link-kept calls code size h = ground (
  arith,
  h,
  classify_if-kept calls.exists_first calls code,
  classify_if-kept calls.exists_second calls code,
)

append_from-kept :
    (calls : Calls) (code : JournalCode) (r : TransactionRecord) (s : Store) (m : Noted)
    → (m.0 ≡ ok tt → m.1 ≡ false)
    → (append_from calls code r s m).0.0 ≡ ok tt
    → (append_from calls code r s m).0.1 ≡ false
unfolding append_from
append_from-kept calls code r s (ok u, lost) kept h = kept refl
append_from-kept calls code r s (err e, lost) kept h =
    let (x, throws, leaves) = abandon-Leaves calls code e s.pendings in
    absurd (err_ne_ok x (sym throws ∙ h))

append_once-kept :
    (calls : Calls) (code : JournalCode) (size : ℕ) (r : TransactionRecord) (s : Store)
    (reserved : Option Failure)
    → (append_once calls code size r s reserved).0.0 ≡ ok tt
    → (append_once calls code size r s reserved).0.1 ≡ false
unfolding append_once
append_once-kept calls code size r s (some e) h = refl
append_once-kept calls code size r s none h =
    append_from-kept calls code r s (prepare_link calls code size)
      (prepare_link-kept calls code size) h

-- An `append` that returns has not lost the health of the journal.
pub append-kept :
    (calls : Calls) (code : JournalCode) (size : ℕ) (r : TransactionRecord) (s : Store)
    → (append calls code size r s).0.0 ≡ ok tt
    → (append calls code size r s).0.1 ≡ false
unfolding append
append-kept calls code size r s h = append_once-kept calls code size r s calls.reserved h

abbrev pub total : List Write → ℕ
total [] = 0
total (wrote n ∷ ws) = n + total ws
total (interrupted ∷ ws) = total ws
total (broken ∷ ws) = total ws

-- If `writeAll` ends well, the writes that it made wrote exactly the bytes that there were.
pub write_all-total :
    (left : ℕ) (writes : List Write)
    → write_all left writes ≡ some (ok tt)
    → (made : List Write) × (rest : List Write) × (writes ≡ made ++ rest) × (total made ≡ left)
unfolding write_all
write_all-total zero writes h = ([], writes, refl, refl)
write_all-total (suc left) [] h = absurd (ground arith)
write_all-total (suc left) (interrupted ∷ ws) h =
    let (made, rest, e, t) = write_all-total (suc left) ws h in
    (interrupted ∷ made, rest, ap (λ x. interrupted ∷ x) e, t)
write_all-total (suc left) (broken ∷ ws) h = absurd (ground arith)
write_all-total (suc left) (wrote n ∷ ws) h = elim (Bool-cases (leb 1 n && leb n (suc left))) [
  | inr stuck ↦ absurd (ground arith)
  | inl progress ↦
      (let (made, rest, e, t) = write_all-total (suc left - n) ws (ground arith) in
        (wrote n ∷ made, rest, ap (λ x. wrote n ∷ x) e, ground arith))
]
