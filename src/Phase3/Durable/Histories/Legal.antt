-- ===== src/Phase3/Durable/Histories/Legal.antt =====
-- phase3/journal.ts: the histories that `buildHistories` accepts.
use ha_mcp.Prelude.{
  ℕ, suc, ◌+◌, true, Option, none, some, [], ◌∷◌, ◌++◌, ◌≡◌, sym, subst, arith, length, string_eq,
}
use ha_mcp.Prelude.Results.{ok}
use ha_mcp.Phase3.States.{intent_prepared, can_transition}
use ha_mcp.Phase3.States.Reach.{Run, here, Run-snoc}
use ha_mcp.Phase3.Records.{TransactionRecord}
use ha_mcp.Phase3.Records.Schema.{can_record_transition}
use ha_mcp.Phase3.Journal.{starts_at_intent}
use ha_mcp.Phase3.Durable.Histories.{
  History, last_record, assert_place, assert_initial, assert_successor, is_adjacent, check_from,
}

-- What a record's place in an accepted history says of it.
pub record Reached (r : TransactionRecord) (count : ℕ) : Type 0 where
  pub counted : count ≡ suc r.version
  pub run : Run r.version intent_prepared r.state

pub check_from-step :
    (index : ℕ) (previous : Option TransactionRecord) (r : TransactionRecord) (rs : History)
    → check_from index previous (r ∷ rs) ≡ ok tt
    → (r.version ≡ index)
      × (assert_place previous r ≡ ok tt)
      × (check_from (suc index) (some r) rs ≡ ok tt)
unfolding check_from
check_from-step index previous r rs h = ground arith

can_record_transition-can_transition :
    (previous next : TransactionRecord)
    → can_record_transition previous next ≡ true
    → can_transition previous.state next.state ≡ true
unfolding can_record_transition
can_record_transition-can_transition previous next h = ground arith

assert_place-some :
    (previous r : TransactionRecord)
    → assert_place (some previous) r ≡ ok tt
    → (r.version ≡ previous.version + 1) × (can_record_transition previous r ≡ true)
unfolding assert_place assert_successor is_adjacent
assert_place-some previous r h = ground arith

assert_place-none :
    (r : TransactionRecord)
    → assert_place none r ≡ ok tt
    → (r.version ≡ 0) × (r.state ≡ intent_prepared)
unfolding assert_place assert_initial starts_at_intent
assert_place-none r h = ground arith

check_from-Reached :
    (previous : TransactionRecord) (rs : History)
    → Run previous.version intent_prepared previous.state
    → check_from (suc previous.version) (some previous) rs ≡ ok tt
    → (r : TransactionRecord) → last_record (previous ∷ rs) ≡ some r
    → Reached r (suc previous.version + length rs)
check_from-Reached previous [] run h r last =
    let same : previous ≡ r = ground arith in
    subst (λ x. Reached x (suc previous.version + 0)) same
      (record { counted = omega arith; run = run })
check_from-Reached previous (x ∷ xs) run h r last =
    let (at, place, rest) = check_from-step (suc previous.version) (some previous) x xs h in
    let (next, legal) = assert_place-some previous x place in
    let moved = Run-snoc run (can_record_transition-can_transition previous x legal) in
    let version : suc previous.version ≡ x.version = omega (arith, next) in
    let found =
      check_from-Reached x xs (subst (λ n. Run n intent_prepared x.state) version moved)
        (subst (λ n. check_from (suc n) (some x) xs ≡ ok tt) version rest) r last in
    record { counted = omega (arith, found.counted, next); run = found.run }

-- The last record of an accepted history.
pub check_from-last :
    (rs : History) (r : TransactionRecord)
    → check_from 0 none rs ≡ ok tt
    → last_record rs ≡ some r
    → Reached r (length rs)
check_from-last [] r h last = absurd (ground arith)
check_from-last (x ∷ xs) r h last =
    let (at, place, rest) = check_from-step 0 none x xs h in
    let (first, initial) = assert_place-none x place in
    let found =
      check_from-Reached x xs (rw (initial, first) here)
        (subst (λ n. check_from (suc n) (some x) xs ≡ ok tt) (sym first) rest) r last in
    record { counted = omega (arith, found.counted, first); run = found.run }

abbrev pub last_from : Option TransactionRecord → History → Option TransactionRecord
last_from previous [] = previous
last_from previous (r ∷ rs) = last_from (some r) rs

pub check_from-append :
    (index : ℕ) (previous : Option TransactionRecord) (rs : History) (r : TransactionRecord)
    → check_from index previous rs ≡ ok tt
    → r.version ≡ index + length rs
    → assert_place (last_from previous rs) r ≡ ok tt
    → check_from index previous (rs ++ (r ∷ [])) ≡ ok tt
unfolding check_from
check_from-append index previous [] r h at place = ground arith
check_from-append index previous (x ∷ xs) r h at place =
    let (version, placed, rest) = check_from-step index previous x xs h in
    let tail = check_from-append (suc index) (some x) xs r rest (omega (arith, at)) place in
    ground arith
