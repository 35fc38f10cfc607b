-- ===== src/Phase3/Durable/Store/Regroup.antt =====
-- phase3/journal.ts: how `buildHistories` groups the records with one more.
use ha_mcp.Prelude.{
  ℕ, suc, ◌+◌, ◌≤◌, String, Bool, true, false, Option, none, some, List, [], ◌∷◌, ◌++◌, ◌≡◌, refl,
  sym, ap, ◌∙◌, subst, arith, length, length-append, ◌==◌, string_eq, leb, inl, inr, Bool-cases,
  every, map_get, map_set,
}
use ha_mcp.Prelude.Results.{ok, Result-cases}
use ha_mcp.Phase3.Records.{TransactionRecord}
use ha_mcp.Phase3.Durable.Limits.{history_per_transaction}
use ha_mcp.Phase3.Durable.Histories.{
  canonical_record_identity, History, Histories, check_from, sort_from, insert_version, group_from,
  check_groups, or_empty,
}
use ha_mcp.Phase3.Durable.Histories.Legal.{check_from-step}
use ha_mcp.Phase3.Durable.Store.{cache}

abbrev below : ℕ → TransactionRecord → Bool
below v r = leb r.version v

insert_version-last :
    (r : TransactionRecord) (rs : History)
    → every (below r.version) rs ≡ true
    → insert_version r rs ≡ rs ++ (r ∷ [])
unfolding insert_version
insert_version-last r [] h = refl
insert_version-last r (x ∷ xs) h = ground (arith, insert_version-last r xs (ground arith))

sort_from-append :
    (sorted rs : History) (r : TransactionRecord)
    → sort_from sorted (rs ++ (r ∷ [])) ≡ insert_version r (sort_from sorted rs)
unfolding sort_from
sort_from-append sorted [] r = refl
sort_from-append sorted (x ∷ xs) r = sort_from-append (insert_version x sorted) xs r

check_from-below :
    (index v : ℕ) (previous : Option TransactionRecord) (rs : History)
    → check_from index previous rs ≡ ok tt
    → index + length rs ≤ suc v
    → every (below v) rs ≡ true
check_from-below index v previous [] h short = refl
check_from-below index v previous (r ∷ rs) h short =
    let (at, place, rest) = check_from-step index previous r rs h in
    let others = check_from-below (suc index) v (some r) rs rest (omega (arith, short)) in
    ground arith

pub group_from-append :
    (groups after : Histories) (rs : List TransactionRecord) (r : TransactionRecord)
    → canonical_record_identity r ≡ true
    → group_from groups rs ≡ ok after
    → group_from groups (rs ++ (r ∷ [])) ≡ ok (cache r after)
unfolding group_from cache
group_from-append groups after [] r canonical h =
    let same : groups ≡ after = ground arith in
    subst (λ hs. group_from groups (r ∷ []) ≡ ok (cache r hs)) same (rw canonical refl)
group_from-append groups after (x ∷ xs) r canonical h =
    let id = x.transaction_id in
    let rest =
      group_from-append (map_set id (or_empty (map_get id groups) ++ (x ∷ [])) groups) after xs r
        canonical (ground arith) in
    ground arith

-- The histories, extended by a record of the transaction `id`.
abbrev pub add : String → TransactionRecord → Histories → Histories
add id r histories = map_set id (or_empty (map_get id histories) ++ (r ∷ [])) histories

-- A sorted history goes on sorted.
sort_from-next :
    (rs : History) (r : TransactionRecord)
    → check_from 0 none (sort_from [] rs) ≡ ok tt
    → r.version ≡ length (sort_from [] rs)
    → sort_from [] (rs ++ (r ∷ [])) ≡ sort_from [] rs ++ (r ∷ [])
sort_from-next rs r h at =
    sort_from-append [] rs r
    ∙ insert_version-last r (sort_from [] rs)
        (check_from-below 0 r.version none (sort_from [] rs) h (omega (arith, at)))

check_groups-cons :
    (id : String) (rs : History) (groups histories : Histories)
    → length (sort_from [] rs) ≤ history_per_transaction
    → check_from 0 none (sort_from [] rs) ≡ ok tt
    → check_groups groups ≡ ok histories
    → check_groups ((id, rs) ∷ groups) ≡ ok ((id, sort_from [] rs) ∷ histories)
unfolding check_groups
check_groups-cons id rs groups histories short h rest = ground arith

check_groups-uncons :
    (id : String) (rs : History) (groups histories : Histories)
    → check_groups ((id, rs) ∷ groups) ≡ ok histories
    → (others : Histories) × (histories ≡ (id, sort_from [] rs) ∷ others)
      × (length (sort_from [] rs) ≤ history_per_transaction)
      × (check_from 0 none (sort_from [] rs) ≡ ok tt)
      × (check_groups groups ≡ ok others)
unfolding check_groups
check_groups-uncons id rs groups histories h = elim (Result-cases (check_groups groups)) [
  | inr (x, failed) ↦ absurd (ground arith)
  | inl (others, passed) ↦ (others, ground arith, ground arith, ground arith, passed)
]

pub check_groups-length :
    (groups histories : Histories)
    → check_groups groups ≡ ok histories
    → length histories ≡ length groups
unfolding check_groups
check_groups-length [] histories h =
    let same : [] ≡ histories = ground arith in ap length (sym same)
check_groups-length ((id, rs) ∷ groups) histories h =
    let (others, all, short, sorted, passed) = check_groups-uncons id rs groups histories h in
    ap length all ∙ ap suc (check_groups-length groups others passed)

-- What makes `r` the next record of the transaction `id`.
abbrev pub Fits : String → TransactionRecord → Histories → Type 0
Fits id r histories =
    (check_from 0 none (or_empty (map_get id histories) ++ (r ∷ [])) ≡ ok tt)
    × (r.version ≡ length (or_empty (map_get id histories)))

add-same :
    (id j : String) (rs : History) (groups : Histories) (r : TransactionRecord)
    → (j == id) ≡ true
    → add id r ((j, rs) ∷ groups) ≡ (j, rs ++ (r ∷ [])) ∷ groups
unfolding map_get map_set
add-same id j rs groups r same = rw same refl

add-other :
    (id j : String) (rs : History) (groups : Histories) (r : TransactionRecord)
    → (j == id) ≡ false
    → add id r ((j, rs) ∷ groups) ≡ (j, rs) ∷ add id r groups
unfolding map_get map_set
add-other id j rs groups r other = ground (arith, other)

pub check_groups-add :
    (id : String) (groups histories : Histories) (r : TransactionRecord)
    → check_groups groups ≡ ok histories
    → Fits id r histories
    → r.version ≤ 12
    → check_groups (add id r groups) ≡ ok (add id r histories)
unfolding check_groups map_get map_set sort_from insert_version
check_groups-add id [] histories r h fits few =
    let same : [] ≡ histories = ground arith in
    subst (λ hs. Fits id r hs → check_groups (add id r []) ≡ ok (add id r hs)) same
      (λ (checked, at). ground arith) fits
check_groups-add id ((j, rs) ∷ groups) histories r h fits few =
    let (others, all, short, sorted, passed) = check_groups-uncons j rs groups histories h in
    subst (λ hs. Fits id r hs → check_groups (add id r ((j, rs) ∷ groups)) ≡ ok (add id r hs))
      (sym all)
      (λ (checked, version). elim (Bool-cases (j == id)) [
        | inl same ↦
            (let sorted' = rw same at checked in
              let version' = rw same at version in
              let grown = sort_from-next rs r sorted version' in
              let counted = length-append (sort_from [] rs) (r ∷ []) in
              let short' : length (sort_from [] (rs ++ (r ∷ []))) ≤ history_per_transaction =
                rw grown (omega (arith, counted, version', few)) in
              ap check_groups (add-same id j rs groups r same)
              ∙ subst (λ xs. check_groups ((j, rs ++ (r ∷ [])) ∷ groups) ≡ ok ((j, xs) ∷ others))
                  grown
                  (check_groups-cons j (rs ++ (r ∷ [])) groups others short' (rw grown sorted')
                    passed)
              ∙ ap (λ hs. ok hs) (sym (add-same id j (sort_from [] rs) others r same)))
        | inr other ↦
            (let fits' : Fits id r others = (rw other at checked, rw other at version) in
              ap check_groups (add-other id j rs groups r other)
              ∙ check_groups-cons j rs (add id r groups) (add id r others) short sorted
                  (check_groups-add id groups others r passed fits' few)
              ∙ ap (λ hs. ok hs) (sym (add-other id j (sort_from [] rs) others r other)))
      ])
      fits
