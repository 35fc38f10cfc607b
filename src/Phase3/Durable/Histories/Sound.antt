-- ===== src/Phase3/Durable/Histories/Sound.antt =====
-- phase3/journal.ts: what `buildHistories` makes of the records it is given.
use ha_mcp.Prelude.{
  suc, ◌+◌, ◌≤◌, String, Bool, true, ◌&&◌, none, List, [], ◌∷◌, ◌++◌, ◌≡◌, refl, sym, ap, ◌∙◌,
  subst, arith, length, length-append, ◌==◌, string_eq, inl, inr, Option-cases, every, beq_refl,
  map_get, map_set, map_get-All, map_set-All, All,
}
use ha_mcp.Prelude.Results.{ok, Result-cases}
use ha_mcp.Phase3.Records.{TransactionRecord}
use ha_mcp.Phase3.Durable.Limits.{transactions}
use ha_mcp.Phase3.Durable.Histories.{
  History, Histories, check_from, sort_from, insert_version, group_from, check_groups,
  build_histories, canonical_record_identity, or_empty, count_entries,
}

-- A canonical record of the transaction.
abbrev pub is_of : String → TransactionRecord → Bool
is_of id r = r.transaction_id == id && canonical_record_identity r

-- A history of one transaction, whose ids are canonical, that passes the tests of `buildHistories`.
pub record Legal (entry : String × History) : Type 0 where
  pub owned : every (is_of entry.0) entry.1 ≡ true
  pub checked : check_from 0 none entry.1 ≡ ok tt

pub record IsSound (histories : Histories) : Type 0 where
  pub all_legal : All Legal histories
  pub few : length histories ≤ transactions

-- A group holds the records of its transaction.
record Owned (entry : String × History) : Type 0 where
  owned : every (is_of entry.0) entry.1 ≡ true

module _ (test : TransactionRecord → Bool) where
  pub every-append :
      (rs xs : History) → every test rs ≡ true → every test xs ≡ true → every test (rs ++ xs) ≡ true
  every-append [] xs h k = k
  every-append (r ∷ rs) xs h k = ground (arith, every-append rs xs (ground arith) k)

  insert_version-every :
      (r : TransactionRecord) (rs : History)
      → every test (insert_version r rs) ≡ (test r && every test rs)
  unfolding insert_version
  insert_version-every r [] = refl
  insert_version-every r (x ∷ xs) = ground (arith, insert_version-every r xs)

  sort_from-every :
      (sorted rs : History)
      → every test (sort_from sorted rs) ≡ (every test sorted && every test rs)
  unfolding sort_from
  sort_from-every sorted [] = ground arith
  sort_from-every sorted (r ∷ rs) =
      ground (arith, sort_from-every (insert_version r sorted) rs, insert_version-every r sorted)

insert_version-length :
    (r : TransactionRecord) (rs : History) → length (insert_version r rs) ≡ suc (length rs)
unfolding insert_version
insert_version-length r [] = refl
insert_version-length r (x ∷ xs) = ground (arith, insert_version-length r xs)

sort_from-length : (sorted rs : History) → length (sort_from sorted rs) ≡ length sorted + length rs
unfolding sort_from
sort_from-length sorted [] = omega arith
sort_from-length sorted (r ∷ rs) =
    omega (arith, sort_from-length (insert_version r sorted) rs, insert_version-length r sorted)

or_empty-every :
    (groups : Histories) (id : String)
    → All Owned groups
    → every (is_of id) (or_empty (map_get id groups)) ≡ true
or_empty-every groups id h = elim (Option-cases (map_get id groups)) [
  | inl missing ↦ rw missing refl
  | inr (rs, found) ↦ rw found (map_get-All Owned id rs groups found h).owned
]

group_from-Owned :
    (groups : Histories) (rs : List TransactionRecord) (after : Histories)
    → All Owned groups
    → group_from groups rs ≡ ok after
    → All Owned after
unfolding group_from
group_from-Owned groups [] after h e =
    let same : groups ≡ after = ground arith in subst (All Owned) same h
group_from-Owned groups (r ∷ rs) after h e =
    let id = r.transaction_id in
    let history = or_empty (map_get id groups) ++ (r ∷ []) in
    let own =
      every-append (is_of id) (or_empty (map_get id groups)) (r ∷ []) (or_empty-every groups id h)
        (ground (arith, beq_refl id)) in
    group_from-Owned (map_set id history groups) rs after
      (map_set-All Owned id history groups (record { owned = own }) h) (ground arith)

pub map_set-count :
    (id : String) (r : TransactionRecord) (groups : Histories)
    → count_entries (map_set id (or_empty (map_get id groups) ++ (r ∷ [])) groups)
      ≡ suc (count_entries groups)
unfolding map_get map_set count_entries
map_set-count id r [] = refl
map_set-count id r ((j, rs) ∷ groups) =
    ground (arith, map_set-count id r groups, length-append rs (r ∷ []))

group_from-count :
    (groups : Histories) (rs : List TransactionRecord) (after : Histories)
    → group_from groups rs ≡ ok after
    → count_entries after ≡ count_entries groups + length rs
unfolding group_from
group_from-count groups [] after e =
    let same : groups ≡ after = ground arith in
    subst (λ hs. count_entries hs ≡ count_entries groups + 0) same (omega arith)
group_from-count groups (r ∷ rs) after e =
    let id = r.transaction_id in
    let history = or_empty (map_get id groups) ++ (r ∷ []) in
    let counted = group_from-count (map_set id history groups) rs after (ground arith) in
    omega (arith, counted, map_set-count id r groups)

check_groups-Legal :
    (groups after : Histories)
    → All Owned groups
    → check_groups groups ≡ ok after
    → All Legal after
      × (length after ≡ length groups)
      × (count_entries after ≡ count_entries groups)
unfolding check_groups count_entries
check_groups-Legal [] after h e =
    let same : [] ≡ after = ground arith in
    subst (λ hs. All Legal hs × (length hs ≡ 0) × (count_entries hs ≡ 0)) same (tt, refl, refl)
check_groups-Legal ((id, rs) ∷ groups) after (own, h) e =
    elim (Result-cases (check_groups groups)) [
      | inr (x, failed) ↦ absurd (ground arith)
      | inl (checked, passed) ↦
          (let (legal, same, total) = check_groups-Legal groups checked h passed in
            let sorted_own = sort_from-every (is_of id) [] rs in
            let all : after ≡ (id, sort_from [] rs) ∷ checked = ground arith in
            let own_history : Legal (id, sort_from [] rs) = record {
              owned = sorted_own ∙ own.owned;
              checked = ground arith;
            } in
            subst
              (λ hs.
                All Legal hs
                × (length hs ≡ suc (length groups))
                × (count_entries hs ≡ length rs + count_entries groups))
              (sym all)
              ((own_history, legal), ap suc same, omega (arith, total, sort_from-length [] rs)))
    ]

-- What `buildHistories` accepts it sorts into at most 64 histories, each of records of one
-- transaction only, with canonical ids, in which the versions count up from the intent and each record may follow the
-- one before it; no record is lost.
pub build_histories-IsSound :
    (finals : List TransactionRecord) (histories : Histories)
    → build_histories finals ≡ ok histories
    → IsSound histories × (count_entries histories ≡ length finals)
unfolding build_histories count_entries
build_histories-IsSound finals histories e = elim (Result-cases (group_from [] finals)) [
  | inr (x, failed) ↦ absurd (ground arith)
  | inl (groups, grouped) ↦
      (let (legal, same, total) =
          check_groups-Legal groups histories (group_from-Owned [] finals groups tt grouped)
            (ground arith) in
        let few : length groups ≤ transactions = ground arith in
        (
          record { all_legal = legal; few = omega (arith, few, same) },
          omega (arith, total, group_from-count [] finals groups grouped),
        ))
]
