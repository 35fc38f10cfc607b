-- ===== src/Phase3/Durable/Health.antt =====
-- phase3/journal.ts: `initialize` with `ensureRoot`, `assertHealthy`, the health flag, and
-- `listRecoverable`.
pub mod Life
use ha_mcp.Prelude.{
  String, Bool, true, false, not, ◌&&◌, List, [], ◌∷◌, Option, none, some, if◌then◌else◌,
}
use ha_mcp.Prelude.Results.{ok, err, ◌>>=◌, ◌>>◌, guard}
use ha_mcp.Phase3.Records.{TransactionRecord}
use ha_mcp.Phase3.Durable.Faults.{R, Failure, unhealthy, normalize, platform}
use ha_mcp.Phase3.Durable.Histories.{History, Histories, last_record}
use ha_mcp.Phase3.Durable.Scan.{Metadata, assert_directory}

-- The fields of `DurablePhase3Journal` that change; `latest` is the last record of each history.
pub record Health : Type 0 where
  pub is_unhealthy : Bool
  pub initialized : Bool
  pub histories : Histories

unfoldable pub new_journal : Health
new_journal = record { is_unhealthy = true; initialized = false; histories = [] }

-- What `lstat` of a part of the root finds, and how a `mkdir` ends.
pub data Look : Type 0 where
  directory other absent denied : Look

pub data Made : Type 0 where
  made existed refused : Made

pub record Segment : Type 0 where
  pub looked : Look
  pub created : Made
  pub looked_again : Look

traversed : Failure
traversed = unhealthy "Phase 3 journal root traverses a non-directory"

-- The second look, after a `mkdir` that found the path taken.
unfoldable pub look_again : Look → R (Unit {0})
unfolding traversed
look_again directory = ok tt
look_again other = err traversed
look_again absent = err platform
look_again denied = err platform

unfoldable pub make_segment : Made → Look → R (Unit {0})
make_segment made again = ok tt
make_segment existed again = look_again again
make_segment refused again = err platform

unfoldable pub ensure_segment : Look → Segment → R (Unit {0})
unfolding traversed
ensure_segment directory s = ok tt
ensure_segment other s = err traversed
ensure_segment absent s = make_segment s.created s.looked_again
ensure_segment denied s = err platform

unfoldable pub ensure_segments : List Segment → R (Unit {0})
ensure_segments [] = ok tt
ensure_segments (s ∷ ss) = do ensure_segment s.looked s; ensure_segments ss

-- `ensureRoot`, of a root that is absolute and normalized or not.
unfoldable pub ensure_root : Bool → List Segment → Metadata → R (Unit {0})
ensure_root is_normal segments root = do
  guard is_normal (unhealthy "Phase 3 journal root must be absolute and normalized")
  ensure_segments segments
  assert_directory root

unfoldable pub settle_initialize : R Histories → Health → R (Unit {0}) × Health
settle_initialize (ok histories) h =
    (ok tt, record { is_unhealthy = false; initialized = true; histories = histories })
settle_initialize (err e) h =
    (err (normalize e "Phase 3 journal initialization failed"), record h { is_unhealthy = true })

-- `initialize`; `is_supported` says that the durability is given or the platform is Linux.
unfoldable pub initialize : Bool → R (Unit {0}) → R Histories → Health → R (Unit {0}) × Health
initialize is_supported rooted scanned h =
    settle_initialize
      (do
        guard is_supported (unhealthy "Native Phase 3 journal durability requires Linux")
        rooted
        scanned)
      h

-- `assertHealthy`.
unfoldable pub assert_healthy : Health → R (Unit {0})
assert_healthy h =
    guard (h.initialized && not h.is_unhealthy) (unhealthy "Phase 3 journal is unhealthy")

-- `refresh`, with what is then done with the histories.
unfoldable pub refresh_then : {A : Type 0} → (Histories → R A) → R Histories → Health → R A × Health
refresh_then use_histories (ok histories) h =
    (use_histories histories, record h { histories = histories })
refresh_then use_histories (err e) h =
    (err (normalize e "Phase 3 journal refresh failed"), record h { is_unhealthy = true })

abbrev pub when_healthy : {A : Type 0} → R (Unit {0}) → R A × Health → Health → R A × Health
when_healthy (ok u) outcome h = outcome
when_healthy (err e) outcome h = (err e, h)

-- An operation: `assertHealthy`, `refresh`, and then what it does with the histories.
unfoldable pub operate : {A : Type 0} → (Histories → R A) → R Histories → Health → R A × Health
operate use_histories scanned h =
    when_healthy (assert_healthy h) (refresh_then use_histories scanned h) h

abbrev add_last : Option TransactionRecord → List TransactionRecord → List TransactionRecord
add_last none rs = rs
add_last (some r) rs = r ∷ rs

-- `latest.values()`.
unfoldable pub latest_records : Histories → List TransactionRecord
latest_records [] = []
latest_records ((id, rs) ∷ histories) = add_last (last_record rs) (latest_records histories)

-- The order of `localeCompare` is the platform's: `is_before a b` says that it is not positive.
module _ (is_before : String → String → Bool) where
  unfoldable pub insert_by_id : TransactionRecord → List TransactionRecord → List TransactionRecord
  insert_by_id r [] = r ∷ []
  insert_by_id r (x ∷ xs) =
      let later = x ∷ insert_by_id r xs in
      if is_before x.transaction_id r.transaction_id then later else r ∷ x ∷ xs

  unfoldable pub sort_by_id :
      List TransactionRecord → List TransactionRecord → List TransactionRecord
  sort_by_id sorted [] = sorted
  sort_by_id sorted (r ∷ rs) = sort_by_id (insert_by_id r sorted) rs

  -- `listRecoverable`.
  unfoldable pub list_latest : R Histories → Health → R (List TransactionRecord) × Health
  list_latest = operate (λ histories. ok (sort_by_id [] (latest_records histories)))
