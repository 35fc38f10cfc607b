-- ===== src/Phase3/Durable/Health/Life.antt =====
-- phase3/journal.ts: the life of a journal.
use ha_mcp.Prelude.{ℕ, String, Bool, true, false, List, ◌≡◌, refl, arith}
use ha_mcp.Prelude.Results.{ok, err}
use ha_mcp.Phase3.States.{TransactionState}
use ha_mcp.Phase3.Records.{TransactionRecord}
use ha_mcp.Phase3.Records.Schema.{Formats}
use ha_mcp.Phase3.Ports.{Patch}
use ha_mcp.Phase3.Durable.Faults.{R}
use ha_mcp.Phase3.Durable.Histories.{Histories}
use ha_mcp.Phase3.Durable.Histories.Sound.{IsSound}
use ha_mcp.Phase3.Durable.Scan.{Codec, Item, scan}
use ha_mcp.Phase3.Durable.Scan.Sound.{scan-IsSound}
use ha_mcp.Phase3.Durable.Store.{plan_intent, plan_transition, cache}
use ha_mcp.Phase3.Durable.Store.Sound.{plan_intent-IsSound, plan_transition-IsSound}
use ha_mcp.Phase3.Durable.Health.{
  Health, new_journal, initialize, settle_initialize, assert_healthy, when_healthy, operate,
  refresh_then,
}

-- A journal after any calls, over whatever directories it finds.
pub data Life (codec : Codec) (formats : Formats) : Health → Type 1 where
  born : Life codec formats new_journal
  started :
      {h : Health} (is_supported : Bool) (rooted : R (Unit {0})) (items : List (Item codec.Bytes))
      → Life codec formats h
      → Life codec formats (initialize is_supported rooted (scan codec formats items) h).1
  operated :
      {h : Health} {A : Type 0} (use_histories : Histories → R A) (items : List (Item codec.Bytes))
      → Life codec formats h
      → Life codec formats (operate use_histories (scan codec formats items) h).1
  cached_intent :
      {h : Health} (pending : R ℕ) (r next : TransactionRecord)
      → plan_intent formats pending r h.histories ≡ ok next
      → Life codec formats h
      → Life codec formats (record h { histories = cache next h.histories })
  cached_transition :
      {h : Health} (time id : String) (version : ℕ) (state : TransactionState) (patch : Patch)
      (pending : R ℕ) (next : TransactionRecord)
      → plan_transition formats time id version state patch pending h.histories ≡ ok next
      → Life codec formats h
      → Life codec formats (record h { histories = cache next h.histories })

initialize-histories :
    (P : Histories → Type 0) (is_supported : Bool) (rooted : R (Unit {0})) (scanned : R Histories)
    (h : Health)
    → ((hs : Histories) → scanned ≡ ok hs → P hs)
    → P h.histories
    → P (initialize is_supported rooted scanned h).1.histories
unfolding initialize settle_initialize
initialize-histories P false rooted scanned h found before = before
initialize-histories P true (err e) scanned h found before = before
initialize-histories P true (ok u) (err e) h found before = before
initialize-histories P true (ok u) (ok hs) h found before = found hs refl

when_healthy-histories :
    {A : Type 0} (P : Histories → Type 0) (m : R (Unit {0})) (outcome : R A × Health) (h : Health)
    → P outcome.1.histories
    → P h.histories
    → P (when_healthy m outcome h).1.histories
when_healthy-histories P (ok u) outcome h after before = after
when_healthy-histories P (err e) outcome h after before = before

refresh_then-histories :
    {A : Type 0} (P : Histories → Type 0) (use_histories : Histories → R A) (scanned : R Histories)
    (h : Health)
    → ((hs : Histories) → scanned ≡ ok hs → P hs)
    → P h.histories
    → P (refresh_then use_histories scanned h).1.histories
unfolding refresh_then
refresh_then-histories P use_histories (ok hs) h found before = found hs refl
refresh_then-histories P use_histories (err e) h found before = before

operate-histories :
    {A : Type 0} (P : Histories → Type 0) (use_histories : Histories → R A) (scanned : R Histories)
    (h : Health)
    → ((hs : Histories) → scanned ≡ ok hs → P hs)
    → P h.histories
    → P (operate use_histories scanned h).1.histories
unfolding operate
operate-histories P use_histories scanned h found before =
    when_healthy-histories P (assert_healthy h) (refresh_then use_histories scanned h) h
      (refresh_then-histories P use_histories scanned h found before) before

-- Through its whole life a journal holds sound histories only, whatever directories it finds and
-- whichever calls fail.
pub Life-IsSound :
    {codec : Codec} {formats : Formats} {h : Health} → Life codec formats h → IsSound h.histories
unfolding new_journal
Life-IsSound born = record { all_legal = tt; few = omega arith }
Life-IsSound {codec} {formats} (started {h} is_supported rooted items l) =
    initialize-histories IsSound is_supported rooted (scan codec formats items) h
      (λ hs e. (scan-IsSound codec formats items hs e).0) (Life-IsSound l)
Life-IsSound {codec} {formats} (operated {h} use_histories items l) =
    operate-histories IsSound use_histories (scan codec formats items) h
      (λ hs e. (scan-IsSound codec formats items hs e).0) (Life-IsSound l)
Life-IsSound {codec} {formats} (cached_intent {h} pending r next e l) =
    (plan_intent-IsSound formats pending r next h.histories (Life-IsSound l) e).0
Life-IsSound {codec} {formats}
      (cached_transition {h} time id version state patch pending next e l) =
    (plan_transition-IsSound formats time id version state patch pending h.histories next
      (Life-IsSound l) e).0
