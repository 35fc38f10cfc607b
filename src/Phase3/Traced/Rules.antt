-- ===== src/Phase3/Traced/Rules.antt =====
-- phase3/applyCoordinator.ts over traced ports: what each kind of port adds to the log.
use ha_mcp.Prelude.{◌≡◌, subst, Option, none, some, List, [], ◌∷◌, All}
use ha_mcp.Phase3.Records.{TransactionRecord}
use ha_mcp.Phase3.Effects.{M, Outcome, done, thrown}
use ha_mcp.Phase3.Effects.Triples.{Post, Triple}
use ha_mcp.Phase3.Contract.{Holds, Keeps}
use ha_mcp.Phase3.Traced.{
  Event, durable, In, newest, older, Foreseen, recorded, WriteAhead, next, lift, announce, note_all,
  note_option, noted,
}

same_In :
    (r r' : TransactionRecord) (log : List Event)
    → ◌≡◌ {A = Option TransactionRecord} (some r) (some r')
    → In (durable r') (durable r ∷ log)
same_In r r' log e =
    let same : r ≡ r' = cc in subst (λ x. In (durable x) (durable r ∷ log)) same newest

module _ {W : Type 0} where
  abbrev pub Inv : W × List Event → Type 0
  Inv w = WriteAhead w.1

  abbrev pub Known : TransactionRecord → W × List Event → Type 0
  Known r w = In (durable r) w.1

  -- What is known stays known as the log grows.
  pub All-older :
      (e : Event) (rs : List TransactionRecord) (w : W) (log : List Event)
      → All (λ r. Known r (w, log)) rs
      → All (λ r. Known r (w, e ∷ log)) rs
  All-older e [] w log h = tt
  All-older e (r ∷ rs) w log (x, h) = (older x, All-older e rs w log h)

  -- Only the log counts.
  pub All-world :
      (rs : List TransactionRecord) (w w' : W) (log : List Event)
      → All (λ r. Known r (w, log)) rs
      → All (λ r. Known r (w', log)) rs
  All-world [] w w' log h = tt
  All-world (r ∷ rs) w w' log (x, h) = (x, All-world rs w w' log h)

  pub moved_on :
      (rs : List TransactionRecord) (w w' : W) (log : List Event)
      → Holds Inv Known rs (w, log)
      → Holds Inv Known rs (w', log)
  moved_on rs w w' log (a, h) = (a, All-world rs w w' log h)

  pub grown :
      (e : Event) (rs : List TransactionRecord) (w w' : W) (log : List Event)
      → Foreseen log e
      → Holds Inv Known rs (w, log)
      → Holds Inv Known rs (w', e ∷ log)
  grown e rs w w' log f (a, h) = (next f a, All-world rs w w' (e ∷ log) (All-older e rs w log h))

  pub lifted-Post :
      {A : Type 0} (rs : List TransactionRecord) (w : W) (log : List Event) (x : Outcome A × W)
      → Holds Inv Known rs (w, log)
      → Post (λ _. Holds Inv Known rs) (λ _. Holds Inv Known rs) (let (o, w') = x in (o, (w', log)))
  lifted-Post rs w log (done a, w') h = moved_on rs w w' log h
  lifted-Post rs w log (thrown e, w') h = moved_on rs w w' log h

  pub lift-Keeps : {A : Type 0} (m : M W A) → Keeps Inv Known (lift m)
  lift-Keeps m rs = record { run = λ (w, log) h. lifted-Post rs w log (m w) h }

  pub announce-Triple :
      {A : Type 0} (e : Event) (m : M W A) (rs : List TransactionRecord)
      → ((w : W) (log : List Event) → Holds Inv Known rs (w, log) → Foreseen log e)
      → Triple
          (Holds Inv Known rs)
          (announce e m)
          (λ _. Holds Inv Known rs)
          (λ _. Holds Inv Known rs)
  announce-Triple e m rs f = record {
    run = λ (w, log) h. lifted-Post rs w (e ∷ log) (m w) (grown e rs w w log (f w log h) h);
  }

  -- A record that the journal returns.
  pub returned-Post :
      (P : TransactionRecord → Type 0) (rs : List TransactionRecord) (w : W) (log : List Event)
      (x : Outcome TransactionRecord × W)
      → Post (λ r _. P r) (λ _ _. Unit {0}) x
      → Holds Inv Known rs (w, log)
      → Post
          (λ r v. Holds Inv Known (r ∷ rs) v × P r)
          (λ _. Holds Inv Known rs)
          (noted (λ a log'. durable a ∷ log') log x)
  returned-Post P rs w log (done r, w') p h =
      let (a, known) = grown (durable r) rs w w' log (recorded r) h in ((a, (newest, known)), p)
  returned-Post P rs w log (thrown e, w') p h = moved_on rs w w' log h

  pub loaded-Post :
      (rs : List TransactionRecord) (w : W) (log : List Event)
      (x : Outcome (Option TransactionRecord) × W)
      → Holds Inv Known rs (w, log)
      → Post
          (λ found v. Holds Inv Known rs v × ((r : TransactionRecord) → found ≡ some r → Known r v))
          (λ _. Holds Inv Known rs)
          (noted note_option log x)
  loaded-Post rs w log (done none, w') h = (moved_on rs w w' log h, λ r e. cc)
  loaded-Post rs w log (done (some r), w') h =
      (grown (durable r) rs w w' log (recorded r) h, λ r' e. same_In r r' log e)
  loaded-Post rs w log (thrown e, w') h = moved_on rs w w' log h

  pub listed-Holds :
      (rs found : List TransactionRecord) (w w' : W) (log : List Event)
      → Holds Inv Known rs (w, log)
      → Holds Inv Known rs (w', note_all found log)
        × All (λ r. Known r (w', note_all found log)) found
  listed-Holds rs [] w w' log h = (moved_on rs w w' log h, tt)
  listed-Holds rs (r ∷ found) w w' log h =
      let (kept, known) = listed-Holds rs found w w' log h in
      (
        grown (durable r) rs w' w' (note_all found log) (recorded r) kept,
        (newest, All-older (durable r) found w' (note_all found log) known),
      )

  pub listed-Post :
      (rs : List TransactionRecord) (w : W) (log : List Event)
      (x : Outcome (List TransactionRecord) × W)
      → Holds Inv Known rs (w, log)
      → Post
          (λ found v. Holds Inv Known rs v × All (λ r. Known r v) found)
          (λ _. Holds Inv Known rs)
          (noted note_all log x)
  listed-Post rs w log (done found, w') h = listed-Holds rs found w w' log h
  listed-Post rs w log (thrown e, w') h = moved_on rs w w' log h
