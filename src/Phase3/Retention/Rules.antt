-- ===== src/Phase3/Retention/Rules.antt =====
-- phase3/retention.ts: rules for what holds of the parent directory after each call, where `quiet` says
-- that no call fails.
use ha_mcp.Prelude.{◌≡◌, refl, sym, subst, String, Bool, true, false, List, [], ◌∷◌, arith}
use ha_mcp.Phase3.Effects.{Outcome, done, thrown, M, try_finally}
use ha_mcp.Phase3.Effects.Triples.{Post, Triple, finally_rule, weaken}
use ha_mcp.Phase3.Retention.Disk.{Parent, World, call, require, change, look, after_call, then_read}

module _ (quiet : Bool) where
  -- The parent is as `S` says, and no call to come fails if all is quiet.
  pub record At (S : Parent → Type 0) (w : World) : Type 0 where
    pub holds : S w.parent
    pub calm : quiet ≡ true → w.faults ≡ []

  -- A call has failed, and the parent is as `Any` says.
  pub record Broken (Any : Parent → Type 0) (w : World) : Type 0 where
    pub holds : Any w.parent
    pub loud : quiet ≡ false

  module _ (Any : Parent → Type 0) where
    pub call_rule :
        {S : Parent → Type 0}
        → ((p : Parent) → S p → Any p)
        → Triple (At S) call (λ _. At S) (λ _. Broken Any)
    unfolding call
    call_rule {S} any = record { run = λ w h. next w.parent w.busy w.faults h.holds h.calm }
      where
        next :
            (p : Parent) (busy : Bool) (faults : List Bool)
            → S p
            → (quiet ≡ true → faults ≡ [])
            → Post
                (λ _. At S)
                (λ _. Broken Any)
                (call (record { parent = p; busy = busy; faults = faults }))
        next p busy [] s calm = record { holds = s; calm = λ q. refl }
        next p busy (false ∷ faults) s calm = record {
          holds = s;
          calm = λ q. ground (arith, calm q);
        }
        next p busy (true ∷ faults) s calm = record { holds = any p s; loud = ground (arith, calm) }

    after-Post :
        (S T : Parent → Type 0) (f : Parent → Parent) (r : Outcome (Unit {0}) × World)
        → ((p : Parent) → S p → T (f p))
        → Post (λ _. At S) (λ _. Broken Any) r
        → Post (λ _. At T) (λ _. Broken Any) (after_call f r)
    after-Post S T f (done u, w) step h = record { holds = step w.parent h.holds; calm = h.calm }
    after-Post S T f (thrown x, w) step h = h

    pub change_rule :
        {S T : Parent → Type 0} (f : Parent → Parent)
        → ((p : Parent) → S p → Any p)
        → ((p : Parent) → S p → T (f p))
        → Triple (At S) (change f) (λ _. At T) (λ _. Broken Any)
    unfolding change
    change_rule {S} {T} f any step = record {
      run = λ w h. after-Post S T f (call w) step ((call_rule any).run w h);
    }

    read-Post :
        (S : Parent → Type 0) {A : Type 0} (Q : A → Type 0) (f : Parent → A)
        (r : Outcome (Unit {0}) × World)
        → ((p : Parent) → S p → Q (f p))
        → Post (λ _. At S) (λ _. Broken Any) r
        → Post (λ a w. At S w × Q a) (λ _. Broken Any) (then_read f r)
    read-Post S Q f (done u, w) step h = (h, step w.parent h.holds)
    read-Post S Q f (thrown x, w) step h = h

    pub look_rule :
        {S : Parent → Type 0} {A : Type 0} (Q : A → Type 0) (f : Parent → A)
        → ((p : Parent) → S p → Any p)
        → ((p : Parent) → S p → Q (f p))
        → Triple (At S) (look f) (λ a w. At S w × Q a) (λ _. Broken Any)
    unfolding look
    look_rule {S} {A} Q f any step = record {
      run = λ w h. read-Post S Q f (call w) step ((call_rule any).run w h);
    }

    read-At-Post :
        (S : Parent → Type 0) {A : Type 0} (f : Parent → A) (r : Outcome (Unit {0}) × World)
        → Post (λ _. At S) (λ _. Broken Any) r
        → Post (λ a. At (λ p. S p × (f p ≡ a))) (λ _. Broken Any) (then_read f r)
    read-At-Post S f (done u, w) h = record { holds = (h.holds, refl); calm = h.calm }
    read-At-Post S f (thrown x, w) h = h

    pub look-At_rule :
        {S : Parent → Type 0} {A : Type 0} (f : Parent → A)
        → ((p : Parent) → S p → Any p)
        → Triple (At S) (look f) (λ a. At (λ p. S p × (f p ≡ a))) (λ _. Broken Any)
    unfolding look
    look-At_rule {S} f any = record {
      run = λ w h. read-At-Post S f (call w) ((call_rule any).run w h);
    }

    -- What holds of the parent may be said in another way before and after.
    pub restate_rule :
        {S S' T T' : Parent → Type 0} {m : M World (Unit {0})}
        → ((p : Parent) → S' p → S p)
        → ((p : Parent) → T p → T' p)
        → Triple (At S) m (λ _. At T) (λ _. Broken Any)
        → Triple (At S') m (λ _. At T') (λ _. Broken Any)
    restate_rule {S} {S'} {T} {T'} {m} before after t =
        weaken t (λ w h. record { holds = before w.parent h.holds; calm = h.calm })
          (λ a w h. record { holds = after w.parent h.holds; calm = h.calm }) (λ x w h. h)

    pub require_rule :
        {S : Parent → Type 0} (b : Bool) (message : String)
        → b ≡ true
        → Triple (At S) (require b message) (λ _. At S) (λ _. Broken Any)
    require_rule {S} b message test = record {
      run =
          λ w h. subst (λ t. Post (λ _. At S) (λ _. Broken Any) (require t message w)) (sym test) h;
    }

    Broken-rule : Triple (Broken Any) call (λ _. Broken Any) (λ _. Broken Any)
    unfolding call
    Broken-rule = record { run = λ w h. next w.parent w.busy w.faults h.holds h.loud }
      where
        next :
            (p : Parent) (busy : Bool) (faults : List Bool)
            → Any p
            → quiet ≡ false
            → Post
                (λ _. Broken Any)
                (λ _. Broken Any)
                (call (record { parent = p; busy = busy; faults = faults }))
        next p busy [] any loud = record { holds = any; loud = loud }
        next p busy (false ∷ faults) any loud = record { holds = any; loud = loud }
        next p busy (true ∷ faults) any loud = record { holds = any; loud = loud }

    closing_rule :
        {S : Parent → Type 0}
        → ((p : Parent) → S p → Any p)
        → (o : Outcome (Unit {0}))
        → Triple
            (λ w. Post (λ _. At S) (λ _. Broken Any) (o, w))
            call
            (λ _ w. Post (λ _. At S) (λ _. Broken Any) (o, w))
            (λ _. Broken Any)
    closing_rule any (done u) = call_rule any
    closing_rule any (thrown x) = Broken-rule

    -- A body whose `finally` closes what it opened.
    pub closed_rule :
        {S T : Parent → Type 0} {m : M World (Unit {0})}
        → ((p : Parent) → T p → Any p)
        → Triple (At S) m (λ _. At T) (λ _. Broken Any)
        → Triple (At S) (try_finally m call) (λ _. At T) (λ _. Broken Any)
    closed_rule any body = finally_rule body (closing_rule any)
