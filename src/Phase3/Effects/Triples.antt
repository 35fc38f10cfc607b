-- ===== src/Phase3/Effects/Triples.antt =====
-- Rules for what holds after a method, whether it returns or throws.
use ha_mcp.Prelude.{◌≡◌, refl, Bool, true, false, if◌then◌else◌}
use ha_mcp.Phase3.Effects.{
  Thrown, Outcome, done, thrown, M, pure, throw, continue, handle, restore, conclude, choose,
}

module _ {W A : Type 0} where
  abbrev pub Post : (A → W → Type 0) → (Thrown → W → Type 0) → Outcome A × W → Type 0
  Post Q E (done a, w) = Q a w
  Post Q E (thrown e, w) = E e w

  -- From `P` the method ends in `Q` if it returns and in `E` if it throws.
  pub record Triple (P : W → Type 0) (m : M W A) (Q : A → W → Type 0) (E : Thrown → W → Type 0)
      : Type 0 where
    pub run : (w : W) → P w → Post Q E (m w)

module _ {W A B : Type 0} where
  continue-Post :
      (f : A → M W B) (r : Outcome A × W) (Q : A → W → Type 0) (R : B → W → Type 0)
      (E : Thrown → W → Type 0)
      → Post Q E r
      → ((a : A) → Triple (Q a) (f a) R E)
      → Post R E (continue f r)
  continue-Post f (done a, w) Q R E h k = (k a).run w h
  continue-Post f (thrown e, w) Q R E h k = h

  pub bind_rule :
      {P : W → Type 0} {Q : A → W → Type 0} {R : B → W → Type 0} {E : Thrown → W → Type 0}
      {m : M W A} {f : A → M W B}
      → Triple P m Q E
      → ((a : A) → Triple (Q a) (f a) R E)
      → Triple P (λ w. continue f (m w)) R E
  bind_rule {P} {Q} {R} {E} {m} {f} h k = record {
    run = λ w p. continue-Post f (m w) Q R E (h.run w p) k;
  }

module _ {W A : Type 0} where
  pub pure_rule : {Q : A → W → Type 0} {E : Thrown → W → Type 0} (a : A) → Triple (Q a) (pure a) Q E
  pure_rule a = record { run = λ w p. p }

  pub throw_rule :
      {Q : A → W → Type 0} {E : Thrown → W → Type 0} (e : Thrown) → Triple (E e) (throw e) Q E
  throw_rule e = record { run = λ w p. p }

  handle-Post :
      (h : Thrown → M W A) (r : Outcome A × W) (Q : A → W → Type 0) (F E : Thrown → W → Type 0)
      → Post Q F r
      → ((e : Thrown) → Triple (F e) (h e) Q E)
      → Post Q E (handle h r)
  handle-Post h (done a, w) Q F E p k = p
  handle-Post h (thrown e, w) Q F E p k = (k e).run w p

  pub catch_rule :
      {P : W → Type 0} {Q : A → W → Type 0} {F E : Thrown → W → Type 0} {m : M W A}
      {h : Thrown → M W A}
      → Triple P m Q F
      → ((e : Thrown) → Triple (F e) (h e) Q E)
      → Triple P (λ w. handle h (m w)) Q E
  catch_rule {P} {Q} {F} {E} {m} {h} t k = record {
    run = λ w p. handle-Post h (m w) Q F E (t.run w p) k;
  }

  restore-Post :
      (o : Outcome A) (r : Outcome (Unit {0}) × W) (Q : A → W → Type 0) (E : Thrown → W → Type 0)
      → Post (λ _ w. Post Q E (o, w)) E r
      → Post Q E (restore o r)
  restore-Post o (done u, w) Q E p = p
  restore-Post o (thrown e, w) Q E p = p

  conclude-Post :
      (cleanup : M W (Unit {0})) (r : Outcome A × W) (Q : A → W → Type 0) (E : Thrown → W → Type 0)
      → Post Q E r
      → ((o : Outcome A) → Triple (λ w. Post Q E (o, w)) cleanup (λ _ w. Post Q E (o, w)) E)
      → Post Q E (conclude cleanup r)
  conclude-Post cleanup (o, w) Q E p k = restore-Post o (cleanup w) Q E ((k o).run w p)

  pub finally_rule :
      {P : W → Type 0} {Q : A → W → Type 0} {E : Thrown → W → Type 0} {m : M W A}
      {cleanup : M W (Unit {0})}
      → Triple P m Q E
      → ((o : Outcome A) → Triple (λ w. Post Q E (o, w)) cleanup (λ _ w. Post Q E (o, w)) E)
      → Triple P (λ w. conclude cleanup (m w)) Q E
  finally_rule {P} {Q} {E} {m} {cleanup} t k = record {
    run = λ w p. conclude-Post cleanup (m w) Q E (t.run w p) k;
  }

  weaken-Post :
      {Q Q' : A → W → Type 0} {E E' : Thrown → W → Type 0} (r : Outcome A × W)
      → Post Q E r
      → ((a : A) (w : W) → Q a w → Q' a w)
      → ((e : Thrown) (w : W) → E e w → E' e w)
      → Post Q' E' r
  weaken-Post (done a, w) k q e = q a w k
  weaken-Post (thrown x, w) k q e = e x w k

  pub weaken :
      {P P' : W → Type 0} {Q Q' : A → W → Type 0} {E E' : Thrown → W → Type 0} {m : M W A}
      → Triple P m Q E
      → ((w : W) → P' w → P w)
      → ((a : A) (w : W) → Q a w → Q' a w)
      → ((e : Thrown) (w : W) → E e w → E' e w)
      → Triple P' m Q' E'
  weaken {P} {P'} {Q} {Q'} {E} {E'} {m} t p q e = record {
    run = λ w h. weaken-Post {Q = Q} {Q' = Q'} {E = E} {E' = E'} (m w) (t.run w (p w h)) q e;
  }

  pub if_rule :
      {P : W → Type 0} {Q : A → W → Type 0} {E : Thrown → W → Type 0} (b : Bool) {m n : M W A}
      → (b ≡ true → Triple P m Q E)
      → (b ≡ false → Triple P n Q E)
      → Triple P (if b then m else n) Q E
  if_rule true h k = h refl
  if_rule false h k = k refl

module _ {W A B : Type 0} where
  choose-Post :
      (h : Thrown → M W B) (f : A → M W B) (r : Outcome A × W) (Q : A → W → Type 0)
      (F : Thrown → W → Type 0) (R : B → W → Type 0) (E : Thrown → W → Type 0)
      → Post Q F r
      → ((e : Thrown) → Triple (F e) (h e) R E)
      → ((a : A) → Triple (Q a) (f a) R E)
      → Post R E (choose h f r)
  choose-Post h f (done a, w) Q F R E p k l = (l a).run w p
  choose-Post h f (thrown e, w) Q F R E p k l = (k e).run w p

  pub attempt_rule :
      {P : W → Type 0} {Q : A → W → Type 0} {F : Thrown → W → Type 0} {R : B → W → Type 0}
      {E : Thrown → W → Type 0} {m : M W A} {h : Thrown → M W B} {f : A → M W B}
      → Triple P m Q F
      → ((e : Thrown) → Triple (F e) (h e) R E)
      → ((a : A) → Triple (Q a) (f a) R E)
      → Triple P (λ w. choose h f (m w)) R E
  attempt_rule {P} {Q} {F} {R} {E} {m} {h} {f} t k l = record {
    run = λ w p. choose-Post h f (m w) Q F R E (t.run w p) k l;
  }

module _ {W A : Type 0} where
  frame-Post :
      (Q : A → W → Type 0) (E : Thrown → W → Type 0) {F : Type 0} (r : Outcome A × W)
      → Post Q E r
      → F
      → Post (λ a w. Q a w × F) (λ e w. E e w × F) r
  frame-Post Q E (done a, w) h f = (h, f)
  frame-Post Q E (thrown e, w) h f = (h, f)

  -- A fact that a method's own triple needs, and that no method changes.
  pub frame_rule :
      {P : W → Type 0} {Q : A → W → Type 0} {E : Thrown → W → Type 0} {F : Type 0} {m : M W A}
      → (F → Triple P m Q E)
      → Triple (λ w. P w × F) m (λ a w. Q a w × F) (λ e w. E e w × F)
  frame_rule {Q} {E} {m} t = record { run = λ w h. frame-Post Q E (m w) ((t h.1).run w h.0) h.1 }

  -- A fact that the precondition carries.
  pub assume_rule :
      {P : W → Type 0} {Q : A → W → Type 0} {E : Thrown → W → Type 0} {F : Type 0} {m : M W A}
      → (F → Triple P m Q E)
      → Triple (λ w. P w × F) m Q E
  assume_rule t = record { run = λ w h. (t h.1).run w h.0 }
