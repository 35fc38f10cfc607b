-- ===== src/Prelude/Results.antt =====
-- What a function returns or throws, where what is thrown is a value of its own type.
use mathlib.Core.Path.{◌≡◌, refl}
use mathlib.Core.Logic.{◌⊎◌, inl, inr}
use mathlib.Core.Bool.{Bool, true, false}
use native.Mathlib.Omega.{arith}

pub data Result (E A : Type 0) : Type 0 where
  ok : A → Result E A
  err : E → Result E A

module _ {E : Type 0} where
  infixl 5 ◌>>=◌ ◌>>◌
  abbrev pub ◌>>=◌ : {A B : Type 0} → Result E A → (A → Result E B) → Result E B
  ok a >>= f = f a
  err e >>= f = err e

  abbrev pub ◌>>◌ : {B : Type 0} → Result E (Unit {0}) → Result E B → Result E B
  m >> k = m >>= λ _. k

  -- `if (!condition) throw e`.
  abbrev pub guard : Bool → E → Result E (Unit {0})
  guard true e = ok tt
  guard false e = err e

  pub >>=-eq-ok :
      {A B : Type 0} (m : Result E A) (f : A → Result E B) (b : B)
      → (m >>= f) ≡ ok b
      → (a : A) × (m ≡ ok a) × (f a ≡ ok b)
  >>=-eq-ok (ok a) f b h = (a, refl, h)
  >>=-eq-ok (err e) f b h = ground arith

  pub guard-eq-ok : (test : Bool) (e : E) → guard test e ≡ ok tt → test ≡ true
  guard-eq-ok true e h = refl
  guard-eq-ok false e h = ground arith

  pub guard-then-eq-ok :
      {B : Type 0} (test : Bool) (e : E) (k : Result E B) (b : B)
      → (guard test e >> k) ≡ ok b
      → (test ≡ true) × (k ≡ ok b)
  guard-then-eq-ok true e k b h = (refl, h)
  guard-then-eq-ok false e k b h = ground arith

  pub Result-cases :
      {A : Type 0} (m : Result E A) → ((a : A) × (m ≡ ok a)) ⊎ ((e : E) × (m ≡ err e))
  Result-cases (ok a) = inl (a, refl)
  Result-cases (err e) = inr (e, refl)
