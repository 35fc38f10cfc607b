-- ===== src/Phase3/Effects.antt =====
-- Exceptions and state: what an asynchronous method of src/phase3 may return or throw, run to its
-- end over a world. `await` is a bind; the queue lock keeps two workflows from interleaving.
pub mod Triples
use ha_mcp.Prelude.{String, Option, none, some}
use ha_mcp.Phase3.Records.{CommitStatus, before_commit}

-- The properties that the workflow reads from what is thrown.
pub record Evidence : Type 0 where
  pub commit_status : Option CommitStatus  -- `none`: absent, or not one of the three
  pub stage : Option String
  pub dispatch : Option String

abbrev pub no_evidence : Evidence
no_evidence = record { commit_status = none; stage = none; dispatch = none }

-- What JavaScript code throws: a `Phase3CoordinatorError` or subclass (code, message), another
-- `Error` (name, message), another object (as `String` prints it), a primitive value.
pub data Thrown : Type 0 where
  coordinator_error : String → String → Evidence → Thrown
  other_error : String → String → Evidence → Thrown
  other_object : String → Evidence → Thrown
  primitive : String → Thrown

-- `new Phase3CoordinatorError(code, message)`.
abbrev pub new_coordinator_error : String → String → Thrown
new_coordinator_error code message = coordinator_error code message no_evidence

pub data Outcome {ℓ} (A : Type ℓ) : Type ℓ where
  done : A → Outcome A
  thrown : Thrown → Outcome A

abbrev pub M : Type 0 → Type 0 → Type 0
M W A = W → Outcome A × W

module _ {W : Type 0} where
  abbrev pub pure : {A : Type 0} → A → M W A
  pure a w = (done a, w)

  abbrev pub throw : {A : Type 0} → Thrown → M W A
  throw e w = (thrown e, w)

  abbrev pub continue : {A B : Type 0} → (A → M W B) → Outcome A × W → Outcome B × W
  continue f (done a, w) = f a w
  continue f (thrown e, w) = (thrown e, w)

  infixl 5 ◌>>=◌ ◌>>◌
  abbrev pub ◌>>=◌ : {A B : Type 0} → M W A → (A → M W B) → M W B
  ◌>>=◌ m f w = continue f (m w)

  abbrev pub ◌>>◌ : {B : Type 0} → M W (Unit {0}) → M W B → M W B
  m >> k = m >>= λ _. k

  abbrev pub handle : {A : Type 0} → (Thrown → M W A) → Outcome A × W → Outcome A × W
  handle h (done a, w) = (done a, w)
  handle h (thrown e, w) = h e w

  -- `try { m } catch (e) { h(e) }`.
  abbrev pub try_catch : {A : Type 0} → M W A → (Thrown → M W A) → M W A
  try_catch m h w = handle h (m w)

  abbrev pub restore : {A : Type 0} → Outcome A → Outcome (Unit {0}) × W → Outcome A × W
  restore o (done u, w) = (o, w)
  restore o (thrown e, w) = (thrown e, w)

  abbrev pub conclude : {A : Type 0} → M W (Unit {0}) → Outcome A × W → Outcome A × W
  conclude cleanup (o, w) = restore o (cleanup w)

  -- `try { m } finally { cleanup }`: what the cleanup throws replaces the outcome.
  abbrev pub try_finally : {A : Type 0} → M W A → M W (Unit {0}) → M W A
  try_finally m cleanup w = conclude cleanup (m w)

  abbrev pub choose :
      {A B : Type 0} → (Thrown → M W B) → (A → M W B) → Outcome A × W → Outcome B × W
  choose h f (done a, w) = f a w
  choose h f (thrown e, w) = h e w

  -- One statement `m` of a `try` block whose `catch` is `h` with the values that the variables have
  -- at that statement; `f` is the rest of the block, with a handler of its own.
  abbrev pub attempt : {A B : Type 0} → M W A → (Thrown → M W B) → (A → M W B) → M W B
  attempt m h f w = choose h f (m w)
