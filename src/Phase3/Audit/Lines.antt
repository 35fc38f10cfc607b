-- ===== src/Phase3/Audit/Lines.antt =====
-- phase3/operatorAudit.ts: complete rows, the torn tail, and what the loop of the writes leaves.
use ha_mcp.Prelude.{
  ℕ, zero, suc, ◌≡◌, refl, ap, ◌∙◌, subst, ◌⊎◌, inl, inr, Bool, true, false, ◌||◌, Option, none,
  some, List, [], ◌∷◌, ◌++◌, every, includes, nat_eq, arith, Bool-cases,
}
use mathlib.Core.List.{append_assoc, append-nil}
use ha_mcp.Prelude.Results.{ok}
use ha_mcp.Phase3.Audit.{
  newline, committed, torn_tail, rows_from, rows, starts_with, take_bytes, drop_bytes,
  write_pending, R,
}

includes-committed : (x : List ℕ) → includes (committed x) newline ≡ includes x newline
unfolding committed
includes-committed [] = refl
includes-committed (c ∷ cs) = ground (arith, includes-committed cs)

bare-committed : (t : List ℕ) → includes t newline ≡ false → (committed t ≡ []) × (torn_tail t ≡ t)
unfolding committed torn_tail
bare-committed [] h = (refl, refl)
bare-committed (c ∷ cs) h = ground arith

includes-append :
    (xs ys : List ℕ) → includes (xs ++ ys) newline ≡ (includes xs newline || includes ys newline)
includes-append [] ys = refl
includes-append (x ∷ xs) ys = ground (arith, includes-append xs ys)

-- After complete rows, a text with no newline is the torn tail.
pub committed-torn :
    (x t : List ℕ)
    → includes t newline ≡ false
    → (committed (committed x ++ t) ≡ committed x) × (torn_tail (committed x ++ t) ≡ t)
unfolding committed torn_tail
committed-torn [] t bare = bare-committed t bare
committed-torn (c ∷ cs) t bare = ground (
  arith,
  includes-append (committed cs) t,
  includes-committed cs,
  committed-torn cs t bare,
  bare-committed t bare,
)

snoc-committed :
    (ys : List ℕ)
    → (committed (ys ++ newline ∷ []) ≡ ys ++ newline ∷ []) × (torn_tail (ys ++ newline ∷ []) ≡ [])
unfolding committed torn_tail
snoc-committed [] = (refl, refl)
snoc-committed (y ∷ ys) = ground (arith, includes-append ys (newline ∷ []), snoc-committed ys)

-- A line after complete rows is complete.
pub committed-line :
    (x row : List ℕ)
    → (committed (committed x ++ (row ++ newline ∷ [])) ≡ committed x ++ (row ++ newline ∷ []))
      × (torn_tail (committed x ++ (row ++ newline ∷ [])) ≡ [])
committed-line x row =
    subst (λ t. (committed t ≡ t) × (torn_tail t ≡ []))
      (append_assoc (committed x) row (newline ∷ [])) (snoc-committed (committed x ++ row))

rows_from-line :
    (done row : List ℕ)
    → includes row newline ≡ false
    → rows_from done (row ++ newline ∷ []) ≡ (done ++ row) ∷ []
unfolding rows_from
rows_from-line done [] bare = rw append-nil refl
rows_from-line done (c ∷ cs) bare =
    ground (arith, rows_from-line (done ++ c ∷ []) cs, append_assoc done (c ∷ []) cs)

rows_from-append :
    (done x t : List ℕ)
    → includes x newline ≡ true
    → rows_from done (committed x ++ t) ≡ rows_from done (committed x) ++ rows_from [] t
unfolding rows_from committed
rows_from-append done [] t closed = ground arith
rows_from-append done (c ∷ cs) t closed =
    ground
      (arith, rows_from-append [] cs t, rows_from-append (done ++ c ∷ []) cs t, bare-committed cs)

-- The rows after a line is added.
pub rows-line :
    (x row : List ℕ)
    → includes row newline ≡ false
    → rows (committed x ++ (row ++ newline ∷ [])) ≡ rows (committed x) ++ (row ∷ [])
unfolding rows_from
rows-line x row bare = elim (Bool-cases (includes x newline)) [
  | inl closed ↦
      rows_from-append [] x (row ++ newline ∷ []) closed
      ∙ ap (λ t. rows (committed x) ++ t) (rows_from-line [] row bare)
  | inr none_closed ↦ rw (bare-committed x none_closed).0 (rows_from-line [] row bare)
]

take-drop : (n : ℕ) (cs : List ℕ) → take_bytes n cs ++ drop_bytes n cs ≡ cs
unfolding take_bytes drop_bytes
take-drop zero cs = refl
take-drop (suc n) [] = refl
take-drop (suc n) (c ∷ cs) = ap (λ t. c ∷ t) (take-drop n cs)

-- What is written is the start of the line, and all of it if the loop ends well.
pub record IsStart (line : List ℕ) (written : List ℕ × Option (R (Unit {0}))) : Type 0 where
  pub rest : List ℕ
  pub whole : written.0 ++ rest ≡ line
  pub all : written.1 ≡ some (ok tt) → rest ≡ []

pub write_pending-IsStart :
    (line : List ℕ) (ws : List (Option ℕ)) → IsStart line (write_pending line ws)
unfolding write_pending
write_pending-IsStart [] ws = record { rest = []; whole = refl; all = λ e. refl }
write_pending-IsStart (p ∷ ps) [] = record {
  rest = p ∷ ps;
  whole = refl;
  all = λ e. ground (arith, e);
}
write_pending-IsStart (p ∷ ps) (none ∷ ws) = record {
  rest = p ∷ ps;
  whole = refl;
  all = λ e. ground (arith, e);
}
write_pending-IsStart (p ∷ ps) (some zero ∷ ws) = record {
  rest = p ∷ ps;
  whole = refl;
  all = λ e. ground (arith, e);
}
write_pending-IsStart (p ∷ ps) (some (suc n) ∷ ws) =
    let h = write_pending-IsStart (drop_bytes n ps) ws in
    record {
      rest = h.rest;
      whole =
          ap (λ t. p ∷ t)
            (append_assoc (take_bytes n ps) (write_pending (drop_bytes n ps) ws).0 h.rest
              ∙ ap (λ t. take_bytes n ps ++ t) h.whole
              ∙ take-drop n ps);
      all = h.all;
    }

append-is_nil : (xs ys : List ℕ) → xs ++ ys ≡ [] → (xs ≡ []) × (ys ≡ [])
append-is_nil [] ys h = (refl, h)
append-is_nil (x ∷ xs) ys h = ground arith

-- A start of a line is the line, or a start of its row.
pub start-cases :
    (out rest row : List ℕ)
    → out ++ rest ≡ row ++ newline ∷ []
    → ((rest ≡ []) × (out ≡ row ++ newline ∷ [])) ⊎ ((more : List ℕ) × (out ++ more ≡ row))
start-cases [] rest row h = inr (row, refl)
start-cases (o ∷ out) rest [] h =
    let (no_out, no_rest) = append-is_nil out rest (ground (arith, h)) in
    inl (no_rest, ground (arith, h, no_out))
start-cases (o ∷ out) rest (c ∷ row) h =
    let same : o ≡ c = ground (arith, h) in
    elim (start-cases out rest row (ground (arith, h))) [
      | inl (none_left, all) ↦ inl (none_left, ground (arith, same, all))
      | inr (more, start) ↦ inr (more, ground (arith, same, start))
    ]

-- Properties of a row hold of its starts.
pub start-every :
    (p : ℕ → Bool) (out more : List ℕ) → every p (out ++ more) ≡ true → every p out ≡ true
start-every p [] more h = refl
start-every p (o ∷ out) more h = ground (arith, start-every p out more)

pub start-bare :
    (out more : List ℕ) → includes (out ++ more) newline ≡ false → includes out newline ≡ false
start-bare out more h = ground (arith, h, includes-append out more)

-- Two starts of a text: one starts with the other.
pub start-starts_with :
    (out more text : List ℕ)
    → starts_with (out ++ more) text ≡ true
    → (starts_with text out || starts_with out text) ≡ true
unfolding starts_with
start-starts_with [] more text h = refl
start-starts_with (o ∷ out) more [] h = refl
start-starts_with (o ∷ out) more (c ∷ text) h = ground (arith, start-starts_with out more text)
