-- ===== src/Phase3/Paths/Segments.antt =====
-- phase3/contracts.ts: what an accepted path resolves to.
use mathlib.Core.Bool.{and-eq-true_iff}
use mathlib.Core.List.{reverse, tail, append-nil, append_assoc, reverse-cons}
use ha_mcp.Prelude.{
  ℕ, ◌≡◌, ◌≢◌, refl, sym, ap, ◌∙◌, String, true, ◌&&◌, List, [], ◌∷◌, ◌++◌, arith, nat_beq, every,
  Bool-cases, inl, inr, if◌then◌else◌,
}
use ha_mcp.Phase3.Paths.{units, split_from, split, segment_ok, is_canonical_path}

-- The text of a list of segments, `join("/")`.
abbrev pub join : List (List ℕ) → List ℕ
join [] = []
join (s ∷ []) = s
join (s ∷ t ∷ ts) = s ++ (b'/' ∷ join (t ∷ ts))

-- How a file system walks segments from a directory: "" and "." stay, ".." goes up.
abbrev pub walk_one : List (List ℕ) → List ℕ → List (List ℕ)
walk_one stack [] = stack
walk_one stack (a ∷ []) = if nat_beq a b'.' then stack else (a ∷ []) ∷ stack
walk_one stack (a ∷ b ∷ []) =
    if nat_beq a b'.' && nat_beq b b'.' then tail stack else (a ∷ b ∷ []) ∷ stack
walk_one stack (a ∷ b ∷ c ∷ cs) = (a ∷ b ∷ c ∷ cs) ∷ stack

abbrev pub walk : List (List ℕ) → List (List ℕ) → List (List ℕ)
walk stack [] = stack
walk stack (s ∷ ss) = walk (walk_one stack s) ss

walk_one_of_ok :
    (stack : List (List ℕ)) (s : List ℕ) → segment_ok s ≡ true → walk_one stack s ≡ s ∷ stack
unfolding segment_ok
walk_one_of_ok stack [] h = ground arith
walk_one_of_ok stack (a ∷ []) h = ground arith
walk_one_of_ok stack (a ∷ b ∷ []) h = ground arith
walk_one_of_ok stack (a ∷ b ∷ c ∷ cs) h = refl

walk_of_ok :
    (stack ss : List (List ℕ)) → every segment_ok ss ≡ true → walk stack ss ≡ reverse ss ++ stack
walk_of_ok stack [] h = refl
walk_of_ok stack (s ∷ ss) h =
    let (ok, oks) = (and-eq-true_iff _ _).0 h in
    ap (λ t. walk t ss) (walk_one_of_ok stack s ok)
    ∙ walk_of_ok (s ∷ stack) ss oks
    ∙ simp (reverse-cons, append_assoc)

split_from-ne_nil : (cur cs : List ℕ) → split_from cur cs ≢ []
unfolding split_from
split_from-ne_nil cur [] e = cc
split_from-ne_nil cur (c ∷ cs) e = ground (arith, split_from-ne_nil (cur ++ c ∷ []) cs)

join-cons : (s : List ℕ) (ss : List (List ℕ)) → ss ≢ [] → join (s ∷ ss) ≡ s ++ (b'/' ∷ join ss)
join-cons s [] h = absurd (h refl)
join-cons s (t ∷ ts) h = refl

join-split_from : (cur cs : List ℕ) → join (split_from cur cs) ≡ cur ++ cs
unfolding split_from
join-split_from cur [] = sym (append-nil _)
join-split_from cur (c ∷ cs) = elim (Bool-cases (nat_beq c b'/')) [
  | inl e ↦ rw e (
      rw (join-cons cur (split_from [] cs) (split_from-ne_nil [] cs))
        (rw (join-split_from [] cs) (let same : c ≡ b'/' = ground arith in rw same)))
  | inr e ↦ rw e (join-split_from (cur ++ c ∷ []) cs ∙ append_assoc cur (c ∷ []) cs)
]

-- Splitting a path at "/" and joining it again gives the path.
pub join-split : (cs : List ℕ) → join (split cs) ≡ cs
unfolding split
join-split cs = join-split_from [] cs

-- An accepted path never leads above the directory it starts in: from any directory the walk along
-- its segments goes down through exactly those segments, in order, whose join is the path itself.
pub canonical_path-walk :
    (nfc : String → String) (value : String) (root : List (List ℕ))
    → is_canonical_path nfc value ≡ true
    → (walk root (split (units value)) ≡ reverse (split (units value)) ++ root)
      × (join (split (units value)) ≡ units value)
unfolding is_canonical_path
canonical_path-walk nfc value root h =
    let segments : every segment_ok (split (units value)) ≡ true = ground arith in
    (walk_of_ok root (split (units value)) segments, join-split (units value))
