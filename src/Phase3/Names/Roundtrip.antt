-- ===== src/Phase3/Names/Roundtrip.antt =====
-- phase3/journal.ts: the names of final entries, written and read back.
use ha_mcp.Prelude.{
  ℕ, zero, suc, ◌+◌, ◌-◌, ◌*◌, ◌/◌, ◌%◌, ◌<◌, ◌≡◌, refl, ◌∙◌, Bool, true, false, Option, none, some,
  List, [], ◌∷◌, ◌++◌, arith, if◌then◌else◌,
}
use ha_mcp.Phase3.Names.{
  Place, digit, fits, take_match, times, prepend, literal, uuid, is_all_taken, is_lowercase_uuid,
  version_width, entry_suffix, dot, value_from, parse_final_name, pad, final_name,
}

-- The pattern takes the whole text.
abbrev Fits : List Place → List ℕ → Type 0
Fits [] [] = Unit
Fits (p ∷ ps) (c ∷ cs) = (fits p c ≡ true) × Fits ps cs
Fits _ _ = ⊥

take_match-Fits :
    (ps : List Place) (cs more : List ℕ) → Fits ps cs → take_match ps (cs ++ more) ≡ some (cs, more)
unfolding take_match
take_match-Fits [] [] more h = refl
take_match-Fits [] (c ∷ cs) more h = absurd h
take_match-Fits (p ∷ ps) [] more h = absurd h
take_match-Fits (p ∷ ps) (c ∷ cs) more h = rw (h.0, take_match-Fits ps cs more h.1)

Fits-is_all_taken :
    (ps : List Place) (cs : List ℕ) → is_all_taken (take_match ps cs) ≡ true → Fits ps cs
unfolding take_match
Fits-is_all_taken [] [] h = tt
Fits-is_all_taken [] (c ∷ cs) h = cc
Fits-is_all_taken (p ∷ ps) [] h = cc
Fits-is_all_taken (p ∷ ps) (c ∷ cs) h =
    if_taken (fits p c) (take_match ps cs) h (λ same rest. (same, Fits-is_all_taken ps cs rest))
  where
    if_taken :
        (b : Bool) (o : Option (List ℕ × List ℕ))
        → is_all_taken (if b then prepend c o else none) ≡ true
        → (b ≡ true → is_all_taken o ≡ true → (fits p c ≡ true) × Fits ps cs)
        → (fits p c ≡ true) × Fits ps cs
    if_taken false o h k = cc
    if_taken true none h k = cc
    if_taken true (some (taken, [])) h k = k refl refl
    if_taken true (some (taken, d ∷ rest)) h k = cc

Fits-literal : (ds : List ℕ) → Fits (literal ds) ds
unfolding fits
Fits-literal [] = tt
Fits-literal (d ∷ ds) = (ground arith, Fits-literal ds)

Fits-snoc :
    (n : ℕ) (p : Place) (cs : List ℕ) (c : ℕ)
    → Fits (times n p []) cs
    → fits p c ≡ true
    → Fits (times (suc n) p []) (cs ++ (c ∷ []))
Fits-snoc zero p [] c h f = (f, tt)
Fits-snoc zero p (d ∷ cs) c h f = absurd h
Fits-snoc (suc n) p [] c h f = absurd h
Fits-snoc (suc n) p (d ∷ cs) c h f = (h.0, Fits-snoc n p cs c h.1 f)

Fits-pad : (k v : ℕ) → Fits (times k digit []) (pad k v)
unfolding pad fits
Fits-pad zero v = tt
Fits-pad (suc k) v =
    Fits-snoc k digit (pad k (v / 10)) (b'0' + v % 10) (Fits-pad k (v / 10)) (ground arith)

value_from-snoc :
    (n : ℕ) (cs : List ℕ) (c : ℕ)
    → value_from n (cs ++ (c ∷ [])) ≡ value_from n cs * 10 + (c - b'0')
unfolding value_from
value_from-snoc n [] c = refl
value_from-snoc n (d ∷ cs) c = value_from-snoc (n * 10 + (d - b'0')) cs c

-- 10 to the power of the width.
abbrev pub bound : ℕ → ℕ
bound zero = 1
bound (suc k) = 10 * bound k

value_from-pad : (k v : ℕ) → v < bound k → value_from 0 (pad k v) ≡ v
unfolding pad value_from
value_from-pad zero v h = omega arith
value_from-pad (suc k) v h =
    value_from-snoc 0 (pad k (v / 10)) (b'0' + v % 10) ∙ omega (arith, value_from-pad k (v / 10))

suffix_taken : is_all_taken (take_match (literal entry_suffix) entry_suffix) ≡ true
unfolding take_match fits
suffix_taken = refl

-- The name of a final entry reads back as the transaction and the version that it was written for,
-- if the transaction's id is a lowercase UUID and the version has at most twelve digits.
pub parse_final_name-final_name :
    (id : List ℕ) (v : ℕ)
    → is_lowercase_uuid id ≡ true
    → v < bound version_width
    → parse_final_name (final_name id v) ≡ some (id, v)
unfolding parse_final_name final_name is_lowercase_uuid
parse_final_name-final_name id v lower small =
    rw
      (take_match-Fits uuid id (dot ++ (pad version_width v ++ entry_suffix))
        (Fits-is_all_taken uuid id lower))
      (rw
        (take_match-Fits (literal dot) dot (pad version_width v ++ entry_suffix) (Fits-literal dot))
        (rw
          (take_match-Fits (times version_width digit []) (pad version_width v) entry_suffix
            (Fits-pad version_width v))
          (rw (value_from-pad version_width v small, suffix_taken))))
