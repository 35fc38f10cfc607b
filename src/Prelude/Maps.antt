-- ===== src/Prelude/Maps.antt =====
-- A `Map` keyed by texts, in insertion order: a write to a key that is there keeps its place.
use Prim.Native.Nat.{suc, ◌≤◌}
use Prim.Native.String.{String}
use mathlib.Core.Path.{ap, ◌≡◌, refl, sym, subst}
use mathlib.Core.Logic.{inl, inr}
use mathlib.Core.Option.{Option, none, some}
use mathlib.Core.List.{List, [], ◌∷◌}
use native.Mathlib.Omega.{arith}
use text.Mathlib.TextEquality.{eq_iff}
use ha_mcp.Prelude.Tests.{if◌then◌else◌, Bool-cases}
use ha_mcp.Prelude.Equality.{beq_refl, ◌==◌, string_eq, beq→eq}
use ha_mcp.Prelude.Lists.{All, length}

module _ {ℓ} {V : Type ℓ} where
  unfoldable pub map_get : String → List (String × V) → Option V
  map_get k [] = none
  map_get k ((j, v) ∷ m) = if j == k then some v else map_get k m

  unfoldable pub map_set : String → V → List (String × V) → List (String × V)
  map_set k v [] = (k, v) ∷ []
  map_set k v ((j, w) ∷ m) = if j == k then (j, v) ∷ m else (j, w) ∷ map_set k v m

  pub map_get-map_set :
      (k j : String) (v : V) (m : List (String × V))
      → map_get j (map_set k v m) ≡ (if k == j then some v else map_get j m)
  unfolding map_get map_set
  map_get-map_set k j v [] = refl
  map_get-map_set k j v ((i, w) ∷ m) =
      ground (arith, eq_iff k j, eq_iff i k, eq_iff i j, map_get-map_set k j v m)

  -- What was set before is overwritten.
  pub map_set-map_set :
      (k : String) (v w : V) (m : List (String × V)) → map_set k w (map_set k v m) ≡ map_set k w m
  unfolding map_set
  map_set-map_set k v w [] = rw (beq_refl k) refl
  map_set-map_set k v w ((i, u) ∷ m) = elim (Bool-cases (i == k)) [
    | inl same ↦ rw (same, same) refl
    | inr other ↦ rw (other, other) (ap (λ t. (i, u) ∷ t) (map_set-map_set k v w m))
  ]

  unfoldable pub map_values : List (String × V) → List V
  map_values [] = []
  map_values ((k, v) ∷ m) = v ∷ map_values m

  module _ {κ} (P : String × V → Type κ) where
    pub map_set-All :
        (k : String) (v : V) (m : List (String × V)) → P (k, v) → All P m → All P (map_set k v m)
    unfolding map_set
    map_set-All k v [] p h = (p, tt)
    map_set-All k v ((j, w) ∷ m) p (q, h) = elim (Bool-cases (j == k)) [
      | inl same ↦ rw same (subst (λ i. P (i, v)) (sym (beq→eq j k same)) p, h)
      | inr other ↦ rw other (q, map_set-All k v m p h)
    ]

    pub map_get-All :
        (k : String) (v : V) (m : List (String × V)) → map_get k m ≡ some v → All P m → P (k, v)
    unfolding map_get
    map_get-All k v [] found h = absurd (ground arith)
    map_get-All k v ((j, w) ∷ m) found (q, h) = elim (Bool-cases (j == k)) [
      | inl same ↦
          (let value : w ≡ v = ground (arith, same) in
            subst (λ x. P (k, x)) value (subst (λ i. P (i, w)) (beq→eq j k same) q))
      | inr other ↦ map_get-All k v m (ground (arith, other)) h
    ]

  pub map_set-length :
      (k : String) (v : V) (m : List (String × V)) → length (map_set k v m) ≤ suc (length m)
  unfolding map_set
  map_set-length k v [] = omega arith
  map_set-length k v ((j, w) ∷ m) = ground (arith, map_set-length k v m)

  pub map_set-length_present :
      (k : String) (v w : V) (m : List (String × V))
      → map_get k m ≡ some w
      → length (map_set k v m) ≡ length m
  unfolding map_get map_set
  map_set-length_present k v w [] h = absurd (ground arith)
  map_set-length_present k v w ((j, x) ∷ m) h = elim (Bool-cases (j == k)) [
    | inl same ↦ ground (arith, same)
    | inr other ↦ ground (arith, other, map_set-length_present k v w m)
  ]
