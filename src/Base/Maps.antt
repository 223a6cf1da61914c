-- ===== src/Base/Maps.antt =====
-- Go's maps as association lists: the first pair with a key counts.
use mathlib.Core.List.{List, [], ◌∷◌}
use mathlib.Core.Option.{Option, none, some}
use mathlib.Core.Path.{◌≡◌, refl}
use native.Mathlib.Omega.{arith}
use agentskills_go.Base.Eq.{EqTest, ◌==◌}
use agentskills_go.Base.Sets.{contains}
use agentskills_go.Base.Tests.{if◌then◌else◌, is_some}

module _ {ℓ κ} {K : Type ℓ} {V : Type κ} where
  abbrev pub keys : List (K × V) → List K
  keys [] = []
  keys ((k, v) ∷ m) = k ∷ keys m

module _ {ℓ κ} {K : Type ℓ} {V : Type κ} ⦃e : EqTest K⦄ where
  -- `v, ok := m[k]`
  abbrev pub lookup : K → List (K × V) → Option V
  lookup k [] = none
  lookup k ((j, v) ∷ m) = if j == k then some v else lookup k m

  -- `delete(m, k)`
  abbrev pub map_delete : K → List (K × V) → List (K × V)
  map_delete k [] = []
  map_delete k ((j, v) ∷ m) = let rest = map_delete k m in if j == k then rest else (j, v) ∷ rest

  -- `m[k] = v`
  abbrev pub map_insert : K → V → List (K × V) → List (K × V)
  map_insert k v [] = (k, v) ∷ []
  map_insert k v ((j, w) ∷ m) =
      let rest = map_insert k v m in if j == k then (k, v) ∷ m else (j, w) ∷ rest

  -- `m[k]` changed in place, where `k` is a key
  abbrev pub map_update : K → (V → V) → List (K × V) → List (K × V)
  map_update k f [] = []
  map_update k f ((j, v) ∷ m) = (if j == k then (j, f v) else (j, v)) ∷ map_update k f m

  pub lookup-map_delete :
      (k j : K) (m : List (K × V))
      → lookup j (map_delete k m) ≡ (if k == j then none else lookup j m)
  lookup-map_delete k j [] = ground arith
  lookup-map_delete k j ((i, w) ∷ m) =
      ground (arith, e.beq_iff k j, e.beq_iff i k, e.beq_iff i j, lookup-map_delete k j m)

  pub lookup-map_insert :
      (k j : K) (v : V) (m : List (K × V))
      → lookup j (map_insert k v m) ≡ (if k == j then some v else lookup j m)
  lookup-map_insert k j v [] = refl
  lookup-map_insert k j v ((i, w) ∷ m) =
      ground (arith, e.beq_iff k j, e.beq_iff i k, e.beq_iff i j, lookup-map_insert k j v m)

  pub lookup-map_update :
      (k j : K) (f : V → V) (m : List (K × V))
      → lookup j (map_update k f m)
        ≡ (if k == j then elim (lookup j m) [ none ↦ none | some v ↦ some (f v) ] else lookup j m)
  lookup-map_update k j f [] = ground arith
  lookup-map_update k j f ((i, w) ∷ m) =
      ground (arith, e.beq_iff k j, e.beq_iff i k, e.beq_iff i j, lookup-map_update k j f m)

  -- A key has a value exactly if it is among the keys.
  pub is_some-lookup : (k : K) (m : List (K × V)) → is_some (lookup k m) ≡ contains k (keys m)
  is_some-lookup k [] = refl
  is_some-lookup k ((j, v) ∷ m) = ground (arith, is_some-lookup k m)
