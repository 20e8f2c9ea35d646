-- ===== src/Base/Map.antt =====
-- Go's `map`, as an association list without an order that the program relies on.
use mathlib.Core.Path.{◌≡◌, refl}
use mathlib.Core.List.{List, [], ◌∷◌}
use mathlib.Core.Option.{Option, none, some}
use native.Mathlib.Omega.{arith}
use gca_backend.Base.Tests.{if◌then◌else◌}
use gca_backend.Base.Equality.{Eq, ◌==◌, beq_refl}

abbrev pub Map {ℓ κ} : Type ℓ → Type κ → Type (ℓ ⊔ κ)
Map K V = List (K × V)

module _ {ℓ κ} {K : Type ℓ} {V : Type κ} ⦃e : Eq K⦄ where
  -- `v, exists := m[k]`
  unfoldable pub lookup : K → Map K V → Option V
  lookup k [] = none
  lookup k ((j, v) ∷ m) = if j == k then some v else lookup k m

  -- `m[k] = v`
  unfoldable pub insert : K → V → Map K V → Map K V
  insert key value [] = (key, value) ∷ []
  insert key value (first ∷ m) =
      if first.0 == key then (key, value) ∷ m else first ∷ insert key value m

  -- `delete(m, k)`
  unfoldable pub delete : K → Map K V → Map K V
  delete k [] = []
  delete k ((j, v) ∷ m) = let rest = delete k m in if j == k then rest else (j, v) ∷ rest

  pub lookup-insert :
      (key other : K) (value : V) (m : Map K V)
      → lookup other (insert key value m) ≡ (if key == other then some value else lookup other m)
  unfolding lookup insert
  lookup-insert key other value [] = refl
  lookup-insert key other value ((i, w) ∷ m) = ground (
    arith,
    e.beq_iff key other,
    e.beq_iff i key,
    e.beq_iff i other,
    lookup-insert key other value m,
  )

  pub lookup-delete :
      (k j : K) (m : Map K V) → lookup j (delete k m) ≡ (if k == j then none else lookup j m)
  unfolding lookup delete
  lookup-delete k j [] = ground arith
  lookup-delete k j ((i, w) ∷ m) =
      ground (arith, e.beq_iff k j, e.beq_iff i k, e.beq_iff i j, lookup-delete k j m)

  pub lookup-insert_self : (k : K) (v : V) (m : Map K V) → lookup k (insert k v m) ≡ some v
  lookup-insert_self k v m = simp (lookup-insert, beq_refl k)

  pub lookup-delete_self : (k : K) (m : Map K V) → lookup k (delete k m) ≡ none
  lookup-delete_self k m = simp (lookup-delete, beq_refl k)
