-- ===== src/Base/Unique.antt =====
-- Maps without two entries for a key, which is what Go's maps are.
use mathlib.Core.Path.{◌≡◌, refl, sym, ap, ◌∙◌}
use mathlib.Core.Logic.{inl, inr, ◌≢◌}
use mathlib.Core.List.{[], ◌∷◌, ◌++◌}
use mathlib.Core.Option.{none, some}
use native.Mathlib.Omega.{arith}
use gca_backend.Base.Tests.{Bool-cases}
use gca_backend.Base.Equality.{Eq, ◌==◌, beq_refl}
use gca_backend.Base.Map.{Map, lookup, insert, delete, lookup-insert, lookup-delete}
use Prim.Native.Nat.{suc}
use gca_backend.Base.Lists.{All, length}

module _ {ℓ κ} {K : Type ℓ} {V : Type κ} ⦃e : Eq K⦄ where
  abbrev pub Unique : Map K V → Type κ
  Unique [] = Unit
  Unique ((k, v) ∷ m) = (lookup k m ≡ none) × Unique m

  -- A new key goes to the end.
  pub insert_fresh :
      (k : K) (v : V) (m : Map K V) → lookup k m ≡ none → insert k v m ≡ m ++ ((k, v) ∷ [])
  unfolding lookup insert
  insert_fresh k v [] h = refl
  insert_fresh k v ((j, w) ∷ m) h = ground (arith, insert_fresh k v m)

  pub Unique-insert : (k : K) (v : V) (m : Map K V) → Unique m → Unique (insert k v m)
  unfolding lookup insert
  Unique-insert k v [] u = (refl, tt)
  Unique-insert k v ((j, w) ∷ m) u =
      ground (arith, e.beq_iff j k, e.beq_iff k j, lookup-insert k j v m, Unique-insert k v m u.1)

  pub Unique-delete : (k : K) (m : Map K V) → Unique m → Unique (delete k m)
  unfolding lookup delete
  Unique-delete k [] u = tt
  Unique-delete k ((j, w) ∷ m) u = ground (arith, lookup-delete k j m, Unique-delete k m u.1)

  -- What holds of every key and its value holds of every entry.
  pub All-entries {μ} :
      (P : K → V → Type μ) (m : Map K V)
      → Unique m
      → ((k : K) (v : V) → lookup k m ≡ some v → P k v)
      → All (λ (x : K × V). P x.0 x.1) m
  unfolding lookup
  All-entries P [] u h = tt
  All-entries P ((k, v) ∷ m) u h = (
    h k v (ground (arith, beq_refl k)),
    All-entries P m u.1 (λ j w f. h j w (ground (arith, e.beq_iff k j, f))),
  )

  found_behind : (k : K) (v : V) (m n : Map K V) → lookup k (m ++ ((k, v) ∷ n)) ≢ none
  unfolding lookup
  found_behind k v [] n h = ground (arith, beq_refl k)
  found_behind k v ((j, w) ∷ m) n h = ground (arith, found_behind k v m n)

  -- A key of a unique map is not in the part before it.
  pub fresh : (k : K) (v : V) (m n : Map K V) → Unique (m ++ ((k, v) ∷ n)) → lookup k m ≡ none
  unfolding lookup
  fresh k v [] n u = refl
  fresh k v ((j, w) ∷ m) n u = elim (Bool-cases (j == k)) [
    | inl same ↦ absurd (
        found_behind k v m n
          (ap (λ t. lookup t (m ++ ((k, v) ∷ n))) (sym ((e.beq_iff j k).0 same)) ∙ u.0))
    | inr other ↦ ground (arith, fresh k v m n u.1)
  ]

  pub delete_absent : (k : K) (m : Map K V) → lookup k m ≡ none → delete k m ≡ m
  unfolding lookup delete
  delete_absent k [] h = refl
  delete_absent k ((j, w) ∷ m) h = ground (arith, delete_absent k m)

  pub length-delete :
      (k : K) (m : Map K V) {v : V}
      → Unique m
      → lookup k m ≡ some v
      → suc (length (delete k m)) ≡ length m
  unfolding lookup delete
  length-delete k [] u h = ground arith
  length-delete k ((j, w) ∷ m) {v} u h =
      ground (arith, e.beq_iff j k, delete_absent k m, length-delete k m {v = v} u.1)

-- Every key of the first map is a key of the second.
module _ {ℓ κ μ} {K : Type ℓ} {V : Type κ} {W : Type μ} ⦃e : Eq K⦄ where
  abbrev pub Covers : Map K V → Map K W → Type (ℓ ⊔ κ ⊔ μ)
  Covers m n = (k : K) (v : V) → lookup k m ≡ some v → (w : W) × (lookup k n ≡ some w)

  pub Covers-insert :
      (j : K) (x : V) (y : W) (m : Map K V) (n : Map K W)
      → Covers m n
      → Covers (insert j x m) (insert j y n)
  Covers-insert j x y m n c k v h = elim (Bool-cases (j == k)) [
    | inl same ↦ (y, lookup-insert j k y n ∙ rw same)
    | inr other ↦
        let (w, there) = c k v (ground (arith, lookup-insert j k x m)) in
        (w, lookup-insert j k y n ∙ rw other there)
  ]

  pub Covers-delete :
      (j : K) (m : Map K V) (n : Map K W) → Covers m n → Covers (delete j m) (delete j n)
  Covers-delete j m n c k v h = elim (Bool-cases (j == k)) [
    | inl same ↦ absurd (ground (arith, lookup-delete j k m))
    | inr other ↦
        let (w, there) = c k v (ground (arith, lookup-delete j k m)) in
        (w, lookup-delete j k n ∙ rw other there)
  ]
