-- ===== src/Base/Equality.antt =====
-- Boolean equality as an interface: Go's `==` on numbers, Booleans, and byte arrays and slices.
use Prim.Native.Nat.{ℕ}
use mathlib.Core.Path.{◌≡◌, refl}
use mathlib.Core.Logic.{◌↔◌}
use mathlib.Core.Bool.{Bool, true, false, ◌&&◌}
use mathlib.Core.List.{List, [], ◌∷◌}
use native.Mathlib.Omega.{arith}
use gca_backend.Base.Tests.{==_iff, ◌==◌ as nat_eq}

pub record Eq {ℓ} (X : Type ℓ) : Type ℓ where
  pub beq : X → X → Bool
  pub beq_iff : (x y : X) → (beq x y ≡ true) ↔ (x ≡ y)

infix 50 ◌==◌
abbrev pub ◌==◌ {ℓ} : {X : Type ℓ} ⦃eq : Eq X⦄ → X → X → Bool
◌==◌ ⦃eq⦄ x y = eq.beq x y

instance abbrev pub ℕ-Eq : Eq ℕ
ℕ-Eq = record { beq = nat_eq; beq_iff = ==_iff }

unfoldable pub bytes_eq : List ℕ → List ℕ → Bool
bytes_eq [] [] = true
bytes_eq [] (y ∷ ys) = false
bytes_eq (x ∷ xs) [] = false
bytes_eq (x ∷ xs) (y ∷ ys) = nat_eq x y && bytes_eq xs ys

bytes_eq→eq : (xs ys : List ℕ) → bytes_eq xs ys ≡ true → xs ≡ ys
unfolding bytes_eq
bytes_eq→eq [] [] h = refl
bytes_eq→eq [] (y ∷ ys) h = ground arith
bytes_eq→eq (x ∷ xs) [] h = ground arith
bytes_eq→eq (x ∷ xs) (y ∷ ys) h = ground (arith, bytes_eq→eq xs ys)

bytes_eq_refl : (xs : List ℕ) → bytes_eq xs xs ≡ true
unfolding bytes_eq
bytes_eq_refl [] = refl
bytes_eq_refl (x ∷ xs) = ground (arith, bytes_eq_refl xs)

pub bytes_eq_iff : (xs ys : List ℕ) → (bytes_eq xs ys ≡ true) ↔ (xs ≡ ys)
bytes_eq_iff xs ys = (bytes_eq→eq xs ys, λ e. ground (arith, bytes_eq_refl xs))

instance abbrev pub bytes-Eq : Eq (List ℕ)
bytes-Eq = record { beq = bytes_eq; beq_iff = bytes_eq_iff }

module _ {ℓ} {A : Type ℓ} ⦃e : Eq A⦄ where
  pub beq_refl : (a : A) → e.beq a a ≡ true
  beq_refl a = (e.beq_iff a a).1 refl
