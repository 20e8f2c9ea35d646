-- ===== src/Client/History/Readings/Slices.antt =====
-- Slices of byte lists that are put together or cut: what stands at a place of the history file.
use gca_backend.Base.{
  ℕ, zero, suc, ◌+◌, ◌-◌, ◌≤◌, ◌≡◌, refl, ap, ◌∙◌, List, [], ◌∷◌, ◌++◌, arith, length, take, drop,
  replicate, length-drop, drop-append,
}
use gca_backend.Base.Equality.{ℕ-Eq}
use gca_backend.Base.Bytes.{slice, drop-drop}

pub take-append_front : (n : ℕ) (xs ys : List ℕ) → n ≤ length xs → take n (xs ++ ys) ≡ take n xs
take-append_front zero xs ys h = refl
take-append_front (suc n) [] ys h = absurd (omega arith)
take-append_front (suc n) (x ∷ xs) ys h = ap (λ t. x ∷ t) (take-append_front n xs ys (omega arith))

pub drop-append_front :
    (n : ℕ) (xs ys : List ℕ) → n ≤ length xs → drop n (xs ++ ys) ≡ drop n xs ++ ys
drop-append_front zero xs ys h = refl
drop-append_front (suc n) [] ys h = absurd (omega arith)
drop-append_front (suc n) (x ∷ xs) ys h = drop-append_front n xs ys (omega arith)

-- A slice within the first part.
pub slice_front :
    (a b : ℕ) (xs ys : List ℕ) → a ≤ b → b ≤ length xs → slice a b (xs ++ ys) ≡ slice a b xs
unfolding slice
slice_front a b xs ys h k =
    ap (take (b - a)) (drop-append_front a xs ys (omega arith))
    ∙ take-append_front (b - a) (drop a xs) ys (omega (arith, length-drop a xs))

-- A slice behind the first part.
pub slice_behind :
    (a b : ℕ) (xs ys : List ℕ)
    → length xs ≤ a
    → a ≤ b
    → slice a b (xs ++ ys) ≡ slice (a - length xs) (b - length xs) ys
unfolding slice
slice_behind a b xs ys h k =
    let e : b - a ≡ b - length xs - (a - length xs) = omega arith in
    ap (take (b - a)) (drop-append a xs ys h) ∙ ap (λ (n : ℕ). take n (drop (a - length xs) ys)) e

pub slice-drop :
    (a b n : ℕ) (xs : List ℕ) → a ≤ b → slice a b (drop n xs) ≡ slice (n + a) (n + b) xs
unfolding slice
slice-drop a b n xs h =
    let e : b - a ≡ n + b - (n + a) = omega arith in
    ap (take (b - a)) (drop-drop a n xs) ∙ ap (λ (k : ℕ). take k (drop (n + a) xs)) e

pub take-take : (m n : ℕ) (xs : List ℕ) → m ≤ n → take m (take n xs) ≡ take m xs
take-take zero n xs h = refl
take-take (suc m) zero xs h = absurd (omega arith)
take-take (suc m) (suc n) [] h = refl
take-take (suc m) (suc n) (x ∷ xs) h = ap (λ t. x ∷ t) (take-take m n xs (omega arith))

pub slice-take : (a b n : ℕ) (xs : List ℕ) → a ≤ b → b ≤ n → slice a b (take n xs) ≡ slice a b xs
unfolding slice
slice-take zero b n xs h k = take-take (b - 0) n xs (omega arith)
slice-take (suc a) zero n xs h k = absurd (omega arith)
slice-take (suc a) (suc b) zero xs h k = absurd (omega arith)
slice-take (suc a) (suc b) (suc n) [] h k = refl
slice-take (suc a) (suc b) (suc n) (x ∷ xs) h k =
    let e : suc b - suc a ≡ b - a = omega arith in
    rw e (slice-take a b n xs (omega arith) (omega arith))

pub drop-replicate : (n m x : ℕ) → drop n (replicate m x) ≡ replicate (m - n) x
drop-replicate zero m x = let e : m - 0 ≡ m = omega arith in rw e refl
drop-replicate (suc n) zero x = let e : 0 - suc n ≡ 0 = omega arith in rw e refl
drop-replicate (suc n) (suc m) x =
    let e : suc m - suc n ≡ m - n = omega arith in rw e (drop-replicate n m x)

pub take-replicate : (n m x : ℕ) → n ≤ m → take n (replicate m x) ≡ replicate n x
take-replicate zero m x h = refl
take-replicate (suc n) zero x h = absurd (omega arith)
take-replicate (suc n) (suc m) x h = ap (λ t. x ∷ t) (take-replicate n m x (omega arith))

pub slice-replicate :
    (a b m x : ℕ) → a ≤ b → b ≤ m → slice a b (replicate m x) ≡ replicate (b - a) x
unfolding slice
slice-replicate a b m x h k =
    ap (take (b - a)) (drop-replicate a m x) ∙ take-replicate (b - a) (m - a) x (omega arith)
