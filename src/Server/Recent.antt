-- ===== src/Server/Recent.antt =====
-- The bounded lists `recentReports` and `recentEquipmentAuths`: append, and cut when too long.
use gca_backend.Base.{
  ℕ, ◌/◌, ◌≤◌, List, [], ◌∷◌, ◌++◌, arith, ltb, if◌then◌else◌, length, take, drop, length-append,
  length-take,
}

-- `copy(xs[:], xs[half:])` and `xs[:half]`: what is kept are the `half` elements from `half` on.
module _ {ℓ} {A : Type ℓ} where
  abbrev pub cut : List A → List A
  cut xs = let half = length xs / 2 in take half (drop half xs)

  unfoldable pub add_recent : ℕ → List A → A → List A
  add_recent most xs x = let xs' = xs ++ (x ∷ []) in if ltb most (length xs') then cut xs' else xs'

  -- The list never grows past its bound.
  pub length-add_recent :
      (most : ℕ) (xs : List A) (x : A) → length xs ≤ most → length (add_recent most xs x) ≤ most
  unfolding add_recent
  length-add_recent most xs x h = ground (
    arith,
    length-append xs (x ∷ []),
    length-take (length (xs ++ (x ∷ [])) / 2) (drop (length (xs ++ (x ∷ [])) / 2) (xs ++ (x ∷ []))),
  )
