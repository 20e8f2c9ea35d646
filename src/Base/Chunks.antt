-- ===== src/Base/Chunks.antt =====
-- A serialisation as the list of its fields, and what a slice of it reads.
use Prim.Native.Nat.{ℕ, zero, suc, ◌+◌}
use mathlib.Core.Path.{◌≡◌, refl, ap, ◌∙◌, sym}
use mathlib.Core.List.{List, [], ◌∷◌, ◌++◌, append_assoc}
use mathlib.Core.Option.{some}
use native.Mathlib.Omega.{arith}
use gca_backend.Base.Lists.{length, length-append, get_elem?}
use gca_backend.Base.Bytes.{slice, slice_mid}

abbrev pub concat : List (List ℕ) → List ℕ
concat [] = []
concat (c ∷ cs) = c ++ concat cs

-- The number of bytes before field `i`.
abbrev pub offset : List (List ℕ) → ℕ → ℕ
offset [] i = 0
offset (c ∷ cs) zero = 0
offset (c ∷ cs) (suc i) = length c + offset cs i

concat_behind :
    (pre : List ℕ) (cs : List (List ℕ)) (i a b : ℕ) (c : List ℕ)
    → get_elem? cs i ≡ some c
    → length pre + offset cs i ≡ a
    → length c + a ≡ b
    → slice a b (pre ++ concat cs) ≡ c
concat_behind pre [] i a b c e h k = ground arith
concat_behind pre (d ∷ cs) zero a b c e h k =
    let same : d ≡ c = ground arith in rw same (slice_mid a b pre c (concat cs) (omega arith) k)
concat_behind pre (d ∷ cs) (suc i) a b c e h k =
    ap (slice a b) (sym (append_assoc pre d (concat cs)))
    ∙ concat_behind (pre ++ d) cs i a b c e (omega (arith, length-append pre d)) k

-- Field `i` of the serialisation is read by the slice from its offset on.
pub slice-concat :
    (cs : List (List ℕ)) (i a b : ℕ) (c : List ℕ)
    → get_elem? cs i ≡ some c
    → offset cs i ≡ a
    → length c + a ≡ b
    → slice a b (concat cs) ≡ c
slice-concat cs i a b c e h k = concat_behind [] cs i a b c e (omega arith) k

pub concat-append : (cs ds : List (List ℕ)) → concat (cs ++ ds) ≡ concat cs ++ concat ds
concat-append [] ds = refl
concat-append (c ∷ cs) ds = rw (concat-append cs ds) (sym (append_assoc c (concat cs) (concat ds)))
