-- ===== src/Base/Bytes.antt =====
-- Byte slices as lists of numbers: little-endian numbers (encoding/binary) and `data[a:b]`.
use Prim.Native.Nat.{ℕ, zero, suc, ◌+◌, ◌-◌, ◌*◌, ◌/◌, ◌%◌, ◌^◌, ◌≤◌, ◌<◌}
use mathlib.Core.Path.{◌≡◌, refl, ap, sym, ◌∙◌}
use mathlib.Core.List.{List, [], ◌∷◌, ◌++◌, append-nil}
use Prim.Native.Char.{code}
use Prim.Native.String.{String}
use native.Mathlib.Omega.{arith}
use native.Mathlib.Nat.{pow-suc}
use gca_backend.Base.Lists.{take-append-drop, drop_all, length-append, All-take, All-drop}
use gca_backend.Base.Lists.{length, take, drop, length-take, length-drop, All}
use gca_backend.Base.Lists.{take-append_self, drop-append, take_all}

-- `[]byte("text")`
abbrev pub ascii : String → List ℕ
ascii String.[] = []
ascii (String.◌∷◌ c s) = code c ∷ ascii s

abbrev pub IsByte : ℕ → Type 0
IsByte b = b < 256

-- `binary.LittleEndian.PutUint16/32/64`: `w` bytes, lowest first.
unfoldable pub put_uint : ℕ → ℕ → List ℕ
put_uint zero n = []
put_uint (suc w) n = (n % 256) ∷ put_uint w (n / 256)

-- `binary.LittleEndian.Uint16/32/64`
unfoldable pub uint : List ℕ → ℕ
uint [] = 0
uint (b ∷ bs) = b + 256 * uint bs

pub length-put_uint : (w n : ℕ) → length (put_uint w n) ≡ w
unfolding put_uint
length-put_uint zero n = refl
length-put_uint (suc w) n = ap suc (length-put_uint w (n / 256))

pub put_uint-IsByte : (w n : ℕ) → All IsByte (put_uint w n)
unfolding put_uint
put_uint-IsByte zero n = tt
put_uint-IsByte (suc w) n = (omega arith, put_uint-IsByte w (n / 256))

below_pow-suc : (w n : ℕ) → n < 256 ^ suc w → n / 256 < 256 ^ w
below_pow-suc w n h = omega (arith, pow-suc 256 w)

pub uint-put_uint : (w n : ℕ) → n < 256 ^ w → uint (put_uint w n) ≡ n
unfolding uint put_uint
uint-put_uint zero n h = omega arith
uint-put_uint (suc w) n h = omega (arith, uint-put_uint w (n / 256) (below_pow-suc w n h))

pub put_uint-uint : (bs : List ℕ) → All IsByte bs → put_uint (length bs) (uint bs) ≡ bs
unfolding uint put_uint
put_uint-uint [] h = refl
put_uint-uint (b ∷ bs) (h, hs) =
    let e1 : (b + 256 * uint bs) % 256 ≡ b = omega arith in
    let e2 : (b + 256 * uint bs) / 256 ≡ uint bs = omega arith in
    rw (e1, e2) (ap (λ t. b ∷ t) (put_uint-uint bs hs))

drop_nil : (n : ℕ) → drop {A = ℕ} n [] ≡ []
drop_nil zero = refl
drop_nil (suc n) = refl

-- `data[a:b]`
unfoldable pub slice : ℕ → ℕ → List ℕ → List ℕ
slice a b xs = take (b - a) (drop a xs)

pub length-slice : (a b : ℕ) (xs : List ℕ) → a ≤ b → b ≤ length xs → length (slice a b xs) ≡ b - a
unfolding slice
length-slice a b xs h k = omega (arith, length-take (b - a) (drop a xs), length-drop a xs)

-- The slice that starts behind `pre` and is as long as `mid`.
pub slice_mid :
    (a b : ℕ) (pre mid post : List ℕ)
    → length pre ≡ a
    → length mid + a ≡ b
    → slice a b (pre ++ (mid ++ post)) ≡ mid
unfolding slice
slice_mid a b pre mid post h k =
    ap (take (b - a)) (drop-append a pre (mid ++ post) (omega arith) ∙ at_front)
    ∙ take-append_self (b - a) mid post (omega arith)
  where
    at_front : drop (a - length pre) (mid ++ post) ≡ mid ++ post
    at_front = let e : a - length pre ≡ 0 = omega arith in rw e

pub drop-drop : (n m : ℕ) (xs : List ℕ) → drop n (drop m xs) ≡ drop (m + n) xs
drop-drop n zero xs = let e : 0 + n ≡ n = omega arith in rw e
drop-drop n (suc m) [] = drop_nil n ∙ sym (drop_nil (suc m + n))
drop-drop n (suc m) (x ∷ xs) =
    let e : suc m + n ≡ suc (m + n) = omega arith in rw e (drop-drop n m xs)

-- A slice and what follows it.
pub slice-append-drop : (a b : ℕ) (xs : List ℕ) → a ≤ b → slice a b xs ++ drop b xs ≡ drop a xs
unfolding slice
slice-append-drop a b xs h =
    let e : a + (b - a) ≡ b = omega arith in
    ap (λ t. take (b - a) (drop a xs) ++ t)
      (ap (λ (k : ℕ). drop k xs) (sym e) ∙ sym (drop-drop (b - a) a xs))
    ∙ take-append-drop (b - a) (drop a xs)

pub slice-IsByte : (a b : ℕ) (xs : List ℕ) → All IsByte xs → All IsByte (slice a b xs)
unfolding slice
slice-IsByte a b xs h = All-take IsByte (b - a) (drop a xs) (All-drop IsByte a xs h)

-- A number read from `w` bytes and written again.
pub put_uint-uint-slice :
    (a b : ℕ) (xs : List ℕ)
    → a ≤ b
    → b ≤ length xs
    → All IsByte xs
    → put_uint (b - a) (uint (slice a b xs)) ≡ slice a b xs
put_uint-uint-slice a b xs h k bytes =
    rw (← length-slice a b xs h k) (put_uint-uint (slice a b xs) (slice-IsByte a b xs bytes))

pub put_uint_injective :
    (w m n : ℕ) → m < 256 ^ w → n < 256 ^ w → put_uint w m ≡ put_uint w n → m ≡ n
put_uint_injective w m n hm hn e = sym (uint-put_uint w m hm) ∙ ap uint e ∙ uint-put_uint w n hn

-- A slice up to the end.
pub slice_end : (a b : ℕ) (xs : List ℕ) → length xs ≡ b → slice a b xs ≡ drop a xs
unfolding slice
slice_end a b xs h = take_all (b - a) (drop a xs) (omega (arith, length-drop a xs))

-- `copy(dst[:], src)`: as many bytes as both have; the rest of `dst` stays.
unfoldable pub copy : List ℕ → List ℕ → List ℕ
copy dst src = take (length dst) src ++ drop (length src) dst

pub copy-same : (dst src : List ℕ) → length src ≡ length dst → copy dst src ≡ src
unfolding copy
copy-same dst src h =
    ap (λ t. t ++ drop (length src) dst) (take_all (length dst) src (omega arith))
    ∙ ap (λ t. src ++ t) (drop_all (length src) dst (omega arith))
    ∙ append-nil src

pub copy-append : (dst src rest : List ℕ) → length src ≡ length dst → copy dst (src ++ rest) ≡ src
unfolding copy
copy-append dst src rest h =
    ap (λ t. t ++ drop (length (src ++ rest)) dst) (take-append_self (length dst) src rest h)
    ∙ ap (λ t. src ++ t)
        (drop_all (length (src ++ rest)) dst (omega (arith, length-append src rest)))
    ∙ append-nil src
