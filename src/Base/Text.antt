-- ===== src/Base/Text.antt =====
-- Texts as lists of bytes: decimal numbers, and what `encoding/hex` reads and writes.
use Prim.Native.Nat.{ℕ, zero, suc, ◌+◌, ◌-◌, ◌*◌, ◌/◌, ◌%◌, ◌<◌}
use mathlib.Core.Path.{◌≡◌, refl}
use mathlib.Core.Bool.{◌&&◌}
use mathlib.Core.Option.{Option, none, some}
use mathlib.Core.List.{List, [], ◌∷◌}
use native.Mathlib.Omega.{arith}
use gca_backend.Base.Tests.{ltb, leb, if◌then◌else◌}
use gca_backend.Base.Lists.{All, length}
use gca_backend.Base.Bytes.{IsByte}

-- The digits in front of `acc`. The fuel bounds their number.
unfoldable pub digits : ℕ → ℕ → List ℕ → List ℕ
digits zero n acc = acc
digits (suc fuel) n acc =
    let rest = digits fuel (n / 10) ((48 + n % 10) ∷ acc) in
    if ltb n 10 then (48 + n) ∷ acc else rest

-- Numbers of 64 bits have at most 20 digits.
unfoldable pub decimal : ℕ → List ℕ
decimal n = digits 20 n []

unfoldable pub hex_digit : ℕ → ℕ
hex_digit n = if ltb n 10 then 48 + n else 87 + n

unfoldable pub hex_value : ℕ → Option ℕ
hex_value c =
    if leb 48 c && leb c 57
    then some (c - 48)
    else if leb 97 c && leb c 102
    then some (c - 87)
    else if leb 65 c && leb c 70
    then some (c - 55)
    else none

-- `hex.EncodeToString`
unfoldable pub encode_hex : List ℕ → List ℕ
encode_hex [] = []
encode_hex (b ∷ bs) = hex_digit (b / 16) ∷ hex_digit (b % 16) ∷ encode_hex bs

abbrev pub add_byte : Option ℕ → Option ℕ → Option (List ℕ) → Option (List ℕ)
add_byte (some high) (some low) (some rest) = some ((16 * high + low) ∷ rest)
add_byte (some high) (some low) none = none
add_byte (some high) none rest = none
add_byte none low rest = none

-- `hex.DecodeString`: `none` for an odd length or a byte that is no digit.
unfoldable pub decode_hex : List ℕ → Option (List ℕ)
decode_hex [] = some []
decode_hex (c ∷ []) = none
decode_hex (c ∷ d ∷ cs) = add_byte (hex_value c) (hex_value d) (decode_hex cs)

hex_value-hex_digit : (n : ℕ) → n < 16 → hex_value (hex_digit n) ≡ some n
unfolding hex_value hex_digit
hex_value-hex_digit n h = ground arith

pub decode_hex-encode_hex : (bs : List ℕ) → All IsByte bs → decode_hex (encode_hex bs) ≡ some bs
unfolding decode_hex encode_hex
decode_hex-encode_hex [] h = refl
decode_hex-encode_hex (b ∷ bs) (h, rest) =
    let high = hex_value-hex_digit (b / 16) (omega arith) in
    let low = hex_value-hex_digit (b % 16) (omega arith) in
    let whole : 16 * (b / 16) + b % 16 ≡ b = omega arith in
    rw (decode_hex, high, low, decode_hex-encode_hex bs rest, whole) refl

pub length-encode_hex : (bs : List ℕ) → length (encode_hex bs) ≡ 2 * length bs
unfolding encode_hex
length-encode_hex [] = omega arith
length-encode_hex (b ∷ bs) = omega (arith, length-encode_hex bs)
