-- ===== src/Glow/Authorization.antt =====
-- glow/equipment_authorization.go: what a GCA signs for a piece of equipment, 148 bytes.
-- A float64 stands as its bits (`math.Float64bits`); Go's `==` on floats is `float64_eq`.
pub mod RoundTrip
pub mod Equality
use gca_backend.Base.{
  ℕ, ◌+◌, ◌^◌, ◌%◌, ◌<◌, ◌≡◌, List, [], ◌∷◌, ◌++◌, Bool, true, false, ◌&&◌, ◌||◌, length, take,
  drop, if◌then◌else◌, ◌==◌, leb, ltb, not, ◌-◌, ◌*◌,
}
use gca_backend.Base.Bytes.{put_uint, uint, slice, ascii}
use gca_backend.Base.Chunks.{concat}
use gca_backend.Base.Equality.{bytes_eq}
use gca_backend.Base.Result.{Result, ok, err, bad_length}
use gca_backend.Glow.Signatures.{PublicKey, Signature}

pub record EquipmentAuthorization : Type 0 where
  pub short_id : ℕ
  pub public_key : PublicKey
  pub latitude : ℕ
  pub longitude : ℕ
  pub capacity : ℕ
  pub debt : ℕ
  pub expiration : ℕ
  pub initialization : ℕ
  pub protocol_fee : ℕ
  pub signature : Signature

-- The values that Go's types allow.
pub record IsAuthorization (ea : EquipmentAuthorization) : Type 0 where
  pub short_id_fits : ea.short_id < 2 ^ 32
  pub public_key_long : length ea.public_key ≡ 32
  pub latitude_fits : ea.latitude < 2 ^ 64
  pub longitude_fits : ea.longitude < 2 ^ 64
  pub capacity_fits : ea.capacity < 2 ^ 64
  pub debt_fits : ea.debt < 2 ^ 64
  pub expiration_fits : ea.expiration < 2 ^ 32
  pub initialization_fits : ea.initialization < 2 ^ 32
  pub protocol_fee_fits : ea.protocol_fee < 2 ^ 64
  pub signature_long : length ea.signature ≡ 64

-- All fields of the serialisation but the signature.
abbrev pub unsigned_fields : EquipmentAuthorization → List (List ℕ)
unsigned_fields ea =
    put_uint 4 ea.short_id
    ∷ ea.public_key
    ∷ put_uint 8 ea.latitude
    ∷ put_uint 8 ea.longitude
    ∷ put_uint 8 ea.capacity
    ∷ put_uint 8 ea.debt
    ∷ put_uint 4 ea.expiration
    ∷ put_uint 4 ea.initialization
    ∷ put_uint 8 ea.protocol_fee
    ∷ []

unfoldable pub serialize : EquipmentAuthorization → List ℕ
serialize ea = concat (unsigned_fields ea ++ (ea.signature ∷ []))

-- The serialisation without its last 64 bytes, behind the prefix.
unfoldable pub signing_bytes : EquipmentAuthorization → List ℕ
unfolding serialize
signing_bytes ea =
    let serialization = serialize ea in
    ascii "EquipmentAuthorization" ++ take (length serialization - 64) serialization

unfoldable pub read_fields : List ℕ → EquipmentAuthorization
read_fields bytes = record {
  short_id = uint (slice 0 4 bytes);
  public_key = slice 4 36 bytes;
  latitude = uint (slice 36 44 bytes);
  longitude = uint (slice 44 52 bytes);
  capacity = uint (slice 52 60 bytes);
  debt = uint (slice 60 68 bytes);
  expiration = uint (slice 68 72 bytes);
  initialization = uint (slice 72 76 bytes);
  protocol_fee = uint (slice 76 84 bytes);
  signature = slice 84 148 bytes;
}

unfoldable pub deserialize : List ℕ → Result EquipmentAuthorization
unfolding read_fields
deserialize bytes = if length bytes == 148 then ok (read_fields bytes) else err bad_length

-- IEEE 754: a NaN has all eleven exponent bits set and a fraction, and equals nothing.
abbrev is_nan : ℕ → Bool
is_nan x = ltb (2047 * 2 ^ 52) (x % 2 ^ 63)

-- The two zeros are equal.
unfoldable pub float64_eq : ℕ → ℕ → Bool
float64_eq x y =
    not (is_nan x) && not (is_nan y) && (x == y || (x % 2 ^ 63 == 0 && y % 2 ^ 63 == 0))

-- Go's `current == ea` on structs, field by field.
unfoldable pub authorization_eq : EquipmentAuthorization → EquipmentAuthorization → Bool
authorization_eq a b =
    a.short_id == b.short_id
    && bytes_eq a.public_key b.public_key
    && float64_eq a.latitude b.latitude
    && float64_eq a.longitude b.longitude
    && a.capacity == b.capacity
    && a.debt == b.debt
    && a.expiration == b.expiration
    && a.initialization == b.initialization
    && a.protocol_fee == b.protocol_fee
    && bytes_eq a.signature b.signature
