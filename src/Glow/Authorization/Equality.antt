-- ===== src/Glow/Authorization/Equality.antt =====
-- glow/equipment_authorization.go: Go's `==` on authorizations against equality of serialisations.
use gca_backend.Base.{ℕ, ◌%◌, ◌^◌, ◌*◌, ◌≤◌, ◌<◌, ◌≡◌, sym, ap, ◌∙◌, ◌↔◌, ◌≢◌, true, arith}
use gca_backend.Base.Equality.{bytes_eq_iff}
use gca_backend.Glow.Authorization.{
  EquipmentAuthorization, IsAuthorization, float64_eq, authorization_eq, serialize, read_fields,
}
use gca_backend.Glow.Authorization.RoundTrip.{read_fields-serialize}

-- A float64 that is no NaN and not the negative zero.
abbrev pub IsPlain : ℕ → Type 0
IsPlain x = (x < 2 ^ 64) × (x % 2 ^ 63 ≤ 2047 * 2 ^ 52) × (x ≢ 2 ^ 63)

-- An authorization whose coordinates are plain.
pub record IsRegular (ea : EquipmentAuthorization) : Type 0 where
  pub valid : IsAuthorization ea
  pub latitude_plain : IsPlain ea.latitude
  pub longitude_plain : IsPlain ea.longitude

float64_eq_iff : (x y : ℕ) → IsPlain x → IsPlain y → (float64_eq x y ≡ true) ↔ (x ≡ y)
unfolding float64_eq
float64_eq_iff x y hx hy = ground arith

-- Two authorizations whose coordinates are neither NaN nor the negative zero are equal for Go's `==`
-- exactly when they are the same.
pub authorization_eq_iff :
    (a b : EquipmentAuthorization)
    → IsRegular a
    → IsRegular b
    → (authorization_eq a b ≡ true) ↔ (a ≡ b)
unfolding authorization_eq
authorization_eq_iff a b ha hb = (
  λ e. ground (
    arith,
    float64_eq_iff a.latitude b.latitude ha.latitude_plain hb.latitude_plain,
    float64_eq_iff a.longitude b.longitude ha.longitude_plain hb.longitude_plain,
    bytes_eq_iff a.public_key b.public_key,
    bytes_eq_iff a.signature b.signature,
  ),
  λ e. ground (
    arith,
    float64_eq_iff a.latitude b.latitude ha.latitude_plain hb.latitude_plain,
    float64_eq_iff a.longitude b.longitude ha.longitude_plain hb.longitude_plain,
    bytes_eq_iff a.public_key b.public_key,
    bytes_eq_iff a.signature b.signature,
  ),
)

pub serialize_injective :
    (a b : EquipmentAuthorization)
    → IsAuthorization a
    → IsAuthorization b
    → serialize a ≡ serialize b
    → a ≡ b
serialize_injective a b ha hb e =
    sym (read_fields-serialize a ha) ∙ ap read_fields e ∙ read_fields-serialize b hb
