-- ===== src/Glow/Report.antt =====
-- glow/report.go: the reports that equipment sends, 80 bytes each.
pub mod RoundTrip
use gca_backend.Base.{
  ℕ, ◌+◌, ◌^◌, ◌<◌, ◌≡◌, refl, List, [], ◌∷◌, ◌++◌, arith, length, take, drop, All, if◌then◌else◌,
  ◌==◌,
}
use gca_backend.Base.Bytes.{put_uint, uint, slice, ascii, IsByte, length-put_uint, uint-put_uint}
use gca_backend.Base.Chunks.{concat, slice-concat}
use gca_backend.Base.Result.{Result, ok, err, bad_length}
use gca_backend.Glow.Signatures.{Signature}

pub record EquipmentReport : Type 0 where
  pub short_id : ℕ
  pub timeslot : ℕ
  pub power_output : ℕ
  pub signature : Signature

-- The values that Go's types allow.
pub record IsReport (r : EquipmentReport) : Type 0 where
  pub short_id_fits : r.short_id < 2 ^ 32
  pub timeslot_fits : r.timeslot < 2 ^ 32
  pub power_output_fits : r.power_output < 2 ^ 64
  pub signature_long : length r.signature ≡ 64

unfoldable pub signing_bytes : EquipmentReport → List ℕ
signing_bytes er = concat (
    ascii "EquipmentReport"
    ∷ put_uint 4 er.short_id
    ∷ put_uint 4 er.timeslot
    ∷ put_uint 8 er.power_output
    ∷ [])

abbrev pub fields : EquipmentReport → List (List ℕ)
fields er =
    put_uint 4 er.short_id ∷ put_uint 4 er.timeslot ∷ put_uint 8 er.power_output ∷ er.signature ∷ []

unfoldable pub serialize : EquipmentReport → List ℕ
serialize er = concat (fields er)

-- The four fields of 80 bytes.
unfoldable pub read_fields : List ℕ → EquipmentReport
read_fields i = record {
  short_id = uint (slice 0 4 i);
  timeslot = uint (slice 4 8 i);
  power_output = uint (slice 8 16 i);
  signature = slice 16 80 i;
}

unfoldable pub deserialize_report : List ℕ → Result EquipmentReport
deserialize_report i = if length i == 80 then ok (read_fields i) else err bad_length
