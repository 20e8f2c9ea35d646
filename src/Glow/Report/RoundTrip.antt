-- ===== src/Glow/Report/RoundTrip.antt =====
-- glow/report.go: reports are read back as they were written, and signatures cover every field.
use gca_backend.Base.{
  ℕ, ◌≡◌, refl, sym, ap, ◌∙◌, List, [], ◌∷◌, arith, length, All, length-append, append-nil,
}
use gca_backend.Base.Bytes.{
  put_uint, uint, slice, ascii, IsByte, length-put_uint, uint-put_uint, put_uint-uint-slice,
  slice-append-drop, slice_end, put_uint_injective,
}
use gca_backend.Base.Chunks.{concat, slice-concat}
use gca_backend.Base.Result.{ok}
use gca_backend.Glow.Report.{
  EquipmentReport, IsReport, fields, serialize, signing_bytes, read_fields, deserialize_report,
}

pub length-serialize :
    (er : EquipmentReport) → length er.signature ≡ 64 → length (serialize er) ≡ 80
unfolding serialize
length-serialize er h = omega (arith, length-append {0}, length-put_uint)

pub read_fields-serialize : (er : EquipmentReport) → IsReport er → read_fields (serialize er) ≡ er
unfolding serialize read_fields
read_fields-serialize er h = λ i. record {
  short_id = (ap uint e0 ∙ uint-put_uint 4 er.short_id h.short_id_fits) i;
  timeslot = (ap uint e1 ∙ uint-put_uint 4 er.timeslot h.timeslot_fits) i;
  power_output = (ap uint e2 ∙ uint-put_uint 8 er.power_output h.power_output_fits) i;
  signature =
      slice-concat (fields er) 3 16 80 er.signature refl (omega (arith, length-put_uint))
        (omega (arith, h.signature_long)) i;
}
  where
    e0 : slice 0 4 (concat (fields er)) ≡ put_uint 4 er.short_id
    e0 = slice-concat (fields er) 0 0 4 _ refl refl (omega (arith, length-put_uint))

    e1 : slice 4 8 (concat (fields er)) ≡ put_uint 4 er.timeslot
    e1 =
        slice-concat (fields er) 1 4 8 _ refl (omega (arith, length-put_uint))
          (omega (arith, length-put_uint))

    e2 : slice 8 16 (concat (fields er)) ≡ put_uint 8 er.power_output
    e2 =
        slice-concat (fields er) 2 8 16 _ refl (omega (arith, length-put_uint))
          (omega (arith, length-put_uint))

-- `DeserializeReport` reads back every report that Go's types allow.
pub deserialize_report-serialize :
    (er : EquipmentReport) → IsReport er → deserialize_report (serialize er) ≡ ok er
unfolding deserialize_report
deserialize_report-serialize er h =
    ground (arith, length-serialize er h.signature_long, read_fields-serialize er h)

serialize-read_fields : (i : List ℕ) → length i ≡ 80 → All IsByte i → serialize (read_fields i) ≡ i
unfolding serialize read_fields
serialize-read_fields i h bytes = rw (
  put_uint-uint-slice 0 4 i (omega arith) (omega arith) bytes,
  put_uint-uint-slice 4 8 i (omega arith) (omega arith) bytes,
  put_uint-uint-slice 8 16 i (omega arith) (omega arith) bytes,
  append-nil,
  slice_end 16 80 i h,
  slice-append-drop 8 16 i (omega arith),
  slice-append-drop 4 8 i (omega arith),
  slice-append-drop 0 4 i (omega arith),
)

-- Writing what was read gives the 80 bytes back.
pub serialize-deserialize_report :
    (i : List ℕ) (er : EquipmentReport)
    → All IsByte i
    → deserialize_report i ≡ ok er
    → serialize er ≡ i
unfolding deserialize_report
serialize-deserialize_report i er bytes e =
    ground (arith, λ (h : length i ≡ 80). serialize-read_fields i h bytes)

abbrev signed : EquipmentReport → List (List ℕ)
signed r =
    ascii "EquipmentReport"
    ∷ put_uint 4 r.short_id
    ∷ put_uint 4 r.timeslot
    ∷ put_uint 8 r.power_output
    ∷ []

module _ (r : EquipmentReport) where
  signed_short_id : slice 15 19 (signing_bytes r) ≡ put_uint 4 r.short_id
  unfolding signing_bytes
  signed_short_id = slice-concat (signed r) 1 15 19 _ refl refl (omega (arith, length-put_uint))

  signed_timeslot : slice 19 23 (signing_bytes r) ≡ put_uint 4 r.timeslot
  unfolding signing_bytes
  signed_timeslot =
      slice-concat (signed r) 2 19 23 _ refl (omega (arith, length-put_uint))
        (omega (arith, length-put_uint))

  signed_power_output : slice 23 31 (signing_bytes r) ≡ put_uint 8 r.power_output
  unfolding signing_bytes
  signed_power_output =
      slice-concat (signed r) 3 23 31 _ refl (omega (arith, length-put_uint))
        (omega (arith, length-put_uint))

-- The signed bytes determine the three fields that they cover.
pub signing_bytes_injective :
    (a b : EquipmentReport)
    → IsReport a
    → IsReport b
    → signing_bytes a ≡ signing_bytes b
    → (a.short_id ≡ b.short_id) × (a.timeslot ≡ b.timeslot) × (a.power_output ≡ b.power_output)
signing_bytes_injective a b ha hb e = (
  put_uint_injective 4 _ _ ha.short_id_fits hb.short_id_fits
      (sym (signed_short_id a) ∙ ap (slice 15 19) e ∙ signed_short_id b),
  put_uint_injective 4 _ _ ha.timeslot_fits hb.timeslot_fits
      (sym (signed_timeslot a) ∙ ap (slice 19 23) e ∙ signed_timeslot b),
  put_uint_injective 8 _ _ ha.power_output_fits hb.power_output_fits
      (sym (signed_power_output a) ∙ ap (slice 23 31) e ∙ signed_power_output b),
)
