-- ===== src/Glow/Authorization/RoundTrip.antt =====
-- glow/equipment_authorization.go: authorizations are read back as they were written, and the GCA's
-- signature covers every field but itself.
use gca_backend.Base.{
  ℕ, ◌-◌, ◌≡◌, refl, sym, ap, ◌∙◌, List, [], ◌∷◌, ◌++◌, arith, length, All, length-append, take,
  drop, take-append_self, append-nil,
}
use gca_backend.Base.Bytes.{
  put_uint, uint, slice, ascii, IsByte, length-put_uint, uint-put_uint, put_uint-uint-slice,
  slice-append-drop, slice_end,
}
use gca_backend.Base.Chunks.{concat, slice-concat, concat-append}
use gca_backend.Base.Result.{ok}
use gca_backend.Glow.Authorization.{
  EquipmentAuthorization, IsAuthorization, unsigned_fields, serialize, signing_bytes, read_fields,
  deserialize,
}

abbrev fields : EquipmentAuthorization → List (List ℕ)
fields ea = unsigned_fields ea ++ (ea.signature ∷ [])

pub length-serialize :
    (ea : EquipmentAuthorization) → IsAuthorization ea → length (serialize ea) ≡ 148
unfolding serialize
length-serialize ea h = omega (arith, length-append {0}, length-put_uint)

-- Each field stands at its offset.
module _ (ea : EquipmentAuthorization) (h : IsAuthorization ea) where
  at_short_id : slice 0 4 (serialize ea) ≡ put_uint 4 ea.short_id
  unfolding serialize
  at_short_id = slice-concat (fields ea) 0 0 4 _ refl refl (omega (arith, length-put_uint))

  at_public_key : slice 4 36 (serialize ea) ≡ ea.public_key
  unfolding serialize
  at_public_key =
      slice-concat (fields ea) 1 4 36 _ refl (omega (arith, length-put_uint))
        (omega (arith, length-put_uint))

  at_latitude : slice 36 44 (serialize ea) ≡ put_uint 8 ea.latitude
  unfolding serialize
  at_latitude =
      slice-concat (fields ea) 2 36 44 _ refl (omega (arith, length-put_uint))
        (omega (arith, length-put_uint))

  at_longitude : slice 44 52 (serialize ea) ≡ put_uint 8 ea.longitude
  unfolding serialize
  at_longitude =
      slice-concat (fields ea) 3 44 52 _ refl (omega (arith, length-put_uint))
        (omega (arith, length-put_uint))

  at_capacity : slice 52 60 (serialize ea) ≡ put_uint 8 ea.capacity
  unfolding serialize
  at_capacity =
      slice-concat (fields ea) 4 52 60 _ refl (omega (arith, length-put_uint))
        (omega (arith, length-put_uint))

  at_debt : slice 60 68 (serialize ea) ≡ put_uint 8 ea.debt
  unfolding serialize
  at_debt =
      slice-concat (fields ea) 5 60 68 _ refl (omega (arith, length-put_uint))
        (omega (arith, length-put_uint))

  at_expiration : slice 68 72 (serialize ea) ≡ put_uint 4 ea.expiration
  unfolding serialize
  at_expiration =
      slice-concat (fields ea) 6 68 72 _ refl (omega (arith, length-put_uint))
        (omega (arith, length-put_uint))

  at_initialization : slice 72 76 (serialize ea) ≡ put_uint 4 ea.initialization
  unfolding serialize
  at_initialization =
      slice-concat (fields ea) 7 72 76 _ refl (omega (arith, length-put_uint))
        (omega (arith, length-put_uint))

  at_protocol_fee : slice 76 84 (serialize ea) ≡ put_uint 8 ea.protocol_fee
  unfolding serialize
  at_protocol_fee =
      slice-concat (fields ea) 8 76 84 _ refl (omega (arith, length-put_uint))
        (omega (arith, length-put_uint))

  at_signature : slice 84 148 (serialize ea) ≡ ea.signature
  unfolding serialize
  at_signature =
      slice-concat (fields ea) 9 84 148 _ refl (omega (arith, length-put_uint))
        (omega (arith, length-put_uint))

  pub read_fields-serialize : read_fields (serialize ea) ≡ ea
  unfolding read_fields
  read_fields-serialize = λ i. record {
    short_id = (ap uint at_short_id ∙ uint-put_uint 4 ea.short_id h.short_id_fits) i;
    public_key = at_public_key i;
    latitude = (ap uint at_latitude ∙ uint-put_uint 8 ea.latitude h.latitude_fits) i;
    longitude = (ap uint at_longitude ∙ uint-put_uint 8 ea.longitude h.longitude_fits) i;
    capacity = (ap uint at_capacity ∙ uint-put_uint 8 ea.capacity h.capacity_fits) i;
    debt = (ap uint at_debt ∙ uint-put_uint 8 ea.debt h.debt_fits) i;
    expiration = (ap uint at_expiration ∙ uint-put_uint 4 ea.expiration h.expiration_fits) i;
    initialization =
        (ap uint at_initialization ∙ uint-put_uint 4 ea.initialization h.initialization_fits) i;
    protocol_fee =
        (ap uint at_protocol_fee ∙ uint-put_uint 8 ea.protocol_fee h.protocol_fee_fits) i;
    signature = at_signature i;
  }

-- `DeserializeEquipmentAuthorization` reads back every authorization that Go's types allow.
pub deserialize-serialize :
    (ea : EquipmentAuthorization) → IsAuthorization ea → deserialize (serialize ea) ≡ ok ea
unfolding deserialize
deserialize-serialize ea h = ground (arith, length-serialize ea h, read_fields-serialize ea h)

serialize-read_fields : (i : List ℕ) → length i ≡ 148 → All IsByte i → serialize (read_fields i) ≡ i
unfolding serialize read_fields
serialize-read_fields i h bytes = rw (
  put_uint-uint-slice 0 4 i (omega arith) (omega arith) bytes,
  put_uint-uint-slice 36 44 i (omega arith) (omega arith) bytes,
  put_uint-uint-slice 44 52 i (omega arith) (omega arith) bytes,
  put_uint-uint-slice 52 60 i (omega arith) (omega arith) bytes,
  put_uint-uint-slice 60 68 i (omega arith) (omega arith) bytes,
  put_uint-uint-slice 68 72 i (omega arith) (omega arith) bytes,
  put_uint-uint-slice 72 76 i (omega arith) (omega arith) bytes,
  put_uint-uint-slice 76 84 i (omega arith) (omega arith) bytes,
  append-nil,
  slice_end 84 148 i h,
  slice-append-drop 76 84 i (omega arith),
  slice-append-drop 72 76 i (omega arith),
  slice-append-drop 68 72 i (omega arith),
  slice-append-drop 60 68 i (omega arith),
  slice-append-drop 52 60 i (omega arith),
  slice-append-drop 44 52 i (omega arith),
  slice-append-drop 36 44 i (omega arith),
  slice-append-drop 4 36 i (omega arith),
  slice-append-drop 0 4 i (omega arith),
)

-- Writing what was read gives the 148 bytes back.
pub serialize-deserialize :
    (i : List ℕ) (ea : EquipmentAuthorization)
    → All IsByte i
    → deserialize i ≡ ok ea
    → serialize ea ≡ i
unfolding deserialize
serialize-deserialize i ea bytes e =
    ground (arith, λ (h : length i ≡ 148). serialize-read_fields i h bytes)

-- The signed bytes are the prefix and every field but the signature.
pub signing_bytes_lem :
    (ea : EquipmentAuthorization)
    → length ea.signature ≡ 64
    → signing_bytes ea ≡ ascii "EquipmentAuthorization" ++ concat (unsigned_fields ea)
unfolding signing_bytes serialize
signing_bytes_lem ea h =
    ap (λ t. ascii "EquipmentAuthorization" ++ t)
      (ap (take (length (concat (fields ea)) - 64)) whole
        ∙ take-append_self _ (concat (unsigned_fields ea)) _ (
            omega (
              arith,
              ap (length {A = ℕ}) whole,
              length-append (concat (unsigned_fields ea)) ea.signature,
            )))
  where
    whole : concat (fields ea) ≡ concat (unsigned_fields ea) ++ ea.signature
    whole =
        concat-append (unsigned_fields ea) (ea.signature ∷ [])
        ∙ ap (λ t. concat (unsigned_fields ea) ++ t) (append-nil ea.signature)

serialize_lem :
    (ea : EquipmentAuthorization) → serialize ea ≡ concat (unsigned_fields ea) ++ ea.signature
unfolding serialize
serialize_lem ea =
    concat-append (unsigned_fields ea) (ea.signature ∷ [])
    ∙ ap (λ t. concat (unsigned_fields ea) ++ t) (append-nil ea.signature)

-- Two authorizations with the same signed bytes differ in the signature alone.
pub signing_bytes_injective :
    (a b : EquipmentAuthorization)
    → IsAuthorization a
    → IsAuthorization b
    → signing_bytes a ≡ signing_bytes b
    → a ≡ record b { signature = a.signature }
signing_bytes_injective a b ha hb e =
    sym (read_fields-serialize a ha)
    ∙ ap read_fields (
        serialize_lem a
        ∙ ap (λ t. t ++ a.signature) same
        ∙ sym (serialize_lem (record b { signature = a.signature })))
    ∙ read_fields-serialize (record b { signature = a.signature })
        (record {
          short_id_fits = hb.short_id_fits;
          public_key_long = hb.public_key_long;
          latitude_fits = hb.latitude_fits;
          longitude_fits = hb.longitude_fits;
          capacity_fits = hb.capacity_fits;
          debt_fits = hb.debt_fits;
          expiration_fits = hb.expiration_fits;
          initialization_fits = hb.initialization_fits;
          protocol_fee_fits = hb.protocol_fee_fits;
          signature_long = ha.signature_long;
        })
  where
    same : concat (unsigned_fields a) ≡ concat (unsigned_fields b)
    same =
        ap (drop 22)
          (sym (signing_bytes_lem a ha.signature_long) ∙ e ∙ signing_bytes_lem b hb.signature_long)
