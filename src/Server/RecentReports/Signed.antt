-- ===== src/Server/RecentReports/Signed.antt =====
-- server/api_recent_reports.go: what a successful response holds.
use gca_backend.Base.{
  ℕ, ◌≡◌, refl, ap, sym, ◌∙◌, true, false, some, arith, length, All, Option-cases, inl, inr, ◌==◌,
  take,
}
use gca_backend.Base.Equality.{ℕ-Eq, bytes-Eq}
use gca_backend.Base.Map.{lookup}
use gca_backend.Base.Bytes.{IsByte}
use gca_backend.Base.Text.{encode_hex, decode_hex, decode_hex-encode_hex, length-encode_hex}
use gca_backend.Base.Result.{ok}
use gca_backend.Glow.Signatures.{EthCrypto, PublicKey, IsKeyPair, sign_lem, verify, verify_lem}
use gca_backend.Glow.Report.{EquipmentReport}
use gca_backend.Server.State.{GcaServer, Array}
use gca_backend.Server.Http.{get, respond}
use gca_backend.Server.RecentReports.{
  RecentReportsResponse, ReportsRequest, marshal_reports, get_recent_reports_with_signature,
  recent_reports_handler,
}

-- The response has the array of the device with this key, under a signature of the server.
pub record IsSigned (eth : EthCrypto) (s : GcaServer) (key : PublicKey) (r : RecentReportsResponse)
    : Type 0 where
  pub short_id : ℕ
  pub known : lookup key s.equipment_short_id ≡ some short_id
  pub kept : lookup short_id s.equipment_reports ≡ some r.reports
  pub signed : verify eth s.static_public_key (marshal_reports r.reports) r.signature ≡ true

module _ (eth : EthCrypto) (s : GcaServer)
    (pair : IsKeyPair eth s.static_public_key s.static_private_key) where
  get_reports-IsSigned :
      (key : PublicKey) (r : RecentReportsResponse)
      → get_recent_reports_with_signature eth s key ≡ ok r
      → IsSigned eth s key r
  unfolding get_recent_reports_with_signature
  get_reports-IsSigned key r e = elim (Option-cases (lookup key s.equipment_short_id)) [
    | inl unknown ↦ absurd (ground arith)
    | inr (id, known) ↦ elim (Option-cases (lookup id s.equipment_reports)) [
      | inl missing ↦ absurd (ground arith)
      | inr (reports, kept) ↦
          let signed = sign_lem pair (marshal_reports reports) in
          let same : reports ≡ r.reports = ground arith in
          let signature : take 64 (pair.signature_of (eth.keccak256 (marshal_reports reports)))
              ≡ r.signature =
            ground arith in
          record {
            short_id = id;
            known = known;
            kept = kept ∙ ap some same;
            signed =
                ap (λ a. verify eth s.static_public_key (marshal_reports a) r.signature) (sym same)
                ∙ ap (verify eth s.static_public_key (marshal_reports reports)) (sym signature)
                ∙ verify_lem pair (marshal_reports reports);
          }
    ]
  ]

  handler-decoded :
      (request : ReportsRequest) (r : RecentReportsResponse)
      → recent_reports_handler eth s request ≡ (respond 200, some r)
      → (key : PublicKey) × (decode_hex request.public_key ≡ some key)
        × (get_recent_reports_with_signature eth s key ≡ ok r)
  unfolding recent_reports_handler
  handler-decoded request r e = elim (Option-cases (decode_hex request.public_key)) [
    | inl bad ↦ absurd (ground arith)
    | inr (key, decoded) ↦ (key, decoded, ground (arith, decoded))
  ]

  handler-known :
      (key : PublicKey) (id : ℕ) (reports : Array EquipmentReport)
      → length key ≡ 32
      → All IsByte key
      → lookup key s.equipment_short_id ≡ some id
      → lookup id s.equipment_reports ≡ some reports
      → (r : RecentReportsResponse) × (r.reports ≡ reports)
        × (recent_reports_handler eth s (record { method = get; public_key = encode_hex key })
            ≡ (respond 200, some r))
  unfolding recent_reports_handler get_recent_reports_with_signature
  handler-known key id reports long bytes known kept =
      let nonempty : (length (encode_hex key) == 0) ≡ false =
        ground (arith, length-encode_hex key) in
      let signature = take 64 (pair.signature_of (eth.keccak256 (marshal_reports reports))) in
      (
        record { reports = reports; timeslot_offset = 0; signature = signature },
        refl,
        rw
            (
              nonempty,
              decode_hex-encode_hex key bytes,
              long,
              known,
              kept,
              sign_lem pair (marshal_reports reports),
            )
            refl,
      )

  -- Under the keys of the server: a response of 200 holds the reports of the device whose key the request
  -- spells in hexadecimal, signed by the server; and every device that the server knows gets such a
  -- response, with exactly the array that the server holds.
  pub recent_reports_handler_iff :
      ((request : ReportsRequest) (r : RecentReportsResponse)
        → recent_reports_handler eth s request ≡ (respond 200, some r)
        → (key : PublicKey) × (decode_hex request.public_key ≡ some key) × IsSigned eth s key r)
      × ((key : PublicKey) (id : ℕ) (reports : Array EquipmentReport)
          → length key ≡ 32
          → All IsByte key
          → lookup key s.equipment_short_id ≡ some id
          → lookup id s.equipment_reports ≡ some reports
          → (r : RecentReportsResponse) × (r.reports ≡ reports)
            × (recent_reports_handler eth s (record { method = get; public_key = encode_hex key })
                ≡ (respond 200, some r)))
  recent_reports_handler_iff = (
    λ request r e.
        let (key, decoded, found) = handler-decoded request r e in
        (key, decoded, get_reports-IsSigned key r found),
    handler-known,
  )
