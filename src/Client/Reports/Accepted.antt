-- ===== src/Client/Reports/Accepted.antt =====
-- client/reports.go and server/report_listener_udp.go: the server takes the reports of its devices.
use gca_backend.Base.{
  ℕ, ◌^◌, ◌<◌, ◌≡◌, refl, some, List, arith, length, take, length-take, ◌==◌, replicate, true,
}
use gca_backend.Base.Equality.{ℕ-Eq}
use gca_backend.Base.Map.{lookup}
use gca_backend.Base.Result.{ok}
use gca_backend.Glow.Signatures.{EthCrypto, Signature, IsKeyPair, sign_lem, verify, verify_lem}
use gca_backend.Glow.Report.{EquipmentReport, IsReport, signing_bytes, serialize}
use gca_backend.Glow.Report.RoundTrip.{length-serialize, read_fields-serialize}
use gca_backend.Glow.Authorization.{EquipmentAuthorization}
use gca_backend.Server.State.{GcaServer}
use gca_backend.Server.Reports.{parse_report}
use gca_backend.Client.State.{Client}
use gca_backend.Client.Reports.{EnergyRecord, report_of, static_send_report}

-- A report of the right sizes, signed by the device that it names, is parsed from its bytes.
pub parse_serialized :
    (eth : EthCrypto) (s : GcaServer) (r : EquipmentReport) (ea : EquipmentAuthorization)
    → IsReport r
    → lookup r.short_id s.equipment ≡ some ea
    → verify eth ea.public_key (signing_bytes r) r.signature ≡ true
    → parse_report eth s (serialize r) ≡ ok r
unfolding parse_report
parse_serialized eth s r ea h known valid =
    let sized : (length (serialize r) == 80) ≡ true =
      ground (arith, length-serialize r h.signature_long) in
    rw (sized, read_fields-serialize r h, known, valid) refl

-- What a device sends for a record, the server that authorized the device under this short ID parses as
-- that record's report.
pub parse_report-static_send_report :
    (eth : EthCrypto) (c : Client) (er : EnergyRecord) (s : GcaServer) (ea : EquipmentAuthorization)
    → IsKeyPair eth ea.public_key c.static_priv_key
    → lookup c.short_id s.equipment ≡ some ea
    → c.short_id < 2 ^ 32
    → er.timeslot < 2 ^ 32
    → er.energy < 2 ^ 64
    → (bytes : List ℕ) × (signature : Signature) × (static_send_report eth c er ≡ ok bytes)
      × (parse_report eth s bytes ≡ ok (report_of c er signature))
unfolding static_send_report signing_bytes
parse_report-static_send_report eth c er s ea key_pair known id_fits timeslot_fits energy_fits =
    let message = signing_bytes (report_of c er (replicate 64 0)) in
    let hash = eth.keccak256 message in
    let signature = take 64 (key_pair.signature_of hash) in
    let signed = sign_lem key_pair message in
    let long : length signature ≡ 64 =
      omega (arith, length-take 64 (key_pair.signature_of hash), key_pair.long hash) in
    (
      serialize (report_of c er signature),
      signature,
      rw signed refl,
      parse_serialized eth s (report_of c er signature) ea
          (record {
            short_id_fits = id_fits;
            timeslot_fits = timeslot_fits;
            power_output_fits = energy_fits;
            signature_long = long;
          })
          known (verify_lem key_pair message),
    )
