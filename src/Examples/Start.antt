-- ===== src/Examples/Start.antt =====
-- The theorems on the start of a server and on the recent reports, for the servers of the examples.
use gca_backend.Base.{ℕ, ◌≡◌, refl, some, none, true, [], ◌∷◌, ◌++◌, All, length}
use gca_backend.Base.Equality.{ℕ-Eq, bytes-Eq, bytes_eq}
use gca_backend.Base.Map.{lookup}
use gca_backend.Base.Bytes.{IsByte, copy}
use gca_backend.Base.Text.{encode_hex, decode_hex}
use gca_backend.Base.Result.{ok, err, duplicate, unknown_equipment}
use gca_backend.Glow.Signatures.{PublicKey, verify, generate_key_pair, generate_loop}
use gca_backend.Glow.Report.{EquipmentReport}
use gca_backend.Glow.Authorization.{authorization_eq}
use gca_backend.Server.State.{GcaServer, Array, append_file}
use gca_backend.Server.Http.{get, respond}
use gca_backend.Server.Registration.{
  register_gca, load_server_keys, load_gca_temp_key, load_gca_pubkey,
}
use gca_backend.Server.Equipment.{
  save_equipment, settle, ban_equipment, add_recent_equipment_auth, load_equipment,
}
use gca_backend.Server.Equipment.Restart.{authorize_all}
use gca_backend.Server.Reports.{load_equipment_reports}
use gca_backend.Server.Reports.Safety.{integrate_all}
use gca_backend.Server.Reports.Restart.{report_file}
use gca_backend.Server.Weeks.{load_equipment_history, load_history_loop}
use gca_backend.Server.RecentReports.{ReportsRequest, RecentReportsResponse, recent_reports_handler}
use gca_backend.Server.RecentReports.Signed.{IsSigned, recent_reports_handler_iff}
use gca_backend.Server.Start.{new_gca_server}
use gca_backend.Server.Start.Files.{fresh_disk}
use gca_backend.Server.Start.Restart.{new_gca_server-restart}
use gca_backend.Server.Start.Stuck.{load_equipment_reports-save_equipment}
use gca_backend.Examples.{
  toy_crypto, key_of, key_pair, server, device, report, disk, is_ok, value_or, is_ok→value,
}
use gca_backend.Examples.Glow.{
  device-IsRegular, other_device-IsRegular, other_device, report-IsReport,
}
use gca_backend.Examples.Equipment.{registration}

-- A server that has just started.
abbrev fresh : GcaServer
fresh =
    value_or server
      (new_gca_server toy_crypto (some (key_of 8) ∷ []) true none (fresh_disk (key_of 3)))

fresh_starts :
    is_ok (new_gca_server toy_crypto (some (key_of 8) ∷ []) true none (fresh_disk (key_of 3)))
    ≡ true
unfolding new_gca_server load_server_keys load_gca_temp_key load_gca_pubkey load_equipment
    load_equipment_history load_history_loop load_equipment_reports generate_key_pair generate_loop
fresh_starts = refl

fresh_registered : (register_gca toy_crypto fresh registration).1 ≡ ok tt
unfolding new_gca_server load_server_keys load_gca_temp_key load_gca_pubkey load_equipment
    load_equipment_history load_history_loop load_equipment_reports generate_key_pair generate_loop
    register_gca verify bytes_eq copy
fresh_registered = refl

new_gca_server-restart_example :
    new_gca_server toy_crypto [] true none
      (authorize_all toy_crypto
        (register_gca toy_crypto fresh registration).0
        (device ∷ other_device ∷ [])).disk
    ≡ ok (
        authorize_all toy_crypto
          (register_gca toy_crypto fresh registration).0
          (device ∷ other_device ∷ []))
new_gca_server-restart_example =
    new_gca_server-restart toy_crypto (some (key_of 8) ∷ []) [] (key_of 3) (key_of 8) (key_of 8)
      fresh registration (device ∷ other_device ∷ []) refl made refl refl
      (is_ok→value server
        (new_gca_server toy_crypto (some (key_of 8) ∷ []) true none (fresh_disk (key_of 3)))
        fresh_starts)
      refl fresh_registered (device-IsRegular, (other_device-IsRegular, tt))
  where
    made : generate_key_pair toy_crypto (some (key_of 8) ∷ []) ≡ ok (key_of 8, key_of 8)
    made = unfold generate_key_pair generate_loop in refl

-- The server with a report of the device in its file.
abbrev reported : GcaServer
reported = record server {
  disk = record disk { reports = some (report_file ([] ++ (report 2020 500 ∷ []))) };
}

abbrev banned : GcaServer
banned = (save_equipment reported other_device).0

reported_conflict : (save_equipment reported other_device).1 ≡ err duplicate
unfolding save_equipment lookup authorization_eq bytes_eq append_file settle
reported_conflict = refl

load_equipment_reports-save_equipment_example :
    load_equipment_reports toy_crypto banned ≡ err unknown_equipment
load_equipment_reports-save_equipment_example =
    load_equipment_reports-save_equipment toy_crypto reported banned other_device [] []
      (report 2020 500) reported_conflict refl kept (report-IsReport, tt) tt
      (unfold integrate_all in refl)
  where
    kept : banned.disk.reports ≡ some (report_file ([] ++ (report 2020 500 ∷ [])))
    kept =
        unfold save_equipment lookup authorization_eq bytes_eq append_file settle ban_equipment
          add_recent_equipment_auth in
        refl

recent_reports_handler_iff_example :
    ((request : ReportsRequest) (r : RecentReportsResponse)
      → recent_reports_handler toy_crypto server request ≡ (respond 200, some r)
      → (key : PublicKey) × (decode_hex request.public_key ≡ some key)
        × IsSigned toy_crypto server key r)
    × ((key : PublicKey) (id : ℕ) (reports : Array EquipmentReport)
        → length key ≡ 32
        → All IsByte key
        → lookup key server.equipment_short_id ≡ some id
        → lookup id server.equipment_reports ≡ some reports
        → (r : RecentReportsResponse) × (r.reports ≡ reports)
          × (recent_reports_handler toy_crypto server
                (record { method = get; public_key = encode_hex key })
              ≡ (respond 200, some r)))
recent_reports_handler_iff_example = recent_reports_handler_iff toy_crypto server (key_pair 9)
