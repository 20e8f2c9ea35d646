-- ===== src/Server/Reports.antt =====
-- server/report_listener_udp.go and server/report_persist.go: how a report enters the state.
pub mod Slots
pub mod Safety
pub mod Handler
pub mod Restart
pub mod Arrivals
use gca_backend.Base.{
  ℕ, zero, suc, ◌+◌, ◌-◌, ◌*◌, ◌/◌, ◌%◌, ◌^◌, Bool, true, false, ◌&&◌, ◌||◌, Option, none, some,
  List, [], ◌∷◌, ◌++◌, length, ltb, leb, ◌==◌, if◌then◌else◌, replicate,
}
use gca_backend.Base.Equality.{bytes_eq, ℕ-Eq}
use gca_backend.Base.Map.{lookup, insert}
use gca_backend.Base.Bytes.{slice}
use gca_backend.Base.Result.{
  Result, ok, err, panic, bad_length, unknown_equipment, bad_signature, io_failure, ◌>>=◌, ◌>>◌,
  guard,
}
use gca_backend.Glow.Timeslot.{current_timeslot}
use gca_backend.Glow.Report.{EquipmentReport, read_fields, signing_bytes, serialize}
use gca_backend.Glow.Signatures.{EthCrypto, verify}
use gca_backend.Glow.Authorization.{EquipmentAuthorization}
use gca_backend.Server.Recent.{add_recent}
use gca_backend.Server.State.{GcaServer, Array, store, append_file}

abbrev pub max_recent_reports : ℕ
max_recent_reports = 100000

abbrev pub max_capacity_buffer : ℕ
max_capacity_buffer = 135

-- The zero value of the array element.
abbrev pub blank_report : EquipmentReport
blank_report = record { short_id = 0; timeslot = 0; power_output = 0; signature = replicate 64 0 }

-- Go's `==` on reports.
unfoldable pub report_eq : EquipmentReport → EquipmentReport → Bool
report_eq a b =
    a.short_id == b.short_id
    && a.timeslot == b.timeslot
    && a.power_output == b.power_output
    && bytes_eq a.signature b.signature

check_signature :
    EthCrypto → EquipmentReport → Option EquipmentAuthorization → Result EquipmentReport
check_signature eth report none = err unknown_equipment
check_signature eth report (some equipment) =
    if verify eth equipment.public_key (signing_bytes report) report.signature
    then ok report
    else err bad_signature

unfoldable pub parse_report : EthCrypto → GcaServer → List ℕ → Result EquipmentReport
unfolding check_signature
parse_report eth server raw = do
  guard (length raw == 80) bad_length
  let report = read_fields raw
  check_signature eth report (lookup report.short_id server.equipment)

-- `saveEquipmentReport`; the caller drops the error, so a failed write leaves the file.
unfoldable pub save_equipment_report : GcaServer → EquipmentReport → GcaServer
save_equipment_report server report =
    elim (append_file server.disk.writable server.disk.reports (serialize report)) [
      | none ↦ server
      | some file ↦ record server { disk = record server.disk { reports = some file } }
    ]

abbrev pub capacity_of : Option EquipmentAuthorization → ℕ
capacity_of none = 0
capacity_of (some ea) = ea.capacity

-- `Capacity*MaxCapacityBuffer/100` in 64 bits.
unfoldable pub capacity_limit : ℕ → ℕ
capacity_limit capacity = capacity * max_capacity_buffer % 2 ^ 64 / 100

-- What a timeslot holds after a report that is not ignored: the first report, or a ban.
unfoldable pub next_slot : ℕ → EquipmentReport → EquipmentReport → EquipmentReport
next_slot limit current report =
    let placed : EquipmentReport =
      if current.power_output == 0 then report else record current { power_output = 1 } in
    if ltb limit report.power_output then record placed { power_output = 1 } else placed

-- The report takes its timeslot, joins the recent reports, and goes to disk.
unfoldable pub place_report : GcaServer → EquipmentReport → Array EquipmentReport → ℕ → GcaServer
place_report server report reports index =
    let limit = capacity_limit (capacity_of (lookup report.short_id server.equipment)) in
    save_equipment_report
      (record server {
        equipment_reports =
            insert report.short_id (store index (next_slot limit (reports index) report) reports)
              server.equipment_reports;
        recent_reports = add_recent max_recent_reports server.recent_reports report;
      })
      report

-- The part of `integrateReport` behind the check for old and future timeslots.
unfoldable pub integrate_at :
    GcaServer → EquipmentReport → Array EquipmentReport → ℕ → Result GcaServer
integrate_at server report reports index =
    if leb 4032 index
    then panic
    else if (reports index).power_output == 1
    then ok server
    else if report_eq (reports index) report
    then ok server
    else ok (place_report server report reports index)

-- A short ID without an array is a nil pointer.
unfoldable pub integrate_report : GcaServer → EquipmentReport → Result GcaServer
integrate_report server report =
    if ltb report.timeslot server.equipment_reports_offset
    then ok server
    else if ltb ((server.equipment_reports_offset + 4032) % 2 ^ 32) report.timeslot
    then ok server
    else elim (lookup report.short_id server.equipment_reports) [
      | none ↦ panic
      | some reports ↦
          integrate_at server report reports (report.timeslot - server.equipment_reports_offset)
    ]

-- `managedHandleEquipmentReport` behind the parser. The int64 comparisons are written without
-- negative numbers.
unfoldable pub accept_report : GcaServer → ℕ → EquipmentReport → Result GcaServer
accept_report server now report =
    if ltb (report.timeslot + 432) now || ltb (now + 432) report.timeslot
    then ok server
    else if report.power_output == 0 || report.power_output == 1
    then ok server
    else integrate_report server report

unfoldable pub handle_equipment_report : EthCrypto → ℕ → GcaServer → List ℕ → Result GcaServer
handle_equipment_report eth clock server raw = elim (parse_report eth server raw) [
  | ok report ↦ do now ← current_timeslot clock; accept_report server now report
  | err e ↦ ok server
  | panic ↦ panic
]

-- `for i := 0; i < len(rawData)/80; i++`, with the rounds left.
unfoldable pub load_reports_loop : EthCrypto → ℕ → ℕ → List ℕ → GcaServer → Result GcaServer
load_reports_loop eth zero i raw server = ok server
load_reports_loop eth (suc rounds) i raw server = do
  report ← parse_report eth server (slice (i * 80) (i * 80 + 80) raw)
  server' ← integrate_report server report
  load_reports_loop eth rounds (i + 1) raw server'

-- A missing file is created.
unfoldable pub load_equipment_reports : EthCrypto → GcaServer → Result GcaServer
load_equipment_reports eth server = elim server.disk.reports [
  | none ↦
      if server.disk.writable
      then ok (record server { disk = record server.disk { reports = some [] } })
      else err io_failure
  | some raw ↦
      if length raw % 80 == 0
      then load_reports_loop eth (length raw / 80) 0 raw server
      else err bad_length
]
