-- ===== src/Examples/Reports.antt =====
-- The theorems on reports at the server with one device.
use gca_backend.Base.{
  ℕ, ◌+◌, ◌*◌, ◌≤◌, ◌≡◌, ◌≢◌, ◌↔◌, ◌⊎◌, refl, true, List, [], ◌∷◌, ◌==◌, arith, inl, inr,
  Bool-cases, some, ◌<◌, ◌^◌,
}
use gca_backend.Base.Equality.{ℕ-Eq, bytes_eq}
use gca_backend.Base.Map.{lookup, insert}
use gca_backend.Base.Result.{ok, panic}
use gca_backend.Base.Bytes.{put_uint, uint, slice}
use gca_backend.Glow.Signatures.{verify}
use gca_backend.Glow.Timeslot.{current_timeslot}
use gca_backend.Glow.Report.{EquipmentReport, serialize, read_fields, signing_bytes}
use gca_backend.Server.State.{GcaServer, append_file, store}
use gca_backend.Server.Reports.{
  blank_report, integrate_report, integrate_at, report_eq, place_report, next_slot, capacity_limit,
  save_equipment_report, parse_report, accept_report, handle_equipment_report,
}
use gca_backend.Server.Reports.Slots.{empty, accepted, view, fill_slot, AllSame, fill_slot_verdict}
use gca_backend.Server.Reports.Safety.{
  slot_at, limit_of, integrate_all, reports_for, integrate_all-slot, integrate_report-panic_iff,
}
use gca_backend.Server.Reports.Handler.{
  IsSigned, IsTimely, HasArrays, handle_equipment_report_cases, handle_equipment_report-ne-panic,
}
use gca_backend.Server.Reports.{load_equipment_reports}
use gca_backend.Server.Reports.Restart.{IsParsed, report_file, load_equipment_reports-report_file}
use gca_backend.Client.Reports.Accepted.{parse_serialized}
use gca_backend.Examples.{toy_crypto, device, server, report, is_ok, value_or, is_ok→value}

-- Two different reports for one timeslot, and one for another.
abbrev arrivals : List EquipmentReport
arrivals = report 2020 500 ∷ report 2021 600 ∷ report 2020 501 ∷ []

all_integrated : is_ok (integrate_all server arrivals) ≡ true
unfolding integrate_all integrate_report lookup insert integrate_at report_eq place_report
    save_equipment_report append_file bytes_eq store next_slot capacity_limit
all_integrated = refl

after : GcaServer
after = value_or server (integrate_all server arrivals)

arrivals_integrated : integrate_all server arrivals ≡ ok after
unfolding after
arrivals_integrated = is_ok→value server (integrate_all server arrivals) all_integrated

integrate_all-slot_example :
    slot_at after 7 4
    ≡ fill_slot (limit_of server 7) (slot_at server 7 4) (reports_for 2016 7 4 arrivals)
integrate_all-slot_example =
    integrate_all-slot server after arrivals 7 4 (omega arith) (omega arith) arrivals_integrated

fill_slot_verdict_example :
    ((view (fill_slot 1350 blank_report (report 2020 500 ∷ [])) ≡ empty)
      ↔ (report 2020 500 ∷ [] ≡ []))
    × ((r : EquipmentReport)
        → (view (fill_slot 1350 blank_report (report 2020 500 ∷ [])) ≡ accepted r) ↔ (
            (report 2020 500 ∷ [] ≢ [])
            × AllSame r (report 2020 500 ∷ [])
            × (r.power_output ≤ 1350)))
fill_slot_verdict_example = fill_slot_verdict 1350 (report 2020 500 ∷ []) (omega arith, tt)

-- A packet at timeslot 2019.
abbrev clock : ℕ
clock = 1700352000 + 300 * 2019

abbrev packet : List ℕ
packet = serialize (report 2020 500)

packet_handled : is_ok (handle_equipment_report toy_crypto clock server packet) ≡ true
unfolding handle_equipment_report serialize put_uint parse_report read_fields slice uint lookup
    verify signing_bytes bytes_eq current_timeslot accept_report integrate_report integrate_at
    report_eq place_report
packet_handled = refl

handled : GcaServer
handled = value_or server (handle_equipment_report toy_crypto clock server packet)

handle_equipment_report_cases_example :
    (handled ≡ server)
    ⊎ ((r : EquipmentReport) × (now : ℕ) × (current_timeslot clock ≡ ok now)
        × IsSigned toy_crypto server packet r
        × IsTimely now r
        × (integrate_report server r ≡ ok handled))
unfolding handled
handle_equipment_report_cases_example =
    handle_equipment_report_cases toy_crypto clock server handled packet
      (is_ok→value server (handle_equipment_report toy_crypto clock server packet) packet_handled)

server-HasArrays : HasArrays server
unfolding lookup
server-HasArrays id ea known = elim (Bool-cases (7 == id)) [
  | inl same ↦ (λ i. blank_report, rw same refl)
  | inr other ↦ absurd (ground arith)
]

handle_equipment_report-ne-panic_example :
    handle_equipment_report toy_crypto clock server packet ≢ panic
handle_equipment_report-ne-panic_example =
    handle_equipment_report-ne-panic toy_crypto clock 2019 server packet server-HasArrays at_clock
      (omega arith) (omega arith)
  where
    at_clock : current_timeslot clock ≡ ok 2019
    at_clock = unfold current_timeslot in refl

integrate_report-panic_iff_example :
    (integrate_report server (report 6048 500) ≡ panic) ↔ (6048 ≡ 2016 + 4032)
integrate_report-panic_iff_example =
    integrate_report-panic_iff server (report 6048 500) (λ i. blank_report) (omega arith)
      (unfold lookup in refl)

abbrev restarting : GcaServer
restarting = record server { disk = record server.disk { reports = some (report_file arrivals) } }

arrival-IsParsed :
    (timeslot power : ℕ)
    → timeslot < 2 ^ 32
    → power < 2 ^ 64
    → IsParsed toy_crypto restarting (report timeslot power)
arrival-IsParsed timeslot power fits fits' = record {
  signature_long = refl;
  parsed =
      parse_serialized toy_crypto restarting (report timeslot power) device
        (record {
          short_id_fits = omega arith;
          timeslot_fits = fits;
          power_output_fits = fits';
          signature_long = refl;
        })
        (unfold lookup in refl) (unfold verify bytes_eq in refl);
}

load_equipment_reports-report_file_example :
    load_equipment_reports toy_crypto restarting ≡ integrate_all restarting arrivals
load_equipment_reports-report_file_example =
    load_equipment_reports-report_file toy_crypto restarting arrivals refl (
      arrival-IsParsed 2020 500 (omega arith) (omega arith),
      (
        arrival-IsParsed 2021 600 (omega arith) (omega arith),
        (arrival-IsParsed 2020 501 (omega arith) (omega arith), tt),
      ),
    )
