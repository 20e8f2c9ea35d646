-- ===== src/Server/Reports/Handler.antt =====
-- server/report_listener_udp.go: what the handler of UDP packets lets through.
use gca_backend.Base.{
  ℕ, ◌+◌, ◌^◌, ◌≤◌, ◌<◌, ◌≡◌, ◌≢◌, ◌⊎◌, inl, inr, true, List, arith, some, sym, ◌∙◌, length,
  Option-cases,
}
use gca_backend.Base.Equality.{ℕ-Eq}
use gca_backend.Base.Map.{lookup}
use gca_backend.Base.Result.{ok, panic, ◌>>=◌, >>=-eq-ok, Result-cases}
use gca_backend.Glow.Report.{EquipmentReport, read_fields, signing_bytes}
use gca_backend.Glow.Signatures.{EthCrypto, verify}
use gca_backend.Glow.Authorization.{EquipmentAuthorization}
use gca_backend.Glow.Timeslot.{current_timeslot}
use gca_backend.Server.State.{GcaServer, Array}
use gca_backend.Server.Reports.{
  integrate_report, accept_report, handle_equipment_report, parse_report,
}
use gca_backend.Server.Reports.Safety.{integrate_report-panic_iff}

-- The packet is a report of 80 bytes, signed by the equipment that it names.
pub record IsSigned (eth : EthCrypto) (s : GcaServer) (raw : List ℕ) (r : EquipmentReport)
    : Type 0 where
  pub sized : length raw ≡ 80
  pub read : r ≡ read_fields raw
  pub equipment : EquipmentAuthorization
  pub known : lookup r.short_id s.equipment ≡ some equipment
  pub verified : verify eth equipment.public_key (signing_bytes r) r.signature ≡ true

parse_report-ok :
    (eth : EthCrypto) (s : GcaServer) (raw : List ℕ) (r : EquipmentReport)
    → parse_report eth s raw ≡ ok r
    → IsSigned eth s raw r
unfolding parse_report
parse_report-ok eth s raw r e =
    elim (Option-cases (lookup (read_fields raw).short_id s.equipment)) [
      | inl missing ↦ absurd (ground arith)
      | inr (ea, known) ↦
          let same : r ≡ read_fields raw = ground arith in
          record {
            sized = ground arith;
            read = same;
            equipment = ea;
            known = rw same known;
            verified = rw same (ground arith);
          }
    ]

-- The report is within 432 timeslots of now, and its power is no sentinel.
pub record IsTimely (now : ℕ) (r : EquipmentReport) : Type 0 where
  pub not_old : now ≤ r.timeslot + 432
  pub not_early : r.timeslot ≤ now + 432
  pub real : 2 ≤ r.power_output

accept_report_cases :
    (s : GcaServer) (now : ℕ) (r : EquipmentReport)
    → (accept_report s now r ≡ ok s)
      ⊎ (IsTimely now r × (accept_report s now r ≡ integrate_report s r))
unfolding accept_report
accept_report_cases s now r = ground arith

-- Whatever packet arrives and whenever: a change of the state means that the packet holds a report
-- signed by a device that the server knows, sent for a timeslot within 72 hours of now and with a
-- real power, and that the new state is what integrating this report gives.
pub handle_equipment_report_cases :
    (eth : EthCrypto) (clock : ℕ) (s s' : GcaServer) (raw : List ℕ)
    → handle_equipment_report eth clock s raw ≡ ok s'
    → (s' ≡ s)
      ⊎ ((r : EquipmentReport) × (now : ℕ) × (current_timeslot clock ≡ ok now)
          × IsSigned eth s raw r
          × IsTimely now r
          × (integrate_report s r ≡ ok s'))
unfolding handle_equipment_report
handle_equipment_report_cases eth clock s s' raw e = elim (Result-cases (parse_report eth s raw)) [
  | inl (r, parsed) ↦
      let taken : (current_timeslot clock >>= λ now. accept_report s now r) ≡ ok s' =
        rw (parsed, handle_equipment_report) at e in
      let (now, ticked, done) =
        >>=-eq-ok (current_timeslot clock) (λ now. accept_report s now r) taken in
      elim (accept_report_cases s now r) [
        | inl ignored ↦ inl (ground arith)
        | inr (timely, goes_on) ↦
            inr (r, now, ticked, parse_report-ok eth s raw r parsed, timely, sym goes_on ∙ done)
      ]
  | inr (inl (x, failed)) ↦ inl (ground arith)
  | inr (inr stopped) ↦ absurd (ground arith)
]

parse_report-ne-panic :
    (eth : EthCrypto) (s : GcaServer) (raw : List ℕ) → parse_report eth s raw ≢ panic
unfolding parse_report
parse_report-ne-panic eth s raw e = ground arith

-- Every device that the server knows has its array of reports.
abbrev pub HasArrays : GcaServer → Type 0
HasArrays s =
    (id : ℕ) (ea : EquipmentAuthorization)
    → lookup id s.equipment ≡ some ea
    → (a : Array EquipmentReport) × (lookup id s.equipment_reports ≡ some a)

-- No packet makes the handler panic while the clock is past genesis, every known device has its
-- array, and the arrays reach more than 432 timeslots beyond now.
pub handle_equipment_report-ne-panic :
    (eth : EthCrypto) (clock now : ℕ) (s : GcaServer) (raw : List ℕ)
    → HasArrays s
    → current_timeslot clock ≡ ok now
    → s.equipment_reports_offset + 4032 < 2 ^ 32
    → now + 432 < s.equipment_reports_offset + 4032
    → handle_equipment_report eth clock s raw ≢ panic
unfolding handle_equipment_report
handle_equipment_report-ne-panic eth clock now s raw arrays ticked bound ahead e =
    elim (Result-cases (parse_report eth s raw)) [
      | inl (r, parsed) ↦
          let signed = parse_report-ok eth s raw r parsed in
          let (a, has) = arrays r.short_id signed.equipment signed.known in
          let (to, _) = integrate_report-panic_iff s r a bound has in
          elim (accept_report_cases s now r) [
            | inl ignored ↦ ground arith
            | inr (timely, goes_on) ↦
                let stuck : integrate_report s r ≡ panic = ground arith in
                let edge = to stuck in absurd (omega arith)
          ]
      | inr (inl (x, failed)) ↦ ground arith
      | inr (inr stopped) ↦ parse_report-ne-panic eth s raw stopped
    ]
