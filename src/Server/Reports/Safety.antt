-- ===== src/Server/Reports/Safety.antt =====
-- server/report_listener_udp.go: what a report changes in the server, and when it panics.
use gca_backend.Base.{
  ℕ, ◌+◌, ◌-◌, ◌%◌, ◌^◌, ◌≤◌, ◌<◌, ◌≡◌, refl, sym, ◌∙◌, subst, ◌↔◌, ◌⊎◌, inl, inr, Bool, ◌&&◌, List,
  [], ◌∷◌, arith, ltb, leb, ◌==◌, if◌then◌else◌, none, some, ap, Bool-cases, Option-cases,
}
use gca_backend.Base.Equality.{ℕ-Eq}
use gca_backend.Base.Map.{lookup, insert, lookup-insert}
use gca_backend.Base.Result.{Result, ok, panic, ◌>>=◌, >>=-eq-ok}
use gca_backend.Glow.Report.{EquipmentReport}
use gca_backend.Server.State.{GcaServer, Array, store}
use gca_backend.Server.Reports.{
  blank_report, next_slot, capacity_limit, capacity_of, save_equipment_report, place_report,
  integrate_at, integrate_report,
}
use gca_backend.Server.Reports.Slots.{step_slot, fill_slot}

-- What the server holds for timeslot `i` behind its offset, for a short ID.
unfoldable pub slot_at : GcaServer → ℕ → ℕ → EquipmentReport
slot_at s id i = elim (lookup id s.equipment_reports) [ none ↦ blank_report | some a ↦ a i ]

-- The most that the equipment with this short ID may report.
unfoldable pub limit_of : GcaServer → ℕ → ℕ
limit_of s id = capacity_limit (capacity_of (lookup id s.equipment))

-- The report falls on this short ID and slot of the arrays, which start at `offset`.
abbrev pub is_for : ℕ → ℕ → ℕ → EquipmentReport → Bool
is_for offset id i r = r.short_id == id && leb offset r.timeslot && r.timeslot - offset == i

-- Nothing but the reports, the recent reports and the file changes.
pub record Keeps (s s' : GcaServer) : Type 0 where
  pub equipment_kept : s'.equipment ≡ s.equipment
  pub short_ids_kept : s'.equipment_short_id ≡ s.equipment_short_id
  pub bans_kept : s'.equipment_bans ≡ s.equipment_bans
  pub rates_kept : s'.equipment_impact_rate ≡ s.equipment_impact_rate
  pub offset_kept : s'.equipment_reports_offset ≡ s.equipment_reports_offset
  pub servers_kept : s'.gca_servers ≡ s.gca_servers
  pub key_kept : s'.gca_pubkey ≡ s.gca_pubkey

place-Keeps :
    (s : GcaServer) (r : EquipmentReport) (a : Array EquipmentReport) (index : ℕ)
    → Keeps s (place_report s r a index)
unfolding place_report save_equipment_report
place-Keeps s r a index = ground arith

place-reports :
    (s : GcaServer) (r : EquipmentReport) (a : Array EquipmentReport) (index : ℕ)
    → (place_report s r a index).equipment_reports
      ≡ insert r.short_id
          (store index (next_slot (limit_of s r.short_id) (a index) r) a)
          s.equipment_reports
unfolding place_report save_equipment_report limit_of
place-reports s r a index = ground arith

place-slot :
    (s : GcaServer) (r : EquipmentReport) (a : Array EquipmentReport) (index id i : ℕ)
    → lookup r.short_id s.equipment_reports ≡ some a
    → slot_at (place_report s r a index) id i ≡ (
        if r.short_id == id && index == i
        then next_slot (limit_of s id) (slot_at s id i) r
        else slot_at s id i)
unfolding slot_at store
place-slot s r a index id i known =
    rw (place-reports s r a index, slot_at, lookup-insert) (ground arith)

integrate_at-slot :
    (s : GcaServer) (r : EquipmentReport) (a : Array EquipmentReport) (index id i : ℕ)
    (s' : GcaServer)
    → lookup r.short_id s.equipment_reports ≡ some a
    → integrate_at s r a index ≡ ok s'
    → slot_at s' id i ≡ (
        if r.short_id == id && index == i
        then step_slot (limit_of s id) (slot_at s id i) r
        else slot_at s id i)
unfolding integrate_at step_slot slot_at
integrate_at-slot s r a index id i s' known e = ground (arith, place-slot s r a index id i known)

abbrev reach : GcaServer → ℕ
reach s = (s.equipment_reports_offset + 4032) % 2 ^ 32

-- A report is ignored for its time, or meets the device's array.
integrate_report_cases :
    (s s' : GcaServer) (r : EquipmentReport)
    → integrate_report s r ≡ ok s'
    → ((s' ≡ s) × ((r.timeslot < s.equipment_reports_offset) ⊎ (reach s < r.timeslot)))
      ⊎ ((a : Array EquipmentReport) × (lookup r.short_id s.equipment_reports ≡ some a)
          × (s.equipment_reports_offset ≤ r.timeslot)
          × (integrate_at s r a (r.timeslot - s.equipment_reports_offset) ≡ ok s'))
unfolding integrate_report
integrate_report_cases s s' r e = elim (Bool-cases (ltb r.timeslot s.equipment_reports_offset)) [
  | inl old ↦ inl (ground arith, inl (ground arith))
  | inr fresh ↦ elim (Bool-cases (ltb (reach s) r.timeslot)) [
    | inl late ↦ inl (ground arith, inr (ground arith))
    | inr near ↦ elim (Option-cases (lookup r.short_id s.equipment_reports)) [
      | inl missing ↦ absurd (ground arith)
      | inr (a, known) ↦ inr (a, known, ground arith, ground arith)
    ]
  ]
]

integrate_at-Keeps :
    (s s' : GcaServer) (r : EquipmentReport) (a : Array EquipmentReport) (index : ℕ)
    → integrate_at s r a index ≡ ok s'
    → Keeps s s'
unfolding integrate_at
integrate_at-Keeps s s' r a index e = ground (arith, place-Keeps s r a index)

pub integrate_report-Keeps :
    (s s' : GcaServer) (r : EquipmentReport) → integrate_report s r ≡ ok s' → Keeps s s'
integrate_report-Keeps s s' r e = elim (integrate_report_cases s s' r e) [
  | inl (same, _) ↦ ground arith
  | inr (a, _, _, at) ↦ integrate_at-Keeps s s' r a (r.timeslot - s.equipment_reports_offset) at
]

integrate_at_cases :
    (s s' : GcaServer) (r : EquipmentReport) (a : Array EquipmentReport) (index : ℕ)
    → integrate_at s r a index ≡ ok s'
    → (s ≡ s') ⊎ (place_report s r a index ≡ s')
unfolding integrate_at
integrate_at_cases s s' r a index e = ground arith

place-arrays :
    (s : GcaServer) (r : EquipmentReport) (a b : Array EquipmentReport) (index id : ℕ)
    → lookup id s.equipment_reports ≡ some b
    → (a' : Array EquipmentReport) × (lookup id (place_report s r a index).equipment_reports
        ≡ some a')
place-arrays s r a b index id has =
    let next = store index (next_slot (limit_of s r.short_id) (a index) r) a in
    rw (place-reports s r a index, lookup-insert)
      (elim (Bool-cases (r.short_id == id)) [
        | inl same ↦ (next, rw same refl)
        | inr other ↦ (b, rw other has)
      ])

-- A device that has an array keeps one.
pub integrate_report-arrays :
    (s s' : GcaServer) (r : EquipmentReport) (b : Array EquipmentReport) (id : ℕ)
    → lookup id s.equipment_reports ≡ some b
    → integrate_report s r ≡ ok s'
    → (a : Array EquipmentReport) × (lookup id s'.equipment_reports ≡ some a)
integrate_report-arrays s s' r b id has e = elim (integrate_report_cases s s' r e) [
  | inl (same, _) ↦ (b, ap (λ (t : GcaServer). lookup id t.equipment_reports) same ∙ has)
  | inr (a, known, fresh, at) ↦
      let index = r.timeslot - s.equipment_reports_offset in
      elim (integrate_at_cases s s' r a index at) [
        | inl same ↦ (b, ap (λ (t : GcaServer). lookup id t.equipment_reports) (sym same) ∙ has)
        | inr placed ↦
            subst
              (λ (t : GcaServer).
                (x : Array EquipmentReport) × (lookup id t.equipment_reports ≡ some x))
              placed (place-arrays s r a b index id has)
      ]
]

-- A report that the server integrates changes the timeslot and the device that it names, by the rule
-- of the slots, and no other slot below 4032.
pub integrate_report-slot :
    (s s' : GcaServer) (r : EquipmentReport) (id i : ℕ)
    → s.equipment_reports_offset + 4032 < 2 ^ 32
    → i < 4032
    → integrate_report s r ≡ ok s'
    → slot_at s' id i ≡ (
        if is_for s.equipment_reports_offset id i r
        then step_slot (limit_of s id) (slot_at s id i) r
        else slot_at s id i)
integrate_report-slot s s' r id i bound small e = elim (integrate_report_cases s s' r e) [
  | inl (same, inl old) ↦ ground (arith, ap (λ t. slot_at t id i) same)
  | inl (same, inr late) ↦ ground (arith, ap (λ t. slot_at t id i) same)
  | inr (a, known, fresh, at) ↦
      ground
        (arith, integrate_at-slot s r a (r.timeslot - s.equipment_reports_offset) id i s' known at)
]

-- For equipment that the server knows, the program panics on one timeslot alone: the one just behind
-- the end of the array.
pub integrate_report-panic_iff :
    (s : GcaServer) (r : EquipmentReport) (a : Array EquipmentReport)
    → s.equipment_reports_offset + 4032 < 2 ^ 32
    → lookup r.short_id s.equipment_reports ≡ some a
    → (integrate_report s r ≡ panic) ↔ (r.timeslot ≡ s.equipment_reports_offset + 4032)
unfolding integrate_report integrate_at
integrate_report-panic_iff s r a bound known = ground arith

-- The reports integrated one after the other, as `loadEquipmentReports` and the handler do.
unfoldable pub integrate_all : GcaServer → List EquipmentReport → Result GcaServer
integrate_all s [] = ok s
integrate_all s (r ∷ rs) = do s' ← integrate_report s r; integrate_all s' rs

-- The reports that fall on one slot.
abbrev pub reports_for : ℕ → ℕ → ℕ → List EquipmentReport → List EquipmentReport
reports_for offset id i [] = []
reports_for offset id i (r ∷ rs) =
    let rest = reports_for offset id i rs in if is_for offset id i r then r ∷ rest else rest

-- Over any sequence of reports that the server integrates without a panic, each slot of each device
-- holds what the reports that fall on it make of it: reports for other slots or devices have no effect.
pub integrate_all-slot :
    (s s' : GcaServer) (rs : List EquipmentReport) (id i : ℕ)
    → s.equipment_reports_offset + 4032 < 2 ^ 32
    → i < 4032
    → integrate_all s rs ≡ ok s'
    → slot_at s' id i
      ≡ fill_slot (limit_of s id) (slot_at s id i) (reports_for s.equipment_reports_offset id i rs)
unfolding integrate_all fill_slot
integrate_all-slot s s' [] id i bound small e = ground arith
integrate_all-slot s s' (r ∷ rs) id i bound small e =
    let (m, first, rest) = >>=-eq-ok (integrate_report s r) (λ m. integrate_all m rs) e in
    let kept = integrate_report-Keeps s m r first in
    let limit_kept : limit_of m id ≡ limit_of s id = unfold limit_of in rw kept.equipment_kept in
    let offset_kept : m.equipment_reports_offset ≡ s.equipment_reports_offset = kept.offset_kept in
    let later = integrate_all-slot m s' rs id i (omega arith) small rest in
    let now = integrate_report-slot s m r id i bound small first in
    ground (arith, rw (limit_kept, offset_kept, now) at later)
