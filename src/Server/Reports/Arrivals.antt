-- ===== src/Server/Reports/Arrivals.antt =====
-- server/report_listener_udp.go: packets that arrive one after the other, and what they leave alone.
use gca_backend.Base.{
  ℕ, ◌+◌, ◌^◌, ◌<◌, ◌≡◌, ◌≢◌, ap, sym, ◌∙◌, subst, inl, inr, some, List, [], ◌∷◌, arith, Bool-cases,
}
use gca_backend.Base.Equality.{ℕ-Eq}
use gca_backend.Base.Map.{lookup}
use gca_backend.Base.Result.{Result, Error, ok, err, ◌>>=◌, Result-cases}
use gca_backend.Glow.Timeslot.{current_timeslot}
use gca_backend.Glow.Signatures.{EthCrypto}
use gca_backend.Glow.Authorization.{EquipmentAuthorization}
use gca_backend.Glow.Report.{EquipmentReport}
use gca_backend.Server.State.{GcaServer}
use gca_backend.Server.Reports.{
  integrate_report, accept_report, integrate_at, handle_equipment_report, parse_report, next_slot,
}
use gca_backend.Server.Reports.Slots.{step_slot, IsReal, report_eq_iff}
use gca_backend.Server.Reports.Safety.{
  slot_at, limit_of, is_for, integrate_report-Keeps, integrate_report-slot, integrate_report-arrays,
}
use gca_backend.Server.Reports.Handler.{
  HasArrays, IsTimely, handle_equipment_report_cases, handle_equipment_report-ne-panic,
}

-- A packet with the time of the server's clock when it arrives.
pub record Arrival : Type 0 where
  pub clock : ℕ
  pub packet : List ℕ

-- The packets that arrive, one after the other.
unfoldable pub handle_all : EthCrypto → GcaServer → List Arrival → Result GcaServer
handle_all eth s [] = ok s
handle_all eth s (p ∷ ps) = do
  s' ← handle_equipment_report eth p.clock s p.packet
  handle_all eth s' ps

-- The clock is past genesis and more than 432 timeslots before the end of the arrays.
abbrev pub IsClocked : ℕ → Arrival → Type 0
IsClocked offset p = (now : ℕ) × (current_timeslot p.clock ≡ ok now) × (now + 432 < offset + 4032)

-- The server knows the device, and every device has its array.
pub record Serves (id : ℕ) (ea : EquipmentAuthorization) (offset : ℕ) (s : GcaServer) : Type 0 where
  pub known : lookup id s.equipment ≡ some ea
  pub arrays : HasArrays s
  pub offset_is : s.equipment_reports_offset ≡ offset
  pub bound : offset + 4032 < 2 ^ 32

unfoldable pub IsFilled : GcaServer → ℕ → ℕ → Type 0
IsFilled s id i = (slot_at s id i).power_output ≢ 0

step_slot-filled :
    (limit : ℕ) (current r : EquipmentReport)
    → current.power_output ≢ 0
    → (step_slot limit current r).power_output ≢ 0
unfolding step_slot next_slot
step_slot-filled limit current r h e = ground arith

pub step_slot-IsReal :
    (limit : ℕ) (current r : EquipmentReport)
    → IsReal r
    → (step_slot limit current r).power_output ≢ 0
unfolding step_slot next_slot
step_slot-IsReal limit current r real e = ground (arith, (report_eq_iff current r).0)

-- A timely report of a known device reaches the array.
pub handle_equipment_report-timely :
    (eth : EthCrypto) (clock now : ℕ) (s : GcaServer) (raw : List ℕ) (r : EquipmentReport)
    → parse_report eth s raw ≡ ok r
    → current_timeslot clock ≡ ok now
    → IsTimely now r
    → handle_equipment_report eth clock s raw ≡ integrate_report s r
unfolding handle_equipment_report accept_report
handle_equipment_report-timely eth clock now s raw r parsed ticked timely =
    ground (arith, timely.not_old, timely.not_early, timely.real)

integrate_report-Serves :
    (s s' : GcaServer) (r : EquipmentReport) (id : ℕ) (ea : EquipmentAuthorization) (offset : ℕ)
    → Serves id ea offset s
    → integrate_report s r ≡ ok s'
    → Serves id ea offset s'
integrate_report-Serves s s' r id ea offset h e =
    let k = integrate_report-Keeps s s' r e in
    record {
      known = ap (lookup id) k.equipment_kept ∙ h.known;
      arrays = λ other auth there.
          let (a, has) = h.arrays other auth (sym (ap (lookup other) k.equipment_kept) ∙ there) in
          integrate_report-arrays s s' r a other has e;
      offset_is = k.offset_kept ∙ h.offset_is;
      bound = h.bound;
    }

-- What a packet leaves alone.
pub record Advances (id : ℕ) (ea : EquipmentAuthorization) (offset : ℕ) (s s' : GcaServer)
    : Type 0 where
  pub serves : Serves id ea offset s'
  pub filled : (i : ℕ) → i < 4032 → IsFilled s id i → IsFilled s' id i

integrate_report-Advances :
    (s s' : GcaServer) (r : EquipmentReport) (id : ℕ) (ea : EquipmentAuthorization) (offset : ℕ)
    → Serves id ea offset s
    → integrate_report s r ≡ ok s'
    → Advances id ea offset s s'
unfolding IsFilled
integrate_report-Advances s s' r id ea offset h e = record {
  serves = integrate_report-Serves s s' r id ea offset h e;
  filled = λ i small full.
      let slot = integrate_report-slot s s' r id i (omega (arith, h.offset_is, h.bound)) small e in
      let stepped = step_slot-filled (limit_of s id) (slot_at s id i) r full in
      λ empty. elim (Bool-cases (is_for s.equipment_reports_offset id i r)) [
        | inl hit ↦ stepped (ground (arith, slot, hit, empty))
        | inr miss ↦ full (ground (arith, slot, miss, empty))
      ];
}

accept_report-ne-err :
    (s : GcaServer) (now : ℕ) (r : EquipmentReport) (x : Error) → accept_report s now r ≢ err x
unfolding accept_report integrate_report integrate_at
accept_report-ne-err s now r x e = ground arith

handle_equipment_report-ne-err :
    (eth : EthCrypto) (clock now : ℕ) (s : GcaServer) (raw : List ℕ) (x : Error)
    → current_timeslot clock ≡ ok now
    → handle_equipment_report eth clock s raw ≢ err x
unfolding handle_equipment_report
handle_equipment_report-ne-err eth clock now s raw x ticked e =
    elim (Result-cases (parse_report eth s raw)) [
      | inl (r, parsed) ↦ accept_report-ne-err s now r x (ground (arith, parsed, ticked, e))
      | inr (inl (y, failed)) ↦ ground arith
      | inr (inr stopped) ↦ ground arith
    ]

pub Advances-refl :
    (s : GcaServer) (id : ℕ) (ea : EquipmentAuthorization) (offset : ℕ)
    → Serves id ea offset s
    → Advances id ea offset s s
Advances-refl s id ea offset h = record { serves = h; filled = λ i small full. full }

pub handle-Advances :
    (eth : EthCrypto) (s : GcaServer) (p : Arrival) (id : ℕ) (ea : EquipmentAuthorization)
    (offset : ℕ)
    → Serves id ea offset s
    → IsClocked offset p
    → (s' : GcaServer) × (handle_equipment_report eth p.clock s p.packet ≡ ok s')
      × Advances id ea offset s s'
handle-Advances eth s p id ea offset h (now, ticked, ahead) =
    elim (Result-cases (handle_equipment_report eth p.clock s p.packet)) [
      | inl (s', done) ↦ (
        s',
        done,
        elim (handle_equipment_report_cases eth p.clock s s' p.packet done) [
          | inl same ↦ subst (Advances id ea offset s) (sym same) (Advances-refl s id ea offset h)
          | inr (r, _, _, _, _, integrated) ↦
              integrate_report-Advances s s' r id ea offset h integrated
        ],
      )
      | inr (inl (x, failed)) ↦
          absurd (handle_equipment_report-ne-err eth p.clock now s p.packet x ticked failed)
      | inr (inr stopped) ↦ absurd (
          handle_equipment_report-ne-panic eth p.clock now s p.packet h.arrays ticked
            (omega (arith, h.offset_is, h.bound)) (omega (arith, h.offset_is, ahead)) stopped)
    ]
