-- ===== src/Client/Reports/Resent.antt =====
-- client/reports.go and server/report_listener_udp.go: what a device sends again reaches the server's
-- arrays, among any other packets.
use gca_backend.Base.{
  ℕ, zero, suc, ◌+◌, ◌-◌, ◌%◌, ◌^◌, ◌≤◌, ◌<◌, ◌≡◌, refl, sym, ◌∙◌, subst, ◌⊎◌, inl, inr, some, List,
  [], ◌∷◌, arith, length, length-take, drop, All, Bool-cases, ◌==◌, true,
}
use gca_backend.Base.Equality.{ℕ-Eq}
use gca_backend.Base.Map.{lookup}
use gca_backend.Base.Bytes.{IsByte, uint, slice, slice-IsByte}
use gca_backend.Base.Result.{ok}
use gca_backend.Glow.Timeslot.{current_timeslot}
use gca_backend.Glow.Signatures.{EthCrypto, IsKeyPair}
use gca_backend.Glow.Authorization.{EquipmentAuthorization}
use gca_backend.Glow.Report.{EquipmentReport}
use gca_backend.Server.State.{GcaServer, Array}
use gca_backend.Server.Sync.{bitfield_from}
use gca_backend.Server.Reports.{handle_equipment_report, parse_report}
use gca_backend.Server.Reports.Safety.{slot_at, limit_of, is_for, integrate_report-slot}
use gca_backend.Server.Reports.Handler.{IsTimely}
use gca_backend.Client.State.{Client}
use gca_backend.Client.History.{static_load_reading, read_at, byte_offset}
use gca_backend.Client.Reports.{EnergyRecord, report_of, static_send_report, missing_records}
use gca_backend.Client.Reports.Accepted.{parse_report-static_send_report}
use gca_backend.Client.Reports.Missing.{IsSent, record_for, missing_records_iff}
use gca_backend.Server.Reports.Arrivals.{
  Arrival, handle_all, IsClocked, Serves, IsFilled, step_slot-IsReal,
  handle_equipment_report-timely, Advances, Advances-refl, handle-Advances,
}

-- The packet is what the device sends for the record, within 72 hours of the record's timeslot.
pub record IsPacket (eth : EthCrypto) (c : Client) (er : EnergyRecord) (p : Arrival) : Type 0 where
  pub now : ℕ
  pub sent : static_send_report eth c er ≡ ok p.packet
  pub ticked : current_timeslot p.clock ≡ ok now
  pub not_old : now ≤ er.timeslot + 432
  pub not_early : er.timeslot ≤ now + 432

abbrev pub HasArrived : EthCrypto → Client → EnergyRecord → List Arrival → Type 0
HasArrived eth c er [] = ⊥
HasArrived eth c er (p ∷ ps) = IsPacket eth c er p ⊎ HasArrived eth c er ps

uint_bound : (n : ℕ) (bs : List ℕ) → length bs ≤ n → All IsByte bs → uint bs < 256 ^ n
unfolding uint
uint_bound zero [] h bytes = omega arith
uint_bound zero (b ∷ bs) h bytes = absurd (omega arith)
uint_bound (suc n) [] h bytes = omega (arith, uint_bound n [] (omega arith) tt)
uint_bound (suc n) (b ∷ bs) h (byte, bytes) = omega (arith, uint_bound n bs (omega arith) bytes)

slice_bound : (at : ℕ) (file : List ℕ) → All IsByte file → uint (slice at (at + 4) file) < 2 ^ 32
unfolding slice
slice_bound at file bytes =
    let short : length (slice at (at + 4) file) ≤ 4 =
      omega (arith, length-take (at + 4 - at) (drop at file)) in
    uint_bound 4 (slice at (at + 4) file) short (slice-IsByte at (at + 4) file bytes)

static_load_reading_bound :
    (c : Client) (t : ℕ) → All IsByte c.static_history_file → static_load_reading c t < 2 ^ 32
unfolding static_load_reading read_at
static_load_reading_bound c t bytes =
    let at = byte_offset c.static_history_offset t in
    ground (arith, slice_bound at c.static_history_file bytes)

module _ (eth : EthCrypto) (c : Client) (ea : EquipmentAuthorization) (offset : ℕ)
    (pair : IsKeyPair eth ea.public_key c.static_priv_key) (fits : c.short_id < 2 ^ 32)
    (bytes : All IsByte c.static_history_file) where
  handle-fills :
      (s s' : GcaServer) (p : Arrival) (i : ℕ)
      → Serves c.short_id ea offset s
      → i < 4032
      → 2 ≤ static_load_reading c ((i + offset) % 2 ^ 32)
      → IsPacket eth c (record_for c offset i) p
      → handle_equipment_report eth p.clock s p.packet ≡ ok s'
      → IsFilled s' c.short_id i
  unfolding IsFilled
  handle-fills s s' p i h small enough packet done =
      let er = record_for c offset i in
      let slot_is : er.timeslot ≡ i + offset = omega (arith, h.bound) in
      let (raw, signature, raw_sent, parsed) =
        parse_report-static_send_report eth c er s ea pair h.known fits (omega arith)
          (omega (arith, static_load_reading_bound c er.timeslot bytes)) in
      let same : raw ≡ p.packet = ground (arith, packet.sent, raw_sent) in
      let r = report_of c er signature in
      let timely : IsTimely packet.now r = record {
        not_old = packet.not_old;
        not_early = packet.not_early;
        real = enough;
      } in
      let integrated =
        sym (
          handle_equipment_report-timely eth p.clock packet.now s p.packet r
            (subst (λ x. parse_report eth s x ≡ ok r) same parsed) packet.ticked timely)
        ∙ done in
      let slot =
        integrate_report-slot s s' r c.short_id i (omega (arith, h.offset_is, h.bound)) small
          integrated in
      let hit : is_for s.equipment_reports_offset c.short_id i r ≡ true =
        ground (arith, slot_is, h.offset_is) in
      let real = step_slot-IsReal (limit_of s c.short_id) (slot_at s c.short_id i) r enough in
      λ empty. real (ground (arith, slot, hit, empty))

  handle_all-fills :
      (s : GcaServer) (ps : List Arrival)
      → Serves c.short_id ea offset s
      → All (IsClocked offset) ps
      → (s' : GcaServer) × (handle_all eth s ps ≡ ok s')
        × Advances c.short_id ea offset s s'
        × ((i : ℕ)
            → i < 4032
            → 2 ≤ static_load_reading c ((i + offset) % 2 ^ 32)
            → HasArrived eth c (record_for c offset i) ps
            → IsFilled s' c.short_id i)
  unfolding handle_all
  handle_all-fills s [] h clocked =
      (s, refl, Advances-refl s c.short_id ea offset h, λ i small enough never. absurd never)
  handle_all-fills s (p ∷ ps) h (clocked, rest) =
      let (m, first, forward) = handle-Advances eth s p c.short_id ea offset h clocked in
      let (s', others, further, fills) = handle_all-fills m ps forward.serves rest in
      (
        s',
        rw first others,
        record {
          serves = further.serves;
          filled = λ i small full. further.filled i small (forward.filled i small full);
        },
        λ i small enough arrived. elim arrived [
          | inl packet ↦ further.filled i small (handle-fills s m p i h small enough packet first)
          | inr later ↦ fills i small enough later
        ],
      )

  -- A server answers a device that it authorized with the bitfield of the device's array, and the
  -- device sends its missing records. Whatever packets then arrive at the server, those of the
  -- device among them or lost, in any order and number: the server takes them all without a
  -- failure, and what the device would send after the next answer are only records that were
  -- missing before and did not arrive within 72 hours of their timeslot. At every arrival the clock
  -- is past genesis and more than 432 timeslots before the end of the arrays, which end before
  -- timeslot 2 ^ 32; every device that the server knows has its array; the device's keys are a
  -- pair.
  pub missing_records-handle_all :
      (s : GcaServer) (a : Array EquipmentReport) (latest : ℕ) (ps : List Arrival)
      → Serves c.short_id ea offset s
      → lookup c.short_id s.equipment_reports ≡ some a
      → All (IsClocked offset) ps
      → (s' : GcaServer) × (a' : Array EquipmentReport) × (handle_all eth s ps ≡ ok s')
        × (lookup c.short_id s'.equipment_reports ≡ some a')
        × ((er : EnergyRecord)
            → IsSent er (missing_records c (bitfield_from 504 0 a') offset latest)
            → IsSent er (missing_records c (bitfield_from 504 0 a) offset latest)
              × ¬ HasArrived eth c er ps)
  unfolding IsFilled slot_at
  missing_records-handle_all s a latest ps h has clocked =
      let (s', done, forward, fills) = handle_all-fills s ps h clocked in
      let (a', has') = forward.serves.arrays c.short_id ea forward.serves.known in
      (
        s',
        a',
        done,
        has',
        λ er again.
            let before : (i : ℕ)
                → i < 4032
                → (slot_at s' c.short_id i).power_output ≡ 0
                → (a i).power_output ≡ 0 =
              λ i small blank. elim (Bool-cases ((a i).power_output == 0)) [
                | inl absent ↦ ground arith
                | inr there ↦
                    absurd
                      (forward.filled i small (λ empty. ground (arith, has, there, empty)) blank)
              ] in
            let (i, early, small, lacking, same) =
              (missing_records_iff c a' offset latest er).0 again in
            let blank : (slot_at s' c.short_id i).power_output ≡ 0 =
              ground (arith, has', lacking.absent) in
            (
              (missing_records_iff c a offset latest er).1 (
                i,
                early,
                small,
                record { absent = before i small blank; present = lacking.present },
                same,
              ),
              λ arrived.
                  fills i small lacking.present
                    (subst (λ x. HasArrived eth c x ps) (sym same) arrived) blank,
            ),
      )
