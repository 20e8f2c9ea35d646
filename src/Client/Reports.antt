-- ===== src/Client/Reports.antt =====
-- client/reports.go: the reports that a device makes, and those that it sends again.
pub mod Accepted
pub mod Missing
pub mod Resent
use gca_backend.Base.{
  ℕ, zero, suc, ◌+◌, ◌-◌, ◌*◌, ◌/◌, ◌%◌, ◌^◌, Bool, Option, none, some, List, [], ◌∷◌, length,
  replicate, get_elem?, ltb, leb, ◌==◌, if◌then◌else◌,
}
use gca_backend.Base.Equality.{ℕ-Eq}
use gca_backend.Base.Result.{Result, ok, ◌>>=◌}
use gca_backend.Glow.Signatures.{EthCrypto, Signature, sign}
use gca_backend.Glow.Report.{EquipmentReport, signing_bytes, serialize}
use gca_backend.Client.State.{Client}
use gca_backend.Client.History.{static_load_reading}

pub record EnergyRecord : Type 0 where
  pub timeslot : ℕ
  pub energy : ℕ

abbrev pub report_of : Client → EnergyRecord → Signature → EquipmentReport
report_of c er signature = record {
  short_id = c.short_id;
  timeslot = er.timeslot;
  power_output = er.energy;
  signature = signature;
}

-- The bytes that `staticSendReport` hands to the network.
unfoldable pub static_send_report : EthCrypto → Client → EnergyRecord → Result (List ℕ)
static_send_report eth c er = do
  signature ← sign eth (signing_bytes (report_of c er (replicate 64 0))) c.static_priv_key
  ok (serialize (report_of c er signature))

-- `bitfield[i/8]&(1<<(i%8)) == 0`, where the byte exists.
unfoldable pub is_missing : List ℕ → ℕ → Bool
is_missing bitfield i = elim (get_elem? bitfield (i / 8)) [
  | none ↦ Bool.false
  | some byte ↦ byte / 2 ^ (i % 8) % 2 == 0
]

-- The record that is sent again for timeslot `i` behind the offset, if there is one.
unfoldable pub record_at : Client → List ℕ → ℕ → ℕ → Option EnergyRecord
record_at c bitfield offset i =
    let timeslot = (i + offset) % 2 ^ 32 in
    if is_missing bitfield i
    then (if ltb (static_load_reading c timeslot) 2
        then none
        else some (record { timeslot = timeslot; energy = static_load_reading c timeslot }))
    else none

abbrev add_record : Option EnergyRecord → List EnergyRecord → List EnergyRecord
add_record none rest = rest
add_record (some er) rest = er ∷ rest

-- The loop from `i` on for `n` indices.
unfoldable pub scan : Client → List ℕ → ℕ → ℕ → ℕ → List EnergyRecord
scan c bitfield offset zero i = []
scan c bitfield offset (suc n) i =
    add_record (record_at c bitfield offset i) (scan c bitfield offset n (i + 1))

-- The loop stops behind `lastIndex`, in uint32 arithmetic, or at the end of the bitfield.
abbrev pub scan_length : ℕ → ℕ → List ℕ → ℕ
scan_length latest offset bitfield =
    let last_index = (latest + 2 ^ 32 - offset) % 2 ^ 32 in
    if ltb (last_index + 1) (8 * length bitfield) then last_index + 1 else 8 * length bitfield

unfoldable pub missing_records : Client → List ℕ → ℕ → ℕ → List EnergyRecord
missing_records c bitfield offset latest =
    scan c bitfield offset (scan_length latest offset bitfield) 0
