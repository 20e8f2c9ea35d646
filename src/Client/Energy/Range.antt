-- ===== src/Client/Energy/Range.antt =====
-- client/reports.go: the timeslots of the energy file are so small that the offsets of the history do not
-- wrap around.
use gca_backend.Base.{
  ℕ, ◌+◌, ◌^◌, ◌<◌, ◌≡◌, inl, inr, Option, none, some, List, [], ◌∷◌, arith, All, subst,
}
use gca_backend.Base.Equality.{ℕ-Eq}
use gca_backend.Base.Result.{ok, >>=-eq-ok, Result-cases}
use gca_backend.Glow.Timeslot.{unix_to_timeslot}
use gca_backend.Client.Reports.{EnergyRecord}
use gca_backend.Client.Energy.{
  Row, record_of_row, record_of_energy, add_record, timeslot_of, static_read_energy_file,
}

-- The timeslot lies below 2 ^ 30 - 1.
abbrev pub IsSmall : EnergyRecord → Type 0
IsSmall er = er.timeslot + 1 < 2 ^ 30

unix_to_timeslot-small : (time slot : ℕ) → unix_to_timeslot time ≡ ok slot → slot + 1 < 2 ^ 30
unfolding unix_to_timeslot
unix_to_timeslot-small time slot e = ground arith

timeslot_of-small : (time : Option ℕ) (slot : ℕ) → timeslot_of time ≡ ok slot → slot + 1 < 2 ^ 30
timeslot_of-small none slot e = absurd (ground arith)
timeslot_of-small (some time) slot e = unix_to_timeslot-small time slot e

AllSmall : Option EnergyRecord → Type 0
AllSmall none = Unit {0}
AllSmall (some er) = IsSmall er

record_of_energy-small :
    (slot : ℕ) (energy : Option (Option ℕ)) (er : Option EnergyRecord)
    → slot + 1 < 2 ^ 30
    → record_of_energy slot energy ≡ ok er
    → AllSmall er
unfolding AllSmall
record_of_energy-small slot none er small e = absurd (ground arith)
record_of_energy-small slot (some energy) none small e = tt
record_of_energy-small slot (some energy) (some er) small e = ground arith

record_of_row-small :
    (row : Row) (er : Option EnergyRecord) → record_of_row row ≡ ok er → AllSmall er
unfolding record_of_row AllSmall
record_of_row-small row er e = elim (Result-cases (timeslot_of row.time)) [
  | inl (slot, found) ↦
      record_of_energy-small slot row.energy er (timeslot_of-small row.time slot found)
        (rw (record_of_row, found) at e)
  | inr (inl (e', bad)) ↦ let nothing : none ≡ er = ground arith in rw (← nothing) tt
  | inr (inr crashed) ↦ absurd (ground arith)
]

add_record-IsSmall :
    (er : Option EnergyRecord) (rest : List EnergyRecord)
    → AllSmall er
    → All IsSmall rest
    → All IsSmall (add_record er rest)
unfolding AllSmall
add_record-IsSmall none rest h k = k
add_record-IsSmall (some er) rest h k = (h, k)

-- The timeslots of an energy file are small.
pub static_read_energy_file-IsSmall :
    (rows : List Row) (records : List EnergyRecord)
    → static_read_energy_file rows ≡ ok records
    → All IsSmall records
unfolding static_read_energy_file
static_read_energy_file-IsSmall [] records e =
    let nothing : [] ≡ records = ground arith in rw (← nothing) tt
static_read_energy_file-IsSmall (row ∷ rows) records e =
    let (er, first, e1) = >>=-eq-ok (record_of_row row) _ e in
    let (rest, others, last) = >>=-eq-ok (static_read_energy_file rows) _ e1 in
    let same : add_record er rest ≡ records = ground arith in
    subst (All IsSmall) same (
      add_record-IsSmall er rest (record_of_row-small row er first)
        (static_read_energy_file-IsSmall rows rest others))
