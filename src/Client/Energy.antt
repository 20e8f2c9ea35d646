-- ===== src/Client/Energy.antt =====
-- client/reports.go: `staticReadEnergyFile` behind the parser of the file.
pub mod Range
pub mod Rounding
use gca_backend.Base.{
  ℕ, zero, suc, ◌+◌, ◌-◌, ◌*◌, ◌/◌, ◌%◌, ◌^◌, Option, none, some, List, [], ◌∷◌, ltb, ◌==◌,
  if◌then◌else◌,
}
use gca_backend.Base.Equality.{ℕ-Eq}
use gca_backend.Base.Result.{Result, ok, err, panic, io_failure, ◌>>=◌}
use gca_backend.Glow.Timeslot.{unix_to_timeslot}
use gca_backend.Client.Reports.{EnergyRecord}

-- A row of the file: the time, `none` if it is no number (a negative time is skipped as 0 is), and the energy, whose field may be missing
-- and is `some none` where it is no uint32.
pub record Row : Type 0 where
  pub time : Option ℕ
  pub energy : Option (Option ℕ)

-- An energy that is no number counts as 0.
abbrev pub or_zero : Option ℕ → ℕ
or_zero none = 0
or_zero (some n) = n

-- The reading is rounded down.
abbrev pub rounded : ℕ → ℕ
rounded energy = if energy % 1000 == 0 then energy - 1000 else energy - 1

-- `energy * EnergyMultiplier / 1e3` in 64 bits.
unfoldable pub energy_of : ℕ → ℕ
energy_of energy = rounded energy * 6667 % 2 ^ 64 / 1000

abbrev pub timeslot_of : Option ℕ → Result ℕ
timeslot_of none = err io_failure
timeslot_of (some time) = unix_to_timeslot time

-- The record of a row with this timeslot; the sentinels 0, 1 and 2 are skipped.
abbrev pub record_of_energy : ℕ → Option (Option ℕ) → Result (Option EnergyRecord)
record_of_energy timeslot none = panic
record_of_energy timeslot (some energy) =
    if ltb (or_zero energy) 3
    then ok none
    else ok (some (record { timeslot = timeslot; energy = energy_of (or_zero energy) }))

unfoldable pub record_of_row : Row → Result (Option EnergyRecord)
record_of_row row = elim (timeslot_of row.time) [
  | ok timeslot ↦ record_of_energy timeslot row.energy
  | err _ ↦ ok none
  | panic ↦ panic
]

abbrev pub add_record : Option EnergyRecord → List EnergyRecord → List EnergyRecord
add_record none rest = rest
add_record (some er) rest = er ∷ rest

unfoldable pub static_read_energy_file : List Row → Result (List EnergyRecord)
static_read_energy_file [] = ok []
static_read_energy_file (row ∷ rows) = do
  er ← record_of_row row
  rest ← static_read_energy_file rows
  ok (add_record er rest)
