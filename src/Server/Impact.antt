-- ===== src/Server/Impact.antt =====
-- server/watttime.go: how the rates that WattTime answers with enter the state. The requests are
-- parameters: each device comes with the answer for it, `none` for an error.
pub mod Bounds
pub mod InRange
use gca_backend.Base.{
  ℕ, zero, suc, ◌+◌, ◌-◌, Bool, true, false, Option, none, some, List, [], ◌∷◌, ltb, leb,
  if◌then◌else◌,
}
use gca_backend.Base.Equality.{ℕ-Eq}
use gca_backend.Base.Map.{lookup, insert}
use gca_backend.Base.Result.{Result, ok, err, panic, ◌>>=◌}
use gca_backend.Glow.Timeslot.{unix_to_timeslot}
use gca_backend.Server.State.{GcaServer, Array, store}

-- `equipmentImpactRate[shortID][index] = moer`: a missing device is a nil pointer.
unfoldable pub write_rate : GcaServer → ℕ → ℕ → ℕ → Result GcaServer
write_rate s short_id index moer = elim (lookup short_id s.equipment_impact_rate) [
  | none ↦ panic
  | some rates ↦
      if leb 4032 index
      then panic
      else ok (record s {
        equipment_impact_rate = insert short_id (store index moer rates) s.equipment_impact_rate;
      })
]

-- The update of `managedGetWattTimeIndexData` at a timeslot, with its test on both bounds.
unfoldable pub index_rate : GcaServer → ℕ → ℕ → ℕ → Result GcaServer
index_rate s short_id timeslot moer =
    if leb s.equipment_reports_offset timeslot
    then (if ltb (timeslot - s.equipment_reports_offset) 4032
        then write_rate s short_id (timeslot - s.equipment_reports_offset) moer
        else ok s)
    else ok s

-- The update of `managedGetWattTimeWeekData` at a timeslot, which tests the lower bound alone.
unfoldable pub week_rate : GcaServer → ℕ → ℕ → ℕ → Result GcaServer
week_rate s short_id timeslot moer =
    if leb s.equipment_reports_offset timeslot
    then write_rate s short_id (timeslot - s.equipment_reports_offset) moer
    else ok s

-- A date before genesis is skipped.
unfoldable pub at_date : (ℕ → Result GcaServer) → ℕ → GcaServer → Result GcaServer
at_date update date s = elim (unix_to_timeslot date) [
  | ok timeslot ↦ update timeslot
  | err _ ↦ ok s
  | panic ↦ panic
]

-- One round over the devices, each with its current rate and date.
unfoldable pub index_data : GcaServer → List (ℕ × Option (ℕ × ℕ)) → Result GcaServer
index_data s [] = ok s
index_data s ((short_id, none) ∷ answers) = index_data s answers
index_data s ((short_id, some (moer, date)) ∷ answers) = do
  s' ← at_date (λ timeslot. index_rate s short_id timeslot moer) date s
  index_data s' answers

-- The inner loop stops at the 4032nd date; `room` counts down.
unfoldable pub week_dates : ℕ → GcaServer → ℕ → List (ℕ × ℕ) → Result GcaServer
week_dates zero s short_id dates = ok s
week_dates (suc room) s short_id [] = ok s
week_dates (suc room) s short_id ((moer, date) ∷ dates) = do
  s' ← at_date (λ timeslot. week_rate s short_id timeslot moer) date s
  week_dates room s' short_id dates

unfoldable pub week_data : GcaServer → List (ℕ × Option (List (ℕ × ℕ))) → Result GcaServer
week_data s [] = ok s
week_data s ((short_id, none) ∷ answers) = week_data s answers
week_data s ((short_id, some dates) ∷ answers) = do
  s' ← week_dates 4032 s short_id dates
  week_data s' answers
