-- ===== src/Server/Impact/Bounds.antt =====
-- server/watttime.go: which rates are written, and when a write is out of range.
use gca_backend.Base.{ℕ, ◌+◌, ◌≤◌, ◌≡◌, ◌≢◌, ◌↔◌, some, arith}
use gca_backend.Base.Equality.{ℕ-Eq}
use gca_backend.Base.Map.{lookup}
use gca_backend.Base.Result.{panic}
use gca_backend.Server.State.{GcaServer, Array}
use gca_backend.Server.Impact.{write_rate, index_rate, week_rate}

-- For a device with an array, the update of the week's data panics exactly for the timeslots at or
-- behind the end of the array, which the update of the current data leaves out.
pub week_rate-panic_iff :
    (s : GcaServer) (id timeslot moer : ℕ) (rates : Array ℕ)
    → lookup id s.equipment_impact_rate ≡ some rates
    → ((week_rate s id timeslot moer ≡ panic) ↔ (s.equipment_reports_offset + 4032 ≤ timeslot))
      × (index_rate s id timeslot moer ≢ panic)
unfolding week_rate index_rate write_rate
week_rate-panic_iff s id timeslot moer rates known = (ground arith, ground arith)
