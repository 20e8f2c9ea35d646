-- ===== src/Examples/Weeks.antt =====
-- The theorems on the weekly archive at the server with one device.
use gca_backend.Base.{
  ◌*◌, ℕ, zero, suc, ◌+◌, ◌≤◌, ◌<◌, ◌≡◌, ◌≢◌, ◌↔◌, refl, true, some, [], ◌∷◌, if◌then◌else◌, ltb,
  All, arith, replicate, length-replicate,
}
use gca_backend.Base.Equality.{ℕ-Eq}
use gca_backend.Base.Map.{lookup}
use gca_backend.Base.Result.{ok, panic}
use gca_backend.Glow.Signatures.{sign}
use gca_backend.Server.DeviceStats.{AllDeviceStats, IsAllDeviceStats, IsUint64}
use gca_backend.Server.State.{GcaServer, append_file}
use gca_backend.Server.Reports.{blank_report}
use gca_backend.Server.Reports.Safety.{slot_at}
use gca_backend.Server.Impact.{week_rate, index_rate}
use gca_backend.Server.Impact.Bounds.{week_rate-panic_iff}
use gca_backend.Server.Weeks.{
  Answers, build_device_stats, build_devices, save_all_device_stats, migrate_week, catch_up,
  load_equipment_history,
}
use gca_backend.Server.Weeks.Archive.{migrate_week-slot}
use gca_backend.Server.Weeks.CatchUp.{IsDone, catch_up-IsDone}
use gca_backend.Server.Weeks.Healthy.{IsHealthy}
use gca_backend.Server.Weeks.Progress.{AllInRange, catch_up-IsHealthy}
use gca_backend.Server.Weeks.Loading.{archive_file, with_weeks, load_equipment_history-archive_file}
use gca_backend.Server.Impact.InRange.{IsNear}
use gca_backend.Glow.Timeslot.{unix_to_timeslot}
use gca_backend.Examples.{
  key_pair, toy_crypto, key_of, signature_of, server, report, is_ok, value_or, is_ok→value,
}

-- The server with a report in the second week.
abbrev reporting : GcaServer
reporting = record server {
  equipment_reports = (7, λ i. if ltb i 2020 then blank_report else report 4040 500) ∷ [];
}

week_done : is_ok (migrate_week toy_crypto reporting) ≡ true
unfolding migrate_week build_device_stats build_devices save_all_device_stats append_file sign
    lookup
week_done = refl

migrated : GcaServer
migrated = value_or reporting (migrate_week toy_crypto reporting)

to_migrated : migrate_week toy_crypto reporting ≡ ok migrated
unfolding migrated
to_migrated = is_ok→value reporting (migrate_week toy_crypto reporting) week_done

migrate_week-slot_example :
    (slot_at migrated 7 8 ≡ (if ltb 8 2016 then slot_at reporting 7 (8 + 2016) else blank_report))
    × (migrated.equipment_reports_offset + 8 ≡ 2016 + (8 + 2016))
migrate_week-slot_example =
    migrate_week-slot toy_crypto reporting migrated 7 8 (omega arith) to_migrated

-- The statistics of one device for the week at 2016.
abbrev week : AllDeviceStats
week = record {
  devices =
      record {
        public_key = key_of 5;
        power_outputs = replicate 2016 0;
        impact_rates = replicate 2016 0;
      }
      ∷ [];
  timeslot_offset = 2016;
  signature = signature_of 9;
}

all_zero : (n : ℕ) → All IsUint64 (replicate n 0)
all_zero zero = tt
all_zero (suc n) = (omega arith, all_zero n)

week-IsAllDeviceStats : IsAllDeviceStats week
week-IsAllDeviceStats = record {
  devices_fit = omega arith;
  devices_valid = (
    record {
      public_key_long = refl;
      power_outputs_long = length-replicate {A = ℕ} 2016 0;
      impact_rates_long = length-replicate {A = ℕ} 2016 0;
      power_outputs_fit = all_zero 2016;
      impact_rates_fit = all_zero 2016;
    },
    tt,
  );
  timeslot_offset_fits = omega arith;
  signature_long = refl;
}

abbrev archived : GcaServer
archived = record server { equipment_reports_offset = 4032; equipment_stats_history = week ∷ [] }

load_equipment_history-archive_file_example :
    load_equipment_history (record server {
      disk = record server.disk { device_stats = some (archive_file (week ∷ [])) };
    })
    ≡ ok (
        with_weeks
          (record server {
            disk = record server.disk { device_stats = some (archive_file (week ∷ [])) };
          })
          (week ∷ []))
load_equipment_history-archive_file_example =
    load_equipment_history-archive_file
      (record server {
        disk = record server.disk { device_stats = some (archive_file (week ∷ [])) };
      })
      (week ∷ []) (week-IsAllDeviceStats, tt) refl

-- Two weeks behind at the start.
catch_up-IsDone_example : IsDone 9000 (catch_up toy_crypto 9000 (λ k. []) 3 server)
catch_up-IsDone_example =
    catch_up-IsDone toy_crypto 9000 (λ k. []) 2 server (omega arith) (omega arith)

server-IsHealthy : IsHealthy toy_crypto server
unfolding lookup
server-IsHealthy = record {
  rates = ((λ missing. ground (arith, missing)), tt);
  writable = refl;
  keys = key_pair 9;
  whole_week = refl;
}

-- WattTime answers each round with a rate for timeslot 2016.
abbrev week_answers : ℕ → Answers
week_answers round = (7, some ((5, 1700352000 + 2016 * 300) ∷ [])) ∷ []

date-IsNear : (offset : ℕ) → 2016 ≤ offset → IsNear offset (1700352000 + 2016 * 300)
unfolding unix_to_timeslot
date-IsNear offset h t found = ground (arith, found)

week_answers-AllInRange : AllInRange server.equipment_impact_rate week_answers 2 2016
unfolding lookup
week_answers-AllInRange = (
  ((λ missing. cc missing), (date-IsNear 2016 (omega arith), tt), tt),
  (((λ missing. cc missing), (date-IsNear 4032 (omega arith), tt), tt), tt),
)

catch_up-IsHealthy_example :
    (s' : GcaServer) × (catch_up toy_crypto 9000 week_answers 3 server ≡ some (ok s'))
    × (9000 < s'.equipment_reports_offset + 4000)
    × IsHealthy toy_crypto s'
catch_up-IsHealthy_example =
    catch_up-IsHealthy toy_crypto 9000 2 week_answers server server-IsHealthy
      week_answers-AllInRange (omega arith) (omega arith)

week_rate-panic_iff_example :
    ((week_rate server 7 6048 12 ≡ panic) ↔ (2016 + 4032 ≤ 6048))
    × (index_rate server 7 6048 12 ≢ panic)
week_rate-panic_iff_example = week_rate-panic_iff server 7 6048 12 (λ i. 0) (unfold lookup in refl)
