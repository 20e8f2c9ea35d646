-- ===== src/Examples/Glow.antt =====
-- The theorems on glow/ at concrete values.
use gca_backend.Base.{ℕ, ◌+◌, ◌≤◌, ◌<◌, ◌≡◌, refl, replicate, arith}
use gca_backend.Base.Result.{ok}
use gca_backend.Glow.Timeslot.{
  unix_to_timeslot, current_timeslot, timeslot_to_unix, unix_to_timeslot_bounds,
}
use gca_backend.Glow.Report.{IsReport}
use gca_backend.Glow.Authorization.{EquipmentAuthorization, IsAuthorization}
use gca_backend.Glow.Authorization.Equality.{IsRegular}
use gca_backend.Examples.{device, report}

unix_to_timeslot_bounds_example :
    (t : ℕ) × (unix_to_timeslot 1700353000 ≡ ok t)
    × (current_timeslot 1700353000 ≡ ok t)
    × (timeslot_to_unix t ≤ 1700353000)
    × (1700353000 < timeslot_to_unix t + 300)
unix_to_timeslot_bounds_example = unix_to_timeslot_bounds 1700353000 (omega arith) (omega arith)

pub report-IsReport : IsReport (report 2020 500)
report-IsReport = record {
  short_id_fits = omega arith;
  timeslot_fits = omega arith;
  power_output_fits = omega arith;
  signature_long = refl;
}

device-IsAuthorization : IsAuthorization device
device-IsAuthorization = record {
  short_id_fits = omega arith;
  public_key_long = refl;
  latitude_fits = omega arith;
  longitude_fits = omega arith;
  capacity_fits = omega arith;
  debt_fits = omega arith;
  expiration_fits = omega arith;
  initialization_fits = omega arith;
  protocol_fee_fits = omega arith;
  signature_long = refl;
}

pub device-IsRegular : IsRegular device
device-IsRegular = record {
  valid = device-IsAuthorization;
  latitude_plain = (omega arith, omega arith, omega arith);
  longitude_plain = (omega arith, omega arith, omega arith);
}

-- Another authorization for the short ID of the device, with another key.
abbrev pub other_device : EquipmentAuthorization
other_device = record device { public_key = replicate 32 6 }

pub other_device-IsRegular : IsRegular other_device
other_device-IsRegular = record {
  valid = record {
    short_id_fits = omega arith;
    public_key_long = refl;
    latitude_fits = omega arith;
    longitude_fits = omega arith;
    capacity_fits = omega arith;
    debt_fits = omega arith;
    expiration_fits = omega arith;
    initialization_fits = omega arith;
    protocol_fee_fits = omega arith;
    signature_long = refl;
  };
  latitude_plain = (omega arith, omega arith, omega arith);
  longitude_plain = (omega arith, omega arith, omega arith);
}
