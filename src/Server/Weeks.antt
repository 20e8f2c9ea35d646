-- ===== src/Server/Weeks.antt =====
-- The weekly archive: `buildDeviceStats` and its handler (server/api_device_stats.go), and the
-- migration of the arrays, the file of the history and its loading (server/equipment.go).
pub mod Archive
pub mod CatchUp
pub mod Loading
pub mod Healthy
pub mod Progress
use gca_backend.Base.{
  ℕ, zero, suc, ◌+◌, ◌-◌, ◌/◌, ◌%◌, ◌^◌, Bool, true, false, Option, none, some, List, [], ◌∷◌, ◌++◌,
  length, drop, get_elem?, ltb, leb, ◌==◌, if◌then◌else◌, replicate, not,
}
use gca_backend.Base.Equality.{ℕ-Eq}
use gca_backend.Base.Map.{Map, lookup}
use gca_backend.Base.Result.{
  Result, ok, err, panic, bad_timeslot, io_failure, ◌>>=◌, ◌>>◌, guard, check,
}
use gca_backend.Glow.Signatures.{EthCrypto, PublicKey, sign}
use gca_backend.Glow.Report.{EquipmentReport}
use gca_backend.Glow.Authorization.{EquipmentAuthorization}
use gca_backend.Server.DeviceStats.{
  DeviceStats, AllDeviceStats, signing_bytes, serialize, deserialize_stream,
}
use gca_backend.Server.State.{GcaServer, Disk, Array, append_file}
use gca_backend.Server.Reports.{blank_report}
use gca_backend.Server.Impact.{week_data}

-- Entries `x` to `x + n - 1` of an array.
unfoldable pub entries : {A : Type 0} → ℕ → ℕ → Array A → List A
entries zero x a = []
entries (suc n) x a = a x ∷ entries n (x + 1) a

unfoldable pub powers : ℕ → ℕ → Array EquipmentReport → List ℕ
powers zero x a = []
powers (suc n) x a = (a x).power_output ∷ powers n (x + 1) a

-- The zero value of a missing authorization has a key of zeros.
abbrev pub key_of : Option EquipmentAuthorization → PublicKey
key_of none = replicate 32 0
key_of (some ea) = ea.public_key

device_stats : ℕ → GcaServer → ℕ → Array EquipmentReport → Option (Array ℕ) → Result DeviceStats
device_stats x s short_id reports none = panic
device_stats x s short_id reports (some rates) = ok (record {
  public_key = key_of (lookup short_id s.equipment);
  power_outputs = powers 2016 x reports;
  impact_rates = entries 2016 x rates;
})

-- The loop over the arrays of reports.
unfoldable pub build_devices :
    ℕ → GcaServer → Map ℕ (Array EquipmentReport) → Result (List DeviceStats)
unfolding device_stats
build_devices x s [] = ok []
build_devices x s ((short_id, reports) ∷ m) = do
  ds ← device_stats x s short_id reports (lookup short_id s.equipment_impact_rate)
  rest ← build_devices x s m
  ok (ds ∷ rest)

abbrev pub with_signature : ℕ → List DeviceStats → List ℕ → AllDeviceStats
with_signature tso devices signature = record {
  devices = devices;
  timeslot_offset = tso;
  signature = signature;
}

abbrev sign_stats : EthCrypto → GcaServer → ℕ → List DeviceStats → Result AllDeviceStats
sign_stats eth s tso devices = do
  signature ←
      sign eth (signing_bytes (with_signature tso devices (replicate 64 0))) s.static_private_key
  ok (with_signature tso devices signature)

unfoldable pub build_device_stats : EthCrypto → GcaServer → ℕ → Result AllDeviceStats
build_device_stats eth s tso =
    let next = (s.equipment_reports_offset + 2016) % 2 ^ 32 in
    do
      guard (tso % 2016 == 0) bad_timeslot
      guard (leb s.equipment_reports_offset tso) bad_timeslot
      guard (leb tso next) bad_timeslot
      devices ← build_devices (if tso == next then 2016 else 0) s s.equipment_reports
      sign_stats eth s tso devices

-- `AllDeviceStatsHandler` behind the parser of the query, with the lookup in the history.
unfoldable pub all_device_stats : EthCrypto → GcaServer → ℕ → Result AllDeviceStats
all_device_stats eth s tso =
    if not (tso % 2016 == 0)
    then err bad_timeslot
    else if ltb tso s.equipment_reports_offset
    then elim (get_elem? s.equipment_stats_history
        ((tso + 2 ^ 32 - s.equipment_history_offset) % 2 ^ 32 / 2016)) [
          | none ↦ panic
          | some ads ↦ ok ads
        ]
    else build_device_stats eth s tso

-- The last half of an array moves to the first, and zero values follow.
unfoldable pub shift_array : {A : Type 0} → A → Array A → Array A
shift_array blank a i = if ltb i 2016 then a (i + 2016) else blank

unfoldable pub shift_all : {A : Type 0} → A → Map ℕ (Array A) → Map ℕ (Array A)
shift_all blank [] = []
shift_all blank ((id, a) ∷ m) = (id, shift_array blank a) ∷ shift_all blank m

-- `saveAllDeviceStats` creates the file if it is missing.
abbrev or_created : Option (List ℕ) → Option (List ℕ)
or_created none = some []
or_created (some bytes) = some bytes

unfoldable pub save_all_device_stats : GcaServer → AllDeviceStats → Result GcaServer
save_all_device_stats s ads =
    elim (append_file s.disk.writable (or_created s.disk.device_stats) (serialize ads)) [
      | none ↦ err io_failure
      | some file ↦ ok (record s { disk = record s.disk { device_stats = some file } })
    ]

abbrev or_panic : {A : Type 0} → Result A → Result A
or_panic (ok a) = ok a
or_panic (err e) = panic
or_panic panic = panic

-- The part of `threadedMigrateReports` under the mutex: archive the first week, and move on by a week.
unfoldable pub migrate_week : EthCrypto → GcaServer → Result GcaServer
migrate_week eth s = do
  stats ← or_panic (build_device_stats eth s s.equipment_reports_offset)
  s' ← or_panic (
      save_all_device_stats
        (record s { equipment_stats_history = s.equipment_stats_history ++ (stats ∷ []) }) stats)
  ok (record s' {
    equipment_reports = shift_all blank_report s'.equipment_reports;
    equipment_impact_rate = shift_all 0 s'.equipment_impact_rate;
    equipment_reports_offset = (s'.equipment_reports_offset + 2016) % 2 ^ 32;
  })

-- What WattTime answers when a week is closed.
abbrev pub Answers : Type 0
Answers = List (ℕ × Option (List (ℕ × ℕ)))

-- One round of the loop, at timeslot `now`. The int64 comparison is written without negative numbers.
unfoldable pub migrate_step : EthCrypto → ℕ → Answers → GcaServer → Result GcaServer
migrate_step eth now answers s =
    if ltb (s.equipment_reports_offset + 3200) now
    then (do s' ← week_data s answers; migrate_week eth s')
    else ok s

-- The rounds before `ready` is closed: without a pause while the offset is 4000 or more behind. `none`
-- says that the fuel ran out; each round has its answers.
unfoldable pub catch_up : EthCrypto → ℕ → (ℕ → Answers) → ℕ → GcaServer → Option (Result GcaServer)
catch_up eth now answers zero s = none
catch_up eth now answers (suc fuel) s =
    if ltb now (s.equipment_reports_offset + 4000)
    then some (ok s)
    else elim (migrate_step eth now (answers fuel) s) [
      | ok s' ↦ catch_up eth now answers fuel s'
      | err e ↦ some (err e)
      | panic ↦ some panic
    ]

-- `loadEquipmentHistory`: one week at a time, on fuel.
unfoldable pub load_history_loop : ℕ → List ℕ → GcaServer → Result GcaServer
load_history_loop fuel [] s = ok s
load_history_loop zero (b ∷ bs) s = panic
load_history_loop (suc fuel) (b ∷ bs) s = do
  (ads, i) ← deserialize_stream (b ∷ bs)
  load_history_loop fuel (drop i (b ∷ bs)) (record s {
    equipment_stats_history = s.equipment_stats_history ++ (ads ∷ []);
    equipment_reports_offset = (ads.timeslot_offset + 2016) % 2 ^ 32;
  })

-- Every week takes a byte at least, so the length of the file is enough fuel.
unfoldable pub load_equipment_history : GcaServer → Result GcaServer
load_equipment_history s = elim s.disk.device_stats [
  | none ↦
      if s.disk.writable
      then ok (record s { disk = record s.disk { device_stats = some [] } })
      else err io_failure
  | some raw ↦ load_history_loop (length raw) raw s
]
