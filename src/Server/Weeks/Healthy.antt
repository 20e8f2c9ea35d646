-- ===== src/Server/Weeks/Healthy.antt =====
-- server/equipment.go: a server that can complete a migration, and completes it.
use gca_backend.Base.{
  ℕ, ◌+◌, ◌%◌, ◌^◌, ◌<◌, ◌≡◌, ◌≢◌, refl, inl, inr, true, Option, none, some, List, [], ◌∷◌, ◌++◌,
  arith, leb, ◌==◌, if◌then◌else◌, Option-cases, replicate, take,
}
use gca_backend.Base.Equality.{ℕ-Eq}
use gca_backend.Base.Map.{Map, lookup}
use gca_backend.Base.Result.{ok}
use gca_backend.Glow.Signatures.{EthCrypto, IsKeyPair, sign_lem}
use gca_backend.Glow.Report.{EquipmentReport}
use gca_backend.Server.DeviceStats.{DeviceStats, AllDeviceStats, serialize, signing_bytes}
use gca_backend.Server.State.{GcaServer, Array, append_file}
use gca_backend.Server.Reports.{blank_report}
use gca_backend.Server.Weeks.{
  build_devices, build_device_stats, shift_all, or_created, save_all_device_stats, migrate_week,
  with_signature, key_of, powers, entries,
}
use gca_backend.Server.Weeks.Archive.{lookup-shift_all}

-- Every device with an array of reports has one of rates.
abbrev pub AllRates : Map ℕ (Array ℕ) → Map ℕ (Array EquipmentReport) → Type 0
AllRates rates [] = Unit {0}
AllRates rates ((id, a) ∷ m) = (lookup id rates ≢ none) × AllRates rates m

-- What a migration needs: rates for the devices, a disk that takes writes, keys that sign, and an offset
-- at the begin of a week.
pub record IsHealthy (eth : EthCrypto) (s : GcaServer) : Type 0 where
  pub rates : AllRates s.equipment_impact_rate s.equipment_reports
  pub writable : s.disk.writable ≡ true
  pub keys : IsKeyPair eth s.static_public_key s.static_private_key
  pub whole_week : s.equipment_reports_offset % 2016 ≡ 0

build_devices-ok :
    (x : ℕ) (s : GcaServer) (m : Map ℕ (Array EquipmentReport))
    → AllRates s.equipment_impact_rate m
    → (ds : List DeviceStats) × (build_devices x s m ≡ ok ds)
unfolding build_devices
build_devices-ok x s [] h = ([], refl)
build_devices-ok x s ((id, a) ∷ m) (h, hs) =
    let (ds, built) = build_devices-ok x s m hs in
    elim (Option-cases (lookup id s.equipment_impact_rate)) [
      | inl missing ↦ absurd (h missing)
      | inr (rates, found) ↦ (
        record {
          public_key = key_of (lookup id s.equipment);
          power_outputs = powers 2016 x a;
          impact_rates = entries 2016 x rates;
        }
            ∷ ds,
        rw (found, built) refl,
      )
    ]

build_device_stats-ok :
    (eth : EthCrypto) (s : GcaServer)
    → IsHealthy eth s
    → s.equipment_reports_offset + 2016 < 2 ^ 32
    → (ads : AllDeviceStats) × (build_device_stats eth s s.equipment_reports_offset ≡ ok ads)
unfolding build_device_stats
build_device_stats-ok eth s h bound =
    let off = s.equipment_reports_offset in
    let next : ℕ = (off + 2016) % 2 ^ 32 in
    let x : ℕ = if off == next then 2016 else 0 in
    let (ds, built) = build_devices-ok x s s.equipment_reports h.rates in
    let message = signing_bytes (with_signature off ds (replicate 64 0)) in
    let week : (off % 2016 == 0) ≡ true = ground (arith, h.whole_week) in
    let begun : leb off off ≡ true = ground arith in
    let near : leb off next ≡ true = ground arith in
    let signed = sign_lem h.keys message in
    (
      with_signature off ds (take 64 (h.keys.signature_of (eth.keccak256 message))),
      rw (week, begun, near, built, signed) refl,
    )

AllRates-shift_all :
    (rates : Map ℕ (Array ℕ)) (m : Map ℕ (Array EquipmentReport))
    → AllRates rates m
    → AllRates (shift_all 0 rates) (shift_all blank_report m)
unfolding shift_all
AllRates-shift_all rates [] h = tt
AllRates-shift_all rates ((id, a) ∷ m) (h, hs) = (
  (λ missing. elim (Option-cases (lookup id rates)) [
    | inl none_there ↦ h none_there
    | inr (r, found) ↦ ground (arith, lookup-shift_all 0 id rates, found, missing)
  ]),
  AllRates-shift_all rates m hs,
)

append-ok :
    (file : Option (List ℕ)) (bytes : List ℕ)
    → (new : List ℕ) × (append_file true (or_created file) bytes ≡ some new)
unfolding append_file
append-ok none bytes = (bytes, refl)
append-ok (some old) bytes = (old ++ bytes, refl)

save-ok :
    (s : GcaServer) (ads : AllDeviceStats)
    → s.disk.writable ≡ true
    → (file : List ℕ) × (save_all_device_stats s ads
        ≡ ok (record s { disk = record s.disk { device_stats = some file } }))
unfolding save_all_device_stats
save-ok s ads writable =
    let (file, added) = append-ok s.disk.device_stats (serialize ads) in
    (file, ground (arith, writable, added))

-- A healthy server completes a migration, and is healthy after it.
pub migrate_week-ok :
    (eth : EthCrypto) (s : GcaServer)
    → IsHealthy eth s
    → s.equipment_reports_offset + 2016 < 2 ^ 32
    → (s' : GcaServer) × (migrate_week eth s ≡ ok s')
      × IsHealthy eth s'
      × (s'.equipment_reports_offset ≡ s.equipment_reports_offset + 2016)
unfolding migrate_week
migrate_week-ok eth s h bound =
    let (ads, built) = build_device_stats-ok eth s h bound in
    let grown = record s { equipment_stats_history = s.equipment_stats_history ++ (ads ∷ []) } in
    let (file, saved) = save-ok grown ads h.writable in
    let moved : (s.equipment_reports_offset + 2016) % 2 ^ 32 ≡ s.equipment_reports_offset + 2016 =
      omega arith in
    (
      record s {
        equipment_stats_history = s.equipment_stats_history ++ (ads ∷ []);
        disk = record s.disk { device_stats = some file };
        equipment_reports = shift_all blank_report s.equipment_reports;
        equipment_impact_rate = shift_all 0 s.equipment_impact_rate;
        equipment_reports_offset = (s.equipment_reports_offset + 2016) % 2 ^ 32;
      },
      rw (built, saved) refl,
      record {
        rates = AllRates-shift_all s.equipment_impact_rate s.equipment_reports h.rates;
        writable = h.writable;
        keys = h.keys;
        whole_week = omega (arith, h.whole_week);
      },
      moved,
    )
