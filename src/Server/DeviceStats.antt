-- ===== src/Server/DeviceStats.antt =====
-- server/api_device_stats.go: the weekly statistics of the devices and their serialisation. A float64
-- stands as its bits.
pub mod RoundTrip
use gca_backend.Base.{
  ℕ, zero, suc, ◌+◌, ◌-◌, ◌%◌, ◌^◌, ◌<◌, ◌≡◌, List, [], ◌∷◌, ◌++◌, length, take, drop, leb, All,
  if◌then◌else◌,
}
use gca_backend.Base.Bytes.{put_uint, uint, ascii}
use gca_backend.Base.Result.{Result, ok, err, panic, too_short, ◌>>=◌, ◌>>◌, guard}
use gca_backend.Glow.Signatures.{PublicKey, Signature}

-- The two arrays have 2016 entries.
pub record DeviceStats : Type 0 where
  pub public_key : PublicKey
  pub power_outputs : List ℕ
  pub impact_rates : List ℕ

pub record AllDeviceStats : Type 0 where
  pub devices : List DeviceStats
  pub timeslot_offset : ℕ
  pub signature : Signature

abbrev pub IsUint64 : ℕ → Type 0
IsUint64 n = n < 2 ^ 64

pub record IsDeviceStats (ds : DeviceStats) : Type 0 where
  pub public_key_long : length ds.public_key ≡ 32
  pub power_outputs_long : length ds.power_outputs ≡ 2016
  pub impact_rates_long : length ds.impact_rates ≡ 2016
  pub power_outputs_fit : All IsUint64 ds.power_outputs
  pub impact_rates_fit : All IsUint64 ds.impact_rates

-- The values that Go's types allow, with a number of devices that fits its four bytes.
pub record IsAllDeviceStats (ads : AllDeviceStats) : Type 0 where
  pub devices_fit : length ads.devices < 2 ^ 32
  pub devices_valid : All IsDeviceStats ads.devices
  pub timeslot_offset_fits : ads.timeslot_offset < 2 ^ 32
  pub signature_long : length ads.signature ≡ 64

unfoldable pub put_numbers : List ℕ → List ℕ
put_numbers [] = []
put_numbers (n ∷ ns) = put_uint 8 n ++ put_numbers ns

unfoldable pub put_devices : List DeviceStats → List ℕ
put_devices [] = []
put_devices (d ∷ ds) =
    d.public_key ++ (put_numbers d.power_outputs ++ (put_numbers d.impact_rates ++ put_devices ds))

unfoldable pub signing_bytes : AllDeviceStats → List ℕ
signing_bytes ads =
    ascii "AllDeviceStats"
    ++ (put_uint 4 (length ads.devices % 2 ^ 32)
        ++ (put_devices ads.devices ++ put_uint 4 ads.timeslot_offset))

unfoldable pub serialize : AllDeviceStats → List ℕ
serialize ads =
    put_uint 4 (length ads.devices % 2 ^ 32)
    ++ (put_devices ads.devices ++ (put_uint 4 ads.timeslot_offset ++ ads.signature))

-- The reader works on what is left of the input. `i+n > len(b)` says that fewer than `n` bytes are.
unfoldable pub read : ℕ → List ℕ → Result (List ℕ × List ℕ)
read n rest = if leb n (length rest) then ok (take n rest, drop n rest) else err too_short

unfoldable pub read_numbers : ℕ → List ℕ → Result (List ℕ × List ℕ)
read_numbers zero rest = ok ([], rest)
read_numbers (suc n) rest = do
  (bytes, rest') ← read 8 rest
  (ns, rest'') ← read_numbers n rest'
  ok (uint bytes ∷ ns, rest'')

-- A device's arrays have `n` entries, which is 2016 in the program.
unfoldable pub read_devices : ℕ → ℕ → List ℕ → Result (List DeviceStats × List ℕ)
read_devices n zero rest = ok ([], rest)
read_devices n (suc devices) rest = do
  (key, rest') ← read 32 rest
  (outputs, rest'') ← read_numbers n rest'
  (rates, rest''') ← read_numbers n rest''
  (ds, left) ← read_devices n devices rest'''
  ok (record { public_key = key; power_outputs = outputs; impact_rates = rates } ∷ ds, left)

-- The statistics, and the number of bytes that they took.
unfoldable pub deserialize_stream : List ℕ → Result (AllDeviceStats × ℕ)
deserialize_stream b = do
  (count, rest) ← read 4 b
  (devices, rest') ← read_devices 2016 (uint count) rest
  (offset, rest'') ← read 4 rest'
  (signature, left) ← read 64 rest''
  ok (
    record { devices = devices; timeslot_offset = uint offset; signature = signature },
    length b - length left,
  )
