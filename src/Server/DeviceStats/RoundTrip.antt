-- ===== src/Server/DeviceStats/RoundTrip.antt =====
-- server/api_device_stats.go: the statistics are read back as they were written, one after the other.
use gca_backend.Base.{
  ℕ, zero, suc, ◌-◌, ◌%◌, ◌^◌, ◌≡◌, refl, ap, ◌∙◌, List, [], ◌∷◌, ◌++◌, arith, length, drop, All,
  length-append, take-append_self, drop-append, append_assoc,
}
use gca_backend.Base.Bytes.{put_uint, length-put_uint, uint-put_uint}
use gca_backend.Base.Result.{Result, ok}
use gca_backend.Server.DeviceStats.{
  DeviceStats, AllDeviceStats, IsDeviceStats, IsAllDeviceStats, IsUint64, put_numbers, put_devices,
  serialize, read, read_numbers, read_devices, deserialize_stream,
}

pub read-append :
    (n : ℕ) (bytes rest : List ℕ) → length bytes ≡ n → read n (bytes ++ rest) ≡ ok (bytes, rest)
unfolding read
read-append n bytes rest h =
    let back : drop n (bytes ++ rest) ≡ drop (n - length bytes) rest =
      drop-append n bytes rest (omega arith) in
    let none_left : n - length bytes ≡ 0 = omega arith in
    ground (
      arith,
      length-append bytes rest,
      take-append_self n bytes rest h,
      back ∙ ap (λ (k : ℕ). drop k rest) none_left,
    )

read_numbers-append :
    (n : ℕ) (ns : List ℕ) (rest : List ℕ)
    → length ns ≡ n
    → All IsUint64 ns
    → read_numbers n (put_numbers ns ++ rest) ≡ ok (ns, rest)
unfolding read_numbers put_numbers
read_numbers-append zero [] rest h fit = refl
read_numbers-append zero (x ∷ ns) rest h fit = absurd (omega arith)
read_numbers-append (suc n) [] rest h fit = absurd (omega arith)
read_numbers-append (suc n) (x ∷ ns) rest h fit = rw (
  append_assoc (put_uint 8 x) (put_numbers ns) rest,
  read-append 8 (put_uint 8 x) (put_numbers ns ++ rest) (length-put_uint 8 x),
  read_numbers-append n ns rest (omega arith) fit.1,
  uint-put_uint 8 x fit.0,
)

-- The arrays of every device have `n` entries.
record IsSized (n : ℕ) (d : DeviceStats) : Type 0 where
  key_long : length d.public_key ≡ 32
  outputs_long : length d.power_outputs ≡ n
  rates_long : length d.impact_rates ≡ n
  outputs_fit : All IsUint64 d.power_outputs
  rates_fit : All IsUint64 d.impact_rates

read_devices-append :
    (n : ℕ) (ds : List DeviceStats) (rest : List ℕ)
    → All (IsSized n) ds
    → read_devices n (length ds) (put_devices ds ++ rest) ≡ ok (ds, rest)
unfolding read_devices put_devices
read_devices-append n [] rest h = refl
read_devices-append n (d ∷ ds) rest (h, hs) = rw (
  append_assoc d.public_key
      (put_numbers d.power_outputs ++ (put_numbers d.impact_rates ++ put_devices ds)) rest,
  read-append 32 d.public_key _ h.key_long,
  append_assoc (put_numbers d.power_outputs) (put_numbers d.impact_rates ++ put_devices ds) rest,
  read_numbers-append n d.power_outputs _ h.outputs_long h.outputs_fit,
  append_assoc (put_numbers d.impact_rates) (put_devices ds) rest,
  read_numbers-append n d.impact_rates _ h.rates_long h.rates_fit,
  read_devices-append n ds rest hs,
)

sized : (ds : List DeviceStats) → All IsDeviceStats ds → All (IsSized 2016) ds
sized [] h = tt
sized (d ∷ ds) (h, hs) = (
  record {
    key_long = h.public_key_long;
    outputs_long = h.power_outputs_long;
    rates_long = h.impact_rates_long;
    outputs_fit = h.power_outputs_fit;
    rates_fit = h.impact_rates_fit;
  },
  sized ds hs,
)

-- From the front of any input, `DeserializeStreamAllDeviceStats` reads back the statistics that were
-- written there, and counts exactly the bytes that they took.
pub deserialize_stream-serialize :
    (ads : AllDeviceStats) (more : List ℕ)
    → IsAllDeviceStats ads
    → deserialize_stream (serialize ads ++ more) ≡ ok (ads, length (serialize ads))
unfolding deserialize_stream serialize
deserialize_stream-serialize ads more h =
    let count : ℕ = length ads.devices % 2 ^ 32 in
    let small : count ≡ length ads.devices = omega (arith, h.devices_fit) in
    let stamp = put_uint 4 ads.timeslot_offset in
    rw
      (
        append_assoc (put_uint 4 count) (put_devices ads.devices ++ (stamp ++ ads.signature)) more,
        read-append 4 (put_uint 4 count) _ (length-put_uint 4 count),
        uint-put_uint 4 count (omega arith),
        small,
        append_assoc (put_devices ads.devices) (stamp ++ ads.signature) more,
        read_devices-append 2016 ads.devices _ (sized ads.devices h.devices_valid),
        append_assoc stamp ads.signature more,
        read-append 4 stamp _ (length-put_uint 4 ads.timeslot_offset),
        read-append 64 ads.signature more h.signature_long,
        uint-put_uint 4 ads.timeslot_offset h.timeslot_offset_fits,
      )
      (ap {B = Result (AllDeviceStats × ℕ)} (λ (k : ℕ). ok (ads, k))
        (omega (arith, length-append {0})))
