-- ===== src/Server/Weeks/Loading.antt =====
-- server/equipment.go: `loadEquipmentHistory` reads back the archive that `saveAllDeviceStats` wrote.
use gca_backend.Base.{
  ℕ, zero, suc, ◌+◌, ◌-◌, ◌%◌, ◌^◌, ◌≤◌, ◌<◌, ◌≡◌, refl, ap, ◌∙◌, some, List, [], ◌∷◌, ◌++◌, arith,
  length, drop, All, length-append, drop-append,
}
use gca_backend.Base.Bytes.{length-put_uint}
use gca_backend.Base.Result.{ok}
use gca_backend.Server.DeviceStats.{AllDeviceStats, IsAllDeviceStats, serialize, deserialize_stream}
use gca_backend.Server.DeviceStats.RoundTrip.{deserialize_stream-serialize}
use gca_backend.Server.State.{GcaServer}
use gca_backend.Server.Weeks.{load_history_loop, load_equipment_history}

-- The file after each of the weeks was appended.
unfoldable pub archive_file : List AllDeviceStats → List ℕ
archive_file [] = []
archive_file (ads ∷ weeks) = serialize ads ++ archive_file weeks

-- The server's history and offset once these weeks are added.
unfoldable pub with_weeks : GcaServer → List AllDeviceStats → GcaServer
with_weeks s [] = s
with_weeks s (ads ∷ weeks) =
    with_weeks
      (record s {
        equipment_stats_history = s.equipment_stats_history ++ (ads ∷ []);
        equipment_reports_offset = (ads.timeslot_offset + 2016) % 2 ^ 32;
      })
      weeks

drop_self : (xs ys : List ℕ) → drop (length xs) (xs ++ ys) ≡ ys
drop_self xs ys =
    let none_left : length xs - length xs ≡ 0 = omega arith in
    drop-append (length xs) xs ys (omega arith) ∙ ap (λ (k : ℕ). drop k ys) none_left

length-serialize : (ads : AllDeviceStats) → 4 ≤ length (serialize ads)
unfolding serialize
length-serialize ads = omega (arith, length-append {0}, length-put_uint)

loop_step :
    (fuel : ℕ) (bs : List ℕ) (s : GcaServer) (ads : AllDeviceStats) (i : ℕ)
    → 0 < length bs
    → deserialize_stream bs ≡ ok (ads, i)
    → load_history_loop (suc fuel) bs s
      ≡ load_history_loop fuel (drop i bs) (with_weeks s (ads ∷ []))
unfolding load_history_loop with_weeks
loop_step fuel [] s ads i long e = absurd (omega arith)
loop_step fuel (b ∷ bs) s ads i long e = rw e refl

load_history_loop-archive_file :
    (fuel : ℕ) (weeks : List AllDeviceStats) (s : GcaServer)
    → All IsAllDeviceStats weeks
    → length (archive_file weeks) ≤ fuel
    → load_history_loop fuel (archive_file weeks) s ≡ ok (with_weeks s weeks)
unfolding archive_file
load_history_loop-archive_file zero [] s h enough = unfold load_history_loop with_weeks in refl
load_history_loop-archive_file (suc fuel) [] s h enough =
    unfold load_history_loop with_weeks in refl
load_history_loop-archive_file zero (ads ∷ weeks) s h enough =
    absurd (omega (arith, length-append (serialize ads) (archive_file weeks), length-serialize ads))
load_history_loop-archive_file (suc fuel) (ads ∷ weeks) s (h, hs) enough =
    let long = length-append (serialize ads) (archive_file weeks) in
    let rest = drop_self (serialize ads) (archive_file weeks) in
    rw
      (
        loop_step fuel (serialize ads ++ archive_file weeks) s ads (length (serialize ads))
            (omega (arith, length-serialize ads))
            (deserialize_stream-serialize ads (archive_file weeks) h),
        rest,
        load_history_loop-archive_file fuel weeks (with_weeks s (ads ∷ [])) hs
            (omega (arith, length-serialize ads)),
      )
      (unfold with_weeks in refl)

load_raw :
    (s : GcaServer) (raw : List ℕ)
    → s.disk.device_stats ≡ some raw
    → load_equipment_history s ≡ load_history_loop (length raw) raw s
unfolding load_equipment_history
load_raw s raw file = ground (arith, file)

-- From a file that holds any archived weeks one after the other, a restart adds exactly these weeks to
-- the history, and its offset is the end of the last one.
pub load_equipment_history-archive_file :
    (s : GcaServer) (weeks : List AllDeviceStats)
    → All IsAllDeviceStats weeks
    → s.disk.device_stats ≡ some (archive_file weeks)
    → load_equipment_history s ≡ ok (with_weeks s weeks)
unfolding load_equipment_history
load_equipment_history-archive_file s weeks h file =
    load_raw s (archive_file weeks) file
    ∙ load_history_loop-archive_file (length (archive_file weeks)) weeks s h (omega arith)
