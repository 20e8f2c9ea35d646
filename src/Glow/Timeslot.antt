-- ===== src/Glow/Timeslot.antt =====
-- glow/timeslot.go and glow/timeslot_u.go: protocol time in slots of five minutes from genesis.
-- A time is a number of seconds; a negative one takes the same branch as 0, below genesis.
use gca_backend.Base.{ℕ, ◌+◌, ◌-◌, ◌*◌, ◌/◌, ◌%◌, ◌^◌, ◌≤◌, ◌<◌, ◌≡◌, arith, ltb, if◌then◌else◌}
use gca_backend.Base.Result.{Result, ok, err, panic, bad_timeslot}

abbrev pub genesis_time : ℕ
genesis_time = 1700352000

unfoldable pub current_timeslot : ℕ → Result ℕ
current_timeslot now =
    if ltb now genesis_time then panic else ok ((now - genesis_time) / 300 % 2 ^ 32)

unfoldable pub unix_to_timeslot : ℕ → Result ℕ
unix_to_timeslot time =
    if ltb time genesis_time then err bad_timeslot else ok ((time - genesis_time) % 2 ^ 32 / 300)

-- The product is taken in 32 bits, before the conversion to int64.
unfoldable pub timeslot_to_unix : ℕ → ℕ
timeslot_to_unix timeslot = genesis_time + timeslot * 300 % 2 ^ 32

-- While the seconds since genesis fit 32 bits, the start of a slot lies in that slot.
pub unix_to_timeslot-timeslot_to_unix :
    (t : ℕ) → t * 300 < 2 ^ 32 → unix_to_timeslot (timeslot_to_unix t) ≡ ok t
unfolding unix_to_timeslot timeslot_to_unix
unix_to_timeslot-timeslot_to_unix t h = ground arith

-- While the seconds since genesis fit 32 bits, `UnixToTimeslot` and `CurrentTimeslot` agree, and the
-- slot found starts at most 299 seconds before the given time and not after it.
pub unix_to_timeslot_bounds :
    (time : ℕ)
    → genesis_time ≤ time
    → time - genesis_time < 2 ^ 32
    → (t : ℕ) × (unix_to_timeslot time ≡ ok t)
      × (current_timeslot time ≡ ok t)
      × (timeslot_to_unix t ≤ time)
      × (time < timeslot_to_unix t + 300)
unfolding unix_to_timeslot timeslot_to_unix current_timeslot
unix_to_timeslot_bounds time h k =
    ((time - genesis_time) / 300, ground arith, ground arith, omega arith, omega arith)
