-- ===== src/Client/History.antt =====
-- client/history.go: the file of the device's readings, four bytes for a timeslot behind four bytes
-- of offset.
pub mod Readings
use gca_backend.Base.{
  ℕ, zero, suc, ◌+◌, ◌-◌, ◌*◌, ◌%◌, ◌^◌, Bool, true, false, List, [], ◌∷◌, ◌++◌, length, take, drop,
  replicate, ltb, leb, ◌==◌, if◌then◌else◌,
}
use gca_backend.Base.Equality.{ℕ-Eq}
use gca_backend.Base.Bytes.{put_uint, uint, slice}
use gca_backend.Base.Result.{
  Result, ok, err, predates_history, other_reading, io_failure, missing_file,
}
use gca_backend.Client.State.{Client}

-- `f.WriteAt` of a uint32 in four bytes: a gap behind the end is filled with zeros.
unfoldable pub write_at : ℕ → ℕ → List ℕ → List ℕ
write_at n at file =
    (take at file ++ replicate (at - length file) 0) ++ (put_uint 4 n ++ drop (at + 4) file)

-- `4 * (1 + timeslot - c.staticHistoryOffset)` in uint32 arithmetic.
abbrev pub byte_offset : ℕ → ℕ → ℕ
byte_offset offset timeslot = 4 * ((1 + timeslot + 2 ^ 32 - offset) % 2 ^ 32) % 2 ^ 32

-- The number at this place of the file; `io.EOF` gives 0.
unfoldable pub read_at : ℕ → List ℕ → ℕ
read_at at file = if leb (at + 4) (length file) then uint (slice at (at + 4) file) else 0

unfoldable pub static_load_reading : Client → ℕ → ℕ
static_load_reading c timeslot =
    if ltb timeslot c.static_history_offset
    then 0
    else read_at (byte_offset c.static_history_offset timeslot) c.static_history_file

unfoldable pub write_reading : Client → ℕ → ℕ → Result Client
write_reading c timeslot reading =
    if c.writable
    then ok (record c {
      static_history_file =
          write_at reading (byte_offset c.static_history_offset timeslot) c.static_history_file;
    })
    else err io_failure

unfoldable pub static_save_reading : Client → ℕ → ℕ → Result Client
static_save_reading c timeslot reading =
    if ltb timeslot c.static_history_offset
    then err predates_history
    else if static_load_reading c timeslot == reading
    then ok c
    else if static_load_reading c timeslot == 0
    then write_reading c timeslot reading
    else err other_reading

-- `loadHistory` with the bytes of the file: the offset is its first four.
unfoldable pub load_history : Client → Result Client
load_history c =
    if leb 4 (length c.static_history_file)
    then ok (record c { static_history_offset = uint (slice 0 4 c.static_history_file) })
    else err missing_file
