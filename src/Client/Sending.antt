-- ===== src/Client/Sending.antt =====
-- client/reports.go: the loop of `threadedSendReports`.
pub mod Recorded
pub mod Agreement
use gca_backend.Base.{
  ℕ, suc, ◌+◌, ◌*◌, ◌%◌, ◌^◌, Bool, true, false, Option, none, some, List, [], ◌∷◌, ◌++◌, ltb, leb,
  if◌then◌else◌,
}
use gca_backend.Base.Result.{Result, ok, err, panic, ◌>>=◌, io_failure}
use gca_backend.Client.State.{Client}
use gca_backend.Client.Reports.{EnergyRecord}
use gca_backend.Client.History.{static_save_reading}
use gca_backend.Client.Energy.{Row, static_read_energy_file}

-- `staticReadEnergyFile`: `none` is a file that cannot be opened.
unfoldable pub read_energy : Option (List Row) → Result (List EnergyRecord)
read_energy none = err io_failure
read_energy (some rows) = static_read_energy_file rows

-- `uint32(record.Energy)`
abbrev pub reading_of : EnergyRecord → ℕ
reading_of er = er.energy % 2 ^ 32

abbrev pub later : ℕ → ℕ → ℕ
later latest timeslot = if ltb latest timeslot then timeslot else latest

-- The records at the start are kept and not sent; only those that are saved count as the latest. `static_save_reading`
-- does not panic, so the last clause is never reached, here and below.
unfoldable pub save_first : Client → ℕ → List EnergyRecord → Client × ℕ
save_first c latest [] = (c, latest)
save_first c latest (er ∷ records) = elim (static_save_reading c er.timeslot (reading_of er)) [
  | ok c' ↦ save_first c' (later latest er.timeslot) records
  | err _ ↦ save_first c latest records
  | panic ↦ save_first c latest records
]

abbrev pub add_sent : Bool → EnergyRecord → List EnergyRecord → List EnergyRecord
add_sent true er rest = er ∷ rest
add_sent false er rest = rest

-- The first loop of a round: each record is saved, and handed to `staticSendReport` if it is newer than
-- every record of the earlier rounds. A reading that is not saved is not sent.
unfoldable pub send_round : Client → ℕ → List EnergyRecord → Client × List EnergyRecord
send_round c latest [] = (c, [])
send_round c latest (er ∷ records) = elim (static_save_reading c er.timeslot (reading_of er)) [
  | ok c' ↦
      let (last, sent) = send_round c' latest records in
      (last, add_sent (ltb latest er.timeslot) er sent)
  | err _ ↦ send_round c latest records
  | panic ↦ send_round c latest records
]

-- The second loop of a round, over all records.
unfoldable pub latest_of : ℕ → List EnergyRecord → ℕ
latest_of latest [] = latest
latest_of latest (er ∷ records) = latest_of (later latest er.timeslot) records

-- The variables of the thread, with what it has handed to `staticSendReport` and the latest record that
-- each synchronization was started with.
pub record Sender : Type 0 where
  pub client : Client
  pub latest_record : ℕ
  pub ticks : ℕ
  pub sent : List EnergyRecord
  pub syncs : List ℕ

abbrev pub send_records : Sender → Result (List EnergyRecord) → Result Sender
send_records s (err _) = ok s
send_records s panic = panic
send_records s (ok records) =
    let (c, sent) = send_round s.client s.latest_record records in
    ok (record s {
      client = c;
      latest_record = latest_of s.latest_record records;
      sent = s.sent ++ sent;
    })

-- A synchronization starts once in 60 rounds.
abbrev pub tick : Sender → Sender
tick s =
    if leb 60 (s.ticks + 1)
    then record s { ticks = 0; syncs = s.syncs ++ (s.latest_record ∷ []) }
    else record s { ticks = s.ticks + 1 }

unfoldable pub send_step : Sender → Option (List Row) → Result Sender
send_step s file = do s' ← send_records s (read_energy file); ok (tick s')

-- The rounds until the device is closed, each with the energy file that it finds.
unfoldable pub send_loop : Sender → List (Option (List Row)) → Result Sender
send_loop s [] = ok s
send_loop s (file ∷ files) = do s' ← send_step s file; send_loop s' files

abbrev pub started_with : Client × ℕ → Sender
started_with (c, latest) = record {
  client = c;
  latest_record = latest;
  ticks = 30;
  sent = [];
  syncs = [];
}

abbrev pub start_sender : Client → Result (List EnergyRecord) → Result Sender
start_sender c (ok records) = ok (started_with (save_first c 0 records))
start_sender c (err _) = ok (started_with (c, 0))
start_sender c panic = panic

-- `threadedSendReports`: the start, with the energy file that it finds, and the rounds that follow.
unfoldable pub threaded_send_reports :
    Client → Option (List Row) → List (Option (List Row)) → Result Sender
threaded_send_reports c first files = do s ← start_sender c (read_energy first); send_loop s files
