-- ===== src/Examples/Startup.antt =====
-- The theorems on the start of a device and on its reports, for the device of the examples.
use gca_backend.Base.{
  Bool-cases, inl, inr, ℕ, ◌+◌, ◌≡◌, refl, Option, some, true, false, List, [], ◌∷◌, ◌==◌, ◌*◌,
  none, All, length, arith,
}
use gca_backend.Base.Equality.{ℕ-Eq, bytes-Eq, bytes_eq}
use gca_backend.Base.Map.{lookup, insert}
use gca_backend.Base.Bytes.{IsByte, uint, put_uint, slice}
use gca_backend.Base.Result.{ok}
use gca_backend.Glow.Signatures.{PublicKey}
use gca_backend.Glow.Timeslot.{unix_to_timeslot}
use gca_backend.Client.State.{Client}
use gca_backend.Client.ServerMap.{
  serialize_gca_server_map, untrusted_deserialize_gca_server_map, read_entries, read_entry,
}
use gca_backend.Server.DeviceStats.{read}
use gca_backend.Client.Sync.{blank}
use gca_backend.Client.Servers.{add_servers, take_news, save_servers}
use gca_backend.Client.History.{load_history}
use gca_backend.Client.Loading.{
  DeviceFiles, new_client, load_keypair, load_gca_pub, load_gca_servers, load_history_file,
  load_short_id, shuffle, swap, first_allowed,
}
use gca_backend.Client.Loading.Primary.{IsChosen, new_client-IsChosen}
use gca_backend.Client.Loading.Restart.{AlwaysDraws}
use gca_backend.Client.Loading.News.{IsSaved, device_files, new_client-take_news}
use gca_backend.Client.Energy.{Row}
use gca_backend.Client.Sending.{Sender, threaded_send_reports}
use gca_backend.Glow.Timeslot.{current_timeslot}
use gca_backend.Glow.Report.{EquipmentReport}
use gca_backend.Server.State.{GcaServer, Array}
use gca_backend.Server.Sync.{bitfield_from}
use gca_backend.Server.Reports.{blank_report}
use gca_backend.Server.Reports.Arrivals.{Arrival, handle_all, Serves}
use gca_backend.Client.Reports.{EnergyRecord, static_send_report, missing_records}
use gca_backend.Client.Reports.Missing.{IsSent}
use gca_backend.Client.Reports.Resent.{HasArrived, missing_records-handle_all}
use gca_backend.Examples.{
  server, device, toy_crypto, key_pair, server_entry-IsAuthorizedServer, client, is_ok, value_or,
  is_ok→value,
}
use gca_backend.Examples.Devices.{known, known-Unique, known-IsEntries, told, news_taken, rows}

abbrev pub draws : ℕ → Option ℕ
draws i = some i

abbrev files : DeviceFiles
files = record (device_files client) {
  gca_server_map_file = some (value_or [] (serialize_gca_server_map known));
}

abbrev loaded : Client
loaded = value_or client (new_client draws true files)

starts : is_ok (new_client draws true files) ≡ true
unfolding new_client load_keypair load_gca_pub load_gca_servers load_history_file load_short_id
    load_history shuffle swap first_allowed serialize_gca_server_map
    untrusted_deserialize_gca_server_map read_entries read_entry read put_uint uint insert
starts = refl

new_client-IsChosen_example : IsChosen blank loaded
new_client-IsChosen_example =
    new_client-IsChosen draws true files loaded
      (is_ok→value client (new_client draws true files) starts)

client-IsSaved : IsSaved client
unfolding put_uint uint slice
client-IsSaved = record {
  gca_saved = refl;
  short_id_saved = refl;
  offset_saved = refl;
  public_long = refl;
  private_long = refl;
  gca_long = refl;
  begun = omega arith;
  short_id_fits = omega arith;
}

abbrev informed : Client
informed = value_or client (take_news client told)

some_server : (length informed.gca_servers == 0) ≡ false
unfolding take_news save_servers serialize_gca_server_map bytes_eq add_servers lookup insert
some_server = refl

pub draws-AlwaysDraws : AlwaysDraws draws
draws-AlwaysDraws i = (i, refl)

new_client-take_news_example :
    (primary : PublicKey) × (new_client draws informed.writable (device_files informed)
      ≡ ok (record informed { primary_server = primary }))
new_client-take_news_example =
    new_client-take_news draws client informed told draws-AlwaysDraws client-IsSaved known-Unique
      known-IsEntries (server_entry-IsAuthorizedServer, tt) refl (omega arith)
      (is_ok→value client (take_news client told) news_taken) some_server

-- Energy files in which timeslot 2018 has a reading.
abbrev row : ℕ → Row
row energy = record { time = some (1700352000 + 2018 * 300); energy = some (some energy) }

abbrev energy_files : List (Option (List Row))
energy_files = some (row 60000 ∷ []) ∷ none ∷ some (row 70000 ∷ []) ∷ []

abbrev sent : Sender
sent =
    value_or (record { client = client; latest_record = 0; ticks = 0; sent = []; syncs = [] })
      (threaded_send_reports client (some rows) energy_files)

-- The packet of the device's reading in timeslot 2017, a timeslot later.
abbrev arrivals : List Arrival
arrivals =
    record {
      clock = 1700352000 + 2018 * 300;
      packet =
          value_or []
            (static_send_report toy_crypto client (record { timeslot = 2017; energy = 50 }));
    }
    ∷ []

history_bytes : All IsByte client.static_history_file
history_bytes = (
  omega arith,
  (
    omega arith,
    (
      omega arith,
      (
        omega arith,
        (
          omega arith,
          (
            omega arith,
            (
              omega arith,
              (omega arith, (omega arith, (omega arith, (omega arith, (omega arith, tt))))),
            ),
          ),
        ),
      ),
    ),
  ),
)

server-Serves : Serves 7 device 2016 server
unfolding lookup
server-Serves = record {
  known = refl;
  arrays = λ id ea known. elim (Bool-cases (7 == id)) [
    | inl same ↦ (λ i. blank_report, rw same refl)
    | inr other ↦ absurd (ground (arith, known, other))
  ];
  offset_is = refl;
  bound = omega arith;
}

missing_records-handle_all_example :
    (s' : GcaServer) × (a' : Array EquipmentReport) × (handle_all toy_crypto server arrivals
      ≡ ok s')
    × (lookup 7 s'.equipment_reports ≡ some a')
    × ((er : EnergyRecord)
        → IsSent er (missing_records client (bitfield_from 504 0 a') 2016 2017)
        → IsSent er (missing_records client (bitfield_from 504 0 (λ i. blank_report)) 2016 2017)
          × ¬ HasArrived toy_crypto client er arrivals)
missing_records-handle_all_example =
    missing_records-handle_all toy_crypto client device 2016 (key_pair 5) (omega arith)
      history_bytes server (λ i. blank_report) 2017 arrivals server-Serves (unfold lookup in refl)
      ((2018, unfold current_timeslot unix_to_timeslot in refl, omega arith), tt)
