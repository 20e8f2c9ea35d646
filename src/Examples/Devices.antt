-- ===== src/Examples/Devices.antt =====
-- The theorems on the device's history, servers and reports.
use gca_backend.Base.{
  ℕ, ◌+◌, ◌≤◌, ◌<◌, ◌≡◌, refl, true, some, List, [], ◌∷◌, ◌==◌, if◌then◌else◌, All, arith,
  replicate,
}
use gca_backend.Base.Equality.{ℕ-Eq, bytes-Eq, bytes_eq}
use gca_backend.Base.Map.{Map, lookup, insert}
use gca_backend.Base.Unique.{Unique}
use gca_backend.Glow.Signatures.{PublicKey}
use gca_backend.Glow.Timeslot.{unix_to_timeslot}
use gca_backend.Server.AuthorizedServer.{AuthorizedServer}
use gca_backend.Client.ServerMap.{GcaServer, serialize_gca_server_map}
use gca_backend.Client.ServerMap.RoundTrip.{IsEntries}
use gca_backend.Client.History.{static_load_reading, static_save_reading, write_reading, read_at}
use gca_backend.Client.History.Readings.{IsInFile, static_load_reading-static_save_reading}
use gca_backend.Client.Sync.{SyncResult, blank}
use gca_backend.Client.Servers.{add_servers, take_news, save_servers}
use gca_backend.Client.Energy.{Row, static_read_energy_file, record_of_row, energy_of}
use gca_backend.Client.Energy.Rounding.{IsRow, IsMeasured, static_read_energy_file-IsMeasured}
use gca_backend.Examples.{key_of, server_entry, known_server, client, is_ok, value_or, is_ok→value}

in_file : (t : ℕ) → 2016 ≤ t → t < 3000 → IsInFile client t
in_file t h k = record { begun = h; near = omega arith }

saved : is_ok (static_save_reading client 2018 60) ≡ true
unfolding static_save_reading static_load_reading write_reading read_at
saved = refl

static_load_reading-static_save_reading_example :
    static_load_reading (value_or client (static_save_reading client 2018 60)) 2017
    ≡ (if 2017 == 2018 then 60 else static_load_reading client 2017)
static_load_reading-static_save_reading_example =
    static_load_reading-static_save_reading client
      (value_or client (static_save_reading client 2018 60)) 2018 2017 60 refl
      (in_file 2018 (omega arith) (omega arith)) (in_file 2017 (omega arith) (omega arith))
      (omega arith) (is_ok→value client (static_save_reading client 2018 60) saved)

abbrev pub known : Map PublicKey GcaServer
known = (key_of 9, known_server) ∷ []

pub known-Unique : Unique known
unfolding lookup
known-Unique = (refl, tt)

pub known-IsEntries : IsEntries known
known-IsEntries = (
  record {
    key_long = refl;
    http_port_fits = omega arith;
    tcp_port_fits = omega arith;
    udp_port_fits = omega arith;
  },
  tt,
)

abbrev news : List AuthorizedServer
news = record server_entry { banned = true } ∷ record server_entry { public_key = key_of 4 } ∷ []

abbrev pub told : SyncResult
told = record {
  timeslot_offset = 2016;
  bitfield = replicate 504 0;
  new_gca = blank;
  new_short_id = 0;
  gca_servers = server_entry ∷ [];
}

pub news_taken : is_ok (take_news client told) ≡ true
unfolding take_news save_servers serialize_gca_server_map bytes_eq add_servers lookup insert
news_taken = refl

-- A measurement of 2000 in timeslot 3.
abbrev pub rows : List Row
rows = record { time = some (1700352000 + 1000); energy = some (some 2000) } ∷ []

rows-IsRow : All IsRow rows
rows-IsRow = ((λ n e. ground (arith, e)), tt)

file_read : is_ok (static_read_energy_file rows) ≡ true
unfolding static_read_energy_file record_of_row unix_to_timeslot energy_of
file_read = refl

static_read_energy_file-IsMeasured_example :
    All (IsMeasured rows) (value_or [] (static_read_energy_file rows))
static_read_energy_file-IsMeasured_example =
    static_read_energy_file-IsMeasured rows (value_or [] (static_read_energy_file rows)) rows-IsRow
      (is_ok→value [] (static_read_energy_file rows) file_read)
