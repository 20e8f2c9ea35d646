-- ===== src/Admin.antt =====
-- bin/gca-admin/main.go: the commands with which a GCA makes its keys, takes over a server and sets up
-- equipment. A command is a function from the directory of the GCA to the directory after it.
pub mod Equipment
pub mod Commands
pub mod Effects
pub mod Spending
pub mod ShortIds
pub mod Posting
pub mod Provision
use gca_backend.Base.{
  ℕ, ◌+◌, ◌-◌, ◌*◌, ◌/◌, ◌%◌, ◌^◌, Bool, true, false, not, ◌&&◌, Option, none, some, List, [], ◌∷◌,
  ◌++◌, length, drop, replicate, ltb, leb, ◌==◌, if◌then◌else◌,
}
use gca_backend.Base.Equality.{ℕ-Eq, bytes-Eq}
use gca_backend.Base.Map.{Map, insert}
use gca_backend.Base.Bytes.{put_uint, uint, copy}
use gca_backend.Base.Result.{
  Result, ok, err, panic, ◌>>=◌, ◌>>◌, guard, check, io_failure, missing_file, bad_length,
  no_servers, aborted, already_exists, not_finite, bad_status,
}
use gca_backend.Glow.Signatures.{EthCrypto, PublicKey, PrivateKey, generate_key_pair, sign}
use gca_backend.Glow.Timeslot.{current_timeslot, unix_to_timeslot}
use gca_backend.Glow.Authorization.{EquipmentAuthorization}
use gca_backend.Glow.Authorization
use gca_backend.Server.Registration.{GcaRegistration}
use gca_backend.Server.Registration
use gca_backend.Client.Sync.{blank}
use gca_backend.Client.ServerMap.{
  GcaServer, serialize_gca_server_map, untrusted_deserialize_gca_server_map,
}
use gca_backend.Client.Loading.{DeviceFiles, first_32, read_file}

-- The files of the directory, and one directory of files for each short ID. Writes fail while `writable`
-- is false.
pub record GcaData : Type 0 where
  pub gca_keys : Option (List ℕ)
  pub gca_temp_keys : Option (List ℕ)
  pub gca_temp_pub_key : Option (List ℕ)
  pub gca_servers : Option (List ℕ)
  pub latest_short_id : Option (List ℕ)
  pub clients : Map ℕ DeviceFiles
  pub writable : Bool

-- What is posted to the servers when equipment is made.
pub record Posted : Type 0 where
  pub authorization : EquipmentAuthorization
  pub recipients : List GcaServer

-- The start of `main`: the temporary keys are made once.
unfoldable pub create_temp_keys : EthCrypto → List (Option PrivateKey) → GcaData → Result GcaData
create_temp_keys eth source s = elim s.gca_temp_keys [
  | some _ ↦ ok s
  | none ↦ do
    (public, private) ← generate_key_pair eth source
    guard s.writable io_failure
    ok (record s { gca_temp_keys = some (public ++ private); gca_temp_pub_key = some public })
]

unfoldable pub new_gca : EthCrypto → List (Option PrivateKey) → GcaData → Result GcaData
new_gca eth source s = elim s.gca_keys [
  | some _ ↦ err already_exists
  | none ↦ do
    (public, private) ← generate_key_pair eth source
    guard s.writable io_failure
    ok (record s { gca_keys = some (public ++ private) })
]

-- `keyData[32:]` panics on a shorter file.
unfoldable pub load_gca_keys : GcaData → Result (PublicKey × PrivateKey)
load_gca_keys s = do
  bytes ← read_file s.gca_keys
  check (leb 32 (length bytes))
  ok (copy blank (first_32 bytes), copy blank (drop 32 bytes))

unfoldable pub load_temp_private_key : GcaData → Result PrivateKey
load_temp_private_key s = do
  bytes ← read_file s.gca_temp_keys
  check (leb 32 (length bytes))
  ok (copy blank (drop 32 bytes))

-- A missing file is an empty map.
unfoldable pub load_servers : GcaData → Result (Map PublicKey GcaServer)
load_servers s = elim s.gca_servers [
  | none ↦ untrusted_deserialize_gca_server_map []
  | some bytes ↦ untrusted_deserialize_gca_server_map bytes
]

-- The registration that `authorizeServer` posts.
unfoldable pub registration_of : EthCrypto → PublicKey → PrivateKey → Result GcaRegistration
registration_of eth gca_key temp_key =
    let unsigned : GcaRegistration = record { gca_key = gca_key; signature = replicate 64 0 } in
    do
      signature ← sign eth (Registration.signing_bytes unsigned) temp_key
      ok (record unsigned { signature = signature })

-- `GCARegistrationResponse`
pub record RegistrationResponse : Type 0 where
  pub public_key : PublicKey
  pub http_port : ℕ
  pub tcp_port : ℕ
  pub udp_port : ℕ

-- How the request ends: `none` for no answer, else the status with the decoded body.
abbrev pub Answer : Type 0
Answer = Option (ℕ × Option RegistrationResponse)

unfoldable pub answered : Answer → Result RegistrationResponse
answered none = err io_failure
answered (some (status, none)) = if status == 200 then err bad_length else err bad_status
answered (some (status, some response)) = if status == 200 then ok response else err bad_status

unfoldable pub entry_of : List ℕ → RegistrationResponse → GcaServer
entry_of location response = record {
  banned = false;
  location = location;
  http_port = response.http_port;
  tcp_port = response.tcp_port;
  udp_port = response.udp_port;
}

-- `authorizeServer` with the location from the command line.
unfoldable pub authorize_server :
    EthCrypto
    → PublicKey
    → PrivateKey
    → Map PublicKey GcaServer
    → List ℕ
    → Answer
    → GcaData
    → Result GcaData
unfolding answered entry_of
authorize_server eth gca_key temp_key servers location answer s = do
  registration ← registration_of eth gca_key temp_key
  response ← answered answer
  raw ← serialize_gca_server_map (insert response.public_key (entry_of location response) servers)
  guard s.writable io_failure
  ok (record s { gca_servers = some raw })

unfoldable pub init_equipment_cmd : GcaData → Result GcaData
init_equipment_cmd s = elim s.latest_short_id [
  | some _ ↦ err already_exists
  | none ↦
      if s.writable then ok (record s { latest_short_id = some (put_uint 4 1) }) else err io_failure
]

-- What the user enters. Go's `int` and `int64` values, the date as a Unix time among them, are 64 bits;
-- so are the coordinates.
pub record Entry : Type 0 where
  pub latitude : ℕ
  pub longitude : ℕ
  pub capacity : ℕ
  pub debt : ℕ
  pub expiration : ℕ
  pub init_unix : ℕ
  pub protocol_fee : ℕ
  pub confirmed : Bool

-- An int64 as a time: a negative one is before genesis, as 0 is.
abbrev pub time_of : ℕ → ℕ
time_of bits = if ltb (bits % 2 ^ 64) (2 ^ 63) then bits % 2 ^ 64 else 0

abbrev pub seconds_per_glow_year : ℕ
seconds_per_glow_year = 31449600

-- The timeslots of the initialization and of the expiration.
unfoldable pub timeslots_of : Entry → Result (ℕ × ℕ)
timeslots_of entry = do
  initialization ← unix_to_timeslot (time_of entry.init_unix)
  expiration ←
      unix_to_timeslot (time_of (entry.init_unix + entry.expiration * seconds_per_glow_year))
  ok (initialization, expiration)

-- Watts to milliwatt-hours for five minutes, in 64 bits.
abbrev pub final_capacity : ℕ → ℕ
final_capacity capacity = capacity * 1000 % 2 ^ 64 / 12

unfoldable pub next_short_id : GcaData → Result ℕ
next_short_id s = do
  bytes ← read_file s.latest_short_id
  guard (length bytes == 4) bad_length
  ok (uint bytes)

-- The checks before the first write: the timeslots, and the short ID to use.
unfoldable pub prepare : Map PublicKey GcaServer → Entry → GcaData → Result ((ℕ × ℕ) × ℕ)
prepare servers entry s = do
  guard (not (length servers == 0)) no_servers
  guard entry.confirmed aborted
  slots ← timeslots_of entry
  id ← next_short_id s
  ok (slots, id)
