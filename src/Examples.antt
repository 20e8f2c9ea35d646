-- ===== src/Examples.antt =====
-- Concrete states on which the theorems are applied: a signature scheme in which the signature of a
-- key is the key twice, a server with one device, and that device.
pub mod Glow
pub mod Reports
pub mod Equipment
pub mod Weeks
pub mod Servers
pub mod Devices
pub mod Sync
pub mod Startup
pub mod Threads
pub mod GeoStats
pub mod Start
pub mod Admin
use gca_backend.Base.{
  ℕ, zero, suc, ◌+◌, ◌-◌, ◌≡◌, refl, Bool, true, false, Option, none, some, List, [], ◌∷◌, ◌++◌,
  length, take, drop, replicate, arith,
}
use gca_backend.Base.Equality.{bytes_eq, bytes_eq_iff}
use gca_backend.Base.Result.{Result, ok}
use gca_backend.Glow.Signatures.{EthCrypto, PublicKey, PrivateKey, Signature, IsKeyPair}
use gca_backend.Glow.Report.{EquipmentReport, IsReport}
use gca_backend.Glow.Authorization.{EquipmentAuthorization}
use gca_backend.Server.Reports.{blank_report}
use gca_backend.Server.AuthorizedServer.{AuthorizedServer, IsAuthorizedServer}
use gca_backend.Server.State.{GcaServer, Disk}
use gca_backend.Client.State.{Client}
use gca_backend.Client.ServerMap.{GcaServer as KnownServer}

abbrev pub toy_crypto : EthCrypto
toy_crypto = record {
  compress_pubkey = λ key. 2 ∷ key;
  decompress_pubkey = λ key. some key;
  from_ecdsa_pub = λ point. point;
  to_ecdsa = λ key. some key;
  keccak256 = λ bytes. bytes;
  sign = λ hash key. some (key ++ (key ++ (0 ∷ [])));
  verify_signature = λ public hash signature. bytes_eq signature (drop 1 public ++ drop 1 public);
}

abbrev pub key_of : ℕ → PublicKey
key_of n = replicate 32 n

abbrev pub signature_of : ℕ → Signature
signature_of n = replicate 64 n

pub key_pair : (n : ℕ) → IsKeyPair toy_crypto (key_of n) (key_of n)
unfolding bytes_eq
key_pair n = record {
  key = key_of n;
  point = 2 ∷ key_of n;
  parsed = refl;
  decompressed = refl;
  signature_of = λ hash. key_of n ++ (key_of n ++ (0 ∷ []));
  signed = λ hash. refl;
  long = λ hash. refl;
  verified = λ hash. (bytes_eq_iff (signature_of n) (signature_of n)).1 refl;
}

-- The device 7, whose key is 5, under the GCA with the key 1.
abbrev pub device : EquipmentAuthorization
device = record {
  short_id = 7;
  public_key = key_of 5;
  latitude = 0;
  longitude = 0;
  capacity = 1000;
  debt = 3;
  expiration = 90000;
  initialization = 1;
  protocol_fee = 4;
  signature = signature_of 1;
}

abbrev pub report : ℕ → ℕ → EquipmentReport
report timeslot power = record {
  short_id = 7;
  timeslot = timeslot;
  power_output = power;
  signature = signature_of 5;
}

-- The server's own entry.
abbrev pub server_entry : AuthorizedServer
server_entry = record {
  public_key = key_of 9;
  banned = false;
  location = 97 ∷ [];
  http_port = 80;
  tcp_port = 81;
  udp_port = 82;
  gca_authorization = signature_of 1;
}

pub server_entry-IsAuthorizedServer : IsAuthorizedServer server_entry
server_entry-IsAuthorizedServer = record {
  public_key_long = refl;
  location_fits = omega arith;
  http_port_fits = omega arith;
  tcp_port_fits = omega arith;
  udp_port_fits = omega arith;
  gca_authorization_long = refl;
}

abbrev pub disk : Disk
disk = record {
  authorizations = some [];
  reports = some [];
  gca_pub_key = none;
  gca_temp_pub_key = none;
  server_keys = none;
  device_stats = some [];
  writable = true;
}

-- A server that no GCA owns yet.
abbrev pub new_server : GcaServer
new_server = record {
  equipment = [];
  equipment_short_id = [];
  equipment_bans = [];
  equipment_impact_rate = [];
  equipment_migrations = [];
  equipment_reports = [];
  equipment_reports_offset = 2016;
  equipment_stats_history = [];
  equipment_history_offset = 2016;
  recent_equipment_auths = [];
  recent_reports = [];
  gca_pubkey = key_of 0;
  gca_pubkey_available = false;
  gca_temp_key = key_of 3;
  gca_servers = server_entry ∷ [];
  static_private_key = key_of 9;
  static_public_key = key_of 9;
  disk = disk;
}

-- The server of GCA 1, without equipment.
abbrev pub owned_server : GcaServer
owned_server = record new_server { gca_pubkey = key_of 1; gca_pubkey_available = true }

-- The server with the device.
abbrev pub server : GcaServer
server = record owned_server {
  equipment = (7, device) ∷ [];
  equipment_short_id = (key_of 5, 7) ∷ [];
  equipment_impact_rate = (7, λ i. 0) ∷ [];
  equipment_reports = (7, λ i. blank_report) ∷ [];
}

abbrev pub known_server : KnownServer
known_server = record {
  banned = false;
  location = 97 ∷ [];
  http_port = 80;
  tcp_port = 81;
  udp_port = 82;
}

-- The device: it has one reading, 50, for timeslot 2017.
abbrev pub client : Client
client = record {
  gca_pub_key = key_of 1;
  gca_servers = (key_of 9, known_server) ∷ [];
  primary_server = key_of 9;
  short_id = 7;
  static_history_file = 224 ∷ 7 ∷ 0 ∷ 0 ∷ 0 ∷ 0 ∷ 0 ∷ 0 ∷ 50 ∷ 0 ∷ 0 ∷ 0 ∷ [];
  static_history_offset = 2016;
  static_pub_key = key_of 5;
  static_priv_key = key_of 5;
  gca_pub_key_file = key_of 1;
  short_id_file = 7 ∷ 0 ∷ 0 ∷ 0 ∷ [];
  gca_server_map_file = [];
  writable = true;
}

-- The value of a result, or `a` where there is none.
abbrev pub value_or {ℓ} : {A : Type ℓ} → A → Result A → A
value_or a (ok b) = b
value_or a (Result.err e) = a
value_or a Result.panic = a

abbrev pub is_ok {ℓ} : {A : Type ℓ} → Result A → Bool
is_ok (ok b) = true
is_ok (Result.err e) = false
is_ok Result.panic = false

pub is_ok→value {ℓ} : {A : Type ℓ} (a : A) (r : Result A) → is_ok r ≡ true → r ≡ ok (value_or a r)
is_ok→value a (ok b) h = refl
is_ok→value a (Result.err e) h = ground arith
is_ok→value a Result.panic h = ground arith
