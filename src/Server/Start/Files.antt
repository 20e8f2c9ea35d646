-- ===== src/Server/Start/Files.antt =====
-- server/server.go: the files of a server after its first start, and how each loader reads them back.
use gca_backend.Base.{
  ℕ, ◌≡◌, refl, ◌∙◌, true, Option, none, some, List, [], ◌∷◌, ◌++◌, arith, length, replicate, take,
  drop, take-append_self, drop-append, length-append,
}
use gca_backend.Base.Bytes.{copy-same, copy-append}
use gca_backend.Base.Result.{ok}
use gca_backend.Glow.Signatures.{EthCrypto, PublicKey, PrivateKey, generate_key_pair}
use gca_backend.Glow.Authorization.{EquipmentAuthorization}
use gca_backend.Server.State.{GcaServer, Disk, append_file}
use gca_backend.Server.Registration.{
  keys_file, load_server_keys, load_gca_temp_key, load_gca_pubkey,
}
use gca_backend.Server.Equipment.{
  save_equipment, authorize_equipment, settle, add_equipment, ban_equipment,
  add_recent_equipment_auth, load_equipment,
}
use gca_backend.Server.Equipment.Restart.{authorize_all}
use gca_backend.Server.Weeks.{load_equipment_history, load_history_loop}
use gca_backend.Server.Reports.{load_equipment_reports, load_reports_loop}
use gca_backend.Server.Start.{blank_server, new_gca_server}

-- A new server's disk: the technician put the temporary key there.
abbrev pub fresh_disk : PublicKey → Disk
fresh_disk temp_key = record {
  authorizations = none;
  reports = none;
  gca_pub_key = none;
  gca_temp_pub_key = some temp_key;
  server_keys = none;
  device_stats = none;
  writable = true;
}

-- The disk after a start, with what the GCA's key and the authorizations have become.
abbrev pub disk_with : PublicKey → PublicKey → PrivateKey → Option (List ℕ) → Option (List ℕ) → Disk
disk_with temp_key public private gca_key authorizations = record {
  authorizations = authorizations;
  reports = some [];
  gca_pub_key = gca_key;
  gca_temp_pub_key = some temp_key;
  server_keys = some (keys_file public private);
  device_stats = some [];
  writable = true;
}

abbrev pub loaded_keys : PublicKey → PublicKey → PrivateKey → Disk → GcaServer
loaded_keys temp_key public private disk = record (blank_server disk) {
  gca_temp_key = temp_key;
  static_public_key = public;
  static_private_key = private;
}

-- The first start makes the keys and the empty files.
pub new_gca_server-fresh :
    (eth : EthCrypto) (source : List (Option PrivateKey)) (temp_key public : PublicKey)
    (private : PrivateKey)
    → length temp_key ≡ 32
    → generate_key_pair eth source ≡ ok (public, private)
    → new_gca_server eth source true none (fresh_disk temp_key)
      ≡ ok (loaded_keys temp_key public private (disk_with temp_key public private none (some [])))
unfolding new_gca_server load_server_keys load_gca_temp_key load_gca_pubkey load_equipment
    load_equipment_history load_equipment_reports
new_gca_server-fresh eth source temp_key public private long made =
    rw (made, copy-same (replicate 32 0) temp_key long) refl

-- Authorizations leave the other files.
save_equipment-disk :
    (s : GcaServer) (ea : EquipmentAuthorization)
    → (save_equipment s ea).0.disk
      ≡ record s.disk { authorizations = (save_equipment s ea).0.disk.authorizations }
unfolding save_equipment append_file settle add_equipment ban_equipment add_recent_equipment_auth
save_equipment-disk s ea = ground arith

authorize_equipment-disk :
    (eth : EthCrypto) (s : GcaServer) (ea : EquipmentAuthorization)
    → (authorize_equipment eth s ea).0.disk
      ≡ record s.disk { authorizations = (authorize_equipment eth s ea).0.disk.authorizations }
unfolding authorize_equipment
authorize_equipment-disk eth s ea = ground (arith, save_equipment-disk s ea)

pub authorize_all-disk :
    (eth : EthCrypto) (s : GcaServer) (eas : List EquipmentAuthorization)
    → (authorize_all eth s eas).disk
      ≡ record s.disk { authorizations = (authorize_all eth s eas).disk.authorizations }
unfolding authorize_all
authorize_all-disk eth s [] = refl
authorize_all-disk eth s (ea ∷ eas) = ground (
  arith,
  authorize_equipment-disk eth s ea,
  authorize_all-disk eth (authorize_equipment eth s ea).0 eas,
)

-- The keys on a disk that a start has left.
pub load_server_keys-disk :
    (eth : EthCrypto) (source : List (Option PrivateKey)) (public : PublicKey)
    (private : PrivateKey) (disk : Disk)
    → length public ≡ 32
    → length private ≡ 32
    → disk.server_keys ≡ some (keys_file public private)
    → load_server_keys eth source (blank_server disk)
      ≡ ok (record (blank_server disk) { static_public_key = public; static_private_key = private })
unfolding load_server_keys
load_server_keys-disk eth source public private disk long_public long_private there =
    let front : take 32 (keys_file public private) ≡ public = take-append_self 32 _ _ long_public in
    let back : drop 32 (keys_file public private) ≡ private ++ replicate 32 0 =
      drop-append 32 public (private ++ replicate 32 0) (omega arith) ∙ rw long_public refl in
    ground (
      arith,
      there,
      front,
      back,
      length-append public (private ++ replicate 32 0),
      copy-same (replicate 32 0) public long_public,
      copy-append (replicate 32 0) private (replicate 32 0) long_private,
    )

pub load_equipment_history-empty :
    (s : GcaServer) → s.disk.device_stats ≡ some [] → load_equipment_history s ≡ ok s
unfolding load_equipment_history load_history_loop
load_equipment_history-empty s there = ground arith

pub load_equipment_reports-empty :
    (eth : EthCrypto) (s : GcaServer)
    → s.disk.reports ≡ some []
    → load_equipment_reports eth s ≡ ok s
unfolding load_equipment_reports load_reports_loop
load_equipment_reports-empty eth s there = ground arith
