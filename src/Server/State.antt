-- ===== src/Server/State.antt =====
-- server/server.go: the fields of `GCAServer` that its operations read and write, and the files in
-- its base directory. Every operation runs under the server's mutex, so it is a function from state
-- to state. An array of 4032 entries is a function, read and written below 4032 alone.
use gca_backend.Base.{ℕ, Bool, true, false, Option, none, some, List, ◌++◌, ◌==◌, if◌then◌else◌}
use gca_backend.Base.Map.{Map}
use gca_backend.Glow.Report.{EquipmentReport}
use gca_backend.Glow.Authorization.{EquipmentAuthorization}
use gca_backend.Glow.Signatures.{PublicKey, PrivateKey}
use gca_backend.Server.AuthorizedServer.{AuthorizedServer}
use gca_backend.Server.Migration.{EquipmentMigration}
use gca_backend.Server.DeviceStats.{AllDeviceStats}

abbrev pub Array : Type 0 → Type 0
Array A = ℕ → A

-- `a[i] = v`
unfoldable pub store : {A : Type 0} → ℕ → A → Array A → Array A
store i v a j = if i == j then v else a j

-- A file is `none` until it is created. Writes fail while `writable` is false.
pub record Disk : Type 0 where
  pub authorizations : Option (List ℕ)
  pub reports : Option (List ℕ)
  pub gca_pub_key : Option (List ℕ)
  pub gca_temp_pub_key : Option (List ℕ)
  pub server_keys : Option (List ℕ)
  pub device_stats : Option (List ℕ)
  pub writable : Bool

-- `os.OpenFile(…, O_APPEND|O_WRONLY)` and one `Write`: the file must exist.
unfoldable pub append_file : Bool → Option (List ℕ) → List ℕ → Option (List ℕ)
append_file writable none bytes = none
append_file false (some old) bytes = none
append_file true (some old) bytes = some (old ++ bytes)

pub record GcaServer : Type 0 where
  pub equipment : Map ℕ EquipmentAuthorization
  pub equipment_short_id : Map PublicKey ℕ
  pub equipment_bans : Map ℕ (Unit {0})
  pub equipment_impact_rate : Map ℕ (Array ℕ)
  pub equipment_migrations : Map PublicKey EquipmentMigration
  pub equipment_reports : Map ℕ (Array EquipmentReport)
  pub equipment_reports_offset : ℕ
  pub equipment_stats_history : List AllDeviceStats
  pub equipment_history_offset : ℕ
  pub recent_equipment_auths : List EquipmentAuthorization
  pub recent_reports : List EquipmentReport
  pub gca_pubkey : PublicKey
  pub gca_pubkey_available : Bool
  pub gca_temp_key : PublicKey
  pub gca_servers : List AuthorizedServer
  pub static_private_key : PrivateKey
  pub static_public_key : PublicKey
  pub disk : Disk
