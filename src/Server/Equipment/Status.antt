-- ===== src/Server/Equipment/Status.antt =====
-- server/equipment.go: a short ID is unknown, then authorized, then banned for good.
use gca_backend.Base.{ℕ, List, true, ◌≡◌, Option, none, some, arith, ◌==◌, if◌then◌else◌, ◌≢◌}
use gca_backend.Base.Equality.{ℕ-Eq}
use gca_backend.Base.Map.{lookup, lookup-insert, lookup-delete}
use gca_backend.Base.Result.{ok, err, io_failure}
use gca_backend.Glow.Authorization.{EquipmentAuthorization, authorization_eq}
use gca_backend.Glow.Signatures.{EthCrypto}
use gca_backend.Server.State.{GcaServer, append_file}
use gca_backend.Server.Equipment.{
  add_equipment, ban_equipment, add_recent_equipment_auth, save_equipment, settle,
  authorize_equipment, verify_equipment_authorization,
}

pub data Status : Type 0 where
  unknown : Status
  authorized : EquipmentAuthorization → Status
  banned : Status

abbrev status_of : Option (Unit {0}) → Option EquipmentAuthorization → Status
status_of (some _) found = banned
status_of none (some ea) = authorized ea
status_of none none = unknown

unfoldable pub status : GcaServer → ℕ → Status
status s id = status_of (lookup id s.equipment_bans) (lookup id s.equipment)

-- What an authorization does to the short ID that it names.
unfoldable pub next_status : Status → EquipmentAuthorization → Status
next_status unknown ea = authorized ea
next_status (authorized current) ea =
    if authorization_eq current ea then authorized current else banned
next_status banned ea = banned

-- Unless the file cannot be written, `saveEquipment` moves the short ID that the authorization names
-- from unknown to authorized, and from authorized to banned unless the authorization is the one that
-- is known; a ban stays. The status of no other short ID changes.
pub save_equipment-status :
    (s : GcaServer) (ea : EquipmentAuthorization) (id : ℕ)
    → (save_equipment s ea).1 ≢ err io_failure
    → status (save_equipment s ea).0 id
      ≡ (if ea.short_id == id then next_status (status s id) ea else status s id)
unfolding save_equipment status next_status settle add_equipment ban_equipment
    add_recent_equipment_auth
save_equipment-status s ea id written = ground (
  arith,
  lookup-insert ea.short_id id tt s.equipment_bans,
  lookup-insert ea.short_id id ea s.equipment,
  lookup-delete ea.short_id id s.equipment,
)

-- A signed authorization for an unknown short ID is kept.
pub authorize_equipment_new :
    (eth : EthCrypto) (s : GcaServer) (ea : EquipmentAuthorization) (old : List ℕ)
    → s.gca_pubkey_available ≡ true
    → verify_equipment_authorization eth s ea ≡ true
    → status s ea.short_id ≡ unknown
    → s.disk.writable ≡ true
    → s.disk.authorizations ≡ some old
    → ((authorize_equipment eth s ea).1 ≡ ok true)
      × (lookup ea.short_id (authorize_equipment eth s ea).0.equipment ≡ some ea)
unfolding authorize_equipment save_equipment status append_file settle add_equipment
    add_recent_equipment_auth
authorize_equipment_new eth s ea old available signed fresh writable there =
    let kept = lookup-insert ea.short_id ea.short_id ea s.equipment in (ground arith, ground arith)
