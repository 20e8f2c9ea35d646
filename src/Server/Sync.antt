-- ===== src/Server/Sync.antt =====
-- server/sync_listener_tcp.go: `managedHandleSyncConn`, what the server answers to a device that
-- synchronizes.
pub mod Bits
use gca_backend.Base.{
  ℕ, zero, suc, ◌+◌, ◌-◌, ◌*◌, ◌%◌, ◌^◌, Option, none, some, List, [], ◌∷◌, ◌++◌, length, drop,
  replicate, ltb, if◌then◌else◌,
}
use gca_backend.Base.Equality.{ℕ-Eq, bytes-Eq}
use gca_backend.Base.Map.{lookup}
use gca_backend.Base.Bytes.{put_uint}
use gca_backend.Base.Chunks.{concat}
use gca_backend.Base.Result.{Result, ok, ◌>>=◌}
use gca_backend.Glow.Signatures.{EthCrypto, PublicKey, sign}
use gca_backend.Glow.Report.{EquipmentReport}
use gca_backend.Glow.Authorization.{EquipmentAuthorization}
use gca_backend.Server.Migration
use gca_backend.Server.Migration.{EquipmentMigration, serialize_servers}
use gca_backend.Server.State.{GcaServer, Array}

-- The bits of `n` reports from the one at `i`, the lowest bit first.
unfoldable pub bits : ℕ → ℕ → Array EquipmentReport → ℕ
bits zero i reports = 0
bits (suc n) i reports =
    (if ltb 0 (reports i).power_output then 1 else 0) + 2 * bits n (i + 1) reports

-- `n` bytes of the bitfield, from the one that begins with the report at `i`.
unfoldable pub bitfield_from : ℕ → ℕ → Array EquipmentReport → List ℕ
bitfield_from zero i reports = []
bitfield_from (suc n) i reports = bits 8 i reports ∷ bitfield_from n (i + 8) reports

-- The order that the GCA gave for the device, or blank fields around the list of servers, whose bytes
-- are those of `AuthorizedServer.Serialize`.
unfoldable pub orders : GcaServer → Option EquipmentMigration → List ℕ
orders s (some em) = drop 32 (Migration.serialize em)
orders s none = replicate 36 0 ++ (serialize_servers s.gca_servers ++ replicate 64 0)

unfoldable pub signed_part : GcaServer → EquipmentAuthorization → Array EquipmentReport → ℕ → List ℕ
signed_part s ea reports timestamp = concat (
    ea.public_key
    ∷ put_uint 4 s.equipment_reports_offset
    ∷ bitfield_from 504 0 reports
    ∷ orders s (lookup ea.public_key s.equipment_migrations)
    ∷ put_uint 8 timestamp
    ∷ [])

-- The whole answer, the two bytes of its length first.
unfoldable pub framed : List ℕ → List ℕ
framed resp = put_uint 2 (length resp % 2 ^ 16) ++ resp

unfoldable pub answer :
    EthCrypto → GcaServer → EquipmentAuthorization → Array EquipmentReport → ℕ → Result (List ℕ)
answer eth s ea reports timestamp = do
  sig ← sign eth (signed_part s ea reports timestamp) s.static_private_key
  ok (framed (signed_part s ea reports timestamp ++ sig))

-- What the server writes to a connection that asked for this short ID.
unfoldable pub handle_sync_conn : EthCrypto → GcaServer → ℕ → ℕ → Result (List ℕ)
handle_sync_conn eth s id timestamp = elim (lookup id s.equipment_reports) [
  | none ↦ ok (0 ∷ [])
  | some reports ↦ elim (lookup id s.equipment) [
    | none ↦ ok (0 ∷ [])
    | some ea ↦ answer eth s ea reports timestamp
  ]
]
