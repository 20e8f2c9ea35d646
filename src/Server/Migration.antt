-- ===== src/Server/Migration.antt =====
-- server/api_equipment_migrate.go: the order to move a piece of equipment to another GCA.
use gca_backend.Base.{ℕ, ◌-◌, List, [], ◌∷◌, ◌++◌, length, take}
use gca_backend.Base.Bytes.{put_uint, ascii}
use gca_backend.Base.Chunks.{concat}
use gca_backend.Glow.Signatures.{PublicKey, Signature}
use gca_backend.Server.AuthorizedServer
use gca_backend.Server.AuthorizedServer.{AuthorizedServer}

pub record EquipmentMigration : Type 0 where
  pub equipment : PublicKey
  pub new_gca : PublicKey
  pub new_short_id : ℕ
  pub new_servers : List AuthorizedServer
  pub signature : Signature

abbrev pub serialize_servers : List AuthorizedServer → List ℕ
serialize_servers [] = []
serialize_servers (s ∷ ss) = AuthorizedServer.serialize s ++ serialize_servers ss

unfoldable pub serialize : EquipmentMigration → List ℕ
serialize em = concat (
    em.equipment
    ∷ em.new_gca
    ∷ put_uint 4 em.new_short_id
    ∷ serialize_servers em.new_servers
    ∷ em.signature
    ∷ [])

unfoldable pub signing_bytes : EquipmentMigration → List ℕ
unfolding serialize
signing_bytes em =
    let result = serialize em in ascii "EquipmentMigration" ++ take (length result - 64) result
