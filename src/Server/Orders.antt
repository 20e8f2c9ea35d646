-- ===== src/Server/Orders.antt =====
-- The handlers of server/api_equipment_auth.go and server/api_equipment_migrate.go.
pub mod Facts
use gca_backend.Base.{
  ℕ, Bool, true, false, Option, none, some, List, [], ◌∷◌, ◌++◌, ◌&&◌, if◌then◌else◌,
}
use gca_backend.Base.Equality.{bytes-Eq}
use gca_backend.Base.Map.{insert}
use gca_backend.Base.Result.{Result, ok, err, panic, bad_signature, bad_server, ◌>>=◌, ◌>>◌, guard}
use gca_backend.Glow.Signatures.{EthCrypto, PublicKey, verify}
use gca_backend.Glow.Authorization.{EquipmentAuthorization}
use gca_backend.Server.AuthorizedServer
use gca_backend.Server.AuthorizedServer.{AuthorizedServer}
use gca_backend.Server.Migration.{EquipmentMigration, signing_bytes}
use gca_backend.Server.State.{GcaServer}
use gca_backend.Server.Equipment.{authorize_equipment}
use gca_backend.Server.Servers.{Message, send_equipment}
use gca_backend.Server.Http.{Request, Method, get, post, other, Response, respond, crashed}

-- The loop that sends new equipment on. `reached` says of each server whether `http.Post` succeeds:
-- after an error the response is nil, and closing its body panics.
unfoldable pub forward :
    (AuthorizedServer → Bool)
    → EquipmentAuthorization
    → List AuthorizedServer
    → Response × List Message
forward reached ea [] = (respond 200, [])
forward reached ea (s ∷ servers) =
    let rest = forward reached ea servers in
    if reached s
    then (rest.0, send_equipment s ea ∷ rest.1)
    else (crashed, send_equipment s ea ∷ [])

-- Equipment that is known already is not sent on.
after_authorize :
    (AuthorizedServer → Bool)
    → EquipmentAuthorization
    → GcaServer
    → Result Bool
    → GcaServer × Response × List Message
after_authorize reached ea s (ok false) = (s, respond 200, [])
after_authorize reached ea s (ok true) =
    let (response, sent) = forward reached ea s.gca_servers in (s, response, sent)
after_authorize reached ea s (err _) = (s, respond 500, [])
after_authorize reached ea s panic = (s, crashed, [])

decoded_equipment :
    EthCrypto
    → (AuthorizedServer → Bool)
    → GcaServer
    → Option EquipmentAuthorization
    → GcaServer × Response × List Message
decoded_equipment eth reached s none = (s, respond 400, [])
decoded_equipment eth reached s (some ea) =
    let (s', result) = authorize_equipment eth s ea in after_authorize reached ea s' result

unfoldable pub authorize_equipment_handler :
    EthCrypto
    → (AuthorizedServer → Bool)
    → GcaServer
    → Request EquipmentAuthorization
    → GcaServer × Response × List Message
unfolding decoded_equipment after_authorize
authorize_equipment_handler eth reached s request = elim request.method [
  | post ↦ decoded_equipment eth reached s request.body
  | _ ↦ (s, respond 405, [])
]

-- The new servers of a migration, each signed by the new GCA.
unfoldable pub check_new_servers : EthCrypto → PublicKey → List AuthorizedServer → Bool
check_new_servers eth new_gca [] = true
check_new_servers eth new_gca (s ∷ servers) =
    verify eth new_gca (AuthorizedServer.signing_bytes s) s.gca_authorization
    && check_new_servers eth new_gca servers

unfoldable pub validate_migration : EthCrypto → GcaServer → EquipmentMigration → Result (Unit {0})
validate_migration eth s em = do
  guard (verify eth s.gca_pubkey (signing_bytes em) em.signature) bad_signature
  guard (check_new_servers eth em.new_gca em.new_servers) bad_server

decoded_migration : EthCrypto → GcaServer → Option EquipmentMigration → GcaServer × Response
decoded_migration eth s none = (s, respond 400)
decoded_migration eth s (some em) = elim (validate_migration eth s em) [
  | ok _ ↦ (
    record s { equipment_migrations = insert em.equipment em s.equipment_migrations },
    respond 200,
  )
  | err _ ↦ (s, respond 500)
  | panic ↦ (s, crashed)
]

unfoldable pub equipment_migrate_handler :
    EthCrypto → GcaServer → Request EquipmentMigration → GcaServer × Response
unfolding decoded_migration
equipment_migrate_handler eth s request = elim request.method [
  | post ↦ decoded_migration eth s request.body
  | _ ↦ (s, respond 405)
]
