-- ===== src/Server/Servers.antt =====
-- server/api_authorized_servers.go: the list of authorized servers, and what is sent on about them.
pub mod Bans
use gca_backend.Base.{
  ℕ, Bool, true, false, ◌&&◌, ◌||◌, not, Option, none, some, List, [], ◌∷◌, ◌++◌, map,
  if◌then◌else◌,
}
use gca_backend.Base.Equality.{bytes_eq}
use gca_backend.Base.Map.{Map}
use gca_backend.Glow.Signatures.{EthCrypto, PublicKey, verify}
use gca_backend.Glow.Authorization.{EquipmentAuthorization}
use gca_backend.Server.AuthorizedServer.{AuthorizedServer, signing_bytes}
use gca_backend.Server.State.{GcaServer}
use gca_backend.Server.Http.{Request, Method, get, post, other, Response, respond}

-- The loop over the known servers: the new list, and whether the server was added at its end.
unfoldable pub integrate_server :
    List AuthorizedServer → AuthorizedServer → List AuthorizedServer × Bool
integrate_server [] server = (server ∷ [], true)
integrate_server (s ∷ servers) server =
    let rest = integrate_server servers server in
    if bytes_eq s.public_key server.public_key
    then (if s.banned
        then (s ∷ servers, false)
        else if not server.banned
        then (s ∷ servers, false)
        else (server ∷ servers, false))
    else (s ∷ rest.0, rest.1)

-- A POST request to another server.
pub data Message : Type 0 where
  send_server : AuthorizedServer → AuthorizedServer → Message
  send_equipment : AuthorizedServer → EquipmentAuthorization → Message

-- The new server goes to every server that is not banned.
unfoldable pub announce : AuthorizedServer → List AuthorizedServer → List Message
announce server [] = []
announce server (s ∷ servers) =
    let rest = announce server servers in if s.banned then rest else send_server s server ∷ rest

abbrev pub equipment_list : Map ℕ EquipmentAuthorization → List EquipmentAuthorization
equipment_list [] = []
equipment_list ((id, ea) ∷ m) = ea ∷ equipment_list m

-- Every authorization goes to the new server.
unfoldable pub brief : AuthorizedServer → List EquipmentAuthorization → List Message
brief server [] = []
brief server (ea ∷ eas) = send_equipment server ea ∷ brief server eas

post_server : EthCrypto → GcaServer → Option AuthorizedServer → GcaServer × Response × List Message
post_server eth s none = (s, respond 500, [])
post_server eth s (some server) =
    if verify eth s.gca_pubkey (signing_bytes server) server.gca_authorization
    then (let (servers, is_new) = integrate_server s.gca_servers server in
        (
          record s { gca_servers = servers },
          respond 200,
          if is_new
              then announce server servers ++ brief server (equipment_list s.equipment)
              else [],
        ))
    else (s, respond 500, [])

-- `AuthorizedServersHandler`. A GET request is answered with the list in the state.
unfoldable pub authorized_servers_handler :
    EthCrypto → GcaServer → Request AuthorizedServer → GcaServer × Response × List Message
unfolding post_server
authorized_servers_handler eth s request = elim request.method [
  | post ↦ post_server eth s request.body
  | get ↦ (s, respond 200, [])
  | other ↦ (s, respond 405, [])
]
