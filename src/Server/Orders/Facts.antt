-- ===== src/Server/Orders/Facts.antt =====
-- server/api_equipment_auth.go and server/api_equipment_migrate.go: only the GCA's orders take effect.
use gca_backend.Base.{
  ◌≡◌, refl, Bool, true, ◌&&◌, Option, none, some, List, [], ◌∷◌, arith, if◌then◌else◌, ◌⊎◌, inl,
  inr, All, Bool-cases,
}
use gca_backend.Base.Equality.{bytes-Eq, bytes_eq}
use gca_backend.Base.Map.{lookup, lookup-insert}
use gca_backend.Base.Result.{Error, ok, err, bad_signature, bad_server}
use gca_backend.Glow.Signatures.{EthCrypto, PublicKey, verify}
use gca_backend.Glow.Authorization.{EquipmentAuthorization}
use gca_backend.Server.AuthorizedServer
use gca_backend.Server.AuthorizedServer.{AuthorizedServer}
use gca_backend.Server.Migration.{EquipmentMigration, signing_bytes}
use gca_backend.Server.State.{GcaServer}
use gca_backend.Server.Http.{Request, Method, post, get, other, Response, respond, crashed}
use gca_backend.Server.Orders.{
  check_new_servers, validate_migration, decoded_migration, equipment_migrate_handler,
  authorize_equipment_handler, forward,
}
use gca_backend.Server.Equipment.{authorize_equipment}

check_new_servers-All :
    (eth : EthCrypto) (new_gca : PublicKey) (servers : List AuthorizedServer)
    → check_new_servers eth new_gca servers ≡ true
    → All
        (λ (s : AuthorizedServer).
          verify eth new_gca (AuthorizedServer.signing_bytes s) s.gca_authorization ≡ true)
        servers
unfolding check_new_servers
check_new_servers-All eth new_gca [] h = tt
check_new_servers-All eth new_gca (s ∷ servers) h =
    (ground arith, check_new_servers-All eth new_gca servers (ground arith))

abbrev Signed : EthCrypto → PublicKey → List AuthorizedServer → Type 0
Signed eth key servers =
    All
      (λ (x : AuthorizedServer).
        verify eth key (AuthorizedServer.signing_bytes x) x.gca_authorization ≡ true)
      servers

validate_migration_cases :
    (eth : EthCrypto) (s : GcaServer) (em : EquipmentMigration)
    → ((e : Error) × (validate_migration eth s em ≡ err e))
      ⊎ ((validate_migration eth s em ≡ ok tt)
          × (verify eth s.gca_pubkey (signing_bytes em) em.signature ≡ true)
          × (check_new_servers eth em.new_gca em.new_servers ≡ true))
unfolding validate_migration
validate_migration_cases eth s em =
    elim (Bool-cases (verify eth s.gca_pubkey (signing_bytes em) em.signature)) [
      | inr bad ↦ inl (bad_signature, ground arith)
      | inl good ↦ elim (Bool-cases (check_new_servers eth em.new_gca em.new_servers)) [
        | inr bad ↦ inl (bad_server, ground arith)
        | inl all ↦ inr (ground arith, good, all)
      ]
    ]

-- What a run of the migration handler did, from the body to the new state and the response.
abbrev pub Migrated :
    EthCrypto → GcaServer → Option EquipmentMigration → GcaServer × Response → Type 0
Migrated eth s body (s', response) =
    (s' ≡ s)
    ⊎ ((em : EquipmentMigration) × (body ≡ some em)
        × (verify eth s.gca_pubkey (signing_bytes em) em.signature ≡ true)
        × Signed eth em.new_gca em.new_servers
        × ((pk : PublicKey)
            → lookup pk s'.equipment_migrations
              ≡ (if bytes_eq em.equipment pk then some em else lookup pk s.equipment_migrations))
        × (response ≡ respond 200))

decoded_migration-Migrated :
    (eth : EthCrypto) (s : GcaServer) (body : Option EquipmentMigration)
    → Migrated eth s body (decoded_migration eth s body)
unfolding decoded_migration
decoded_migration-Migrated eth s none = inl refl
decoded_migration-Migrated eth s (some em) = elim (validate_migration_cases eth s em) [
  | inl (e, failed) ↦ inl (ground arith)
  | inr (passed, good, all) ↦
      rw (passed, decoded_migration)
        (inr (
          em,
          refl,
          good,
          check_new_servers-All eth em.new_gca em.new_servers all,
          λ pk. lookup-insert em.equipment pk em s.equipment_migrations,
          refl,
        ))
]

-- A request to the migration handler leaves the state, or it holds an order that the current GCA
-- signed as a whole, with each new server signed by the new GCA; then the order is stored for its
-- equipment, the other orders are as before, and the response is 200.
pub equipment_migrate_handler-Migrated :
    (eth : EthCrypto) (s : GcaServer) (request : Request EquipmentMigration)
    → Migrated eth s request.body (equipment_migrate_handler eth s request)
equipment_migrate_handler-Migrated eth s request = by_method request.method request.body
  where
    by_method :
        (m : Method) (body : Option EquipmentMigration)
        → Migrated eth s body (equipment_migrate_handler eth s (record { method = m; body = body }))
    by_method post body = unfold equipment_migrate_handler in decoded_migration-Migrated eth s body
    by_method get body = unfold equipment_migrate_handler in inl refl
    by_method other body = unfold equipment_migrate_handler in inl refl

abbrev pub all_reached : (AuthorizedServer → Bool) → List AuthorizedServer → Bool
all_reached reached [] = true
all_reached reached (s ∷ servers) = reached s && all_reached reached servers

forward_response :
    (reached : AuthorizedServer → Bool) (ea : EquipmentAuthorization)
    (servers : List AuthorizedServer)
    → (forward reached ea servers).0
      ≡ (if all_reached reached servers then respond 200 else crashed)
unfolding forward
forward_response reached ea [] = refl
forward_response reached ea (s ∷ servers) = ground (arith, forward_response reached ea servers)

-- An authorization that is new is kept, and the handler answers 200 when every server of the list can
-- be reached, and panics when one cannot, banned servers included.
pub authorize_equipment_handler_new :
    (eth : EthCrypto) (reached : AuthorizedServer → Bool) (s : GcaServer)
    (ea : EquipmentAuthorization)
    → (authorize_equipment eth s ea).1 ≡ ok true
    → let (s', response, sent) =
        authorize_equipment_handler eth reached s (record { method = post; body = some ea }) in
      (s' ≡ (authorize_equipment eth s ea).0)
      × (response ≡ (if all_reached reached s'.gca_servers then respond 200 else crashed))
unfolding authorize_equipment_handler
authorize_equipment_handler_new eth reached s ea new =
    ground (arith, forward_response reached ea (authorize_equipment eth s ea).0.gca_servers)
