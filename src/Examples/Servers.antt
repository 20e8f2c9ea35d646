-- ===== src/Examples/Servers.antt =====
-- The theorems on the lists of servers and on orders at small states.
use gca_backend.Base.{◌≡◌, refl, true, false, ◌||◌, some, [], ◌∷◌, if◌then◌else◌}
use gca_backend.Base.Equality.{bytes_eq}
use gca_backend.Base.Map.{lookup}
use gca_backend.Base.Result.{ok}
use gca_backend.Glow.Signatures.{verify}
use gca_backend.Server.AuthorizedServer.{AuthorizedServer}
use gca_backend.Server.Migration.{EquipmentMigration}
use gca_backend.Server.State.{append_file}
use gca_backend.Server.Equipment.{
  authorize_equipment, verify_equipment_authorization, save_equipment, settle,
}
use gca_backend.Server.Http.{post, respond, crashed}
use gca_backend.Server.Orders.{authorize_equipment_handler, equipment_migrate_handler}
use gca_backend.Server.Orders.Facts.{
  Migrated, equipment_migrate_handler-Migrated, all_reached, authorize_equipment_handler_new,
}
use gca_backend.Server.Servers.Bans.{
  entry, integrate_servers, is_banned, any_ban, integrate_servers_bans,
}
use gca_backend.Examples.{
  toy_crypto, key_of, signature_of, owned_server, server, server_entry, device,
}

abbrev ban : AuthorizedServer
ban = record server_entry { banned = true }

integrate_servers_bans_example :
    is_banned (entry (key_of 9) (integrate_servers (server_entry ∷ []) (ban ∷ server_entry ∷ [])))
    ≡ (is_banned (entry (key_of 9) (server_entry ∷ []))
        || any_ban (key_of 9) (ban ∷ server_entry ∷ []))
integrate_servers_bans_example =
    integrate_servers_bans (server_entry ∷ []) (ban ∷ server_entry ∷ []) (key_of 9)

abbrev order : EquipmentMigration
order = record {
  equipment = key_of 5;
  new_gca = key_of 2;
  new_short_id = 8;
  new_servers = record server_entry { gca_authorization = signature_of 2 } ∷ [];
  signature = signature_of 1;
}

equipment_migrate_handler-Migrated_example :
    Migrated toy_crypto server
      (some order)
      (equipment_migrate_handler toy_crypto server (record { method = post; body = some order }))
equipment_migrate_handler-Migrated_example =
    equipment_migrate_handler-Migrated toy_crypto server
      (record { method = post; body = some order })

device_new : (authorize_equipment toy_crypto owned_server device).1 ≡ ok true
unfolding authorize_equipment verify_equipment_authorization verify bytes_eq save_equipment lookup
    append_file settle
device_new = refl

authorize_equipment_handler_new_example :
    let (s', response, sent) =
      authorize_equipment_handler toy_crypto
        (λ x. false)
        owned_server
        (record { method = post; body = some device }) in
    (s' ≡ (authorize_equipment toy_crypto owned_server device).0)
    × (response ≡ (if all_reached (λ x. false) s'.gca_servers then respond 200 else crashed))
authorize_equipment_handler_new_example =
    authorize_equipment_handler_new toy_crypto (λ x. false) owned_server device device_new
