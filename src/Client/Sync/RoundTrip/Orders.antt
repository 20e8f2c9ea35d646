-- ===== src/Client/Sync/RoundTrip/Orders.antt =====
-- server/sync_listener_tcp.go and server/api_equipment_migrate.go: the order of a device as the fields
-- of the answer.
use gca_backend.Base.{
  ℕ, ◌-◌, ◌^◌, ◌<◌, ◌≡◌, refl, ap, sym, ◌∙◌, Option, none, some, List, [], ◌∷◌, ◌++◌, ◌||◌, arith,
  length, take, drop, true, replicate, length-append, append_assoc, append-nil, drop-append,
  take-append_self,
}
use gca_backend.Base.Equality.{ℕ-Eq, bytes-Eq, bytes_eq}
use gca_backend.Base.Map.{lookup}
use gca_backend.Base.Bytes.{put_uint, ascii}
use gca_backend.Base.Chunks.{concat, concat-append}
use gca_backend.Glow.Signatures.{EthCrypto, PublicKey, Signature, verify}
use gca_backend.Glow.Report.{EquipmentReport}
use gca_backend.Glow.Authorization.{EquipmentAuthorization}
use gca_backend.Server.AuthorizedServer.{AuthorizedServer}
use gca_backend.Server.Migration
use gca_backend.Server.Migration.{EquipmentMigration, serialize_servers}
use gca_backend.Server.State.{GcaServer, Array}
use gca_backend.Server.Sync.{bitfield_from, orders, signed_part}
use gca_backend.Client.Sync.{blank}
use gca_backend.Client.Sync.RoundTrip.Fields.{Parts, orders_part, response, merged}

-- The servers that the answer lists: those of the order if the device migrates.
abbrev pub servers_of : GcaServer → Option EquipmentMigration → List AuthorizedServer
servers_of s none = s.gca_servers
servers_of s (some em) = em.new_servers

abbrev pub new_gca_of : Option EquipmentMigration → PublicKey
new_gca_of none = blank
new_gca_of (some em) = em.new_gca

abbrev pub new_short_id_of : Option EquipmentMigration → ℕ
new_short_id_of none = 0
new_short_id_of (some em) = em.new_short_id

abbrev pub gca_signature_of : Option EquipmentMigration → Signature
gca_signature_of none = replicate 64 0
gca_signature_of (some em) = em.signature

-- An order for this device that the GCA signed, with the sizes of Go's types.
pub record IsOrder (eth : EthCrypto) (gca_key key : PublicKey) (em : EquipmentMigration)
    : Type 0 where
  pub for_device : em.equipment ≡ key
  pub new_gca_long : length em.new_gca ≡ 32
  pub new_short_id_fits : em.new_short_id < 2 ^ 32
  pub signature_long : length em.signature ≡ 64
  pub signed : verify eth gca_key (Migration.signing_bytes em) em.signature ≡ true

abbrev pub IsOrder? : EthCrypto → PublicKey → PublicKey → Option EquipmentMigration → Type 0
IsOrder? eth gca_key key none = Unit {0}
IsOrder? eth gca_key key (some em) = IsOrder eth gca_key key em

abbrev pub parts_of :
    GcaServer
    → EquipmentAuthorization
    → Array EquipmentReport
    → Option EquipmentMigration
    → ℕ
    → Signature
    → Parts
parts_of s ea reports m timestamp sig = record {
  key = ea.public_key;
  offset = s.equipment_reports_offset;
  bitfield = bitfield_from 504 0 reports;
  new_gca = new_gca_of m;
  new_short_id = new_short_id_of m;
  servers = servers_of s m;
  gca_signature = gca_signature_of m;
  timestamp = timestamp;
  signature = sig;
}

pub serialize-split :
    (em : EquipmentMigration)
    → Migration.serialize em
      ≡ (em.equipment
          ++ (em.new_gca ++ (put_uint 4 em.new_short_id ++ serialize_servers em.new_servers)))
        ++ em.signature
unfolding Migration.serialize
serialize-split em =
    let ids = put_uint 4 em.new_short_id in
    let servers = serialize_servers em.new_servers in
    rw
      (
        append-nil em.signature,
        append_assoc em.equipment (em.new_gca ++ (ids ++ servers)) em.signature,
        append_assoc em.new_gca (ids ++ servers) em.signature,
        append_assoc ids servers em.signature,
      )
      refl

pub signing_bytes-split :
    (em : EquipmentMigration)
    → length em.signature ≡ 64
    → Migration.signing_bytes em
      ≡ ascii "EquipmentMigration"
        ++ (em.equipment
            ++ (em.new_gca ++ (put_uint 4 em.new_short_id ++ serialize_servers em.new_servers)))
unfolding Migration.signing_bytes
signing_bytes-split em h =
    let front =
      em.equipment
      ++ (em.new_gca ++ (put_uint 4 em.new_short_id ++ serialize_servers em.new_servers)) in
    let size = ap length (serialize-split em) ∙ length-append front em.signature in
    ap (λ t. ascii "EquipmentMigration" ++ t)
      (ap (take (length (Migration.serialize em) - 64)) (serialize-split em)
        ∙ take-append_self (length (Migration.serialize em) - 64) front em.signature (omega arith))

module _ (eth : EthCrypto) (gca_key : PublicKey) (s : GcaServer) (ea : EquipmentAuthorization)
    (reports : Array EquipmentReport) (timestamp : ℕ) (sig : Signature)
    (key_long : length ea.public_key ≡ 32) where
  pub orders_lem :
      (m : Option EquipmentMigration)
      → IsOrder? eth gca_key ea.public_key m
      → orders s m ≡ orders_part (parts_of s ea reports m timestamp sig) ++ gca_signature_of m
  unfolding orders put_uint
  orders_lem none h = refl
  orders_lem (some em) h =
      let rest = em.new_gca ++ (put_uint 4 em.new_short_id ++ serialize_servers em.new_servers) in
      let size : length em.equipment ≡ 32 = ap length h.for_device ∙ key_long in
      let none_left : 32 - length em.equipment ≡ 0 = omega arith in
      ap (drop 32) (serialize-split em ∙ append_assoc em.equipment rest em.signature)
      ∙ drop-append 32 em.equipment (rest ++ em.signature) (omega arith)
      ∙ ap (λ (k : ℕ). drop k (rest ++ em.signature)) none_left

  pub response_lem :
      (m : Option EquipmentMigration)
      → lookup ea.public_key s.equipment_migrations ≡ m
      → IsOrder? eth gca_key ea.public_key m
      → response (parts_of s ea reports m timestamp sig) ≡ signed_part s ea reports timestamp ++ sig
  unfolding signed_part
  response_lem m known h =
      let p = parts_of s ea reports m timestamp sig in
      let stamp = put_uint 8 timestamp in
      let front =
        ea.public_key ∷ put_uint 4 s.equipment_reports_offset ∷ bitfield_from 504 0 reports ∷ [] in
      let told = orders s (lookup ea.public_key s.equipment_migrations) in
      let same : told ≡ orders_part p ++ gca_signature_of m =
        ap (orders s) known ∙ orders_lem m h in
      merged p
      ∙ ap
          (λ t.
            ea.public_key
            ++ (put_uint 4 s.equipment_reports_offset ++ (bitfield_from 504 0 reports ++ t)))
          (sym (append_assoc (orders_part p) (gca_signature_of m) (stamp ++ (sig ++ [])))
            ∙ ap (λ t. t ++ (stamp ++ (sig ++ []))) (sym same))
      ∙ concat-append (front ++ (told ∷ stamp ∷ [])) (sig ∷ [])
      ∙ ap (λ t. concat (front ++ (told ∷ stamp ∷ [])) ++ t) (append-nil sig)

  pub permitted :
      (m : Option EquipmentMigration)
      → IsOrder? eth gca_key ea.public_key m
      → (bytes_eq (new_gca_of m) blank
          || verify eth gca_key
              (ascii "EquipmentMigration"
                ++ (ea.public_key ++ orders_part (parts_of s ea reports m timestamp sig)))
              (gca_signature_of m))
        ≡ true
  unfolding bytes_eq
  permitted none h = refl
  permitted (some em) h =
      let bytes =
        signing_bytes-split em h.signature_long
        ∙ ap
            (λ t.
              ascii "EquipmentMigration"
              ++ (t ++ orders_part (parts_of s ea reports (some em) timestamp sig)))
            h.for_device in
      let good = ap (λ t. verify eth gca_key t em.signature) (sym bytes) ∙ h.signed in
      ground (arith, good)
