-- ===== src/Admin/Equipment.antt =====
-- bin/gca-admin/main.go: `newEquipmentCmd` makes the files of a new device, and authorizes it.
pub mod Made
use gca_backend.Base.{
  ℕ, ◌+◌, ◌-◌, ◌*◌, ◌/◌, ◌%◌, ◌^◌, Bool, true, false, not, ◌&&◌, Option, none, some, List, [], ◌∷◌,
  ◌++◌, replicate, map, ◌==◌, if◌then◌else◌,
}
use gca_backend.Base.Equality.{ℕ-Eq}
use gca_backend.Base.Map.{Map, insert}
use gca_backend.Base.Bytes.{put_uint}
use gca_backend.Base.Result.{Result, ok, err, panic, ◌>>=◌, ◌>>◌, guard, io_failure, not_finite}
use gca_backend.Glow.Signatures.{
  EthCrypto, PublicKey, PrivateKey, Signature, generate_key_pair, sign,
}
use gca_backend.Glow.Timeslot.{current_timeslot}
use gca_backend.Glow.Authorization.{EquipmentAuthorization}
use gca_backend.Glow.Authorization
use gca_backend.Client.ServerMap.{GcaServer, serialize_gca_server_map}
use gca_backend.Client.Loading.{DeviceFiles}
use gca_backend.Admin.{GcaData, Posted, Entry, final_capacity, prepare}

-- The latest short ID moves on before the equipment is made.
unfoldable pub advance : ℕ → GcaData → GcaData
advance id s = record s { latest_short_id = some (put_uint 4 ((id + 1) % 2 ^ 32)) }

unfoldable pub authorization_of : Entry → ℕ × ℕ → ℕ → PublicKey → Signature → EquipmentAuthorization
authorization_of entry (initialization, expiration) id key signature = record {
  short_id = id;
  public_key = key;
  latitude = entry.latitude;
  longitude = entry.longitude;
  capacity = final_capacity entry.capacity;
  debt = entry.debt * 1000 % 2 ^ 64;
  expiration = expiration;
  initialization = initialization;
  protocol_fee = entry.protocol_fee % 2 ^ 64;
  signature = signature;
}

-- The history begins three days before now.
abbrev pub history_start : ℕ → ℕ
history_start now = (now + 2 ^ 32 - 3 * 288) % 2 ^ 32

abbrev pub files_for : ℕ → PublicKey → PublicKey → PrivateKey → List ℕ → ℕ → DeviceFiles
files_for id gca_key public private raw now = record {
  client_key_file = some (public ++ private);
  gca_pub_key_file = some gca_key;
  gca_server_map_file = some raw;
  history_file = some (put_uint 4 (history_start now));
  short_id_file = some (put_uint 4 id);
}

-- The keys and the files of the device, and the signed authorization. `clock` is the time.
unfoldable pub make_device :
    EthCrypto
    → List (Option PrivateKey)
    → ℕ
    → PublicKey × PrivateKey
    → Map PublicKey GcaServer
    → Entry
    → (ℕ × ℕ) × ℕ
    → Result (DeviceFiles × EquipmentAuthorization)
make_device eth source clock (gca_key, gca_private) servers entry (slots, id) = do
  (public, private) ← generate_key_pair eth source
  raw ← serialize_gca_server_map servers
  now ← current_timeslot clock
  let unsigned = authorization_of entry slots id public (replicate 64 0)
  signature ← sign eth (Authorization.signing_bytes unsigned) gca_private
  ok (files_for id gca_key public private raw now, record unsigned { signature = signature })

-- Not NaN and not an infinity: `json.Marshal` takes no others.
abbrev pub is_finite : ℕ → Bool
is_finite bits = not (bits / 2 ^ 52 % 2048 == 2047)

abbrev pub recipients_of : Map PublicKey GcaServer → List GcaServer
recipients_of [] = []
recipients_of ((key, server) ∷ m) = server ∷ recipients_of m

-- The authorization is posted to every server; how each answers is only printed.
abbrev pub deliver :
    Map PublicKey GcaServer
    → GcaData
    → DeviceFiles × EquipmentAuthorization
    → GcaData × Result Posted
deliver servers s (files, ea) = (
  record s { clients = insert ea.short_id files s.clients },
  if is_finite ea.latitude && is_finite ea.longitude
      then ok (record { authorization = ea; recipients = recipients_of servers })
      else err not_finite,
)

-- Where the making of the device fails, the short ID is spent all the same.
abbrev pub delivered :
    Map PublicKey GcaServer
    → GcaData
    → Result (DeviceFiles × EquipmentAuthorization)
    → GcaData × Result Posted
delivered servers s panic = (s, panic)
delivered servers s (err e) = (s, err e)
delivered servers s (ok made) = deliver servers s made

abbrev pub with_prepared :
    EthCrypto
    → List (Option PrivateKey)
    → ℕ
    → PublicKey × PrivateKey
    → Map PublicKey GcaServer
    → Entry
    → GcaData
    → Result ((ℕ × ℕ) × ℕ)
    → GcaData × Result Posted
with_prepared eth source clock keys servers entry s panic = (s, panic)
with_prepared eth source clock keys servers entry s (err e) = (s, err e)
with_prepared eth source clock keys servers entry s (ok (slots, id)) =
    if s.writable
    then delivered servers (advance id s)
        (make_device eth source clock keys servers entry (slots, id))
    else (s, err io_failure)

unfoldable pub new_equipment_cmd :
    EthCrypto
    → List (Option PrivateKey)
    → ℕ
    → PublicKey × PrivateKey
    → Map PublicKey GcaServer
    → Entry
    → GcaData
    → GcaData × Result Posted
new_equipment_cmd eth source clock keys servers entry s =
    with_prepared eth source clock keys servers entry s (prepare servers entry s)
