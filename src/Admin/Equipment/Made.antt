-- ===== src/Admin/Equipment/Made.antt =====
-- bin/gca-admin/main.go: the parts of a device that was made.
use gca_backend.Base.{ℕ, ◌≡◌, Option, List, arith, replicate}
use gca_backend.Base.Map.{Map}
use gca_backend.Base.Result.{ok, >>=-eq-ok}
use gca_backend.Glow.Signatures.{
  EthCrypto, PublicKey, PrivateKey, Signature, generate_key_pair, sign,
}
use gca_backend.Glow.Timeslot.{current_timeslot}
use gca_backend.Glow.Authorization.{EquipmentAuthorization, signing_bytes}
use gca_backend.Client.ServerMap.{GcaServer, serialize_gca_server_map}
use gca_backend.Client.Loading.{DeviceFiles}
use gca_backend.Admin.{Entry}
use gca_backend.Admin.Equipment.{authorization_of, files_for, make_device}

-- The values that the making of a device goes through.
pub record IsMade (eth : EthCrypto) (source : List (Option PrivateKey)) (clock : ℕ)
    (gca_key : PublicKey) (gca_private : PrivateKey) (servers : Map PublicKey GcaServer)
    (entry : Entry) (slots : ℕ × ℕ) (id : ℕ) (files : DeviceFiles) (ea : EquipmentAuthorization)
    : Type 0 where
  pub public : PublicKey
  pub private : PrivateKey
  pub raw : List ℕ
  pub now : ℕ
  pub signature : Signature
  pub generated : generate_key_pair eth source ≡ ok (public, private)
  pub serialized : serialize_gca_server_map servers ≡ ok raw
  pub told : current_timeslot clock ≡ ok now
  pub signed :
      sign eth (signing_bytes (authorization_of entry slots id public (replicate 64 0))) gca_private
      ≡ ok signature
  pub written : files ≡ files_for id gca_key public private raw now
  pub authorized :
      ea
      ≡ record (authorization_of entry slots id public (replicate 64 0)) { signature = signature }

pub make_device-IsMade :
    (eth : EthCrypto) (source : List (Option PrivateKey)) (clock : ℕ) (gca_key : PublicKey)
    (gca_private : PrivateKey) (servers : Map PublicKey GcaServer) (entry : Entry) (slots : ℕ × ℕ)
    (id : ℕ) (files : DeviceFiles) (ea : EquipmentAuthorization)
    → make_device eth source clock (gca_key, gca_private) servers entry (slots, id) ≡ ok (files, ea)
    → IsMade eth source clock gca_key gca_private servers entry slots id files ea
unfolding make_device
make_device-IsMade eth source clock gca_key gca_private servers entry slots id files ea e =
    let ((public, private), generated, e1) = >>=-eq-ok (generate_key_pair eth source) _ e in
    let (raw, serialized, e2) = >>=-eq-ok (serialize_gca_server_map servers) _ e1 in
    let (now, told, e3) = >>=-eq-ok (current_timeslot clock) _ e2 in
    let unsigned = authorization_of entry slots id public (replicate 64 0) in
    let (signature, signed, last) =
      >>=-eq-ok (sign eth (signing_bytes unsigned) gca_private) _ e3 in
    record {
      public = public;
      private = private;
      raw = raw;
      now = now;
      signature = signature;
      generated = generated;
      serialized = serialized;
      told = told;
      signed = signed;
      written = ground arith;
      authorized = ground arith;
    }
