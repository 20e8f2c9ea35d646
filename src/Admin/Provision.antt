-- ===== src/Admin/Provision.antt =====
-- bin/gca-admin/main.go with the client and the server: a device that `gca-admin` made works.
use gca_backend.Base.{
  ℕ, ◌^◌, ◌<◌, ◌≡◌, sym, ap, ◌∙◌, subst, true, false, Option, some, List, arith, length, ◌==◌,
  replicate, take, length-take, length-replicate,
}
use gca_backend.Base.Equality.{ℕ-Eq, bytes-Eq}
use gca_backend.Base.Map.{Map, lookup}
use gca_backend.Base.Unique.{Unique}
use gca_backend.Base.Bytes.{put_uint, length-put_uint}
use gca_backend.Base.Result.{ok}
use gca_backend.Glow.Signatures.{
  EthCrypto, PublicKey, PrivateKey, IsKeyPair, Signature, generate_key_pair, sign_lem, verify,
  verify_lem,
}
use gca_backend.Glow.Authorization.{EquipmentAuthorization, signing_bytes}
use gca_backend.Glow.Authorization.RoundTrip.{signing_bytes_lem}
use gca_backend.Server.State.{GcaServer as Server}
use gca_backend.Server.Equipment.{authorize_equipment, verify_equipment_authorization}
use gca_backend.Server.Equipment.Status.{status, unknown, authorize_equipment_new}
use gca_backend.Server.Reports.{parse_report}
use gca_backend.Client.State.{Client}
use gca_backend.Client.ServerMap.{GcaServer}
use gca_backend.Client.ServerMap.RoundTrip.{
  IsEntries, untrusted_deserialize_gca_server_map-serialize_gca_server_map,
}
use gca_backend.Client.Loading.{DeviceFiles, new_client}
use gca_backend.Client.Loading.Restart.{
  Contents, IsWhole, AlwaysDraws, started, new_client-files_of,
}
use gca_backend.Client.Reports.{EnergyRecord, report_of, static_send_report}
use gca_backend.Client.Reports.Accepted.{parse_report-static_send_report}
use gca_backend.Admin.{GcaData, Entry, Posted}
use gca_backend.Admin.Equipment.{new_equipment_cmd, authorization_of, history_start}
use gca_backend.Admin.Equipment.Made.{IsMade, make_device-IsMade}
use gca_backend.Admin.Posting.{new_equipment_cmd-IsPosted}

-- The authorization of a device that was made verifies under the key of the GCA.
authorized-verify :
    (eth : EthCrypto) (source : List (Option PrivateKey)) (clock : ℕ) (gca_key : PublicKey)
    (gca_private : PrivateKey) (servers : Map PublicKey GcaServer) (entry : Entry) (slots : ℕ × ℕ)
    (id : ℕ) (files : DeviceFiles) (ea : EquipmentAuthorization)
    → IsKeyPair eth gca_key gca_private
    → IsMade eth source clock gca_key gca_private servers entry slots id files ea
    → verify eth gca_key (signing_bytes ea) ea.signature ≡ true
unfolding authorization_of
authorized-verify eth source clock gca_key gca_private servers entry slots id files ea pair m =
    let unsigned = authorization_of entry slots id m.public (replicate 64 0) in
    let signed = sign_lem pair (signing_bytes unsigned) in
    let signature = take 64 (pair.signature_of (eth.keccak256 (signing_bytes unsigned))) in
    let same : signature ≡ m.signature = ground (arith, m.signed) in
    let long : length m.signature ≡ 64 = omega (
      arith,
      ap (length {A = ℕ}) same,
      length-take 64 (pair.signature_of (eth.keccak256 (signing_bytes unsigned))),
      pair.long (eth.keccak256 (signing_bytes unsigned)),
    ) in
    let message : signing_bytes (record unsigned { signature = m.signature })
        ≡ signing_bytes unsigned =
      signing_bytes_lem (record unsigned { signature = m.signature }) long
      ∙ sym (signing_bytes_lem unsigned (length-replicate {A = ℕ} 64 0)) in
    ap (λ (x : EquipmentAuthorization). verify eth gca_key (signing_bytes x) x.signature)
      m.authorized
    ∙ ap (λ t. verify eth gca_key t m.signature) message
    ∙ ap (verify eth gca_key (signing_bytes unsigned)) (sym same)
    ∙ verify_lem pair (signing_bytes unsigned)

-- What the key generator gives is a pair of keys of 32 bytes.
abbrev pub GivesPairs : EthCrypto → List (Option PrivateKey) → Type 0
GivesPairs eth source =
    (public private : List ℕ)
    → generate_key_pair eth source ≡ ok (public, private)
    → IsKeyPair eth public private × (length public ≡ 32) × (length private ≡ 32)

-- The server belongs to the GCA, can write, and does not know the short ID.
pub record IsReady (gca_key : PublicKey) (id : ℕ) (server : Server) : Type 0 where
  pub owned : server.gca_pubkey ≡ gca_key
  pub available : server.gca_pubkey_available ≡ true
  pub fresh : status server id ≡ unknown
  pub writable : server.disk.writable ≡ true
  pub old : List ℕ
  pub file : server.disk.authorizations ≡ some old

contents_of : ℕ → PublicKey → PublicKey → PrivateKey → List ℕ → ℕ → Contents
contents_of id gca_key public private raw now = record {
  public_key = public;
  private_key = private;
  gca_key = gca_key;
  server_bytes = raw;
  history = put_uint 4 (history_start now);
  short_id = id;
}

-- The device that starts from the files of equipment that was made.
made-starts :
    (draws : ℕ → Option ℕ) (eth : EthCrypto) (source : List (Option PrivateKey)) (clock : ℕ)
    (gca_key : PublicKey) (gca_private : PrivateKey) (servers : Map PublicKey GcaServer)
    (entry : Entry) (slots : ℕ × ℕ) (id : ℕ) (files : DeviceFiles) (ea : EquipmentAuthorization)
    → AlwaysDraws draws
    → GivesPairs eth source
    → length gca_key ≡ 32
    → Unique servers
    → IsEntries servers
    → (length servers == 0) ≡ false
    → id < 2 ^ 32
    → (m : IsMade eth source clock gca_key gca_private servers entry slots id files ea)
    → (primary : PublicKey) × (new_client draws true files
        ≡ ok (started (contents_of id gca_key m.public m.private m.raw m.now) servers primary true))
unfolding contents_of
made-starts draws eth source clock gca_key gca_private servers entry slots id files ea always pairs
      long u entries some_server fits m =
    let (pair, public_long, private_long) = pairs m.public m.private m.generated in
    let whole : IsWhole (contents_of id gca_key m.public m.private m.raw m.now) servers = record {
      public_long = public_long;
      private_long = private_long;
      gca_long = long;
      decoded =
          untrusted_deserialize_gca_server_map-serialize_gca_server_map servers m.raw u entries
            m.serialized;
      some_server = some_server;
      begun = omega (arith, length-put_uint 4 (history_start m.now));
      short_id_fits = fits;
    } in
    let (primary, starts) =
      new_client-files_of (contents_of id gca_key m.public m.private m.raw m.now) servers whole
        draws true always in
    (primary, ap (new_client draws true) m.written ∙ starts)

-- The device that a GCA made for the short ID `n` starts from its files; a server that belongs to
-- the GCA and does not know `n` accepts the posted authorization, and from then on it parses
-- whatever record the device sends as that record's report. The GCA's keys and those that the
-- generator gives are pairs, the GCA's servers have fields of the right sizes, the server can
-- write, and the device's random source does not fail.
pub new_equipment_cmd-parse_report :
    (draws : ℕ → Option ℕ) (eth : EthCrypto) (source : List (Option PrivateKey)) (clock : ℕ)
    (gca_key : PublicKey) (gca_private : PrivateKey) (servers : Map PublicKey GcaServer)
    (entry : Entry) (s : GcaData) (n : ℕ) (p : Posted) (server : Server)
    → AlwaysDraws draws
    → GivesPairs eth source
    → IsKeyPair eth gca_key gca_private
    → length gca_key ≡ 32
    → Unique servers
    → IsEntries servers
    → n < 2 ^ 32
    → s.latest_short_id ≡ some (put_uint 4 n)
    → (new_equipment_cmd eth source clock (gca_key, gca_private) servers entry s).1 ≡ ok p
    → IsReady gca_key n server
    → (files : DeviceFiles) × (c : Client) × (lookup n
          (new_equipment_cmd eth source clock (gca_key, gca_private) servers entry s).0.clients
        ≡ some files)
      × (new_client draws true files ≡ ok c)
      × ((authorize_equipment eth server p.authorization).1 ≡ ok true)
      × ((er : EnergyRecord)
          → er.timeslot < 2 ^ 32
          → er.energy < 2 ^ 64
          → (bytes : List ℕ) × (signature : Signature) × (static_send_report eth c er ≡ ok bytes)
            × (parse_report eth (authorize_equipment eth server p.authorization).0 bytes
                ≡ ok (report_of c er signature)))
unfolding contents_of authorization_of verify_equipment_authorization
new_equipment_cmd-parse_report draws eth source clock gca_key gca_private servers entry s n p server
      always pairs pair long u entries fits there posted ready =
    let ea = p.authorization in
    let q =
      new_equipment_cmd-IsPosted eth source clock (gca_key, gca_private) servers entry s n p fits
        there posted in
    let m =
      make_device-IsMade eth source clock gca_key gca_private servers entry q.slots n q.files ea
        q.made in
    let (primary, starts) =
      made-starts draws eth source clock gca_key gca_private servers entry q.slots n q.files ea
        always pairs long u entries q.some_server fits m in
    let c = started (contents_of n gca_key m.public m.private m.raw m.now) servers primary true in
    let id : ea.short_id ≡ n = ap (λ (x : EquipmentAuthorization). x.short_id) m.authorized in
    let key : ea.public_key ≡ m.public =
      ap (λ (x : EquipmentAuthorization). x.public_key) m.authorized in
    let signed =
      authorized-verify eth source clock gca_key gca_private servers entry q.slots n q.files ea pair
        m in
    let (accepted, known) =
      authorize_equipment_new eth server ea ready.old ready.available
        (ap (λ k. verify eth k (signing_bytes ea) ea.signature) ready.owned ∙ signed)
        (ap (status server) id ∙ ready.fresh) ready.writable ready.file in
    (
      q.files,
      c,
      q.stored,
      starts,
      accepted,
      λ er slot_fits energy_fits.
          parse_report-static_send_report eth c er (authorize_equipment eth server ea).0 ea
            (subst (λ k. IsKeyPair eth k m.private) (sym key)
              (pairs m.public m.private m.generated).0)
            (ap (λ (k : ℕ). lookup k (authorize_equipment eth server ea).0.equipment) (sym id)
              ∙ known)
            fits slot_fits energy_fits,
    )
