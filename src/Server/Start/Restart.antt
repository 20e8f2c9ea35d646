-- ===== src/Server/Start/Restart.antt =====
-- server/server.go: a server that is started again is the server that it was.
use gca_backend.Base.{
  ℕ, ◌≡◌, refl, sym, ap, subst, ◌∙◌, true, Option, none, some, List, [], arith, All, length,
  replicate,
}
use gca_backend.Base.Bytes.{copy-same}
use gca_backend.Base.Result.{ok, ◌>>=◌}
use gca_backend.Glow.Signatures.{EthCrypto, PublicKey, PrivateKey, generate_key_pair}
use gca_backend.Glow.Authorization.{EquipmentAuthorization}
use gca_backend.Glow.Authorization.Equality.{IsRegular}
use gca_backend.Server.State.{GcaServer, Disk}
use gca_backend.Server.Registration.{
  GcaRegistration, register_gca, load_gca_temp_key, load_gca_pubkey,
}
use gca_backend.Server.Equipment.{load_equipment}
use gca_backend.Server.Equipment.Restart.{authorize_all, load_equipment-authorize_all}
use gca_backend.Server.Weeks.{load_equipment_history}
use gca_backend.Server.Reports.{load_equipment_reports}
use gca_backend.Server.Start.{first_week, new_gca_server}
use gca_backend.Server.Start.Files.{
  fresh_disk, disk_with, loaded_keys, new_gca_server-fresh, authorize_all-disk,
  load_server_keys-disk, load_equipment_history-empty, load_equipment_reports-empty,
}

registered : GcaServer → PublicKey → GcaServer
registered s key = record s {
  disk = record s.disk { gca_pub_key = some key };
  gca_pubkey = key;
  gca_pubkey_available = true;
}

register_gca-registered :
    (eth : EthCrypto) (s : GcaServer) (gr : GcaRegistration)
    → (register_gca eth s gr).1 ≡ ok tt
    → (register_gca eth s gr).0 ≡ registered s gr.gca_key
unfolding register_gca registered
register_gca-registered eth s gr e = ground arith

-- The loaders before the equipment find the keys and the GCA.
load_front :
    (eth : EthCrypto) (source : List (Option PrivateKey)) (temp_key public gca_key : PublicKey)
    (private : PrivateKey) (authorizations : Option (List ℕ))
    → length temp_key ≡ 32
    → length public ≡ 32
    → length private ≡ 32
    → length gca_key ≡ 32
    → let d = disk_with temp_key public private (some gca_key) authorizations in
      new_gca_server eth source true none d ≡ (do
        s3 ← load_equipment eth (record (loaded_keys temp_key public private d) {
          gca_pubkey = gca_key;
          gca_pubkey_available = true;
        })
        s4 ← load_equipment_history s3
        load_equipment_reports eth s4 >>= first_week none)
unfolding new_gca_server load_gca_temp_key load_gca_pubkey
load_front eth source temp_key public gca_key private authorizations temp_long public_long
      private_long gca_long =
    let d = disk_with temp_key public private (some gca_key) authorizations in
    rw
      (
        load_server_keys-disk eth source public private d public_long private_long refl,
        copy-same (replicate 32 0) temp_key temp_long,
        copy-same (replicate 32 0) gca_key gca_long,
      )
      refl

restarted :
    (eth : EthCrypto) (source : List (Option PrivateKey)) (temp_key public gca_key : PublicKey)
    (private : PrivateKey) (s : GcaServer) (authorizations : Option (List ℕ))
    → length temp_key ≡ 32
    → length public ≡ 32
    → length private ≡ 32
    → length gca_key ≡ 32
    → s.disk ≡ disk_with temp_key public private (some gca_key) authorizations
    → load_equipment eth (record (loaded_keys temp_key public private s.disk) {
      gca_pubkey = gca_key;
      gca_pubkey_available = true;
    })
      ≡ ok s
    → new_gca_server eth source true none s.disk ≡ ok s
restarted eth source temp_key public gca_key private s authorizations temp_long public_long
      private_long gca_long disk loaded =
    let d = disk_with temp_key public private (some gca_key) authorizations in
    let same : load_equipment eth (record (loaded_keys temp_key public private d) {
      gca_pubkey = gca_key;
      gca_pubkey_available = true;
    })
        ≡ ok s =
      ap
        (λ (x : Disk). load_equipment eth (record (loaded_keys temp_key public private x) {
          gca_pubkey = gca_key;
          gca_pubkey_available = true;
        }))
        (sym disk)
      ∙ loaded in
    let history = load_equipment_history-empty s (ap (λ (x : Disk). x.device_stats) disk) in
    let reports = load_equipment_reports-empty eth s (ap (λ (x : Disk). x.reports) disk) in
    ap (new_gca_server eth source true none) disk
    ∙ load_front eth source temp_key public gca_key private authorizations temp_long public_long
        private_long gca_long
    ∙ rw same (rw history (rw reports refl))

-- Start a new server with a temporary key, let a GCA register, and let any authorizations arrive,
-- good or bad, conflicting or not. A start from the files that this leaves gives the running
-- server again: its keys, its GCA, the equipment, the bans, the blank arrays and the recent
-- authorizations. All keys have 32 bytes, the coordinates are neither NaN nor the negative zero,
-- and at both starts the credentials for WattTime are there and WattTime does not answer.
pub new_gca_server-restart :
    (eth : EthCrypto) (source later : List (Option PrivateKey)) (temp_key public : PublicKey)
    (private : PrivateKey) (s1 : GcaServer) (gr : GcaRegistration)
    (eas : List EquipmentAuthorization)
    → length temp_key ≡ 32
    → generate_key_pair eth source ≡ ok (public, private)
    → length public ≡ 32
    → length private ≡ 32
    → new_gca_server eth source true none (fresh_disk temp_key) ≡ ok s1
    → length gr.gca_key ≡ 32
    → (register_gca eth s1 gr).1 ≡ ok tt
    → All IsRegular eas
    → let s = authorize_all eth (register_gca eth s1 gr).0 eas in
      new_gca_server eth later true none s.disk ≡ ok s
unfolding registered
new_gca_server-restart eth source later temp_key public private s1 gr eas temp_long made public_long
      private_long started gca_long done regular =
    let d1 = disk_with temp_key public private none (some []) in
    let first : loaded_keys temp_key public private d1 ≡ s1 =
      ground (arith, new_gca_server-fresh eth source temp_key public private temp_long made) in
    let s2 = registered (loaded_keys temp_key public private d1) gr.gca_key in
    let second : s2 ≡ (register_gca eth s1 gr).0 =
      ap (λ (x : GcaServer). registered x gr.gca_key) first
      ∙ sym (register_gca-registered eth s1 gr done) in
    subst
      (λ t.
        new_gca_server eth later true none (authorize_all eth t eas).disk
        ≡ ok (authorize_all eth t eas))
      second
      (restarted eth later temp_key public gr.gca_key private (authorize_all eth s2 eas)
        (authorize_all eth s2 eas).disk.authorizations temp_long public_long private_long gca_long
        (authorize_all-disk eth s2 eas) (load_equipment-authorize_all eth s2 eas refl refl regular))
