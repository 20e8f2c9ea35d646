-- ===== src/Server/Registration.antt =====
-- server/api_server_gca_auth.go, and the loading of keys in server/server.go: the server belongs to
-- the GCA that registers first, with a signature of the temporary key.
pub mod Once
use gca_backend.Base.{
  ℕ, ◌≡◌, Bool, true, false, Option, none, some, List, [], ◌∷◌, ◌++◌, take, drop, length, leb,
  replicate, if◌then◌else◌,
}
use gca_backend.Base.Bytes.{ascii, copy}
use gca_backend.Base.Result.{
  Result, ok, err, panic, bad_signature, already_registered, io_failure, missing_file, check, ◌>>=◌,
  ◌>>◌,
}
use gca_backend.Glow.Signatures.{
  EthCrypto, PublicKey, PrivateKey, Signature, verify, generate_key_pair,
}
use gca_backend.Server.State.{GcaServer, Disk}
use gca_backend.Server.Http.{Request, Method, get, post, other, Response, respond}

pub record GcaRegistration : Type 0 where
  pub gca_key : PublicKey
  pub signature : Signature

unfoldable pub signing_bytes : GcaRegistration → List ℕ
signing_bytes gr = ascii "GCARegistration" ++ gr.gca_key

-- `ioutil.WriteFile` creates the file or truncates it.
unfoldable pub save_gca_key : GcaServer → GcaRegistration → GcaServer × Result (Unit {0})
save_gca_key s gr =
    if s.disk.writable
    then (
      record s {
        disk = record s.disk { gca_pub_key = some gr.gca_key };
        gca_pubkey = gr.gca_key;
        gca_pubkey_available = true;
      },
      ok tt,
    )
    else (s, err io_failure)

unfoldable pub register_gca :
    EthCrypto → GcaServer → GcaRegistration → GcaServer × Result (Unit {0})
unfolding save_gca_key
register_gca eth s gr =
    if s.gca_pubkey_available
    then (s, err already_registered)
    else if verify eth s.gca_temp_key (signing_bytes gr) gr.signature
    then save_gca_key s gr
    else (s, err bad_signature)

status_of : Result (Unit {0}) → ℕ
status_of (ok _) = 200
status_of (err _) = 500
status_of panic = 500

decoded_registration : EthCrypto → GcaServer → Option GcaRegistration → GcaServer × Response
decoded_registration eth s none = (s, respond 400)
decoded_registration eth s (some gr) =
    let (s', result) = register_gca eth s gr in (s', respond (status_of result))

unfoldable pub register_gca_handler :
    EthCrypto → GcaServer → Request GcaRegistration → GcaServer × Response
unfolding decoded_registration status_of
register_gca_handler eth s request = elim request.method [
  | post ↦ decoded_registration eth s request.body
  | _ ↦ (s, respond 405)
]

-- `loadGCAPubkey`; without the file the server waits for a registration.
unfoldable pub load_gca_pubkey : GcaServer → GcaServer
load_gca_pubkey s = elim s.disk.gca_pub_key [
  | none ↦ s
  | some bytes ↦ record s { gca_pubkey = copy s.gca_pubkey bytes; gca_pubkey_available = true }
]

unfoldable pub load_gca_temp_key : GcaServer → Result GcaServer
load_gca_temp_key s = elim s.disk.gca_temp_pub_key [
  | none ↦ err missing_file
  | some bytes ↦ ok (record s { gca_temp_key = copy s.gca_temp_key bytes })
]

-- 96 bytes, of which the last 32 stay zero.
abbrev pub keys_file : PublicKey → PrivateKey → List ℕ
keys_file public private = public ++ (private ++ replicate 32 0)

with_keys : GcaServer → PublicKey → PrivateKey → GcaServer
with_keys s public private = record s { static_public_key = public; static_private_key = private }

create_keys : GcaServer → PublicKey × PrivateKey → Result GcaServer
create_keys s (public, private) =
    if s.disk.writable
    then ok (
        with_keys
          (record s { disk = record s.disk { server_keys = some (keys_file public private) } })
          public private)
    else err io_failure

-- `loadGCAServerKeys`: the keys are made on the first start. Go panics on a file under 32 bytes.
unfoldable pub load_server_keys :
    EthCrypto → List (Option PrivateKey) → GcaServer → Result GcaServer
unfolding with_keys create_keys
load_server_keys eth source s = elim s.disk.server_keys [
  | none ↦ do keys ← generate_key_pair eth source; create_keys s keys
  | some bytes ↦ do
    check (leb 32 (length bytes))
    ok (with_keys s (copy (replicate 32 0) (take 32 bytes)) (copy (replicate 32 0) (drop 32 bytes)))
]
