-- ===== src/Client/Sync.antt =====
-- client/reports.go: `staticServerSync`, how the device checks and decodes the server's answer.
pub mod Authentic
pub mod RoundTrip
use gca_backend.Base.{
  ℕ, zero, suc, ◌+◌, ◌-◌, ◌*◌, ◌%◌, ◌^◌, Bool, true, false, ◌&&◌, ◌||◌, not, List, [], ◌∷◌, ◌++◌,
  length, take, drop, replicate, ltb, leb, ◌==◌, if◌then◌else◌,
}
use gca_backend.Base.Equality.{bytes_eq, ℕ-Eq}
use gca_backend.Base.Bytes.{uint, slice, ascii}
use gca_backend.Base.Result.{
  Result, ok, err, panic, io_failure, out_of_time, bad_signature, wrong_equipment, bad_new_gca,
  bad_server_list, bad_server, ◌>>=◌, ◌>>◌, guard, check,
}
use gca_backend.Glow.Signatures.{EthCrypto, PublicKey, verify}
use gca_backend.Server.AuthorizedServer.{AuthorizedServer, signing_bytes}

abbrev pub blank : PublicKey
blank = replicate 32 0

-- The five results of a synchronization without an error.
pub record SyncResult : Type 0 where
  pub timeslot_offset : ℕ
  pub bitfield : List ℕ
  pub new_gca : PublicKey
  pub new_short_id : ℕ
  pub gca_servers : List AuthorizedServer

abbrev take_response : ℕ → List ℕ → Result (List ℕ)
take_response resp_len rest =
    if leb resp_len (length rest) then ok (take resp_len rest) else err io_failure

-- What is read from the connection: two bytes of length, and as many bytes as they say.
unfoldable pub read_response : List ℕ → Result (List ℕ)
read_response stream =
    if leb 2 (length stream)
    then take_response (uint (take 2 stream)) (drop 2 stream)
    else err io_failure

-- The signing time is at most a day away, in uint64 arithmetic.
abbrev pub is_current : ℕ → ℕ → Bool
is_current now signing_time = not (
    ltb ((now + 24 * 3600) % 2 ^ 64) signing_time
    || ltb signing_time ((now + 2 ^ 64 - 24 * 3600) % 2 ^ 64))

-- The end of the response: the signature of the GCA, the time, and the signature of the server.
abbrev pub signing_time_of : List ℕ → ℕ
signing_time_of resp = uint (slice (length resp - 72) (length resp - 64) resp)

abbrev pub new_gca_signature_of : List ℕ → List ℕ
new_gca_signature_of resp = slice (length resp - 136) (length resp - 72) resp

unfoldable pub check_response : EthCrypto → PublicKey → ℕ → List ℕ → Result (Unit {0})
check_response eth gcas_key now resp = do
  check (leb 72 (length resp))
  guard (is_current now (signing_time_of resp)) out_of_time
  guard (verify eth gcas_key (take (length resp - 64) resp) (drop (length resp - 64) resp))
      bad_signature

abbrev pub migration_bytes : List ℕ → List ℕ
migration_bytes resp =
    ascii "EquipmentMigration" ++ (slice 0 32 resp ++ slice 540 (length resp - 136) resp)

-- The constant fields: the device's own key, and the GCA's signature where a new GCA is named.
unfoldable pub check_orders : EthCrypto → PublicKey → PublicKey → List ℕ → Result (Unit {0})
check_orders eth pub_key gca_key resp = do
  check (leb 576 (length resp))
  guard (bytes_eq (slice 0 32 resp) pub_key) wrong_equipment
  check (leb 676 (length resp))
  guard
      (bytes_eq (slice 540 572 resp) blank
        || verify eth gca_key (migration_bytes resp) (new_gca_signature_of resp))
      bad_new_gca

-- One server from the front of the list's bytes, whose location has `n` bytes.
unfoldable pub server_at : ℕ → List ℕ → AuthorizedServer
server_at n b = record {
  public_key = slice 0 32 b;
  banned = not (uint (slice 32 33 b) == 0);
  location = slice 34 (34 + n) b;
  http_port = uint (slice (34 + n) (36 + n) b);
  tcp_port = uint (slice (36 + n) (38 + n) b);
  udp_port = uint (slice (38 + n) (40 + n) b);
  gca_authorization = slice (40 + n) (104 + n) b;
}

unfoldable pub location_len : List ℕ → ℕ
location_len b = uint (slice 33 34 b)

-- The loop of the servers; every server takes a byte at least, so the length is enough fuel.
unfoldable pub read_servers : ℕ → List ℕ → Result (List AuthorizedServer)
read_servers fuel [] = ok []
read_servers zero (x ∷ b) = panic
read_servers (suc fuel) (x ∷ b) =
    let rest = read_servers fuel (drop (104 + location_len (x ∷ b)) (x ∷ b)) in
    do
      guard (leb 34 (length (x ∷ b))) bad_server_list
      guard (leb (34 + location_len (x ∷ b) + 70) (length (x ∷ b))) bad_server_list
      servers ← rest
      ok (server_at (location_len (x ∷ b)) (x ∷ b) ∷ servers)

-- Every server is signed by the new GCA if there is one, and by the current one if not.
abbrev pub authority : PublicKey → PublicKey → PublicKey
authority new_gca gca_key = if bytes_eq new_gca blank then gca_key else new_gca

unfoldable pub check_servers : EthCrypto → PublicKey → List AuthorizedServer → Bool
check_servers eth key [] = true
check_servers eth key (s ∷ servers) =
    verify eth key (signing_bytes s) s.gca_authorization && check_servers eth key servers

unfoldable pub decode_response : EthCrypto → PublicKey → List ℕ → Result SyncResult
decode_response eth gca_key resp =
    let region = slice 576 (length resp - 136) resp in
    do
      servers ← read_servers (length region) region
      guard (check_servers eth (authority (slice 540 572 resp) gca_key) servers) bad_server
      ok (record {
        timeslot_offset = uint (slice 32 36 resp);
        bitfield = slice 36 540 resp;
        new_gca = slice 540 572 resp;
        new_short_id = uint (slice 572 576 resp);
        gca_servers = servers;
      })

-- `staticServerSync` of the device `pub_key` at time `now`, behind the connection.
unfoldable pub static_server_sync :
    EthCrypto → PublicKey → PublicKey → PublicKey → ℕ → List ℕ → Result SyncResult
static_server_sync eth pub_key gcas_key gca_key now stream = do
  resp ← read_response stream
  check_response eth gcas_key now resp
  check_orders eth pub_key gca_key resp
  decode_response eth gca_key resp
