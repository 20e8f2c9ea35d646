-- ===== src/Client/Sync/Authentic.antt =====
-- client/reports.go: what the device knows of a synchronization that it accepts.
use gca_backend.Base.{
  ℕ, ◌-◌, ◌≤◌, ◌≡◌, refl, ◌≢◌, Bool, true, false, ◌||◌, List, [], ◌∷◌, arith, length, take, drop,
  leb, All,
}
use gca_backend.Base.Equality.{bytes_eq, bytes_eq_iff}
use gca_backend.Base.Bytes.{slice}
use gca_backend.Base.Result.{ok, guard, check, bad_server, >>=-eq-ok}
use gca_backend.Glow.Signatures.{EthCrypto, PublicKey, verify}
use gca_backend.Server.AuthorizedServer.{AuthorizedServer, signing_bytes}
use gca_backend.Client.Sync.{
  SyncResult, blank, read_response, check_response, check_orders, migration_bytes,
  new_gca_signature_of, authority, check_servers, decode_response, static_server_sync, is_current,
  signing_time_of, read_servers,
}

-- The signature on the server's entry is by this key.
abbrev pub IsSignedBy : EthCrypto → PublicKey → AuthorizedServer → Type 0
IsSignedBy eth key s = verify eth key (signing_bytes s) s.gca_authorization ≡ true

check_servers-All :
    (eth : EthCrypto) (key : PublicKey) (servers : List AuthorizedServer)
    → check_servers eth key servers ≡ true
    → All (IsSignedBy eth key) servers
unfolding check_servers
check_servers-All eth key [] e = tt
check_servers-All eth key (s ∷ servers) e =
    let both = e in (ground arith, check_servers-All eth key servers (ground arith))

guard-ok : (b : Bool) (e : _) (u : Unit {0}) → guard b e ≡ ok u → b ≡ true
guard-ok true e u h = refl
guard-ok false e u h = ground arith

check-ok : (b : Bool) (u : Unit {0}) → check b ≡ ok u → b ≡ true
check-ok true u h = refl
check-ok false u h = ground arith

-- What an accepted response has gone through.
pub record IsAuthentic (eth : EthCrypto) (pub_key gcas_key gca_key : PublicKey) (now : ℕ)
    (resp : List ℕ) (r : SyncResult) : Type 0 where
  pub long : 676 ≤ length resp
  pub signed_by_server :
      verify eth gcas_key (take (length resp - 64) resp) (drop (length resp - 64) resp) ≡ true
  pub current : is_current now (signing_time_of resp) ≡ true
  pub for_device : slice 0 32 resp ≡ pub_key
  pub new_gca_signed :
      r.new_gca ≢ blank
      → verify eth gca_key (migration_bytes resp) (new_gca_signature_of resp) ≡ true
  pub servers_signed : All (IsSignedBy eth (authority r.new_gca gca_key)) r.gca_servers
  pub new_gca_read : r.new_gca ≡ slice 540 572 resp

check_response_cases :
    (eth : EthCrypto) (gcas_key : PublicKey) (now : ℕ) (resp : List ℕ) (u : Unit {0})
    → check_response eth gcas_key now resp ≡ ok u
    → (is_current now (signing_time_of resp) ≡ true)
      × (verify eth gcas_key (take (length resp - 64) resp) (drop (length resp - 64) resp) ≡ true)
unfolding check_response
check_response_cases eth gcas_key now resp u e =
    let (a, long, rest) = >>=-eq-ok (check (leb 72 (length resp))) _ e in
    let (b, current, last) = >>=-eq-ok (guard (is_current now (signing_time_of resp)) _) _ rest in
    (guard-ok _ _ b current, guard-ok _ _ u last)

check_orders_cases :
    (eth : EthCrypto) (pub_key gca_key : PublicKey) (resp : List ℕ) (u : Unit {0})
    → check_orders eth pub_key gca_key resp ≡ ok u
    → (bytes_eq (slice 0 32 resp) pub_key ≡ true)
      × (leb 676 (length resp) ≡ true)
      × ((bytes_eq (slice 540 572 resp) blank
            || verify eth gca_key (migration_bytes resp) (new_gca_signature_of resp))
          ≡ true)
unfolding check_orders
check_orders_cases eth pub_key gca_key resp u e =
    let (a, long, rest) = >>=-eq-ok (check (leb 576 (length resp))) _ e in
    let (b, own, rest') = >>=-eq-ok (guard (bytes_eq (slice 0 32 resp) pub_key) _) _ rest in
    let (c, longer, last) = >>=-eq-ok (check (leb 676 (length resp))) _ rest' in
    (guard-ok _ _ b own, check-ok _ c longer, guard-ok _ _ u last)

decode_response_cases :
    (eth : EthCrypto) (gca_key : PublicKey) (resp : List ℕ) (r : SyncResult)
    → decode_response eth gca_key resp ≡ ok r
    → (r.new_gca ≡ slice 540 572 resp)
      × (check_servers eth (authority r.new_gca gca_key) r.gca_servers ≡ true)
unfolding decode_response
decode_response_cases eth gca_key resp r e =
    let region = slice 576 (length resp - 136) resp in
    let (servers, read, rest) = >>=-eq-ok (read_servers (length region) region) _ e in
    let key = authority (slice 540 572 resp) gca_key in
    let (_, signed, last) = >>=-eq-ok (guard (check_servers eth key servers) bad_server) _ rest in
    let valid = guard-ok (check_servers eth key servers) bad_server _ signed in
    (ground (arith, last), ground (arith, last, valid))

-- Whatever bytes arrive, a synchronization that the device accepts is about the device, signed by the
-- server that it asked and not out of time; it names a new GCA only under the signature of the current
-- one, and every server in it is signed by the current GCA, or by the new one if it names one.
pub static_server_sync-IsAuthentic :
    (eth : EthCrypto) (pub_key gcas_key gca_key : PublicKey) (now : ℕ) (stream : List ℕ)
    (r : SyncResult)
    → static_server_sync eth pub_key gcas_key gca_key now stream ≡ ok r
    → (resp : List ℕ) × (read_response stream ≡ ok resp)
      × IsAuthentic eth pub_key gcas_key gca_key now resp r
unfolding static_server_sync
static_server_sync-IsAuthentic eth pub_key gcas_key gca_key now stream r e =
    let (resp, read, rest) = >>=-eq-ok (read_response stream) _ e in
    let (a, checked, rest') = >>=-eq-ok (check_response eth gcas_key now resp) _ rest in
    let (b, ordered, decoded) = >>=-eq-ok (check_orders eth pub_key gca_key resp) _ rest' in
    let (current, signed) = check_response_cases eth gcas_key now resp a checked in
    let (own, long, permitted) = check_orders_cases eth pub_key gca_key resp b ordered in
    let (new_gca, servers) = decode_response_cases eth gca_key resp r decoded in
    (
      resp,
      read,
      record {
        long = ground arith;
        signed_by_server = signed;
        current = current;
        for_device = (bytes_eq_iff (slice 0 32 resp) pub_key).0 own;
        new_gca_signed =
            λ (named : r.new_gca ≢ blank). ground (arith, bytes_eq_iff (slice 540 572 resp) blank);
        servers_signed = check_servers-All eth _ r.gca_servers servers;
        new_gca_read = new_gca;
      },
    )
