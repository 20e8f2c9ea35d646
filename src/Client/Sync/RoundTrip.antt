-- ===== src/Client/Sync/RoundTrip.antt =====
-- client/reports.go and server/sync_listener_tcp.go: the device decodes what the server wrote.
pub mod Servers
pub mod Fields
pub mod Orders
use gca_backend.Base.{
  ℕ, zero, suc, ◌+◌, ◌-◌, ◌%◌, ◌^◌, ◌≤◌, ◌<◌, ◌≡◌, refl, ap, sym, ◌∙◌, Option, none, some, List, [],
  ◌∷◌, Bool, ◌++◌, ◌||◌, arith, length, take, drop, true, leb, All, replicate, length-append,
  append_assoc, append-nil, drop-append, take-append_self, length-take, take_all,
}
use gca_backend.Base.Equality.{ℕ-Eq, bytes-Eq, bytes_eq}
use gca_backend.Base.Map.{lookup}
use gca_backend.Base.Bytes.{put_uint, uint, ascii, length-put_uint, uint-put_uint}
use gca_backend.Base.Chunks.{concat, concat-append}
use gca_backend.Base.Result.{Result, ok, err, panic, ◌>>=◌, ◌>>◌}
use gca_backend.Glow.Signatures.{
  EthCrypto, PublicKey, Signature, IsKeyPair, sign, verify, sign_lem, verify_lem,
}
use gca_backend.Glow.Report.{EquipmentReport}
use gca_backend.Glow.Authorization.{EquipmentAuthorization}
use gca_backend.Server.AuthorizedServer.{AuthorizedServer, IsAuthorizedServer}
use gca_backend.Server.Migration
use gca_backend.Server.Migration.{EquipmentMigration, serialize_servers}
use gca_backend.Server.State.{GcaServer, Array}
use gca_backend.Server.Sync.{bitfield_from, orders, signed_part, framed, answer, handle_sync_conn}
use gca_backend.Server.Sync.Bits.{length-bitfield_from}
use gca_backend.Client.Sync.{
  SyncResult, blank, is_current, authority, check_servers, read_response, static_server_sync,
  check_response, check_orders, decode_response,
}
use gca_backend.Client.Sync.RoundTrip.Fields.{
  Parts, IsParts, orders_part, merged_chunks, response, length-response, merged,
  check_orders-response, decode_response-response, check_response-response,
}
use gca_backend.Client.Sync.RoundTrip.Orders.{
  servers_of, new_gca_of, new_short_id_of, gca_signature_of, IsOrder?, parts_of, response_lem,
  permitted,
}

read_response-framed :
    (resp : List ℕ) → length resp < 2 ^ 16 → read_response (framed resp) ≡ ok resp
unfolding read_response framed
read_response-framed resp h =
    let n : ℕ = length resp % 2 ^ 16 in
    let small : n ≡ length resp = omega arith in
    let size = length-append (put_uint 2 n) resp in
    let two = length-put_uint 2 n in
    let zero_left : 2 - length (put_uint 2 n) ≡ 0 = omega arith in
    let enough : leb 2 (length (put_uint 2 n ++ resp)) ≡ true = ground arith in
    let all : leb (length resp) (length resp) ≡ true = ground arith in
    let back : drop 2 (put_uint 2 n ++ resp) ≡ resp =
      drop-append 2 (put_uint 2 n) resp (omega arith) ∙ ap (λ (k : ℕ). drop k resp) zero_left in
    rw
      (
        enough,
        take-append_self 2 (put_uint 2 n) resp two,
        uint-put_uint 2 n (omega arith),
        back,
        small,
        all,
        take_all (length resp) resp (omega arith),
      )
      refl

-- A device that the server knows, the order for it if there is one, and servers that the GCA, or the
-- new GCA of the order, signed.
pub record IsServed (eth : EthCrypto) (s : GcaServer) (id : ℕ) (gcas_key gca_key : PublicKey)
    (m : Option EquipmentMigration) : Type 0 where
  pub ea : EquipmentAuthorization
  pub reports : Array EquipmentReport
  pub known_equipment : lookup id s.equipment ≡ some ea
  pub known_reports : lookup id s.equipment_reports ≡ some reports
  pub known_order : lookup ea.public_key s.equipment_migrations ≡ m
  pub order_valid : IsOrder? eth gca_key ea.public_key m
  pub key_long : length ea.public_key ≡ 32
  pub offset_fits : s.equipment_reports_offset < 2 ^ 32
  pub servers_valid : All IsAuthorizedServer (servers_of s m)
  pub servers_signed : check_servers eth (authority (new_gca_of m) gca_key) (servers_of s m) ≡ true
  pub servers_fit : 712 + length (serialize_servers (servers_of s m)) < 2 ^ 16
  pub key_pair : IsKeyPair eth gcas_key s.static_private_key

module _ {eth : EthCrypto} {s : GcaServer} {id : ℕ} {gcas_key gca_key : PublicKey}
    {m : Option EquipmentMigration} where
  parts_of-IsParts :
      (h : IsServed eth s id gcas_key gca_key m) (timestamp : ℕ) (sig : Signature)
      → timestamp < 2 ^ 64
      → length sig ≡ 64
      → IsParts (parts_of s h.ea h.reports m timestamp sig)
  parts_of-IsParts h timestamp sig fits long = record {
    key_long = h.key_long;
    offset_fits = h.offset_fits;
    bitfield_long = length-bitfield_from 504 0 h.reports;
    new_gca_long = gca_long m h.order_valid;
    new_short_id_fits = id_fits m h.order_valid;
    servers_valid = h.servers_valid;
    gca_signature_long = sig_long m h.order_valid;
    timestamp_fits = fits;
    signature_long = long;
  }
    where
      gca_long :
          (m : Option EquipmentMigration)
          → IsOrder? eth gca_key h.ea.public_key m
          → length (new_gca_of m) ≡ 32
      gca_long none o = refl
      gca_long (some em) o = o.new_gca_long

      id_fits :
          (m : Option EquipmentMigration)
          → IsOrder? eth gca_key h.ea.public_key m
          → new_short_id_of m < 2 ^ 32
      id_fits none o = omega arith
      id_fits (some em) o = o.new_short_id_fits

      sig_long :
          (m : Option EquipmentMigration)
          → IsOrder? eth gca_key h.ea.public_key m
          → length (gca_signature_of m) ≡ 64
      sig_long none o = refl
      sig_long (some em) o = o.signature_long

  sync_response :
      (h : IsServed eth s id gcas_key gca_key m) (timestamp now : ℕ) (sig : Signature)
      → timestamp < 2 ^ 64
      → is_current now timestamp ≡ true
      → length sig ≡ 64
      → verify eth gcas_key (signed_part s h.ea h.reports timestamp) sig ≡ true
      → static_server_sync eth h.ea.public_key gcas_key gca_key now
          (framed (signed_part s h.ea h.reports timestamp ++ sig))
        ≡ ok (record {
          timeslot_offset = s.equipment_reports_offset;
          bitfield = bitfield_from 504 0 h.reports;
          new_gca = new_gca_of m;
          new_short_id = new_short_id_of m;
          gca_servers = servers_of s m;
        })
  unfolding static_server_sync
  sync_response h timestamp now sig fits current long signed =
      let p = parts_of s h.ea h.reports m timestamp sig in
      let v = parts_of-IsParts h timestamp sig fits long in
      let split =
        response_lem eth gca_key s h.ea h.reports timestamp sig h.key_long m h.known_order
          h.order_valid in
      let size = ap length (sym split) ∙ length-response p v in
      let read =
        read_response-framed (signed_part s h.ea h.reports timestamp ++ sig)
          (omega (arith, h.servers_fit)) in
      let checked =
        check_response-response p v eth gcas_key now (signed_part s h.ea h.reports timestamp) split
          current signed in
      let ordered =
        check_orders-response p v eth gca_key
          (permitted eth gca_key s h.ea h.reports timestamp sig h.key_long m h.order_valid) in
      let decoded = decode_response-response p v eth gca_key h.servers_signed in
      rw (read, ← split, checked, ordered) decoded

  handle_lem :
      (h : IsServed eth s id gcas_key gca_key m) (timestamp : ℕ) (sig : Signature)
      → sign eth (signed_part s h.ea h.reports timestamp) s.static_private_key ≡ ok sig
      → handle_sync_conn eth s id timestamp
        ≡ ok (framed (signed_part s h.ea h.reports timestamp ++ sig))
  unfolding handle_sync_conn framed answer put_uint
  handle_lem h timestamp sig signed =
      rw (h.known_reports, h.known_equipment, handle_sync_conn, signed, answer) refl

  -- The device accepts what an honest server answers, if the clocks agree within a day, and decodes
  -- from it exactly the server's offset, the bitfield of its reports, and the order and the servers that
  -- the server holds for it.
  pub static_server_sync-handle_sync_conn :
      (h : IsServed eth s id gcas_key gca_key m) (timestamp now : ℕ)
      → timestamp < 2 ^ 64
      → is_current now timestamp ≡ true
      → (stream : List ℕ) × (handle_sync_conn eth s id timestamp ≡ ok stream)
        × (static_server_sync eth h.ea.public_key gcas_key gca_key now stream
            ≡ ok (record {
              timeslot_offset = s.equipment_reports_offset;
              bitfield = bitfield_from 504 0 h.reports;
              new_gca = new_gca_of m;
              new_short_id = new_short_id_of m;
              gca_servers = servers_of s m;
            }))
  static_server_sync-handle_sync_conn h timestamp now fits current =
      let body = signed_part s h.ea h.reports timestamp in
      let hash = eth.keccak256 body in
      let sig = take 64 (h.key_pair.signature_of hash) in
      let long : length sig ≡ 64 =
        omega (arith, length-take 64 (h.key_pair.signature_of hash), h.key_pair.long hash) in
      (
        framed (body ++ sig),
        handle_lem h timestamp sig (sign_lem h.key_pair body),
        sync_response h timestamp now sig fits current long (verify_lem h.key_pair body),
      )
