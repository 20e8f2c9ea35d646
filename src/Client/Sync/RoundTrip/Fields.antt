-- ===== src/Client/Sync/RoundTrip/Fields.antt =====
-- client/reports.go: the fields of a response, read from its bytes.
use gca_backend.Base.{
  ℕ, ◌+◌, ◌-◌, ◌^◌, ◌<◌, ◌≡◌, refl, ap, sym, ◌∙◌, true, ◌||◌, List, [], ◌∷◌, ◌++◌, arith, length,
  take, drop, leb, All, length-append, append_assoc, take-append_self, drop-append,
}
use gca_backend.Base.Equality.{bytes_eq, bytes_eq_iff}
use gca_backend.Base.Bytes.{put_uint, uint, slice, ascii, length-put_uint, uint-put_uint}
use gca_backend.Base.Chunks.{concat, slice-concat}
use gca_backend.Base.Result.{ok}
use gca_backend.Glow.Signatures.{EthCrypto, PublicKey, Signature, verify}
use gca_backend.Server.AuthorizedServer.{AuthorizedServer, IsAuthorizedServer}
use gca_backend.Server.Migration.{serialize_servers}
use gca_backend.Client.Sync.{
  blank, check_response, check_orders, migration_bytes, new_gca_signature_of, signing_time_of,
  is_current, authority, check_servers, decode_response,
}
use gca_backend.Client.Sync.RoundTrip.Servers.{read_servers-serialize_servers}

-- The fields of a response, in order.
pub record Parts : Type 0 where
  pub key : PublicKey
  pub offset : ℕ
  pub bitfield : List ℕ
  pub new_gca : PublicKey
  pub new_short_id : ℕ
  pub servers : List AuthorizedServer
  pub gca_signature : Signature
  pub timestamp : ℕ
  pub signature : Signature

pub record IsParts (p : Parts) : Type 0 where
  pub key_long : length p.key ≡ 32
  pub offset_fits : p.offset < 2 ^ 32
  pub bitfield_long : length p.bitfield ≡ 504
  pub new_gca_long : length p.new_gca ≡ 32
  pub new_short_id_fits : p.new_short_id < 2 ^ 32
  pub servers_valid : All IsAuthorizedServer p.servers
  pub gca_signature_long : length p.gca_signature ≡ 64
  pub timestamp_fits : p.timestamp < 2 ^ 64
  pub signature_long : length p.signature ≡ 64

abbrev pub orders_part : Parts → List ℕ
orders_part p = p.new_gca ++ (put_uint 4 p.new_short_id ++ serialize_servers p.servers)

abbrev chunks : Parts → List (List ℕ)
chunks p =
    p.key
    ∷ put_uint 4 p.offset
    ∷ p.bitfield
    ∷ p.new_gca
    ∷ put_uint 4 p.new_short_id
    ∷ serialize_servers p.servers
    ∷ p.gca_signature
    ∷ put_uint 8 p.timestamp
    ∷ p.signature
    ∷ []

abbrev pub merged_chunks : Parts → List (List ℕ)
merged_chunks p =
    p.key
    ∷ put_uint 4 p.offset
    ∷ p.bitfield
    ∷ orders_part p
    ∷ p.gca_signature
    ∷ put_uint 8 p.timestamp
    ∷ p.signature
    ∷ []

unfoldable pub response : Parts → List ℕ
response p = concat (chunks p)

pub merged : (p : Parts) → response p ≡ concat (merged_chunks p)
unfolding response
merged p =
    let rest = p.gca_signature ++ (put_uint 8 p.timestamp ++ (p.signature ++ [])) in
    ap (λ t. p.key ++ (put_uint 4 p.offset ++ (p.bitfield ++ t)))
      (ap (λ t. p.new_gca ++ t)
          (sym (append_assoc (put_uint 4 p.new_short_id) (serialize_servers p.servers) rest))
        ∙ sym (
            append_assoc p.new_gca (put_uint 4 p.new_short_id ++ serialize_servers p.servers) rest))

module _ (p : Parts) (h : IsParts p) where
  pub length-response : length (response p) ≡ 712 + length (serialize_servers p.servers)
  unfolding response
  length-response = omega (
    arith,
    length-append {0},
    length-put_uint,
    h.key_long,
    h.bitfield_long,
    h.new_gca_long,
    h.gca_signature_long,
    h.signature_long,
  )

  key_read : slice 0 32 (response p) ≡ p.key
  unfolding response
  key_read = slice-concat (chunks p) 0 0 32 p.key refl refl (omega (arith, h.key_long))

  offset_read : slice 32 36 (response p) ≡ put_uint 4 p.offset
  unfolding response
  offset_read =
      slice-concat (chunks p) 1 32 36 _ refl (omega (arith, h.key_long))
        (omega (arith, length-put_uint))

  bitfield_read : slice 36 540 (response p) ≡ p.bitfield
  unfolding response
  bitfield_read =
      slice-concat (chunks p) 2 36 540 _ refl (omega (arith, h.key_long, length-put_uint))
        (omega (arith, h.bitfield_long))

  new_gca_read : slice 540 572 (response p) ≡ p.new_gca
  unfolding response
  new_gca_read =
      slice-concat (chunks p) 3 540 572 _ refl
        (omega (arith, h.key_long, length-put_uint, h.bitfield_long))
        (omega (arith, h.new_gca_long))

  new_short_id_read : slice 572 576 (response p) ≡ put_uint 4 p.new_short_id
  unfolding response
  new_short_id_read =
      slice-concat (chunks p) 4 572 576 _ refl
        (omega (arith, h.key_long, length-put_uint, h.bitfield_long, h.new_gca_long))
        (omega (arith, length-put_uint))

  servers_read : slice 576 (length (response p) - 136) (response p) ≡ serialize_servers p.servers
  servers_read =
      let size = length-response in
      unfold response in
      slice-concat (chunks p) 5 576 (length (response p) - 136) _ refl
        (omega (arith, h.key_long, length-put_uint, h.bitfield_long, h.new_gca_long)) (omega arith)

  gca_signature_read : new_gca_signature_of (response p) ≡ p.gca_signature
  gca_signature_read =
      let size = length-response in
      unfold response in
      slice-concat (chunks p) 6 (length (response p) - 136) (length (response p) - 72) _ refl
        (omega (arith, h.key_long, length-put_uint, h.bitfield_long, h.new_gca_long))
        (omega (arith, h.gca_signature_long))

  timestamp_read :
      slice (length (response p) - 72) (length (response p) - 64) (response p)
      ≡ put_uint 8 p.timestamp
  timestamp_read =
      let size = length-response in
      unfold response in
      slice-concat (chunks p) 7 (length (response p) - 72) (length (response p) - 64) _ refl
        (omega (
          arith, h.key_long, length-put_uint, h.bitfield_long, h.new_gca_long, h.gca_signature_long,
        ))
        (omega (arith, length-put_uint))

  orders_read : slice 540 (length (response p) - 136) (response p) ≡ orders_part p
  orders_read =
      let size = length-response in
      let long =
        length-append p.new_gca (put_uint 4 p.new_short_id ++ serialize_servers p.servers) in
      let long' = length-append (put_uint 4 p.new_short_id) (serialize_servers p.servers) in
      ap (slice 540 (length (response p) - 136)) (merged p)
      ∙ slice-concat (merged_chunks p) 3 540 (length (response p) - 136) (orders_part p) refl
          (omega (arith, h.key_long, length-put_uint, h.bitfield_long))
          (omega (arith, h.new_gca_long, length-put_uint))

  pub signing_time_read : signing_time_of (response p) ≡ p.timestamp
  signing_time_read = ap uint timestamp_read ∙ uint-put_uint 8 p.timestamp h.timestamp_fits

  pub check_orders-response :
      (eth : EthCrypto) (gca_key : PublicKey)
      → (bytes_eq p.new_gca blank
          || verify eth gca_key
              (ascii "EquipmentMigration" ++ (p.key ++ orders_part p))
              p.gca_signature)
        ≡ true
      → check_orders eth p.key gca_key (response p) ≡ ok tt
  unfolding check_orders
  check_orders-response eth gca_key permitted =
      let size = length-response in
      let a : leb 576 (length (response p)) ≡ true = ground arith in
      let b : leb 676 (length (response p)) ≡ true = ground arith in
      let c : bytes_eq (slice 0 32 (response p)) p.key ≡ true = (bytes_eq_iff _ _).1 key_read in
      let d : migration_bytes (response p)
          ≡ ascii "EquipmentMigration" ++ (p.key ++ orders_part p) =
        ap
          (λ t.
            ascii "EquipmentMigration" ++ (t ++ slice 540 (length (response p) - 136) (response p)))
          key_read
        ∙ ap (λ t. ascii "EquipmentMigration" ++ (p.key ++ t)) orders_read in
      rw (a, b, c, new_gca_read, d, gca_signature_read, permitted) refl

  pub decode_response-response :
      (eth : EthCrypto) (gca_key : PublicKey)
      → check_servers eth (authority p.new_gca gca_key) p.servers ≡ true
      → decode_response eth gca_key (response p)
        ≡ ok (record {
          timeslot_offset = p.offset;
          bitfield = p.bitfield;
          new_gca = p.new_gca;
          new_short_id = p.new_short_id;
          gca_servers = p.servers;
        })
  unfolding decode_response
  decode_response-response eth gca_key signed =
      rw
        (
          servers_read,
          read_servers-serialize_servers (length (serialize_servers p.servers)) p.servers
              h.servers_valid (omega arith),
          new_gca_read,
          signed,
          offset_read,
          uint-put_uint 4 p.offset h.offset_fits,
          bitfield_read,
          new_short_id_read,
          uint-put_uint 4 p.new_short_id h.new_short_id_fits,
        )
        refl

  pub check_response-response :
      (eth : EthCrypto) (gcas_key : PublicKey) (now : ℕ) (body : List ℕ)
      → response p ≡ body ++ p.signature
      → is_current now p.timestamp ≡ true
      → verify eth gcas_key body p.signature ≡ true
      → check_response eth gcas_key now (response p) ≡ ok tt
  unfolding check_response
  check_response-response eth gcas_key now body split current signed =
      let size = length-response in
      let parts = ap length split ∙ length-append body p.signature in
      let a : leb 72 (length (response p)) ≡ true = ground arith in
      let front : take (length (response p) - 64) (response p) ≡ body =
        ap (take (length (response p) - 64)) split
        ∙ take-append_self _ body p.signature (omega (arith, h.signature_long)) in
      let none_left : length (response p) - 64 - length body ≡ 0 =
        omega (arith, h.signature_long) in
      let back : drop (length (response p) - 64) (response p) ≡ p.signature =
        ap (drop (length (response p) - 64)) split
        ∙ drop-append (length (response p) - 64) body p.signature (omega (arith, h.signature_long))
        ∙ ap (λ (k : ℕ). drop k p.signature) none_left in
      rw (a, signing_time_read, current, front, back, signed) refl
