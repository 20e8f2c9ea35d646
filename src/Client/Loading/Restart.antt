-- ===== src/Client/Loading/Restart.antt =====
-- client/client.go: what a device begins with, from the files that it was given or that it wrote.
use gca_backend.Base.{
  ℕ, zero, suc, ◌+◌, ◌-◌, ◌^◌, ◌≤◌, ◌<◌, ◌≡◌, refl, ap, ◌∙◌, Bool, false, Option, some, List, ◌++◌,
  arith, length, take, drop, replicate, ◌==◌, append_assoc, take-append_self, drop-append,
  length-append, leb, take_all,
}
use gca_backend.Base.Equality.{ℕ-Eq}
use gca_backend.Base.Map.{Map}
use gca_backend.Base.Bytes.{uint, put_uint, copy, copy-same, slice, length-put_uint, uint-put_uint}
use gca_backend.Base.Result.{ok}
use gca_backend.Glow.Signatures.{PublicKey, PrivateKey}
use gca_backend.Client.ServerMap.{GcaServer, untrusted_deserialize_gca_server_map}
use gca_backend.Client.Sync.{blank}
use gca_backend.Client.State.{Client}
use gca_backend.Client.History.{load_history}
use gca_backend.Client.Loading.{
  DeviceFiles, first_32, swap, shuffle, first_allowed, keys_of, new_blank, load_keypair,
  load_gca_pub, load_gca_servers, load_history_file, load_short_id, new_client,
}

-- What the five files hold.
pub record Contents : Type 0 where
  pub public_key : PublicKey
  pub private_key : PrivateKey
  pub gca_key : PublicKey
  pub server_bytes : List ℕ
  pub history : List ℕ
  pub short_id : ℕ

abbrev pub files_of : Contents → DeviceFiles
files_of k = record {
  client_key_file = some (k.public_key ++ k.private_key);
  gca_pub_key_file = some k.gca_key;
  gca_server_map_file = some k.server_bytes;
  history_file = some k.history;
  short_id_file = some (put_uint 4 k.short_id);
}

-- The sizes are right, and the file of the servers holds `servers`.
pub record IsWhole (k : Contents) (servers : Map PublicKey GcaServer) : Type 0 where
  pub public_long : length k.public_key ≡ 32
  pub private_long : length k.private_key ≡ 32
  pub gca_long : length k.gca_key ≡ 32
  pub decoded : untrusted_deserialize_gca_server_map k.server_bytes ≡ ok servers
  pub some_server : (length servers == 0) ≡ false
  pub begun : 4 ≤ length k.history
  pub short_id_fits : k.short_id < 2 ^ 32

-- The source of randomness never fails.
abbrev pub AlwaysDraws : (ℕ → Option ℕ) → Type 0
AlwaysDraws draws = (i : ℕ) → (j : ℕ) × (draws i ≡ some j)

shuffle_total :
    (draws : ℕ → Option ℕ) (rounds i : ℕ) (keys : List PublicKey)
    → AlwaysDraws draws
    → (shuffled : List PublicKey) × (shuffle draws rounds i keys ≡ ok shuffled)
unfolding shuffle
shuffle_total draws zero i keys h = (keys, refl)
shuffle_total draws (suc rounds) i keys h =
    let (j, drawn) = h i in
    rw (shuffle, drawn) (shuffle_total draws rounds (i + 1) (swap i j keys) h)

first_32-append : (key rest : List ℕ) → length key ≡ 32 → first_32 (key ++ rest) ≡ key
first_32-append key rest h =
    ap (take 32) (append_assoc key rest (replicate 32 0))
    ∙ take-append_self 32 key (rest ++ replicate 32 0) h

drop-key : (key rest : List ℕ) → length key ≡ 32 → drop 32 (key ++ rest) ≡ rest
drop-key key rest h =
    drop-append 32 key rest (omega arith) ∙ (let e : 32 - length key ≡ 0 = omega arith in rw e refl)

copy-first_32 : (key rest : List ℕ) → length key ≡ 32 → copy blank (first_32 (key ++ rest)) ≡ key
copy-first_32 key rest h = ap (copy blank) (first_32-append key rest h) ∙ copy-same blank key h

abbrev pub started : Contents → Map PublicKey GcaServer → PublicKey → Bool → Client
started k servers primary writable = record {
  gca_pub_key = k.gca_key;
  gca_servers = servers;
  primary_server = primary;
  short_id = k.short_id;
  static_history_file = k.history;
  static_history_offset = uint (slice 0 4 k.history);
  static_pub_key = k.public_key;
  static_priv_key = k.private_key;
  gca_pub_key_file = k.gca_key;
  short_id_file = put_uint 4 k.short_id;
  gca_server_map_file = k.server_bytes;
  writable = writable;
}

module _ (k : Contents) (servers : Map PublicKey GcaServer) (h : IsWhole k servers) where
  load_keypair_lem :
      (writable : Bool)
      → load_keypair (files_of k) (new_blank writable)
        ≡ ok (record (new_blank writable) {
          static_pub_key = k.public_key;
          static_priv_key = k.private_key;
        })
  unfolding load_keypair
  load_keypair_lem writable =
      let long : leb 32 (length (k.public_key ++ k.private_key)) ≡ Bool.true =
        ground (arith, length-append k.public_key k.private_key, h.public_long) in
      let private : copy blank (drop 32 (k.public_key ++ k.private_key)) ≡ k.private_key =
        ap (copy blank) (drop-key k.public_key k.private_key h.public_long)
        ∙ copy-same blank k.private_key h.private_long in
      rw (long, copy-first_32 k.public_key k.private_key h.public_long, private) refl

  load_gca_pub_lem :
      (c : Client)
      → c.gca_pub_key ≡ blank
      → load_gca_pub (files_of k) c
        ≡ ok (record c { gca_pub_key = k.gca_key; gca_pub_key_file = k.gca_key })
  unfolding load_gca_pub
  load_gca_pub_lem c fresh =
      let key : copy c.gca_pub_key (first_32 k.gca_key) ≡ k.gca_key =
        ap (λ t. copy t (first_32 k.gca_key)) fresh
        ∙ ap (copy blank) (take-append_self 32 k.gca_key (replicate 32 0) h.gca_long)
        ∙ copy-same blank k.gca_key h.gca_long in
      rw key refl

  load_gca_servers_lem :
      (draws : ℕ → Option ℕ) (c : Client)
      → AlwaysDraws draws
      → (primary : PublicKey) × (load_gca_servers draws (files_of k) c
          ≡ ok (record c {
            gca_server_map_file = k.server_bytes;
            gca_servers = servers;
            primary_server = primary;
          }))
  unfolding load_gca_servers
  load_gca_servers_lem draws c always =
      let (shuffled, done) =
        shuffle_total draws (length (keys_of servers)) 0 (keys_of servers) always in
      (first_allowed servers c.primary_server shuffled, rw (h.decoded, h.some_server, done) refl)

  load_history_file_lem :
      (c : Client)
      → load_history_file (files_of k) c
        ≡ ok (record c {
          static_history_file = k.history;
          static_history_offset = uint (slice 0 4 k.history);
        })
  unfolding load_history_file load_history
  load_history_file_lem c =
      let long : leb 4 (length k.history) ≡ Bool.true = ground (arith, h.begun) in rw long refl

  load_short_id_lem :
      (c : Client)
      → load_short_id (files_of k) c
        ≡ ok (record c { short_id = k.short_id; short_id_file = put_uint 4 k.short_id })
  unfolding load_short_id
  load_short_id_lem c =
      let long : leb 4 (length (put_uint 4 k.short_id)) ≡ Bool.true =
        ground (arith, length-put_uint 4 k.short_id) in
      let value : uint (take 4 (put_uint 4 k.short_id)) ≡ k.short_id =
        ap uint (take_all 4 (put_uint 4 k.short_id) (omega (arith, length-put_uint 4 k.short_id)))
        ∙ uint-put_uint 4 k.short_id h.short_id_fits in
      rw (long, value) refl

  -- A device starts from whole files, and its state is what they hold.
  pub new_client-files_of :
      (draws : ℕ → Option ℕ) (writable : Bool)
      → AlwaysDraws draws
      → (primary : PublicKey) × (new_client draws writable (files_of k)
          ≡ ok (started k servers primary writable))
  unfolding new_client
  new_client-files_of draws writable always =
      let c2 = record (new_blank writable) {
        static_pub_key = k.public_key;
        static_priv_key = k.private_key;
        gca_pub_key = k.gca_key;
        gca_pub_key_file = k.gca_key;
      } in
      let (primary, listed) = load_gca_servers_lem draws c2 always in
      (
        primary,
        rw (load_keypair_lem writable) (
            rw
              (load_gca_pub_lem
                (record (new_blank writable) {
                  static_pub_key = k.public_key;
                  static_priv_key = k.private_key;
                })
                refl)
              (rw listed (
                rw
                  (load_history_file_lem (record c2 {
                    gca_server_map_file = k.server_bytes;
                    gca_servers = servers;
                    primary_server = primary;
                  }))
                  (load_short_id_lem _)))),
      )
