-- ===== src/Client/Loading.antt =====
-- client/client.go: `NewClient` loads what is on the device's disk, in this order: the keys, the GCA's
-- key, the servers, the history, and the short ID.
pub mod Shuffling
pub mod Primary
pub mod Restart
pub mod News
use gca_backend.Base.{
  ℕ, zero, suc, ◌+◌, Bool, true, false, not, Option, none, some, List, [], ◌∷◌, ◌++◌, length, take,
  drop, get_elem?, replicate, map, leb, ◌==◌, if◌then◌else◌,
}
use gca_backend.Base.Equality.{ℕ-Eq, bytes-Eq}
use gca_backend.Base.Map.{Map, lookup}
use gca_backend.Base.Bytes.{uint, copy}
use gca_backend.Base.Result.{
  Result, ok, err, panic, missing_file, no_servers, no_randomness, ◌>>=◌, ◌>>◌, guard, check,
}
use gca_backend.Glow.Signatures.{PublicKey}
use gca_backend.Client.ServerMap.{GcaServer, untrusted_deserialize_gca_server_map}
use gca_backend.Client.State.{Client}
use gca_backend.Client.Sync.{blank}
use gca_backend.Client.Servers.{is_banned}
use gca_backend.Client.History.{load_history}

-- The files in the base directory; `none` is a file that does not exist.
pub record DeviceFiles : Type 0 where
  pub client_key_file : Option (List ℕ)
  pub gca_pub_key_file : Option (List ℕ)
  pub gca_server_map_file : Option (List ℕ)
  pub history_file : Option (List ℕ)
  pub short_id_file : Option (List ℕ)

abbrev pub read_file : Option (List ℕ) → Result (List ℕ)
read_file none = err missing_file
read_file (some bytes) = ok bytes

-- `data[:32]` of a file that was read: the slice may reach into the capacity, which is 512 at least and zero.
abbrev pub first_32 : List ℕ → List ℕ
first_32 bytes = take 32 (bytes ++ replicate 32 0)

-- `data[32:]` panics on a shorter file.
unfoldable pub load_keypair : DeviceFiles → Client → Result Client
load_keypair files c = do
  bytes ← read_file files.client_key_file
  check (leb 32 (length bytes))
  ok (record c {
    static_pub_key = copy c.static_pub_key (first_32 bytes);
    static_priv_key = copy c.static_priv_key (drop 32 bytes);
  })

unfoldable pub load_gca_pub : DeviceFiles → Client → Result Client
load_gca_pub files c = do
  bytes ← read_file files.gca_pub_key_file
  ok (record c { gca_pub_key = copy c.gca_pub_key (first_32 bytes); gca_pub_key_file = bytes })

-- `servers[i] = v`
abbrev pub write : ℕ → PublicKey → List PublicKey → List PublicKey
write i v [] = []
write zero v (x ∷ xs) = v ∷ xs
write (suc i) v (x ∷ xs) = x ∷ write i v xs

swapped : ℕ → ℕ → List PublicKey → Option PublicKey → Option PublicKey → List PublicKey
swapped i j keys none second = keys
swapped i j keys (some first) none = keys
swapped i j keys (some first) (some second) = write j first (write i second keys)

-- `servers[i], servers[j] = servers[j], servers[i]`
unfoldable pub swap : ℕ → ℕ → List PublicKey → List PublicKey
unfolding swapped
swap i j keys = swapped i j keys (get_elem? keys i) (get_elem? keys j)

-- The shuffle from index `i` on, with the rounds left. `draws i` is `rand.Int(rand.Reader, i+1)`, `none`
-- for an error.
unfoldable pub shuffle : (ℕ → Option ℕ) → ℕ → ℕ → List PublicKey → Result (List PublicKey)
shuffle draws zero i keys = ok keys
shuffle draws (suc rounds) i keys = elim (draws i) [
  | none ↦ err no_randomness
  | some j ↦ shuffle draws rounds (i + 1) (swap i j keys)
]

-- The loop that ends with the first server that is not banned; without one, the key stays what it was.
unfoldable pub first_allowed : Map PublicKey GcaServer → PublicKey → List PublicKey → PublicKey
first_allowed servers start [] = start
first_allowed servers start (key ∷ keys) =
    if is_banned (lookup key servers) then first_allowed servers start keys else key

abbrev pub keys_of : Map PublicKey GcaServer → List PublicKey
keys_of [] = []
keys_of ((key, server) ∷ m) = key ∷ keys_of m

unfoldable pub load_gca_servers : (ℕ → Option ℕ) → DeviceFiles → Client → Result Client
load_gca_servers draws files c = do
  bytes ← read_file files.gca_server_map_file
  servers ← untrusted_deserialize_gca_server_map bytes
  guard (not (length servers == 0)) no_servers
  shuffled ← shuffle draws (length (keys_of servers)) 0 (keys_of servers)
  ok (record c {
    gca_server_map_file = bytes;
    gca_servers = servers;
    primary_server = first_allowed servers c.primary_server shuffled;
  })

unfoldable pub load_history_file : DeviceFiles → Client → Result Client
load_history_file files c = do
  bytes ← read_file files.history_file
  load_history (record c { static_history_file = bytes })

-- `binary.LittleEndian.Uint32` panics on less than four bytes.
unfoldable pub load_short_id : DeviceFiles → Client → Result Client
load_short_id files c = do
  bytes ← read_file files.short_id_file
  check (leb 4 (length bytes))
  ok (record c { short_id = uint (take 4 bytes); short_id_file = bytes })

-- `&Client{…}` with its zero values.
abbrev pub new_blank : Bool → Client
new_blank writable = record {
  gca_pub_key = blank;
  gca_servers = [];
  primary_server = blank;
  short_id = 0;
  static_history_file = [];
  static_history_offset = 0;
  static_pub_key = blank;
  static_priv_key = blank;
  gca_pub_key_file = [];
  short_id_file = [];
  gca_server_map_file = [];
  writable = writable;
}

-- `NewClient` up to the start of its thread.
unfoldable pub new_client : (ℕ → Option ℕ) → Bool → DeviceFiles → Result Client
new_client draws writable files = do
  c1 ← load_keypair files (new_blank writable)
  c2 ← load_gca_pub files c1
  c3 ← load_gca_servers draws files c2
  c4 ← load_history_file files c3
  load_short_id files c4
