-- ===== src/Client/Servers.antt =====
-- client/reports.go: `threadedSyncWithServer` up to the scan of the bitfield: the choice of a server, the
-- attempts, and what the device takes from the answer.
pub mod News
pub mod Attempts
use gca_backend.Base.{
  ℕ, zero, suc, ◌^◌, Bool, true, false, ◌&&◌, ◌||◌, not, Option, none, some, List, [], ◌∷◌,
  if◌then◌else◌,
}
use gca_backend.Base.Equality.{bytes-Eq, bytes_eq}
use gca_backend.Base.Map.{Map, lookup, insert}
use gca_backend.Base.Bytes.{put_uint}
use gca_backend.Base.Result.{Result, ok, err, panic, ◌>>=◌, ◌>>◌, check}
use gca_backend.Glow.Signatures.{PublicKey}
use gca_backend.Server.AuthorizedServer.{AuthorizedServer}
use gca_backend.Client.ServerMap.{GcaServer, serialize_gca_server_map}
use gca_backend.Client.State.{Client}
use gca_backend.Client.Sync.{SyncResult, blank}

unfoldable pub entry_of : AuthorizedServer → GcaServer
entry_of s = record {
  banned = s.banned;
  location = s.location;
  http_port = s.http_port;
  tcp_port = s.tcp_port;
  udp_port = s.udp_port;
}

abbrev pub is_known : Option GcaServer → Bool
is_known none = false
is_known (some server) = true

-- A missing server has the zero value, which is not banned.
abbrev pub is_banned : Option GcaServer → Bool
is_banned none = false
is_banned (some server) = server.banned

-- The loop over the servers of the answer: a new server is added, and a ban replaces what was known.
unfoldable pub add_servers :
    Map PublicKey GcaServer → List AuthorizedServer → Map PublicKey GcaServer
add_servers m [] = m
add_servers m (s ∷ servers) =
    if not (is_known (lookup s.public_key m)) || s.banned
    then add_servers (insert s.public_key (entry_of s) m) servers
    else add_servers m servers

-- Every error of a write or of the serialisation is a panic.
abbrev pub or_panic : {A : Type 0} → Result A → Result A
or_panic (ok a) = ok a
or_panic (err e) = panic
or_panic panic = panic

unfoldable pub save_servers : Client → Result Client
save_servers c = do
  raw ← or_panic (serialize_gca_server_map c.gca_servers)
  check c.writable
  ok (record c { gca_server_map_file = raw })

-- The device moves to the new GCA: its servers replace those of the old one.
unfoldable pub migrate : Client → SyncResult → Result Client
migrate c r = do
  check c.writable
  raw ← or_panic (serialize_gca_server_map (add_servers [] r.gca_servers))
  ok (record c {
    gca_pub_key_file = r.new_gca;
    short_id_file = put_uint 4 r.new_short_id;
    gca_server_map_file = raw;
    gca_pub_key = r.new_gca;
    short_id = r.new_short_id;
    gca_servers = add_servers [] r.gca_servers;
  })

unfoldable pub take_news : Client → SyncResult → Result Client
take_news c r =
    if not (bytes_eq r.new_gca c.gca_pub_key) && not (bytes_eq r.new_gca blank)
    then (do c' ← migrate c r; save_servers c')
    else save_servers (record c { gca_servers = add_servers c.gca_servers r.gca_servers })

-- The first server of the shuffled list that has not failed and is not banned.
unfoldable pub pick_server :
    Map PublicKey (Unit {0}) → Map PublicKey GcaServer → List PublicKey → Option PublicKey
pick_server failed servers [] = none
pick_server failed servers (key ∷ keys) =
    let rest = pick_server failed servers keys in
    elim (lookup key failed) [
      | some _ ↦ rest
      | none ↦ if is_banned (lookup key servers) then rest else some key
    ]

-- How the attempts end: with an answer of the primary server, with nothing after five attempts, or
-- with no server left, where the program returns and keeps the mutex.
pub data Outcome : Type 0 where
  answered : SyncResult → Outcome
  gave_up : Outcome
  no_server : Outcome

-- The attempts that are left, each with the order that the shuffle gives the servers; `sync key` is
-- what the server with this key answers.
unfoldable pub attempts :
    (PublicKey → Option SyncResult)
    → List (List PublicKey)
    → Map PublicKey (Unit {0})
    → Client
    → Client × Outcome
attempts sync [] failed c = (c, gave_up)
attempts sync (shuffled ∷ rounds) failed c = elim (pick_server failed c.gca_servers shuffled) [
  | none ↦ (c, no_server)
  | some key ↦ elim (sync key) [
    | some r ↦ (record c { primary_server = key }, answered r)
    | none ↦ attempts sync rounds (insert key tt failed) (record c { primary_server = key })
  ]
]
