-- ===== src/Client/ServerMap.antt =====
-- client/gcaserver.go: the servers that a device knows, and the file that keeps them. A Go map is an
-- association list, whose order stands for the order of the iteration.
pub mod RoundTrip
use gca_backend.Base.{
  ℕ, zero, suc, ◌+◌, ◌-◌, ◌%◌, ◌^◌, Bool, true, false, not, List, [], ◌∷◌, ◌++◌, length, ltb, leb,
  ◌==◌, if◌then◌else◌,
}
use gca_backend.Base.Equality.{ℕ-Eq, bytes-Eq}
use gca_backend.Base.Map.{Map, insert}
use gca_backend.Base.Bytes.{put_uint, uint}
use gca_backend.Base.Chunks.{concat}
use gca_backend.Base.Result.{Result, ok, err, panic, too_long, ◌>>=◌, ◌>>◌, guard}
use gca_backend.Glow.Signatures.{PublicKey}
use gca_backend.Server.DeviceStats.{read}

pub record GcaServer : Type 0 where
  pub banned : Bool
  pub location : List ℕ
  pub http_port : ℕ
  pub tcp_port : ℕ
  pub udp_port : ℕ

abbrev pub fields : PublicKey → GcaServer → List (List ℕ)
fields key server =
    key
    ∷ ((if server.banned then 1 else 0) ∷ [])
    ∷ put_uint 2 (length server.location % 2 ^ 16)
    ∷ server.location
    ∷ put_uint 2 server.http_port
    ∷ put_uint 2 server.tcp_port
    ∷ put_uint 2 server.udp_port
    ∷ []

unfoldable pub serialize_gca_server_map : Map PublicKey GcaServer → Result (List ℕ)
serialize_gca_server_map [] = ok []
serialize_gca_server_map ((key, server) ∷ m) = do
  guard (leb (length server.location) 65535) too_long
  rest ← serialize_gca_server_map m
  ok (concat (fields key server) ++ rest)

-- One key and its server; every read tests first that enough bytes are left.
unfoldable pub read_entry : List ℕ → Result ((PublicKey × GcaServer) × List ℕ)
read_entry b = do
  (key, b1) ← read 32 b
  (banned, b2) ← read 1 b1
  (len, b3) ← read 2 b2
  (location, b4) ← read (uint len) b3
  (ports, b5) ← read 6 b4
  (http, p1) ← read 2 ports
  (tcp, udp) ← read 2 p1
  ok (
    (
      key,
      record {
        banned = not (uint banned == 0);
        location = location;
        http_port = uint http;
        tcp_port = uint tcp;
        udp_port = uint udp;
      },
    ),
    b5,
  )

unfoldable pub read_entries :
    ℕ → Map PublicKey GcaServer → List ℕ → Result (Map PublicKey GcaServer)
read_entries fuel m [] = ok m
read_entries zero m (x ∷ b) = panic
read_entries (suc fuel) m (x ∷ b) = do
  ((key, server), rest) ← read_entry (x ∷ b)
  read_entries fuel (insert key server m) rest

-- Every entry takes a byte at least, so the length of the data is enough fuel.
unfoldable pub untrusted_deserialize_gca_server_map : List ℕ → Result (Map PublicKey GcaServer)
untrusted_deserialize_gca_server_map b = read_entries (length b) [] b
