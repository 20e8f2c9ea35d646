-- ===== src/Server/AuthorizedServer.antt =====
-- server/authorized_servers.go: a GCA server with the GCA's signature, and its serialisation.
-- A Go string is the list of its bytes.
use gca_backend.Base.{
  ℕ, ◌-◌, ◌%◌, ◌^◌, ◌<◌, ◌≡◌, Bool, List, [], ◌∷◌, ◌++◌, length, take, if◌then◌else◌,
}
use gca_backend.Base.Bytes.{put_uint, ascii}
use gca_backend.Base.Chunks.{concat}
use gca_backend.Glow.Signatures.{PublicKey, Signature}

pub record AuthorizedServer : Type 0 where
  pub public_key : PublicKey
  pub banned : Bool
  pub location : List ℕ
  pub http_port : ℕ
  pub tcp_port : ℕ
  pub udp_port : ℕ
  pub gca_authorization : Signature

-- The values that Go's types allow, with a location whose length fits the byte that stores it.
pub record IsAuthorizedServer (s : AuthorizedServer) : Type 0 where
  pub public_key_long : length s.public_key ≡ 32
  pub location_fits : length s.location < 256
  pub http_port_fits : s.http_port < 2 ^ 16
  pub tcp_port_fits : s.tcp_port < 2 ^ 16
  pub udp_port_fits : s.udp_port < 2 ^ 16
  pub gca_authorization_long : length s.gca_authorization ≡ 64

abbrev pub unsigned_fields : AuthorizedServer → List (List ℕ)
unsigned_fields s =
    s.public_key
    ∷ ((if s.banned then 1 else 0) ∷ [])
    ∷ ((length s.location % 256) ∷ [])
    ∷ s.location
    ∷ put_uint 2 s.http_port
    ∷ put_uint 2 s.tcp_port
    ∷ put_uint 2 s.udp_port
    ∷ []

unfoldable pub serialize : AuthorizedServer → List ℕ
serialize s = concat (unsigned_fields s ++ (s.gca_authorization ∷ []))

unfoldable pub signing_bytes : AuthorizedServer → List ℕ
signing_bytes s =
    let bytes = serialize s in ascii "AuthorizedServer" ++ take (length bytes - 64) bytes
