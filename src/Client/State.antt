-- ===== src/Client/State.antt =====
-- client/client.go: the state of a device, with the files that it writes. The mutex makes each
-- operation a function from state to state.
use gca_backend.Base.{ℕ, Bool, List}
use gca_backend.Base.Map.{Map}
use gca_backend.Glow.Signatures.{PublicKey, PrivateKey}
use gca_backend.Client.ServerMap.{GcaServer}

pub record Client : Type 0 where
  pub gca_pub_key : PublicKey
  pub gca_servers : Map PublicKey GcaServer
  pub primary_server : PublicKey
  pub short_id : ℕ
  pub static_history_file : List ℕ
  pub static_history_offset : ℕ
  pub static_pub_key : PublicKey
  pub static_priv_key : PrivateKey
  pub gca_pub_key_file : List ℕ
  pub short_id_file : List ℕ
  pub gca_server_map_file : List ℕ
  pub writable : Bool
