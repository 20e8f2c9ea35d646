-- ===== src/Client/Loading/Primary.antt =====
-- client/client.go: the server that a device begins with.
use gca_backend.Base.{
  ℕ, ◌≡◌, subst, sym, ap, ◌∙◌, ◌⊎◌, inl, inr, true, false, Option, some, List, Bool, arith, not,
  length, ◌==◌,
}
use gca_backend.Base.Equality.{ℕ-Eq, bytes-Eq}
use gca_backend.Base.Map.{Map, lookup}
use gca_backend.Base.Result.{ok, >>=-eq-ok, guard, no_servers}
use gca_backend.Glow.Signatures.{PublicKey}
use gca_backend.Client.ServerMap.{GcaServer, untrusted_deserialize_gca_server_map}
use gca_backend.Client.Sync.{blank}
use gca_backend.Client.State.{Client}
use gca_backend.Client.History.{load_history}
use gca_backend.Client.Loading.{
  DeviceFiles, shuffle, first_allowed, keys_of, new_blank, read_file, load_keypair, load_gca_pub,
  load_gca_servers, load_history_file, load_short_id, new_client,
}
use gca_backend.Client.Loading.Shuffling.{
  Holds-shuffle, Holds-keys_of, first_allowed_cases, unshuffled, keys_of-known, not_banned,
}

-- The primary server is known and not banned; or the key is what it was, and every server is banned.
abbrev pub Chosen : PublicKey → PublicKey → Map PublicKey GcaServer → Type 0
Chosen start primary servers =
    ((server : GcaServer) × (lookup primary servers ≡ some server) × (server.banned ≡ false))
    ⊎ ((primary ≡ start)
        × ((key : PublicKey) (server : GcaServer)
            → lookup key servers ≡ some server
            → server.banned ≡ true))

abbrev pub IsChosen : PublicKey → Client → Type 0
IsChosen start c = Chosen start c.primary_server c.gca_servers

Chosen-same :
    (start start' primary primary' : PublicKey) (servers servers' : Map PublicKey GcaServer)
    → start ≡ start'
    → primary ≡ primary'
    → servers ≡ servers'
    → Chosen start primary servers
    → Chosen start' primary' servers'
Chosen-same start start' primary primary' servers servers' e1 e2 e3 h = rw (← e1, ← e2, ← e3) h

IsChosen-shuffle :
    (draws : ℕ → Option ℕ) (c : Client) (start : PublicKey) (shuffled : List PublicKey)
    → shuffle draws (length (keys_of c.gca_servers)) 0 (keys_of c.gca_servers) ≡ ok shuffled
    → c.primary_server ≡ first_allowed c.gca_servers start shuffled
    → IsChosen start c
IsChosen-shuffle draws c start shuffled done chosen =
    rw chosen (elim (first_allowed_cases c.gca_servers start shuffled) [
      | inl ((n, there), allowed) ↦
          let keys = keys_of c.gca_servers in
          let choice = first_allowed c.gca_servers start shuffled in
          let (m, listed) = unshuffled draws (length keys) 0 choice keys shuffled done (n, there) in
          let (server, known) = keys_of-known c.gca_servers choice m listed in
          inl (server, known, not_banned (lookup choice c.gca_servers) server known allowed)
      | inr (none_left, all_banned) ↦ inr (
        none_left,
        λ key server known.
            let keys = keys_of c.gca_servers in
            let held =
              Holds-shuffle draws (length keys) 0 key keys shuffled done
                (Holds-keys_of c.gca_servers key server known) in
            rw known at (all_banned key held),
      )
    ])

load_gca_servers-IsChosen :
    (draws : ℕ → Option ℕ) (files : DeviceFiles) (c c' : Client)
    → load_gca_servers draws files c ≡ ok c'
    → IsChosen c.primary_server c'
unfolding load_gca_servers
load_gca_servers-IsChosen draws files c c' e =
    let (bytes, found, e1) = >>=-eq-ok (read_file files.gca_server_map_file) _ e in
    let (servers, decoded, e2) = >>=-eq-ok (untrusted_deserialize_gca_server_map bytes) _ e1 in
    let (_, _, e3) = >>=-eq-ok (guard (not (length servers == 0)) no_servers) _ e2 in
    let (shuffled, done, e4) =
      >>=-eq-ok (shuffle draws (length (keys_of servers)) 0 (keys_of servers)) _ e3 in
    let same : servers ≡ c'.gca_servers = ground arith in
    let chosen : c'.primary_server ≡ first_allowed servers c.primary_server shuffled =
      ground arith in
    IsChosen-shuffle draws c' c.primary_server shuffled
      (subst (λ m. shuffle draws (length (keys_of m)) 0 (keys_of m) ≡ ok shuffled) same done)
      (chosen ∙ ap (λ m. first_allowed m c.primary_server shuffled) same)

-- A device that starts has a server that it knows and that is not banned as its primary server. If it
-- knows only banned servers, it still starts, and the primary server's key is blank.
pub new_client-IsChosen :
    (draws : ℕ → Option ℕ) (writable : Bool) (files : DeviceFiles) (c : Client)
    → new_client draws writable files ≡ ok c
    → IsChosen blank c
unfolding new_client load_keypair load_gca_pub load_history_file load_short_id load_history
new_client-IsChosen draws writable files c e =
    let (c1, e1, r1) = >>=-eq-ok (load_keypair files (new_blank writable)) _ e in
    let (c2, e2, r2) = >>=-eq-ok (load_gca_pub files c1) _ r1 in
    let (c3, e3, r3) = >>=-eq-ok (load_gca_servers draws files c2) _ r2 in
    let (c4, e4, r4) = >>=-eq-ok (load_history_file files c3) _ r3 in
    let b1 : c1.primary_server ≡ blank = ground arith in
    let b2 : c2.primary_server ≡ c1.primary_server = ground arith in
    let p4 : c4.primary_server ≡ c3.primary_server = ground arith in
    let s4 : c4.gca_servers ≡ c3.gca_servers = ground arith in
    let p5 : c.primary_server ≡ c4.primary_server = ground arith in
    let s5 : c.gca_servers ≡ c4.gca_servers = ground arith in
    Chosen-same c2.primary_server blank c3.primary_server c.primary_server c3.gca_servers
      c.gca_servers (b2 ∙ b1) (sym (p5 ∙ p4)) (sym (s5 ∙ s4))
      (load_gca_servers-IsChosen draws files c2 c3 e3)
