-- ===== src/Server/Servers/Bans.antt =====
-- server/api_authorized_servers.go: bans are permanent, entries never change otherwise, and the order in
-- which servers hear of one another does not matter for who is banned.
use gca_backend.Base.{
  ◌≡◌, refl, Bool, false, ◌&&◌, ◌||◌, not, Option, none, some, List, [], ◌∷◌, arith, if◌then◌else◌,
}
use gca_backend.Base.Equality.{bytes_eq, bytes_eq_iff}
use gca_backend.Glow.Signatures.{PublicKey}
use gca_backend.Server.AuthorizedServer.{AuthorizedServer}
use gca_backend.Server.Servers.{integrate_server}

-- The entry of a key.
unfoldable pub entry : PublicKey → List AuthorizedServer → Option AuthorizedServer
entry pk [] = none
entry pk (s ∷ servers) = if bytes_eq s.public_key pk then some s else entry pk servers

-- What an authorization makes of the entry of its key.
abbrev pub next_entry : Option AuthorizedServer → AuthorizedServer → AuthorizedServer
next_entry none server = server
next_entry (some s) server = if not s.banned && server.banned then server else s

-- An authorized server changes the entry of its own key alone: a key without an entry gets the server,
-- and an entry is replaced exactly when it is not banned and the server is. So a ban is never lifted,
-- and location and ports never change but with a ban.
pub entry-integrate_server :
    (servers : List AuthorizedServer) (server : AuthorizedServer) (pk : PublicKey)
    → entry pk (integrate_server servers server).0 ≡ (
        if bytes_eq server.public_key pk
        then some (next_entry (entry pk servers) server)
        else entry pk servers)
unfolding entry integrate_server
entry-integrate_server [] server pk = refl
entry-integrate_server (s ∷ servers) server pk = ground (
  arith,
  entry-integrate_server servers server pk,
  bytes_eq_iff s.public_key server.public_key,
  bytes_eq_iff s.public_key pk,
  bytes_eq_iff server.public_key pk,
)

unfoldable pub integrate_servers :
    List AuthorizedServer → List AuthorizedServer → List AuthorizedServer
integrate_servers servers [] = servers
integrate_servers servers (s ∷ news) = integrate_servers (integrate_server servers s).0 news

abbrev pub is_banned : Option AuthorizedServer → Bool
is_banned none = false
is_banned (some s) = s.banned

-- Some server of the list has this key and is banned.
abbrev pub any_ban : PublicKey → List AuthorizedServer → Bool
any_ban pk [] = false
any_ban pk (s ∷ news) = (bytes_eq s.public_key pk && s.banned) || any_ban pk news

-- After any news, a key is banned exactly when it was banned or some piece of the news bans it. So two
-- servers that heard the same news in any order agree on who is banned.
pub integrate_servers_bans :
    (servers news : List AuthorizedServer) (pk : PublicKey)
    → is_banned (entry pk (integrate_servers servers news))
      ≡ (is_banned (entry pk servers) || any_ban pk news)
unfolding integrate_servers
integrate_servers_bans servers [] pk = ground arith
integrate_servers_bans servers (s ∷ news) pk = ground (
  arith,
  integrate_servers_bans (integrate_server servers s).0 news pk,
  entry-integrate_server servers s pk,
)
