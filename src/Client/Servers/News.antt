-- ===== src/Client/Servers/News.antt =====
-- client/reports.go and client/gcaserver.go: what a device keeps of the servers it hears of.
use gca_backend.Base.{
  ◌≡◌, sym, ap, ◌∙◌, ◌⊎◌, inl, inr, Bool, false, ◌&&◌, ◌||◌, not, some, List, [], ◌∷◌, arith,
  Bool-cases, All, subst,
}
use gca_backend.Base.Equality.{bytes_eq, bytes_eq_iff, bytes-Eq}
use gca_backend.Base.Map.{Map, lookup, insert, lookup-insert}
use gca_backend.Base.Unique.{Unique, Unique-insert}
use gca_backend.Base.Result.{Result, ok, err, panic, ◌>>=◌, check, >>=-eq-ok}
use gca_backend.Glow.Signatures.{PublicKey}
use gca_backend.Server.AuthorizedServer.{AuthorizedServer, IsAuthorizedServer}
use gca_backend.Client.ServerMap.{
  GcaServer, serialize_gca_server_map, untrusted_deserialize_gca_server_map,
}
use gca_backend.Client.ServerMap.RoundTrip.{
  IsEntries, IsEntry, untrusted_deserialize_gca_server_map-serialize_gca_server_map,
}
use gca_backend.Client.State.{Client}
use gca_backend.Client.Sync.{SyncResult, blank}
use gca_backend.Client.Servers.{
  entry_of, is_known, add_servers, or_panic, save_servers, migrate, take_news,
}

-- Some server of the list has this key and is banned.
abbrev pub bans : PublicKey → List AuthorizedServer → Bool
bans key [] = false
bans key (s ∷ servers) = (bytes_eq s.public_key key && s.banned) || bans key servers

-- A server that the device knows keeps its location and its ports until it is banned.
pub add_servers-known :
    (m : Map PublicKey GcaServer) (servers : List AuthorizedServer) (key : PublicKey)
    (server : GcaServer)
    → lookup key m ≡ some server
    → bans key servers ≡ false
    → lookup key (add_servers m servers) ≡ some server
unfolding add_servers
add_servers-known m [] key server known none_banned = known
add_servers-known m (s ∷ servers) key server known none_banned = ground (
  arith,
  add_servers-known m servers key server known,
  add_servers-known (insert s.public_key (entry_of s) m) servers key server,
  lookup-insert s.public_key key (entry_of s) m,
  bytes_eq_iff s.public_key key,
)

Unique-add_servers :
    (m : Map PublicKey GcaServer) (servers : List AuthorizedServer)
    → Unique m
    → Unique (add_servers m servers)
unfolding add_servers
Unique-add_servers m [] u = u
Unique-add_servers m (s ∷ servers) u =
    elim (Bool-cases (not (is_known (lookup s.public_key m)) || s.banned)) [
      | inl new ↦ rw new (
          Unique-add_servers (insert s.public_key (entry_of s) m) servers
            (Unique-insert s.public_key (entry_of s) m u))
      | inr old ↦ rw old (Unique-add_servers m servers u)
    ]

IsEntries-insert :
    (key : PublicKey) (server : GcaServer) (m : Map PublicKey GcaServer)
    → IsEntry key server
    → IsEntries m
    → IsEntries (insert key server m)
unfolding insert
IsEntries-insert key server [] h hs = (h, tt)
IsEntries-insert key server ((j, w) ∷ m) h hs = elim (Bool-cases (bytes_eq j key)) [
  | inl same ↦ rw same (h, hs.1)
  | inr other ↦ rw other (hs.0, IsEntries-insert key server m h hs.1)
]

IsEntries-add_servers :
    (m : Map PublicKey GcaServer) (servers : List AuthorizedServer)
    → All IsAuthorizedServer servers
    → IsEntries m
    → IsEntries (add_servers m servers)
unfolding add_servers
IsEntries-add_servers m [] h hs = hs
IsEntries-add_servers m (s ∷ servers) (h, rest) hs =
    elim (Bool-cases (not (is_known (lookup s.public_key m)) || s.banned)) [
      | inl new ↦ rw new (
          IsEntries-add_servers (insert s.public_key (entry_of s) m) servers rest
            (IsEntries-insert s.public_key (entry_of s) m (sized s h) hs))
      | inr old ↦ rw old (IsEntries-add_servers m servers rest hs)
    ]
  where
    sized : (s : AuthorizedServer) → IsAuthorizedServer s → IsEntry s.public_key (entry_of s)
    sized s h =
        unfold entry_of in
        record {
          key_long = h.public_key_long;
          http_port_fits = h.http_port_fits;
          tcp_port_fits = h.tcp_port_fits;
          udp_port_fits = h.udp_port_fits;
        }

or_panic-ok : {A : Type 0} (r : Result A) (a : A) → or_panic r ≡ ok a → r ≡ ok a
or_panic-ok (ok b) a e = e
or_panic-ok (err e') a e = ground arith
or_panic-ok panic a e = ground arith

save_servers_cases :
    (c c' : Client)
    → save_servers c ≡ ok c'
    → (c'.gca_servers ≡ c.gca_servers)
      × (serialize_gca_server_map c.gca_servers ≡ ok c'.gca_server_map_file)
unfolding save_servers
save_servers_cases c c' e =
    let (raw, written, rest) = >>=-eq-ok (or_panic (serialize_gca_server_map c.gca_servers)) _ e in
    let (_, _, last) = >>=-eq-ok (check c.writable) _ rest in
    let bytes = or_panic-ok (serialize_gca_server_map c.gca_servers) raw written in
    (ground arith, ground arith)

migrate_servers :
    (c c' : Client) (r : SyncResult)
    → migrate c r ≡ ok c'
    → c'.gca_servers ≡ add_servers [] r.gca_servers
unfolding migrate
migrate_servers c c' r e =
    let (_, _, rest) = >>=-eq-ok (check c.writable) _ e in
    let (raw, written, last) =
      >>=-eq-ok (or_panic (serialize_gca_server_map (add_servers [] r.gca_servers))) _ rest in
    ground arith

abbrev pub is_migration : Client → SyncResult → Bool
is_migration c r = not (bytes_eq r.new_gca c.gca_pub_key) && not (bytes_eq r.new_gca blank)

-- The servers after the news: those of the answer alone if the GCA changes, and those known and those of
-- the answer if it does not.
pub take_news_cases :
    (c c' : Client) (r : SyncResult)
    → take_news c r ≡ ok c'
    → ((c'.gca_servers ≡ add_servers [] r.gca_servers)
        ⊎ (c'.gca_servers ≡ add_servers c.gca_servers r.gca_servers))
      × (serialize_gca_server_map c'.gca_servers ≡ ok c'.gca_server_map_file)
unfolding take_news
take_news_cases c c' r e = elim (Bool-cases (is_migration c r)) [
  | inl moving ↦
      let busy : (do m ← migrate c r; save_servers m) ≡ ok c' = ground arith in
      let (m, moved, saved) = >>=-eq-ok (migrate c r) save_servers busy in
      let (same, bytes) = save_servers_cases m c' saved in
      (inl (same ∙ migrate_servers c m r moved), ap serialize_gca_server_map same ∙ bytes)
  | inr staying ↦
      let told = record c { gca_servers = add_servers c.gca_servers r.gca_servers } in
      let saved : save_servers told ≡ ok c' = ground arith in
      let (same, bytes) = save_servers_cases told c' saved in
      (inr same, ap serialize_gca_server_map same ∙ bytes)
]

-- After the device took the news of a synchronization, a restart reads from the file exactly the servers
-- that it then knows.
pub take_news-restart :
    (c c' : Client) (r : SyncResult)
    → Unique c.gca_servers
    → IsEntries c.gca_servers
    → All IsAuthorizedServer r.gca_servers
    → take_news c r ≡ ok c'
    → untrusted_deserialize_gca_server_map c'.gca_server_map_file ≡ ok c'.gca_servers
take_news-restart c c' r u h valid e =
    let (servers, bytes) = take_news_cases c c' r e in
    untrusted_deserialize_gca_server_map-serialize_gca_server_map c'.gca_servers
      c'.gca_server_map_file
      (elim servers [
        | inl new ↦ subst Unique (sym new) (Unique-add_servers [] r.gca_servers tt)
        | inr both ↦ subst Unique (sym both) (Unique-add_servers c.gca_servers r.gca_servers u)
      ])
      (elim servers [
        | inl new ↦ subst IsEntries (sym new) (IsEntries-add_servers [] r.gca_servers valid tt)
        | inr both ↦
            subst IsEntries (sym both) (IsEntries-add_servers c.gca_servers r.gca_servers valid h)
      ])
      bytes
