-- ===== src/Client/Loading/News.antt =====
-- client/client.go and client/reports.go: a device that is started again is the device that took the news.
use gca_backend.Base.{
  ℕ, ◌^◌, ◌≤◌, ◌<◌, ◌≡◌, refl, sym, ap, ◌∙◌, false, Option, some, List, [], ◌++◌, subst, arith,
  length, All, ◌==◌, Bool-cases, inl, inr,
}
use gca_backend.Base.Equality.{ℕ-Eq, bytes-Eq}
use gca_backend.Base.Map.{Map}
use gca_backend.Base.Unique.{Unique}
use gca_backend.Base.Bytes.{uint, put_uint, slice}
use gca_backend.Base.Result.{ok, ◌>>=◌, check, >>=-eq-ok}
use gca_backend.Glow.Signatures.{PublicKey}
use gca_backend.Server.AuthorizedServer.{IsAuthorizedServer}
use gca_backend.Client.ServerMap.{GcaServer, serialize_gca_server_map}
use gca_backend.Client.ServerMap.RoundTrip.{IsEntries}
use gca_backend.Client.Sync.{SyncResult}
use gca_backend.Client.State.{Client}
use gca_backend.Client.Servers.{add_servers, or_panic, save_servers, migrate, take_news}
use gca_backend.Client.Servers.News.{take_news-restart, is_migration}
use gca_backend.Client.Loading.{DeviceFiles, new_client}
use gca_backend.Client.Loading.Restart.{
  Contents, files_of, IsWhole, AlwaysDraws, started, new_client-files_of,
}

-- The files of a running device; its own keys are written once, before it starts.
abbrev pub device_files : Client → DeviceFiles
device_files c = record {
  client_key_file = some (c.static_pub_key ++ c.static_priv_key);
  gca_pub_key_file = some c.gca_pub_key_file;
  gca_server_map_file = some c.gca_server_map_file;
  history_file = some c.static_history_file;
  short_id_file = some c.short_id_file;
}

-- The files hold what the memory holds, but for the servers.
pub record IsSaved (c : Client) : Type 0 where
  pub gca_saved : c.gca_pub_key_file ≡ c.gca_pub_key
  pub short_id_saved : c.short_id_file ≡ put_uint 4 c.short_id
  pub offset_saved : uint (slice 0 4 c.static_history_file) ≡ c.static_history_offset
  pub public_long : length c.static_pub_key ≡ 32
  pub private_long : length c.static_priv_key ≡ 32
  pub gca_long : length c.gca_pub_key ≡ 32
  pub begun : 4 ≤ length c.static_history_file
  pub short_id_fits : c.short_id < 2 ^ 32

-- The servers and their file are no part of what is saved here.
with_servers :
    (c : Client) (raw : List ℕ) (servers : Map PublicKey GcaServer)
    → IsSaved c
    → IsSaved (record c { gca_server_map_file = raw; gca_servers = servers })
with_servers c raw servers h = record {
  gca_saved = h.gca_saved;
  short_id_saved = h.short_id_saved;
  offset_saved = h.offset_saved;
  public_long = h.public_long;
  private_long = h.private_long;
  gca_long = h.gca_long;
  begun = h.begun;
  short_id_fits = h.short_id_fits;
}

save_servers-IsSaved : (c c' : Client) → save_servers c ≡ ok c' → IsSaved c → IsSaved c'
unfolding save_servers
save_servers-IsSaved c c' e h =
    let (raw, written, rest) = >>=-eq-ok (or_panic (serialize_gca_server_map c.gca_servers)) _ e in
    let (_, _, last) = >>=-eq-ok (check c.writable) _ rest in
    let same : record c { gca_server_map_file = raw } ≡ c' = ground arith in
    subst IsSaved same (with_servers c raw c.gca_servers h)

migrate-IsSaved :
    (c c' : Client) (r : SyncResult)
    → length r.new_gca ≡ 32
    → r.new_short_id < 2 ^ 32
    → migrate c r ≡ ok c'
    → IsSaved c
    → IsSaved c'
unfolding migrate
migrate-IsSaved c c' r long fits e h =
    let (_, _, rest) = >>=-eq-ok (check c.writable) _ e in
    let (raw, written, last) =
      >>=-eq-ok (or_panic (serialize_gca_server_map (add_servers [] r.gca_servers))) _ rest in
    let moved = record c {
      gca_pub_key_file = r.new_gca;
      short_id_file = put_uint 4 r.new_short_id;
      gca_server_map_file = raw;
      gca_pub_key = r.new_gca;
      short_id = r.new_short_id;
      gca_servers = add_servers [] r.gca_servers;
    } in
    let same : moved ≡ c' = ground arith in
    subst IsSaved same (record {
      gca_saved = refl;
      short_id_saved = refl;
      offset_saved = h.offset_saved;
      public_long = h.public_long;
      private_long = h.private_long;
      gca_long = long;
      begun = h.begun;
      short_id_fits = fits;
    })

-- Taking the news keeps the files in step with the memory.
take_news-IsSaved :
    (c c' : Client) (r : SyncResult)
    → length r.new_gca ≡ 32
    → r.new_short_id < 2 ^ 32
    → take_news c r ≡ ok c'
    → IsSaved c
    → IsSaved c'
unfolding take_news
take_news-IsSaved c c' r long fits e h = elim (Bool-cases (is_migration c r)) [
  | inl moving ↦
      let busy : (do m ← migrate c r; save_servers m) ≡ ok c' = ground arith in
      let (m, moved, saved) = >>=-eq-ok (migrate c r) save_servers busy in
      save_servers-IsSaved m c' saved (migrate-IsSaved c m r long fits moved h)
  | inr staying ↦
      let servers = add_servers c.gca_servers r.gca_servers in
      let saved : save_servers (record c { gca_servers = servers }) ≡ ok c' = ground arith in
      save_servers-IsSaved (record c { gca_servers = servers }) c' saved
        (with_servers c c.gca_server_map_file servers h)
]

abbrev contents : Client → Contents
contents c = record {
  public_key = c.static_pub_key;
  private_key = c.static_priv_key;
  gca_key = c.gca_pub_key;
  server_bytes = c.gca_server_map_file;
  history = c.static_history_file;
  short_id = c.short_id;
}

device_files-contents : (c : Client) → IsSaved c → device_files c ≡ files_of (contents c)
device_files-contents c h = rw (h.gca_saved, h.short_id_saved) refl

started-contents :
    (c : Client) (primary : PublicKey)
    → IsSaved c
    → started (contents c) c.gca_servers primary c.writable ≡ record c { primary_server = primary }
started-contents c primary h = ground (arith, sym h.gca_saved, sym h.short_id_saved, h.offset_saved)

-- After a device took the news of a synchronization, a restart gives the same device: the GCA,
-- short ID and servers are those of the news, the keys and the history those of before. Only the
-- primary server is chosen anew. Before the news the files held the memory but for the servers,
-- the fields of the news have their sizes, the device knows some server after it, and the random
-- source does not fail.
pub new_client-take_news :
    (draws : ℕ → Option ℕ) (c c' : Client) (r : SyncResult)
    → AlwaysDraws draws
    → IsSaved c
    → Unique c.gca_servers
    → IsEntries c.gca_servers
    → All IsAuthorizedServer r.gca_servers
    → length r.new_gca ≡ 32
    → r.new_short_id < 2 ^ 32
    → take_news c r ≡ ok c'
    → (length c'.gca_servers == 0) ≡ false
    → (primary : PublicKey) × (new_client draws c'.writable (device_files c')
        ≡ ok (record c' { primary_server = primary }))
new_client-take_news draws c c' r always saved u entries valid long fits e some_server =
    let kept = take_news-IsSaved c c' r long fits e saved in
    let decoded = take_news-restart c c' r u entries valid e in
    let whole : IsWhole (contents c') c'.gca_servers = record {
      public_long = kept.public_long;
      private_long = kept.private_long;
      gca_long = kept.gca_long;
      decoded = decoded;
      some_server = some_server;
      begun = kept.begun;
      short_id_fits = kept.short_id_fits;
    } in
    let (primary, starts) =
      new_client-files_of (contents c') c'.gca_servers whole draws c'.writable always in
    (
      primary,
      ap (new_client draws c'.writable) (device_files-contents c' kept)
          ∙ starts
          ∙ ap ok (started-contents c' primary kept),
    )
