-- ===== src/Examples/Sync.antt =====
-- The synchronization of the device with the server, without and with an order.
use gca_backend.Base.{ℕ, ◌≡◌, refl, none, List, [], ◌∷◌, arith, ap, ◌∙◌}
use gca_backend.Base.Equality.{ℕ-Eq, bytes-Eq, bytes_eq}
use gca_backend.Base.Map.{lookup}
use gca_backend.Base.Bytes.{put_uint}
use gca_backend.Base.Result.{ok}
use gca_backend.Glow.Signatures.{verify}
use gca_backend.Server.Reports.{blank_report}
use gca_backend.Server.AuthorizedServer.{serialize}
use gca_backend.Server.Sync.{bitfield_from, handle_sync_conn}
use gca_backend.Client.Sync.{SyncResult, blank, static_server_sync, read_response, check_servers}
use gca_backend.Client.Sync.Authentic.{IsAuthentic, static_server_sync-IsAuthentic}
use gca_backend.Client.Sync.RoundTrip.{IsServed, static_server_sync-handle_sync_conn}
use gca_backend.Examples.{
  toy_crypto, key_of, key_pair, server, device, server_entry, server_entry-IsAuthorizedServer,
  value_or,
}

served : IsServed toy_crypto server 7 (key_of 9) (key_of 1) none
unfolding lookup check_servers verify bytes_eq serialize put_uint
served = record {
  ea = device;
  reports = λ i. blank_report;
  known_equipment = refl;
  known_reports = refl;
  known_order = refl;
  order_valid = tt;
  key_long = refl;
  offset_fits = omega arith;
  servers_valid = (server_entry-IsAuthorizedServer, tt);
  servers_signed = refl;
  servers_fit = omega arith;
  key_pair = key_pair 9;
}

abbrev told : SyncResult
told = record {
  timeslot_offset = 2016;
  bitfield = bitfield_from 504 0 (λ i. blank_report);
  new_gca = blank;
  new_short_id = 0;
  gca_servers = server_entry ∷ [];
}

static_server_sync-handle_sync_conn_example :
    (stream : List ℕ) × (handle_sync_conn toy_crypto server 7 1700400000 ≡ ok stream)
    × (static_server_sync toy_crypto (key_of 5) (key_of 9) (key_of 1) 1700400100 stream ≡ ok told)
unfolding served
static_server_sync-handle_sync_conn_example =
    static_server_sync-handle_sync_conn served 1700400000 1700400100 (omega arith) refl

-- What the server wrote, and that the device accepts it.
stream : List ℕ
stream = value_or [] (handle_sync_conn toy_crypto server 7 1700400000)

accepted :
    static_server_sync toy_crypto (key_of 5) (key_of 9) (key_of 1) 1700400100 stream ≡ ok told
unfolding stream served
accepted =
    let (bytes, written, read) =
      static_server_sync-handle_sync_conn served 1700400000 1700400100 (omega arith) refl in
    ap
      (λ r.
        static_server_sync toy_crypto (key_of 5) (key_of 9) (key_of 1) 1700400100 (value_or [] r))
      written
    ∙ read

static_server_sync-IsAuthentic_example :
    (resp : List ℕ) × (read_response stream ≡ ok resp)
    × IsAuthentic toy_crypto (key_of 5) (key_of 9) (key_of 1) 1700400100 resp told
static_server_sync-IsAuthentic_example =
    static_server_sync-IsAuthentic toy_crypto (key_of 5) (key_of 9) (key_of 1) 1700400100 stream
      told accepted
