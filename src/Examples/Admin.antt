-- ===== src/Examples/Admin.antt =====
-- The theorems on `gca-admin`, for a GCA that makes two devices.
use gca_backend.Base.{
  ℕ, ◌^◌, ◌<◌, ◌≡◌, refl, some, true, List, [], ◌∷◌, ◌++◌, length, arith, ap, subst,
}
use gca_backend.Base.Equality.{ℕ-Eq, bytes-Eq}
use gca_backend.Base.Map.{lookup}
use gca_backend.Base.Bytes.{put_uint, uint}
use gca_backend.Base.Result.{ok}
use gca_backend.Glow.Signatures.{Signature, IsKeyPair, generate_key_pair, generate_loop, sign}
use gca_backend.Glow.Timeslot.{current_timeslot, unix_to_timeslot}
use gca_backend.Server.Equipment.{authorize_equipment}
use gca_backend.Server.Equipment.Status.{status}
use gca_backend.Server.Reports.{parse_report}
use gca_backend.Client.State.{Client}
use gca_backend.Client.ServerMap.{serialize_gca_server_map}
use gca_backend.Client.Loading.{DeviceFiles, new_client}
use gca_backend.Client.Reports.{EnergyRecord, report_of, static_send_report}
use gca_backend.Admin.{GcaData, Entry, Posted, prepare, timeslots_of, next_short_id}
use gca_backend.Admin.Equipment.{new_equipment_cmd, make_device, authorization_of}
use gca_backend.Admin.Commands.{Call, new_equipment}
use gca_backend.Admin.ShortIds.{run_all, IsIncreasing, run_all-IsIncreasing}
use gca_backend.Admin.Provision.{GivesPairs, IsReady, new_equipment_cmd-parse_report}
use gca_backend.Examples.{
  toy_crypto, key_of, key_pair, owned_server, device, is_ok, value_or, is_ok→value,
}
use gca_backend.Examples.Devices.{known, known-Unique, known-IsEntries}
use gca_backend.Examples.Startup.{draws, draws-AlwaysDraws}

-- The directory of GCA 1, whose temporary key is 3.
abbrev gca : GcaData
gca = record {
  gca_keys = some (key_of 1 ++ key_of 1);
  gca_temp_keys = some (key_of 3 ++ key_of 3);
  gca_temp_pub_key = some (key_of 3);
  gca_servers = some (value_or [] (serialize_gca_server_map known));
  latest_short_id = some (put_uint 4 7);
  clients = [];
  writable = true;
}

abbrev entry : Entry
entry = record {
  latitude = 0;
  longitude = 0;
  capacity = 12000;
  debt = 5;
  expiration = 1;
  init_unix = 1700353000;
  protocol_fee = 9;
  confirmed = true;
}

abbrev call : Call
call = record {
  command = new_equipment entry;
  temp_source = [];
  source = some (key_of 5) ∷ [];
  clock = 1700353000;
}

run_all-IsIncreasing_example :
    IsIncreasing 7 (run_all toy_crypto (call ∷ call ∷ []) gca).1
    × ((id : ℕ)
        → id < 7
        → lookup id (run_all toy_crypto (call ∷ call ∷ []) gca).0.clients ≡ lookup id gca.clients)
run_all-IsIncreasing_example =
    run_all-IsIncreasing toy_crypto (call ∷ call ∷ []) gca 7 (omega arith) refl

gives_pairs : GivesPairs toy_crypto (some (key_of 5) ∷ [])
unfolding generate_key_pair generate_loop
gives_pairs public private e =
    subst
      (λ (keys : List ℕ × List ℕ).
        IsKeyPair toy_crypto keys.0 keys.1 × (length keys.0 ≡ 32) × (length keys.1 ≡ 32))
      (ap (value_or (key_of 5, key_of 5)) e) (key_pair 5, refl, refl)

abbrev nothing_posted : Posted
nothing_posted = record { authorization = device; recipients = [] }

abbrev posted : Posted
posted =
    value_or nothing_posted
      (new_equipment_cmd toy_crypto call.source call.clock (key_of 1, key_of 1) known entry gca).1

made :
    is_ok
      (new_equipment_cmd toy_crypto call.source call.clock (key_of 1, key_of 1) known entry gca).1
    ≡ true
unfolding new_equipment_cmd make_device prepare timeslots_of next_short_id generate_key_pair
    generate_loop serialize_gca_server_map sign unix_to_timeslot current_timeslot uint put_uint
    authorization_of
made = refl

ready : IsReady (key_of 1) 7 owned_server
unfolding status lookup
ready = record {
  owned = refl;
  available = refl;
  fresh = refl;
  writable = refl;
  old = [];
  file = refl;
}

new_equipment_cmd-parse_report_example :
    (files : DeviceFiles) × (c : Client) × (lookup 7
        (new_equipment_cmd toy_crypto call.source call.clock
          (key_of 1, key_of 1)
          known
          entry
          gca).0.clients
      ≡ some files)
    × (new_client draws true files ≡ ok c)
    × ((authorize_equipment toy_crypto owned_server posted.authorization).1 ≡ ok true)
    × ((er : EnergyRecord)
        → er.timeslot < 2 ^ 32
        → er.energy < 2 ^ 64
        → (bytes : List ℕ) × (signature : Signature) × (static_send_report toy_crypto c er
            ≡ ok bytes)
          × (parse_report toy_crypto
                (authorize_equipment toy_crypto owned_server posted.authorization).0
                bytes
              ≡ ok (report_of c er signature)))
new_equipment_cmd-parse_report_example =
    new_equipment_cmd-parse_report draws toy_crypto call.source call.clock (key_of 1) (key_of 1)
      known entry gca 7 posted owned_server draws-AlwaysDraws gives_pairs (key_pair 1) refl
      known-Unique known-IsEntries (omega arith) refl
      (is_ok→value nothing_posted
        (new_equipment_cmd toy_crypto call.source call.clock (key_of 1, key_of 1) known entry gca).1
        made)
      ready
