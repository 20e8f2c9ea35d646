-- ===== src/Server/Start.antt =====
-- server/server.go: `NewGCAServer` up to the start of its threads.
pub mod Files
pub mod Restart
pub mod Stuck
use gca_backend.Base.{ℕ, Bool, true, false, Option, none, some, List, [], replicate}
use gca_backend.Base.Result.{Result, ok, err, panic, missing_file, ◌>>=◌, ◌>>◌, guard}
use gca_backend.Glow.Signatures.{EthCrypto, PrivateKey}
use gca_backend.Server.State.{GcaServer, Disk}
use gca_backend.Server.Registration.{load_server_keys, load_gca_temp_key, load_gca_pubkey}
use gca_backend.Server.Equipment.{load_equipment}
use gca_backend.Server.Reports.{load_equipment_reports}
use gca_backend.Server.Weeks.{Answers, load_equipment_history}
use gca_backend.Server.Impact.{week_data}

-- `&GCAServer{…}`: empty maps, and the zero values of the other fields.
abbrev pub blank_server : Disk → GcaServer
blank_server disk = record {
  equipment = [];
  equipment_short_id = [];
  equipment_bans = [];
  equipment_impact_rate = [];
  equipment_migrations = [];
  equipment_reports = [];
  equipment_reports_offset = 0;
  equipment_stats_history = [];
  equipment_history_offset = 0;
  recent_equipment_auths = [];
  recent_reports = [];
  gca_pubkey = replicate 32 0;
  gca_pubkey_available = false;
  gca_temp_key = replicate 32 0;
  gca_servers = [];
  static_private_key = replicate 32 0;
  static_public_key = replicate 32 0;
  disk = disk;
}

-- What WattTime answers for the week; without an answer the error is logged, and the start goes on.
abbrev pub first_week : Option Answers → GcaServer → Result GcaServer
first_week none s = ok s
first_week (some answers) s = week_data s answers

-- The files are loaded in this order; `credentials` says whether the two files for WattTime are there. What
-- a start that fails has written is not tracked.
unfoldable pub new_gca_server :
    EthCrypto → List (Option PrivateKey) → Bool → Option Answers → Disk → Result GcaServer
new_gca_server eth source credentials answers disk = do
  s1 ← load_server_keys eth source (blank_server disk)
  s2 ← load_gca_temp_key s1
  s3 ← load_equipment eth (load_gca_pubkey s2)
  s4 ← load_equipment_history s3
  s5 ← load_equipment_reports eth s4
  guard credentials missing_file
  first_week answers s5
