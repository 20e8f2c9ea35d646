-- ===== src/Admin/Commands.antt =====
-- bin/gca-admin/main.go: `main` makes the temporary keys, loads what the command needs, and runs it.
use gca_backend.Base.{ℕ, Option, List}
use gca_backend.Base.Map.{Map}
use gca_backend.Base.Result.{Result, ok, err, panic, ◌>>=◌}
use gca_backend.Glow.Signatures.{EthCrypto, PublicKey, PrivateKey}
use gca_backend.Client.ServerMap.{GcaServer}
use gca_backend.Admin.{
  GcaData, Posted, Entry, Answer, create_temp_keys, new_gca, load_gca_keys, load_temp_private_key,
  load_servers, authorize_server, init_equipment_cmd,
}
use gca_backend.Admin.Equipment.{new_equipment_cmd}

-- The first argument of the command line, with what else the command is given.
pub data Command : Type 0 where
  help : Command
  make_gca : Command
  authorize : List ℕ → Answer → Command
  init_equipment : Command
  new_equipment : Entry → Command
  other : Command

-- One run of the program: what the key generator and the clock give.
pub record Call : Type 0 where
  pub command : Command
  pub temp_source : List (Option PrivateKey)
  pub source : List (Option PrivateKey)
  pub clock : ℕ

pub data Outcome : Type 0 where
  done : Outcome
  failed : Outcome
  posted : Posted → Outcome

-- An error is printed, and leaves the files.
abbrev pub settle : GcaData → Result GcaData → GcaData × Outcome
settle s (ok s') = (s', done)
settle s (err e) = (s, failed)
settle s panic = (s, failed)

abbrev pub settle_posted : GcaData × Result Posted → GcaData × Outcome
settle_posted (s, ok p) = (s, posted p)
settle_posted (s, err e) = (s, failed)
settle_posted (s, panic) = (s, failed)

pub record Loaded : Type 0 where
  pub gca_public : PublicKey
  pub gca_private : PrivateKey
  pub temp_private : PrivateKey
  pub servers : Map PublicKey GcaServer

-- What every command but `help` and `new-gca` loads first.
unfoldable pub load_all : GcaData → Result Loaded
load_all s = do
  (public, private) ← load_gca_keys s
  temp ← load_temp_private_key s
  servers ← load_servers s
  ok (record { gca_public = public; gca_private = private; temp_private = temp; servers = servers })

unfoldable pub run_loaded : EthCrypto → Call → GcaData → Loaded → Command → GcaData × Outcome
run_loaded eth call s l help = (s, done)
run_loaded eth call s l make_gca = (s, done)
run_loaded eth call s l (authorize location answer) =
    settle s (authorize_server eth l.gca_public l.temp_private l.servers location answer s)
run_loaded eth call s l init_equipment = settle s (init_equipment_cmd s)
run_loaded eth call s l (new_equipment entry) =
    settle_posted
      (new_equipment_cmd eth call.source call.clock (l.gca_public, l.gca_private) l.servers entry s)
run_loaded eth call s l other = (s, done)

abbrev pub run_loading : EthCrypto → Call → GcaData → Result Loaded → GcaData × Outcome
run_loading eth call s (ok l) = run_loaded eth call s l call.command
run_loading eth call s (err e) = (s, failed)
run_loading eth call s panic = (s, failed)

abbrev pub run_command : EthCrypto → Call → GcaData → Command → GcaData × Outcome
run_command eth call s help = (s, done)
run_command eth call s make_gca = settle s (new_gca eth call.source s)
run_command eth call s _ = run_loading eth call s (load_all s)

abbrev pub run_created : EthCrypto → Call → GcaData → Result GcaData → GcaData × Outcome
run_created eth call s (ok s') = run_command eth call s' call.command
run_created eth call s (err e) = (s, failed)
run_created eth call s panic = (s, failed)

unfoldable pub run : EthCrypto → Call → GcaData → GcaData × Outcome
run eth call s = run_created eth call s (create_temp_keys eth call.temp_source s)
