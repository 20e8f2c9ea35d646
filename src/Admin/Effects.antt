-- ===== src/Admin/Effects.antt =====
-- bin/gca-admin/main.go: what the commands that make no equipment do to the short IDs.
use gca_backend.Base.{
  ℕ, ◌+◌, ◌<◌, ◌≡◌, refl, ◌⊎◌, inl, inr, Option, none, some, List, ◌++◌, arith, Option-cases,
}
use gca_backend.Base.Equality.{ℕ-Eq, bytes-Eq}
use gca_backend.Base.Map.{Map, lookup, insert}
use gca_backend.Base.Bytes.{put_uint}
use gca_backend.Base.Result.{Result, ok, err, panic, ◌>>=◌, ◌>>◌, guard, >>=-eq-ok, io_failure}
use gca_backend.Glow.Signatures.{EthCrypto, PublicKey, PrivateKey, generate_key_pair}
use gca_backend.Client.ServerMap.{GcaServer, serialize_gca_server_map}
use gca_backend.Admin.{
  GcaData, Answer, create_temp_keys, new_gca, authorize_server, init_equipment_cmd, registration_of,
  answered, entry_of,
}
use gca_backend.Admin.Commands.{Call, Outcome, posted, run_loaded, run_loading, settle, Loaded}

-- The short ID of what a command posts.
abbrev pub id_of : Outcome → Option ℕ
id_of (posted p) = some p.authorization.short_id
id_of _ = none

-- No short ID is spent.
pub record Unspent (s s' : GcaData) : Type 0 where
  pub same_short_id : s'.latest_short_id ≡ s.latest_short_id
  pub same_clients : s'.clients ≡ s.clients

pub Unspent-refl : (s : GcaData) → Unspent s s
Unspent-refl s = record { same_short_id = refl; same_clients = refl }

-- What a call may do while the file holds `n`: nothing to the short IDs, or spend `n`.
pub record Spent (n : ℕ) (s s' : GcaData) (outcome : Outcome) : Type 0 where
  pub next_short_id : s'.latest_short_id ≡ some (put_uint 4 (n + 1))
  pub posted_id : (id_of outcome ≡ none) ⊎ (id_of outcome ≡ some n)
  pub kept : (id : ℕ) → id < n → lookup id s'.clients ≡ lookup id s.clients

abbrev pub Effect : ℕ → GcaData → GcaData × Outcome → Type 0
Effect n s (s', outcome) = (Unspent s s' × (id_of outcome ≡ none)) ⊎ Spent n s s' outcome

pub settle-Effect :
    (n : ℕ) (s : GcaData) (r : Result GcaData)
    → ((s' : GcaData) → r ≡ ok s' → Unspent s s')
    → Effect n s (settle s r)
settle-Effect n s (ok s') h = inl (h s' refl, refl)
settle-Effect n s (err e) h = inl (Unspent-refl s, refl)
settle-Effect n s panic h = inl (Unspent-refl s, refl)

pub create_temp_keys-Unspent :
    (eth : EthCrypto) (source : List (Option PrivateKey)) (s s' : GcaData)
    → create_temp_keys eth source s ≡ ok s'
    → Unspent s s'
unfolding create_temp_keys
create_temp_keys-Unspent eth source s s' e = elim (Option-cases s.gca_temp_keys) [
  | inr (bytes, there) ↦ record { same_short_id = ground arith; same_clients = ground arith }
  | inl missing ↦
      let made : (do
        (public, private) ← generate_key_pair eth source
        guard s.writable io_failure
        ok (record s { gca_temp_keys = some (public ++ private); gca_temp_pub_key = some public }))
          ≡ ok s' =
        ground arith in
      let (keys, _, rest) = >>=-eq-ok (generate_key_pair eth source) _ made in
      let (_, _, last) = >>=-eq-ok (guard s.writable io_failure) _ rest in
      record { same_short_id = ground arith; same_clients = ground arith }
]

pub new_gca-Unspent :
    (eth : EthCrypto) (source : List (Option PrivateKey)) (s s' : GcaData)
    → new_gca eth source s ≡ ok s'
    → Unspent s s'
unfolding new_gca
new_gca-Unspent eth source s s' e = elim (Option-cases s.gca_keys) [
  | inr (bytes, there) ↦ absurd (ground arith)
  | inl missing ↦
      let made : (do
        (public, private) ← generate_key_pair eth source
        guard s.writable io_failure
        ok (record s { gca_keys = some (public ++ private) }))
          ≡ ok s' =
        ground arith in
      let (keys, _, rest) = >>=-eq-ok (generate_key_pair eth source) _ made in
      let (_, _, last) = >>=-eq-ok (guard s.writable io_failure) _ rest in
      record { same_short_id = ground arith; same_clients = ground arith }
]

pub authorize_server-Unspent :
    (eth : EthCrypto) (key : PublicKey) (temp : PrivateKey) (servers : Map PublicKey GcaServer)
    (location : List ℕ) (answer : Answer) (s s' : GcaData)
    → authorize_server eth key temp servers location answer s ≡ ok s'
    → Unspent s s'
unfolding authorize_server
authorize_server-Unspent eth key temp servers location answer s s' e =
    let (_, _, e1) = >>=-eq-ok (registration_of eth key temp) _ e in
    let (response, _, e2) = >>=-eq-ok (answered answer) _ e1 in
    let (raw, _, e3) =
      >>=-eq-ok
        (serialize_gca_server_map (insert response.public_key (entry_of location response) servers))
        _ e2 in
    let (_, _, last) = >>=-eq-ok (guard s.writable io_failure) _ e3 in
    record { same_short_id = ground arith; same_clients = ground arith }

pub init_equipment_cmd-err :
    (s s' : GcaData) (n : ℕ)
    → s.latest_short_id ≡ some (put_uint 4 n)
    → init_equipment_cmd s ≡ ok s'
    → Unspent s s'
unfolding init_equipment_cmd
init_equipment_cmd-err s s' n there e = absurd (ground arith)

pub load_all-Effect :
    (eth : EthCrypto) (call : Call) (n : ℕ) (s : GcaData) (r : Result Loaded)
    → ((l : Loaded) → Effect n s (run_loaded eth call s l call.command))
    → Effect n s (run_loading eth call s r)
load_all-Effect eth call n s (ok l) h = h l
load_all-Effect eth call n s (err e) h = inl (Unspent-refl s, refl)
load_all-Effect eth call n s panic h = inl (Unspent-refl s, refl)
