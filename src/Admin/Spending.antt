-- ===== src/Admin/Spending.antt =====
-- bin/gca-admin/main.go: a command that makes equipment spends one short ID.
use gca_backend.Base.{
  ℕ, ◌+◌, ◌%◌, ◌^◌, ◌<◌, ◌≡◌, refl, ap, ◌∙◌, ◌⊎◌, inl, inr, Bool, Option, none, some, List, arith,
  length, Bool-cases, not, ◌==◌, ◌&&◌, if◌then◌else◌,
}
use gca_backend.Base.Equality.{ℕ-Eq, bytes-Eq}
use gca_backend.Base.Map.{Map, lookup, insert, lookup-insert}
use gca_backend.Base.Bytes.{put_uint, length-put_uint, uint-put_uint}
use gca_backend.Base.Result.{
  Result, ok, err, panic, guard, >>=-eq-ok, Result-cases, io_failure, aborted, no_servers,
}
use gca_backend.Glow.Signatures.{EthCrypto, PublicKey, PrivateKey}
use gca_backend.Glow.Authorization.{EquipmentAuthorization}
use gca_backend.Client.ServerMap.{GcaServer}
use gca_backend.Client.Loading.{DeviceFiles}
use gca_backend.Admin.{
  GcaData, Entry, Posted, create_temp_keys, new_gca, authorize_server, init_equipment_cmd,
  next_short_id, prepare, timeslots_of,
}
use gca_backend.Admin.Equipment.{
  advance, make_device, delivered, is_finite, new_equipment_cmd, authorization_of,
}
use gca_backend.Admin.Equipment.Made.{make_device-IsMade}
use gca_backend.Admin.Commands.{
  Call, Command, Outcome, run, run_command, run_loaded, settle_posted, load_all, Loaded,
}
use gca_backend.Admin.Effects.{
  id_of, Unspent, Unspent-refl, Spent, Effect, settle-Effect, create_temp_keys-Unspent,
  new_gca-Unspent, authorize_server-Unspent, init_equipment_cmd-err, load_all-Effect,
}

-- The short ID that is used is the one in the file.
pub prepare-id :
    (servers : Map PublicKey GcaServer) (entry : Entry) (s : GcaData) (n id : ℕ) (slots : ℕ × ℕ)
    → n < 2 ^ 32
    → s.latest_short_id ≡ some (put_uint 4 n)
    → prepare servers entry s ≡ ok (slots, id)
    → id ≡ n
unfolding prepare next_short_id
prepare-id servers entry s n id slots fits there e =
    let (_, _, e1) = >>=-eq-ok (guard (not (length servers == 0)) no_servers) _ e in
    let (_, _, e2) = >>=-eq-ok (guard entry.confirmed aborted) _ e1 in
    let (_, _, e3) = >>=-eq-ok (timeslots_of entry) _ e2 in
    let (value, found, last) = >>=-eq-ok (next_short_id s) _ e3 in
    let read : next_short_id s ≡ ok n =
      rw there (ground (arith, length-put_uint 4 n, uint-put_uint 4 n fits)) in
    ground arith

make_device-id :
    (eth : EthCrypto) (source : List (Option PrivateKey)) (clock : ℕ)
    (keys : PublicKey × PrivateKey) (servers : Map PublicKey GcaServer) (entry : Entry)
    (slots : ℕ × ℕ) (id : ℕ) (files : DeviceFiles) (ea : EquipmentAuthorization)
    → make_device eth source clock keys servers entry (slots, id) ≡ ok (files, ea)
    → ea.short_id ≡ id
unfolding authorization_of
make_device-id eth source clock keys servers entry slots id files ea e =
    ap (λ (x : EquipmentAuthorization). x.short_id)
      (make_device-IsMade eth source clock keys.0 keys.1 servers entry slots id files ea
        e).authorized

Spent-made :
    (n : ℕ) (s : GcaData) (clients : Map ℕ DeviceFiles) (outcome : Outcome)
    → n + 1 < 2 ^ 32
    → (id_of outcome ≡ none) ⊎ (id_of outcome ≡ some n)
    → ((id : ℕ) → id < n → lookup id clients ≡ lookup id s.clients)
    → Spent n s (record (advance n s) { clients = clients }) outcome
unfolding advance
Spent-made n s clients outcome fits id kept = record {
  next_short_id = let e : (n + 1) % 2 ^ 32 ≡ n + 1 = omega arith in rw e refl;
  posted_id = id;
  kept = kept;
}

delivered-Spent :
    (n : ℕ) (servers : Map PublicKey GcaServer) (s : GcaData)
    (made : Result (DeviceFiles × EquipmentAuthorization))
    → n + 1 < 2 ^ 32
    → ((files : DeviceFiles) (ea : EquipmentAuthorization)
        → made ≡ ok (files, ea)
        → ea.short_id ≡ n)
    → Spent n s
        (settle_posted (delivered servers (advance n s) made)).0
        (settle_posted (delivered servers (advance n s) made)).1
unfolding advance
delivered-Spent n servers s (ok (files, ea)) fits h =
    let same = h files ea refl in
    let kept : (id : ℕ)
        → id < n
        → lookup id (insert ea.short_id files s.clients) ≡ lookup id s.clients =
      λ id below. ground (arith, lookup-insert ea.short_id id files s.clients) in
    elim (Bool-cases (is_finite ea.latitude && is_finite ea.longitude)) [
      | inl finite ↦ rw finite (Spent-made n s _ _ fits (inr (ap some same)) kept)
      | inr infinite ↦ rw infinite (Spent-made n s _ _ fits (inl refl) kept)
    ]
delivered-Spent n servers s (err e) fits h =
    Spent-made n s s.clients _ fits (inl refl) (λ id below. refl)
delivered-Spent n servers s panic fits h =
    Spent-made n s s.clients _ fits (inl refl) (λ id below. refl)

writing-Effect :
    (n : ℕ) (s : GcaData) (writable : Bool) (result : GcaData × Result Posted)
    → Spent n s (settle_posted result).0 (settle_posted result).1
    → Effect n s (settle_posted (if writable then result else (s, err io_failure)))
writing-Effect n s Bool.true result h = inr h
writing-Effect n s Bool.false result h = inl (Unspent-refl s, refl)

new_equipment_cmd-Effect :
    (eth : EthCrypto) (source : List (Option PrivateKey)) (clock : ℕ)
    (keys : PublicKey × PrivateKey) (servers : Map PublicKey GcaServer) (entry : Entry)
    (s : GcaData) (n : ℕ)
    → n + 1 < 2 ^ 32
    → s.latest_short_id ≡ some (put_uint 4 n)
    → Effect n s (settle_posted (new_equipment_cmd eth source clock keys servers entry s))
unfolding new_equipment_cmd
new_equipment_cmd-Effect eth source clock keys servers entry s n fits there =
    elim (Result-cases (prepare servers entry s)) [
      | inr (inl (e, failed)) ↦ rw failed (inl (Unspent-refl s, refl))
      | inr (inr crashed) ↦ rw crashed (inl (Unspent-refl s, refl))
      | inl ((slots, id), prepared) ↦
          let same = prepare-id servers entry s n id slots (omega arith) there prepared in
          rw (prepared, same)
            (writing-Effect n s s.writable _ (
              delivered-Spent n servers s
                (make_device eth source clock keys servers entry (slots, n)) fits
                (λ files ea made.
                  make_device-id eth source clock keys servers entry slots n files ea made)))
    ]

run_loaded-Effect :
    (eth : EthCrypto) (call : Call) (s : GcaData) (l : Loaded) (n : ℕ) (command : Command)
    → n + 1 < 2 ^ 32
    → s.latest_short_id ≡ some (put_uint 4 n)
    → Effect n s (run_loaded eth call s l command)
unfolding run_loaded
run_loaded-Effect eth call s l n Command.help fits there = inl (Unspent-refl s, refl)
run_loaded-Effect eth call s l n Command.make_gca fits there = inl (Unspent-refl s, refl)
run_loaded-Effect eth call s l n (Command.authorize location answer) fits there =
    settle-Effect n s (authorize_server eth l.gca_public l.temp_private l.servers location answer s)
      (λ s' e.
        authorize_server-Unspent eth l.gca_public l.temp_private l.servers location answer s s' e)
run_loaded-Effect eth call s l n Command.init_equipment fits there =
    settle-Effect n s (init_equipment_cmd s) (λ s' e. init_equipment_cmd-err s s' n there e)
run_loaded-Effect eth call s l n (Command.new_equipment entry) fits there =
    new_equipment_cmd-Effect eth call.source call.clock (l.gca_public, l.gca_private) l.servers
      entry s n fits there
run_loaded-Effect eth call s l n Command.other fits there = inl (Unspent-refl s, refl)

run_command-Effect :
    (eth : EthCrypto) (call : Call) (s : GcaData) (n : ℕ) (command : Command)
    → command ≡ call.command
    → n + 1 < 2 ^ 32
    → s.latest_short_id ≡ some (put_uint 4 n)
    → Effect n s (run_command eth call s command)
run_command-Effect eth call s n Command.help e fits there = inl (Unspent-refl s, refl)
run_command-Effect eth call s n Command.make_gca e fits there =
    settle-Effect n s (new_gca eth call.source s) (λ s' e. new_gca-Unspent eth call.source s s' e)
run_command-Effect eth call s n (Command.authorize location answer) e fits there =
    load_all-Effect eth call n s (load_all s)
      (λ l. run_loaded-Effect eth call s l n call.command fits there)
run_command-Effect eth call s n Command.init_equipment e fits there =
    load_all-Effect eth call n s (load_all s)
      (λ l. run_loaded-Effect eth call s l n call.command fits there)
run_command-Effect eth call s n (Command.new_equipment entry) e fits there =
    load_all-Effect eth call n s (load_all s)
      (λ l. run_loaded-Effect eth call s l n call.command fits there)
run_command-Effect eth call s n Command.other e fits there =
    load_all-Effect eth call n s (load_all s)
      (λ l. run_loaded-Effect eth call s l n call.command fits there)

Effect-after :
    (n : ℕ) (s s' : GcaData) (result : GcaData × Outcome)
    → Unspent s s'
    → Effect n s' result
    → Effect n s result
Effect-after n s s' (last, outcome) u h = elim h [
  | inl (v, nothing) ↦ inl (
    record {
      same_short_id = v.same_short_id ∙ u.same_short_id;
      same_clients = v.same_clients ∙ u.same_clients;
    },
    nothing,
  )
  | inr spent ↦ inr (record {
    next_short_id = spent.next_short_id;
    posted_id = spent.posted_id;
    kept = λ id below. spent.kept id below ∙ ap (lookup id) u.same_clients;
  })
]

pub run-Effect :
    (eth : EthCrypto) (call : Call) (s : GcaData) (n : ℕ)
    → n + 1 < 2 ^ 32
    → s.latest_short_id ≡ some (put_uint 4 n)
    → Effect n s (run eth call s)
unfolding run
run-Effect eth call s n fits there = elim (Result-cases (create_temp_keys eth call.temp_source s)) [
  | inr (inl (e, failed)) ↦ rw failed (inl (Unspent-refl s, refl))
  | inr (inr crashed) ↦ rw crashed (inl (Unspent-refl s, refl))
  | inl (s', created) ↦
      let u = create_temp_keys-Unspent eth call.temp_source s s' created in
      rw created (
        Effect-after n s s' (run_command eth call s' call.command) u
          (run_command-Effect eth call s' n call.command refl fits (u.same_short_id ∙ there)))
]
