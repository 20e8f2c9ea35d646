-- ===== src/Admin/Posting.antt =====
-- bin/gca-admin/main.go: what a command that posted an authorization went through.
use gca_backend.Base.{
  ℕ, ◌^◌, ◌<◌, ◌≡◌, refl, ap, ◌∙◌, inl, inr, Bool, true, false, Option, some, List, arith, length,
  not, ◌==◌, if◌then◌else◌,
}
use gca_backend.Base.Equality.{ℕ-Eq, bytes-Eq}
use gca_backend.Base.Map.{Map, lookup, lookup-insert}
use gca_backend.Base.Bytes.{put_uint}
use gca_backend.Base.Result.{
  Result, ok, err, panic, guard, >>=-eq-ok, Result-cases, io_failure, no_servers,
}
use gca_backend.Glow.Signatures.{EthCrypto, PublicKey, PrivateKey}
use gca_backend.Glow.Authorization.{EquipmentAuthorization}
use gca_backend.Client.ServerMap.{GcaServer}
use gca_backend.Client.Loading.{DeviceFiles}
use gca_backend.Admin.{GcaData, Entry, Posted, prepare}
use gca_backend.Admin.Equipment.{
  advance, make_device, delivered, new_equipment_cmd, authorization_of,
}
use gca_backend.Admin.Equipment.Made.{make_device-IsMade}
use gca_backend.Admin.Spending.{prepare-id}

-- What a command that posts an authorization went through, when the short ID file holds `n`.
pub record IsPosted (eth : EthCrypto) (source : List (Option PrivateKey)) (clock : ℕ)
    (keys : PublicKey × PrivateKey) (servers : Map PublicKey GcaServer) (entry : Entry) (n : ℕ)
    (s' : GcaData) (ea : EquipmentAuthorization) : Type 0 where
  pub slots : ℕ × ℕ
  pub files : DeviceFiles
  pub made : make_device eth source clock keys servers entry (slots, n) ≡ ok (files, ea)
  pub stored : lookup n s'.clients ≡ some files
  pub some_server : (length servers == 0) ≡ false

prepare-some_server :
    (servers : Map PublicKey GcaServer) (entry : Entry) (s : GcaData) (slots : ℕ × ℕ) (id : ℕ)
    → prepare servers entry s ≡ ok (slots, id)
    → (length servers == 0) ≡ false
unfolding prepare
prepare-some_server servers entry s slots id e =
    let (_, tested, _) = >>=-eq-ok (guard (not (length servers == 0)) no_servers) _ e in
    ground arith

delivered-stored :
    (eth : EthCrypto) (source : List (Option PrivateKey)) (clock : ℕ)
    (keys : PublicKey × PrivateKey) (servers : Map PublicKey GcaServer) (entry : Entry) (n : ℕ)
    (s : GcaData) (p : Posted) (slots : ℕ × ℕ)
    (made : Result (DeviceFiles × EquipmentAuthorization))
    → make_device eth source clock keys servers entry (slots, n) ≡ made
    → (length servers == 0) ≡ false
    → (delivered servers s made).1 ≡ ok p
    → IsPosted eth source clock keys servers entry n (delivered servers s made).0 p.authorization
unfolding authorization_of
delivered-stored eth source clock keys servers entry n s p slots (ok (files, ea)) made some_server
      e =
    let id =
      ap (λ (x : EquipmentAuthorization). x.short_id)
        (make_device-IsMade eth source clock keys.0 keys.1 servers entry slots n files ea
          made).authorized in
    let same : ea ≡ p.authorization = ground arith in
    record {
      slots = slots;
      files = files;
      made = made ∙ ap (λ x. ok (files, x)) same;
      stored = ground (arith, lookup-insert ea.short_id n files s.clients);
      some_server = some_server;
    }
delivered-stored eth source clock keys servers entry n s p slots (err _) made some_server e =
    absurd (ground arith)
delivered-stored eth source clock keys servers entry n s p slots panic made some_server e =
    absurd (ground arith)

writing-IsPosted :
    (eth : EthCrypto) (source : List (Option PrivateKey)) (clock : ℕ)
    (keys : PublicKey × PrivateKey) (servers : Map PublicKey GcaServer) (entry : Entry) (n : ℕ)
    (s : GcaData) (p : Posted) (writable : Bool) (result : GcaData × Result Posted)
    → (result.1 ≡ ok p → IsPosted eth source clock keys servers entry n result.0 p.authorization)
    → (if writable then result else (s, err io_failure)).1 ≡ ok p
    → IsPosted eth source clock keys servers entry n
        (if writable then result else (s, err io_failure)).0
        p.authorization
writing-IsPosted eth source clock keys servers entry n s p true result h e = h e
writing-IsPosted eth source clock keys servers entry n s p false result h e = absurd (ground arith)

pub new_equipment_cmd-IsPosted :
    (eth : EthCrypto) (source : List (Option PrivateKey)) (clock : ℕ)
    (keys : PublicKey × PrivateKey) (servers : Map PublicKey GcaServer) (entry : Entry)
    (s : GcaData) (n : ℕ) (p : Posted)
    → n < 2 ^ 32
    → s.latest_short_id ≡ some (put_uint 4 n)
    → (new_equipment_cmd eth source clock keys servers entry s).1 ≡ ok p
    → IsPosted eth source clock keys servers entry n
        (new_equipment_cmd eth source clock keys servers entry s).0
        p.authorization
unfolding new_equipment_cmd
new_equipment_cmd-IsPosted eth source clock keys servers entry s n p fits there e =
    elim (Result-cases (prepare servers entry s)) [
      | inr (inl (e', failed)) ↦ absurd (ground arith)
      | inr (inr crashed) ↦ absurd (ground arith)
      | inl ((slots, id), prepared) ↦
          let same = prepare-id servers entry s n id slots fits there prepared in
          let some_server = prepare-some_server servers entry s slots id prepared in
          rw (prepared, same)
            (writing-IsPosted eth source clock keys servers entry n s p s.writable _
              (delivered-stored eth source clock keys servers entry n (advance n s) p slots
                (make_device eth source clock keys servers entry (slots, n)) refl some_server)
              (rw (prepared, same) at e))
    ]
