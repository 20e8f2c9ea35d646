-- ===== src/Server/Equipment/Restart.antt =====
-- server/equipment.go: a restart rebuilds from the file what the running server held.
pub mod Replay
use gca_backend.Base.{
  ℕ, zero, suc, ◌≤◌, ◌<◌, ◌≡◌, refl, sym, ap, subst, ◌∙◌, Bool, true, Option, none, some, List, [],
  ◌∷◌, ◌++◌, arith, Option-cases, Bool-cases, inl, inr, ◌⊎◌, ◌↔◌, length, take, drop, All,
  length-append, All-append, take-append_self, drop-append, append_assoc, append-nil,
}
use gca_backend.Base.Equality.{bytes_eq_iff, ℕ-Eq}
use gca_backend.Base.Map.{lookup, lookup-insert, lookup-delete}
use gca_backend.Base.Result.{ok}
use gca_backend.Glow.Signatures.{EthCrypto}
use gca_backend.Glow.Authorization
use gca_backend.Glow.Authorization.{EquipmentAuthorization, authorization_eq, deserialize}
use gca_backend.Glow.Authorization.RoundTrip.{length-serialize, deserialize-serialize}
use gca_backend.Glow.Authorization.Equality.{IsRegular, authorization_eq_iff, serialize_injective}
use gca_backend.Server.State.{GcaServer, Disk, append_file}
use gca_backend.Server.Equipment.{
  add_equipment, ban_equipment, add_recent_equipment_auth, save_equipment, settle, is_same,
  same_bytes, load_one, load_all, load_equipment, read_authorizations, authorize_equipment,
  verify_equipment_authorization,
}
use gca_backend.Server.Equipment.Restart.Replay.{
  with_disk, load_one-with_disk, load_all-with_disk, load_all-append, AllRegular,
  save_equipment_cases, encode, encode-append, read_authorizations-encode, load_all-key,
  load_one-AllRegular,
}

-- What the file and the memory of a running server have to do with one another: `log` are the
-- authorizations in the file.
record Tracks (eth : EthCrypto) (s0 s : GcaServer) (log : List EquipmentAuthorization)
    : Type 0 where
  file : s.disk.authorizations ≡ some (encode log)
  memory : s ≡ with_disk (load_all s0 log) s.disk
  verified : All (λ ea. verify_equipment_authorization eth s0 ea ≡ true) log
  log_regular : All IsRegular log
  known_regular : AllRegular s

key_verifies :
    (eth : EthCrypto) (s s' : GcaServer) (ea : EquipmentAuthorization)
    → s.gca_pubkey ≡ s'.gca_pubkey
    → verify_equipment_authorization eth s ea ≡ true
    → verify_equipment_authorization eth s' ea ≡ true
unfolding verify_equipment_authorization
key_verifies eth s s' ea key v = rw key at v

save-Tracks :
    (eth : EthCrypto) (s0 s : GcaServer) (log : List EquipmentAuthorization)
    (ea : EquipmentAuthorization)
    → Tracks eth s0 s log
    → IsRegular ea
    → verify_equipment_authorization eth s ea ≡ true
    → (log' : List EquipmentAuthorization) × Tracks eth s0 (save_equipment s ea).0 log'
save-Tracks eth s0 s log ea t reg ver = elim (save_equipment_cases s ea t.known_regular reg) [
  | inl same ↦ (log, subst (λ x. Tracks eth s0 x log) (sym same) t)
  | inr (old, there, new) ↦
      let d : Disk = record s.disk { authorizations = some (old ++ Authorization.serialize ea) } in
      let key : s.gca_pubkey ≡ s0.gca_pubkey =
        ap (λ (x : GcaServer). x.gca_pubkey) t.memory ∙ load_all-key s0 log in
      let same_key = key_verifies eth s s0 ea key ver in
      let content : old ≡ encode log = ground (arith, t.file) in
      (
        log ++ (ea ∷ []),
        subst (λ x. Tracks eth s0 x (log ++ (ea ∷ []))) (sym new)
            (record {
              file =
                  ap some (
                    ap (λ o. o ++ Authorization.serialize ea) content ∙ sym (encode-append log ea));
              memory =
                  ap (λ x. with_disk (load_one x ea) d) t.memory
                  ∙ ap (λ x. with_disk x d) (load_one-with_disk (load_all s0 log) s.disk ea)
                  ∙ ap (λ x. with_disk x d) (sym (load_all-append s0 log ea));
              verified = All-append _ log (ea ∷ []) t.verified (same_key, tt);
              log_regular = All-append IsRegular log (ea ∷ []) t.log_regular (reg, tt);
              known_regular = load_one-AllRegular s ea t.known_regular reg;
            }),
      )
]

unfoldable pub authorize_all : EthCrypto → GcaServer → List EquipmentAuthorization → GcaServer
authorize_all eth s [] = s
authorize_all eth s (ea ∷ eas) = authorize_all eth (authorize_equipment eth s ea).0 eas

authorize_cases :
    (eth : EthCrypto) (s : GcaServer) (ea : EquipmentAuthorization)
    → ((authorize_equipment eth s ea).0 ≡ s)
      ⊎ ((verify_equipment_authorization eth s ea ≡ true)
          × ((authorize_equipment eth s ea).0 ≡ (save_equipment s ea).0))
unfolding authorize_equipment
authorize_cases eth s ea = ground arith

authorize-Tracks :
    (eth : EthCrypto) (s0 s : GcaServer) (log : List EquipmentAuthorization)
    (ea : EquipmentAuthorization)
    → Tracks eth s0 s log
    → IsRegular ea
    → (log' : List EquipmentAuthorization) × Tracks eth s0 (authorize_equipment eth s ea).0 log'
authorize-Tracks eth s0 s log ea t reg = elim (authorize_cases eth s ea) [
  | inl same ↦ (log, subst (λ x. Tracks eth s0 x log) (sym same) t)
  | inr (good, saved) ↦
      let (log', t') = save-Tracks eth s0 s log ea t reg good in
      (log', subst (λ x. Tracks eth s0 x log') (sym saved) t')
]

authorize_all-Tracks :
    (eth : EthCrypto) (s0 s : GcaServer) (log eas : List EquipmentAuthorization)
    → Tracks eth s0 s log
    → All IsRegular eas
    → (log' : List EquipmentAuthorization) × Tracks eth s0 (authorize_all eth s eas) log'
unfolding authorize_all
authorize_all-Tracks eth s0 s log [] t reg = (log, t)
authorize_all-Tracks eth s0 s log (ea ∷ eas) t reg =
    let (log', t') = authorize-Tracks eth s0 s log ea t reg.0 in
    authorize_all-Tracks eth s0 (authorize_equipment eth s ea).0 log' eas t' reg.1

load_file :
    (eth : EthCrypto) (s : GcaServer) (raw : List ℕ) (eas : List EquipmentAuthorization)
    → s.disk.authorizations ≡ some raw
    → read_authorizations eth s (length raw) raw ≡ ok eas
    → load_equipment eth s ≡ ok (load_all s eas)
unfolding load_equipment
load_file eth s raw eas there parsed = ground arith

loads :
    (eth : EthCrypto) (s0 s : GcaServer) (log : List EquipmentAuthorization)
    → Tracks eth s0 s log
    → load_equipment eth (with_disk s0 s.disk) ≡ ok s
loads eth s0 s log t =
    let parsed =
      read_authorizations-encode eth (with_disk s0 s.disk) (length (encode log)) log t.log_regular
        (unfold verify_equipment_authorization in t.verified) (omega arith) in
    load_file eth (with_disk s0 s.disk) (encode log) log t.file parsed
    ∙ ap ok (load_all-with_disk s0 s.disk log ∙ sym t.memory)

-- Start a server with an empty authorization file and no equipment, and let any authorizations arrive,
-- good or bad, conflicting or not. Reading the file into the server as it
-- was at the start gives the running server's state: the same equipment, short IDs, bans, blank arrays
-- and recent authorizations. The coordinates may be any numbers but NaN and the negative zero.
pub load_equipment-authorize_all :
    (eth : EthCrypto) (s0 : GcaServer) (eas : List EquipmentAuthorization)
    → s0.disk.authorizations ≡ some []
    → s0.equipment ≡ []
    → All IsRegular eas
    → load_equipment eth (record s0 { disk = (authorize_all eth s0 eas).disk })
      ≡ ok (authorize_all eth s0 eas)
load_equipment-authorize_all eth s0 eas fresh nothing reg =
    let start : Tracks eth s0 s0 [] = record {
      file = fresh;
      memory = unfold load_all in refl;
      verified = tt;
      log_regular = tt;
      known_regular = λ id ea found. absurd (no_entry id ea found);
    } in
    let (log, t) = authorize_all-Tracks eth s0 s0 [] eas start reg in
    loads eth s0 (authorize_all eth s0 eas) log t
  where
    no_entry : (id : ℕ) (ea : EquipmentAuthorization) → ¬ (lookup id s0.equipment ≡ some ea)
    no_entry id ea found = unfold lookup in cc (rw nothing at found)
