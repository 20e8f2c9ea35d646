-- ===== src/Server/Equipment/Restart/Replay.antt =====
-- server/equipment.go: what saving does to the state and the file, and what loading makes of the file.
use gca_backend.Base.{
  ℕ, zero, suc, ◌≤◌, ◌<◌, ◌≡◌, refl, sym, ap, subst, ◌∙◌, Bool, true, Option, none, some, List, [],
  ◌∷◌, ◌++◌, arith, Option-cases, Bool-cases, inl, inr, ◌⊎◌, ◌↔◌, length, take, drop, All,
  length-append, take-append_self, drop-append, append_assoc, append-nil,
}
use gca_backend.Base.Equality.{bytes_eq_iff, ℕ-Eq}
use gca_backend.Base.Map.{lookup, lookup-insert, lookup-delete}
use gca_backend.Base.Result.{ok}
use gca_backend.Glow.Signatures.{EthCrypto}
use gca_backend.Glow.Authorization
use gca_backend.Glow.Authorization.{EquipmentAuthorization, authorization_eq, deserialize}
use gca_backend.Glow.Authorization.RoundTrip.{length-serialize, deserialize-serialize}
use gca_backend.Glow.Authorization.Equality.{IsRegular, authorization_eq_iff, serialize_injective}
use gca_backend.Server.State.{GcaServer, Disk, append_file}
use gca_backend.Server.Equipment.{
  add_equipment, ban_equipment, add_recent_equipment_auth, save_equipment, settle, is_same,
  same_bytes, load_one, load_all, read_authorizations, verify_equipment_authorization,
}

pub Bool-ext : (p q : Bool) → ((p ≡ true) ↔ (q ≡ true)) → p ≡ q
Bool-ext p q h = ground arith

pub same_test :
    (a b : EquipmentAuthorization)
    → IsRegular a
    → IsRegular b
    → authorization_eq a b ≡ same_bytes a b
unfolding same_bytes
same_test a b ha hb =
    let (to, from) = authorization_eq_iff a b ha hb in
    let (read, write) = bytes_eq_iff (Authorization.serialize a) (Authorization.serialize b) in
    Bool-ext _ _ (
      λ e. write (ap Authorization.serialize (to e)),
      λ e. from (serialize_injective a b ha.valid hb.valid (read e)),
    )

abbrev pub with_disk : GcaServer → Disk → GcaServer
with_disk s d = record s { disk = d }

pub load_one-with_disk :
    (s : GcaServer) (d : Disk) (ea : EquipmentAuthorization)
    → load_one (with_disk s d) ea ≡ with_disk (load_one s ea) d
unfolding load_one add_equipment ban_equipment add_recent_equipment_auth
load_one-with_disk s d ea = ground arith

pub load_all-with_disk :
    (s : GcaServer) (d : Disk) (eas : List EquipmentAuthorization)
    → load_all (with_disk s d) eas ≡ with_disk (load_all s eas) d
unfolding load_all
load_all-with_disk s d [] = refl
load_all-with_disk s d (ea ∷ eas) =
    ap (λ t. load_all t eas) (load_one-with_disk s d ea) ∙ load_all-with_disk (load_one s ea) d eas

pub load_all-append :
    (s : GcaServer) (eas : List EquipmentAuthorization) (ea : EquipmentAuthorization)
    → load_all s (eas ++ (ea ∷ [])) ≡ load_one (load_all s eas) ea
unfolding load_all
load_all-append s [] ea = refl
load_all-append s (x ∷ eas) ea = load_all-append (load_one s x) eas ea

-- All that is known is regular.
abbrev pub AllRegular : GcaServer → Type 0
AllRegular s =
    (id : ℕ) (ea : EquipmentAuthorization) → lookup id s.equipment ≡ some ea → IsRegular ea

pub same_known :
    (s : GcaServer) (ea : EquipmentAuthorization) (current : Option EquipmentAuthorization)
    → AllRegular s
    → IsRegular ea
    → lookup ea.short_id s.equipment ≡ current
    → is_same authorization_eq current ea ≡ is_same same_bytes current ea
same_known s ea none known reg e = refl
same_known s ea (some c) known reg e = same_test c ea (known ea.short_id c e) reg

-- Saving does nothing, or appends to the file and does in memory what loading does.
pub save_equipment_cases :
    (s : GcaServer) (ea : EquipmentAuthorization)
    → AllRegular s
    → IsRegular ea
    → ((save_equipment s ea).0 ≡ s)
      ⊎ ((old : List ℕ) × (s.disk.authorizations ≡ some old)
          × ((save_equipment s ea).0
              ≡ with_disk
                  (load_one s ea)
                  (record s.disk { authorizations = some (old ++ Authorization.serialize ea) })))
unfolding save_equipment load_one append_file settle add_equipment ban_equipment
    add_recent_equipment_auth
save_equipment_cases s ea known reg =
    let test = same_known s ea (lookup ea.short_id s.equipment) known reg refl in
    elim (Option-cases s.disk.authorizations) [
      | inl missing ↦ inl (ground arith)
      | inr (old, there) ↦ elim (Bool-cases s.disk.writable) [
        | inr locked ↦ inl (ground arith)
        | inl writable ↦ elim (Option-cases (lookup ea.short_id s.equipment_bans)) [
          | inr (_, barred) ↦ inl (ground arith)
          | inl free ↦ elim (Bool-cases (is_same same_bytes (lookup ea.short_id s.equipment) ea)) [
            | inl old_news ↦ inl (ground arith)
            | inr news ↦ inr (old, there, ground arith)
          ]
        ]
      ]
    ]

-- The file that holds these authorizations.
abbrev pub encode : List EquipmentAuthorization → List ℕ
encode [] = []
encode (ea ∷ eas) = Authorization.serialize ea ++ encode eas

pub encode-append :
    (eas : List EquipmentAuthorization) (ea : EquipmentAuthorization)
    → encode (eas ++ (ea ∷ [])) ≡ encode eas ++ Authorization.serialize ea
encode-append [] ea = append-nil (Authorization.serialize ea)
encode-append (x ∷ eas) ea =
    ap (λ t. Authorization.serialize x ++ t) (encode-append eas ea)
    ∙ sym (append_assoc (Authorization.serialize x) (encode eas) (Authorization.serialize ea))

-- One round of the reader on a buffer that is not empty.
pub read_step :
    (eth : EthCrypto) (s : GcaServer) (fuel : ℕ) (raw : List ℕ) (ea : EquipmentAuthorization)
    (eas : List EquipmentAuthorization)
    → 0 < length raw
    → deserialize (take 148 raw) ≡ ok ea
    → verify_equipment_authorization eth s ea ≡ true
    → read_authorizations eth s fuel (drop 148 raw) ≡ ok eas
    → read_authorizations eth s (suc fuel) raw ≡ ok (ea ∷ eas)
unfolding read_authorizations
read_step eth s fuel [] ea eas some_bytes e v r = absurd (omega arith)
read_step eth s fuel (b ∷ bs) ea eas some_bytes e v r = ground arith

pub read_authorizations-encode :
    (eth : EthCrypto) (s : GcaServer) (fuel : ℕ) (eas : List EquipmentAuthorization)
    → All IsRegular eas
    → All (λ ea. verify_equipment_authorization eth s ea ≡ true) eas
    → length (encode eas) ≤ fuel
    → read_authorizations eth s fuel (encode eas) ≡ ok eas
read_authorizations-encode eth s fuel [] reg ver enough = unfold read_authorizations in refl
read_authorizations-encode eth s zero (ea ∷ eas) reg ver enough = absurd (
    omega (
      arith,
      length-append (Authorization.serialize ea) (encode eas),
      length-serialize ea reg.0.valid,
    ))
read_authorizations-encode eth s (suc fuel) (ea ∷ eas) reg ver enough =
    let bytes = Authorization.serialize ea in
    let long = length-serialize ea reg.0.valid in
    let whole = length-append bytes (encode eas) in
    let front : take 148 (bytes ++ encode eas) ≡ bytes =
      take-append_self 148 bytes (encode eas) long in
    let back : drop 148 (bytes ++ encode eas) ≡ encode eas =
      drop-append 148 bytes (encode eas) (omega arith) ∙ rw long refl in
    read_step eth s fuel (bytes ++ encode eas) ea eas (omega arith)
      (ap deserialize front ∙ deserialize-serialize ea reg.0.valid) ver.0
      (ap (read_authorizations eth s fuel) back
        ∙ read_authorizations-encode eth s fuel eas reg.1 ver.1 (omega arith))

pub load_one-key :
    (s : GcaServer) (ea : EquipmentAuthorization) → (load_one s ea).gca_pubkey ≡ s.gca_pubkey
unfolding load_one add_equipment ban_equipment add_recent_equipment_auth
load_one-key s ea = ground arith

pub load_all-key :
    (s : GcaServer) (eas : List EquipmentAuthorization) → (load_all s eas).gca_pubkey ≡ s.gca_pubkey
unfolding load_all
load_all-key s [] = refl
load_all-key s (ea ∷ eas) = load_all-key (load_one s ea) eas ∙ load_one-key s ea

pub load_one_known :
    (s : GcaServer) (ea : EquipmentAuthorization) (id : ℕ) (x : EquipmentAuthorization)
    → lookup id (load_one s ea).equipment ≡ some x
    → (x ≡ ea) ⊎ (lookup id s.equipment ≡ some x)
unfolding load_one add_equipment ban_equipment add_recent_equipment_auth
load_one_known s ea id x found =
    ground
      (arith, lookup-insert ea.short_id id ea s.equipment, lookup-delete ea.short_id id s.equipment)

pub load_one-AllRegular :
    (s : GcaServer) (ea : EquipmentAuthorization)
    → AllRegular s
    → IsRegular ea
    → AllRegular (load_one s ea)
load_one-AllRegular s ea known reg id x found = elim (load_one_known s ea id x found) [
  | inl new ↦ subst IsRegular (sym new) reg
  | inr old ↦ known id x old
]
