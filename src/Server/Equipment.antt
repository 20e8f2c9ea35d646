-- ===== src/Server/Equipment.antt =====
-- server/equipment.go, server/api_equipment_auth.go and `CheckInvariants` of server/testing.go: which
-- equipment the server knows, and which short IDs are banned.
pub mod Status
pub mod Restart
pub mod Invariant
pub mod Consistency
pub mod Verdict
pub mod Convergence
use gca_backend.Base.{
  ℕ, zero, suc, ◌+◌, ◌≡◌, Bool, true, false, ◌&&◌, not, Option, none, some, List, [], ◌∷◌, ◌++◌,
  length, take, drop, ◌==◌, if◌then◌else◌,
}
use gca_backend.Base.Equality.{bytes_eq, ℕ-Eq, bytes-Eq}
use gca_backend.Base.Map.{Map, lookup, insert, delete}
use gca_backend.Base.Result.{
  Result, ok, err, panic, banned, duplicate, bad_signature, io_failure, not_initialized, ◌>>=◌,
  ◌>>◌, guard,
}
use gca_backend.Glow.Signatures.{EthCrypto, PublicKey, verify}
use gca_backend.Glow.Authorization
use gca_backend.Glow.Authorization.{
  EquipmentAuthorization, signing_bytes, deserialize, authorization_eq,
}
use gca_backend.Server.Recent.{add_recent}
use gca_backend.Server.Reports.{blank_report}
use gca_backend.Server.State.{GcaServer, Array, append_file}

abbrev pub max_recent_equipment_auths : ℕ
max_recent_equipment_auths = 1000

unfoldable pub add_recent_equipment_auth : GcaServer → EquipmentAuthorization → GcaServer
add_recent_equipment_auth s ea = record s {
  recent_equipment_auths = add_recent max_recent_equipment_auths s.recent_equipment_auths ea;
}

-- The authorization is new and has no conflict: it gets its maps and blank arrays.
unfoldable pub add_equipment : GcaServer → EquipmentAuthorization → GcaServer
add_equipment s ea = record s {
  equipment_short_id = insert ea.public_key ea.short_id s.equipment_short_id;
  equipment = insert ea.short_id ea s.equipment;
  equipment_impact_rate = insert ea.short_id (λ _. 0) s.equipment_impact_rate;
  equipment_reports = insert ea.short_id (λ _. blank_report) s.equipment_reports;
}

-- A conflict. The key that leaves the map is the one of the new authorization.
unfoldable pub ban_equipment : GcaServer → EquipmentAuthorization → GcaServer
ban_equipment s ea = record s {
  equipment_short_id = delete ea.public_key s.equipment_short_id;
  equipment = delete ea.short_id s.equipment;
  equipment_impact_rate = delete ea.short_id s.equipment_impact_rate;
  equipment_reports = delete ea.short_id s.equipment_reports;
  equipment_bans = insert ea.short_id tt s.equipment_bans;
}

abbrev pub is_same :
    (EquipmentAuthorization → EquipmentAuthorization → Bool)
    → Option EquipmentAuthorization
    → EquipmentAuthorization
    → Bool
is_same eq none ea = false
is_same eq (some current) ea = eq current ea

-- The end of `saveEquipment`, when the authorization is on disk.
unfoldable pub settle :
    GcaServer → EquipmentAuthorization → Option EquipmentAuthorization → GcaServer × Result Bool
settle s ea none = (add_equipment s ea, ok true)
settle s ea (some current) = (ban_equipment s ea, err duplicate)

save_unbanned :
    GcaServer → EquipmentAuthorization → Option EquipmentAuthorization → GcaServer × Result Bool
save_unbanned s ea current =
    if is_same authorization_eq current ea
    then (s, ok false)
    else elim (append_file s.disk.writable s.disk.authorizations (Authorization.serialize ea)) [
      | none ↦ (s, err io_failure)
      | some file ↦
          settle
            (add_recent_equipment_auth
              (record s { disk = record s.disk { authorizations = some file } }) ea)
            ea current
    ]

-- The new state, with what the function returns: whether the equipment is new, or an error.
unfoldable pub save_equipment : GcaServer → EquipmentAuthorization → GcaServer × Result Bool
unfolding save_unbanned
save_equipment s ea = elim (lookup ea.short_id s.equipment_bans) [
  | some _ ↦ (s, err banned)
  | none ↦ save_unbanned s ea (lookup ea.short_id s.equipment)
]

unfoldable pub verify_equipment_authorization :
    EthCrypto → GcaServer → EquipmentAuthorization → Bool
verify_equipment_authorization eth s ea = verify eth s.gca_pubkey (signing_bytes ea) ea.signature

unfoldable pub authorize_equipment :
    EthCrypto → GcaServer → EquipmentAuthorization → GcaServer × Result Bool
authorize_equipment eth s ea =
    if s.gca_pubkey_available
    then (if verify_equipment_authorization eth s ea
        then save_equipment s ea
        else (s, err bad_signature))
    else (s, err not_initialized)

-- The first loop of `loadEquipment`: `buffer.Next(148)` until the buffer is empty, on fuel.
unfoldable pub read_authorizations :
    EthCrypto → GcaServer → ℕ → List ℕ → Result (List EquipmentAuthorization)
read_authorizations eth s fuel [] = ok []
read_authorizations eth s zero (b ∷ bs) = panic
read_authorizations eth s (suc fuel) (b ∷ bs) = do
  ea ← deserialize (take 148 (b ∷ bs))
  guard (verify_equipment_authorization eth s ea) bad_signature
  rest ← read_authorizations eth s fuel (drop 148 (b ∷ bs))
  ok (ea ∷ rest)

-- Go's `bytes.Equal(current.Serialize(), ea.Serialize())`
unfoldable pub same_bytes : EquipmentAuthorization → EquipmentAuthorization → Bool
same_bytes a b = bytes_eq (Authorization.serialize a) (Authorization.serialize b)

load_unbanned : GcaServer → EquipmentAuthorization → Option EquipmentAuthorization → GcaServer
load_unbanned s ea current =
    if is_same same_bytes current ea
    then s
    else let s' = add_recent_equipment_auth s ea in
      elim current [ none ↦ add_equipment s' ea | some _ ↦ ban_equipment s' ea ]

-- One round of the second loop of `loadEquipment`.
unfoldable pub load_one : GcaServer → EquipmentAuthorization → GcaServer
unfolding load_unbanned
load_one s ea = elim (lookup ea.short_id s.equipment_bans) [
  | some _ ↦ s
  | none ↦ load_unbanned s ea (lookup ea.short_id s.equipment)
]

unfoldable pub load_all : GcaServer → List EquipmentAuthorization → GcaServer
load_all s [] = s
load_all s (ea ∷ eas) = load_all (load_one s ea) eas

-- Every round takes a byte at least, so the length of the file is enough fuel.
unfoldable pub load_equipment : EthCrypto → GcaServer → Result GcaServer
load_equipment eth s = elim s.disk.authorizations [
  | none ↦
      if s.disk.writable
      then ok (record s { disk = record s.disk { authorizations = some [] } })
      else err io_failure
  | some raw ↦ do eas ← read_authorizations eth s (length raw) raw; ok (load_all s eas)
]

-- The loop of `CheckInvariants` over the equipment; `false` stands for its panics.
unfoldable pub check_loop :
    Map PublicKey ℕ
    → Map ℕ (Array ℕ)
    → Map PublicKey (Unit {0})
    → Map ℕ EquipmentAuthorization
    → Bool
check_loop short_ids rates seen [] = true
check_loop short_ids rates seen ((short_id, auth) ∷ rest) =
    elim (lookup auth.public_key seen) [ some _ ↦ false | none ↦ true ]
    && elim (lookup auth.public_key short_ids) [ some id ↦ id == short_id | none ↦ false ]
    && elim (lookup short_id rates) [ some _ ↦ true | none ↦ false ]
    && check_loop short_ids rates (insert auth.public_key tt seen) rest

unfoldable pub check_invariants : GcaServer → Bool
check_invariants s =
    length s.equipment == length s.equipment_short_id
    && check_loop s.equipment_short_id s.equipment_impact_rate [] s.equipment
