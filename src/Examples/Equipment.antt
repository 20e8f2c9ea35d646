-- ===== src/Examples/Equipment.antt =====
-- The theorems on equipment and on the keys of the server at small states.
use gca_backend.Base.{
  ◌≡◌, ◌≢◌, refl, ap, sym, true, false, [], ◌∷◌, ◌==◌, if◌then◌else◌, arith, inl, inr, Bool-cases,
}
use gca_backend.Base.Equality.{ℕ-Eq, bytes-Eq, bytes_eq}
use gca_backend.Base.Map.{lookup}
use gca_backend.Base.Result.{err, io_failure, duplicate}
use gca_backend.Glow.Authorization.{authorization_eq}
use gca_backend.Server.State.{append_file}
use gca_backend.Server.Reports.{blank_report}
use gca_backend.Server.Equipment.{save_equipment, settle, check_invariants}
use gca_backend.Server.Equipment.Status.{status, next_status, save_equipment-status}
use mathlib.Core.List.{Memᴰ}
use mathlib.Core.List.Memᴰ
use gca_backend.Glow.Authorization.{EquipmentAuthorization}
use gca_backend.Server.Equipment.Restart.{authorize_all}
use gca_backend.Server.Equipment.Status.{unknown}
use gca_backend.Server.Equipment.Convergence.{IsOpen, authorize_all-status_same}
use gca_backend.Server.Equipment.Invariant.{IsConsistent}
use gca_backend.Server.Equipment.Consistency.{
  OwnsKey, save_equipment-IsConsistent, save_equipment_other_key,
}
use gca_backend.Server.Registration.{GcaRegistration}
use gca_backend.Server.Registration.Once.{register_all, Owned, register_all-Owned}
use gca_backend.Examples.{
  owned_server, toy_crypto, key_of, signature_of, new_server, server, device,
}
use gca_backend.Examples.Glow.{device-IsRegular, other_device-IsRegular, other_device}

conflict : (save_equipment server other_device).1 ≡ err duplicate
unfolding save_equipment lookup authorization_eq bytes_eq append_file settle
conflict = refl

save_equipment-status_example :
    status (save_equipment server other_device).0 7
    ≡ (if 7 == 7 then next_status (status server 7) other_device else status server 7)
save_equipment-status_example = save_equipment-status server other_device 7 saved
  where
    saved : (save_equipment server other_device).1 ≢ err io_failure
    saved h = ground (arith, sym conflict, h)

server-IsConsistent : IsConsistent server
unfolding lookup
server-IsConsistent = record {
  image = refl;
  keys_unique = (refl, tt);
  ids_unique = (refl, tt);
  rates = λ id ea known. elim (Bool-cases (7 == id)) [
    | inl same ↦ (λ i. 0, rw same refl)
    | inr other ↦ absurd (ground (arith, known, other))
  ];
  arrays = λ id ea known. elim (Bool-cases (7 == id)) [
    | inl same ↦ (λ i. blank_report, rw same refl)
    | inr other ↦ absurd (ground (arith, known, other))
  ];
}

server-OwnsKey : OwnsKey server device
unfolding lookup
server-OwnsKey id c known = elim (Bool-cases (7 == id)) [
  | inl same ↦
      let seven : id ≡ 7 = ground arith in
      let its : device ≡ c = ground (arith, known, same) in
      ((λ _. seven), (λ _. ap (λ x. x.public_key) (sym its)))
  | inr other ↦ absurd (ground (arith, known, other))
]

save_equipment-IsConsistent_example :
    IsConsistent (save_equipment server device).0
    × (check_invariants (save_equipment server device).0 ≡ true)
save_equipment-IsConsistent_example =
    save_equipment-IsConsistent server device server-IsConsistent server-OwnsKey

save_equipment_other_key_example : check_invariants (save_equipment server other_device).0 ≡ false
save_equipment_other_key_example =
    save_equipment_other_key server device other_device [] server-IsConsistent
      (unfold lookup in refl) (unfold lookup in refl) (unfold lookup bytes_eq in refl) refl refl
      (unfold authorization_eq bytes_eq in refl)

abbrev pub registration : GcaRegistration
registration = record { gca_key = key_of 1; signature = signature_of 3 }

register_all-Owned_example :
    Owned toy_crypto new_server
      (register_all toy_crypto new_server (registration ∷ registration ∷ []))
register_all-Owned_example =
    register_all-Owned toy_crypto new_server (registration ∷ registration ∷ [])

owned_server-IsOpen : IsOpen (key_of 1) owned_server
owned_server-IsOpen = record {
  owned = refl;
  available = refl;
  writable = refl;
  old = [];
  file = refl;
}

-- The device and the conflict with it, in two orders.
authorize_all-status_same_example :
    status (authorize_all toy_crypto owned_server (device ∷ other_device ∷ [])) 7
    ≡ status (authorize_all toy_crypto owned_server (other_device ∷ device ∷ [])) 7
authorize_all-status_same_example =
    authorize_all-status_same toy_crypto (key_of 1) owned_server owned_server
      (device ∷ other_device ∷ []) (other_device ∷ device ∷ []) 7 owned_server-IsOpen
      owned_server-IsOpen fresh fresh (device-IsRegular, (other_device-IsRegular, tt))
      (other_device-IsRegular, (device-IsRegular, tt))
      (λ ea. (swap device other_device ea, swap other_device device ea))
  where
    fresh : status owned_server 7 ≡ unknown
    fresh = unfold status lookup in refl

    swap : (a b ea : EquipmentAuthorization) → Memᴰ ea (a ∷ b ∷ []) → Memᴰ ea (b ∷ a ∷ [])
    swap a b ea m = elim (Memᴰ.cases_cons m) [
      | inl first ↦ Memᴰ.tail (Memᴰ.head first)
      | inr later ↦ elim (Memᴰ.cases_cons later) [
        | inl second ↦ Memᴰ.head second
        | inr none_left ↦ absurd (Memᴰ.not-nil none_left)
      ]
    ]
