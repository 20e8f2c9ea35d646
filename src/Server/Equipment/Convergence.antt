-- ===== src/Server/Equipment/Convergence.antt =====
-- server/equipment.go and server/api_equipment_auth.go: servers that hear of the same authorizations
-- agree on the equipment.
use gca_backend.Base.{
  ℕ, ◌≡◌, ◌≢◌, ◌↔◌, refl, sym, ap, subst, ◌∙◌, ◌⊎◌, inl, inr, Bool, true, false, some, List, [],
  ◌∷◌, All, arith, Bool-cases, Option-cases, if◌then◌else◌,
}
use mathlib.Core.List.{Memᴰ}
use gca_backend.Base.Equality.{ℕ-Eq}
use gca_backend.Base.Result.{Result, err, io_failure}
use gca_backend.Glow.Signatures.{EthCrypto, PublicKey, verify}
use gca_backend.Glow.Authorization.{EquipmentAuthorization, signing_bytes}
use gca_backend.Glow.Authorization.Equality.{IsRegular}
use gca_backend.Server.State.{GcaServer, append_file}
use gca_backend.Server.Equipment.{
  add_equipment, ban_equipment, add_recent_equipment_auth, save_equipment, settle,
  authorize_equipment, verify_equipment_authorization,
}
use gca_backend.Server.Equipment.Restart.{authorize_all}
use gca_backend.Server.Equipment.Status.{unknown, status, next_status, save_equipment-status}
use gca_backend.Server.Equipment.Verdict.{
  is_valid_for, fold_status, fold_status-Verdict, Verdict-same,
}

-- The server belongs to the GCA with this key, and its file of authorizations can be written.
pub record IsOpen (key : PublicKey) (s : GcaServer) : Type 0 where
  pub owned : s.gca_pubkey ≡ key
  pub available : s.gca_pubkey_available ≡ true
  pub writable : s.disk.writable ≡ true
  pub old : List ℕ
  pub file : s.disk.authorizations ≡ some old

save_equipment-key :
    (s : GcaServer) (ea : EquipmentAuthorization)
    → ((save_equipment s ea).0.gca_pubkey ≡ s.gca_pubkey)
      × ((save_equipment s ea).0.gca_pubkey_available ≡ s.gca_pubkey_available)
      × ((save_equipment s ea).0.disk.writable ≡ s.disk.writable)
unfolding save_equipment append_file settle add_equipment ban_equipment add_recent_equipment_auth
save_equipment-key s ea = (ground arith, ground arith, ground arith)

save_equipment-file :
    (s : GcaServer) (ea : EquipmentAuthorization) (old : List ℕ)
    → s.disk.writable ≡ true
    → s.disk.authorizations ≡ some old
    → ((new : List ℕ) × ((save_equipment s ea).0.disk.authorizations ≡ some new))
      × ((save_equipment s ea).1 ≢ err io_failure)
unfolding save_equipment append_file settle add_equipment ban_equipment add_recent_equipment_auth
save_equipment-file s ea old writable file = (
  elim (Option-cases (save_equipment s ea).0.disk.authorizations) [
    | inl gone ↦ absurd (ground arith)
    | inr kept ↦ kept
  ],
  λ failed. ground arith,
)

save_equipment-IsOpen :
    (key : PublicKey) (s : GcaServer) (ea : EquipmentAuthorization)
    → IsOpen key s
    → IsOpen key (save_equipment s ea).0
save_equipment-IsOpen key s ea h =
    let (same_key, same_available, same_writable) = save_equipment-key s ea in
    let ((new, there), _) = save_equipment-file s ea h.old h.writable h.file in
    record {
      owned = same_key ∙ h.owned;
      available = same_available ∙ h.available;
      writable = same_writable ∙ h.writable;
      old = new;
      file = there;
    }

authorize_cases :
    (eth : EthCrypto) (key : PublicKey) (s : GcaServer) (ea : EquipmentAuthorization)
    → IsOpen key s
    → ((verify eth key (signing_bytes ea) ea.signature ≡ true)
        × (save_equipment s ea ≡ authorize_equipment eth s ea))
      ⊎ ((verify eth key (signing_bytes ea) ea.signature ≡ false)
          × (s ≡ (authorize_equipment eth s ea).0))
unfolding authorize_equipment verify_equipment_authorization
authorize_cases eth key s ea h =
    let same = ap (λ k. verify eth k (signing_bytes ea) ea.signature) h.owned in
    elim (Bool-cases (verify eth key (signing_bytes ea) ea.signature)) [
      | inl valid ↦ inl (valid, ground (arith, same, valid, h.available))
      | inr bad ↦ inr (bad, ground (arith, same, bad, h.available))
    ]

authorize_equipment-status :
    (eth : EthCrypto) (key : PublicKey) (s : GcaServer) (ea : EquipmentAuthorization) (id : ℕ)
    → IsOpen key s
    → IsOpen key (authorize_equipment eth s ea).0
      × (status (authorize_equipment eth s ea).0 id
          ≡ (if is_valid_for eth key id ea then next_status (status s id) ea else status s id))
authorize_equipment-status eth key s ea id h =
    let (_, written) = save_equipment-file s ea h.old h.writable h.file in
    let saved = save_equipment-status s ea id written in
    let next = if is_valid_for eth key id ea then next_status (status s id) ea else status s id in
    elim (authorize_cases eth key s ea h) [
      | inl (valid, same) ↦
          subst (λ (t : GcaServer × Result Bool). IsOpen key t.0 × (status t.0 id ≡ next)) same
            (save_equipment-IsOpen key s ea h, ground (arith, saved, valid))
      | inr (bad, same) ↦
          subst (λ t. IsOpen key t × (status t id ≡ next)) same (h, ground (arith, bad))
    ]

authorize_all-status :
    (eth : EthCrypto) (key : PublicKey) (s : GcaServer) (eas : List EquipmentAuthorization) (id : ℕ)
    → IsOpen key s
    → status (authorize_all eth s eas) id ≡ fold_status eth key id (status s id) eas
unfolding authorize_all fold_status
authorize_all-status eth key s [] id h = refl
authorize_all-status eth key s (ea ∷ eas) id h =
    let (kept, now) = authorize_equipment-status eth key s ea id h in
    authorize_all-status eth key (authorize_equipment eth s ea).0 eas id kept
    ∙ ap (λ st. fold_status eth key id st eas) now

-- Two servers of a GCA that hear of the same authorizations, each in its own order and any number of
-- times, agree on every short ID that both did not know before: it stays unknown, is authorized by the
-- same authorization, or is banned on both. Both can write their files, and the coordinates of the
-- authorizations are neither NaN nor the negative zero.
pub authorize_all-status_same :
    (eth : EthCrypto) (key : PublicKey) (s t : GcaServer) (eas eas' : List EquipmentAuthorization)
    (id : ℕ)
    → IsOpen key s
    → IsOpen key t
    → status s id ≡ unknown
    → status t id ≡ unknown
    → All IsRegular eas
    → All IsRegular eas'
    → ((ea : EquipmentAuthorization) → Memᴰ ea eas ↔ Memᴰ ea eas')
    → status (authorize_all eth s eas) id ≡ status (authorize_all eth t eas') id
authorize_all-status_same eth key s t eas eas' id hs ht new_s new_t reg reg' same =
    let st = fold_status eth key id in
    authorize_all-status eth key s eas id hs
    ∙ ap (λ x. st x eas) new_s
    ∙ Verdict-same eth key id (st unknown eas) (st unknown eas') eas eas'
        (λ x c. record { member = (same x).0 c.member; valid = c.valid; regular = c.regular })
        (λ x c. record { member = (same x).1 c.member; valid = c.valid; regular = c.regular })
        (fold_status-Verdict eth key id eas reg) (fold_status-Verdict eth key id eas' reg')
    ∙ ap (λ x. st x eas') (sym new_t)
    ∙ sym (authorize_all-status eth key t eas' id ht)
