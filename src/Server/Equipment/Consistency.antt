-- ===== src/Server/Equipment/Consistency.antt =====
-- server/equipment.go: saving an authorization and the checks of `CheckInvariants`.
use gca_backend.Base.{
  ℕ, ◌≡◌, refl, sym, ap, ◌∙◌, subst, true, false, none, some, List, [], ◌∷◌, ◌++◌, arith,
  Option-cases, Bool-cases, inl, inr, ◌⊎◌, ◌↔◌, length, All,
}
use gca_backend.Base.Equality.{ℕ-Eq, bytes-Eq, bytes_eq_iff}
use gca_backend.Base.Map.{Map, lookup, insert, delete}
use gca_backend.Base.Unique.{
  Unique, Unique-insert, Unique-delete, insert_fresh, All-entries, delete_absent, length-delete,
  Covers-insert, Covers-delete,
}
use gca_backend.Glow.Authorization
use gca_backend.Glow.Authorization.{EquipmentAuthorization, authorization_eq}
use gca_backend.Server.State.{GcaServer, append_file}
use gca_backend.Server.Reports.{blank_report}
use gca_backend.Server.Equipment.{
  add_equipment, ban_equipment, add_recent_equipment_auth, save_equipment, settle, check_invariants,
}
use gca_backend.Server.Equipment.Invariant.{
  IsConsistent, key_image, length-key_image, check_invariants-true,
}

-- The key of the authorization is in use under its short ID and no other, and the other way round.
abbrev pub OwnsKey : GcaServer → EquipmentAuthorization → Type 0
OwnsKey s ea =
    (id : ℕ) (c : EquipmentAuthorization)
    → lookup id s.equipment ≡ some c
    → (c.public_key ≡ ea.public_key) ↔ (id ≡ ea.short_id)

abbrev Owns : EquipmentAuthorization → ℕ → EquipmentAuthorization → Type 0
Owns ea id c = (c.public_key ≡ ea.public_key) ↔ (id ≡ ea.short_id)

abbrev OwnsAll : EquipmentAuthorization → Map ℕ EquipmentAuthorization → Type 0
OwnsAll ea m = All (λ (x : ℕ × EquipmentAuthorization). Owns ea x.0 x.1) m

key_image_free :
    (ea : EquipmentAuthorization) (m : Map ℕ EquipmentAuthorization)
    → OwnsAll ea m
    → lookup ea.short_id m ≡ none
    → lookup ea.public_key (key_image m) ≡ none
unfolding lookup
key_image_free ea [] o h = refl
key_image_free ea ((id, c) ∷ m) o h =
    ground (arith, key_image_free ea m o.1, o.0, bytes_eq_iff c.public_key ea.public_key)

key_image-append :
    (m : Map ℕ EquipmentAuthorization) (id : ℕ) (ea : EquipmentAuthorization)
    → key_image (m ++ ((id, ea) ∷ [])) ≡ key_image m ++ ((ea.public_key, id) ∷ [])
key_image-append [] id ea = refl
key_image-append (x ∷ m) id ea = ap (λ t. (x.1.public_key, x.0) ∷ t) (key_image-append m id ea)

key_image-insert :
    (ea : EquipmentAuthorization) (m : Map ℕ EquipmentAuthorization)
    → OwnsAll ea m
    → lookup ea.short_id m ≡ none
    → key_image (insert ea.short_id ea m) ≡ insert ea.public_key ea.short_id (key_image m)
key_image-insert ea m o h =
    ap key_image (insert_fresh ea.short_id ea m h)
    ∙ key_image-append m ea.short_id ea
    ∙ sym (insert_fresh ea.public_key ea.short_id (key_image m) (key_image_free ea m o h))

key_image-delete :
    (ea : EquipmentAuthorization) (m : Map ℕ EquipmentAuthorization)
    → OwnsAll ea m
    → key_image (delete ea.short_id m) ≡ delete ea.public_key (key_image m)
unfolding delete
key_image-delete ea [] o = refl
key_image-delete ea ((id, c) ∷ m) o =
    ground (arith, key_image-delete ea m o.1, o.0, bytes_eq_iff c.public_key ea.public_key)

module _ (s : GcaServer) (ea : EquipmentAuthorization) (c : IsConsistent s) (o : OwnsKey s ea) where
  owns_all : OwnsAll ea s.equipment
  owns_all = All-entries (λ id x. Owns ea id x) s.equipment c.ids_unique o

  add_equipment-IsConsistent :
      lookup ea.short_id s.equipment ≡ none → IsConsistent (add_equipment s ea)
  unfolding add_equipment
  add_equipment-IsConsistent h =
      let image = key_image-insert ea s.equipment owns_all h in
      record {
        image = ap (insert ea.public_key ea.short_id) c.image ∙ sym image;
        keys_unique =
            subst Unique (sym image) (Unique-insert ea.public_key ea.short_id _ c.keys_unique);
        ids_unique = Unique-insert ea.short_id ea s.equipment c.ids_unique;
        rates = Covers-insert ea.short_id ea (λ _. 0) s.equipment s.equipment_impact_rate c.rates;
        arrays =
            Covers-insert ea.short_id ea (λ _. blank_report) s.equipment s.equipment_reports
              c.arrays;
      }

  ban_equipment-IsConsistent : IsConsistent (ban_equipment s ea)
  unfolding ban_equipment
  ban_equipment-IsConsistent =
      let image = key_image-delete ea s.equipment owns_all in
      record {
        image = ap (delete ea.public_key) c.image ∙ sym image;
        keys_unique = subst Unique (sym image) (Unique-delete ea.public_key _ c.keys_unique);
        ids_unique = Unique-delete ea.short_id s.equipment c.ids_unique;
        rates = Covers-delete ea.short_id s.equipment s.equipment_impact_rate c.rates;
        arrays = Covers-delete ea.short_id s.equipment s.equipment_reports c.arrays;
      }

-- The state in which the authorization is on disk and among the recent ones.
abbrev logged : GcaServer → EquipmentAuthorization → List ℕ → GcaServer
logged s ea file =
    add_recent_equipment_auth (record s { disk = record s.disk { authorizations = some file } }) ea

logged-IsConsistent :
    (s : GcaServer) (ea : EquipmentAuthorization) (file : List ℕ)
    → IsConsistent s
    → IsConsistent (logged s ea file)
unfolding add_recent_equipment_auth
logged-IsConsistent s ea file c = record {
  image = c.image;
  keys_unique = c.keys_unique;
  ids_unique = c.ids_unique;
  rates = c.rates;
  arrays = c.arrays;
}

logged_equipment :
    (s : GcaServer) (ea : EquipmentAuthorization) (file : List ℕ)
    → (logged s ea file).equipment ≡ s.equipment
unfolding add_recent_equipment_auth
logged_equipment s ea file = refl

save_equipment_result :
    (s : GcaServer) (ea : EquipmentAuthorization)
    → ((save_equipment s ea).0 ≡ s)
      ⊎ ((file : List ℕ) × (lookup ea.short_id s.equipment ≡ none)
          × ((save_equipment s ea).0 ≡ add_equipment (logged s ea file) ea))
      ⊎ ((file : List ℕ) × ((save_equipment s ea).0 ≡ ban_equipment (logged s ea file) ea))
unfolding save_equipment settle append_file
save_equipment_result s ea =
    elim (Option-cases
      (append_file s.disk.writable s.disk.authorizations (Authorization.serialize ea))) [
        | inl failed ↦ inl (ground arith)
        | inr (file, written) ↦ elim (Option-cases (lookup ea.short_id s.equipment)) [
          | inl free ↦ elim (Option-cases (lookup ea.short_id s.equipment_bans)) [
            | inl clear ↦ inr (inl (file, free, ground arith))
            | inr (_, barred) ↦ inl (ground arith)
          ]
          | inr (current, taken) ↦ elim (Option-cases (lookup ea.short_id s.equipment_bans)) [
            | inl clear ↦ elim (Bool-cases (authorization_eq current ea)) [
              | inl same ↦ inl (ground arith)
              | inr other ↦ inr (inr (file, ground arith))
            ]
            | inr (_, barred) ↦ inl (ground arith)
          ]
        ]
      ]

-- Saving an authorization keeps the maps consistent, so that `CheckInvariants` does not panic after it,
-- if its key is in use under its short ID alone and its short ID under its key alone.
pub save_equipment-IsConsistent :
    (s : GcaServer) (ea : EquipmentAuthorization)
    → IsConsistent s
    → OwnsKey s ea
    → IsConsistent (save_equipment s ea).0 × (check_invariants (save_equipment s ea).0 ≡ true)
save_equipment-IsConsistent s ea c o =
    let kept : IsConsistent (save_equipment s ea).0 = elim (save_equipment_result s ea) [
      | inl same ↦ subst IsConsistent (sym same) c
      | inr (inl (file, free, done)) ↦ subst IsConsistent (sym done) (
          add_equipment-IsConsistent (logged s ea file) ea (logged-IsConsistent s ea file c)
            (unfold add_recent_equipment_auth in o) (unfold add_recent_equipment_auth in free))
      | inr (inr (file, done)) ↦ subst IsConsistent (sym done) (
          ban_equipment-IsConsistent (logged s ea file) ea (logged-IsConsistent s ea file c)
            (unfold add_recent_equipment_auth in o))
    ] in
    (kept, check_invariants-true (save_equipment s ea).0 kept)

-- Two authorizations of one short ID with two keys: if the second key is in use nowhere, then
-- saving it leaves the first key in the map of short IDs, and `CheckInvariants` panics.
pub save_equipment_other_key :
    (s : GcaServer) (current ea : EquipmentAuthorization) (old : List ℕ)
    → IsConsistent s
    → lookup ea.short_id s.equipment ≡ some current
    → lookup ea.short_id s.equipment_bans ≡ none
    → lookup ea.public_key s.equipment_short_id ≡ none
    → s.disk.authorizations ≡ some old
    → s.disk.writable ≡ true
    → authorization_eq current ea ≡ false
    → check_invariants (save_equipment s ea).0 ≡ false
unfolding check_invariants save_equipment append_file settle ban_equipment add_recent_equipment_auth
save_equipment_other_key s current ea old c taken free fresh there writable other = ground (
  arith,
  delete_absent ea.public_key s.equipment_short_id fresh,
  length-delete ea.short_id s.equipment c.ids_unique taken,
  length-key_image s.equipment,
  ap length c.image,
)
