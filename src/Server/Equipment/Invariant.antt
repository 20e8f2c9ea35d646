-- ===== src/Server/Equipment/Invariant.antt =====
-- server/testing.go: when the checks of `CheckInvariants` hold, and that saving equipment keeps them.
use gca_backend.Base.{
  ℕ, suc, ◌≡◌, refl, sym, ap, ◌∙◌, true, none, some, [], ◌∷◌, arith, inl, ◌⊎◌, length, All,
}
use gca_backend.Base.Equality.{ℕ-Eq, bytes-Eq, bytes_eq_iff, beq_refl}
use gca_backend.Base.Map.{Map, lookup, insert, lookup-insert}
use gca_backend.Base.Unique.{Unique, All-entries}
use gca_backend.Glow.Signatures.{PublicKey}
use gca_backend.Glow.Authorization.{EquipmentAuthorization}
use gca_backend.Server.State.{GcaServer, Array}
use gca_backend.Server.Reports.Handler.{HasArrays}
use gca_backend.Server.Equipment.{check_loop, check_invariants}

-- The map from keys to short IDs that the equipment map makes.
abbrev pub key_image : Map ℕ EquipmentAuthorization → Map PublicKey ℕ
key_image [] = []
key_image ((id, ea) ∷ m) = (ea.public_key, id) ∷ key_image m

abbrev HasRates : GcaServer → Type 0
HasRates s =
    (id : ℕ) (ea : EquipmentAuthorization)
    → lookup id s.equipment ≡ some ea
    → (a : Array ℕ) × (lookup id s.equipment_impact_rate ≡ some a)

pub record IsConsistent (s : GcaServer) : Type 0 where
  pub image : s.equipment_short_id ≡ key_image s.equipment
  pub keys_unique : Unique (key_image s.equipment)
  pub ids_unique : Unique s.equipment
  pub rates : HasRates s
  pub arrays : HasArrays s

pub length-key_image : (m : Map ℕ EquipmentAuthorization) → length (key_image m) ≡ length m
length-key_image [] = refl
length-key_image (x ∷ m) = ap suc (length-key_image m)

-- Each entry passes the loop's tests on the two maps.
abbrev Passes : Map PublicKey ℕ → Map ℕ (Array ℕ) → Map ℕ EquipmentAuthorization → Type 0
Passes short_ids rates [] = Unit {0}
Passes short_ids rates ((id, ea) ∷ m) =
    (lookup ea.public_key short_ids ≡ some id)
    × ((a : Array ℕ) × (lookup id rates ≡ some a))
    × Passes short_ids rates m

-- The keys of what is seen and of what is to come.
abbrev Apart : Map PublicKey (Unit {0}) → Map PublicKey ℕ → Type 0
Apart seen m = (k : PublicKey) → (lookup k seen ≡ none) ⊎ (lookup k m ≡ none)

Apart-head :
    (seen : Map PublicKey (Unit {0})) (pk : PublicKey) (id : ℕ) (m : Map PublicKey ℕ)
    → Apart seen ((pk, id) ∷ m)
    → lookup pk seen ≡ none
unfolding lookup
Apart-head seen pk id m apart = ground (arith, apart pk, beq_refl pk)

Apart-tail :
    (seen : Map PublicKey (Unit {0})) (pk : PublicKey) (id : ℕ) (m : Map PublicKey ℕ)
    → lookup pk m ≡ none
    → Apart seen ((pk, id) ∷ m)
    → Apart (insert pk tt seen) m
unfolding lookup
Apart-tail seen pk id m fresh apart k =
    ground (arith, apart k, lookup-insert pk k tt seen, bytes_eq_iff pk k)

check_loop-true :
    (short_ids : Map PublicKey ℕ) (rates : Map ℕ (Array ℕ)) (seen : Map PublicKey (Unit {0}))
    (m : Map ℕ EquipmentAuthorization)
    → Passes short_ids rates m
    → Unique (key_image m)
    → Apart seen (key_image m)
    → check_loop short_ids rates seen m ≡ true
unfolding check_loop
check_loop-true short_ids rates seen [] p u apart = refl
check_loop-true short_ids rates seen ((id, ea) ∷ m) (here, (a, has), rest) u apart = ground (
  arith,
  Apart-head seen ea.public_key id (key_image m) apart,
  check_loop-true short_ids rates (insert ea.public_key tt seen) m rest u.1
      (Apart-tail seen ea.public_key id (key_image m) u.0 apart),
)

-- Every entry is found under its key while the keys are unique.
key_image-lookup :
    (m : Map ℕ EquipmentAuthorization) (id : ℕ) (ea : EquipmentAuthorization)
    → Unique (key_image m)
    → lookup id m ≡ some ea
    → lookup ea.public_key (key_image m) ≡ some id
unfolding lookup
key_image-lookup [] id ea u h = ground arith
key_image-lookup ((j, x) ∷ m) id ea u h = ground (
  arith,
  key_image-lookup m id ea u.1,
  bytes_eq_iff x.public_key ea.public_key,
  beq_refl x.public_key,
)

Passes-intro :
    (short_ids : Map PublicKey ℕ) (rates : Map ℕ (Array ℕ)) (m : Map ℕ EquipmentAuthorization)
    → All
        (λ (x : ℕ × EquipmentAuthorization).
          (lookup x.1.public_key short_ids ≡ some x.0)
          × ((a : Array ℕ) × (lookup x.0 rates ≡ some a)))
        m
    → Passes short_ids rates m
Passes-intro short_ids rates [] h = tt
Passes-intro short_ids rates ((id, ea) ∷ m) h = (h.0.0, h.0.1, Passes-intro short_ids rates m h.1)

-- In a consistent state `CheckInvariants` does not panic.
pub check_invariants-true : (s : GcaServer) → IsConsistent s → check_invariants s ≡ true
unfolding check_invariants
check_invariants-true s c = ground (arith, sizes, loop)
  where
    sizes : length s.equipment ≡ length s.equipment_short_id
    sizes = sym (length-key_image s.equipment) ∙ ap length (sym c.image)

    entries : Passes s.equipment_short_id s.equipment_impact_rate s.equipment
    entries = Passes-intro _ _ _ (
        All-entries
          (λ id ea.
            (lookup ea.public_key s.equipment_short_id ≡ some id)
            × ((a : Array ℕ) × (lookup id s.equipment_impact_rate ≡ some a)))
          s.equipment c.ids_unique
          λ id ea found. (
            ap (lookup ea.public_key) c.image
                ∙ key_image-lookup s.equipment id ea c.keys_unique found,
            c.rates id ea found,
          ))

    loop : check_loop s.equipment_short_id s.equipment_impact_rate [] s.equipment ≡ true
    loop =
        check_loop-true _ _ [] s.equipment entries c.keys_unique (λ k. inl (unfold lookup in refl))
