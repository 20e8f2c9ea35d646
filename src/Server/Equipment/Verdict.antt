-- ===== src/Server/Equipment/Verdict.antt =====
-- server/equipment.go: what any authorizations make of a short ID that was unknown.
use gca_backend.Base.{
  ℕ, ◌≡◌, ◌≢◌, refl, sym, ap, ◌∙◌, ◌⊎◌, inl, inr, Bool, true, false, ◌&&◌, List, [], ◌∷◌, All,
  arith, Bool-cases, ◌==◌, if◌then◌else◌,
}
use mathlib.Core.List.{Memᴰ}
use mathlib.Core.List.Memᴰ
use gca_backend.Base.Equality.{ℕ-Eq}
use gca_backend.Glow.Signatures.{EthCrypto, PublicKey, verify}
use gca_backend.Glow.Authorization.{EquipmentAuthorization, authorization_eq, signing_bytes}
use gca_backend.Glow.Authorization.Equality.{IsRegular, authorization_eq_iff}
use gca_backend.Server.Equipment.Status.{Status, unknown, authorized, banned, next_status}

-- The authorization is signed by the GCA, and names the short ID.
abbrev pub is_valid_for : EthCrypto → PublicKey → ℕ → EquipmentAuthorization → Bool
is_valid_for eth key id ea = verify eth key (signing_bytes ea) ea.signature && ea.short_id == id

-- What the authorizations of the list that are valid for a short ID make of its status.
unfoldable pub fold_status :
    EthCrypto → PublicKey → ℕ → Status → List EquipmentAuthorization → Status
fold_status eth key id st [] = st
fold_status eth key id st (ea ∷ eas) =
    fold_status eth key id (if is_valid_for eth key id ea then next_status st ea else st) eas

module _ (eth : EthCrypto) (key : PublicKey) (id : ℕ) where
  -- The authorization is in the list and counts for the short ID.
  pub record Counts (eas : List EquipmentAuthorization) (ea : EquipmentAuthorization) : Type 0 where
    pub member : Memᴰ ea eas
    pub valid : is_valid_for eth key id ea ≡ true
    pub regular : IsRegular ea

  Counts-tail :
      (ea x : EquipmentAuthorization) (eas : List EquipmentAuthorization)
      → Counts eas x
      → Counts (ea ∷ eas) x
  Counts-tail ea x eas c = record {
    member = Memᴰ.tail c.member;
    valid = c.valid;
    regular = c.regular;
  }

  fold_status-banned :
      (eas : List EquipmentAuthorization) → fold_status eth key id banned eas ≡ banned
  unfolding fold_status next_status
  fold_status-banned [] = refl
  fold_status-banned (ea ∷ eas) = ground (arith, fold_status-banned eas)

  -- What can become of a short ID that is authorized: it stays, if nothing else counts, or is banned.
  abbrev Fate : EquipmentAuthorization → Status → List EquipmentAuthorization → Type 0
  Fate current st eas =
      ((st ≡ authorized current) × ((x : EquipmentAuthorization) → Counts eas x → x ≡ current))
      ⊎ ((st ≡ banned) × (x : EquipmentAuthorization) × Counts eas x × (x ≢ current))

  Fate-longer :
      (current ea : EquipmentAuthorization) (st : Status) (eas : List EquipmentAuthorization)
      → (is_valid_for eth key id ea ≡ false) ⊎ (current ≡ ea)
      → Fate current st eas
      → Fate current st (ea ∷ eas)
  Fate-longer current ea st eas first (inr (same, x, c, differ)) =
      inr (same, x, Counts-tail ea x eas c, differ)
  Fate-longer current ea st eas first (inl (same, alone)) = inl (
    same,
    λ x c. elim (Memᴰ.cases_cons c.member) [
      | inr there ↦ alone x (record { member = there; valid = c.valid; regular = c.regular })
      | inl here ↦ elim first [
        | inl skipped ↦ absurd (ground (arith, c.valid, ap (is_valid_for eth key id) here, skipped))
        | inr alike ↦ here ∙ sym alike
      ]
    ],
  )

  fold_status-authorized :
      (current : EquipmentAuthorization) (eas : List EquipmentAuthorization)
      → IsRegular current
      → All IsRegular eas
      → Fate current (fold_status eth key id (authorized current) eas) eas
  unfolding fold_status next_status
  fold_status-authorized current [] r h = inl (refl, λ x c. absurd (Memᴰ.not-nil c.member))
  fold_status-authorized current (ea ∷ eas) r (k, h) =
      let st = fold_status eth key id (authorized current) eas in
      let rest = fold_status-authorized current eas r h in
      elim (Bool-cases (is_valid_for eth key id ea)) [
        | inr skipped ↦ rw (fold_status, skipped) (Fate-longer current ea st eas (inl skipped) rest)
        | inl valid ↦ elim (Bool-cases (authorization_eq current ea)) [
          | inl alike ↦
              let same : current ≡ ea = (authorization_eq_iff current ea r k).0 alike in
              rw (fold_status, valid, next_status, alike)
                (Fate-longer current ea st eas (inr same) rest)
          | inr differ ↦
              rw (fold_status, valid, next_status, differ)
                (inr (
                  fold_status-banned eas,
                  ea,
                  record { member = Memᴰ.head refl; valid = valid; regular = k },
                  λ same.
                      ground (arith, (authorization_eq_iff current ea r k).1 (sym same), differ),
                ))
        ]
      ]

  -- The verdict on a short ID that was unknown, in terms of what counts for it.
  pub data Verdict (st : Status) (eas : List EquipmentAuthorization) : Type 0 where
    nothing : st ≡ unknown → ((x : EquipmentAuthorization) → ¬ Counts eas x) → Verdict st eas
    agreed :
        (ea : EquipmentAuthorization)
        → st ≡ authorized ea
        → Counts eas ea
        → ((x : EquipmentAuthorization) → Counts eas x → x ≡ ea)
        → Verdict st eas
    conflict :
        (a b : EquipmentAuthorization)
        → st ≡ banned
        → Counts eas a
        → Counts eas b
        → a ≢ b
        → Verdict st eas

  pub fold_status-Verdict :
      (eas : List EquipmentAuthorization)
      → All IsRegular eas
      → Verdict (fold_status eth key id unknown eas) eas
  unfolding fold_status next_status
  fold_status-Verdict [] h = nothing refl (λ x c. Memᴰ.not-nil c.member)
  fold_status-Verdict (ea ∷ eas) (k, h) = elim (Bool-cases (is_valid_for eth key id ea)) [
    | inl valid ↦
        let counts : Counts (ea ∷ eas) ea = record {
          member = Memᴰ.head refl;
          valid = valid;
          regular = k;
        } in
        let st = fold_status eth key id (authorized ea) eas in
        rw (fold_status, valid, next_status)
          (elim (Fate-longer ea ea st eas (inr refl) (fold_status-authorized ea eas k h)) [
            | inl (same, alone) ↦ agreed ea same counts alone
            | inr (same, x, c, differ) ↦ conflict x ea same c counts differ
          ])
    | inr skipped ↦ rw (fold_status, skipped) (skip ea eas skipped (fold_status-Verdict eas h))
  ]
    where
      back :
          (ea : EquipmentAuthorization) (eas : List EquipmentAuthorization)
          → is_valid_for eth key id ea ≡ false
          → (x : EquipmentAuthorization) → Counts (ea ∷ eas) x
          → Counts eas x
      back ea eas skipped x c = elim (Memᴰ.cases_cons c.member) [
        | inl here ↦ absurd (ground (arith, c.valid, ap (is_valid_for eth key id) here, skipped))
        | inr there ↦ record { member = there; valid = c.valid; regular = c.regular }
      ]

      skip :
          (ea : EquipmentAuthorization) (eas : List EquipmentAuthorization) {st : Status}
          → is_valid_for eth key id ea ≡ false
          → Verdict st eas
          → Verdict st (ea ∷ eas)
      skip ea eas skipped (nothing e none_count) =
          nothing e (λ x c. none_count x (back ea eas skipped x c))
      skip ea eas skipped (agreed a e c alone) =
          agreed a e (Counts-tail ea a eas c) (λ x d. alone x (back ea eas skipped x d))
      skip ea eas skipped (conflict a b e c d differ) =
          conflict a b e (Counts-tail ea a eas c) (Counts-tail ea b eas d) differ

  pub Verdict-same :
      (st st' : Status) (eas eas' : List EquipmentAuthorization)
      → ((x : EquipmentAuthorization) → Counts eas x → Counts eas' x)
      → ((x : EquipmentAuthorization) → Counts eas' x → Counts eas x)
      → Verdict st eas
      → Verdict st' eas'
      → st ≡ st'
  Verdict-same st st' eas eas' to from (nothing e n) (nothing e' n') = e ∙ sym e'
  Verdict-same st st' eas eas' to from (nothing e n) (agreed a e' c u) = absurd (n a (from a c))
  Verdict-same st st' eas eas' to from (nothing e n) (conflict a b e' c d k) =
      absurd (n a (from a c))
  Verdict-same st st' eas eas' to from (agreed a e c u) (nothing e' n') = absurd (n' a (to a c))
  Verdict-same st st' eas eas' to from (agreed a e c u) (agreed b e' d u') =
      e ∙ ap authorized (u' a (to a c)) ∙ sym e'
  Verdict-same st st' eas eas' to from (agreed a e c u) (conflict b d e' f g k) =
      absurd (k (u b (from b f) ∙ sym (u d (from d g))))
  Verdict-same st st' eas eas' to from (conflict a b e c d k) (nothing e' n') =
      absurd (n' a (to a c))
  Verdict-same st st' eas eas' to from (conflict a b e c d k) (agreed f e' g u) =
      absurd (k (u a (to a c) ∙ sym (u b (to b d))))
  Verdict-same st st' eas eas' to from (conflict a b e c d k) (conflict f g e' h i l) = e ∙ sym e'
