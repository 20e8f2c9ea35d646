-- ===== src/Client/Reports/Missing.antt =====
-- client/reports.go: the scan of the bitfield sends what the server lacks and the device has.
use gca_backend.Base.{
  ℕ, zero, suc, ◌+◌, ◌-◌, ◌%◌, ◌^◌, ◌≤◌, ◌<◌, ◌≡◌, refl, ap, sym, ◌⊎◌, inl, inr, none, some, List,
  [], ◌∷◌, arith, ltb, ◌==◌, Bool-cases, subst, ◌↔◌,
}
use gca_backend.Base.Equality.{ℕ-Eq}
use gca_backend.Glow.Report.{EquipmentReport}
use gca_backend.Server.State.{Array}
use gca_backend.Server.Sync.{bitfield_from}
use gca_backend.Server.Sync.Bits.{bitfield_bit, length-bitfield_from, bitfield_byte}
use gca_backend.Client.State.{Client}
use gca_backend.Client.History.{static_load_reading}
use gca_backend.Client.Reports.{
  EnergyRecord, is_missing, record_at, scan, scan_length, missing_records,
}

-- The record is in the list.
abbrev pub IsSent : EnergyRecord → List EnergyRecord → Type 0
IsSent er [] = ⊥
IsSent er (x ∷ xs) = (x ≡ er) ⊎ IsSent er xs

-- The device has a reading for timeslot `i` behind the offset, and the server has no power for it.
pub record IsLacking (c : Client) (reports : Array EquipmentReport) (offset i : ℕ) : Type 0 where
  pub absent : (reports i).power_output ≡ 0
  pub present : 2 ≤ static_load_reading c ((i + offset) % 2 ^ 32)

abbrev pub record_for : Client → ℕ → ℕ → EnergyRecord
record_for c offset i = record {
  timeslot = (i + offset) % 2 ^ 32;
  energy = static_load_reading c ((i + offset) % 2 ^ 32);
}

is_missing-bitfield_from :
    (reports : Array EquipmentReport) (i : ℕ)
    → i < 4032
    → is_missing (bitfield_from 504 0 reports) i ≡ ((reports i).power_output == 0)
unfolding is_missing
is_missing-bitfield_from reports i h =
    let (byte, found) = bitfield_byte reports i h in
    let bit = bitfield_bit reports i byte h found in ground (arith, found, bit)

record_at_cases :
    (c : Client) (reports : Array EquipmentReport) (offset i : ℕ)
    → i < 4032
    → ((record_at c (bitfield_from 504 0 reports) offset i ≡ some (record_for c offset i))
        × IsLacking c reports offset i)
      ⊎ ((record_at c (bitfield_from 504 0 reports) offset i ≡ none)
          × ¬ IsLacking c reports offset i)
unfolding record_at
record_at_cases c reports offset i h =
    let bit = is_missing-bitfield_from reports i h in
    elim (Bool-cases ((reports i).power_output == 0)) [
      | inr there ↦ inr (ground (arith, bit, there), λ lacking. ground (arith, lacking.absent))
      | inl absent ↦ elim (Bool-cases (ltb (static_load_reading c ((i + offset) % 2 ^ 32)) 2)) [
        | inl little ↦
            inr (ground (arith, bit, absent, little), λ lacking. ground (arith, lacking.present))
        | inr enough ↦ inl (
          ground (arith, bit, absent, enough),
          record { absent = ground arith; present = ground arith },
        )
      ]
    ]

module _ (c : Client) (reports : Array EquipmentReport) (offset : ℕ) where
  bitfield : List ℕ
  bitfield = bitfield_from 504 0 reports

  sent : ℕ → ℕ → List EnergyRecord
  sent n i = scan c bitfield offset n i

  sent_step :
      (n i : ℕ)
      → i < 4032
      → ((sent (suc n) i ≡ record_for c offset i ∷ sent n (i + 1)) × IsLacking c reports offset i)
        ⊎ ((sent (suc n) i ≡ sent n (i + 1)) × ¬ IsLacking c reports offset i)
  unfolding sent bitfield scan
  sent_step n i h = elim (record_at_cases c reports offset i h) [
    | inl (found, lacking) ↦ inl (rw found refl, lacking)
    | inr (nothing, fine) ↦ inr (rw nothing refl, fine)
  ]

  sent_all :
      (n i j : ℕ)
      → i + n ≤ 4032
      → i ≤ j
      → j < i + n
      → IsLacking c reports offset j
      → IsSent (record_for c offset j) (sent n i)
  sent_all zero i j h begun ended lacking = absurd (omega arith)
  sent_all (suc n) i j h begun ended lacking = elim (here_or_later i j begun) [
    | inl here ↦ elim (sent_step n i (omega arith)) [
      | inl (first, _) ↦
          subst (IsSent (record_for c offset j)) (sym first) (inl (ap (record_for c offset) here))
      | inr (_, fine) ↦ absurd (fine (subst (IsLacking c reports offset) (sym here) lacking))
    ]
    | inr later ↦
        let rest = sent_all n (i + 1) j (omega arith) (omega arith) (omega arith) lacking in
        elim (sent_step n i (omega arith)) [
          | inl (first, _) ↦ subst (IsSent (record_for c offset j)) (sym first) (inr rest)
          | inr (skipped, _) ↦ subst (IsSent (record_for c offset j)) (sym skipped) rest
        ]
  ]
    where
      here_or_later : (i j : ℕ) → i ≤ j → (i ≡ j) ⊎ (i < j)
      here_or_later i j h = ground arith

  sent_only :
      (n i : ℕ) (er : EnergyRecord)
      → i + n ≤ 4032
      → IsSent er (sent n i)
      → (j : ℕ) × (i ≤ j)
        × (j < i + n)
        × IsLacking c reports offset j
        × (record_for c offset j ≡ er)
  sent_only zero i er h s = absurd (unfold sent scan in s)
  sent_only (suc n) i er h s = elim (sent_step n i (omega arith)) [
    | inl (first, lacking) ↦ elim (subst (IsSent er) first s) [
      | inl here ↦ (i, omega arith, omega arith, lacking, here)
      | inr later ↦ widen (sent_only n (i + 1) er (omega arith) later)
    ]
    | inr (skipped, _) ↦ widen (sent_only n (i + 1) er (omega arith) (subst (IsSent er) skipped s))
  ]
    where
      widen :
          (j : ℕ) × (i + 1 ≤ j)
            × (j < i + 1 + n)
            × IsLacking c reports offset j
            × (record_for c offset j ≡ er)
          → (j : ℕ) × (i ≤ j)
            × (j < i + suc n)
            × IsLacking c reports offset j
            × (record_for c offset j ≡ er)
      widen (j, a, b, lacking, same) = (j, omega arith, omega arith, lacking, same)

abbrev pub last_index : ℕ → ℕ → ℕ
last_index latest offset = (latest + 2 ^ 32 - offset) % 2 ^ 32

scan_length_lem :
    (reports : Array EquipmentReport) (latest offset : ℕ)
    → (scan_length latest offset (bitfield_from 504 0 reports) ≤ 4032)
      × ((i : ℕ)
          → (i < scan_length latest offset (bitfield_from 504 0 reports))
            ↔ ((i ≤ last_index latest offset) × (i < 4032)))
scan_length_lem reports latest offset =
    let size = length-bitfield_from 504 0 reports in (ground arith, λ i. ground arith)

pub missing_records_iff :
    (c : Client) (reports : Array EquipmentReport) (offset latest : ℕ) (er : EnergyRecord)
    → IsSent er (missing_records c (bitfield_from 504 0 reports) offset latest) ↔ (
        (i : ℕ) × (i ≤ last_index latest offset)
        × (i < 4032)
        × IsLacking c reports offset i
        × (record_for c offset i ≡ er))
unfolding missing_records sent bitfield
missing_records_iff c reports offset latest er =
    let n = scan_length latest offset (bitfield_from 504 0 reports) in
    let (bound, range) = scan_length_lem reports latest offset in
    (
      (λ s.
          let (j, begun, ended, lacking, same) =
            sent_only c reports offset n 0 er (omega arith) s in
          let within = (range j).0 (omega arith) in (j, within.0, within.1, lacking, same)),
      (λ (i, early, inside, lacking, same).
          subst (λ x. IsSent x (scan c (bitfield_from 504 0 reports) offset n 0)) same
            (sent_all c reports offset n 0 i (omega arith) (omega arith)
              (omega (arith, (range i).1 (early, inside))) lacking)),
    )
