-- ===== src/Client/Energy/Rounding.antt =====
-- client/reports.go: the device never reports more than it measured.
use gca_backend.Base.{
  ℕ, ◌*◌, ◌^◌, ◌≤◌, ◌<◌, ◌≡◌, refl, ap, ◌⊎◌, inl, inr, Option, none, some, List, [], ◌∷◌, arith,
  All, Option-cases, sym, subst, ◌∙◌,
}
use gca_backend.Base.Equality.{ℕ-Eq}
use gca_backend.Base.Result.{ok, >>=-eq-ok, Result-cases}
use gca_backend.Glow.Timeslot.{unix_to_timeslot}
use gca_backend.Client.Reports.{EnergyRecord}
use gca_backend.Client.Energy.{
  Row, energy_of, record_of_energy, record_of_row, add_record, static_read_energy_file,
}

-- The row gives this record: its time is in the timeslot, it measured 3 or more, and the energy of
-- the record, scaled by 1000 / 6667, is less than what it measured.
pub record IsFrom (er : EnergyRecord) (row : Row) : Type 0 where
  pub time : ℕ
  pub measured : ℕ
  pub timed : row.time ≡ some time
  pub in_timeslot : unix_to_timeslot time ≡ ok er.timeslot
  pub read : row.energy ≡ some (some measured)
  pub real : 3 ≤ measured
  pub below : er.energy * 1000 < measured * 6667

-- The energies of a file are uint32.
abbrev pub IsRow : Row → Type 0
IsRow row = (n : ℕ) → row.energy ≡ some (some n) → n < 2 ^ 32

energy_of-below : (n : ℕ) → 3 ≤ n → n < 2 ^ 32 → energy_of n * 1000 < n * 6667
unfolding energy_of
energy_of-below n h small = ground arith

record_of_energy-ok :
    (timeslot : ℕ) (energy : Option (Option ℕ)) (er : EnergyRecord)
    → record_of_energy timeslot energy ≡ ok (some er)
    → (n : ℕ) × (energy ≡ some (some n))
      × (3 ≤ n)
      × (er ≡ record { timeslot = timeslot; energy = energy_of n })
record_of_energy-ok timeslot none er e = absurd (ground arith)
record_of_energy-ok timeslot (some none) er e = absurd (ground arith)
record_of_energy-ok timeslot (some (some n)) er e = (n, refl, ground arith, ground arith)

timed_row :
    (row : Row) (er : EnergyRecord)
    → record_of_row row ≡ ok (some er)
    → (time timeslot : ℕ) × (row.time ≡ some time)
      × (unix_to_timeslot time ≡ ok timeslot)
      × (record_of_energy timeslot row.energy ≡ ok (some er))
unfolding record_of_row
timed_row row er e = elim (Option-cases row.time) [
  | inl untimed ↦ absurd (ground (arith, untimed))
  | inr (time, timed) ↦ elim (Result-cases (unix_to_timeslot time)) [
    | inl (timeslot, known) ↦ (time, timeslot, timed, known, ground (arith, timed, known))
    | inr (inl (early, known)) ↦ absurd (ground (arith, timed, known))
    | inr (inr known) ↦ absurd (ground (arith, timed, known))
  ]
]

record_of_row-IsFrom :
    (row : Row) (er : EnergyRecord) → IsRow row → record_of_row row ≡ ok (some er) → IsFrom er row
record_of_row-IsFrom row er small e =
    let (time, timeslot, timed, known, rest) = timed_row row er e in
    let (n, read, real, same) = record_of_energy-ok timeslot row.energy er rest in
    let below = energy_of-below n real (small n read) in
    record {
      time = time;
      measured = n;
      timed = timed;
      in_timeslot = known ∙ ap ok (ap (λ x. x.timeslot) (sym same));
      read = read;
      real = real;
      below = subst (λ (k : ℕ). k * 1000 < n * 6667) (ap (λ x. x.energy) (sym same)) below;
    }

-- Some row of the list gives the record.
abbrev pub IsMeasured : List Row → EnergyRecord → Type 0
IsMeasured [] er = ⊥
IsMeasured (row ∷ rows) er = IsFrom er row ⊎ IsMeasured rows er

later :
    (row : Row) (rows : List Row) (ers : List EnergyRecord)
    → All (IsMeasured rows) ers
    → All (IsMeasured (row ∷ rows)) ers
later row rows [] h = tt
later row rows (er ∷ ers) (h, hs) = (inr h, later row rows ers hs)

-- Every record that the device takes from the energy file comes from a row whose time lies in the
-- record's timeslot, and its energy is below the row's measurement by the factor 6667 / 1000: it is
-- never more than what was measured.
pub static_read_energy_file-IsMeasured :
    (rows : List Row) (ers : List EnergyRecord)
    → All IsRow rows
    → static_read_energy_file rows ≡ ok ers
    → All (IsMeasured rows) ers
unfolding static_read_energy_file
static_read_energy_file-IsMeasured [] ers small e =
    let none_read : [] ≡ ers = ground arith in subst (All (IsMeasured [])) none_read tt
static_read_energy_file-IsMeasured (row ∷ rows) ers (small, smalls) e =
    let (found, first, rest) = >>=-eq-ok (record_of_row row) _ e in
    let (others, read, last) = >>=-eq-ok (static_read_energy_file rows) _ rest in
    let tail = later row rows others (static_read_energy_file-IsMeasured rows others smalls read) in
    let whole : add_record found others ≡ ers = ground arith in
    subst (All (IsMeasured (row ∷ rows))) whole (with_first others found first tail)
  where
    with_first :
        (others : List EnergyRecord) (found : Option EnergyRecord)
        → record_of_row row ≡ ok found
        → All (IsMeasured (row ∷ rows)) others
        → All (IsMeasured (row ∷ rows)) (add_record found others)
    with_first others none first tail = tail
    with_first others (some er) first tail = (inl (record_of_row-IsFrom row er small first), tail)
