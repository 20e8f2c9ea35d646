-- ===== src/Server/Impact/InRange.antt =====
-- server/watttime.go: answers whose dates are in range are written without a failure.
use gca_backend.Base.{
  ℕ, zero, suc, ◌+◌, ◌-◌, ◌<◌, ◌≡◌, ◌≢◌, refl, sym, ap, subst, ◌∙◌, inl, inr, true, Option, none,
  some, List, [], ◌∷◌, arith, All, Option-cases, Bool-cases, leb,
}
use gca_backend.Base.Equality.{ℕ-Eq}
use gca_backend.Base.Map.{Map, lookup, insert, lookup-insert}
use gca_backend.Base.Result.{ok, panic, Result-cases}
use gca_backend.Glow.Timeslot.{unix_to_timeslot}
use gca_backend.Server.State.{GcaServer, Array, store}
use gca_backend.Server.Impact.{write_rate, week_rate, at_date, week_dates, week_data}

-- Only rates change, and no device loses its rates.
pub record Writes (s s' : GcaServer) : Type 0 where
  pub only_rates : s' ≡ record s { equipment_impact_rate = s'.equipment_impact_rate }
  pub kept :
      (id : ℕ)
      → lookup id s.equipment_impact_rate ≢ none
      → lookup id s'.equipment_impact_rate ≢ none

pub Writes-refl : (s : GcaServer) → Writes s s
Writes-refl s = record { only_rates = refl; kept = λ id there. there }

Writes-then : (s m s' : GcaServer) → Writes s m → Writes m s' → Writes s s'
Writes-then s m s' a b = record {
  only_rates = ground (arith, a.only_rates, b.only_rates);
  kept = λ id there. b.kept id (a.kept id there);
}

write_rate-ok :
    (s : GcaServer) (id index moer : ℕ)
    → lookup id s.equipment_impact_rate ≢ none
    → index < 4032
    → (s' : GcaServer) × (write_rate s id index moer ≡ ok s') × Writes s s'
unfolding write_rate
write_rate-ok s id index moer there small =
    elim (Option-cases (lookup id s.equipment_impact_rate)) [
      | inl missing ↦ absurd (there missing)
      | inr (rates, found) ↦
          let next = insert id (store index moer rates) s.equipment_impact_rate in
          (
            record s { equipment_impact_rate = next },
            ground (arith, found),
            record {
              only_rates = refl;
              kept = λ other known missing. ground (
                arith,
                lookup-insert id other (store index moer rates) s.equipment_impact_rate,
                known,
                missing,
              );
            },
          )
    ]

-- A date that is before genesis, or before the end of the arrays.
abbrev pub IsNear : ℕ → ℕ → Type 0
IsNear offset date = (t : ℕ) → unix_to_timeslot date ≡ ok t → t < offset + 4032

unix_to_timeslot-ne-panic : (date : ℕ) → unix_to_timeslot date ≢ panic
unfolding unix_to_timeslot
unix_to_timeslot-ne-panic date e = ground arith

at_date-fresh :
    (s : GcaServer) (id moer date t : ℕ)
    → unix_to_timeslot date ≡ ok t
    → leb s.equipment_reports_offset t ≡ true
    → at_date (λ timeslot. week_rate s id timeslot moer) date s
      ≡ write_rate s id (t - s.equipment_reports_offset) moer
unfolding at_date week_rate
at_date-fresh s id moer date t found fresh = ground (arith, found, fresh)

at_date-ok :
    (s : GcaServer) (id moer date : ℕ)
    → lookup id s.equipment_impact_rate ≢ none
    → IsNear s.equipment_reports_offset date
    → (s' : GcaServer) × (at_date (λ timeslot. week_rate s id timeslot moer) date s ≡ ok s')
      × Writes s s'
unfolding at_date week_rate
at_date-ok s id moer date there near = elim (Result-cases (unix_to_timeslot date)) [
  | inr (inr stopped) ↦ absurd (unix_to_timeslot-ne-panic date stopped)
  | inr (inl (x, early)) ↦ (s, ground (arith, early), Writes-refl s)
  | inl (t, found) ↦ elim (Bool-cases (leb s.equipment_reports_offset t)) [
    | inr old ↦ (s, ground (arith, found, old), Writes-refl s)
    | inl fresh ↦
        let below = near t found in
        let (s', done, w) =
          write_rate-ok s id (t - s.equipment_reports_offset) moer there (ground arith) in
        (s', at_date-fresh s id moer date t found fresh ∙ done, w)
  ]
]

-- Every device that is answered for has rates, and every date is near.
abbrev pub IsInRange : Map ℕ (Array ℕ) → ℕ → List (ℕ × Option (List (ℕ × ℕ))) → Type 0
IsInRange rates offset [] = Unit {0}
IsInRange rates offset ((id, none) ∷ answers) = IsInRange rates offset answers
IsInRange rates offset ((id, some dates) ∷ answers) =
    (lookup id rates ≢ none)
    × All (λ (d : ℕ × ℕ). IsNear offset d.1) dates
    × IsInRange rates offset answers

offset-Writes :
    (s m : GcaServer) → Writes s m → m.equipment_reports_offset ≡ s.equipment_reports_offset
offset-Writes s m w = ap (λ (t : GcaServer). t.equipment_reports_offset) w.only_rates

All-IsNear :
    (a b : ℕ) (dates : List (ℕ × ℕ))
    → a ≡ b
    → All (λ (d : ℕ × ℕ). IsNear a d.1) dates
    → All (λ (d : ℕ × ℕ). IsNear b d.1) dates
All-IsNear a b dates e h = subst (λ (x : ℕ). All (λ (d : ℕ × ℕ). IsNear x d.1) dates) e h

week_dates-ok :
    (room : ℕ) (s : GcaServer) (id : ℕ) (dates : List (ℕ × ℕ))
    → lookup id s.equipment_impact_rate ≢ none
    → All (λ (d : ℕ × ℕ). IsNear s.equipment_reports_offset d.1) dates
    → (s' : GcaServer) × (week_dates room s id dates ≡ ok s') × Writes s s'
unfolding week_dates
week_dates-ok zero s id dates there near = (s, refl, Writes-refl s)
week_dates-ok (suc room) s id [] there near = (s, refl, Writes-refl s)
week_dates-ok (suc room) s id ((moer, date) ∷ dates) there (near, rest) =
    let (m, first, w) = at_date-ok s id moer date there near in
    let (s', others, w') = week_dates-ok room m id dates (w.kept id there) (
      All-IsNear s.equipment_reports_offset m.equipment_reports_offset dates
        (sym (offset-Writes s m w)) rest) in
    (s', rw first others, Writes-then s m s' w w')

-- The week's answers are written, if their devices had rates in `rates`, and have them in the state.
pub week_data-ok :
    (s : GcaServer) (rates : Map ℕ (Array ℕ)) (offset : ℕ)
    (answers : List (ℕ × Option (List (ℕ × ℕ))))
    → s.equipment_reports_offset ≡ offset
    → ((id : ℕ) → lookup id rates ≢ none → lookup id s.equipment_impact_rate ≢ none)
    → IsInRange rates offset answers
    → (s' : GcaServer) × (week_data s answers ≡ ok s') × Writes s s'
unfolding week_data
week_data-ok s rates offset [] at have h = (s, refl, Writes-refl s)
week_data-ok s rates offset ((id, none) ∷ answers) at have h =
    week_data-ok s rates offset answers at have h
week_data-ok s rates offset ((id, some dates) ∷ answers) at have (there, near, rest) =
    let (m, first, w) =
      week_dates-ok 4032 s id dates (have id there)
        (All-IsNear offset s.equipment_reports_offset dates (sym at) near) in
    let (s', others, w') =
      week_data-ok m rates offset answers (offset-Writes s m w ∙ at)
        (λ other known. w.kept other (have other known)) rest in
    (s', rw first others, Writes-then s m s' w w')
