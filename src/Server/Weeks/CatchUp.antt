-- ===== src/Server/Weeks/CatchUp.antt =====
-- server/equipment.go: the rounds of `threadedMigrateReports` before it lets the server start.
use gca_backend.Base.{
  ℕ, zero, suc, ◌+◌, ◌-◌, ◌*◌, ◌^◌, ◌<◌, ◌≡◌, ◌∙◌, inl, inr, true, Option, none, some, List, [],
  ◌∷◌, arith, ltb, Bool-cases, ltb→ge,
}
use gca_backend.Base.Equality.{ℕ-Eq}
use gca_backend.Base.Result.{Result, Error, ok, err, panic, ◌>>=◌, >>=-eq-ok, Result-cases}
use gca_backend.Glow.Signatures.{EthCrypto}
use gca_backend.Glow.Timeslot.{unix_to_timeslot}
use gca_backend.Server.State.{GcaServer}
use gca_backend.Server.Impact.{write_rate, week_rate, at_date, week_dates, week_data}
use gca_backend.Server.Weeks.{Answers, migrate_week, migrate_step, catch_up}
use gca_backend.Server.Weeks.Archive.{migrate_week_cases}

write_rate-offset :
    (s s' : GcaServer) (id index moer : ℕ)
    → write_rate s id index moer ≡ ok s'
    → s'.equipment_reports_offset ≡ s.equipment_reports_offset
unfolding write_rate
write_rate-offset s s' id index moer e = ground arith

week_rate-offset :
    (s s' : GcaServer) (id timeslot moer : ℕ)
    → week_rate s id timeslot moer ≡ ok s'
    → s'.equipment_reports_offset ≡ s.equipment_reports_offset
unfolding week_rate
week_rate-offset s s' id timeslot moer e =
    ground (arith, write_rate-offset s s' id (timeslot - s.equipment_reports_offset) moer)

at_date-offset :
    (s s' : GcaServer) (id date moer : ℕ)
    → at_date (λ timeslot. week_rate s id timeslot moer) date s ≡ ok s'
    → s'.equipment_reports_offset ≡ s.equipment_reports_offset
unfolding at_date
at_date-offset s s' id date moer e = elim (Result-cases (unix_to_timeslot date)) [
  | inl (timeslot, known) ↦ week_rate-offset s s' id timeslot moer (ground arith)
  | inr (inl (early, known)) ↦ ground arith
  | inr (inr known) ↦ absurd (ground arith)
]

week_dates-offset :
    (room : ℕ) (s s' : GcaServer) (id : ℕ) (dates : List (ℕ × ℕ))
    → week_dates room s id dates ≡ ok s'
    → s'.equipment_reports_offset ≡ s.equipment_reports_offset
unfolding week_dates
week_dates-offset zero s s' id dates e = ground arith
week_dates-offset (suc room) s s' id [] e = ground arith
week_dates-offset (suc room) s s' id ((moer, date) ∷ dates) e =
    let (m, first, rest) =
      >>=-eq-ok (at_date (λ timeslot. week_rate s id timeslot moer) date s) _ e in
    week_dates-offset room m s' id dates rest ∙ at_date-offset s m id date moer first

week_data-offset :
    (s s' : GcaServer) (answers : Answers)
    → week_data s answers ≡ ok s'
    → s'.equipment_reports_offset ≡ s.equipment_reports_offset
unfolding week_data
week_data-offset s s' [] e = ground arith
week_data-offset s s' ((id, none) ∷ answers) e = week_data-offset s s' answers e
week_data-offset s s' ((id, some dates) ∷ answers) e =
    let (m, first, rest) = >>=-eq-ok (week_dates 4032 s id dates) _ e in
    week_data-offset m s' answers rest ∙ week_dates-offset 4032 s m id dates first

migrate_step-offset :
    (eth : EthCrypto) (now : ℕ) (answers : Answers) (s s' : GcaServer)
    → s.equipment_reports_offset + 3200 < now
    → now < 2 ^ 32
    → migrate_step eth now answers s ≡ ok s'
    → s'.equipment_reports_offset ≡ s.equipment_reports_offset + 2016
unfolding migrate_step
migrate_step-offset eth now answers s s' behind bound e =
    let busy : (do m ← week_data s answers; migrate_week eth m) ≡ ok s' = ground arith in
    let (m, fetched, rest) = >>=-eq-ok (week_data s answers) _ busy in
    let moved = (migrate_week_cases eth m s' rest).offset in
    omega (arith, moved, week_data-offset s m answers fetched)

-- How the rounds end: with a state that is less than 4000 timeslots behind, or with a failure.
pub data IsDone (now : ℕ) : Option (Result GcaServer) → Type 0 where
  caught_up : {s : GcaServer} → now < s.equipment_reports_offset + 4000 → IsDone now (some (ok s))
  failed : {e : Error} → IsDone now (some (err e))
  crashed : IsDone now (some panic)

-- One round for each week that the server is behind is enough: the rounds end, and where they end
-- without a failure the offset is less than 4000 timeslots behind.
pub catch_up-IsDone :
    (eth : EthCrypto) (now : ℕ) (answers : ℕ → Answers) (fuel : ℕ) (s : GcaServer)
    → now < 2 ^ 32
    → now < s.equipment_reports_offset + 4000 + 2016 * fuel
    → IsDone now (catch_up eth now answers (suc fuel) s)
unfolding catch_up
catch_up-IsDone eth now answers zero s bound enough =
    let near : ltb now (s.equipment_reports_offset + 4000) ≡ true = ground arith in
    rw (near, catch_up) (caught_up (omega arith))
catch_up-IsDone eth now answers (suc n) s bound enough =
    elim (Bool-cases (ltb now (s.equipment_reports_offset + 4000))) [
      | inl near ↦ rw (near, catch_up) (caught_up (ground arith))
      | inr far ↦
          let behind = ltb→ge now (s.equipment_reports_offset + 4000) far in
          elim (Result-cases (migrate_step eth now (answers (suc n)) s)) [
            | inl (m, moved) ↦
                let offset =
                  migrate_step-offset eth now (answers (suc n)) s m (omega arith) bound moved in
                rw (far, moved, catch_up)
                  (catch_up-IsDone eth now answers n m bound (omega (arith, offset)))
            | inr (inl (e, stopped)) ↦ rw (far, stopped, catch_up) failed
            | inr (inr stopped) ↦ rw (far, stopped, catch_up) crashed
          ]
    ]
