-- ===== src/Server/Weeks/Progress.antt =====
-- server/equipment.go: the rounds before the start succeed, also while WattTime does not answer.
use gca_backend.Base.{
  ℕ, zero, suc, ◌+◌, ◌*◌, ◌^◌, ◌≤◌, ◌<◌, ◌≡◌, ◌≢◌, refl, ap, sym, subst, ◌∙◌, inl, inr, true, false,
  none, some, [], ◌∷◌, arith, ltb, ltb→ge, Bool-cases, Option-cases,
}
use gca_backend.Base.Equality.{ℕ-Eq}
use gca_backend.Base.Map.{Map, lookup}
use gca_backend.Base.Result.{ok}
use gca_backend.Glow.Signatures.{EthCrypto}
use gca_backend.Glow.Report.{EquipmentReport}
use gca_backend.Server.State.{GcaServer, Array}
use gca_backend.Server.Impact.InRange.{Writes, IsInRange, week_data-ok}
use gca_backend.Server.Weeks.{Answers, migrate_week, migrate_step, catch_up}
use gca_backend.Server.Weeks.Archive.{lookup-shift_all, migrate_week_cases}
use gca_backend.Server.Weeks.Healthy.{AllRates, IsHealthy, migrate_week-ok}

ready :
    (eth : EthCrypto) (now fuel : ℕ) (answers : ℕ → Answers) (s : GcaServer)
    → ltb now (s.equipment_reports_offset + 4000) ≡ true
    → catch_up eth now answers (suc fuel) s ≡ some (ok s)
unfolding catch_up
ready eth now fuel answers s near = rw near refl

-- Writing rates keeps a server healthy.
AllRates-kept :
    (rates rates' : Map ℕ (Array ℕ)) (m : Map ℕ (Array EquipmentReport))
    → ((id : ℕ) → lookup id rates ≢ none → lookup id rates' ≢ none)
    → AllRates rates m
    → AllRates rates' m
AllRates-kept rates rates' [] kept h = tt
AllRates-kept rates rates' ((id, a) ∷ m) kept (h, hs) =
    (kept id h, AllRates-kept rates rates' m kept hs)

Writes-IsHealthy :
    (eth : EthCrypto) (s s' : GcaServer) → Writes s s' → IsHealthy eth s → IsHealthy eth s'
Writes-IsHealthy eth s s' w h = subst (IsHealthy eth) (sym w.only_rates) (record {
  rates =
      AllRates-kept s.equipment_impact_rate s'.equipment_impact_rate s.equipment_reports w.kept
        h.rates;
  writable = h.writable;
  keys = h.keys;
  whole_week = h.whole_week;
})

migrate_week-rates :
    (eth : EthCrypto) (s s' : GcaServer) (id : ℕ)
    → migrate_week eth s ≡ ok s'
    → lookup id s.equipment_impact_rate ≢ none
    → lookup id s'.equipment_impact_rate ≢ none
migrate_week-rates eth s s' id moved there missing =
    elim (Option-cases (lookup id s.equipment_impact_rate)) [
      | inl gone ↦ there gone
      | inr (rates, found) ↦ ground (
        arith,
        lookup-shift_all 0 id s.equipment_impact_rate,
        found,
        ap (lookup id) (migrate_week_cases eth s s' moved).rates,
        missing,
      )
    ]

-- A round whose answers are in range moves a healthy server on by a week.
step-ok :
    (eth : EthCrypto) (now : ℕ) (s : GcaServer) (rates : Map ℕ (Array ℕ)) (answers : Answers)
    → IsHealthy eth s
    → ((id : ℕ) → lookup id rates ≢ none → lookup id s.equipment_impact_rate ≢ none)
    → IsInRange rates s.equipment_reports_offset answers
    → s.equipment_reports_offset + 4000 ≤ now
    → now < 2 ^ 32
    → (s' : GcaServer) × (migrate_step eth now answers s ≡ ok s')
      × IsHealthy eth s'
      × (s'.equipment_reports_offset ≡ s.equipment_reports_offset + 2016)
      × ((id : ℕ) → lookup id rates ≢ none → lookup id s'.equipment_impact_rate ≢ none)
unfolding migrate_step
step-ok eth now s rates answers h have near behind bound =
    let (m, written, w) = week_data-ok s rates s.equipment_reports_offset answers refl have near in
    let same : m.equipment_reports_offset ≡ s.equipment_reports_offset =
      ap (λ (t : GcaServer). t.equipment_reports_offset) w.only_rates in
    let (s', moved, healthy, offset) =
      migrate_week-ok eth m (Writes-IsHealthy eth s m w h) (omega (arith, same)) in
    let busy : ltb (s.equipment_reports_offset + 3200) now ≡ true = ground arith in
    (
      s',
      rw (busy, written) moved,
      healthy,
      offset ∙ ap (λ (k : ℕ). k + 2016) same,
      λ id known. migrate_week-rates eth m s' id moved (w.kept id (have id known)),
    )

next_round :
    (eth : EthCrypto) (now fuel : ℕ) (answers : ℕ → Answers) (s m : GcaServer)
    → ltb now (s.equipment_reports_offset + 4000) ≡ false
    → migrate_step eth now (answers (suc fuel)) s ≡ ok m
    → catch_up eth now answers (suc (suc fuel)) s ≡ catch_up eth now answers (suc fuel) m
unfolding catch_up
next_round eth now fuel answers s m far moved = rw (far, moved) refl

-- The answers of each round are in range of the arrays as they then stand; the rounds are counted down.
abbrev pub AllInRange : Map ℕ (Array ℕ) → (ℕ → Answers) → ℕ → ℕ → Type 0
AllInRange rates answers zero offset = Unit {0}
AllInRange rates answers (suc n) offset =
    IsInRange rates offset (answers (suc n)) × AllInRange rates answers n (offset + 2016)

catch_up_from :
    (eth : EthCrypto) (now fuel : ℕ) (answers : ℕ → Answers) (rates : Map ℕ (Array ℕ)) (offset : ℕ)
    (s : GcaServer)
    → IsHealthy eth s
    → ((id : ℕ) → lookup id rates ≢ none → lookup id s.equipment_impact_rate ≢ none)
    → s.equipment_reports_offset ≡ offset
    → AllInRange rates answers fuel offset
    → now < 2 ^ 32
    → now < offset + 4000 + 2016 * fuel
    → (s' : GcaServer) × (catch_up eth now answers (suc fuel) s ≡ some (ok s'))
      × (now < s'.equipment_reports_offset + 4000)
      × IsHealthy eth s'
catch_up_from eth now zero answers rates offset s h have at near bound enough =
    let close : ltb now (s.equipment_reports_offset + 4000) ≡ true = ground arith in
    (s, ready eth now zero answers s close, omega arith, h)
catch_up_from eth now (suc n) answers rates offset s h have at (near, rest) bound enough =
    elim (Bool-cases (ltb now (s.equipment_reports_offset + 4000))) [
      | inl close ↦ (s, ready eth now (suc n) answers s close, ground arith, h)
      | inr far ↦
          let behind = ltb→ge now (s.equipment_reports_offset + 4000) far in
          let (m, moved, healthy, next, have') =
            step-ok eth now s rates (answers (suc n)) h have
              (subst (λ (k : ℕ). IsInRange rates k (answers (suc n))) (sym at) near) behind bound in
          let (s', later, caught, healthy') =
            catch_up_from eth now n answers rates (offset + 2016) m healthy have'
              (next ∙ ap (λ (k : ℕ). k + 2016) at) rest bound (omega arith) in
          (s', next_round eth now n answers s m far moved ∙ later, caught, healthy')
    ]

-- A healthy server with a round for each week that it is behind catches up without a failure, whether
-- WattTime answers or not: the rounds end less than 4000 timeslots behind, and the server is still
-- healthy. The answers of a round are for devices that have rates, and for dates before the end of
-- the arrays; the clock fits 32 bits.
pub catch_up-IsHealthy :
    (eth : EthCrypto) (now fuel : ℕ) (answers : ℕ → Answers) (s : GcaServer)
    → IsHealthy eth s
    → AllInRange s.equipment_impact_rate answers fuel s.equipment_reports_offset
    → now < 2 ^ 32
    → now < s.equipment_reports_offset + 4000 + 2016 * fuel
    → (s' : GcaServer) × (catch_up eth now answers (suc fuel) s ≡ some (ok s'))
      × (now < s'.equipment_reports_offset + 4000)
      × IsHealthy eth s'
catch_up-IsHealthy eth now fuel answers s h near bound enough =
    catch_up_from eth now fuel answers s.equipment_impact_rate s.equipment_reports_offset s h
      (λ id there. there) refl near bound enough
