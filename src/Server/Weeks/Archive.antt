-- ===== src/Server/Weeks/Archive.antt =====
-- server/equipment.go and server/api_device_stats.go: what the migration of a week keeps of the
-- reports, and what the handler answers for archived weeks.
use gca_backend.Base.{
  ℕ, zero, suc, ◌+◌, ◌-◌, ◌*◌, ◌/◌, ◌%◌, ◌^◌, ◌≤◌, ◌<◌, ◌≡◌, refl, ap, ◌∙◌, inl, inr, none, some,
  List, [], ◌∷◌, ◌++◌, arith, length, get_elem?, ltb, if◌then◌else◌, Option-cases,
}
use gca_backend.Base.Equality.{ℕ-Eq}
use gca_backend.Base.Map.{Map, lookup}
use gca_backend.Base.Result.{Result, ok, err, panic, >>=-eq-ok}
use gca_backend.Glow.Signatures.{EthCrypto}
use gca_backend.Server.DeviceStats.{AllDeviceStats, serialize}
use gca_backend.Server.State.{GcaServer, Array, append_file}
use gca_backend.Server.Reports.{blank_report}
use gca_backend.Server.Reports.Safety.{slot_at}
use gca_backend.Server.Weeks.{
  build_device_stats, all_device_stats, shift_array, shift_all, or_created, save_all_device_stats,
  or_panic, migrate_week,
}

pub lookup-shift_all :
    {A : Type 0} (blank : A) (id : ℕ) (m : Map ℕ (Array A))
    → lookup id (shift_all blank m)
      ≡ elim (lookup id m) [ none ↦ none | some a ↦ some (shift_array blank a) ]
unfolding lookup shift_all
lookup-shift_all blank id [] = refl
lookup-shift_all blank id ((k, a) ∷ m) = ground (arith, lookup-shift_all blank id m)

or_panic-ok : {A : Type 0} (r : Result A) (a : A) → or_panic r ≡ ok a → r ≡ ok a
or_panic-ok (ok b) a e = e
or_panic-ok (err e') a e = ground arith
or_panic-ok panic a e = ground arith

-- What a migration that succeeds does to the state.
pub record Migration (eth : EthCrypto) (s s' : GcaServer) : Type 0 where
  pub stats : AllDeviceStats
  pub built : build_device_stats eth s s.equipment_reports_offset ≡ ok stats
  pub history : s'.equipment_stats_history ≡ s.equipment_stats_history ++ (stats ∷ [])
  pub reports : s'.equipment_reports ≡ shift_all blank_report s.equipment_reports
  pub rates : s'.equipment_impact_rate ≡ shift_all 0 s.equipment_impact_rate
  pub offset : s'.equipment_reports_offset ≡ (s.equipment_reports_offset + 2016) % 2 ^ 32
  pub origin : s'.equipment_history_offset ≡ s.equipment_history_offset
  pub file :
      append_file s.disk.writable (or_created s.disk.device_stats) (serialize stats)
      ≡ s'.disk.device_stats

save_all_device_stats_cases :
    (s s' : GcaServer) (ads : AllDeviceStats)
    → save_all_device_stats s ads ≡ ok s'
    → (file : List ℕ) × (append_file s.disk.writable
          (or_created s.disk.device_stats)
          (serialize ads)
        ≡ some file)
      × (s' ≡ record s { disk = record s.disk { device_stats = some file } })
unfolding save_all_device_stats
save_all_device_stats_cases s s' ads e =
    elim (Option-cases
      (append_file s.disk.writable (or_created s.disk.device_stats) (serialize ads))) [
        | inl failed ↦ absurd (ground arith)
        | inr (file, saved) ↦ (file, saved, ground arith)
      ]

pub migrate_week_cases :
    (eth : EthCrypto) (s s' : GcaServer) → migrate_week eth s ≡ ok s' → Migration eth s s'
unfolding migrate_week
migrate_week_cases eth s s' e =
    let (stats, built, rest) =
      >>=-eq-ok (or_panic (build_device_stats eth s s.equipment_reports_offset)) _ e in
    let grown = record s { equipment_stats_history = s.equipment_stats_history ++ (stats ∷ []) } in
    let (saved, stored, last) = >>=-eq-ok (or_panic (save_all_device_stats grown stats)) _ rest in
    let (file, appended, same) =
      save_all_device_stats_cases grown saved stats (or_panic-ok _ _ stored) in
    record {
      stats = stats;
      built = or_panic-ok _ _ built;
      history = ground arith;
      reports = ground arith;
      rates = ground arith;
      offset = ground arith;
      origin = ground arith;
      file = ground arith;
    }

-- The week that stays moves to the front of each device's array, the other half becomes blank, and the
-- offset moves on by a week, so a slot that stays belongs to the same timeslot as before.
pub migrate_week-slot :
    (eth : EthCrypto) (s s' : GcaServer) (id i : ℕ)
    → s.equipment_reports_offset + 2016 < 2 ^ 32
    → migrate_week eth s ≡ ok s'
    → (slot_at s' id i ≡ (if ltb i 2016 then slot_at s id (i + 2016) else blank_report))
      × (s'.equipment_reports_offset + i ≡ s.equipment_reports_offset + (i + 2016))
unfolding slot_at shift_array
migrate_week-slot eth s s' id i bound e =
    let m = migrate_week_cases eth s s' e in
    let moved : lookup id s'.equipment_reports ≡ elim (lookup id s.equipment_reports) [
      | none ↦ none
      | some a ↦ some (shift_array blank_report a)
    ] =
      ap (λ t. lookup id t) m.reports ∙ lookup-shift_all blank_report id s.equipment_reports in
    (ground (arith, moved), omega (arith, m.offset))

-- The archive holds one entry for each week between the history's offset and the reports' offset.
pub record IsArchive (s : GcaServer) : Type 0 where
  pub whole_weeks : s.equipment_history_offset % 2016 ≡ 0
  pub contiguous :
      s.equipment_reports_offset
      ≡ s.equipment_history_offset + 2016 * length s.equipment_stats_history

length-snoc : {A : Type 0} (l : List A) (x : A) → length (l ++ (x ∷ [])) ≡ length l + 1
length-snoc [] x = refl
length-snoc (y ∷ l) x = omega (arith, length-snoc l x)

-- Archiving a week keeps the archive contiguous.
pub migrate_week-IsArchive :
    (eth : EthCrypto) (s s' : GcaServer)
    → s.equipment_reports_offset + 2016 < 2 ^ 32
    → IsArchive s
    → migrate_week eth s ≡ ok s'
    → IsArchive s'
migrate_week-IsArchive eth s s' bound a e =
    let m = migrate_week_cases eth s s' e in
    let longer = ap length m.history ∙ length-snoc s.equipment_stats_history m.stats in
    record {
      whole_weeks = ap (λ (k : ℕ). k % 2016) m.origin ∙ a.whole_weeks;
      contiguous = omega (arith, m.offset, m.origin, longer, a.contiguous);
    }

all_device_stats-archived :
    (eth : EthCrypto) (s : GcaServer) (tso n : ℕ) (ads : AllDeviceStats)
    → tso % 2016 ≡ 0
    → tso < s.equipment_reports_offset
    → (tso + 2 ^ 32 - s.equipment_history_offset) % 2 ^ 32 / 2016 ≡ n
    → get_elem? s.equipment_stats_history n ≡ some ads
    → all_device_stats eth s tso ≡ ok ads
unfolding all_device_stats
all_device_stats-archived eth s tso n ads week old place found =
    let found' = ap (λ (k : ℕ). get_elem? s.equipment_stats_history k) place ∙ found in ground arith

get_elem?-some :
    {A : Type 0} (l : List A) (n : ℕ) → n < length l → (x : A) × (get_elem? l n ≡ some x)
get_elem?-some [] n h = absurd (omega arith)
get_elem?-some (x ∷ l) zero h = (x, refl)
get_elem?-some (x ∷ l) (suc n) h = get_elem?-some l n (omega arith)

-- For a week of the archive, neither before it begins nor after it ends, the handler answers with the
-- statistics that were archived: it does not read outside the archive.
pub all_device_stats-archive :
    (eth : EthCrypto) (s : GcaServer) (tso : ℕ)
    → IsArchive s
    → s.equipment_reports_offset < 2 ^ 32
    → tso % 2016 ≡ 0
    → s.equipment_history_offset ≤ tso
    → tso < s.equipment_reports_offset
    → (ads : AllDeviceStats) × (get_elem? s.equipment_stats_history
          ((tso - s.equipment_history_offset) / 2016)
        ≡ some ads)
      × (all_device_stats eth s tso ≡ ok ads)
all_device_stats-archive eth s tso a bound week begun old =
    let n : ℕ = (tso - s.equipment_history_offset) / 2016 in
    let (ads, found) = get_elem?-some s.equipment_stats_history n (omega (arith, a.contiguous)) in
    (ads, found, all_device_stats-archived eth s tso n ads week old (omega arith) found)
