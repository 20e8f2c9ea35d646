-- ===== src/Server/Start/Stuck.antt =====
-- server/report_persist.go and server/equipment.go: a ban makes the reports of the banned device
-- unreadable, and with them the file.
use gca_backend.Base.{
  ℕ, suc, ◌+◌, ◌*◌, ◌≡◌, refl, sym, ap, ◌∙◌, none, some, List, [], ◌∷◌, ◌++◌, arith, All, length,
  length-append, append_assoc, true, ◌==◌,
}
use gca_backend.Base.Equality.{ℕ-Eq}
use gca_backend.Base.Map.{lookup, lookup-delete_self}
use gca_backend.Base.Bytes.{slice, slice_mid}
use gca_backend.Base.Result.{ok, err, unknown_equipment, duplicate, >>=-eq-ok}
use gca_backend.Glow.Signatures.{EthCrypto}
use gca_backend.Glow.Report.{EquipmentReport, IsReport, serialize}
use gca_backend.Glow.Report.RoundTrip.{length-serialize, read_fields-serialize}
use gca_backend.Glow.Authorization.{EquipmentAuthorization}
use gca_backend.Server.State.{GcaServer}
use gca_backend.Server.Equipment.{
  save_equipment, settle, add_equipment, ban_equipment, add_recent_equipment_auth,
}
use gca_backend.Server.Reports.{
  parse_report, integrate_report, load_reports_loop, load_equipment_reports,
}
use gca_backend.Server.Reports.Safety.{integrate_all, integrate_report-Keeps}
use gca_backend.Server.Reports.Restart.{report_file, IsParsed, IsParsed-kept, loop_step, load_raw}

parse_report-unknown :
    (eth : EthCrypto) (s : GcaServer) (r : EquipmentReport)
    → IsReport r
    → lookup r.short_id s.equipment ≡ none
    → parse_report eth s (serialize r) ≡ err unknown_equipment
unfolding parse_report
parse_report-unknown eth s r h unknown =
    let sized : (length (serialize r) == 80) ≡ true =
      ground (arith, length-serialize r h.signature_long) in
    rw (sized, read_fields-serialize r h, unknown) refl

loop_stops :
    (eth : EthCrypto) (rounds i : ℕ) (raw : List ℕ) (s : GcaServer)
    → parse_report eth s (slice (i * 80) (i * 80 + 80) raw) ≡ err unknown_equipment
    → load_reports_loop eth (suc rounds) i raw s ≡ err unknown_equipment
unfolding load_reports_loop
loop_stops eth rounds i raw s unknown = rw unknown refl

front_report :
    (i : ℕ) (pre : List ℕ) (r : EquipmentReport) (rest : List ℕ)
    → length pre ≡ i * 80
    → IsReport r
    → slice (i * 80) (i * 80 + 80) (pre ++ (serialize r ++ rest)) ≡ serialize r
front_report i pre r rest size h =
    slice_mid (i * 80) (i * 80 + 80) pre (serialize r) rest size
      (omega (arith, length-serialize r h.signature_long))

load_reports_loop-unknown :
    (eth : EthCrypto) (i : ℕ) (pre : List ℕ) (before after : List EquipmentReport)
    (r : EquipmentReport) (s s' : GcaServer)
    → length pre ≡ i * 80
    → All IsReport (before ++ (r ∷ after))
    → All (IsParsed eth s) before
    → integrate_all s before ≡ ok s'
    → lookup r.short_id s.equipment ≡ none
    → load_reports_loop eth
        (length (before ++ (r ∷ after)))
        i
        (pre ++ report_file (before ++ (r ∷ after)))
        s
      ≡ err unknown_equipment
unfolding report_file integrate_all
load_reports_loop-unknown eth i pre [] after r s s' size (h, hs) parsed done unknown =
    loop_stops eth (length after) i (pre ++ (serialize r ++ report_file after)) s (
      ap (parse_report eth s) (front_report i pre r (report_file after) size h)
      ∙ parse_report-unknown eth s r h unknown)
load_reports_loop-unknown eth i pre (q ∷ before) after r s s' size (h, hs) (p, ps) done unknown =
    let rest = report_file (before ++ (r ∷ after)) in
    let (m, first, others) = >>=-eq-ok (integrate_report s q) _ done in
    let kept = (integrate_report-Keeps s m q first).equipment_kept in
    let longer : length (pre ++ serialize q) ≡ (i + 1) * 80 =
      omega (arith, length-append pre (serialize q), length-serialize q h.signature_long) in
    let later =
      load_reports_loop-unknown eth (i + 1) (pre ++ serialize q) before after r m s' longer hs
        (IsParsed-kept eth s m before kept ps) others (ap (lookup r.short_id) kept ∙ unknown) in
    loop_step eth (length (before ++ (r ∷ after))) i (pre ++ (serialize q ++ rest)) s q
      (ap (parse_report eth s) (front_report i pre q rest size h) ∙ p.parsed)
    ∙ rw first (
        ap (λ t. load_reports_loop eth (length (before ++ (r ∷ after))) (i + 1) t m)
          (sym (append_assoc pre (serialize q) rest))
        ∙ later)

length-report_file_sized :
    (rs : List EquipmentReport) → All IsReport rs → length (report_file rs) ≡ length rs * 80
unfolding report_file
length-report_file_sized [] h = refl
length-report_file_sized (r ∷ rs) (h, hs) = omega (
  arith,
  length-append (serialize r) (report_file rs),
  length-serialize r h.signature_long,
  length-report_file_sized rs hs,
)

banned_unknown :
    (s : GcaServer) (ea : EquipmentAuthorization)
    → (save_equipment s ea).1 ≡ err duplicate
    → lookup ea.short_id (save_equipment s ea).0.equipment ≡ none
unfolding save_equipment settle add_equipment ban_equipment add_recent_equipment_auth
banned_unknown s ea e = ground (arith, lookup-delete_self ea.short_id s.equipment)

-- When an authorization bans a short ID, and the file holds a report for it anywhere behind reports that
-- can be read and integrated, then loading the file fails.
pub load_equipment_reports-save_equipment :
    (eth : EthCrypto) (s s' : GcaServer) (ea : EquipmentAuthorization)
    (before after : List EquipmentReport) (r : EquipmentReport)
    → (save_equipment s ea).1 ≡ err duplicate
    → r.short_id ≡ ea.short_id
    → (save_equipment s ea).0.disk.reports ≡ some (report_file (before ++ (r ∷ after)))
    → All IsReport (before ++ (r ∷ after))
    → All (IsParsed eth (save_equipment s ea).0) before
    → integrate_all (save_equipment s ea).0 before ≡ ok s'
    → load_equipment_reports eth (save_equipment s ea).0 ≡ err unknown_equipment
load_equipment_reports-save_equipment eth s s' ea before after r banned same file sized parsed
      done =
    let t = (save_equipment s ea).0 in
    let rs = before ++ (r ∷ after) in
    let unknown = ap (λ (k : ℕ). lookup k t.equipment) same ∙ banned_unknown s ea banned in
    load_raw eth t (report_file rs) (length rs) file (length-report_file_sized rs sized)
    ∙ load_reports_loop-unknown eth 0 [] before after r t s' refl sized parsed done unknown
