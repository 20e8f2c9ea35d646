-- ===== src/Server/Reports/Restart.antt =====
-- server/report_persist.go: a restart integrates the reports of the file, one after the other.
use gca_backend.Base.{
  ℕ, suc, ◌+◌, ◌*◌, ◌/◌, ◌%◌, ◌≡◌, refl, sym, ap, ◌∙◌, true, some, List, [], ◌∷◌, ◌++◌, arith,
  length, ◌==◌, All, length-append, append_assoc,
}
use gca_backend.Base.Equality.{ℕ-Eq}
use gca_backend.Base.Bytes.{slice, slice_mid}
use gca_backend.Base.Result.{Result, ok, err, panic, ◌>>=◌}
use gca_backend.Glow.Signatures.{EthCrypto}
use gca_backend.Glow.Report.{EquipmentReport, serialize}
use gca_backend.Glow.Report.RoundTrip.{length-serialize}
use gca_backend.Server.State.{GcaServer}
use gca_backend.Server.Reports.{
  parse_report, integrate_report, load_reports_loop, load_equipment_reports,
}
use gca_backend.Server.Reports.Safety.{integrate_report-Keeps, integrate_all}

-- The file that holds these reports.
unfoldable pub report_file : List EquipmentReport → List ℕ
report_file [] = []
report_file (r ∷ rs) = serialize r ++ report_file rs

-- The report has its size, and the server parses it: it knows the device, which signed it.
pub record IsParsed (eth : EthCrypto) (s : GcaServer) (r : EquipmentReport) : Type 0 where
  pub signature_long : length r.signature ≡ 64
  pub parsed : parse_report eth s (serialize r) ≡ ok r

parse_report-kept :
    (eth : EthCrypto) (s s' : GcaServer) (raw : List ℕ)
    → s'.equipment ≡ s.equipment
    → parse_report eth s' raw ≡ parse_report eth s raw
unfolding parse_report
parse_report-kept eth s s' raw kept = ground (arith, kept)

pub IsParsed-kept :
    (eth : EthCrypto) (s s' : GcaServer) (rs : List EquipmentReport)
    → s'.equipment ≡ s.equipment
    → All (IsParsed eth s) rs
    → All (IsParsed eth s') rs
IsParsed-kept eth s s' [] kept h = tt
IsParsed-kept eth s s' (r ∷ rs) kept (h, hs) = (
  record {
    signature_long = h.signature_long;
    parsed = parse_report-kept eth s s' (serialize r) kept ∙ h.parsed;
  },
  IsParsed-kept eth s s' rs kept hs,
)

pub loop_step :
    (eth : EthCrypto) (rounds i : ℕ) (raw : List ℕ) (s : GcaServer) (r : EquipmentReport)
    → parse_report eth s (slice (i * 80) (i * 80 + 80) raw) ≡ ok r
    → load_reports_loop eth (suc rounds) i raw s
      ≡ (integrate_report s r >>= λ s'. load_reports_loop eth rounds (i + 1) raw s')
unfolding load_reports_loop
loop_step eth rounds i raw s r parsed = rw parsed refl

bind_same :
    {A B : Type 0} (first : Result A) (f g : A → Result B)
    → ((a : A) → first ≡ ok a → f a ≡ g a)
    → (first >>= f) ≡ (first >>= g)
bind_same (ok a) f g h = h a refl
bind_same (err e) f g h = refl
bind_same panic f g h = refl

load_reports_loop-report_file :
    (eth : EthCrypto) (i : ℕ) (pre : List ℕ) (rs : List EquipmentReport) (s : GcaServer)
    → length pre ≡ i * 80
    → All (IsParsed eth s) rs
    → load_reports_loop eth (length rs) i (pre ++ report_file rs) s ≡ integrate_all s rs
unfolding report_file integrate_all
load_reports_loop-report_file eth i pre [] s h parsed = unfold load_reports_loop in refl
load_reports_loop-report_file eth i pre (r ∷ rs) s h (p, ps) =
    let size = length-serialize r p.signature_long in
    let raw = pre ++ (serialize r ++ report_file rs) in
    let here : slice (i * 80) (i * 80 + 80) raw ≡ serialize r =
      slice_mid (i * 80) (i * 80 + 80) pre (serialize r) (report_file rs) h (omega arith) in
    let longer : length (pre ++ serialize r) ≡ (i + 1) * 80 =
      omega (arith, length-append pre (serialize r)) in
    let whole = append_assoc pre (serialize r) (report_file rs) in
    loop_step eth (length rs) i raw s r (ap (parse_report eth s) here ∙ p.parsed)
    ∙ bind_same (integrate_report s r) (λ s'. load_reports_loop eth (length rs) (i + 1) raw s')
        (λ s'. integrate_all s' rs)
        (λ s' done.
          let kept = (integrate_report-Keeps s s' r done).equipment_kept in
          ap (λ t. load_reports_loop eth (length rs) (i + 1) t s') (sym whole)
          ∙ load_reports_loop-report_file eth (i + 1) (pre ++ serialize r) rs s' longer
              (IsParsed-kept eth s s' rs kept ps))

length-report_file :
    (eth : EthCrypto) (s : GcaServer) (rs : List EquipmentReport)
    → All (IsParsed eth s) rs
    → length (report_file rs) ≡ length rs * 80
unfolding report_file
length-report_file eth s [] h = refl
length-report_file eth s (r ∷ rs) (h, hs) = omega (
  arith,
  length-append (serialize r) (report_file rs),
  length-serialize r h.signature_long,
  length-report_file eth s rs hs,
)

pub load_raw :
    (eth : EthCrypto) (s : GcaServer) (raw : List ℕ) (n : ℕ)
    → s.disk.reports ≡ some raw
    → length raw ≡ n * 80
    → load_equipment_reports eth s ≡ load_reports_loop eth n 0 raw s
unfolding load_equipment_reports
load_raw eth s raw n file size =
    let count : length raw / 80 ≡ n = omega arith in
    let whole : (length raw % 80 == 0) ≡ true = ground arith in
    ground (arith, file, whole, ap (λ (k : ℕ). load_reports_loop eth k 0 raw s) count)

-- From a file that holds any reports of devices that the server knows, a restart does exactly what the
-- arrival of these reports did: it integrates them in their order, a panic included.
pub load_equipment_reports-report_file :
    (eth : EthCrypto) (s : GcaServer) (rs : List EquipmentReport)
    → s.disk.reports ≡ some (report_file rs)
    → All (IsParsed eth s) rs
    → load_equipment_reports eth s ≡ integrate_all s rs
load_equipment_reports-report_file eth s rs file parsed =
    load_raw eth s (report_file rs) (length rs) file (length-report_file eth s rs parsed)
    ∙ load_reports_loop-report_file eth 0 [] rs s refl parsed
