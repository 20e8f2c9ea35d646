-- ===== src/Server/RecentReports.antt =====
-- server/api_recent_reports.go: a device's reports in memory, signed by the server.
pub mod Signed
use gca_backend.Base.{
  ℕ, zero, suc, ◌+◌, Option, none, some, List, [], ◌∷◌, ◌++◌, length, ◌==◌, if◌then◌else◌,
}
use gca_backend.Base.Equality.{ℕ-Eq, bytes-Eq}
use gca_backend.Base.Map.{lookup}
use gca_backend.Base.Bytes.{ascii}
use gca_backend.Base.Text.{decimal, decode_hex}
use gca_backend.Base.Result.{Result, ok, err, panic, ◌>>=◌, not_found}
use gca_backend.Glow.Signatures.{EthCrypto, PublicKey, Signature, sign}
use gca_backend.Glow.Report.{EquipmentReport}
use gca_backend.Server.State.{GcaServer, Array}
use gca_backend.Server.Http.{Method, get, Response, respond, crashed}
use gca_backend.Server.Weeks.{entries}

-- `encoding/json` writes an array of bytes as numbers.
unfoldable pub json_numbers : List ℕ → List ℕ
json_numbers [] = []
json_numbers (b ∷ []) = decimal b
json_numbers (b ∷ c ∷ bs) = decimal b ++ (ascii "," ++ json_numbers (c ∷ bs))

unfoldable pub json_report : EquipmentReport → List ℕ
json_report r =
    ascii "{\"ShortID\":"
    ++ (decimal r.short_id
        ++ (ascii ",\"Timeslot\":"
            ++ (decimal r.timeslot
                ++ (ascii ",\"PowerOutput\":"
                    ++ (decimal r.power_output
                        ++ (ascii ",\"Signature\":["
                            ++ (json_numbers r.signature ++ ascii "]}")))))))

unfoldable pub json_reports : List EquipmentReport → List ℕ
json_reports [] = []
json_reports (r ∷ []) = json_report r
json_reports (r ∷ q ∷ rs) = json_report r ++ (ascii "," ++ json_reports (q ∷ rs))

-- `json.Marshal(reports)` of all 4032 entries.
unfoldable pub marshal_reports : Array EquipmentReport → List ℕ
marshal_reports reports = ascii "[" ++ (json_reports (entries 4032 0 reports) ++ ascii "]")

pub record RecentReportsResponse : Type 0 where
  pub reports : Array EquipmentReport
  pub timeslot_offset : ℕ
  pub signature : Signature

-- The handler leaves the offset at its zero value.
abbrev sign_reports :
    EthCrypto → GcaServer → Option (Array EquipmentReport) → Result RecentReportsResponse
sign_reports eth s none = err not_found
sign_reports eth s (some reports) = do
  signature ← sign eth (marshal_reports reports) s.static_private_key
  ok (record { reports = reports; timeslot_offset = 0; signature = signature })

abbrev reports_of_id : EthCrypto → GcaServer → Option ℕ → Result RecentReportsResponse
reports_of_id eth s none = err not_found
reports_of_id eth s (some short_id) = sign_reports eth s (lookup short_id s.equipment_reports)

unfoldable pub get_recent_reports_with_signature :
    EthCrypto → GcaServer → PublicKey → Result RecentReportsResponse
get_recent_reports_with_signature eth s key = reports_of_id eth s (lookup key s.equipment_short_id)

-- A request, with the query parameter `publicKey`, empty if it is missing.
pub record ReportsRequest : Type 0 where
  pub method : Method
  pub public_key : List ℕ

-- The status with the body that is encoded.
abbrev pub Answer : Type 0
Answer = Response × Option RecentReportsResponse

abbrev pub answer_reports : Result RecentReportsResponse → Answer
answer_reports (ok response) = (respond 200, some response)
answer_reports (err _) = (respond 500, none)
answer_reports panic = (crashed, none)

abbrev pub answer_key : EthCrypto → GcaServer → Option PublicKey → Answer
answer_key eth s none = (respond 400, none)
answer_key eth s (some key) =
    if length key == 32
    then answer_reports (get_recent_reports_with_signature eth s key)
    else (respond 400, none)

unfoldable pub recent_reports_handler : EthCrypto → GcaServer → ReportsRequest → Answer
recent_reports_handler eth s request = elim request.method [
  | get ↦
      if length request.public_key == 0
      then (respond 400, none)
      else answer_key eth s (decode_hex request.public_key)
  | _ ↦ (respond 405, none)
]
