-- ===== src/Examples/GeoStats.antt =====
-- The theorem on the historical data, for a folder with one file.
use gca_backend.Base.{◌≡◌, refl, some, none, true, List, [], ◌∷◌, length}
use gca_backend.Base.Equality.{bytes_eq}
use gca_backend.Base.Map.{lookup, insert}
use gca_backend.Base.Bytes.{ascii}
use gca_backend.Server.GeoStats.{
  Days, File, values, load_moer_data, load_files, read_moer_csv, read_rows, add_row, stamp_of,
  append_values, add_days, add_hours,
}
use gca_backend.Server.GeoStats.Merged.{from_files, load_moer_data-values}
use gca_backend.Examples.{is_ok, value_or, is_ok→value}

abbrev folder : List File
folder =
    record {
      name = ascii "a.csv";
      contents = some (
          some (ascii "timestamp" ∷ ascii "MOER" ∷ [])
          ∷ some (ascii "2022-01-02T03:00" ∷ ascii "88" ∷ [])
          ∷ some (ascii "2021-01-02T03:00" ∷ ascii "7" ∷ [])
          ∷ some (ascii "2022-01-02T03:05" ∷ ascii "123" ∷ [])
          ∷ []);
    }
    ∷ record { name = ascii "a.zip"; contents = none }
    ∷ []

abbrev loaded_days : Days
loaded_days = value_or [] (load_moer_data (λ text. some (length text)) (some folder))

loads : is_ok (load_moer_data (λ text. some (length text)) (some folder)) ≡ true
unfolding load_moer_data load_files read_moer_csv read_rows add_row stamp_of append_values add_days
    add_hours lookup insert bytes_eq
loads = refl

load_moer_data-values_example :
    values (ascii "01-02") (ascii "03") loaded_days
    ≡ from_files (λ text. some (length text)) (ascii "01-02") (ascii "03") folder
load_moer_data-values_example =
    load_moer_data-values (λ text. some (length text)) (ascii "01-02") (ascii "03") folder
      loaded_days (is_ok→value [] (load_moer_data (λ text. some (length text)) (some folder)) loads)

both_values : values (ascii "01-02") (ascii "03") loaded_days ≡ 2 ∷ 3 ∷ []
unfolding values load_moer_data load_files read_moer_csv read_rows add_row stamp_of append_values
    add_days add_hours lookup insert bytes_eq
both_values = refl
