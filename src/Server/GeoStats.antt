-- ===== src/Server/GeoStats.antt =====
-- server/api_geo_stats.go: the historical data of a balancing authority, read from CSV files into values
-- for each day and hour. `parse` is `strconv.ParseFloat`, and a float64 is its bits.
pub mod Tables
pub mod Merged
use gca_backend.Base.{
  ℕ, ◌+◌, ◌-◌, Bool, ◌&&◌, Option, none, some, List, [], ◌∷◌, ◌++◌, length, take, drop, get_elem?,
  leb, ◌==◌, if◌then◌else◌,
}
use gca_backend.Base.Equality.{ℕ-Eq, bytes-Eq, bytes_eq}
use gca_backend.Base.Map.{Map, lookup, insert}
use gca_backend.Base.Bytes.{ascii}
use gca_backend.Base.Result.{Result, ok, err, panic, io_failure, ◌>>=◌, ◌>>◌, check}

-- The values for each hour of each day.
abbrev pub Hours : Type 0
Hours = Map (List ℕ) (List ℕ)

abbrev pub Days : Type 0
Days = Map (List ℕ) Hours

abbrev pub or_empty {ℓ} : {A : Type ℓ} → Option (List A) → List A
or_empty none = []
or_empty (some xs) = xs

-- `moerData[day][hour]`
unfoldable pub values : List ℕ → List ℕ → Days → List ℕ
values day hour days = or_empty (lookup hour (or_empty (lookup day days)))

-- `moerData[day][hour] = append(moerData[day][hour], new...)`, with the map of a new day.
unfoldable pub append_values : List ℕ → List ℕ → List ℕ → Days → Days
append_values day hour new days =
    let hours = or_empty (lookup day days) in
    insert day (insert hour (or_empty (lookup hour hours) ++ new) hours) days

-- The parts of `strings.Split(timestamp, "T")`: what stands before the letter, and behind it.
abbrev pub before : ℕ → List ℕ → List ℕ
before c [] = []
before c (x ∷ xs) = let rest = before c xs in if x == c then [] else x ∷ rest

abbrev pub behind : ℕ → List ℕ → Option (List ℕ)
behind c [] = none
behind c (x ∷ xs) = let rest = behind c xs in if x == c then some xs else rest

pub record Stamp : Type 0 where
  pub year : List ℕ
  pub day : List ℕ
  pub hour : List ℕ

abbrev pub or_panic : Option (List ℕ) → Result (List ℕ)
or_panic none = panic
or_panic (some x) = ok x

-- A timestamp that is too short panics.
unfoldable pub stamp_of : List ℕ → Result Stamp
stamp_of timestamp = do
  let date = before 84 timestamp
  check (leb 5 (length date))
  clock ← or_panic (behind 84 timestamp)
  check (leb 2 (length (before 84 clock)))
  ok (record { year = take 4 date; day = drop 5 date; hour = take 2 (before 84 clock) })

abbrev pub is_2022 : Stamp → Bool
is_2022 stamp = bytes_eq stamp.year (ascii "2022")

abbrev pub add_stamped : Option ℕ → List ℕ → Days → Result Days
add_stamped none timestamp days = ok days
add_stamped (some moer) timestamp days = do
  stamp ← stamp_of timestamp
  ok (if is_2022 stamp then append_values stamp.day stamp.hour (moer ∷ []) days else days)

-- A record of the file; one with less than two fields panics.
unfoldable pub add_row : (List ℕ → Option ℕ) → List (List ℕ) → Days → Result Days
add_row parse row days = do
  timestamp ← or_panic (get_elem? row 0)
  text ← or_panic (get_elem? row 1)
  add_stamped (parse text) timestamp days

-- The rest of the file; `none` is an error of the reader.
unfoldable pub read_rows : (List ℕ → Option ℕ) → List (Option (List (List ℕ))) → Days → Result Days
read_rows parse [] days = ok days
read_rows parse (none ∷ rows) days = err io_failure
read_rows parse (some row ∷ rows) days = do
  days' ← add_row parse row days
  read_rows parse rows days'

-- `none` is a file that cannot be opened. The header is skipped.
unfoldable pub read_moer_csv :
    (List ℕ → Option ℕ) → Option (List (Option (List (List ℕ)))) → Result Days
read_moer_csv parse none = err io_failure
read_moer_csv parse (some []) = err io_failure
read_moer_csv parse (some (none ∷ rows)) = err io_failure
read_moer_csv parse (some (some header ∷ rows)) = read_rows parse rows []

pub record File : Type 0 where
  pub name : List ℕ
  pub contents : Option (List (Option (List (List ℕ))))

-- `strings.HasSuffix(file.Name(), ".csv")`
abbrev pub is_csv : List ℕ → Bool
is_csv name = leb 4 (length name) && bytes_eq (drop (length name - 4) name) (ascii ".csv")

-- The loops that merge a file into the data.
unfoldable pub add_hours : List ℕ → Hours → Days → Days
add_hours day [] days = days
add_hours day ((hour, new) ∷ hours) days = add_hours day hours (append_values day hour new days)

unfoldable pub add_days : Days → Days → Days
add_days [] days = days
add_days ((day, hours) ∷ file) days = add_days file (add_hours day hours days)

abbrev pub add_file : (List ℕ → Option ℕ) → File → Days → Result Days
add_file parse file days =
    if is_csv file.name
    then (do new ← read_moer_csv parse file.contents; ok (add_days new days))
    else ok days

unfoldable pub load_files : (List ℕ → Option ℕ) → List File → Days → Result Days
load_files parse [] days = ok days
load_files parse (file ∷ files) days = do
  days' ← add_file parse file days
  load_files parse files days'

-- `none` is a folder that cannot be read.
unfoldable pub load_moer_data : (List ℕ → Option ℕ) → Option (List File) → Result Days
load_moer_data parse none = err io_failure
load_moer_data parse (some files) = load_files parse files []
