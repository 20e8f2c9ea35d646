-- ===== src/Server/GeoStats/Merged.antt =====
-- server/api_geo_stats.go: what the files of a folder make of an hour.
use gca_backend.Base.{
  ℕ, ◌≡◌, refl, sym, ap, subst, ◌∙◌, ◌&&◌, Option, none, some, List, [], ◌∷◌, ◌++◌, arith, inl, inr,
  Bool-cases, append_assoc, append-nil, get_elem?, if◌then◌else◌,
}
use gca_backend.Base.Equality.{bytes-Eq, bytes_eq}
use gca_backend.Base.Map.{lookup}
use gca_backend.Base.Result.{Result, ok, err, panic, >>=-eq-ok}
use gca_backend.Server.GeoStats.{
  Days, or_panic, values, append_values, Stamp, stamp_of, is_2022, add_stamped, add_row, read_rows,
  read_moer_csv, File, is_csv, add_days, add_file, load_files, load_moer_data,
}
use gca_backend.Server.GeoStats.Tables.{
  append_values-values, IsTidy, append_values-IsTidy, add_days-values,
}

abbrev from_stamp : List ℕ → List ℕ → ℕ → Result Stamp → List ℕ
from_stamp d h moer panic = []
from_stamp d h moer (err _) = []
from_stamp d h moer (ok stamp) =
    if is_2022 stamp && (bytes_eq stamp.day d && bytes_eq stamp.hour h) then moer ∷ [] else []

abbrev from_text : List ℕ → List ℕ → List ℕ → Option ℕ → List ℕ
from_text d h timestamp none = []
from_text d h timestamp (some moer) = from_stamp d h moer (stamp_of timestamp)

abbrev from_fields :
    (List ℕ → Option ℕ) → List ℕ → List ℕ → Option (List ℕ) → Option (List ℕ) → List ℕ
from_fields parse d h none text = []
from_fields parse d h (some timestamp) none = []
from_fields parse d h (some timestamp) (some text) = from_text d h timestamp (parse text)

-- What a record has for this day and hour: its number, if it is one and the record is of 2022.
unfoldable pub from_row : (List ℕ → Option ℕ) → List ℕ → List ℕ → List (List ℕ) → List ℕ
from_row parse d h row = from_fields parse d h (get_elem? row 0) (get_elem? row 1)

unfoldable pub from_rows :
    (List ℕ → Option ℕ) → List ℕ → List ℕ → List (Option (List (List ℕ))) → List ℕ
from_rows parse d h [] = []
from_rows parse d h (none ∷ rows) = []
from_rows parse d h (some row ∷ rows) = from_row parse d h row ++ from_rows parse d h rows

abbrev from_contents :
    (List ℕ → Option ℕ) → List ℕ → List ℕ → Option (List (Option (List (List ℕ)))) → List ℕ
from_contents parse d h none = []
from_contents parse d h (some []) = []
from_contents parse d h (some (header ∷ rows)) = from_rows parse d h rows

-- The values of the records of all CSV files, in order.
unfoldable pub from_files : (List ℕ → Option ℕ) → List ℕ → List ℕ → List File → List ℕ
from_files parse d h [] = []
from_files parse d h (file ∷ files) =
    (if is_csv file.name then from_contents parse d h file.contents else [])
    ++ from_files parse d h files

stamped-values :
    (d h timestamp : List ℕ) (parsed : Option ℕ) (days days' : Days)
    → IsTidy days
    → add_stamped parsed timestamp days ≡ ok days'
    → IsTidy days' × (values d h days' ≡ values d h days ++ from_text d h timestamp parsed)
stamped-values d h timestamp none days days' t e =
    let same : days ≡ days' = ground arith in
    (subst IsTidy same t, ap (values d h) (sym same) ∙ sym (append-nil (values d h days)))
stamped-values d h timestamp (some moer) days days' t e =
    let (stamp, stamped, last) = >>=-eq-ok (stamp_of timestamp) _ e in
    let added = append_values-values stamp.day stamp.hour d h (moer ∷ []) days in
    elim (Bool-cases (is_2022 stamp)) [
      | inl now ↦
          let same : append_values stamp.day stamp.hour (moer ∷ []) days ≡ days' = ground arith in
          (
            subst IsTidy same (append_values-IsTidy stamp.day stamp.hour (moer ∷ []) days t),
            ap (values d h) (sym same)
                ∙ added
                ∙ ground (arith, stamped, now, append-nil (values d h days)),
          )
      | inr past ↦
          let same : days ≡ days' = ground arith in
          (
            subst IsTidy same t,
            ap (values d h) (sym same)
                ∙ ground (arith, stamped, past, append-nil (values d h days)),
          )
    ]

or_panic-ok : (found : Option (List ℕ)) (x : List ℕ) → or_panic found ≡ ok x → found ≡ some x
or_panic-ok found x e = ground arith

add_row-values :
    (parse : List ℕ → Option ℕ) (d h : List ℕ) (row : List (List ℕ)) (days days' : Days)
    → IsTidy days
    → add_row parse row days ≡ ok days'
    → IsTidy days' × (values d h days' ≡ values d h days ++ from_row parse d h row)
unfolding add_row from_row
add_row-values parse d h row days days' t e =
    let (timestamp, first, rest) = >>=-eq-ok (or_panic (get_elem? row 0)) _ e in
    let (text, second, last) = >>=-eq-ok (or_panic (get_elem? row 1)) _ rest in
    let (tidy, added) = stamped-values d h timestamp (parse text) days days' t last in
    let fields : from_row parse d h row ≡ from_text d h timestamp (parse text) =
      ap (λ x. from_fields parse d h x (get_elem? row 1))
        (or_panic-ok (get_elem? row 0) timestamp first)
      ∙ ap (from_fields parse d h (some timestamp)) (or_panic-ok (get_elem? row 1) text second) in
    (tidy, added ∙ ap (λ x. values d h days ++ x) (sym fields))

read_rows-values :
    (parse : List ℕ → Option ℕ) (d h : List ℕ) (rows : List (Option (List (List ℕ))))
    (days days' : Days)
    → IsTidy days
    → read_rows parse rows days ≡ ok days'
    → IsTidy days' × (values d h days' ≡ values d h days ++ from_rows parse d h rows)
unfolding read_rows from_rows
read_rows-values parse d h [] days days' t e =
    let same : days ≡ days' = ground arith in
    (subst IsTidy same t, ap (values d h) (sym same) ∙ sym (append-nil (values d h days)))
read_rows-values parse d h (none ∷ rows) days days' t e = absurd (ground arith)
read_rows-values parse d h (some row ∷ rows) days days' t e =
    let (m, first, rest) = >>=-eq-ok (add_row parse row days) _ e in
    let (tidy, now) = add_row-values parse d h row days m t first in
    let (last, later) = read_rows-values parse d h rows m days' tidy rest in
    (
      last,
      later
          ∙ ap (λ x. x ++ from_rows parse d h rows) now
          ∙ append_assoc (values d h days) (from_row parse d h row) (from_rows parse d h rows),
    )

empty-IsTidy : IsTidy []
unfolding lookup
empty-IsTidy = record { days_unique = tt; hours_unique = λ d hours there. absurd (ground arith) }

read_moer_csv-values :
    (parse : List ℕ → Option ℕ) (d h : List ℕ) (contents : Option (List (Option (List (List ℕ)))))
    (days : Days)
    → read_moer_csv parse contents ≡ ok days
    → IsTidy days × (values d h days ≡ from_contents parse d h contents)
unfolding read_moer_csv
read_moer_csv-values parse d h none days e = absurd (ground arith)
read_moer_csv-values parse d h (some []) days e = absurd (ground arith)
read_moer_csv-values parse d h (some (none ∷ rows)) days e = absurd (ground arith)
read_moer_csv-values parse d h (some (some header ∷ rows)) days e =
    let (tidy, read) = read_rows-values parse d h rows [] days empty-IsTidy e in
    (tidy, read ∙ unfold values lookup in refl)

add_file-values :
    (parse : List ℕ → Option ℕ) (d h : List ℕ) (file : File) (days days' : Days)
    → add_file parse file days ≡ ok days'
    → values d h days'
      ≡ values d h days ++ (if is_csv file.name then from_contents parse d h file.contents else [])
add_file-values parse d h file days days' e = elim (Bool-cases (is_csv file.name)) [
  | inl csv ↦
      let (new, read, last) =
        >>=-eq-ok (read_moer_csv parse file.contents) (λ new. ok (add_days new days))
          (rw csv at e) in
      let (tidy, found) = read_moer_csv-values parse d h file.contents new read in
      let same : add_days new days ≡ days' = ground arith in
      rw csv (
        ap (values d h) (sym same)
        ∙ add_days-values d h new days tidy
        ∙ ap (λ x. values d h days ++ x) found)
  | inr other ↦
      let same : days ≡ days' = ground arith in
      rw other (ap (values d h) (sym same) ∙ sym (append-nil (values d h days)))
]

load_files-values :
    (parse : List ℕ → Option ℕ) (d h : List ℕ) (files : List File) (days days' : Days)
    → load_files parse files days ≡ ok days'
    → values d h days' ≡ values d h days ++ from_files parse d h files
unfolding load_files from_files
load_files-values parse d h [] days days' e =
    ground (arith, append-nil (values d h days), ap (values d h))
load_files-values parse d h (file ∷ files) days days' e =
    let (m, first, rest) = >>=-eq-ok (add_file parse file days) _ e in
    let this = if is_csv file.name then from_contents parse d h file.contents else [] in
    load_files-values parse d h files m days' rest
    ∙ ap (λ x. x ++ from_files parse d h files) (add_file-values parse d h file days m first)
    ∙ append_assoc (values d h days) this (from_files parse d h files)

-- Once the folder is loaded, the values for a day and hour are the numbers of the records of 2022 for
-- this day and hour, over all CSV files, in the order of the files and of their records.
pub load_moer_data-values :
    (parse : List ℕ → Option ℕ) (d h : List ℕ) (files : List File) (days : Days)
    → load_moer_data parse (some files) ≡ ok days
    → values d h days ≡ from_files parse d h files
unfolding load_moer_data
load_moer_data-values parse d h files days e =
    load_files-values parse d h files [] days e ∙ unfold values lookup in refl
