-- ===== src/Frontend/ReportLaws.antt =====
-- The report of frontend/src/utils/exportToCSV.ts as a reader of the format finds it.
use hub_assist.Common.{ℕ, ◌≡◌, refl, ap, ◌∙◌, Option, some, List, [], ◌∷◌, map, All}
use hub_assist.Frontend.Texts.{Text16, headers}
use hub_assist.Frontend.Csv.{start, read_csv, shown}
use hub_assist.Frontend.CsvLaws.{IsRow, read_csv-join_rows}
use hub_assist.Frontend.Report.{AttendanceRecord, row_values, generate_csv_content}

module _ (now : ℕ) (parse_date : Text16 → Option ℕ) (show : ℕ → Text16)
    (time_label to_iso : ℕ → Text16) where
  abbrev values : AttendanceRecord → List (Option Text16)
  values = row_values now parse_date show time_label to_iso

  values-IsRow : (records : List AttendanceRecord) → All IsRow (map values records)
  unfolding row_values
  values-IsRow [] = tt
  values-IsRow (r ∷ rs) = (λ e. cc, values-IsRow rs)

  map-shown :
      (records : List AttendanceRecord)
      → map (map shown) (map values records) ≡ map (λ r. map shown (values r)) records
  map-shown [] = refl
  map-shown (r ∷ rs) = ap (λ t. map shown (values r) ∷ t) (map-shown rs)

  -- Whatever the names and reasons of the records hold, the exported report is CSV by RFC 4180: a reader
  -- finds the row of headers, and then for each record, in order, one row of its ten values.
  pub read_csv-generate_csv_content :
      (records : List AttendanceRecord)
      → read_csv start [] [] (generate_csv_content now parse_date show time_label to_iso records)
        ≡ some (
            map shown headers
            ∷ map (λ r. map shown (row_values now parse_date show time_label to_iso r)) records)
  unfolding generate_csv_content
  read_csv-generate_csv_content records =
      read_csv-join_rows (headers ∷ map values records) (λ e. cc, values-IsRow records)
      ∙ ap (λ t. some (map shown headers ∷ t)) (map-shown records)
