-- ===== src/Frontend/Tests.antt =====
-- The export of frontend/src/utils/exportToCSV.ts on one record, whose name needs quotes.
use hub_assist.Common.{ℕ, ◌+◌, ◌≡◌, ◌%◌, Option, none, some, [], ◌∷◌, map, false}
use hub_assist.Frontend.Texts.{Text16, headers}
use hub_assist.Frontend.Csv.{start, read_csv, shown}
use hub_assist.Frontend.Report.{AttendanceRecord, generate_csv_content, row_values}
use hub_assist.Frontend.ReportLaws.{read_csv-generate_csv_content}

-- Dates and numbers as one unit each.
abbrev parse_unit : Text16 → Option ℕ
parse_unit [] = none
parse_unit (c ∷ cs) = some c

abbrev show_unit : ℕ → Text16
show_unit n = (48 + n % 10) ∷ []

-- The member `a"b,`.
abbrev quoted_member : AttendanceRecord
quoted_member = record {
  member_name = some (97 ∷ 34 ∷ 98 ∷ 44 ∷ []);
  clock_in = 60000 ∷ [];
  clock_out = some (7260000 ∷ []);
  date = 49 ∷ [];
  is_anomaly = false;
  anomaly_reason = none;
  auto_completed = false;
  auto_completed_reason = none;
}

read_csv-generate_csv_content_example :
    read_csv start [] []
      (generate_csv_content 8000000 parse_unit show_unit show_unit show_unit (quoted_member ∷ []))
    ≡ some (
        map shown headers
        ∷ map
            (λ r. map shown (row_values 8000000 parse_unit show_unit show_unit show_unit r))
            (quoted_member ∷ []))
read_csv-generate_csv_content_example =
    read_csv-generate_csv_content 8000000 parse_unit show_unit show_unit show_unit
      (quoted_member ∷ [])
