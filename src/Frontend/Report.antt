-- ===== src/Frontend/Report.antt =====
-- `calculateDuration`, `isAnomalyRecord`, `formatTimeLabel` of frontend/src/utils/dateUtils.ts, and
-- `formatUTCTimestamp`, `generateCSVContent` of frontend/src/utils/exportToCSV.ts. The section's parameters
-- are what JavaScript supplies: the clock, `Date` of a text (none for an invalid one), the text of a
-- number, and the two formats of a moment. A text that is empty is falsy, as one that is absent.
use hub_assist.Common.{
  take, ℕ, ◌+◌, ◌-◌, ◌/◌, ◌%◌, Bool, true, false, ◌||◌, ◌&&◌, Option, none, some, get_or, List, [],
  ◌∷◌, ◌++◌, ltb, ◌==◌, if◌then◌else◌, map,
}
use hub_assist.Frontend.Csv.{join_rows}
use hub_assist.Frontend.Texts.{
  Text16, headers, dash_text, active_text, invalid_text, anomaly_text, normal_text, flagged_text,
  inactivity_text, missing_text, excessive_text, sub_minute_text, hours_close_text,
}

pub record AttendanceRecord : Type 0 where
  pub member_name : Option Text16
  pub clock_in : Text16
  pub clock_out : Option Text16
  pub date : Text16
  pub is_anomaly : Bool
  pub anomaly_reason : Option Text16
  pub auto_completed : Bool
  pub auto_completed_reason : Option Text16

pub record Duration : Type 0 where
  pub minutes : ℕ
  pub formatted : Text16
  pub is_completed : Bool

-- `!text`.
abbrev pub is_blank : Text16 → Bool
is_blank [] = true
is_blank (c ∷ cs) = false

-- `a < b` on texts: by the first units that differ.
unfoldable pub text_lt : Text16 → Text16 → Bool
text_lt a [] = false
text_lt [] (d ∷ ds) = true
text_lt (c ∷ cs) (d ∷ ds) = ltb c d || (c == d && text_lt cs ds)

module _ (now : ℕ) (parse_date : Text16 → Option ℕ) (show : ℕ → Text16)
    (time_label to_iso : ℕ → Text16) where
  -- `${hours}h ${remainingMins}m`, or the minutes alone.
  unfoldable pub format_minutes : ℕ → Text16
  format_minutes mins =
      if ltb 0 (mins / 60)
      then show (mins / 60) ++ 104 ∷ 32 ∷ show (mins % 60) ++ 109 ∷ []
      else show (mins % 60) ++ 109 ∷ []

  -- `calculateDuration` from the parsed start on. `Math.round(x / 60000)` of a time that is not negative.
  unfoldable pub duration_from : ℕ → Text16 → Duration
  duration_from start_ms [] = record {
    minutes = (now - start_ms + 30000) / 60000;
    formatted = active_text;
    is_completed = false;
  }
  duration_from start_ms (c ∷ cs) = elim (parse_date (c ∷ cs)) [
    | none ↦ record { minutes = 0; formatted = invalid_text; is_completed = false }
    | some end_ms ↦
        if ltb end_ms start_ms
        then record { minutes = 0; formatted = invalid_text; is_completed = false }
        else record {
          minutes = (end_ms - start_ms + 30000) / 60000;
          formatted = format_minutes ((end_ms - start_ms + 30000) / 60000);
          is_completed = true;
        }
  ]

  unfoldable pub calculate_duration : Text16 → Option Text16 → Duration
  calculate_duration clock_in clock_out = elim (parse_date clock_in) [
    | none ↦ record { minutes = 0; formatted = dash_text; is_completed = false }
    | some start_ms ↦ duration_from start_ms (get_or clock_out [])
  ]

  abbrev record_date : AttendanceRecord → Text16
  record_date r = if is_blank r.date then take 10 r.clock_in else r.date

  -- The checks of the dates and of the length, for a record that is not flagged.
  unfoldable pub length_anomaly : AttendanceRecord → Option Text16
  length_anomaly r =
      let minutes = (calculate_duration r.clock_in r.clock_out).minutes in
      if is_blank (get_or r.clock_out [])
      then (if text_lt (record_date r) (take 10 (to_iso now)) then some missing_text else none)
      else if is_blank r.clock_in
      then none
      else if ltb 720 minutes
      then some (excessive_text ++ show ((minutes + 30) / 60) ++ hours_close_text)
      else if ltb minutes 1
      then some sub_minute_text
      else none

  -- `isAnomalyRecord`: the reason, or none for a record with no anomaly.
  unfoldable pub is_anomaly_record : AttendanceRecord → Option Text16
  is_anomaly_record r =
      if r.is_anomaly
      then some (get_or r.anomaly_reason flagged_text)
      else if r.auto_completed
      then some (get_or r.auto_completed_reason inactivity_text)
      else length_anomaly r

  abbrev pub label_of_moment : Text16 → (ℕ → Text16) → Option Text16 → Text16
  label_of_moment absent format none = absent
  label_of_moment absent format (some t) =
      if is_blank t then absent else elim (parse_date t) [ none ↦ absent | some ms ↦ format ms ]

  unfoldable pub format_time_label : Option Text16 → Text16
  format_time_label = label_of_moment dash_text time_label

  unfoldable pub format_utc_timestamp : Option Text16 → Text16
  format_utc_timestamp = label_of_moment [] to_iso

  abbrev status_of : AttendanceRecord → Text16
  status_of r = elim (is_anomaly_record r) [
    | some reason ↦ anomaly_text
    | none ↦ if is_blank (get_or r.clock_out []) then active_text else normal_text
  ]

  abbrev date_of : AttendanceRecord → Text16
  date_of r = if is_blank r.date then take 10 r.clock_in else r.date

  -- The cells of a record.
  unfoldable pub row_values : AttendanceRecord → List (Option Text16)
  row_values r =
      let duration = calculate_duration r.clock_in r.clock_out in
      some (get_or r.member_name dash_text)
      ∷ some (date_of r)
      ∷ some (format_time_label (some r.clock_in))
      ∷ some (format_time_label r.clock_out)
      ∷ some (show duration.minutes)
      ∷ some duration.formatted
      ∷ some (status_of r)
      ∷ some (get_or (is_anomaly_record r) [])
      ∷ some (format_utc_timestamp (some r.clock_in))
      ∷ some (format_utc_timestamp r.clock_out)
      ∷ []

  unfoldable pub generate_csv_content : List AttendanceRecord → Text16
  generate_csv_content records = join_rows (headers ∷ map row_values records)
