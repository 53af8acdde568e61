-- ===== src/Attendance/Summary.antt =====
-- `getAttendanceSummary` of backend/src/attendance/attendance.service.ts, after the time zone and the window
-- are resolved. What the calendar of the time zone says of a moment is the section's parameters: its hour,
-- and the key of its bucket, with the order of `localeCompare` on keys. The records are in the order of the
-- query, `timestamp ASC`; each has a session.
use hub_assist.Common.{
  ℕ, ◌+◌, ◌-◌, ◌/◌, Bool, true, false, ◌||◌, Option, none, some, List, [], ◌∷◌, ◌++◌, ◌==◌, ltb,
  if◌then◌else◌, length, filter, update_where, find?,
}
use hub_assist.Pricing.Rules.{present}
use hub_assist.Attendance.Clock.{Attendance, clock_in, clock_out}

pub data AnomalyFlag : Type 0 where
  short long : AnomalyFlag

-- What `sessionMap` holds under the session of `opened`.
pub record Pair : Type 0 where
  pub opened : Attendance
  pub closed : Option Attendance

pub record SessionSummary : Type 0 where
  pub session_id : ℕ
  pub user_id : ℕ
  pub clock_in_utc : ℕ
  pub clock_out_utc : ℕ
  pub duration_seconds : ℕ
  pub anomaly : Option AnomalyFlag

pub record BucketEntry : Type 0 where
  pub bucket : ℕ
  pub sessions : ℕ
  pub total_duration_seconds : ℕ
  pub avg_duration_seconds : ℕ
  pub short_anomalies : ℕ
  pub long_anomalies : ℕ

-- The pairing loop, record by record. The map keeps its keys in the order in which they came.
unfoldable pub pair_record : Attendance → List Pair → List Pair
pair_record r pairs = elim r.action [
  | clock_in ↦
      if present (find? (λ p. p.opened.session_id == r.session_id) pairs)
      then pairs
      else pairs ++ record { opened = r; closed = none } ∷ []
  | clock_out ↦
      update_where (λ p. p.opened.session_id == r.session_id) (λ p. record p { closed = some r })
        pairs
]

unfoldable pub pair_all : List Attendance → List Pair → List Pair
pair_all [] pairs = pairs
pair_all (r ∷ rs) pairs = pair_all rs (pair_record r pairs)

unfoldable pub anomaly_of : ℕ → Option AnomalyFlag
anomaly_of duration_seconds =
    if ltb duration_seconds 300
    then some short
    else if ltb 50400 duration_seconds
    then some long
    else none

unfoldable pub summary_of : Attendance → Attendance → SessionSummary
summary_of opened closed =
    let duration = (closed.timestamp - opened.timestamp) / 1000 in
    record {
      session_id = opened.session_id;
      user_id = opened.user_id;
      clock_in_utc = opened.timestamp;
      clock_out_utc = closed.timestamp;
      duration_seconds = duration;
      anomaly = anomaly_of duration;
    }

-- The complete sessions whose clock-in lies in the window.
unfoldable pub summaries : ℕ → ℕ → List Pair → List SessionSummary
summaries window_start window_end [] = []
summaries window_start window_end (p ∷ ps) =
    let rest = summaries window_start window_end ps in
    elim p.closed [
      | none ↦ rest
      | some closed ↦
          if ltb p.opened.timestamp window_start || ltb window_end p.opened.timestamp
          then rest
          else summary_of p.opened closed ∷ rest
    ]

abbrev is_flag : AnomalyFlag → Option AnomalyFlag → Bool
is_flag short (some short) = true
is_flag short (some long) = false
is_flag long (some long) = true
is_flag long (some short) = false
is_flag f none = false

abbrev one_if : Bool → ℕ
one_if b = if b then 1 else 0

abbrev pub counted : SessionSummary → BucketEntry → BucketEntry
counted s b = record b {
  sessions = b.sessions + 1;
  total_duration_seconds = b.total_duration_seconds + s.duration_seconds;
  short_anomalies = b.short_anomalies + one_if (is_flag short s.anomaly);
  long_anomalies = b.long_anomalies + one_if (is_flag long s.anomaly);
}

abbrev pub new_bucket : ℕ → BucketEntry
new_bucket key = record {
  bucket = key;
  sessions = 0;
  total_duration_seconds = 0;
  avg_duration_seconds = 0;
  short_anomalies = 0;
  long_anomalies = 0;
}

-- A session goes to the bucket of its key, which is made first where there is none.
unfoldable pub add_to_bucket : ℕ → SessionSummary → List BucketEntry → List BucketEntry
add_to_bucket key s [] = counted s (new_bucket key) ∷ []
add_to_bucket key s (b ∷ bs) =
    let rest = add_to_bucket key s bs in if b.bucket == key then counted s b ∷ bs else b ∷ rest

unfoldable pub with_average : BucketEntry → BucketEntry
with_average b = record b {
  avg_duration_seconds = if ltb 0 b.sessions then b.total_duration_seconds / b.sessions else 0;
}

-- The counts of `arrivalHours` and `departureHours`, keys in the order in which they came.
unfoldable pub count_hour : ℕ → List (ℕ × ℕ) → List (ℕ × ℕ)
count_hour hour [] = (hour, 1) ∷ []
count_hour hour ((h, n) ∷ rest) =
    let later = count_hour hour rest in if h == hour then (h, n + 1) ∷ rest else (h, n) ∷ later

-- `peakHour`: the first hour with the greatest count. Counts are positive, so the first one beats -1.
unfoldable pub peak_from : ℕ → ℕ → List (ℕ × ℕ) → ℕ
peak_from peak most [] = peak
peak_from peak most ((h, n) ∷ rest) =
    peak_from (if ltb most n then h else peak) (if ltb most n then n else most) rest

unfoldable pub peak_hour : List (ℕ × ℕ) → Option ℕ
peak_hour [] = none
peak_hour ((h, n) ∷ rest) = some (peak_from h n rest)

unfoldable pub sum_durations : List SessionSummary → ℕ
sum_durations [] = 0
sum_durations (s ∷ ss) = s.duration_seconds + sum_durations ss

pub record AttendanceSummaryResult : Type 0 where
  pub total_sessions : ℕ
  pub total_duration_seconds : ℕ
  pub avg_duration_seconds : ℕ
  pub peak_arrival_hour : Option ℕ
  pub peak_departure_hour : Option ℕ
  pub buckets : List BucketEntry
  pub anomalies : List SessionSummary

module _ (local_hour : ℕ → ℕ) (to_bucket_key : ℕ → ℕ) (key_before : ℕ → ℕ → Bool) where
  unfoldable pub bucket_all : List SessionSummary → List BucketEntry → List BucketEntry
  bucket_all [] buckets = buckets
  bucket_all (s ∷ ss) buckets =
      bucket_all ss (add_to_bucket (to_bucket_key s.clock_in_utc) s buckets)

  unfoldable pub insert_bucket : BucketEntry → List BucketEntry → List BucketEntry
  insert_bucket b [] = b ∷ []
  insert_bucket b (x ∷ xs) =
      let rest = insert_bucket b xs in if key_before b.bucket x.bucket then b ∷ x ∷ xs else x ∷ rest

  -- The averages and the sort.
  unfoldable pub finish_buckets : List BucketEntry → List BucketEntry
  finish_buckets [] = []
  finish_buckets (b ∷ bs) = insert_bucket (with_average b) (finish_buckets bs)

  unfoldable pub count_hours :
      (SessionSummary → ℕ) → List SessionSummary → List (ℕ × ℕ) → List (ℕ × ℕ)
  count_hours moment [] hours = hours
  count_hours moment (s ∷ ss) hours =
      count_hours moment ss (count_hour (local_hour (moment s)) hours)

  unfoldable pub summarise : List SessionSummary → AttendanceSummaryResult
  summarise sessions = record {
    total_sessions = length sessions;
    total_duration_seconds = sum_durations sessions;
    avg_duration_seconds =
        if ltb 0 (length sessions) then sum_durations sessions / length sessions else 0;
    peak_arrival_hour = peak_hour (count_hours (λ s. s.clock_in_utc) sessions []);
    peak_departure_hour = peak_hour (count_hours (λ s. s.clock_out_utc) sessions []);
    buckets = finish_buckets (bucket_all sessions []);
    anomalies = filter (λ s. present s.anomaly) sessions;
  }

  unfoldable pub get_attendance_summary : ℕ → ℕ → List Attendance → AttendanceSummaryResult
  get_attendance_summary window_start window_end records =
      summarise (summaries window_start window_end (pair_all records []))
