-- ===== src/Attendance/PageTests.antt =====
-- The pages and the summary of backend/src/attendance/attendance.service.ts on a few records.
use hub_assist.Common.{ℕ, ◌+◌, ◌≡◌, refl, none, some, List, [], ◌∷◌, arith, leb, length}
use hub_assist.Pagination.Sample.{sample_codec, sample_laws}
use hub_assist.Attendance.Clock.{Attendance, clock_in_row, clock_out_row}
use hub_assist.Attendance.Pages.{Entry, own, read_pages}
use hub_assist.Attendance.PageLaws.{IsSpread, read_pages-own}
use hub_assist.Attendance.Summary.{
  get_attendance_summary, summarise, summaries, pair_all, pair_record, summary_of,
}
use hub_assist.Attendance.SummaryLaws.{total, get_attendance_summary-total}

abbrev entries : List Entry
entries =
    record { id = 3; user_id = 7; at = 9000000 }
    ∷ record { id = 2; user_id = 8; at = 8000000 }
    ∷ record { id = 1; user_id = 7; at = 5000000 }
    ∷ record { id = 4; user_id = 7; at = 3000500 }
    ∷ []

spread : IsSpread (own 7 entries)
spread = ((omega arith, (omega arith, tt)), ((omega arith, tt), (tt, tt)))

read_pages-own_example : read_pages sample_codec 4 7 1 none entries ≡ some (own 7 entries)
read_pages-own_example = read_pages-own sample_codec 7 1 entries sample_laws (omega arith) spread

abbrev hour_of : ℕ → ℕ
hour_of t = t

-- Two sessions, one of them shorter than five minutes.
abbrev day : List Attendance
day =
    clock_in_row 1 10 1000000 7
    ∷ clock_in_row 2 11 1200000 8
    ∷ clock_out_row 3 1250000 7 (clock_in_row 1 10 1000000 7)
    ∷ clock_out_row 4 9000000 8 (clock_in_row 2 11 1200000 8)
    ∷ []

get_attendance_summary-total_example :
    let r = get_attendance_summary hour_of hour_of leb 0 10000000 day in
    (total (λ b. b.sessions) r.buckets ≡ r.total_sessions)
    × (total (λ b. b.total_duration_seconds) r.buckets ≡ r.total_duration_seconds)
    × (total (λ b. b.short_anomalies + b.long_anomalies) r.buckets ≡ length r.anomalies)
get_attendance_summary-total_example =
    get_attendance_summary-total hour_of hour_of leb 0 10000000 day

-- Both sessions are counted.
counts_two : (get_attendance_summary hour_of hour_of leb 0 10000000 day).total_sessions ≡ 2
unfolding get_attendance_summary summarise summaries pair_all pair_record summary_of
counts_two = refl
