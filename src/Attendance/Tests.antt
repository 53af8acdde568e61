-- ===== src/Attendance/Tests.antt =====
-- The attendance of backend/src/attendance on the sessions of one user.
use hub_assist.Common.{◌≡◌, refl, false, List, [], ◌∷◌, ok}
use hub_assist.Attendance.Clock.{
  Attendance, clock_out, clock_in_row, do_clock_in, do_clock_out, has_clock_out, latest_clock_in,
  refuse_open,
}
use hub_assist.Attendance.Sessions.{IsExclusive}
use hub_assist.Attendance.ClockRun.{ClockRun, IsServed, start, ClockRun-IsServed}

-- The user 7 is in since the thousandth second.
abbrev rows_in : List Attendance
rows_in = clock_in_row 1 10 1000000 7 ∷ []

exclusive : IsExclusive 7 rows_in
unfolding has_clock_out
exclusive = refl

clocks_in : do_clock_in 1 10 1000000 7 [] ≡ ok (rows_in, clock_in_row 1 10 1000000 7)
unfolding do_clock_in latest_clock_in refuse_open
clocks_in = refl

abbrev out_row : Attendance
out_row = record {
  id = 2;
  user_id = 7;
  action = clock_out;
  timestamp = 2000000;
  session_id = 10;
  auto_completed = false;
}

clocks_out : do_clock_out 2 2000000 7 rows_in ≡ ok (out_row ∷ rows_in, out_row, 1000)
unfolding do_clock_out latest_clock_in has_clock_out
clocks_out = refl

ClockRun-IsServed_example : IsServed 7 (out_row ∷ rows_in)
unfolding has_clock_out
ClockRun-IsServed_example = ClockRun-IsServed (out_row ∷ rows_in) 7 (
    ClockRun.clocks_out 2 2000000 7 1000 rows_in (out_row ∷ rows_in) out_row
      (ClockRun.clocks_in 1 10 1000000 7 [] rows_in (clock_in_row 1 10 1000000 7) start refl
        clocks_in)
      clocks_out)
