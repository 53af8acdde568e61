-- ===== src/Attendance/ClockRun.antt =====
-- Any sequence of clock-ins and clock-outs of backend/src/attendance/attendance.service.ts.
use hub_assist.Common.{ℕ, ◌≡◌, ◌↔◌, refl, false, List, [], ok}
use hub_assist.Attendance.Clock.{Attendance, has_clock_out, do_clock_in, do_clock_out}
use hub_assist.Attendance.Sessions.{open_sessions, IsExclusive}
use hub_assist.Attendance.SessionCalls.{
  do_clock_in_iff, do_clock_in-IsExclusive, do_clock_out_iff, do_clock_out-IsExclusive,
}

-- The tables that calls which return reach from the empty one, with new session ids.
pub data ClockRun : List Attendance → Type 0 where
  start : ClockRun []
  clocks_in :
      (id session_id now user_id : ℕ) (rows rows' : List Attendance) (row : Attendance)
      → ClockRun rows
      → has_clock_out user_id session_id rows ≡ false
      → do_clock_in id session_id now user_id rows ≡ ok (rows', row)
      → ClockRun rows'
  clocks_out :
      (id now user_id seconds : ℕ) (rows rows' : List Attendance) (row : Attendance)
      → ClockRun rows
      → do_clock_out id now user_id rows ≡ ok (rows', row, seconds)
      → ClockRun rows'

ClockRun-IsExclusive :
    (rows : List Attendance) → ClockRun rows → (user_id : ℕ) → IsExclusive user_id rows
ClockRun-IsExclusive rows start v = refl
ClockRun-IsExclusive rows (clocks_in id session_id now u before after row r fresh e) v =
    (do_clock_in-IsExclusive id session_id now u v before (ClockRun-IsExclusive before r u)
      (ClockRun-IsExclusive before r v) fresh e).0
ClockRun-IsExclusive rows (clocks_out id now u seconds before after row r e) v =
    (do_clock_out-IsExclusive id now u v before (ClockRun-IsExclusive before r u)
      (ClockRun-IsExclusive before r v) e).0

-- What a user can do: the sessions before the latest are closed, `clockIn` succeeds exactly when no
-- session is open, and `clockOut` exactly when one is.
pub record IsServed (user_id : ℕ) (rows : List Attendance) : Type 0 where
  pub exclusive : IsExclusive user_id rows
  pub may_clock_in :
      (id session_id now : ℕ)
      → ((out : List Attendance × Attendance) × (do_clock_in id session_id now user_id rows
            ≡ ok out))
        ↔ (open_sessions user_id rows ≡ 0)
  pub may_clock_out :
      (id now : ℕ)
      → ((out : List Attendance × Attendance × ℕ) × (do_clock_out id now user_id rows ≡ ok out))
        ↔ (open_sessions user_id rows ≡ 1)

-- However users clock in and out, every session of a user but the latest stays closed, and at each moment
-- `clockIn` succeeds exactly when the user has no open session, and `clockOut` exactly when the user has
-- one.
pub ClockRun-IsServed :
    (rows : List Attendance) (user_id : ℕ) → ClockRun rows → IsServed user_id rows
ClockRun-IsServed rows user_id r = record {
  exclusive = ClockRun-IsExclusive rows r user_id;
  may_clock_in = λ id session_id now.
      do_clock_in_iff id session_id now user_id rows (ClockRun-IsExclusive rows r user_id);
  may_clock_out =
      λ id now. do_clock_out_iff id now user_id rows (ClockRun-IsExclusive rows r user_id);
}
