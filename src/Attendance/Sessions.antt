-- ===== src/Attendance/Sessions.antt =====
-- Every user has at most one open session, under the calls of
-- backend/src/attendance/attendance.service.ts.
use hub_assist.Common.{
  ℕ, ◌+◌, ◌≤◌, ◌≡◌, refl, Bool, true, not, ◌&&◌, Option, none, some, List, [], ◌∷◌, arith,
  if◌then◌else◌, count,
}
use hub_assist.Attendance.Clock.{Attendance, clock_in, is_clock_in, latest_clock_in, has_clock_out}

-- A clock-in of the user whose session has no clock-out in the table.
abbrev pub is_open : ℕ → List Attendance → Attendance → Bool
is_open user_id rows r = is_clock_in user_id r && not (has_clock_out user_id r.session_id rows)

abbrev pub open_sessions : ℕ → List Attendance → ℕ
open_sessions user_id rows = count (is_open user_id rows) rows

-- The rows behind the latest clock-in.
abbrev pub older : ℕ → List Attendance → List Attendance
older user_id [] = []
older user_id (r ∷ rs) = if is_clock_in user_id r then rs else older user_id rs

-- Every session of the user but the latest is closed.
abbrev pub IsExclusive : ℕ → List Attendance → Type 0
IsExclusive user_id rows = count (is_open user_id rows) (older user_id rows) ≡ 0

abbrev pub latest_open : ℕ → List Attendance → Option Attendance → ℕ
latest_open user_id all none = 0
latest_open user_id all (some r) = if has_clock_out user_id r.session_id all then 0 else 1

-- The open sessions are the latest one, if it is open, and the open ones behind it.
pub count-older :
    (u : ℕ) (all rows : List Attendance)
    → count (is_open u all) rows
      ≡ latest_open u all (latest_clock_in u rows) + count (is_open u all) (older u rows)
unfolding latest_clock_in
count-older u all [] = refl
count-older u all (r ∷ rs) = let ih = count-older u all rs in ground arith

-- A row that is added keeps sessions closed; a clock-in closes none.
pub has_clock_out-in :
    (u s : ℕ) (r : Attendance) (rows : List Attendance)
    → r.action ≡ clock_in
    → has_clock_out u s (r ∷ rows) ≡ has_clock_out u s rows
unfolding has_clock_out
has_clock_out-in u s r rows h = ground arith

pub has_clock_out-grows :
    (u s : ℕ) (r : Attendance) (rows : List Attendance)
    → has_clock_out u s rows ≡ true
    → has_clock_out u s (r ∷ rows) ≡ true
unfolding has_clock_out
has_clock_out-grows u s r rows h = ground arith

pub count-open_grows :
    (u : ℕ) (r : Attendance) (all rows : List Attendance)
    → count (is_open u (r ∷ all)) rows ≤ count (is_open u all) rows
count-open_grows u r all [] = omega arith
count-open_grows u r all (x ∷ xs) =
    let ih = count-open_grows u r all xs in
    let grows = has_clock_out-grows u x.session_id r all in ground arith

-- In a table where every session but the latest is closed, the user has at most one open session.
IsExclusive-open_sessions :
    (u : ℕ) (rows : List Attendance) → IsExclusive u rows → open_sessions u rows ≤ 1
IsExclusive-open_sessions u rows h = let c = count-older u rows rows in ground arith
