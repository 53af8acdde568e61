-- ===== src/Attendance/Clock.antt =====
-- `clockIn` and `clockOut` of backend/src/attendance/attendance.service.ts, and
-- backend/src/attendance/attendance-auto-complete.service.ts. The table is the list of its rows, the
-- clock-ins newest first, as `order: { timestamp: 'DESC' }` returns them. The services give every
-- row a session, so `sessionId` is not optional here; `details` and the hub are left out.
use hub_assist.Common.{
  ℕ, ◌+◌, ◌-◌, ◌*◌, ◌/◌, Bool, true, false, not, ◌&&◌, Option, none, some, List, [], ◌∷◌, ok, ltb,
  ◌==◌, find?, filter, Result, or_throw, throw_if, ◌>>=◌, ◌>>◌, update_where,
}
use hub_assist.Pricing.Rules.{present}

pub data AttendanceAction : Type 0 where
  clock_in clock_out : AttendanceAction

pub record Attendance : Type 0 where
  pub id : ℕ
  pub user_id : ℕ
  pub action : AttendanceAction
  pub timestamp : ℕ
  pub session_id : ℕ
  pub auto_completed : Bool

pub data AttendanceError : Type 0 where
  already_clocked_in no_active_session already_clocked_out invalid_cursor : AttendanceError

abbrev pub Attendances : Type 0 → Type 0
Attendances A = Result AttendanceError A

-- The two `where`s of `clockIn` and `clockOut`.
abbrev pub is_clock_in : ℕ → Attendance → Bool
is_clock_in user_id r = elim r.action [ clock_in ↦ r.user_id == user_id | clock_out ↦ false ]

abbrev pub is_clock_out : ℕ → ℕ → Attendance → Bool
is_clock_out user_id session_id r = elim r.action [
  | clock_in ↦ false
  | clock_out ↦ r.user_id == user_id && r.session_id == session_id
]

unfoldable pub latest_clock_in : ℕ → List Attendance → Option Attendance
latest_clock_in user_id rows = find? (is_clock_in user_id) rows

unfoldable pub has_clock_out : ℕ → ℕ → List Attendance → Bool
has_clock_out user_id session_id rows = present (find? (is_clock_out user_id session_id) rows)

-- The guard of `clockIn`.
unfoldable pub refuse_open : ℕ → List Attendance → Option Attendance → Attendances (Unit {0})
refuse_open user_id rows none = ok tt
refuse_open user_id rows (some open_session) =
    throw_if (not (has_clock_out user_id open_session.session_id rows)) already_clocked_in

-- The rows that the calls create; `id` and `session_id` are the keys that the database and the
-- service make.
abbrev pub clock_in_row : ℕ → ℕ → ℕ → ℕ → Attendance
clock_in_row id session_id now user_id = record {
  id = id;
  user_id = user_id;
  action = clock_in;
  timestamp = now;
  session_id = session_id;
  auto_completed = false;
}

abbrev pub clock_out_row : ℕ → ℕ → ℕ → Attendance → Attendance
clock_out_row id now user_id open_session = record {
  id = id;
  user_id = user_id;
  action = clock_out;
  timestamp = now;
  session_id = open_session.session_id;
  auto_completed = false;
}

unfoldable pub do_clock_in :
    ℕ → ℕ → ℕ → ℕ → List Attendance → Attendances (List Attendance × Attendance)
do_clock_in id session_id now user_id rows = do
  refuse_open user_id rows (latest_clock_in user_id rows)
  let row = clock_in_row id session_id now user_id
  ok (row ∷ rows, row)

-- The returned number is `sessionDuration`, whole seconds.
unfoldable pub do_clock_out :
    ℕ → ℕ → ℕ → List Attendance → Attendances (List Attendance × Attendance × ℕ)
do_clock_out id now user_id rows = do
  open_session ← or_throw (latest_clock_in user_id rows) no_active_session
  throw_if (has_clock_out user_id open_session.session_id rows) already_clocked_out
  let row = clock_out_row id now user_id open_session
  ok (row ∷ rows, row, (now - open_session.timestamp) / 1000)

-- The `where` of `autoCompleteAbandonedSessions`, with `cutoffTime`.
abbrev pub is_abandoned : ℕ → ℕ → Attendance → Bool
is_abandoned now max_session_hours r = elim r.action [
  | clock_in ↦ ltb r.timestamp (now - max_session_hours * 3600000) && not r.auto_completed
  | clock_out ↦ false
]

-- The clock-out that is written for a session.
abbrev pub completion : ℕ → ℕ → Attendance → Attendance
completion id max_session_hours session = record {
  id = id;
  user_id = session.user_id;
  action = clock_out;
  timestamp = session.timestamp + max_session_hours * 3600000;
  session_id = session.session_id;
  auto_completed = true;
}

-- One round of its loop: the save and the update. `new_key` gives the keys of the new rows.
unfoldable pub complete_one : (ℕ → ℕ) → ℕ → Attendance → List Attendance → List Attendance
complete_one new_key max_session_hours session rows =
    completion (new_key session.id) max_session_hours session
    ∷ update_where (λ r. r.id == session.id) (λ r. record r { auto_completed = true }) rows

unfoldable pub complete_all : (ℕ → ℕ) → ℕ → List Attendance → List Attendance → List Attendance
unfolding complete_one
complete_all new_key max_session_hours [] rows = rows
complete_all new_key max_session_hours (s ∷ ss) rows =
    complete_all new_key max_session_hours ss (complete_one new_key max_session_hours s rows)

unfoldable pub auto_complete : (ℕ → ℕ) → ℕ → ℕ → List Attendance → List Attendance
unfolding complete_all
auto_complete new_key now max_session_hours rows =
    complete_all new_key max_session_hours (filter (is_abandoned now max_session_hours) rows) rows
