-- ===== src/Attendance/Abandoned.antt =====
-- What backend/src/attendance/attendance-auto-complete.service.ts does to the sessions: it closes every
-- abandoned one, and it also closes, once more, each old session that its user had closed.
use hub_assist.Common.{
  ℕ, ◌+◌, ◌≡◌, refl, Bool, true, ◌&&◌, List, [], ◌∷◌, ◌==◌, arith, if◌then◌else◌, filter, count,
  Bool-cases, update_where, inl, inr,
}
use hub_assist.Attendance.Clock.{
  Attendance, is_clock_out, is_abandoned, complete_one, complete_all, auto_complete,
}

abbrev pub clock_outs : ℕ → ℕ → List Attendance → ℕ
clock_outs user_id session_id rows = count (is_clock_out user_id session_id) rows

-- The mark changes no clock-out.
count-mark :
    (u s id : ℕ) (rows : List Attendance)
    → clock_outs u s (update_where (λ r. r.id == id) (λ r. record r { auto_completed = true }) rows)
      ≡ clock_outs u s rows
count-mark u s id [] = refl
count-mark u s id (x ∷ xs) = let ih = count-mark u s id xs in ground arith

-- The sessions of a list that a user and a session key name.
abbrev is_session : ℕ → ℕ → Attendance → Bool
is_session u s r = r.user_id == u && r.session_id == s

clock_outs-complete_one :
    (key : ℕ → ℕ) (hours u s : ℕ) (x : Attendance) (rows : List Attendance)
    → clock_outs u s (complete_one key hours x rows)
      ≡ clock_outs u s rows + (if is_session u s x then 1 else 0)
unfolding complete_one
clock_outs-complete_one key hours u s x rows = let m = count-mark u s x.id rows in omega (arith, m)

-- The run adds one clock-out for each clock-in that it takes for abandoned.
clock_outs-complete_all :
    (key : ℕ → ℕ) (hours u s : ℕ) (xs rows : List Attendance)
    → clock_outs u s (complete_all key hours xs rows)
      ≡ clock_outs u s rows + count (is_session u s) xs
unfolding complete_all
clock_outs-complete_all key hours u s [] rows = omega arith
clock_outs-complete_all key hours u s (x ∷ xs) rows =
    let ih = clock_outs-complete_all key hours u s xs (complete_one key hours x rows) in
    let one = clock_outs-complete_one key hours u s x rows in omega (arith, ih, one)

-- A clock-in of the session that is old and not marked.
abbrev pub is_taken : ℕ → ℕ → ℕ → ℕ → Attendance → Bool
is_taken now hours user_id session_id r =
    is_abandoned now hours r && (r.user_id == user_id && r.session_id == session_id)

count-filter_taken :
    (now hours u s : ℕ) (rows : List Attendance)
    → count (is_session u s) (filter (is_abandoned now hours) rows)
      ≡ count (is_taken now hours u s) rows
count-filter_taken now hours u s [] = refl
count-filter_taken now hours u s (x ∷ xs) =
    let ih = count-filter_taken now hours u s xs in
    elim (Bool-cases (is_abandoned now hours x)) [
      | inl y ↦ rw y (omega (arith, ih))
      | inr n ↦ rw n (omega (arith, ih))
    ]

-- A run writes one clock-out for each clock-in that is older than the limit and not marked, whether or
-- not the session has a clock-out already, and no other: the clock-outs of every session are those it
-- had and one for each such clock-in.
auto_complete-clock_outs :
    (new_key : ℕ → ℕ) (now max_session_hours user_id session_id : ℕ) (rows : List Attendance)
    → clock_outs user_id session_id (auto_complete new_key now max_session_hours rows)
      ≡ clock_outs user_id session_id rows
        + count (is_taken now max_session_hours user_id session_id) rows
unfolding auto_complete
auto_complete-clock_outs key now hours u s rows =
    let all = clock_outs-complete_all key hours u s (filter (is_abandoned now hours) rows) rows in
    let taken = count-filter_taken now hours u s rows in omega (arith, all, taken)
