-- ===== src/Attendance/SessionCalls.antt =====
-- Each call of backend/src/attendance/attendance.service.ts that writes, against the rule that a user
-- has one open session at most.
use hub_assist.Common.{
  ℕ, ◌-◌, ◌/◌, ◌≡◌, refl, ◌↔◌, true, false, Option, none, some, List, [], ◌∷◌, ok, ◌==◌, arith,
  or_throw, throw_if, count, Bool-cases, inl, inr, sym, ◌∙◌, ok-injective, >>=-eq-ok, ap,
}
use mathlib.Core.Path.{subst}
use hub_assist.Attendance.Clock.{
  Attendance, clock_in, clock_out, latest_clock_in, has_clock_out, refuse_open, do_clock_in,
  clock_in_row, clock_out_row, do_clock_out, no_active_session, already_clocked_out,
}
use hub_assist.Attendance.Sessions.{
  is_open, open_sessions, older, IsExclusive, latest_open, count-older, has_clock_out-in,
  count-open_grows,
}

open_sessions-latest :
    (u : ℕ) (rows : List Attendance)
    → IsExclusive u rows
    → open_sessions u rows ≡ latest_open u rows (latest_clock_in u rows)
open_sessions-latest u rows h = let c = count-older u rows rows in omega (arith, c, h)

refuse_open-lem :
    (u : ℕ) (rows : List Attendance) (o : Option Attendance)
    → (refuse_open u rows o ≡ ok tt) ↔ (latest_open u rows o ≡ 0)
unfolding refuse_open
refuse_open-lem u rows none = (λ _. refl, λ _. refl)
refuse_open-lem u rows (some r) = ground arith

-- For a user whose earlier sessions are closed, `clockIn` succeeds exactly when no session of the user
-- is open.
pub do_clock_in_iff :
    (id session_id now user_id : ℕ) (rows : List Attendance)
    → IsExclusive user_id rows
    → ((out : List Attendance × Attendance) × (do_clock_in id session_id now user_id rows ≡ ok out))
      ↔ (open_sessions user_id rows ≡ 0)
unfolding do_clock_in
do_clock_in_iff id session_id now u rows h =
    let latest = open_sessions-latest u rows h in
    (
      λ out.
          let (v, passed, e) = >>=-eq-ok (refuse_open u rows (latest_clock_in u rows)) _ out.1 in
          latest ∙ (refuse_open-lem u rows (latest_clock_in u rows)).0 passed,
      λ none_open. (
        (clock_in_row id session_id now u ∷ rows, clock_in_row id session_id now u),
        rw ((refuse_open-lem u rows (latest_clock_in u rows)).1 (sym latest ∙ none_open)) refl,
      ),
    )

count-open_in :
    (v : ℕ) (r : Attendance) (all rows : List Attendance)
    → r.action ≡ clock_in
    → count (is_open v (r ∷ all)) rows ≡ count (is_open v all) rows
count-open_in v r all [] h = refl
count-open_in v r all (x ∷ xs) h =
    let ih = count-open_in v r all xs h in
    let same = has_clock_out-in v x.session_id r all h in ground arith

clock_in_row-IsExclusive :
    (v u : ℕ) (r : Attendance) (rows : List Attendance)
    → r.action ≡ clock_in
    → r.user_id ≡ u
    → IsExclusive v rows
    → open_sessions u rows ≡ 0
    → IsExclusive v (r ∷ rows)
clock_in_row-IsExclusive v u r rows h k ex none_open = elim (Bool-cases (u == v)) [
  | inl same ↦
      let c = count-open_in v r rows rows h in
      let e : u ≡ v = ground arith in
      let none_open' = subst (λ i. open_sessions i rows ≡ 0) e none_open in ground arith
  | inr other ↦ let c = count-open_in v r rows (older v rows) h in ground arith
]

-- A clock-in that succeeds keeps every session but the latest closed, of every user, and with a session
-- that is new it leaves the user with one open session, that one.
pub do_clock_in-IsExclusive :
    (id session_id now user_id v : ℕ) (rows : List Attendance) {rows' : List Attendance}
    {row : Attendance}
    → IsExclusive user_id rows
    → IsExclusive v rows
    → has_clock_out user_id session_id rows ≡ false
    → do_clock_in id session_id now user_id rows ≡ ok (rows', row)
    → IsExclusive v rows' × (open_sessions user_id rows' ≡ 1) × (row.session_id ≡ session_id)
unfolding do_clock_in
do_clock_in-IsExclusive id session_id now u v rows {rows'} {row} own ex fresh h =
    let (w, passed, e) = >>=-eq-ok (refuse_open u rows (latest_clock_in u rows)) _ h in
    let closed =
      open_sessions-latest u rows own
      ∙ (refuse_open-lem u rows (latest_clock_in u rows)).0 passed in
    let new = clock_in_row id session_id now u in
    let out = ok-injective e in
    let opened : open_sessions u (new ∷ rows) ≡ 1 =
      one_open u session_id new rows refl refl refl fresh closed in
    (
      subst (IsExclusive v) (ap (λ p. p.0) out)
          (clock_in_row-IsExclusive v u new rows refl refl ex closed),
      subst (λ x. open_sessions u x ≡ 1) (ap (λ p. p.0) out) opened,
      sym (ap (λ p. p.1.session_id) out),
    )
  where
    one_open :
        (u s : ℕ) (r : Attendance) (rows : List Attendance)
        → r.action ≡ clock_in
        → r.user_id ≡ u
        → r.session_id ≡ s
        → has_clock_out u s rows ≡ false
        → open_sessions u rows ≡ 0
        → open_sessions u (r ∷ rows) ≡ 1
    one_open u s r rows a b c d e =
        let same = has_clock_out-in u s r rows a in
        let rest = count-open_in u r rows rows a in ground arith

closed_by :
    (u id now : ℕ) (s : Attendance) (rows : List Attendance)
    → has_clock_out u s.session_id (clock_out_row id now u s ∷ rows) ≡ true
unfolding has_clock_out
closed_by u id now s rows = ground arith

latest_open-one :
    (u : ℕ) (rows : List Attendance) (o : Option Attendance)
    → latest_open u rows o ≡ 1
    → (r : Attendance) × (o ≡ some r) × (has_clock_out u r.session_id rows ≡ false)
latest_open-one u rows none h = absurd (omega arith)
latest_open-one u rows (some r) h = (r, refl, ground arith)

-- For a user whose earlier sessions are closed, `clockOut` succeeds exactly when a session of the user
-- is open.
pub do_clock_out_iff :
    (id now user_id : ℕ) (rows : List Attendance)
    → IsExclusive user_id rows
    → ((out : List Attendance × Attendance × ℕ) × (do_clock_out id now user_id rows ≡ ok out))
      ↔ (open_sessions user_id rows ≡ 1)
unfolding do_clock_out
do_clock_out_iff id now u rows h =
    let latest = open_sessions-latest u rows h in
    (
      λ out.
          let (s, found, e) =
            >>=-eq-ok (or_throw (latest_clock_in u rows) no_active_session) _ out.1 in
          let (w, passed, e') =
            >>=-eq-ok (throw_if (has_clock_out u s.session_id rows) already_clocked_out) _ e in
          let row : latest_clock_in u rows ≡ some s = ground arith in
          let still_open : has_clock_out u s.session_id rows ≡ false = ground arith in
          latest ∙ rw row (rw still_open refl),
      λ one_open.
          let (s, row, still_open) =
            latest_open-one u rows (latest_clock_in u rows) (sym latest ∙ one_open) in
          (
            (clock_out_row id now u s ∷ rows, clock_out_row id now u s, (now - s.timestamp) / 1000),
            rw (row, still_open) refl,
          ),
    )

-- A clock-out that succeeds keeps every session but the latest closed, of every user, and leaves the
-- user with no open session.
pub do_clock_out-IsExclusive :
    (id now user_id v : ℕ) (rows : List Attendance) {rows' : List Attendance} {row : Attendance}
    {seconds : ℕ}
    → IsExclusive user_id rows
    → IsExclusive v rows
    → do_clock_out id now user_id rows ≡ ok (rows', row, seconds)
    → IsExclusive v rows' × (open_sessions user_id rows' ≡ 0)
unfolding do_clock_out
do_clock_out-IsExclusive id now u v rows {rows'} own ex h =
    let (s, found, e) = >>=-eq-ok (or_throw (latest_clock_in u rows) no_active_session) _ h in
    let (w, passed, e') =
      >>=-eq-ok (throw_if (has_clock_out u s.session_id rows) already_clocked_out) _ e in
    let row : latest_clock_in u rows ≡ some s = ground arith in
    let new = clock_out_row id now u s in
    let same = ap (λ p. p.0) (ok-injective e') in
    (
      subst (IsExclusive v) same (still_exclusive v new refl ex),
      subst (λ x. open_sessions u x ≡ 0) same (closes s row),
    )
  where
    still_exclusive :
        (v : ℕ) (r : Attendance)
        → r.action ≡ clock_out
        → IsExclusive v rows
        → IsExclusive v (r ∷ rows)
    still_exclusive v r a h = let c = count-open_grows v r rows (older v rows) in ground arith

    closes :
        (s : Attendance)
        → latest_clock_in u rows ≡ some s
        → open_sessions u (clock_out_row id now u s ∷ rows) ≡ 0
    closes s row =
        let new = clock_out_row id now u s in
        let c = count-older u (new ∷ rows) rows in
        let g = count-open_grows u new rows (older u rows) in
        let c' = rw row at c in
        let z : latest_open u (new ∷ rows) (some s) ≡ 0 = rw (closed_by u id now s rows) refl in
        omega (arith, c', z, g, own)
