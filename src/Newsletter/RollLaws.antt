-- ===== src/Newsletter/RollLaws.antt =====
-- The subscribers of backend/src/newsletter over the calls that change them.
use hub_assist.Common.{
  ℕ, ◌≡◌, ◌≢◌, refl, Bool, true, false, not, Option, none, some, [], ◌∷◌, ◌==◌, if◌then◌else◌,
  filter, find?, update_where, All-filter, All, arith, Bool-cases, inl, inr, Result, ok, err,
  or_throw, throw_if, ◌>>◌, ◌>>=◌, find?-none-All,
}
use mathlib.Core.Path.{subst}
use hub_assist.Newsletter.Service.{
  NewsletterSubscriber, Table, NewsletterError, already_subscribed, invalid_confirmation,
  invalid_unsubscribe, new_subscriber, is_found, subscribe, confirmed, confirm_found, confirm,
  unsubscribe,
}

-- Two rows do not share an address.
abbrev pub Apart : NewsletterSubscriber → NewsletterSubscriber → Type 0
Apart s t = s.email ≢ t.email

-- The moment of the confirmation is there exactly for a confirmed row.
abbrev pub IsDated : NewsletterSubscriber → Type 0
IsDated s = elim s.confirmed_at as (λ _. Type 0) [
  | none ↦ s.is_confirmed ≡ false
  | some t ↦ s.is_confirmed ≡ true
]

abbrev pub IsRoll : Table → Type 0
IsRoll [] = Unit
IsRoll (s ∷ rows) = IsDated s × All (Apart s) rows × IsRoll rows

-- The tables that calls which return reach from the empty one, under any ids and tokens.
pub data NewsletterRun : Table → Type 0 where
  start : NewsletterRun []
  subscribes :
      (id confirmation unsubscription email : ℕ) (before after : Table)
      → NewsletterRun before
      → subscribe id confirmation unsubscription email before ≡ ok after
      → NewsletterRun after
  confirms :
      (now token : ℕ) (before after : Table)
      → NewsletterRun before
      → confirm now token before ≡ ok after
      → NewsletterRun after
  unsubscribes :
      (token : ℕ) (before after : Table)
      → NewsletterRun before
      → unsubscribe token before ≡ ok after
      → NewsletterRun after

filter-IsRoll :
    (p : NewsletterSubscriber → Bool) (rows : Table) → IsRoll rows → IsRoll (filter p rows)
filter-IsRoll p [] h = tt
filter-IsRoll p (s ∷ rows) h = elim (Bool-cases (p s)) [
  | inl e ↦ rw e (h.0, (All-filter (Apart s) p rows h.1), filter-IsRoll p rows h.2)
  | inr e ↦ rw e (filter-IsRoll p rows h.2)
]

-- A row as the confirmation of an id leaves it.
abbrev mark : ℕ → ℕ → NewsletterSubscriber → NewsletterSubscriber
mark now id s = if s.id == id then confirmed now s else s

mark-IsDated : (now id : ℕ) (s : NewsletterSubscriber) → IsDated s → IsDated (mark now id s)
mark-IsDated now id s h = elim (Bool-cases (s.id == id)) [ inl e ↦ rw e refl | inr e ↦ rw e h ]

Apart-mark :
    (now id : ℕ) (s t : NewsletterSubscriber) → Apart s t → Apart (mark now id s) (mark now id t)
Apart-mark now id s t h = elim (Bool-cases (s.id == id)) [
  | inl e ↦ elim (Bool-cases (t.id == id)) [ inl f ↦ rw (e, f) h | inr f ↦ rw (e, f) h ]
  | inr e ↦ elim (Bool-cases (t.id == id)) [ inl f ↦ rw (e, f) h | inr f ↦ rw (e, f) h ]
]

abbrev marked : ℕ → ℕ → Table → Table
marked now id rows = update_where (λ r. r.id == id) (confirmed now) rows

marked-Apart :
    (now id : ℕ) (s : NewsletterSubscriber) (rows : Table)
    → All (Apart s) rows
    → All (Apart (mark now id s)) (marked now id rows)
marked-Apart now id s [] h = tt
marked-Apart now id s (t ∷ rows) h = (Apart-mark now id s t h.0, marked-Apart now id s rows h.1)

marked-IsRoll : (now id : ℕ) (rows : Table) → IsRoll rows → IsRoll (marked now id rows)
marked-IsRoll now id [] h = tt
marked-IsRoll now id (s ∷ rows) h =
    (mark-IsDated now id s h.0, (marked-Apart now id s rows h.1), marked-IsRoll now id rows h.2)

new_subscriber-Apart :
    (id confirmation unsubscription email : ℕ) (rows : Table)
    → All (λ s. (s.email == email) ≡ false) rows
    → All (Apart (new_subscriber id email confirmation unsubscription)) rows
new_subscriber-Apart id confirmation unsubscription email [] h = tt
new_subscriber-Apart id confirmation unsubscription email (s ∷ rows) h = (
  (λ e. absurd (ground (arith, e, h.0))),
  new_subscriber-Apart id confirmation unsubscription email rows h.1,
)

-- The table after a call.
abbrev Yields : Result NewsletterError Table → Type 0
Yields (err e) = Unit
Yields (ok table) = IsRoll table

subscribe-IsRoll :
    (id confirmation unsubscription email : ℕ) (table : Table) (found : Option NewsletterSubscriber)
    → find? (λ s. s.email == email) table ≡ found
    → IsRoll table
    → Yields (
        throw_if (is_found found) already_subscribed
        >> ok (new_subscriber id email confirmation unsubscription ∷ table))
subscribe-IsRoll id confirmation unsubscription email table none e h = (
  refl,
  (new_subscriber-Apart id confirmation unsubscription email table
      (find?-none-All (λ s. s.email == email) table e)),
  h,
)
subscribe-IsRoll id confirmation unsubscription email table (some s) e h = tt

confirm-IsRoll :
    (now : ℕ) (table : Table) (found : Option NewsletterSubscriber)
    → IsRoll table
    → Yields (or_throw found invalid_confirmation >>= confirm_found now table)
confirm-IsRoll now table none h = tt
confirm-IsRoll now table (some s) h = elim (Bool-cases s.is_confirmed) [
  | inl e ↦ rw e tt
  | inr e ↦ rw e (marked-IsRoll now s.id table h)
]

unsubscribe-IsRoll :
    (table : Table) (found : Option NewsletterSubscriber)
    → IsRoll table
    → Yields
        (or_throw found invalid_unsubscribe >>= λ s. ok (filter (λ r. not (r.id == s.id)) table))
unsubscribe-IsRoll table none h = tt
unsubscribe-IsRoll table (some s) h = filter-IsRoll (λ r. not (r.id == s.id)) table h

-- However people subscribe, confirm and unsubscribe, and whatever ids and tokens the rows get, no two rows
-- share an address, and a row has the moment of its confirmation exactly when it is confirmed.
pub NewsletterRun-IsRoll : (table : Table) → NewsletterRun table → IsRoll table
unfolding subscribe confirm unsubscribe
NewsletterRun-IsRoll table start = tt
NewsletterRun-IsRoll table (subscribes id confirmation unsubscription email before after r e) =
    subst Yields e (
      subscribe-IsRoll id confirmation unsubscription email before
        (find? (λ s. s.email == email) before) refl (NewsletterRun-IsRoll before r))
NewsletterRun-IsRoll table (confirms now token before after r e) = subst Yields e (
    confirm-IsRoll now before (find? (λ s. s.confirmation_token == token) before)
      (NewsletterRun-IsRoll before r))
NewsletterRun-IsRoll table (unsubscribes token before after r e) = subst Yields e (
    unsubscribe-IsRoll before (find? (λ s. s.unsubscribe_token == token) before)
      (NewsletterRun-IsRoll before r))
