-- ===== src/Newsletter/Service.antt =====
-- backend/src/newsletter/newsletter.service.ts on the table of its subscribers. Ids, e-mail addresses and
-- tokens are numbers, which the code only compares; the texts of the answers are left out. The new id and
-- tokens are arguments.
use hub_assist.Common.{
  ℕ, ◌-◌, ◌*◌, Bool, true, false, not, Option, none, some, List, [], ◌∷◌, ◌++◌, ◌==◌, length,
  filter, find?, take, update_where, Result, ok, or_throw, throw_if, ◌>>=◌, ◌>>◌, zero, suc,
}

pub record NewsletterSubscriber : Type 0 where
  pub id : ℕ
  pub email : ℕ
  pub confirmation_token : ℕ
  pub is_confirmed : Bool
  pub unsubscribe_token : ℕ
  pub confirmed_at : Option ℕ

pub data NewsletterError : Type 0 where
  already_subscribed invalid_confirmation already_confirmed invalid_unsubscribe : NewsletterError

abbrev pub Table : Type 0
Table = List NewsletterSubscriber

-- The row that `subscribe` makes.
abbrev pub new_subscriber : ℕ → ℕ → ℕ → ℕ → NewsletterSubscriber
new_subscriber id email confirmation unsubscription = record {
  id = id;
  email = email;
  confirmation_token = confirmation;
  is_confirmed = false;
  unsubscribe_token = unsubscription;
  confirmed_at = none;
}

abbrev pub is_found : Option NewsletterSubscriber → Bool
is_found none = false
is_found (some s) = true

unfoldable pub subscribe : ℕ → ℕ → ℕ → ℕ → Table → Result NewsletterError Table
subscribe id confirmation unsubscription email table =
    throw_if (is_found (find? (λ s. s.email == email) table)) already_subscribed
    >> ok (new_subscriber id email confirmation unsubscription ∷ table)

abbrev pub confirmed : ℕ → NewsletterSubscriber → NewsletterSubscriber
confirmed now s = record s { is_confirmed = true; confirmed_at = some now }

-- `confirm` for the row that the token finds.
abbrev pub confirm_found : ℕ → Table → NewsletterSubscriber → Result NewsletterError Table
confirm_found now table s =
    throw_if s.is_confirmed already_confirmed
    >> ok (update_where (λ r. r.id == s.id) (confirmed now) table)

unfoldable pub confirm : ℕ → ℕ → Table → Result NewsletterError Table
confirm now token table =
    or_throw (find? (λ s. s.confirmation_token == token) table) invalid_confirmation
    >>= confirm_found now table

unfoldable pub unsubscribe : ℕ → Table → Result NewsletterError Table
unsubscribe token table =
    or_throw (find? (λ s. s.unsubscribe_token == token) table) invalid_unsubscribe >>= λ s.
    ok (filter (λ r. not (r.id == s.id)) table)

-- `skip` of a query.
abbrev pub drop : ℕ → Table → Table
drop zero rows = rows
drop (suc n) [] = []
drop (suc n) (r ∷ rows) = drop n rows

-- A page of the confirmed rows, and how many there are.
unfoldable pub list_subscribers : ℕ → ℕ → Table → Table × ℕ
list_subscribers page limit table =
    let rows = filter (λ s. s.is_confirmed) table in
    (take limit (drop ((page - 1) * limit) rows), length rows)

-- The first pages together.
unfoldable pub read_subscribers : ℕ → ℕ → Table → Table
unfolding list_subscribers
read_subscribers zero limit table = []
read_subscribers (suc pages) limit table =
    read_subscribers pages limit table ++ (list_subscribers (suc pages) limit table).0
