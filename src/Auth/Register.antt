-- ===== src/Auth/Register.antt =====
-- `register` of backend/src/auth/auth.service.ts with create-user.provider.ts of backend/src/users, and
-- `verifyOtp` on the table of users. The section's parameters are bcrypt's `hash`, given its salt, and its
-- `compare`, the password policy, and what `save` stores for an undefined property, given what the column
-- holds. Names, the e-mail, the notification and the webhook are left out.
use hub_assist.Common.{
  ℕ, ◌+◌, Bool, true, false, not, Option, none, some, List, [], ◌∷◌, ◌++◌, ◌==◌, find?,
  update_where, Result, ok, throw_if, ◌>>◌,
}
use hub_assist.Auth.Otp.{User, OtpError, otp_lifetime_ms, verify_otp}
use hub_assist.Auth.Tokens.{Account}

-- A row of the users' table: its address, and the columns of Auth.Otp.
pub record Member : Type 0 where
  pub email : ℕ
  pub user : User

-- What a registration makes: the time, the row's id, the one-time password, and the salts of two hashes.
pub record Registration : Type 0 where
  pub now : ℕ
  pub id : ℕ
  pub otp : ℕ
  pub password_salt : ℕ
  pub otp_salt : ℕ

-- `email_taken` is the database's, whose column is unique.
pub data RegisterError : Type 0 where
  password_rejected email_taken : RegisterError

-- What `login` reads of a row.
abbrev pub account_of : Member → Account
account_of m = record {
  id = m.user.id;
  email = m.email;
  password_hash = m.user.password_hash;
  is_verified = m.user.is_verified;
}

abbrev pub is_member : Option Member → Bool
is_member none = false
is_member (some m) = true

module _ (hash : ℕ → ℕ → ℕ) (compare : ℕ → ℕ → Bool) (valid_password : ℕ → Bool)
    (undefined_over : Option ℕ → Option ℕ) where
  abbrev pub new_member : Registration → ℕ → ℕ → Member
  new_member f email password = record {
    email = email;
    user = record {
      id = f.id;
      password_hash = hash f.password_salt password;
      otp = some (hash f.otp_salt f.otp);
      otp_expiry = some (f.now + otp_lifetime_ms);
      otp_attempts = 0;
      otp_invalidated_at = none;
      otp_resend_count = 0;
      is_verified = false;
    };
  }

  unfoldable pub register : Registration → ℕ → ℕ → List Member → Result RegisterError (List Member)
  register f email password members =
      throw_if (not (valid_password password)) password_rejected
      >> throw_if (is_member (find? (λ m. m.email == email) members)) email_taken
      >> ok (members ++ new_member f email password ∷ [])

  abbrev pub verify_found :
      ℕ → ℕ → ℕ → List Member → Option Member → Option (Result OtpError (Unit {0})) × List Member
  verify_found now otp email members none = (none, members)
  verify_found now otp email members (some m) =
      let done = verify_otp compare valid_password undefined_over now otp m.user in
      (some done.0, update_where (λ r. r.email == email) (λ r. record r { user = done.1 }) members)

  -- `verifyOtp` by address; none is a user that is not found.
  unfoldable pub verify_member :
      ℕ → ℕ → ℕ → List Member → Option (Result OtpError (Unit {0})) × List Member
  verify_member now otp email members =
      verify_found now otp email members (find? (λ m. m.email == email) members)
