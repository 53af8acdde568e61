-- ===== src/Auth/Otp.antt =====
-- The one-time passwords of backend/src/auth/auth.service.ts (`verifyOtp`, `resendOtp`,
-- `forgotPassword`, `resetPassword`) on the columns of backend/src/users/user.entity.ts that they read
-- and write. The section's parameters stand for bcrypt's `compare`, for the password policy, and for what
-- `save` stores in a nullable column whose property is `undefined`, given what the column holds.
-- One-time passwords, passwords and their hashes are numbers, which the code only hands on.
use hub_assist.Common.{
  ℕ, ◌+◌, ◌-◌, Bool, true, false, not, Option, none, some, ok, err, leb, ltb, if◌then◌else◌, Result,
  throw_if, ◌>>◌,
}
use hub_assist.Pricing.Rules.{present}
use hub_assist.Auth.RateLimit.{ResendCheckResult, otp_resend_limit}

abbrev pub otp_max_attempts : ℕ
otp_max_attempts = 3

abbrev pub otp_lifetime_ms : ℕ
otp_lifetime_ms = 600000

pub record User : Type 0 where
  pub id : ℕ
  pub password_hash : ℕ
  pub otp : Option ℕ
  pub otp_expiry : Option ℕ
  pub otp_attempts : ℕ
  pub otp_invalidated_at : Option ℕ
  pub otp_resend_count : ℕ
  pub is_verified : Bool

pub data OtpError : Type 0 where
  no_otp otp_expired password_not_allowed invalid_otp : OtpError
  otp_invalidated wrong_otp too_many_resends : ℕ → OtpError

module _ (compare : ℕ → ℕ → Bool) (valid_password : ℕ → Bool)
    (undefined_over : Option ℕ → Option ℕ) where
  -- A wrong guess: the count, and from the third on the password's end. Numbers after `otp_invalidated`
  -- and `wrong_otp` are `attemptsRemaining`.
  unfoldable pub wrong_guess : ℕ → User → Result OtpError (Unit {0}) × User
  wrong_guess now user =
      let new_attempts = user.otp_attempts + 1 in
      if leb otp_max_attempts new_attempts
      then (
        err (otp_invalidated 0),
        record user { otp_attempts = new_attempts; otp_invalidated_at = some now },
      )
      else (
        err (wrong_otp (otp_max_attempts - new_attempts)),
        record user { otp_attempts = new_attempts },
      )

  -- The update on success.
  unfoldable pub verified : User → User
  verified user = record user {
    is_verified = true;
    otp = undefined_over user.otp;
    otp_expiry = undefined_over user.otp_expiry;
    otp_attempts = 0;
    otp_invalidated_at = undefined_over user.otp_invalidated_at;
    otp_resend_count = 0;
  }

  -- The guards of `verifyOtp`, in its order: the hash to compare with.
  unfoldable pub otp_to_verify : ℕ → User → Result OtpError ℕ
  otp_to_verify now user = elim user.otp [
    | none ↦ err no_otp
    | some hash ↦ elim user.otp_expiry [
      | none ↦ err no_otp
      | some expiry ↦
          throw_if (present user.otp_invalidated_at) (otp_invalidated 0)
          >> throw_if (ltb expiry now) otp_expired
          >> ok hash
    ]
  ]

  abbrev pub check_guess : ℕ → ℕ → User → Result OtpError ℕ → Result OtpError (Unit {0}) × User
  check_guess now otp user (err e) = (err e, user)
  check_guess now otp user (ok hash) =
      if compare otp hash then (ok tt, verified user) else wrong_guess now user

  -- `verifyOtp` for a user that the email finds: what the caller gets, and the row that it leaves. The
  -- tokens that it then makes are those of `login`.
  unfoldable pub verify_otp : ℕ → ℕ → User → Result OtpError (Unit {0}) × User
  verify_otp now otp user = check_guess now otp user (otp_to_verify now user)

  -- `resendOtp` after the rate limit's answer; `otp_hash` is the new password's.
  unfoldable pub resend_otp : ℕ → ℕ → ResendCheckResult → User → Result OtpError ℕ × User
  resend_otp now otp_hash limit user =
      if not limit.allowed
      then (err (too_many_resends limit.retry_after_seconds), user)
      else if elim limit.redis_unavailable [
        | true ↦ leb otp_resend_limit user.otp_resend_count
        | false ↦ false
      ]
      then (err (too_many_resends 300), user)
      else (
        ok limit.remaining,
        record user {
          otp = some otp_hash;
          otp_expiry = some (now + otp_lifetime_ms);
          otp_attempts = 0;
          otp_invalidated_at = undefined_over user.otp_invalidated_at;
          otp_resend_count = user.otp_resend_count + 1;
        },
      )

  unfoldable pub forgot_password : ℕ → ℕ → User → User
  forgot_password now otp_hash user = record user {
    otp = some otp_hash;
    otp_expiry = some (now + otp_lifetime_ms);
  }

  -- `resetPassword`; `new_hash` is the hash of the new password.
  unfoldable pub reset_password : ℕ → ℕ → ℕ → ℕ → User → Result OtpError User
  reset_password now otp new_password new_hash user = elim user.otp [
    | none ↦ err no_otp
    | some hash ↦ elim user.otp_expiry [
      | none ↦ err no_otp
      | some expiry ↦
          throw_if (ltb expiry now) otp_expired
          >> throw_if (not (compare otp hash)) invalid_otp
          >> throw_if (not (valid_password new_password)) password_not_allowed
          >> ok (record user {
            password_hash = new_hash;
            otp = undefined_over user.otp;
            otp_expiry = undefined_over user.otp_expiry;
          })
    ]
  ]
