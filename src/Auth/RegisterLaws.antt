-- ===== src/Auth/RegisterLaws.antt =====
-- From `register` to `login` of backend/src/auth/auth.service.ts.
use hub_assist.Common.{
  ℕ, ◌+◌, ◌≤◌, ◌≡◌, refl, ap, ◌∙◌, Bool, true, false, not, Option, none, some, List, [], ◌∷◌, ◌++◌,
  ◌==◌, ==_refl, find?, update_where, map, Result, ok, err, throw_if, ◌>>◌, >>=-eq-ok, ok-injective,
  if◌then◌else◌, Bool-cases, inl, inr, arith, ltb,
}
use mathlib.Core.Path.{subst}
use hub_assist.Auth.Otp.{OtpError, User, verify_otp, otp_to_verify, verified, otp_lifetime_ms}
use hub_assist.Auth.Tokens.{Account, Fresh, AuthError, not_verified, RefreshToken, login, issue}
use hub_assist.Auth.Register.{
  Member, Registration, password_rejected, email_taken, account_of, is_member, new_member, register,
  verify_found, verify_member,
}

module _ (email : ℕ) where
  abbrev here : Member → Bool
  here m = m.email == email

  find?-last :
      (members : List Member) (m : Member)
      → find? here members ≡ none
      → m.email ≡ email
      → find? here (members ++ m ∷ []) ≡ some m
  find?-last [] m h e = rw (e, ==_refl email) refl
  find?-last (x ∷ xs) m h e = elim (Bool-cases (x.email == email)) [
    | inl there ↦ absurd (ground (arith, there, h))
    | inr other ↦ rw other (find?-last xs m (rw other at h) e)
  ]

  update_where-last :
      (members : List Member) (m : Member) (f : Member → Member)
      → find? here members ≡ none
      → m.email ≡ email
      → update_where here f (members ++ m ∷ []) ≡ members ++ f m ∷ []
  update_where-last [] m f h e = rw (e, ==_refl email) refl
  update_where-last (x ∷ xs) m f h e = elim (Bool-cases (x.email == email)) [
    | inl there ↦ absurd (ground (arith, there, h))
    | inr other ↦ rw other (ap (λ t. x ∷ t) (update_where-last xs m f (rw other at h) e))
  ]

  find?-account :
      (members : List Member) (m : Member)
      → find? here members ≡ none
      → m.email ≡ email
      → find? (λ u. u.email == email) (map account_of (members ++ m ∷ [])) ≡ some (account_of m)
  find?-account [] m h e = rw (e, ==_refl email) refl
  find?-account (x ∷ xs) m h e = elim (Bool-cases (x.email == email)) [
    | inl there ↦ absurd (ground (arith, there, h))
    | inr other ↦ rw other (find?-account xs m (rw other at h) e)
  ]

not_taken : (taken : Option Member) → throw_if (is_member taken) email_taken ≡ ok tt → taken ≡ none
not_taken none h = refl
not_taken (some m) h = cc

module _ (hash : ℕ → ℕ → ℕ) (compare : ℕ → ℕ → Bool) (valid_password : ℕ → Bool)
    (undefined_over : Option ℕ → Option ℕ) where
  -- What a registration that returns has done.
  register-ok :
      (f : Registration) (email password : ℕ) (members after : List Member)
      → register hash compare valid_password undefined_over f email password members ≡ ok after
      → (find? (λ m. m.email == email) members ≡ none)
        × (members ++ new_member hash compare valid_password undefined_over f email password ∷ []
            ≡ after)
  unfolding register
  register-ok f email password members after h =
      let first =
        >>=-eq-ok
          (throw_if (not (valid_password password)) password_rejected
            >> throw_if (is_member (find? (λ m. m.email == email) members)) email_taken)
          _ h in
      let second =
        >>=-eq-ok (throw_if (not (valid_password password)) password_rejected) _ first.1 in
      (not_taken (find? (λ m. m.email == email) members) second.2, ok-injective first.2)

  login-found :
      (g : Fresh) (email password : ℕ) (accounts : List Account) (rows : List RefreshToken)
      (a : Account)
      → find? (λ u. u.email == email) accounts ≡ some a
      → compare password a.password_hash ≡ true
      → login hash compare g email password accounts rows
        ≡ (if a.is_verified then ok (issue hash compare g a.id rows, g.token) else err not_verified)
  unfolding login
  login-found g email password accounts rows a found right =
      rw (found, right) (of_verified a.is_verified (ok (issue hash compare g a.id rows, g.token)))
    where
      of_verified :
          (b : Bool) (r : Result AuthError (List RefreshToken × ℕ))
          → (throw_if (not b) not_verified >> r) ≡ (if b then r else err not_verified)
      of_verified true r = refl
      of_verified false r = refl

  -- The right guess within the ten minutes.
  verify_otp-right :
      (f : Registration) (email password now : ℕ)
      → compare f.otp (hash f.otp_salt f.otp) ≡ true
      → now ≤ f.now + otp_lifetime_ms
      → verify_otp compare valid_password undefined_over now f.otp
          (new_member hash compare valid_password undefined_over f email password).user
        ≡ (
          ok tt,
          verified compare valid_password undefined_over
              (new_member hash compare valid_password undefined_over f email password).user,
        )
  unfolding verify_otp otp_to_verify
  verify_otp-right f email password now right l =
      let in_time : ltb (f.now + otp_lifetime_ms) now ≡ false = ground arith in
      rw (in_time, right) refl

  abbrev newcomer : Registration → ℕ → ℕ → Member
  newcomer = new_member hash compare valid_password undefined_over

  -- The row after the password was given.
  abbrev settled : Registration → ℕ → ℕ → Member
  settled f email password = record (newcomer f email password) {
    user = verified compare valid_password undefined_over (newcomer f email password).user;
  }

  verify_member-last :
      (f : Registration) (email password now : ℕ) (members : List Member)
      → find? (λ m. m.email == email) members ≡ none
      → compare f.otp (hash f.otp_salt f.otp) ≡ true
      → now ≤ f.now + otp_lifetime_ms
      → verify_member hash compare valid_password undefined_over now f.otp email
          (members ++ newcomer f email password ∷ [])
        ≡ (some (ok tt), members ++ settled f email password ∷ [])
  unfolding verify_member
  verify_member-last f email password now members absent right l =
      ap
        (verify_found hash compare valid_password undefined_over now f.otp email
          (members ++ newcomer f email password ∷ []))
        (find?-last email members (newcomer f email password) absent refl)
      ∙ ap
          (λ (done : Result OtpError (Unit {0}) × User). (
            some done.0,
            update_where (λ r. r.email == email) (λ r. record r { user = done.1 })
                (members ++ newcomer f email password ∷ []),
          ))
          (verify_otp-right f email password now right l)
      ∙ ap (λ rows. (some (ok tt), rows))
          (update_where-last email members (newcomer f email password)
            (λ r. record r {
              user =
                  verified compare valid_password undefined_over (newcomer f email password).user;
            })
            absent refl)

  -- What a new member can do: not log in before the password of the e-mail was given, give it, and log in
  -- after that.
  pub record IsWelcome (f : Registration) (email password now : ℕ) (members : List Member)
      : Type 0 where
    pub shut :
        (g : Fresh) (rows : List RefreshToken)
        → login hash compare g email password (map account_of members) rows ≡ err not_verified
    pub given :
        (verify_member hash compare valid_password undefined_over now f.otp email members).0
        ≡ some (ok tt)
    pub opened :
        (g : Fresh) (rows : List RefreshToken)
        → login hash compare g email password
            (map account_of
              (verify_member hash compare valid_password undefined_over now f.otp email members).1)
            rows
          ≡ ok (issue hash compare g f.id rows, g.token)

  -- After a registration that returns, the member's password opens nothing until the one-time password of
  -- the e-mail is given, which within ten minutes is accepted; from then on the log-in returns tokens for
  -- the row of the registration. What bcrypt compares is equal to what it hashed.
  pub register-IsWelcome :
      (f : Registration) (email password now : ℕ) (members after : List Member)
      → ((salt text : ℕ) → compare text (hash salt text) ≡ true)
      → register hash compare valid_password undefined_over f email password members ≡ ok after
      → now ≤ f.now + otp_lifetime_ms
      → IsWelcome f email password now after
  unfolding verified
  register-IsWelcome f email password now members after law h l =
      let new : Member = newcomer f email password in
      let done = register-ok f email password members after h in
      let given = verify_member-last f email password now members done.0 (law f.otp_salt f.otp) l in
      let right = law f.password_salt password in
      subst (IsWelcome f email password now) done.1 (record {
        shut = λ g rows.
            login-found g email password (map account_of (members ++ new ∷ [])) rows
              (account_of new) (find?-account email members new done.0 refl) right;
        given = ap (λ p. p.0) given;
        opened = λ g rows.
            ap (λ p. login hash compare g email password (map account_of p.1) rows) given
            ∙ login-found g email password
                (map account_of (members ++ settled f email password ∷ [])) rows
                (account_of (settled f email password))
                (find?-account email members (settled f email password) done.0 refl) right;
      })
