-- ===== src/Auth/OtpLaws.antt =====
-- Guesses at a one-time password of backend/src/auth/auth.service.ts, and what its updates leave where
-- they assign `undefined`.
use hub_assist.Common.{
  ℕ, ◌+◌, ◌-◌, ◌<◌, ◌≤◌, ◌≡◌, ◌↔◌, Bool, true, false, Option, none, some, List, [], ◌∷◌, arith,
  if◌then◌else◌, All, count, leb, refl, sym, Result, ok, err,
}
use mathlib.Core.Path.{subst}
use hub_assist.Auth.RateLimit.{ResendCheckResult}
use hub_assist.Auth.Otp.{
  User, OtpError, no_otp, otp_expired, password_not_allowed, invalid_otp, wrong_otp,
  too_many_resends, otp_invalidated, wrong_guess, otp_to_verify, verify_otp, resend_otp,
  reset_password,
}

abbrev is_ok : {A : Type 0} → Result OtpError A → Bool
is_ok (ok a) = true
is_ok (err e) = false

-- A guess through one of the two calls that compare it with the stored hash.
pub data Guess : Type 0 where
  to_verify : (now guess : ℕ) → Guess
  to_reset : (now guess new_password new_hash : ℕ) → Guess

-- A guess through `resetPassword` that does not come after the expiry.
abbrev pub is_reset_by : ℕ → Guess → Bool
is_reset_by expiry (to_verify now guess) = false
is_reset_by expiry (to_reset now guess password hash) = leb now expiry

abbrev row_after : User → Result OtpError User → User
row_after user (ok after) = after
row_after user (err e) = user

abbrev is_invalid : Result OtpError User → ℕ
is_invalid (ok after) = 0
is_invalid (err no_otp) = 0
is_invalid (err otp_expired) = 0
is_invalid (err password_not_allowed) = 0
is_invalid (err invalid_otp) = 1
is_invalid (err (otp_invalidated n)) = 0
is_invalid (err (wrong_otp n)) = 0
is_invalid (err (too_many_resends n)) = 0

module _ (compare : ℕ → ℕ → Bool) (valid_password : ℕ → Bool)
    (undefined_over : Option ℕ → Option ℕ) where
  abbrev run : ℕ × ℕ → User → Result OtpError (Unit {0}) × User
  run (now, guess) user = verify_otp compare valid_password undefined_over now guess user

  abbrev reset : ℕ → ℕ → ℕ → ℕ → User → Result OtpError User
  reset now guess password hash user =
      reset_password compare valid_password undefined_over now guess password hash user

  -- The row after a guess.
  unfoldable pub guessed : Guess → User → User
  guessed (to_verify now guess) user = (run (now, guess) user).1
  guessed (to_reset now guess password hash) user =
      row_after user (reset now guess password hash user)

  -- Whether `verifyOtp` compares a guess with the hash, as a count.
  abbrev verify_compares : Guess → User → ℕ
  verify_compares (to_verify now guess) user =
      if is_ok (otp_to_verify compare valid_password undefined_over now user) then 1 else 0
  verify_compares (to_reset now guess password hash) user = 0

  -- Whether `resetPassword` refuses a guess because it has compared it with the hash, as a count.
  abbrev reset_compares : Guess → User → ℕ
  reset_compares (to_verify now guess) user = 0
  reset_compares (to_reset now guess password hash) user =
      is_invalid (reset now guess password hash user)

  -- How many of the guesses `verifyOtp` compares with the hash.
  unfoldable pub compared : List Guess → User → ℕ
  compared [] user = 0
  compared (g ∷ gs) user = verify_compares g user + compared gs (guessed g user)

  -- How many of the guesses `resetPassword` refuses because it has compared them with the hash.
  unfoldable pub compared_by_reset : List Guess → User → ℕ
  compared_by_reset [] user = 0
  compared_by_reset (g ∷ gs) user = reset_compares g user + compared_by_reset gs (guessed g user)

  abbrev pub IsWrong : ℕ → Guess → Type 0
  IsWrong hash (to_verify now guess) = compare guess hash ≡ false
  IsWrong hash (to_reset now guess password new_hash) = compare guess hash ≡ false

  -- The comparisons that a password still allows.
  abbrev budget : User → ℕ
  budget user = elim user.otp_invalidated_at [ none ↦ 3 - user.otp_attempts | some t ↦ 0 ]

  abbrev Holds : ℕ → User → Type 0
  Holds hash user = (user.otp ≡ some hash) × (elim user.otp_invalidated_at as (λ _. Type 0) [
    | none ↦ user.otp_attempts < 3
    | some t ↦ Unit
  ])

  abbrev Spends : ℕ → ℕ × ℕ → User → Type 0
  Spends hash g user =
      Holds hash (run g user).1
      × ((if is_ok (otp_to_verify compare valid_password undefined_over g.0 user) then 1 else 0)
            + budget (run g user).1
          ≤ budget user)

  verify_otp-Spends :
      (hash : ℕ) (g : ℕ × ℕ) (user : User)
      → Holds hash user
      → compare g.1 hash ≡ false
      → Spends hash g user
  unfolding verify_otp otp_to_verify wrong_guess
  verify_otp-Spends hash g user h wrong = ground arith

  reset-wrong :
      (hash now guess password new_hash : ℕ) (user : User)
      → user.otp ≡ some hash
      → compare guess hash ≡ false
      → row_after user (reset now guess password new_hash user) ≡ user
  unfolding reset_password
  reset-wrong hash now guess password new_hash user e wrong = ground arith

  guessed-Spends :
      (hash : ℕ) (g : Guess) (user : User)
      → Holds hash user
      → IsWrong hash g
      → Holds hash (guessed g user)
        × (verify_compares g user + budget (guessed g user) ≤ budget user)
  unfolding guessed
  guessed-Spends hash (to_verify now guess) user h wrong =
      verify_otp-Spends hash (now, guess) user h wrong
  guessed-Spends hash (to_reset now guess password new_hash) user h wrong =
      subst (λ after. Holds hash after × (0 + budget after ≤ budget user))
        (sym (reset-wrong hash now guess password new_hash user h.0 wrong)) (h, omega arith)

  compared-budget :
      (hash : ℕ) (guesses : List Guess) (user : User)
      → Holds hash user
      → All (IsWrong hash) guesses
      → compared guesses user ≤ budget user
  unfolding compared
  compared-budget hash [] user h wrong = omega arith
  compared-budget hash (g ∷ gs) user h wrong =
      let step = guessed-Spends hash g user h wrong.0 in
      let ih = compared-budget hash gs (guessed g user) step.0 wrong.1 in
      let spent = step.1 in omega (arith, ih, spent)

  -- The hash and the moment that it expires.
  abbrev Lasts : ℕ → ℕ → User → Type 0
  Lasts hash expiry user = (user.otp ≡ some hash) × (user.otp_expiry ≡ some expiry)

  guessed-Lasts :
      (hash expiry : ℕ) (g : Guess) (user : User)
      → Lasts hash expiry user
      → IsWrong hash g
      → Lasts hash expiry (guessed g user)
        × (reset_compares g user ≡ (if is_reset_by expiry g then 1 else 0))
  unfolding guessed verify_otp otp_to_verify wrong_guess reset_password
  guessed-Lasts hash expiry (to_verify now guess) user h wrong = ground arith
  guessed-Lasts hash expiry (to_reset now guess password new_hash) user h wrong = ground arith

  compared_by_reset-all :
      (hash expiry : ℕ) (guesses : List Guess) (user : User)
      → Lasts hash expiry user
      → All (IsWrong hash) guesses
      → compared_by_reset guesses user ≡ count (is_reset_by expiry) guesses
  unfolding compared_by_reset
  compared_by_reset-all hash expiry [] user h wrong = refl
  compared_by_reset-all hash expiry (g ∷ gs) user h wrong =
      let step = guessed-Lasts hash expiry g user h wrong.0 in
      let ih = compared_by_reset-all hash expiry gs (guessed g user) step.0 wrong.1 in
      let here = step.1 in ground (arith, ih, here)

  -- A password that is asked for afresh, and wrong guesses at it through `verifyOtp` and `resetPassword`, in
  -- any order and at whatever times, each after the one before has returned: `verifyOtp` compares three of them with the stored hash at most.
  -- `resetPassword` has no such limit: it compares every one that it gets until the password expires.
  pub compared_three :
      (hash expiry : ℕ) (guesses : List Guess) (user : User)
      → user.otp ≡ some hash
      → user.otp_expiry ≡ some expiry
      → user.otp_attempts ≡ 0
      → All (IsWrong hash) guesses
      → (compared guesses user ≤ 3)
        × (compared_by_reset guesses user ≡ count (is_reset_by expiry) guesses)
  compared_three hash expiry guesses user e lasts n wrong =
      let held : Holds hash user = (e, ground arith) in
      let most = compared-budget hash guesses user held wrong in
      (ground arith, compared_by_reset-all hash expiry guesses user (e, lasts) wrong)

  -- `verifyOtp` succeeds exactly with the password that the user's hash was made from, before the expiry,
  -- while the password is not invalidated; it then leaves the user verified with no attempt counted.
  verify_otp_iff :
      (now guess : ℕ) (user : User)
      → (verify_otp compare valid_password undefined_over now guess user).0 ≡ ok tt ↔ (
          (hash : ℕ) × (expiry : ℕ) × (user.otp ≡ some hash)
          × (user.otp_expiry ≡ some expiry)
          × (now ≤ expiry)
          × (user.otp_invalidated_at ≡ none)
          × (compare guess hash ≡ true))
  unfolding verify_otp otp_to_verify wrong_guess
  verify_otp_iff now guess user = ground arith

  -- Where `save` leaves a column alone whose property is `undefined`: once three wrong guesses have
  -- invalidated a password, no new one is ever accepted. After any resend that goes out, `verifyOtp`
  -- refuses every guess as invalidated.
  resend_otp-invalidated :
      (now later guess new_hash t remaining : ℕ) (limit : ResendCheckResult) (user : User)
      → undefined_over (some t) ≡ some t
      → user.otp_invalidated_at ≡ some t
      → (resend_otp compare valid_password undefined_over now new_hash limit user).0 ≡ ok remaining
      → (verify_otp compare valid_password undefined_over later guess
          (resend_otp compare valid_password undefined_over now new_hash limit user).1).0
        ≡ err (otp_invalidated 0)
  unfolding resend_otp verify_otp otp_to_verify
  resend_otp-invalidated now later guess new_hash t remaining limit user keeps e sent =
      ground (arith, keeps)

  -- Where `save` leaves such a column alone, a password that has reset an account's password resets it
  -- again, until it expires, to any password that the policy takes.
  reset_password_reuse :
      (now later guess password hash password2 hash2 : ℕ) (user after : User)
      → ((c : Option ℕ) → undefined_over c ≡ c)
      → reset_password compare valid_password undefined_over now guess password hash user ≡ ok after
      → (expiry : ℕ) → user.otp_expiry ≡ some expiry
      → later ≤ expiry
      → valid_password password2 ≡ true
      → reset_password compare valid_password undefined_over later guess password2 hash2 after
        ≡ ok (record after { password_hash = hash2 })
  unfolding reset_password
  reset_password_reuse now later guess password hash password2 hash2 user after keeps done expiry e
        le good =
      ground (arith, keeps user.otp, keeps user.otp_expiry)
