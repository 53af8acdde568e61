-- ===== src/Auth/Tests.antt =====
-- The one-time passwords, the rate limit and the tokens of backend/src/auth on one account. The hash of a
-- password or token here is twice the number and one more, so that no even number is a hash.
use hub_assist.Common.{
  ℕ, ◌+◌, ◌*◌, ◌≤◌, ◌<◌, ◌≡◌, refl, Bool, true, false, Option, none, some, [], ◌∷◌, arith, ◌==◌, ok,
  count, All,
}
use hub_assist.Auth.RateLimit.{
  ResendCheckResult, Event, resends, answers, throws, check_and_record, load_timestamps,
  save_timestamps, run_resends, otp_resend_limit,
}
use hub_assist.Auth.RateLaws.{within, losses, run_resends_limit}
use hub_assist.Auth.Otp.{User, resend_otp, reset_password}
use hub_assist.Auth.OtpLaws.{
  Guess, to_verify, to_reset, is_reset_by, compared, compared_by_reset, compared_three,
}
use hub_assist.Auth.Tokens.{Fresh, is_blacklisted, issue, logout}
use hub_assist.Auth.TokenLaws.{IsShut, logout-IsShut}
use hub_assist.Common.{List, ◌/◌}
use hub_assist.Auth.Base32.{alphabet, char_at, base32_encode, base32_decode}
use hub_assist.Auth.Base32Laws.{base32_decode-base32_encode}
use hub_assist.Auth.Totp.{
  byte_at, generate_hotp, time_step, truncate, verify_token, verify_token-generate_hotp,
}

-- Five resends in a minute; the cache throws at the save of the second.
abbrev busy : List Event
busy =
    resends answers answers 10000
    ∷ resends answers throws 20000
    ∷ resends answers answers 30000
    ∷ resends answers answers 40000
    ∷ resends answers answers 50000
    ∷ []

four_allowed : run_resends busy [] [] ≡ 40000 ∷ 30000 ∷ 20000 ∷ 10000 ∷ []
unfolding run_resends check_and_record load_timestamps save_timestamps
four_allowed = refl

run_resends_limit_example :
    count (within 60000) (run_resends busy [] []) ≤ otp_resend_limit * (1 + losses busy)
run_resends_limit_example =
    run_resends_limit busy 60000
      (omega arith, (omega arith, (omega arith, (omega arith, (omega arith, tt)))))

abbrev hash_of : ℕ → ℕ → ℕ
hash_of salt t = t * 2 + 1

abbrev compare_hash : ℕ → ℕ → Bool
compare_hash t h = t * 2 + 1 == h

abbrev any_password : ℕ → Bool
any_password p = true

abbrev kept : Option ℕ → Option ℕ
kept c = c

abbrev user : User
user = record {
  id = 1;
  password_hash = 9;
  otp = some 2469;
  otp_expiry = some 600000;
  otp_attempts = 0;
  otp_invalidated_at = none;
  otp_resend_count = 0;
  is_verified = false;
}

-- Wrong guesses at the password: five through `verifyOtp` and two through `resetPassword`.
abbrev wrong_guesses : List Guess
wrong_guesses =
    to_verify 1 11
    ∷ to_verify 2 12
    ∷ to_reset 3 13 15 31
    ∷ to_verify 4 14
    ∷ to_verify 5 16
    ∷ to_reset 6 17 15 31
    ∷ to_verify 7 18
    ∷ []

compared_three_example :
    (compared compare_hash any_password kept wrong_guesses user ≤ 3)
    × (compared_by_reset compare_hash any_password kept wrong_guesses user
        ≡ count (is_reset_by 600000) wrong_guesses)
compared_three_example =
    compared_three compare_hash any_password kept 2469 600000 wrong_guesses user refl refl refl
      (refl, (refl, (refl, (refl, (refl, (refl, (refl, tt)))))))

abbrev locked : User
locked = record user { otp_attempts = 3; otp_invalidated_at = some 400 }

abbrev allowed : ResendCheckResult
allowed = record {
  allowed = true;
  remaining = 2;
  retry_after_seconds = 0;
  redis_unavailable = false;
}

resent : (resend_otp compare_hash any_password kept 500 85 allowed locked).0 ≡ ok 2
unfolding resend_otp
resent = refl

abbrev reset_user : User
reset_user = record user { password_hash = 31 }

resets : reset_password compare_hash any_password kept 500 1234 15 31 user ≡ ok reset_user
unfolding reset_password
resets = refl

abbrev fresh : Fresh
fresh = record { now = 500; id = 1; token = 42; salt = 7 }

logout-IsShut_example :
    All
      (IsShut 1)
      (logout hash_of compare_hash 500 1
        (some (66, 900))
        (issue hash_of compare_hash fresh 1 [])
        []).0
    × ((later : ℕ)
        → later < 900 * 1000
        → is_blacklisted later 66
            (logout hash_of compare_hash 500 1
              (some (66, 900))
              (issue hash_of compare_hash fresh 1 [])
              []).1
          ≡ true)
    × ((later other : ℕ)
        → 900 * 1000 ≤ later
        → is_blacklisted later other
            (logout hash_of compare_hash 500 1
              (some (66, 900))
              (issue hash_of compare_hash fresh 1 [])
              []).1
          ≡ is_blacklisted later other [])
logout-IsShut_example =
    logout-IsShut hash_of compare_hash 500 1 66 900 (issue hash_of compare_hash fresh 1 []) []
      (omega arith)

no_hash : (t : ℕ) → (t * 2 + 1 == 42) ≡ false
no_hash t = ground arith

abbrev id_upper : ℕ → ℕ
id_upper c = c

upper_digits : (d : ℕ) → d < 32 → id_upper (char_at alphabet d) ≡ char_at alphabet d
upper_digits d h = refl

-- Seven bytes, which fill eleven digits and a part of the twelfth.
abbrev secret_bytes : List ℕ
secret_bytes = 72 ∷ 101 ∷ 108 ∷ 108 ∷ 111 ∷ 33 ∷ 255 ∷ []

abbrev all_bytes : All (λ b. b < 256) secret_bytes
all_bytes = (
  omega arith,
  (omega arith, (omega arith, (omega arith, (omega arith, (omega arith, (omega arith, tt)))))),
)

base32_decode-base32_encode_example :
    base32_decode id_upper (base32_encode secret_bytes) ≡ some secret_bytes
base32_decode-base32_encode_example =
    base32_decode-base32_encode id_upper upper_digits secret_bytes all_bytes

-- A digest in which every byte is the last one of the counter.
abbrev last_byte : List ℕ → List ℕ → List ℕ
last_byte key message = byte_at message 7 ∷ byte_at message 7 ∷ byte_at message 7 ∷ []

abbrev secret_text : List ℕ
secret_text = base32_encode secret_bytes

code_made :
    generate_hotp id_upper last_byte (λ t. some 842752) secret_text (59 / time_step) ≡ some 842752
unfolding generate_hotp truncate
code_made =
    rw (base32_decode-base32_encode id_upper upper_digits secret_bytes all_bytes, generate_hotp)
      refl

-- The token is six characters; they read as the code that was made in the 60th second.
verify_token-generate_hotp_example :
    verify_token id_upper last_byte
      (λ t. some 842752)
      secret_text
      61
      (56 ∷ 52 ∷ 50 ∷ 55 ∷ 53 ∷ 50 ∷ [])
    ≡ some true
verify_token-generate_hotp_example =
    verify_token-generate_hotp id_upper last_byte (λ t. some 842752) secret_text secret_bytes
      (56 ∷ 52 ∷ 50 ∷ 55 ∷ 53 ∷ 50 ∷ []) 842752 59 61
      (base32_decode-base32_encode id_upper upper_digits secret_bytes all_bytes) code_made refl refl
      (omega arith) (omega arith) (omega arith)
