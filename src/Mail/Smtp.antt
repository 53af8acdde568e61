-- ===== src/Mail/Smtp.antt =====
-- backend/src/email: smtp-circuit-breaker.ts, smtp-retry.decorator.ts and `sendTemplate` of email.service.ts
-- with both. Moments are milliseconds. The breaker's two Redis keys are kept with the moments at which they
-- expire; what the mail server answers to a call is a parameter.
use hub_assist.Common.{
  ℕ, zero, suc, ◌+◌, ◌-◌, Bool, true, false, not, ◌||◌, Option, none, some, List, [], ◌∷◌, ltb, leb,
  ◌==◌, if◌then◌else◌, Result, ok, err,
}

pub data ConnectionCode : Type 0 where
  econnrefused etimedout ehostunreach other_code : ConnectionCode

-- What a thrown error says: whether it is an `InternalServerErrorException`, its `responseCode`, its `code`.
pub record MailError : Type 0 where
  pub is_internal : Bool
  pub response_code : Option ℕ
  pub code : Option ConnectionCode

abbrev pub failure_threshold : ℕ
failure_threshold = 5

abbrev pub reset_timeout : ℕ
reset_timeout = 1800000

-- The keys `smtp:circuit-breaker:failures` and `smtp:circuit-breaker`.
pub record Breaker : Type 0 where
  pub failures : ℕ
  pub failures_until : ℕ
  pub open_until : ℕ

unfoldable pub record_success : Breaker → Breaker
record_success b = record b { open_until = 0 }

unfoldable pub record_failure : ℕ → Breaker → Breaker
record_failure now b =
    let failures = (if ltb now b.failures_until then b.failures else 0) + 1 in
    record {
      failures = failures;
      failures_until = now + 60000;
      open_until = if leb failure_threshold failures then now + reset_timeout else b.open_until;
    }

unfoldable pub is_open : ℕ → Breaker → Bool
is_open now b = ltb now b.open_until

abbrev retryable_response : Option ℕ → Bool
retryable_response none = false
retryable_response (some c) = c == 421 || c == 450 || c == 451 || c == 452

abbrev retryable_code : Option ConnectionCode → Bool
retryable_code none = false
retryable_code (some econnrefused) = true
retryable_code (some etimedout) = true
retryable_code (some ehostunreach) = true
retryable_code (some other_code) = false

unfoldable pub is_retryable_error : MailError → Bool
is_retryable_error e = retryable_response e.response_code || retryable_code e.code

-- `backoffMs[attempt - 1] || backoffMs[backoffMs.length - 1]`.
abbrev last_or : ℕ → List ℕ → ℕ
last_or n [] = n
last_or n (x ∷ xs) = last_or x xs

abbrev at_or : ℕ → ℕ → List ℕ → ℕ
at_or n index [] = n
at_or n zero (x ∷ xs) = if x == 0 then n else x
at_or n (suc index) (x ∷ xs) = at_or n index xs

unfoldable pub delay_after : List ℕ → ℕ → ℕ
delay_after backoff_ms attempt = at_or (last_or 0 backoff_ms) (attempt - 1) backoff_ms

-- The decorator's loop from one attempt on, with so many attempts left behind it. The last attempt gives
-- what it gives: an error is thrown on, whether it is retryable or not.
module _ {S : Type 0} (method : S → Result MailError (Unit {0}) × S) (wait : ℕ → S → S) where
  abbrev pub go_on_after :
      (S → Result MailError (Unit {0}) × S)
      → ℕ
      → Result MailError (Unit {0}) × S
      → Result MailError (Unit {0}) × S
  go_on_after later delay (ok done, s) = (ok done, s)
  go_on_after later delay (err e, s) =
      if is_retryable_error e then later (wait delay s) else (err e, s)

  unfoldable pub retry_from : List ℕ → ℕ → ℕ → S → Result MailError (Unit {0}) × S
  unfolding delay_after
  retry_from backoff_ms zero attempt s = method s
  retry_from backoff_ms (suc left) attempt s =
      go_on_after (retry_from backoff_ms left (attempt + 1)) (delay_after backoff_ms attempt)
        (method s)

-- The service's state: the clock, the breaker, and how often the mail server was called.
pub record Post : Type 0 where
  pub now : ℕ
  pub breaker : Breaker
  pub calls : ℕ

-- `setTimeout(resolve, delay)`.
abbrev pub let_pass : ℕ → Post → Post
let_pass ms s = record s { now = s.now + ms }

abbrev pub internal_error : MailError
internal_error = record { is_internal = true; response_code = none; code = none }

abbrev pub breaker_error : MailError
breaker_error = record { is_internal = false; response_code = none; code = none }

-- The mail server's answer to its n-th call: none where the mail is taken.
module _ (send_mail : ℕ → Option MailError) where
  -- The `catch` of `sendTemplate`.
  unfoldable pub caught : MailError → Post → Result MailError (Unit {0}) × Post
  caught e s = (
    err (if e.is_internal then e else internal_error),
    record s { breaker = record_failure s.now s.breaker },
  )

  unfoldable pub answered : Option MailError → Post → Result MailError (Unit {0}) × Post
  unfolding caught
  answered none s = (ok tt, record s { breaker = record_success s.breaker })
  answered (some e) s = caught e s

  -- `sendTemplate` below its decorator.
  unfoldable pub send_once : Bool → Post → Result MailError (Unit {0}) × Post
  unfolding caught answered
  send_once has_context s =
      if not has_context
      then caught internal_error s
      else if is_open s.now s.breaker
      then caught breaker_error s
      else answered (send_mail s.calls) (record s { calls = s.calls + 1 })

  -- `@Retry({ maxAttempts: 3, backoffMs: [2, 4, 8 minutes] })`.
  unfoldable pub send_template : Bool → Post → Result MailError (Unit {0}) × Post
  unfolding send_once retry_from
  send_template has_context s =
      retry_from (send_once has_context) let_pass (120000 ∷ 240000 ∷ 480000 ∷ []) 2 1 s

  -- Mails that are sent one after another, each at its moment.
  unfoldable pub send_all : List (ℕ × Bool) → Post → Post
  unfolding send_template
  send_all [] s = s
  send_all ((now, has_context) ∷ later) s =
      send_all later (send_template has_context (record s { now = now })).1
